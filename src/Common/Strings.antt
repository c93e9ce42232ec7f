-- ===== src/Common/Strings.antt =====
-- A `std::string` is the list of its bytes.
use Prim.Native.Char.{code}
use Prim.Native.String.{String}
use Prim.Native.Nat.{ℕ, suc}
use mathlib.Core.Path.{◌≡◌, refl}
use mathlib.Core.Logic.{◌↔◌}
use mathlib.Core.Bool.{Bool, true, false, ◌&&◌}
use mathlib.Core.Option
use mathlib.Core.Option.{Option, none, some}
use mathlib.Core.List.{List, [], ◌∷◌, ◌++◌}
use native.Mathlib.Omega.{arith}
use aisuite.Common.Tests.{◌==◌, if◌then◌else◌}

abbrev pub Text : Type 0
Text = List ℕ

-- The bytes of a literal, which is ASCII wherever it is used.
abbrev pub codes : String → Text
codes String.[] = []
codes (String.◌∷◌ c s) = code c ∷ codes s

-- A literal, kept shut where its letters do not matter.
unfoldable pub text : String → Text
text s = codes s

-- `operator==` of two strings.
unfoldable pub text_eq : Text → Text → Bool
text_eq [] [] = true
text_eq [] (y ∷ t) = false
text_eq (x ∷ s) [] = false
text_eq (x ∷ s) (y ∷ t) = x == y && text_eq s t

-- `starts_with`.
unfoldable pub starts_with : Text → Text → Bool
starts_with s [] = true
starts_with [] (y ∷ t) = false
starts_with (x ∷ s) (y ∷ t) = x == y && starts_with s t

-- `find` of a byte, from the start.
unfoldable pub index_of : ℕ → Text → Option ℕ
index_of c [] = none
index_of c (x ∷ s) = if x == c then some 0 else Option.map suc (index_of c s)

-- `empty`.
abbrev pub is_empty : Text → Bool
is_empty [] = true
is_empty (x ∷ s) = false

pub text_eq_iff : (s t : Text) → (text_eq s t ≡ true) ↔ (s ≡ t)
unfolding text_eq
text_eq_iff [] [] = (λ _. refl, λ _. refl)
text_eq_iff [] (y ∷ t) = (λ h. cc, λ h. cc)
text_eq_iff (x ∷ s) [] = (λ h. cc, λ h. cc)
text_eq_iff (x ∷ s) (y ∷ t) =
    (λ h. ground (arith, (text_eq_iff s t).0), λ h. ground (arith, (text_eq_iff s t).1))

pub text_eq_refl : (s : Text) → text_eq s s ≡ true
text_eq_refl s = (text_eq_iff s s).1 refl

pub starts_with-append : (s t : Text) → starts_with (s ++ t) s ≡ true
unfolding starts_with
starts_with-append [] [] = refl
starts_with-append [] (y ∷ t) = refl
starts_with-append (x ∷ s) t = ground (arith, starts_with-append s t)

-- Two texts without the separator are compared by their beginnings up to it.
pub starts_with_up_to :
    (c : ℕ) (a b x : Text)
    → index_of c a ≡ none
    → index_of c b ≡ none
    → starts_with (a ++ c ∷ x) (b ++ c ∷ []) ≡ text_eq a b
unfolding starts_with index_of text_eq
starts_with_up_to c [] [] x ha hb = ground arith
starts_with_up_to c [] (d ∷ b) x ha hb = ground arith
starts_with_up_to c (d ∷ a) [] x ha hb = ground arith
starts_with_up_to c (d ∷ a) (e ∷ b) x ha hb = ground (arith, starts_with_up_to c a b x)

pub index_of-append :
    (c : ℕ) (a b : Text) → index_of c a ≡ none → index_of c b ≡ none → index_of c (a ++ b) ≡ none
unfolding index_of
index_of-append c [] b ha hb = hb
index_of-append c (d ∷ a) b ha hb = ground (arith, index_of-append c a b)
