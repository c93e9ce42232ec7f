-- ===== src/Common/Decimal.antt =====
-- `std::to_string` of an unsigned number.
use Prim.Native.Nat.{ℕ, zero, suc, ◌+◌, ◌-◌, ◌*◌, ◌/◌, ◌%◌, ◌<◌}
use mathlib.Core.Path.{◌≡◌, refl, sym, ap, ◌∙◌}
use mathlib.Core.List.{[], ◌∷◌}
use native.Mathlib.Omega.{arith}
use aisuite.Common.Tests.{ltb, leb, if◌then◌else◌}
use mathlib.Core.Option.{none}
use aisuite.Common.Strings.{Text, index_of, is_empty}
use mathlib.Core.Bool.{Bool, true, false, ◌&&◌}

-- The digits in front of `acc`; the fuel is more than the number.
decimal : ℕ → ℕ → Text → Text
decimal zero n acc = acc
decimal (suc fuel) n acc =
    let d : ℕ = b'0' + n % 10 in
    let rest : Text = decimal fuel (n / 10) (d ∷ acc) in if ltb n 10 then d ∷ acc else rest

unfoldable pub to_string : ℕ → Text
unfolding decimal
to_string n = decimal (suc n) n []

-- What digits stand for, read on from `n`.
unfoldable pub value : ℕ → Text → ℕ
value n [] = n
value n (c ∷ s) = value (n * 10 + (c - b'0')) s

value-decimal : (fuel n : ℕ) (acc : Text) → n < fuel → value 0 (decimal fuel n acc) ≡ value n acc
unfolding decimal value
value-decimal zero n acc h = absurd (omega arith)
value-decimal (suc fuel) n acc h =
    ground (arith, value-decimal fuel (n / 10) ((b'0' + n % 10) ∷ acc))

pub value-to_string : (n : ℕ) → value 0 (to_string n) ≡ n
unfolding to_string value
value-to_string n = value-decimal (suc n) n [] (omega arith)

pub to_string_injective : (m n : ℕ) → to_string m ≡ to_string n → m ≡ n
to_string_injective m n e = sym (value-to_string m) ∙ ap (value 0) e ∙ value-to_string n

index_of-decimal :
    (fuel n c : ℕ) (acc : Text)
    → c < b'0'
    → index_of c acc ≡ none
    → index_of c (decimal fuel n acc) ≡ none
unfolding decimal index_of
index_of-decimal zero n c acc lt e = e
index_of-decimal (suc fuel) n c acc lt e =
    ground (arith, index_of-decimal fuel (n / 10) c ((b'0' + n % 10) ∷ acc) lt)

-- A number is written with digits only.
pub index_of-to_string : (n c : ℕ) → c < b'0' → index_of c (to_string n) ≡ none
unfolding to_string index_of
index_of-to_string n c lt = index_of-decimal (suc n) n c [] lt refl

-- Only digits.
unfoldable pub is_digits : Text → Bool
is_digits [] = true
is_digits (c ∷ s) = leb b'0' c && (leb c b'9' && is_digits s)

is_digits-decimal :
    (fuel n : ℕ) (acc : Text) → is_digits acc ≡ true → is_digits (decimal fuel n acc) ≡ true
unfolding decimal is_digits
is_digits-decimal zero n acc e = e
is_digits-decimal (suc fuel) n acc e =
    ground (arith, is_digits-decimal fuel (n / 10) ((b'0' + n % 10) ∷ acc), e)

pub is_digits-to_string : (n : ℕ) → is_digits (to_string n) ≡ true
unfolding to_string is_digits
is_digits-to_string n = is_digits-decimal (suc n) n [] refl

is_empty-decimal : (fuel n : ℕ) (c : ℕ) (acc : Text) → is_empty (decimal fuel n (c ∷ acc)) ≡ false
unfolding decimal
is_empty-decimal zero n c acc = refl
is_empty-decimal (suc fuel) n c acc =
    ground (arith, is_empty-decimal fuel (n / 10) (b'0' + n % 10) (c ∷ acc))

pub is_empty-to_string : (n : ℕ) → is_empty (to_string n) ≡ false
unfolding to_string decimal
is_empty-to_string n = ground (arith, is_empty-decimal n (n / 10) (b'0' + n % 10) [])
