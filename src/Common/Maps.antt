-- ===== src/Common/Maps.antt =====
-- A `std::unordered_map` with string keys, as the list of its entries in some order.
use mathlib.Core.Path.{◌≡◌, refl}
use mathlib.Core.Bool.{Bool, false, not}
use mathlib.Core.Option.{Option, none, some}
use mathlib.Core.List.{List, [], ◌∷◌}
use native.Mathlib.Omega.{arith}
use aisuite.Common.Tests.{if◌then◌else◌, is_some}
use aisuite.Common.Strings.{Text, text_eq, text_eq_iff}

abbrev pub Map {ℓ} : Type ℓ → Type ℓ
Map V = List (Text × V)

module _ {ℓ} {V : Type ℓ} where
  -- `find`.
  unfoldable pub lookup : Text → Map V → Option V
  lookup k [] = none
  lookup k ((j, v) ∷ m) = if text_eq j k then some v else lookup k m

  -- `contains`.
  abbrev pub contains : Text → Map V → Bool
  contains k m = is_some (lookup k m)

  -- `operator[]` assignment.
  unfoldable pub assign : Text → V → Map V → Map V
  assign k v [] = (k, v) ∷ []
  assign k v ((j, w) ∷ m) = if text_eq j k then (j, v) ∷ m else (j, w) ∷ assign k v m

  -- `emplace`, which leaves an entry with this key as it is.
  unfoldable pub emplace : Text → V → Map V → Map V
  emplace k v [] = (k, v) ∷ []
  emplace k v ((j, w) ∷ m) = if text_eq j k then (j, w) ∷ m else (j, w) ∷ emplace k v m

  -- `std::erase_if`, by the negated test.
  unfoldable pub keep_if : (Text → V → Bool) → Map V → Map V
  keep_if p [] = []
  keep_if p ((j, w) ∷ m) = if p j w then (j, w) ∷ keep_if p m else keep_if p m

  -- `erase` of a key.
  abbrev pub erase : Text → Map V → Map V
  erase k = keep_if (λ j _. not (text_eq j k))

  -- The keys, in the order of the entries.
  unfoldable pub keys : Map V → List Text
  keys [] = []
  keys ((j, w) ∷ m) = j ∷ keys m

  pub lookup-emplace :
      (k j : Text) (v : V) (m : Map V)
      → lookup j (emplace k v m)
        ≡ (if contains j m then lookup j m else if text_eq k j then some v else none)
  unfolding lookup emplace
  lookup-emplace k j v [] = refl
  lookup-emplace k j v ((i, w) ∷ m) =
      ground (arith, text_eq_iff k j, text_eq_iff i k, text_eq_iff i j, lookup-emplace k j v m)

  pub lookup-assign :
      (k j : Text) (v : V) (m : Map V)
      → lookup j (assign k v m) ≡ (if text_eq k j then some v else lookup j m)
  unfolding lookup assign
  lookup-assign k j v [] = refl
  lookup-assign k j v ((i, w) ∷ m) =
      ground (arith, text_eq_iff k j, text_eq_iff i k, text_eq_iff i j, lookup-assign k j v m)

  pub lookup-erase :
      (k j : Text) (m : Map V) → lookup j (erase k m) ≡ (if text_eq k j then none else lookup j m)
  unfolding lookup keep_if
  lookup-erase k j [] = ground arith
  lookup-erase k j ((i, w) ∷ m) =
      ground (arith, text_eq_iff k j, text_eq_iff i k, text_eq_iff i j, lookup-erase k j m)

  -- Where no key stands twice, an entry is found after `erase_if` exactly when it was kept.
  abbrev pub Distinct : Map V → Type 0
  Distinct [] = Unit
  Distinct ((j, w) ∷ m) = (contains j m ≡ false) × Distinct m

  abbrev pub kept : (Text → V → Bool) → Text → Option V → Option V
  kept p j none = none
  kept p j (some v) = if p j v then some v else none

  contains-keep_if :
      (p : Text → V → Bool) (j : Text) (m : Map V)
      → contains j m ≡ false
      → lookup j (keep_if p m) ≡ none
  unfolding lookup keep_if
  contains-keep_if p j [] e = refl
  contains-keep_if p j ((i, w) ∷ m) e = ground (arith, contains-keep_if p j m)

  pub lookup-keep_if :
      (p : Text → V → Bool) (j : Text) (m : Map V)
      → Distinct m
      → lookup j (keep_if p m) ≡ kept p j (lookup j m)
  unfolding lookup keep_if
  lookup-keep_if p j [] d = refl
  lookup-keep_if p j ((i, w) ∷ m) d =
      ground (arith, text_eq_iff i j, lookup-keep_if p j m d.1, contains-keep_if p j m)

  pub keep_if-Distinct : (p : Text → V → Bool) (m : Map V) → Distinct m → Distinct (keep_if p m)
  unfolding keep_if lookup
  keep_if-Distinct p [] d = tt
  keep_if-Distinct p ((i, w) ∷ m) d =
      ground (arith, keep_if-Distinct p m d.1, contains-keep_if p i m)

  pub emplace-Distinct : (k : Text) (v : V) (m : Map V) → Distinct m → Distinct (emplace k v m)
  unfolding emplace lookup
  emplace-Distinct k v [] d = (refl, tt)
  emplace-Distinct k v ((i, w) ∷ m) d =
      ground (
        arith,
        emplace-Distinct k v m d.1,
        lookup-emplace k i v m,
        text_eq_iff k i,
        text_eq_iff i k,
      )

  pub assign-Distinct : (k : Text) (v : V) (m : Map V) → Distinct m → Distinct (assign k v m)
  unfolding assign lookup
  assign-Distinct k v [] d = (refl, tt)
  assign-Distinct k v ((i, w) ∷ m) d =
      ground
        (arith, assign-Distinct k v m d.1, lookup-assign k i v m, text_eq_iff k i, text_eq_iff i k)
