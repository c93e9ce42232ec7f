-- ===== src/Console/Words.antt =====
-- CommandParser: the words of a line.
use aisuite.Common.{
  ℕ, suc, ◌+◌, ◌-◌, ◌*◌, ◌^◌, Bool, ◌&&◌, ◌||◌, Option, none, some, [], ◌∷◌, leb, ltb, ◌==◌,
  if◌then◌else◌, take, drop, Text, is_empty,
}

unfoldable pub is_space : ℕ → Bool
is_space c = c == b' ' || (c == 9 || (c == 13 || (c == 10 || (c == 12 || c == 11))))

-- The two loops of `trim`.
unfoldable pub trim_start : Text → Text
trim_start [] = []
trim_start (c ∷ s) = let rest = trim_start s in if is_space c then rest else c ∷ s

unfoldable pub trim_end : Text → Text
trim_end [] = []
trim_end (c ∷ s) = let rest = trim_end s in if is_empty rest && is_space c then [] else c ∷ rest

unfoldable pub trim : Text → Text
trim value = trim_end (trim_start value)

-- The loop of `takeWord`.
unfoldable pub word_length : Text → ℕ
word_length [] = 0
word_length (c ∷ s) = let rest = word_length s in if is_space c then 0 else suc rest

-- The word, and what follows it.
unfoldable pub take_word : Text → Text × Text
take_word value = let v = trim value in let n = word_length v in (take n v, trim (drop n v))

-- `std::from_chars` of digits up to the end of the text; the value is not yet bounded.
unfoldable pub digits_value : ℕ → Text → Option ℕ
digits_value n [] = some n
digits_value n (c ∷ s) =
    let rest = digits_value (n * 10 + (c - b'0')) s in
    if leb b'0' c && leb c b'9' then rest else none

unfoldable pub in_range : Option ℕ → Option ℕ
in_range none = none
in_range (some n) = if ltb n (2 ^ 64) then some n else none

unfoldable pub unsigned_integer : Text → Option ℕ
unsigned_integer [] = none
unsigned_integer (c ∷ s) = in_range (digits_value 0 (c ∷ s))
