-- ===== src/Json.antt =====
-- The JSON library (nlohmann::json), which is not part of the repository, as an interface: the
-- operations that the code calls, and separately the documented laws that proofs rest on.
use aisuite.Common.{
  ℕ, ◌<◌, ◌^◌, ◌≡◌, Bool, true, false, Option, some, List, Text, text_eq, Map, lookup, is_some, ℤ,
}

pub record Json : Type 1 where
  pub Value : Type 0
  pub is_object : Value → Bool
  pub is_array : Value → Bool
  pub is_string : Value → Bool
  pub is_null : Value → Bool
  pub is_number_integer : Value → Bool
  pub is_number_unsigned : Value → Bool
  -- `find` of a key; `none` is `end()`.
  pub find : Value → Text → Option Value
  -- `get<std::string>`.
  pub get_string : Value → Text
  -- `get<std::uint64_t>` and `get<std::int64_t>`.
  pub get_unsigned : Value → ℕ
  pub get_integer : Value → ℤ
  pub dump : Value → Text
  -- `parse`; `none` is its exception.
  pub parse : Text → Option Value
  pub null : Value
  pub string : Text → Value
  pub unsigned : ℕ → Value
  pub integer : ℤ → Value
  -- An object from an initializer list.
  pub object : Map Value → Value
  -- `json::array` of a list, and a Boolean value.
  pub array : List Value → Value
  pub boolean : Bool → Value
  -- `operator==`, and `size`.
  pub same : Value → Value → Bool
  pub size : Value → ℕ
  -- `v[key] = w`.
  pub set : Value → Text → Value → Value

-- `contains`.
abbrev pub has : (j : Json) → j.Value → Text → Bool
has j v k = is_some (j.find v k)

pub record JsonLaws (j : Json) : Type 0 where
  pub find-object : (m : Map j.Value) (k : Text) → j.find (j.object m) k ≡ lookup k m
  pub is_object-object : (m : Map j.Value) → j.is_object (j.object m) ≡ true
  pub find-set_self :
      (v w : j.Value) (k : Text) → j.is_object v ≡ true → j.find (j.set v k w) k ≡ some w
  pub find-set_ne :
      (v w : j.Value) (k l : Text)
      → j.is_object v ≡ true
      → text_eq k l ≡ false
      → j.find (j.set v k w) l ≡ j.find v l
  pub is_object-set :
      (v w : j.Value) (k : Text) → j.is_object v ≡ true → j.is_object (j.set v k w) ≡ true
  pub is_string-string : (s : Text) → j.is_string (j.string s) ≡ true
  pub is_null-string : (s : Text) → j.is_null (j.string s) ≡ false
  pub is_null-null : j.is_null j.null ≡ true
  pub get_string-string : (s : Text) → j.get_string (j.string s) ≡ s
  pub dump-string_injective : (s t : Text) → j.dump (j.string s) ≡ j.dump (j.string t) → s ≡ t
  pub is_string-null : j.is_string j.null ≡ false
  pub is_number_unsigned-unsigned : (n : ℕ) → j.is_number_unsigned (j.unsigned n) ≡ true
  pub get_unsigned-unsigned : (n : ℕ) → n < 2 ^ 64 → j.get_unsigned (j.unsigned n) ≡ n
