-- ===== src/Tests/Toy.antt =====
-- A small JSON library with enough of nlohmann::json for the examples: an object is an association
-- list, text is parsed as one string, and only strings are written out apart.
use aisuite.Common.{
  ℕ, ◌≡◌, refl, Bool, true, false, Option, none, some, [], ◌∷◌, if◌then◌else◌, Text, text_eq,
  text_eq_iff, text_eq_refl, Map, lookup, ℤ, pos, arith, ◌==◌,
}
use aisuite.Json.{Json, JsonLaws}
use aisuite.Bridge.State.{World}

mutual
  pub data Value : Type 0 where
    nothing : Value
    chars : Text → Value
    number : ℕ → Value
    signed : ℤ → Value
    members : Fields → Value

  pub data Fields : Type 0 where
    end : Fields
    field : Text → Value → Fields → Fields

abbrev fields : Map Value → Fields
fields [] = end
fields ((k, v) ∷ m) = field k v (fields m)

abbrev get : Fields → Text → Option Value
get end k = none
get (field i v m) k = if text_eq i k then some v else get m k

abbrev put : Fields → Text → Value → Fields
put end k w = field k w end
put (field i v m) k w = if text_eq i k then field i w m else field i v (put m k w)

abbrev is_members : Value → Bool
is_members (members m) = true
is_members _ = false

abbrev is_chars : Value → Bool
is_chars (chars s) = true
is_chars _ = false

abbrev is_nothing : Value → Bool
is_nothing nothing = true
is_nothing _ = false

abbrev is_number : Value → Bool
is_number (number n) = true
is_number _ = false

abbrev is_signed : Value → Bool
is_signed (signed n) = true
is_signed _ = false

abbrev find_in : Value → Text → Option Value
find_in (members m) k = get m k
find_in _ k = none

abbrev chars_of : Value → Text
chars_of (chars s) = s
chars_of _ = []

abbrev number_of : Value → ℕ
number_of (number n) = n
number_of _ = 0

abbrev signed_of : Value → ℤ
signed_of (signed n) = n
signed_of _ = pos 0

abbrev written : Value → Text
written (chars s) = b'"' ∷ s
written _ = b'0' ∷ []

-- What `written` writes for a string, and any other text as the string of its bytes.
abbrev read_back : Text → Value
read_back [] = chars []
read_back (c ∷ s) = if c == b'"' then chars s else chars (c ∷ s)

abbrev set_in : Value → Text → Value → Value
set_in (members m) k w = members (put m k w)
set_in _ k w = members (field k w end)

abbrev pub toy : Json
toy = record {
  Value = Value;
  is_object = is_members;
  is_array = λ v. false;
  is_string = is_chars;
  is_null = is_nothing;
  is_number_integer = is_signed;
  is_number_unsigned = is_number;
  find = find_in;
  get_string = chars_of;
  get_unsigned = number_of;
  get_integer = signed_of;
  dump = written;
  parse = λ s. some (read_back s);
  null = nothing;
  string = chars;
  unsigned = number;
  integer = signed;
  object = λ m. members (fields m);
  array = λ vs. nothing;
  boolean = λ b. nothing;
  same = λ v w. text_eq (written v) (written w);
  size = λ v. 1;
  set = set_in;
}

get-fields : (m : Map Value) (k : Text) → get (fields m) k ≡ lookup k m
unfolding lookup
get-fields [] k = refl
get-fields ((i, v) ∷ m) k = ground (arith, get-fields m k)

get-put_self : (m : Fields) (k : Text) (w : Value) → get (put m k w) k ≡ some w
get-put_self end k w = ground (arith, text_eq_refl k)
get-put_self (field i v m) k w = ground (arith, get-put_self m k w)

get-put_ne :
    (m : Fields) (k l : Text) (w : Value) → text_eq k l ≡ false → get (put m k w) l ≡ get m l
get-put_ne end k l w ne = ground arith
get-put_ne (field i v m) k l w ne = ground (arith, get-put_ne m k l w, text_eq_iff i k)

pub toy_laws : JsonLaws toy
toy_laws = record {
  find-object = get-fields;
  is_object-object = λ m. refl;
  find-set_self = find-set_self;
  find-set_ne = find-set_ne;
  is_object-set = is_object-set;
  is_string-string = λ s. refl;
  is_null-string = λ s. refl;
  is_null-null = refl;
  get_string-string = λ s. refl;
  dump-string_injective = λ s t e. cc;
  is_string-null = refl;
  is_number_unsigned-unsigned = λ n. refl;
  get_unsigned-unsigned = λ n b. refl;
}
  where
    find-set_self :
        (v w : Value) (k : Text) → is_members v ≡ true → find_in (set_in v k w) k ≡ some w
    find-set_self (members m) w k e = get-put_self m k w
    find-set_self nothing w k e = cc
    find-set_self (chars s) w k e = cc
    find-set_self (number n) w k e = cc
    find-set_self (signed n) w k e = cc

    find-set_ne :
        (v w : Value) (k l : Text)
        → is_members v ≡ true
        → text_eq k l ≡ false
        → find_in (set_in v k w) l ≡ find_in v l
    find-set_ne (members m) w k l e ne = get-put_ne m k l w ne
    find-set_ne nothing w k l e ne = cc
    find-set_ne (chars s) w k l e ne = cc
    find-set_ne (number n) w k l e ne = cc
    find-set_ne (signed n) w k l e ne = cc

    is_object-set :
        (v w : Value) (k : Text) → is_members v ≡ true → is_members (set_in v k w) ≡ true
    is_object-set (members m) w k e = refl
    is_object-set nothing w k e = refl
    is_object-set (chars s) w k e = refl
    is_object-set (number n) w k e = refl
    is_object-set (signed n) w k e = refl

-- Every call is answered with success, and no callback throws.
abbrev pub calm : World toy
calm = record {
  accepts = λ t e m. true;
  is_connected = λ t e. true;
  takes = λ t e m. true;
  throws = λ t h m. false;
}
