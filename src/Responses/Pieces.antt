-- ===== src/Responses/Pieces.antt =====
-- ResponsesStream::CustomInput: the bytes within a string, escapes included.
use aisuite.Common.{
  ℕ, Bool, true, false, none, some, List, [], ◌∷◌, ◌++◌, append-nil, leb, ◌==◌, Text, ◌≡◌, refl, ap,
  ◌∙◌, arith,
}
use aisuite.Json.{Json}
use aisuite.Responses.CustomInput.{
  at_value, CustomInput, Reading, reads_on, skips, second_is, quoted, on_complete_escape, on_escape,
  on_value, on_state, read_byte, read_then, read_input, read_input-in_turn,
}

-- A part of a JSON string: a byte, an escape of two bytes, `\uXXXX`, or two of those for one
-- character; an escape with the value that its string literal parses to.
pub data Piece (j : Json) : Type 0 where
  plain : ℕ → Piece j
  short : ℕ → j.Value → Piece j
  unit : (a b c d : ℕ) → j.Value → Piece j
  pair : (a b c d e f g h : ℕ) → j.Value → Piece j

-- `\uXXXX`.
abbrev unit_bytes : ℕ → ℕ → ℕ → ℕ → Text
unit_bytes a b c d = b'\\' ∷ b'u' ∷ a ∷ b ∷ c ∷ d ∷ []

-- The reader within the string, after this key.
abbrev pub inside : Text → CustomInput
inside key = record { state = at_value; key = key; escape = [] }

-- Reading goes on in `d` and has decoded `o`.
abbrev pub Reads : (j : Json) → CustomInput → Text → CustomInput → Text → Type 0
Reads j c bytes d o = read_input j c bytes ≡ record { input = d; output = o; threw = false }

module _ (j : Json) where
  open j use {Value, parse, same, string, get_string}

  unfoldable pub piece_bytes : Piece j → Text
  piece_bytes (plain c) = c ∷ []
  piece_bytes (short c v) = b'\\' ∷ c ∷ []
  piece_bytes (unit a b c d v) = unit_bytes a b c d
  piece_bytes (pair a b c d e f g h v) = unit_bytes a b c d ++ unit_bytes e f g h

  unfoldable pub piece_text : Piece j → Text
  piece_text (plain c) = c ∷ []
  piece_text (short c v) = get_string v
  piece_text (unit a b c d v) = get_string v
  piece_text (pair a b c d e f g h v) = get_string v

  -- A byte is no control character, quote or backslash; the JSON library parses the literal of an
  -- escape to its value, and refuses the first half of a pair by itself.
  unfoldable pub IsPiece : Piece j → Type 0
  IsPiece (plain c) = (c == b'\\' ≡ false) × (c == b'"' ≡ false) × (leb 32 c ≡ true)
  IsPiece (short c v) = (c == b'u' ≡ false) × (parse (quoted (b'\\' ∷ c ∷ [])) ≡ some v)
  IsPiece (unit a b c d v) = parse (quoted (unit_bytes a b c d)) ≡ some v
  IsPiece (pair a b c d e f g h v) =
      (parse (quoted (unit_bytes a b c d)) ≡ none)
      × (parse (quoted (unit_bytes a b c d ++ unit_bytes e f g h)) ≡ some v)

  unfoldable pub AllPieces : List (Piece j) → Type 0
  AllPieces [] = Unit
  AllPieces (p ∷ ps) = IsPiece p × AllPieces ps

  unfoldable pub literal : List (Piece j) → Text
  literal [] = []
  literal (p ∷ ps) = piece_bytes p ++ literal ps

  unfoldable pub decoded : List (Piece j) → Text
  decoded [] = []
  decoded (p ∷ ps) = piece_text p ++ decoded ps

  pub Reads-append :
      (c d e : CustomInput) (a b o p : Text)
      → Reads j c a d o
      → Reads j d b e p
      → Reads j c (a ++ b) e (o ++ p)
  unfolding read_then
  Reads-append c d e a b o p first second =
      read_input-in_turn j c a b
      ∙ ap (λ (r : Reading). read_then j r (read_input j r.input b)) first
      ∙ ap (λ (r : Reading). record r { output = o ++ r.output }) second

  on_complete_escape-parsed :
      (c : CustomInput) (last : Bool) (v : Value)
      → parse (quoted c.escape) ≡ some v
      → on_complete_escape j c last
        ≡ record { input = record c { escape = [] }; output = get_string v; threw = false }
  unfolding on_complete_escape
  on_complete_escape-parsed c last v e = rw (e, on_complete_escape) refl

  on_complete_escape-half :
      (c : CustomInput) → parse (quoted c.escape) ≡ none → on_complete_escape j c false ≡ reads_on c
  unfolding on_complete_escape
  on_complete_escape-half c e = rw (e, on_complete_escape) refl

  -- The two halves of a pair.
  read_input-half :
      (key : Text) (a b c d : ℕ)
      → parse (quoted (unit_bytes a b c d)) ≡ none
      → Reads j
          (inside key)
          (unit_bytes a b c d)
          (record { state = at_value; key = key; escape = unit_bytes a b c d })
          []
  unfolding read_input read_then read_byte skips on_state on_value on_escape second_is
  read_input-half key a b c d half =
      let first : CustomInput = record {
        state = at_value;
        key = key;
        escape = unit_bytes a b c d;
      } in
      rw (on_complete_escape-half first half) refl

  read_input-second_half :
      (key : Text) (a b c d e f g h : ℕ) (v : Value)
      → parse (quoted (unit_bytes a b c d ++ unit_bytes e f g h)) ≡ some v
      → Reads j
          (record { state = at_value; key = key; escape = unit_bytes a b c d })
          (unit_bytes e f g h)
          (inside key)
          (get_string v)
  unfolding read_input read_then read_byte skips on_state on_value on_escape second_is
  read_input-second_half key a b c d e f g h v parsed =
      let whole : CustomInput = record {
        state = at_value;
        key = key;
        escape = unit_bytes a b c d ++ unit_bytes e f g h;
      } in
      rw (on_complete_escape-parsed whole true v parsed, append-nil (get_string v)) refl

  read_input-piece :
      (key : Text) (p : Piece j)
      → IsPiece p
      → Reads j (inside key) (piece_bytes p) (inside key) (piece_text p)
  unfolding IsPiece piece_bytes piece_text read_input read_then read_byte skips on_state on_value
      on_escape second_is
  read_input-piece key (plain c) (no_escape, no_end, printable) =
      rw (no_escape, no_end) (ground (arith, printable))
  read_input-piece key (short c v) (no_unit, parsed) =
      let whole : CustomInput = record { state = at_value; key = key; escape = b'\\' ∷ c ∷ [] } in
      rw (no_unit, on_complete_escape-parsed whole true v parsed, append-nil (get_string v)) refl
  read_input-piece key (unit a b c d v) parsed =
      let whole : CustomInput = record {
        state = at_value;
        key = key;
        escape = unit_bytes a b c d;
      } in
      rw (on_complete_escape-parsed whole false v parsed, append-nil (get_string v)) refl
  read_input-piece key (pair a b c d e f g h v) (half, parsed) =
      Reads-append (inside key)
        (record { state = at_value; key = key; escape = unit_bytes a b c d }) (inside key)
        (unit_bytes a b c d) (unit_bytes e f g h) [] (get_string v)
        (read_input-half key a b c d half) (read_input-second_half key a b c d e f g h v parsed)

  pub read_input-literal :
      (key : Text) (ps : List (Piece j))
      → AllPieces ps
      → Reads j (inside key) (literal ps) (inside key) (decoded ps)
  unfolding AllPieces literal decoded read_input
  read_input-literal key [] v = refl
  read_input-literal key (p ∷ ps) (is_piece, v) =
      Reads-append (inside key) (inside key) (inside key) (piece_bytes p) (literal ps)
        (piece_text p) (decoded ps) (read_input-piece key p is_piece) (read_input-literal key ps v)
