-- ===== src/Responses/Decoding.antt =====
-- ResponsesStream::CustomInput: what the reader decodes from the object with the field "input".
use aisuite.Common.{
  ℕ, Bool, true, false, ◌&&◌, some, List, [], ◌∷◌, ◌++◌, append-nil, Text, text, ◌≡◌, refl, sym, ap,
  ◌∙◌, arith,
}
use aisuite.Json.{Json}
use aisuite.Responses.CustomInput.{
  at_open, at_key, at_colon, at_quote, at_value, at_close, at_done, InputState, CustomInput,
  Reading, new_input, reads_on, is_space, skips, ends_unescaped, on_complete_key, on_key, on_value,
  expect, on_state, read_byte, read_then, read_input, read_input-in_turn,
}
use aisuite.Responses.Pieces.{
  Piece, AllPieces, literal, decoded, inside, Reads, Reads-append, read_input-literal,
}

unfoldable pub all_space : Text → Bool
all_space [] = true
all_space (c ∷ s) = is_space c && all_space s

-- The white space before each token of the object, and behind the last one.
pub record Spacing : Type 0 where
  pub before_open : Text
  pub before_key : Text
  pub before_colon : Text
  pub before_value : Text
  pub before_close : Text
  pub behind : Text

unfoldable pub IsSpacing : Spacing → Type 0
IsSpacing s =
    (all_space s.before_open ≡ true)
    × (all_space s.before_key ≡ true)
    × (all_space s.before_colon ≡ true)
    × (all_space s.before_value ≡ true)
    × (all_space s.before_close ≡ true)
    × (all_space s.behind ≡ true)

-- `"input"`.
abbrev pub input_key : Text
input_key = b'"' ∷ b'i' ∷ b'n' ∷ b'p' ∷ b'u' ∷ b't' ∷ b'"' ∷ []

-- An object with the field "input" and the string of this literal.
abbrev pub object_text : Spacing → Text → Text
object_text s value =
    s.before_open
    ++ b'{'
      ∷ (s.before_key
          ++ (input_key
              ++ (s.before_colon
                  ++ b':'
                    ∷ (s.before_value
                        ++ b'"' ∷ (value ++ b'"' ∷ (s.before_close ++ b'}' ∷ s.behind))))))

unfoldable pub joined : List Text → Text
joined [] = []
joined (d ∷ ds) = d ++ joined ds

-- The states in which white space is passed over.
unfoldable passes_space : InputState → Bool
passes_space at_value = false
passes_space at_key = false
passes_space _ = true

skips-passes_space :
    (s : InputState) (b : ℕ) → passes_space s ≡ true → is_space b ≡ true → skips s b ≡ true
unfolding passes_space skips
skips-passes_space at_value b k e = cc
skips-passes_space at_key b k e = cc
skips-passes_space at_open b k e = e
skips-passes_space at_colon b k e = e
skips-passes_space at_quote b k e = e
skips-passes_space at_close b k e = e
skips-passes_space at_done b k e = e

-- The reader in this state, behind the key.
abbrev pub behind_key : InputState → CustomInput
behind_key s = record { state = s; key = input_key; escape = [] }

module _ (j : Json) where
  open j use {Value, parse, same, string}

  -- White space outside the key and the value.
  read_input-space :
      (c : CustomInput) (s : Text)
      → passes_space c.state ≡ true
      → all_space s ≡ true
      → Reads j c s c []
  unfolding all_space read_input read_then read_byte passes_space
  read_input-space c [] k v = refl
  read_input-space c (b ∷ s) k v =
      let space : is_space b ≡ true = ground (arith, v) in
      let skipped : skips c.state b ≡ true = skips-passes_space c.state b k space in
      rw (skipped, read_input-space c s k (ground (arith, v))) refl

  read_input-key_space :
      (s : Text)
      → all_space s ≡ true
      → Reads j
          (record { state = at_key; key = []; escape = [] })
          s
          (record { state = at_key; key = []; escape = [] })
          []
  unfolding all_space read_input read_then read_byte skips on_state on_key
  read_input-key_space [] v = refl
  read_input-key_space (b ∷ s) v =
      let space : is_space b ≡ true = ground (arith, v) in
      rw (space, read_input-key_space s (ground (arith, v))) refl

  on_complete_key-parsed :
      (c : CustomInput) (v : Value)
      → parse c.key ≡ some v
      → same v (string (text "input")) ≡ true
      → on_complete_key j c ≡ reads_on (record c { state = at_colon })
  unfolding on_complete_key
  on_complete_key-parsed c v e right = rw (e, on_complete_key) (rw right refl)

  read_input-key :
      (v : Value)
      → parse input_key ≡ some v
      → same v (string (text "input")) ≡ true
      → Reads j
          (record { state = at_key; key = []; escape = [] })
          input_key
          (record { state = at_colon; key = input_key; escape = [] })
          []
  unfolding read_input read_then read_byte skips on_state on_key ends_unescaped is_space
  read_input-key v e right =
      let whole : CustomInput = record { state = at_key; key = input_key; escape = [] } in
      rw (on_complete_key-parsed whole v e right) refl

  -- White space and the byte of a token, and what follows them.
  read_input-token :
      (c d e : CustomInput) (s : Text) (b : ℕ) (rest o : Text)
      → passes_space c.state ≡ true
      → all_space s ≡ true
      → Reads j c (b ∷ []) d []
      → Reads j d rest e o
      → Reads j c (s ++ b ∷ rest) e o
  read_input-token c d e s b rest o k v token next =
      Reads-append j c c e s (b ∷ rest) [] o (read_input-space c s k v)
        (Reads-append j c d e (b ∷ []) rest [] o token next)

  -- The end of the object, from within the string.
  read_input-ending :
      (close behind value o : Text)
      → all_space close ≡ true
      → all_space behind ≡ true
      → Reads j (inside input_key) value (inside input_key) o
      → Reads j (inside input_key) (value ++ b'"' ∷ (close ++ b'}' ∷ behind)) (behind_key at_done) o
  unfolding passes_space read_input read_then read_byte skips is_space on_state expect on_value
  read_input-ending close behind value o v w next =
      let i = inside input_key in
      let final = behind_key at_done in
      let rest = close ++ b'}' ∷ behind in
      let closing =
        read_input-token (behind_key at_close) final final close b'}' behind [] refl v refl
          (read_input-space final behind refl w) in
      Reads-append j i i final value (b'"' ∷ rest) o [] next
        (Reads-append j i (behind_key at_close) final (b'"' ∷ []) rest [] [] refl closing)
      ∙ ap (λ (x : Text). record { input = final; output = x; threw = false }) (append-nil o)

  read_input-object_text :
      (s : Spacing) (ps : List (Piece j)) (v : Value)
      → IsSpacing s
      → AllPieces j ps
      → parse input_key ≡ some v
      → same v (string (text "input")) ≡ true
      → Reads j new_input (object_text s (literal j ps)) (behind_key at_done) (decoded j ps)
  unfolding IsSpacing passes_space read_input read_then read_byte skips is_space on_state expect
  read_input-object_text s ps v (s0, s1, s2, s3, s4, s5) pieces parsed right =
      let o = decoded j ps in
      let at_start : CustomInput = record { state = at_key; key = []; escape = [] } in
      let final = behind_key at_done in
      let value_text = literal j ps ++ b'"' ∷ (s.before_close ++ b'}' ∷ s.behind) in
      let quote_text = s.before_value ++ b'"' ∷ value_text in
      let colon_text = s.before_colon ++ b':' ∷ quote_text in
      let value =
        read_input-ending s.before_close s.behind (literal j ps) o s4 s5
          (read_input-literal j input_key ps pieces) in
      let quote =
        read_input-token (behind_key at_quote) (inside input_key) final s.before_value b'"'
          value_text o refl s3 refl value in
      let colon =
        read_input-token (behind_key at_colon) (behind_key at_quote) final s.before_colon b':'
          quote_text o refl s2 refl quote in
      let key =
        Reads-append j at_start (behind_key at_colon) final input_key colon_text [] o
          (read_input-key v parsed right) colon in
      let spaced =
        Reads-append j at_start at_start final s.before_key (input_key ++ colon_text) [] o
          (read_input-key_space s.before_key s1) key in
      read_input-token new_input at_start final s.before_open b'{'
        (s.before_key ++ (input_key ++ colon_text)) o refl s0 refl spaced

  -- The deltas in turn, each read where the one before ended.
  unfoldable pub read_deltas : CustomInput → List Text → Reading
  read_deltas c [] = reads_on c
  read_deltas c (d ∷ ds) =
      let r = read_input j c d in let rest = read_deltas r.input ds in read_then j r rest

  read_deltas-joined :
      (c : CustomInput) (ds : List Text) → read_deltas c ds ≡ read_input j c (joined ds)
  unfolding read_deltas joined read_input
  read_deltas-joined c [] = refl
  read_deltas-joined c (d ∷ ds) =
      let r = read_input j c d in
      ap (read_then j r) (read_deltas-joined r.input ds)
      ∙ sym (read_input-in_turn j c d (joined ds))

  -- If the JSON library parses the key to a value that equals the string "input", and the deltas
  -- are together an object with this key and the string literal of these pieces, with white space
  -- around the tokens: wherever they are cut, reading them in turn throws nothing, decodes the text
  -- of the pieces, and leaves the reader at the end of the object.
  pub read_deltas-object_text :
      (s : Spacing) (ps : List (Piece j)) (v : Value) (ds : List Text)
      → IsSpacing s
      → AllPieces j ps
      → parse input_key ≡ some v
      → same v (string (text "input")) ≡ true
      → joined ds ≡ object_text s (literal j ps)
      → read_deltas new_input ds
        ≡ record { input = behind_key at_done; output = decoded j ps; threw = false }
  read_deltas-object_text s ps v ds spaces pieces parsed right whole =
      read_deltas-joined new_input ds
      ∙ ap (read_input j new_input) whole
      ∙ read_input-object_text s ps v spaces pieces parsed right
