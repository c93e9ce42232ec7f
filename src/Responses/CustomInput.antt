-- ===== src/Responses/CustomInput.antt =====
-- ResponsesStream::CustomInput: the one string field of a freeform tool's input, read as it comes.
use aisuite.Common.{
  ℕ, Bool, true, false, not, ◌&&◌, ◌||◌, none, some, [], ◌∷◌, ◌++◌, ltb, leb, ◌==◌, if◌then◌else◌,
  length, Text, text, is_empty, ◌≡◌, refl, sym, ap, ◌∙◌, append_assoc,
}
use aisuite.Json.{Json}

pub data InputState : Type 0 where
  at_open at_key at_colon at_quote at_value at_close at_done : InputState

pub record CustomInput : Type 0 where
  pub state : InputState
  pub key : Text
  pub escape : Text

-- What reading leaves: the reader, the text that was decoded, and whether an exception ended it.
pub record Reading : Type 0 where
  pub input : CustomInput
  pub output : Text
  pub threw : Bool

abbrev pub new_input : CustomInput
new_input = record { state = at_open; key = []; escape = [] }

abbrev pub reads_on : CustomInput → Reading
reads_on c = record { input = c; output = []; threw = false }

abbrev pub throws : CustomInput → Reading
throws c = record { input = c; output = []; threw = true }

-- `std::isspace` in the C locale.
unfoldable pub is_space : ℕ → Bool
is_space c = c == b' ' || (leb 9 c && leb c 13)

-- White space is passed over outside the key and the value.
unfoldable pub skips : InputState → ℕ → Bool
skips at_value c = false
skips at_key c = false
skips _ c = is_space c

-- The last byte but one is no backslash.
unfoldable pub ends_unescaped : Text → Bool
ends_unescaped [] = true
ends_unescaped (c ∷ []) = true
ends_unescaped (c ∷ d ∷ []) = not (c == b'\\')
ends_unescaped (c ∷ d ∷ e ∷ s) = ends_unescaped (d ∷ e ∷ s)

unfoldable pub second_is : Text → ℕ → Bool
second_is [] d = false
second_is (c ∷ []) d = false
second_is (c ∷ e ∷ s) d = e == d

abbrev pub quoted : Text → Text
quoted s = b'"' ∷ (s ++ b'"' ∷ [])

module _ (j : Json) where
  open j use {parse, same, string, get_string}

  -- A key that is complete has to be `"input"`.
  unfoldable pub on_complete_key : CustomInput → Reading
  on_complete_key c = elim (parse c.key) [
    | none ↦ throws c
    | some v ↦
        if same v (string (text "input"))
        then reads_on (record c { state = at_colon })
        else throws c
  ]

  unfoldable pub on_key : CustomInput → ℕ → Reading
  on_key c b =
      let d : CustomInput = record c { key = c.key ++ b ∷ [] } in
      if is_empty c.key && is_space b
      then reads_on c
      else if ltb 32 (length d.key)
      then throws d
      else if ltb 1 (length d.key) && (b == b'"' && ends_unescaped d.key)
      then on_complete_key d
      else reads_on d

  -- An escape of two bytes is complete; one of six or twelve may be.
  unfoldable pub on_complete_escape : CustomInput → Bool → Reading
  on_complete_escape c last = elim (parse (quoted c.escape)) [
    | none ↦ if last then throws c else reads_on c
    | some v ↦ record { input = record c { escape = [] }; output = get_string v; threw = false }
  ]

  unfoldable pub on_escape : CustomInput → ℕ → Reading
  on_escape c b =
      let d : CustomInput = record c { escape = c.escape ++ b ∷ [] } in
      if leb 2 (length d.escape) && not (second_is d.escape b'u')
      then on_complete_escape d true
      else if length d.escape == 6 || length d.escape == 12
      then on_complete_escape d (length d.escape == 12)
      else if ltb (length d.escape) 12
      then reads_on d
      else throws d

  unfoldable pub on_value : CustomInput → ℕ → Reading
  on_value c b =
      if not (is_empty c.escape)
      then on_escape c b
      else if b == b'\\'
      then reads_on (record c { escape = b'\\' ∷ [] })
      else if b == b'"'
      then reads_on (record c { state = at_close })
      else if ltb b 32
      then throws c
      else record { input = c; output = b ∷ []; threw = false }

  -- A byte that has to be this one.
  unfoldable pub expect : CustomInput → ℕ → ℕ → InputState → Reading
  expect c b wanted next = if b == wanted then reads_on (record c { state = next }) else throws c

  unfoldable pub on_state : InputState → CustomInput → ℕ → Reading
  on_state at_open c b = expect c b b'{' at_key
  on_state at_key c b = on_key c b
  on_state at_colon c b = expect c b b':' at_quote
  on_state at_quote c b = expect c b b'"' at_value
  on_state at_value c b = on_value c b
  on_state at_close c b = expect c b b'}' at_done
  on_state at_done c b = throws c

  unfoldable pub read_byte : CustomInput → ℕ → Reading
  read_byte c b = if skips c.state b then reads_on c else on_state c.state c b

  -- What follows is read only where no exception came before.
  unfoldable pub read_then : Reading → Reading → Reading
  read_then r next = if r.threw then r else record next { output = r.output ++ next.output }

  unfoldable pub read_input : CustomInput → Text → Reading
  read_input c [] = reads_on c
  read_input c (b ∷ delta) =
      let r = read_byte c b in let rest = read_input r.input delta in read_then r rest

  read_then_assoc : (r s t : Reading) → read_then r (read_then s t) ≡ read_then (read_then r s) t
  unfolding read_then
  read_then_assoc r s t = assoc r.threw s.threw
    where
      assoc :
          (x y : Bool)
          → let r' : Reading = record r { threw = x } in
            let s' : Reading = record s { threw = y } in
            read_then r' (read_then s' t) ≡ read_then (read_then r' s') t
      assoc true y = refl
      assoc false true = refl
      assoc false false =
          ap (λ o. record t { output = o }) (sym (append_assoc r.output s.output t.output))

  read_then_input :
      (r s : Reading) (f : CustomInput → Reading)
      → read_then (read_then r s) (f s.input) ≡ read_then (read_then r s) (f (read_then r s).input)
  unfolding read_then
  read_then_input r s f = same_input r.threw
    where
      same_input :
          (x : Bool)
          → let r' : Reading = record r { threw = x } in
            read_then (read_then r' s) (f s.input)
            ≡ read_then (read_then r' s) (f (read_then r' s).input)
      same_input true = refl
      same_input false = refl

  -- Reading a tool's input in two deltas decodes what reading it in one does, fails where that
  -- fails, and leaves the reader in the same state, wherever it is cut, escapes included.
  pub read_input-in_turn :
      (c : CustomInput) (a b : Text)
      → read_input c (a ++ b) ≡ read_then (read_input c a) (read_input (read_input c a).input b)
  unfolding read_input read_then
  read_input-in_turn c [] b = refl
  read_input-in_turn c (x ∷ a) b =
      let r = read_byte c x in
      let s = read_input r.input a in
      ap (read_then r) (read_input-in_turn r.input a b)
      ∙ read_then_assoc r s (read_input s.input b)
      ∙ read_then_input r s (λ d. read_input d b)
