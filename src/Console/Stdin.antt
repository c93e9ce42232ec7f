-- ===== src/Console/Stdin.antt =====
-- StdinReader: the lines of the standard input, from what `read` returns.
use aisuite.Common.{
  ℕ, zero, suc, ◌+◌, ◌-◌, Bool, true, false, not, ◌&&◌, none, some, List, [], ◌∷◌, ◌++◌, ltb, leb,
  ◌==◌, if◌then◌else◌, length, take, drop, Text, text, is_empty, index_of,
}

-- A call of one of the three callbacks.
pub data Callback : Type 0 where
  line_read : Text → Callback
  closed : Callback
  failed_for : Text → Callback

-- What the callback for lines does: it returns, it throws, or it stops the reader and returns.
pub data Reaction : Type 0 where
  returns throws stops : Reaction

-- The callbacks that are set, and what the one for lines does after the calls before.
pub record Callbacks : Type 0 where
  pub has_on_line : Bool
  pub has_on_close : Bool
  pub has_on_error : Bool
  pub reacts : List Callback → Text → Reaction

pub record StdinReader : Type 0 where
  pub maximum_line_bytes : ℕ
  pub buffered : Text
  pub active : Bool
  pub registered : Bool
  pub restore_original_flags : Bool
  pub calls : List Callback

-- `read`: bytes, the end of the input, EINTR, EAGAIN, or another error with its text.
pub data ReadResult : Type 0 where
  chunk : Text → ReadResult
  end_of_input interrupted would_block : ReadResult
  read_error : Text → ReadResult

unfoldable pub last_is : ℕ → Text → Bool
last_is c [] = false
last_is c (x ∷ []) = x == c
last_is c (x ∷ y ∷ s) = last_is c (y ∷ s)

-- The deferred first read has no state of its own here.
unfoldable pub stop : StdinReader → StdinReader
stop s = record s { active = false; registered = false; restore_original_flags = false }

module _ (w : Callbacks) where
  unfoldable pub fail : StdinReader → Text → StdinReader
  fail s reason =
      let t = stop s in
      if not s.active
      then s
      else if w.has_on_error
      then record t { calls = failed_for reason ∷ t.calls }
      else t

  unfoldable pub reacted : StdinReader → Reaction → StdinReader
  reacted s returns = s
  reacted s throws = fail s (text "stdin command callback failed")
  reacted s stops = stop s

  unfoldable pub deliver : StdinReader → Text → StdinReader
  deliver s line =
      if w.has_on_line
      then reacted (record s { calls = line_read line ∷ s.calls }) (w.reacts s.calls line)
      else s

  -- A carriage return before the newline is not part of the line.
  unfoldable pub line_bytes : Text → ℕ → ℕ
  line_bytes s newline =
      let front = take newline s in if last_is b'\r' front then length front - 1 else newline

  unfoldable pub on_newline : StdinReader → ℕ → StdinReader
  on_newline s newline =
      let n = line_bytes s.buffered newline in
      if ltb s.maximum_line_bytes n
      then fail s (text "stdin command exceeds configured bridge frame limit")
      else deliver (record s { buffered = drop (newline + 1) s.buffered }) (take n s.buffered)

  -- The loop of `emitLines`, on fuel.
  unfoldable pub emit_from : ℕ → StdinReader → StdinReader
  emit_from zero s = s
  emit_from (suc fuel) s = elim (index_of b'\n' s.buffered) [
    | none ↦ s
    | some newline ↦ elim s.active [ false ↦ s | true ↦ emit_from fuel (on_newline s newline) ]
  ]

  unfoldable pub emit_lines : StdinReader → StdinReader
  emit_lines s = emit_from (suc (length s.buffered)) s

  unfoldable pub read_chunk : StdinReader → Text → StdinReader
  read_chunk s bytes =
      let t = emit_lines (record s { buffered = s.buffered ++ bytes }) in
      if t.active && ltb t.maximum_line_bytes (length t.buffered)
      then fail t (text "stdin command exceeds configured bridge frame limit")
      else t

  unfoldable pub close : StdinReader → StdinReader
  close s = let t = stop s in if w.has_on_close then record t { calls = closed ∷ t.calls } else t

  unfoldable pub without_cr : Text → Text
  without_cr s = if last_is b'\r' s then take (length s - 1) s else s

  -- The last line, which may lack its newline; a callback that throws is the end of it.
  unfoldable pub last_line : StdinReader → Text → StdinReader
  last_line s line = elim w.has_on_line [
    | false ↦ close s
    | true ↦
        let t : StdinReader = record s { calls = line_read line ∷ s.calls } in
        elim (w.reacts s.calls line) [
          | returns ↦ close t
          | throws ↦ fail t (text "stdin command callback failed")
          | stops ↦ close (stop t)
        ]
  ]

  unfoldable pub finish : StdinReader → StdinReader
  finish s =
      if not s.active
      then s
      else if not (is_empty s.buffered) && leb (length s.buffered) s.maximum_line_bytes
      then last_line (record s { buffered = [] }) (without_cr s.buffered)
      else close s

  -- `readEvent`, with what `read` returns in turn.
  unfoldable pub read_event : StdinReader → List ReadResult → StdinReader
  read_event s [] = s
  read_event s (r ∷ rs) = elim s.active [
    | false ↦ s
    | true ↦ elim r [
      | chunk bytes ↦ read_event (read_chunk s bytes) rs
      | end_of_input ↦ finish s
      | interrupted ↦ read_event s rs
      | would_block ↦ s
      | read_error reason ↦ fail s (text "stdin read failed: " ++ reason)
    ]
  ]
