-- ===== src/Framer.antt =====
-- src/ai/openai/codex/protocol/JsonLineFramer.cpp: newline-delimited JSON over a byte stream.
pub mod Stream
pub mod Bounds
pub mod Chunks
pub mod RoundTrip
use mathlib.Core.Option
use aisuite.Common.{
  ℕ, zero, suc, ◌+◌, ◌-◌, ◌/◌, Bool, true, false, ◌&&◌, Option, none, some, List, [], ◌∷◌, ◌++◌,
  ltb, leb, ◌==◌, if◌then◌else◌, length, take, drop, Text, index_of, is_empty,
}

pub record JsonLineFramer : Type 0 where
  pub maximum_frame_bytes : ℕ
  pub buffer : Text
  pub buffer_offset : ℕ
  pub has_failed : Bool

-- What `fail` reports.
pub data FrameError : Type 0 where
  exceeds_before_delimiter exceeds invalid_json : FrameError

-- The callers' side of `consume`: the JSON parser (`none` is its exception), whether the message
-- handler throws, and whether there is an error handler.
pub record Handlers (V : Type 0) : Type 0 where
  pub parse : Text → Option V
  pub throws : V → Bool
  pub has_on_error : Bool

-- How a call of `consume` ends: it returns a flag, or an exception of the handler leaves it.
pub data Ending : Type 0 where
  returned : Bool → Ending
  threw : Ending

pub record Run (V : Type 0) : Type 0 where
  pub framer : JsonLineFramer
  pub messages : List V
  pub errors : List FrameError
  pub ending : Ending

-- The constructor; `none` is the `invalid_argument` that it throws.
unfoldable pub new : ℕ → Option JsonLineFramer
new maximum =
    if maximum == 0
    then none
    else some (record {
      maximum_frame_bytes = maximum;
      buffer = [];
      buffer_offset = 0;
      has_failed = false;
    })

unfoldable pub buffered_bytes : JsonLineFramer → ℕ
buffered_bytes f = length f.buffer - f.buffer_offset

unfoldable pub reset : JsonLineFramer → JsonLineFramer
reset f = record f { buffer = []; buffer_offset = 0; has_failed = false }

unfoldable pub compact : JsonLineFramer → JsonLineFramer
compact f =
    if f.buffer_offset == 0
    then f
    else if f.buffer_offset == length f.buffer
    then record f { buffer = []; buffer_offset = 0 }
    else if leb (length f.buffer / 2) f.buffer_offset
    then record f { buffer = drop f.buffer_offset f.buffer; buffer_offset = 0 }
    else f

-- `compact(); buffer_.append(bytes);`
unfoldable pub append : JsonLineFramer → Text → JsonLineFramer
append f bytes = let g : JsonLineFramer = compact f in record g { buffer = g.buffer ++ bytes }

-- `line.back() == '\r'` and `pop_back`.
unfoldable pub strip_cr : Text → Text
strip_cr [] = []
strip_cr (c ∷ []) = if c == b'\r' then [] else c ∷ []
strip_cr (c ∷ d ∷ s) = c ∷ strip_cr (d ∷ s)

-- `buffer_.find('\n', bufferOffset_)`.
unfoldable pub find_newline : JsonLineFramer → Option ℕ
find_newline f =
    Option.map (λ i. f.buffer_offset + i) (index_of b'\n' (drop f.buffer_offset f.buffer))

module _ {V : Type 0} (h : Handlers V) where
  unfoldable pub fail : JsonLineFramer → FrameError → Run V
  fail f why = record {
    framer = record f { has_failed = true; buffer = []; buffer_offset = 0 };
    messages = [];
    errors = if h.has_on_error then why ∷ [] else [];
    ending = returned false;
  }

  abbrev pub after_message : V → Run V → Run V
  after_message m r = record r { messages = m ∷ r.messages }

  -- A parsed message: the handler runs outside the parse-error boundary.
  unfoldable pub deliver : JsonLineFramer → V → Run V → Run V
  deliver f m rest =
      if h.throws m
      then record { framer = f; messages = m ∷ []; errors = []; ending = threw }
      else after_message m rest

  -- The line behind the delimiter check, with the rest of the loop.
  unfoldable pub on_line : JsonLineFramer → Text → Run V → Run V
  unfolding fail deliver
  on_line f [] rest = rest
  on_line f (c ∷ line) rest = elim (h.parse (c ∷ line)) [
    | none ↦ fail f invalid_json
    | some m ↦ deliver f m rest
  ]

  -- No delimiter in the buffer: the frame may wait for more bytes, up to the maximum.
  unfoldable pub on_rest : JsonLineFramer → Run V
  unfolding fail buffered_bytes compact
  on_rest f =
      if ltb f.maximum_frame_bytes (buffered_bytes f)
      then fail f exceeds_before_delimiter
      else record { framer = compact f; messages = []; errors = []; ending = returned true }

  -- `bufferOffset_ = newline + 1`.
  abbrev pub advance : JsonLineFramer → ℕ → JsonLineFramer
  advance f newline = record f { buffer_offset = newline + 1 }

  -- A delimiter at `newline`, with the rest of the loop.
  unfoldable pub on_delimiter : JsonLineFramer → ℕ → Run V → Run V
  unfolding fail on_line strip_cr
  on_delimiter f newline rest =
      let line_bytes : ℕ = newline - f.buffer_offset in
      let line : Text = take line_bytes (drop f.buffer_offset f.buffer) in
      if ltb f.maximum_frame_bytes line_bytes
      then fail f exceeds
      else on_line (advance f newline) (strip_cr line) rest

  -- `while (true)`; `none` means that the fuel ran out.
  unfoldable pub loop : ℕ → JsonLineFramer → Option (Run V)
  unfolding find_newline on_rest on_delimiter
  loop zero f = none
  loop (suc fuel) f = elim (find_newline f) [
    | none ↦ some (on_rest f)
    | some newline ↦ Option.map (on_delimiter f newline) (loop fuel (advance f newline))
  ]

  unfoldable pub consume : JsonLineFramer → Text → Option (Run V)
  consume f bytes =
      let g : JsonLineFramer = append f bytes in
      if f.has_failed
      then some (record { framer = f; messages = []; errors = []; ending = returned false })
      else loop (suc (length g.buffer)) g

-- `encode`: `none` is the `length_error` that it throws; `dump` is the JSON serialiser.
unfoldable pub encode {ℓ} : {V : Type ℓ} → (V → Text) → V → ℕ → Option Text
encode dump message maximum =
    let encoded : Text = dump message in
    if ltb maximum (length encoded) then none else some (encoded ++ b'\n' ∷ [])
