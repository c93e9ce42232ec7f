-- ===== src/Sse.antt =====
-- src/ai/http/SseDecoder.cpp: server-sent events from a byte stream.
pub mod Reads
pub mod Lines
pub mod Written
pub mod RoundTrip
pub mod Streams
use aisuite.Common.{
  ℕ, ◌+◌, ◌-◌, ◌<◌, Bool, true, false, not, ◌&&◌, ◌||◌, Option, none, some, List, [], ◌∷◌, ◌++◌,
  ltb, leb, ◌==◌, if◌then◌else◌, length, take, drop, Text, text, text_eq, starts_with, index_of,
  is_empty,
}

pub record SseDecoder : Type 0 where
  pub limit : ℕ
  pub line : Text
  pub event : Text
  pub event_data : Text
  pub after_cr : Bool
  pub first_line : Bool

-- How a call ends: it returns, or one of the two exceptions leaves it.
pub data SseEnding : Type 0 where
  completed exceeded receiver_threw : SseEnding

-- What a call leaves: the decoder, the events that the receiver got, and how the call ended.
pub record SseRun : Type 0 where
  pub decoder : SseDecoder
  pub events : List (Text × Text)
  pub ending : SseEnding

-- The constructor; `none` is the `invalid_argument` that it throws.
unfoldable pub new : ℕ → Option SseDecoder
new limit =
    if limit == 0
    then none
    else some (record {
      limit = limit;
      line = [];
      event = [];
      event_data = [];
      after_cr = false;
      first_line = true;
    })

-- `data_.size() + event_.size()`, and the same with `line_.size()`.
abbrev pub fields_size : SseDecoder → ℕ
fields_size d = length d.event_data + length d.event

abbrev pub held : SseDecoder → ℕ
held d = length d.line + length d.event + length d.event_data

unfoldable pub empty : SseDecoder → Bool
empty d = is_empty d.line && is_empty d.event_data && is_empty d.event

abbrev pub quiet_run : SseDecoder → SseRun
quiet_run d = record { decoder = d; events = []; ending = completed }

abbrev pub byte_order_mark : Text
byte_order_mark = 239 ∷ 187 ∷ 191 ∷ []

-- The first line's text without the byte order mark.
unfoldable pub strip_mark : Bool → Text → Text
strip_mark false value = value
strip_mark true value = if starts_with value byte_order_mark then drop 3 value else value

unfoldable pub field_of : Text → Text
field_of value = elim (index_of b':' value) [ none ↦ value | some colon ↦ take colon value ]

-- One space behind the colon is dropped.
unfoldable pub strip_space : Text → Text
strip_space [] = []
strip_space (c ∷ s) = if c == b' ' then s else c ∷ s

unfoldable pub body_of : Text → Text
body_of value = elim (index_of b':' value) [
  | none ↦ []
  | some colon ↦ strip_space (drop (colon + 1) value)
]

-- A line that is not blank.
unfoldable pub with_field : SseDecoder → Text → Text → SseDecoder
with_field d field body =
    if text_eq field (text "event")
    then record d { event = body }
    else if text_eq field (text "data")
    then record d { event_data = d.event_data ++ (body ++ b'\n' ∷ []) }
    else d

unfoldable pub on_field : SseDecoder → Text → SseRun
on_field d value =
    let t : SseDecoder = with_field d (field_of value) (body_of value) in
    record {
      decoder = t;
      events = [];
      ending = if ltb t.limit (fields_size t) then exceeded else completed;
    }

module _ (throws : Text → Text → Bool) where
  -- A blank line: the event that has gathered goes to the receiver, if it has data.
  unfoldable pub dispatch_event : SseDecoder → SseRun
  dispatch_event d =
      let t : SseDecoder = record d { event_data = []; event = [] } in
      let name : Text = if is_empty d.event then text "message" else d.event in
      let body : Text = take (length d.event_data - 1) d.event_data in
      if is_empty d.event_data then quiet_run t else record {
        decoder = t;
        events = (name, body) ∷ [];
        ending = if throws name body then receiver_threw else completed;
      }

  unfoldable pub on_value : SseDecoder → Text → SseRun
  on_value d [] = dispatch_event d
  on_value d (c ∷ value) = on_field d (c ∷ value)

  unfoldable pub end_line : SseDecoder → SseRun
  end_line d =
      on_value (record d { line = []; first_line = false }) (strip_mark d.first_line d.line)

  -- A byte behind the check for the second half of a CR LF.
  unfoldable pub on_byte : SseDecoder → ℕ → SseRun
  on_byte d c =
      if c == b'\r' || c == b'\n'
      then end_line (record d { after_cr = c == b'\r' })
      else if leb d.limit (held d)
      then record { decoder = d; events = []; ending = exceeded }
      else quiet_run (record d { line = d.line ++ c ∷ [] })

  unfoldable pub step : SseDecoder → ℕ → SseRun
  step d c =
      let t : SseDecoder = record d { after_cr = false } in
      if d.after_cr && c == b'\n' then quiet_run t else on_byte t c

  -- The rest of the bytes is read only where a byte ended well.
  unfoldable pub followed_by : SseRun → SseRun → SseRun
  followed_by r next = elim r.ending [
    | completed ↦ record next { events = r.events ++ next.events }
    | exceeded ↦ r
    | receiver_threw ↦ r
  ]

  unfoldable pub consume : SseDecoder → Text → SseRun
  consume d [] = quiet_run d
  consume d (c ∷ bytes) =
      let r : SseRun = step d c in let rest : SseRun = consume r.decoder bytes in followed_by r rest
