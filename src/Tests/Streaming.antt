-- ===== src/Tests/Streaming.antt =====
-- The theorems on server-sent events at concrete inputs.
use aisuite.Common.{
  List, some, ◌≤◌, ◌≡◌, refl, Bool, true, false, [], ◌∷◌, arith, Text, text, text_eq, starts_with,
  index_of,
}
use aisuite.Sse.{
  SseDecoder, completed, new, held, strip_mark, field_of, strip_space, body_of, with_field,
  on_field, on_value, end_line, on_byte, step, followed_by, consume,
}
use aisuite.Sse.Reads.{held-consume}
use aisuite.Sse.Lines.{crlf, newline, one_line}
use aisuite.Sse.Written.{
  SseEvent, print_data, named, print_event, print_events, delivered, all_one_line, AllEvents,
}
use aisuite.Sse.Streams.{joined, read_pieces, read_pieces-print_events}

abbrev never : Text → Text → Bool
never name body = false

abbrev decoder : SseDecoder
decoder = record {
  limit = 9;
  line = [];
  event = [];
  event_data = [];
  after_cr = false;
  first_line = true;
}

-- A field and the first half of its CR LF.
abbrev beginning : Text
beginning = b'd' ∷ b'a' ∷ b't' ∷ b'a' ∷ b':' ∷ b' ' ∷ b'x' ∷ b'\r' ∷ []

beginning-ends : (consume never decoder beginning).ending ≡ completed
unfolding consume step on_byte end_line on_value on_field strip_mark starts_with with_field field_of
    body_of strip_space index_of text text_eq followed_by
beginning-ends = refl

held-consume_example :
    ((consume never decoder beginning).decoder.limit ≡ 9)
    × (held (consume never decoder beginning).decoder ≤ 9)
held-consume_example = held-consume never decoder beginning (omega arith) beginning-ends

-- One event with a name and two lines of data, and one without a name.
abbrev sent : List SseEvent
sent =
    record { name = b'n' ∷ []; first = b'a' ∷ []; others = (b'b' ∷ []) ∷ [] }
    ∷ record { name = []; first = b'c' ∷ []; others = [] }
    ∷ []

sent-AllEvents : AllEvents crlf 64 sent
unfolding AllEvents one_line all_one_line print_event named print_data newline
sent-AllEvents = (refl, refl, omega arith, (refl, refl, omega arith, tt))

abbrev new_decoder : SseDecoder
new_decoder = record decoder { limit = 64 }

made : new 64 ≡ some new_decoder
unfolding new
made = refl

-- The cuts are in a field's name and within a CR LF.
abbrev pieces : List Text
pieces = text "eve" ∷ text "nt: n\r" ∷ text "\ndata: a\r\ndata: b\r\n\r\ndata: c\r\n\r\n" ∷ []

pieces-joined : joined pieces ≡ print_events crlf sent
unfolding joined print_events print_event named print_data newline text
pieces-joined = refl

read_pieces-print_events_example :
    ((read_pieces never new_decoder pieces).events ≡ delivered sent)
    × ((read_pieces never new_decoder pieces).ending ≡ completed)
read_pieces-print_events_example =
    read_pieces-print_events never (λ name b. refl) crlf 64 new_decoder sent pieces made
      sent-AllEvents pieces-joined
