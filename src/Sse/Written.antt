-- ===== src/Sse/Written.antt =====
-- SseDecoder::consume: events as they are written, and their lines.
use aisuite.Common.{
  ℕ, ◌+◌, ◌-◌, ◌≤◌, ◌≡◌, refl, sym, ap, ◌∙◌, Bool, true, false, ◌&&◌, List, [], ◌∷◌, ◌++◌,
  append_assoc, arith, length, length-append, take, take-length_append, ltb, if◌then◌else◌, Text,
  text, text_eq, starts_with, index_of, is_empty,
}
use aisuite.Sse.{
  SseDecoder, strip_mark, field_of, strip_space, body_of, with_field, on_field, dispatch_event,
  on_value, followed_by, consume,
}
use aisuite.Sse.Reads.{consume-in_turn}
use aisuite.Sse.Lines.{Newline, newline, one_line, between, ran}

-- An event with its lines of data, of which there is at least one; the name may be empty.
pub record SseEvent : Type 0 where
  pub name : Text
  pub first : Text
  pub others : List Text

-- `event: ` and `data: `.
abbrev pub event_line : Text → Text
event_line name = b'e' ∷ b'v' ∷ b'e' ∷ b'n' ∷ b't' ∷ b':' ∷ b' ' ∷ name

abbrev pub data_line : Text → Text
data_line l = b'd' ∷ b'a' ∷ b't' ∷ b'a' ∷ b':' ∷ b' ' ∷ l

unfoldable pub print_data : Newline → List Text → Text
print_data n [] = []
print_data n (l ∷ ls) = (data_line l ++ newline n) ++ print_data n ls

-- An event without a name has no line for it.
unfoldable pub named : Newline → Text → Text → Text
named n [] r = r
named n (c ∷ name) r = (event_line (c ∷ name) ++ newline n) ++ r

unfoldable pub print_event : Newline → SseEvent → Text
print_event n e = named n e.name (print_data n (e.first ∷ e.others) ++ newline n)

unfoldable pub print_events : Newline → List SseEvent → Text
print_events n [] = []
print_events n (e ∷ es) = print_event n e ++ print_events n es

-- The lines of data with a line feed between them.
unfoldable pub body : Text → List Text → Text
body l [] = l
body l (m ∷ ls) = l ++ b'\n' ∷ body m ls

-- What the receiver is to get for an event.
unfoldable pub name_of : Text → Text
name_of name = if is_empty name then text "message" else name

unfoldable pub delivered : List SseEvent → List (Text × Text)
delivered [] = []
delivered (e ∷ es) = (name_of e.name, body e.first e.others) ∷ delivered es

unfoldable pub all_one_line : List Text → Bool
all_one_line [] = true
all_one_line (l ∷ ls) = one_line l && all_one_line ls

-- No name and no line of data has a line ending, and each event is written within the limit.
unfoldable pub AllEvents : Newline → ℕ → List SseEvent → Type 0
AllEvents n limit [] = Unit
AllEvents n limit (e ∷ es) =
    (one_line e.name ≡ true)
    × (all_one_line (e.first ∷ e.others) ≡ true)
    × (length (print_event n e) ≤ limit)
    × AllEvents n limit es

-- The lines of data, each with a line feed.
unfoldable pub data_bytes : List Text → Text
data_bytes [] = []
data_bytes (l ∷ ls) = l ++ b'\n' ∷ data_bytes ls

data_bytes-body : (l : Text) (ls : List Text) → data_bytes (l ∷ ls) ≡ body l ls ++ b'\n' ∷ []
unfolding data_bytes body
data_bytes-body l [] = refl
data_bytes-body l (m ∷ ls) =
    ap (λ t. l ++ b'\n' ∷ t) (data_bytes-body m ls)
    ∙ sym (append_assoc l (b'\n' ∷ body m ls) (b'\n' ∷ []))

pub take-data_bytes :
    (l : Text) (ls : List Text)
    → take (length (data_bytes (l ∷ ls)) - 1) (data_bytes (l ∷ ls)) ≡ body l ls
take-data_bytes l ls =
    let b = body l ls in
    let shorter : length (b ++ b'\n' ∷ []) - 1 ≡ length b =
      omega (arith, length-append b (b'\n' ∷ [])) in
    ap (λ t. take (length t - 1) t) (data_bytes-body l ls)
    ∙ ap (λ k. take k (b ++ b'\n' ∷ [])) shorter
    ∙ take-length_append b (b'\n' ∷ [])

module _ (throws : Text → Text → Bool) (calm : (name b : Text) → throws name b ≡ false) where
  pub consume-then :
      (d t : SseDecoder) (a b : Text) (es : List (Text × Text))
      → consume throws d a ≡ ran t es
      → consume throws d (a ++ b) ≡ followed_by throws (ran t es) (consume throws t b)
  consume-then d t a b es e =
      consume-in_turn throws d a b ∙ ap (λ r. followed_by throws r (consume throws r.decoder b)) e

  pub on_value-event_line :
      (limit : ℕ) (event event_data name : Text) (first a : Bool)
      → length event_data + length name ≤ limit
      → on_value throws
          (between limit event event_data a false)
          (strip_mark first (event_line name))
        ≡ ran (between limit name event_data a false) []
  unfolding on_value on_field with_field field_of body_of strip_space index_of strip_mark
      starts_with text_eq text
  on_value-event_line limit event event_data name true a small =
      let fits : ltb limit (length event_data + length name) ≡ false = ground (arith, small) in
      rw fits refl
  on_value-event_line limit event event_data name false a small =
      let fits : ltb limit (length event_data + length name) ≡ false = ground (arith, small) in
      rw fits refl

  pub on_value-data_line :
      (limit : ℕ) (event event_data l : Text) (first a : Bool)
      → length (event_data ++ (l ++ b'\n' ∷ [])) + length event ≤ limit
      → on_value throws (between limit event event_data a false) (strip_mark first (data_line l))
        ≡ ran (between limit event (event_data ++ (l ++ b'\n' ∷ [])) a false) []
  unfolding on_value on_field with_field field_of body_of strip_space index_of strip_mark
      starts_with text_eq text
  on_value-data_line limit event event_data l true a small =
      let fits : ltb limit (length (event_data ++ (l ++ b'\n' ∷ [])) + length event) ≡ false =
        ground (arith, small) in
      rw fits refl
  on_value-data_line limit event event_data l false a small =
      let fits : ltb limit (length (event_data ++ (l ++ b'\n' ∷ [])) + length event) ≡ false =
        ground (arith, small) in
      rw fits refl

  pub on_value-blank :
      (limit : ℕ) (event event_data : Text) (first a : Bool)
      → is_empty event_data ≡ false
      → on_value throws (between limit event event_data a false) (strip_mark first [])
        ≡ ran
            (between limit [] [] a false)
            ((name_of event, take (length event_data - 1) event_data) ∷ [])
  unfolding on_value dispatch_event strip_mark starts_with name_of
  on_value-blank limit event event_data true a filled = rw (filled, calm) refl
  on_value-blank limit event event_data false a filled = rw (filled, calm) refl
