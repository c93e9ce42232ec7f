-- ===== src/Sse/Lines.antt =====
-- SseDecoder::consume: one line, in each of the three styles of line endings.
use aisuite.Common.{
  ℕ, ◌+◌, ◌≤◌, ◌<◌, ◌≡◌, refl, sym, ap, ◌∙◌, Bool, true, false, not, ◌&&◌, ◌||◌, List, [], ◌∷◌,
  ◌++◌, append_assoc, append-nil, arith, length, length-append, leb, ◌==◌, Text,
}
use aisuite.Sse.{
  SseDecoder, completed, SseRun, held, quiet_run, strip_mark, on_value, end_line, on_byte, step,
  followed_by, consume,
}
use aisuite.Sse.Reads.{consume-in_turn}

-- How the writer of a stream ends its lines.
pub data Newline : Type 0 where
  lf cr crlf : Newline

unfoldable pub newline : Newline → Text
newline lf = b'\n' ∷ []
newline cr = b'\r' ∷ []
newline crlf = b'\r' ∷ b'\n' ∷ []

unfoldable pub is_cr : Newline → Bool
is_cr cr = true
is_cr _ = false

-- A text without line endings.
unfoldable pub one_line : Text → Bool
one_line [] = true
one_line (c ∷ s) = not (c == b'\r' || c == b'\n') && one_line s

-- The decoder between two lines.
abbrev pub between : ℕ → Text → Text → Bool → Bool → SseDecoder
between limit event event_data after_cr first_line = record {
  limit = limit;
  line = [];
  event = event;
  event_data = event_data;
  after_cr = after_cr;
  first_line = first_line;
}

abbrev pub ran : SseDecoder → List (Text × Text) → SseRun
ran d events = record { decoder = d; events = events; ending = completed }

module _ (throws : Text → Text → Bool) where
  step-plain :
      (d : SseDecoder) (c : ℕ)
      → d.after_cr ≡ false
      → c == b'\r' || c == b'\n' ≡ false
      → held d < d.limit
      → step throws d c ≡ quiet_run (record d { line = d.line ++ c ∷ []; after_cr = false })
  unfolding step on_byte
  step-plain d c fresh plain room =
      let below : leb d.limit (held d) ≡ false = ground (arith, room) in
      rw (fresh, plain, below) refl

  -- The bytes of a line are gathered.
  consume-plain :
      (d : SseDecoder) (s : Text)
      → d.after_cr ≡ false
      → one_line s ≡ true
      → held d + length s ≤ d.limit
      → consume throws d s ≡ quiet_run (record d { line = d.line ++ s; after_cr = false })
  unfolding consume one_line followed_by
  consume-plain d [] fresh v small = ap quiet_run (
      ap (λ l. record d { line = l }) (sym (append-nil d.line))
      ∙ ap (λ b. record d { line = d.line ++ []; after_cr = b }) fresh)
  consume-plain d (c ∷ s) fresh v small =
      let plain : c == b'\r' || c == b'\n' ≡ false = ground (arith, v) in
      let others : one_line s ≡ true = ground (arith, v) in
      let t : SseDecoder = record d { line = d.line ++ c ∷ []; after_cr = false } in
      let longer = length-append d.line (c ∷ []) in
      rw (step-plain d c fresh plain (omega arith)) (
        ap (followed_by throws (quiet_run t))
          (consume-plain t s refl others (omega (arith, longer)))
        ∙ ap (λ l. quiet_run (record d { line = l; after_cr = false }))
            (append_assoc d.line (c ∷ []) s))

  -- A carriage return that came before is of no matter to a byte that is no line feed.
  consume-after_cr :
      (d : SseDecoder) (c : ℕ) (bytes : Text)
      → c == b'\n' ≡ false
      → consume throws (record d { after_cr = true }) (c ∷ bytes)
        ≡ consume throws (record d { after_cr = false }) (c ∷ bytes)
  unfolding consume step
  consume-after_cr d c bytes e = rw e refl

  consume-ready :
      (n : Newline) (d : SseDecoder) (a : Bool) (s : Text)
      → not a || is_cr n ≡ true
      → one_line s ≡ true
      → consume throws (record d { after_cr = a }) (s ++ newline n)
        ≡ consume throws (record d { after_cr = false }) (s ++ newline n)
  unfolding is_cr newline one_line
  consume-ready n d false s e v = refl
  consume-ready lf d true s e v = absurd cc
  consume-ready crlf d true s e v = absurd cc
  consume-ready cr d true [] e v = consume-after_cr d b'\r' [] refl
  consume-ready cr d true (c ∷ s) e v = consume-after_cr d c (s ++ b'\r' ∷ []) (ground (arith, v))

  -- The end of a line whose value is read in this way, whatever ended the line.
  consume-newline :
      (n : Newline) (limit : ℕ) (event event_data line : Text) (first : Bool)
      (event' event_data' : Text) (es : List (Text × Text))
      → ((a : Bool)
          → on_value throws (between limit event event_data a false) (strip_mark first line)
            ≡ ran (between limit event' event_data' a false) es)
      → consume throws
          (record (between limit event event_data false first) { line = line })
          (newline n)
        ≡ ran (between limit event' event_data' (is_cr n) false) es
  unfolding consume step on_byte end_line newline is_cr followed_by
  consume-newline lf limit event event_data line first event' event_data' es h =
      rw (h false, append-nil es) refl
  consume-newline cr limit event event_data line first event' event_data' es h =
      rw (h true, append-nil es) refl
  consume-newline crlf limit event event_data line first event' event_data' es h =
      rw (h true, append-nil es) refl

  -- A line and its ending.
  pub consume-line :
      (n : Newline) (limit : ℕ) (event event_data line : Text) (a first : Bool)
      (event' event_data' : Text) (es : List (Text × Text))
      → not a || is_cr n ≡ true
      → one_line line ≡ true
      → length line + length event + length event_data ≤ limit
      → ((a : Bool)
          → on_value throws (between limit event event_data a false) (strip_mark first line)
            ≡ ran (between limit event' event_data' a false) es)
      → consume throws (between limit event event_data a first) (line ++ newline n)
        ≡ ran (between limit event' event_data' (is_cr n) false) es
  unfolding followed_by
  consume-line n limit event event_data line a first event' event_data' es ready plain small h =
      let d = between limit event event_data false first in
      let gathered = consume-plain d line refl plain (omega arith) in
      consume-ready n d a line ready plain
      ∙ consume-in_turn throws d line (newline n)
      ∙ ap (λ r. followed_by throws r (consume throws r.decoder (newline n))) gathered
      ∙ ap (followed_by throws (quiet_run (record d { line = line })))
          (consume-newline n limit event event_data line first event' event_data' es h)
