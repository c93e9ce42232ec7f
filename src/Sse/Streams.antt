-- ===== src/Sse/Streams.antt =====
-- SseDecoder: whole streams of events, read in pieces.
use aisuite.Common.{
  ℕ, ◌≡◌, refl, sym, ap, ◌∙◌, inl, inr, Bool, Bool-cases, true, false, not, ◌||◌, some, List, [],
  ◌∷◌, ◌++◌, ◌==◌, Text, subst,
}
use aisuite.Sse.{SseDecoder, completed, SseRun, quiet_run, new, followed_by, consume}
use aisuite.Sse.Reads.{consume-in_turn}
use aisuite.Sse.Lines.{Newline, is_cr, between, ran}
use aisuite.Sse.Written.{
  SseEvent, print_event, print_events, body, name_of, delivered, AllEvents, consume-then,
}
use aisuite.Sse.RoundTrip.{ready, consume-named}

unfoldable pub joined : List Text → Text
joined [] = []
joined (c ∷ cs) = c ++ joined cs

-- A run returned and gave these events.
abbrev Gives : SseRun → List (Text × Text) → Type 0
Gives r es = (r.events ≡ es) × (r.ending ≡ completed)

new-between : (limit : ℕ) (d : SseDecoder) → new limit ≡ some d → between limit [] [] false true ≡ d
unfolding new
new-between limit d e = elim (Bool-cases (limit == 0)) [
  | inl zero_limit ↦ absurd cc
  | inr positive ↦ cc
]

module _ (throws : Text → Text → Bool) where
  -- The pieces in turn, each read where the one before ended.
  unfoldable pub read_pieces : SseDecoder → List Text → SseRun
  read_pieces d [] = quiet_run d
  read_pieces d (c ∷ cs) =
      let r : SseRun = consume throws d c in
      let rest : SseRun = read_pieces r.decoder cs in followed_by throws r rest

  read_pieces-joined :
      (d : SseDecoder) (cs : List Text) → read_pieces d cs ≡ consume throws d (joined cs)
  unfolding read_pieces joined consume
  read_pieces-joined d [] = refl
  read_pieces-joined d (c ∷ cs) =
      let r = consume throws d c in
      ap (followed_by throws r) (read_pieces-joined r.decoder cs)
      ∙ sym (consume-in_turn throws d c (joined cs))

  module _ (calm : (name b : Text) → throws name b ≡ false) where
    consume-print_events :
        (n : Newline) (limit : ℕ) (es : List SseEvent) (a first : Bool)
        → not a || is_cr n ≡ true
        → AllEvents n limit es
        → Gives (consume throws (between limit [] [] a first) (print_events n es)) (delivered es)
    unfolding print_events delivered AllEvents consume print_event followed_by
    consume-print_events n limit [] a first fresh v = (refl, refl)
    consume-print_events n limit (e ∷ es) a first fresh (named_plain, plain, small, v) =
        let d = between limit [] [] a first in
        let t = between limit [] [] (is_cr n) false in
        let one = (name_of e.name, body e.first e.others) ∷ [] in
        let rest = print_events n es in
        let split : consume throws d (print_event n e ++ rest)
            ≡ followed_by throws (ran t one) (consume throws t rest) =
          consume-then throws calm d t (print_event n e) rest one (
            consume-named throws calm n limit e.name e.first e.others a first fresh named_plain
              plain small) in
        let (events, ending) = consume-print_events n limit es (is_cr n) false (ready n) v in
        (
          ap (λ (r : SseRun). r.events) split ∙ ap (λ l. one ++ l) events,
          ap (λ (r : SseRun). r.ending) split ∙ ending,
        )

    -- If the receiver does not throw, and the pieces are together a stream of events that is written
    -- with one of the three line endings throughout, each event with its name, if it has one, then its
    -- lines of data, at least one, and a blank line, no line with a line ending inside, and each event
    -- within the limit: wherever the stream is cut, a new decoder gives the receiver these events, in
    -- order and with no other, each with its name or "message" and its data, and every read returns.
    pub read_pieces-print_events :
        (n : Newline) (limit : ℕ) (d : SseDecoder) (es : List SseEvent) (pieces : List Text)
        → new limit ≡ some d
        → AllEvents n limit es
        → joined pieces ≡ print_events n es
        → ((read_pieces d pieces).events ≡ delivered es)
          × ((read_pieces d pieces).ending ≡ completed)
    read_pieces-print_events n limit d es pieces made v whole =
        let same = read_pieces-joined d pieces ∙ ap (consume throws d) whole in
        let start = new-between limit d made in
        let (events, ending) =
          subst (λ t. Gives (consume throws t (print_events n es)) (delivered es)) start
            (consume-print_events n limit es false true refl v) in
        (ap (λ (r : SseRun). r.events) same ∙ events, ap (λ (r : SseRun). r.ending) same ∙ ending)
