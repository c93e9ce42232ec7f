-- ===== src/Responses/Terminal.antt =====
-- ResponsesStream: the end of the stream.
use aisuite.Common.{ℕ, ◌≡◌, refl, Bool, true, false, Option, none, some, if◌then◌else◌}
use aisuite.Json.{Json}
use aisuite.Model.{
  StopReason, ModelError, ModelEvent, started, block_started, text_delta, reasoning_delta,
  tool_input_delta, block_finished, usage, completed, failed,
}
use aisuite.Responses.Stream.{
  ResponsesStream, Client, Attempt, going, thrown, ◌>>=◌, require, send, finish_text, end_stream,
  fail_stream, failure_event,
}
use aisuite.Responses.Blocks.{settled, caught}
use aisuite.Responses.Finish.{
  is_cut_short, complete_with, complete_stream, stop_stream, on_completed, visit, receive,
}

module _ {j : Json} where
  -- The events after which nothing more is sent.
  unfoldable pub IsLast : ModelEvent j → Type 0
  IsLast (completed r) = Unit
  IsLast (failed e) = Unit
  IsLast (reasoning_delta i value) = Unit
  IsLast (started id) = ⊥
  IsLast (block_started i c) = ⊥
  IsLast (text_delta i value) = ⊥
  IsLast (tool_input_delta i value) = ⊥
  IsLast (block_finished i c) = ⊥
  IsLast (usage u) = ⊥

  -- A step that does not throw ends the stream.
  abbrev Ends : Attempt j → Type 0
  Ends (going s) = s.terminal ≡ true
  Ends (thrown s x) = Unit

  bind-Ends :
      (a : Attempt j) (f : ResponsesStream j → Attempt j)
      → ((s : ResponsesStream j) → Ends (f s))
      → Ends (a >>= f)
  bind-Ends (going s) f k = k s
  bind-Ends (thrown s x) f k = tt

  if-Ends : (b : Bool) (a c : Attempt j) → Ends a → Ends c → Ends (if b then a else c)
  if-Ends true a c v w = v
  if-Ends false a c v w = w

  if_known-Ends :
      (b : Bool) (a c : Attempt j) → (b ≡ true → Ends a) → Ends c → Ends (if b then a else c)
  if_known-Ends true a c v w = v refl
  if_known-Ends false a c v w = w

  if-terminal :
      (b : Bool) (s t : ResponsesStream j)
      → (b ≡ true → s.terminal ≡ true)
      → t.terminal ≡ true
      → (if b then s else t).terminal ≡ true
  if-terminal true s t v w = v refl
  if-terminal false s t v w = w

module _ {j : Json} (w : Client j) where
  fail_stream-Ends : (s : ResponsesStream j) (e : ModelError) → Ends (fail_stream w s e)
  unfolding fail_stream end_stream failure_event
  fail_stream-Ends s e =
      if_known-Ends s.terminal _ _ (λ over. over)
        (bind-Ends (send w s (failure_event w s e)) (end_stream w) (λ t. refl))

  complete_with-Ends : (s : ResponsesStream j) (total : Option ℕ) → Ends (complete_with w s total)
  unfolding complete_with end_stream
  complete_with-Ends s none = tt
  complete_with-Ends s (some total) =
      bind-Ends (finish_text w s _) _ (λ t. bind-Ends (send w t _) _ (λ u. refl))

  on_completed-Ends : (s : ResponsesStream j) (r : StopReason) → Ends (on_completed w s r)
  unfolding on_completed stop_stream complete_stream
  on_completed-Ends s r = bind-Ends (require s _ _) _ (λ t.
      if-Ends (is_cut_short r) _ _ (fail_stream-Ends t _)
        (bind-Ends (require t _ _) _ (λ u. complete_with-Ends u _)))

  visit-Ends : (s : ResponsesStream j) (e : ModelEvent j) → IsLast e → Ends (visit w s e)
  unfolding visit IsLast
  visit-Ends s (completed r) last = on_completed-Ends s r
  visit-Ends s (failed e) last = fail_stream-Ends s e
  visit-Ends s (reasoning_delta i value) last = fail_stream-Ends s _
  visit-Ends s (started _) last = elim last [ ]
  visit-Ends s (block_started _ _) last = elim last [ ]
  visit-Ends s (block_finished _ _) last = elim last [ ]
  visit-Ends s (text_delta _ _) last = elim last [ ]
  visit-Ends s (tool_input_delta _ _) last = elim last [ ]
  visit-Ends s (usage _) last = elim last [ ]

  settled-terminal : (a : Attempt j) → Ends a → (settled w a).terminal ≡ true
  unfolding settled
  settled-terminal (going s) v = v
  settled-terminal (thrown s x) v = refl

  caught-terminal :
      (s : ResponsesStream j) (e : ModelEvent j) (a : Attempt j)
      → Ends a
      → (caught w s e a).terminal ≡ true
  unfolding caught
  caught-terminal s e (going t) v = v
  caught-terminal s e (thrown t x) v = settled-terminal (fail_stream w t _) (fail_stream-Ends t _)

  receive-when_terminal :
      (s : ResponsesStream j) (e : ModelEvent j) → s.terminal ≡ true → receive w s e ≡ s
  unfolding receive
  receive-when_terminal s e over = rw over refl

  receive-terminal :
      (s : ResponsesStream j) (e : ModelEvent j) → IsLast e → (receive w s e).terminal ≡ true
  unfolding receive
  receive-terminal s e last =
      if-terminal s.terminal _ _ (λ over. over)
        (caught-terminal s e (visit w s e) (visit-Ends s e last))

  -- Whatever the stream's state and whatever the sender accepts: after a completion, after a failure
  -- and after a reasoning delta the stream is terminal, and any later event leaves it as it is.
  pub receive-ends :
      (s : ResponsesStream j) (e later : ModelEvent j)
      → IsLast e
      → ((receive w s e).terminal ≡ true) × (receive w (receive w s e) later ≡ receive w s e)
  receive-ends s e later last =
      let over = receive-terminal s e last in
      (over, receive-when_terminal (receive w s e) later over)
