-- ===== src/Anthropic/Sessions.antt =====
-- MessageStream: sequences of its calls.
use aisuite.Common.{if◌then◌else◌, false, true, ◌≡◌, refl, Bool, List, [], ◌∷◌, arith, Text, Map}
use aisuite.Json.{Json}
use aisuite.Model.{ModelError}
use aisuite.Anthropic.State.{give_last, MessageStream, Listener, new_stream, cancel, fail, finish}
use aisuite.Anthropic.Events.{take_event}
use aisuite.Anthropic.Order.{
  AllOpen, OneFinal, Ended, IsCalm, IsOrdered, cancel-IsOrdered, fail-IsOrdered,
}
use aisuite.Anthropic.Calls.{take_event-IsOrdered}

-- One call of an operation of the stream.
pub data StreamCall : Type 0 where
  takes : (name body : Text) → StreamCall
  fails : ModelError → StreamCall
  finishes cancels : StreamCall

unfoldable pub IsOther : StreamCall → Type 0
IsOther (takes name body) = Unit
IsOther (fails e) = Unit
IsOther finishes = Unit
IsOther cancels = ⊥

-- None of the calls cancels the stream.
unfoldable pub NoCancel : List StreamCall → Type 0
unfolding IsOther
NoCancel [] = Unit
NoCancel (x ∷ xs) = IsOther x × NoCancel xs

finishes-IsOther : IsOther finishes
unfolding IsOther
finishes-IsOther = tt

module _ {j : Json} (w : Listener j) where
  unfoldable pub perform : MessageStream j → StreamCall → MessageStream j
  perform s (takes name body) = take_event w s name body
  perform s (fails e) = fail s e
  perform s finishes = finish s
  perform s cancels = cancel s

  unfoldable pub perform_all : MessageStream j → List StreamCall → MessageStream j
  perform_all s [] = s
  perform_all s (x ∷ xs) = perform_all (perform s x) xs

  perform-IsOrdered :
      (C : Type 0) (calm : C → IsCalm w) (s : MessageStream j) (x : StreamCall)
      → (C → IsOther x)
      → IsOrdered C s
      → IsOrdered C (perform s x)
  unfolding perform finish IsOther
  perform-IsOrdered C calm s (takes name body) ok o = take_event-IsOrdered C w calm s name body o
  perform-IsOrdered C calm s (fails e) ok o = fail-IsOrdered C s e o
  perform-IsOrdered C calm s finishes ok o = fail-IsOrdered C s _ o
  perform-IsOrdered C calm s cancels ok o = cancel-IsOrdered C s ok o

  perform_all-kept :
      (C : Type 0) (calm : C → IsCalm w) (s : MessageStream j) (xs : List StreamCall)
      → (C → NoCancel xs)
      → IsOrdered C s
      → IsOrdered C (perform_all s xs)
  unfolding perform_all NoCancel
  perform_all-kept C calm s [] ok o = o
  perform_all-kept C calm s (x ∷ xs) ok o =
      perform_all-kept C calm (perform s x) xs (λ c. (ok c).1)
        (perform-IsOrdered C calm s x (λ c. (ok c).0) o)

  new_stream-IsOrdered :
      (C : Type 0) (tool_names : Map Text) (thinking_enabled : Bool)
      → IsOrdered C (new_stream {j = j} tool_names thinking_enabled)
  unfolding new_stream OneFinal AllOpen
  new_stream-IsOrdered C tool_names thinking_enabled =
      (omega arith, ((λ _. tt), (tt, ((λ e. cc), (λ c e. absurd cc)))))

  -- Whatever events come, whatever they hold, and wherever the receiver cancels or the transport
  -- fails: of all that the receiver of a new stream is told, only the last can be a completion or a
  -- failure.
  pub perform_all-OneFinal :
      (tool_names : Map Text) (thinking_enabled : Bool) (xs : List StreamCall)
      → OneFinal (perform_all (new_stream tool_names thinking_enabled) xs).emitted
  perform_all-OneFinal tool_names thinking_enabled xs =
      (perform_all-kept ⊥ (λ c. absurd c) (new_stream tool_names thinking_enabled) xs
        (λ c. absurd c) (new_stream-IsOrdered ⊥ tool_names thinking_enabled)).1.1.0

  if-terminal :
      (b : Bool) (s t : MessageStream j)
      → (b ≡ true → s.terminal ≡ true)
      → t.terminal ≡ true
      → (if b then s else t).terminal ≡ true
  if-terminal true s t v w = v refl
  if-terminal false s t v w = w

  finish-terminal : (s : MessageStream j) → (finish s).terminal ≡ true
  unfolding finish fail give_last
  finish-terminal s =
      if-terminal s.terminal _ _ (λ over. over) (if-terminal s.has_receiver _ _ (λ _. refl) refl)

  -- If neither the receiver nor a call cancels a new stream, then whatever events come before its
  -- transport is done, the receiver has been told a completion or a failure, as the last of all.
  pub finish-Ended :
      (tool_names : Map Text) (thinking_enabled : Bool) (xs : List StreamCall)
      → IsCalm w
      → NoCancel xs
      → Ended (finish (perform_all (new_stream tool_names thinking_enabled) xs)).emitted
  unfolding perform
  finish-Ended tool_names thinking_enabled xs calm none_cancels =
      let s = perform_all (new_stream tool_names thinking_enabled) xs in
      let kept =
        perform_all-kept Unit (λ _. calm) (new_stream tool_names thinking_enabled) xs
          (λ _. none_cancels) (new_stream-IsOrdered Unit tool_names thinking_enabled) in
      let over = perform-IsOrdered Unit (λ _. calm) s finishes (λ _. finishes-IsOther) kept in
      let (ends, told) = over.1.1.1 in told tt (ends (finish-terminal s))
