-- ===== src/Responses/Ending.antt =====
-- ResponsesStream: the numbering of its events, from the end of a block to the end of the stream.
use aisuite.Common.{ℕ, true, not, Option, none, some, Text, is_empty, lookup}
use aisuite.Json.{Json, JsonLaws}
use aisuite.Model.{
  ToolCall, Content, text_content, tool_call, tool_result, reasoning, StopReason, ModelEvent,
  started, block_started, text_delta, reasoning_delta, tool_input_delta, block_finished, usage,
  completed, failed,
}
use aisuite.Responses.Stream.{Active, ResponsesStream, Client, find_active, item_of}
use aisuite.Responses.Finish.{
  has_no_calls, is_cut_short, same_call, send_wrapped, finish_custom, finish_function, finish_call,
  finish_value, finish_content, send_done, keep_item, finish_item, on_block_finished,
  completion_event, complete_with, complete_stream, stop_stream, on_completed, visit, receive,
}
use aisuite.Responses.Invariant.{
  IsSound, Sound, bind-Sound, require-Sound, require_then-Sound, option-Sound, if-Sound,
  send_object-Sound, end_stream-Sound, finish_text-Sound, fail_stream-Sound,
}
use aisuite.Responses.Keeping.{
  on_started-Sound, on_text_delta-Sound, on_tool_input-Sound, caught-IsSound, if_stream-IsSound,
  announce_item-Sound, on_block_started-Sound,
}
use aisuite.Common.{refl, arith, Map, List, [], ◌∷◌, Text}
use aisuite.Responses.Stream.{ToolIdentity, new_stream}
use aisuite.Responses.Invariant.{InOrder}

-- The events of a stream, one after the other.
module _ {j : Json} (w : Client j) where
  unfoldable pub receive_all : ResponsesStream j → List (ModelEvent j) → ResponsesStream j
  receive_all s [] = s
  receive_all s (e ∷ es) = receive_all (receive w s e) es

module _ {j : Json} (w : Client j) (laws : JsonLaws j) where
  open j use {Value, parse, same}

  send_wrapped-Sound :
      (s : ResponsesStream j) (i : ℕ) (a : Active j) (call : ToolCall j) (value : Text)
      → IsSound j s
      → Sound j (send_wrapped w s i a call value)
  unfolding send_wrapped
  send_wrapped-Sound s i a call value v =
      if-Sound (not (is_empty a.deltas)) _ _ (require-Sound s _ _ v)
        (if-Sound (is_empty value) _ _ v (send_object-Sound w laws s _ v))

  finish_function-Sound :
      (s : ResponsesStream j) (a : Active j) (call : ToolCall j)
      → IsSound j s
      → Sound j (finish_function w s a call)
  unfolding finish_function
  finish_function-Sound s a call v =
      if-Sound (is_empty a.deltas) _ _ v
        (option-Sound (parse a.deltas) _ _ v (λ x. require-Sound s _ _ v))

  finish_custom-Sound :
      (s : ResponsesStream j) (i : ℕ) (a : Active j) (call : ToolCall j)
      → IsSound j s
      → Sound j (finish_custom w s i a call)
  unfolding finish_custom
  finish_custom-Sound s i a call v =
      require_then-Sound s _ _ _ v (λ t u. send_wrapped-Sound t i a call _ u)

  finish_call-Sound :
      (s : ResponsesStream j) (i : ℕ) (a : Active j) (call : ToolCall j)
      → IsSound j s
      → Sound j (finish_call w s i a call)
  unfolding finish_call
  finish_call-Sound s i a call v = option-Sound (same_call w a.content call) _ _ v (λ b.
      require_then-Sound s _ _ _ v (λ t u. option-Sound (lookup call.name t.tools) _ _ u (λ tool.
        if-Sound tool.custom _ _ (finish_custom-Sound t i a call u)
          (finish_function-Sound t a call u))))

  finish_content-Sound :
      (s : ResponsesStream j) (i : ℕ) (a : Active j) (c : Content j)
      → IsSound j s
      → Sound j (finish_content w s i a c)
  unfolding finish_content finish_value
  finish_content-Sound s i a (text_content value) v =
      require_then-Sound s _ _ _ v (λ t u. send_object-Sound w laws t _ u)
  finish_content-Sound s i a (tool_call call) v = finish_call-Sound s i a call v
  finish_content-Sound s i a (tool_result x y z) v = v
  finish_content-Sound s i a (reasoning x y z) v = v

  send_done-Sound :
      (s : ResponsesStream j) (i : ℕ) (c : Content j) (item : Value)
      → IsSound j s
      → Sound j (send_done w s i c item)
  unfolding send_done
  send_done-Sound s i (text_content value) item v = v
  send_done-Sound s i (tool_call call) item v = announce_item-Sound w laws s i _ _ v
  send_done-Sound s i (tool_result x y z) item v = announce_item-Sound w laws s i _ _ v
  send_done-Sound s i (reasoning x y z) item v = announce_item-Sound w laws s i _ _ v

  keep_item-Sound :
      (s : ResponsesStream j) (i : ℕ) (item : Value) → IsSound j s → Sound j (keep_item w s i item)
  unfolding keep_item
  keep_item-Sound s i item v = v

  finish_item-Sound :
      (s : ResponsesStream j) (i : ℕ) (a : Active j) (c : Content j) (item : Option Value)
      → IsSound j s
      → Sound j (finish_item w s i a c item)
  unfolding finish_item
  finish_item-Sound s i a c none v = v
  finish_item-Sound s i a c (some item) v =
      bind-Sound _ _ (finish_content-Sound s i a c v)
        (λ t v. bind-Sound _ _ (send_done-Sound t i c item v) (λ t v. keep_item-Sound t i item v))

  on_block_finished-Sound :
      (s : ResponsesStream j) (i : ℕ) (c : Content j)
      → IsSound j s
      → Sound j (on_block_finished w s i c)
  unfolding on_block_finished
  on_block_finished-Sound s i c v =
      option-Sound (find_active i s.active) _ _ v
        (λ a. finish_item-Sound s i a c (item_of s i c true) v)

  complete_with-Sound :
      (s : ResponsesStream j) (total : Option ℕ) → IsSound j s → Sound j (complete_with w s total)
  unfolding complete_with completion_event
  complete_with-Sound s none v = v
  complete_with-Sound s (some total) v =
      bind-Sound _ _ (finish_text-Sound w laws s (has_no_calls s.calls) v) (λ t v.
        bind-Sound _ _ (send_object-Sound w laws t _ v) (λ t v. end_stream-Sound w laws t v))

  on_completed-Sound :
      (s : ResponsesStream j) (r : StopReason) → IsSound j s → Sound j (on_completed w s r)
  unfolding on_completed stop_stream complete_stream
  on_completed-Sound s r v = require_then-Sound s _ _ _ v (λ t v.
      if-Sound (is_cut_short r) _ _ (fail_stream-Sound w laws t _ v)
        (require_then-Sound t _ _ _ v (λ u v. complete_with-Sound u _ v)))

  visit-Sound : (s : ResponsesStream j) (e : ModelEvent j) → IsSound j s → Sound j (visit w s e)
  unfolding visit
  visit-Sound s (started id) v = on_started-Sound w laws s v
  visit-Sound s (block_started i c) v = on_block_started-Sound w laws s i c v
  visit-Sound s (text_delta i value) v = on_text_delta-Sound w laws s i value v
  visit-Sound s (tool_input_delta i value) v = on_tool_input-Sound w laws s i value v
  visit-Sound s (block_finished i c) v = on_block_finished-Sound s i c v
  visit-Sound s (usage u) v = v
  visit-Sound s (failed e) v = fail_stream-Sound w laws s e v
  visit-Sound s (reasoning_delta i value) v = fail_stream-Sound w laws s _ v
  visit-Sound s (completed r) v = on_completed-Sound s r v

  receive-IsSound :
      (s : ResponsesStream j) (e : ModelEvent j) → IsSound j s → IsSound j (receive w s e)
  unfolding receive
  receive-IsSound s e v =
      if_stream-IsSound w laws s.terminal _ _ v
        (caught-IsSound w laws s e (visit w s e) (visit-Sound s e v))

  receive_all-kept :
      (s : ResponsesStream j) (es : List (ModelEvent j))
      → IsSound j s
      → IsSound j (receive_all w s es)
  unfolding receive_all
  receive_all-kept s [] v = v
  receive_all-kept s (e ∷ es) v = receive_all-kept (receive w s e) es (receive-IsSound s e v)

  -- For a JSON library that obeys the laws, whatever the sender accepts: after any events on a new
  -- stream, at most 64 MiB of deltas are counted, the events given to the sender have the numbers
  -- from 0 on in their order, modulo 2^64, and the next number is how many they are, modulo 2^64.
  pub receive_all-IsSound :
      (model id : Text) (tools : Map ToolIdentity) (es : List (ModelEvent j))
      → IsSound j (receive_all w (new_stream model tools id) es)
  unfolding new_stream InOrder
  receive_all-IsSound model id tools es =
      receive_all-kept (new_stream model tools id) es (omega arith, (refl, tt))
