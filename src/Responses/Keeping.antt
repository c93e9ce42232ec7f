-- ===== src/Responses/Keeping.antt =====
-- ResponsesStream: the numbering of its events, from step to step.
use aisuite.Common.{
  ℕ, Bool, true, false, Option, none, some, Text, is_empty, Map, lookup, if◌then◌else◌,
}
use aisuite.Json.{Json, JsonLaws}
use aisuite.Model.{ToolCall, Content, text_content, tool_call, tool_result, reasoning, ModelEvent}
use aisuite.Responses.CustomInput.{Reading}
use aisuite.Responses.Stream.{
  Active, ResponsesStream, Client, Attempt, going, thrown, find_active, item_of, fail_stream,
}
use aisuite.Responses.Blocks.{
  on_started, add_delta, count_bytes, add_text, on_text_delta, add_decoded, add_input,
  add_active_input, on_tool_input, settled, caught, receive_text, open_text, note_call,
  announce_item, activate, on_block_started,
}
use aisuite.Responses.Invariant.{
  IsSound, Sound, bind-Sound, require_then-Sound, option-Sound, if-Sound, send_object-Sound,
  finish_text-Sound, fail_stream-Sound, count_bytes-Sound,
}

module _ {j : Json} (w : Client j) (laws : JsonLaws j) where
  open j use {Value, parse, same}

  pub on_started-Sound : (s : ResponsesStream j) → IsSound j s → Sound j (on_started w s)
  unfolding on_started
  on_started-Sound s v = require_then-Sound s _ _ _ v (λ t u. send_object-Sound w laws _ _ u)

  pub add_delta-Sound :
      (s : ResponsesStream j) (i : ℕ) (a : Active j) (delta : Text) (m : Map Value)
      → IsSound j s
      → Sound j (add_delta w s i a delta m)
  unfolding add_delta
  add_delta-Sound s i a delta m v = if-Sound (is_empty delta) _ _ v (send_object-Sound w laws _ _ v)

  pub add_text-Sound :
      (s : ResponsesStream j) (i : ℕ) (value : Text) → IsSound j s → Sound j (add_text w s i value)
  unfolding add_text
  add_text-Sound s i value v =
      option-Sound (find_active i s.active) _ _ v
        (λ a. require_then-Sound s _ _ _ v (λ t u. add_delta-Sound t i a value _ u))

  pub on_text_delta-Sound :
      (s : ResponsesStream j) (i : ℕ) (value : Text)
      → IsSound j s
      → Sound j (on_text_delta w s i value)
  unfolding on_text_delta
  on_text_delta-Sound s i value v =
      bind-Sound (count_bytes w s value) _ (count_bytes-Sound w laws s value v)
        (λ t u. add_text-Sound t i value u)

  pub add_decoded-Sound :
      (s : ResponsesStream j) (i : ℕ) (a : Active j) (call : ToolCall j) (r : Reading)
      → IsSound j s
      → Sound j (add_decoded w s i a call r)
  unfolding add_decoded
  add_decoded-Sound s i a call r v = if-Sound r.threw _ _ v (add_delta-Sound s i _ r.output _ v)

  pub add_input-Sound :
      (s : ResponsesStream j) (i : ℕ) (a : Active j) (c : Content j) (value : Text)
      → IsSound j s
      → Sound j (add_input w s i a c value)
  unfolding add_input
  add_input-Sound s i a (tool_call call) value v =
      option-Sound (lookup call.name s.tools) _ _ v (λ tool.
        if-Sound tool.custom _ _ (add_decoded-Sound s i a call _ v)
          (add_delta-Sound s i a value _ v))
  add_input-Sound s i a (text_content x) value v = v
  add_input-Sound s i a (tool_result x y z) value v = v
  add_input-Sound s i a (reasoning x y z) value v = v

  pub on_tool_input-Sound :
      (s : ResponsesStream j) (i : ℕ) (value : Text)
      → IsSound j s
      → Sound j (on_tool_input w s i value)
  unfolding on_tool_input add_active_input
  on_tool_input-Sound s i value v =
      bind-Sound (count_bytes w s value) _ (count_bytes-Sound w laws s value v) (λ t u.
        option-Sound (find_active i t.active) _ _ u (λ a. add_input-Sound t i a a.content value u))

  pub settled-IsSound : (a : Attempt j) → Sound j a → IsSound j (settled w a)
  unfolding settled
  settled-IsSound (going s) v = v
  settled-IsSound (thrown s x) v = v

  pub caught-IsSound :
      (s : ResponsesStream j) (e : ModelEvent j) (a : Attempt j)
      → Sound j a
      → IsSound j (caught w s e a)
  unfolding caught
  caught-IsSound s e (going t) v = v
  caught-IsSound s e (thrown t x) v =
      settled-IsSound (fail_stream w t _) (fail_stream-Sound w laws t _ v)

  pub if_stream-IsSound :
      (b : Bool) (s t : ResponsesStream j)
      → IsSound j s
      → IsSound j t
      → IsSound j (if b then s else t)
  if_stream-IsSound true s t u v = u
  if_stream-IsSound false s t u v = v

  pub receive_text-IsSound :
      (s : ResponsesStream j) (i : ℕ) (value : Text)
      → IsSound j s
      → IsSound j (receive_text w s i value)
  unfolding receive_text
  receive_text-IsSound s i value v =
      if_stream-IsSound s.terminal _ _ v
        (caught-IsSound s _ (on_text_delta w s i value) (on_text_delta-Sound s i value v))

  pub open_text-Sound :
      (s : ResponsesStream j) (i : ℕ) (c : Content j) → IsSound j s → Sound j (open_text w s i c)
  unfolding open_text
  open_text-Sound s i (text_content value) v =
      bind-Sound _ _ (send_object-Sound w laws s _ v)
        (λ t u. if-Sound (is_empty value) _ _ u (receive_text-IsSound t i value u))
  open_text-Sound s i (tool_call x) v = v
  open_text-Sound s i (tool_result x y z) v = v
  open_text-Sound s i (reasoning x y z) v = v

  pub note_call-Sound :
      (s : ResponsesStream j) (c : Content j) → IsSound j s → Sound j (note_call w s c)
  unfolding note_call
  note_call-Sound s (tool_call call) v = require_then-Sound s _ _ _ v (λ t u. u)
  note_call-Sound s (text_content x) v = v
  note_call-Sound s (tool_result x y z) v = v
  note_call-Sound s (reasoning x y z) v = v

  pub announce_item-Sound :
      (s : ResponsesStream j) (i : ℕ) (item : Option Value) (kind : Text)
      → IsSound j s
      → Sound j (announce_item w s i item kind)
  unfolding announce_item
  announce_item-Sound s i none kind v = v
  announce_item-Sound s i (some item) kind v = send_object-Sound w laws s _ v

  pub activate-Sound :
      (s : ResponsesStream j) (i : ℕ) (c : Content j) → IsSound j s → Sound j (activate w s i c)
  unfolding activate
  activate-Sound s i c v = v

  pub on_block_started-Sound :
      (s : ResponsesStream j) (i : ℕ) (c : Content j)
      → IsSound j s
      → Sound j (on_block_started w s i c)
  unfolding on_block_started
  on_block_started-Sound s i c v = require_then-Sound s _ _ _ v (λ a v.
      bind-Sound _ _ (finish_text-Sound w laws a false v) (λ b v.
        bind-Sound _ _ (note_call-Sound b c v) (λ d v.
          bind-Sound _ _ (activate-Sound d i c v) (λ e v.
            bind-Sound _ _ (announce_item-Sound e i (item_of e i c false) _ v)
              (λ f v. open_text-Sound f i c v)))))
