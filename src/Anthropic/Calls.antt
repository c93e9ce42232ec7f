-- ===== src/Anthropic/Calls.antt =====
-- MessageStream: the order of what a receiver is told, from step to step of a message.
use aisuite.Common.{
  ◌+◌, ◌-◌, ◌%◌, ◌^◌, ◌≤◌, refl, inl, inr, Option, none, some, leb, arith, Bool-cases, length, Text,
  text, text_eq,
}
use aisuite.Json.{Json}
use aisuite.Model.{StopReason, started, usage, completed}
use aisuite.Anthropic.Values.{member, member_text, string_of, usage_of, is_new_message, stop_reason}
use aisuite.Anthropic.State.{MessageStream, Listener, Attempt, going, thrown, require}
use aisuite.Anthropic.Events.{
  maximum_stream_bytes, on_error, take_usage, begin_message, on_message_start, note_stop,
  update_usage, on_message_delta, complete, on_message_stop, handle_named, parse_event, parse_data,
  read_event, caught, take_event,
}
use aisuite.Anthropic.Order.{
  is_final, IsCalm, IsOrdered, Ordered, bind-Ordered, using-Ordered, require_then-Ordered,
  if-Ordered, if_known-IsOrdered, give_last-IsOrdered, fail-IsOrdered, emit-IsOrdered,
}
use aisuite.Anthropic.Keeping.{on_block_start-Ordered, on_delta-Ordered, on_block_stop-Ordered}

module _ {j : Json} (C : Type 0) (w : Listener j) (calm : C → IsCalm w) where
  open j use {Value, parse, is_null}

  on_error-Ordered :
      (s : MessageStream j) (event : Value) → IsOrdered C s → Ordered C (on_error w s event)
  unfolding on_error
  on_error-Ordered s event o = using-Ordered C s (member j event (text "error")) _ o (λ e.
      using-Ordered C s (member_text j e (text "type")) _ o (λ code.
        using-Ordered C s (member_text j e (text "message")) _ o (λ m. fail-IsOrdered C s _ o)))

  take_usage-Ordered :
      (s : MessageStream j) (m : Value) → IsOrdered C s → Ordered C (take_usage w s m)
  unfolding take_usage is_final
  take_usage-Ordered s m o = if-Ordered C s.terminal _ _ o (
      using-Ordered C s (member j m (text "usage")) _ o (λ v.
        using-Ordered C s (usage_of j v _) _ o (λ u. emit-IsOrdered C w calm _ (usage u) refl o)))

  begin_message-Ordered :
      (s : MessageStream j) (m : Value) → IsOrdered C s → Ordered C (begin_message w s m)
  unfolding begin_message is_final
  begin_message-Ordered s m o = using-Ordered C s (is_new_message j m) _ o (λ fresh.
      require_then-Ordered C s _ _ _ o (λ t o.
        using-Ordered C t (member_text j m (text "id")) _ o
          (λ id. take_usage-Ordered _ m (emit-IsOrdered C w calm _ (started id) refl o))))

  on_message_start-Ordered :
      (s : MessageStream j) (event : Value) → IsOrdered C s → Ordered C (on_message_start w s event)
  unfolding on_message_start
  on_message_start-Ordered s event o = require_then-Ordered C s _ _ _ o (λ t o.
      using-Ordered C t (member j event (text "message")) _ o (λ m. begin_message-Ordered t m o))

  note_stop-Ordered :
      (s : MessageStream j) (v : Option Value) → IsOrdered C s → Ordered C (note_stop w s v)
  unfolding note_stop
  note_stop-Ordered s none o = o
  note_stop-Ordered s (some v) o = if-Ordered C (is_null v) _ _ o (
      using-Ordered C s (string_of j v) _ o
        (λ reason. using-Ordered C s (stop_reason reason) _ o (λ r. o)))

  update_usage-Ordered :
      (s : MessageStream j) (v : Option Value) → IsOrdered C s → Ordered C (update_usage w s v)
  unfolding update_usage is_final
  update_usage-Ordered s none o = o
  update_usage-Ordered s (some v) o =
      using-Ordered C s (usage_of j v s.usage) _ o (λ u. emit-IsOrdered C w calm _ (usage u) refl o)

  on_message_delta-Ordered :
      (s : MessageStream j) (event : Value) → IsOrdered C s → Ordered C (on_message_delta w s event)
  unfolding on_message_delta
  on_message_delta-Ordered s event o = require_then-Ordered C s _ _ _ o (λ t o.
      using-Ordered C t (member j event (text "delta")) _ o (λ d.
        bind-Ordered C _ _ (note_stop-Ordered t (j.find d (text "stop_reason")) o)
          (λ t o. update_usage-Ordered t _ o)))

  complete-Ordered :
      (s : MessageStream j) (r : Option StopReason) → IsOrdered C s → Ordered C (complete w s r)
  unfolding complete is_final
  complete-Ordered s none o = o
  complete-Ordered s (some r) o = give_last-IsOrdered C s (completed r) refl o

  on_message_stop-Ordered : (s : MessageStream j) → IsOrdered C s → Ordered C (on_message_stop w s)
  unfolding on_message_stop
  on_message_stop-Ordered s o =
      require_then-Ordered C s _ _ _ o (λ t o. complete-Ordered t t.stop o)

  handle_named-Ordered :
      (s : MessageStream j) (event : Value) (type : Text)
      → IsOrdered C s
      → Ordered C (handle_named w s event type)
  unfolding handle_named
  handle_named-Ordered s event type o = if-Ordered C (text_eq type (text "ping")) _ _ o (
      if-Ordered C (text_eq type (text "error")) _ _ (on_error-Ordered s event o) (
        if-Ordered C (text_eq type (text "message_start")) _ _ (on_message_start-Ordered s event o)
          (if-Ordered C (text_eq type (text "content_block_start")) _ _
            (on_block_start-Ordered C w calm s event o)
            (if-Ordered C (text_eq type (text "content_block_delta")) _ _
              (on_delta-Ordered C w calm s event o)
              (if-Ordered C (text_eq type (text "content_block_stop")) _ _
                (on_block_stop-Ordered C w calm s event o)
                (if-Ordered C (text_eq type (text "message_delta")) _ _
                  (on_message_delta-Ordered s event o)
                  (if-Ordered C (text_eq type (text "message_stop")) _ _
                    (on_message_stop-Ordered s o) o)))))))

  parse_data-Ordered :
      (s : MessageStream j) (name : Text) (event : Option Value)
      → IsOrdered C s
      → Ordered C (parse_data w s name event)
  unfolding parse_data parse_event
  parse_data-Ordered s name none o = o
  parse_data-Ordered s name (some event) o =
      using-Ordered C s (member_text j event (text "type")) _ o (λ type.
        require_then-Ordered C s _ _ _ o (λ t o.
          using-Ordered C t (member_text j event (text "type")) _ o (λ type.
            require_then-Ordered C t _ _ _ o (λ u o. handle_named-Ordered u event type o))))

  read_event-Ordered :
      (s : MessageStream j) (name body : Text)
      → IsOrdered C s
      → Ordered C (read_event w s name body)
  unfolding read_event require
  read_event-Ordered s name body (bounded, order) =
      let room = (maximum_stream_bytes + 2 ^ 64 - s.bytes) % 2 ^ 64 in
      elim (Bool-cases (leb (length body) room)) [
        | inl fits ↦
            let less : length body ≤ room = ground arith in
            let kept : s.bytes + length body ≤ maximum_stream_bytes =
              omega (arith, less, bounded) in
            rw fits (parse_data-Ordered _ name (parse body) (kept, order))
        | inr full ↦ rw full (bounded, order)
      ]

  caught-IsOrdered :
      (name body : Text) (a : Attempt j) → Ordered C a → IsOrdered C (caught w name body a)
  unfolding caught
  caught-IsOrdered name body (going t) o = o
  caught-IsOrdered name body (thrown t x) o = fail-IsOrdered C t _ o

  pub take_event-IsOrdered :
      (s : MessageStream j) (name body : Text)
      → IsOrdered C s
      → IsOrdered C (take_event w s name body)
  unfolding take_event
  take_event-IsOrdered s name body o =
      if_known-IsOrdered C s.terminal _ _ (λ _. o)
        (λ _.
          caught-IsOrdered name body (read_event w s name body) (read_event-Ordered s name body o))
