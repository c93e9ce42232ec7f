-- ===== src/Anthropic/Events.antt =====
-- MessageStream: the events of a message, and which handles what.
use aisuite.Common.{
  ℕ, ◌+◌, ◌-◌, ◌%◌, ◌^◌, Bool, true, false, not, ◌&&◌, ◌||◌, Option, none, some, is_some, leb,
  if◌then◌else◌, length, Text, text, text_eq, starts_with,
}
use aisuite.Json.{Json, has}
use aisuite.Model.{StopReason, Usage, started, usage, completed}
use aisuite.Anthropic.Values.{
  Fault, fault, library_fault, stop_reason, member, string_of, member_text, usage_of,
  is_new_message,
}
use aisuite.Anthropic.State.{
  MessageStream, Listener, Attempt, going, thrown, ◌>>=◌, using, require, give_last, fail, emit,
}
use aisuite.Anthropic.Blocks.{has_no_blocks, on_block_start, on_delta, on_block_stop}

abbrev pub maximum_stream_bytes : ℕ
maximum_stream_bytes = 67108864

unfoldable pub is_retryable : Text → Bool
is_retryable code =
    text_eq code (text "overloaded_error")
    || (text_eq code (text "rate_limit_error") || text_eq code (text "api_error"))

module _ {j : Json} (w : Listener j) where
  open j use {Value, parse, is_null}

  unfoldable pub on_error : MessageStream j → Value → Attempt j
  on_error s event = using s (member j event (text "error")) (λ error.
      using s (member_text j error (text "type")) (λ code.
        using s (member_text j error (text "message")) (λ message.
          going
            (fail s (record { code = code; message = message; retryable = is_retryable code })))))

  -- The receiver may have cancelled when it was told of the start.
  unfoldable pub take_usage : MessageStream j → Value → Attempt j
  take_usage s message =
      let none_yet : Usage = record {
        input_tokens = 0;
        output_tokens = 0;
        cache_read_tokens = 0;
        cache_write_tokens = 0;
      } in
      if s.terminal
      then going s
      else using s (member j message (text "usage")) (λ v.
        using s (usage_of j v none_yet) (λ u. going (emit w (record s { usage = u }) (usage u))))

  unfoldable pub begin_message : MessageStream j → Value → Attempt j
  begin_message s message = using s (is_new_message j message) (λ fresh. do
    s ← require s fresh (text "invalid Anthropic message_start")
    using s (member_text j message (text "id"))
        (λ id. take_usage (emit w (record s { has_started = true }) (started id)) message))

  unfoldable pub on_message_start : MessageStream j → Value → Attempt j
  on_message_start s event = do
    s ← require s (not s.has_started) (text "duplicate Anthropic message_start")
    using s (member j event (text "message")) (λ message. begin_message s message)

  -- A stop reason that is there and not null.
  unfoldable pub note_stop : MessageStream j → Option Value → Attempt j
  note_stop s none = going s
  note_stop s (some v) =
      if is_null v
      then going s
      else using s (string_of j v)
          (λ reason. using s (stop_reason reason) (λ r. going (record s { stop = some r })))

  unfoldable pub update_usage : MessageStream j → Option Value → Attempt j
  update_usage s none = going s
  update_usage s (some v) =
      using s (usage_of j v s.usage) (λ u. going (emit w (record s { usage = u }) (usage u)))

  unfoldable pub on_message_delta : MessageStream j → Value → Attempt j
  on_message_delta s event = do
    s ←
        require s (s.has_started && has_no_blocks s.blocks)
          (text "message_delta with unfinished content")
    using s (member j event (text "delta")) (λ delta. do
      s ← note_stop s (j.find delta (text "stop_reason"))
      update_usage s (j.find event (text "usage")))

  unfoldable pub complete : MessageStream j → Option StopReason → Attempt j
  complete s none = thrown s (fault (text "incomplete Anthropic message_stop"))
  complete s (some r) = going (give_last s (completed r))

  unfoldable pub on_message_stop : MessageStream j → Attempt j
  on_message_stop s = do
    s ←
        require s (s.has_started && (is_some s.stop && has_no_blocks s.blocks))
          (text "incomplete Anthropic message_stop")
    complete s s.stop

  -- An event of another type is ignored.
  unfoldable pub handle_named : MessageStream j → Value → Text → Attempt j
  handle_named s event type =
      if text_eq type (text "ping")
      then going s
      else if text_eq type (text "error")
      then on_error s event
      else if text_eq type (text "message_start")
      then on_message_start s event
      else if text_eq type (text "content_block_start")
      then on_block_start w s event
      else if text_eq type (text "content_block_delta")
      then on_delta w s event
      else if text_eq type (text "content_block_stop")
      then on_block_stop w s event
      else if text_eq type (text "message_delta")
      then on_message_delta s event
      else if text_eq type (text "message_stop")
      then on_message_stop s
      else going s

  unfoldable pub parse_event : MessageStream j → Value → Attempt j
  parse_event s event = using s (member_text j event (text "type")) (λ type. do
    s ←
        require s (not (starts_with type (text "content_block_")) || has j event (text "index"))
          (text "missing Anthropic content index")
    handle_named s event type)

  unfoldable pub parse_data : MessageStream j → Text → Option Value → Attempt j
  parse_data s name none = thrown s library_fault
  parse_data s name (some event) = using s (member_text j event (text "type")) (λ type. do
    s ← require s (text_eq type name) (text "Anthropic SSE event/type mismatch")
    parse_event s event)

  unfoldable pub read_event : MessageStream j → Text → Text → Attempt j
  read_event s name body = do
    s ←
        require s (leb (length body) ((maximum_stream_bytes + 2 ^ 64 - s.bytes) % 2 ^ 64))
          (text "Anthropic stream exceeds byte limit")
    parse_data (record s { bytes = s.bytes + length body }) name (parse body)

  unfoldable pub fault_text : MessageStream j → Text → Text → Fault → Text
  fault_text s name body (fault message) = message
  fault_text s name body library_fault = w.library_text s name body

  unfoldable pub caught : Text → Text → Attempt j → MessageStream j
  caught name body (going t) = t
  caught name body (thrown t x) = fail t (record {
    code = text "invalid_stream";
    message = fault_text t name body x;
    retryable = false;
  })

  -- `event`.
  unfoldable pub take_event : MessageStream j → Text → Text → MessageStream j
  take_event s name body = if s.terminal then s else caught name body (read_event s name body)
