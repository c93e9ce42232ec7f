-- ===== src/Responses/Finish.antt =====
-- ResponsesStream::receive: the end of an item and of the stream.
use aisuite.Common.{
  ℕ, ◌+◌, ◌-◌, Bool, true, false, not, ◌&&◌, Option, none, some, is_some, List, [], ◌∷◌, leb, ◌==◌,
  if◌then◌else◌, Text, text, text_eq, is_empty, lookup,
}
use aisuite.Json.{Json}
use aisuite.Model.{
  ToolCall, Content, text_content, tool_call, StopReason, tool_use, output_limit, pause, Usage,
  ModelEvent, started, block_started, text_delta, reasoning_delta, tool_input_delta, block_finished,
  usage, completed, failed,
}
use aisuite.Responses.CustomInput.{InputState, at_done}
use aisuite.Responses.Stream.{
  Active, ResponsesStream, fault, library_fault, Client, Attempt, going, thrown, ◌>>=◌, require,
  find_active, erase_active, freeform_input, item_of, send, finish_text, end_stream, fail_stream,
}
use aisuite.Responses.Blocks.{
  is_idle, item_fields, on_started, on_text_delta, on_tool_input, caught, announce_item,
  on_block_started,
}

-- The largest `int64_t`.
abbrev pub maximum_tokens : ℕ
maximum_tokens = 9223372036854775807

unfoldable pub is_done : InputState → Bool
is_done at_done = true
is_done _ = false

unfoldable pub has_no_calls : List Text → Bool
has_no_calls [] = true
has_no_calls (c ∷ cs) = false

unfoldable pub is_tool_use : StopReason → Bool
is_tool_use tool_use = true
is_tool_use _ = false

-- `(reason == ToolUse) == !calls_.empty()`.
unfoldable pub agrees : StopReason → List Text → Bool
agrees reason calls = if is_tool_use reason then not (has_no_calls calls) else has_no_calls calls

unfoldable pub is_cut_short : StopReason → Bool
is_cut_short output_limit = true
is_cut_short pause = true
is_cut_short _ = false

-- The counts are added one by one, each only if the sum stays in range.
unfoldable pub total_from : ℕ → List ℕ → Option ℕ
total_from total [] = some total
total_from total (count ∷ counts) =
    let rest = total_from (total + count) counts in
    if leb count (maximum_tokens - total) then rest else none

module _ {j : Json} (w : Client j) where
  open j use {
    Value, is_object, is_string, find, get_string, parse, string, unsigned, boolean, object, array,
    same, size,
  }

  -- The tool's call is the one that the block was opened with.
  unfoldable pub same_call : Content j → ToolCall j → Option (Bool)
  same_call (tool_call original) call =
      some (text_eq call.id original.id && text_eq call.name original.name)
  same_call _ call = none

  -- `call->input.size() == 1 && call->input.at("input").is_string()`, of an object.
  unfoldable pub is_wrapper : Value → Bool
  is_wrapper input = is_object input && (size input == 1 && is_some (freeform_input j input))

  unfoldable pub wrapped_text : Value → Text
  wrapped_text input = elim (freeform_input j input) [ none ↦ [] | some value ↦ value ]

  -- Input that came in deltas has to be complete; what came at once is sent as one.
  unfoldable pub send_wrapped : ResponsesStream j → ℕ → Active j → ToolCall j → Text → Attempt j
  send_wrapped s index a call value =
      if not (is_empty a.deltas)
      then require s (is_done a.custom.state && text_eq a.deltas value)
          (text "incomplete custom tool input")
      else if is_empty value
      then going s
      else send w s (
          object (
            (text "type", string (text "response.custom_tool_call_input.delta"))
            ∷ (text "call_id", string call.id)
            ∷ (text "delta", string value)
            ∷ item_fields w s index))

  unfoldable pub finish_custom : ResponsesStream j → ℕ → Active j → ToolCall j → Attempt j
  finish_custom s index a call = do
    s ← require s (is_wrapper call.input) (text "invalid custom tool wrapper")
    send_wrapped s index a call (wrapped_text call.input)

  unfoldable pub finish_function : ResponsesStream j → Active j → ToolCall j → Attempt j
  finish_function s a call = if is_empty a.deltas then going s else elim (parse a.deltas) [
    | none ↦ thrown s library_fault
    | some v ↦ require s (same v call.input) (text "tool input changed during stream")
  ]

  unfoldable pub finish_call : ResponsesStream j → ℕ → Active j → ToolCall j → Attempt j
  finish_call s index a call = elim (same_call a.content call) [
    | none ↦ thrown s library_fault
    | some is_same ↦ do
      s ← require s is_same (text "tool identity changed during stream")
      elim (lookup call.name s.tools) [
        | none ↦ thrown s library_fault
        | some tool ↦ if tool.custom then finish_custom s index a call else finish_function s a call
      ]
  ]

  unfoldable pub finish_value : ResponsesStream j → ℕ → Active j → Text → Attempt j
  finish_value s index a value = do
    s ← require s (text_eq value a.deltas) (text "text changed during stream")
    send w s (
        object (
          (text "type", string (text "response.output_text.done"))
          ∷ (text "content_index", unsigned 0)
          ∷ (text "text", string value)
          ∷ item_fields w s index))

  unfoldable pub finish_content : ResponsesStream j → ℕ → Active j → Content j → Attempt j
  finish_content s index a (text_content value) = finish_value s index a value
  finish_content s index a (tool_call call) = finish_call s index a call
  finish_content s index a _ = going s

  -- The finished item of a text is sent later, when its phase is known.
  unfoldable pub send_done : ResponsesStream j → ℕ → Content j → Value → Attempt j
  send_done s index (text_content value) item = going s
  send_done s index _ item = announce_item w s index (some item) (text "response.output_item.done")

  unfoldable pub keep_item : ResponsesStream j → ℕ → Value → Attempt j
  keep_item s index item =
      going (record s { output = item ∷ s.output; active = erase_active index s.active })

  unfoldable pub finish_item :
      ResponsesStream j → ℕ → Active j → Content j → Option Value → Attempt j
  finish_item s index a content none = thrown s library_fault
  finish_item s index a content (some item) = do
    s ← finish_content s index a content
    s ← send_done s index content item
    keep_item s index item

  unfoldable pub on_block_finished : ResponsesStream j → ℕ → Content j → Attempt j
  on_block_finished s index content = elim (find_active index s.active) [
    | none ↦ thrown s library_fault
    | some a ↦ finish_item s index a content (item_of s index content true)
  ]

  unfoldable pub usage_value : Usage → ℕ → Value
  usage_value u total = object (
      (text "input_tokens", unsigned (total - u.output_tokens))
      ∷ (text "output_tokens", unsigned u.output_tokens)
      ∷ (text "total_tokens", unsigned total)
      ∷ (
        text "input_tokens_details",
        object (
            (text "cached_tokens", unsigned u.cache_read_tokens)
            ∷ (text "cache_write_tokens", unsigned u.cache_write_tokens)
            ∷ []),
      )
      ∷ [])

  unfoldable pub oldest_first : List Value → List Value → List Value
  oldest_first [] done = done
  oldest_first (v ∷ vs) done = oldest_first vs (v ∷ done)

  unfoldable pub completion_event : ResponsesStream j → ℕ → Value
  completion_event s total = object (
      (text "type", string (text "response.completed"))
      ∷ (
        text "response",
        object (
            (text "id", string s.id)
            ∷ (text "object", string (text "response"))
            ∷ (text "status", string (text "completed"))
            ∷ (text "model", string s.model)
            ∷ (text "output", array (oldest_first s.output []))
            ∷ (text "usage", usage_value s.usage total)
            ∷ (text "end_turn", boolean (has_no_calls s.calls))
            ∷ []),
      )
      ∷ [])

  unfoldable pub token_counts : Usage → List ℕ
  token_counts u =
      u.input_tokens ∷ u.cache_read_tokens ∷ u.cache_write_tokens ∷ u.output_tokens ∷ []

  unfoldable pub complete_with : ResponsesStream j → Option ℕ → Attempt j
  complete_with s none = thrown s (fault (text "Codex Responses profile: token usage overflow"))
  complete_with s (some total) = do
    s ← finish_text w s (has_no_calls s.calls)
    s ← send w s (completion_event s total)
    end_stream w s

  unfoldable pub complete_stream : ResponsesStream j → StopReason → Attempt j
  complete_stream s reason = do
    s ← require s (agrees reason s.calls) (text "provider stop reason does not match tool calls")
    complete_with s (total_from 0 (token_counts s.usage))

  unfoldable pub stop_stream : ResponsesStream j → StopReason → Attempt j
  stop_stream s reason =
      if is_cut_short reason
      then fail_stream w s (record {
        code = text "incomplete_response";
        message = text "provider stopped before completing inference";
        retryable = false;
      })
      else complete_stream s reason

  unfoldable pub on_completed : ResponsesStream j → StopReason → Attempt j
  on_completed s reason = do
    s ←
        require s (s.has_started && is_idle s.active)
          (text "provider completed with unfinished output")
    stop_stream s reason

  unfoldable pub visit : ResponsesStream j → ModelEvent j → Attempt j
  visit s (started id) = on_started w s
  visit s (block_started index content) = on_block_started w s index content
  visit s (text_delta index value) = on_text_delta w s index value
  visit s (tool_input_delta index value) = on_tool_input w s index value
  visit s (block_finished index content) = on_block_finished s index content
  visit s (usage u) = going (record s { usage = u })
  visit s (failed e) = fail_stream w s e
  visit s (reasoning_delta index value) = fail_stream w s (record {
    code = text "unsupported_reasoning";
    message = text "reasoning translation disabled";
    retryable = false;
  })
  visit s (completed reason) = on_completed s reason

  unfoldable pub receive : ResponsesStream j → ModelEvent j → ResponsesStream j
  receive s event = if s.terminal then s else caught w s event (visit s event)
