-- ===== src/Responses/Blocks.antt =====
-- ResponsesStream::receive: the start of an item and its deltas.
use aisuite.Common.{
  ℕ, ◌+◌, ◌-◌, ◌%◌, ◌^◌, Bool, true, false, not, ◌&&◌, ◌||◌, Option, none, some, List, [], ◌∷◌,
  ◌++◌, leb, ◌==◌, if◌then◌else◌, length, Text, text, text_eq, is_empty, Map, lookup,
}
use aisuite.Json.{Json}
use aisuite.Model.{ToolCall, Content, text_content, tool_call, ModelEvent, text_delta}
use aisuite.Responses.CustomInput.{Reading, new_input, read_input}
use aisuite.Responses.Stream.{
  Active, ResponsesStream, Fault, fault, library_fault, Client, Attempt, going, thrown, ◌>>=◌,
  require, find_active, set_active, item_id, text_part, item_of, send, finish_text, fail_stream,
}

abbrev pub maximum_stream_bytes : ℕ
maximum_stream_bytes = 67108864

unfoldable pub has_call : Text → List Text → Bool
has_call id [] = false
has_call id (c ∷ cs) = text_eq c id || has_call id cs

unfoldable pub is_text : {j : Json} → Content j → Bool
is_text (text_content value) = true
is_text _ = false

unfoldable pub is_idle : {j : Json} → List (ℕ × Active j) → Bool
is_idle [] = true
is_idle (a ∷ others) = false

module _ {j : Json} (w : Client j) where
  open j use {
    Value, is_object, is_string, find, get_string, parse, string, unsigned, boolean, object, array,
    same, size,
  }

  -- The members that the events of one item share.
  unfoldable pub item_fields : ResponsesStream j → ℕ → Map Value
  item_fields s index =
      (text "item_id", string (item_id s index)) ∷ (text "output_index", unsigned index) ∷ []

  unfoldable pub on_started : ResponsesStream j → Attempt j
  on_started s = do
    s ← require s (not s.has_started) (text "duplicate provider response start")
    send w (record s { has_started = true })
        (object (
          (text "type", string (text "response.created"))
          ∷ (
            text "response",
            object (
                (text "id", string s.id)
                ∷ (text "object", string (text "response"))
                ∷ (text "status", string (text "in_progress"))
                ∷ (text "output", array [])
                ∷ []),
          )
          ∷ []))

  -- `active.deltas += delta`, which is sent if it is not empty.
  unfoldable pub add_delta : ResponsesStream j → ℕ → Active j → Text → Map Value → Attempt j
  add_delta s index a delta fields =
      let b : Active j = record a { deltas = a.deltas ++ delta } in
      let t : ResponsesStream j = record s { active = set_active index b s.active } in
      if is_empty delta
      then going t
      else send w t (object (item_fields s index ++ (text "delta", string delta) ∷ fields))

  -- The count of bytes, which is checked first.
  unfoldable pub count_bytes : ResponsesStream j → Text → Attempt j
  count_bytes s value = do
    s ←
        require s (leb (length value) ((maximum_stream_bytes + 2 ^ 64 - s.bytes) % 2 ^ 64))
          (text "provider stream exceeds byte limit")
    going (record s { bytes = s.bytes + length value })

  unfoldable pub add_text : ResponsesStream j → ℕ → Text → Attempt j
  add_text s index value = elim (find_active index s.active) [
    | none ↦ thrown s library_fault
    | some a ↦ do
      s ← require s (is_text a.content) (text "text delta for non-text block")
      add_delta s index a value (
          (text "type", string (text "response.output_text.delta"))
          ∷ (text "content_index", unsigned 0)
          ∷ [])
  ]

  unfoldable pub on_text_delta : ResponsesStream j → ℕ → Text → Attempt j
  on_text_delta s index value = do s ← count_bytes s value; add_text s index value

  unfoldable pub add_decoded : ResponsesStream j → ℕ → Active j → ToolCall j → Reading → Attempt j
  add_decoded s index a call r =
      let b : Active j = record a { custom = r.input } in
      if r.threw
      then thrown (record s { active = set_active index b s.active }) library_fault
      else add_delta s index b r.output (
          (text "type", string (text "response.custom_tool_call_input.delta"))
          ∷ (text "call_id", string call.id)
          ∷ [])

  unfoldable pub add_input : ResponsesStream j → ℕ → Active j → Content j → Text → Attempt j
  add_input s index a (tool_call call) value = elim (lookup call.name s.tools) [
    | none ↦ thrown s library_fault
    | some tool ↦
        if tool.custom
        then add_decoded s index a call (read_input j a.custom value)
        else add_delta s index a value (
            (text "type", string (text "response.function_call_arguments.delta"))
            ∷ (text "call_id", string call.id)
            ∷ [])
  ]
  add_input s index a _ value = thrown s library_fault

  unfoldable pub add_active_input : ResponsesStream j → ℕ → Text → Attempt j
  add_active_input s index value = elim (find_active index s.active) [
    | none ↦ thrown s library_fault
    | some a ↦ add_input s index a a.content value
  ]

  unfoldable pub on_tool_input : ResponsesStream j → ℕ → Text → Attempt j
  on_tool_input s index value = do s ← count_bytes s value; add_active_input s index value

  unfoldable pub fault_text : ResponsesStream j → ModelEvent j → Fault → Text
  fault_text s event (fault error) = error
  fault_text s event library_fault = w.library_text s event

  -- What a failure's own sending throws ends the stream.
  unfoldable pub settled : Attempt j → ResponsesStream j
  settled (going s) = s
  settled (thrown s x) = record s { terminal = true }

  -- The `try` of `receive`.
  unfoldable pub caught : ResponsesStream j → ModelEvent j → Attempt j → ResponsesStream j
  caught s event (going t) = t
  caught s event (thrown t x) = settled (
      fail_stream w t (record {
        code = text "invalid_provider_response";
        message = fault_text s event x;
        retryable = false;
      }))

  -- The text that a block starts with is received as a delta.
  unfoldable pub receive_text : ResponsesStream j → ℕ → Text → ResponsesStream j
  receive_text s index value =
      if s.terminal then s else caught s (text_delta index value) (on_text_delta s index value)

  unfoldable pub open_text : ResponsesStream j → ℕ → Content j → Attempt j
  open_text s index (text_content value) = do
    s ← send w s (
        object (
          (text "type", string (text "response.content_part.added"))
          ∷ (text "content_index", unsigned 0)
          ∷ (text "part", text_part j [])
          ∷ item_fields s index))
    if is_empty value then going s else going (receive_text s index value)
  open_text s index _ = going s

  unfoldable pub note_call : ResponsesStream j → Content j → Attempt j
  note_call s (tool_call call) = do
    s ←
        require s (not (is_empty call.id) && not (has_call call.id s.calls))
          (text "duplicate provider tool call ID")
    going (record s { calls = call.id ∷ s.calls })
  note_call s _ = going s

  unfoldable pub announce_item : ResponsesStream j → ℕ → Option Value → Text → Attempt j
  announce_item s index none kind = thrown s library_fault
  announce_item s index (some item) kind = send w s (
      object (
        (text "type", string kind)
        ∷ (text "output_index", unsigned index)
        ∷ (text "item", item)
        ∷ []))

  unfoldable pub activate : ResponsesStream j → ℕ → Content j → Attempt j
  activate s index content =
      let a : Active j = record { content = content; custom = new_input; deltas = [] } in
      going (record s { active = s.active ++ (index, a) ∷ [] })

  unfoldable pub on_block_started : ResponsesStream j → ℕ → Content j → Attempt j
  on_block_started s index content = do
    s ←
        require s (s.has_started && (is_idle s.active && index == length s.output))
          (text "out-of-order provider block")
    s ← finish_text w s false
    s ← note_call s content
    s ← activate s index content
    s ← announce_item s index (item_of s index content false) (text "response.output_item.added")
    open_text s index content
