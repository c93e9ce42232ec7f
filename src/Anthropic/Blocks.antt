-- ===== src/Anthropic/Blocks.antt =====
-- MessageStream: the events of one content block.
use aisuite.Common.{
  ℕ, ◌+◌, ◌%◌, ◌^◌, Bool, true, false, not, ◌&&◌, ◌||◌, Option, none, some, is_some, List, [], ◌∷◌,
  ◌++◌, ◌==◌, if◌then◌else◌, Text, text, text_eq, is_empty,
}
use aisuite.Json.{Json, has}
use aisuite.Model.{block_started, block_finished, text_delta, tool_input_delta, reasoning_delta}
use aisuite.Anthropic.Values.{
  fault, library_fault, Try, got, threw, member, member_text, text_or_empty, count, content,
}
use aisuite.Anthropic.State.{
  Block, MessageStream, Listener, Attempt, going, thrown, ◌>>=◌, using, require, find_block,
  erase_block, set_block, emit,
}

unfoldable pub is_supported : Text → Bool
is_supported kind =
    text_eq kind (text "text")
    || (text_eq kind (text "tool_use")
        || (text_eq kind (text "thinking") || text_eq kind (text "redacted_thinking")))

unfoldable pub is_thinking : Text → Bool
is_thinking kind = text_eq kind (text "thinking") || text_eq kind (text "redacted_thinking")

unfoldable pub is_known_call : Text → List Text → Bool
is_known_call id [] = false
is_known_call id (c ∷ cs) = text_eq c id || is_known_call id cs

unfoldable pub has_no_blocks : {j : Json} → List (ℕ × Block j) → Bool
has_no_blocks [] = true
has_no_blocks (b ∷ bs) = false

module _ {j : Json} (w : Listener j) where
  open j use {Value, is_object, is_string, get_string, parse, string, same, set}

  -- A tool's call has an id of its own.
  unfoldable pub note_id : MessageStream j → Text → Attempt j
  note_id s id = do
    s ← require s (not (is_empty id)) (text "invalid tool_use")
    s ← require s (not (is_known_call id s.call_ids)) (text "duplicate Anthropic tool ID")
    going (record s { call_ids = id ∷ s.call_ids })

  unfoldable pub note_call : MessageStream j → Value → Attempt j
  note_call s value = using s (member j value (text "input")) (λ input. do
    s ← require s (is_object input) (text "invalid tool_use")
    using s (member_text j value (text "id")) (λ id. note_id s id))

  unfoldable pub check_redacted : MessageStream j → Value → Attempt j
  check_redacted s value =
      using s (member j value (text "data"))
        (λ d. require s (is_string d) (text "invalid redacted thinking"))

  unfoldable pub open_block : MessageStream j → ℕ → Value → Attempt j
  open_block s index value = using s (content j s.tool_names value) (λ item.
      let t : MessageStream j = record s {
        blocks = (index, record { value = value; input = [] }) ∷ s.blocks;
      } in
      going (emit w t (block_started index item)))

  unfoldable pub start_block : MessageStream j → ℕ → Value → Text → Attempt j
  start_block s index value kind = do
    s ← require s (is_supported kind) (text "unsupported Anthropic block: " ++ kind)
    s ←
        require s (s.thinking_enabled || not (is_thinking kind))
          (text "unexpected Anthropic thinking while disabled")
    s ← (if text_eq kind (text "tool_use") then note_call s value else going s)
    s ← (if text_eq kind (text "redacted_thinking") then check_redacted s value else going s)
    open_block s index value

  -- The next index moves on, whatever the index is.
  unfoldable pub take_index : MessageStream j → ℕ → Attempt j
  take_index s index =
      require (record s { next_index = (s.next_index + 1) % 2 ^ 64 }) (index == s.next_index)
        (text "invalid Anthropic content index")

  unfoldable pub start_at : MessageStream j → Value → ℕ → Attempt j
  start_at s event index = do
    s ← take_index s index
    using s (member j event (text "content_block")) (λ value.
        using s (member_text j value (text "type")) (λ kind. start_block s index value kind))

  unfoldable pub on_block_start : MessageStream j → Value → Attempt j
  on_block_start s event = do
    s ←
        require s (s.has_started && (not (is_some s.stop) && has_no_blocks s.blocks))
          (text "out-of-order Anthropic content block")
    using s (count j event (text "index") 0) (λ index. start_at s event index)

  -- `block.value.at("type") == kind`.
  unfoldable pub require_type : MessageStream j → Block j → Text → Text → Attempt j
  require_type s block kind message =
      using s (member j block.value (text "type")) (λ t. require s (same t (string kind)) message)

  -- `block.value[key].get_ref<std::string&>() += value`.
  unfoldable pub append_to : Block j → Text → Text → Try (Block j)
  append_to block key value = elim (j.find block.value key) [
    | none ↦ threw library_fault
    | some old ↦
        if is_string old
        then got (record block { value = set block.value key (string (get_string old ++ value)) })
        else threw library_fault
  ]

  unfoldable pub with_block : MessageStream j → ℕ → Block j → MessageStream j
  with_block s index block = record s { blocks = set_block index block s.blocks }

  unfoldable pub on_text_delta : MessageStream j → ℕ → Block j → Value → Attempt j
  on_text_delta s index block delta = do
    s ← require_type s block (text "text") (text "text delta for non-text block")
    using s (member_text j delta (text "text")) (λ value.
        using s (append_to block (text "text") value)
          (λ grown. going (emit w (with_block s index grown) (text_delta index value))))

  unfoldable pub on_input_delta : MessageStream j → ℕ → Block j → Value → Attempt j
  on_input_delta s index block delta = do
    s ← require_type s block (text "tool_use") (text "tool delta for non-tool block")
    using s (member_text j delta (text "partial_json")) (λ value.
        let grown : Block j = record block { input = block.input ++ value } in
        going (emit w (with_block s index grown) (tool_input_delta index value)))

  -- A missing member is an empty text.
  unfoldable pub with_member : Block j → Text → Block j
  with_member block key =
      if has j block.value key
      then block
      else record block { value = set block.value key (string []) }

  unfoldable pub on_thinking_delta : MessageStream j → ℕ → Block j → Value → Bool → Attempt j
  on_thinking_delta s index block delta is_thought = do
    s ← require_type s block (text "thinking") (text "thinking delta for non-thinking block")
    let key = if is_thought then text "thinking" else text "signature" in
        using s (member_text j delta key) (λ value.
          using s (append_to (with_member block key) key value) (λ grown.
            let t = with_block s index grown in
            going (if is_thought then emit w t (reasoning_delta index value) else t)))

  unfoldable pub delta_named : MessageStream j → ℕ → Block j → Value → Text → Attempt j
  delta_named s index block delta kind =
      if text_eq kind (text "text_delta")
      then on_text_delta s index block delta
      else if text_eq kind (text "input_json_delta")
      then on_input_delta s index block delta
      else if text_eq kind (text "thinking_delta") || text_eq kind (text "signature_delta")
      then on_thinking_delta s index block delta (text_eq kind (text "thinking_delta"))
      else thrown s (fault (text "unsupported Anthropic content delta: " ++ kind))

  unfoldable pub delta_in : MessageStream j → Value → ℕ → Option (Block j) → Attempt j
  delta_in s event index none = thrown s library_fault
  delta_in s event index (some block) = using s (member j event (text "delta")) (λ delta.
      using s (member_text j delta (text "type")) (λ kind. delta_named s index block delta kind))

  unfoldable pub on_delta : MessageStream j → Value → Attempt j
  on_delta s event =
      using s (count j event (text "index") 0)
        (λ index. delta_in s event index (find_block index s.blocks))

  -- Input that came in deltas takes the place of the one the block started with.
  unfoldable pub whole_value : Block j → Try Value
  whole_value block = if is_empty block.input then got block.value else elim (parse block.input) [
    | none ↦ threw library_fault
    | some input ↦
        if is_object input
        then got (set block.value (text "input") input)
        else threw (fault (text "tool input is not an object"))
  ]

  unfoldable pub check_signature : MessageStream j → Value → Value → Attempt j
  check_signature s value type =
      if same type (string (text "thinking"))
      then using s (text_or_empty j value (text "signature"))
          (λ signature. require s (not (is_empty signature)) (text "unsigned thinking block"))
      else going s

  unfoldable pub close_block : MessageStream j → ℕ → Value → Attempt j
  close_block s index value = using s (member j value (text "type")) (λ type. do
    s ← check_signature s value type
    using s (content j s.tool_names value) (λ item. going (emit w s (block_finished index item))))

  unfoldable pub stop_at : MessageStream j → ℕ → Option (Block j) → Attempt j
  stop_at s index none = thrown s library_fault
  stop_at s index (some block) =
      let t : MessageStream j = record s { blocks = erase_block index s.blocks } in
      using t (whole_value block) (λ value. close_block t index value)

  unfoldable pub on_block_stop : MessageStream j → Value → Attempt j
  on_block_stop s event =
      using s (count j event (text "index") 0)
        (λ index. stop_at s index (find_block index s.blocks))
