-- ===== src/Anthropic/Values.antt =====
-- MessageStream: what is read from JSON values, which may throw.
use aisuite.Common.{
  ℕ, Bool, true, false, not, ◌==◌, is_empty, ◌&&◌, ◌||◌, none, some, [], ◌++◌, if◌then◌else◌, Text,
  text, text_eq, Map, lookup, ℤ, pos, negsuc,
}
use aisuite.Json.{Json}
use aisuite.Model.{
  Content, text_content, tool_call, reasoning, StopReason, Usage, end_turn, tool_use, output_limit,
  stop_sequence, refusal, pause,
}

-- An exception: one that the code throws with its text, or one of the JSON library.
pub data Fault : Type 0 where
  fault : Text → Fault
  library_fault : Fault

pub data Try {ℓ} (A : Type ℓ) : Type ℓ where
  got : A → Try A
  threw : Fault → Try A

infixl 5 ◌>>=◌
abbrev pub ◌>>=◌ {ℓ m} : {A : Type ℓ} {B : Type m} → Try A → (A → Try B) → Try B
got a >>= f = f a
threw x >>= f = threw x

unfoldable pub stop_reason : Text → Try StopReason
stop_reason reason =
    if text_eq reason (text "end_turn")
    then got end_turn
    else if text_eq reason (text "tool_use")
    then got tool_use
    else if text_eq reason (text "max_tokens")
        || text_eq reason (text "model_context_window_exceeded")
    then got output_limit
    else if text_eq reason (text "stop_sequence")
    then got stop_sequence
    else if text_eq reason (text "refusal")
    then got refusal
    else if text_eq reason (text "pause_turn")
    then got pause
    else threw (fault (text "unsupported Anthropic stop reason: " ++ reason))

unfoldable pub is_natural : ℤ → Bool
is_natural (pos n) = true
is_natural (negsuc n) = false

module _ (j : Json) where
  open j use {
    Value, find, is_string, get_string, is_number_unsigned, is_number_integer, get_unsigned,
    get_integer, dump, is_array, size, same, string,
  }

  -- `at`.
  unfoldable pub member : Value → Text → Try Value
  member v key = elim (find v key) [ none ↦ threw library_fault | some m ↦ got m ]

  -- `get<std::string>`.
  unfoldable pub string_of : Value → Try Text
  string_of v = if is_string v then got (get_string v) else threw library_fault

  unfoldable pub member_text : Value → Text → Try Text
  member_text v key = do m ← member v key; string_of m

  -- `value(key, "")`.
  unfoldable pub text_or_empty : Value → Text → Try Text
  text_or_empty v key = elim (find v key) [ none ↦ got [] | some m ↦ string_of m ]

  unfoldable pub count : Value → Text → ℕ → Try ℕ
  count v key fallback = elim (find v key) [
    | none ↦ got fallback
    | some m ↦
        if is_number_unsigned m || (is_number_integer m && is_natural (get_integer m))
        then got (get_unsigned m)
        else threw (fault (text "invalid token count: " ++ key))
  ]

  unfoldable pub tool_content : Map Text → Value → Text → Try (Content j)
  tool_content names v wire = elim (lookup wire names) [
    | none ↦ threw (fault (text "Anthropic returned undeclared tool: " ++ wire))
    | some name ↦ do
      id ← member_text v (text "id")
      input ← member v (text "input")
      got (tool_call (record { id = id; name = name; input = input }))
  ]

  unfoldable pub content_of : Map Text → Value → Text → Try (Content j)
  content_of names v kind =
      if text_eq kind (text "text")
      then (do value ← member_text v (text "text"); got (text_content value))
      else if text_eq kind (text "tool_use")
      then (do wire ← member_text v (text "name"); tool_content names v wire)
      else (do
        thought ← text_or_empty v (text "thinking")
        got (reasoning thought (text "anthropic") (dump v)))

  -- `content`, of a block's value.
  unfoldable pub content : Map Text → Value → Try (Content j)
  content names v = do kind ← member_text v (text "type"); content_of names v kind

  -- The four counts, each with what stands for a missing one.
  unfoldable pub usage_of : Value → Usage → Try Usage
  usage_of v old = do
    input ← count v (text "input_tokens") old.input_tokens
    output ← count v (text "output_tokens") old.output_tokens
    read ← count v (text "cache_read_input_tokens") old.cache_read_tokens
    write ← count v (text "cache_creation_input_tokens") old.cache_write_tokens
    got (record {
      input_tokens = input;
      output_tokens = output;
      cache_read_tokens = read;
      cache_write_tokens = write;
    })

  unfoldable pub has_id : Value → Try Bool
  has_id message = do id ← member_text message (text "id"); got (not (is_empty id))

  unfoldable pub has_empty_content : Value → Try Bool
  has_empty_content message = do
    items ← member message (text "content")
    if is_array items && size items == 0 then has_id message else got false

  -- The four tests of a message's start, up to the first that fails.
  unfoldable pub is_new_message : Value → Try Bool
  is_new_message message = do
    role ← member message (text "role")
    if same role (string (text "assistant")) then has_empty_content message else got false
