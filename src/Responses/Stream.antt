-- ===== src/Responses/Stream.antt =====
-- ResponsesStream: its members, and what it sends.
use aisuite.Common.{
  ℕ, ◌+◌, ◌%◌, ◌^◌, Bool, true, false, not, Option, none, some, List, [], ◌∷◌, ◌++◌, ◌==◌,
  if◌then◌else◌, length, Text, text, text_eq, is_empty, to_string, Map, lookup,
}
use aisuite.Json.{Json}
use aisuite.Model.{
  ToolCall, Content, text_content, tool_call, tool_result, reasoning, Usage, ModelError, ModelEvent,
}
use aisuite.Responses.CustomInput.{CustomInput}

pub record ToolIdentity : Type 0 where
  pub name : Text
  pub name_space : Text
  pub custom : Bool

pub record Active (j : Json) : Type 0 where
  pub content : Content j
  pub custom : CustomInput
  pub deltas : Text

-- `output` has its last item first; `offered` are the events given to the sender, the last one first.
pub record ResponsesStream (j : Json) : Type 0 where
  pub model : Text
  pub tools : Map ToolIdentity
  pub id : Text
  pub usage : Usage
  pub active : List (ℕ × Active j)
  pub output : List j.Value
  pub calls : List Text
  pub sequence : ℕ
  pub bytes : ℕ
  pub has_started : Bool
  pub terminal : Bool
  pub offered : List j.Value

-- The constructor.
unfoldable pub new_stream : {j : Json} → Text → Map ToolIdentity → Text → ResponsesStream j
new_stream model tools id = record {
  model = model;
  tools = tools;
  id = id;
  usage = record {
    input_tokens = 0;
    output_tokens = 0;
    cache_read_tokens = 0;
    cache_write_tokens = 0;
  };
  active = [];
  output = [];
  calls = [];
  sequence = 0;
  bytes = 0;
  has_started = false;
  terminal = false;
  offered = [];
}

-- An exception: one that the code throws with its text, or one of the libraries it calls.
pub data Fault : Type 0 where
  fault : Text → Fault
  library_fault : Fault

-- The world around: what the sender accepts, and the text of a library's exception, which may depend
-- on all that led to it.
pub record Client (j : Json) : Type 0 where
  pub accepts : List j.Value → j.Value → Bool
  pub library_text : ResponsesStream j → ModelEvent j → Text

-- A step that may throw keeps what it changed before.
pub data Attempt (j : Json) : Type 0 where
  going : ResponsesStream j → Attempt j
  thrown : ResponsesStream j → Fault → Attempt j

infixl 5 ◌>>=◌
abbrev pub ◌>>=◌ : {j : Json} → Attempt j → (ResponsesStream j → Attempt j) → Attempt j
going s >>= f = f s
thrown s x >>= f = thrown s x

-- `require`.
unfoldable pub require : {j : Json} → ResponsesStream j → Bool → Text → Attempt j
require s true error = going s
require s false error = thrown s (fault (text "Codex Responses profile: " ++ error))

-- An entry of `active_`.
unfoldable pub find_active : {j : Json} → ℕ → List (ℕ × Active j) → Option (Active j)
find_active i [] = none
find_active i ((k, a) ∷ more) = if k == i then some a else find_active i more

unfoldable pub erase_active : {j : Json} → ℕ → List (ℕ × Active j) → List (ℕ × Active j)
erase_active i [] = []
erase_active i ((k, a) ∷ more) =
    let rest = erase_active i more in if k == i then rest else (k, a) ∷ rest

unfoldable pub set_active : {j : Json} → ℕ → Active j → List (ℕ × Active j) → List (ℕ × Active j)
set_active i a [] = []
set_active i a ((k, b) ∷ more) =
    let rest = set_active i a more in if k == i then (k, a) ∷ rest else (k, b) ∷ rest

module _ (j : Json) where
  open j use {Value, find, string, object, array, is_string, get_string}

  -- `call->input.at("input").get<std::string>()`; `none` is an exception.
  unfoldable pub freeform_input : Value → Option Text
  freeform_input input = elim (find input (text "input")) [
    | none ↦ none
    | some v ↦ if is_string v then some (get_string v) else none
  ]

  unfoldable pub text_part : Text → Value
  text_part value = object (
      (text "type", string (text "output_text"))
      ∷ (text "text", string value)
      ∷ (text "annotations", array [])
      ∷ [])

module _ {j : Json} where
  open j use {Value, find, string, unsigned, object, array, set, dump, is_string, get_string}

  unfoldable pub item_id : ResponsesStream j → ℕ → Text
  item_id s index = s.id ++ (text "_item_" ++ to_string index)

  unfoldable pub tool_input : ToolIdentity → ToolCall j → Bool → Option Text
  tool_input tool call false = some []
  tool_input tool call true =
      if tool.custom then freeform_input j call.input else some (dump call.input)

  unfoldable pub item_head : ResponsesStream j → ℕ → Bool → Map Value
  item_head s index finished =
      (text "id", string (item_id s index))
      ∷ (text "status", string (if finished then text "completed" else text "in_progress"))
      ∷ []

  unfoldable pub message_item : ResponsesStream j → ℕ → Text → Bool → Value
  message_item s index value finished = object (
      item_head s index finished
      ++ (text "type", string (text "message"))
        ∷ (text "role", string (text "assistant"))
        ∷ (text "phase", string (text "commentary"))
        ∷ (text "content", array (if finished then text_part j value ∷ [] else []))
        ∷ [])

  unfoldable pub tool_item : ResponsesStream j → ℕ → ToolIdentity → ToolCall j → Bool → Text → Value
  tool_item s index tool call finished input =
      let kind = if tool.custom then text "custom_tool_call" else text "function_call" in
      let field = if tool.custom then text "input" else text "arguments" in
      let scope : Map Value =
        if is_empty tool.name_space then [] else (text "namespace", string tool.name_space) ∷ [] in
      object (
        item_head s index finished
        ++ (text "type", string kind)
          ∷ (text "call_id", string call.id)
          ∷ (text "name", string tool.name)
          ∷ (field, string input)
          ∷ scope)

  -- `item`; `none` is an exception.
  unfoldable pub item_of : ResponsesStream j → ℕ → Content j → Bool → Option Value
  item_of s index (text_content value) finished = some (message_item s index value finished)
  item_of s index (tool_call call) finished = elim (lookup call.name s.tools) [
    | none ↦ none
    | some tool ↦ elim (tool_input tool call finished) [
      | none ↦ none
      | some input ↦ some (tool_item s index tool call finished input)
    ]
  ]
  item_of s index (tool_result id value is_error) finished = none
  item_of s index (reasoning value provider continuation) finished = none

module _ {j : Json} (w : Client j) where
  open j use {Value, find, string, unsigned, object, array, set, same}

  unfoldable pub send : ResponsesStream j → Value → Attempt j
  send s event =
      let numbered = set event (text "sequence_number") (unsigned s.sequence) in
      let t : ResponsesStream j = record s {
        sequence = (s.sequence + 1) % 2 ^ 64;
        offered = numbered ∷ s.offered;
      } in
      if w.accepts s.offered numbered
      then going t
      else thrown (record t { terminal = true })
          (fault (text "Responses receiver disconnected or queue full"))

  unfoldable pub is_message : Value → Bool
  is_message v = elim (find v (text "type")) [
    | none ↦ false
    | some t ↦ same t (string (text "message"))
  ]

  -- The phase of a trailing text, which is known now.
  unfoldable pub finish_last : ResponsesStream j → Bool → List Value → Attempt j
  finish_last s final [] = going s
  finish_last s final (last ∷ more) =
      let phase = string (if final then text "final_answer" else text "commentary") in
      let message = set last (text "phase") phase in
      if not (is_message last)
      then going s
      else send (record s { output = message ∷ more })
          (object (
            (text "type", string (text "response.output_item.done"))
            ∷ (text "output_index", unsigned (length more))
            ∷ (text "item", message)
            ∷ []))

  -- `finishText`.
  unfoldable pub finish_text : ResponsesStream j → Bool → Attempt j
  finish_text s final = finish_last s final s.output

  unfoldable pub error_code : ModelError → Text
  error_code e =
      if e.retryable
      then (if text_eq e.code (text "rate_limit_error")
          then text "rate_limit_exceeded"
          else text "server_is_overloaded")
      else text "invalid_prompt"

  unfoldable pub failure_event : ResponsesStream j → ModelError → Value
  failure_event s e =
      let error = object (
        (text "code", string (error_code e))
        ∷ (text "message", string (e.code ++ (text ": " ++ e.message)))
        ∷ []) in
      let response = object (
        (text "id", string s.id)
        ∷ (text "status", string (text "failed"))
        ∷ (text "error", error)
        ∷ []) in
      object ((text "type", string (text "response.failed")) ∷ (text "response", response) ∷ [])

  unfoldable pub end_stream : ResponsesStream j → Attempt j
  end_stream s = going (record s { terminal = true })

  unfoldable pub fail_stream : ResponsesStream j → ModelError → Attempt j
  fail_stream s e = if s.terminal then going s else send s (failure_event s e) >>= end_stream
