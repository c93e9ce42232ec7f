-- ===== src/Envelope.antt =====
-- src/ai/openai/codex/protocol/Envelope.cpp: the messages of the bridge, and what counts as
-- JSON-RPC.
pub mod Laws
use aisuite.Common.{
  ℕ, Bool, true, false, not, ◌&&◌, ◌||◌, Option, none, some, [], ◌∷◌, if◌then◌else◌, is_some, Text,
  text, text_eq, is_empty, ℤ,
}
use aisuite.Json.{Json, has}

pub data Role : Type 0 where
  controller observer : Role

pub data AppServerDirection : Type 0 where
  to_app_server from_app_server : AppServerDirection

pub data JsonRpcKind : Type 0 where
  request notification response invalid : JsonRpcKind

unfoldable pub to_string_view : Role → Text
to_string_view controller = text "controller"
to_string_view observer = text "observer"

module _ (j : Json) where
  open j use {
    Value, is_object, is_array, is_string, is_null, is_number_integer, is_number_unsigned, find,
    get_string, dump, null, string, unsigned, integer, object, set,
  }

  -- `message.contains(k) && message[k].is_string()`, and the same of a value that is not null.
  unfoldable pub has_string : Value → Text → Bool
  has_string m k = elim (find m k) [ none ↦ false | some v ↦ is_string v ]

  unfoldable pub has_value : Value → Text → Bool
  has_value m k = elim (find m k) [ none ↦ false | some v ↦ not (is_null v) ]

  -- `hasResult != hasError`.
  unfoldable pub differ : Bool → Bool → Bool
  differ true b = not b
  differ false b = b

  unfoldable pub classify_json_rpc : Value → JsonRpcKind
  unfolding has_string has_value differ
  classify_json_rpc message =
      let has_method = has_string message (text "method") in
      let has_id = has_value message (text "id") in
      let has_result = has j message (text "result") in
      let has_error = has j message (text "error") in
      if not (is_object message)
      then invalid
      else if has_method
      then (if has_id then request else notification)
      else if has_id && differ has_result has_error
      then response
      else invalid

  -- `is_string() || is_number_integer() || is_number_unsigned()`.
  abbrev pub is_id : Value → Bool
  is_id v = is_string v || is_number_integer v || is_number_unsigned v

  -- The tests of `classifyStrictJsonRpc` on single members; a missing one passes, but for the
  -- version.
  unfoldable pub bad_version : Value → Bool
  bad_version m = elim (find m (text "jsonrpc")) [
    | none ↦ true
    | some v ↦ not (is_string v) || not (text_eq (get_string v) (text "2.0"))
  ]

  unfoldable pub bad_id : Value → Bool
  bad_id m = elim (find m (text "id")) [ none ↦ false | some v ↦ not (is_null v) && not (is_id v) ]

  unfoldable pub bad_params : Value → Bool
  bad_params m = elim (find m (text "params")) [
    | none ↦ false
    | some v ↦ not (is_object v) && not (is_array v)
  ]

  unfoldable pub bad_error : Value → Bool
  bad_error m = elim (find m (text "error")) [ none ↦ false | some v ↦ not (is_object v) ]

  -- The members that the kind rules out.
  unfoldable pub strict_kind : Value → JsonRpcKind → JsonRpcKind
  strict_kind m request =
      if has j m (text "result") || has j m (text "error") then invalid else request
  strict_kind m notification =
      if has j m (text "result") || has j m (text "error") then invalid else notification
  strict_kind m response =
      if has j m (text "method") || has j m (text "params") then invalid else response
  strict_kind m invalid = invalid

  unfoldable pub classify_strict_json_rpc : Value → JsonRpcKind
  unfolding bad_version bad_id bad_params bad_error
  classify_strict_json_rpc message =
      if not (is_object message)
      then invalid
      else if bad_version message
      then invalid
      else if bad_id message
      then invalid
      else if bad_params message
      then invalid
      else if bad_error message
      then invalid
      else strict_kind message (classify_json_rpc message)

  unfoldable pub id_key : Option Value → Option Text
  id_key none = none
  id_key (some id) = if is_null id then none else if not (is_id id) then none else some (dump id)

  unfoldable pub json_rpc_id_key : Value → Option Text
  unfolding id_key
  json_rpc_id_key message =
      if not (is_object message) then none else id_key (find message (text "id"))

  unfoldable pub method_text : Option Value → Option Text
  method_text none = none
  method_text (some v) = if is_string v then some (get_string v) else none

  unfoldable pub json_rpc_method : Value → Option Text
  unfolding method_text
  json_rpc_method message =
      if not (is_object message) then none else method_text (find message (text "method"))

  -- `id ? json(*id) : json(nullptr)`.
  unfoldable pub string_or_null : Option Text → Value
  string_or_null none = null
  string_or_null (some s) = string s

  unfoldable pub app_server_envelope : Text → Role → ℕ → Value → Value
  unfolding to_string_view
  app_server_envelope connection_id role sequence payload = object (
      (text "kind", string (text "appserver"))
      ∷ (text "connectionId", string connection_id)
      ∷ (text "role", string (to_string_view role))
      ∷ (text "seq", unsigned sequence)
      ∷ (text "payload", payload)
      ∷ [])

  unfoldable pub connection_event : Text → Text → Role → ℕ → Value
  unfolding to_string_view
  connection_event event connection_id role sequence = object (
      (text "kind", string (text "bridge.connection"))
      ∷ (text "event", string event)
      ∷ (text "connectionId", string connection_id)
      ∷ (text "role", string (to_string_view role))
      ∷ (text "seq", unsigned sequence)
      ∷ [])

  unfoldable pub controller_event : Option Text → ℕ → Value
  unfolding string_or_null
  controller_event controller_connection_id sequence =
      set
        (object
          ((text "kind", string (text "bridge.controller")) ∷ (text "seq", unsigned sequence) ∷ []))
        (text "controllerConnectionId") (string_or_null controller_connection_id)

  unfoldable pub provider_event : Text → ℕ → ℕ → Text → Value
  provider_event state provider_generation sequence reason =
      let event : Value = object (
        (text "kind", string (text "bridge.provider"))
        ∷ (text "state", string state)
        ∷ (text "providerGeneration", unsigned provider_generation)
        ∷ (text "seq", unsigned sequence)
        ∷ []) in
      if is_empty reason then event else set event (text "reason") (string reason)

  unfoldable pub diagnostic_event : Text → Text → Option Text → ℕ → Value → Value
  unfolding string_or_null
  diagnostic_event code message connection_id sequence details =
      set
        (object (
          (text "kind", string (text "bridge.diagnostic"))
          ∷ (text "code", string code)
          ∷ (text "message", string message)
          ∷ (text "seq", unsigned sequence)
          ∷ (text "details", details)
          ∷ []))
        (text "connectionId") (string_or_null connection_id)

  unfoldable pub json_rpc_error : Value → ℤ → Text → Value → Value
  json_rpc_error id code message details =
      let plain : Value =
        object ((text "code", integer code) ∷ (text "message", string message) ∷ []) in
      let error : Value = if is_null details then plain else set plain (text "data") details in
      object ((text "jsonrpc", string (text "2.0")) ∷ (text "id", id) ∷ (text "error", error) ∷ [])
