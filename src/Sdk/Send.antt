-- ===== src/Sdk/Send.antt =====
-- The frontend's CodexBridge: what it sends, and its registrations.
use aisuite.Common.{
  Bool, true, false, Option, none, some, is_some, [], ◌∷◌, if◌then◌else◌, Text, text, Map, ℤ,
}
use aisuite.Json.{Json}
use aisuite.Envelope.{to_app_server, JsonRpcKind, invalid, classify_json_rpc, json_rpc_error}
use aisuite.Bridge.State.{Handler}
use aisuite.Bridge.Local.{register_handler}
use aisuite.Sdk.State.{sent, refused, Surroundings, FrontendBridge, record_call, watch_raw}

unfoldable pub is_valid_kind : JsonRpcKind → Bool
is_valid_kind invalid = false
is_valid_kind _ = true

-- `request["params"] = *params`, if there are any.
unfoldable pub add_params : (j : Json) → j.Value → Option j.Value → j.Value
add_params j m none = m
add_params j m (some params) = j.set m (text "params") params

module _ (j : Json) where
  open j use {Value, string, object}

  -- The envelope of a message for the app server.
  unfoldable pub outbound : Value → Value
  outbound message =
      object ((text "kind", string (text "appserver")) ∷ (text "payload", message) ∷ [])

  unfoldable pub controller_command : Text → Map Value → Value
  controller_command action details =
      object (
        (text "kind", string (text "bridge.controller")) ∷ (text "action", string action) ∷ details)

module _ {j : Json} where
  open j use {Value}

  unfoldable pub set_sender : FrontendBridge j → Handler → FrontendBridge j
  set_sender s h = record s { sender = h }

  unfoldable pub on_raw_messages : FrontendBridge j → Handler → FrontendBridge j
  on_raw_messages s h = record s { raw_handler = h }

  unfoldable pub on_bridge_event : FrontendBridge j → Handler → FrontendBridge j
  on_bridge_event s h = record s { bridge_event_handler = h }

  unfoldable pub on_server_request : FrontendBridge j → Text → Handler → FrontendBridge j
  on_server_request s method h = record s {
    server_request_handlers = register_handler method h s.server_request_handlers;
  }

  unfoldable pub on_server_notification : FrontendBridge j → Text → Handler → FrontendBridge j
  on_server_notification s method h =
      let handlers = register_handler method h s.server_notification_handlers in
      record s { server_notification_handlers = handlers }

module _ {j : Json} (w : Surroundings j) where
  open j use {Value, is_null, null, string, object}

  -- `sender_ && sender_(message)`, behind the test of the connection.
  unfoldable pub pass_on : FrontendBridge j → Value → FrontendBridge j × Bool
  pass_on s message = elim s.connection_id [
    | none ↦ (s, false)
    | some c ↦ elim s.sender [
      | none ↦ (s, false)
      | some h ↦
          if w.accepts s.trace h message
          then (record_call s (sent h message), true)
          else (record_call s (refused h message), false)
    ]
  ]

  unfoldable pub send_app_server_message : FrontendBridge j → Value → FrontendBridge j × Bool
  send_app_server_message s message =
      let (t, taken) = pass_on s (outbound j message) in
      if taken then (watch_raw t to_app_server message, true) else (t, false)

  unfoldable pub send_bridge_command : FrontendBridge j → Value → FrontendBridge j × Bool
  send_bridge_command s command = pass_on s command

  unfoldable pub send_raw_message : FrontendBridge j → Value → FrontendBridge j × Bool
  send_raw_message s message =
      if is_valid_kind (classify_json_rpc j message)
      then send_app_server_message s message
      else (s, false)

  unfoldable pub claim_controller : FrontendBridge j → FrontendBridge j × Bool
  claim_controller s = send_bridge_command s (controller_command j (text "claim") [])

  unfoldable pub release_controller : FrontendBridge j → FrontendBridge j × Bool
  release_controller s = send_bridge_command s (controller_command j (text "release") [])

  unfoldable pub transfer_controller : FrontendBridge j → Text → FrontendBridge j × Bool
  transfer_controller s target =
      send_bridge_command s
        (controller_command j (text "transfer") ((text "targetConnectionId", string target) ∷ []))

  unfoldable pub send_notification :
      FrontendBridge j → Text → Option Value → FrontendBridge j × Bool
  send_notification s method params =
      let message =
        object ((text "jsonrpc", string (text "2.0")) ∷ (text "method", string method) ∷ []) in
      if is_some s.connection_id
      then send_app_server_message s (add_params j message params)
      else (s, false)

  unfoldable pub respond : FrontendBridge j → Value → Value → FrontendBridge j × Bool
  respond s id result =
      let message =
        object (
          (text "jsonrpc", string (text "2.0")) ∷ (text "id", id) ∷ (text "result", result) ∷ []) in
      if is_null id then (s, false) else send_app_server_message s message

  unfoldable pub respond_error :
      FrontendBridge j → Value → ℤ → Text → Value → FrontendBridge j × Bool
  respond_error s id code message details =
      if is_null id
      then (s, false)
      else send_app_server_message s (json_rpc_error j id code message details)
