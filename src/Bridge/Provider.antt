-- ===== src/Bridge/Provider.antt =====
-- CodexBridge::receiveFromAppServer: answers, requests and notifications.
use aisuite.Common.{
  ℕ, not, Option, none, some, List, [], ◌∷◌, if◌then◌else◌, Text, text, text_eq, Map, lookup,
  contains, emplace, keys, negsuc,
}
use aisuite.Json.{Json}
use aisuite.Envelope.{
  from_app_server, JsonRpcKind, request, notification, response, classify_json_rpc, is_id,
  json_rpc_id_key, json_rpc_method, json_rpc_error, app_server_envelope,
}
use aisuite.Bridge.State.{
  Handler, FrontendRecord, local_application, frontend, ServerRequestOwner, called, World, Bridge,
  with_core, emit, next_sequence,
}
use aisuite.Bridge.Io.{
  send_envelope, send_to, emit_diagnostic, observe, call, send_to_app_server, id_of,
}
use aisuite.Bridge.Forward.{invalid_request, without_owner, drop_request}
use aisuite.Bridge.Local.{live_handler, drop_local}

module _ (j : Json) where
  open j use {Value, find, is_object}

  -- `requestId` of a `serverRequest/resolved` notification.
  unfoldable pub resolved_id : Option Value → Option Value
  resolved_id none = none
  resolved_id (some params) =
      if not (is_object params) then none else find params (text "requestId")

module _ {j : Json} where
  open j use {Value, dump}

  unfoldable pub own : Bridge j → Text → ServerRequestOwner j → Bridge j
  own s key owner =
      let owners = emplace key owner s.app_server_request_owners in
      with_core s (record (s.core) { app_server_request_owners = owners })

  unfoldable pub resolve : Bridge j → Option Value → Bridge j
  resolve s none = s
  resolve s (some id) = if is_id j id then without_owner s (dump id) else s

module _ {j : Json} (w : World j) where
  open j use {Value, find, null, string, unsigned, object, set}

  -- The diagnostics about a message of the app server go to every frontend.
  unfoldable pub diagnose : Bridge j → Text → Text → Map Value → Bridge j
  diagnose s code message details = emit_diagnostic w s code message none (object details)

  -- An answer to a frontend's request goes back under the id that the frontend chose.
  unfoldable pub on_remote_response : Bridge j → Value → Text → Bridge j
  on_remote_response s message key = elim (lookup key s.frontend_request_owners) [
    | none ↦
        diagnose s (text "unmatched-appserver-response")
          (text "app-server response has no local or frontend request owner")
          ((text "id", id_of j message) ∷ [])
    | some r ↦
        send_envelope w (with_core s (drop_request s.core key r.frontend_key)) r.connection_id
          (set message (text "id") r.frontend_id)
  ]

  unfoldable pub on_response : Bridge j → Value → Text → Bridge j
  on_response s message key = elim (lookup key s.local_requests) [
    | none ↦ on_remote_response s message key
    | some r ↦ call (drop_local s key) r.handler message
  ]

  -- A server request that the local application handles. What its handler throws is answered for it.
  unfoldable pub run_local : Bridge j → Value → Text → ℕ → Bridge j
  run_local s message key h =
      let owned =
        own s key (record {
          kind = local_application;
          frontend_connection_id = [];
          id = id_of j message;
        }) in
      let t = emit owned (called h message) in
      if w.throws owned.trace h message
      then without_owner
          (send_to_app_server w t (
            json_rpc_error j (id_of j message) (negsuc 32602) (text "local request handler failed")
              null)).0
          key
      else t

  unfoldable pub no_receiver : Bridge j → Value → Text → Bridge j
  no_receiver s message method =
      let t =
        (send_to_app_server w s (
          json_rpc_error j (id_of j message) (negsuc 32009)
            (text "no handler or controller is available") null)).0 in
      diagnose t (text "appserver-request-without-handler")
        (text
          "app-server request cannot be delivered because no local handler or controller is available")
        ((text "id", id_of j message) ∷ (text "method", string method) ∷ [])

  unfoldable pub deliver_to : Bridge j → Value → Text → Text → FrontendRecord → Bridge j
  deliver_to s message key c f =
      let owned =
        own s key (record { kind = frontend; frontend_connection_id = c; id = id_of j message }) in
      let t = next_sequence owned in
      send_to w t c (app_server_envelope j c f.role t.sequence message)

  -- A server request goes to the controller, where there is one.
  unfoldable pub to_controller : Bridge j → Value → Text → Text → Option Text → Bridge j
  to_controller s message key method none = no_receiver s message method
  to_controller s message key method (some c) = elim (lookup c s.frontends) [
    | none ↦ no_receiver s message method
    | some f ↦ deliver_to s message key c f
  ]

  unfoldable pub dispatch_request : Bridge j → Value → Text → Text → Handler → Bridge j
  dispatch_request s message key method (some h) = run_local s message key h
  dispatch_request s message key method none = to_controller s message key method s.controller

  unfoldable pub refuse_duplicate : Bridge j → Value → Text → Bridge j
  refuse_duplicate s message method =
      let t =
        (send_to_app_server w s (
          json_rpc_error j (id_of j message) invalid_request
            (text "duplicate app-server request id") null)).0 in
      diagnose t (text "duplicate-appserver-request-id")
        (text "app-server reused an outstanding server-request id")
        ((text "id", id_of j message) ∷ (text "method", string method) ∷ [])

  unfoldable pub on_request : Bridge j → Value → Text → Option Text → Bridge j
  on_request s message key none =
      diagnose s (text "invalid-appserver-request") (text "app-server request has no method") []
  on_request s message key (some method) =
      if contains key s.app_server_request_owners
      then refuse_duplicate s message method
      else dispatch_request s message key method (live_handler method s.server_request_handlers)

  -- The local part of a notification.
  unfoldable pub notify_local : Bridge j → Value → Option Text → Bridge j
  notify_local s message none = s
  notify_local s message (some method) =
      let t =
        if text_eq method (text "serverRequest/resolved")
        then resolve s (resolved_id j (find message (text "params")))
        else s in
      call t (live_handler method t.server_notification_handlers) message

  unfoldable pub fan_out : Bridge j → Value → List Text → Bridge j
  fan_out s message [] = s
  fan_out s message (id ∷ ids) = fan_out (send_envelope w s id message) message ids

  unfoldable pub on_notification : Bridge j → Value → Bridge j
  on_notification s message =
      let t = notify_local s message (json_rpc_method j message) in
      fan_out t message (keys t.frontends)

  unfoldable pub dispatch : Bridge j → Value → JsonRpcKind → Option Text → Bridge j
  dispatch s message response (some key) = on_response s message key
  dispatch s message request (some key) = on_request s message key (json_rpc_method j message)
  dispatch s message notification key = on_notification s message
  dispatch s message _ _ =
      diagnose s (text "invalid-appserver-message")
        (text "app-server emitted an invalid JSON-RPC message") []

  unfoldable pub receive_from_app_server : Bridge j → Value → Bridge j
  receive_from_app_server s message =
      dispatch (observe s from_app_server message) message (classify_json_rpc j message)
        (json_rpc_id_key j message)
