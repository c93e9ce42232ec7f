-- ===== src/Bridge/Local.antt =====
-- CodexBridge: the local application's side: its requests, raw messages, answers and handlers.
use aisuite.Common.{
  ℕ, Bool, true, false, not, ◌||◌, Option, none, some, [], ◌∷◌, ◌==◌, if◌then◌else◌, Text, text,
  Map, lookup, contains, assign, emplace, erase, ℤ,
}
use aisuite.Json.{Json}
use aisuite.Envelope.{
  JsonRpcKind, request, notification, response, invalid, classify_json_rpc, json_rpc_id_key,
  json_rpc_error,
}
use aisuite.Bridge.State.{
  Handler, local_application, frontend, ServerRequestOwner, World, Bridge, with_core,
}
use aisuite.Bridge.Io.{call, id_of, send_to_app_server}
use aisuite.Bridge.Ids.{key_of, next_local_request_id}
use aisuite.Bridge.Forward.{without_owner, not_ready}

-- A missing entry and an empty `std::function` are both no handler.
unfoldable pub live_handler : Text → Map Handler → Handler
live_handler method handlers = elim (lookup method handlers) [ none ↦ none | some h ↦ h ]

unfoldable pub register_handler : Text → Handler → Map Handler → Map Handler
register_handler method none handlers = erase method handlers
register_handler method (some h) handlers = assign method (some h) handlers

module _ {j : Json} where
  open j use {Value}

  -- `setAppServer`; `none` is the `logic_error` that it throws.
  unfoldable pub set_app_server : Bridge j → Option ℕ → Option (Bridge j)
  set_app_server s none = some (with_core s (record (s.core) { app_server = none }))
  set_app_server s (some e) = elim s.app_server [
    | none ↦ some (with_core s (record (s.core) { app_server = some e }))
    | some old ↦
        if old == e then some (with_core s (record (s.core) { app_server = some e })) else none
  ]

  unfoldable pub on_raw_json : Bridge j → Handler → Bridge j
  on_raw_json s h = with_core s (record (s.core) { raw_handler = h })

  unfoldable pub on_provider_lifecycle : Bridge j → Handler → Bridge j
  on_provider_lifecycle s h = with_core s (record (s.core) { lifecycle_handler = h })

  unfoldable pub register_server_request_handler : Bridge j → Text → Handler → Bridge j
  register_server_request_handler s method h =
      let handlers = register_handler method h s.server_request_handlers in
      with_core s (record (s.core) { server_request_handlers = handlers })

  unfoldable pub register_server_notification_handler : Bridge j → Text → Handler → Bridge j
  register_server_notification_handler s method h =
      let handlers = register_handler method h s.server_notification_handlers in
      with_core s (record (s.core) { server_notification_handlers = handlers })

  unfoldable pub enter_local : Bridge j → Text → Value → Handler → Bridge j
  enter_local s key id h =
      let requests = emplace key (record { id = id; handler = h }) s.local_requests in
      with_core s (record (s.core) { local_requests = requests })

  unfoldable pub drop_local : Bridge j → Text → Bridge j
  drop_local s key = with_core s (record (s.core) { local_requests = erase key s.local_requests })

  unfoldable pub is_local_owner : Option (ServerRequestOwner j) → Bool
  is_local_owner none = false
  is_local_owner (some o) = elim o.kind [ local_application ↦ true | frontend ↦ false ]

module _ {j : Json} (w : World j) where
  open j use {Value, is_null, null, string, object, set}

  unfoldable pub send_raw_request : Bridge j → Value → Option Text → Bridge j × Bool
  send_raw_request s message none = (s, false)
  send_raw_request s message (some key) =
      let (t, sent) = send_to_app_server w (enter_local s key (id_of j message) none) message in
      if contains key s.local_requests || contains key s.frontend_request_owners
      then (s, false)
      else if sent
      then (t, true)
      else (drop_local t key, false)

  unfoldable pub send_raw_response : Bridge j → Value → Option Text → Bridge j × Bool
  send_raw_response s message none = (s, false)
  send_raw_response s message (some key) =
      let (t, sent) = send_to_app_server w s message in
      if not (is_local_owner (lookup key s.app_server_request_owners))
      then (s, false)
      else if sent
      then (without_owner t key, true)
      else (t, false)

  unfoldable pub send_raw : Bridge j → Value → JsonRpcKind → Bridge j × Bool
  send_raw s message invalid = (s, false)
  send_raw s message request = send_raw_request s message (json_rpc_id_key j message)
  send_raw s message response = send_raw_response s message (json_rpc_id_key j message)
  send_raw s message notification = send_to_app_server w s message

  unfoldable pub send_raw_json : Bridge j → Value → Bridge j × Bool
  send_raw_json s message = send_raw s message (classify_json_rpc j message)

  -- `request["params"] = *params`, if there are any.
  unfoldable pub with_params : Value → Option Value → Value
  with_params m none = m
  with_params m (some params) = set m (text "params") params

  -- The entry is looked up again before its handler is told that the send failed.
  unfoldable pub fail_local_send : Bridge j → Text → Bridge j
  fail_local_send s key = elim (lookup key s.local_requests) [
    | none ↦ s
    | some r ↦
        call (drop_local s key) r.handler
          (json_rpc_error j r.id not_ready (text "app-server transport is unavailable") null)
  ]

  unfoldable pub send_local : Bridge j → Text → Option Value → Handler → Text × ℕ → Bridge j
  send_local s method params handler (id, next) =
      let numbered = with_core s (record (s.core) { next_local_request_number = next }) in
      let entered = enter_local numbered (key_of j id) (string id) handler in
      let message = object (
        (text "jsonrpc", string (text "2.0"))
        ∷ (text "id", string id)
        ∷ (text "method", string method)
        ∷ []) in
      let (t, sent) = send_to_app_server w entered (with_params message params) in
      if sent then t else fail_local_send t (key_of j id)

  -- `none` stands for a search for a free id that does not end.
  unfoldable pub request_typed : Bridge j → Text → Option Value → Handler → Option (Bridge j × Text)
  request_typed s method params handler = elim (next_local_request_id s.core) [
    | none ↦ none
    | some fresh_id ↦ some (send_local s method params handler fresh_id, fresh_id.0)
  ]

  unfoldable pub send_local_notification : Bridge j → Text → Option Value → Bridge j × Bool
  send_local_notification s method params =
      let message =
        object ((text "jsonrpc", string (text "2.0")) ∷ (text "method", string method) ∷ []) in
      send_to_app_server w s (with_params message params)

  unfoldable pub send_server_response : Bridge j → Value → Value → Bridge j × Bool
  send_server_response s id result =
      if is_null id
      then (s, false)
      else send_raw_json s (
          object (
            (text "jsonrpc", string (text "2.0")) ∷ (text "id", id) ∷ (text "result", result) ∷ []))

  unfoldable pub send_server_error : Bridge j → Value → ℤ → Text → Value → Bridge j × Bool
  send_server_error s id code message details =
      if is_null id then (s, false) else send_raw_json s (json_rpc_error j id code message details)
