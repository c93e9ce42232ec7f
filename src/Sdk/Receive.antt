-- ===== src/Sdk/Receive.antt =====
-- The frontend's CodexBridge: what it receives, and the loss of its transport.
use aisuite.Common.{
  ℕ, Bool, true, false, not, ◌&&◌, Option, none, some, [], ◌∷◌, ltb, ◌==◌, if◌then◌else◌, Text,
  text, text_eq, is_empty, Map, lookup, erase, ℤ, pos, negsuc,
}
use aisuite.Json.{Json}
use aisuite.Envelope.{
  Role, controller, observer, from_app_server, JsonRpcKind, request, notification, response,
  has_string, classify_json_rpc, json_rpc_id_key, json_rpc_method, json_rpc_error,
}
use aisuite.Bridge.State.{Handler}
use aisuite.Bridge.Io.{id_of}
use aisuite.Bridge.Frontends.{is_controller}
use aisuite.Bridge.Forward.{string_member}
use aisuite.Bridge.Local.{live_handler}
use aisuite.Sdk.State.{
  notified, called, Surroundings, FrontendBridge, record_call, watch_raw, hand_over,
}
use aisuite.Sdk.Send.{is_valid_kind, respond_error}

-- The codes of the errors that the frontend's own side makes up.
abbrev pub provider_unavailable : ℤ
provider_unavailable = negsuc 32001

abbrev pub transport_lost : ℤ
transport_lost = negsuc 32019

abbrev pub handler_failed : ℤ
handler_failed = negsuc 32602

abbrev pub no_such_handler : ℤ
no_such_handler = negsuc 32600

unfoldable pub role_named : Text → Option Role
role_named name =
    if text_eq name (text "controller")
    then some controller
    else if text_eq name (text "observer")
    then some observer
    else none

unfoldable pub natural : ℤ → Option ℕ
natural (pos n) = some n
natural (negsuc n) = none

unfoldable pub role_under : Option Text → Option Text → Option Role → Option Role
role_under leader none role = role
role_under leader (some id) role = some (if is_controller leader id then controller else observer)

unfoldable pub disconnect_reason : Text → Text
disconnect_reason reason = if is_empty reason then text "app-server disconnected" else reason

module _ (j : Json) where
  open j use {Value, find, is_string, is_number_integer, is_number_unsigned, get_string}

  -- A member that is a string.
  unfoldable pub text_member : Value → Text → Option Text
  text_member m k = elim (find m k) [
    | none ↦ none
    | some v ↦ if is_string v then some (get_string v) else none
  ]

  -- `providerGeneration`; `none` for one that is missing, of another type, or negative.
  unfoldable pub generation_of : Value → Option ℕ
  generation_of m = elim (find m (text "providerGeneration")) [
    | none ↦ none
    | some v ↦
        if is_number_unsigned v
        then some (j.get_unsigned v)
        else if is_number_integer v
        then natural (j.get_integer v)
        else none
  ]

  -- The id that a key was made from, or null.
  unfoldable pub id_of_key : Text → Value
  id_of_key key = elim (j.parse key) [ none ↦ j.null | some id ↦ id ]

module _ {j : Json} where
  open j use {Value, null}

  -- An empty handler is passed over.
  unfoldable pub fail_entries : FrontendBridge j → Map Handler → Text → ℤ → FrontendBridge j
  fail_entries s [] reason code = s
  fail_entries s ((key, h) ∷ entries) reason code =
      let e = json_rpc_error j (id_of_key j key) code reason null in
      fail_entries (hand_over s h e) entries reason code

  unfoldable pub fail_pending : FrontendBridge j → Text → ℤ → FrontendBridge j
  fail_pending s reason code = fail_entries (record s { pending = [] }) s.pending reason code

  unfoldable pub transport_disconnected : FrontendBridge j → Text → FrontendBridge j
  transport_disconnected s reason = record (fail_pending s reason transport_lost) {
    connection_id = none;
    controller_connection_id = none;
    role = none;
    provider_generation = 0;
    provider_ready = false;
  }

  unfoldable pub on_opened : FrontendBridge j → Value → FrontendBridge j
  on_opened s m = record s {
    connection_id = elim (text_member j m (text "connectionId")) [
      | none ↦ s.connection_id
      | some id ↦ some id
    ];
    role = role_named (string_member j m (text "role"));
  }

  unfoldable pub on_controller : FrontendBridge j → Value → FrontendBridge j
  on_controller s m =
      let leader = text_member j m (text "controllerConnectionId") in
      record s {
        controller_connection_id = leader;
        role = role_under leader s.connection_id s.role;
      }

  unfoldable pub next_generation : FrontendBridge j → ℕ → Text → FrontendBridge j
  next_generation s next state =
      let changed = not (s.provider_generation == 0) && ltb s.provider_generation next in
      let failed =
        fail_pending s (text "app-server provider generation changed") provider_unavailable in
      let t : FrontendBridge j = if changed then failed else s in
      record t { provider_generation = next; provider_ready = text_eq state (text "ready") }

  unfoldable pub on_provider : FrontendBridge j → Value → Option ℕ → FrontendBridge j
  on_provider s m none = s
  on_provider s m (some next) =
      let state = string_member j m (text "state") in
      let t = next_generation s next state in
      if ltb next s.provider_generation
      then s
      else if text_eq state (text "disconnected")
      then fail_pending t (disconnect_reason (string_member j m (text "reason")))
          provider_unavailable
      else t

  -- `updateBridgeState`, for a message whose `kind` is this string.
  unfoldable pub update_bridge_state : FrontendBridge j → Value → Text → FrontendBridge j
  update_bridge_state s m kind =
      if text_eq kind (text "bridge.connection")
        && text_eq (string_member j m (text "event")) (text "opened")
      then on_opened s m
      else if text_eq kind (text "bridge.controller")
      then on_controller s m
      else if text_eq kind (text "bridge.provider")
      then on_provider s m (generation_of j m)
      else s

  unfoldable pub on_event : FrontendBridge j → Value → Text → FrontendBridge j
  on_event s m kind =
      let t = update_bridge_state s m kind in
      elim t.bridge_event_handler [ none ↦ t | some h ↦ record_call t (notified h m) ]

  -- A response without a request that waits for it is dropped.
  unfoldable pub on_answer : FrontendBridge j → Value → Text → FrontendBridge j
  on_answer s payload key = elim (lookup key s.pending) [
    | none ↦ s
    | some h ↦ hand_over (record s { pending = erase key s.pending }) h payload
  ]

module _ {j : Json} (w : Surroundings j) where
  open j use {Value, find, is_object, null}

  -- An error that answers a server request, which needs an id.
  unfoldable pub answer_error : FrontendBridge j → Value → Option Text → ℤ → Text → FrontendBridge j
  answer_error s payload none code message = s
  answer_error s payload (some key) code message =
      (respond_error w s (id_of j payload) code message null).0

  unfoldable pub on_server_call :
      FrontendBridge j → Value → Option Text → Handler → FrontendBridge j
  on_server_call s payload key none =
      answer_error s payload key no_such_handler
        (text "frontend has no handler for the server request")
  on_server_call s payload key (some h) =
      let t = record_call s (called h payload) in
      if w.throws s.trace h payload
      then answer_error t payload key handler_failed (text "frontend request handler failed")
      else t

  unfoldable pub dispatch_payload :
      FrontendBridge j → Value → JsonRpcKind → Option Text → Option Text → FrontendBridge j × Bool
  dispatch_payload s payload response (some key) method = (on_answer s payload key, true)
  dispatch_payload s payload request key (some method) =
      (on_server_call s payload key (live_handler method s.server_request_handlers), true)
  dispatch_payload s payload notification key (some method) =
      (hand_over s (live_handler method s.server_notification_handlers) payload, true)
  dispatch_payload s payload kind key method = (s, is_valid_kind kind)

  unfoldable pub on_app_server : FrontendBridge j → Option Value → FrontendBridge j × Bool
  on_app_server s none = (s, false)
  on_app_server s (some payload) =
      if not (is_object payload)
      then (s, false)
      else dispatch_payload (watch_raw s from_app_server payload) payload
          (classify_json_rpc j payload) (json_rpc_id_key j payload) (json_rpc_method j payload)

  unfoldable pub receive_message : FrontendBridge j → Value → FrontendBridge j × Bool
  receive_message s m =
      let kind = string_member j m (text "kind") in
      if not (is_object m)
      then (s, false)
      else if not (has_string j m (text "kind"))
      then (s, false)
      else if not (text_eq kind (text "appserver"))
      then (on_event s m kind, true)
      else on_app_server s (find m (text "payload"))
