-- ===== src/Bridge/Forward.antt =====
-- CodexBridge: what a frontend sends.
use aisuite.Common.{
  ℕ, Bool, true, false, not, ◌&&◌, ◌||◌, Option, none, some, [], ◌∷◌, ◌++◌, if◌then◌else◌, Text,
  text, text_eq, lookup, contains, emplace, erase, ℤ, negsuc,
}
use aisuite.Json.{Json}
use aisuite.Envelope.{
  Role, controller, observer, JsonRpcKind, request, notification, response, invalid,
  classify_json_rpc, classify_strict_json_rpc, json_rpc_id_key, json_rpc_method,
}
use aisuite.Bridge.State.{ServerRequestOwner, Core, World, Bridge, with_core}
use aisuite.Bridge.Io.{reject, id_of, is_app_server_connected, send_to_app_server}
use aisuite.Bridge.Frontends.{is_frontend}
use aisuite.Bridge.Ids.{key_of, next_frontend_request_id}
use aisuite.Bridge.ReadOnly.{observer_method_is_read_only}

-- The codes of the replies.
abbrev pub invalid_request : ℤ
invalid_request = negsuc 32599

abbrev pub observer_refused : ℤ
observer_refused = negsuc 32000

abbrev pub not_ready : ℤ
not_ready = negsuc 32001

abbrev pub handshake_owned : ℤ
handshake_owned = negsuc 32002

abbrev pub not_delivered : ℤ
not_delivered = negsuc 32003

abbrev pub transport_rejected : ℤ
transport_rejected = negsuc 32004

-- `std::string(connectionId) + '\n' + id`.
unfoldable pub frontend_key_of : Text → Text → Text
frontend_key_of connection_id id = connection_id ++ b'\n' ∷ id

unfoldable pub is_handshake : Option Text → Bool
is_handshake none = false
is_handshake (some m) = text_eq m (text "initialize") || text_eq m (text "initialized")

unfoldable pub is_request : JsonRpcKind → Bool
is_request request = true
is_request _ = false

module _ (j : Json) where
  open j use {Value, find, is_string, get_string}

  -- The text of a member, or the empty text where there is no such text.
  unfoldable pub string_member : Value → Text → Text
  string_member m k = elim (find m k) [
    | none ↦ []
    | some v ↦ if is_string v then get_string v else []
  ]

  unfoldable pub reads_only : Value → Bool
  reads_only payload = elim (json_rpc_method j payload) [
    | none ↦ false
    | some m ↦ observer_method_is_read_only m
  ]

  unfoldable pub role_may_forward : Bool → Role → Value → Bool
  role_may_forward observers_may_read controller payload = true
  role_may_forward observers_may_read observer payload =
      if not observers_may_read
      then false
      else if not (is_request (classify_json_rpc j payload))
      then false
      else reads_only payload

module _ {j : Json} where
  open j use {Value}

  unfoldable pub may_forward : Core j → Text → Value → Bool
  may_forward c connection_id payload = elim (lookup connection_id c.frontends) [
    | none ↦ false
    | some r ↦ role_may_forward j c.observers_may_read r.role payload
  ]

  unfoldable pub without_owner : Bridge j → Text → Bridge j
  without_owner s key =
      let owners = erase key s.app_server_request_owners in
      with_core s (record (s.core) { app_server_request_owners = owners })

  unfoldable pub owns : Text → Option (ServerRequestOwner j) → Bool
  owns connection_id none = false
  owns connection_id (some o) = is_frontend o.kind && text_eq o.frontend_connection_id connection_id

  -- The outstanding request, under the id that the bridge gives it.
  unfoldable pub enter_request : Core j → Text → Value → Text → Text × ℕ → Core j
  enter_request c connection_id payload frontend_key (upstream_id, next) =
      let upstream_key = key_of j upstream_id in
      record c {
        next_frontend_request_number = next;
        frontend_request_owners =
            emplace upstream_key
              (record {
                connection_id = connection_id;
                frontend_id = id_of j payload;
                frontend_key = frontend_key;
              })
              c.frontend_request_owners;
        frontend_request_keys = emplace frontend_key upstream_key c.frontend_request_keys;
      }

  unfoldable pub drop_request : Core j → Text → Text → Core j
  drop_request c upstream_key frontend_key = record c {
    frontend_request_owners = erase upstream_key c.frontend_request_owners;
    frontend_request_keys = erase frontend_key c.frontend_request_keys;
  }

module _ {j : Json} (w : World j) where
  open j use {Value, find, string, object, set}

  -- A response of a frontend to a request that was delivered to it.
  unfoldable pub answer : Bridge j → Text → Value → Text → Bridge j
  answer s connection_id payload key =
      let (t, sent) = send_to_app_server w s payload in
      if sent
      then without_owner t key
      else reject w (without_owner t key) connection_id payload transport_rejected
          (text "app-server transport rejected the response")

  unfoldable pub on_frontend_response : Bridge j → Text → Value → Option Text → Bridge j
  on_frontend_response s connection_id payload none =
      reject w s connection_id payload invalid_request (text "app-server response is missing an id")
  on_frontend_response s connection_id payload (some key) =
      if not (owns connection_id (lookup key s.app_server_request_owners))
      then reject w s connection_id payload not_delivered
          (text "response does not match a server request delivered to this frontend")
      else answer s connection_id payload key

  unfoldable pub send_request : Bridge j → Text → Value → Text → Text × ℕ → Bridge j
  send_request s connection_id payload frontend_key fresh_id =
      let entered =
        with_core s (enter_request s.core connection_id payload frontend_key fresh_id) in
      let (t, sent) = send_to_app_server w entered (set payload (text "id") (string fresh_id.0)) in
      if sent
      then t
      else reject w (with_core t (drop_request t.core (key_of j fresh_id.0) frontend_key))
          connection_id payload transport_rejected
          (text "app-server transport rejected the message")

  -- `none` stands for a search for a free id that does not end.
  unfoldable pub forward_request : Bridge j → Text → Value → Option Text → Option (Bridge j)
  forward_request s connection_id payload none =
      some (
        reject w s connection_id payload invalid_request (text "frontend request is missing an id"))
  forward_request s connection_id payload (some id) =
      let frontend_key = frontend_key_of connection_id id in
      if contains frontend_key s.frontend_request_keys
      then some (
          reject w s connection_id payload invalid_request
            (text "frontend reused an outstanding request id"))
      else elim (next_frontend_request_id s.core connection_id) [
        | none ↦ none
        | some fresh_id ↦ some (send_request s connection_id payload frontend_key fresh_id)
      ]

  unfoldable pub forward_other : Bridge j → Text → Value → Bridge j
  forward_other s connection_id payload =
      let (t, sent) = send_to_app_server w s payload in
      if sent
      then t
      else reject w t connection_id payload transport_rejected
          (text "app-server transport rejected the message")

  -- A request or a notification of a frontend.
  unfoldable pub forward : Bridge j → Text → Value → JsonRpcKind → Option (Bridge j)
  forward s connection_id payload kind =
      if is_handshake (json_rpc_method j payload)
      then some (
          reject w s connection_id payload handshake_owned
            (text "provider initialize handshake is owned by codex-bridge"))
      else if not (may_forward s.core connection_id payload)
      then some (
          reject w s connection_id payload observer_refused
            (text "observer is not allowed to send this app-server message"))
      else if not (is_app_server_connected w s && s.app_server_ready)
      then some
          (reject w s connection_id payload not_ready (text "app-server session is not ready"))
      else if is_request kind
      then forward_request s connection_id payload (json_rpc_id_key j payload)
      else some (forward_other s connection_id payload)

  unfoldable pub on_payload : Bridge j → Text → Value → JsonRpcKind → Option (Bridge j)
  on_payload s connection_id payload invalid = some (
      reject w s connection_id payload invalid_request
        (text "payload is not a valid JSON-RPC request, notification, or response"))
  on_payload s connection_id payload response =
      some (on_frontend_response s connection_id payload (json_rpc_id_key j payload))
  on_payload s connection_id payload request = forward s connection_id payload request
  on_payload s connection_id payload notification = forward s connection_id payload notification

  unfoldable pub handle_app_server_envelope : Bridge j → Text → Value → Option (Bridge j)
  handle_app_server_envelope s connection_id message = elim (find message (text "payload")) [
    | none ↦ some (
        reject w s connection_id (object []) invalid_request
          (text "appserver envelope is missing payload"))
    | some payload ↦ on_payload s connection_id payload (classify_strict_json_rpc j payload)
  ]
