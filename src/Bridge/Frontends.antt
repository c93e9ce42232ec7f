-- ===== src/Bridge/Frontends.antt =====
-- CodexBridge: registration of frontends, and who is the controller.
use aisuite.Common.{
  ℕ, ◌+◌, ◌%◌, ◌^◌, Bool, true, false, not, ◌&&◌, Option, none, some, is_some, List, [], ◌∷◌, ◌++◌,
  leb, if◌then◌else◌, length, Text, text, text_eq, starts_with, to_string, Map, lookup, contains,
  assign, emplace, keep_if, erase, negsuc,
}
use aisuite.Json.{Json}
use aisuite.Envelope.{Role, controller, observer, connection_event, provider_event, json_rpc_error}
use aisuite.Bridge.State.{
  FrontendRecord, OwnerKind, local_application, frontend, ServerRequestOwner, Core, World, Bridge,
  with_core, next_sequence,
}
use aisuite.Bridge.Io.{send_to, broadcast_controller, is_app_server_connected, send_to_app_server}

-- `"frontend-" + std::to_string(n)`.
unfoldable pub connection_name : ℕ → Text
connection_name n = text "frontend-" ++ to_string n

-- `*controller_ == id`.
unfoldable pub is_controller : Option Text → Text → Bool
is_controller none id = false
is_controller (some c) id = text_eq c id

unfoldable pub is_frontend : OwnerKind → Bool
is_frontend local_application = false
is_frontend frontend = true

-- `setController`: the previous controller's record, if it is still there, becomes an observer's.
unfoldable pub step_down : Option Text → Map FrontendRecord → Map FrontendRecord
step_down none frontends = frontends
step_down (some id) frontends = elim (lookup id frontends) [
  | none ↦ frontends
  | some r ↦ assign id (record r { role = observer }) frontends
]

module _ {j : Json} where
  open j use {Value}

  unfoldable pub becomes_controller : Core j → Bool
  becomes_controller c = c.first_frontend_becomes_controller && not (is_some c.controller)

  unfoldable pub newcomer : Core j → ℕ → FrontendRecord
  newcomer c endpoint = record {
    endpoint = endpoint;
    role = if becomes_controller c then controller else observer;
  }

  -- The registration itself.
  unfoldable pub admit : Core j → ℕ → Core j
  admit c endpoint =
      let id = connection_name c.next_connection_number in
      record c {
        next_connection_number = (c.next_connection_number + 1) % 2 ^ 64;
        frontends = emplace id (newcomer c endpoint) c.frontends;
        controller = if becomes_controller c then some id else c.controller;
      }

  unfoldable pub role_at : Bridge j → Text → Role
  role_at s id = elim (lookup id s.frontends) [ none ↦ observer | some r ↦ r.role ]

  -- The server requests that wait for this frontend, with their ids.
  unfoldable pub owned_by : Text → Map (ServerRequestOwner j) → List (Text × Value)
  owned_by id [] = []
  owned_by id ((key, owner) ∷ owners) =
      if is_frontend owner.kind && text_eq owner.frontend_connection_id id
      then (key, owner.id) ∷ owned_by id owners
      else owned_by id owners

  -- The entries of a frontend that goes.
  unfoldable pub forget : Core j → Text → Core j
  forget c id = record c {
    frontend_request_owners =
        keep_if (λ _ r. not (text_eq r.connection_id id)) c.frontend_request_owners;
    frontend_request_keys =
        keep_if (λ k _. not (starts_with k (id ++ b'\n' ∷ []))) c.frontend_request_keys;
    frontends = erase id c.frontends;
    controller = if is_controller c.controller id then none else c.controller;
  }

  unfoldable pub promoted : Core j → Text → FrontendRecord → Core j
  promoted c id r = record c {
    frontends = assign id (record r { role = controller }) (step_down c.controller c.frontends);
    controller = some id;
  }

  -- `none` is the exception of `frontends_.at`, for an id that is not registered.
  unfoldable pub promote : Core j → Option Text → Option (Core j)
  promote c none =
      some (record c { frontends = step_down c.controller c.frontends; controller = none })
  promote c (some id) = elim (lookup id (step_down c.controller c.frontends)) [
    | none ↦ none
    | some r ↦ some (promoted c id r)
  ]

module _ {j : Json} (w : World j) where
  open j use {Value, null}

  unfoldable pub provider_state : Bridge j → Text
  provider_state s =
      if s.app_server_ready
      then text "ready"
      else if is_app_server_connected w s
      then text "connected"
      else text "disconnected"

  -- The greeting of a new frontend.
  unfoldable pub greet : Bridge j → Text → Bridge j
  greet s id =
      let t = next_sequence s in
      let opened =
        send_to w t id (connection_event j (text "opened") id (role_at t id) t.sequence) in
      let state = provider_state opened in
      let u = next_sequence opened in
      broadcast_controller w
        (send_to w u id (provider_event j state u.provider_generation u.sequence []))

  -- The empty id is returned where no more frontends are taken.
  unfoldable pub register_frontend : Bridge j → ℕ → Bridge j × Text
  register_frontend s endpoint =
      let id = connection_name s.next_connection_number in
      if leb s.maximum_frontends (length s.frontends)
      then (s, [])
      else (greet (with_core s (admit s.core endpoint)) id, id)

  unfoldable pub fail_each : Bridge j → List (Text × Value) → Text → Bridge j
  fail_each s [] reason = s
  fail_each s ((key, id) ∷ failed) reason =
      let t = (send_to_app_server w s (json_rpc_error j id (negsuc 32010) reason null)).0 in
      let owners = erase key t.app_server_request_owners in
      fail_each (with_core t (record (t.core) { app_server_request_owners = owners })) failed reason

  unfoldable pub fail_frontend_server_requests : Bridge j → Text → Text → Bridge j
  fail_frontend_server_requests s connection_id reason =
      fail_each s (owned_by connection_id s.app_server_request_owners) reason

  -- The departure of a frontend that is registered.
  unfoldable pub leave : Bridge j → Text → Bridge j
  leave s connection_id =
      let failed =
        fail_frontend_server_requests s connection_id
          (text "frontend disconnected before responding") in
      let left = with_core failed (forget failed.core connection_id) in
      if is_controller failed.controller connection_id then broadcast_controller w left else left

  unfoldable pub unregister_frontend : Bridge j → Text → Bridge j
  unregister_frontend s connection_id =
      if not (contains connection_id s.frontends) then s else leave s connection_id

  unfoldable pub set_controller : Bridge j → Option Text → Option (Bridge j)
  set_controller s id = elim (promote s.core id) [
    | none ↦ none
    | some c ↦ some (broadcast_controller w (with_core s c))
  ]
