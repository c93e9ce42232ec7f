-- ===== src/Bridge/Lifecycle.antt =====
-- CodexBridge: the app server's transport comes and goes, and its session becomes ready.
use aisuite.Common.{
  ◌+◌, ◌%◌, ◌^◌, true, false, not, ◌||◌, none, [], ◌∷◌, if◌then◌else◌, Text, text, Map,
}
use aisuite.Json.{Json}
use aisuite.Envelope.{json_rpc_error, provider_event}
use aisuite.Bridge.State.{
  LocalRequest, FrontendRequest, Core, World, Bridge, with_core, next_sequence,
}
use aisuite.Bridge.Io.{
  send_envelope, broadcast, emit_diagnostic, call, run_lifecycle, is_app_server_connected,
}
use aisuite.Bridge.Forward.{not_ready}

module _ {j : Json} where
  -- `++providerGeneration_` with the session not ready.
  unfoldable pub new_generation : Core j → Core j
  new_generation c = record c {
    app_server_ready = false;
    provider_generation = (c.provider_generation + 1) % 2 ^ 64;
  }

module _ {j : Json} (w : World j) where
  open j use {Value, null, string, unsigned, object}

  unfoldable pub announce : Bridge j → Text → Text → Bridge j
  announce s state reason =
      let t = next_sequence s in
      broadcast w t (provider_event j state t.provider_generation t.sequence reason)

  unfoldable pub generation_details : Bridge j → Map Value
  generation_details s = (text "providerGeneration", unsigned s.provider_generation) ∷ []

  unfoldable pub app_server_connected : Bridge j → Bridge j
  app_server_connected s =
      let t = announce (with_core s (new_generation s.core)) (text "connected") [] in
      let u =
        emit_diagnostic w t (text "appserver-connected") (text "app-server transport connected")
          none (object (generation_details t)) in
      run_lifecycle u true

  unfoldable pub fail_local_each : Bridge j → Map (LocalRequest j) → Text → Bridge j
  fail_local_each s [] reason = s
  fail_local_each s ((key, r) ∷ pending) reason =
      fail_local_each (call s r.handler (json_rpc_error j r.id not_ready reason null)) pending
        reason

  unfoldable pub fail_frontend_each : Bridge j → Map (FrontendRequest j) → Text → Bridge j
  fail_frontend_each s [] reason = s
  fail_frontend_each s ((key, r) ∷ requests) reason =
      fail_frontend_each
        (send_envelope w s r.connection_id (json_rpc_error j r.frontend_id not_ready reason null))
        requests reason

  unfoldable pub fail_local_requests : Bridge j → Text → Bridge j
  fail_local_requests s reason =
      fail_local_each (with_core s (record (s.core) { local_requests = [] })) s.local_requests
        reason

  unfoldable pub fail_frontend_requests : Bridge j → Text → Bridge j
  fail_frontend_requests s reason =
      fail_frontend_each
        (with_core s (record (s.core) { frontend_request_owners = []; frontend_request_keys = [] }))
        s.frontend_request_owners reason

  unfoldable pub app_server_disconnected : Bridge j → Text → Bridge j
  app_server_disconnected s reason =
      let down = with_core s (record (s.core) { app_server_ready = false }) in
      let failed = fail_frontend_requests (fail_local_requests down reason) reason in
      let cleared = with_core failed (record (failed.core) { app_server_request_owners = [] }) in
      let t = announce cleared (text "disconnected") reason in
      let u =
        emit_diagnostic w t (text "appserver-disconnected")
          (text "app-server transport disconnected") none
          (object ((text "reason", string reason) ∷ generation_details t)) in
      run_lifecycle u false

  unfoldable pub set_app_server_ready : Bridge j → Bridge j
  set_app_server_ready s =
      let t =
        announce (with_core s (record (s.core) { app_server_ready = true })) (text "ready") [] in
      if not (is_app_server_connected w s) || s.app_server_ready
      then s
      else emit_diagnostic w t (text "appserver-ready") (text "app-server session initialized") none
          (object (generation_details t))
