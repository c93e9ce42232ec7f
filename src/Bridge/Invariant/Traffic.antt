-- ===== src/Bridge/Invariant/Traffic.antt =====
-- CodexBridge::receiveFromAppServer: the tables around it.
use aisuite.Common.{
  ℕ, ◌≡◌, ap, inl, inr, true, Option, none, some, is_some, [], Bool-cases, Option-cases, Text, text,
  text_eq, lookup, contains, keys, negsuc,
}
use aisuite.Json.{Json}
use aisuite.Envelope.{
  from_app_server, JsonRpcKind, request, notification, response, json_rpc_method, json_rpc_error,
  is_id,
}
use aisuite.Bridge.State.{
  Handler, FrontendRecord, local_application, frontend, ServerRequestOwner, World, Bridge, emit,
  called,
}
use aisuite.Bridge.Io.{observe, send_to_app_server, id_of}
use aisuite.Bridge.Frontends.{is_frontend}
use aisuite.Bridge.Local.{drop_local}
use aisuite.Bridge.Provider.{
  own, resolve, resolved_id, on_remote_response, on_response, run_local, deliver_to, to_controller,
  dispatch_request, on_request, notify_local, on_notification, dispatch, receive_from_app_server,
}
use aisuite.Bridge.Quiet.{
  core-send_to, core-send_envelope, core-call, core-observe, core-diagnose, core-fan_out,
  core-no_receiver, core-refuse_duplicate,
}
use aisuite.Bridge.Invariant.{IsValid}
use aisuite.Bridge.Invariant.Messages.{quiet, drop_request-IsValid, sent-IsValid, without-IsValid}
use aisuite.Bridge.Invariant.Requests.{own-Matched, drop_local-Matched}

local_not_frontend : is_frontend local_application ≡ true → ⊥
unfolding is_frontend
local_not_frontend e = cc

module _ {j : Json} where
  open j use {Value}

  own-IsValid :
      (s : Bridge j) (key : Text) (o : ServerRequestOwner j)
      → (is_frontend o.kind ≡ true → contains o.frontend_connection_id s.frontends ≡ true)
      → IsValid s.core
      → IsValid (own s key o).core
  unfolding own
  own-IsValid s key o there v = record {
    named = v.named;
    roles = v.roles;
    matched = own-Matched s.core v.matched key o there;
  }

  pub drop_local-IsValid :
      (s : Bridge j) (key : Text) → IsValid s.core → IsValid (drop_local s key).core
  unfolding drop_local
  drop_local-IsValid s key v = record {
    named = v.named;
    roles = v.roles;
    matched = drop_local-Matched s.core v.matched key;
  }

module _ {j : Json} (w : World j) where
  open j use {Value}

  on_remote_response-IsValid :
      (s : Bridge j) (m : Value) (key : Text)
      → IsValid s.core
      → IsValid (on_remote_response w s m key).core
  unfolding on_remote_response
  on_remote_response-IsValid s m key v =
      elim (Option-cases (lookup key s.frontend_request_owners)) [
        | inl e ↦ rw (e, on_remote_response) (quiet (core-diagnose w s _ _ _) v)
        | inr (r, e) ↦
            rw (e, on_remote_response)
              (quiet (core-send_envelope w _ r.connection_id _)
                (drop_request-IsValid s.core key r e v))
      ]

  on_response-IsValid :
      (s : Bridge j) (m : Value) (key : Text)
      → IsValid s.core
      → IsValid (on_response w s m key).core
  unfolding on_response
  on_response-IsValid s m key v = elim (Option-cases (lookup key s.local_requests)) [
    | inl e ↦ rw (e, on_response) (on_remote_response-IsValid s m key v)
    | inr (r, e) ↦
        rw (e, on_response)
          (quiet (core-call w (drop_local s key) r.handler m) (drop_local-IsValid s key v))
  ]

  run_local-IsValid :
      (s : Bridge j) (m : Value) (key : Text) (h : ℕ)
      → IsValid s.core
      → IsValid (run_local w s m key h).core
  unfolding run_local
  run_local-IsValid s m key h v =
      let o : ServerRequestOwner j = record {
        kind = local_application;
        frontend_connection_id = [];
        id = id_of j m;
      } in
      let owned = own-IsValid s key o (λ e. absurd (local_not_frontend e)) v in
      let t = emit (own s key o) (called h m) in
      let e =
        json_rpc_error j (id_of j m) (negsuc 32602) (text "local request handler failed") j.null in
      elim (Bool-cases (w.throws (own s key o).trace h m)) [
        | inl threw ↦
            rw threw (without-IsValid w (send_to_app_server w t e).0 key (sent-IsValid w t e owned))
        | inr fine ↦ rw fine owned
      ]

  deliver_to-IsValid :
      (s : Bridge j) (m : Value) (key c : Text) (f : FrontendRecord)
      → lookup c s.frontends ≡ some f
      → IsValid s.core
      → IsValid (deliver_to w s m key c f).core
  unfolding deliver_to
  deliver_to-IsValid s m key c f here v =
      let o : ServerRequestOwner j = record {
        kind = frontend;
        frontend_connection_id = c;
        id = id_of j m;
      } in
      quiet (core-send_to w _ c _) (own-IsValid s key o (λ _. ap is_some here) v)

  to_controller-IsValid :
      (s : Bridge j) (m : Value) (key method : Text) (leader : Option Text)
      → IsValid s.core
      → IsValid (to_controller w s m key method leader).core
  unfolding to_controller
  to_controller-IsValid s m key method none v = quiet (core-no_receiver w s m method) v
  to_controller-IsValid s m key method (some c) v = elim (Option-cases (lookup c s.frontends)) [
    | inl e ↦ rw (e, to_controller) (quiet (core-no_receiver w s m method) v)
    | inr (f, e) ↦ rw (e, to_controller) (deliver_to-IsValid s m key c f e v)
  ]

  dispatch_request-IsValid :
      (s : Bridge j) (m : Value) (key method : Text) (h : Handler)
      → IsValid s.core
      → IsValid (dispatch_request w s m key method h).core
  unfolding dispatch_request
  dispatch_request-IsValid s m key method none v = to_controller-IsValid s m key method _ v
  dispatch_request-IsValid s m key method (some h) v = run_local-IsValid s m key h v

  on_request-IsValid :
      (s : Bridge j) (m : Value) (key : Text) (method : Option Text)
      → IsValid s.core
      → IsValid (on_request w s m key method).core
  unfolding on_request
  on_request-IsValid s m key none v = quiet (core-diagnose w s _ _ _) v
  on_request-IsValid s m key (some method) v =
      elim (Bool-cases (contains key s.app_server_request_owners)) [
        | inl e ↦ rw e (quiet (core-refuse_duplicate w s m method) v)
        | inr e ↦ rw e (dispatch_request-IsValid s m key method _ v)
      ]

  resolve-IsValid :
      (s : Bridge j) (id : Option Value) → IsValid s.core → IsValid (resolve s id).core
  unfolding resolve
  resolve-IsValid s none v = v
  resolve-IsValid s (some id) v = elim (Bool-cases (is_id j id)) [
    | inl e ↦ rw e (without-IsValid w s (j.dump id) v)
    | inr e ↦ rw e v
  ]

  notify_local-IsValid :
      (s : Bridge j) (m : Value) (method : Option Text)
      → IsValid s.core
      → IsValid (notify_local w s m method).core
  unfolding notify_local
  notify_local-IsValid s m none v = v
  notify_local-IsValid s m (some method) v =
      let id = resolved_id j (j.find m (text "params")) in
      elim (Bool-cases (text_eq method (text "serverRequest/resolved"))) [
        | inl e ↦ rw e (quiet (core-call w (resolve s id) _ m) (resolve-IsValid s id v))
        | inr e ↦ rw e (quiet (core-call w s _ m) v)
      ]

  dispatch-IsValid :
      (s : Bridge j) (m : Value) (kind : JsonRpcKind) (key : Option Text)
      → IsValid s.core
      → IsValid (dispatch w s m kind key).core
  unfolding dispatch on_notification
  dispatch-IsValid s m response (some key) v = on_response-IsValid s m key v
  dispatch-IsValid s m request (some key) v = on_request-IsValid s m key _ v
  dispatch-IsValid s m notification key v =
      let t = notify_local w s m (json_rpc_method j m) in
      quiet (core-fan_out w t m (keys t.frontends)) (notify_local-IsValid s m _ v)
  dispatch-IsValid s m _ _ v = quiet (core-diagnose w s _ _ _) v

  -- If the tables are well formed before `receiveFromAppServer`, they are well formed after it,
  -- for every message.
  pub receive_from_app_server-IsValid :
      (s : Bridge j) (m : Value) → IsValid s.core → IsValid (receive_from_app_server w s m).core
  unfolding receive_from_app_server
  receive_from_app_server-IsValid s m v =
      dispatch-IsValid (observe s from_app_server m) m _ _
        (quiet (core-observe w s from_app_server m) v)
