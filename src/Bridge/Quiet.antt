-- ===== src/Bridge/Quiet.antt =====
-- CodexBridge: the members of the class under the operations that send.
use aisuite.Common.{
  ◌≡◌, inl, inr, Option-cases, refl, ◌∙◌, Bool, Option, none, some, List, [], ◌∷◌, arith, Text,
  lookup, keys, ℤ, Map,
}
use aisuite.Json.{Json}
use aisuite.Envelope.{AppServerDirection, json_rpc_error}
use aisuite.Bridge.State.{
  Handler, FrontendRecord, World, Bridge, LocalRequest, FrontendRequest, next_sequence,
}
use aisuite.Bridge.Io.{
  close_rejected, send_to, send_each, broadcast, broadcast_controller, emit_diagnostic, observe,
  call, run_lifecycle, send_to_app_server, reject_diagnostic, reject_to, reject, send_envelope,
}
use aisuite.Bridge.Frontends.{greet}
use aisuite.Bridge.Forward.{not_ready}
use aisuite.Bridge.Provider.{diagnose, fan_out, no_receiver, refuse_duplicate}
use aisuite.Bridge.Lifecycle.{announce, fail_local_each, fail_frontend_each}

module _ {j : Json} (w : World j) where
  open j use {Value}

  pub core-send_to : (s : Bridge j) (id : Text) (m : Value) → (send_to w s id m).core ≡ s.core
  unfolding send_to close_rejected
  core-send_to s id m = ground arith

  core-send_each :
      (s : Bridge j) (ids : List Text) (m : Value) → (send_each w s ids m).core ≡ s.core
  unfolding send_each
  core-send_each s [] m = refl
  core-send_each s (id ∷ ids) m = core-send_each (send_to w s id m) ids m ∙ core-send_to s id m

  pub core-broadcast : (s : Bridge j) (m : Value) → (broadcast w s m).core ≡ s.core
  unfolding broadcast
  core-broadcast s m = core-send_each s (keys s.frontends) m

  pub core-broadcast_controller : (s : Bridge j) → (broadcast_controller w s).core ≡ s.core
  unfolding broadcast_controller
  core-broadcast_controller s = core-broadcast (next_sequence s) _

  pub core-emit_diagnostic :
      (s : Bridge j) (code message : Text) (id : Option Text) (details : Value)
      → (emit_diagnostic w s code message id details).core ≡ s.core
  unfolding emit_diagnostic
  core-emit_diagnostic s code message none details = core-broadcast (next_sequence s) _
  core-emit_diagnostic s code message (some id) details = core-send_to (next_sequence s) id _

  pub core-observe :
      (s : Bridge j) (d : AppServerDirection) (m : Value) → (observe s d m).core ≡ s.core
  unfolding observe
  core-observe s d m = ground arith

  pub core-call : (s : Bridge j) (h : Handler) (m : Value) → (call s h m).core ≡ s.core
  unfolding call
  core-call s none m = refl
  core-call s (some h) m = refl

  pub core-run_lifecycle : (s : Bridge j) (up : Bool) → (run_lifecycle s up).core ≡ s.core
  unfolding run_lifecycle
  core-run_lifecycle s up = ground arith

  pub core-send_to_app_server :
      (s : Bridge j) (m : Value) → (send_to_app_server w s m).0.core ≡ s.core
  unfolding send_to_app_server observe
  core-send_to_app_server s m = ground arith

  core-reject_to :
      (s : Bridge j) (id : Text) (r : FrontendRecord) (m : Value) (code : ℤ) (reason : Text)
      → (reject_to w s id r m code reason).core ≡ s.core
  unfolding reject_to
  core-reject_to s id r m code reason = core-send_to (next_sequence s) id _

  core-reject_diagnostic :
      (s : Bridge j) (id : Text) (code : ℤ) (reason : Text)
      → (reject_diagnostic w s id code reason).core ≡ s.core
  unfolding reject_diagnostic
  core-reject_diagnostic s id code reason = core-emit_diagnostic s _ reason (some id) _

  pub core-reject :
      (s : Bridge j) (id : Text) (m : Value) (code : ℤ) (reason : Text)
      → (reject w s id m code reason).core ≡ s.core
  unfolding reject
  core-reject s id m code reason = elim (Option-cases (lookup id s.frontends)) [
    | inl e ↦ ground (arith, core-reject_diagnostic s id code reason)
    | inr (r, e) ↦
        ground (arith, core-reject_diagnostic s id code reason, core-reject_to s id r m code reason)
  ]

  pub core-greet : (s : Bridge j) (id : Text) → (greet w s id).core ≡ s.core
  unfolding greet
  core-greet s id =
      core-broadcast_controller _ ∙ core-send_to _ id _ ∙ core-send_to (next_sequence s) id _

  pub core-diagnose :
      (s : Bridge j) (code message : Text) (details : Map Value)
      → (diagnose w s code message details).core ≡ s.core
  unfolding diagnose
  core-diagnose s code message details = core-emit_diagnostic s code message none _

  pub core-send_envelope :
      (s : Bridge j) (id : Text) (m : Value) → (send_envelope w s id m).core ≡ s.core
  unfolding send_envelope
  core-send_envelope s id m = elim (Option-cases (lookup id s.frontends)) [
    | inl e ↦ rw (e, send_envelope)
    | inr (r, e) ↦ rw (e, send_envelope) (core-send_to (next_sequence s) id _)
  ]

  pub core-fan_out :
      (s : Bridge j) (m : Value) (ids : List Text) → (fan_out w s m ids).core ≡ s.core
  unfolding fan_out
  core-fan_out s m [] = refl
  core-fan_out s m (id ∷ ids) =
      core-fan_out (send_envelope w s id m) m ids ∙ core-send_envelope s id m

  pub core-no_receiver :
      (s : Bridge j) (m : Value) (method : Text) → (no_receiver w s m method).core ≡ s.core
  unfolding no_receiver
  core-no_receiver s m method = core-diagnose _ _ _ _ ∙ core-send_to_app_server s _

  pub core-refuse_duplicate :
      (s : Bridge j) (m : Value) (method : Text) → (refuse_duplicate w s m method).core ≡ s.core
  unfolding refuse_duplicate
  core-refuse_duplicate s m method = core-diagnose _ _ _ _ ∙ core-send_to_app_server s _

  pub core-announce :
      (s : Bridge j) (state reason : Text) → (announce w s state reason).core ≡ s.core
  unfolding announce
  core-announce s state reason = core-broadcast (next_sequence s) _

  pub core-fail_local_each :
      (s : Bridge j) (pending : Map (LocalRequest j)) (reason : Text)
      → (fail_local_each w s pending reason).core ≡ s.core
  unfolding fail_local_each
  core-fail_local_each s [] reason = refl
  core-fail_local_each s ((key, r) ∷ pending) reason =
      let e = json_rpc_error j r.id not_ready reason j.null in
      core-fail_local_each (call s r.handler e) pending reason ∙ core-call s r.handler e

  pub core-fail_frontend_each :
      (s : Bridge j) (requests : Map (FrontendRequest j)) (reason : Text)
      → (fail_frontend_each w s requests reason).core ≡ s.core
  unfolding fail_frontend_each
  core-fail_frontend_each s [] reason = refl
  core-fail_frontend_each s ((key, r) ∷ requests) reason =
      let e = json_rpc_error j r.frontend_id not_ready reason j.null in
      core-fail_frontend_each (send_envelope w s r.connection_id e) requests reason
      ∙ core-send_envelope s r.connection_id e
