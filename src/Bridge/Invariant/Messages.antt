-- ===== src/Bridge/Invariant/Messages.antt =====
-- CodexBridge::receiveFromFrontend: the tables around it.
use aisuite.Common.{
  ℕ, ◌≡◌, sym, subst, ap, ◌∙◌, inl, inr, Bool, true, false, not, ◌&&◌, Option, none, some, is_some,
  [], arith, if◌then◌else◌, Bool-cases, Option-cases, Text, text, text_eq, lookup, contains, ℤ,
}
use aisuite.Json.{Json}
use aisuite.Envelope.{
  JsonRpcKind, request, notification, response, invalid, json_rpc_id_key, json_rpc_method,
  classify_strict_json_rpc, has_string,
}
use aisuite.Bridge.State.{FrontendRequest, Core, World, Bridge, with_core}
use aisuite.Bridge.Io.{reject, emit_diagnostic, send_to_app_server, is_app_server_connected, id_of}
use aisuite.Bridge.Frontends.{is_controller, promote, set_controller}
use aisuite.Bridge.Ids.{key_of, next_frontend_request_id}
use aisuite.Bridge.Ids.Fresh.{next_frontend_request_id-free}
use aisuite.Bridge.Forward.{
  without_owner, answer, owns, on_frontend_response, frontend_key_of, enter_request, drop_request,
  send_request, forward_request, forward_other, forward, on_payload, handle_app_server_envelope,
  transport_rejected, is_handshake, may_forward, is_request, string_member,
}
use aisuite.Bridge.Control.{
  claim, release, transfer, handle_controller_command, receive_from_frontend,
}
use aisuite.Bridge.Quiet.{
  core-reject, core-send_to_app_server, core-emit_diagnostic, core-broadcast_controller,
}
use aisuite.Bridge.Invariant.{Matched, IsValid}
use aisuite.Bridge.Invariant.Seats.{
  promote-RolesAgree, promote-Named, promote-contains, promote-shape,
}
use aisuite.Bridge.Invariant.Departure.{Matched-grow}
use aisuite.Bridge.Invariant.Requests.{
  enter_request-Matched, drop_request-Matched, lookup-enter_request,
}
use aisuite.Bridge.Invariant.Arrivals.{without_owner-IsValid}

module _ {j : Json} where
  pub quiet : {c d : Core j} → d ≡ c → IsValid c → IsValid d
  quiet e v = subst IsValid (sym e) v

  -- A handler that may fail keeps the tables well formed where it does not.
  abbrev pub AllValid : Option (Bridge j) → Type 0
  AllValid none = Unit
  AllValid (some s) = IsValid s.core

  if-AllValid :
      (b : Bool) (x y : Option (Bridge j)) → AllValid x → AllValid y → AllValid (if b then x else y)
  if-AllValid true x y vx vy = vx
  if-AllValid false x y vx vy = vy

  promote-IsValid :
      (c d : Core j) (id : Option Text) → promote c id ≡ some d → IsValid c → IsValid d
  promote-IsValid c d id e v = record {
    named = promote-Named c d id e v.named;
    roles = promote-RolesAgree c d id v.roles e;
    matched = subst Matched (sym (promote-shape c d id e)) (
        Matched-grow c d.frontends d.controller d.next_connection_number
          (λ i here. promote-contains c d id i e ∙ here) v.matched);
  }

  enter_request-IsValid :
      (c : Core j) (connection_id id : Text) (payload : j.Value) (upstream : Text) (next : ℕ)
      → let f = frontend_key_of connection_id id in
        IsValid c
        → contains connection_id c.frontends ≡ true
        → contains f c.frontend_request_keys ≡ false
        → next_frontend_request_id c connection_id ≡ some (upstream, next)
        → IsValid (enter_request c connection_id payload f (upstream, next))
  unfolding enter_request
  enter_request-IsValid c connection_id id payload upstream next v here new e =
      let (free_l, free_k) = next_frontend_request_id-free c connection_id upstream next e in
      record {
        named = v.named;
        roles = v.roles;
        matched =
            enter_request-Matched c connection_id id payload upstream next v.matched here
              (ground arith) free_k free_l;
      }

  pub drop_request-IsValid :
      (c : Core j) (key : Text) (r : FrontendRequest j)
      → lookup key c.frontend_request_owners ≡ some r
      → IsValid c
      → IsValid (drop_request c key r.frontend_key)
  unfolding drop_request
  drop_request-IsValid c key r found v = record {
    named = v.named;
    roles = v.roles;
    matched = drop_request-Matched c key r v.matched found;
  }

module _ {j : Json} (w : World j) where
  open j use {Value}

  reject-IsValid :
      (s : Bridge j) (id : Text) (m : Value) (code : ℤ) (reason : Text)
      → IsValid s.core
      → IsValid (reject w s id m code reason).core
  reject-IsValid s id m code reason = quiet (core-reject w s id m code reason)

  pub sent-IsValid :
      (s : Bridge j) (m : Value) → IsValid s.core → IsValid (send_to_app_server w s m).0.core
  sent-IsValid s m = quiet (core-send_to_app_server w s m)

  pub without-IsValid :
      (s : Bridge j) (key : Text) → IsValid s.core → IsValid (without_owner s key).core
  unfolding without_owner
  without-IsValid s key v = without_owner-IsValid s.core key v

  answer-IsValid :
      (s : Bridge j) (id : Text) (m : Value) (key : Text)
      → IsValid s.core
      → IsValid (answer w s id m key).core
  unfolding answer
  answer-IsValid s id m key v =
      let t = (send_to_app_server w s m).0 in
      let left = without-IsValid t key (sent-IsValid s m v) in
      elim (Bool-cases (send_to_app_server w s m).1) [
        | inl sent ↦ rw sent left
        | inr lost ↦ rw lost (reject-IsValid (without_owner t key) id m transport_rejected _ left)
      ]

  on_frontend_response-IsValid :
      (s : Bridge j) (id : Text) (m : Value) (key : Option Text)
      → IsValid s.core
      → IsValid (on_frontend_response w s id m key).core
  unfolding on_frontend_response
  on_frontend_response-IsValid s id m none v = reject-IsValid s id m _ _ v
  on_frontend_response-IsValid s id m (some key) v =
      elim (Bool-cases (owns id (lookup key s.app_server_request_owners))) [
        | inl mine ↦ rw mine (answer-IsValid s id m key v)
        | inr other ↦ rw other (reject-IsValid s id m _ _ v)
      ]

  -- Sending leaves an outstanding request as it was entered, so that dropping it is safe.
  send_request-IsValid :
      (s : Bridge j) (connection_id id : Text) (m : Value) (upstream : Text) (next : ℕ)
      → let f = frontend_key_of connection_id id in
        IsValid s.core
        → contains connection_id s.frontends ≡ true
        → contains f s.frontend_request_keys ≡ false
        → next_frontend_request_id s.core connection_id ≡ some (upstream, next)
        → IsValid (send_request w s connection_id m f (upstream, next)).core
  unfolding send_request
  send_request-IsValid s connection_id id m upstream next v here new e =
      let f = frontend_key_of connection_id id in
      let key = key_of j upstream in
      let c = enter_request s.core connection_id m f (upstream, next) in
      let entered = enter_request-IsValid s.core connection_id id m upstream next v here new e in
      let (_, free) = next_frontend_request_id-free s.core connection_id upstream next e in
      let found = lookup-enter_request s.core connection_id f m upstream next free in
      let r : FrontendRequest j = record {
        connection_id = connection_id;
        frontend_id = id_of j m;
        frontend_key = f;
      } in
      let forwarded = j.set m (text "id") (j.string upstream) in
      let t = (send_to_app_server w (with_core s c) forwarded).0 in
      let same : t.core ≡ c = core-send_to_app_server w (with_core s c) forwarded in
      let dropped : IsValid (drop_request t.core key f) =
        quiet (ap (λ (d : Core j). drop_request d key f) same)
          (drop_request-IsValid c key r found entered) in
      elim (Bool-cases (send_to_app_server w (with_core s c) forwarded).1) [
        | inl sent ↦ rw sent (quiet same entered)
        | inr lost ↦
            rw lost
              (reject-IsValid (with_core t (drop_request t.core key f)) connection_id m _ _ dropped)
      ]

  forward_request-AllValid :
      (s : Bridge j) (id : Text) (m : Value) (key : Option Text)
      → IsValid s.core
      → contains id s.frontends ≡ true
      → AllValid (forward_request w s id m key)
  unfolding forward_request
  forward_request-AllValid s id m none v here = reject-IsValid s id m _ _ v
  forward_request-AllValid s id m (some key) v here =
      let f = frontend_key_of id key in
      elim (Bool-cases (contains f s.frontend_request_keys)) [
        | inl old ↦ rw old (reject-IsValid s id m _ _ v)
        | inr new ↦ elim (Option-cases (next_frontend_request_id s.core id)) [
          | inl never ↦ rw (new, never, forward_request) tt
          | inr ((upstream, next), e) ↦
              rw (new, e, forward_request)
                (send_request-IsValid s id key m upstream next v here new e)
        ]
      ]

  forward_other-IsValid :
      (s : Bridge j) (id : Text) (m : Value)
      → IsValid s.core
      → IsValid (forward_other w s id m).core
  unfolding forward_other
  forward_other-IsValid s id m v =
      let t = (send_to_app_server w s m).0 in
      elim (Bool-cases (send_to_app_server w s m).1) [
        | inl sent ↦ rw sent (sent-IsValid s m v)
        | inr lost ↦ rw lost (reject-IsValid t id m _ _ (sent-IsValid s m v))
      ]

  forward-AllValid :
      (s : Bridge j) (id : Text) (m : Value) (kind : JsonRpcKind)
      → IsValid s.core
      → contains id s.frontends ≡ true
      → AllValid (forward w s id m kind)
  unfolding forward
  forward-AllValid s id m kind v here =
      let refused = λ (code : ℤ) (reason : Text). reject-IsValid s id m code reason v in
      elim (Bool-cases (is_handshake (json_rpc_method j m))) [
        | inl h ↦ rw h (refused _ _)
        | inr h ↦ elim (Bool-cases (may_forward s.core id m)) [
          | inr a ↦ rw (h, a) (refused _ _)
          | inl a ↦ elim (Bool-cases (is_app_server_connected w s && s.app_server_ready)) [
            | inr r ↦ rw (h, a, r) (refused _ _)
            | inl r ↦ elim (Bool-cases (is_request kind)) [
              | inl q ↦
                  rw (h, a, r, q) (forward_request-AllValid s id m (json_rpc_id_key j m) v here)
              | inr q ↦ rw (h, a, r, q) (forward_other-IsValid s id m v)
            ]
          ]
        ]
      ]

  on_payload-AllValid :
      (s : Bridge j) (id : Text) (m : Value) (kind : JsonRpcKind)
      → IsValid s.core
      → contains id s.frontends ≡ true
      → AllValid (on_payload w s id m kind)
  unfolding on_payload
  on_payload-AllValid s id m invalid v here = reject-IsValid s id m _ _ v
  on_payload-AllValid s id m response v here = on_frontend_response-IsValid s id m _ v
  on_payload-AllValid s id m request v here = forward-AllValid s id m request v here
  on_payload-AllValid s id m notification v here = forward-AllValid s id m notification v here

  handle_app_server_envelope-AllValid :
      (s : Bridge j) (id : Text) (m : Value)
      → IsValid s.core
      → contains id s.frontends ≡ true
      → AllValid (handle_app_server_envelope w s id m)
  unfolding handle_app_server_envelope
  handle_app_server_envelope-AllValid s id m v here =
      elim (Option-cases (j.find m (text "payload"))) [
        | inl e ↦ rw (e, handle_app_server_envelope) (reject-IsValid s id _ _ _ v)
        | inr (p, e) ↦
            rw (e, handle_app_server_envelope)
              (on_payload-AllValid s id p (classify_strict_json_rpc j p) v here)
      ]

  set_controller-AllValid :
      (s : Bridge j) (id : Option Text) → IsValid s.core → AllValid (set_controller w s id)
  unfolding set_controller
  set_controller-AllValid s id v = elim (Option-cases (promote s.core id)) [
    | inl e ↦ rw (e, set_controller) tt
    | inr (c, e) ↦
        rw (e, set_controller)
          (quiet (core-broadcast_controller w (with_core s c)) (promote-IsValid s.core c id e v))
  ]

  diagnosed-IsValid :
      (s : Bridge j) (code message : Text) (id : Option Text) (details : Value)
      → IsValid s.core
      → IsValid (emit_diagnostic w s code message id details).core
  diagnosed-IsValid s code message id details =
      quiet (core-emit_diagnostic w s code message id details)

  claim-AllValid : (s : Bridge j) (id : Text) → IsValid s.core → AllValid (claim w s id)
  unfolding claim
  claim-AllValid s id v =
      if-AllValid (not (is_some s.controller)) _ _ (set_controller-AllValid s (some id) v) (
        if-AllValid (is_controller s.controller id) _ _ (set_controller-AllValid s (some id) v)
          (diagnosed-IsValid s _ _ (some id) _ v))

  release-AllValid : (s : Bridge j) (id : Text) → IsValid s.core → AllValid (release w s id)
  unfolding release
  release-AllValid s id v =
      if-AllValid (is_controller s.controller id) _ _ (set_controller-AllValid s none v)
        (diagnosed-IsValid s _ _ (some id) _ v)

  transfer-AllValid :
      (s : Bridge j) (id target : Text) → IsValid s.core → AllValid (transfer w s id target)
  unfolding transfer
  transfer-AllValid s id target v =
      if-AllValid (not (is_controller s.controller id)) _ _ (diagnosed-IsValid s _ _ (some id) _ v)
        (if-AllValid (not (contains target s.frontends)) _ _ (diagnosed-IsValid s _ _ (some id) _ v)
          (set_controller-AllValid s (some target) v))

  handle_controller_command-AllValid :
      (s : Bridge j) (id : Text) (m : Value)
      → IsValid s.core
      → AllValid (handle_controller_command w s id m)
  unfolding handle_controller_command
  handle_controller_command-AllValid s id m v =
      let action = string_member j m (text "action") in
      if-AllValid (text_eq action (text "claim")) _ _ (claim-AllValid s id v) (
        if-AllValid (text_eq action (text "release")) _ _ (release-AllValid s id v) (
          if-AllValid (text_eq action (text "transfer")) _ _
            (transfer-AllValid s id (string_member j m (text "targetConnectionId")) v)
            (diagnosed-IsValid s _ _ (some id) _ v)))

  -- If the tables are well formed before `receiveFromFrontend`, they are well formed after it,
  -- for every sender and every message, provided it returns.
  pub receive_from_frontend-AllValid :
      (s : Bridge j) (id : Text) (m : Value)
      → IsValid s.core
      → AllValid (receive_from_frontend w s id m)
  unfolding receive_from_frontend
  receive_from_frontend-AllValid s id m v =
      let kind = string_member j m (text "kind") in
      let refused = λ (code : ℤ) (reason : Text). reject-IsValid s id (j.object []) code reason v in
      elim (Bool-cases (contains id s.frontends)) [
        | inr away ↦ rw away v
        | inl here ↦ rw here (
            if-AllValid (not (j.is_object m)) _ _ (refused _ _) (
              if-AllValid (not (has_string j m (text "kind"))) _ _ (refused _ _) (
                if-AllValid (text_eq kind (text "appserver")) _ _
                  (handle_app_server_envelope-AllValid s id m v here)
                  (if-AllValid (text_eq kind (text "bridge.controller")) _ _
                    (handle_controller_command-AllValid s id m v) (refused _ _)))))
      ]
