-- ===== src/Bridge/Invariant/Progress.antt =====
-- CodexBridge::receiveFromFrontend: the search for an id, and `frontends_.at`.
use aisuite.Common.{
  ◌≡◌, refl, ◌^◌, ◌<◌, inl, inr, Bool, true, false, not, ◌&&◌, Option, none, some, is_some, arith,
  if◌then◌else◌, Option-cases, Text, text, text_eq, contains,
}
use aisuite.Json.{Json, JsonLaws}
use aisuite.Envelope.{
  JsonRpcKind, request, notification, response, invalid, json_rpc_id_key, json_rpc_method,
  classify_strict_json_rpc, has_string,
}
use aisuite.Bridge.State.{World, Bridge}
use aisuite.Bridge.Io.{is_app_server_connected}
use aisuite.Bridge.Frontends.{is_controller, promote, set_controller}
use aisuite.Bridge.Ids.{id_fuel, next_frontend_request_id}
use aisuite.Bridge.Ids.Fresh.{next_frontend_request_id-total}
use aisuite.Bridge.Forward.{
  frontend_key_of, forward_request, forward, on_payload, handle_app_server_envelope, is_handshake,
  may_forward, is_request, string_member,
}
use aisuite.Bridge.Control.{
  claim, release, transfer, handle_controller_command, receive_from_frontend,
}
use aisuite.Bridge.Invariant.Seats.{promote-total}

if-is_some {ℓ} :
    {A : Type ℓ} (b : Bool) (x y : Option A)
    → (b ≡ true → is_some x ≡ true)
    → (b ≡ false → is_some y ≡ true)
    → is_some (if b then x else y) ≡ true
if-is_some true x y l r = l refl
if-is_some false x y l r = r refl

module _ {j : Json} (w : World j) (laws : JsonLaws j) where
  open j use {Value}

  set_controller-total :
      (s : Bridge j) (id : Text)
      → contains id s.frontends ≡ true
      → is_some (set_controller w s (some id)) ≡ true
  unfolding set_controller
  set_controller-total s id here =
      let (c, e) = promote-total s.core id here in rw (e, set_controller)

  vacate-total : (s : Bridge j) → is_some (set_controller w s none) ≡ true
  unfolding set_controller promote
  vacate-total s = refl

  handle_controller_command-total :
      (s : Bridge j) (id : Text) (m : Value)
      → contains id s.frontends ≡ true
      → is_some (handle_controller_command w s id m) ≡ true
  unfolding handle_controller_command claim release transfer
  handle_controller_command-total s id m here =
      let action = string_member j m (text "action") in
      let target = string_member j m (text "targetConnectionId") in
      let led = set_controller-total s id here in
      if-is_some (text_eq action (text "claim")) _ _
        (λ _.
          if-is_some (not (is_some s.controller)) _ _ (λ _. led)
            (λ _. if-is_some (is_controller s.controller id) _ _ (λ _. led) (λ _. refl)))
        (λ _.
          if-is_some (text_eq action (text "release")) _ _
            (λ _. if-is_some (is_controller s.controller id) _ _ (λ _. vacate-total s) (λ _. refl))
            (λ _.
              if-is_some (text_eq action (text "transfer")) _ _
                (λ _.
                  if-is_some (not (is_controller s.controller id)) _ _ (λ _. refl)
                    (λ _.
                      if-is_some (not (contains target s.frontends)) _ _ (λ _. refl)
                        (λ e. set_controller-total s target (ground arith))))
                (λ _. refl)))

  forward_request-total :
      (s : Bridge j) (id : Text) (m : Value) (key : Option Text)
      → s.next_frontend_request_number < 2 ^ 64
      → id_fuel s.core < 2 ^ 64
      → is_some (forward_request w s id m key) ≡ true
  unfolding forward_request
  forward_request-total s id m none b fits = refl
  forward_request-total s id m (some key) b fits =
      let found = next_frontend_request_id-total laws s.core id b fits in
      elim (Option-cases (next_frontend_request_id s.core id)) [
        | inl never ↦ absurd (ground arith)
        | inr (fresh_id, e) ↦
            if-is_some (contains (frontend_key_of id key) s.frontend_request_keys) _ _ (λ _. refl)
              (λ _. rw (e, forward_request))
      ]

  forward-total :
      (s : Bridge j) (id : Text) (m : Value) (kind : JsonRpcKind)
      → s.next_frontend_request_number < 2 ^ 64
      → id_fuel s.core < 2 ^ 64
      → is_some (forward w s id m kind) ≡ true
  unfolding forward
  forward-total s id m kind b fits =
      if-is_some (is_handshake (json_rpc_method j m)) _ _ (λ _. refl)
        (λ _.
          if-is_some (not (may_forward s.core id m)) _ _ (λ _. refl)
            (λ _.
              if-is_some (not (is_app_server_connected w s && s.app_server_ready)) _ _ (λ _. refl)
                (λ _.
                  if-is_some (is_request kind) _ _
                    (λ _. forward_request-total s id m (json_rpc_id_key j m) b fits) (λ _. refl))))

  on_payload-total :
      (s : Bridge j) (id : Text) (m : Value) (kind : JsonRpcKind)
      → s.next_frontend_request_number < 2 ^ 64
      → id_fuel s.core < 2 ^ 64
      → is_some (on_payload w s id m kind) ≡ true
  unfolding on_payload
  on_payload-total s id m invalid b fits = refl
  on_payload-total s id m response b fits = refl
  on_payload-total s id m request b fits = forward-total s id m request b fits
  on_payload-total s id m notification b fits = forward-total s id m notification b fits

  handle_app_server_envelope-total :
      (s : Bridge j) (id : Text) (m : Value)
      → s.next_frontend_request_number < 2 ^ 64
      → id_fuel s.core < 2 ^ 64
      → is_some (handle_app_server_envelope w s id m) ≡ true
  unfolding handle_app_server_envelope
  handle_app_server_envelope-total s id m b fits = elim (Option-cases (j.find m (text "payload"))) [
    | inl e ↦ rw (e, handle_app_server_envelope)
    | inr (p, e) ↦
        rw (e, handle_app_server_envelope)
          (on_payload-total s id p (classify_strict_json_rpc j p) b fits)
  ]

  -- For a JSON library that obeys the laws, `receiveFromFrontend` returns whatever the frontend
  -- sends, if the running number and one more than the outstanding requests are below 2^64.
  pub receive_from_frontend-total :
      (s : Bridge j) (id : Text) (m : Value)
      → s.next_frontend_request_number < 2 ^ 64
      → id_fuel s.core < 2 ^ 64
      → is_some (receive_from_frontend w s id m) ≡ true
  unfolding receive_from_frontend
  receive_from_frontend-total s id m b fits =
      let kind = string_member j m (text "kind") in
      if-is_some (not (contains id s.frontends)) _ _ (λ _. refl)
        (λ here.
          if-is_some (not (j.is_object m)) _ _ (λ _. refl)
            (λ _.
              if-is_some (not (has_string j m (text "kind"))) _ _ (λ _. refl)
                (λ _.
                  if-is_some (text_eq kind (text "appserver")) _ _
                    (λ _. handle_app_server_envelope-total s id m b fits)
                    (λ _.
                      if-is_some (text_eq kind (text "bridge.controller")) _ _
                        (λ _. handle_controller_command-total s id m (ground arith)) (λ _. refl)))))
