-- ===== src/Sdk/Keeping.antt =====
-- The frontend's CodexBridge: the pending requests under what it sends and receives.
use aisuite.Common.{
  ℕ, ◌==◌, ◌≡◌, refl, sym, ap, ◌∙◌, inl, inr, not, ◌&&◌, Option, none, some, is_some, ltb, arith,
  Bool-cases, Option-cases, Text, text, text_eq, lookup, erase, lookup-erase, ℤ,
}
use aisuite.Json.{Json}
use aisuite.Envelope.{
  JsonRpcKind, request, notification, response, AppServerDirection, from_app_server,
  classify_json_rpc, has_string,
}
use aisuite.Bridge.State.{Handler}
use aisuite.Bridge.Forward.{string_member}
use aisuite.Sdk.State.{called, Surroundings, FrontendBridge, record_call, hand_over, watch_raw}
use aisuite.Sdk.Send.{
  is_valid_kind, pass_on, send_app_server_message, send_raw_message, send_notification, respond,
  respond_error, outbound,
}
use aisuite.Sdk.Receive.{
  provider_unavailable, fail_pending, transport_disconnected, on_opened, on_controller,
  next_generation, on_provider, update_bridge_state, on_event, on_answer, answer_error,
  on_server_call, dispatch_payload, on_app_server, receive_message,
}
use aisuite.Sdk.Pending.{Keeps, Keeps-refl, Keeps-trans, fail_pending-Keeps}

module _ {j : Json} where
  open j use {Value}

  pub Keeps-same :
      (s t : FrontendBridge j)
      → t.pending ≡ s.pending
      → t.next_request_number ≡ s.next_request_number
      → Keeps s t
  Keeps-same s t e number = record { fewer = λ k h f. ap (lookup k) (sym e) ∙ f; number = number }

  pub hand_over-Keeps : (s : FrontendBridge j) (h : Handler) (m : Value) → Keeps s (hand_over s h m)
  unfolding hand_over
  hand_over-Keeps s none m = Keeps-refl s
  hand_over-Keeps s (some h) m = Keeps-same s _ refl refl

  watch_raw-Keeps :
      (s : FrontendBridge j) (d : AppServerDirection) (m : Value) → Keeps s (watch_raw s d m)
  unfolding watch_raw
  watch_raw-Keeps s d m = Keeps-same s _ (ground arith) (ground arith)

  pub erase-Keeps :
      (s : FrontendBridge j) (key : Text) → Keeps s (record s { pending = erase key s.pending })
  erase-Keeps s key = record { fewer = λ k h e. erased k h e; number = refl }
    where
      erased :
          (k : Text) (h : Handler)
          → lookup k (erase key s.pending) ≡ some h
          → lookup k s.pending ≡ some h
      erased k h e = ground (arith, lookup-erase key k s.pending)

  next_generation-Keeps :
      (s : FrontendBridge j) (next : ℕ) (state : Text) → Keeps s (next_generation s next state)
  unfolding next_generation
  next_generation-Keeps s next state =
      let changed = not (s.provider_generation == 0) && ltb s.provider_generation next in
      elim (Bool-cases changed) [
        | inl e ↦ rw e (
            Keeps-trans s (fail_pending s _ provider_unavailable) _ (fail_pending-Keeps s _ _)
              (Keeps-same _ _ refl refl))
        | inr e ↦ rw e (Keeps-same s _ refl refl)
      ]

  on_provider-Keeps :
      (s : FrontendBridge j) (m : Value) (g : Option ℕ) → Keeps s (on_provider s m g)
  unfolding on_provider
  on_provider-Keeps s m none = Keeps-refl s
  on_provider-Keeps s m (some next) =
      let state = string_member j m (text "state") in
      let t = next_generation s next state in
      let kept = next_generation-Keeps s next state in
      elim (Bool-cases (ltb next s.provider_generation)) [
        | inl old ↦ rw old (Keeps-refl s)
        | inr new ↦ elim (Bool-cases (text_eq state (text "disconnected"))) [
          | inl down ↦ rw (new, down) (Keeps-trans s t _ kept (fail_pending-Keeps t _ _))
          | inr up ↦ rw (new, up) kept
        ]
      ]

  update_bridge_state-Keeps :
      (s : FrontendBridge j) (m : Value) (kind : Text) → Keeps s (update_bridge_state s m kind)
  unfolding update_bridge_state on_opened on_controller
  update_bridge_state-Keeps s m kind =
      let opened =
        text_eq kind (text "bridge.connection")
        && text_eq (string_member j m (text "event")) (text "opened") in
      elim (Bool-cases opened) [
        | inl e ↦ rw e (Keeps-same s _ refl refl)
        | inr e ↦ elim (Bool-cases (text_eq kind (text "bridge.controller"))) [
          | inl f ↦ rw (e, f) (Keeps-same s _ refl refl)
          | inr f ↦ elim (Bool-cases (text_eq kind (text "bridge.provider"))) [
            | inl g ↦ rw (e, f, g) (on_provider-Keeps s m _)
            | inr g ↦ rw (e, f, g) (Keeps-refl s)
          ]
        ]
      ]

  on_event-Keeps : (s : FrontendBridge j) (m : Value) (kind : Text) → Keeps s (on_event s m kind)
  unfolding on_event
  on_event-Keeps s m kind =
      let t = update_bridge_state s m kind in
      Keeps-trans s t _ (update_bridge_state-Keeps s m kind)
        (Keeps-same t _ (ground arith) (ground arith))

  on_answer-Keeps : (s : FrontendBridge j) (m : Value) (key : Text) → Keeps s (on_answer s m key)
  unfolding on_answer
  on_answer-Keeps s m key = elim (Option-cases (lookup key s.pending)) [
    | inl e ↦ rw (e, on_answer) (Keeps-refl s)
    | inr (h, e) ↦ rw (e, on_answer) (Keeps-trans s _ _ (erase-Keeps s key) (hand_over-Keeps _ h m))
  ]

  pub transport_disconnected-Keeps :
      (s : FrontendBridge j) (reason : Text) → Keeps s (transport_disconnected s reason)
  unfolding transport_disconnected
  transport_disconnected-Keeps s reason =
      Keeps-trans s _ _ (fail_pending-Keeps s _ _) (Keeps-same _ _ refl refl)

module _ {j : Json} (w : Surroundings j) where
  open j use {Value}

  pub pass_on-Keeps : (s : FrontendBridge j) (m : Value) → Keeps s (pass_on w s m).0
  unfolding pass_on
  pass_on-Keeps s m = Keeps-same s _ (ground arith) (ground arith)

  pub send_app_server_message-Keeps :
      (s : FrontendBridge j) (m : Value) → Keeps s (send_app_server_message w s m).0
  unfolding send_app_server_message
  send_app_server_message-Keeps s m =
      let t = (pass_on w s (outbound j m)).0 in
      let kept = pass_on-Keeps s (outbound j m) in
      elim (Bool-cases (pass_on w s (outbound j m)).1) [
        | inl taken ↦ rw taken (Keeps-trans s t _ kept (watch_raw-Keeps t _ m))
        | inr lost ↦ rw lost kept
      ]

  pub respond_error-Keeps :
      (s : FrontendBridge j) (id : Value) (code : ℤ) (message : Text) (details : Value)
      → Keeps s (respond_error w s id code message details).0
  unfolding respond_error
  respond_error-Keeps s id code message details = elim (Bool-cases (j.is_null id)) [
    | inl e ↦ rw e (Keeps-refl s)
    | inr e ↦ rw e (send_app_server_message-Keeps s _)
  ]

  pub respond-Keeps : (s : FrontendBridge j) (id result : Value) → Keeps s (respond w s id result).0
  unfolding respond
  respond-Keeps s id result = elim (Bool-cases (j.is_null id)) [
    | inl e ↦ rw e (Keeps-refl s)
    | inr e ↦ rw e (send_app_server_message-Keeps s _)
  ]

  pub send_notification-Keeps :
      (s : FrontendBridge j) (method : Text) (params : Option Value)
      → Keeps s (send_notification w s method params).0
  unfolding send_notification
  send_notification-Keeps s method params = elim (Bool-cases (is_some s.connection_id)) [
    | inl e ↦ rw e (send_app_server_message-Keeps s _)
    | inr e ↦ rw e (Keeps-refl s)
  ]

  pub send_raw_message-Keeps :
      (s : FrontendBridge j) (m : Value) → Keeps s (send_raw_message w s m).0
  unfolding send_raw_message
  send_raw_message-Keeps s m = elim (Bool-cases (is_valid_kind (classify_json_rpc j m))) [
    | inl e ↦ rw e (send_app_server_message-Keeps s m)
    | inr e ↦ rw e (Keeps-refl s)
  ]

  answer_error-Keeps :
      (s : FrontendBridge j) (m : Value) (key : Option Text) (code : ℤ) (message : Text)
      → Keeps s (answer_error w s m key code message)
  unfolding answer_error
  answer_error-Keeps s m none code message = Keeps-refl s
  answer_error-Keeps s m (some key) code message = respond_error-Keeps s _ code message j.null

  on_server_call-Keeps :
      (s : FrontendBridge j) (m : Value) (key : Option Text) (h : Handler)
      → Keeps s (on_server_call w s m key h)
  unfolding on_server_call
  on_server_call-Keeps s m key none = answer_error-Keeps s m key _ _
  on_server_call-Keeps s m key (some h) =
      let t = record_call s (called h m) in
      elim (Bool-cases (w.throws s.trace h m)) [
        | inl e ↦
            rw e (Keeps-trans s t _ (Keeps-same s t refl refl) (answer_error-Keeps t m key _ _))
        | inr e ↦ rw e (Keeps-same s t refl refl)
      ]

  dispatch_payload-Keeps :
      (s : FrontendBridge j) (m : Value) (kind : JsonRpcKind) (key method : Option Text)
      → Keeps s (dispatch_payload w s m kind key method).0
  unfolding dispatch_payload
  dispatch_payload-Keeps s m response (some key) method = on_answer-Keeps s m key
  dispatch_payload-Keeps s m request key (some method) = on_server_call-Keeps s m key _
  dispatch_payload-Keeps s m notification key (some method) = hand_over-Keeps s _ m
  dispatch_payload-Keeps s m _ _ _ = Keeps-refl s

  on_app_server-Keeps : (s : FrontendBridge j) (m : Option Value) → Keeps s (on_app_server w s m).0
  unfolding on_app_server
  on_app_server-Keeps s none = Keeps-refl s
  on_app_server-Keeps s (some m) =
      let t = watch_raw s from_app_server m in
      elim (Bool-cases (not (j.is_object m))) [
        | inl e ↦ rw e (Keeps-refl s)
        | inr e ↦
            rw e (Keeps-trans s t _ (watch_raw-Keeps s _ m) (dispatch_payload-Keeps t m _ _ _))
      ]

  pub receive_message-Keeps : (s : FrontendBridge j) (m : Value) → Keeps s (receive_message w s m).0
  unfolding receive_message
  receive_message-Keeps s m =
      let kind = string_member j m (text "kind") in
      elim (Bool-cases (not (j.is_object m))) [
        | inl e ↦ rw e (Keeps-refl s)
        | inr e ↦ elim (Bool-cases (not (has_string j m (text "kind")))) [
          | inl f ↦ rw (e, f) (Keeps-refl s)
          | inr f ↦ elim (Bool-cases (not (text_eq kind (text "appserver")))) [
            | inl g ↦ rw (e, f, g) (on_event-Keeps s m kind)
            | inr g ↦ rw (e, f, g) (on_app_server-Keeps s _)
          ]
        ]
      ]
