-- ===== src/Sdk/Sessions.antt =====
-- The frontend's CodexBridge: sequences of its calls.
use aisuite.Common.{
  ◌+◌, ◌%◌, ◌^◌, ◌≤◌, ◌<◌, ◌≡◌, refl, sym, ◌∙◌, inl, inr, Bool, true, false, not, ◌||◌, Option,
  none, some, is_some, List, [], ◌∷◌, arith, Bool-cases, Option-cases, length, Text, text_eq,
  text_eq_iff, lookup, assign, lookup-assign, ℤ,
}
use aisuite.Json.{Json, JsonLaws}
use aisuite.Bridge.State.{Handler}
use aisuite.Bridge.Ids.{key_of}
use aisuite.Sdk.State.{Surroundings, FrontendBridge, new_frontend}
use aisuite.Sdk.Send.{
  send_app_server_message, send_raw_message, send_bridge_command, send_notification, respond,
  set_sender, on_raw_messages, on_bridge_event, on_server_request, on_server_notification,
  respond_error, claim_controller, release_controller, transfer_controller,
}
use aisuite.Sdk.Receive.{transport_disconnected, receive_message}
use aisuite.Sdk.Request.{
  request_name, request_message, next_request_id, answer_locally, fail_send, send_pending, ask,
}
use aisuite.Sdk.Pending.{Numbered, Keeps, Keeps-refl, Keeps-trans, Keeps-Numbered, next-free}
use aisuite.Sdk.Keeping.{
  Keeps-same, hand_over-Keeps, erase-Keeps, transport_disconnected-Keeps, pass_on-Keeps,
  send_app_server_message-Keeps, respond_error-Keeps, respond-Keeps, send_notification-Keeps,
  send_raw_message-Keeps, receive_message-Keeps,
}

-- One call of an operation of the frontend's CodexBridge.
pub data SdkCall (j : Json) : Type 0 where
  asks : Text → Option j.Value → Handler → SdkCall j
  notifies : Text → Option j.Value → SdkCall j
  sends_raw : j.Value → SdkCall j
  responds : j.Value → j.Value → SdkCall j
  responds_error : j.Value → ℤ → Text → j.Value → SdkCall j
  receives : j.Value → SdkCall j
  disconnects : Text → SdkCall j
  claims releases : SdkCall j
  transfers : Text → SdkCall j
  sets_sender watches_raw watches_bridge : Handler → SdkCall j
  serves listens : Text → Handler → SdkCall j

module _ {j : Json} (w : Surroundings j) where
  open j use {Value}

  unfoldable pub make : FrontendBridge j → SdkCall j → FrontendBridge j
  make s (asks method params h) = (ask w s method params h).0
  make s (notifies method params) = (send_notification w s method params).0
  make s (sends_raw m) = (send_raw_message w s m).0
  make s (responds id result) = (respond w s id result).0
  make s (responds_error id code message details) = (respond_error w s id code message details).0
  make s (receives m) = (receive_message w s m).0
  make s (disconnects reason) = transport_disconnected s reason
  make s claims = (claim_controller w s).0
  make s releases = (release_controller w s).0
  make s (transfers target) = (transfer_controller w s target).0
  make s (sets_sender h) = set_sender s h
  make s (watches_raw h) = on_raw_messages s h
  make s (watches_bridge h) = on_bridge_event s h
  make s (serves method h) = on_server_request s method h
  make s (listens method h) = on_server_notification s method h

  unfoldable pub make_all : FrontendBridge j → List (SdkCall j) → FrontendBridge j
  make_all s [] = s
  make_all s (x ∷ xs) = make_all (make s x) xs

  -- The next request is entered under its own name.
  entered-Numbered :
      (s : FrontendBridge j) (h : Handler)
      → s.next_request_number + 1 < 2 ^ 64
      → Numbered s
      → Numbered (record s {
        next_request_number = (s.next_request_number + 1) % 2 ^ 64;
        pending =
            assign (key_of j (request_name s.connection_id s.next_request_number)) h s.pending;
      })
  entered-Numbered s h small v k g e =
      let key = key_of j (request_name s.connection_id s.next_request_number) in
      let moved : (s.next_request_number + 1) % 2 ^ 64 ≡ s.next_request_number + 1 = omega arith in
      elim (Bool-cases (text_eq key k)) [
        | inl same ↦
            (s.connection_id, s.next_request_number, omega arith, sym ((text_eq_iff key k).0 same))
        | inr other ↦
            let found : lookup k s.pending ≡ some g =
              ground (arith, lookup-assign key k h s.pending) in
            let (c, n, below, same) = v k g found in (c, n, omega arith, same)
      ]

  moved-Numbered :
      (s : FrontendBridge j)
      → s.next_request_number + 1 < 2 ^ 64
      → Numbered s
      → Numbered (record s { next_request_number = (s.next_request_number + 1) % 2 ^ 64 })
  moved-Numbered s small v k g e = let (c, n, below, same) = v k g e in (c, n, omega arith, same)

  fail_send-Keeps : (s : FrontendBridge j) (id : Text) → Keeps s (fail_send s id)
  unfolding fail_send
  fail_send-Keeps s id = elim (Option-cases (lookup (key_of j id) s.pending)) [
    | inl e ↦ rw (e, fail_send) (Keeps-refl s)
    | inr (h, e) ↦
        rw (e, fail_send) (Keeps-trans s _ _ (erase-Keeps s (key_of j id)) (hand_over-Keeps _ h _))
  ]

  send_pending-Keeps :
      (s : FrontendBridge j) (id : Text) (m : Value) (h : Handler)
      → Keeps (record s { pending = assign (key_of j id) h s.pending }) (send_pending w s id m h)
  unfolding send_pending
  send_pending-Keeps s id m h =
      let entered : FrontendBridge j = record s { pending = assign (key_of j id) h s.pending } in
      let t = (send_app_server_message w entered m).0 in
      let kept = send_app_server_message-Keeps w entered m in
      elim (Bool-cases (send_app_server_message w entered m).1) [
        | inl taken ↦ rw taken kept
        | inr lost ↦ rw lost (Keeps-trans entered t _ kept (fail_send-Keeps t id))
      ]

  ask-Numbered :
      (s : FrontendBridge j) (method : Text) (params : Option Value) (h : Handler)
      → s.next_request_number + 1 < 2 ^ 64
      → Numbered s
      → Numbered (ask w s method params h).0
        × ((ask w s method params h).0.next_request_number ≡ s.next_request_number + 1)
  unfolding ask next_request_id answer_locally
  ask-Numbered s method params h small v =
      let id = request_name s.connection_id s.next_request_number in
      let t : FrontendBridge j = record s {
        next_request_number = (s.next_request_number + 1) % 2 ^ 64;
      } in
      let moved : (s.next_request_number + 1) % 2 ^ 64 ≡ s.next_request_number + 1 = omega arith in
      let entered : FrontendBridge j = record t { pending = assign (key_of j id) h t.pending } in
      elim (Bool-cases (not (is_some s.connection_id) || not s.provider_ready)) [
        | inl e ↦
            let kept = hand_over-Keeps t h _ in
            rw e (Keeps-Numbered t _ kept (moved-Numbered s small v), kept.number ∙ moved)
        | inr e ↦
            let m = request_message j id method params in
            let kept = send_pending-Keeps t id m h in
            rw e (Keeps-Numbered entered _ kept (entered-Numbered s h small v), kept.number ∙ moved)
      ]

  -- A call other than `asks` keeps what waits.
  unfoldable pub is_ask : SdkCall j → Bool
  is_ask (asks method params h) = true
  is_ask _ = false

  make-Keeps : (s : FrontendBridge j) (x : SdkCall j) → is_ask x ≡ false → Keeps s (make s x)
  unfolding make is_ask set_sender on_raw_messages on_bridge_event on_server_request
      on_server_notification claim_controller release_controller transfer_controller
      send_bridge_command
  make-Keeps s (asks method params h) e = cc
  make-Keeps s (notifies method params) e = send_notification-Keeps w s method params
  make-Keeps s (sends_raw m) e = send_raw_message-Keeps w s m
  make-Keeps s (responds id result) e = respond-Keeps w s id result
  make-Keeps s (responds_error id code message details) e =
      respond_error-Keeps w s id code message details
  make-Keeps s (receives m) e = receive_message-Keeps w s m
  make-Keeps s (disconnects reason) e = transport_disconnected-Keeps s reason
  make-Keeps s claims e = pass_on-Keeps w s _
  make-Keeps s releases e = pass_on-Keeps w s _
  make-Keeps s (transfers target) e = pass_on-Keeps w s _
  make-Keeps s (sets_sender h) e = Keeps-same s _ refl refl
  make-Keeps s (watches_raw h) e = Keeps-same s _ refl refl
  make-Keeps s (watches_bridge h) e = Keeps-same s _ refl refl
  make-Keeps s (serves method h) e = Keeps-same s _ refl refl
  make-Keeps s (listens method h) e = Keeps-same s _ refl refl

  asked-Numbered :
      (s : FrontendBridge j) (x : SdkCall j)
      → is_ask x ≡ true
      → s.next_request_number + 1 < 2 ^ 64
      → Numbered s
      → Numbered (make s x) × ((make s x).next_request_number ≤ s.next_request_number + 1)
  unfolding make is_ask
  asked-Numbered s (asks method params h) e small v =
      let (v', grown) = ask-Numbered s method params h small v in (v', omega (arith, grown))
  asked-Numbered s _ e small v = cc

  make-Numbered :
      (s : FrontendBridge j) (x : SdkCall j)
      → s.next_request_number + 1 < 2 ^ 64
      → Numbered s
      → Numbered (make s x) × ((make s x).next_request_number ≤ s.next_request_number + 1)
  make-Numbered s x small v = elim (Bool-cases (is_ask x)) [
    | inl e ↦ asked-Numbered s x e small v
    | inr e ↦
        let kept = make-Keeps s x e in
        (Keeps-Numbered s (make s x) kept v, omega (arith, kept.number))
  ]

  make_all-Numbered :
      (s : FrontendBridge j) (xs : List (SdkCall j))
      → s.next_request_number + length xs < 2 ^ 64
      → Numbered s
      → Numbered (make_all s xs)
  unfolding make_all
  make_all-Numbered s [] small v = v
  make_all-Numbered s (x ∷ xs) small v =
      let (v', grown) = make-Numbered s x (omega arith) v in
      make_all-Numbered (make s x) xs (omega arith) v'

  new_frontend-Numbered : (sender : Handler) → Numbered (new_frontend {j = j} sender)
  unfolding new_frontend lookup
  new_frontend-Numbered sender k h e = cc

  -- For a JSON library that obeys the laws, after fewer than 2^64 - 1 calls on a new frontend's
  -- CodexBridge, whatever they are, the key of its next request is not in use, so that the request
  -- takes the place of none that waits.
  pub make_all-free :
      (laws : JsonLaws j) (sender : Handler) (xs : List (SdkCall j))
      → length xs + 1 < 2 ^ 64
      → let s = make_all (new_frontend sender) xs in
        lookup (key_of j (request_name s.connection_id s.next_request_number)) s.pending ≡ none
  unfolding new_frontend
  make_all-free laws sender xs few =
      next-free laws (make_all (new_frontend sender) xs)
        (make_all-Numbered (new_frontend sender) xs (omega arith) (new_frontend-Numbered sender))
