-- ===== src/Bridge/Invariant/Transport.antt =====
-- CodexBridge: the tables under the transport's events and the local application's calls.
use aisuite.Common.{
  ℕ, ◌≡◌, ap, ◌∙◌, inl, inr, Bool, true, false, not, ◌||◌, Option, none, some, is_some, [], ◌∷◌,
  arith, Bool-cases, Option-cases, Text, text, Map, lookup, contains, ◌+◌, ◌%◌, ◌^◌,
}
use aisuite.Json.{Json}
use aisuite.Envelope.{JsonRpcKind, request, notification, response, invalid, classify_json_rpc}
use aisuite.Bridge.State.{Handler, Core, World, Bridge, with_core}
use aisuite.Bridge.Io.{id_of, is_app_server_connected, send_to_app_server}
use aisuite.Bridge.Ids.{key_of, next_local_request_id}
use aisuite.Bridge.Ids.Fresh.{next_local_request_id-free}
use aisuite.Bridge.Local.{
  enter_local, drop_local, is_local_owner, send_raw_request, send_raw_response, send_raw,
  send_raw_json, with_params, fail_local_send, send_local,
}
use aisuite.Bridge.Lifecycle.{
  new_generation, announce, app_server_connected, fail_local_requests, fail_frontend_requests,
  app_server_disconnected, set_app_server_ready,
}
use aisuite.Bridge.Quiet.{
  core-announce, core-emit_diagnostic, core-run_lifecycle, core-fail_local_each,
  core-fail_frontend_each, core-call,
}
use aisuite.Bridge.Invariant.{IsValid}
use aisuite.Bridge.Invariant.Messages.{quiet, sent-IsValid, without-IsValid}
use aisuite.Bridge.Invariant.Requests.{enter_local-Matched}
use aisuite.Bridge.Invariant.Traffic.{drop_local-IsValid}

pub lookup-nil {ℓ} : {V : Type ℓ} (k : Text) {v : V} → lookup k [] ≡ some v → ⊥
unfolding lookup
lookup-nil k e = cc

module _ (j : Json) where
  abbrev local_message : Text → Text → j.Value
  local_message method id = j.object (
      (text "jsonrpc", j.string (text "2.0"))
      ∷ (text "id", j.string id)
      ∷ (text "method", j.string method)
      ∷ [])

module _ {j : Json} where
  -- The tables of a bridge that has lost its app server: nothing waits any more.
  abbrev pub cleared : Core j → Core j
  cleared c = record c {
    frontend_request_owners = [];
    frontend_request_keys = [];
    local_requests = [];
    app_server_request_owners = [];
    app_server_ready = false;
  }

  cleared-IsValid : (c : Core j) → IsValid c → IsValid (cleared c)
  cleared-IsValid c v = record {
    named = v.named;
    roles = v.roles;
    matched = record {
      keyed = λ k r e. absurd (lookup-nil k e);
      owned = λ f k e. absurd (lookup-nil f e);
      prefixed = λ k r e. absurd (lookup-nil k e);
      registered = λ k r e. absurd (lookup-nil k e);
      apart = λ k r e. absurd (lookup-nil k e);
      waiting = λ k o e f. absurd (lookup-nil k e);
      distinct_owners = tt;
      distinct_keys = tt;
    };
  }

  -- The members that the tables do not depend on.
  pub other-IsValid :
      (c : Core j) (app_server : Option ℕ) (raw lifecycle : Handler)
      (requests notifications : Map Handler) (local_number generation : ℕ) (ready : Bool)
      → IsValid c
      → IsValid (record c {
        app_server = app_server;
        raw_handler = raw;
        lifecycle_handler = lifecycle;
        server_request_handlers = requests;
        server_notification_handlers = notifications;
        next_local_request_number = local_number;
        provider_generation = generation;
        app_server_ready = ready;
      })
  other-IsValid c a r l q n k g b v = record {
    named = v.named;
    roles = v.roles;
    matched = record {
      keyed = v.matched.keyed;
      owned = v.matched.owned;
      prefixed = v.matched.prefixed;
      registered = v.matched.registered;
      apart = v.matched.apart;
      waiting = v.matched.waiting;
      distinct_owners = v.matched.distinct_owners;
      distinct_keys = v.matched.distinct_keys;
    };
  }

  enter_local-IsValid :
      (s : Bridge j) (key : Text) (id : j.Value) (h : Handler)
      → contains key s.frontend_request_owners ≡ false
      → IsValid s.core
      → IsValid (enter_local s key id h).core
  unfolding enter_local
  enter_local-IsValid s key id h free v = record {
    named = v.named;
    roles = v.roles;
    matched =
        enter_local-Matched s.core v.matched key (record { id = id; handler = h }) (ground arith);
  }

module _ {j : Json} (w : World j) where
  open j use {Value}

  -- `appServerDisconnected` leaves every member as it was but the readiness, which is false
  -- after it, and the four tables of requests, which are empty.
  pub core-app_server_disconnected :
      (s : Bridge j) (reason : Text) → (app_server_disconnected w s reason).core ≡ cleared s.core
  unfolding app_server_disconnected fail_local_requests fail_frontend_requests
  core-app_server_disconnected s reason =
      let down = with_core s (record (s.core) { app_server_ready = false }) in
      let failed = fail_frontend_requests w (fail_local_requests w down reason) reason in
      let gone : Bridge j =
        with_core failed (record (failed.core) { app_server_request_owners = [] }) in
      let t = announce w gone (text "disconnected") reason in
      let empty_locals =
        core-fail_local_each w (with_core down (record (down.core) { local_requests = [] }))
          down.local_requests reason in
      core-run_lifecycle w _ false
      ∙ core-emit_diagnostic w t _ _ none _
      ∙ core-announce w gone _ _
      ∙ ap (λ (c : Core j). record c { app_server_request_owners = [] })
          (core-fail_frontend_each w _ (fail_local_requests w down reason).frontend_request_owners
              reason
            ∙ ap
                (λ (c : Core j). record c {
                  frontend_request_owners = [];
                  frontend_request_keys = [];
                })
                empty_locals)

  -- A new transport is a new generation, whose session is not ready yet.
  pub core-app_server_connected :
      (s : Bridge j) → (app_server_connected w s).core ≡ new_generation s.core
  unfolding app_server_connected
  core-app_server_connected s =
      let t = announce w (with_core s (new_generation s.core)) (text "connected") [] in
      core-run_lifecycle w _ true
      ∙ core-emit_diagnostic w t _ _ none _
      ∙ core-announce w (with_core s (new_generation s.core)) _ _

  pub app_server_disconnected-IsValid :
      (s : Bridge j) (reason : Text)
      → IsValid s.core
      → IsValid (app_server_disconnected w s reason).core
  app_server_disconnected-IsValid s reason v =
      quiet (core-app_server_disconnected s reason) (cleared-IsValid s.core v)

  pub app_server_connected-IsValid :
      (s : Bridge j) → IsValid s.core → IsValid (app_server_connected w s).core
  unfolding new_generation
  app_server_connected-IsValid s v = quiet (core-app_server_connected s) (
      other-IsValid s.core s.app_server s.raw_handler s.lifecycle_handler s.server_request_handlers
        s.server_notification_handlers s.next_local_request_number
        ((s.provider_generation + 1) % 2 ^ 64) false v)

  pub set_app_server_ready-IsValid :
      (s : Bridge j) → IsValid s.core → IsValid (set_app_server_ready w s).core
  unfolding set_app_server_ready
  set_app_server_ready-IsValid s v =
      let c : Core j = record (s.core) { app_server_ready = true } in
      let ready =
        other-IsValid s.core s.app_server s.raw_handler s.lifecycle_handler
          s.server_request_handlers s.server_notification_handlers s.next_local_request_number
          s.provider_generation true v in
      let t = announce w (with_core s c) (text "ready") [] in
      elim (Bool-cases (not (is_app_server_connected w s) || s.app_server_ready)) [
        | inl e ↦ rw e v
        | inr e ↦ rw e (
            quiet (core-emit_diagnostic w t _ _ none _ ∙ core-announce w (with_core s c) _ _) ready)
      ]

  send_raw_request-IsValid :
      (s : Bridge j) (m : Value) (key : Option Text)
      → IsValid s.core
      → IsValid (send_raw_request w s m key).0.core
  unfolding send_raw_request
  send_raw_request-IsValid s m none v = v
  send_raw_request-IsValid s m (some key) v =
      let entered = enter_local s key (id_of j m) none in
      let t = (send_to_app_server w entered m).0 in
      elim (Bool-cases (contains key s.local_requests)) [
        | inl e ↦ rw e v
        | inr e ↦ elim (Bool-cases (contains key s.frontend_request_owners)) [
          | inl f ↦ rw (e, f) v
          | inr f ↦
              let u = sent-IsValid w entered m (enter_local-IsValid s key (id_of j m) none f v) in
              elim (Bool-cases (send_to_app_server w entered m).1) [
                | inl g ↦ rw (e, f, g) u
                | inr g ↦ rw (e, f, g) (drop_local-IsValid t key u)
              ]
        ]
      ]

  send_raw_response-IsValid :
      (s : Bridge j) (m : Value) (key : Option Text)
      → IsValid s.core
      → IsValid (send_raw_response w s m key).0.core
  unfolding send_raw_response
  send_raw_response-IsValid s m none v = v
  send_raw_response-IsValid s m (some key) v =
      let t = (send_to_app_server w s m).0 in
      elim (Bool-cases (is_local_owner (lookup key s.app_server_request_owners))) [
        | inr e ↦ rw e v
        | inl e ↦ elim (Bool-cases (send_to_app_server w s m).1) [
          | inl g ↦ rw (e, g) (without-IsValid w t key (sent-IsValid w s m v))
          | inr g ↦ rw (e, g) (sent-IsValid w s m v)
        ]
      ]

  send_raw-IsValid :
      (s : Bridge j) (m : Value) (kind : JsonRpcKind)
      → IsValid s.core
      → IsValid (send_raw w s m kind).0.core
  unfolding send_raw
  send_raw-IsValid s m invalid v = v
  send_raw-IsValid s m request v = send_raw_request-IsValid s m _ v
  send_raw-IsValid s m response v = send_raw_response-IsValid s m _ v
  send_raw-IsValid s m notification v = sent-IsValid w s m v

  -- If the tables are well formed before `sendRawJson`, they are well formed after it, for
  -- every message.
  pub send_raw_json-IsValid :
      (s : Bridge j) (m : Value) → IsValid s.core → IsValid (send_raw_json w s m).0.core
  unfolding send_raw_json
  send_raw_json-IsValid s m v = send_raw-IsValid s m (classify_json_rpc j m) v

  fail_local_send-IsValid :
      (s : Bridge j) (key : Text) → IsValid s.core → IsValid (fail_local_send w s key).core
  unfolding fail_local_send
  fail_local_send-IsValid s key v = elim (Option-cases (lookup key s.local_requests)) [
    | inl e ↦ rw (e, fail_local_send) v
    | inr (r, e) ↦
        rw (e, fail_local_send)
          (quiet (core-call w (drop_local s key) r.handler _) (drop_local-IsValid s key v))
  ]

  -- If the tables are well formed and the search for an id returned `id` and `next`, sending a
  -- local request under that id leaves them well formed, whether the transport takes the
  -- message or not.
  pub send_local-IsValid :
      (s : Bridge j) (method : Text) (params : Option Value) (h : Handler) (id : Text) (next : ℕ)
      → next_local_request_id s.core ≡ some (id, next)
      → IsValid s.core
      → IsValid (send_local w s method params h (id, next)).core
  unfolding send_local
  send_local-IsValid s method params h id next e v =
      let key = key_of j id in
      let numbered = with_core s (record (s.core) { next_local_request_number = next }) in
      let entered = enter_local numbered key (j.string id) h in
      let message = with_params w (local_message j method id) params in
      let u = sent-IsValid w entered message (
        enter_local-IsValid numbered key (j.string id) h
          (ap is_some (next_local_request_id-free s.core id next e).1)
          (other-IsValid s.core s.app_server s.raw_handler s.lifecycle_handler
            s.server_request_handlers s.server_notification_handlers next s.provider_generation
            s.app_server_ready v)) in
      elim (Bool-cases (send_to_app_server w entered message).1) [
        | inl g ↦ rw g u
        | inr g ↦ rw g (fail_local_send-IsValid (send_to_app_server w entered message).0 key u)
      ]
