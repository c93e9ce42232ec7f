-- ===== src/Bridge/Routing.antt =====
-- CodexBridge: where the messages of frontends and of the app server go.
use aisuite.Common.{
  ℕ, ◌≡◌, refl, ap, ap₂, ◌∙◌, inl, inr, true, false, Option, none, some, List, [], ◌∷◌, arith,
  Bool-cases, Option-cases, Text, text, text_eq_iff, Map, lookup, contains, emplace, erase, keep_if,
  keys, ℤ,
}
use aisuite.Json.{Json}
use aisuite.Envelope.{
  JsonRpcKind, response, classify_json_rpc, json_rpc_id_key, json_rpc_method, from_app_server,
}
use aisuite.Bridge.State.{
  FrontendRecord, FrontendRequest, Core, Event, sent, dropped, closed, forwarded, refused, observed,
  called, lifecycle, World, Bridge, with_core, next_sequence,
}
use aisuite.Bridge.Io.{
  close_rejected, send_to, send_each, broadcast, emit_diagnostic, reject_diagnostic, reject_to,
  reject, send_to_app_server, observe, id_of,
}
use aisuite.Bridge.Ids.{key_of, next_frontend_request_id}
use aisuite.Bridge.Ids.Fresh.{next_frontend_request_id-free}
use aisuite.Bridge.Forward.{
  is_handshake, may_forward, enter_request, drop_request, send_request, forward, owns,
  on_frontend_response,
}
use aisuite.Bridge.Provider.{on_remote_response, on_response, dispatch, receive_from_app_server}
use aisuite.Bridge.Quiet.{core-observe, core-send_envelope, core-send_to_app_server, core-reject}

module _ {ℓ} {V : Type ℓ} where
  erase-absent : (k : Text) (m : Map V) → lookup k m ≡ none → erase k m ≡ m
  unfolding lookup keep_if
  erase-absent k [] e = refl
  erase-absent k ((i, v) ∷ m) e = ground (arith, erase-absent k m)

  erase-emplace : (k : Text) (v : V) (m : Map V) → lookup k m ≡ none → erase k (emplace k v m) ≡ m
  unfolding lookup keep_if emplace
  erase-emplace k v [] e = ground (arith, text_eq_iff k k)
  erase-emplace k v ((i, u) ∷ m) e = ground (arith, erase-emplace k v m)

  lookup-emplaced :
      (k : Text) (v : V) (m : Map V) → lookup k m ≡ none → lookup k (emplace k v m) ≡ some v
  unfolding lookup emplace
  lookup-emplaced k v [] e = ground (arith, text_eq_iff k k)
  lookup-emplaced k v ((i, u) ∷ m) e = ground (arith, lookup-emplaced k v m)

module _ {j : Json} where
  open j use {Value}

  -- The messages that the app server took, the last one first.
  unfoldable pub upstream : List (Event j) → List Value
  upstream [] = []
  upstream (forwarded e m ∷ t) = m ∷ upstream t
  upstream (sent e c m ∷ t) = upstream t
  upstream (dropped e c m ∷ t) = upstream t
  upstream (closed e ∷ t) = upstream t
  upstream (refused e m ∷ t) = upstream t
  upstream (observed h d m ∷ t) = upstream t
  upstream (called h m ∷ t) = upstream t
  upstream (lifecycle h up ∷ t) = upstream t

module _ {j : Json} (w : World j) where
  open j use {Value}

  upstream-send_to :
      (s : Bridge j) (id : Text) (m : Value) → upstream (send_to w s id m).trace ≡ upstream s.trace
  unfolding send_to close_rejected upstream
  upstream-send_to s id m = ground arith

  upstream-send_each :
      (s : Bridge j) (ids : List Text) (m : Value)
      → upstream (send_each w s ids m).trace ≡ upstream s.trace
  unfolding send_each
  upstream-send_each s [] m = refl
  upstream-send_each s (id ∷ ids) m =
      upstream-send_each (send_to w s id m) ids m ∙ upstream-send_to s id m

  upstream-emit_diagnostic :
      (s : Bridge j) (code message : Text) (id : Option Text) (details : Value)
      → upstream (emit_diagnostic w s code message id details).trace ≡ upstream s.trace
  unfolding emit_diagnostic broadcast
  upstream-emit_diagnostic s code message none details =
      upstream-send_each (next_sequence s) (keys s.frontends) _
  upstream-emit_diagnostic s code message (some id) details =
      upstream-send_to (next_sequence s) id _

  upstream-reject_diagnostic :
      (s : Bridge j) (id : Text) (code : ℤ) (reason : Text)
      → upstream (reject_diagnostic w s id code reason).trace ≡ upstream s.trace
  unfolding reject_diagnostic
  upstream-reject_diagnostic s id code reason = upstream-emit_diagnostic s _ reason (some id) _

  upstream-reject_to :
      (s : Bridge j) (id : Text) (r : FrontendRecord) (m : Value) (code : ℤ) (reason : Text)
      → upstream (reject_to w s id r m code reason).trace ≡ upstream s.trace
  unfolding reject_to
  upstream-reject_to s id r m code reason = upstream-send_to (next_sequence s) id _

  upstream-reject :
      (s : Bridge j) (id : Text) (m : Value) (code : ℤ) (reason : Text)
      → upstream (reject w s id m code reason).trace ≡ upstream s.trace
  unfolding reject
  upstream-reject s id m code reason = elim (Option-cases (lookup id s.frontends)) [
    | inl e ↦ ground (arith, upstream-reject_diagnostic s id code reason)
    | inr (r, e) ↦ ground (
      arith,
      upstream-reject_diagnostic s id code reason,
      upstream-reject_to s id r m code reason,
    )
  ]

  -- If a frontend may not send a message on, `forward` returns a bridge with the same members,
  -- in which the app server has got no further message.
  pub forward-refused :
      (s : Bridge j) (id : Text) (m : Value) (kind : JsonRpcKind)
      → may_forward s.core id m ≡ false
      → (t : Bridge j) × (forward w s id m kind ≡ some t)
        × (t.core ≡ s.core)
        × (upstream t.trace ≡ upstream s.trace)
  unfolding forward
  forward-refused s id m kind e = elim (Bool-cases (is_handshake (json_rpc_method j m))) [
    | inl h ↦ rw h (_, refl, core-reject w s id m _ _, upstream-reject s id m _ _)
    | inr h ↦ rw (h, e) (_, refl, core-reject w s id m _ _, upstream-reject s id m _ _)
  ]

  -- If a frontend does not own the server request with this key, its response leaves the
  -- members as they were, the request among them, and the app server gets no further message.
  pub on_frontend_response-refused :
      (s : Bridge j) (id : Text) (m : Value) (key : Text)
      → owns id (lookup key s.app_server_request_owners) ≡ false
      → ((on_frontend_response w s id m (some key)).core ≡ s.core)
        × (upstream (on_frontend_response w s id m (some key)).trace ≡ upstream s.trace)
  unfolding on_frontend_response
  on_frontend_response-refused s id m key e =
      rw e (core-reject w s id m _ _, upstream-reject s id m _ _)

  core-on_response :
      (s : Bridge j) (m : Value) (key : Text) (r : FrontendRequest j)
      → lookup key s.local_requests ≡ none
      → lookup key s.frontend_request_owners ≡ some r
      → (on_response w s m key).core ≡ drop_request s.core key r.frontend_key
  unfolding on_response on_remote_response
  core-on_response s m key r free found =
      rw (free, on_response, found, on_remote_response) (core-send_envelope w _ r.connection_id _)

  dropped-entered :
      (c : Core j) (id f : Text) (m : Value) (upstream_id : Text) (next : ℕ)
      → lookup f c.frontend_request_keys ≡ none
      → lookup (key_of j upstream_id) c.frontend_request_owners ≡ none
      → drop_request (enter_request c id m f (upstream_id, next)) (key_of j upstream_id) f
        ≡ record c { next_frontend_request_number = next }
  unfolding enter_request drop_request
  dropped-entered c id f m upstream_id next unused free =
      ap₂
        (λ (o : Map (FrontendRequest j)) (k : Map Text). record c {
          next_frontend_request_number = next;
          frontend_request_owners = o;
          frontend_request_keys = k;
        })
        (erase-emplace (key_of j upstream_id) _ c.frontend_request_owners free)
        (erase-emplace f _ c.frontend_request_keys unused)

  -- If a frontend's request has a key that is not in use, gets a fresh id and is taken by the
  -- transport, and the app server then sends a response with that id, every member is as it was
  -- before the request, but for the running number.
  pub core-answered_request :
      (s : Bridge j) (id f : Text) (m answer : Value) (upstream_id : Text) (next : ℕ)
      → contains f s.frontend_request_keys ≡ false
      → next_frontend_request_id s.core id ≡ some (upstream_id, next)
      → (send_to_app_server w
          (with_core s (enter_request s.core id m f (upstream_id, next)))
          (j.set m (text "id") (j.string upstream_id))).1
        ≡ true
      → classify_json_rpc j answer ≡ response
      → json_rpc_id_key j answer ≡ some (key_of j upstream_id)
      → (receive_from_app_server w (send_request w s id m f (upstream_id, next)) answer).core
        ≡ record (s.core) { next_frontend_request_number = next }
  unfolding receive_from_app_server dispatch send_request enter_request
  core-answered_request s id f m answer upstream_id next unused fresh taken is_response key =
      let k = key_of j upstream_id in
      let c = enter_request s.core id m f (upstream_id, next) in
      let (free_l, free_k) = next_frontend_request_id-free s.core id upstream_id next fresh in
      let entered = with_core s c in
      let forwarded = j.set m (text "id") (j.string upstream_id) in
      let t = (send_to_app_server w entered forwarded).0 in
      let o = observe t from_app_server answer in
      let r : FrontendRequest j = record {
        connection_id = id;
        frontend_id = id_of j m;
        frontend_key = f;
      } in
      let same : o.core ≡ c =
        core-observe w t from_app_server answer ∙ core-send_to_app_server w entered forwarded in
      let free : lookup k o.local_requests ≡ none =
        ap (λ (d : Core j). lookup k d.local_requests) same ∙ free_l in
      let found : lookup k o.frontend_request_owners ≡ some r =
        ap (λ (d : Core j). lookup k d.frontend_request_owners) same
        ∙ lookup-emplaced k r s.frontend_request_owners free_k in
      rw (taken, is_response, key)
        (core-on_response o answer k r free found
          ∙ ap (λ (d : Core j). drop_request d k f) same
          ∙ dropped-entered s.core id f m upstream_id next (ground arith) free_k)
