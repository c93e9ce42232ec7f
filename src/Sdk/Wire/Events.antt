-- ===== src/Sdk/Wire/Events.antt =====
-- The frontend's CodexBridge reads what the bridge writes.
use mathlib.Core.Option
use aisuite.Common.{
  ℕ, ◌≡◌, refl, sym, ap, ap₂, ◌∙◌, inl, inr, true, false, Option, some, ◌∷◌, arith, Bool-cases,
  Text, text, text_eq, text_eq_refl, Map, lookup,
}
use aisuite.Json.{Json, JsonLaws}
use aisuite.Envelope.{
  Role, controller, observer, to_string_view, has_string, app_server_envelope, connection_event,
  controller_event,
}
use aisuite.Envelope.Laws.{find-app_server_envelope}
use aisuite.Bridge.State.{FrontendRecord, Bridge}
use aisuite.Bridge.Frontends.{is_controller}
use aisuite.Bridge.Invariant.{role_of, IsValid}
use aisuite.Bridge.Invariant.Seats.{is_controller-eq, is_controller_refl}
use aisuite.Sdk.State.{Surroundings, FrontendBridge}
use aisuite.Sdk.Receive.{
  role_named, role_under, on_opened, on_controller, update_bridge_state, on_event, on_app_server,
  receive_message,
}
use aisuite.Envelope.{
  AppServerDirection, from_app_server, response, classify_json_rpc, json_rpc_id_key, id_key,
  has_value,
}
use aisuite.Bridge.State.{Handler}
use aisuite.Bridge.Ids.{key_of}
use aisuite.Common.{erase}
use aisuite.Sdk.State.{called, watch_raw, hand_over}
use aisuite.Sdk.Receive.{dispatch_payload, on_answer}
use aisuite.Sdk.Wire.{
  string_member-of, text_member-of, has_string-of, role_named-to_string_view,
  app_server_envelope-is_object, find-connection_event, find-controller_event,
  text_member-string_or_null, other_kinds,
}

other_members :
    (text_eq (text "id") (text "method") ≡ false)
    × (text_eq (text "id") (text "result") ≡ false)
    × (text_eq (text "id") (text "error") ≡ false)
unfolding text text_eq
other_members = (refl, refl, refl)

module _ (j : Json) (laws : JsonLaws j) where
  open j use {Value, find, string}

  -- A response stays one under another id, and is found under that.
  set_id-response :
      (m : Value) (name : Text)
      → classify_json_rpc j m ≡ response
      → let n = j.set m (text "id") (string name) in
        (j.is_object n ≡ true)
        × (classify_json_rpc j n ≡ response)
        × (json_rpc_id_key j n ≡ some (key_of j name))
  unfolding classify_json_rpc has_string has_value json_rpc_id_key id_key
  set_id-response m name e =
      let o : j.is_object m ≡ true = ground arith in
      let i = text "id" in
      let other = λ (k : Text) (ne : text_eq (text "id") k ≡ false).
        laws.find-set_ne m (string name) (text "id") k o ne in
      let (ne_method, ne_result, ne_error) = other_members in
      let object = laws.is_object-set m (string name) i o in
      let self = laws.find-set_self m (string name) i o in
      (
        object,
        ground (
          arith,
          object,
          self,
          laws.is_null-string name,
          other (text "method") ne_method,
          other (text "result") ne_result,
          other (text "error") ne_error,
        ),
        ground (arith, object, self, laws.is_null-string name, laws.is_string-string name),
      )

-- The role that the leader's name gives is the role in well-formed tables.
role_under-IsValid :
    {j : Json} (b : Bridge j) (id : Text) (r : FrontendRecord) (role : Option Role)
    → IsValid b.core
    → lookup id b.frontends ≡ some r
    → role_under b.controller (some id) role ≡ some r.role
unfolding role_under
role_under-IsValid b id r role v found =
    let here : role_of b.frontends id ≡ some r.role = ap (Option.map (λ r. r.role)) found in
    elim (Bool-cases (is_controller b.controller id)) [
      | inl leads ↦
          rw leads (sym (v.roles.leads id (is_controller-eq b.controller id leads)) ∙ here)
      | inr not_led ↦ rw not_led (observed r.role refl not_led here)
    ]
  where
    observed :
        (q : Role)
        → r.role ≡ q
        → is_controller b.controller id ≡ false
        → role_of b.frontends id ≡ some r.role
        → some observer ≡ some r.role
    observed observer e f here = ap some (sym e)
    observed controller e f here =
        let leads = v.roles.only id (here ∙ ap some e) in
        absurd (ground (arith, ap (λ c. is_controller c id) leads, is_controller_refl id))

module _ {j : Json} (laws : JsonLaws j) (w : Surroundings j) where
  open j use {Value, find, string, object}

  -- A message with another kind than the app server's is an event of the bridge.
  receive-event :
      (s : FrontendBridge j) (m : Value) (kind : Text)
      → j.is_object m ≡ true
      → find m (text "kind") ≡ some (string kind)
      → text_eq kind (text "appserver") ≡ false
      → receive_message w s m ≡ (on_event s m kind, true)
  unfolding receive_message
  receive-event s m kind o k ne = rw (
    o,
    has_string-of j laws m (text "kind") kind k,
    string_member-of j laws m (text "kind") kind k,
    ne,
  )

  -- The frontend reads from an envelope the payload that it was built with.
  pub receive-app_server_envelope :
      (s : FrontendBridge j) (id : Text) (role : Role) (sequence : ℕ) (payload : Value)
      → receive_message w s (app_server_envelope j id role sequence payload)
        ≡ on_app_server w s (some payload)
  unfolding receive_message
  receive-app_server_envelope s id role sequence payload =
      let m = app_server_envelope j id role sequence payload in
      let (k, _, _, _, p) = find-app_server_envelope j laws id role sequence payload in
      rw (
        app_server_envelope-is_object j laws id role sequence payload,
        has_string-of j laws m (text "kind") (text "appserver") k,
        string_member-of j laws m (text "kind") (text "appserver") k,
        text_eq_refl (text "appserver"),
        p,
      )

  on_event-members :
      (s : FrontendBridge j) (m : Value) (kind : Text)
      → let t = update_bridge_state s m kind in
        ((on_event s m kind).connection_id ≡ t.connection_id) × ((on_event s m kind).role ≡ t.role)
  unfolding on_event
  on_event-members s m kind = (ground arith, ground arith)

  update-opened :
      (s : FrontendBridge j) (m : Value)
      → find m (text "event") ≡ some (string (text "opened"))
      → update_bridge_state s m (text "bridge.connection") ≡ on_opened s m
  unfolding update_bridge_state
  update-opened s m e = rw (
    string_member-of j laws m (text "event") (text "opened") e,
    text_eq_refl (text "bridge.connection"),
    text_eq_refl (text "opened"),
  )

  opened_id :
      (s : FrontendBridge j) (m : Value) (id : Text)
      → find m (text "connectionId") ≡ some (string id)
      → (on_opened s m).connection_id ≡ some id
  unfolding on_opened
  opened_id s m id e = rw (text_member-of j laws m (text "connectionId") id e, on_opened)

  update-controller :
      (s : FrontendBridge j) (m : Value)
      → update_bridge_state s m (text "bridge.controller") ≡ on_controller s m
  unfolding update_bridge_state
  update-controller s m = rw (other_kinds.2, text_eq_refl (text "bridge.controller"))

  -- After the bridge's opening event the frontend has the id and the role that the event names.
  pub receive-connection_event :
      (s : FrontendBridge j) (id : Text) (role : Role) (sequence : ℕ)
      → let t = (receive_message w s (connection_event j (text "opened") id role sequence)).0 in
        (t.connection_id ≡ some id) × (t.role ≡ some role)
  unfolding on_opened role_named
  receive-connection_event s id role sequence =
      let m = connection_event j (text "opened") id role sequence in
      let (o, k, e, c, r) = find-connection_event j laws (text "opened") id role sequence in
      let kind = text "bridge.connection" in
      let opened : update_bridge_state s m kind ≡ on_opened s m = update-opened s m e in
      let (same_id, same_role) = on_event-members s m kind in
      rw (receive-event s m kind o k other_kinds.0) (
        same_id ∙ ap (λ (t : FrontendBridge j). t.connection_id) opened ∙ opened_id s m id c,
        same_role
            ∙ ap (λ (t : FrontendBridge j). t.role) opened
            ∙ ap role_named (string_member-of j laws m (text "role") (to_string_view role) r)
            ∙ role_named-to_string_view j laws role,
      )

  -- If the bridge's tables are well formed and the frontend has the id of a frontend that is
  -- registered there, then after the bridge's controller event the frontend takes for its role the
  -- one that the bridge has for it.
  pub receive-controller_event :
      (b : Bridge j) (s : FrontendBridge j) (id : Text) (r : FrontendRecord) (sequence : ℕ)
      → IsValid b.core
      → lookup id b.frontends ≡ some r
      → s.connection_id ≡ some id
      → (receive_message w s (controller_event j b.controller sequence)).0.role ≡ some r.role
  unfolding on_controller
  receive-controller_event b s id r sequence v found named =
      let m = controller_event j b.controller sequence in
      let (o, k, c) = find-controller_event j laws b.controller sequence in
      let kind = text "bridge.controller" in
      let leader =
        text_member-string_or_null j laws m (text "controllerConnectionId") b.controller c in
      rw (receive-event s m kind o k other_kinds.1) (
        (on_event-members s m kind).1
        ∙ ap (λ (t : FrontendBridge j). t.role) (update-controller s m)
        ∙ ap₂ (λ l i. role_under l i s.role) leader named
        ∙ role_under-IsValid b id r s.role v found)

  pending-watch_raw :
      (s : FrontendBridge j) (d : AppServerDirection) (m : Value)
      → (watch_raw s d m).pending ≡ s.pending
  unfolding watch_raw
  pending-watch_raw s d m = ground arith

  answered :
      (s : FrontendBridge j) (m : Value) (key : Text) (h : ℕ) {p : Map Handler}
      → lookup key s.pending ≡ some (some h)
      → s.pending ≡ p
      → ((on_answer s m key).pending ≡ erase key p)
        × ((on_answer s m key).trace ≡ called h m ∷ s.trace)
  unfolding on_answer hand_over
  answered s m key h found same = rw (found, on_answer) (ap (erase key) same, refl)

  -- If a request with this id waits, and a response comes in an envelope under it, whatever id the
  -- response had before the bridge put this one in, then its handler gets the response and it
  -- waits no more.
  pub receive-answer :
      (s : FrontendBridge j) (id : Text) (role : Role) (sequence : ℕ) (answer : Value) (name : Text)
      (h : ℕ)
      → classify_json_rpc j answer ≡ response
      → lookup (key_of j name) s.pending ≡ some (some h)
      → let payload = j.set answer (text "id") (string name) in
        let t = (receive_message w s (app_server_envelope j id role sequence payload)).0 in
        (t.pending ≡ erase (key_of j name) s.pending)
        × (t.trace ≡ called h payload ∷ (watch_raw s from_app_server payload).trace)
  unfolding on_app_server dispatch_payload
  receive-answer s id role sequence answer name h is_response waits =
      let payload = j.set answer (text "id") (string name) in
      let o = watch_raw s from_app_server payload in
      let (object, kind, key) = set_id-response j laws answer name is_response in
      let same : o.pending ≡ s.pending = pending-watch_raw s from_app_server payload in
      let found : lookup (key_of j name) o.pending ≡ some (some h) =
        ap (lookup (key_of j name)) same ∙ waits in
      rw (receive-app_server_envelope s id role sequence payload, object, kind, key)
        (answered o payload (key_of j name) h found same)
