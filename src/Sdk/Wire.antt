-- ===== src/Sdk/Wire.antt =====
-- The frontend's CodexBridge and the bridge: what the one writes and the other reads.
pub mod Events
pub mod Commands
use mathlib.Core.Option
use aisuite.Common.{
  ℕ, ◌^◌, ◌≤◌, ◌<◌, ◌≡◌, ◌≢◌, refl, sym, ap, ap₂, ◌∙◌, inl, inr, Bool, true, false, not, Option,
  none, some, is_some, [], ◌∷◌, arith, if◌then◌else◌, Bool-cases, ltb, Text, text, text_eq,
  text_eq_iff, text_eq_refl, Map, lookup, contains, is_empty,
}
use aisuite.Json.{Json, JsonLaws}
use aisuite.Envelope.{
  Role, controller, observer, to_string_view, has_string, classify_strict_json_rpc,
  app_server_envelope, connection_event, controller_event, string_or_null,
}
use aisuite.Envelope.Laws.{find-app_server_envelope}
use aisuite.Bridge.State.{FrontendRecord, World, Bridge}
use aisuite.Bridge.Frontends.{is_controller}
use aisuite.Bridge.Forward.{string_member, on_payload, handle_app_server_envelope}
use aisuite.Bridge.Control.{
  claim, release, transfer, handle_controller_command, receive_from_frontend,
}
use aisuite.Bridge.Invariant.{role_of, IsValid}
use aisuite.Bridge.Invariant.Seats.{is_controller-eq, is_controller_refl}
use aisuite.Sdk.State.{Surroundings, FrontendBridge}
use aisuite.Sdk.Send.{outbound, controller_command}
use aisuite.Sdk.Receive.{
  role_named, text_member, role_under, on_opened, on_controller, update_bridge_state, on_event,
  on_app_server, receive_message,
}

module _ (j : Json) (laws : JsonLaws j) where
  open j use {Value, find, string, object}

  pub string_member-of :
      (m : Value) (k s : Text) → find m k ≡ some (string s) → string_member j m k ≡ s
  unfolding string_member
  string_member-of m k s e =
      rw (e, string_member, laws.is_string-string s) (laws.get_string-string s)

  pub text_member-of :
      (m : Value) (k s : Text) → find m k ≡ some (string s) → text_member j m k ≡ some s
  unfolding text_member
  text_member-of m k s e =
      rw (e, text_member, laws.is_string-string s) (ap some (laws.get_string-string s))

  pub has_string-of :
      (m : Value) (k s : Text) → find m k ≡ some (string s) → has_string j m k ≡ true
  unfolding has_string
  has_string-of m k s e = rw (e, has_string) (laws.is_string-string s)

  pub role_named-to_string_view : (r : Role) → role_named (to_string_view r) ≡ some r
  unfolding role_named to_string_view text text_eq
  role_named-to_string_view controller = refl
  role_named-to_string_view observer = refl

  pub app_server_envelope-is_object :
      (id : Text) (role : Role) (sequence : ℕ) (payload : Value)
      → j.is_object (app_server_envelope j id role sequence payload) ≡ true
  unfolding app_server_envelope
  app_server_envelope-is_object id role sequence payload = laws.is_object-object _

  pub find-connection_event :
      (event id : Text) (role : Role) (sequence : ℕ)
      → let m = connection_event j event id role sequence in
        (j.is_object m ≡ true)
        × (find m (text "kind") ≡ some (string (text "bridge.connection")))
        × (find m (text "event") ≡ some (string event))
        × (find m (text "connectionId") ≡ some (string id))
        × (find m (text "role") ≡ some (string (to_string_view role)))
  unfolding connection_event text text_eq lookup
  find-connection_event event id role sequence = (
    laws.is_object-object _,
    laws.find-object _ _,
    laws.find-object _ _,
    laws.find-object _ _,
    laws.find-object _ _,
  )

  pub find-controller_event :
      (leader : Option Text) (sequence : ℕ)
      → let m = controller_event j leader sequence in
        (j.is_object m ≡ true)
        × (find m (text "kind") ≡ some (string (text "bridge.controller")))
        × (find m (text "controllerConnectionId") ≡ some (string_or_null j leader))
  unfolding controller_event text text_eq lookup
  find-controller_event leader sequence =
      let fields =
        (text "kind", string (text "bridge.controller")) ∷ (text "seq", j.unsigned sequence) ∷ [] in
      let o = laws.is_object-object fields in
      let k = text "controllerConnectionId" in
      (
        laws.is_object-set _ (string_or_null j leader) k o,
        laws.find-set_ne _ (string_or_null j leader) k (text "kind") o refl
            ∙ laws.find-object fields (text "kind"),
        laws.find-set_self _ (string_or_null j leader) k o,
      )

  pub text_member-string_or_null :
      (m : Value) (k : Text) (leader : Option Text)
      → find m k ≡ some (string_or_null j leader)
      → text_member j m k ≡ leader
  unfolding string_or_null text_member
  text_member-string_or_null m k none e = rw (e, text_member, laws.is_string-null)
  text_member-string_or_null m k (some id) e = text_member-of m k id e

pub other_kinds :
    (text_eq (text "bridge.connection") (text "appserver") ≡ false)
    × (text_eq (text "bridge.controller") (text "appserver") ≡ false)
    × (text_eq (text "bridge.controller") (text "bridge.connection") ≡ false)
unfolding text text_eq
other_kinds = (refl, refl, refl)
