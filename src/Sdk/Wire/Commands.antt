-- ===== src/Sdk/Wire/Commands.antt =====
-- The bridge reads what the frontend's CodexBridge writes.
use aisuite.Common.{
  ◌≡◌, refl, ◌∙◌, true, false, some, [], ◌∷◌, Text, text, text_eq, text_eq_refl, lookup, contains,
}
use aisuite.Json.{Json, JsonLaws}
use aisuite.Envelope.{classify_strict_json_rpc}
use aisuite.Bridge.State.{World, Bridge}
use aisuite.Bridge.Forward.{on_payload, handle_app_server_envelope}
use aisuite.Bridge.Control.{
  claim, release, transfer, handle_controller_command, receive_from_frontend,
}
use aisuite.Sdk.Send.{outbound, controller_command}
use aisuite.Sdk.Wire.{string_member-of, has_string-of, other_kinds}

module _ {j : Json} (laws : JsonLaws j) (w : World j) where
  open j use {Value, find, string, object}

  find-outbound :
      (m : Value)
      → let o = outbound j m in
        (j.is_object o ≡ true)
        × (find o (text "kind") ≡ some (string (text "appserver")))
        × (find o (text "payload") ≡ some m)
  unfolding outbound text text_eq lookup
  find-outbound m = (laws.is_object-object _, laws.find-object _ _, laws.find-object _ _)

  find-transfer :
      (target : Text)
      → let o =
          controller_command j
            (text "transfer")
            ((text "targetConnectionId", string target) ∷ []) in
        (j.is_object o ≡ true)
        × (find o (text "kind") ≡ some (string (text "bridge.controller")))
        × (find o (text "action") ≡ some (string (text "transfer")))
        × (find o (text "targetConnectionId") ≡ some (string target))
  unfolding controller_command text text_eq lookup
  find-transfer target =
      (laws.is_object-object _, laws.find-object _ _, laws.find-object _ _, laws.find-object _ _)

  find-command :
      (action : Text)
      → let o = controller_command j action [] in
        (j.is_object o ≡ true)
        × (find o (text "kind") ≡ some (string (text "bridge.controller")))
        × (find o (text "action") ≡ some (string action))
  unfolding controller_command text text_eq lookup
  find-command action = (laws.is_object-object _, laws.find-object _ _, laws.find-object _ _)

  other_actions :
      (text_eq (text "release") (text "claim") ≡ false)
      × (text_eq (text "transfer") (text "claim") ≡ false)
      × (text_eq (text "transfer") (text "release") ≡ false)
  unfolding text text_eq
  other_actions = (refl, refl, refl)

  -- The bridge hears a command as one.
  receive-command :
      (b : Bridge j) (id : Text) (m : Value)
      → contains id b.frontends ≡ true
      → j.is_object m ≡ true
      → find m (text "kind") ≡ some (string (text "bridge.controller"))
      → receive_from_frontend w b id m ≡ handle_controller_command w b id m
  unfolding receive_from_frontend
  receive-command b id m here o k = rw (
    here,
    o,
    has_string-of j laws m (text "kind") (text "bridge.controller") k,
    string_member-of j laws m (text "kind") (text "bridge.controller") k,
    other_kinds.1,
    text_eq_refl (text "bridge.controller"),
  )

  receive-outbound :
      (b : Bridge j) (id : Text) (m : Value)
      → contains id b.frontends ≡ true
      → receive_from_frontend w b id (outbound j m)
        ≡ on_payload w b id m (classify_strict_json_rpc j m)
  unfolding receive_from_frontend handle_app_server_envelope
  receive-outbound b id m here =
      let (o, k, p) = find-outbound m in
      let envelope = outbound j m in
      rw (
        here,
        o,
        has_string-of j laws envelope (text "kind") (text "appserver") k,
        string_member-of j laws envelope (text "kind") (text "appserver") k,
        text_eq_refl (text "appserver"),
        p,
        handle_app_server_envelope,
      )

  receive-claim :
      (b : Bridge j) (id : Text)
      → contains id b.frontends ≡ true
      → receive_from_frontend w b id (controller_command j (text "claim") []) ≡ claim w b id
  unfolding handle_controller_command
  receive-claim b id here =
      let m = controller_command j (text "claim") [] in
      let (o, k, a) = find-command (text "claim") in
      receive-command b id m here o k
      ∙ rw (string_member-of j laws m (text "action") (text "claim") a, text_eq_refl (text "claim"))

  receive-release :
      (b : Bridge j) (id : Text)
      → contains id b.frontends ≡ true
      → receive_from_frontend w b id (controller_command j (text "release") []) ≡ release w b id
  unfolding handle_controller_command
  receive-release b id here =
      let m = controller_command j (text "release") [] in
      let (o, k, a) = find-command (text "release") in
      receive-command b id m here o k
      ∙ rw (
        string_member-of j laws m (text "action") (text "release") a,
        other_actions.0,
        text_eq_refl (text "release"),
      )

  receive-transfer :
      (b : Bridge j) (id target : Text)
      → contains id b.frontends ≡ true
      → receive_from_frontend w b id
          (controller_command j (text "transfer") ((text "targetConnectionId", string target) ∷ []))
        ≡ transfer w b id target
  unfolding handle_controller_command
  receive-transfer b id target here =
      let m =
        controller_command j (text "transfer") ((text "targetConnectionId", string target) ∷ []) in
      let (o, k, a, t) = find-transfer target in
      receive-command b id m here o k
      ∙ rw (
        string_member-of j laws m (text "action") (text "transfer") a,
        other_actions.1,
        other_actions.2,
        text_eq_refl (text "transfer"),
        string_member-of j laws m (text "targetConnectionId") target t,
      )

  -- What the frontend's CodexBridge writes, the bridge reads, for a frontend that is registered: the
  -- payload of a message for the app server, and the three commands about the controller.
  pub receive_from_frontend-outbound :
      (b : Bridge j) (id : Text) (m : Value) (target : Text)
      → contains id b.frontends ≡ true
      → (receive_from_frontend w b id (outbound j m)
          ≡ on_payload w b id m (classify_strict_json_rpc j m))
        × (receive_from_frontend w b id (controller_command j (text "claim") []) ≡ claim w b id)
        × (receive_from_frontend w b id (controller_command j (text "release") []) ≡ release w b id)
        × (receive_from_frontend w b id (
              controller_command j
                (text "transfer")
                ((text "targetConnectionId", string target) ∷ []))
            ≡ transfer w b id target)
  receive_from_frontend-outbound b id m target here = (
    receive-outbound b id m here,
    receive-claim b id here,
    receive-release b id here,
    receive-transfer b id target here,
  )
