-- ===== src/Bridge/Control.antt =====
-- CodexBridge: controller commands, and the dispatch of what a frontend sends.
use aisuite.Common.{
  not, Option, none, some, [], ◌∷◌, if◌then◌else◌, is_some, Text, text, text_eq, contains,
}
use aisuite.Json.{Json}
use aisuite.Envelope.{has_string, string_or_null}
use aisuite.Bridge.State.{World, Bridge}
use aisuite.Bridge.Io.{reject, emit_diagnostic}
use aisuite.Bridge.Frontends.{is_controller, set_controller}
use aisuite.Bridge.Forward.{invalid_request, string_member, handle_app_server_envelope}

module _ {j : Json} (w : World j) where
  open j use {Value, is_object, object, string}

  unfoldable pub claim : Bridge j → Text → Option (Bridge j)
  claim s connection_id =
      if not (is_some s.controller)
      then set_controller w s (some connection_id)
      else if is_controller s.controller connection_id
      then set_controller w s (some connection_id)
      else some (
          emit_diagnostic w s (text "controller-claim-rejected")
            (text "another frontend is already controller") (some connection_id)
            (object ((text "controllerConnectionId", string_or_null j s.controller) ∷ [])))

  unfoldable pub release : Bridge j → Text → Option (Bridge j)
  release s connection_id =
      if is_controller s.controller connection_id
      then set_controller w s none
      else some (
          emit_diagnostic w s (text "controller-release-rejected")
            (text "frontend is not the controller") (some connection_id) (object []))

  unfoldable pub transfer : Bridge j → Text → Text → Option (Bridge j)
  transfer s connection_id target =
      if not (is_controller s.controller connection_id)
      then some (
          emit_diagnostic w s (text "controller-transfer-rejected")
            (text "only the controller may transfer control") (some connection_id) (object []))
      else if not (contains target s.frontends)
      then some (
          emit_diagnostic w s (text "controller-transfer-rejected")
            (text "target frontend does not exist") (some connection_id)
            (object ((text "targetConnectionId", string target) ∷ [])))
      else set_controller w s (some target)

  -- `none` stands for an exception of `frontends_.at`.
  unfoldable pub handle_controller_command : Bridge j → Text → Value → Option (Bridge j)
  handle_controller_command s connection_id message =
      let action = string_member j message (text "action") in
      if text_eq action (text "claim")
      then claim s connection_id
      else if text_eq action (text "release")
      then release s connection_id
      else if text_eq action (text "transfer")
      then transfer s connection_id (string_member j message (text "targetConnectionId"))
      else some (
          emit_diagnostic w s (text "controller-command-invalid")
            (text "controller command requires claim, release, or transfer action")
            (some connection_id) (object []))

  unfoldable pub receive_from_frontend : Bridge j → Text → Value → Option (Bridge j)
  receive_from_frontend s connection_id message =
      let kind = string_member j message (text "kind") in
      if not (contains connection_id s.frontends)
      then some s
      else if not (is_object message)
      then some (
          reject w s connection_id (object []) invalid_request
            (text "bridge message must be an object with a string kind"))
      else if not (has_string j message (text "kind"))
      then some (
          reject w s connection_id (object []) invalid_request
            (text "bridge message must be an object with a string kind"))
      else if text_eq kind (text "appserver")
      then handle_app_server_envelope w s connection_id message
      else if text_eq kind (text "bridge.controller")
      then handle_controller_command s connection_id message
      else some (
          reject w s connection_id (object []) invalid_request
            (text "unsupported bridge message kind"))
