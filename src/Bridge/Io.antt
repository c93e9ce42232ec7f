-- ===== src/Bridge/Io.antt =====
-- CodexBridge: what it sends, and the calls of its handlers.
use aisuite.Common.{
  ℕ, Bool, true, false, not, Option, none, some, List, [], ◌∷◌, ◌==◌, if◌then◌else◌, Text, text,
  lookup, keys, ℤ,
}
use aisuite.Json.{Json}
use aisuite.Envelope.{
  AppServerDirection, to_app_server, has_value, app_server_envelope, controller_event,
  diagnostic_event, json_rpc_error,
}
use aisuite.Bridge.State.{
  Handler, FrontendRecord, sent, dropped, closed, forwarded, refused, observed, called, lifecycle,
  World, Bridge, emit, next_sequence,
}

module _ (j : Json) where
  open j use {Value, find, null}

  -- `payload["id"]`.
  unfoldable pub id_of : Value → Value
  id_of payload = elim (find payload (text "id")) [ none ↦ null | some id ↦ id ]

module _ {j : Json} where
  open j use {Value}

  -- The raw handler; what it throws is logged and dropped.
  unfoldable pub observe : Bridge j → AppServerDirection → Value → Bridge j
  observe s direction message = elim s.raw_handler [
    | none ↦ s
    | some h ↦ emit s (observed h direction message)
  ]

  -- A local callback, if it is not empty; what it throws is logged and dropped.
  unfoldable pub call : Bridge j → Handler → Value → Bridge j
  call s none message = s
  call s (some h) message = emit s (called h message)

  unfoldable pub run_lifecycle : Bridge j → Bool → Bridge j
  run_lifecycle s up = elim s.lifecycle_handler [ none ↦ s | some h ↦ emit s (lifecycle h up) ]

module _ {j : Json} (w : World j) where
  open j use {Value, is_object, null, object, integer}

  -- `retained`: the record is looked up again before the endpoint is closed.
  unfoldable pub close_rejected : Bridge j → Text → ℕ → Bridge j
  close_rejected s connection_id endpoint = elim (lookup connection_id s.frontends) [
    | none ↦ s
    | some r ↦ if r.endpoint == endpoint then emit s (closed endpoint) else s
  ]

  unfoldable pub send_to : Bridge j → Text → Value → Bridge j
  send_to s connection_id message = elim (lookup connection_id s.frontends) [
    | none ↦ s
    | some r ↦
        if w.accepts s.trace r.endpoint message
        then emit s (sent r.endpoint connection_id message)
        else close_rejected (emit s (dropped r.endpoint connection_id message)) connection_id
            r.endpoint
  ]

  unfoldable pub send_each : Bridge j → List Text → Value → Bridge j
  send_each s [] message = s
  send_each s (id ∷ ids) message = send_each (send_to s id message) ids message

  unfoldable pub broadcast : Bridge j → Value → Bridge j
  broadcast s message = send_each s (keys s.frontends) message

  unfoldable pub broadcast_controller : Bridge j → Bridge j
  broadcast_controller s =
      let t = next_sequence s in broadcast t (controller_event j s.controller t.sequence)

  unfoldable pub emit_diagnostic : Bridge j → Text → Text → Option Text → Value → Bridge j
  emit_diagnostic s code message connection_id details =
      let t = next_sequence s in
      let event = diagnostic_event j code message connection_id t.sequence details in
      elim connection_id [ none ↦ broadcast t event | some id ↦ send_to t id event ]

  -- `appServer_ != nullptr && appServer_->isConnected()`.
  unfoldable pub is_app_server_connected : Bridge j → Bool
  is_app_server_connected s = elim s.app_server [ none ↦ false | some e ↦ w.is_connected s.trace e ]

  unfoldable pub send_to_app_server : Bridge j → Value → Bridge j × Bool
  send_to_app_server s message = elim s.app_server [
    | none ↦ (s, false)
    | some e ↦
        if not (w.is_connected s.trace e)
        then (s, false)
        else if not (w.takes s.trace e message)
        then (emit s (refused e message), false)
        else (observe (emit s (forwarded e message)) to_app_server message, true)
  ]

  -- A message of the app server for one frontend, if that is still there.
  unfoldable pub send_envelope : Bridge j → Text → Value → Bridge j
  send_envelope s connection_id payload = elim (lookup connection_id s.frontends) [
    | none ↦ s
    | some r ↦
        let t = next_sequence s in
        send_to t connection_id (app_server_envelope j connection_id r.role t.sequence payload)
  ]

  unfoldable pub reject_diagnostic : Bridge j → Text → ℤ → Text → Bridge j
  reject_diagnostic s connection_id code reason =
      emit_diagnostic s (text "frontend-message-rejected") reason (some connection_id)
        (object ((text "errorCode", integer code) ∷ []))

  unfoldable pub reject_to : Bridge j → Text → FrontendRecord → Value → ℤ → Text → Bridge j
  reject_to s connection_id r payload code reason =
      let t = next_sequence s in
      send_to t connection_id (
        app_server_envelope j connection_id r.role t.sequence
          (json_rpc_error j (id_of j payload) code reason null))

  unfoldable pub reject : Bridge j → Text → Value → ℤ → Text → Bridge j
  reject s connection_id payload code reason =
      if not (is_object payload)
      then reject_diagnostic s connection_id code reason
      else if not (has_value j payload (text "id"))
      then reject_diagnostic s connection_id code reason
      else elim (lookup connection_id s.frontends) [
        | none ↦ reject_diagnostic s connection_id code reason
        | some r ↦ reject_to s connection_id r payload code reason
      ]
