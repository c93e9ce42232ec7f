-- ===== src/Sdk/Request.antt =====
-- The frontend's CodexBridge: its own requests.
use aisuite.Common.{
  ℕ, ◌+◌, ◌%◌, ◌^◌, not, ◌||◌, Option, none, some, is_some, [], ◌∷◌, ◌++◌, if◌then◌else◌, Text,
  text, to_string, lookup, assign, erase, ℤ, negsuc,
}
use aisuite.Json.{Json}
use aisuite.Envelope.{json_rpc_error}
use aisuite.Bridge.State.{Handler}
use aisuite.Bridge.Ids.{key_of}
use aisuite.Sdk.State.{Surroundings, FrontendBridge, hand_over}
use aisuite.Sdk.Send.{add_params, send_app_server_message}
use aisuite.Sdk.Receive.{provider_unavailable, transport_lost}

abbrev pub not_connected : ℤ
not_connected = negsuc 32020

unfoldable pub request_prefix : Option Text → Text
request_prefix none = text "unconnected-frontend"
request_prefix (some id) = id

unfoldable pub request_name : Option Text → ℕ → Text
request_name connection_id n = request_prefix connection_id ++ (text "-request-" ++ to_string n)

module _ (j : Json) where
  open j use {Value, string, object}

  unfoldable pub request_message : Text → Text → Option Value → Value
  request_message id method params =
      let message = object (
        (text "jsonrpc", string (text "2.0"))
        ∷ (text "id", string id)
        ∷ (text "method", string method)
        ∷ []) in
      add_params j message params

module _ {j : Json} where
  open j use {Value, null, string, object}

  -- `nextRequestId`: the id, and the number moved on.
  unfoldable pub next_request_id : FrontendBridge j → FrontendBridge j × Text
  next_request_id s = (
    record s { next_request_number = (s.next_request_number + 1) % 2 ^ 64 },
    request_name s.connection_id s.next_request_number,
  )

  -- A request that cannot be sent is answered at once.
  unfoldable pub answer_locally : FrontendBridge j → Handler → Text → FrontendBridge j
  answer_locally s h id =
      let connected = is_some s.connection_id in
      let code = if connected then provider_unavailable else not_connected in
      let reason =
        if connected
        then text "app-server provider is not ready"
        else text "frontend bridge connection is not established" in
      hand_over s h (json_rpc_error j (string id) code reason null)

  -- The entry is looked up again before its handler is told that the send failed.
  unfoldable pub fail_send : FrontendBridge j → Text → FrontendBridge j
  fail_send s id = elim (lookup (key_of j id) s.pending) [
    | none ↦ s
    | some h ↦
        hand_over (record s { pending = erase (key_of j id) s.pending }) h
          (json_rpc_error j (string id) transport_lost
            (text "frontend bridge transport rejected request") null)
  ]

module _ {j : Json} (w : Surroundings j) where
  open j use {Value}

  unfoldable pub send_pending : FrontendBridge j → Text → Value → Handler → FrontendBridge j
  send_pending s id message h =
      let entered : FrontendBridge j = record s { pending = assign (key_of j id) h s.pending } in
      let (t, taken) = send_app_server_message w entered message in
      if taken then t else fail_send t id

  unfoldable pub ask : FrontendBridge j → Text → Option Value → Handler → FrontendBridge j × Text
  ask s method params h =
      let (t, id) = next_request_id s in
      if not (is_some t.connection_id) || not t.provider_ready
      then (answer_locally t h id, id)
      else (send_pending t id (request_message j id method params) h, id)
