-- ===== src/Tests/Bridging.antt =====
-- The theorems on CodexBridge at concrete inputs.
use aisuite.Common.{
  emplace, to_string, ◌+◌, ◌^◌, ◌<◌, ◌≡◌, refl, ap, true, false, none, some, is_some, [], ◌∷◌,
  arith, Text, text, text_eq, lookup, contains,
}
use aisuite.Envelope.{
  controller, observer, request, response, classify_json_rpc, has_string, has_value, differ,
  json_rpc_id_key, id_key, json_rpc_method, method_text,
}
use aisuite.Bridge.State.{Options, frontend, Core, Bridge, new_core, new, with_core}
use aisuite.Bridge.Io.{send_to_app_server}
use aisuite.Bridge.Frontends.{
  connection_name, is_frontend, becomes_controller, newcomer, admit, register_frontend,
  unregister_frontend,
}
use aisuite.Bridge.Ids.{
  fresh, key_of, is_outstanding, local_id, remote_id, next_local_request_id,
  next_frontend_request_id,
}
use aisuite.Bridge.Ids.Fresh.{
  next_frontend_request_id-total, next_local_request_id-total, next_frontend_request_id-free,
}
use aisuite.Bridge.ReadOnly.{observer_method_is_read_only, is_among}
use aisuite.Bridge.Forward.{
  is_request, reads_only, role_may_forward, may_forward, owns, on_frontend_response, enter_request,
  send_request, forward,
}
use aisuite.Bridge.Control.{receive_from_frontend}
use aisuite.Bridge.Local.{send_raw_json}
use aisuite.Bridge.Provider.{receive_from_app_server}
use aisuite.Bridge.Lifecycle.{app_server_disconnected}
use aisuite.Bridge.Quiet.{core-greet}
use aisuite.Bridge.Routing.{
  upstream, forward-refused, on_frontend_response-refused, core-answered_request,
}
use aisuite.Bridge.Invariant.{role_of, IsValid}
use aisuite.Bridge.Invariant.Arrivals.{admit-IsValid, register_frontend-IsValid}
use aisuite.Bridge.Invariant.Messages.{AllValid, receive_from_frontend-AllValid}
use aisuite.Bridge.Invariant.Progress.{receive_from_frontend-total}
use aisuite.Bridge.Invariant.Traffic.{receive_from_app_server-IsValid}
use aisuite.Bridge.Invariant.Transport.{
  cleared, core-app_server_disconnected, send_raw_json-IsValid,
}
use aisuite.Bridge.Invariant.Histories.{
  Reaches, registers, unregisters, here, then, new-IsValid, reached-IsValid,
}
use aisuite.Tests.Toy.{Value, nothing, chars, number, members, end, field, toy, toy_laws, calm}

abbrev pub options : Options
options = record {
  first_frontend_becomes_controller = true;
  observers_may_read = true;
  maximum_frontends = 4;
}

abbrev first : Text
first = b'f' ∷ []

abbrev second : Text
second = b's' ∷ []

-- Two frontends, the first of which is the controller, and a request that waits for its answer.
abbrev desk : Bridge toy
desk = record {
  core = record {
    options = options;
    app_server = some 9;
    raw_handler = some 1;
    lifecycle_handler = none;
    frontends =
        (first, record { endpoint = 7; role = controller })
        ∷ (second, record { endpoint = 8; role = observer })
        ∷ [];
    controller = some first;
    frontend_request_owners = [];
    frontend_request_keys = [];
    local_requests = [];
    app_server_request_owners =
        (b'0' ∷ [], record { kind = frontend; frontend_connection_id = first; id = number 4 }) ∷ [];
    server_request_handlers = [];
    server_notification_handlers = [];
    next_connection_number = 3;
    next_local_request_number = 1;
    next_frontend_request_number = 1;
    provider_generation = 1;
    app_server_ready = true;
  };
  sequence = 5;
  trace = [];
}

abbrev envelope : Value → Value
envelope m = members (field (text "kind") (chars (text "appserver")) (field (text "payload") m end))

abbrev asks : Text → Value
asks method = members (
    field (text "jsonrpc") (chars (text "2.0"))
      (field (text "id") (number 4) (field (text "method") (chars method) end)))

abbrev approval : Value
approval = members (
    field (text "jsonrpc") (chars (text "2.0"))
      (field (text "id") (number 4) (field (text "result") nothing end)))

abbrev pub started : Bridge toy
started = (register_frontend calm (new options) 7).0

numbers : (new {j = toy} options).next_connection_number + 1 < 2 ^ 64
unfolding new new_core
numbers = omega arith

fresh_start : IsValid (new {j = toy} options).core
unfolding new
fresh_start = new-IsValid calm options

pub started-IsValid : IsValid started.core
started-IsValid = register_frontend-IsValid calm (new options) 7 numbers fresh_start

abbrev history : Reaches calm (new options) (unregister_frontend calm started (connection_name 1))
history = then (registers 7 numbers) (then (unregisters (connection_name 1)) here)

reached-IsValid_example : IsValid (unregister_frontend calm started (connection_name 1)).core
reached-IsValid_example =
    reached-IsValid calm options (unregister_frontend calm started (connection_name 1)) history

receive_from_frontend-AllValid_example :
    AllValid
      (receive_from_frontend calm started (connection_name 1) (envelope (asks (text "model/list"))))
receive_from_frontend-AllValid_example =
    receive_from_frontend-AllValid calm started (connection_name 1)
      (envelope (asks (text "model/list"))) started-IsValid

receive_from_app_server-IsValid_example :
    IsValid (receive_from_app_server calm started (asks (text "approve"))).core
receive_from_app_server-IsValid_example =
    receive_from_app_server-IsValid calm started (asks (text "approve")) started-IsValid

send_raw_json-IsValid_example : IsValid (send_raw_json calm started (asks (text "a"))).0.core
send_raw_json-IsValid_example = send_raw_json-IsValid calm started (asks (text "a")) started-IsValid

receive_from_frontend-total_example :
    is_some (receive_from_frontend calm desk first (envelope (asks (text "model/list")))) ≡ true
receive_from_frontend-total_example =
    receive_from_frontend-total calm toy_laws desk first (envelope (asks (text "model/list")))
      (omega arith) (omega arith)

next_frontend_request_id-total_example : is_some (next_frontend_request_id desk.core first) ≡ true
next_frontend_request_id-total_example =
    next_frontend_request_id-total toy_laws desk.core first (omega arith) (omega arith)

next_local_request_id-total_example : is_some (next_local_request_id desk.core) ≡ true
next_local_request_id-total_example =
    next_local_request_id-total toy_laws desk.core (omega arith) (omega arith)

abbrev upstream_id : Text
upstream_id = remote_id desk.core first 1

upstream_id-next : next_frontend_request_id desk.core first ≡ some (upstream_id, 2)
unfolding next_frontend_request_id fresh is_outstanding lookup
upstream_id-next = refl

next_frontend_request_id-free_example :
    (lookup (key_of toy upstream_id) desk.local_requests ≡ none)
    × (lookup (key_of toy upstream_id) desk.frontend_request_owners ≡ none)
next_frontend_request_id-free_example =
    next_frontend_request_id-free desk.core first upstream_id 2 upstream_id-next

abbrev admitted : Bridge toy
admitted = with_core (new options) (admit (new_core options) 7)

admitted-IsValid : IsValid admitted.core
unfolding new
admitted-IsValid = admit-IsValid (new_core options) 7 numbers fresh_start

local_id-next : next_local_request_id admitted.core ≡ some (local_id admitted.core 1, 2)
unfolding next_local_request_id fresh is_outstanding lookup admit new_core
local_id-next = refl

core-app_server_disconnected_example :
    (app_server_disconnected calm desk (text "gone")).core ≡ cleared desk.core
core-app_server_disconnected_example = core-app_server_disconnected calm desk (text "gone")

writes : may_forward desk.core second (asks (text "turn/start")) ≡ false
unfolding may_forward lookup text_eq role_may_forward is_request classify_json_rpc has_string
    has_value reads_only json_rpc_method method_text observer_method_is_read_only is_among text
writes = refl

forward-refused_example :
    (t : Bridge toy) × (forward calm desk second (asks (text "turn/start")) request ≡ some t)
    × (t.core ≡ desk.core)
    × (upstream t.trace ≡ upstream desk.trace)
forward-refused_example = forward-refused calm desk second (asks (text "turn/start")) request writes

not_owed : owns second (lookup (b'0' ∷ []) desk.app_server_request_owners) ≡ false
unfolding owns lookup text_eq is_frontend
not_owed = refl

on_frontend_response-refused_example :
    ((on_frontend_response calm desk second approval (some (b'0' ∷ []))).core ≡ desk.core)
    × (upstream (on_frontend_response calm desk second approval (some (b'0' ∷ []))).trace
        ≡ upstream desk.trace)
on_frontend_response-refused_example =
    on_frontend_response-refused calm desk second approval (b'0' ∷ []) not_owed

abbrev reply : Value
reply = members (field (text "id") (chars upstream_id) (field (text "result") nothing end))

unused : contains first desk.frontend_request_keys ≡ false
unfolding lookup
unused = refl

taken :
    (send_to_app_server calm
      (with_core desk
        (enter_request desk.core first (asks (text "model/list")) first (upstream_id, 2)))
      (toy.set (asks (text "model/list")) (text "id") (chars upstream_id))).1
    ≡ true
unfolding send_to_app_server enter_request
taken = refl

reply_response : classify_json_rpc toy reply ≡ response
unfolding classify_json_rpc has_string has_value differ text text_eq
reply_response = refl

reply_key : json_rpc_id_key toy reply ≡ some (key_of toy upstream_id)
unfolding json_rpc_id_key id_key text text_eq
reply_key = refl

core-answered_request_example :
    (receive_from_app_server calm
      (send_request calm desk first (asks (text "model/list")) first (upstream_id, 2))
      reply).core
    ≡ record (desk.core) { next_frontend_request_number = 2 }
core-answered_request_example =
    core-answered_request calm desk first first (asks (text "model/list")) reply upstream_id 2
      unused upstream_id-next taken reply_response reply_key

first_leads : role_of started.frontends (connection_name 1) ≡ some controller
unfolding register_frontend new new_core admit newcomer becomes_controller connection_name lookup
    text_eq text emplace to_string
first_leads =
    ap (λ (c : Core toy). role_of c.frontends (connection_name 1))
      (core-greet calm (with_core (new options) (admit (new_core options) 7)) (connection_name 1))
