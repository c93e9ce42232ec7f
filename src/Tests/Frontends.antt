-- ===== src/Tests/Frontends.antt =====
-- The theorems on the frontend's CodexBridge at concrete inputs.
use aisuite.Common.{
  emplace, to_string, ◌≡◌, refl, ap, true, false, none, some, [], ◌∷◌, ◌++◌, arith, Text, text,
  text_eq, lookup, contains, erase,
}
use aisuite.Envelope.{
  controller, from_app_server, response, classify_json_rpc, classify_strict_json_rpc, has_string,
  has_value, differ, app_server_envelope, controller_event,
}
use aisuite.Bridge.State.{Core, new, new_core, with_core}
use aisuite.Bridge.Frontends.{
  connection_name, admit, newcomer, becomes_controller, register_frontend,
}
use aisuite.Bridge.Ids.{key_of}
use aisuite.Bridge.Quiet.{core-greet}
use aisuite.Bridge.Forward.{on_payload}
use aisuite.Bridge.Control.{claim, release, transfer, receive_from_frontend}
use aisuite.Sdk.State.{called, Surroundings, FrontendBridge, new_frontend, watch_raw}
use aisuite.Sdk.Send.{outbound, controller_command}
use aisuite.Sdk.Receive.{transport_disconnected, receive_message}
use aisuite.Sdk.Request.{request_name}
use aisuite.Sdk.Pending.{keyed, AllParse, answers, transport_disconnected-answers}
use aisuite.Sdk.Sessions.{asks, receives, disconnects, make_all, make_all-free}
use aisuite.Sdk.Wire.Events.{receive-controller_event, receive-answer}
use aisuite.Sdk.Wire.Commands.{receive_from_frontend-outbound}
use aisuite.Tests.Toy.{Value, nothing, chars, number, members, end, field, toy, toy_laws, calm}
use aisuite.Tests.Bridging.{options, started, started-IsValid}

abbrev around : Surroundings toy
around = record { accepts = λ t n v. true; throws = λ t n v. false }

abbrev waiting : Text
waiting = b'w' ∷ []

-- A frontend that is connected, with a request that waits.
abbrev client : FrontendBridge toy
client = record (new_frontend (some 1)) {
  connection_id = some (connection_name 1);
  pending = (key_of toy waiting, some 3) ∷ [];
}

abbrev reply : Value
reply = members (field (text "id") (number 4) (field (text "result") nothing end))

reply_response : classify_json_rpc toy reply ≡ response
unfolding classify_json_rpc has_string has_value differ text text_eq
reply_response = refl

waits : lookup (key_of toy waiting) client.pending ≡ some (some 3)
unfolding lookup text_eq
waits = refl

make_all-free_example :
    let s =
      make_all around
        (new_frontend (some 1))
        (asks (text "a") none (some 2) ∷ receives reply ∷ disconnects [] ∷ []) in
    lookup (key_of toy (request_name s.connection_id s.next_request_number)) s.pending ≡ none
make_all-free_example =
    make_all-free around toy_laws (some 1)
      (asks (text "a") none (some 2) ∷ receives reply ∷ disconnects [] ∷ []) (omega arith)

only_waits : client.pending ≡ keyed toy ((waiting, some 3) ∷ [])
unfolding keyed
only_waits = refl

only_parses : AllParse toy ((waiting, some 3) ∷ [])
unfolding AllParse
only_parses = (refl, tt)

transport_disconnected-answers_example :
    transport_disconnected client (text "gone") ≡ record client {
      pending = [];
      connection_id = none;
      controller_connection_id = none;
      role = none;
      provider_generation = 0;
      provider_ready = false;
      trace = answers ((waiting, some 3) ∷ []) (text "gone") ++ client.trace;
    }
transport_disconnected-answers_example =
    transport_disconnected-answers client ((waiting, some 3) ∷ []) (text "gone") only_waits
      only_parses

first_found :
    lookup (connection_name 1) started.frontends ≡ some (record { endpoint = 7; role = controller })
unfolding register_frontend new new_core admit newcomer becomes_controller connection_name lookup
    text_eq text emplace to_string
first_found =
    ap (λ (c : Core toy). lookup (connection_name 1) c.frontends)
      (core-greet calm (with_core (new options) (admit (new_core options) 7)) (connection_name 1))

receive-controller_event_example :
    (receive_message around client (controller_event toy started.controller 9)).0.role
    ≡ some controller
receive-controller_event_example =
    receive-controller_event toy_laws around started client (connection_name 1)
      (record { endpoint = 7; role = controller }) 9 started-IsValid first_found refl

receive-answer_example :
    let payload = toy.set reply (text "id") (chars waiting) in
    let t =
      (receive_message around client
        (app_server_envelope toy (connection_name 1) controller 9 payload)).0 in
    (t.pending ≡ erase (key_of toy waiting) client.pending)
    × (t.trace ≡ called 3 payload ∷ (watch_raw client from_app_server payload).trace)
receive-answer_example =
    receive-answer toy_laws around client (connection_name 1) controller 9 reply waiting 3
      reply_response waits

registered : contains (connection_name 1) started.frontends ≡ true
unfolding lookup
registered = ground (arith, first_found)

receive_from_frontend-outbound_example :
    (receive_from_frontend calm started (connection_name 1) (outbound toy reply)
      ≡ on_payload calm started (connection_name 1) reply (classify_strict_json_rpc toy reply))
    × (receive_from_frontend calm started
          (connection_name 1)
          (controller_command toy (text "claim") [])
        ≡ claim calm started (connection_name 1))
    × (receive_from_frontend calm started
          (connection_name 1)
          (controller_command toy (text "release") [])
        ≡ release calm started (connection_name 1))
    × (receive_from_frontend calm started (connection_name 1) (
          controller_command toy
            (text "transfer")
            ((text "targetConnectionId", chars waiting) ∷ []))
        ≡ transfer calm started (connection_name 1) waiting)
receive_from_frontend-outbound_example =
    receive_from_frontend-outbound toy_laws calm started (connection_name 1) reply waiting
      registered
