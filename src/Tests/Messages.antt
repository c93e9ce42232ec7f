-- ===== src/Tests/Messages.antt =====
-- The theorems on messages at concrete inputs.
use aisuite.Common.{◌≡◌, refl, some, text, text_eq, negsuc}
use aisuite.Envelope.{
  request, response, has_string, has_value, differ, classify_json_rpc, bad_version, bad_id,
  bad_params, bad_error, strict_kind, classify_strict_json_rpc, json_rpc_id_key, json_rpc_error,
}
use aisuite.Envelope.Laws.{IsCall, IsAnswer, strict-IsCall, strict-IsAnswer, strict-json_rpc_error}
use aisuite.Tests.Toy.{Value, nothing, chars, number, members, end, field, toy, toy_laws}

abbrev asks : Value
asks = members (
    field (text "jsonrpc") (chars (text "2.0"))
      (field (text "id") (number 4) (field (text "method") (chars (text "model/list")) end)))

abbrev answers : Value
answers = members (
    field (text "jsonrpc") (chars (text "2.0"))
      (field (text "id") (number 4) (field (text "result") nothing end)))

asks_request : classify_strict_json_rpc toy asks ≡ request
unfolding classify_strict_json_rpc classify_json_rpc has_string has_value differ bad_version bad_id
    bad_params bad_error strict_kind text text_eq
asks_request = refl

answers_response : classify_strict_json_rpc toy answers ≡ response
unfolding classify_strict_json_rpc classify_json_rpc has_string has_value differ bad_version bad_id
    bad_params bad_error strict_kind text text_eq
answers_response = refl

strict-IsCall_example : (id : Value) × (method : Value) × IsCall toy asks id method
strict-IsCall_example = strict-IsCall toy asks asks_request

strict-IsAnswer_example : (id : Value) × IsAnswer toy answers id
strict-IsAnswer_example = strict-IsAnswer toy answers answers_response

strict-json_rpc_error_example :
    let e = json_rpc_error toy (number 4) (negsuc 32600) (text "no") nothing in
    (classify_strict_json_rpc toy e ≡ response)
    × (json_rpc_id_key toy e ≡ some (toy.dump (number 4)))
strict-json_rpc_error_example =
    strict-json_rpc_error toy toy_laws (number 4) (negsuc 32600) (text "no") nothing refl refl
