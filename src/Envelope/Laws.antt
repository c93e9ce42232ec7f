-- ===== src/Envelope/Laws.antt =====
-- Envelope.cpp: the two classifications, and the messages that are built.
use aisuite.Common.{
  ℕ, ◌≡◌, ◌≢◌, ◌⊎◌, inl, inr, true, false, not, none, some, [], ◌∷◌, arith, if◌then◌else◌, Text,
  text, text_eq, text_eq_refl, text_eq_iff, ◌||◌, lookup, Option-cases, ℤ,
}
use aisuite.Json.{Json, JsonLaws, has}
use aisuite.Envelope.{
  Role, JsonRpcKind, request, notification, response, invalid, has_string, has_value,
  classify_json_rpc, is_id, bad_version, bad_id, bad_params, bad_error, strict_kind,
  classify_strict_json_rpc, id_key, json_rpc_id_key, app_server_envelope, json_rpc_error,
  to_string_view,
}

module _ (j : Json) where
  open j use {
    Value, is_object, is_array, is_string, is_null, is_number_integer, is_number_unsigned, find,
    get_string, dump, null, string, unsigned, integer, object, set,
  }

  -- The member `jsonrpc` is the string "2.0".
  pub record IsVersion2 (m : Value) : Type 0 where
    pub version : Value
    pub version_is : find m (text "jsonrpc") ≡ some version
    pub version_a_string : is_string version ≡ true
    pub version_text : get_string version ≡ text "2.0"

  -- A JSON-RPC 2.0 call: the version, a method with a string name, a usable id, parameters that are
  -- an object or an array where there are any, and no outcome.
  pub record IsCall (m : Value) (id method : Value) : Type 0 where
    pub an_object : is_object m ≡ true
    pub version_2 : IsVersion2 m
    pub params_structured :
        (p : Value) → find m (text "params") ≡ some p → (is_object p || is_array p) ≡ true
    pub id_is : find m (text "id") ≡ some id
    pub id_usable : is_id j id ≡ true
    pub id_not_null : is_null id ≡ false
    pub method_is : find m (text "method") ≡ some method
    pub method_named : is_string method ≡ true
    pub no_result : has j m (text "result") ≡ false
    pub no_error : has j m (text "error") ≡ false

  -- A JSON-RPC 2.0 answer: the version, a usable id, no method and no parameters, and exactly one of
  -- a result and an error, which is an object.
  pub record IsAnswer (m : Value) (id : Value) : Type 0 where
    pub an_object : is_object m ≡ true
    pub version_2 : IsVersion2 m
    pub error_an_object : (e : Value) → find m (text "error") ≡ some e → is_object e ≡ true
    pub id_is : find m (text "id") ≡ some id
    pub id_usable : is_id j id ≡ true
    pub id_not_null : is_null id ≡ false
    pub no_method : has j m (text "method") ≡ false
    pub no_params : has j m (text "params") ≡ false
    pub one_outcome : has j m (text "result") ≡ not (has j m (text "error"))

  lenient-request :
      (m : Value)
      → classify_json_rpc j m ≡ request
      → (is_object m ≡ true)
        × (has_value j m (text "id") ≡ true)
        × (has_string j m (text "method") ≡ true)
  unfolding classify_json_rpc
  lenient-request m e = ground arith

  lenient-response :
      (m : Value)
      → classify_json_rpc j m ≡ response
      → (is_object m ≡ true)
        × (has_value j m (text "id") ≡ true)
        × (has j m (text "result") ≡ not (has j m (text "error")))
  unfolding classify_json_rpc
  lenient-response m e = ground arith

  -- The guards of the strict classification, where it says other than `invalid`.
  strict-passed :
      (m : Value) (k : JsonRpcKind)
      → classify_strict_json_rpc j m ≡ k
      → k ≢ invalid
      → (bad_id j m ≡ false)
        × (bad_version j m ≡ false)
        × (bad_params j m ≡ false)
        × (bad_error j m ≡ false)
        × (strict_kind j m (classify_json_rpc j m) ≡ k)
  unfolding classify_strict_json_rpc
  strict-passed m k e ne = ground arith

  strict_kind-request :
      (m : Value) (k : JsonRpcKind)
      → strict_kind j m k ≡ request
      → (k ≡ request) × (has j m (text "result") ≡ false) × (has j m (text "error") ≡ false)
  unfolding strict_kind
  strict_kind-request m request e = ground arith
  strict_kind-request m notification e = ground arith
  strict_kind-request m response e = ground arith
  strict_kind-request m invalid e = cc

  strict_kind-response :
      (m : Value) (k : JsonRpcKind)
      → strict_kind j m k ≡ response
      → (k ≡ response) × (has j m (text "method") ≡ false) × (has j m (text "params") ≡ false)
  unfolding strict_kind
  strict_kind-response m request e = ground arith
  strict_kind-response m notification e = ground arith
  strict_kind-response m response e = ground arith
  strict_kind-response m invalid e = cc

  usable_id :
      (m : Value)
      → has_value j m (text "id") ≡ true
      → bad_id j m ≡ false
      → (id : Value) × (find m (text "id") ≡ some id) × (is_id j id ≡ true) × (is_null id ≡ false)
  unfolding has_value bad_id
  usable_id m e k = elim (Option-cases (find m (text "id"))) [
    | inl absent ↦ absurd (ground arith)
    | inr (id, found) ↦ (id, found, ground arith, ground arith)
  ]

  version-IsVersion2 : (m : Value) → bad_version j m ≡ false → IsVersion2 m
  unfolding bad_version
  version-IsVersion2 m e = elim (Option-cases (find m (text "jsonrpc"))) [
    | inl absent ↦ absurd (ground (arith, absent))
    | inr (v, found) ↦
        let same : text_eq (get_string v) (text "2.0") ≡ true = ground (arith, found) in
        record {
          version = v;
          version_is = found;
          version_a_string = ground (arith, found);
          version_text = (text_eq_iff (get_string v) (text "2.0")).0 same;
        }
  ]

  structured_params :
      (m p : Value)
      → bad_params j m ≡ false
      → find m (text "params") ≡ some p
      → (is_object p || is_array p) ≡ true
  unfolding bad_params
  structured_params m p e found = ground (arith, found)

  object_error :
      (m e : Value) → bad_error j m ≡ false → find m (text "error") ≡ some e → is_object e ≡ true
  unfolding bad_error
  object_error m e ok found = ground (arith, found)

  named_method :
      (m : Value)
      → has_string j m (text "method") ≡ true
      → (method : Value) × (find m (text "method") ≡ some method) × (is_string method ≡ true)
  unfolding has_string
  named_method m e = elim (Option-cases (find m (text "method"))) [
    | inl absent ↦ absurd (ground arith)
    | inr (method, found) ↦ (method, found, ground arith)
  ]

  -- A message that the strict classification takes for a request is a JSON-RPC 2.0 call: it has the
  -- version, a usable id, a method with a string name, parameters that are an object or an array
  -- where there are any, and neither a result nor an error.
  pub strict-IsCall :
      (m : Value)
      → classify_strict_json_rpc j m ≡ request
      → (id : Value) × (method : Value) × IsCall m id method
  strict-IsCall m e =
      let (id_ok, version_ok, params_ok, error_ok, kind) = strict-passed m request e (λ c. cc) in
      let (lenient, no_result, no_error) = strict_kind-request m (classify_json_rpc j m) kind in
      let (an_object, with_id, with_method) = lenient-request m lenient in
      let (id, found, usable, not_null) = usable_id m with_id id_ok in
      let (method, named, is_named) = named_method m with_method in
      (
        id,
        method,
        record {
          an_object = an_object;
          version_2 = version-IsVersion2 m version_ok;
          params_structured = λ p. structured_params m p params_ok;
          id_is = found;
          id_usable = usable;
          id_not_null = not_null;
          method_is = named;
          method_named = is_named;
          no_result = no_result;
          no_error = no_error;
        },
      )

  -- A message that the strict classification takes for a response is a JSON-RPC 2.0 answer: it has
  -- the version, a usable id, neither a method nor parameters, and exactly one of a result and an
  -- error, which is an object.
  pub strict-IsAnswer :
      (m : Value) → classify_strict_json_rpc j m ≡ response → (id : Value) × IsAnswer m id
  strict-IsAnswer m e =
      let (id_ok, version_ok, params_ok, error_ok, kind) = strict-passed m response e (λ c. cc) in
      let (lenient, no_method, no_params) = strict_kind-response m (classify_json_rpc j m) kind in
      let (an_object, with_id, one_outcome) = lenient-response m lenient in
      let (id, found, usable, not_null) = usable_id m with_id id_ok in
      (
        id,
        record {
          an_object = an_object;
          version_2 = version-IsVersion2 m version_ok;
          error_an_object = λ x. object_error m x error_ok;
          id_is = found;
          id_usable = usable;
          id_not_null = not_null;
          no_method = no_method;
          no_params = no_params;
          one_outcome = one_outcome;
        },
      )

  id_key-of_usable :
      (id : Value) → is_id j id ≡ true → is_null id ≡ false → id_key j (some id) ≡ some (dump id)
  unfolding id_key
  id_key-of_usable id usable not_null = ground arith

  -- A message that the strict classification takes for a request or a response has an id, and
  -- its key is the text of that id.
  pub strict-json_rpc_id_key :
      (m : Value)
      → (classify_strict_json_rpc j m ≡ request) ⊎ (classify_strict_json_rpc j m ≡ response)
      → (id : Value) × (find m (text "id") ≡ some id) × (json_rpc_id_key j m ≡ some (dump id))
  unfolding json_rpc_id_key
  strict-json_rpc_id_key m (inl e) =
      let (id, method, c) = strict-IsCall m e in
      (id, c.id_is, rw (c.an_object, c.id_is) (id_key-of_usable id c.id_usable c.id_not_null))
  strict-json_rpc_id_key m (inr e) =
      let (id, c) = strict-IsAnswer m e in
      (id, c.id_is, rw (c.an_object, c.id_is) (id_key-of_usable id c.id_usable c.id_not_null))

  -- The strict classification of a message is `invalid` or the lenient classification.
  pub strict-refines :
      (m : Value)
      → (classify_strict_json_rpc j m ≡ invalid)
        ⊎ (classify_strict_json_rpc j m ≡ classify_json_rpc j m)
  unfolding classify_strict_json_rpc strict_kind
  strict-refines m = ground arith

module _ (j : Json) (laws : JsonLaws j) where
  open j use {Value, is_null, find, dump, string, unsigned}

  error_object : ℤ → Text → Value → Value
  error_object code message details =
      let plain : Value =
        j.object ((text "code", j.integer code) ∷ (text "message", string message) ∷ []) in
      if is_null details then plain else j.set plain (text "data") details

  error_object-is_object :
      (code : ℤ) (message : Text) (details : Value)
      → j.is_object (error_object code message details) ≡ true
  unfolding error_object
  error_object-is_object code message details =
      let plain = (text "code", j.integer code) ∷ (text "message", string message) ∷ [] in
      let built = laws.is_object-object plain in
      ground (arith, built, laws.is_object-set (j.object plain) details (text "data") built)

  find-json_rpc_error :
      (id : Value) (code : ℤ) (message : Text) (details : Value)
      → let e = json_rpc_error j id code message details in
        (find e (text "jsonrpc") ≡ some (string (text "2.0")))
        × (find e (text "id") ≡ some id)
        × (find e (text "error") ≡ some (error_object code message details))
        × (find e (text "method") ≡ none)
        × (find e (text "params") ≡ none)
        × (find e (text "result") ≡ none)
  unfolding json_rpc_error error_object text text_eq lookup
  find-json_rpc_error id code message details = (
    laws.find-object _ _,
    laws.find-object _ _,
    laws.find-object _ _,
    laws.find-object _ _,
    laws.find-object _ _,
    laws.find-object _ _,
  )

  json_rpc_error-is_object :
      (id : Value) (code : ℤ) (message : Text) (details : Value)
      → j.is_object (json_rpc_error j id code message details) ≡ true
  unfolding json_rpc_error
  json_rpc_error-is_object id code message details = laws.is_object-object _

  -- A message with these members is a strict response.
  answer-strict :
      (m id err : Value)
      → j.is_object m ≡ true
      → find m (text "jsonrpc") ≡ some (string (text "2.0"))
      → find m (text "id") ≡ some id
      → find m (text "error") ≡ some err
      → find m (text "method") ≡ none
      → find m (text "params") ≡ none
      → find m (text "result") ≡ none
      → j.is_object err ≡ true
      → is_id j id ≡ true
      → is_null id ≡ false
      → classify_strict_json_rpc j m ≡ response
  unfolding classify_strict_json_rpc classify_json_rpc bad_version bad_id bad_params bad_error
      strict_kind
  answer-strict m id err o v i e me pa re eo usable not_null = ground (
    arith,
    laws.is_string-string (text "2.0"),
    laws.get_string-string (text "2.0"),
    text_eq_refl (text "2.0"),
  )

  -- For a JSON library that obeys the laws, an error built for a usable id that is not null is
  -- a strict response, whose key is the text of that id.
  pub strict-json_rpc_error :
      (id : Value) (code : ℤ) (message : Text) (details : Value)
      → is_id j id ≡ true
      → is_null id ≡ false
      → (classify_strict_json_rpc j (json_rpc_error j id code message details) ≡ response)
        × (json_rpc_id_key j (json_rpc_error j id code message details) ≡ some (dump id))
  unfolding json_rpc_id_key
  strict-json_rpc_error id code message details usable not_null =
      let m = json_rpc_error j id code message details in
      let o = json_rpc_error-is_object id code message details in
      let (v, i, e, me, pa, re) = find-json_rpc_error id code message details in
      (
        answer-strict m id (error_object code message details) o v i e me pa re
            (error_object-is_object code message details) usable not_null,
        rw (o, i) (id_key-of_usable j id usable not_null),
      )

  -- For a JSON library that obeys the laws, the five members of an envelope are what it was
  -- built from.
  pub find-app_server_envelope :
      (connection_id : Text) (role : Role) (sequence : ℕ) (payload : Value)
      → let e = app_server_envelope j connection_id role sequence payload in
        (find e (text "kind") ≡ some (string (text "appserver")))
        × (find e (text "connectionId") ≡ some (string connection_id))
        × (find e (text "role") ≡ some (string (to_string_view role)))
        × (find e (text "seq") ≡ some (unsigned sequence))
        × (find e (text "payload") ≡ some payload)
  unfolding app_server_envelope text text_eq lookup
  find-app_server_envelope c r s p = (
    laws.find-object _ _,
    laws.find-object _ _,
    laws.find-object _ _,
    laws.find-object _ _,
    laws.find-object _ _,
  )
