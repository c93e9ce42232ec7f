-- ===== src/Sdk/Pending.antt =====
-- The frontend's CodexBridge: its table of pending requests.
use aisuite.Common.{
  ℕ, ◌<◌, ◌≡◌, ◌≢◌, refl, sym, ap, subst, ◌∙◌, inl, inr, false, Option, none, some, List, [], ◌∷◌,
  ◌++◌, append_assoc, arith, Option-cases, Text, text, index_of, to_string, to_string_injective,
  index_of-to_string, Map, lookup, ℤ,
}
use aisuite.Json.{Json, JsonLaws}
use aisuite.Envelope.{json_rpc_error}
use aisuite.Bridge.State.{Handler}
use aisuite.Bridge.Ids.{key_of}
use aisuite.Sdk.State.{Upcall, called, FrontendBridge, hand_over}
use aisuite.Sdk.Receive.{
  transport_lost, id_of_key, fail_entries, fail_pending, transport_disconnected,
}
use aisuite.Sdk.Request.{request_prefix, request_name}

index_of-separated : (c : ℕ) (b y : Text) → index_of c (b ++ c ∷ y) ≢ none
unfolding index_of
index_of-separated c [] y e = ground arith
index_of-separated c (d ∷ b) y e = ground (arith, index_of-separated c b y)

-- What stands behind the last separator.
last_part :
    (c : ℕ) (a b x y : Text)
    → index_of c x ≡ none
    → index_of c y ≡ none
    → a ++ c ∷ x ≡ b ++ c ∷ y
    → x ≡ y
last_part c [] [] x y hx hy e = cc
last_part c [] (d ∷ b) x y hx hy e =
    absurd (index_of-separated c b y (ap (index_of c) (sym (tail_eq e)) ∙ hx))
  where
    tail_eq : c ∷ x ≡ d ∷ (b ++ c ∷ y) → x ≡ b ++ c ∷ y
    tail_eq e = cc
last_part c (d ∷ a) [] x y hx hy e =
    absurd (index_of-separated c a x (ap (index_of c) (tail_eq e) ∙ hy))
  where
    tail_eq : d ∷ (a ++ c ∷ x) ≡ c ∷ y → a ++ c ∷ x ≡ y
    tail_eq e = cc
last_part c (d ∷ a) (f ∷ b) x y hx hy e = last_part c a b x y hx hy (tail_eq e)
  where
    tail_eq : d ∷ (a ++ c ∷ x) ≡ f ∷ (b ++ c ∷ y) → a ++ c ∷ x ≡ b ++ c ∷ y
    tail_eq e = cc

-- The name of a request gives away its number, whatever the connection is called.
request_name_injective : (c d : Option Text) (m n : ℕ) → request_name c m ≡ request_name d n → m ≡ n
unfolding request_name text
request_name_injective c d m n e =
    let stem : Text = b'-' ∷ b'r' ∷ b'e' ∷ b'q' ∷ b'u' ∷ b'e' ∷ b's' ∷ b't' ∷ [] in
    to_string_injective m n (
      last_part b'-' (request_prefix c ++ stem) (request_prefix d ++ stem) (to_string m)
        (to_string n) (index_of-to_string m b'-' (omega arith))
        (index_of-to_string n b'-' (omega arith))
        (append_assoc (request_prefix c) stem (b'-' ∷ to_string m)
          ∙ e
          ∙ sym (append_assoc (request_prefix d) stem (b'-' ∷ to_string n))))

-- The table of these requests, by their names.
unfoldable pub keyed : (j : Json) → List (Text × Handler) → Map Handler
keyed j [] = []
keyed j ((name, h) ∷ waiting) = (key_of j name, h) ∷ keyed j waiting

-- The text of each of these names, written as a JSON string, parses back to that string.
unfoldable pub AllParse : (j : Json) → List (Text × Handler) → Type 0
AllParse j [] = Unit
AllParse j ((name, h) ∷ waiting) =
    (j.parse (j.dump (j.string name)) ≡ some (j.string name)) × AllParse j waiting

id_of_key-key_of :
    (j : Json) (name : Text)
    → j.parse (j.dump (j.string name)) ≡ some (j.string name)
    → id_of_key j (key_of j name) ≡ j.string name
unfolding id_of_key key_of
id_of_key-key_of j name parsed = rw (parsed, id_of_key, key_of) refl

module _ {j : Json} where
  open j use {Value}

  -- Every key that waits was made from a number that was given out.
  abbrev pub Numbered : FrontendBridge j → Type 0
  Numbered s =
      (k : Text) (h : Handler)
      → lookup k s.pending ≡ some h
      → (c : Option Text) × (n : ℕ) × (n < s.next_request_number)
        × (k ≡ key_of j (request_name c n))

  -- The key of the next request is not in use.
  pub next-free :
      (laws : JsonLaws j) (s : FrontendBridge j)
      → Numbered s
      → lookup (key_of j (request_name s.connection_id s.next_request_number)) s.pending ≡ none
  next-free laws s v =
      let key = key_of j (request_name s.connection_id s.next_request_number) in
      elim (Option-cases (lookup key s.pending)) [
        | inl free ↦ free
        | inr (h, found) ↦
            let (c, n, below, same) = v key h found in
            let equal =
              request_name_injective s.connection_id c s.next_request_number n
                (laws.dump-string_injective _ _ same) in
            absurd (omega arith)
      ]

  -- Nothing new waits, and the number is the same.
  pub record Keeps (s t : FrontendBridge j) : Type 0 where
    pub fewer : (k : Text) (h : Handler) → lookup k t.pending ≡ some h → lookup k s.pending ≡ some h
    pub number : t.next_request_number ≡ s.next_request_number

  pub Keeps-refl : (s : FrontendBridge j) → Keeps s s
  Keeps-refl s = record { fewer = λ k h e. e; number = refl }

  pub Keeps-trans : (s t u : FrontendBridge j) → Keeps s t → Keeps t u → Keeps s u
  Keeps-trans s t u a b = record {
    fewer = λ k h e. a.fewer k h (b.fewer k h e);
    number = b.number ∙ a.number;
  }

  pub Keeps-Numbered : (s t : FrontendBridge j) → Keeps s t → Numbered s → Numbered t
  Keeps-Numbered s t keeps v k h e =
      let (c, n, below, same) = v k h (keeps.fewer k h e) in
      (c, n, subst (λ m. n < m) (sym keeps.number) below, same)

  -- The calls that failing these entries makes, the last one first.
  unfoldable pub failures : Map Handler → Text → ℤ → List (Upcall j)
  failures [] reason code = []
  failures ((key, none) ∷ entries) reason code = failures entries reason code
  failures ((key, some h) ∷ entries) reason code =
      failures entries reason code
      ++ called h (json_rpc_error j (id_of_key j key) code reason j.null) ∷ []

  trace-fail_entries :
      (s : FrontendBridge j) (entries : Map Handler) (reason : Text) (code : ℤ)
      → fail_entries s entries reason code
        ≡ record s { trace = failures entries reason code ++ s.trace }
  unfolding fail_entries failures hand_over
  trace-fail_entries s [] reason code = refl
  trace-fail_entries s ((key, none) ∷ entries) reason code =
      trace-fail_entries s entries reason code
  trace-fail_entries s ((key, some h) ∷ entries) reason code =
      let e = json_rpc_error j (id_of_key j key) code reason j.null in
      trace-fail_entries (hand_over s (some h) e) entries reason code
      ∙ ap (λ t. record s { trace = t })
          (sym (append_assoc (failures entries reason code) (called h e ∷ []) s.trace))

  -- The calls of the handlers that are not empty, the last one first, each with the error for a lost
  -- transport whose id is the name of the request.
  unfoldable pub answers : List (Text × Handler) → Text → List (Upcall j)
  answers [] reason = []
  answers ((name, none) ∷ waiting) reason = answers waiting reason
  answers ((name, some h) ∷ waiting) reason =
      answers waiting reason
      ++ called h (json_rpc_error j (j.string name) transport_lost reason j.null) ∷ []

  failures-answers :
      (waiting : List (Text × Handler)) (reason : Text)
      → AllParse j waiting
      → failures (keyed j waiting) reason transport_lost ≡ answers waiting reason
  unfolding failures keyed answers AllParse
  failures-answers [] reason v = refl
  failures-answers ((name, none) ∷ waiting) reason (parsed, v) = failures-answers waiting reason v
  failures-answers ((name, some h) ∷ waiting) reason (parsed, v) =
      let before = failures (keyed j waiting) reason transport_lost in
      ap (λ id. before ++ called h (json_rpc_error j id transport_lost reason j.null) ∷ [])
        (id_of_key-key_of j name parsed)
      ∙ ap (λ u. u ++ called h (json_rpc_error j (j.string name) transport_lost reason j.null) ∷ [])
          (failures-answers waiting reason v)

  -- If the requests that wait are these, entered by their names, and the JSON library parses the text
  -- that it writes for each name to the same string: when the transport is lost, the handlers that
  -- are not empty are called, in turn and once each, with the error for a lost transport that has the
  -- name of the request as its id; nothing waits any more, and the session's members are as in a new
  -- frontend.
  pub transport_disconnected-answers :
      (s : FrontendBridge j) (waiting : List (Text × Handler)) (reason : Text)
      → s.pending ≡ keyed j waiting
      → AllParse j waiting
      → transport_disconnected s reason ≡ record s {
        pending = [];
        connection_id = none;
        controller_connection_id = none;
        role = none;
        provider_generation = 0;
        provider_ready = false;
        trace = answers waiting reason ++ s.trace;
      }
  unfolding transport_disconnected fail_pending
  transport_disconnected-answers s waiting reason same v =
      ap
        (λ (t : FrontendBridge j). record t {
          connection_id = none;
          controller_connection_id = none;
          role = none;
          provider_generation = 0;
          provider_ready = false;
        })
        (trace-fail_entries (record s { pending = [] }) s.pending reason transport_lost
          ∙ ap (λ t. record s { pending = []; trace = t ++ s.trace })
              (ap (λ p. failures p reason transport_lost) same ∙ failures-answers waiting reason v))

  pub fail_pending-Keeps :
      (s : FrontendBridge j) (reason : Text) (code : ℤ) → Keeps s (fail_pending s reason code)
  unfolding fail_pending lookup
  fail_pending-Keeps s reason code =
      let same = trace-fail_entries (record s { pending = [] }) s.pending reason code in
      subst (Keeps s) (sym same) (record { fewer = λ k h e. cc; number = refl })
