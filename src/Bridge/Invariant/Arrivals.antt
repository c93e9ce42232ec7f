-- ===== src/Bridge/Invariant/Arrivals.antt =====
-- CodexBridge::registerFrontend and unregisterFrontend: the tables around them.
use aisuite.Common.{
  ℕ, ◌+◌, ◌^◌, ◌<◌, ◌≡◌, refl, sym, subst, ap, ◌∙◌, inl, inr, Bool, true, false, none, some, List,
  [], ◌∷◌, ◌||◌, arith, if◌then◌else◌, Bool-cases, Text, text, text_eq, negsuc, leb, length, Map,
  lookup, contains, erase, lookup-erase, lookup-emplace,
}
use aisuite.Json.{Json}
use aisuite.Envelope.{json_rpc_error}
use aisuite.Bridge.State.{ServerRequestOwner, Core, World, Bridge, with_core}
use aisuite.Bridge.Io.{send_to_app_server}
use aisuite.Bridge.Frontends.{
  connection_name, is_frontend, is_controller, newcomer, admit, owned_by, fail_each,
  fail_frontend_server_requests, forget, leave, register_frontend, unregister_frontend,
}
use aisuite.Bridge.Quiet.{core-greet, core-broadcast_controller, core-send_to_app_server}
use aisuite.Bridge.Invariant.{IsValid}
use aisuite.Bridge.Invariant.Seats.{admit-Named, admit-RolesAgree, forget-Named, forget-RolesAgree}
use aisuite.Bridge.Invariant.Departure.{Matched-grow, OwesNothing, forget-Matched}
use aisuite.Bridge.Invariant.Requests.{without_owner-Matched}

has_key {ℓ} : {V : Type ℓ} → Text → List (Text × V) → Bool
has_key k [] = false
has_key k ((key, id) ∷ failed) = text_eq key k || has_key k failed

module _ {j : Json} where
  open j use {Value}

  admit-grows :
      (c : Core j) (endpoint : ℕ) (i : Text)
      → contains i c.frontends ≡ true
      → contains i (admit c endpoint).frontends ≡ true
  unfolding admit
  admit-grows c endpoint i e =
      let id = connection_name c.next_connection_number in
      ground (arith, lookup-emplace id i (newcomer c endpoint) c.frontends)

  pub admit-IsValid :
      (c : Core j) (endpoint : ℕ)
      → c.next_connection_number + 1 < 2 ^ 64
      → IsValid c
      → IsValid (admit c endpoint)
  unfolding admit
  admit-IsValid c endpoint small v = record {
    named = admit-Named c endpoint small v.named;
    roles = admit-RolesAgree c endpoint v.named v.roles;
    matched =
        Matched-grow c (admit c endpoint).frontends (admit c endpoint).controller
          (admit c endpoint).next_connection_number (admit-grows c endpoint) v.matched;
  }

  pub forget-IsValid :
      (c : Core j) (id : Text)
      → contains id c.frontends ≡ true
      → OwesNothing c id
      → IsValid c
      → IsValid (forget c id)
  forget-IsValid c id here done v = record {
    named = forget-Named c id v.named;
    roles = forget-RolesAgree c id v.roles;
    matched = forget-Matched c id v.named here v.matched done;
  }

  pub without_owner-IsValid :
      (c : Core j) (key : Text)
      → IsValid c
      → IsValid (record c { app_server_request_owners = erase key c.app_server_request_owners })
  without_owner-IsValid c key v = record {
    named = v.named;
    roles = v.roles;
    matched = without_owner-Matched c v.matched key;
  }

  -- What is left of the server requests after these were failed.
  erase_each : List (Text × Value) → Map (ServerRequestOwner j) → Map (ServerRequestOwner j)
  erase_each [] owners = owners
  erase_each ((key, id) ∷ failed) owners = erase_each failed (erase key owners)

  lookup-erase_each :
      (k : Text) (failed : List (Text × Value)) (owners : Map (ServerRequestOwner j))
      → lookup k (erase_each failed owners) ≡ (if has_key k failed then none else lookup k owners)
  unfolding erase_each has_key
  lookup-erase_each k [] owners = refl
  lookup-erase_each k ((key, id) ∷ failed) owners =
      ground (arith, lookup-erase_each k failed (erase key owners), lookup-erase key k owners)

  -- Every request that waits for the frontend is among those that are failed.
  has_key-owned_by :
      (id k : Text) (owners : Map (ServerRequestOwner j)) (o : ServerRequestOwner j)
      → lookup k owners ≡ some o
      → is_frontend o.kind ≡ true
      → text_eq o.frontend_connection_id id ≡ true
      → has_key k (owned_by id owners) ≡ true
  unfolding has_key owned_by lookup
  has_key-owned_by id k [] o e f same = cc
  has_key-owned_by id k ((key, p) ∷ owners) o e f same =
      ground (arith, has_key-owned_by id k owners o)

  erase_each-OwesNothing :
      (c : Core j) (id : Text)
      → OwesNothing
          (record c {
            app_server_request_owners =
                erase_each (owned_by id c.app_server_request_owners) c.app_server_request_owners;
          })
          id
  erase_each-OwesNothing c id k o h f =
      let owners = c.app_server_request_owners in
      ground
        (arith, lookup-erase_each k (owned_by id owners) owners, has_key-owned_by id k owners o)

module _ {j : Json} (w : World j) where
  open j use {Value}

  core-fail_each :
      (s : Bridge j) (failed : List (Text × Value)) (reason : Text)
      → (fail_each w s failed reason).core ≡ record (s.core) {
        app_server_request_owners = erase_each failed s.app_server_request_owners;
      }
  unfolding fail_each erase_each
  core-fail_each s [] reason = refl
  core-fail_each s ((key, id) ∷ failed) reason =
      let e = json_rpc_error j id (negsuc 32010) reason j.null in
      let t = (send_to_app_server w s e).0 in
      let owners = erase key t.app_server_request_owners in
      core-fail_each (with_core t (record (t.core) { app_server_request_owners = owners })) failed
        reason
      ∙ ap
          (λ (c : Core j). record c {
            app_server_request_owners = erase_each failed (erase key c.app_server_request_owners);
          })
          (core-send_to_app_server w s e)

  erase_each-IsValid :
      (c : Core j) (failed : List (Text × Value))
      → IsValid c
      → IsValid
          (record c { app_server_request_owners = erase_each failed c.app_server_request_owners })
  unfolding erase_each
  erase_each-IsValid c [] v = v
  erase_each-IsValid c ((key, id) ∷ failed) v =
      erase_each-IsValid
        (record c { app_server_request_owners = erase key c.app_server_request_owners }) failed
        (without_owner-IsValid c key v)

  -- If the tables are well formed before `registerFrontend` and the running number plus one is
  -- below 2^64, they are well formed after it, whether the frontend is taken or not.
  pub register_frontend-IsValid :
      (s : Bridge j) (endpoint : ℕ)
      → s.next_connection_number + 1 < 2 ^ 64
      → IsValid s.core
      → IsValid (register_frontend w s endpoint).0.core
  unfolding register_frontend
  register_frontend-IsValid s endpoint small v =
      elim (Bool-cases (leb s.maximum_frontends (length s.frontends))) [
        | inl full ↦ rw full v
        | inr room ↦ rw room (
            subst IsValid (sym (core-greet w (with_core s (admit s.core endpoint)) _))
              (admit-IsValid s.core endpoint small v))
      ]

  failed_core : Bridge j → Text → Core j
  failed_core s id = record (s.core) {
    app_server_request_owners =
        erase_each (owned_by id s.app_server_request_owners) s.app_server_request_owners;
  }

  core-leave : (s : Bridge j) (id : Text) → (leave w s id).core ≡ forget (failed_core s id) id
  unfolding leave fail_frontend_server_requests failed_core
  core-leave s id =
      let owned = owned_by id s.app_server_request_owners in
      let failed = fail_each w s owned (text "frontend disconnected before responding") in
      let left = with_core failed (forget failed.core id) in
      let quiet : (leave w s id).core ≡ left.core =
        elim (Bool-cases (is_controller failed.controller id)) [
          | inl led ↦ rw led (core-broadcast_controller w left)
          | inr not_led ↦ rw not_led
        ] in
      quiet ∙ ap (λ c. forget c id) (core-fail_each s owned _)

  -- If the tables are well formed before `unregisterFrontend`, they are well formed after it,
  -- for every id, registered or not.
  pub unregister_frontend-IsValid :
      (s : Bridge j) (id : Text) → IsValid s.core → IsValid (unregister_frontend w s id).core
  unfolding unregister_frontend failed_core
  unregister_frontend-IsValid s id v = elim (Bool-cases (contains id s.frontends)) [
    | inl here ↦ rw here (
        subst IsValid (sym (core-leave s id)) (
          forget-IsValid (failed_core s id) id here (erase_each-OwesNothing s.core id)
            (erase_each-IsValid s.core (owned_by id s.app_server_request_owners) v)))
    | inr away ↦ rw away v
  ]
