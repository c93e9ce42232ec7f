-- ===== src/Bridge/Invariant/Departure.antt =====
-- CodexBridge: what the tables hold of a frontend that comes or goes.
use aisuite.Common.{
  ℕ, ◌≡◌, refl, sym, ap, ◌∙◌, Bool, true, false, not, Option, none, some, [], ◌∷◌, ◌++◌, arith,
  Text, text, text_eq, text_eq_iff, starts_with, to_string, index_of, index_of-append,
  index_of-to_string, starts_with_up_to, Map, lookup, kept, contains, lookup-erase, lookup-keep_if,
  keep_if-Distinct,
}
use aisuite.Json.{Json}
use aisuite.Bridge.State.{FrontendRecord, ServerRequestOwner, FrontendRequest, Core}
use aisuite.Bridge.Frontends.{connection_name, is_frontend, forget}
use aisuite.Bridge.Forward.{frontend_key_of}
use aisuite.Bridge.Invariant.{Named, Matched}

connection_name_one_line : (n : ℕ) → index_of b'\n' (connection_name n) ≡ none
unfolding connection_name text index_of
connection_name_one_line n =
    index_of-append b'\n' (text "frontend-") (to_string n) refl
      (index_of-to_string n b'\n' (omega arith))

-- The names that were given out are on one line.
registered_one_line :
    (frontends : Map FrontendRecord) (next : ℕ) (id : Text)
    → Named frontends next
    → contains id frontends ≡ true
    → index_of b'\n' id ≡ none
registered_one_line frontends next id v e =
    let (n, _, is) = v id e in rw is (connection_name_one_line n)

-- The beginning of a key tells whose it is.
frontend_key_prefix :
    (id c x : Text)
    → index_of b'\n' id ≡ none
    → index_of b'\n' c ≡ none
    → starts_with (frontend_key_of c x) (id ++ b'\n' ∷ []) ≡ text_eq c id
unfolding frontend_key_of
frontend_key_prefix id c x one_id one_c = starts_with_up_to b'\n' c id x one_c one_id

kept-eq-some {ℓ} :
    {V : Type ℓ} (p : Text → V → Bool) (k : Text) (o : Option V) {v : V}
    → kept p k o ≡ some v
    → (o ≡ some v) × (p k v ≡ true)
kept-eq-some p k none e = cc
kept-eq-some p k (some w) e = ground arith

module _ {j : Json} where
  -- Frontends may come, and change their roles, while requests wait.
  pub Matched-grow :
      (c : Core j) (frontends : Map FrontendRecord) (leader : Option Text) (next : ℕ)
      → ((i : Text) → contains i c.frontends ≡ true → contains i frontends ≡ true)
      → Matched c
      → Matched
          (record c { frontends = frontends; controller = leader; next_connection_number = next })
  Matched-grow c frontends leader next grows v = record {
    keyed = v.keyed;
    owned = v.owned;
    prefixed = v.prefixed;
    registered = λ k r h. grows r.connection_id (v.registered k r h);
    apart = v.apart;
    waiting = λ k o h p. grows o.frontend_connection_id (v.waiting k o h p);
    distinct_owners = v.distinct_owners;
    distinct_keys = v.distinct_keys;
  }

  -- Nothing is asked of this frontend that it has not answered.
  abbrev pub OwesNothing : Core j → Text → Type 0
  OwesNothing c id =
      (k : Text) (o : ServerRequestOwner j)
      → lookup k c.app_server_request_owners ≡ some o
      → is_frontend o.kind ≡ true
      → text_eq o.frontend_connection_id id ≡ false

  module _ (c : Core j) (id : Text) (n : Named c.frontends c.next_connection_number)
      (here : contains id c.frontends ≡ true) (v : Matched c) where
    kept_owner :
        (k : Text) (q : FrontendRequest j)
        → lookup k (forget c id).frontend_request_owners ≡ some q
        → (lookup k c.frontend_request_owners ≡ some q) × (text_eq q.connection_id id ≡ false)
    unfolding forget
    kept_owner k q h =
        let p = λ (_ : Text) (r : FrontendRequest j). not (text_eq r.connection_id id) in
        let (found, other) =
          kept-eq-some p k (lookup k c.frontend_request_owners)
            (sym (lookup-keep_if p k c.frontend_request_owners v.distinct_owners) ∙ h) in
        (found, ground arith)

    kept_key :
        (g k : Text)
        → lookup g (forget c id).frontend_request_keys ≡ some k
        → (lookup g c.frontend_request_keys ≡ some k) × (starts_with g (id ++ b'\n' ∷ []) ≡ false)
    unfolding forget
    kept_key g k h =
        let p = λ (x : Text) (_ : Text). not (starts_with x (id ++ b'\n' ∷ [])) in
        let (found, other) =
          kept-eq-some p g (lookup g c.frontend_request_keys)
            (sym (lookup-keep_if p g c.frontend_request_keys v.distinct_keys) ∙ h) in
        (found, ground arith)

    -- Whether a key is one of the departing frontend.
    key_starts :
        (k : Text) (q : FrontendRequest j)
        → lookup k c.frontend_request_owners ≡ some q
        → starts_with q.frontend_key (id ++ b'\n' ∷ []) ≡ text_eq q.connection_id id
    key_starts k q h =
        let (x, is) = v.prefixed k q h in
        let one_id = registered_one_line c.frontends c.next_connection_number id n here in
        let one_c =
          registered_one_line c.frontends c.next_connection_number q.connection_id n
            (v.registered k q h) in
        ap (λ (t : Text). starts_with t (id ++ b'\n' ∷ [])) is
        ∙ frontend_key_prefix id q.connection_id x one_id one_c

    pub forget-Matched : OwesNothing c id → Matched (forget c id)
    unfolding forget
    forget-Matched done = record {
      keyed = λ k q h.
          let (found, other) = kept_owner k q h in
          let p = λ (x : Text) (_ : Text). not (starts_with x (id ++ b'\n' ∷ [])) in
          lookup-keep_if p q.frontend_key c.frontend_request_keys v.distinct_keys
          ∙ ap (kept p q.frontend_key) (v.keyed k q found)
          ∙ rw (key_starts k q found, other);
      owned = λ g k h.
          let (found, other) = kept_key g k h in
          let (q, entry, is) = v.owned g k found in
          let p = λ (_ : Text) (r : FrontendRequest j). not (text_eq r.connection_id id) in
          let differs : text_eq q.connection_id id ≡ false =
            sym (key_starts k q entry) ∙ rw is other in
          (
            q,
            lookup-keep_if p k c.frontend_request_owners v.distinct_owners
                ∙ ap (kept p k) entry
                ∙ rw differs,
            is,
          );
      prefixed = λ k q h. v.prefixed k q (kept_owner k q h).0;
      registered = λ k q h.
          let (found, other) = kept_owner k q h in
          ground (
            arith,
            v.registered k q found,
            lookup-erase id q.connection_id c.frontends,
            text_eq_iff q.connection_id id,
            text_eq_iff id q.connection_id,
          );
      apart = λ k q h. v.apart k q (kept_owner k q h).0;
      waiting = λ k o h f. ground (
        arith,
        v.waiting k o h f,
        done k o h f,
        lookup-erase id o.frontend_connection_id c.frontends,
        text_eq_iff o.frontend_connection_id id,
        text_eq_iff id o.frontend_connection_id,
      );
      distinct_owners = keep_if-Distinct _ c.frontend_request_owners v.distinct_owners;
      distinct_keys = keep_if-Distinct _ c.frontend_request_keys v.distinct_keys;
    }
