-- ===== src/Bridge/Invariant/Requests.antt =====
-- CodexBridge: the tables of requests under an entry and its removal.
use aisuite.Common.{
  ℕ, ◌≡◌, subst, inl, inr, true, none, some, arith, Bool-cases, Text, text_eq, text_eq_iff,
  text_eq_refl, lookup, contains, emplace, erase, lookup-emplace, lookup-erase, keep_if-Distinct,
  emplace-Distinct,
}
use aisuite.Json.{Json}
use aisuite.Bridge.State.{ServerRequestOwner, LocalRequest, FrontendRequest, Core}
use aisuite.Bridge.Io.{id_of}
use aisuite.Bridge.Frontends.{is_frontend}
use aisuite.Bridge.Ids.{key_of}
use aisuite.Bridge.Forward.{frontend_key_of, enter_request, drop_request}
use aisuite.Bridge.Invariant.{Matched}

module _ {j : Json} where
  open j use {Value}

  -- A frontend's request under a free id and a key of its own.
  pub enter_request-Matched :
      (c : Core j) (connection_id id : Text) (payload : Value) (upstream : Text) (next : ℕ)
      → let key = key_of j upstream in
        let f = frontend_key_of connection_id id in
        Matched c
        → contains connection_id c.frontends ≡ true
        → lookup f c.frontend_request_keys ≡ none
        → lookup key c.frontend_request_owners ≡ none
        → lookup key c.local_requests ≡ none
        → Matched (enter_request c connection_id payload f (upstream, next))
  unfolding enter_request
  enter_request-Matched c connection_id id payload upstream next v here free_f free_k free_l =
      let key = key_of j upstream in
      let f = frontend_key_of connection_id id in
      let r : FrontendRequest j = record {
        connection_id = connection_id;
        frontend_id = id_of j payload;
        frontend_key = f;
      } in
      let at_owner = λ (k : Text). lookup-emplace key k r c.frontend_request_owners in
      let at_key = λ (g : Text). lookup-emplace f g key c.frontend_request_keys in
      record {
        keyed = λ k q h. ground (
          arith,
          v.keyed k q,
          at_owner k,
          at_key q.frontend_key,
          text_eq_iff key k,
          text_eq_iff f q.frontend_key,
          free_f,
          free_k,
        );
        owned = λ g k h. elim (Bool-cases (text_eq f g)) [
          | inl same ↦ (
            r,
            ground
                (arith, at_owner k, at_key g, text_eq_iff key k, text_eq_iff f g, free_f, free_k),
            (text_eq_iff f g).0 same,
          )
          | inr other ↦
              let (q, found, is) = v.owned g k (ground (arith, at_key g)) in
              (q, ground (arith, at_owner k), is)
        ];
        prefixed = λ k q h. elim (Bool-cases (contains k c.frontend_request_owners)) [
          | inl old ↦ v.prefixed k q (ground (arith, at_owner k))
          | inr new ↦ (id, ground (arith, at_owner k))
        ];
        registered = λ k q h. ground (arith, v.registered k q, at_owner k, text_eq_iff key k, here);
        apart = λ k q h. ground (arith, v.apart k q, at_owner k, text_eq_iff key k, free_l);
        waiting = v.waiting;
        distinct_owners = emplace-Distinct key r c.frontend_request_owners v.distinct_owners;
        distinct_keys = emplace-Distinct f key c.frontend_request_keys v.distinct_keys;
      }

  pub lookup-enter_request :
      (c : Core j) (connection_id f : Text) (payload : Value) (upstream : Text) (next : ℕ)
      → lookup (key_of j upstream) c.frontend_request_owners ≡ none
      → lookup
          (key_of j upstream)
          (enter_request c connection_id payload f (upstream, next)).frontend_request_owners
        ≡ some (record {
          connection_id = connection_id;
          frontend_id = id_of j payload;
          frontend_key = f;
        })
  unfolding enter_request
  lookup-enter_request c connection_id f payload upstream next free =
      let key = key_of j upstream in
      let r : FrontendRequest j = record {
        connection_id = connection_id;
        frontend_id = id_of j payload;
        frontend_key = f;
      } in
      ground (arith, lookup-emplace key key r c.frontend_request_owners, text_eq_refl key)

  -- A forwarded request that is answered, or could not be sent.
  pub drop_request-Matched :
      (c : Core j) (key : Text) (r : FrontendRequest j)
      → Matched c
      → lookup key c.frontend_request_owners ≡ some r
      → Matched (drop_request c key r.frontend_key)
  unfolding drop_request
  drop_request-Matched c key r v found =
      let f = r.frontend_key in
      let at_owner = λ (k : Text). lookup-erase key k c.frontend_request_owners in
      let at_key = λ (g : Text). lookup-erase f g c.frontend_request_keys in
      record {
        keyed = λ k q h. ground (
          arith,
          v.keyed k q,
          v.keyed key r found,
          at_owner k,
          at_key q.frontend_key,
          text_eq_iff key k,
          text_eq_iff f q.frontend_key,
        );
        owned = λ g k h.
            let (q, kept, is) = v.owned g k (ground (arith, at_key g)) in
            (q, ground (arith, at_owner k, at_key g, text_eq_iff key k, text_eq_iff f g), is);
        prefixed = λ k q h. v.prefixed k q (ground (arith, at_owner k));
        registered = λ k q h. v.registered k q (ground (arith, at_owner k));
        apart = λ k q h. v.apart k q (ground (arith, at_owner k));
        waiting = v.waiting;
        distinct_owners = keep_if-Distinct _ c.frontend_request_owners v.distinct_owners;
        distinct_keys = keep_if-Distinct _ c.frontend_request_keys v.distinct_keys;
      }

  -- The other tables, one entry at a time.
  module _ (c : Core j) (v : Matched c) where
    pub enter_local-Matched :
        (key : Text) (r : LocalRequest j)
        → lookup key c.frontend_request_owners ≡ none
        → Matched (record c { local_requests = emplace key r c.local_requests })
    enter_local-Matched key r free = record {
      keyed = v.keyed;
      owned = v.owned;
      prefixed = v.prefixed;
      registered = v.registered;
      apart = λ k q h.
          ground (
            arith,
            v.apart k q h,
            lookup-emplace key k r c.local_requests,
            text_eq_iff key k,
            free,
          );
      waiting = v.waiting;
      distinct_owners = v.distinct_owners;
      distinct_keys = v.distinct_keys;
    }

    pub drop_local-Matched :
        (key : Text) → Matched (record c { local_requests = erase key c.local_requests })
    drop_local-Matched key = record {
      keyed = v.keyed;
      owned = v.owned;
      prefixed = v.prefixed;
      registered = v.registered;
      apart = λ k q h. ground (arith, v.apart k q h, lookup-erase key k c.local_requests);
      waiting = v.waiting;
      distinct_owners = v.distinct_owners;
      distinct_keys = v.distinct_keys;
    }

    pub own-Matched :
        (key : Text) (o : ServerRequestOwner j)
        → (is_frontend o.kind ≡ true → contains o.frontend_connection_id c.frontends ≡ true)
        → Matched
            (record c { app_server_request_owners = emplace key o c.app_server_request_owners })
    own-Matched key o there = record {
      keyed = v.keyed;
      owned = v.owned;
      prefixed = v.prefixed;
      registered = v.registered;
      apart = v.apart;
      waiting = λ k q h p. elim (Bool-cases (contains k c.app_server_request_owners)) [
        | inl old ↦
            v.waiting k q (ground (arith, lookup-emplace key k o c.app_server_request_owners)) p
        | inr new ↦
            let same : o ≡ q = ground (arith, lookup-emplace key k o c.app_server_request_owners) in
            subst
              (λ (x : ServerRequestOwner j).
                is_frontend x.kind ≡ true → contains x.frontend_connection_id c.frontends ≡ true)
              same there p
      ];
      distinct_owners = v.distinct_owners;
      distinct_keys = v.distinct_keys;
    }

    pub without_owner-Matched :
        (key : Text)
        → Matched (record c { app_server_request_owners = erase key c.app_server_request_owners })
    without_owner-Matched key = record {
      keyed = v.keyed;
      owned = v.owned;
      prefixed = v.prefixed;
      registered = v.registered;
      apart = v.apart;
      waiting = λ k q h p.
          v.waiting k q (ground (arith, lookup-erase key k c.app_server_request_owners)) p;
      distinct_owners = v.distinct_owners;
      distinct_keys = v.distinct_keys;
    }
