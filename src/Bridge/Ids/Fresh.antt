-- ===== src/Bridge/Ids/Fresh.antt =====
-- CodexBridge::nextLocalRequestId and nextFrontendRequestId: the end of the search.
use aisuite.Common.{
  ℕ, zero, suc, ◌+◌, ◌%◌, ◌^◌, ◌≤◌, ◌<◌, ◌≡◌, ◌≢◌, refl, sym, ap, ◌∙◌, Bool, true, false, ◌||◌,
  Option, none, some, is_some, List, [], ◌∷◌, ◌++◌, arith, if◌then◌else◌, length, length-append,
  drop, drop-length_append, Text, text, text_eq, text_eq_iff, to_string, to_string_injective, Map,
  lookup, contains, keys,
}
use aisuite.Json.{Json, JsonLaws}
use aisuite.Bridge.State.{Core}
use aisuite.Bridge.Ids.{
  fresh, key_of, is_outstanding, id_fuel, local_id, remote_id, next_local_request_id,
  next_frontend_request_id,
}

pub mem : Text → List Text → Bool
mem k [] = false
mem k (x ∷ xs) = text_eq x k || mem k xs

remove : Text → List Text → List Text
remove k [] = []
remove k (x ∷ xs) = if text_eq x k then xs else x ∷ remove k xs

length-remove :
    (k : Text) (xs : List Text) → mem k xs ≡ true → length xs ≡ suc (length (remove k xs))
unfolding mem remove
length-remove k [] e = cc
length-remove k (x ∷ xs) e = ground (arith, length-remove k xs)

mem-remove : (k l : Text) (xs : List Text) → mem l xs ≡ true → k ≢ l → mem l (remove k xs) ≡ true
unfolding mem remove
mem-remove k l [] e ne = cc
mem-remove k l (x ∷ xs) e ne = ground (arith, mem-remove k l xs, text_eq_iff x k, text_eq_iff x l)

-- As many different texts as stand in a list are at most the list's length.
pigeonhole :
    (m : ℕ) (c : ℕ → Text) (xs : List Text)
    → ((i : ℕ) → i < m → mem (c i) xs ≡ true)
    → ((i k : ℕ) → i < m → k < m → c i ≡ c k → i ≡ k)
    → m ≤ length xs
pigeonhole zero c xs all apart = omega arith
pigeonhole (suc m) c xs all apart =
    let rest =
      pigeonhole m c (remove (c m) xs)
        (λ i lt.
          mem-remove (c m) (c i) xs (all i (omega arith))
            (λ e. absurd (omega (arith, apart m i (omega arith) (omega arith) e))))
        (λ i k lt lt' e. apart i k (omega arith) (omega arith) e) in
    omega (arith, length-remove (c m) xs (all m (omega arith)))

pub fresh-not_taken :
    (candidate : ℕ → Text) (is_taken : Text → Bool) (fuel n : ℕ) (id : Text) (next : ℕ)
    → fresh candidate is_taken fuel n ≡ some (id, next)
    → is_taken id ≡ false
unfolding fresh
fresh-not_taken candidate is_taken zero n id next e = cc
fresh-not_taken candidate is_taken (suc fuel) n id next e =
    ground (arith, fresh-not_taken candidate is_taken fuel ((n + 1) % 2 ^ 64) id next)

-- A search that does not end has met taken ids only.
fresh-all_taken :
    (candidate : ℕ → Text) (is_taken : Text → Bool) (fuel n : ℕ)
    → n < 2 ^ 64
    → fresh candidate is_taken fuel n ≡ none
    → (i : ℕ) → i < fuel
    → is_taken (candidate ((n + i) % 2 ^ 64)) ≡ true
unfolding fresh
fresh-all_taken candidate is_taken zero n b e i lt = absurd (omega arith)
fresh-all_taken candidate is_taken (suc fuel) n b e zero lt =
    let same : (n + zero) % 2 ^ 64 ≡ n = omega arith in rw same (ground arith)
fresh-all_taken candidate is_taken (suc fuel) n b e (suc i) lt =
    let next : ℕ = (n + 1) % 2 ^ 64 in
    let same : (n + suc i) % 2 ^ 64 ≡ (next + i) % 2 ^ 64 = omega arith in
    rw same
      (fresh-all_taken candidate is_taken fuel next (omega arith) (ground arith) i (omega arith))

-- With more fuel than texts that are taken, and candidates that differ, the search ends.
pub fresh-total :
    (candidate : ℕ → Text) (is_taken : Text → Bool) (fuel n : ℕ) (taken : List Text)
    (key : Text → Text)
    → n < 2 ^ 64
    → fuel < 2 ^ 64
    → length taken < fuel
    → ((id : Text) → is_taken id ≡ true → mem (key id) taken ≡ true)
    → ((a b : ℕ) → key (candidate a) ≡ key (candidate b) → a ≡ b)
    → is_some (fresh candidate is_taken fuel n) ≡ true
fresh-total candidate is_taken fuel n taken key b fb more covers apart =
    go (fresh candidate is_taken fuel n) refl
  where
    go : (r : Option (Text × ℕ)) → fresh candidate is_taken fuel n ≡ r → is_some r ≡ true
    go (some x) e = refl
    go none e = absurd (
        omega (
          arith,
          pigeonhole fuel (λ i. key (candidate ((n + i) % 2 ^ 64))) taken
              (λ i lt. covers _ (fresh-all_taken candidate is_taken fuel n b e i lt))
              (λ i k lt lt' same. omega (arith, apart ((n + i) % 2 ^ 64) ((n + k) % 2 ^ 64) same)),
        ))

append_cancel : (p a b : Text) → p ++ a ≡ p ++ b → a ≡ b
append_cancel p a b e =
    sym (drop-length_append p a) ∙ ap (drop (length p)) e ∙ drop-length_append p b

mem-append : (k : Text) (xs ys : List Text) → mem k (xs ++ ys) ≡ mem k xs || mem k ys
unfolding mem
mem-append k [] ys = refl
mem-append k (x ∷ xs) ys = ground (arith, mem-append k xs ys)

module _ {ℓ} {V : Type ℓ} where
  mem-keys : (k : Text) (m : Map V) → contains k m ≡ true → mem k (keys m) ≡ true
  unfolding mem keys lookup
  mem-keys k [] e = cc
  mem-keys k ((i, v) ∷ m) e = ground (arith, mem-keys k m)

  length-keys : (m : Map V) → length (keys m) ≡ length m
  unfolding keys
  length-keys [] = refl
  length-keys ((i, v) ∷ m) = ap suc (length-keys m)

module _ {j : Json} (laws : JsonLaws j) (c : Core j) where
  -- The keys that an id can collide with.
  outstanding : List Text
  outstanding = keys c.local_requests ++ keys c.frontend_request_owners

  length-outstanding : suc (length outstanding) ≡ id_fuel c
  unfolding outstanding
  length-outstanding = omega (
    arith,
    length-append (keys c.local_requests) (keys c.frontend_request_owners),
    length-keys c.local_requests,
    length-keys c.frontend_request_owners,
  )

  outstanding-covers :
      (id : Text) → is_outstanding c id ≡ true → mem (key_of j id) outstanding ≡ true
  unfolding is_outstanding outstanding
  outstanding-covers id e =
      let key = key_of j id in
      ground (
        arith,
        mem-append key (keys c.local_requests) (keys c.frontend_request_owners),
        mem-keys key c.local_requests,
        mem-keys key c.frontend_request_owners,
      )

  remote_id_injective :
      (connection_id : Text) (a b : ℕ)
      → key_of j (remote_id c connection_id a) ≡ key_of j (remote_id c connection_id b)
      → a ≡ b
  unfolding remote_id
  remote_id_injective id a b e =
      let p = text "codex-remote-" in
      let g = to_string c.provider_generation in
      let e₁ = append_cancel p _ _ (laws.dump-string_injective _ _ e) in
      let e₂ = append_cancel g _ _ e₁ in
      let e₃ = append_cancel (b'-' ∷ id) _ _ e₂ in
      to_string_injective a b (append_cancel (b'-' ∷ []) _ _ e₃)

  local_id_injective : (a b : ℕ) → key_of j (local_id c a) ≡ key_of j (local_id c b) → a ≡ b
  unfolding local_id
  local_id_injective a b e =
      let p = text "codex-local-" in
      let g = to_string c.provider_generation in
      let e₁ = append_cancel p _ _ (laws.dump-string_injective _ _ e) in
      let e₂ = append_cancel g _ _ e₁ in to_string_injective a b (append_cancel (b'-' ∷ []) _ _ e₂)

  -- For a JSON library that obeys the laws, the search for the id of a forwarded request
  -- returns one, if the running number and one more than the outstanding requests are below
  -- 2^64.
  pub next_frontend_request_id-total :
      (connection_id : Text)
      → c.next_frontend_request_number < 2 ^ 64
      → id_fuel c < 2 ^ 64
      → is_some (next_frontend_request_id c connection_id) ≡ true
  unfolding next_frontend_request_id
  next_frontend_request_id-total connection_id b fits =
      fresh-total (remote_id c connection_id) (is_outstanding c) (id_fuel c)
        c.next_frontend_request_number outstanding (key_of j) b fits
        (omega (arith, length-outstanding)) outstanding-covers (remote_id_injective connection_id)

  -- For a JSON library that obeys the laws, the search for the id of a local request returns
  -- one, if the running number and one more than the outstanding requests are below 2^64.
  pub next_local_request_id-total :
      c.next_local_request_number < 2 ^ 64
      → id_fuel c < 2 ^ 64
      → is_some (next_local_request_id c) ≡ true
  unfolding next_local_request_id
  next_local_request_id-total b fits =
      fresh-total (local_id c) (is_outstanding c) (id_fuel c) c.next_local_request_number
        outstanding (key_of j) b fits (omega (arith, length-outstanding)) outstanding-covers
        local_id_injective

module _ {j : Json} (c : Core j) where
  free_key :
      (id : Text)
      → is_outstanding c id ≡ false
      → (lookup (key_of j id) c.local_requests ≡ none)
        × (lookup (key_of j id) c.frontend_request_owners ≡ none)
  unfolding is_outstanding
  free_key id e = ground arith

  -- If the search for the id of a forwarded request returns an id, its key is in neither table
  -- of outstanding requests.
  pub next_frontend_request_id-free :
      (connection_id id : Text) (next : ℕ)
      → next_frontend_request_id c connection_id ≡ some (id, next)
      → (lookup (key_of j id) c.local_requests ≡ none)
        × (lookup (key_of j id) c.frontend_request_owners ≡ none)
  unfolding next_frontend_request_id
  next_frontend_request_id-free connection_id id next e = free_key id (
      fresh-not_taken (remote_id c connection_id) (is_outstanding c) (id_fuel c)
        c.next_frontend_request_number id next e)

  pub next_local_request_id-free :
      (id : Text) (next : ℕ)
      → next_local_request_id c ≡ some (id, next)
      → (lookup (key_of j id) c.local_requests ≡ none)
        × (lookup (key_of j id) c.frontend_request_owners ≡ none)
  unfolding next_local_request_id
  next_local_request_id-free id next e = free_key id (
      fresh-not_taken (local_id c) (is_outstanding c) (id_fuel c) c.next_local_request_number id
        next e)
