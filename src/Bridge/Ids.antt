-- ===== src/Bridge/Ids.antt =====
-- CodexBridge::nextLocalRequestId and nextFrontendRequestId: `do … while` over a running number.
pub mod Fresh
use aisuite.Common.{
  ℕ, zero, suc, ◌+◌, ◌%◌, ◌^◌, Bool, ◌||◌, Option, none, some, ◌∷◌, ◌++◌, if◌then◌else◌, length,
  Text, text, to_string, contains,
}
use aisuite.Json.{Json}
use aisuite.Bridge.State.{Core}

-- The first candidate from `n` on that is not taken, with the number after it; `none` means that
-- the fuel ran out.
unfoldable pub fresh : (ℕ → Text) → (Text → Bool) → ℕ → ℕ → Option (Text × ℕ)
fresh candidate is_taken zero n = none
fresh candidate is_taken (suc fuel) n =
    let next : ℕ = (n + 1) % 2 ^ 64 in
    let rest : Option (Text × ℕ) = fresh candidate is_taken fuel next in
    if is_taken (candidate n) then rest else some (candidate n, next)

-- The key of a string id.
abbrev pub key_of : (j : Json) → Text → Text
key_of j id = j.dump (j.string id)

module _ {j : Json} where
  unfoldable pub is_outstanding : Core j → Text → Bool
  is_outstanding c id =
      contains (key_of j id) c.local_requests || contains (key_of j id) c.frontend_request_owners

  -- One more than the entries that can be in the way.
  abbrev pub id_fuel : Core j → ℕ
  id_fuel c = suc (length c.local_requests + length c.frontend_request_owners)

  unfoldable pub local_id : Core j → ℕ → Text
  local_id c n = text "codex-local-" ++ (to_string c.provider_generation ++ (b'-' ∷ to_string n))

  unfoldable pub remote_id : Core j → Text → ℕ → Text
  remote_id c connection_id n =
      text "codex-remote-"
      ++ (to_string c.provider_generation ++ (b'-' ∷ (connection_id ++ (b'-' ∷ to_string n))))

  unfoldable pub next_local_request_id : Core j → Option (Text × ℕ)
  next_local_request_id c =
      fresh (local_id c) (is_outstanding c) (id_fuel c) c.next_local_request_number

  unfoldable pub next_frontend_request_id : Core j → Text → Option (Text × ℕ)
  next_frontend_request_id c connection_id =
      fresh (remote_id c connection_id) (is_outstanding c) (id_fuel c)
        c.next_frontend_request_number
