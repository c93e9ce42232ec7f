-- ===== src/Bridge/Invariant.antt =====
-- CodexBridge: the well-formedness of its tables.
pub mod Seats
pub mod Departure
pub mod Requests
pub mod Arrivals
pub mod Messages
pub mod Traffic
pub mod Transport
pub mod Progress
pub mod Histories
use mathlib.Core.Option
use aisuite.Common.{
  ℕ, ◌+◌, ◌<◌, ◌≡◌, Bool, true, Option, none, some, Text, Map, lookup, contains, Distinct,
}
use aisuite.Json.{Json}
use aisuite.Envelope.{Role, controller}
use aisuite.Bridge.State.{FrontendRecord, ServerRequestOwner, LocalRequest, FrontendRequest, Core}
use aisuite.Bridge.Frontends.{connection_name, is_frontend}
use aisuite.Bridge.Forward.{frontend_key_of}

abbrev pub role_of : Map FrontendRecord → Text → Option Role
role_of frontends id = Option.map (λ r. r.role) (lookup id frontends)

-- A frontend has the controller's role exactly when it is the controller; so there is one at most,
-- and it is registered.
pub record RolesAgree (frontends : Map FrontendRecord) (leader : Option Text) : Type 0 where
  pub leads : (id : Text) → leader ≡ some id → role_of frontends id ≡ some controller
  pub only : (id : Text) → role_of frontends id ≡ some controller → leader ≡ some id

-- The ids that were given out are the names of smaller numbers.
abbrev pub Named : Map FrontendRecord → ℕ → Type 0
Named frontends next =
    (id : Text) → contains id frontends ≡ true → (n : ℕ) × (n < next) × (id ≡ connection_name n)

module _ {j : Json} where
  -- The two tables of forwarded requests are inverse to one another, what waits belongs to
  -- frontends that are registered, and no id waits for the local application and a frontend both.
  pub record Matched (c : Core j) : Type 0 where
    pub keyed :
        (k : Text) (r : FrontendRequest j)
        → lookup k c.frontend_request_owners ≡ some r
        → lookup r.frontend_key c.frontend_request_keys ≡ some k
    pub owned :
        (f k : Text)
        → lookup f c.frontend_request_keys ≡ some k
        → (r : FrontendRequest j) × (lookup k c.frontend_request_owners ≡ some r)
          × (r.frontend_key ≡ f)
    pub prefixed :
        (k : Text) (r : FrontendRequest j)
        → lookup k c.frontend_request_owners ≡ some r
        → (id : Text) × (r.frontend_key ≡ frontend_key_of r.connection_id id)
    pub registered :
        (k : Text) (r : FrontendRequest j)
        → lookup k c.frontend_request_owners ≡ some r
        → contains r.connection_id c.frontends ≡ true
    pub apart :
        (k : Text) (r : FrontendRequest j)
        → lookup k c.frontend_request_owners ≡ some r
        → lookup k c.local_requests ≡ none
    pub waiting :
        (k : Text) (o : ServerRequestOwner j)
        → lookup k c.app_server_request_owners ≡ some o
        → is_frontend o.kind ≡ true
        → contains o.frontend_connection_id c.frontends ≡ true
    pub distinct_owners : Distinct c.frontend_request_owners
    pub distinct_keys : Distinct c.frontend_request_keys

  pub record IsValid (c : Core j) : Type 0 where
    pub named : Named c.frontends c.next_connection_number
    pub roles : RolesAgree c.frontends c.controller
    pub matched : Matched c
