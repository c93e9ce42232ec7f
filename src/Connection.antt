-- ===== src/Connection.antt =====
-- src/ai/openai/codex/frontend/client/ClientConnection.cpp: the client's end of one transport.
pub mod Sessions
use aisuite.Common.{
  ℕ, Bool, true, false, not, ◌&&◌, ◌||◌, Option, none, some, is_some, List, [], ◌∷◌, ◌==◌,
  if◌then◌else◌, Text, text,
}

-- What the SDK makes of a message.
pub data Reception : Type 0 where
  accepted refused threw : Reception

-- The calls that leave the connection: callbacks, the endpoint's, and the SDK's.
pub data Signal (V : Type 0) : Type 0 where
  on_connected on_disconnected : Signal V
  on_failure : Text → Signal V
  closed : ℕ → Text → Signal V
  delivered : V → Signal V
  passed : ℕ → V → Signal V
  transport_disconnected : Text → Signal V

pub record ClientConnection (V : Type 0) : Type 0 where
  pub endpoint : Option ℕ
  pub online : Bool
  pub shutting_down : Bool
  pub failure_reported : Bool
  pub signals : List (Signal V)

-- The other side: which callbacks there are, how the SDK takes a message, and whether the endpoint
-- takes one (an exception of it counts as `false`).
pub record Peers (V : Type 0) : Type 0 where
  pub has_on_connected : Bool
  pub has_on_disconnected : Bool
  pub has_on_failure : Bool
  pub receives : V → Reception
  pub takes : V → Bool

-- `endpoint_ == &endpoint`.
unfoldable pub is_endpoint : Option ℕ → ℕ → Bool
is_endpoint none e = false
is_endpoint (some o) e = o == e

module _ {V : Type 0} (p : Peers V) where
  abbrev pub signal : Signal V → ClientConnection V → ClientConnection V
  signal x c = record c { signals = x ∷ c.signals }

  unfoldable pub signal_if : Bool → Signal V → ClientConnection V → ClientConnection V
  signal_if b x c = if b then signal x c else c

  unfoldable pub attach : ClientConnection V → ℕ → ClientConnection V × Bool
  attach c e =
      if c.shutting_down || (is_some c.endpoint && not (is_endpoint c.endpoint e))
      then (c, false)
      else (record c { endpoint = some e; failure_reported = false }, true)

  unfoldable pub connected : ClientConnection V → ℕ → ClientConnection V
  connected c e =
      if not (is_endpoint c.endpoint e) || c.shutting_down || c.online
      then c
      else signal_if p.has_on_connected on_connected (record c { online = true })

  unfoldable pub report_failure : ClientConnection V → Text → ClientConnection V
  report_failure c reason =
      if c.failure_reported
      then c
      else signal_if p.has_on_failure (on_failure reason) (record c { failure_reported = true })

  unfoldable pub failed : ClientConnection V → ℕ → Text → ClientConnection V
  failed c e reason =
      if not (is_endpoint c.endpoint e)
      then c
      else signal (closed e reason) (report_failure c reason)

  unfoldable pub taken_in : ClientConnection V → ℕ → Reception → ClientConnection V
  taken_in c e accepted = c
  taken_in c e refused = failed c e (text "bridge client received an invalid envelope")
  taken_in c e threw = failed c e (text "bridge client failed while dispatching an envelope")

  unfoldable pub receive : ClientConnection V → ℕ → V → ClientConnection V
  receive c e m =
      if not (is_endpoint c.endpoint e) || not c.online || c.shutting_down
      then c
      else taken_in (signal (delivered m) c) e (p.receives m)

  unfoldable pub detach : ClientConnection V → ℕ → Text → ClientConnection V
  detach c e reason =
      let why : Text = if c.shutting_down then text "bridge client shutdown" else reason in
      let left : ClientConnection V = record c {
        endpoint = none;
        online = false;
        failure_reported = false;
      } in
      if not (is_endpoint c.endpoint e)
      then c
      else signal_if (c.online && p.has_on_disconnected) on_disconnected
          (signal (transport_disconnected why) left)

  unfoldable pub disconnect : ClientConnection V → Text → ClientConnection V
  disconnect c reason = elim c.endpoint [
    | none ↦ c
    | some e ↦ if c.shutting_down then c else signal (closed e reason) c
  ]

  unfoldable pub shut_endpoint : ClientConnection V → Option ℕ → ClientConnection V
  shut_endpoint c none = signal (transport_disconnected (text "bridge client shutdown")) c
  shut_endpoint c (some e) = signal (closed e (text "bridge client shutdown")) c

  unfoldable pub shutdown : ClientConnection V → ClientConnection V
  shutdown c =
      if c.shutting_down then c else shut_endpoint (record c { shutting_down = true }) c.endpoint

  unfoldable pub send : ClientConnection V → V → ClientConnection V × Bool
  send c m = elim c.endpoint [
    | none ↦ (c, false)
    | some e ↦
        if not c.online || c.shutting_down
        then (c, false)
        else if p.takes m
        then (signal (passed e m) c, true)
        else (c, false)
  ]
