-- ===== src/Connection/Sessions.antt =====
-- ClientConnection: sequences of its calls.
use aisuite.Common.{ℕ, ◌≡◌, refl, ◌∙◌, Bool, true, not, ◌||◌, is_some, List, [], ◌∷◌, arith, Text}
use aisuite.Connection.{
  Reception, accepted, refused, threw, Signal, on_connected, on_disconnected, on_failure, closed,
  delivered, passed, transport_disconnected, ClientConnection, Peers, is_endpoint, signal_if,
  attach, connected, report_failure, failed, taken_in, receive, detach, disconnect, shut_endpoint,
  shutdown, send,
}

-- One call of an operation.
pub data Call (V : Type 0) : Type 0 where
  attaches connects : ℕ → Call V
  receives : ℕ → V → Call V
  fails detaches : ℕ → Text → Call V
  disconnects : Text → Call V
  shuts_down : Call V
  sends : V → Call V

module _ {V : Type 0} (p : Peers V) where
  unfoldable pub perform : ClientConnection V → Call V → ClientConnection V
  perform c (attaches e) = (attach p c e).0
  perform c (connects e) = connected p c e
  perform c (receives e m) = receive p c e m
  perform c (fails e reason) = failed p c e reason
  perform c (detaches e reason) = detach p c e reason
  perform c (disconnects reason) = disconnect p c reason
  perform c shuts_down = shutdown p c
  perform c (sends m) = (send p c m).0

  unfoldable pub perform_all : ClientConnection V → List (Call V) → ClientConnection V
  perform_all c [] = c
  perform_all c (x ∷ xs) = perform_all (perform c x) xs

-- The messages that went through, in either direction, the last one first.
unfoldable pub messages : {V : Type 0} → List (Signal V) → List V
messages [] = []
messages (delivered m ∷ t) = m ∷ messages t
messages (passed e m ∷ t) = m ∷ messages t
messages (on_connected ∷ t) = messages t
messages (on_disconnected ∷ t) = messages t
messages (on_failure reason ∷ t) = messages t
messages (closed e reason ∷ t) = messages t
messages (transport_disconnected reason ∷ t) = messages t

-- Only an attached connection is online.
abbrev pub is_sound : {V : Type 0} → ClientConnection V → Bool
is_sound c = not c.online || is_some c.endpoint

module _ {V : Type 0} (p : Peers V) where
  failed-is_sound :
      (c : ClientConnection V) (e : ℕ) (reason : Text)
      → is_sound c ≡ true
      → is_sound (failed p c e reason) ≡ true
  unfolding failed report_failure signal_if
  failed-is_sound c e reason v = ground arith

  taken_in-is_sound :
      (c : ClientConnection V) (e : ℕ) (r : Reception)
      → is_sound c ≡ true
      → is_sound (taken_in p c e r) ≡ true
  unfolding taken_in
  taken_in-is_sound c e accepted v = v
  taken_in-is_sound c e refused v = failed-is_sound c e _ v
  taken_in-is_sound c e threw v = failed-is_sound c e _ v

  perform-is_sound :
      (c : ClientConnection V) (x : Call V) → is_sound c ≡ true → is_sound (perform p c x) ≡ true
  unfolding perform attach connected receive detach disconnect shutdown shut_endpoint send signal_if
      is_endpoint
  perform-is_sound c (attaches e) v = ground arith
  perform-is_sound c (connects e) v = ground arith
  perform-is_sound c (receives e m) v =
      ground (
        arith,
        taken_in-is_sound (record c { signals = delivered m ∷ c.signals }) e (p.receives m) v,
      )
  perform-is_sound c (fails e reason) v = failed-is_sound c e reason v
  perform-is_sound c (detaches e reason) v = ground arith
  perform-is_sound c (disconnects reason) v = ground arith
  perform-is_sound c shuts_down v = ground arith
  perform-is_sound c (sends m) v = ground arith

  -- If a connection is offline or attached, so it is after any sequence of calls.
  pub perform_all-is_sound :
      (c : ClientConnection V) (xs : List (Call V))
      → is_sound c ≡ true
      → is_sound (perform_all p c xs) ≡ true
  unfolding perform_all
  perform_all-is_sound c [] v = v
  perform_all-is_sound c (x ∷ xs) v =
      perform_all-is_sound (perform p c x) xs (perform-is_sound c x v)

  perform-shut :
      (c : ClientConnection V) (x : Call V)
      → c.shutting_down ≡ true
      → ((perform p c x).shutting_down ≡ true)
        × (messages (perform p c x).signals ≡ messages c.signals)
  unfolding perform attach connected receive failed report_failure detach disconnect shutdown send
      signal_if messages
  perform-shut c (attaches e) v = ground arith
  perform-shut c (connects e) v = ground arith
  perform-shut c (receives e m) v = ground arith
  perform-shut c (fails e reason) v = ground arith
  perform-shut c (detaches e reason) v = ground arith
  perform-shut c (disconnects reason) v = ground arith
  perform-shut c shuts_down v = ground arith
  perform-shut c (sends m) v = ground arith

  -- On a connection that is shut down, no sequence of calls lets a message through, in either
  -- direction, and it stays shut down.
  pub perform_all-shut :
      (c : ClientConnection V) (xs : List (Call V))
      → c.shutting_down ≡ true
      → ((perform_all p c xs).shutting_down ≡ true)
        × (messages (perform_all p c xs).signals ≡ messages c.signals)
  unfolding perform_all
  perform_all-shut c [] v = (v, refl)
  perform_all-shut c (x ∷ xs) v =
      let (shut, same) = perform-shut c x v in
      let (shut', same') = perform_all-shut (perform p c x) xs shut in (shut', same' ∙ same)
