-- ===== src/Bridge/Invariant/Histories.antt =====
-- CodexBridge: the calls of its public operations as steps, and sequences of them.
use aisuite.Common.{
  ℕ, ◌≡◌, ◌+◌, ◌<◌, ◌^◌, Option, none, some, true, Text, lookup, contains, Map, [],
}
use aisuite.Json.{Json}
use aisuite.Envelope.{controller}
use aisuite.Bridge.State.{Options, Handler, FrontendRecord, World, Bridge, new_core, new, with_core}
use aisuite.Bridge.Frontends.{register_frontend, unregister_frontend}
use aisuite.Bridge.Ids.{next_local_request_id}
use aisuite.Bridge.Control.{receive_from_frontend}
use aisuite.Bridge.Local.{
  register_handler, on_raw_json, on_provider_lifecycle, register_server_request_handler,
  register_server_notification_handler, send_raw_json, send_local, send_local_notification,
}
use aisuite.Bridge.Lifecycle.{app_server_connected, app_server_disconnected, set_app_server_ready}
use aisuite.Bridge.Provider.{receive_from_app_server}
use aisuite.Bridge.Invariant.{role_of, IsValid}
use aisuite.Bridge.Invariant.Arrivals.{register_frontend-IsValid, unregister_frontend-IsValid}
use aisuite.Bridge.Invariant.Messages.{sent-IsValid, AllValid, receive_from_frontend-AllValid}
use aisuite.Bridge.Invariant.Traffic.{receive_from_app_server-IsValid}
use aisuite.Bridge.Invariant.Transport.{
  lookup-nil, other-IsValid, app_server_connected-IsValid, app_server_disconnected-IsValid,
  set_app_server_ready-IsValid, send_raw_json-IsValid, send_local-IsValid,
}

named_nil : (id : Text) → contains {V = FrontendRecord} id [] ≡ true → ⊥
unfolding lookup
named_nil id e = cc

role_nil : (id : Text) → role_of [] id ≡ some controller → ⊥
unfolding lookup
role_nil id e = cc

module _ {j : Json} (w : World j) where
  open j use {Value}

  -- One call of an operation. Registrations are counted with a number of 64 bits, and the steps
  -- end before it wraps.
  pub data Step : Bridge j → Bridge j → Type 0 where
    registers :
        {s : Bridge j} (endpoint : ℕ)
        → s.next_connection_number + 1 < 2 ^ 64
        → Step s (register_frontend w s endpoint).0
    unregisters : {s : Bridge j} (id : Text) → Step s (unregister_frontend w s id)
    hears :
        {s t : Bridge j} (id : Text) (m : Value)
        → receive_from_frontend w s id m ≡ some t
        → Step s t
    receives : {s : Bridge j} (m : Value) → Step s (receive_from_app_server w s m)
    connects : {s : Bridge j} → Step s (app_server_connected w s)
    disconnects : {s : Bridge j} (reason : Text) → Step s (app_server_disconnected w s reason)
    readies : {s : Bridge j} → Step s (set_app_server_ready w s)
    sends_raw : {s : Bridge j} (m : Value) → Step s (send_raw_json w s m).0
    asks :
        {s : Bridge j} (method : Text) (params : Option Value) (h : Handler) (id : Text) (next : ℕ)
        → next_local_request_id s.core ≡ some (id, next)
        → Step s (send_local w s method params h (id, next))
    notifies :
        {s : Bridge j} (method : Text) (params : Option Value)
        → Step s (send_local_notification w s method params).0
    attaches :
        {s : Bridge j} (e : ℕ)
        → s.app_server ≡ none
        → Step s (with_core s (record (s.core) { app_server = some e }))
    detaches : {s : Bridge j} → Step s (with_core s (record (s.core) { app_server = none }))
    watches : {s : Bridge j} (h : Handler) → Step s (on_raw_json s h)
    follows : {s : Bridge j} (h : Handler) → Step s (on_provider_lifecycle s h)
    serves :
        {s : Bridge j} (method : Text) (h : Handler)
        → Step s (register_server_request_handler s method h)
    listens :
        {s : Bridge j} (method : Text) (h : Handler)
        → Step s (register_server_notification_handler s method h)

  pub data Reaches : Bridge j → Bridge j → Type 0 where
    here : {s : Bridge j} → Reaches s s
    then : {s t u : Bridge j} → Step s t → Reaches t u → Reaches s u

  pub new-IsValid : (options : Options) → IsValid (new_core {j = j} options)
  unfolding new_core
  new-IsValid options = record {
    named = λ id e. absurd (named_nil id e);
    roles = record { leads = λ id e. cc; only = λ id e. absurd (role_nil id e) };
    matched = record {
      keyed = λ k r e. absurd (lookup-nil k e);
      owned = λ f k e. absurd (lookup-nil f e);
      prefixed = λ k r e. absurd (lookup-nil k e);
      registered = λ k r e. absurd (lookup-nil k e);
      apart = λ k r e. absurd (lookup-nil k e);
      waiting = λ k o e f. absurd (lookup-nil k e);
      distinct_owners = tt;
      distinct_keys = tt;
    };
  }

  members_of :
      (s : Bridge j) (app_server : Option ℕ) (raw lifecycle : Handler)
      (requests notifications : Map Handler)
      → IsValid s.core
      → IsValid (record (s.core) {
        app_server = app_server;
        raw_handler = raw;
        lifecycle_handler = lifecycle;
        server_request_handlers = requests;
        server_notification_handlers = notifications;
      })
  members_of s a r l q n v =
      other-IsValid s.core a r l q n s.next_local_request_number s.provider_generation
        s.app_server_ready v

  some-IsValid : (o : Option (Bridge j)) (t : Bridge j) → o ≡ some t → AllValid o → IsValid t.core
  some-IsValid none t e v = cc
  some-IsValid (some s) t e v = let same : t ≡ s = cc in rw same v

  Step-IsValid : {s t : Bridge j} → Step s t → IsValid s.core → IsValid t.core
  unfolding on_raw_json on_provider_lifecycle register_server_request_handler
      register_server_notification_handler send_local_notification
  Step-IsValid {s} (registers e small) v = register_frontend-IsValid w s e small v
  Step-IsValid {s} (unregisters id) v = unregister_frontend-IsValid w s id v
  Step-IsValid {s} (hears id m e) v = some-IsValid _ _ e (receive_from_frontend-AllValid w s id m v)
  Step-IsValid {s} (receives m) v = receive_from_app_server-IsValid w s m v
  Step-IsValid {s} connects v = app_server_connected-IsValid w s v
  Step-IsValid {s} (disconnects reason) v = app_server_disconnected-IsValid w s reason v
  Step-IsValid {s} readies v = set_app_server_ready-IsValid w s v
  Step-IsValid {s} (sends_raw m) v = send_raw_json-IsValid w s m v
  Step-IsValid {s} (asks method params h id next e) v =
      send_local-IsValid w s method params h id next e v
  Step-IsValid {s} (notifies method params) v = sent-IsValid w s _ v
  Step-IsValid {s} (attaches e free) v =
      members_of s (some e) s.raw_handler s.lifecycle_handler s.server_request_handlers
        s.server_notification_handlers v
  Step-IsValid {s} detaches v =
      members_of s none s.raw_handler s.lifecycle_handler s.server_request_handlers
        s.server_notification_handlers v
  Step-IsValid {s} (watches h) v =
      members_of s s.app_server h s.lifecycle_handler s.server_request_handlers
        s.server_notification_handlers v
  Step-IsValid {s} (follows h) v =
      members_of s s.app_server s.raw_handler h s.server_request_handlers
        s.server_notification_handlers v
  Step-IsValid {s} (serves method h) v =
      members_of s s.app_server s.raw_handler s.lifecycle_handler
        (register_handler method h s.server_request_handlers) s.server_notification_handlers v
  Step-IsValid {s} (listens method h) v =
      members_of s s.app_server s.raw_handler s.lifecycle_handler s.server_request_handlers
        (register_handler method h s.server_notification_handlers) v

  Reaches-IsValid : {s t : Bridge j} → Reaches s t → IsValid s.core → IsValid t.core
  Reaches-IsValid here v = v
  Reaches-IsValid (then step rest) v = Reaches-IsValid rest (Step-IsValid step v)

  -- A bridge that any sequence of steps reaches from a new one, with any options, has well-
  -- formed tables.
  pub reached-IsValid :
      (options : Options) (s : Bridge j) → Reaches (new options) s → IsValid s.core
  unfolding new
  reached-IsValid options s r = Reaches-IsValid r (new-IsValid options)
