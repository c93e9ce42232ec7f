-- ===== src/Sdk/State.antt =====
-- src/ai/openai/codex/frontend/CodexBridge.h: the members of the frontend's CodexBridge, and the
-- functions that it is given.
use aisuite.Common.{ℕ, Bool, false, Option, none, some, List, [], ◌∷◌, Text, Map}
use aisuite.Json.{Json}
use aisuite.Envelope.{Role, AppServerDirection}
use aisuite.Bridge.State.{Handler}

-- A call of a function that was given: the sender, which accepts or refuses, and the callbacks.
pub data Upcall (j : Json) : Type 0 where
  sent refused : ℕ → j.Value → Upcall j
  observed : ℕ → AppServerDirection → j.Value → Upcall j
  notified : ℕ → j.Value → Upcall j
  called : ℕ → j.Value → Upcall j

-- The calls made so far, the last one first, decide how the next one is answered.
pub record Surroundings (j : Json) : Type 0 where
  pub accepts : List (Upcall j) → ℕ → j.Value → Bool
  pub throws : List (Upcall j) → ℕ → j.Value → Bool

pub record FrontendBridge (j : Json) : Type 0 where
  pub sender : Handler
  pub raw_handler : Handler
  pub bridge_event_handler : Handler
  pub pending : Map Handler
  pub server_request_handlers : Map Handler
  pub server_notification_handlers : Map Handler
  pub connection_id : Option Text
  pub controller_connection_id : Option Text
  pub role : Option Role
  pub provider_generation : ℕ
  pub provider_ready : Bool
  pub next_request_number : ℕ
  pub trace : List (Upcall j)

module _ {j : Json} where
  -- The constructor.
  unfoldable pub new_frontend : Handler → FrontendBridge j
  new_frontend sender = record {
    sender = sender;
    raw_handler = none;
    bridge_event_handler = none;
    pending = [];
    server_request_handlers = [];
    server_notification_handlers = [];
    connection_id = none;
    controller_connection_id = none;
    role = none;
    provider_generation = 0;
    provider_ready = false;
    next_request_number = 1;
    trace = [];
  }

  abbrev pub record_call : FrontendBridge j → Upcall j → FrontendBridge j
  record_call s e = record s { trace = e ∷ s.trace }

  unfoldable pub watch_raw : FrontendBridge j → AppServerDirection → j.Value → FrontendBridge j
  watch_raw s direction message = elim s.raw_handler [
    | none ↦ s
    | some h ↦ record_call s (observed h direction message)
  ]

  -- A handler that is not empty is called; what it throws is logged, or dropped.
  unfoldable pub hand_over : FrontendBridge j → Handler → j.Value → FrontendBridge j
  hand_over s none message = s
  hand_over s (some h) message = record_call s (called h message)
