-- ===== src/Bridge/State.antt =====
-- src/ai/openai/codex/bridge/CodexBridge.h: the members of CodexBridge, and Endpoint.h as the
-- outside world that answers its calls.
use aisuite.Common.{ℕ, ◌+◌, ◌%◌, ◌^◌, Bool, false, Option, none, [], List, ◌∷◌, Text, Map}
use aisuite.Json.{Json}
use aisuite.Envelope.{Role, AppServerDirection}

pub record Options : Type 0 where
  pub first_frontend_becomes_controller : Bool
  pub observers_may_read : Bool
  pub maximum_frontends : ℕ

-- A callback; `none` is an empty `std::function`.
abbrev pub Handler : Type 0
Handler = Option ℕ

pub record FrontendRecord : Type 0 where
  pub endpoint : ℕ
  pub role : Role

pub data OwnerKind : Type 0 where
  local_application frontend : OwnerKind

pub record ServerRequestOwner (j : Json) : Type 0 where
  pub kind : OwnerKind
  pub frontend_connection_id : Text
  pub id : j.Value

pub record LocalRequest (j : Json) : Type 0 where
  pub id : j.Value
  pub handler : Handler

pub record FrontendRequest (j : Json) : Type 0 where
  pub connection_id : Text
  pub frontend_id : j.Value
  pub frontend_key : Text

-- The members of the class, but for the sequence number.
pub record Core (j : Json) : Type 0 where
  pub options : Options
  pub open options use *
  pub app_server : Option ℕ
  pub raw_handler : Handler
  pub lifecycle_handler : Handler
  pub frontends : Map FrontendRecord
  pub controller : Option Text
  pub frontend_request_owners : Map (FrontendRequest j)
  pub frontend_request_keys : Map Text
  pub local_requests : Map (LocalRequest j)
  pub app_server_request_owners : Map (ServerRequestOwner j)
  pub server_request_handlers : Map Handler
  pub server_notification_handlers : Map Handler
  pub next_connection_number : ℕ
  pub next_local_request_number : ℕ
  pub next_frontend_request_number : ℕ
  pub provider_generation : ℕ
  pub app_server_ready : Bool

-- A call that leaves the bridge, with what came of it: a frontend's `send` that is accepted or
-- rejected, its `close`, the app server's `send`, and the callbacks.
pub data Event (j : Json) : Type 0 where
  sent dropped : ℕ → Text → j.Value → Event j
  closed : ℕ → Event j
  forwarded refused : ℕ → j.Value → Event j
  observed : ℕ → AppServerDirection → j.Value → Event j
  called : ℕ → j.Value → Event j
  lifecycle : ℕ → Bool → Event j

-- The calls made so far, the last one first, decide how the next one is answered.
pub record World (j : Json) : Type 0 where
  pub accepts : List (Event j) → ℕ → j.Value → Bool
  pub is_connected : List (Event j) → ℕ → Bool
  pub takes : List (Event j) → ℕ → j.Value → Bool
  pub throws : List (Event j) → ℕ → j.Value → Bool

pub record Bridge (j : Json) : Type 0 where
  pub core : Core j
  pub open core use *
  pub sequence : ℕ
  pub trace : List (Event j)

module _ {j : Json} where
  -- The constructor.
  unfoldable pub new_core : Options → Core j
  new_core options = record {
    options = options;
    app_server = none;
    raw_handler = none;
    lifecycle_handler = none;
    frontends = [];
    controller = none;
    frontend_request_owners = [];
    frontend_request_keys = [];
    local_requests = [];
    app_server_request_owners = [];
    server_request_handlers = [];
    server_notification_handlers = [];
    next_connection_number = 1;
    next_local_request_number = 1;
    next_frontend_request_number = 1;
    provider_generation = 0;
    app_server_ready = false;
  }

  unfoldable pub new : Options → Bridge j
  unfolding new_core
  new options = record { core = new_core options; sequence = 0; trace = [] }

  abbrev pub with_core : Bridge j → Core j → Bridge j
  with_core s c = record s { core = c }

  abbrev pub emit : Bridge j → Event j → Bridge j
  emit s e = record s { trace = e ∷ s.trace }

  -- `++sequence_`; the number is the new `sequence`.
  abbrev pub next_sequence : Bridge j → Bridge j
  next_sequence s = record s { sequence = (s.sequence + 1) % 2 ^ 64 }
