-- ===== src/Anthropic/State.antt =====
-- MessageStream: its members, and how it emits, fails and is cancelled.
use aisuite.Common.{
  ℕ, Bool, true, false, not, ◌||◌, Option, none, some, List, [], ◌∷◌, ◌==◌, if◌then◌else◌, Text,
  text, Map,
}
use aisuite.Json.{Json}
use aisuite.Model.{StopReason, Usage, ModelError, ModelEvent, failed}
use aisuite.Anthropic.Values.{Fault, fault, Try, got, threw}

pub record Block (j : Json) : Type 0 where
  pub value : j.Value
  pub input : Text

-- `has_receiver`: the receiver is still there; `emitted` is what it got, the last event first.
pub record MessageStream (j : Json) : Type 0 where
  pub tool_names : Map Text
  pub blocks : List (ℕ × Block j)
  pub stop : Option StopReason
  pub call_ids : List Text
  pub usage : Usage
  pub next_index : ℕ
  pub bytes : ℕ
  pub thinking_enabled : Bool
  pub has_started : Bool
  pub terminal : Bool
  pub has_receiver : Bool
  pub emitted : List (ModelEvent j)

-- Whether the receiver cancels the inference while it is given an event, after those before; and the
-- text of a library's exception.
pub record Listener (j : Json) : Type 0 where
  pub cancels : List (ModelEvent j) → ModelEvent j → Bool
  pub library_text : MessageStream j → Text → Text → Text

-- A step that may throw keeps what it changed before.
pub data Attempt (j : Json) : Type 0 where
  going : MessageStream j → Attempt j
  thrown : MessageStream j → Fault → Attempt j

infixl 5 ◌>>=◌
abbrev pub ◌>>=◌ : {j : Json} → Attempt j → (MessageStream j → Attempt j) → Attempt j
going s >>= f = f s
thrown s x >>= f = thrown s x

-- The value of a reading is used, or its exception passes on.
abbrev pub using {ℓ} :
    {j : Json} {A : Type ℓ} → MessageStream j → Try A → (A → Attempt j) → Attempt j
using s (got a) f = f a
using s (threw x) f = thrown s x

module _ {j : Json} where
  -- The constructor, with a receiver.
  unfoldable pub new_stream : Map Text → Bool → MessageStream j
  new_stream tool_names thinking_enabled = record {
    tool_names = tool_names;
    blocks = [];
    stop = none;
    call_ids = [];
    usage = record {
      input_tokens = 0;
      output_tokens = 0;
      cache_read_tokens = 0;
      cache_write_tokens = 0;
    };
    next_index = 0;
    bytes = 0;
    thinking_enabled = thinking_enabled;
    has_started = false;
    terminal = false;
    has_receiver = true;
    emitted = [];
  }

  unfoldable pub require : MessageStream j → Bool → Text → Attempt j
  require s true message = going s
  require s false message = thrown s (fault message)

  unfoldable pub cancel : MessageStream j → MessageStream j
  cancel s = record s { terminal = true; has_receiver = false; blocks = [] }

  -- The last call of the receiver, which is given up before.
  unfoldable pub give_last : MessageStream j → ModelEvent j → MessageStream j
  give_last s event =
      let t : MessageStream j = record s { terminal = true; has_receiver = false } in
      if s.has_receiver then record t { emitted = event ∷ s.emitted } else t

  unfoldable pub fail : MessageStream j → ModelError → MessageStream j
  fail s e = if s.terminal then s else give_last (record s { blocks = [] }) (failed e)

  unfoldable pub finish : MessageStream j → MessageStream j
  finish s = fail s (record {
    code = text "incomplete_stream";
    message = text "Anthropic stream ended without message_stop";
    retryable = true;
  })

  -- An entry of `blocks_`.
  unfoldable pub find_block : ℕ → List (ℕ × Block j) → Option (Block j)
  find_block i [] = none
  find_block i ((k, b) ∷ more) = if k == i then some b else find_block i more

  unfoldable pub erase_block : ℕ → List (ℕ × Block j) → List (ℕ × Block j)
  erase_block i [] = []
  erase_block i ((k, b) ∷ more) =
      let rest = erase_block i more in if k == i then rest else (k, b) ∷ rest

  unfoldable pub set_block : ℕ → Block j → List (ℕ × Block j) → List (ℕ × Block j)
  set_block i b [] = []
  set_block i b ((k, c) ∷ more) =
      let rest = set_block i b more in if k == i then (k, b) ∷ rest else (k, c) ∷ rest

module _ {j : Json} (w : Listener j) where
  unfoldable pub emit : MessageStream j → ModelEvent j → MessageStream j
  emit s event =
      let t : MessageStream j = record s { emitted = event ∷ s.emitted } in
      if s.terminal || not s.has_receiver
      then s
      else if w.cancels s.emitted event
      then cancel t
      else t
