-- ===== src/Model.antt =====
-- src/ai/model/Provider.h: what a model provider reports, whichever it is.
use aisuite.Common.{ℕ, Bool, Text}
use aisuite.Json.{Json}

pub record ToolCall (j : Json) : Type 0 where
  pub id : Text
  pub name : Text
  pub input : j.Value

pub data Content (j : Json) : Type 0 where
  text_content : Text → Content j
  tool_call : ToolCall j → Content j
  tool_result : Text → Text → Bool → Content j
  reasoning : Text → Text → Text → Content j

pub data StopReason : Type 0 where
  end_turn tool_use output_limit stop_sequence refusal pause : StopReason

pub record Usage : Type 0 where
  pub input_tokens : ℕ
  pub output_tokens : ℕ
  pub cache_read_tokens : ℕ
  pub cache_write_tokens : ℕ

pub record ModelError : Type 0 where
  pub code : Text
  pub message : Text
  pub retryable : Bool

pub data ModelEvent (j : Json) : Type 0 where
  started : Text → ModelEvent j
  block_started block_finished : ℕ → Content j → ModelEvent j
  text_delta reasoning_delta tool_input_delta : ℕ → Text → ModelEvent j
  usage : Usage → ModelEvent j
  completed : StopReason → ModelEvent j
  failed : ModelError → ModelEvent j
