-- ===== src/Console/Options.antt =====
-- CommandParser: the options of a thread.
use aisuite.Common.{
  ℕ, zero, suc, Bool, true, false, not, ◌||◌, List, [], ◌∷◌, if◌then◌else◌, Text, text, text_eq,
  starts_with, is_empty,
}
use aisuite.Json.{Json}
use aisuite.Console.Words.{take_word}

-- The variables of the loop.
pub record OptionsState (j : Json) : Type 0 where
  pub seen : List Text
  pub input : Text
  pub parameters : j.Value

-- What the function leaves in its arguments; `exhausted` is a model out of fuel.
pub data Outcome (j : Json) : Type 0 where
  accepted : (input : Text) (parameters : j.Value) (separator : Bool) → Outcome j
  refused : (failure : Text) → Outcome j
  exhausted : Outcome j

-- A pass of the loop returns or goes on.
pub data Pass (j : Json) : Type 0 where
  returns : Outcome j → Pass j
  goes_on : OptionsState j → Pass j

-- `emplace` finds the text.
unfoldable pub is_seen : Text → List Text → Bool
is_seen s [] = false
is_seen s (t ∷ ts) = text_eq s t || is_seen s ts

unfoldable pub is_known : Text → Bool
is_known option =
    text_eq option (text "--cwd")
    || (text_eq option (text "--model")
        || (text_eq option (text "--model-provider")
            || (text_eq option (text "--approval-policy")
                || (text_eq option (text "--sandbox-mode")
                    || text_eq option (text "--ephemeral")))))

unfoldable pub option_key : Text → Text
option_key option =
    if text_eq option (text "--cwd")
    then text "cwd"
    else if text_eq option (text "--model")
    then text "model"
    else if text_eq option (text "--model-provider")
    then text "modelProvider"
    else if text_eq option (text "--approval-policy")
    then text "approvalPolicy"
    else text "sandbox"

module _ {j : Json} where
  open j use {Value, string, boolean, set}

  unfoldable pub option_value : OptionsState j → Text → Text × Text → Pass j
  option_value s option (value, rest) =
      if is_empty value || starts_with value (text "--")
      then returns (refused (text "thread option requires a value"))
      else goes_on (record s {
        seen = option ∷ s.seen;
        input = rest;
        parameters = set s.parameters (option_key option) (string value);
      })

  unfoldable pub option_named : Bool → Bool → OptionsState j → Text → Text → Pass j
  option_named ephemeral_allowed stop_at_separator s option rest =
      if text_eq option (text "--")
      then (if stop_at_separator
          then returns (accepted rest s.parameters true)
          else returns (refused (text "unexpected '--' separator")))
      else if not (is_known option)
      then returns (refused (text "unknown thread option"))
      else if is_seen option s.seen
      then returns (refused (text "thread option may only be specified once"))
      else if text_eq option (text "--ephemeral")
      then (if ephemeral_allowed
          then goes_on (record s {
            seen = option ∷ s.seen;
            input = rest;
            parameters = set s.parameters (text "ephemeral") (boolean true);
          })
          else returns (refused (text "option '--ephemeral' is not supported by resume")))
      else option_value s option (take_word rest)

  unfoldable pub option_pass : Bool → Bool → OptionsState j → Pass j
  option_pass ephemeral_allowed stop_at_separator s =
      if is_empty s.input
      then returns (accepted s.input s.parameters false)
      else (let word = take_word s.input in
          option_named ephemeral_allowed stop_at_separator s word.0 word.1)

  -- The loop, on fuel.
  unfoldable pub options_from : ℕ → Bool → Bool → OptionsState j → Outcome j
  options_from zero ephemeral_allowed stop_at_separator s = exhausted
  options_from (suc fuel) ephemeral_allowed stop_at_separator s =
      elim (option_pass ephemeral_allowed stop_at_separator s) [
        | returns o ↦ o
        | goes_on t ↦ options_from fuel ephemeral_allowed stop_at_separator t
      ]
