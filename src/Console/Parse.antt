-- ===== src/Console/Parse.antt =====
-- CommandParser: a line as a command.
use aisuite.Common.{
  ℕ, suc, Bool, true, false, not, ◌&&◌, ◌||◌, none, some, [], ◌∷◌, ◌++◌, if◌then◌else◌, length,
  Text, text, text_eq, starts_with, is_empty,
}
use aisuite.Json.{Json}
use aisuite.Envelope.{JsonRpcKind, invalid, classify_json_rpc}
use aisuite.Console.Words.{trim, take_word, unsigned_integer}
use aisuite.Console.Options.{Outcome, accepted, refused, exhausted, options_from}

-- `ParsedCommand`; the parameters of a request are the JSON value that their class holds.
pub data Command (j : Json) : Type 0 where
  noop help quit reconnect snapshot controller_acquire controller_release : Command j
  watch : (enabled : Bool) → Command j
  replay : (sequence : ℕ) → Command j
  thread_list thread_start thread_resume thread_read turn_start turn_interrupt raw :
      j.Value → Command j
  new_thread : (options : j.Value) (prompt : Text) → Command j
  command_error : (message : Text) → Command j

module _ (j : Json) where
  open j use {Value, string, boolean, object, array, parse}

  unfoldable pub turn_parameters : Text → Text → Value
  turn_parameters thread_id prompt = object (
      (text "threadId", string thread_id)
      ∷ (
        text "input",
        array
            (object ((text "type", string (text "text")) ∷ (text "text", string prompt) ∷ []) ∷ []),
      )
      ∷ [])

  -- A command without arguments.
  unfoldable pub alone : Text → Command j → Text → Command j
  alone remainder command usage = if is_empty remainder then command else command_error usage

  unfoldable pub parse_watch : Text × Text → Command j
  parse_watch (value, remainder) =
      if is_empty remainder && (text_eq value (text "on") || text_eq value (text "off"))
      then watch (text_eq value (text "on"))
      else command_error (text "usage: watch on|off")

  unfoldable pub parse_replay : Text × Text → Command j
  parse_replay (value, remainder) = elim (unsigned_integer value) [
    | none ↦ command_error (text "usage: replay <sequence>")
    | some sequence ↦
        if is_empty remainder
        then replay sequence
        else command_error (text "usage: replay <sequence>")
  ]

  -- The options from the start of a text; its length bounds the passes.
  unfoldable pub parse_thread_options : Text → Value → Bool → Bool → Outcome j
  parse_thread_options input parameters ephemeral_allowed stop_at_separator =
      options_from (suc (length input)) ephemeral_allowed stop_at_separator
        (record { seen = []; input = input; parameters = parameters })

  unfoldable pub option_error : Text → Text → Command j
  option_error name failure =
      command_error (name ++ (text ": " ++ (failure ++ text "; enter 'help' for command syntax")))

  unfoldable pub start_with : Outcome j → Command j
  start_with (accepted input parameters separator) = thread_start parameters
  start_with (refused failure) = option_error (text "start") failure
  start_with exhausted = option_error (text "start") []

  unfoldable pub resume_with : Outcome j → Command j
  resume_with (accepted input parameters separator) = thread_resume parameters
  resume_with (refused failure) = option_error (text "resume") failure
  resume_with exhausted = option_error (text "resume") []

  unfoldable pub parse_resume : Text × Text → Command j
  parse_resume (thread_id, remainder) =
      if is_empty thread_id || starts_with thread_id (text "--")
      then command_error (text "usage: resume <thread-id> [thread-resume-options]")
      else resume_with (
          parse_thread_options remainder (object ((text "threadId", string thread_id) ∷ [])) false
            false)

  unfoldable pub new_with : Outcome j → Command j
  new_with (accepted input parameters separator) =
      if not separator || is_empty (trim input)
      then command_error (text "new: thread options require '-- <prompt>'")
      else new_thread parameters (trim input)
  new_with (refused failure) = option_error (text "new") failure
  new_with exhausted = option_error (text "new") []

  unfoldable pub parse_new : Text → Command j
  parse_new remainder =
      if is_empty remainder
      then command_error (text "usage: new [thread-start-options] -- <prompt> | new <prompt>")
      else (let probe = take_word remainder in
          if not (starts_with probe.0 (text "--"))
          then new_thread (object []) remainder
          else new_with (parse_thread_options remainder (object []) true true))

  unfoldable pub parse_read : Text × Text → Command j
  parse_read (thread_id, remainder) =
      if not (is_empty thread_id) && is_empty remainder
      then thread_read
          (object ((text "threadId", string thread_id) ∷ (text "includeTurns", boolean true) ∷ []))
      else command_error (text "usage: read <thread-id>")

  unfoldable pub parse_turn : Text × Text → Command j
  parse_turn (thread_id, remainder) =
      if not (is_empty thread_id) && not (is_empty remainder)
      then turn_start (turn_parameters thread_id remainder)
      else command_error (text "usage: turn <thread-id> <prompt>")

  unfoldable pub parse_interrupt : Text → Text × Text → Command j
  parse_interrupt thread_id (turn_id, remainder) =
      if not (is_empty thread_id) && (not (is_empty turn_id) && is_empty remainder)
      then turn_interrupt
          (object ((text "threadId", string thread_id) ∷ (text "turnId", string turn_id) ∷ []))
      else command_error (text "usage: interrupt <thread-id> <turn-id>")

  unfoldable pub raw_message : Value → JsonRpcKind → Command j
  raw_message message invalid =
      command_error (text "raw requires one valid app-server JSON-RPC message")
  raw_message message _ = raw message

  unfoldable pub parse_raw : Text → Command j
  parse_raw remainder =
      if is_empty remainder
      then command_error (text "usage: raw <json-rpc-message>")
      else elim (parse remainder) [
        | none ↦ command_error (text "raw requires one valid app-server JSON-RPC message")
        | some message ↦ raw_message message (classify_json_rpc j message)
      ]

  -- A request that names a thread.
  unfoldable pub parse_request : Text → Text → Command j
  parse_request name remainder =
      if text_eq name (text "start")
      then start_with (parse_thread_options remainder (object []) true false)
      else if text_eq name (text "resume")
      then parse_resume (take_word remainder)
      else if text_eq name (text "new")
      then parse_new remainder
      else if text_eq name (text "read")
      then parse_read (take_word remainder)
      else if text_eq name (text "turn")
      then parse_turn (take_word remainder)
      else if text_eq name (text "interrupt")
      then (let thread = take_word remainder in parse_interrupt thread.0 (take_word thread.1))
      else if text_eq name (text "raw")
      then parse_raw remainder
      else command_error (text "unknown command; enter 'help' for available commands")

  unfoldable pub parse_named : Text → Text → Command j
  parse_named name remainder =
      if text_eq name (text "help")
      then alone remainder help (text "usage: help")
      else if text_eq name (text "quit")
      then alone remainder quit (text "usage: quit")
      else if text_eq name (text "reconnect")
      then alone remainder reconnect (text "usage: reconnect")
      else if text_eq name (text "watch")
      then parse_watch (take_word remainder)
      else if text_eq name (text "snapshot")
      then alone remainder snapshot (text "usage: snapshot")
      else if text_eq name (text "replay")
      then parse_replay (take_word remainder)
      else if text_eq name (text "acquire")
      then alone remainder controller_acquire (text "usage: acquire")
      else if text_eq name (text "release")
      then alone remainder controller_release (text "usage: release")
      else if text_eq name (text "threads")
      then alone remainder (thread_list (object [])) (text "usage: threads")
      else parse_request name remainder

  unfoldable pub parse_command : Text → Command j
  parse_command line =
      let trimmed = trim line in
      if is_empty trimmed then noop else (let word = take_word trimmed in parse_named word.0 word.1)
