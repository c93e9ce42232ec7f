-- ===== src/Console/HelpText.antt =====
-- CommandParser: the lines that the help text shows, and the commands that they stand for.
use aisuite.Common.{
  ℕ, ◌<◌, ◌^◌, ◌≡◌, ◌≢◌, Bool, true, false, some, List, [], ◌∷◌, ◌++◌, Text, text, starts_with,
  to_string,
}
use aisuite.Json.{Json}
use aisuite.Envelope.{invalid, classify_json_rpc}
use aisuite.Console.Words.{take_word}
use aisuite.Console.Parse.{
  Command, help, quit, reconnect, watch, snapshot, replay, controller_acquire, controller_release,
  thread_list, thread_start, thread_resume, thread_read, turn_start, turn_interrupt, raw,
  new_thread, turn_parameters,
}
use aisuite.Console.Typing.{IsWord, IsTrimmed}
use aisuite.Console.Choices.{Choice, with_rest, print_choices, AllChosen}
use aisuite.Console.Choosing.{chosen_in}

-- What a user types; a raw message is typed as a text, and is this JSON value.
pub data Line (j : Json) : Type 0 where
  help_line quit_line reconnect_line snapshot_line acquire_line release_line threads_line : Line j
  watch_line : Bool → Line j
  replay_line : ℕ → Line j
  start_line : List Choice → Line j
  resume_line : Text → List Choice → Line j
  new_line : Text → Line j
  new_with_line : List Choice → Text → Line j
  read_line : Text → Line j
  turn_line interrupt_line : Text → Text → Line j
  raw_line : Text → j.Value → Line j

abbrev pub after : Text → Text → Text
after name rest = name ++ b' ' ∷ rest

-- The end of the options of `new`, and the prompt.
abbrev pub separated : Text → Text
separated prompt = with_rest (text "--") prompt

module _ (j : Json) where
  open j use {Value, string, boolean, object}

  -- Identifiers are words, a prompt has no space at its ends, a number fits 64 bits, options are given
  -- once each, and a raw message is one that the classification knows.
  unfoldable pub IsTypeable : Line j → Type 0
  IsTypeable (replay_line n) = n < 2 ^ 64
  IsTypeable (start_line cs) = AllChosen true [] cs
  IsTypeable (resume_line thread cs) =
      IsWord thread × (starts_with thread (text "--") ≡ false) × AllChosen false [] cs
  IsTypeable (new_line prompt) =
      IsTrimmed prompt × (starts_with (take_word prompt).0 (text "--") ≡ false)
  IsTypeable (new_with_line cs prompt) = AllChosen true [] cs × IsTrimmed prompt
  IsTypeable (read_line thread) = IsWord thread
  IsTypeable (turn_line thread prompt) = IsWord thread × IsTrimmed prompt
  IsTypeable (interrupt_line thread turn) = IsWord thread × IsWord turn
  IsTypeable (raw_line s message) =
      IsTrimmed s × (j.parse s ≡ some message) × (classify_json_rpc j message ≢ invalid)
  IsTypeable _ = Unit

  unfoldable pub print_line : Line j → Text
  print_line help_line = text "help"
  print_line quit_line = text "quit"
  print_line reconnect_line = text "reconnect"
  print_line snapshot_line = text "snapshot"
  print_line acquire_line = text "acquire"
  print_line release_line = text "release"
  print_line threads_line = text "threads"
  print_line (watch_line true) = after (text "watch") (text "on")
  print_line (watch_line false) = after (text "watch") (text "off")
  print_line (replay_line n) = after (text "replay") (to_string n)
  print_line (start_line cs) = with_rest (text "start") (print_choices cs [])
  print_line (resume_line thread cs) =
      after (text "resume") (with_rest thread (print_choices cs []))
  print_line (new_line prompt) = after (text "new") prompt
  print_line (new_with_line cs prompt) = after (text "new") (print_choices cs (separated prompt))
  print_line (read_line thread) = after (text "read") thread
  print_line (turn_line thread prompt) = after (text "turn") (after thread prompt)
  print_line (interrupt_line thread turn) = after (text "interrupt") (after thread turn)
  print_line (raw_line s message) = after (text "raw") s

  -- The command that a line stands for.
  unfoldable pub meaning : Line j → Command j
  meaning help_line = help
  meaning quit_line = quit
  meaning reconnect_line = reconnect
  meaning snapshot_line = snapshot
  meaning acquire_line = controller_acquire
  meaning release_line = controller_release
  meaning threads_line = thread_list (object [])
  meaning (watch_line b) = watch b
  meaning (replay_line n) = replay n
  meaning (start_line cs) = thread_start (chosen_in j (object []) cs)
  meaning (resume_line thread cs) =
      thread_resume (chosen_in j (object ((text "threadId", string thread) ∷ [])) cs)
  meaning (new_line prompt) = new_thread (object []) prompt
  meaning (new_with_line cs prompt) = new_thread (chosen_in j (object []) cs) prompt
  meaning (read_line thread) =
      thread_read
        (object ((text "threadId", string thread) ∷ (text "includeTurns", boolean true) ∷ []))
  meaning (turn_line thread prompt) = turn_start (turn_parameters j thread prompt)
  meaning (interrupt_line thread turn) =
      turn_interrupt (object ((text "threadId", string thread) ∷ (text "turnId", string turn) ∷ []))
  meaning (raw_line s message) = raw message
