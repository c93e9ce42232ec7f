-- ===== src/Tests/Typing.antt =====
-- The theorems on the console's input at concrete inputs.
use aisuite.Common.{
  starts_with, text_eq, List, Text, Bool, ◌≡◌, ◌≢◌, refl, true, false, [], text, length, ◌<◌, arith,
  ◌∷◌,
}
use aisuite.Console.Options.{OptionsState, is_seen, exhausted, options_from}
use aisuite.Console.Parse.{parse_command}
use aisuite.Console.Bounds.{options_from-ends}
use aisuite.Console.Words.{is_space, trim_start, trim_end, word_length}
use aisuite.Console.Typing.{IsWord, IsTrimmed}
use aisuite.Console.Choices.{chosen, ephemeral, cwd, model, flag, AllChosen}
use aisuite.Console.HelpText.{Line, new_with_line, IsTypeable, print_line, meaning}
use aisuite.Console.Commands.{parse_command-print_line}
use aisuite.Console.Stdin.{returns, Callbacks, StdinReader}
use aisuite.Console.Lines.{ended, lines_then}
use aisuite.Tests.Toy.{members, end, toy}

abbrev typed : Line toy
typed =
    new_with_line (chosen cwd (text "/w") ∷ ephemeral ∷ chosen model (text "m1") ∷ [])
      (text "say hi")

typed-IsTypeable : IsTypeable toy typed
unfolding IsTypeable AllChosen flag is_seen starts_with IsWord IsTrimmed word_length is_space
    trim_start trim_end text text_eq
typed-IsTypeable = (
  (refl, ((refl, refl), refl), (refl, refl, (refl, ((refl, refl), refl), tt))),
  (refl, (refl, refl)),
)

parse_command-print_line_example : parse_command toy (print_line toy typed) ≡ meaning toy typed
parse_command-print_line_example = parse_command-print_line toy typed typed-IsTypeable

abbrev given : OptionsState toy
given = record { seen = []; input = text "--ephemeral"; parameters = members end }

short : length given.input < 12
unfolding text
short = omega arith

long : length given.input < 30
unfolding text
long = omega arith

options_from-ends_example :
    (options_from 12 true false given ≢ exhausted)
    × (options_from 12 true false given ≡ options_from 30 true false given)
options_from-ends_example = options_from-ends 12 30 true false given short long

abbrev quiet : Callbacks
quiet = record {
  has_on_line = true;
  has_on_close = true;
  has_on_error = true;
  reacts = λ cs l. returns;
}

abbrev reader : StdinReader
reader = record {
  maximum_line_bytes = 8;
  buffered = [];
  active = true;
  registered = true;
  restore_original_flags = true;
  calls = [];
}

-- The first line ends in CR LF, the second one in LF.
abbrev two_lines : List (Text × Bool)
two_lines = (b'h' ∷ b'i' ∷ [], true) ∷ (b'y' ∷ b'o' ∷ [], false) ∷ []

abbrev typed_bytes : Text
typed_bytes = b'i' ∷ b'\r' ∷ b'\n' ∷ b'y' ∷ b'o' ∷ b'\n' ∷ b'q' ∷ []

joined : b'h' ∷ typed_bytes ≡ lines_then two_lines (b'q' ∷ [])
unfolding lines_then ended
joined = refl
