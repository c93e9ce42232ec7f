-- ===== src/Console/Commands.antt =====
-- CommandParser: the commands of the help text, typed and read.
use aisuite.Common.{
  inl, ℕ, ◌+◌, ◌-◌, ◌*◌, ◌<◌, ◌^◌, ◌≡◌, refl, ap, ◌∙◌, Bool, true, false, some, [], ◌∷◌, arith,
  length, Text, text, text_eq, starts_with, is_empty, to_string, value, value-to_string, is_digits,
  is_digits-to_string, is_empty-to_string,
}
use aisuite.Json.{Json}
use aisuite.Console.Words.{
  is_space, word_length, take_word, digits_value, in_range, unsigned_integer,
}
use aisuite.Console.Parse.{
  watch, replay, new_thread, alone, parse_watch, parse_replay, parse_new, parse_read, parse_turn,
  parse_interrupt, parse_request, parse_named, parse_command,
}
use aisuite.Console.Choices.{with_rest}
use aisuite.Console.HelpText.{
  Line, help_line, quit_line, reconnect_line, snapshot_line, acquire_line, release_line,
  threads_line, watch_line, replay_line, start_line, resume_line, new_line, new_with_line,
  read_line, turn_line, interrupt_line, raw_line, after, IsTypeable, print_line, meaning,
}
use aisuite.Console.Threads.{
  parse_command-rest, parse_command-words, parse_start_line, parse_resume_line, parse_new_with_line,
  parse_raw_line,
}
use aisuite.Console.Typing.{
  IsWord, IsTrimmed, words-IsTrimmed, word-IsTrimmed, take_word-words, take_word-word,
}

digits_value-value : (n : ℕ) (s : Text) → is_digits s ≡ true → digits_value n s ≡ some (value n s)
unfolding digits_value value is_digits
digits_value-value n [] e = refl
digits_value-value n (c ∷ s) e = ground (arith, digits_value-value (n * 10 + (c - b'0')) s)

unsigned_integer-filled :
    (s : Text) → is_empty s ≡ false → unsigned_integer s ≡ in_range (digits_value 0 s)
unfolding unsigned_integer
unsigned_integer-filled [] e = absurd cc
unsigned_integer-filled (c ∷ s) e = refl

unsigned_integer-to_string : (n : ℕ) → n < 2 ^ 64 → unsigned_integer (to_string n) ≡ some n
unfolding in_range
unsigned_integer-to_string n less =
    unsigned_integer-filled (to_string n) (is_empty-to_string n)
    ∙ ap in_range
        (digits_value-value 0 (to_string n) (is_digits-to_string n) ∙ ap some (value-to_string n))
    ∙ ground arith

word_length-digits : (s : Text) → is_digits s ≡ true → word_length s ≡ length s
unfolding word_length is_digits is_space
word_length-digits [] e = refl
word_length-digits (c ∷ s) e = ground (arith, word_length-digits s)

to_string-IsWord : (n : ℕ) → IsWord (to_string n)
unfolding IsWord
to_string-IsWord n =
    (is_empty-to_string n, word_length-digits (to_string n) (is_digits-to_string n))

module _ (j : Json) where
  open j use {Value, string, boolean, object}

  parse_command-word : (w : Text) → IsWord w → parse_command j w ≡ parse_named j w []
  unfolding with_rest
  parse_command-word w word = parse_command-rest j w [] word (inl refl)

  parse_watch_line : (b : Bool) → parse_command j (print_line j (watch_line b)) ≡ watch b
  unfolding print_line parse_named parse_watch text_eq text IsWord word_length is_space
  parse_watch_line true =
      parse_command-words j (text "watch") (text "on") (refl, refl)
        (word-IsTrimmed (text "on") (refl, refl))
      ∙ ap (parse_watch j) (take_word-word (text "on") (refl, refl))
  parse_watch_line false =
      parse_command-words j (text "watch") (text "off") (refl, refl)
        (word-IsTrimmed (text "off") (refl, refl))
      ∙ ap (parse_watch j) (take_word-word (text "off") (refl, refl))

  parse_replay_line :
      (n : ℕ) → n < 2 ^ 64 → parse_command j (print_line j (replay_line n)) ≡ replay n
  unfolding print_line parse_named parse_request parse_replay text_eq text IsWord word_length
      is_space
  parse_replay_line n less =
      parse_command-words j (text "replay") (to_string n) (refl, refl)
        (word-IsTrimmed (to_string n) (to_string-IsWord n))
      ∙ ap (parse_replay j) (take_word-word (to_string n) (to_string-IsWord n))
      ∙ rw (unsigned_integer-to_string n less, parse_replay) refl

  parse_read_line :
      (thread : Text)
      → IsWord thread
      → parse_command j (print_line j (read_line thread)) ≡ meaning j (read_line thread)
  unfolding print_line parse_named parse_request parse_read text_eq text IsWord word_length is_space
      meaning
  parse_read_line thread word =
      parse_command-words j (text "read") thread (refl, refl) (word-IsTrimmed thread word)
      ∙ ap (parse_read j) (take_word-word thread word)
      ∙ rw word.0 refl

  parse_turn_line :
      (thread prompt : Text)
      → IsWord thread
      → IsTrimmed prompt
      → parse_command j (print_line j (turn_line thread prompt))
        ≡ meaning j (turn_line thread prompt)
  unfolding print_line parse_named parse_request parse_turn text_eq text IsWord IsTrimmed
      word_length is_space meaning
  parse_turn_line thread prompt word rest =
      parse_command-words j (text "turn") (after thread prompt) (refl, refl)
        (words-IsTrimmed thread prompt word rest)
      ∙ ap (parse_turn j) (take_word-words thread prompt word rest)
      ∙ rw (word.0, rest.0) refl

  parse_interrupt_line :
      (thread turn : Text)
      → IsWord thread
      → IsWord turn
      → parse_command j (print_line j (interrupt_line thread turn))
        ≡ meaning j (interrupt_line thread turn)
  unfolding print_line parse_named parse_request parse_interrupt text_eq text IsWord IsTrimmed
      word_length is_space meaning
  parse_interrupt_line thread turn word other =
      parse_command-words j (text "interrupt") (after thread turn) (refl, refl)
        (words-IsTrimmed thread turn word (word-IsTrimmed turn other))
      ∙ ap (λ p. parse_interrupt j p.0 (take_word p.1))
          (take_word-words thread turn word (word-IsTrimmed turn other))
      ∙ ap (parse_interrupt j thread) (take_word-word turn other)
      ∙ rw (word.0, other.0) refl

  parse_new_line :
      (prompt : Text)
      → IsTrimmed prompt
      → starts_with (take_word prompt).0 (text "--") ≡ false
      → parse_command j (print_line j (new_line prompt)) ≡ new_thread (object []) prompt
  unfolding print_line parse_named parse_request parse_new text_eq text IsWord IsTrimmed word_length
      is_space
  parse_new_line prompt rest plain =
      parse_command-words j (text "new") prompt (refl, refl) rest ∙ rw (rest.0, plain) refl

  -- Any JSON library, and any line of a form that the help text shows: identifiers are words, the one
  -- of `resume` does not start with `--`, a prompt is not empty, has no space at its ends and, behind
  -- `new` without options, does not start with a word that starts with `--`, the number is below
  -- 2^64, no option is given twice, the values of options are words that do not start with `--`, and
  -- a raw message has no space at its ends, parses, and is classified as a message. The line is read
  -- as the command it stands for, with its arguments, each option setting its parameter.
  pub parse_command-print_line :
      (l : Line j) → IsTypeable j l → parse_command j (print_line j l) ≡ meaning j l
  unfolding print_line IsTypeable meaning IsWord word_length is_space text parse_named parse_request
      text_eq alone
  parse_command-print_line help_line v = parse_command-word (text "help") (refl, refl)
  parse_command-print_line quit_line v = parse_command-word (text "quit") (refl, refl)
  parse_command-print_line reconnect_line v = parse_command-word (text "reconnect") (refl, refl)
  parse_command-print_line snapshot_line v = parse_command-word (text "snapshot") (refl, refl)
  parse_command-print_line acquire_line v = parse_command-word (text "acquire") (refl, refl)
  parse_command-print_line release_line v = parse_command-word (text "release") (refl, refl)
  parse_command-print_line threads_line v = parse_command-word (text "threads") (refl, refl)
  parse_command-print_line (watch_line b) v = parse_watch_line b
  parse_command-print_line (replay_line n) v = parse_replay_line n v
  parse_command-print_line (read_line thread) v = parse_read_line thread v
  parse_command-print_line (turn_line thread prompt) (t, p) = parse_turn_line thread prompt t p
  parse_command-print_line (interrupt_line thread turn) (t, u) =
      parse_interrupt_line thread turn t u
  parse_command-print_line (new_line prompt) (p, n) = parse_new_line prompt p n
  parse_command-print_line (start_line cs) v = parse_start_line j cs v
  parse_command-print_line (resume_line thread cs) (t, p, v) = parse_resume_line j thread cs t p v
  parse_command-print_line (new_with_line cs prompt) (v, p) = parse_new_with_line j cs prompt v p
  parse_command-print_line (raw_line s m) (t, parsed, known) = parse_raw_line j s m t parsed known
