-- ===== src/Console/Threads.antt =====
-- CommandParser: the commands that start, resume and open a thread, and a raw message.
use aisuite.Common.{
  suc, ◌≡◌, ◌≢◌, refl, ap, ◌∙◌, inl, inr, Bool, true, false, some, List, [], ◌∷◌, ◌++◌, arith,
  length, Text, text, text_eq, starts_with,
}
use aisuite.Json.{Json}
use aisuite.Envelope.{JsonRpcKind, invalid, request, notification, response, classify_json_rpc}
use aisuite.Console.Words.{is_space, word_length, take_word}
use aisuite.Console.Options.{accepted, returns, option_named, option_pass}
use aisuite.Console.Parse.{
  thread_start, thread_resume, new_thread, raw, parse_thread_options, start_with, resume_with,
  parse_resume, new_with, parse_new, raw_message, parse_raw, parse_request, parse_named,
  parse_command,
}
use aisuite.Console.Typing.{IsWord, IsTrimmed, words-IsTrimmed, trim-IsTrimmed, take_word-words}
use aisuite.Console.Choices.{
  Setting, cwd, model, model_provider, approval_policy, sandbox_mode, Choice, chosen, ephemeral,
  flag, ephemeral_flag, with_rest, print_choices, AllChosen, IsRest, take_word-with_rest,
  with_rest-IsTrimmed, flag-IsWord, ephemeral_flag-IsWord, print_choices-IsRest,
  print_choices-IsTrimmed, length-print_choices,
}
use aisuite.Console.Choosing.{chosen_in, option_pass-word, options_from-choices}
use aisuite.Console.HelpText.{after, separated}

dashes-IsWord : IsWord (text "--")
unfolding IsWord text word_length is_space
dashes-IsWord = (refl, refl)

separated-IsRest : (prompt : Text) → IsTrimmed prompt → IsRest (separated prompt)
separated-IsRest prompt v = inr (with_rest-IsTrimmed (text "--") prompt dashes-IsWord (inr v))

starts_with-flag : (k : Setting) → starts_with (flag k) (text "--") ≡ true
unfolding flag text starts_with
starts_with-flag cwd = refl
starts_with-flag model = refl
starts_with-flag model_provider = refl
starts_with-flag approval_policy = refl
starts_with-flag sandbox_mode = refl

-- Options, and the separator, begin with two dashes.
starts_with-print_choices :
    (cs : List Choice) (prompt : Text)
    → AllChosen true [] cs
    → IsTrimmed prompt
    → starts_with (take_word (print_choices cs (separated prompt))).0 (text "--") ≡ true
unfolding print_choices AllChosen
starts_with-print_choices [] prompt v rest =
    ap (λ p. starts_with p.0 (text "--"))
      (take_word-with_rest (text "--") prompt dashes-IsWord (inr rest))
    ∙ (unfold starts_with text in refl)
starts_with-print_choices (chosen k v ∷ cs) prompt (new, is_value, others) rest =
    let next = print_choices cs (separated prompt) in
    let behind =
      print_choices-IsRest true (flag k ∷ []) cs (separated prompt) others
        (separated-IsRest prompt rest) in
    ap (λ p. starts_with p.0 (text "--"))
      (take_word-with_rest (flag k) (with_rest v next) (flag-IsWord k)
        (inr (with_rest-IsTrimmed v next is_value.0 behind)))
    ∙ starts_with-flag k
starts_with-print_choices (ephemeral ∷ cs) prompt (new, allow, others) rest =
    let next = print_choices cs (separated prompt) in
    let behind =
      print_choices-IsRest true (ephemeral_flag ∷ []) cs (separated prompt) others
        (separated-IsRest prompt rest) in
    ap (λ p. starts_with p.0 (text "--"))
      (take_word-with_rest ephemeral_flag next ephemeral_flag-IsWord behind)
    ∙ (unfold starts_with text in refl)

module _ (j : Json) where
  open j use {Value, string, object, parse}

  parse_command-trimmed :
      (s : Text) → IsTrimmed s → parse_command j s ≡ parse_named j (take_word s).0 (take_word s).1
  unfolding parse_command IsTrimmed
  parse_command-trimmed s v = rw (trim-IsTrimmed s v, v.0) refl

  pub parse_command-rest :
      (w r : Text) → IsWord w → IsRest r → parse_command j (with_rest w r) ≡ parse_named j w r
  parse_command-rest w r word rest =
      parse_command-trimmed (with_rest w r) (with_rest-IsTrimmed w r word rest)
      ∙ ap (λ p. parse_named j p.0 p.1) (take_word-with_rest w r word rest)

  pub parse_command-words :
      (w r : Text) → IsWord w → IsTrimmed r → parse_command j (w ++ b' ' ∷ r) ≡ parse_named j w r
  parse_command-words w r word rest =
      parse_command-trimmed (w ++ b' ' ∷ r) (words-IsTrimmed w r word rest)
      ∙ ap (λ p. parse_named j p.0 p.1) (take_word-words w r word rest)

  parse_thread_options-choices :
      (allowed : Bool) (cs : List Choice) (p : Value)
      → AllChosen allowed [] cs
      → parse_thread_options j (print_choices cs []) p allowed false
        ≡ accepted [] (chosen_in j p cs) false
  unfolding parse_thread_options option_pass
  parse_thread_options-choices allowed cs p v =
      options_from-choices j allowed false [] (λ q. accepted [] q false) (λ seen q. refl) (inl refl)
        cs [] p (suc (length (print_choices cs []))) v
        (omega (arith, length-print_choices allowed [] cs [] v))

  option_pass-separated :
      (prompt : Text) (seen : List Text) (p : Value)
      → IsTrimmed prompt
      → option_pass {j = j} true true
          (record { seen = seen; input = separated prompt; parameters = p })
        ≡ returns (accepted prompt p true)
  option_pass-separated prompt seen p v =
      option_pass-word j true true seen p (text "--") prompt dashes-IsWord (inr v)
      ∙ (unfold option_named text_eq text in refl)

  parse_thread_options-separated :
      (cs : List Choice) (p : Value) (prompt : Text)
      → AllChosen true [] cs
      → IsTrimmed prompt
      → parse_thread_options j (print_choices cs (separated prompt)) p true true
        ≡ accepted prompt (chosen_in j p cs) true
  unfolding parse_thread_options
  parse_thread_options-separated cs p prompt v rest =
      let end = separated prompt in
      options_from-choices j true true end (λ q. accepted prompt q true)
        (λ seen q. option_pass-separated prompt seen q rest) (separated-IsRest prompt rest) cs [] p
        (suc (length (print_choices cs end))) v
        (omega (arith, length-print_choices true [] cs end v))

  pub parse_start_line :
      (cs : List Choice)
      → AllChosen true [] cs
      → parse_command j (with_rest (text "start") (print_choices cs []))
        ≡ thread_start (chosen_in j (object []) cs)
  unfolding parse_named parse_request start_with text_eq text IsWord word_length is_space
  parse_start_line cs v =
      parse_command-rest (text "start") (print_choices cs []) (refl, refl)
        (print_choices-IsRest true [] cs [] v (inl refl))
      ∙ ap (start_with j) (parse_thread_options-choices true cs (object []) v)

  pub parse_resume_line :
      (thread : Text) (cs : List Choice)
      → IsWord thread
      → starts_with thread (text "--") ≡ false
      → AllChosen false [] cs
      → parse_command j (after (text "resume") (with_rest thread (print_choices cs [])))
        ≡ thread_resume (chosen_in j (object ((text "threadId", string thread) ∷ [])) cs)
  unfolding parse_named parse_request parse_resume resume_with text_eq text IsWord word_length
      is_space
  parse_resume_line thread cs word plain v =
      let rest = print_choices-IsRest false [] cs [] v (inl refl) in
      let next = print_choices cs [] in
      parse_command-words (text "resume") (with_rest thread next) (refl, refl)
        (with_rest-IsTrimmed thread next word rest)
      ∙ ap (parse_resume j) (take_word-with_rest thread next word rest)
      ∙ rw (word.0, plain)
          (ap (resume_with j) (
            parse_thread_options-choices false cs (object ((text "threadId", string thread) ∷ []))
              v))

  pub parse_new_with_line :
      (cs : List Choice) (prompt : Text)
      → AllChosen true [] cs
      → IsTrimmed prompt
      → parse_command j (after (text "new") (print_choices cs (separated prompt)))
        ≡ new_thread (chosen_in j (object []) cs) prompt
  unfolding parse_named parse_request parse_new new_with text_eq text IsWord word_length is_space
      IsTrimmed
  parse_new_with_line cs prompt v rest =
      let next : Text = print_choices cs (separated prompt) in
      let trimmed : IsTrimmed next =
        print_choices-IsTrimmed true [] cs (separated prompt) v
          (with_rest-IsTrimmed (text "--") prompt dashes-IsWord (inr rest)) in
      parse_command-words (text "new") next (refl, refl) trimmed
      ∙ rw (trimmed.0, starts_with-print_choices cs prompt v rest)
          (ap (new_with j) (parse_thread_options-separated cs (object []) prompt v rest)
            ∙ rw (trim-IsTrimmed prompt rest, rest.0) refl)

  raw_message-valid : (m : Value) (k : JsonRpcKind) → k ≢ invalid → raw_message j m k ≡ raw m
  unfolding raw_message
  raw_message-valid m invalid ne = absurd (ne refl)
  raw_message-valid m request ne = refl
  raw_message-valid m notification ne = refl
  raw_message-valid m response ne = refl

  pub parse_raw_line :
      (s : Text) (m : Value)
      → IsTrimmed s
      → parse s ≡ some m
      → classify_json_rpc j m ≢ invalid
      → parse_command j (after (text "raw") s) ≡ raw m
  unfolding parse_named parse_request parse_raw text_eq text IsWord word_length is_space IsTrimmed
  parse_raw_line s m rest parsed known =
      parse_command-words (text "raw") s (refl, refl) rest
      ∙ rw (rest.0, parsed) (raw_message-valid m (classify_json_rpc j m) known)
