-- ===== src/Console/Choosing.antt =====
-- CommandParser: the loop over the options of a thread, at options that are typed.
use aisuite.Common.{
  ℕ, zero, suc, ◌<◌, ◌≡◌, refl, ap, ◌∙◌, inr, Bool, true, false, List, [], ◌∷◌, arith, length, Text,
  text, text_eq, starts_with, is_empty,
}
use aisuite.Json.{Json}
use aisuite.Console.Words.{take_word}
use aisuite.Console.Options.{
  OptionsState, Outcome, returns, goes_on, is_seen, is_known, option_key, option_value,
  option_named, option_pass, options_from,
}
use aisuite.Console.Typing.{IsWord, IsTrimmed}
use aisuite.Console.Choices.{
  Setting, Choice, chosen, ephemeral, cwd, model, model_provider, approval_policy, sandbox_mode,
  flag, ephemeral_flag, parameter, with_rest, print_choices, AllChosen, IsRest, take_word-with_rest,
  with_rest-IsTrimmed, flag-IsWord, ephemeral_flag-IsWord, print_choices-IsRest,
}

module _ (j : Json) where
  open j use {Value, string, boolean, set}

  -- The parameters with what the options set, in their order.
  unfoldable pub chosen_in : Value → List Choice → Value
  chosen_in p [] = p
  chosen_in p (chosen k v ∷ cs) = chosen_in (set p (parameter k) (string v)) cs
  chosen_in p (ephemeral ∷ cs) = chosen_in (set p (text "ephemeral") (boolean true)) cs

  abbrev at : List Text → Text → Value → OptionsState j
  at seen input p = record { seen = seen; input = input; parameters = p }

  pub option_pass-word :
      (allowed stop : Bool) (seen : List Text) (p : Value) (w r : Text)
      → IsWord w
      → IsRest r
      → option_pass allowed stop (at seen (with_rest w r) p)
        ≡ option_named allowed stop (at seen (with_rest w r) p) w r
  unfolding option_pass IsTrimmed
  option_pass-word allowed stop seen p w r word rest =
      let filled : is_empty (with_rest w r) ≡ false = (with_rest-IsTrimmed w r word rest).0 in
      rw (filled, take_word-with_rest w r word rest) refl

  option_value-word :
      (seen : List Text) (p : Value) (input option v r : Text)
      → IsWord v
      → starts_with v (text "--") ≡ false
      → option_value (at seen input p) option (v, r)
        ≡ goes_on (at (option ∷ seen) r (set p (option_key option) (string v)))
  unfolding option_value IsWord
  option_value-word seen p input option v r word plain = rw (word.0, plain) refl

  option_key-flag : (k : Setting) → option_key (flag k) ≡ parameter k
  unfolding option_key flag parameter text_eq text
  option_key-flag cwd = refl
  option_key-flag model = refl
  option_key-flag model_provider = refl
  option_key-flag approval_policy = refl
  option_key-flag sandbox_mode = refl

  option_named-flag :
      (k : Setting) (allowed stop : Bool) (seen : List Text) (p : Value) (input r : Text)
      → is_seen (flag k) seen ≡ false
      → option_named allowed stop (at seen input p) (flag k) r
        ≡ option_value (at seen input p) (flag k) (take_word r)
  unfolding option_named is_known flag text_eq text
  option_named-flag cwd allowed stop seen p input r e = rw e refl
  option_named-flag model allowed stop seen p input r e = rw e refl
  option_named-flag model_provider allowed stop seen p input r e = rw e refl
  option_named-flag approval_policy allowed stop seen p input r e = rw e refl
  option_named-flag sandbox_mode allowed stop seen p input r e = rw e refl

  option_named-ephemeral :
      (stop : Bool) (seen : List Text) (p : Value) (input r : Text)
      → is_seen ephemeral_flag seen ≡ false
      → option_named true stop (at seen input p) ephemeral_flag r
        ≡ goes_on (at (ephemeral_flag ∷ seen) r (set p (text "ephemeral") (boolean true)))
  unfolding option_named is_known text_eq text
  option_named-ephemeral stop seen p input r e = rw e refl

  -- The pass that ends the loop gives `o`: so does the loop, with the parameters that are chosen.
  pub options_from-choices :
      (allowed stop : Bool) (r : Text) (o : Value → Outcome j)
      → ((seen : List Text) (p : Value) → option_pass allowed stop (at seen r p) ≡ returns (o p))
      → IsRest r
      → (cs : List Choice) (seen : List Text) (p : Value) (fuel : ℕ) → AllChosen allowed seen cs
      → length cs < fuel
      → options_from fuel allowed stop (at seen (print_choices cs r) p) ≡ o (chosen_in p cs)
  unfolding options_from AllChosen print_choices chosen_in
  options_from-choices allowed stop r o ends rest cs seen p zero v enough =
      absurd (omega (arith, enough))
  options_from-choices allowed stop r o ends rest [] seen p (suc fuel) v enough =
      rw (ends seen p, options_from) refl
  options_from-choices allowed stop r o ends rest (chosen k v ∷ cs) seen p (suc fuel)
        (new, is_value, others) enough =
      let next = print_choices cs r in
      let behind = print_choices-IsRest allowed (flag k ∷ seen) cs r others rest in
      let input = with_rest (flag k) (with_rest v next) in
      let pass : option_pass allowed stop (at seen input p)
          ≡ goes_on (at (flag k ∷ seen) next (set p (parameter k) (string v))) =
        option_pass-word allowed stop seen p (flag k) (with_rest v next) (flag-IsWord k)
          (inr (with_rest-IsTrimmed v next is_value.0 behind))
        ∙ option_named-flag k allowed stop seen p input (with_rest v next) new
        ∙ ap (option_value (at seen input p) (flag k))
            (take_word-with_rest v next is_value.0 behind)
        ∙ option_value-word seen p input (flag k) v next is_value.0 is_value.1
        ∙ ap (λ key. goes_on (at (flag k ∷ seen) next (set p key (string v))))
            (option_key-flag k) in
      rw (pass, options_from)
        (options_from-choices allowed stop r o ends rest cs (flag k ∷ seen)
          (set p (parameter k) (string v)) fuel others (omega (arith, enough)))
  options_from-choices allowed stop r o ends rest (ephemeral ∷ cs) seen p (suc fuel)
        (new, allow, others) enough =
      let next = print_choices cs r in
      let behind = print_choices-IsRest allowed (ephemeral_flag ∷ seen) cs r others rest in
      let input = with_rest ephemeral_flag next in
      let q = set p (text "ephemeral") (boolean true) in
      let pass : option_pass allowed stop (at seen input p)
          ≡ goes_on (at (ephemeral_flag ∷ seen) next q) =
        option_pass-word allowed stop seen p ephemeral_flag next ephemeral_flag-IsWord behind
        ∙ ap (λ a. option_named a stop (at seen input p) ephemeral_flag next) allow
        ∙ option_named-ephemeral stop seen p input next new in
      rw (pass, options_from)
        (options_from-choices allowed stop r o ends rest cs (ephemeral_flag ∷ seen) q fuel others
          (omega (arith, enough)))
