-- ===== src/Console/Bounds.antt =====
-- CommandParser: the loop over the options comes to its end.
use aisuite.Common.{
  ℕ, zero, suc, ◌+◌, ◌≤◌, ◌<◌, ◌≡◌, ◌≢◌, refl, Bool, true, false, not, ◌||◌, [], ◌∷◌, arith,
  if◌then◌else◌, length, drop, length-drop, length-take_of_le, Text, text, text_eq, starts_with,
  is_empty,
}
use aisuite.Json.{Json}
use aisuite.Console.Words.{trim_start, trim_end, trim, word_length, take_word}
use aisuite.Console.Options.{
  OptionsState, Outcome, exhausted, Pass, returns, goes_on, is_known, is_seen, option_value,
  option_named, option_pass, options_from,
}

length-trim_start : (s : Text) → length (trim_start s) ≤ length s
unfolding trim_start
length-trim_start [] = omega arith
length-trim_start (c ∷ s) = ground (arith, length-trim_start s)

length-trim_end : (s : Text) → length (trim_end s) ≤ length s
unfolding trim_end
length-trim_end [] = omega arith
length-trim_end (c ∷ s) = ground (arith, length-trim_end s)

length-trim : (s : Text) → length (trim s) ≤ length s
unfolding trim
length-trim s = omega (arith, length-trim_start s, length-trim_end (trim_start s))

word_length-length : (s : Text) → word_length s ≤ length s
unfolding word_length
word_length-length [] = omega arith
word_length-length (c ∷ s) = ground (arith, word_length-length s)

-- A word is taken off the text.
length-take_word : (s : Text) → length (take_word s).0 + length (take_word s).1 ≤ length s
unfolding take_word
length-take_word s =
    let v = trim s in
    let n = word_length v in
    omega (
      arith,
      length-trim s,
      word_length-length v,
      length-take_of_le n v (word_length-length v),
      length-trim (drop n v),
      length-drop n v,
    )

is_known-nonempty : (s : Text) → is_known s ≡ true → 1 ≤ length s
unfolding is_known text_eq text
is_known-nonempty [] e = absurd (cc)
is_known-nonempty (c ∷ s) e = omega arith

module _ {j : Json} where
  -- A pass returns, or leaves less than n bytes.
  abbrev Advances : ℕ → Pass j → Type 0
  Advances n (returns o) = o ≢ exhausted
  Advances n (goes_on t) = length t.input < n

  if-Advances :
      (b : Bool) (p q : Pass j) (n : ℕ)
      → (b ≡ true → Advances n p)
      → (b ≡ false → Advances n q)
      → Advances n (if b then p else q)
  if-Advances true p q n v w = v refl
  if-Advances false p q n v w = w refl

  option_value-Advances :
      (s : OptionsState j) (option : Text) (rest : Text × Text) (n : ℕ)
      → length rest.1 < n
      → Advances n (option_value s option rest)
  unfolding option_value
  option_value-Advances s option (value, rest) n less =
      if-Advances (is_empty value || starts_with value (text "--")) _ _ n (λ _ x. cc) (λ _. less)

  option_named-Advances :
      (e p : Bool) (s : OptionsState j) (option rest : Text) (n : ℕ)
      → length option + length rest ≤ n
      → Advances n (option_named e p s option rest)
  unfolding option_named
  option_named-Advances e p s option rest n bound =
      if-Advances (text_eq option (text "--")) _ _ n
        (λ _. if-Advances p _ _ n (λ _ x. cc) (λ _ x. cc))
        (λ _.
          if-Advances (not (is_known option)) _ _ n (λ _ x. cc)
            (λ known.
              let some_letter = is_known-nonempty option (ground (arith, known)) in
              let less : length rest < n = omega (arith, some_letter, bound) in
              let after : length (take_word rest).1 < n =
                omega (arith, less, length-take_word rest) in
              if-Advances (is_seen option s.seen) _ _ n (λ _ x. cc)
                (λ _.
                  if-Advances (text_eq option (text "--ephemeral")) _ _ n
                    (λ _. if-Advances e _ _ n (λ _. less) (λ _ x. cc))
                    (λ _. option_value-Advances s option (take_word rest) n after))))

  option_pass-Advances :
      (e p : Bool) (s : OptionsState j) → Advances (length s.input) (option_pass e p s)
  unfolding option_pass
  option_pass-Advances e p s =
      if-Advances (is_empty s.input) _ _ (length s.input) (λ _ x. cc)
        (λ _. option_named-Advances e p s _ _ (length s.input) (length-take_word s.input))

  passes_end :
      (f g : OptionsState j → Outcome j) (q : Pass j) (n : ℕ)
      → Advances n q
      → ((t : OptionsState j) → length t.input < n → (f t ≢ exhausted) × (f t ≡ g t))
      → (elim q [ returns o ↦ o | goes_on t ↦ f t ] ≢ exhausted)
        × (elim q [ returns o ↦ o | goes_on t ↦ f t ] ≡ elim q [ returns o ↦ o | goes_on t ↦ g t ])
  passes_end f g (returns o) n v k = (v, refl)
  passes_end f g (goes_on t) n v k = k t v

  -- Fuel above the length of the text is enough: the loop over the options of a thread comes to its
  -- end, and more fuel changes nothing.
  pub options_from-ends :
      (m n : ℕ) (e p : Bool) (s : OptionsState j)
      → length s.input < m
      → length s.input < n
      → (options_from m e p s ≢ exhausted) × (options_from m e p s ≡ options_from n e p s)
  unfolding options_from
  options_from-ends zero n e p s lm ln = absurd (omega (arith, lm))
  options_from-ends (suc m) zero e p s lm ln = absurd (omega (arith, ln))
  options_from-ends (suc m) (suc n) e p s lm ln =
      passes_end (options_from m e p) (options_from n e p) (option_pass e p s) (length s.input)
        (option_pass-Advances e p s)
        (λ t less. options_from-ends m n e p t (omega (arith, less, lm)) (omega (arith, less, ln)))
