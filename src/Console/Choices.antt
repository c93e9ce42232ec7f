-- ===== src/Console/Choices.antt =====
-- CommandParser: the options of a thread, typed and read.
use aisuite.Common.{
  ◌<◌, ◌≤◌, ◌≡◌, refl, inl, inr, ◌⊎◌, Bool, true, false, List, [], ◌∷◌, ◌++◌, arith, length,
  length-append, Text, text, starts_with,
}
use aisuite.Console.Words.{is_space, word_length, take_word}
use aisuite.Console.Options.{is_seen}
use aisuite.Console.Typing.{
  IsWord, IsTrimmed, words-IsTrimmed, word-IsTrimmed, take_word-words, take_word-word,
}

pub data Setting : Type 0 where
  cwd model model_provider approval_policy sandbox_mode : Setting

-- An option of a thread.
pub data Choice : Type 0 where
  chosen : Setting → Text → Choice
  ephemeral : Choice

-- How an option is typed.
unfoldable pub flag : Setting → Text
flag cwd = text "--cwd"
flag model = text "--model"
flag model_provider = text "--model-provider"
flag approval_policy = text "--approval-policy"
flag sandbox_mode = text "--sandbox-mode"

abbrev pub ephemeral_flag : Text
ephemeral_flag = text "--ephemeral"

-- The parameter that an option sets.
unfoldable pub parameter : Setting → Text
parameter cwd = text "cwd"
parameter model = text "model"
parameter model_provider = text "modelProvider"
parameter approval_policy = text "approvalPolicy"
parameter sandbox_mode = text "sandbox"

-- A word and what follows it, with a space between them where something does.
unfoldable pub with_rest : Text → Text → Text
with_rest w [] = w
with_rest w (c ∷ r) = w ++ b' ' ∷ c ∷ r

unfoldable pub print_choices : List Choice → Text → Text
print_choices [] r = r
print_choices (chosen k v ∷ cs) r = with_rest (flag k) (with_rest v (print_choices cs r))
print_choices (ephemeral ∷ cs) r = with_rest ephemeral_flag (print_choices cs r)

-- No option is given twice or was seen before, a value is a word that does not start with `--`, and
-- `--ephemeral` is given only where it is allowed.
unfoldable pub AllChosen : Bool → List Text → List Choice → Type 0
AllChosen allowed seen [] = Unit
AllChosen allowed seen (chosen k v ∷ cs) =
    (is_seen (flag k) seen ≡ false)
    × (IsWord v × (starts_with v (text "--") ≡ false))
    × AllChosen allowed (flag k ∷ seen) cs
AllChosen allowed seen (ephemeral ∷ cs) =
    (is_seen ephemeral_flag seen ≡ false)
    × (allowed ≡ true)
    × AllChosen allowed (ephemeral_flag ∷ seen) cs

-- What may follow a word.
abbrev pub IsRest : Text → Type 0
IsRest r = (r ≡ []) ⊎ IsTrimmed r

pub take_word-with_rest : (w r : Text) → IsWord w → IsRest r → take_word (with_rest w r) ≡ (w, r)
unfolding with_rest
take_word-with_rest w [] word rest = take_word-word w word
take_word-with_rest w (c ∷ r) word (inl e) = absurd cc
take_word-with_rest w (c ∷ r) word (inr v) = take_word-words w (c ∷ r) word v

pub with_rest-IsTrimmed : (w r : Text) → IsWord w → IsRest r → IsTrimmed (with_rest w r)
unfolding with_rest
with_rest-IsTrimmed w [] word rest = word-IsTrimmed w word
with_rest-IsTrimmed w (c ∷ r) word (inl e) = absurd cc
with_rest-IsTrimmed w (c ∷ r) word (inr v) = words-IsTrimmed w (c ∷ r) word v

pub flag-IsWord : (k : Setting) → IsWord (flag k)
unfolding IsWord flag text word_length is_space
flag-IsWord cwd = (refl, refl)
flag-IsWord model = (refl, refl)
flag-IsWord model_provider = (refl, refl)
flag-IsWord approval_policy = (refl, refl)
flag-IsWord sandbox_mode = (refl, refl)

pub ephemeral_flag-IsWord : IsWord ephemeral_flag
unfolding IsWord text word_length is_space
ephemeral_flag-IsWord = (refl, refl)

pub print_choices-IsRest :
    (allowed : Bool) (seen : List Text) (cs : List Choice) (r : Text)
    → AllChosen allowed seen cs
    → IsRest r
    → IsRest (print_choices cs r)
unfolding AllChosen print_choices
print_choices-IsRest allowed seen [] r v rest = rest
print_choices-IsRest allowed seen (chosen k v ∷ cs) r (new, is_value, others) rest =
    let behind = print_choices-IsRest allowed (flag k ∷ seen) cs r others rest in
    inr (
      with_rest-IsTrimmed (flag k) (with_rest v (print_choices cs r)) (flag-IsWord k)
        (inr (with_rest-IsTrimmed v (print_choices cs r) is_value.0 behind)))
print_choices-IsRest allowed seen (ephemeral ∷ cs) r (new, allow, others) rest =
    let behind = print_choices-IsRest allowed (ephemeral_flag ∷ seen) cs r others rest in
    inr (with_rest-IsTrimmed ephemeral_flag (print_choices cs r) ephemeral_flag-IsWord behind)

pub print_choices-IsTrimmed :
    (allowed : Bool) (seen : List Text) (cs : List Choice) (r : Text)
    → AllChosen allowed seen cs
    → IsTrimmed r
    → IsTrimmed (print_choices cs r)
unfolding AllChosen print_choices
print_choices-IsTrimmed allowed seen [] r v rest = rest
print_choices-IsTrimmed allowed seen (chosen k v ∷ cs) r (new, is_value, others) rest =
    let behind = print_choices-IsTrimmed allowed (flag k ∷ seen) cs r others rest in
    with_rest-IsTrimmed (flag k) (with_rest v (print_choices cs r)) (flag-IsWord k)
      (inr (with_rest-IsTrimmed v (print_choices cs r) is_value.0 (inr behind)))
print_choices-IsTrimmed allowed seen (ephemeral ∷ cs) r (new, allow, others) rest =
    let behind = print_choices-IsTrimmed allowed (ephemeral_flag ∷ seen) cs r others rest in
    with_rest-IsTrimmed ephemeral_flag (print_choices cs r) ephemeral_flag-IsWord (inr behind)

length-with_rest : (w r : Text) → IsWord w → length r < length (with_rest w r)
unfolding with_rest IsWord
length-with_rest [] r word = absurd cc
length-with_rest (d ∷ w) [] word = omega arith
length-with_rest (d ∷ w) (c ∷ r) word = omega (arith, length-append w (b' ' ∷ c ∷ r))

pub length-print_choices :
    (allowed : Bool) (seen : List Text) (cs : List Choice) (r : Text)
    → AllChosen allowed seen cs
    → length cs ≤ length (print_choices cs r)
unfolding AllChosen print_choices
length-print_choices allowed seen [] r v = omega arith
length-print_choices allowed seen (chosen k v ∷ cs) r (new, is_value, others) =
    let shorter = length-print_choices allowed (flag k ∷ seen) cs r others in
    let value = length-with_rest v (print_choices cs r) is_value.0 in
    let whole = length-with_rest (flag k) (with_rest v (print_choices cs r)) (flag-IsWord k) in
    omega (arith, shorter, value, whole)
length-print_choices allowed seen (ephemeral ∷ cs) r (new, allow, others) =
    let shorter = length-print_choices allowed (ephemeral_flag ∷ seen) cs r others in
    let whole = length-with_rest ephemeral_flag (print_choices cs r) ephemeral_flag-IsWord in
    omega (arith, shorter, whole)
