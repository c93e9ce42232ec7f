-- ===== src/Console/Typing.antt =====
-- CommandParser: lines that are typed as the help text shows them.
use aisuite.Common.{
  ◌≡◌, refl, sym, ap, ap₂, ◌∙◌, false, [], ◌∷◌, ◌++◌, arith, length, take, drop-length,
  take-length_append, drop-length_append, Text, is_empty, append-nil,
}
use aisuite.Console.Words.{is_space, trim_start, trim_end, trim, word_length, take_word}

-- A word of a line: it is not empty and has no space.
unfoldable pub IsWord : Text → Type 0
IsWord s = (is_empty s ≡ false) × (word_length s ≡ length s)

-- A text without space at its ends.
unfoldable pub IsTrimmed : Text → Type 0
IsTrimmed s = (is_empty s ≡ false) × ((trim_start s ≡ s) × (trim_end s ≡ s))

trim_start-word : (w r : Text) → IsWord w → trim_start (w ++ r) ≡ w ++ r
unfolding IsWord trim_start word_length
trim_start-word [] r (filled, whole) = absurd cc
trim_start-word (c ∷ w) r (filled, whole) = ground (arith, whole)

is_empty-trim_end_append :
    (w r : Text) → is_empty (trim_end r) ≡ false → is_empty (trim_end (w ++ r)) ≡ false
unfolding trim_end
is_empty-trim_end_append [] r e = e
is_empty-trim_end_append (c ∷ w) r e = ground (arith, is_empty-trim_end_append w r e)

trim_end-append : (w r : Text) → is_empty (trim_end r) ≡ false → trim_end (w ++ r) ≡ w ++ trim_end r
unfolding trim_end
trim_end-append [] r e = refl
trim_end-append (c ∷ w) r e = ground (arith, trim_end-append w r e, is_empty-trim_end_append w r e)

trim_end-no_space : (w : Text) → word_length w ≡ length w → trim_end w ≡ w
unfolding trim_end word_length
trim_end-no_space [] e = refl
trim_end-no_space (c ∷ w) e = ground (arith, trim_end-no_space w)

word_length-append :
    (w r : Text) → word_length w ≡ length w → word_length (w ++ b' ' ∷ r) ≡ length w
unfolding word_length is_space
word_length-append [] r e = refl
word_length-append (c ∷ w) r e = ground (arith, word_length-append w r)

trim_end-space : (r : Text) → IsTrimmed r → trim_end (b' ' ∷ r) ≡ b' ' ∷ r
unfolding IsTrimmed trim_end
trim_end-space r (filled, (start, end)) = ground (arith, filled, end)

is_empty-append : (w r : Text) → is_empty w ≡ false → is_empty (w ++ r) ≡ false
is_empty-append [] r e = absurd cc
is_empty-append (c ∷ w) r e = refl

pub words-IsTrimmed : (w r : Text) → IsWord w → IsTrimmed r → IsTrimmed (w ++ b' ' ∷ r)
unfolding IsTrimmed IsWord
words-IsTrimmed w r word rest =
    let end = trim_end-space r rest in
    (
      is_empty-append w (b' ' ∷ r) word.0,
      (
        trim_start-word w (b' ' ∷ r) word,
        trim_end-append w (b' ' ∷ r) (ap is_empty end) ∙ ap (λ t. w ++ t) end,
      ),
    )

pub word-IsTrimmed : (w : Text) → IsWord w → IsTrimmed w
unfolding IsTrimmed IsWord
word-IsTrimmed w word = (
  word.0,
  (
    ap trim_start (sym (append-nil w)) ∙ trim_start-word w [] word ∙ append-nil w,
    trim_end-no_space w word.1,
  ),
)

pub trim-IsTrimmed : (s : Text) → IsTrimmed s → trim s ≡ s
unfolding IsTrimmed trim
trim-IsTrimmed s (filled, (start, end)) = ap trim_end start ∙ end

trim-space : (r : Text) → IsTrimmed r → trim (b' ' ∷ r) ≡ r
unfolding trim trim_start is_space IsTrimmed
trim-space r rest = trim-IsTrimmed r rest

-- The first word of a text is taken off, with the space behind it.
pub take_word-words : (w r : Text) → IsWord w → IsTrimmed r → take_word (w ++ b' ' ∷ r) ≡ (w, r)
unfolding take_word IsWord
take_word-words w r word rest =
    let trimmed = trim-IsTrimmed (w ++ b' ' ∷ r) (words-IsTrimmed w r word rest) in
    let measured = word_length-append w r word.1 in
    rw (trimmed, measured)
      (ap₂ (λ a b. (a, b)) (take-length_append w (b' ' ∷ r))
        (ap trim (drop-length_append w (b' ' ∷ r)) ∙ trim-space r rest))

pub take_word-word : (w : Text) → IsWord w → take_word w ≡ (w, [])
unfolding take_word IsWord trim trim_end trim_start
take_word-word w word =
    let trimmed = trim-IsTrimmed w (word-IsTrimmed w word) in
    let measured = word.1 in
    let all : take (length w) w ≡ w =
      ap (take (length w)) (sym (append-nil w)) ∙ take-length_append w [] in
    rw (trimmed, measured) (ap₂ (λ a b. (a, b)) all (ap trim (drop-length w)))
