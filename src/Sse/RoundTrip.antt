-- ===== src/Sse/RoundTrip.antt =====
-- SseDecoder::consume: a stream of events, written and read.
use aisuite.Common.{
  ℕ, ◌+◌, ◌-◌, ◌≤◌, ◌<◌, ◌≡◌, refl, ap, ◌∙◌, Bool, true, false, not, ◌||◌, List, [], ◌∷◌, ◌++◌,
  append_assoc, append-nil, arith, length, length-append, take, Text, is_empty,
}
use aisuite.Sse.{followed_by, consume}
use aisuite.Sse.Lines.{Newline, lf, cr, crlf, newline, is_cr, one_line, between, ran, consume-line}
use aisuite.Sse.Written.{
  event_line, data_line, print_data, named, body, name_of, all_one_line, data_bytes,
  take-data_bytes, consume-then, on_value-event_line, on_value-data_line, on_value-blank,
}

is_empty-line : (event_data l : Text) → is_empty (event_data ++ (l ++ b'\n' ∷ [])) ≡ false
is_empty-line [] [] = refl
is_empty-line [] (c ∷ l) = refl
is_empty-line (c ∷ event_data) l = refl

append-data_bytes :
    (event_data l : Text) (ls : List Text)
    → (event_data ++ (l ++ b'\n' ∷ [])) ++ data_bytes ls ≡ event_data ++ data_bytes (l ∷ ls)
unfolding data_bytes
append-data_bytes event_data l ls =
    append_assoc event_data (l ++ b'\n' ∷ []) (data_bytes ls)
    ∙ ap (λ t. event_data ++ t) (append_assoc l (b'\n' ∷ []) (data_bytes ls))

length-newline : (n : Newline) → 0 < length (newline n)
unfolding newline
length-newline lf = omega arith
length-newline cr = omega arith
length-newline crlf = omega arith

pub ready : (n : Newline) → not (is_cr n) || is_cr n ≡ true
unfolding is_cr
ready lf = refl
ready cr = refl
ready crlf = refl

module _ (throws : Text → Text → Bool) (calm : (name b : Text) → throws name b ≡ false) where
  consume-data_line :
      (n : Newline) (limit : ℕ) (event event_data l : Text) (a first : Bool)
      → not a || is_cr n ≡ true
      → one_line l ≡ true
      → length event_data + length event + (6 + length l) ≤ limit
      → consume throws (between limit event event_data a first) (data_line l ++ newline n)
        ≡ ran (between limit event (event_data ++ (l ++ b'\n' ∷ [])) (is_cr n) false) []
  unfolding one_line
  consume-data_line n limit event event_data l a first fresh plain small =
      let longer = length-append event_data (l ++ b'\n' ∷ []) in
      let line = length-append l (b'\n' ∷ []) in
      consume-line throws n limit event event_data (data_line l) a first event
        (event_data ++ (l ++ b'\n' ∷ [])) [] fresh plain (omega (arith, small))
        (λ b.
          on_value-data_line throws calm limit event event_data l first b
            (omega (arith, small, longer, line)))

  -- A line of data, and what is read behind it.
  consume-data_line_then :
      (n : Newline) (limit : ℕ) (event event_data l rest : Text) (a first : Bool)
      → not a || is_cr n ≡ true
      → one_line l ≡ true
      → length event_data + length event + (6 + length l) ≤ limit
      → consume throws (between limit event event_data a first) ((data_line l ++ newline n) ++ rest)
        ≡ consume throws
            (between limit event (event_data ++ (l ++ b'\n' ∷ [])) (is_cr n) false)
            rest
  unfolding followed_by
  consume-data_line_then n limit event event_data l rest a first fresh plain small =
      consume-then throws calm (between limit event event_data a first)
        (between limit event (event_data ++ (l ++ b'\n' ∷ [])) (is_cr n) false)
        (data_line l ++ newline n) rest []
        (consume-data_line n limit event event_data l a first fresh plain small)

  -- The lines of data and the blank line, where there is data before.
  consume-data :
      (n : Newline) (limit : ℕ) (event event_data : Text) (ls : List Text)
      → all_one_line ls ≡ true
      → is_empty event_data ≡ false
      → length event_data + length event + length (print_data n ls) ≤ limit
      → let all = event_data ++ data_bytes ls in
        consume throws
          (between limit event event_data (is_cr n) false)
          (print_data n ls ++ newline n)
        ≡ ran
            (between limit [] [] (is_cr n) false)
            ((name_of event, take (length all - 1) all) ∷ [])
  unfolding all_one_line print_data one_line data_bytes
  consume-data n limit event event_data [] v filled small = rw (append-nil event_data) (
      consume-line throws n limit event event_data [] (is_cr n) false [] []
        ((name_of event, take (length event_data - 1) event_data) ∷ []) (ready n) refl
        (omega (arith, small))
        (λ a. on_value-blank throws calm limit event event_data false a filled))
  consume-data n limit event event_data (l ∷ ls) v filled small =
      let plain : one_line l ≡ true = ground (arith, v) in
      let others : all_one_line ls ≡ true = ground (arith, v) in
      let next = event_data ++ (l ++ b'\n' ∷ []) in
      let line = data_line l ++ newline n in
      let printed = length-append line (print_data n ls) in
      let whole = length-append (data_line l) (newline n) in
      let ending = length-newline n in
      let longer = length-append event_data (l ++ b'\n' ∷ []) in
      let filled_line = length-append l (b'\n' ∷ []) in
      ap (consume throws (between limit event event_data (is_cr n) false))
        (append_assoc line (print_data n ls) (newline n))
      ∙ consume-data_line_then n limit event event_data l (print_data n ls ++ newline n) (is_cr n)
          false (ready n) plain (omega (arith, small, printed, whole))
      ∙ consume-data n limit event next ls others (is_empty-line event_data l)
          (omega (arith, small, printed, whole, ending, longer, filled_line))
      ∙ ap
          (λ all.
            ran (between limit [] [] (is_cr n) false)
              ((name_of event, take (length all - 1) all) ∷ []))
          (append-data_bytes event_data l ls)

  -- The lines of data of an event, and the blank line.
  consume-lines :
      (n : Newline) (limit : ℕ) (event l : Text) (ls : List Text) (a first : Bool)
      → not a || is_cr n ≡ true
      → all_one_line (l ∷ ls) ≡ true
      → length event + length (print_data n (l ∷ ls)) ≤ limit
      → consume throws (between limit event [] a first) (print_data n (l ∷ ls) ++ newline n)
        ≡ ran (between limit [] [] (is_cr n) false) ((name_of event, body l ls) ∷ [])
  unfolding all_one_line print_data
  consume-lines n limit event l ls a first fresh v small =
      let plain : one_line l ≡ true = ground (arith, v) in
      let others : all_one_line ls ≡ true = ground (arith, v) in
      let line = data_line l ++ newline n in
      let printed = length-append line (print_data n ls) in
      let whole = length-append (data_line l) (newline n) in
      let ending = length-newline n in
      let filled_line = length-append l (b'\n' ∷ []) in
      ap (consume throws (between limit event [] a first))
        (append_assoc line (print_data n ls) (newline n))
      ∙ consume-data_line_then n limit event [] l (print_data n ls ++ newline n) a first fresh plain
          (omega (arith, small, printed, whole))
      ∙ consume-data n limit event (l ++ b'\n' ∷ []) ls others (is_empty-line [] l)
          (omega (arith, small, printed, whole, ending, filled_line))
      ∙ ap
          (λ all.
            ran (between limit [] [] (is_cr n) false)
              ((name_of event, take (length all - 1) all) ∷ []))
          (append-data_bytes [] l ls)
      ∙ ap (λ b. ran (between limit [] [] (is_cr n) false) ((name_of event, b) ∷ []))
          (take-data_bytes l ls)

  -- An event.
  pub consume-named :
      (n : Newline) (limit : ℕ) (name l : Text) (ls : List Text) (a first : Bool)
      → not a || is_cr n ≡ true
      → one_line name ≡ true
      → all_one_line (l ∷ ls) ≡ true
      → length (named n name (print_data n (l ∷ ls) ++ newline n)) ≤ limit
      → consume throws
          (between limit [] [] a first)
          (named n name (print_data n (l ∷ ls) ++ newline n))
        ≡ ran (between limit [] [] (is_cr n) false) ((name_of name, body l ls) ∷ [])
  unfolding named one_line followed_by
  consume-named n limit [] l ls a first fresh plain v small =
      let printed = length-append (print_data n (l ∷ ls)) (newline n) in
      consume-lines n limit [] l ls a first fresh v (omega (arith, small, printed))
  consume-named n limit (c ∷ name) l ls a first fresh plain v small =
      let lines = print_data n (l ∷ ls) ++ newline n in
      let line = event_line (c ∷ name) in
      let printed = length-append (print_data n (l ∷ ls)) (newline n) in
      let whole = length-append (line ++ newline n) lines in
      let begun = length-append line (newline n) in
      consume-then throws calm (between limit [] [] a first)
        (between limit (c ∷ name) [] (is_cr n) false) (line ++ newline n) lines []
        (consume-line throws n limit [] [] line a first (c ∷ name) [] [] fresh plain
          (omega (arith, small, whole, begun))
          (λ b.
            on_value-event_line throws calm limit [] [] (c ∷ name) first b
              (omega (arith, small, whole, begun))))
      ∙ consume-lines n limit (c ∷ name) l ls (is_cr n) false (ready n) v
          (omega (arith, small, printed, whole, begun))
