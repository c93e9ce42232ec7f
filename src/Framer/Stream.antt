-- ===== src/Framer/Stream.antt =====
-- JsonLineFramer::consume against a description that reads one byte at a time, with no buffer
-- offset, no compaction and no fuel.
use aisuite.Common.{
  ℕ, zero, suc, ◌+◌, ◌-◌, ◌≤◌, ◌<◌, ◌≡◌, refl, sym, ap, ap₂, ◌∙◌, inl, inr, true, false, Option,
  none, some, List, [], ◌∷◌, ◌++◌, append_assoc, append-nil, arith, ltb, ◌==◌, if◌then◌else◌,
  Option-cases, length, take, drop, length-append, length-drop, drop-append_of_le, drop-drop,
  drop-length, length-take_of_le, Text, index_of,
}
use aisuite.Framer.{
  JsonLineFramer, FrameError, exceeds_before_delimiter, exceeds, invalid_json, Handlers, Ending,
  returned, threw, Run, compact, append, strip_cr, deliver, on_line, on_rest, advance, on_delimiter,
  loop, consume,
}

-- What a caller can tell of a run: the messages, the errors, how it ended, and the bytes that wait
-- for their delimiter.
pub record Decoded (V : Type 0) : Type 0 where
  pub messages : List V
  pub errors : List FrameError
  pub ending : Ending
  pub pending : Text

abbrev pub pending : JsonLineFramer → Text
pending f = drop f.buffer_offset f.buffer

abbrev pub view : {V : Type 0} → Run V → Decoded V
view r = record {
  messages = r.messages;
  errors = r.errors;
  ending = r.ending;
  pending = pending r.framer;
}

module _ {V : Type 0} (h : Handlers V) (maximum : ℕ) where
  unfoldable pub refuse : FrameError → Decoded V
  refuse why = record {
    messages = [];
    errors = if h.has_on_error then why ∷ [] else [];
    ending = returned false;
    pending = [];
  }

  -- At the end of the input: `acc` is the line so far.
  unfoldable pub at_end : Text → Decoded V
  unfolding refuse
  at_end acc =
      if ltb maximum (length acc)
      then refuse exceeds_before_delimiter
      else record { messages = []; errors = []; ending = returned true; pending = acc }

  unfoldable pub parsed : Option V → Text → Decoded V → Decoded V
  parsed none unread rest = refuse invalid_json
  parsed (some m) unread rest =
      if h.throws m
      then record { messages = m ∷ []; errors = []; ending = threw; pending = unread }
      else record rest { messages = m ∷ rest.messages }

  -- A line without its carriage return; blank lines are skipped.
  unfoldable pub on_text : Text → Text → Decoded V → Decoded V
  unfolding parsed refuse
  on_text [] unread rest = rest
  on_text (c ∷ line) unread rest = parsed (h.parse (c ∷ line)) unread rest

  unfoldable pub at_newline : Text → Text → Decoded V → Decoded V
  unfolding refuse on_text
  at_newline acc unread rest =
      if ltb maximum (length acc) then refuse exceeds else on_text (strip_cr acc) unread rest

  -- One byte at a time.
  unfoldable pub decode : Text → Text → Decoded V
  unfolding at_end at_newline
  decode acc [] = at_end acc
  decode acc (c ∷ s) =
      let more : Decoded V = decode (acc ++ c ∷ []) s in
      let rest : Decoded V = decode [] s in if c == b'\n' then at_newline acc s rest else more

  decode_line :
      (acc s : Text) (i : ℕ)
      → index_of b'\n' s ≡ some i
      → decode acc s ≡ at_newline (acc ++ take i s) (drop (suc i) s) (decode [] (drop (suc i) s))
  unfolding decode index_of
  decode_line acc [] i e = cc
  decode_line acc (c ∷ s) zero e = ground (arith, append-nil acc)
  decode_line acc (c ∷ s) (suc i) e =
      ground (arith, decode_line (acc ++ c ∷ []) s i, append_assoc acc (c ∷ []) (take i s))

  decode_rest : (acc s : Text) → index_of b'\n' s ≡ none → decode acc s ≡ at_end (acc ++ s)
  unfolding decode index_of
  decode_rest acc [] e = ground (arith, append-nil acc)
  decode_rest acc (c ∷ s) e =
      ground (arith, decode_rest (acc ++ c ∷ []) s, append_assoc acc (c ∷ []) s)

pub index_of-lt : (s : Text) (i : ℕ) → index_of b'\n' s ≡ some i → i < length s
unfolding index_of
index_of-lt [] i e = cc
index_of-lt (c ∷ s) zero e = omega arith
index_of-lt (c ∷ s) (suc i) e = ground (arith, index_of-lt s i)

pub pending-compact :
    (f : JsonLineFramer) → f.buffer_offset ≤ length f.buffer → pending (compact f) ≡ pending f
unfolding compact
pending-compact f b = ground (arith, drop-length f.buffer)

pub compact_bounds :
    (f : JsonLineFramer)
    → f.buffer_offset ≤ length f.buffer
    → (compact f).buffer_offset ≤ length (compact f).buffer
unfolding compact
compact_bounds f b = ground arith

pub compact-maximum : (f : JsonLineFramer) → (compact f).maximum_frame_bytes ≡ f.maximum_frame_bytes
unfolding compact
compact-maximum f = ground arith

pub append_bounds :
    (f : JsonLineFramer) (bytes : Text)
    → f.buffer_offset ≤ length f.buffer
    → (append f bytes).buffer_offset ≤ length (append f bytes).buffer
unfolding append
append_bounds f bytes b = omega (arith, compact_bounds f b, length-append (compact f).buffer bytes)

pub append-maximum :
    (f : JsonLineFramer) (bytes : Text)
    → (append f bytes).maximum_frame_bytes ≡ f.maximum_frame_bytes
unfolding append compact
append-maximum f bytes = ground arith

pub append-has_failed :
    (f : JsonLineFramer) (bytes : Text) → (append f bytes).has_failed ≡ f.has_failed
unfolding append compact
append-has_failed f bytes = ground arith

pub pending-append :
    (f : JsonLineFramer) (bytes : Text)
    → f.buffer_offset ≤ length f.buffer
    → pending (append f bytes) ≡ pending f ++ bytes
unfolding append
pending-append f bytes b = rw (
  drop-append_of_le (compact f).buffer_offset (compact f).buffer bytes (compact_bounds f b),
  pending-compact f b,
)

module _ {V : Type 0} (h : Handlers V) where
  on_rest-view :
      (f : JsonLineFramer)
      → f.buffer_offset ≤ length f.buffer
      → view (on_rest h f) ≡ at_end h f.maximum_frame_bytes (pending f)
  unfolding on_rest at_end compact
  on_rest-view f b = ground (arith, length-drop f.buffer_offset f.buffer, drop-length f.buffer)

  on_line-view :
      (f : JsonLineFramer) (line : Text) (r : Run V)
      → view (on_line h f line r) ≡ on_text h f.maximum_frame_bytes line (pending f) (view r)
  unfolding on_line on_text deliver
  on_line-view f [] r = refl
  on_line-view f (c ∷ line) r = ground arith

  on_delimiter-view :
      (f : JsonLineFramer) (i : ℕ) (r : Run V)
      → i < length (pending f)
      → view (on_delimiter h f (f.buffer_offset + i) r)
        ≡ at_newline h f.maximum_frame_bytes
            (take i (pending f))
            (pending (advance h f (f.buffer_offset + i)))
            (view r)
  unfolding on_delimiter at_newline
  on_delimiter-view f i r b =
      let e : f.buffer_offset + i - f.buffer_offset ≡ i = omega arith in
      rw e (
        ground (
          arith,
          length-take_of_le i (pending f),
          on_line-view (advance h f (f.buffer_offset + i)) (strip_cr (take i (pending f))) r,
        ))

  -- With fuel for each byte the loop ends, and reads what the description reads.
  pub loop-decode :
      (fuel : ℕ) (f : JsonLineFramer)
      → f.buffer_offset ≤ length f.buffer
      → length (pending f) < fuel
      → (r : Run V) × (loop h fuel f ≡ some r)
        × (view r ≡ decode h f.maximum_frame_bytes [] (pending f))
  unfolding loop
  loop-decode zero f b lt = absurd (omega arith)
  loop-decode (suc fuel) f b lt = elim (Option-cases (index_of b'\n' (pending f))) [
    | inl e ↦ (
      on_rest h f,
      rw (e, loop),
      on_rest-view f b ∙ sym (decode_rest h f.maximum_frame_bytes [] (pending f) e),
    )
    | inr (i, e) ↦
        let newline : ℕ = f.buffer_offset + i in
        let i_lt : i < length (pending f) = index_of-lt (pending f) i e in
        let size : length (pending f) ≡ length f.buffer - f.buffer_offset =
          length-drop f.buffer_offset f.buffer in
        let left : length (pending (advance h f newline)) ≡ length f.buffer - (newline + 1) =
          length-drop (newline + 1) f.buffer in
        let (r, found, seen) = loop-decode fuel (advance h f newline) (omega arith) (omega arith) in
        let e' : f.buffer_offset + suc i ≡ newline + 1 = omega arith in
        (
          on_delimiter h f newline r,
          rw (e, loop) (rw found),
          (on_delimiter-view f i r i_lt)
              ∙ rw (seen, decode_line h f.maximum_frame_bytes [] (pending f) i e)
                  (rw (drop-drop f.buffer_offset (suc i) f.buffer, e')),
        )
  ]

  pub consume-loop :
      (f : JsonLineFramer) (bytes : Text)
      → f.has_failed ≡ false
      → consume h f bytes ≡ loop h (suc (length (append f bytes).buffer)) (append f bytes)
  unfolding consume
  consume-loop f bytes ok = ground arith

  -- On a framer that has not failed and whose offset lies in its buffer, `consume` returns, and
  -- what it delivers, reports and keeps is what a reader of single bytes makes of the kept
  -- bytes followed by the new ones.
  pub consume-decode :
      (f : JsonLineFramer) (bytes : Text)
      → f.buffer_offset ≤ length f.buffer
      → f.has_failed ≡ false
      → (r : Run V) × (consume h f bytes ≡ some r)
        × (view r ≡ decode h f.maximum_frame_bytes [] (pending f ++ bytes))
  consume-decode f bytes b ok =
      let g : JsonLineFramer = append f bytes in
      let inside = append_bounds f bytes b in
      let left = length-drop g.buffer_offset g.buffer in
      let (r, found, seen) = loop-decode (suc (length g.buffer)) g inside (omega arith) in
      (
        r,
        consume-loop f bytes ok ∙ found,
        seen ∙ ap₂ (λ m p. decode h m [] p) (append-maximum f bytes) (pending-append f bytes b),
      )

  pub consume-view :
      (f : JsonLineFramer) (bytes : Text) (r : Run V)
      → f.has_failed ≡ false
      → f.buffer_offset ≤ length f.buffer
      → consume h f bytes ≡ some r
      → view r ≡ decode h f.maximum_frame_bytes [] (pending f ++ bytes)
  consume-view f bytes r ok b e =
      let (r', found, seen) = consume-decode f bytes b ok in
      let same : r ≡ r' = cc in ap view same ∙ seen

  pub consume_failed :
      (f : JsonLineFramer) (bytes : Text)
      → f.has_failed ≡ true
      → consume h f bytes
        ≡ some (record { framer = f; messages = []; errors = []; ending = returned false })
  unfolding consume
  consume_failed f bytes bad = ground arith
