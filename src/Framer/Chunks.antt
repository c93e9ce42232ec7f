-- ===== src/Framer/Chunks.antt =====
-- JsonLineFramer::consume: reads in pieces.
use aisuite.Common.{
  ℕ, ◌≤◌, ◌<◌, ◌≡◌, refl, sym, ap, ap₂, subst₂, ◌∙◌, true, false, none, some, [], ◌∷◌, ◌++◌,
  append_assoc, append-nil, arith, ◌==◌, length, length-append, Text, index_of,
}
use aisuite.Framer.{JsonLineFramer, exceeds, Handlers, returned, Run, consume}
use aisuite.Framer.Bounds.{consume-After, accepted-has_failed, refused-has_failed}
use aisuite.Framer.Stream.{
  consume-decode, consume-view, consume_failed, Decoded, pending, view, refuse, at_end, parsed,
  on_text, at_newline, decode,
}

-- What two reads deliver in order, when the first one was taken whole.
abbrev pub follow : {V : Type 0} → Decoded V → Decoded V → Decoded V
follow d e = record e { messages = d.messages ++ e.messages; errors = d.errors ++ e.errors }

-- The same up to the wording of the error, which depends on where a frame that is too long is cut.
pub record Agree {V : Type 0} (d e : Decoded V) : Type 0 where
  pub same_messages : d.messages ≡ e.messages
  pub same_ending : d.ending ≡ e.ending
  pub same_pending : d.pending ≡ e.pending

index_of-nil : index_of b'\n' [] ≡ none
unfolding index_of
index_of-nil = refl

module _ {V : Type 0} (h : Handlers V) (maximum : ℕ) where
  -- Bytes read after a line that is already too long cannot rescue it.
  too_long :
      (acc s : Text)
      → maximum < length acc
      → Agree (decode h maximum acc s) (refuse h maximum exceeds)
  unfolding decode at_end at_newline refuse
  too_long acc [] lt = ground arith
  too_long acc (c ∷ s) lt =
      let longer = length-append acc (c ∷ []) in ground (arith, too_long (acc ++ c ∷ []) s)

  at_newline-follow :
      (acc u u' : Text) (d e : Decoded V)
      → (at_newline h maximum acc u d).ending ≡ returned true
      → (d.ending ≡ returned true)
        × (d.pending ≡ (at_newline h maximum acc u d).pending)
        × (at_newline h maximum acc u' (follow d e) ≡ follow (at_newline h maximum acc u d) e)
  unfolding at_newline on_text parsed refuse
  at_newline-follow acc u u' d e k = ground arith

  -- Taking a stream in two parts, the first of which is accepted, delivers what the stream does.
  pub decode-append :
      (acc s t : Text)
      → (decode h maximum acc s).ending ≡ returned true
      → decode h maximum acc (s ++ t)
        ≡ follow (decode h maximum acc s) (decode h maximum (decode h maximum acc s).pending t)
  unfolding decode at_end refuse
  decode-append acc [] t k = ground arith
  decode-append acc (c ∷ s) t k =
      let d = decode h maximum [] s in
      let e = decode h maximum d.pending t in
      ground (
        arith,
        decode-append [] s t,
        decode-append (acc ++ c ∷ []) s t,
        at_newline-follow acc s (s ++ t) d e,
      )

  -- A stream whose beginning is refused is refused, after the same messages.
  pub decode-append_refused :
      (acc s t : Text)
      → (decode h maximum acc s).ending ≡ returned false
      → Agree (decode h maximum acc (s ++ t)) (decode h maximum acc s)
  unfolding decode at_end refuse at_newline on_text parsed
  decode-append_refused acc [] t k = ground (arith, too_long acc t)
  decode-append_refused acc (c ∷ s) t k =
      ground (arith, decode-append_refused [] s t, decode-append_refused (acc ++ c ∷ []) s t)

index_of-snoc :
    (acc : Text) (c : ℕ)
    → index_of b'\n' acc ≡ none
    → (c == b'\n') ≡ false
    → index_of b'\n' (acc ++ c ∷ []) ≡ none
unfolding index_of
index_of-snoc [] c e k = ground arith
index_of-snoc (x ∷ acc) c e k = ground (arith, index_of-snoc acc c)

module _ {V : Type 0} (h : Handlers V) (maximum : ℕ) where
  -- What waits for its delimiter holds none.
  decode_pending :
      (acc s : Text)
      → index_of b'\n' acc ≡ none
      → (decode h maximum acc s).ending ≡ returned true
      → index_of b'\n' (decode h maximum acc s).pending ≡ none
  unfolding decode at_end refuse
  decode_pending acc [] e k = ground arith
  decode_pending acc (c ∷ s) e k = ground (
    arith,
    index_of-snoc acc c e,
    decode_pending (acc ++ c ∷ []) s,
    decode_pending [] s index_of-nil,
    at_newline-follow h maximum acc s s (decode h maximum [] s) (decode h maximum [] []),
  )

  decode_prefix :
      (acc p s : Text)
      → index_of b'\n' p ≡ none
      → decode h maximum acc (p ++ s) ≡ decode h maximum (acc ++ p) s
  unfolding decode index_of
  decode_prefix acc [] s e = rw append-nil
  decode_prefix acc (c ∷ p) s e =
      ground (arith, decode_prefix (acc ++ c ∷ []) p s, append_assoc acc (c ∷ []) p)

module _ {V : Type 0} (h : Handlers V) where
  -- On a framer that has not failed and whose offset lies in its buffer, if the read of `a` is
  -- accepted then the reads of `a` and `b` deliver, report and keep together exactly what one
  -- read of both does.
  pub consume-append :
      (f : JsonLineFramer) (a b : Text) (r : Run V)
      → f.has_failed ≡ false
      → f.buffer_offset ≤ length f.buffer
      → consume h f a ≡ some r
      → r.ending ≡ returned true
      → (r' : Run V) × (whole : Run V) × (consume h r.framer b ≡ some r')
        × (consume h f (a ++ b) ≡ some whole)
        × (view whole ≡ follow (view r) (view r'))
  consume-append f a b r ok inside e k =
      let v = consume-After h f a r ok inside e in
      let m = f.maximum_frame_bytes in
      let seen = consume-view h f a r ok inside e in
      let accepted = sym (ap (λ (d : Decoded V). d.ending) seen) ∙ k in
      let kept = ap (λ (d : Decoded V). d.pending) seen in
      let clean = decode_pending h m [] (pending f ++ a) index_of-nil accepted in
      let healthy : r.framer.has_failed ≡ false = accepted-has_failed v k in
      let (r', found', seen') = consume-decode h r.framer b v.inside healthy in
      let (whole, found, all) = consume-decode h f (a ++ b) inside ok in
      let second : view r' ≡ decode h m (pending r.framer) b =
        seen'
        ∙ rw v.maximum_kept
            (decode_prefix h m [] (pending r.framer) b (ap (index_of b'\n') kept ∙ clean)) in
      (
        r',
        whole,
        found',
        found,
        all
            ∙ ap (decode h m []) (sym (append_assoc (pending f) a b))
            ∙ decode-append h m [] (pending f ++ a) b accepted
            ∙ ap₂ follow (sym seen) (ap (λ p. decode h m p b) (sym kept) ∙ sym second),
      )

  -- On a framer that has not failed and whose offset lies in its buffer, if the read of `a` is
  -- refused then a read of `a` and `b` delivers the same messages, ends the same way and keeps
  -- the same; and a later read is refused, with no message and no change.
  pub consume-append_refused :
      (f : JsonLineFramer) (a b : Text) (r : Run V)
      → f.has_failed ≡ false
      → f.buffer_offset ≤ length f.buffer
      → consume h f a ≡ some r
      → r.ending ≡ returned false
      → (whole : Run V) × (consume h f (a ++ b) ≡ some whole)
        × Agree (view whole) (view r)
        × (consume h r.framer b
            ≡ some
                (record { framer = r.framer; messages = []; errors = []; ending = returned false }))
  consume-append_refused f a b r ok inside e k =
      let v = consume-After h f a r ok inside e in
      let m = f.maximum_frame_bytes in
      let seen = consume-view h f a r ok inside e in
      let refused = sym (ap (λ (d : Decoded V). d.ending) seen) ∙ k in
      let (whole, found, all) = consume-decode h f (a ++ b) inside ok in
      let agree : Agree (decode h m [] (pending f ++ (a ++ b))) (decode h m [] (pending f ++ a)) =
        rw (← append_assoc) (decode-append_refused h m [] (pending f ++ a) b refused) in
      (
        whole,
        found,
        subst₂ Agree (sym all) (sym seen) agree,
        consume_failed h r.framer b (refused-has_failed v k),
      )
