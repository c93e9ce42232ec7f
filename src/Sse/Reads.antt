-- ===== src/Sse/Reads.antt =====
-- SseDecoder::consume: reads in pieces, and the limit.
use aisuite.Common.{
  ℕ, Bool, ◌≤◌, ◌<◌, ◌≡◌, refl, subst, leb, ◌||◌, ap, ◌∙◌, inl, inr, false, [], ◌∷◌, ◌++◌,
  append_assoc, sym, List, arith, length, length-append, Text, Bool-cases, ◌&&◌, ◌==◌, is_empty,
}
use aisuite.Sse.{
  SseDecoder, SseEnding, completed, exceeded, receiver_threw, SseRun, held, fields_size, on_field,
  dispatch_event, on_value, end_line, on_byte, step, followed_by, consume, with_field, field_of,
  body_of, strip_mark,
}

-- A read that returns leaves this limit, and no more bytes than that.
abbrev pub Fits : ℕ → SseRun → Type 0
Fits limit r = r.ending ≡ completed → (r.decoder.limit ≡ limit) × (held r.decoder ≤ limit)

module _ (throws : Text → Text → Bool) where
  followed_by_assoc :
      (r s t : SseRun)
      → followed_by throws r (followed_by throws s t)
        ≡ followed_by throws (followed_by throws r s) t
  unfolding followed_by
  followed_by_assoc r s t = assoc r.ending r.decoder r.events s.ending s.decoder s.events
    where
      assoc :
          (e : SseEnding) (d : SseDecoder) (es : List (Text × Text)) (e' : SseEnding)
          (d' : SseDecoder) (es' : List (Text × Text))
          → let r : SseRun = record { decoder = d; events = es; ending = e } in
            let s : SseRun = record { decoder = d'; events = es'; ending = e' } in
            followed_by throws r (followed_by throws s t)
            ≡ followed_by throws (followed_by throws r s) t
      assoc completed d es completed d' es' =
          ap (λ l. record t { events = l }) (sym (append_assoc es es' t.events))
      assoc completed d es exceeded d' es' = refl
      assoc completed d es receiver_threw d' es' = refl
      assoc exceeded d es e' d' es' = refl
      assoc receiver_threw d es e' d' es' = refl

  -- A run that is followed ends in the decoder of what follows, where that is read at all.
  followed_by_decoder :
      (r s : SseRun) (f : SseDecoder → SseRun)
      → followed_by throws (followed_by throws r s) (f s.decoder)
        ≡ followed_by throws (followed_by throws r s) (f (followed_by throws r s).decoder)
  unfolding followed_by
  followed_by_decoder r s f = same r.ending
    where
      same :
          (e : SseEnding)
          → let r' : SseRun = record r { ending = e } in
            followed_by throws (followed_by throws r' s) (f s.decoder)
            ≡ followed_by throws (followed_by throws r' s) (f (followed_by throws r' s).decoder)
      same completed = refl
      same exceeded = refl
      same receiver_threw = refl

  -- Reading two pieces in turn, the second one only if the first was read to its end, leaves what
  -- reading both at once does: the same events in order, the same decoder, the same ending.
  pub consume-in_turn :
      (d : SseDecoder) (a b : Text)
      → consume throws d (a ++ b)
        ≡ followed_by throws (consume throws d a) (consume throws (consume throws d a).decoder b)
  unfolding consume followed_by
  consume-in_turn d [] b = refl
  consume-in_turn d (c ∷ a) b =
      let r = step throws d c in
      let s = consume throws r.decoder a in
      ap (followed_by throws r) (consume-in_turn r.decoder a b)
      ∙ followed_by_assoc r s (consume throws s.decoder b)
      ∙ followed_by_decoder r s (λ d. consume throws d b)

  on_field-Fits : (d : SseDecoder) (value : Text) → d.line ≡ [] → Fits d.limit (on_field d value)
  unfolding on_field with_field
  on_field-Fits d value e k =
      let t = with_field d (field_of value) (body_of value) in
      let same : t.limit ≡ d.limit = ground arith in
      let no_line : length t.line ≡ 0 = ground (arith, ap length e) in
      let small : fields_size t ≤ t.limit = ground arith in (same, omega arith)

  on_value-Fits :
      (d : SseDecoder) (value : Text) → d.line ≡ [] → Fits d.limit (on_value throws d value)
  unfolding on_value dispatch_event
  on_value-Fits d (c ∷ value) e k = on_field-Fits d (c ∷ value) e k
  on_value-Fits d [] e k =
      let no_line : length d.line ≡ 0 = ap length e in
      elim (Bool-cases (is_empty d.event_data)) [
        | inl gone ↦ rw gone (refl, omega arith)
        | inr some_data ↦ rw some_data (refl, omega arith)
      ]

  step-Fits : (d : SseDecoder) (c : ℕ) → held d ≤ d.limit → Fits d.limit (step throws d c)
  unfolding step on_byte end_line
  step-Fits d c small = elim (Bool-cases (d.after_cr && c == b'\n')) [
    | inl skip ↦ rw skip (λ k. (refl, small))
    | inr read ↦ elim (Bool-cases (c == b'\r' || c == b'\n')) [
      | inl ends ↦
          rw (read, ends)
            (on_value-Fits (record d { line = []; first_line = false; after_cr = c == b'\r' })
              (strip_mark d.first_line d.line) refl)
      | inr inside ↦ elim (Bool-cases (leb d.limit (held d))) [
        | inl full ↦ rw (read, inside, full) (λ k. cc)
        | inr room ↦
            rw (read, inside, room)
              (λ k.
                let longer = length-append d.line (c ∷ []) in
                let below : held d < d.limit = ground arith in (refl, omega arith))
      ]
    ]
  ]

  followed_by-Fits :
      (limit : ℕ) (r s : SseRun)
      → (r.ending ≡ completed → Fits limit s)
      → Fits limit (followed_by throws r s)
  unfolding followed_by
  followed_by-Fits limit r s next = at r.ending next
    where
      at :
          (e : SseEnding)
          → (e ≡ completed → Fits limit s)
          → Fits limit (followed_by throws (record r { ending = e }) s)
      at completed n k = n refl k
      at exceeded n k = cc
      at receiver_threw n k = cc

  consume-Fits :
      (d : SseDecoder) (bytes : Text) → held d ≤ d.limit → Fits d.limit (consume throws d bytes)
  unfolding consume
  consume-Fits d [] small k = (refl, small)
  consume-Fits d (c ∷ bytes) small k =
      let r = step throws d c in
      followed_by-Fits d.limit r (consume throws r.decoder bytes)
        (λ e.
          let (same, fits) = step-Fits d c small e in
          subst (λ l. Fits l (consume throws r.decoder bytes)) same
            (consume-Fits r.decoder bytes (omega arith)))
        k

  -- If a decoder holds no more bytes than its limit, and a read of it returns, it holds no more than
  -- its limit afterwards, which is the same.
  pub held-consume :
      (d : SseDecoder) (bytes : Text)
      → held d ≤ d.limit
      → (consume throws d bytes).ending ≡ completed
      → ((consume throws d bytes).decoder.limit ≡ d.limit)
        × (held (consume throws d bytes).decoder ≤ d.limit)
  held-consume d bytes small k = consume-Fits d bytes small k
