-- ===== src/Framer/RoundTrip.antt =====
-- JsonLineFramer::encode followed by `consume`.
use aisuite.Common.{
  ℕ, ◌≤◌, ◌≡◌, ◌≢◌, refl, ap, ◌∙◌, true, false, none, some, List, [], ◌∷◌, ◌++◌, append_assoc,
  append-nil, arith, ltb, length, Text, index_of,
}
use aisuite.Framer.{JsonLineFramer, Handlers, returned, Run, strip_cr, encode, consume}
use aisuite.Framer.Stream.{
  Decoded, pending, view, at_end, parsed, on_text, at_newline, decode, consume-decode,
}

-- What the framing asks of the serialiser and the parser at one message: the text is compact JSON,
-- which has no raw line break and ends in no carriage return, and it parses back.
pub record IsWireSafe {V : Type 0} (h : Handlers V) (dump : V → Text) (m : V) : Type 0 where
  pub parses : h.parse (dump m) ≡ some m
  pub one_line : index_of b'\n' (dump m) ≡ none
  pub no_cr : strip_cr (dump m) ≡ dump m
  pub not_empty : dump m ≢ []
  pub taken : h.throws m ≡ false

-- The bytes that a sender with this limit writes for the messages.
pub data Encoded {V : Type 0} (h : Handlers V) (dump : V → Text) (maximum : ℕ)
    : List V → Text → Type 0 where
  done : Encoded h dump maximum [] []
  more :
      {m : V} {ms : List V} {frame bytes : Text}
      → encode dump m maximum ≡ some frame
      → IsWireSafe h dump m
      → Encoded h dump maximum ms bytes
      → Encoded h dump maximum (m ∷ ms) (frame ++ bytes)

module _ {V : Type 0} (h : Handlers V) (dump : V → Text) (maximum : ℕ) where
  decode_line_of :
      (acc line s : Text)
      → index_of b'\n' line ≡ none
      → decode h maximum acc (line ++ b'\n' ∷ s)
        ≡ at_newline h maximum (acc ++ line) s (decode h maximum [] s)
  unfolding decode index_of
  decode_line_of acc [] s e = rw append-nil
  decode_line_of acc (c ∷ line) s e =
      ground (arith, decode_line_of (acc ++ c ∷ []) line s, append_assoc acc (c ∷ []) line)

  on_text_of :
      (m : V) (line s : Text) (d : Decoded V)
      → line ≢ []
      → h.parse line ≡ some m
      → h.throws m ≡ false
      → on_text h maximum line s d ≡ record d { messages = m ∷ d.messages }
  unfolding on_text parsed
  on_text_of m [] s d ne p t = absurd (ne refl)
  on_text_of m (c ∷ line) s d ne p t = ground arith

  encode-eq-some :
      (m : V) {frame : Text}
      → encode dump m maximum ≡ some frame
      → (ltb maximum (length (dump m)) ≡ false) × (frame ≡ dump m ++ b'\n' ∷ [])
  unfolding encode
  encode-eq-some m e = ground arith

  decode_frame :
      (m : V) (s : Text)
      → ltb maximum (length (dump m)) ≡ false
      → IsWireSafe h dump m
      → decode h maximum [] (dump m ++ b'\n' ∷ s)
        ≡ record (decode h maximum [] s) { messages = m ∷ (decode h maximum [] s).messages }
  unfolding at_newline
  decode_frame m s fits w =
      decode_line_of [] (dump m) s w.one_line
      ∙ rw (fits, w.no_cr)
          (on_text_of m (dump m) s (decode h maximum [] s) w.not_empty w.parses w.taken)

  decode-Encoded :
      {ms : List V} {bytes : Text}
      → Encoded h dump maximum ms bytes
      → decode h maximum [] bytes
        ≡ record { messages = ms; errors = []; ending = returned true; pending = [] }
  unfolding decode at_end
  decode-Encoded done = ground arith
  decode-Encoded (more {m = m} {bytes = bytes} e w rest) =
      let (fits, is) = encode-eq-some m e in
      let d : Decoded V = decode h maximum [] bytes in
      ap (λ s. decode h maximum [] (s ++ bytes)) is
      ∙ ap (decode h maximum []) (append_assoc (dump m) (b'\n' ∷ []) bytes)
      ∙ decode_frame m bytes fits w
      ∙ ap (λ (x : Decoded V). record x { messages = m ∷ x.messages }) (decode-Encoded rest)

  -- If `encode` wrote these bytes for a list of messages, each of them safe on the wire, then
  -- `consume`, on a framer with the same maximum that has not failed and keeps nothing,
  -- delivers these messages in order, with no error, and keeps nothing.
  pub consume-encode :
      (f : JsonLineFramer) {ms : List V} {bytes : Text}
      → f.maximum_frame_bytes ≡ maximum
      → f.has_failed ≡ false
      → f.buffer_offset ≤ length f.buffer
      → pending f ≡ []
      → Encoded h dump maximum ms bytes
      → (r : Run V) × (consume h f bytes ≡ some r)
        × (view r ≡ record { messages = ms; errors = []; ending = returned true; pending = [] })
  consume-encode f limit ok inside fresh sent =
      let (r, found, seen) = consume-decode h f _ inside ok in
      (r, found, seen ∙ rw (limit, fresh) (decode-Encoded sent))
