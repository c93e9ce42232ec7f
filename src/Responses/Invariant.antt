-- ===== src/Responses/Invariant.antt =====
-- ResponsesStream: what holds between two events of the provider.
use aisuite.Common.{
  suc, ◌+◌, ◌-◌, ◌%◌, ◌^◌, ◌≤◌, ◌≡◌, ap, ◌∙◌, inl, inr, Bool, true, false, not, Option, none, some,
  List, [], ◌∷◌, leb, arith, if◌then◌else◌, Bool-cases, length, Text, text, Map,
}
use aisuite.Json.{Json, JsonLaws}
use aisuite.Model.{ModelError}
use aisuite.Responses.Stream.{
  ResponsesStream, Client, Attempt, going, thrown, ◌>>=◌, require, send, finish_last, finish_text,
  is_message, end_stream, fail_stream, failure_event,
}
use aisuite.Responses.Blocks.{maximum_stream_bytes, count_bytes}

module _ (j : Json) where
  open j use {Value, find, unsigned}

  -- The events are numbered from 0 on, in the order in which they were given to the sender.
  unfoldable pub InOrder : List Value → Type 0
  InOrder [] = Unit
  InOrder (e ∷ older) =
      (find e (text "sequence_number") ≡ some (unsigned (length older % 2 ^ 64))) × InOrder older

  -- The stream's counters are those of what it received and sent.
  abbrev pub IsSound : ResponsesStream j → Type 0
  IsSound s =
      (s.bytes ≤ maximum_stream_bytes)
      × ((s.sequence ≡ length s.offered % 2 ^ 64) × InOrder s.offered)

  -- The same of a step, whether it throws or not.
  abbrev pub Sound : Attempt j → Type 0
  Sound (going s) = IsSound s
  Sound (thrown s x) = IsSound s

module _ {j : Json} where
  pub bind-Sound :
      (a : Attempt j) (f : ResponsesStream j → Attempt j)
      → Sound j a
      → ((s : ResponsesStream j) → IsSound j s → Sound j (f s))
      → Sound j (a >>= f)
  bind-Sound (going s) f v k = k s v
  bind-Sound (thrown s x) f v k = v

  pub require-Sound :
      (s : ResponsesStream j) (b : Bool) (error : Text) → IsSound j s → Sound j (require s b error)
  unfolding require
  require-Sound s true error v = v
  require-Sound s false error v = v

  pub require_then-Sound :
      (s : ResponsesStream j) (b : Bool) (error : Text) (f : ResponsesStream j → Attempt j)
      → IsSound j s
      → ((t : ResponsesStream j) → IsSound j t → Sound j (f t))
      → Sound j (require s b error >>= f)
  require_then-Sound s b error f v k =
      bind-Sound (require s b error) f (require-Sound s b error v) k

  pub option-Sound {ℓ} :
      {A : Type ℓ} (o : Option A) (a : Attempt j) (f : A → Attempt j)
      → Sound j a
      → ((x : A) → Sound j (f x))
      → Sound j (elim o [ none ↦ a | some x ↦ f x ])
  option-Sound none a f v k = v
  option-Sound (some x) a f v k = k x

  pub if-Sound : (b : Bool) (a c : Attempt j) → Sound j a → Sound j c → Sound j (if b then a else c)
  if-Sound true a c v w = v
  if-Sound false a c v w = w

module _ {j : Json} (w : Client j) (laws : JsonLaws j) where
  open j use {Value, find, unsigned, object, set, string, is_object}

  pub send-Sound :
      (s : ResponsesStream j) (e : Value) → is_object e ≡ true → IsSound j s → Sound j (send w s e)
  unfolding send InOrder
  send-Sound s e o (bounded, (counted, ordered)) =
      let numbered = set e (text "sequence_number") (unsigned s.sequence) in
      let named : find numbered (text "sequence_number")
          ≡ some (unsigned (length s.offered % 2 ^ 64)) =
        laws.find-set_self e (unsigned s.sequence) (text "sequence_number") o
        ∙ ap (λ n. some (unsigned n)) counted in
      let moved : (s.sequence + 1) % 2 ^ 64 ≡ suc (length s.offered) % 2 ^ 64 =
        omega (arith, counted) in
      if-Sound (w.accepts s.offered numbered) _ _ (bounded, (moved, (named, ordered)))
        (bounded, (moved, (named, ordered)))

  -- The code's own events are objects.
  pub send_object-Sound :
      (s : ResponsesStream j) (m : Map Value) → IsSound j s → Sound j (send w s (object m))
  send_object-Sound s m v = send-Sound s (object m) (laws.is_object-object m) v

  pub end_stream-Sound : (s : ResponsesStream j) → IsSound j s → Sound j (end_stream w s)
  unfolding end_stream
  end_stream-Sound s v = v

  finish_last-Sound :
      (s : ResponsesStream j) (final : Bool) (items : List Value)
      → IsSound j s
      → Sound j (finish_last w s final items)
  unfolding finish_last
  finish_last-Sound s final [] v = v
  finish_last-Sound s final (last ∷ more) v =
      if-Sound (not (is_message w last)) _ _ v (send_object-Sound _ _ v)

  pub finish_text-Sound :
      (s : ResponsesStream j) (final : Bool) → IsSound j s → Sound j (finish_text w s final)
  unfolding finish_text
  finish_text-Sound s final v = finish_last-Sound s final s.output v

  pub fail_stream-Sound :
      (s : ResponsesStream j) (e : ModelError) → IsSound j s → Sound j (fail_stream w s e)
  unfolding fail_stream failure_event
  fail_stream-Sound s e v = if-Sound s.terminal _ _ v (
      bind-Sound (send w s (failure_event w s e)) (end_stream w) (send_object-Sound s _ v)
        end_stream-Sound)

  pub count_bytes-Sound :
      (s : ResponsesStream j) (value : Text) → IsSound j s → Sound j (count_bytes w s value)
  unfolding count_bytes require
  count_bytes-Sound s value (bounded, v) =
      let room = (maximum_stream_bytes + 2 ^ 64 - s.bytes) % 2 ^ 64 in
      elim (Bool-cases (leb (length value) room)) [
        | inl fits ↦
            let less : length value ≤ room = ground arith in
            let kept : s.bytes + length value ≤ maximum_stream_bytes =
              omega (arith, less, bounded) in
            rw fits (kept, v)
        | inr full ↦ rw full (bounded, v)
      ]
