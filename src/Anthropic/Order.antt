-- ===== src/Anthropic/Order.antt =====
-- MessageStream: what a receiver is told, and that nothing follows the end.
use aisuite.Common.{
  ◌≤◌, ◌≡◌, refl, Bool, true, false, not, ◌||◌, List, [], ◌∷◌, arith, if◌then◌else◌, Text,
}
use aisuite.Json.{Json}
use aisuite.Model.{ModelError, ModelEvent, completed, failed}
use aisuite.Anthropic.Values.{Try, got, threw}
use aisuite.Anthropic.State.{
  MessageStream, Listener, Attempt, going, thrown, ◌>>=◌, using, require, cancel, give_last, fail,
  emit,
}
use aisuite.Anthropic.Events.{maximum_stream_bytes}

unfoldable pub is_final : {j : Json} → ModelEvent j → Bool
is_final (completed r) = true
is_final (failed e) = true
is_final _ = false

module _ {j : Json} where
  -- None of the events is the last.
  unfoldable pub AllOpen : List (ModelEvent j) → Type 0
  AllOpen [] = Unit
  AllOpen (e ∷ es) = (is_final e ≡ false) × AllOpen es

  -- Nothing follows a completion or a failure, so that there is one of them at most.
  unfoldable pub OneFinal : List (ModelEvent j) → Type 0
  unfolding AllOpen
  OneFinal [] = Unit
  OneFinal (e ∷ es) = AllOpen es

  -- The last event is a completion or a failure.
  unfoldable pub Ended : List (ModelEvent j) → Type 0
  Ended [] = ⊥
  Ended (e ∷ es) = is_final e ≡ true

  -- The receiver never cancels.
  unfoldable pub IsCalm : Listener j → Type 0
  IsCalm w = (es : List (ModelEvent j)) (e : ModelEvent j) → w.cancels es e ≡ false

-- `C` is that nothing cancels the stream.
module _ {j : Json} (C : Type 0) where
  -- The receiver of a stream that is over is given up, and unless it was cancelled it was told the end.
  abbrev pub IsOver : MessageStream j → Type 0
  IsOver s =
      (s.terminal ≡ true → s.has_receiver ≡ false) × (C → s.has_receiver ≡ false → Ended s.emitted)

  abbrev pub IsOrdered : MessageStream j → Type 0
  IsOrdered s =
      (s.bytes ≤ maximum_stream_bytes)
      × ((s.has_receiver ≡ true → AllOpen s.emitted) × (OneFinal s.emitted × IsOver s))

  abbrev pub Ordered : Attempt j → Type 0
  Ordered (going s) = IsOrdered s
  Ordered (thrown s x) = IsOrdered s

  pub bind-Ordered :
      (a : Attempt j) (f : MessageStream j → Attempt j)
      → Ordered a
      → ((s : MessageStream j) → IsOrdered s → Ordered (f s))
      → Ordered (a >>= f)
  bind-Ordered (going s) f v k = k s v
  bind-Ordered (thrown s x) f v k = v

  pub using-Ordered {ℓ} :
      {A : Type ℓ} (s : MessageStream j) (a : Try A) (f : A → Attempt j)
      → IsOrdered s
      → ((x : A) → Ordered (f x))
      → Ordered (using s a f)
  using-Ordered s (got a) f v k = k a
  using-Ordered s (threw x) f v k = v

  pub require-Ordered :
      (s : MessageStream j) (b : Bool) (message : Text)
      → IsOrdered s
      → Ordered (require s b message)
  unfolding require
  require-Ordered s true message v = v
  require-Ordered s false message v = v

  pub require_then-Ordered :
      (s : MessageStream j) (b : Bool) (message : Text) (f : MessageStream j → Attempt j)
      → IsOrdered s
      → ((t : MessageStream j) → IsOrdered t → Ordered (f t))
      → Ordered (require s b message >>= f)
  require_then-Ordered s b message f v k =
      bind-Ordered (require s b message) f (require-Ordered s b message v) k

  pub if-Ordered :
      (b : Bool) (a c : Attempt j) → Ordered a → Ordered c → Ordered (if b then a else c)
  if-Ordered true a c v w = v
  if-Ordered false a c v w = w

  pub if_known-IsOrdered :
      (b : Bool) (s t : MessageStream j)
      → (b ≡ true → IsOrdered s)
      → (b ≡ false → IsOrdered t)
      → IsOrdered (if b then s else t)
  if_known-IsOrdered true s t v w = v refl
  if_known-IsOrdered false s t v w = w refl

  pub cancel-IsOrdered : (s : MessageStream j) → (C → ⊥) → IsOrdered s → IsOrdered (cancel s)
  unfolding cancel
  cancel-IsOrdered s never (bounded, (clear, (one, over))) =
      (bounded, ((λ e. cc), (one, ((λ _. refl), (λ c _. absurd (never c))))))

  pub give_last-IsOrdered :
      (s : MessageStream j) (e : ModelEvent j)
      → is_final e ≡ true
      → IsOrdered s
      → IsOrdered (give_last s e)
  unfolding give_last OneFinal Ended
  give_last-IsOrdered s e final (bounded, (clear, (one, (ends, told)))) =
      if_known-IsOrdered s.has_receiver _ _
        (λ here. (bounded, ((λ x. cc), (clear here, ((λ _. refl), (λ _ _. final))))))
        (λ gone. (bounded, ((λ x. cc), (one, ((λ _. refl), (λ c _. told c gone))))))

  pub fail-IsOrdered : (s : MessageStream j) (e : ModelError) → IsOrdered s → IsOrdered (fail s e)
  unfolding fail is_final
  fail-IsOrdered s e v =
      if_known-IsOrdered s.terminal _ _ (λ _. v) (λ _. give_last-IsOrdered _ (failed e) refl v)

  pub emit-IsOrdered :
      (w : Listener j) (calm : C → IsCalm w) (s : MessageStream j) (e : ModelEvent j)
      → is_final e ≡ false
      → IsOrdered s
      → IsOrdered (emit w s e)
  unfolding emit OneFinal AllOpen IsCalm
  emit-IsOrdered w calm s e unfinal (bounded, (clear, (one, (ends, told)))) =
      if_known-IsOrdered (s.terminal || not s.has_receiver) _ _
        (λ _. (bounded, (clear, (one, (ends, told)))))
        (λ live.
          let here : s.has_receiver ≡ true = ground (arith, live) in
          let still : s.terminal ≡ false = ground (arith, live) in
          let after : IsOrdered (record s { emitted = e ∷ s.emitted }) = (
            bounded,
            (
              (λ _. (unfinal, clear here)),
              (clear here, (ends, (λ c gone. absurd (ground (arith, here, gone))))),
            ),
          ) in
          if_known-IsOrdered (w.cancels s.emitted e) _ _
            (λ x. cancel-IsOrdered _ (λ c. absurd (ground (arith, calm c s.emitted e, x))) after)
            (λ _. after))
