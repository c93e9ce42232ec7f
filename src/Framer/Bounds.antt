-- ===== src/Framer/Bounds.antt =====
-- JsonLineFramer::consume: what it leaves in the buffer.
use aisuite.Common.{
  ℕ, zero, suc, ◌-◌, ◌*◌, ◌≤◌, ◌<◌, ◌≡◌, sym, subst, ◌∙◌, inl, inr, true, false, some, [], ◌∷◌,
  arith, Option-cases, length, take, length-drop, Text, index_of,
}
use aisuite.Framer.{
  JsonLineFramer, Handlers, Ending, returned, threw, Run, buffered_bytes, compact, append, strip_cr,
  find_newline, deliver, on_line, on_rest, advance, on_delimiter, loop, consume,
}
use aisuite.Framer.Stream.{
  pending, index_of-lt, append_bounds, append-maximum, append-has_failed, compact_bounds,
  compact-maximum, consume-loop,
}

-- An accepted read keeps no more than the maximum, in a buffer of at most twice as much; a refused
-- one keeps nothing.
abbrev pub Left : ℕ → Ending → JsonLineFramer → Type 0
Left maximum (returned true) g =
    (g.has_failed ≡ false) × (buffered_bytes g ≤ maximum) × (length g.buffer ≤ 2 * maximum)
Left maximum (returned false) g = (g.has_failed ≡ true) × (g.buffer ≡ [])
Left maximum threw g = g.has_failed ≡ false

pub record After {V : Type 0} (f : JsonLineFramer) (r : Run V) : Type 0 where
  pub maximum_kept : r.framer.maximum_frame_bytes ≡ f.maximum_frame_bytes
  pub inside : r.framer.buffer_offset ≤ length r.framer.buffer
  pub left : Left f.maximum_frame_bytes r.ending r.framer

compact-Left :
    (f : JsonLineFramer)
    → f.has_failed ≡ false
    → f.buffer_offset ≤ length f.buffer
    → buffered_bytes f ≤ f.maximum_frame_bytes
    → Left f.maximum_frame_bytes (returned true) (compact f)
unfolding compact buffered_bytes
compact-Left f ok b fits = ground (arith, length-drop f.buffer_offset f.buffer)

find_newline_bounds :
    (f : JsonLineFramer) (newline : ℕ)
    → find_newline f ≡ some newline
    → (newline < length f.buffer) × (f.buffer_offset ≤ newline)
unfolding find_newline
find_newline_bounds f newline e = elim (Option-cases (index_of b'\n' (pending f))) [
  | inl k ↦ ground arith
  | inr (i, k) ↦ ground (arith, index_of-lt (pending f) i, length-drop f.buffer_offset f.buffer)
]

module _ {V : Type 0} (h : Handlers V) where
  on_rest-After :
      (f : JsonLineFramer)
      → f.has_failed ≡ false
      → f.buffer_offset ≤ length f.buffer
      → After f (on_rest h f)
  unfolding on_rest
  on_rest-After f ok b = ground (arith, compact-Left f ok b, compact_bounds f b, compact-maximum f)

  on_line-After :
      (f : JsonLineFramer) (line : Text) (r : Run V)
      → f.has_failed ≡ false
      → f.buffer_offset ≤ length f.buffer
      → After f r
      → After f (on_line h f line r)
  unfolding on_line deliver
  on_line-After f [] r ok b v = v
  on_line-After f (c ∷ line) r ok b v = ground arith

  on_delimiter-After :
      (f : JsonLineFramer) (newline : ℕ) (r : Run V)
      → f.has_failed ≡ false
      → newline < length f.buffer
      → After (advance h f newline) r
      → After f (on_delimiter h f newline r)
  unfolding on_delimiter
  on_delimiter-After f newline r ok b v =
      let line = take (newline - f.buffer_offset) (pending f) in
      ground (arith, on_line-After (advance h f newline) (strip_cr line) r)

  loop-After :
      (fuel : ℕ) (f : JsonLineFramer) (r : Run V)
      → f.has_failed ≡ false
      → f.buffer_offset ≤ length f.buffer
      → loop h fuel f ≡ some r
      → After f r
  unfolding loop
  loop-After zero f r ok b e = cc
  loop-After (suc fuel) f r ok b e = elim (Option-cases (find_newline f)) [
    | inl k ↦ ground (arith, on_rest-After f ok b)
    | inr (newline, k) ↦ elim (Option-cases (loop h fuel (advance h f newline))) [
      | inl k' ↦ ground arith
      | inr (r', k') ↦ ground (
        arith,
        find_newline_bounds f newline k,
        loop-After fuel (advance h f newline) r' ok,
        on_delimiter-After f newline r' ok,
      )
    ]
  ]

  -- If `consume` returns, on a framer that has not failed and whose offset lies in its buffer,
  -- the maximum is the same, the offset lies in the buffer again, and what is left is bounded
  -- by how it ended: accepted, it keeps at most the maximum in a buffer of at most twice that;
  -- refused, it has failed with an empty buffer; left by an exception, it has not failed.
  pub consume-After :
      (f : JsonLineFramer) (bytes : Text) (r : Run V)
      → f.has_failed ≡ false
      → f.buffer_offset ≤ length f.buffer
      → consume h f bytes ≡ some r
      → After f r
  consume-After f bytes r ok b e =
      let g : JsonLineFramer = append f bytes in
      let v : After g r =
        loop-After (suc (length g.buffer)) g r (append-has_failed f bytes ∙ ok)
          (append_bounds f bytes b) (sym (consume-loop h f bytes ok) ∙ e) in
      record {
        maximum_kept = v.maximum_kept ∙ append-maximum f bytes;
        inside = v.inside;
        left = subst (λ m. Left m r.ending r.framer) (append-maximum f bytes) v.left;
      }

module _ {V : Type 0} {f : JsonLineFramer} {r : Run V} where
  pub accepted-has_failed : After f r → r.ending ≡ returned true → r.framer.has_failed ≡ false
  accepted-has_failed v k = ground arith

  pub refused-has_failed : After f r → r.ending ≡ returned false → r.framer.has_failed ≡ true
  refused-has_failed v k = ground arith
