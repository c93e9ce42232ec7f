-- ===== src/Anthropic/Keeping.antt =====
-- MessageStream: the order of what a receiver is told, from step to step of a content block.
use aisuite.Common.{
  ℕ, refl, Bool, true, false, Option, none, some, if◌then◌else◌, Text, text, text_eq, ◌||◌,
}
use aisuite.Json.{Json}
use aisuite.Model.{block_started, block_finished, text_delta, reasoning_delta, tool_input_delta}
use aisuite.Anthropic.Values.{member, member_text, text_or_empty, count, content}
use aisuite.Anthropic.State.{Block, MessageStream, Listener, find_block, emit}
use aisuite.Anthropic.Blocks.{
  note_id, note_call, check_redacted, open_block, start_block, take_index, start_at, on_block_start,
  require_type, append_to, with_block, on_text_delta, on_input_delta, with_member,
  on_thinking_delta, delta_named, delta_in, on_delta, whole_value, check_signature, close_block,
  stop_at, on_block_stop,
}
use aisuite.Anthropic.Order.{
  is_final, IsCalm, IsOrdered, Ordered, bind-Ordered, using-Ordered, require-Ordered,
  require_then-Ordered, if-Ordered, emit-IsOrdered,
}

module _ {j : Json} (C : Type 0) (w : Listener j) (calm : C → IsCalm w) where
  open j use {Value}

  note_call-Ordered :
      (s : MessageStream j) (v : Value) → IsOrdered C s → Ordered C (note_call w s v)
  unfolding note_call note_id
  note_call-Ordered s v o = using-Ordered C s (member j v (text "input")) _ o (λ input.
      require_then-Ordered C s _ _ _ o (λ t o.
        using-Ordered C t (member_text j v (text "id")) _ o (λ id.
          require_then-Ordered C t _ _ _ o (λ t o. require_then-Ordered C t _ _ _ o (λ t o. o)))))

  check_redacted-Ordered :
      (s : MessageStream j) (v : Value) → IsOrdered C s → Ordered C (check_redacted w s v)
  unfolding check_redacted
  check_redacted-Ordered s v o =
      using-Ordered C s (member j v (text "data")) _ o (λ d. require-Ordered C s _ _ o)

  open_block-Ordered :
      (s : MessageStream j) (i : ℕ) (v : Value) → IsOrdered C s → Ordered C (open_block w s i v)
  unfolding open_block is_final
  open_block-Ordered s i v o =
      using-Ordered C s (content j s.tool_names v) _ o
        (λ item. emit-IsOrdered C w calm _ (block_started i item) refl o)

  start_block-Ordered :
      (s : MessageStream j) (i : ℕ) (v : Value) (kind : Text)
      → IsOrdered C s
      → Ordered C (start_block w s i v kind)
  unfolding start_block
  start_block-Ordered s i v kind o = require_then-Ordered C s _ _ _ o (λ t o.
      require_then-Ordered C t _ _ _ o (λ t o.
        bind-Ordered C _ _
          (if-Ordered C (text_eq kind (text "tool_use")) _ _ (note_call-Ordered t v o) o)
          (λ t o.
            bind-Ordered C _ _
              (if-Ordered C (text_eq kind (text "redacted_thinking")) _ _
                (check_redacted-Ordered t v o) o)
              (λ t o. open_block-Ordered t i v o))))

  pub on_block_start-Ordered :
      (s : MessageStream j) (event : Value) → IsOrdered C s → Ordered C (on_block_start w s event)
  unfolding on_block_start start_at take_index
  on_block_start-Ordered s event o = require_then-Ordered C s _ _ _ o (λ t o.
      using-Ordered C t (count j event (text "index") 0) _ o (λ i.
        require_then-Ordered C _ _ _ _ o (λ t o.
          using-Ordered C t (member j event (text "content_block")) _ o (λ v.
            using-Ordered C t (member_text j v (text "type")) _ o
              (λ kind. start_block-Ordered t i v kind o)))))

  require_type-Ordered :
      (s : MessageStream j) (b : Block j) (kind message : Text)
      → IsOrdered C s
      → Ordered C (require_type w s b kind message)
  unfolding require_type
  require_type-Ordered s b kind message o =
      using-Ordered C s (member j b.value (text "type")) _ o (λ t. require-Ordered C s _ _ o)

  on_text_delta-Ordered :
      (s : MessageStream j) (i : ℕ) (b : Block j) (d : Value)
      → IsOrdered C s
      → Ordered C (on_text_delta w s i b d)
  unfolding on_text_delta with_block is_final
  on_text_delta-Ordered s i b d o = bind-Ordered C _ _ (require_type-Ordered s b _ _ o) (λ t o.
      using-Ordered C t (member_text j d (text "text")) _ o (λ value.
        using-Ordered C t (append_to w b (text "text") value) _ o
          (λ grown. emit-IsOrdered C w calm _ (text_delta i value) refl o)))

  on_input_delta-Ordered :
      (s : MessageStream j) (i : ℕ) (b : Block j) (d : Value)
      → IsOrdered C s
      → Ordered C (on_input_delta w s i b d)
  unfolding on_input_delta with_block is_final
  on_input_delta-Ordered s i b d o = bind-Ordered C _ _ (require_type-Ordered s b _ _ o) (λ t o.
      using-Ordered C t (member_text j d (text "partial_json")) _ o
        (λ value. emit-IsOrdered C w calm _ (tool_input_delta i value) refl o))

  thought-Ordered :
      (s : MessageStream j) (i : ℕ) (value : Text) (is_thought : Bool)
      → IsOrdered C s
      → IsOrdered C (if is_thought then emit w s (reasoning_delta i value) else s)
  unfolding is_final
  thought-Ordered s i value true o = emit-IsOrdered C w calm s (reasoning_delta i value) refl o
  thought-Ordered s i value false o = o

  on_thinking_delta-Ordered :
      (s : MessageStream j) (i : ℕ) (b : Block j) (d : Value) (is_thought : Bool)
      → IsOrdered C s
      → Ordered C (on_thinking_delta w s i b d is_thought)
  unfolding on_thinking_delta with_block
  on_thinking_delta-Ordered s i b d is_thought o =
      let key = if is_thought then text "thinking" else text "signature" in
      bind-Ordered C _ _ (require_type-Ordered s b _ _ o) (λ t o.
        using-Ordered C t (member_text j d key) _ o (λ value.
          using-Ordered C t (append_to w (with_member w b key) key value) _ o
            (λ grown. thought-Ordered _ i value is_thought o)))

  delta_named-Ordered :
      (s : MessageStream j) (i : ℕ) (b : Block j) (d : Value) (kind : Text)
      → IsOrdered C s
      → Ordered C (delta_named w s i b d kind)
  unfolding delta_named
  delta_named-Ordered s i b d kind o =
      if-Ordered C (text_eq kind (text "text_delta")) _ _ (on_text_delta-Ordered s i b d o) (
        if-Ordered C (text_eq kind (text "input_json_delta")) _ _ (on_input_delta-Ordered s i b d o)
          (if-Ordered C
            (text_eq kind (text "thinking_delta") || text_eq kind (text "signature_delta")) _ _
            (on_thinking_delta-Ordered s i b d _ o) o))

  delta_in-Ordered :
      (s : MessageStream j) (event : Value) (i : ℕ) (b : Option (Block j))
      → IsOrdered C s
      → Ordered C (delta_in w s event i b)
  unfolding delta_in
  delta_in-Ordered s event i none o = o
  delta_in-Ordered s event i (some b) o =
      using-Ordered C s (member j event (text "delta")) _ o (λ d.
        using-Ordered C s (member_text j d (text "type")) _ o
          (λ kind. delta_named-Ordered s i b d kind o))

  pub on_delta-Ordered :
      (s : MessageStream j) (event : Value) → IsOrdered C s → Ordered C (on_delta w s event)
  unfolding on_delta
  on_delta-Ordered s event o =
      using-Ordered C s (count j event (text "index") 0) _ o
        (λ i. delta_in-Ordered s event i (find_block i s.blocks) o)

  check_signature-Ordered :
      (s : MessageStream j) (v t : Value) → IsOrdered C s → Ordered C (check_signature w s v t)
  unfolding check_signature
  check_signature-Ordered s v t o =
      if-Ordered C (j.same t (j.string (text "thinking"))) _ _
        (using-Ordered C s (text_or_empty j v (text "signature")) _ o
          (λ signature. require-Ordered C s _ _ o))
        o

  close_block-Ordered :
      (s : MessageStream j) (i : ℕ) (v : Value) → IsOrdered C s → Ordered C (close_block w s i v)
  unfolding close_block is_final
  close_block-Ordered s i v o = using-Ordered C s (member j v (text "type")) _ o (λ type.
      bind-Ordered C _ _ (check_signature-Ordered s v type o) (λ t o.
        using-Ordered C t (content j t.tool_names v) _ o
          (λ item. emit-IsOrdered C w calm t (block_finished i item) refl o)))

  stop_at-Ordered :
      (s : MessageStream j) (i : ℕ) (b : Option (Block j))
      → IsOrdered C s
      → Ordered C (stop_at w s i b)
  unfolding stop_at
  stop_at-Ordered s i none o = o
  stop_at-Ordered s i (some b) o =
      using-Ordered C _ (whole_value w b) _ o (λ v. close_block-Ordered _ i v o)

  pub on_block_stop-Ordered :
      (s : MessageStream j) (event : Value) → IsOrdered C s → Ordered C (on_block_stop w s event)
  unfolding on_block_stop
  on_block_stop-Ordered s event o =
      using-Ordered C s (count j event (text "index") 0) _ o
        (λ i. stop_at-Ordered s i (find_block i s.blocks) o)
