-- ===== src/Tests/Framing.antt =====
-- The framer's theorems at concrete inputs.
use aisuite.Common.{◌≡◌, refl, true, false, some, [], ◌∷◌, ◌++◌, arith, Text, index_of}
use aisuite.Framer.{
  JsonLineFramer, exceeds, Handlers, returned, Run, buffered_bytes, compact, append, strip_cr,
  find_newline, fail, deliver, on_line, on_rest, on_delimiter, loop, consume, encode,
}
use aisuite.Framer.Stream.{pending, view, decode, consume-decode}
use aisuite.Framer.Bounds.{After, consume-After}
use aisuite.Framer.Chunks.{follow, Agree, consume-append, consume-append_refused}
use aisuite.Framer.RoundTrip.{IsWireSafe, Encoded, done, more, consume-encode}

-- Every line is a message, which is its text.
abbrev lines : Handlers Text
lines = record { parse = λ s. some s; throws = λ m. false; has_on_error = true }

abbrev small : JsonLineFramer
small = record { maximum_frame_bytes = 4; buffer = []; buffer_offset = 0; has_failed = false }

abbrev halfway : Text
halfway = b'a' ∷ b'b' ∷ b'\r' ∷ b'\n' ∷ b'c' ∷ []

abbrev rest : Text
rest = b'd' ∷ b'\n' ∷ []

abbrev too_long : Text
too_long = b'a' ∷ b'b' ∷ b'c' ∷ b'd' ∷ b'e' ∷ b'\n' ∷ []

abbrev after_halfway : Run Text
after_halfway = record {
  framer = record small { buffer = b'c' ∷ [] };
  messages = (b'a' ∷ b'b' ∷ []) ∷ [];
  errors = [];
  ending = returned true;
}

abbrev after_too_long : Run Text
after_too_long = record {
  framer = record small { has_failed = true };
  messages = [];
  errors = exceeds ∷ [];
  ending = returned false;
}

consume-halfway : consume lines small halfway ≡ some after_halfway
unfolding consume append compact loop find_newline index_of on_rest on_delimiter on_line deliver
    fail strip_cr buffered_bytes
consume-halfway = refl

consume-too_long : consume lines small too_long ≡ some after_too_long
unfolding consume append compact loop find_newline index_of on_rest on_delimiter on_line deliver
    fail strip_cr buffered_bytes
consume-too_long = refl

consume-decode_example :
    (r : Run Text) × (consume lines after_halfway.framer rest ≡ some r)
    × (view r ≡ decode lines 4 [] (pending after_halfway.framer ++ rest))
consume-decode_example = consume-decode lines after_halfway.framer rest (omega arith) refl

consume-After_example : After small after_halfway
consume-After_example =
    consume-After lines small halfway after_halfway refl (omega arith) consume-halfway

consume-append_example :
    (r' : Run Text) × (whole : Run Text) × (consume lines after_halfway.framer rest ≡ some r')
    × (consume lines small (halfway ++ rest) ≡ some whole)
    × (view whole ≡ follow (view after_halfway) (view r'))
consume-append_example =
    consume-append lines small halfway rest after_halfway refl (omega arith) consume-halfway refl

consume-append_refused_example :
    (whole : Run Text) × (consume lines small (too_long ++ rest) ≡ some whole)
    × Agree (view whole) (view after_too_long)
    × (consume lines after_too_long.framer rest
        ≡ some (record {
          framer = after_too_long.framer;
          messages = [];
          errors = [];
          ending = returned false;
        }))
consume-append_refused_example =
    consume-append_refused lines small too_long rest after_too_long refl (omega arith)
      consume-too_long refl

abbrev message : Text
message = b'o' ∷ b'k' ∷ []

abbrev same : Text → Text
same m = m

encode-message : encode same message 4 ≡ some (message ++ b'\n' ∷ [])
unfolding encode
encode-message = refl

message-IsWireSafe : IsWireSafe lines same message
unfolding strip_cr index_of
message-IsWireSafe = record {
  parses = refl;
  one_line = refl;
  no_cr = refl;
  not_empty = λ e. cc;
  taken = refl;
}

abbrev frames : Encoded lines same 4 (message ∷ []) (message ++ b'\n' ∷ [])
frames = more encode-message message-IsWireSafe done

consume-encode_example :
    (r : Run Text) × (consume lines small (message ++ b'\n' ∷ []) ≡ some r)
    × (view r
        ≡ record { messages = message ∷ []; errors = []; ending = returned true; pending = [] })
consume-encode_example = consume-encode lines same 4 small refl refl (omega arith) refl frames
