-- ===== src/Tests/Responding.antt =====
-- The theorems on the stream of Responses events at concrete inputs.
use aisuite.Common.{
  ◌≡◌, refl, true, false, none, some, List, [], ◌∷◌, if◌then◌else◌, Text, text, text_eq,
}
use aisuite.Model.{text_content, end_turn, started, block_started, text_delta, completed}
use aisuite.Json.{Json}
use aisuite.Responses.CustomInput.{at_done, new_input, is_space, quoted}
use aisuite.Responses.Pieces.{
  Piece, plain, short, pair, piece_bytes, IsPiece, AllPieces, literal, decoded,
}
use aisuite.Responses.Decoding.{
  Spacing, IsSpacing, all_space, input_key, object_text, joined, behind_key, read_deltas,
  read_deltas-object_text,
}
use aisuite.Responses.Stream.{ResponsesStream, new_stream, Client}
use aisuite.Responses.Finish.{receive}
use aisuite.Responses.Invariant.{IsSound}
use aisuite.Responses.Ending.{receive_all, receive_all-IsSound}
use aisuite.Responses.Terminal.{IsLast, receive-ends}
use aisuite.Tests.Toy.{chars, toy, toy_laws}

abbrev sender : Client toy
sender = record { accepts = λ t v. true; library_text = λ s e. [] }

abbrev hi : Text
hi = b'h' ∷ b'i' ∷ []

abbrev spoken : ResponsesStream toy
spoken =
    receive_all sender (new_stream [] [] hi)
      (started [] ∷ block_started 0 (text_content []) ∷ text_delta 0 hi ∷ [])

receive_all-IsSound_example : IsSound toy (
    receive_all sender
      (new_stream [] [] hi)
      (started [] ∷ block_started 0 (text_content []) ∷ text_delta 0 hi ∷ []))
receive_all-IsSound_example =
    receive_all-IsSound sender toy_laws [] hi []
      (started [] ∷ block_started 0 (text_content []) ∷ text_delta 0 hi ∷ [])

last : IsLast {j = toy} (completed end_turn)
unfolding IsLast
last = tt

receive-ends_example :
    ((receive sender spoken (completed end_turn)).terminal ≡ true)
    × (receive sender (receive sender spoken (completed end_turn)) (text_delta 0 hi)
        ≡ receive sender spoken (completed end_turn))
receive-ends_example = receive-ends sender spoken (completed end_turn) (text_delta 0 hi) last

-- A JSON library that parses the literals of the input below, and refuses all others.
abbrev literals : Json
literals = record toy {
  parse = λ s.
      if text_eq s input_key
      then some (chars (text "input"))
      else if text_eq s (quoted (text "\\n"))
      then some (chars (10 ∷ []))
      else if text_eq s (quoted (text "\\ud83d\\ude00"))
      then some (chars (240 ∷ 159 ∷ 152 ∷ 128 ∷ []))
      else none;
}

abbrev pieces : List (Piece literals)
pieces =
    plain b'h'
    ∷ short b'n' (chars (10 ∷ []))
    ∷ pair b'd' b'8' b'3' b'd' b'd' b'e' b'0' b'0' (chars (240 ∷ 159 ∷ 152 ∷ 128 ∷ []))
    ∷ []

pieces-AllPieces : AllPieces literals pieces
unfolding AllPieces IsPiece text_eq text
pieces-AllPieces = ((refl, refl, refl), ((refl, refl), ((refl, refl), tt)))

abbrev spacing : Spacing
spacing = record {
  before_open = [];
  before_key = b' ' ∷ [];
  before_colon = [];
  before_value = b'\n' ∷ [];
  before_close = [];
  behind = [];
}

spacing-IsSpacing : IsSpacing spacing
unfolding IsSpacing all_space is_space
spacing-IsSpacing = (refl, refl, refl, refl, refl, refl)

-- The cuts are in the key, in an escape, and in the second half of a pair.
abbrev deltas : List Text
deltas = text "{ \"inp" ∷ text "ut\":\n\"h\\" ∷ text "n\\ud83d\\ud" ∷ text "e00\"}" ∷ []

deltas-joined : joined deltas ≡ object_text spacing (literal literals pieces)
unfolding joined literal piece_bytes text
deltas-joined = refl

right_key : literals.same (chars (text "input")) (chars (text "input")) ≡ true
unfolding text_eq text
right_key = refl

parsed_key : literals.parse input_key ≡ some (chars (text "input"))
unfolding text_eq text
parsed_key = refl

read_deltas-object_text_example :
    read_deltas literals new_input deltas
    ≡ record { input = behind_key at_done; output = decoded literals pieces; threw = false }
read_deltas-object_text_example =
    read_deltas-object_text literals spacing pieces (chars (text "input")) deltas spacing-IsSpacing
      pieces-AllPieces parsed_key right_key deltas-joined
