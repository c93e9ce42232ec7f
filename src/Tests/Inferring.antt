-- ===== src/Tests/Inferring.antt =====
-- The theorems on the Anthropic stream at concrete inputs.
use aisuite.Common.{refl, false, some, [], ◌∷◌, List, text}
use aisuite.Json.{Json}
use aisuite.Anthropic.State.{Listener, new_stream, finish}
use aisuite.Anthropic.Order.{OneFinal, Ended, IsCalm}
use aisuite.Anthropic.Sessions.{
  StreamCall, takes, finishes, perform_all, perform_all-OneFinal, finish-Ended, NoCancel, IsOther,
}
use aisuite.Tests.Toy.{chars, members, end, field, toy}

-- The library that reads an error in every text.
abbrev failing : Json
failing = record toy {
  parse = λ s. some (
      members (
        field (text "type") (chars (text "error")) (
          field (text "error")
            (members (
              field (text "type") (chars (text "overloaded_error"))
                (field (text "message") (chars (text "later")) end)))
            end)));
}

abbrev patient : Listener failing
patient = record { cancels = λ t e. false; library_text = λ s name body. [] }

abbrev calls : List StreamCall
calls = takes (text "error") [] ∷ takes (text "ping") [] ∷ finishes ∷ []

perform_all-OneFinal_example : OneFinal (perform_all patient (new_stream [] false) calls).emitted
perform_all-OneFinal_example = perform_all-OneFinal patient [] false calls

patient-IsCalm : IsCalm patient
unfolding IsCalm
patient-IsCalm es e = refl

calls-NoCancel : NoCancel calls
unfolding NoCancel IsOther
calls-NoCancel = (tt, (tt, (tt, tt)))

finish-Ended_example : Ended (finish (perform_all patient (new_stream [] false) calls)).emitted
finish-Ended_example = finish-Ended patient [] false calls patient-IsCalm calls-NoCancel
