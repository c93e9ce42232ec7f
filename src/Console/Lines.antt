-- ===== src/Console/Lines.antt =====
-- StdinReader: lines that are read in one piece or in several.
use aisuite.Common.{
  ℕ, ◌≤◌, ◌≡◌, true, false, none, List, [], ◌∷◌, ◌++◌, Bool, not, ◌||◌, length, Text, index_of,
}
use aisuite.Console.Stdin.{Callback, line_read, last_is}

-- A line as it is typed: with a carriage return behind it, or without one.
unfoldable pub ended : Text → Bool → Text
ended l false = l
ended l true = l ++ b'\r' ∷ []

-- Lines, each with its newline, and what follows them.
unfoldable pub lines_then : List (Text × Bool) → Text → Text
lines_then [] r = r
lines_then ((l, cr) ∷ ls) r = ended l cr ++ b'\n' ∷ lines_then ls r

-- A line within the maximum, without a newline; one that is ended by a newline alone has no
-- carriage return of its own at its end.
unfoldable pub AllLines : ℕ → List (Text × Bool) → Type 0
AllLines m [] = Unit
AllLines m ((l, cr) ∷ ls) =
    (index_of b'\n' l ≡ none)
    × (cr || not (last_is b'\r' l) ≡ true)
    × (length l ≤ m)
    × AllLines m ls

-- The calls after the lines are told, the last one first.
unfoldable pub told : List (Text × Bool) → List Callback → List Callback
told [] calls = calls
told ((l, cr) ∷ ls) calls = told ls (line_read l ∷ calls)
