-- ===== src/Tests/Connecting.antt =====
-- The theorems on the client's connection at concrete inputs.
use aisuite.Common.{ℕ, ◌≡◌, refl, true, false, some, [], ◌∷◌}
use aisuite.Connection.{refused, delivered, ClientConnection, Peers}
use aisuite.Connection.Sessions.{
  attaches, connects, receives, detaches, sends, perform_all, messages, is_sound,
  perform_all-is_sound, perform_all-shut,
}

abbrev peers : Peers ℕ
peers = record {
  has_on_connected = true;
  has_on_disconnected = true;
  has_on_failure = true;
  receives = λ m. refused;
  takes = λ m. true;
}

abbrev talking : ClientConnection ℕ
talking = record {
  endpoint = some 5;
  online = true;
  shutting_down = false;
  failure_reported = false;
  signals = [];
}

abbrev shut : ClientConnection ℕ
shut = record talking { shutting_down = true; signals = delivered 3 ∷ [] }

perform_all-is_sound_example :
    is_sound
      (perform_all peers talking (receives 5 8 ∷ detaches 5 [] ∷ attaches 6 ∷ connects 6 ∷ []))
    ≡ true
perform_all-is_sound_example =
    perform_all-is_sound peers talking (receives 5 8 ∷ detaches 5 [] ∷ attaches 6 ∷ connects 6 ∷ [])
      refl

perform_all-shut_example :
    ((perform_all peers shut (sends 4 ∷ receives 5 8 ∷ detaches 5 [] ∷ [])).shutting_down ≡ true)
    × (messages (perform_all peers shut (sends 4 ∷ receives 5 8 ∷ detaches 5 [] ∷ [])).signals
        ≡ messages shut.signals)
perform_all-shut_example =
    perform_all-shut peers shut (sends 4 ∷ receives 5 8 ∷ detaches 5 [] ∷ []) refl
