-- ===== src/Tests/Log.antt =====
-- The theorem on the log buffer at a short message.
use app_elfloader.Prelude.{ℕ, ◌≡◌, ◌≢◌, refl, List, [], ◌∷◌}
use app_elfloader.Outcome.{ok, panic, ◌>>=◌}
use app_elfloader.Word.{add64, sub64}
use app_elfloader.Log.{message, joined, IsMessage, message-IsMessage}

abbrev two_pieces : List (List ℕ)
two_pieces = (b'o' ∷ []) ∷ (b'k' ∷ b'!' ∷ []) ∷ []

ok_message : message {E = Unit {0}} two_pieces ≡ ok (b'o' ∷ b'k' ∷ b'!' ∷ 0 ∷ [])
unfolding message ◌>>=◌ sub64 add64
ok_message = refl

message-IsMessage_example :
    (message {E = Unit {0}} two_pieces ≢ panic)
    × ((msg : List ℕ)
        → message {E = Unit {0}} two_pieces ≡ ok msg
        → IsMessage (joined two_pieces) msg)
message-IsMessage_example = message-IsMessage {E = Unit {0}} two_pieces
