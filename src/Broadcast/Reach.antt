-- ===== src/Broadcast/Reach.antt =====
-- Whom an event that is fanned out reaches, where no socket server is attached.
use zvonok.Json.{Json}
use zvonok.Prelude.{String, ◌≡◌, ◌≢◌, ◌⊎◌, Bool, true, false, some, List, [], ◌∷◌, ite, str_dec}
use zvonok.Presence.State.{State, Effect, emit}
use zvonok.Presence.Rooms.{room_id_of}

-- The socket is sent something.
unfoldable pub is_sent : String → List Effect → Bool
is_sent x [] = false
is_sent x (emit sid e ∷ es) = let rest = is_sent x es in ite (str_dec sid x) true rest
is_sent x (_ ∷ es) = is_sent x es

-- What a fan-out shows of one socket: it is sent the event if it is in the room.
abbrev pub Reached : State → String → String → List Effect → Type 0
Reached s room x es =
    ((room_id_of s x ≡ some room) × (is_sent x es ≡ true))
    ⊎ ((room_id_of s x ≢ some room) × (is_sent x es ≡ false))
