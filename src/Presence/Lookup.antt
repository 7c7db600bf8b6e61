-- ===== src/Presence/Lookup.antt =====
-- The reads and the subscriptions of apps/server/src/sfu/room-presence.service.ts.
use zvonok.Prelude.{
  ℕ, String, Bool, true, false, Option, none, some, List, [], ◌∷◌, ◌++◌, ite, if◌then◌else◌, ◌==◌,
  str_dec, truthy, or_else, is_some, Map, get, put, length,
}
use zvonok.Presence.State.{State, PresenceRecord, HeldSeat, Effect, clear_timer}
use zvonok.Presence.Rooms.{list_peer_sockets}

abbrev pub peer_count : State → ℕ
peer_count s = length s.records

abbrev pub context_of : State → String → Option PresenceRecord
context_of s sid = get sid s.records

-- The key under which the first record of the user stands.
unfoldable pub socket_of_user : Map PresenceRecord → String → List String → Option String
socket_of_user records user_id [] = none
socket_of_user records user_id (sid ∷ sids) = elim (get sid records) [
  | none ↦ socket_of_user records user_id sids
  | some r ↦ ite (str_dec r.user_id user_id) (some sid) (socket_of_user records user_id sids)
]

unfoldable pub peer_socket_in_room : State → String → String → Option String
peer_socket_in_room s room user_id = socket_of_user s.records user_id (list_peer_sockets s room)

unfoldable pub has_peer_in_slug : State → String → String → Bool
has_peer_in_slug s slug user_id = elim (truthy (get slug s.slug_to_room_id)) [
  | none ↦ false
  | some room ↦ is_some (peer_socket_in_room s room user_id)
]

unfoldable pub owner_socket_id : State → String → Option String
owner_socket_id s slug = elim (truthy (get slug s.slug_to_room_id)) [
  | none ↦ none
  | some room ↦ elim (truthy (get room s.room_owners)) [
    | none ↦ none
    | some owner ↦ peer_socket_in_room s room owner
  ]
]

unfoldable pub add_handler : ℕ → List ℕ → List ℕ
add_handler h [] = h ∷ []
add_handler h (x ∷ xs) = if x == h then x ∷ xs else x ∷ add_handler h xs

unfoldable pub subscribe : String → ℕ → Map (List ℕ) → Map (List ℕ)
subscribe k h m = put k (add_handler h (or_else (get k m) [])) m

unfoldable pub on_peer_detach : State → String → ℕ → State
on_peer_detach s sid h = record s { peer_detach_handlers = subscribe sid h s.peer_detach_handlers }

unfoldable pub on_room_closed : State → String → ℕ → State
on_room_closed s room h = record s {
  room_closed_handlers = subscribe room h s.room_closed_handlers;
}

unfoldable pub attach_server : State → State
attach_server s = record s { io = true }

timers : Map HeldSeat → List Effect
timers [] = []
timers ((k, seat) ∷ m) = clear_timer seat.timer ∷ timers m

-- The locks are the one map that stays.
unfoldable pub on_module_destroy : State → State
unfolding timers
on_module_destroy s = record s {
  effects = s.effects ++ timers s.held_seats;
  held_seats = [];
  records = [];
  rooms = [];
  room_owners = [];
  slug_to_room_id = [];
  room_id_to_slugs = [];
  held_seats_by_room = [];
  io = false;
  kicked_users = [];
  room_closed_handlers = [];
  peer_detach_handlers = [];
}
