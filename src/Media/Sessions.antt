-- ===== src/Media/Sessions.antt =====
-- Who comes and goes: `joinRoom`, `leaveRoom`, `closePeer`, `endRoom` and the subscriptions of
-- apps/server/src/sfu/sfu.service.ts. The presence service knows the media layer by two handlers, the
-- one of a socket's departure, which it calls before it takes the record out, and the one of a room's
-- end. The router is closed by a microtask, after the other handlers; here it is closed with the room.
use zvonok.Prelude.{
  ℕ, String, Bool, true, false, Option, none, some, List, [], ◌∷◌, ◌==◌, if◌then◌else◌, truthy, get,
  remove, discard,
}
use zvonok.Presence.State.{
  State, PresenceRecord, leave as by_leave, kick as by_kick, kicked, emit, socket_disconnect, send,
}
use zvonok.Presence.Rooms.{list_peer_sockets, depart}
use zvonok.Presence.Control.{
  SfuHostActionAck, ok, denied, find_user, requester_of, mark_kicked, kick, hold_seat,
  expire_held_seat, end_room as end_presence,
}
use zvonok.Presence.Lookup.{context_of}
use zvonok.Media.Pool.{close_router}
use zvonok.Media.State.{Sfu, MediaPeer, Call, call, close_transports}
use zvonok.Media.Closing.{drop_media, detach_media}

abbrev pub detach_handler : ℕ
detach_handler = 0

abbrev pub closed_handler : ℕ
closed_handler = 1

unfoldable pub listens : ℕ → Option (List ℕ) → Bool
listens h none = false
listens h (some []) = false
listens h (some (x ∷ xs)) = if x == h then true else listens h (some xs)

option_calls : Option MediaPeer → List Call
option_calls none = []
option_calls (some peer) = close_transports peer

unfoldable pub drop_member : String → Sfu → Sfu
unfolding option_calls
drop_member sid s = drop_media sid (call (option_calls (get sid s.media)) s)

unfoldable pub drop_members : List String → Sfu → Sfu
drop_members [] s = s
drop_members (x ∷ xs) s = drop_members xs (drop_member x s)

unfoldable pub close_room_media : String → Sfu → Sfu
close_room_media room s =
    let t = drop_members (list_peer_sockets s.presence room) s in
    record t {
      room_screen_share = remove room t.room_screen_share;
      router_rooms = discard room t.router_rooms;
      pool = close_router room t.pool;
    }

-- A departure that presence announces for a socket of a room, before its record is taken out.
unfoldable pub run_detach : String → Sfu → Sfu
run_detach sid s = elim (context_of s.presence sid) [
  | none ↦ s
  | some r ↦ elim (truthy (some r.room_id)) [
    | none ↦ s
    | some room ↦
        if listens detach_handler (get sid s.presence.peer_detach_handlers)
        then detach_media sid s
        else s
  ]
]

abbrev pub with_presence : State → Sfu → Sfu
with_presence p s = record s { presence = p }

-- The room's end is announced where its handler was known and is not any more.
unfoldable pub after_close : String → State → Sfu → Sfu
after_close room before s =
    if listens closed_handler (get room before.room_closed_handlers)
    then (if listens closed_handler (get room s.presence.room_closed_handlers)
        then s
        else close_room_media room s)
    else s

room_of_socket : State → String → String
room_of_socket p sid = elim (context_of p sid) [ none ↦ "" | some r ↦ r.room_id ]

-- One socket departs by an operation of the presence service.
unfoldable pub departs : String → (State → State) → Sfu → Sfu
unfolding room_of_socket
departs sid operation s =
    let t = run_detach sid s in
    after_close (room_of_socket s.presence sid) t.presence (with_presence (operation t.presence) t)

unfoldable pub leave_room : String → Sfu → Sfu
leave_room sid s = departs sid (λ p. depart p sid by_leave) s

unfoldable pub close_peer : String → Sfu → Sfu
close_peer sid s = departs sid (λ p. hold_seat p sid) s

-- The member that a kick of the requester would take out, with the room.
unfoldable pub kick_target : State → String → String → Option (PresenceRecord × String)
kick_target p sid user_id = elim (requester_of p sid) [
  | none ↦ none
  | some (r, room) ↦ elim (find_user p.records user_id (list_peer_sockets p room)) [
    | none ↦ none
    | some target ↦ some (target, room)
  ]
]

-- `presence.kick`, as the gateway calls it, with the media of the target in between.
unfoldable pub kick_peer : String → String → Sfu → Sfu × SfuHostActionAck
kick_peer sid user_id s = elim (kick s.presence sid user_id).1 [
  | denied code message ↦ (s, denied code message)
  | ok ↦ elim (kick_target s.presence sid user_id) [
    | none ↦ (s, ok)
    | some (target, room) ↦
        let told =
          send (emit target.socket_id (kicked room) ∷ [])
            (mark_kicked s.presence room target.user_id) in
        let gone =
          departs target.socket_id (λ p. depart p target.socket_id by_kick)
            (with_presence told s) in
        (with_presence (send (socket_disconnect target.socket_id ∷ []) gone.presence) gone, ok)
  ]
]

-- The grace window of a seat lapses.
unfoldable pub expire_seat : String → String → Sfu → Sfu
expire_seat room key s =
    after_close room s.presence (with_presence (expire_held_seat s.presence key) s)

-- Presence announces the end of the room first, so the members' media is gone when they depart.
unfoldable pub end_room : String → Sfu → Sfu
end_room room s =
    let t =
      if listens closed_handler (get room s.presence.room_closed_handlers)
      then close_room_media room s
      else s in
    with_presence (end_presence t.presence room) t
