-- ===== src/Presence/Control.antt =====
-- The other operations of apps/server/src/sfu/room-presence.service.ts: departures, seats, the
-- host's controls, the end of a room, lookups and subscriptions.
use Prim.Native.String.{◌++◌ as append}
use zvonok.Prelude.{
  suc, String, Bool, true, false, Option, none, some, List, [], ◌∷◌, ◌++◌, ite, if◌then◌else◌, not,
  str_dec, truthy, or_else, is_some, Map, get, put, remove, remove_all, set_at, add,
}
use zvonok.Capabilities.{includes, remove_participants, lock_room as lock_capability}
use zvonok.Presence.State.{
  State, PresenceRecord, HeldSeat, Event, LeaveReason, Effect, kicked, emit, set_timer, clear_timer,
  socket_disconnect, webhook, send, participant_of, kick as by_kick, room_end, disconnect,
}
use zvonok.Presence.State
use zvonok.Presence.Rooms.{
  list_peer_sockets, seat_keys, nonempty, find_room_slug, broadcast_to_room, index_held_seat,
  unindex_held_seat, notify_room_closed, detach_peer, cleanup_room_if_empty, announce_left, depart,
}
use zvonok.Presence.Join.{seat_key}

pub data HostActionCode : Type 0 where
  not_in_room missing_capability target_not_found : HostActionCode

pub data SfuHostActionAck : Type 0 where
  ok : SfuHostActionAck
  denied : HostActionCode → String → SfuHostActionAck

abbrev pub leave : State → String → LeaveReason → State
leave = depart

clear_previous : Option HeldSeat → List Effect
clear_previous none = []
clear_previous (some seat) = clear_timer seat.timer ∷ []

-- The seat is entered, with a new timer in place of an old one.
unfoldable pub enter_seat : State → String → String → PresenceRecord → State
unfolding clear_previous
enter_seat s key room r = record s {
  next_timer = suc s.next_timer;
  held_seats =
      put key
        (record {
          room_id = room;
          socket_id = r.socket_id;
          participant = participant_of r;
          timer = s.next_timer;
        })
        s.held_seats;
  effects =
      s.effects
      ++ (clear_previous (get key s.held_seats)
          ++ set_timer s.next_timer key s.rejoin_grace_ms ∷ []);
}

unfoldable pub hold_seat : State → String → State
hold_seat s sid = elim (get sid s.records) [
  | none ↦ s
  | some r ↦ elim (truthy (some r.room_id)) [
    | none ↦ s
    | some room ↦
        let key = seat_key room r.user_id in
        index_held_seat (detach_peer (enter_seat s key room r) sid) room key
  ]
]

-- The deferred departure, run by the timer of a seat.
unfoldable pub expire_held_seat : State → String → State
expire_held_seat s key = elim (get key s.held_seats) [
  | none ↦ s
  | some seat ↦
      let t =
        unindex_held_seat (record s { held_seats = remove key s.held_seats }) seat.room_id key in
      if is_some (get seat.room_id s.rooms)
      then cleanup_room_if_empty (announce_left t seat.room_id seat.participant none disconnect)
          seat.room_id
      else t
]

-- The first of the sockets whose record is the user's.
unfoldable pub find_user : Map PresenceRecord → String → List String → Option PresenceRecord
find_user records user_id [] = none
find_user records user_id (sid ∷ sids) = elim (get sid records) [
  | none ↦ find_user records user_id sids
  | some r ↦ ite (str_dec r.user_id user_id) (some r) (find_user records user_id sids)
]

unfoldable pub mark_kicked : State → String → String → State
mark_kicked s room user_id = record s {
  kicked_users = put room (add user_id (set_at s.kicked_users room)) s.kicked_users;
}

unfoldable pub remove_target : State → String → PresenceRecord → State
unfolding mark_kicked
remove_target s room target = send (socket_disconnect target.socket_id ∷ []) (
    depart (send (emit target.socket_id (kicked room) ∷ []) (mark_kicked s room target.user_id))
      target.socket_id by_kick)

-- The requester of a host control, in a room.
unfoldable pub requester_of : State → String → Option (PresenceRecord × String)
requester_of s sid = elim (get sid s.records) [
  | none ↦ none
  | some r ↦ elim (truthy (some r.room_id)) [ none ↦ none | some room ↦ some (r, room) ]
]

unfoldable pub not_found : String → SfuHostActionAck
not_found target_user_id =
    denied target_not_found (append "Participant " (append target_user_id " is not in the room"))

unfoldable pub kick_in : State → String → String → String → State × SfuHostActionAck
kick_in s sid room target_user_id =
    elim (find_user s.records target_user_id (list_peer_sockets s room)) [
      | none ↦ (s, not_found target_user_id)
      | some target ↦
          ite (str_dec target.socket_id sid) (s, not_found target_user_id)
            (remove_target s room target, ok)
    ]

unfoldable pub kick : State → String → String → State × SfuHostActionAck
kick s sid target_user_id = elim (requester_of s sid) [
  | none ↦ (s, denied not_in_room "Join the room before using host controls")
  | some (r, room) ↦
      if includes r.capabilities remove_participants
      then kick_in s sid room target_user_id
      else (s, denied missing_capability "Missing remove-participants capability")
]

same_lock : Bool → Bool → Bool
same_lock true b = b
same_lock false b = not b

unfoldable pub set_lock : State → String → Bool → State
unfolding same_lock
set_lock s room locked =
    if same_lock (or_else (get room s.room_locks) false) locked
    then s
    else let t = record s { room_locks = put room locked s.room_locks } in
      broadcast_to_room t room (State.Event.room_locked locked) none

unfoldable pub lock_room : State → String → Bool → State × SfuHostActionAck
lock_room s sid locked = elim (requester_of s sid) [
  | none ↦ (s, denied not_in_room "Join the room before using host controls")
  | some (r, room) ↦
      if includes r.capabilities lock_capability
      then (set_lock s room locked, ok)
      else (s, denied missing_capability "Missing lock-room capability")
]

-- The seats of a room lapse, with their timers.
lapse_effects : Map HeldSeat → List String → List Effect
lapse_effects seats [] = []
lapse_effects seats (k ∷ ks) = elim (get k seats) [
  | none ↦ lapse_effects seats ks
  | some seat ↦ clear_timer seat.timer ∷ lapse_effects seats ks
]

unfoldable pub end_lifetime : State → String → State
unfolding lapse_effects
end_lifetime s room = record s {
  room_locks = remove room s.room_locks;
  held_seats = remove_all (seat_keys s room) s.held_seats;
  held_seats_by_room = remove room s.held_seats_by_room;
  kicked_users = remove room s.kicked_users;
  effects = s.effects ++ lapse_effects s.held_seats (seat_keys s room);
}

unfoldable pub depart_all : State → List String → LeaveReason → State
depart_all s [] reason = s
depart_all s (sid ∷ sids) reason = depart_all (depart s sid reason) sids reason

unfoldable pub end_room : State → String → State
end_room s room =
    let t = notify_room_closed (end_lifetime s room) room in
    let peers = list_peer_sockets t room in
    let ended = webhook (State.Webhook.room_ended room (find_room_slug t room)) ∷ [] in
    if nonempty peers
    then send ended
        (depart_all (broadcast_to_room t room (State.Event.room_ended room) none) peers room_end)
    else send ended t
