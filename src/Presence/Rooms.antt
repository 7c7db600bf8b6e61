-- ===== src/Presence/Rooms.antt =====
-- Lookups, fan-out, and the helpers that take a peer or a room out of the state.
use zvonok.Prelude.{
  ℕ, String, Bool, true, false, Option, none, some, List, [], ◌∷◌, map, ite, if◌then◌else◌, str_dec,
  truthy, Map, get, put, remove, remove_all, modify, set_at, add, discard, has, has_at, has-discard,
  set_at-put, set_at-remove, Option-cases, inl, inr, ◌≡◌, arith,
}
use zvonok.Presence.State.{
  State, PresenceRecord, HeldSeat, Participant, LeaveReason, Event, Effect, emit, fan_out,
  socket_leave, run_handler, webhook, send, participant_of, disconnect,
}
use zvonok.Presence.State

abbrev pub room_id_of : State → String → Option String
room_id_of s sid = elim (get sid s.records) [ none ↦ none | some r ↦ some r.room_id ]

abbrev pub list_peer_sockets : State → String → List String
list_peer_sockets s room = set_at s.rooms room

-- The keys of the seats held for a room.
abbrev pub seat_keys : State → String → List String
seat_keys s room = set_at s.held_seats_by_room room

abbrev pub slugs_of : State → String → List String
slugs_of s room = set_at s.room_id_to_slugs room

abbrev pub nonempty {ℓ} : {A : Type ℓ} → List A → Bool
nonempty [] = false
nonempty (x ∷ xs) = true

unfoldable pub room_has_held_seat : State → String → Bool
room_has_held_seat s room = nonempty (seat_keys s room)

first : List String → Option String
first [] = none
first (x ∷ xs) = some x

unfoldable pub find_room_slug : State → String → Option String
unfolding first
find_room_slug s room = first (slugs_of s room)

is_excluded : Option String → String → Bool
is_excluded none sid = false
is_excluded (some x) sid = ite (str_dec sid x) true false

-- The loop over the records, where no server is attached.
unfoldable pub deliveries : Map PresenceRecord → Option String → Event → List String → List Effect
unfolding is_excluded
deliveries records except e [] = []
deliveries records except e (sid ∷ sids) =
    let rest = deliveries records except e sids in
    if is_excluded except sid
    then rest
    else elim (get sid records) [ none ↦ rest | some r ↦ emit r.socket_id e ∷ rest ]

unfoldable pub fan_out_effects : State → String → Event → Option String → List Effect
unfolding deliveries
fan_out_effects s room e except =
    if s.io
    then fan_out room (truthy except) e ∷ []
    else deliveries s.records except e (list_peer_sockets s room)

abbrev pub broadcast_to_room : State → String → Event → Option String → State
broadcast_to_room s room e except = send (fan_out_effects s room e except) s

unfoldable pub emit_to_peer : State → String → Event → State
emit_to_peer s sid e = elim (get sid s.records) [
  | none ↦ s
  | some r ↦ send (emit r.socket_id e ∷ []) s
]

unfoldable pub index_held_seat : State → String → String → State
index_held_seat s room key = record s {
  held_seats_by_room = put room (add key (seat_keys s room)) s.held_seats_by_room;
}

unindexed : String → Map (List String) → List String → Map (List String)
unindexed room m [] = remove room m
unindexed room m (k ∷ ks) = put room (k ∷ ks) m

unfoldable pub unindex : String → String → Map (List String) → Map (List String)
unfolding unindexed
unindex room key m = elim (get room m) [
  | none ↦ m
  | some keys ↦ unindexed room m (discard key keys)
]

abbrev pub unindex_held_seat : State → String → String → State
unindex_held_seat s room key = record s {
  held_seats_by_room = unindex room key s.held_seats_by_room;
}

set_at-unindexed :
    (k room : String) (m : Map (List String)) (xs : List String)
    → set_at (unindexed room m xs) k ≡ ite (str_dec room k) xs (set_at m k)
unfolding unindexed
set_at-unindexed k room m [] = set_at-remove k room m
set_at-unindexed k room m (x ∷ xs) = set_at-put k room (x ∷ xs) m

pub set_at-unindex :
    (room key : String) (m : Map (List String))
    → set_at (unindex room key m) room ≡ discard key (set_at m room)
unfolding unindex discard
set_at-unindex room key m = elim (Option-cases (get room m)) [
  | inl e ↦ ground (arith, e)
  | inr (keys, e) ↦ ground (arith, e, set_at-unindexed room room m (discard key keys))
]

pub has_at-unindex :
    (x k room key : String) (m : Map (List String))
    → has_at x (unindex room key m) k
      ≡ ite (str_dec room k) (ite (str_dec key x) false (has_at x m k)) (has_at x m k)
unfolding unindex has
has_at-unindex x k room key m = elim (Option-cases (get room m)) [
  | inl e ↦ ground (arith, e)
  | inr (keys, e) ↦
      ground (arith, e, set_at-unindexed k room m (discard key keys), has-discard x key keys)
]

unfoldable pub run_handlers : Option (List ℕ) → List Effect
run_handlers none = []
run_handlers (some hs) = map run_handler hs

unfoldable pub notify_room_closed : State → String → State
unfolding run_handlers
notify_room_closed s room =
    send (run_handlers (get room s.room_closed_handlers))
      (record s { room_closed_handlers = remove room s.room_closed_handlers })

-- The part of `detachPeer` after the handlers have run.
unfoldable pub drop_record : State → String → Option PresenceRecord → State
drop_record s sid none = record s { records = remove sid s.records }
drop_record s sid (some r) = elim (truthy (some r.room_id)) [
  | none ↦ record s { records = remove sid s.records }
  | some room ↦
      send (socket_leave sid room ∷ [])
        (record s { records = remove sid s.records; rooms = modify room (discard sid) s.rooms })
]

unfoldable pub detach_peer : State → String → State
unfolding run_handlers drop_record
detach_peer s sid =
    drop_record
      (send (run_handlers (get sid s.peer_detach_handlers))
        (record s { peer_detach_handlers = remove sid s.peer_detach_handlers }))
      sid (get sid s.records)

-- The lifetime of a room ends.
unfoldable pub forget_room : State → String → State
forget_room s room = record s {
  rooms = remove room s.rooms;
  room_owners = remove room s.room_owners;
  room_locks = remove room s.room_locks;
  kicked_users = remove room s.kicked_users;
  slug_to_room_id = remove_all (slugs_of s room) s.slug_to_room_id;
  room_id_to_slugs = remove room s.room_id_to_slugs;
}

unfoldable pub cleanup_room_if_empty : State → String → State
cleanup_room_if_empty s room =
    if nonempty (list_peer_sockets s room)
    then s
    else if room_has_held_seat s room
    then s
    else forget_room (notify_room_closed s room) room

-- What is said of a departure, once the peer is detached.
unfoldable pub announce_left : State → String → Participant → Option String → LeaveReason → State
announce_left s room p except reason =
    send (webhook (State.Webhook.participant_left room (find_room_slug s room) p reason) ∷ [])
      (broadcast_to_room s room (State.peer_left p.id) except)

unfoldable pub depart : State → String → LeaveReason → State
depart s sid reason = elim (get sid s.records) [
  | none ↦ s
  | some r ↦ elim (truthy (some r.room_id)) [
    | none ↦ s
    | some room ↦
        cleanup_room_if_empty
          (announce_left (detach_peer s sid) room (participant_of r) (some sid) reason) room
  ]
]
