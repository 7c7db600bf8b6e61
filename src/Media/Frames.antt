-- ===== src/Media/Frames.antt =====
-- What an operation of the presence service leaves alone: the records and the departure handlers of the
-- other sockets.
use zvonok.Prelude.{
  String, ◌≡◌, ◌≢◌, inl, inr, ◌∙◌, refl, ap, false, Option, none, some, arith, Bool-cases,
  Option-cases, truthy, get, get-remove, is_some,
}
use zvonok.Presence.State.{State, PresenceRecord, LeaveReason, participant_of}
use zvonok.Presence.Rooms.{
  list_peer_sockets, nonempty, room_has_held_seat, notify_room_closed, drop_record, detach_peer,
  forget_room, cleanup_room_if_empty, announce_left, depart, index_held_seat,
}
use zvonok.Presence.Join.{seat_key, restore_seat, register, is_kicked, admit, announce_join}
use zvonok.Presence.Control.{enter_seat, hold_seat, expire_held_seat}

abbrev pub SameMaps : State → State → Type 0
SameMaps p q = (q.records ≡ p.records) × (q.peer_detach_handlers ≡ p.peer_detach_handlers)

-- The same for each socket but one.
abbrev pub Frames : String → State → State → Type 0
Frames sid p q =
    (x : String)
    → x ≢ sid
    → (get x q.records ≡ get x p.records)
      × (get x q.peer_detach_handlers ≡ get x p.peer_detach_handlers)

same-Frames : (sid : String) (p q r : State) → Frames sid p q → SameMaps q r → Frames sid p r
same-Frames sid p q r f (a, b) x ne = let (c, d) = f x ne in (ap (get x) a ∙ c, ap (get x) b ∙ d)

cleanup-SameMaps : (p : State) (room : String) → SameMaps p (cleanup_room_if_empty p room)
unfolding cleanup_room_if_empty forget_room notify_room_closed
cleanup-SameMaps p room = elim (Bool-cases (nonempty (list_peer_sockets p room))) [
  | inl e ↦ rw (cleanup_room_if_empty, e) (refl, refl)
  | inr e ↦ elim (Bool-cases (room_has_held_seat p room)) [
    | inl f ↦ rw (cleanup_room_if_empty, e, f) (refl, refl)
    | inr f ↦ rw (cleanup_room_if_empty, e, f) (refl, refl)
  ]
]

drop_record-Frames :
    (sid : String) (p : State) (o : Option PresenceRecord) → Frames sid p (drop_record p sid o)
unfolding drop_record
drop_record-Frames sid p none x ne = (ground (arith, get-remove x sid p.records, ne), refl)
drop_record-Frames sid p (some r) x ne = elim (Option-cases (truthy (some r.room_id))) [
  | inl e ↦ rw (drop_record, e) (ground (arith, get-remove x sid p.records, ne), refl)
  | inr (room, e) ↦ rw (drop_record, e) (ground (arith, get-remove x sid p.records, ne), refl)
]

detach_peer-Frames : (sid : String) (p : State) → Frames sid p (detach_peer p sid)
unfolding detach_peer
detach_peer-Frames sid p x ne =
    let (a, b) = drop_record-Frames sid _ (get sid p.records) x ne in
    (a, b ∙ ground (arith, get-remove x sid p.peer_detach_handlers, ne))

pub depart-Frames :
    (sid : String) (reason : LeaveReason) (p : State) → Frames sid p (depart p sid reason)
unfolding depart announce_left
depart-Frames sid reason p = elim (Option-cases (get sid p.records)) [
  | inl e ↦ rw (depart, e) (λ x ne. (refl, refl))
  | inr (r, e) ↦ elim (Option-cases (truthy (some r.room_id))) [
    | inl f ↦ rw (depart, e, f) (λ x ne. (refl, refl))
    | inr (room, f) ↦
        let told = announce_left (detach_peer p sid) room (participant_of r) (some sid) reason in
        rw (depart, e, f)
          (same-Frames sid p told (cleanup_room_if_empty told room) (detach_peer-Frames sid p)
            (cleanup-SameMaps told room))
  ]
]

pub hold_seat-Frames : (sid : String) (p : State) → Frames sid p (hold_seat p sid)
unfolding hold_seat index_held_seat enter_seat
hold_seat-Frames sid p = elim (Option-cases (get sid p.records)) [
  | inl e ↦ rw (hold_seat, e) (λ x ne. (refl, refl))
  | inr (r, e) ↦ elim (Option-cases (truthy (some r.room_id))) [
    | inl f ↦ rw (hold_seat, e, f) (λ x ne. (refl, refl))
    | inr (room, f) ↦
        rw (hold_seat, e, f)
          (detach_peer-Frames sid (enter_seat p (seat_key room r.user_id) room r))
  ]
]

pub expire-SameMaps : (key : String) (p : State) → SameMaps p (expire_held_seat p key)
unfolding expire_held_seat announce_left
expire-SameMaps key p = elim (Option-cases (get key p.held_seats)) [
  | inl e ↦ rw (expire_held_seat, e) (refl, refl)
  | inr (seat, e) ↦ elim (Bool-cases (is_some (get seat.room_id p.rooms))) [
    | inl f ↦ rw (expire_held_seat, e, f) (cleanup-SameMaps _ seat.room_id)
    | inr f ↦ rw (expire_held_seat, e, f) (refl, refl)
  ]
]

restore_seat-handlers :
    (p : State) (room key : String)
    → (restore_seat p room key).peer_detach_handlers ≡ p.peer_detach_handlers
unfolding restore_seat
restore_seat-handlers p room key = ground arith

register-handlers :
    (p : State) (sid : String) (r : PresenceRecord) (slug : Option String)
    → (register p sid r slug).peer_detach_handlers ≡ p.peer_detach_handlers
unfolding register
register-handlers p sid r slug = elim (Option-cases (truthy slug)) [
  | inl e ↦ rw (register, e) refl
  | inr (x, e) ↦ rw (register, e) refl
]

pub admit-handlers :
    (p : State) (sid : String) (slug : Option String) (r : PresenceRecord)
    → is_kicked p r.room_id r.user_id ≡ false
    → (admit p sid slug r).0.peer_detach_handlers ≡ p.peer_detach_handlers
unfolding admit announce_join
admit-handlers p sid slug r k =
    let t = restore_seat p r.room_id (seat_key r.room_id r.user_id) in
    rw (admit, k)
      (register-handlers t sid r slug
        ∙ restore_seat-handlers p r.room_id (seat_key r.room_id r.user_id))
