-- ===== src/Presence/Invariant.antt =====
-- Every operation of `RoomPresenceService` keeps its maps in agreement.
use zvonok.Prelude.{
  String, ◌≡◌, inl, inr, refl, Bool, false, some, List, [], ◌∷◌, arith, if_pos, if_neg, str_dec,
  Bool-cases, Option-cases, get, remove, has, is_some,
}
use zvonok.Capabilities.{includes, remove_participants}
use zvonok.Presence.State.{State, PresenceRecord, LeaveReason, init, kick as by_kick, room_end}
use zvonok.Presence.Rooms.{
  list_peer_sockets, nonempty, notify_room_closed, unindex, drop_record, detach_peer, forget_room,
  room_has_held_seat, cleanup_room_if_empty, announce_left, depart, index_held_seat,
}
use zvonok.Presence.Control.{
  SfuHostActionAck, ok, not_found, enter_seat, find_user, hold_seat, expire_held_seat,
  remove_target, requester_of, kick_in, kick, set_lock, lock_room, end_lifetime, depart_all,
  end_room,
}
use zvonok.Presence.Members.{IsMembers, truthy_room, drop-IsMembers, forget-IsMembers}
use zvonok.Presence.Seats.{
  IsSeats, IsSlugs, enter-IsSeats, drop-IsSeats, lapse-IsSeats, forget-IsSlugs,
}

abbrev pub IsValid : State → Type 0
IsValid s =
    IsMembers s.records s.rooms
    × IsSeats s.held_seats s.held_seats_by_room
    × IsSlugs s.slug_to_room_id s.room_id_to_slugs

pub init-IsValid : IsValid init
unfolding get has
init-IsValid = (
  record {
    member = λ sid room h. cc;
    tracked = λ sid r h. cc;
    own = λ sid r h. cc;
    id = λ sid r h. cc;
  },
  record { keyed = λ k t h. cc; indexed = λ k t h. cc; seated = λ k room h. cc; id = λ k t h. cc },
  record { listed = λ slug room h. cc },
)

pub detach_peer-IsValid :
    (s : State) (sid : String) (r : PresenceRecord)
    → IsValid s
    → get sid s.records ≡ some r
    → IsValid (detach_peer s sid)
unfolding detach_peer
detach_peer-IsValid s sid r v e =
    rw (e, drop_record, truthy_room (v.0.id sid r e)) (drop-IsMembers v.0 sid r e, v.1, v.2)

nil_of_nonempty : (xs : List String) → nonempty xs ≡ false → xs ≡ []
nil_of_nonempty [] h = refl
nil_of_nonempty (x ∷ xs) h = cc

pub cleanup-IsValid :
    (s : State) (room : String) → IsValid s → IsValid (cleanup_room_if_empty s room)
unfolding cleanup_room_if_empty notify_room_closed forget_room
cleanup-IsValid s room v = elim (Bool-cases (nonempty (list_peer_sockets s room))) [
  | inl e ↦ rw (cleanup_room_if_empty, e) v
  | inr e ↦ elim (Bool-cases (room_has_held_seat s room)) [
    | inl f ↦ rw (cleanup_room_if_empty, e, f) v
    | inr f ↦
        rw (cleanup_room_if_empty, e, f)
          (forget-IsMembers v.0 room (nil_of_nonempty _ e), v.1, forget-IsSlugs v.2 room)
  ]
]

pub depart-IsValid :
    (s : State) (sid : String) (reason : LeaveReason) → IsValid s → IsValid (depart s sid reason)
unfolding depart announce_left
depart-IsValid s sid reason v = elim (Option-cases (get sid s.records)) [
  | inl e ↦ rw (depart, e) v
  | inr (r, e) ↦
      rw (depart, e, truthy_room (v.0.id sid r e))
        (cleanup-IsValid _ r.room_id (detach_peer-IsValid s sid r v e))
]

pub hold_seat-IsValid : (s : State) (sid : String) → IsValid s → IsValid (hold_seat s sid)
unfolding hold_seat index_held_seat enter_seat detach_peer
hold_seat-IsValid s sid v = elim (Option-cases (get sid s.records)) [
  | inl e ↦ rw (hold_seat, e) v
  | inr (r, e) ↦
      let w = v.0.id sid r e in
      rw (hold_seat, e, truthy_room w, detach_peer, e, drop_record, truthy_room w)
        (drop-IsMembers v.0 sid r e, enter-IsSeats v.1 _ _ refl w, v.2)
]

pub expire-IsValid : (s : State) (key : String) → IsValid s → IsValid (expire_held_seat s key)
unfolding expire_held_seat announce_left
expire-IsValid s key v = elim (Option-cases (get key s.held_seats)) [
  | inl e ↦ rw (expire_held_seat, e) v
  | inr (seat, e) ↦
      let kept : IsMembers s.records s.rooms
          × IsSeats (remove key s.held_seats) (unindex seat.room_id key s.held_seats_by_room)
          × IsSlugs s.slug_to_room_id s.room_id_to_slugs =
        (v.0, drop-IsSeats v.1 key seat e, v.2) in
      elim (Bool-cases (is_some (get seat.room_id s.rooms))) [
        | inl f ↦ rw (expire_held_seat, e, f) (cleanup-IsValid _ seat.room_id kept)
        | inr f ↦ rw (expire_held_seat, e, f) kept
      ]
]

remove_target-IsValid :
    (s : State) (room : String) (r : PresenceRecord) → IsValid s → IsValid (remove_target s room r)
unfolding remove_target
remove_target-IsValid s room r v = depart-IsValid _ r.socket_id by_kick v

kick_in-IsValid :
    (s : State) (sid room target : String) → IsValid s → IsValid (kick_in s sid room target).0
unfolding kick_in
kick_in-IsValid s sid room target v =
    elim (Option-cases (find_user s.records target (list_peer_sockets s room))) [
      | inl e ↦ rw (kick_in, e) v
      | inr (t, e) ↦ elim (str_dec t.socket_id sid) [
        | yes p ↦
            rw
              (
                kick_in,
                e,
                if_pos {C = State × SfuHostActionAck} _ p (s, not_found target)
                    (remove_target s room t, ok),
              )
              v
        | no p ↦
            rw
              (
                kick_in,
                e,
                if_neg {C = State × SfuHostActionAck} _ p (s, not_found target)
                    (remove_target s room t, ok),
              )
              (remove_target-IsValid s room t v)
      ]
    ]

pub kick-IsValid : (s : State) (sid target : String) → IsValid s → IsValid (kick s sid target).0
unfolding kick
kick-IsValid s sid target v = elim (Option-cases (requester_of s sid)) [
  | inl e ↦ rw (kick, e) v
  | inr ((r, room), e) ↦ elim (Bool-cases (includes r.capabilities remove_participants)) [
    | inl f ↦ rw (kick, e, f) (kick_in-IsValid s sid room target v)
    | inr f ↦ rw (kick, e, f) v
  ]
]

pub lock_room-IsValid :
    (s : State) (sid : String) (locked : Bool) → IsValid s → IsValid (lock_room s sid locked).0
unfolding lock_room set_lock
lock_room-IsValid s sid locked v = ground arith

depart_all-IsValid :
    (s : State) (sids : List String) (reason : LeaveReason)
    → IsValid s
    → IsValid (depart_all s sids reason)
unfolding depart_all
depart_all-IsValid s [] reason v = v
depart_all-IsValid s (sid ∷ sids) reason v =
    depart_all-IsValid (depart s sid reason) sids reason (depart-IsValid s sid reason v)

pub end_room-IsValid : (s : State) (room : String) → IsValid s → IsValid (end_room s room)
unfolding end_room end_lifetime notify_room_closed
end_room-IsValid s room v =
    let lapsed : IsValid (end_lifetime s room) = (v.0, lapse-IsSeats v.1 room, v.2) in
    elim (Bool-cases (nonempty (list_peer_sockets s room))) [
      | inl e ↦ rw (end_room, e) (depart_all-IsValid _ (list_peer_sockets s room) room_end lapsed)
      | inr e ↦ rw (end_room, e) lapsed
    ]
