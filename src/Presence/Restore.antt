-- ===== src/Presence/Restore.antt =====
-- What a join that finds a held seat does.
use zvonok.Prelude.{
  String, ◌≡◌, ◌∙◌, ap, inl, inr, refl, Bool, true, false, Option, none, some, List, [], ◌∷◌, ◌++◌,
  arith, Option-cases, get, remove, get-remove, set_at, truthy, not, ◌&&◌,
}
use mathlib.Core.List.{append_assoc, append-nil}
use zvonok.Presence.State.{
  State, PresenceRecord, HeldSeat, Participant, Effect, clear_timer, socket_join, webhook,
  room_started, send,
}
use zvonok.Presence.Rooms.{
  nonempty, list_peer_sockets, room_has_held_seat, detach_peer, drop_record, index_held_seat,
  unindex,
}
use zvonok.Presence.Join.{
  seat_key, is_kicked, restore_seat, register, announce_join, tell_existing, others, admit,
  PresenceJoinOutcome,
}
use zvonok.Presence.Control.{enter_seat, hold_seat}
use zvonok.Presence.Members.{truthy_room}
use zvonok.Presence.Invariant.{IsValid}
use zvonok.Presence.Steps.{detached}

-- The state in which a seat is held for the socket's participant.
abbrev pub seated : State → String → PresenceRecord → State
seated s sid r =
    let key = seat_key r.room_id r.user_id in
    index_held_seat (detached (enter_seat s key r.room_id r) sid r) r.room_id key

pub hold_seat-seated :
    (s : State) (sid : String) (r : PresenceRecord)
    → IsValid s
    → get sid s.records ≡ some r
    → hold_seat s sid ≡ seated s sid r
unfolding hold_seat enter_seat detach_peer index_held_seat
hold_seat-seated s sid r v e = rw (
  hold_seat,
  e,
  truthy_room (v.0.id sid r e),
  detach_peer,
  e,
  drop_record,
  truthy_room (v.0.id sid r e),
)

-- The state in which the seat is given back, before the participant is registered.
abbrev pub given_back : State → String → String → HeldSeat → State
given_back s room key seat = record s {
  held_seats = remove key s.held_seats;
  held_seats_by_room = unindex room key s.held_seats_by_room;
  effects = s.effects ++ clear_timer seat.timer ∷ [];
}

restore_seat-given_back :
    (s : State) (room key : String) (seat : HeldSeat)
    → get key s.held_seats ≡ some seat
    → restore_seat s room key ≡ given_back s room key seat
unfolding restore_seat
restore_seat-given_back s room key seat e = rw (restore_seat, e)

register_effects :
    (s : State) (sid : String) (r : PresenceRecord) (slug : Option String)
    → ((register s sid r slug).effects ≡ s.effects ++ socket_join sid r.room_id ∷ [])
      × ((register s sid r slug).held_seats ≡ s.held_seats)
unfolding register
register_effects s sid r slug = elim (Option-cases (truthy slug)) [
  | inl e ↦ rw (register, e) (refl, refl)
  | inr (x, e) ↦ rw (register, e) (refl, refl)
]

-- No member is in the room and no seat is left in it, the key's own not counted.
abbrev pub alone : State → String → String → Bool
alone s room key =
    not (nonempty (list_peer_sockets s room))
    && not (nonempty (set_at (unindex room key s.held_seats_by_room) room))

abbrev pub restart : Bool → String → Option String → List Effect
restart true room slug = webhook (room_started room slug) ∷ []
restart false room slug = []

announce_join_restored :
    (s : State) (sid : String) (r : PresenceRecord) (slug : Option String) (first : Bool)
    → (ps : List Participant) × (announce_join s sid r slug first true
        ≡ send (tell_existing sid ps ++ restart first r.room_id slug) s)
unfolding announce_join
announce_join_restored s sid r slug true =
    (others s.records sid (list_peer_sockets s r.room_id), rw append-nil)
announce_join_restored s sid r slug false =
    (others s.records sid (list_peer_sockets s r.room_id), rw append-nil)

module _ (s : State) (sock : String) (slug : Option String) (p : PresenceRecord)
    (seat : HeldSeat) where
  abbrev pub key_of : String
  key_of = seat_key p.room_id p.user_id

  abbrev back : State
  back = given_back s p.room_id key_of seat

  admit_given_back :
      is_kicked s p.room_id p.user_id ≡ false
      → get key_of s.held_seats ≡ some seat
      → admit s sock slug p ≡ (
        announce_join (register back sock p slug) sock p slug (alone s p.room_id key_of) true,
        some (record { peer = p; restored_seat = true }),
      )
  unfolding admit room_has_held_seat
  admit_given_back k e = rw (admit, k, e, restore_seat-given_back s p.room_id key_of seat e)

  -- An admission that finds a held seat announces nothing to the room, and sends no webhook but,
  -- where the room has nobody else, that of its start.
  pub admit_restored :
      is_kicked s p.room_id p.user_id ≡ false
      → get key_of s.held_seats ≡ some seat
      → ((admit s sock slug p).1 ≡ some (record { peer = p; restored_seat = true }))
        × (get key_of (admit s sock slug p).0.held_seats ≡ none)
        × ((ps : List Participant) × ((admit s sock slug p).0.effects
              ≡ s.effects
                ++ (clear_timer seat.timer ∷ socket_join sock p.room_id ∷ tell_existing sock ps)
                ++ restart (alone s p.room_id key_of) p.room_id slug))
  admit_restored k e =
      let whole = admit_given_back k e in
      let (effects, seats) = register_effects back sock p slug in
      let (ps, told) =
        announce_join_restored (register back sock p slug) sock p slug (alone s p.room_id key_of) in
      (
        ap (λ (x : State × Option PresenceJoinOutcome). x.1) whole,
        ap (λ (x : State × Option PresenceJoinOutcome). get key_of x.0.held_seats) whole
            ∙ ap (λ (x : State). get key_of x.held_seats) told
            ∙ ap (get key_of) seats
            ∙ ground (arith, get-remove key_of key_of s.held_seats),
        (
          ps,
          ap (λ (x : State × Option PresenceJoinOutcome). x.0.effects) whole
              ∙ ap (λ (x : State). x.effects) told
              ∙ ap
                  (λ es.
                    es
                    ++ (tell_existing sock ps ++ restart (alone s p.room_id key_of) p.room_id slug))
                  effects
              ∙ simp append_assoc,
        ),
      )
