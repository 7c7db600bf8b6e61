-- ===== src/Presence/Moves.antt =====
-- A socket that joins a second room without leaving the first, and slugs that two rooms claim.
use zvonok.Prelude.{
  String, ◌≡◌, ◌≢◌, ◌∙◌, ap, inl, inr, refl, true, false, Option, some, arith, Option-cases, truthy,
  get, put, get-put, set_at, add, has_at, has_at-add,
}
use zvonok.Presence.State.{State, PresenceRecord}
use zvonok.Presence.Rooms.{room_id_of, list_peer_sockets}
use zvonok.Presence.Join.{is_kicked, admit, register, restore_seat, announce_join, seat_key}
use zvonok.Presence.Invariant.{IsValid}

restore_seat_maps :
    (s : State) (room key : String)
    → ((restore_seat s room key).records ≡ s.records) × ((restore_seat s room key).rooms ≡ s.rooms)
unfolding restore_seat
restore_seat_maps s room key = ground arith

register_maps :
    (s : State) (sid : String) (r : PresenceRecord) (slug : Option String)
    → ((register s sid r slug).records ≡ put r.socket_id r s.records)
      × ((register s sid r slug).rooms
          ≡ put r.room_id (add r.socket_id (list_peer_sockets s r.room_id)) s.rooms)
unfolding register
register_maps s sid r slug = elim (Option-cases (truthy slug)) [
  | inl e ↦ rw (register, e) (refl, refl)
  | inr (x, e) ↦ rw (register, e) (refl, refl)
]

-- What an admission does to the records and the members.
pub admit_maps :
    (s : State) (sid : String) (slug : Option String) (r : PresenceRecord)
    → is_kicked s r.room_id r.user_id ≡ false
    → ((admit s sid slug r).0.records ≡ put r.socket_id r s.records)
      × ((admit s sid slug r).0.rooms
          ≡ put r.room_id (add r.socket_id (list_peer_sockets s r.room_id)) s.rooms)
unfolding admit announce_join
admit_maps s sid slug r k =
    let t = restore_seat s r.room_id (seat_key r.room_id r.user_id) in
    let (records, rooms) = register_maps t sid r slug in
    let (records', rooms') = restore_seat_maps s r.room_id (seat_key r.room_id r.user_id) in
    rw (admit, k)
      (
        records ∙ ap (put r.socket_id r) records',
        rooms ∙ ap (λ m. put r.room_id (add r.socket_id (set_at m r.room_id)) m) rooms',
      )

-- A socket that is admitted to a second room stays a member of the first, although its record now
-- names the second: the maps no longer agree.
pub second_room_stays_member :
    (s : State) (sid : String) (slug : Option String) (r q : PresenceRecord)
    → IsValid s
    → get r.socket_id s.records ≡ some q
    → q.room_id ≢ r.room_id
    → is_kicked s r.room_id r.user_id ≡ false
    → (has_at r.socket_id (admit s sid slug r).0.rooms q.room_id ≡ true)
      × (room_id_of (admit s sid slug r).0 r.socket_id ≡ some r.room_id)
      × (¬ IsValid (admit s sid slug r).0)
second_room_stays_member s sid slug r q v e ne k =
    let (records, rooms) = admit_maps s sid slug r k in
    let stays : has_at r.socket_id (admit s sid slug r).0.rooms q.room_id ≡ true =
      ap (λ m. has_at r.socket_id m q.room_id) rooms
      ∙ ground (
        arith,
        v.0.tracked r.socket_id q e,
        has_at-add r.socket_id q.room_id s.rooms r.room_id r.socket_id,
      ) in
    let there : get r.socket_id (admit s sid slug r).0.records ≡ some r =
      ap (get r.socket_id) records ∙ ground (arith, get-put r.socket_id r.socket_id r s.records) in
    (
      stays,
      ground (arith, there),
      λ w. ground (arith, there, w.0.member r.socket_id q.room_id stays),
    )
