-- ===== src/Presence/Seats.antt =====
-- The held seats and their index by room say the same, and so do the slugs and theirs: lemmas on
-- the maps alone.
use zvonok.Prelude.{
  String, ◌≡◌, sym, subst, inl, inr, Option-cases, true, Option, none, some, List, arith, Map, get,
  put, remove, remove_all, set_at, get-put, get-remove, get-remove_all, add, has_at, has_at-add,
  has_at-remove, with_colon_inj,
}
use zvonok.Presence.State.{HeldSeat}
use zvonok.Presence.Rooms.{unindex, has_at-unindex}
use zvonok.Presence.Join.{seat_key}
use zvonok.Presence.Members.{IsRoomId}

abbrev pub seat_room : Option HeldSeat → Option String
seat_room none = none
seat_room (some seat) = some seat.room_id

pub record IsSeats (seats : Map HeldSeat) (by_room : Map (List String)) : Type 0 where
  pub keyed :
      (key : String) (seat : HeldSeat)
      → get key seats ≡ some seat
      → key ≡ seat_key seat.room_id seat.participant.id
  pub indexed :
      (key : String) (seat : HeldSeat)
      → get key seats ≡ some seat
      → has_at key by_room seat.room_id ≡ true
  pub seated :
      (key room : String) → has_at key by_room room ≡ true → seat_room (get key seats) ≡ some room
  pub id : (key : String) (seat : HeldSeat) → get key seats ≡ some seat → IsRoomId seat.room_id

module _ {seats : Map HeldSeat} {by_room : Map (List String)} (v : IsSeats seats by_room) where
  -- A seat under the key of a room is a seat of that room.
  pub room_of_key :
      (room user_id : String) (seat : HeldSeat)
      → IsRoomId room
      → get (seat_key room user_id) seats ≡ some seat
      → seat.room_id ≡ room
  room_of_key room user_id seat w e =
      with_colon_inj seat.room_id room seat.participant.id user_id (v.id _ seat e).plain w.plain
        (sym (v.keyed _ seat e))

  -- A key stands in the index of its own room only.
  pub room_of_index :
      (room user_id j : String)
      → IsRoomId room
      → has_at (seat_key room user_id) by_room j ≡ true
      → j ≡ room
  room_of_index room user_id j w h =
      let key = seat_key room user_id in
      elim (Option-cases (get key seats)) [
        | inl e ↦ ground (arith, e, v.seated key j)
        | inr (t, e) ↦ ground (arith, e, v.seated key j, room_of_key room user_id t w)
      ]

  pub enter-IsSeats :
      (key : String) (seat : HeldSeat)
      → key ≡ seat_key seat.room_id seat.participant.id
      → IsRoomId seat.room_id
      → IsSeats
          (put key seat seats)
          (put seat.room_id (add key (set_at by_room seat.room_id)) by_room)
  enter-IsSeats key seat e w = record {
    keyed = λ k t h. ground (arith, v.keyed k t, get-put k key seat seats);
    indexed = λ k t h. ground (
      arith,
      v.indexed k t,
      get-put k key seat seats,
      has_at-add k t.room_id by_room seat.room_id key,
    );
    seated = λ k room h. ground (
      arith,
      v.seated k room,
      room_of_index seat.room_id seat.participant.id room w,
      get-put k key seat seats,
      has_at-add k room by_room seat.room_id key,
    );
    id = λ k t h. ground (arith, v.id k t, w.filled, w.plain, get-put k key seat seats);
  }

  pub drop-IsSeats :
      (key : String) (seat : HeldSeat)
      → get key seats ≡ some seat
      → IsSeats (remove key seats) (unindex seat.room_id key by_room)
  drop-IsSeats key seat e = record {
    keyed = λ k t h. v.keyed k t (ground (arith, get-remove k key seats));
    indexed = λ k t h. ground (
      arith,
      v.indexed k t,
      get-remove k key seats,
      has_at-unindex k t.room_id seat.room_id key by_room,
    );
    seated = λ k room h. ground (
      arith,
      v.seated k room,
      get-remove k key seats,
      has_at-unindex k room seat.room_id key by_room,
    );
    id = λ k t h. v.id k t (ground (arith, get-remove k key seats));
  }

  pub restore-IsSeats :
      (room user_id : String) (seat : HeldSeat)
      → IsRoomId room
      → get (seat_key room user_id) seats ≡ some seat
      → IsSeats
          (remove (seat_key room user_id) seats)
          (unindex room (seat_key room user_id) by_room)
  restore-IsSeats room user_id seat w e =
      let key = seat_key room user_id in
      subst (λ k. IsSeats (remove key seats) (unindex k key by_room))
        (room_of_key room user_id seat w e) (drop-IsSeats key seat e)

  pub lapse-IsSeats :
      (room : String) → IsSeats (remove_all (set_at by_room room) seats) (remove room by_room)
  lapse-IsSeats room = record {
    keyed = λ k t h. v.keyed k t (ground (arith, get-remove_all k (set_at by_room room) seats));
    indexed = λ k t h. ground (
      arith,
      v.indexed k t,
      get-remove_all k (set_at by_room room) seats,
      has_at-remove k t.room_id by_room room,
    );
    seated = λ k j h. ground (
      arith,
      v.seated k j,
      v.seated k room,
      get-remove_all k (set_at by_room room) seats,
      has_at-remove k j by_room room,
    );
    id = λ k t h. v.id k t (ground (arith, get-remove_all k (set_at by_room room) seats));
  }

pub record IsSlugs (to_room : Map String) (to_slugs : Map (List String)) : Type 0 where
  pub listed :
      (slug room : String) → get slug to_room ≡ some room → has_at slug to_slugs room ≡ true

module _ {to_room : Map String} {to_slugs : Map (List String)} (v : IsSlugs to_room to_slugs) where
  pub put-IsSlugs :
      (slug room : String)
      → IsSlugs (put slug room to_room) (put room (add slug (set_at to_slugs room)) to_slugs)
  put-IsSlugs slug room = record {
    listed = λ s r h.
        ground
          (arith, v.listed s r, get-put s slug room to_room, has_at-add s r to_slugs room slug);
  }

  pub forget-IsSlugs :
      (room : String) → IsSlugs (remove_all (set_at to_slugs room) to_room) (remove room to_slugs)
  forget-IsSlugs room = record {
    listed = λ s r h. ground (
      arith,
      v.listed s r,
      get-remove_all s (set_at to_slugs room) to_room,
      has_at-remove s r to_slugs room,
    );
  }
