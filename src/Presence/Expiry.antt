-- ===== src/Presence/Expiry.antt =====
-- The lapse of a grace seat.
use zvonok.Prelude.{
  String, ◌≡◌, ◌⊎◌, ◌∙◌, sym, inl, inr, refl, true, false, none, some, List, [], ◌∷◌, ◌++◌, arith,
  Bool-cases, get, remove, get-remove, is_some,
}
use mathlib.Core.List.{append_assoc, append-nil}
use zvonok.Presence.State.{
  State, HeldSeat, Effect, webhook, peer_left, disconnect, participant_left,
}
use zvonok.Presence.Rooms.{
  nonempty, list_peer_sockets, room_has_held_seat, run_handlers, fan_out_effects, find_room_slug,
  notify_room_closed, forget_room, cleanup_room_if_empty, announce_left, unindex,
}
use zvonok.Presence.Control.{expire_held_seat}

-- The state without the seat.
abbrev unseated : State → String → HeldSeat → State
unseated s key seat = record s {
  held_seats = remove key s.held_seats;
  held_seats_by_room = unindex seat.room_id key s.held_seats_by_room;
}

cleanup_effects :
    (s : State) (room : String)
    → ((cleanup_room_if_empty s room).held_seats ≡ s.held_seats)
      × ((hs : List Effect) × (((hs ≡ []) ⊎ (hs ≡ run_handlers (get room s.room_closed_handlers)))
            × ((cleanup_room_if_empty s room).effects ≡ s.effects ++ hs)))
unfolding cleanup_room_if_empty notify_room_closed forget_room
cleanup_effects s room = elim (Bool-cases (nonempty (list_peer_sockets s room))) [
  | inl e ↦ rw (cleanup_room_if_empty, e) (refl, ([], (inl refl, sym (append-nil _))))
  | inr e ↦ elim (Bool-cases (room_has_held_seat s room)) [
    | inl f ↦ rw (cleanup_room_if_empty, e, f) (refl, ([], (inl refl, sym (append-nil _))))
    | inr f ↦
        rw (cleanup_room_if_empty, e, f)
          (refl, (run_handlers (get room s.room_closed_handlers), (inr refl, refl)))
  ]
]

module _ (s : State) (key : String) (seat : HeldSeat) (e : get key s.held_seats ≡ some seat) where
  expire_tracked :
      is_some (get seat.room_id s.rooms) ≡ true
      → expire_held_seat s key
        ≡ cleanup_room_if_empty
            (announce_left (unseated s key seat) seat.room_id seat.participant none disconnect)
            seat.room_id
  unfolding expire_held_seat
  expire_tracked f = rw (expire_held_seat, e, f)

  expire_untracked :
      is_some (get seat.room_id s.rooms) ≡ false → expire_held_seat s key ≡ unseated s key seat
  unfolding expire_held_seat
  expire_untracked f = rw (expire_held_seat, e, f)

  expired_seat : get key (remove key s.held_seats) ≡ none
  expired_seat = ground (arith, get-remove key key s.held_seats)

-- When the grace window of a seat lapses the seat is gone. In a room that is still tracked the
-- departure is then announced to the members and reported once, as a disconnect, and after that at
-- most the handlers of the room's closing run; in any other room nothing is sent.
pub expire_announces :
    (s : State) (key : String) (seat : HeldSeat)
    → get key s.held_seats ≡ some seat
    → (get key (expire_held_seat s key).held_seats ≡ none)
      × (((is_some (get seat.room_id s.rooms) ≡ false)
            × ((expire_held_seat s key).effects ≡ s.effects))
          ⊎ ((is_some (get seat.room_id s.rooms) ≡ true)
              × ((hs : List Effect) × ((hs ≡ [])
                    ⊎ (hs ≡ run_handlers (get seat.room_id s.room_closed_handlers)))
                  × ((expire_held_seat s key).effects
                      ≡ s.effects
                        ++ (fan_out_effects s seat.room_id (peer_left seat.participant.id) none
                            ++ webhook (
                                participant_left seat.room_id
                                  (find_room_slug s seat.room_id)
                                  seat.participant
                                  disconnect)
                              ∷ hs)))))
unfolding announce_left fan_out_effects find_room_slug
expire_announces s key seat e =
    let left = announce_left (unseated s key seat) seat.room_id seat.participant none disconnect in
    let (kept, (hs, (which, effects))) = cleanup_effects left seat.room_id in
    elim (Bool-cases (is_some (get seat.room_id s.rooms))) [
      | inl f ↦
          let same = expire_tracked s key seat e f in
          (
            rw (same, kept) (expired_seat s key seat e),
            inr (f, (hs, which, rw same (effects ∙ simp append_assoc))),
          )
      | inr f ↦
          let same = expire_untracked s key seat e f in
          (rw same (expired_seat s key seat e), inl (f, rw same))
    ]
