-- ===== src/Presence/Grace.antt =====
-- The grace window: a dropped participant's seat, and its return.
use zvonok.Prelude.{
  ℕ, String, ◌≡◌, ◌∙◌, ap, subst, refl, true, false, Option, none, some, List, [], ◌∷◌, ◌++◌, arith,
  get, get-put, set_at-put, set_at-modify, modify, discard, set_at, add,
}
use zvonok.Presence.State.{
  State, PresenceRecord, HeldSeat, Participant, Effect, clear_timer, socket_join, webhook,
  room_started, participant_of,
}
use zvonok.Presence.Rooms.{list_peer_sockets, index_held_seat, seat_keys, set_at-unindex}
use zvonok.Presence.Join.{seat_key, is_kicked, tell_existing, admit}
use zvonok.Presence.Control.{enter_seat, hold_seat}
use zvonok.Presence.Invariant.{IsValid}
use zvonok.Presence.Restore.{hold_seat-seated, alone, restart, admit_restored}

abbrev seat_of : State → PresenceRecord → HeldSeat
seat_of s r = record {
  room_id = r.room_id;
  socket_id = r.socket_id;
  participant = participant_of r;
  timer = s.next_timer;
}

module _ (s : State) (sid : String) (r : PresenceRecord) (v : IsValid s)
    (e : get sid s.records ≡ some r) where
  hold_seat_seat :
      (get (seat_key r.room_id r.user_id) (hold_seat s sid).held_seats ≡ some (seat_of s r))
      × ((hold_seat s sid).kicked_users ≡ s.kicked_users)
      × ((room : String)
          → list_peer_sockets (hold_seat s sid) room
            ≡ set_at (modify r.room_id (discard sid) s.rooms) room)
  unfolding enter_seat index_held_seat
  hold_seat_seat =
      let same = hold_seat-seated s sid r v e in
      let key = seat_key r.room_id r.user_id in
      (
        ap (λ (t : State). get key t.held_seats) same
            ∙ ground (arith, get-put key key (seat_of s r) s.held_seats),
        ap (λ (t : State). t.kicked_users) same,
        λ room. ap (λ (t : State). list_peer_sockets t room) same,
      )

  -- The room after the drop: the socket is out of it, and the seat's key is in its index.
  members-hold_seat :
      list_peer_sockets (hold_seat s sid) r.room_id ≡ discard sid (list_peer_sockets s r.room_id)
  unfolding discard
  members-hold_seat =
      hold_seat_seat.2 r.room_id
      ∙ ground (arith, set_at-modify r.room_id r.room_id (discard sid) s.rooms refl)

  seats-hold_seat :
      seat_keys (hold_seat s sid) r.room_id
      ≡ add (seat_key r.room_id r.user_id) (seat_keys s r.room_id)
  unfolding enter_seat index_held_seat
  seats-hold_seat =
      let key = seat_key r.room_id r.user_id in
      ap (λ (t : State). seat_keys t r.room_id) (hold_seat-seated s sid r v e)
      ∙ ground (
        arith,
        set_at-put r.room_id r.room_id (add key (seat_keys s r.room_id)) s.held_seats_by_room,
      )

  module _ (sock : String) (slug : Option String) (p : PresenceRecord) (at : p.room_id ≡ r.room_id)
      (who : p.user_id ≡ r.user_id) where
    rejoin :
        is_kicked s p.room_id p.user_id ≡ false
        → ((admit (hold_seat s sid) sock slug p).1
            ≡ some (record { peer = p; restored_seat = true }))
          × (get (seat_key p.room_id p.user_id) (admit (hold_seat s sid) sock slug p).0.held_seats
              ≡ none)
          × ((ps : List Participant) × ((admit (hold_seat s sid) sock slug p).0.effects
                ≡ (hold_seat s sid).effects
                  ++ (clear_timer s.next_timer ∷ socket_join sock p.room_id ∷ tell_existing sock ps)
                  ++ restart
                      (alone (hold_seat s sid) p.room_id (seat_key p.room_id p.user_id))
                      p.room_id
                      slug))
    rejoin k =
        let (there, kicked, members) = hold_seat_seat in
        admit_restored (hold_seat s sid) sock slug p (seat_of s r) (rw kicked k)
          (rw (at, who) there)

    alone_sole :
        list_peer_sockets s r.room_id ≡ sid ∷ []
        → seat_keys s r.room_id ≡ []
        → alone (hold_seat s sid) p.room_id (seat_key p.room_id p.user_id) ≡ true
    unfolding discard add
    alone_sole m k =
        rw
          (
            at,
            who,
            set_at-unindex r.room_id (seat_key r.room_id r.user_id)
                (hold_seat s sid).held_seats_by_room,
            members-hold_seat,
            seats-hold_seat,
            m,
            k,
          )
          (ground arith)

-- The admission of `p` in `s` restores its seat, and sends these effects behind the first two.
abbrev pub Restores : State → String → Option String → PresenceRecord → ℕ → List Effect → Type 0
Restores s sock slug p timer more =
    ((admit s sock slug p).1 ≡ some (record { peer = p; restored_seat = true }))
    × (get (seat_key p.room_id p.user_id) (admit s sock slug p).0.held_seats ≡ none)
    × ((ps : List Participant) × ((admit s sock slug p).0.effects
          ≡ s.effects
            ++ (clear_timer timer ∷ socket_join sock p.room_id ∷ tell_existing sock ps)
            ++ more))

-- Where the dropped participant was the only one of its room, and no other seat is held there, its
-- restored join reports the start of the room a second time.
pub sole_rejoin_restarts :
    (s : State) (sid sock : String) (slug : Option String) (r p : PresenceRecord)
    → IsValid s
    → get sid s.records ≡ some r
    → p.room_id ≡ r.room_id
    → p.user_id ≡ r.user_id
    → is_kicked s p.room_id p.user_id ≡ false
    → list_peer_sockets s r.room_id ≡ sid ∷ []
    → seat_keys s r.room_id ≡ []
    → Restores
        (hold_seat s sid)
        sock
        slug
        p
        s.next_timer
        (webhook (room_started p.room_id slug) ∷ [])
sole_rejoin_restarts s sid sock slug r p v e at who k m seats =
    subst (λ b. Restores (hold_seat s sid) sock slug p s.next_timer (restart b p.room_id slug))
      (alone_sole s sid r v e sock slug p at who m seats) (rejoin s sid r v e sock slug p at who k)
