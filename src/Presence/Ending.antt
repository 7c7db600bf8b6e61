-- ===== src/Presence/Ending.antt =====
-- The end of a room: `endRoom` of apps/server/src/sfu/room-presence.service.ts.
use zvonok.Prelude.{
  String, ◌≡◌, ◌≢◌, ◌⊎◌, subst, inl, inr, refl, true, false, none, some, List, [], ◌∷◌, arith,
  Option-cases, get, get-remove, set_at-remove, has, has_at, has_at-modify, has_at-remove,
}
use zvonok.Presence.State.{State, PresenceRecord, HeldSeat, LeaveReason, room_end, send, webhook}
use zvonok.Presence.State
use zvonok.Presence.Rooms.{
  room_id_of, list_peer_sockets, seat_keys, nonempty, notify_room_closed, forget_room,
  cleanup_room_if_empty, announce_left, depart, broadcast_to_room, find_room_slug,
}
use zvonok.Presence.Control.{end_lifetime, depart_all, end_room}
use zvonok.Presence.Invariant.{IsValid, depart-IsValid, end_room-IsValid}
use zvonok.Presence.Seats.{seat_room, lapse-IsSeats}
use zvonok.Presence.Steps.{departed, depart-departed, depart_absent}

module _ (x room : String) where
  member-cleanup :
      (s : State) (k : String)
      → has_at x (cleanup_room_if_empty s k).rooms room ≡ true
      → has_at x s.rooms room ≡ true
  unfolding cleanup_room_if_empty forget_room notify_room_closed
  member-cleanup s k h = ground (arith, has_at-remove x room s.rooms k)

  -- Who is a member after a departure was one before, and is another.
  pub member-depart :
      (s : State) (sid : String) (reason : LeaveReason)
      → IsValid s
      → has_at x (depart s sid reason).rooms room ≡ true
      → (has_at x s.rooms room ≡ true) × (sid ≢ x)
  unfolding announce_left
  member-depart s sid reason v h = elim (Option-cases (get sid s.records)) [
    | inl e ↦
        let same =
          subst (λ (t : State). has_at x t.rooms room ≡ true) (depart_absent s sid reason e) h in
        ground (arith, e, same, v.0.member x room)
    | inr (r, e) ↦
        let same =
          subst (λ (t : State). has_at x t.rooms room ≡ true) (depart-departed s sid r v e reason)
            h in
        ground (
          arith,
          e,
          member-cleanup (departed s sid r reason) r.room_id same,
          v.0.member x room,
          has_at-modify x room s.rooms r.room_id sid,
        )
  ]

  member-depart_all :
      (s : State) (sids : List String) (reason : LeaveReason)
      → IsValid s
      → has_at x (depart_all s sids reason).rooms room ≡ true
      → (has_at x s.rooms room ≡ true) × (has x sids ≡ false)
  unfolding depart_all has
  member-depart_all s [] reason v h = (h, refl)
  member-depart_all s (sid ∷ sids) reason v h =
      let (m, out) =
        member-depart_all (depart s sid reason) sids reason (depart-IsValid s sid reason v) h in
      let (before, other) = member-depart s sid reason v m in ground arith

List-cases : (xs : List String) → (xs ≡ []) ⊎ (nonempty xs ≡ true)
List-cases [] = inl refl
List-cases (x ∷ xs) = inr refl

nil_of_has : (xs : List String) → ((x : String) → has x xs ≡ true → ⊥) → xs ≡ []
unfolding has
nil_of_has [] h = refl
nil_of_has (x ∷ xs) h = absurd (h x (ground arith))

-- What a room leaves in the maps besides its members.
abbrev Cleared : State → String → Type 0
Cleared s room =
    (get room s.room_locks ≡ none) × (get room s.kicked_users ≡ none) × (seat_keys s room ≡ [])

Cleared-cleanup :
    (s : State) (k room : String) → Cleared s room → Cleared (cleanup_room_if_empty s k) room
unfolding cleanup_room_if_empty forget_room notify_room_closed
Cleared-cleanup s k room c =
    ground (arith, get-remove room k s.room_locks, get-remove room k s.kicked_users)

Cleared-depart :
    (s : State) (sid room : String) (reason : LeaveReason)
    → IsValid s
    → Cleared s room
    → Cleared (depart s sid reason) room
unfolding announce_left
Cleared-depart s sid room reason v c = elim (Option-cases (get sid s.records)) [
  | inl e ↦ rw (depart_absent s sid reason e) c
  | inr (r, e) ↦
      rw (depart-departed s sid r v e reason)
        (Cleared-cleanup (departed s sid r reason) r.room_id room c)
]

Cleared-depart_all :
    (s : State) (sids : List String) (room : String) (reason : LeaveReason)
    → IsValid s
    → Cleared s room
    → Cleared (depart_all s sids reason) room
unfolding depart_all
Cleared-depart_all s [] room reason v c = c
Cleared-depart_all s (sid ∷ sids) room reason v c =
    Cleared-depart_all (depart s sid reason) sids room reason (depart-IsValid s sid reason v)
      (Cleared-depart s sid room reason v c)

Cleared-end_lifetime : (s : State) (room : String) → Cleared (end_lifetime s room) room
unfolding end_lifetime
Cleared-end_lifetime s room = ground (
  arith,
  get-remove room room s.room_locks,
  get-remove room room s.kicked_users,
  set_at-remove room room s.held_seats_by_room,
)

-- The state in which the departures of the members begin, and the last webhook.
abbrev closing : State → String → State
closing s room = notify_room_closed (end_lifetime s room) room

abbrev told : State → String → State
told s room = broadcast_to_room (closing s room) room (State.Event.room_ended room) none

abbrev ended : State → String → List State.Effect
ended s room = webhook (State.Webhook.room_ended room (find_room_slug (closing s room) room)) ∷ []

pub end_room_empty :
    (s : State) (room : String)
    → list_peer_sockets s room ≡ []
    → end_room s room ≡ send (ended s room) (closing s room)
unfolding end_room end_lifetime notify_room_closed
end_room_empty s room e = rw (end_room, e)

pub end_room_peers :
    (s : State) (room : String)
    → nonempty (list_peer_sockets s room) ≡ true
    → end_room s room
      ≡ send (ended s room) (depart_all (told s room) (list_peer_sockets s room) room_end)
unfolding end_room end_lifetime notify_room_closed
end_room_peers s room e = rw (end_room, e)

module _ (s : State) (room : String) (v : IsValid s) where
  told-IsValid : IsValid (told s room)
  unfolding end_lifetime notify_room_closed
  told-IsValid = (v.0, lapse-IsSeats v.1 room, v.2)

  list_peer_sockets-told : list_peer_sockets (told s room) room ≡ list_peer_sockets s room
  unfolding end_lifetime notify_room_closed
  list_peer_sockets-told = refl

  Cleared-told : Cleared (told s room) room
  unfolding notify_room_closed
  Cleared-told = Cleared-end_lifetime s room

  no_member : list_peer_sockets (end_room s room) room ≡ []
  unfolding end_lifetime notify_room_closed
  no_member = elim (List-cases (list_peer_sockets s room)) [
    | inl e ↦ rw (end_room_empty s room e) e
    | inr e ↦ rw (end_room_peers s room e) (
        nil_of_has _ λ x h.
          let (m, out) =
            member-depart_all x room (told s room) (list_peer_sockets s room) room_end told-IsValid
              h in
          ground arith)
  ]

  Cleared-end_room : Cleared (end_room s room) room
  unfolding notify_room_closed
  Cleared-end_room = elim (List-cases (list_peer_sockets s room)) [
    | inl e ↦ rw (end_room_empty s room e) (Cleared-end_lifetime s room)
    | inr e ↦ rw (end_room_peers s room e) (
        Cleared-depart_all (told s room) (list_peer_sockets s room) room room_end told-IsValid
          Cleared-told)
  ]

-- Nothing of the room's lifetime is left but its slugs and its owner.
abbrev pub IsEnded : State → String → Type 0
IsEnded t room =
    (list_peer_sockets t room ≡ [])
    × (get room t.room_locks ≡ none)
    × (get room t.kicked_users ≡ none)
    × ((sid : String) → room_id_of t sid ≢ some room)
    × ((key : String) → seat_room (get key t.held_seats) ≢ some room)

-- After the end of a room it has no member, no lock, no kicked user and no held seat, and no socket
-- has a record in it.
pub end_room_clears : (s : State) (room : String) → IsValid s → IsEnded (end_room s room) room
unfolding has
end_room_clears s room v =
    let w = end_room-IsValid s room v in
    let gone = no_member s room v in
    let (locks, kicked, seats) = Cleared-end_room s room v in
    (
      gone,
      locks,
      kicked,
      λ sid. elim (Option-cases (get sid (end_room s room).records)) [
        | inl e ↦ ground (arith, e)
        | inr (r, e) ↦ ground (arith, e, w.0.tracked sid r e)
      ],
      λ key. elim (Option-cases (get key (end_room s room).held_seats)) [
        | inl e ↦ ground (arith, e)
        | inr (seat, e) ↦ ground (arith, e, w.1.indexed key seat e)
      ],
    )
