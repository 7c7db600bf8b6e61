-- ===== src/Presence/Lookups.antt =====
-- The lookups of apps/server/src/sfu/room-presence.service.ts find what the records say.
use zvonok.Prelude.{
  String, ◌≡◌, ◌≢◌, ◌⊎◌, inl, inr, true, none, some, List, [], ◌∷◌, arith, str_dec, Option-cases,
  Map, get, has, ap, sym, subst, ◌∙◌,
}
use zvonok.Presence.State.{State, PresenceRecord}
use zvonok.Presence.Rooms.{list_peer_sockets}
use zvonok.Presence.Lookup.{socket_of_user, peer_socket_in_room}
use zvonok.Presence.Invariant.{IsValid}

socket_sound :
    (records : Map PresenceRecord) (u sid : String) (sids : List String)
    → socket_of_user records u sids ≡ some sid
    → (has sid sids ≡ true) × ((r : PresenceRecord) × (get sid records ≡ some r) × (r.user_id ≡ u))
unfolding socket_of_user has
socket_sound records u sid [] e = cc
socket_sound records u sid (x ∷ xs) e = elim (Option-cases (get x records)) [
  | inl f ↦
      let (m, found) = socket_sound records u sid xs (ground (arith, f)) in (ground arith, found)
  | inr (q, f) ↦ elim (str_dec q.user_id u) [
    | yes p ↦
        let same : x ≡ sid = ground (arith, f) in
        (ground arith, (q, ap (λ y. get y records) (sym same) ∙ f, p))
    | no p ↦
        let (m, found) = socket_sound records u sid xs (ground (arith, f)) in (ground arith, found)
  ]
]

socket_complete :
    (records : Map PresenceRecord) (u sid : String) (sids : List String) (r : PresenceRecord)
    → socket_of_user records u sids ≡ none
    → has sid sids ≡ true
    → get sid records ≡ some r
    → r.user_id ≢ u
unfolding socket_of_user has
socket_complete records u sid [] r e m f = cc
socket_complete records u sid (x ∷ xs) r e m f = ground (arith, socket_complete records u sid xs r)

-- A lookup of a user in a room either finds a socket with a record of that user in that room, or
-- finds none, and then no socket has such a record.
pub peer_socket_exact :
    (s : State) (room user_id : String)
    → IsValid s
    → ((sid : String) × (r : PresenceRecord) × (peer_socket_in_room s room user_id ≡ some sid)
        × (get sid s.records ≡ some r)
        × (r.room_id ≡ room)
        × (r.user_id ≡ user_id))
      ⊎ ((peer_socket_in_room s room user_id ≡ none)
          × ((sid : String) (r : PresenceRecord)
              → ¬ ((get sid s.records ≡ some r) × (r.room_id ≡ room) × (r.user_id ≡ user_id))))
unfolding peer_socket_in_room
peer_socket_exact s room user_id v = elim (Option-cases (peer_socket_in_room s room user_id)) [
  | inr (sid, e) ↦
      let (m, (r, f, n)) = socket_sound s.records user_id sid (list_peer_sockets s room) e in
      inl (sid, r, e, f, ground (arith, f, v.0.member sid room m), n)
  | inl e ↦ inr (
    e,
    λ sid r h.
        socket_complete s.records user_id sid (list_peer_sockets s room) r e
          (subst (λ k. has sid (list_peer_sockets s k) ≡ true) h.1 (v.0.tracked sid r h.0)) h.0 h.2,
  )
]
