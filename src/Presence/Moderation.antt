-- ===== src/Presence/Moderation.antt =====
-- The host's controls: who may use them, and what a kick and a lock leave behind.
use zvonok.Prelude.{
  String, ◌≡◌, ◌≢◌, ◌∙◌, sym, ap, subst, inl, inr, true, some, List, [], ◌∷◌, arith, str_dec,
  truthy, Option-cases, Map, get, has,
}
use zvonok.Capabilities.{includes, remove_participants}
use zvonok.Presence.State.{
  State, PresenceRecord, Effect, JoinErrorCode, join_error, emit, LeaveReason, send,
  socket_disconnect, kick as by_kick,
}
use zvonok.Presence.State
use zvonok.Presence.Rooms.{list_peer_sockets}
use zvonok.Presence.Control.{
  not_found, ok, find_user, requester_of, mark_kicked, remove_target, kick_in, kick,
}
use zvonok.Presence.Steps.{departed, depart_beside}
use zvonok.Presence.Invariant.{IsValid}

pub find_user_sound :
    (records : Map PresenceRecord) (u : String) (sids : List String) {t : PresenceRecord}
    → find_user records u sids ≡ some t
    → (x : String) × (has x sids ≡ true) × (get x records ≡ some t) × (t.user_id ≡ u)
unfolding find_user has
find_user_sound records u [] e = cc
find_user_sound records u (sid ∷ sids) e = elim (Option-cases (get sid records)) [
  | inl f ↦
      let (x, m, g, n) = find_user_sound records u sids (ground (arith, f)) in
      (x, ground arith, g, n)
  | inr (q, f) ↦ elim (str_dec q.user_id u) [
    | yes p ↦ (sid, ground arith, ground arith, ground arith)
    | no p ↦
        let (x, m, g, n) = find_user_sound records u sids (ground (arith, f)) in
        (x, ground arith, g, n)
  ]
]

pub requester_of_sound :
    (s : State) (sid : String) {r : PresenceRecord} {room : String}
    → requester_of s sid ≡ some (r, room)
    → (get sid s.records ≡ some r) × (room ≡ r.room_id)
unfolding requester_of truthy
requester_of_sound s sid e = ground arith

-- The state after a kick: the user is marked, told and detached, and the others are told.
abbrev pub kicked_out : State → PresenceRecord → State
kicked_out s q = send (socket_disconnect q.socket_id ∷ []) (
    departed
      (send (emit q.socket_id (State.kicked q.room_id) ∷ []) (mark_kicked s q.room_id q.user_id))
      q.socket_id q by_kick)

remove_target-kicked_out :
    (s : State) (sid : String) (r q : PresenceRecord)
    → IsValid s
    → get sid s.records ≡ some r
    → get q.socket_id s.records ≡ some q
    → r.room_id ≡ q.room_id
    → q.socket_id ≢ sid
    → remove_target s q.room_id q ≡ kicked_out s q
unfolding remove_target mark_kicked
remove_target-kicked_out s sid r q v e f same ne =
    ap (send (socket_disconnect q.socket_id ∷ []))
      (depart_beside _ q.socket_id sid q r by_kick v f e same ne)

kick_in-kicked_out :
    (s : State) (sid target : String) (r : PresenceRecord) {t : State}
    → IsValid s
    → get sid s.records ≡ some r
    → kick_in s sid r.room_id target ≡ (t, ok)
    → (q : PresenceRecord) × (get q.socket_id s.records ≡ some q)
      × (q.room_id ≡ r.room_id)
      × (q.user_id ≡ target)
      × (q.socket_id ≢ sid)
      × (t ≡ kicked_out s q)
unfolding kick_in not_found
kick_in-kicked_out s sid target r {t} v e k =
    elim (Option-cases (find_user s.records target (list_peer_sockets s r.room_id))) [
      | inl f ↦ absurd (ground (arith, f))
      | inr (q, f) ↦ elim (str_dec q.socket_id sid) [
        | yes p ↦ absurd (ground (arith, f))
        | no p ↦
            let (x, m, g, n) = find_user_sound s.records target (list_peer_sockets s r.room_id) f in
            let own = v.0.own x q g in
            let room : q.room_id ≡ r.room_id = ground (arith, g, v.0.member x r.room_id m) in
            let here = subst (λ y. get y s.records ≡ some q) (sym own) g in
            let left : t ≡ remove_target s r.room_id q = ground (arith, f) in
            (
              q,
              here,
              room,
              n,
              p,
              left
                  ∙ subst (λ y. remove_target s y q ≡ kicked_out s q) room
                      (remove_target-kicked_out s sid r q v e here (sym room) p),
            )
      ]
    ]

-- What a kick that succeeds shows of its requester and its target.
abbrev pub KickedBy : State → State → String → String → Type 0
KickedBy s t sid target =
    (r q : PresenceRecord) × (get sid s.records ≡ some r)
    × (includes r.capabilities remove_participants ≡ true)
    × (get q.socket_id s.records ≡ some q)
    × (q.room_id ≡ r.room_id)
    × (q.user_id ≡ target)
    × (q.socket_id ≢ sid)
    × (t ≡ kicked_out s q)

-- Only a socket whose record holds the capability to remove participants kicks, and only another
-- member of its own room; the kick marks, tells and detaches that member and announces the departure.
pub kick_authorised :
    (s t : State) (sid target : String)
    → IsValid s
    → kick s sid target ≡ (t, ok)
    → KickedBy s t sid target
unfolding kick
kick_authorised s t sid target v k = elim (Option-cases (requester_of s sid)) [
  | inl e ↦ absurd (ground (arith, e))
  | inr ((r, room), e) ↦
      let (f, same) = requester_of_sound s sid e in
      let may : includes r.capabilities remove_participants ≡ true = ground (arith, e) in
      let inner : kick_in s sid r.room_id target ≡ (t, ok) = rw (← same) (ground (arith, e)) in
      let (q, there, beside, named, other, left) = kick_in-kicked_out s sid target r v f inner in
      (r, q, f, may, there, beside, named, other, left)
]
