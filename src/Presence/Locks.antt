-- ===== src/Presence/Locks.antt =====
-- Room locks and refused host controls.
use zvonok.Prelude.{
  String, ◌≡◌, ◌⊎◌, ◌∙◌, sym, ap, subst, inl, inr, Bool, true, false, none, some, arith,
  Option-cases, get, get-put, or_else,
}
use zvonok.Capabilities.{includes, lock_room as lock_capability}
use zvonok.Auth.Jwt.{Services}
use zvonok.Auth.Identity.{Handshake}
use zvonok.Presence.State.{State, PresenceRecord, room_locked}
use zvonok.Presence.State
use zvonok.Presence.Join.{Database, SfuJoinPayload, join, emit_join_error}
use zvonok.Presence.Moderation.{requester_of_sound}
use zvonok.Presence.Control.{ok, requester_of, kick_in, kick, set_lock, lock_room}

-- A host control either succeeds or leaves the state as it is, with nothing sent.
pub denied_unchanged :
    (s : State) (sid target : String) (locked : Bool)
    → (((kick s sid target).1 ≡ ok) ⊎ ((kick s sid target).0 ≡ s))
      × (((lock_room s sid locked).1 ≡ ok) ⊎ ((lock_room s sid locked).0 ≡ s))
unfolding kick kick_in lock_room
denied_unchanged s sid target locked = (ground arith, ground arith)

set_lock-lock :
    (s : State) (room : String) (locked : Bool)
    → or_else (get room (set_lock s room locked).room_locks) false ≡ locked
unfolding set_lock
set_lock-lock s room locked = ground (arith, get-put room room locked s.room_locks)

set_lock_same :
    (s : State) (room : String) (locked : Bool)
    → or_else (get room s.room_locks) false ≡ locked
    → set_lock s room locked ≡ s
unfolding set_lock
set_lock_same s room true e = rw (set_lock, e)
set_lock_same s room false e = rw (set_lock, e)

requester_of-set_lock :
    (s : State) (room sid : String) (locked : Bool)
    → requester_of (set_lock s room locked) sid ≡ requester_of s sid
unfolding set_lock requester_of
requester_of-set_lock s room sid locked = ground arith

-- A lock takes effect at once: after a successful lock by a holder of the capability every join of
-- its room, by whatever credentials, is refused as locked and leaves only that error; a second lock
-- changes nothing.
pub lock_refuses_joins :
    (s t : State) (sid : String) (r : PresenceRecord) (svc : Services) (db : Database)
    (h : Handshake) (p : SfuJoinPayload)
    → lock_room s sid true ≡ (t, ok)
    → get sid s.records ≡ some r
    → p.room_id ≡ r.room_id
    → (includes r.capabilities lock_capability ≡ true)
      × (join svc db t h p ≡ (
        emit_join_error t h.socket_id State.JoinErrorCode.room_locked "Room is locked by the host",
        none,
      ))
      × (lock_room t sid true ≡ (t, ok))
unfolding lock_room join
lock_refuses_joins s t sid r svc db h p k f at = elim (Option-cases (requester_of s sid)) [
  | inl e ↦ absurd (ground (arith, e))
  | inr ((r', room), e) ↦
      let (f', same) = requester_of_sound s sid e in
      let one : r' ≡ r = ground (arith, f, f') in
      let may : includes r'.capabilities lock_capability ≡ true = ground (arith, e) in
      let left : t ≡ set_lock s room true = ground (arith, e) in
      let locked : or_else (get room t.room_locks) false ≡ true =
        ap (λ (x : State). or_else (get room x.room_locks) false) left
        ∙ set_lock-lock s room true in
      let again : requester_of t sid ≡ some (r', room) =
        ap (λ x. requester_of x sid) left ∙ requester_of-set_lock s room sid true ∙ e in
      let here : p.room_id ≡ room =
        at ∙ ap (λ (x : PresenceRecord). x.room_id) (sym one) ∙ sym same in
      (
        subst (λ (x : PresenceRecord). includes x.capabilities lock_capability ≡ true) one may,
        rw (join, here, locked),
        rw (lock_room, again, may, set_lock_same t room true locked),
      )
]
