-- ===== src/Presence/Reach.antt =====
-- Joins keep the maps in agreement, and so does every run of the service.
use zvonok.Prelude.{
  ℕ, String, ◌≡◌, ◌⊎◌, inl, inr, refl, Bool, false, Option, none, some, arith, truthy, Bool-cases,
  Option-cases, get, or_else,
}
use zvonok.Auth.Jwt.{Services}
use zvonok.Auth.Identity.{Handshake}
use zvonok.Presence.State.{State, PresenceRecord, LeaveReason, JoinErrorCode}
use zvonok.Presence.Rooms.{room_id_of, depart}
use zvonok.Presence.Join.{
  Database, SfuJoinPayload, Resolved, resolved, refused, resolve_record, resolve_token_record,
  resolve_handshake_record, record_of_identity, restore_seat, register, announce_join, is_kicked,
  seat_key, admit, join,
}
use zvonok.Presence.Control.{hold_seat, expire_held_seat, kick, lock_room, end_room}
use zvonok.Presence.Lookup.{on_peer_detach, on_room_closed, attach_server}
use zvonok.Presence.Members.{IsRoomId, join-IsMembers}
use zvonok.Presence.Seats.{restore-IsSeats, put-IsSlugs}
use zvonok.Presence.Invariant.{
  IsValid, depart-IsValid, hold_seat-IsValid, expire-IsValid, kick-IsValid, lock_room-IsValid,
  end_room-IsValid,
}

-- The socket is in no room yet, or in the one that it joins.
abbrev pub MayJoin : State → PresenceRecord → Type 0
MayJoin s r =
    IsRoomId r.room_id
    × ((room_id_of s r.socket_id ≡ none) ⊎ (room_id_of s r.socket_id ≡ some r.room_id))

restore_seat-IsValid :
    (s : State) (room user_id : String)
    → IsRoomId room
    → IsValid s
    → IsValid (restore_seat s room (seat_key room user_id))
unfolding restore_seat
restore_seat-IsValid s room user_id w v =
    elim (Option-cases (get (seat_key room user_id) s.held_seats)) [
      | inl e ↦ rw (restore_seat, e) v
      | inr (seat, e) ↦ rw (restore_seat, e) (v.0, restore-IsSeats v.1 room user_id seat w e, v.2)
    ]

room_id_of-restore_seat :
    (s : State) (room key sid : String)
    → room_id_of (restore_seat s room key) sid ≡ room_id_of s sid
unfolding restore_seat
room_id_of-restore_seat s room key sid = ground arith

register-IsValid :
    (s : State) (sid : String) (r : PresenceRecord) (slug : Option String)
    → MayJoin s r
    → IsValid s
    → IsValid (register s sid r slug)
unfolding register
register-IsValid s sid r slug w v = elim (Option-cases (truthy slug)) [
  | inl e ↦ rw (register, e) (join-IsMembers v.0 r w.0 w.1, v.1, v.2)
  | inr (x, e) ↦ rw (register, e) (join-IsMembers v.0 r w.0 w.1, v.1, put-IsSlugs v.2 x r.room_id)
]

pub admit-IsValid :
    (s : State) (sid : String) (slug : Option String) (r : PresenceRecord)
    → MayJoin s r
    → IsValid s
    → IsValid (admit s sid slug r).0
unfolding admit announce_join
admit-IsValid s sid slug r w v = elim (Bool-cases (is_kicked s r.room_id r.user_id)) [
  | inl e ↦ rw (admit, e) v
  | inr e ↦
      let same = room_id_of-restore_seat s r.room_id (seat_key r.room_id r.user_id) r.socket_id in
      rw (admit, e)
        (register-IsValid _ sid r slug (w.0, rw same w.1)
          (restore_seat-IsValid s r.room_id r.user_id w.0 v))
]

-- The record that the server derives for a join is for the socket and the room of the request.
pub resolve_record-room :
    (svc : Services) (db : Database) (h : Handshake) (p : SfuJoinPayload) (r : PresenceRecord)
    → resolve_record svc db h p ≡ resolved r
    → (r.socket_id ≡ h.socket_id) × (r.room_id ≡ p.room_id)
unfolding resolve_record resolve_token_record resolve_handshake_record record_of_identity
resolve_record-room svc db h p r e = ground arith

pub Resolved-cases :
    (x : Resolved)
    → ((r : PresenceRecord) × (x ≡ resolved r))
      ⊎ ((code : JoinErrorCode) × (m : String) × (x ≡ refused code m))
Resolved-cases (resolved r) = inl (r, refl)
Resolved-cases (refused code m) = inr (code, m, refl)

pub join-IsValid :
    (svc : Services) (db : Database) (s : State) (h : Handshake) (p : SfuJoinPayload)
    → IsRoomId p.room_id
    → (room_id_of s h.socket_id ≡ none) ⊎ (room_id_of s h.socket_id ≡ some p.room_id)
    → IsValid s
    → IsValid (join svc db s h p).0
unfolding join
join-IsValid svc db s h p w before v =
    elim (Bool-cases (or_else (get p.room_id s.room_locks) false)) [
      | inl e ↦ rw (join, e) v
      | inr e ↦ elim (Resolved-cases (resolve_record svc db h p)) [
        | inr (code, m, f) ↦ rw (join, e, f) v
        | inl (r, f) ↦
            let at = resolve_record-room svc db h p r f in
            rw (join, e, f)
              (admit-IsValid s h.socket_id p.room_slug r (rw at.1 w, rw (at.0, at.1) before) v)
      ]
    ]

-- The calls that the service serves, and the timers that it set, in any order. A join may be
-- admitted in a later state than the one in which its lock was checked.
pub data Step : State → State → Type 0 where
  admits :
      (s : State) (sid : String) (slug : Option String) (r : PresenceRecord)
      → MayJoin s r
      → Step s (admit s sid slug r).0
  leaves : (s : State) (sid : String) (reason : LeaveReason) → Step s (depart s sid reason)
  holds : (s : State) (sid : String) → Step s (hold_seat s sid)
  expires : (s : State) (key : String) → Step s (expire_held_seat s key)
  kicks : (s : State) (sid target : String) → Step s (kick s sid target).0
  locks : (s : State) (sid : String) (locked : Bool) → Step s (lock_room s sid locked).0
  ends : (s : State) (room : String) → Step s (end_room s room)
  detach_handler : (s : State) (sid : String) (h : ℕ) → Step s (on_peer_detach s sid h)
  closed_handler : (s : State) (room : String) (h : ℕ) → Step s (on_room_closed s room h)
  attaches : (s : State) → Step s (attach_server s)

pub data Reach (s : State) : State → Type 0 where
  here : Reach s s
  next : {t u : State} → Reach s t → Step t u → Reach s u

pub Step-IsValid : {s t : State} → Step s t → IsValid s → IsValid t
unfolding on_peer_detach on_room_closed attach_server
Step-IsValid (admits s sid slug r w) v = admit-IsValid s sid slug r w v
Step-IsValid (leaves s sid reason) v = depart-IsValid s sid reason v
Step-IsValid (holds s sid) v = hold_seat-IsValid s sid v
Step-IsValid (expires s key) v = expire-IsValid s key v
Step-IsValid (kicks s sid target) v = kick-IsValid s sid target v
Step-IsValid (locks s sid locked) v = lock_room-IsValid s sid locked v
Step-IsValid (ends s room) v = end_room-IsValid s room v
Step-IsValid (detach_handler s sid h) v = v
Step-IsValid (closed_handler s room h) v = v
Step-IsValid (attaches s) v = v

-- Every run of joins, leaves, network drops, grace expiries, kicks, lock changes, ended rooms and
-- subscriptions keeps the service's maps in agreement. Each join is by a socket that is in no room
-- or in the room it joins, and names a room by an id that is not empty and has no colon.
pub Reach-IsValid : {s t : State} → IsValid s → Reach s t → IsValid t
Reach-IsValid v here = v
Reach-IsValid v (next r st) = Step-IsValid st (Reach-IsValid v r)
