-- ===== src/Presence/Steps.antt =====
-- Departures as equations between whole states, for proofs that keep the code shut.
use zvonok.Prelude.{
  String, ◌≡◌, ◌≢◌, ◌∙◌, refl, true, none, some, List, [], ◌∷◌, ◌++◌, arith, get, remove, modify,
  discard, has, has_at-modify,
}
use zvonok.Presence.State.{State, PresenceRecord, LeaveReason, socket_leave, participant_of}
use zvonok.Presence.Rooms.{
  list_peer_sockets, nonempty, run_handlers, drop_record, detach_peer, announce_left,
  cleanup_room_if_empty, depart,
}
use zvonok.Presence.Members.{truthy_room}
use zvonok.Presence.Invariant.{IsValid}

abbrev pub detached : State → String → PresenceRecord → State
detached s sid r = record s {
  peer_detach_handlers = remove sid s.peer_detach_handlers;
  records = remove sid s.records;
  rooms = modify r.room_id (discard sid) s.rooms;
  effects =
      (s.effects ++ run_handlers (get sid s.peer_detach_handlers))
      ++ socket_leave sid r.room_id ∷ [];
}

abbrev pub departed : State → String → PresenceRecord → LeaveReason → State
departed s sid r reason =
    announce_left (detached s sid r) r.room_id (participant_of r) (some sid) reason

module _ (s : State) (sid : String) (r : PresenceRecord) (v : IsValid s)
    (e : get sid s.records ≡ some r) where
  pub detach_peer-detached : detach_peer s sid ≡ detached s sid r
  unfolding detach_peer
  detach_peer-detached = rw (detach_peer, e, drop_record, truthy_room (v.0.id sid r e))

  pub depart-departed :
      (reason : LeaveReason)
      → depart s sid reason ≡ cleanup_room_if_empty (departed s sid r reason) r.room_id
  unfolding depart
  depart-departed reason = rw (depart, e, truthy_room (v.0.id sid r e), detach_peer-detached)

pub cleanup_occupied :
    (s : State) (room : String)
    → nonempty (list_peer_sockets s room) ≡ true
    → cleanup_room_if_empty s room ≡ s
unfolding cleanup_room_if_empty
cleanup_occupied s room e = rw (cleanup_room_if_empty, e)

pub nonempty_of_has : (x : String) (xs : List String) → has x xs ≡ true → nonempty xs ≡ true
unfolding has
nonempty_of_has x [] h = cc
nonempty_of_has x (y ∷ ys) h = refl

-- A departure that leaves another member behind only detaches and announces.
pub depart_beside :
    (s : State) (sid x : String) (r q : PresenceRecord) (reason : LeaveReason)
    → IsValid s
    → get sid s.records ≡ some r
    → get x s.records ≡ some q
    → q.room_id ≡ r.room_id
    → sid ≢ x
    → depart s sid reason ≡ departed s sid r reason
unfolding announce_left
depart_beside s sid x r q reason v e f same ne =
    depart-departed s sid r v e reason
    ∙ cleanup_occupied _ r.room_id (
        nonempty_of_has x _ (
          ground (
            arith,
            has_at-modify x r.room_id s.rooms r.room_id sid,
            rw same at (v.0.tracked x q f),
          )))

pub depart_absent :
    (s : State) (sid : String) (reason : LeaveReason)
    → get sid s.records ≡ none
    → depart s sid reason ≡ s
unfolding depart
depart_absent s sid reason e = rw (depart, e)
