-- ===== src/Media/Entries.antt =====
-- The entries that presence runs: a join, a grace expiry and a kick.
use zvonok.Prelude.{
  ℕ, String, ◌≡◌, ◌≢◌, ◌⊎◌, inl, inr, ◌∙◌, refl, sym, ap, true, false, Option, none, some, List, [],
  ◌∷◌, arith, Bool-cases, Option-cases, str_dec, get, put, get-put, or_else, has,
}
use zvonok.Json.{Json}
use zvonok.Capabilities.{CapabilityId}
use zvonok.Auth.Jwt.{Services}
use zvonok.Auth.Identity.{Handshake}
use zvonok.Presence.State.{State, PresenceRecord, kick as by_kick, emit, kicked, send}
use zvonok.Presence.Rooms.{depart}
use zvonok.Presence.Join.{
  Database, SfuJoinPayload, PresenceJoinOutcome, join, admit, is_kicked, resolve_record,
}
use zvonok.Presence.Control.{
  SfuHostActionAck, HostActionCode, ok, denied, kick, mark_kicked, expire_held_seat,
}
use zvonok.Presence.Lookup.{on_peer_detach, on_room_closed, add_handler, subscribe}
use zvonok.Presence.Moves.{admit_maps}
use zvonok.Presence.Reach.{resolve_record-room, Resolved-cases}
use zvonok.Media.Pool.{create_router}
use zvonok.Media.State.{Sfu, new_peer}
use zvonok.Media.Sessions.{
  detach_handler, listens, with_presence, kick_target, kick_peer, expire_seat, after_close,
}
use zvonok.Media.Joining.{attach_media, watch_room, open_media, join_room}
use zvonok.Media.Frames.{SameMaps, depart-Frames, expire-SameMaps, admit-handlers}
use zvonok.Media.Attached.{
  IsAttached, IsMild, IsMild-refl, IsKnown-same, mild-IsAttached, departs-IsAttached,
  after_close-IsMild,
}

add_handler-listens : (h : ℕ) (xs : List ℕ) → listens h (some (add_handler h xs)) ≡ true
unfolding add_handler listens
add_handler-listens h [] = ground arith
add_handler-listens h (x ∷ xs) = ground (arith, add_handler-listens h xs)

-- The socket has its media once presence has its record.
attach-IsAttached :
    (sid : String) (s : Sfu) (r : PresenceRecord)
    → get sid s.presence.records ≡ some r
    → r.room_id ≢ ""
    → IsAttached s
    → IsAttached (attach_media sid s)
unfolding attach_media on_peer_detach subscribe
attach-IsAttached sid s r e n h x peer m =
    let added = add_handler detach_handler (or_else (get sid s.presence.peer_detach_handlers) []) in
    elim (str_dec sid x) [
      | yes p ↦ (
        r,
        ap (λ z. get z s.presence.records) (sym p) ∙ e,
        n,
        ap (listens detach_handler)
              (ground (arith, get-put x sid added s.presence.peer_detach_handlers, p))
            ∙ add_handler-listens detach_handler
                (or_else (get sid s.presence.peer_detach_handlers) []),
      )
      | no p ↦
          IsKnown-same x s.presence (attach_media sid s).presence refl
            (ground (arith, get-put x sid added s.presence.peer_detach_handlers, p))
            (h x peer (ground (arith, get-put x sid new_peer s.media, p, m)))
    ]

watch_room-IsMild : (room : String) (s : Sfu) → IsMild s (watch_room room s)
unfolding watch_room on_room_closed
watch_room-IsMild room s = elim (Bool-cases (has room s.router_rooms)) [
  | inl e ↦ rw (watch_room, e) (IsMild-refl s)
  | inr e ↦ rw (watch_room, e) ((refl, refl), λ x n. n)
]

open_media-IsMild :
    (j : Json) (name : CapabilityId → String) (answer : Option ℕ) (sid : String)
    (r : PresenceRecord) (s : Sfu)
    → IsMild (attach_media sid s) (open_media j name answer sid r s)
unfolding open_media
open_media-IsMild j name answer sid r s =
    let t = watch_room r.room_id (attach_media sid s) in
    let (same, none_new) = watch_room-IsMild r.room_id (attach_media sid s) in
    elim (Option-cases (create_router r.room_id answer t.pool).1) [
      | inl e ↦ rw (open_media, e) (same, none_new)
      | inr (router, e) ↦ rw (open_media, e) (same, none_new)
    ]

admit_outcome :
    (p : State) (sid : String) (slug : Option String) (r : PresenceRecord)
    → is_kicked p r.room_id r.user_id ≡ false
    → (o : PresenceJoinOutcome) × ((admit p sid slug r).1 ≡ some o) × (o.peer ≡ r)
unfolding admit
admit_outcome p sid slug r k = elim (Option-cases (admit p sid slug r).1) [
  | inl e ↦ absurd (ground (arith, e, k))
  | inr (o, e) ↦ (o, e, ground (arith, e, k))
]

-- A join that presence admits writes the record down and keeps the handlers; another keeps both.
join_lem :
    (svc : Services) (db : Database) (p : State) (h : Handshake) (pl : SfuJoinPayload)
    → (((join svc db p h pl).1 ≡ none) × SameMaps p (join svc db p h pl).0)
      ⊎ ((o : PresenceJoinOutcome) × ((join svc db p h pl).1 ≡ some o)
          × (o.peer.room_id ≡ pl.room_id)
          × ((join svc db p h pl).0.records ≡ put h.socket_id o.peer p.records)
          × ((join svc db p h pl).0.peer_detach_handlers ≡ p.peer_detach_handlers))
unfolding join admit
join_lem svc db p h pl = elim (Bool-cases (or_else (get pl.room_id p.room_locks) false)) [
  | inl e ↦ inl (rw (join, e) (refl, (refl, refl)))
  | inr e ↦ elim (Resolved-cases (resolve_record svc db h pl)) [
    | inr (code, m, f) ↦ inl (rw (join, e, f) (refl, (refl, refl)))
    | inl (r, f) ↦ elim (Bool-cases (is_kicked p r.room_id r.user_id)) [
      | inl k ↦ inl (rw (join, e, f, admit, k) (refl, (refl, refl)))
      | inr k ↦
          let one : join svc db p h pl ≡ admit p h.socket_id pl.room_slug r =
            rw (join, e, f) refl in
          let (o, made, is_r) = admit_outcome p h.socket_id pl.room_slug r k in
          let (sock, room) = resolve_record-room svc db h pl r f in
          let (records, rooms) = admit_maps p h.socket_id pl.room_slug r k in
          inr (
            o,
            ap (λ (z : State × Option PresenceJoinOutcome). z.1) one ∙ made,
            ap (λ (z : PresenceRecord). z.room_id) is_r ∙ room,
            ap (λ (z : State × Option PresenceJoinOutcome). z.0.records) one
                ∙ records
                ∙ ap (λ z. put z r p.records) sock
                ∙ ap (λ z. put h.socket_id z p.records) (sym is_r),
            ap (λ (z : State × Option PresenceJoinOutcome). z.0.peer_detach_handlers) one
                ∙ admit-handlers p h.socket_id pl.room_slug r k,
          )
    ]
  ]
]

pub join_room-IsAttached :
    (svc : Services) (db : Database) (h : Handshake) (pl : SfuJoinPayload) (j : Json)
    (name : CapabilityId → String) (answer : Option ℕ) (s : Sfu)
    → pl.room_id ≢ ""
    → IsAttached s
    → IsAttached (join_room svc db h pl j name answer s)
unfolding join_room
join_room-IsAttached svc db h pl j name answer s n a =
    let p = (join svc db s.presence h pl).0 in
    elim (join_lem svc db s.presence h pl) [
      | inl (e, same) ↦ rw (join_room, e) (mild-IsAttached s (with_presence p s) (same, λ x k. k) a)
      | inr (o, e, room, records, handlers) ↦
          let t = with_presence p s in
          let there : get h.socket_id p.records ≡ some o.peer =
            ap (get h.socket_id) records
            ∙ ground (arith, get-put h.socket_id h.socket_id o.peer s.presence.records) in
          let filled : o.peer.room_id ≢ "" = λ k. n (sym room ∙ k) in
          let known : IsAttached t = λ x peer m. elim (str_dec h.socket_id x) [
            | yes q ↦
                let (r, f, g, l) = a x peer m in
                (
                  o.peer,
                  ap (λ z. get z p.records) (sym q) ∙ there,
                  filled,
                  ap (λ z. listens detach_handler (get x z)) handlers ∙ l,
                )
            | no q ↦
                IsKnown-same x s.presence p
                  (ap (get x) records
                    ∙ ground (arith, get-put x h.socket_id o.peer s.presence.records, q))
                  (ap (get x) handlers) (a x peer m)
          ] in
          rw (join_room, e)
            (mild-IsAttached (attach_media h.socket_id t)
              (open_media j name answer h.socket_id o.peer t)
              (open_media-IsMild j name answer h.socket_id o.peer t)
              (attach-IsAttached h.socket_id t o.peer there filled known))
    ]

pub expire_seat-IsAttached :
    (room key : String) (s : Sfu) → IsAttached s → IsAttached (expire_seat room key s)
unfolding expire_seat
expire_seat-IsAttached room key s h =
    let t = with_presence (expire_held_seat s.presence key) s in
    mild-IsAttached t (after_close room s.presence t) (after_close-IsMild room s.presence t)
      (mild-IsAttached s t (expire-SameMaps key s.presence, λ x n. n) h)

Ack-cases :
    (a : SfuHostActionAck)
    → (a ≡ ok) ⊎ ((code : HostActionCode) × (m : String) × (a ≡ denied code m))
Ack-cases ok = inl refl
Ack-cases (denied code m) = inr (code, m, refl)

pub kick_peer-IsAttached :
    (sid user_id : String) (s : Sfu) → IsAttached s → IsAttached (kick_peer sid user_id s).0
unfolding kick_peer mark_kicked
kick_peer-IsAttached sid user_id s h = elim (Ack-cases (kick s.presence sid user_id).1) [
  | inr (code, m, e) ↦ rw (kick_peer, e) h
  | inl e ↦ elim (Option-cases (kick_target s.presence sid user_id)) [
    | inl f ↦ rw (kick_peer, e, f) h
    | inr ((target, room), f) ↦
        let told =
          send (emit target.socket_id (kicked room) ∷ [])
            (mark_kicked s.presence room target.user_id) in
        let t = with_presence told s in
        let operation = λ (p : State). depart p target.socket_id by_kick in
        rw (kick_peer, e, f)
          (departs-IsAttached target.socket_id operation t (depart-Frames target.socket_id by_kick)
            (mild-IsAttached s t ((refl, refl), λ x n. n) h))
  ]
]
