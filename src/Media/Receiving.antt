-- ===== src/Media/Receiving.antt =====
-- Transports and consumers give no socket media and leave presence alone but for the events.
use zvonok.Prelude.{
  String, inl, inr, refl, Option, none, some, List, [], ◌∷◌, Option-cases, str_dec, ite, Map, get,
  modify,
}
use zvonok.Presence.State.{PresenceRecord}
use zvonok.Presence.Rooms.{list_peer_sockets}
use zvonok.Presence.Lookup.{context_of}
use zvonok.Media.State.{Sfu, MediaPeer, Producer, tell}
use zvonok.Media.Producers.{new_producer_json}
use zvonok.Media.Consumers.{
  router_of, emit_transport_created, set_send, set_recv, create_send_transport, tell_producers,
  tell_member, announce_existing, create_recv_transport, find_producer, add_consumer,
  create_consumer,
}
use zvonok.Media.Quiet.{IsQuiet, IsQuiet-trans, IsQuiet-ite}
use zvonok.Media.Attached.{IsMild, IsMild-refl, IsMild-trans}
use zvonok.Media.Mild.{changed-IsMild, quiet-IsMild}

pub create_send-IsMild :
    (s : Sfu) (sid : String) (answer : Option String)
    → IsMild s (create_send_transport s sid answer)
unfolding create_send_transport emit_transport_created
create_send-IsMild s sid answer = elim (Option-cases (get sid s.media)) [
  | inl e ↦ rw (create_send_transport, e) (IsMild-refl s)
  | inr (peer, e) ↦ elim (Option-cases (router_of s sid)) [
    | inl f ↦ rw (create_send_transport, e, f) (IsMild-refl s)
    | inr (router, f) ↦ elim (Option-cases answer) [
      | inl k ↦ rw (create_send_transport, e, f, k) (IsMild-refl s)
      | inr (id, k) ↦
          rw (create_send_transport, e, f, k) ((refl, refl), (changed-IsMild sid (set_send id) s).1)
    ]
  ]
]

tell_producers-IsQuiet :
    (sid : String) (r : PresenceRecord) (ps : Map Producer) (s : Sfu)
    → IsQuiet s (tell_producers sid r ps s)
unfolding tell_producers
tell_producers-IsQuiet sid r [] s = refl
tell_producers-IsQuiet sid r ((k, p) ∷ ps) s =
    let t = tell sid "sfu:new-producer" (new_producer_json p r) s in
    IsQuiet-trans s t (tell_producers sid r ps t) refl (tell_producers-IsQuiet sid r ps t)

tell_member-IsQuiet :
    (sid : String) (o : Option MediaPeer) (c : Option PresenceRecord) (s : Sfu)
    → IsQuiet s (tell_member sid o c s)
unfolding tell_member
tell_member-IsQuiet sid (some peer) (some r) s = tell_producers-IsQuiet sid r peer.producers s
tell_member-IsQuiet sid (some peer) none s = refl
tell_member-IsQuiet sid none c s = refl

announce-IsQuiet :
    (sid : String) (xs : List String) (s : Sfu) → IsQuiet s (announce_existing sid xs s)
unfolding announce_existing
announce-IsQuiet sid [] s = refl
announce-IsQuiet sid (x ∷ xs) s =
    let told = tell_member sid (get x s.media) (context_of s.presence x) s in
    let t = ite (str_dec x sid) s told in
    IsQuiet-trans s t (announce_existing sid xs t)
      (IsQuiet-ite x sid s s told refl
        (tell_member-IsQuiet sid (get x s.media) (context_of s.presence x) s))
      (announce-IsQuiet sid xs t)

pub create_recv-IsMild :
    (s : Sfu) (sid : String) (answer : Option String)
    → IsMild s (create_recv_transport s sid answer)
unfolding create_recv_transport emit_transport_created
create_recv-IsMild s sid answer = elim (Option-cases (get sid s.media)) [
  | inl e ↦ rw (create_recv_transport, e) (IsMild-refl s)
  | inr (peer, e) ↦ elim (Option-cases (get sid s.presence.records)) [
    | inl f ↦ rw (create_recv_transport, e, f) (IsMild-refl s)
    | inr (r, f) ↦ elim (Option-cases (get r.room_id s.pool.routers)) [
      | inl k ↦ rw (create_recv_transport, e, f, k) (IsMild-refl s)
      | inr (router, k) ↦ elim (Option-cases answer) [
        | inl l ↦ rw (create_recv_transport, e, f, k, l) (IsMild-refl s)
        | inr (id, l) ↦
            let t =
              emit_transport_created sid "recv" id
                (record s { media = modify sid (set_recv id) s.media }) in
            let sockets = list_peer_sockets s.presence r.room_id in
            rw (create_recv_transport, e, f, k, l)
              (IsMild-trans s t (announce_existing sid sockets t)
                ((refl, refl), (changed-IsMild sid (set_recv id) s).1)
                (quiet-IsMild t (announce_existing sid sockets t) (announce-IsQuiet sid sockets t)))
      ]
    ]
  ]
]

pub create_consumer-IsMild :
    (s : Sfu) (sid producer_id : String) (answer : Option String)
    → IsMild s (create_consumer s sid producer_id answer)
unfolding create_consumer
create_consumer-IsMild s sid producer_id answer = elim (Option-cases (get sid s.media)) [
  | inl e ↦ rw (create_consumer, e) (IsMild-refl s)
  | inr (peer, e) ↦ elim (Option-cases peer.recv_transport) [
    | inl f ↦ rw (create_consumer, e, f) (IsMild-refl s)
    | inr (t, f) ↦ elim (Option-cases (router_of s sid)) [
      | inl k ↦ rw (create_consumer, e, f, k) (IsMild-refl s)
      | inr (router, k) ↦ elim (Option-cases (find_producer producer_id s.media)) [
        | inl l ↦ rw (create_consumer, e, f, k, l) (IsMild-refl s)
        | inr (p, l) ↦ elim (Option-cases answer) [
          | inl m ↦ rw (create_consumer, e, f, k, l, m) (IsMild-refl s)
          | inr (id, m) ↦
              rw (create_consumer, e, f, k, l, m)
                ((refl, refl), (changed-IsMild sid (add_consumer id producer_id) s).1)
        ]
      ]
    ]
  ]
]
