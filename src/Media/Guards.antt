-- ===== src/Media/Guards.antt =====
-- What a member may produce, and who shares the screen of a room.
use zvonok.Prelude.{
  String, ◌≡◌, ◌⊎◌, inl, inr, ◌∙◌, refl, ap, true, false, ◌&&◌, Option, none, some, arith,
  Bool-cases, Option-cases, str_dec, Map, subst, get, truthy,
}
use zvonok.Capabilities.{includes}
use zvonok.Media.State.{Sfu, MediaPeer, is_screen}
use zvonok.Media.Producers.{
  ProducePayload, ProduceErrorCode, produce_error, source_of, required, is_shared_by_other,
  Producing, Begun, refused, begun, produce_checks, begin_produce, send_transport_of,
  finish_produce, act_on, create_producer,
}

-- The sender is in a room, may send such media, names its own send transport, and no one else shares a
-- screen there if it wants to.
abbrev pub MayProduce : Sfu → String → ProducePayload → Producing → Type 0
MayProduce s sid p g =
    (get sid s.presence.records ≡ some g.context)
    × (includes g.context.capabilities (required (source_of p.source) p.kind) ≡ true)
    × ((peer : MediaPeer) × (get sid s.media ≡ some peer)
        × (peer.send_transport ≡ some p.transport_id))
    × (is_screen (source_of p.source) ≡ true
        → (sharer : String) → get g.context.room_id s.room_screen_share ≡ some sharer
        → (sharer ≡ sid) ⊎ (sharer ≡ ""))
    × (g ≡ record { sid = sid; context = g.context; payload = p; source = source_of p.source })

not_shared_lem :
    (shares : Map String) (room sid sharer : String)
    → is_shared_by_other shares room sid ≡ false
    → get room shares ≡ some sharer
    → (sharer ≡ sid) ⊎ (sharer ≡ "")
unfolding is_shared_by_other truthy
not_shared_lem shares room sid sharer h e = elim (str_dec sharer "") [
  | yes q ↦ inr q
  | no q ↦ elim (str_dec sharer sid) [
    | yes q' ↦ inl q'
    | no q' ↦ absurd (ground (arith, h, e, q, q'))
  ]
]

send_transport-get :
    (o : Option MediaPeer) (t : String)
    → send_transport_of o ≡ some t
    → (peer : MediaPeer) × (o ≡ some peer) × (peer.send_transport ≡ some t)
send_transport-get none t h = absurd (cc)
send_transport-get (some peer) t h = (peer, refl, h)

produce_checks_lem :
    (s : Sfu) (sid : String) (p : ProducePayload) (g : Producing)
    → produce_checks s sid p ≡ begun g
    → MayProduce s sid p g
unfolding produce_checks
produce_checks_lem s sid p g h = elim (Option-cases (get sid s.presence.records)) [
  | inl e ↦ absurd (ground (arith, e, h))
  | inr (r, e) ↦
      elim (Bool-cases (includes r.capabilities (required (source_of p.source) p.kind))) [
        | inr f ↦ absurd (ground (arith, e, f, h))
        | inl f ↦ elim (Option-cases (send_transport_of (get sid s.media))) [
          | inl k ↦ absurd (ground (arith, e, f, k, h))
          | inr (t, k) ↦ elim (str_dec t p.transport_id) [
            | no q ↦ absurd (ground (arith, e, f, k, q, h))
            | yes q ↦
                elim (Bool-cases (
                  is_screen (source_of p.source)
                  && is_shared_by_other s.room_screen_share r.room_id sid)) [
                    | inl w ↦ absurd (ground (arith, e, f, k, q, w, h))
                    | inr w ↦
                        let one : record {
                          sid = sid;
                          context = r;
                          payload = p;
                          source = source_of p.source;
                        }
                            ≡ g =
                          ground (arith, e, f, k, q, w, h) in
                        let (peer, there, sends) = send_transport-get (get sid s.media) t k in
                        subst (λ (x : Producing). MayProduce s sid p x) one
                          (
                            e,
                            f,
                            (peer, there, sends ∙ ap some q),
                            (λ scr sharer at.
                                not_shared_lem s.room_screen_share r.room_id sid sharer
                                  (ground (arith, scr, w)) at),
                            refl,
                          )
                  ]
          ]
        ]
      ]
]

Begun-cases :
    (b : Begun)
    → ((code : ProduceErrorCode) × (message : String) × (b ≡ refused code message))
      ⊎ ((g : Producing) × (b ≡ begun g))
Begun-cases (refused code message) = inl (code, message, refl)
Begun-cases (begun g) = inr (g, refl)

refused_lem :
    (s : Sfu) (sid : String) (p : ProducePayload) (code : ProduceErrorCode) (message : String)
    → produce_checks s sid p ≡ refused code message
    → begin_produce s sid p ≡ (produce_error sid p.request_id code message s, none)
unfolding begin_produce
refused_lem s sid p code message e = rw (begin_produce, e) refl

passed_lem :
    (s : Sfu) (sid : String) (p : ProducePayload) (g : Producing)
    → produce_checks s sid p ≡ begun g
    → begin_produce s sid p ≡ (s, some g)
unfolding begin_produce
passed_lem s sid p g e = rw (begin_produce, e) refl

pub begun_lem :
    (s : Sfu) (sid : String) (p : ProducePayload) (g : Producing)
    → begin_produce s sid p ≡ (s, some g)
    → MayProduce s sid p g
unfolding begin_produce
begun_lem s sid p g h = elim (Begun-cases (produce_checks s sid p)) [
  | inl (code, message, e) ↦ absurd (ground (arith, e, h))
  | inr (g', e) ↦ produce_checks_lem s sid p g (ground (arith, e, h))
]

pub produce_guarded :
    (s : Sfu) (sid : String) (p : ProducePayload) (answer : Option String)
    → ((code : ProduceErrorCode) × (message : String) × (create_producer s sid p answer
          ≡ produce_error sid p.request_id code message s))
      ⊎ ((g : Producing) × MayProduce s sid p g
          × (create_producer s sid p answer ≡ finish_produce g answer s))
unfolding create_producer
produce_guarded s sid p answer = elim (Begun-cases (produce_checks s sid p)) [
  | inl (code, message, e) ↦
      inl (code, message, ap (act_on answer) (refused_lem s sid p code message e))
  | inr (g, e) ↦
      inr (g, produce_checks_lem s sid p g e, ap (act_on answer) (passed_lem s sid p g e))
]
