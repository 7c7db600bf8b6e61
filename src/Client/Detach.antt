-- ===== src/Client/Detach.antt =====
-- What the operations of the registry keep and report.
use zvonok.Prelude.{
  String, ◌≡◌, ◌⊎◌, inl, inr, refl, sym, ap, ◌∙◌, true, false, Option, none, some, [], ◌∷◌, arith,
  Bool-cases, Option-cases, get, put, get-put, get-remove,
}
use zvonok.Client.Registry.{
  ParticipantProducerInfo, ParticipantLifecycleInput, SfuParticipantInfo, Registry, new_peer,
  refreshed, upsert, attached, attach_producer, is_detached, mark_media_detached, remove_peer,
  find_producer, clear,
}

-- Every participant of a registry is stored under its own id.
abbrev pub IsKeyed : Registry → Type 0
IsKeyed peers =
    (k : String) (peer : SfuParticipantInfo) → get k peers ≡ some peer → peer.user_id ≡ k

-- The calls that change a registry, in any order.
pub data Change : Registry → Registry → Type 0 where
  upserts :
      (input : ParticipantLifecycleInput) (peers : Registry) → Change peers (upsert input peers).0
  attaches :
      (user_id producer_id : String) (info : ParticipantProducerInfo) (peers : Registry)
      → Change peers (attach_producer user_id producer_id info peers)
  detaches :
      (user_id : String) (peers : Registry) → Change peers (mark_media_detached user_id peers).0
  removes : (user_id : String) (peers : Registry) → Change peers (remove_peer user_id peers).0
  clears : (peers : Registry) → Change peers (clear peers)

pub data Changes (peers : Registry) : Registry → Type 0 where
  here : Changes peers peers
  next : {t u : Registry} → Changes peers t → Change t u → Changes peers u

put-IsKeyed :
    (k : String) (peer : SfuParticipantInfo) (peers : Registry)
    → peer.user_id ≡ k
    → IsKeyed peers
    → IsKeyed (put k peer peers)
put-IsKeyed k peer peers own v j q h = ground (arith, get-put j k peer peers, v j q, own)

clear-IsKeyed : IsKeyed []
unfolding get
clear-IsKeyed k peer h = cc

Change-IsKeyed : {s t : Registry} → Change s t → IsKeyed s → IsKeyed t
unfolding upsert attach_producer mark_media_detached remove_peer
Change-IsKeyed (upserts input peers) v = elim (Option-cases (get input.user_id peers)) [
  | inl e ↦ rw (upsert, e) (put-IsKeyed input.user_id (new_peer input) peers refl v)
  | inr (peer, e) ↦
      rw (upsert, e)
        (put-IsKeyed input.user_id (refreshed input peer) peers (v input.user_id peer e) v)
]
Change-IsKeyed (attaches user_id producer_id info peers) v =
    elim (Option-cases (get user_id peers)) [
      | inl e ↦ rw (attach_producer, e) v
      | inr (peer, e) ↦ rw (attach_producer, e) (put-IsKeyed user_id _ peers (v user_id peer e) v)
    ]
Change-IsKeyed (detaches user_id peers) v = elim (Option-cases (get user_id peers)) [
  | inl e ↦ rw (mark_media_detached, e) v
  | inr (peer, e) ↦ elim (Bool-cases (is_detached peer)) [
    | inl d ↦ rw (mark_media_detached, e, d) v
    | inr d ↦ rw (mark_media_detached, e, d) (put-IsKeyed user_id _ peers (v user_id peer e) v)
  ]
]
Change-IsKeyed (removes user_id peers) v =
    λ j q h. ground (arith, get-remove j user_id peers, v j q)
Change-IsKeyed (clears peers) v = clear-IsKeyed

-- However the registry is changed, each participant stays under its own id.
pub Changes-IsKeyed : {s t : Registry} → IsKeyed s → Changes s t → IsKeyed t
Changes-IsKeyed v here = v
Changes-IsKeyed v (next r c) = Change-IsKeyed c (Changes-IsKeyed v r)

abbrev pub gone_of : SfuParticipantInfo → SfuParticipantInfo
gone_of peer = record peer { media_connected = some false }

gone_of-is_detached : (peer : SfuParticipantInfo) → is_detached (gone_of peer) ≡ true
unfolding is_detached
gone_of-is_detached peer = refl

module _ (user_id : String) (peers : Registry) (peer : SfuParticipantInfo)
    (e : get user_id peers ≡ some peer) where
  mark_live :
      is_detached peer ≡ false
      → mark_media_detached user_id peers ≡ (put user_id (gone_of peer) peers, some (gone_of peer))
  unfolding mark_media_detached
  mark_live d = rw (mark_media_detached, e, d)

  mark_again : is_detached peer ≡ true → mark_media_detached user_id peers ≡ (peers, none)
  unfolding mark_media_detached
  mark_again d = rw (mark_media_detached, e, d)

  attach_live :
      (producer_id : String) (info : ParticipantProducerInfo)
      → (p : SfuParticipantInfo) × (get user_id (attach_producer user_id producer_id info peers)
          ≡ some p)
        × (is_detached p ≡ false)
  unfolding attach_producer is_detached
  attach_live producer_id info =
      rw (attach_producer, e)
        (
          attached producer_id info peer,
          ground (arith, get-put user_id user_id (attached producer_id info peer) peers),
          refl,
        )

  upsert_live :
      (input : ParticipantLifecycleInput)
      → input.user_id ≡ user_id
      → (p : SfuParticipantInfo) × (get user_id (upsert input peers).0 ≡ some p)
        × (is_detached p ≡ false)
        × (p.producers ≡ peer.producers)
  unfolding upsert is_detached
  upsert_live input w =
      rw (upsert, w, e)
        (
          refreshed input peer,
          ground (arith, w, get-put user_id user_id (refreshed input peer) peers),
          refl,
          refl,
        )

mark_reports :
    (user_id : String) (peers : Registry) (gone : SfuParticipantInfo)
    → (mark_media_detached user_id peers).1 ≡ some gone
    → (peer : SfuParticipantInfo) × (get user_id peers ≡ some peer) × (is_detached peer ≡ false)
unfolding mark_media_detached
mark_reports user_id peers gone h = elim (Option-cases (get user_id peers)) [
  | inl e ↦ absurd (ground (arith, e))
  | inr (peer, e) ↦ elim (Bool-cases (is_detached peer)) [
    | inl d ↦ absurd (ground (arith, e, d))
    | inr d ↦ (peer, e, d)
  ]
]

-- After a reported detachment the participant stays, with its producers, and a second call reports
-- nothing and changes nothing. Once a producer is attached, or the participant joins again, which
-- keeps its producers, the next detachment is reported.
pub detach_reported_once :
    (user_id producer_id : String) (info : ParticipantProducerInfo)
    (input : ParticipantLifecycleInput) (peers t : Registry) (gone : SfuParticipantInfo)
    → mark_media_detached user_id peers ≡ (t, some gone)
    → input.user_id ≡ user_id
    → (mark_media_detached user_id t ≡ (t, none))
      × ((p : SfuParticipantInfo) × ((mark_media_detached user_id
              (attach_producer user_id producer_id info t)).1
            ≡ some p))
      × ((p : SfuParticipantInfo) × ((mark_media_detached user_id (upsert input t).0).1 ≡ some p)
          × (p.producers ≡ gone.producers))
detach_reported_once user_id producer_id info input peers t gone h w =
    let (peer, e, d) =
      mark_reports user_id peers gone (ap (λ (x : Registry × Option SfuParticipantInfo). x.1) h) in
    let m = sym h ∙ mark_live user_id peers peer e d in
    let tt' = ap (λ (x : Registry × Option SfuParticipantInfo). x.0) m in
    let there : get user_id t ≡ some (gone_of peer) =
      ap (get user_id) tt' ∙ ground (arith, get-put user_id user_id (gone_of peer) peers) in
    let same : gone ≡ gone_of peer =
      ground (arith, ap (λ (x : Registry × Option SfuParticipantInfo). x.1) m) in
    let (p, a, b) = attach_live user_id t (gone_of peer) there producer_id info in
    let (q, c, f, g) = upsert_live user_id t (gone_of peer) there input w in
    (
      mark_again user_id t (gone_of peer) there (gone_of-is_detached peer),
      (
        gone_of p,
        ap (λ (x : Registry × Option SfuParticipantInfo). x.1) (mark_live user_id _ p a b),
      ),
      (
        gone_of q,
        ap (λ (x : Registry × Option SfuParticipantInfo). x.1) (mark_live user_id _ q c f),
        g ∙ ap (λ (x : SfuParticipantInfo). x.producers) (sym same),
      ),
    )

-- Somewhere in the registry the participant has announced the producer so.
abbrev pub Announces : String → Registry → String → ParticipantProducerInfo → Type 0
Announces producer_id [] u info = ⊥
Announces producer_id ((v, peer) ∷ peers) u info =
    ((v ≡ u) × (get producer_id peer.producers ≡ some info)) ⊎ Announces producer_id peers u info

not_here :
    (v u : String) (o : Option ParticipantProducerInfo) (info : ParticipantProducerInfo)
    → o ≡ none
    → ¬ ((v ≡ u) × (o ≡ some info))
not_here v u o info e h = ground (arith, e, h.1)

-- A search for a producer finds a participant that has announced it, with what was announced; where
-- it finds none, no participant of the registry has announced it.
pub find_producer_exact :
    (producer_id : String) (peers : Registry)
    → ((u : String) × (info : ParticipantProducerInfo) × (find_producer producer_id peers
          ≡ some (u, info))
        × Announces producer_id peers u info)
      ⊎ ((find_producer producer_id peers ≡ none)
          × ((u : String) (info : ParticipantProducerInfo) → ¬ Announces producer_id peers u info))
unfolding find_producer
find_producer_exact producer_id [] = inr (refl, λ u info a. a)
find_producer_exact producer_id ((u, peer) ∷ peers) =
    elim (Option-cases (get producer_id peer.producers)) [
      | inr (info, e) ↦ inl (u, info, rw (find_producer, e) refl, inl (refl, e))
      | inl e ↦ elim (find_producer_exact producer_id peers) [
        | inl (v, info, f, a) ↦ inl (v, info, rw (find_producer, e) f, inr a)
        | inr (f, nobody) ↦ inr (
          rw (find_producer, e) f,
          λ v info a. elim a [ inl s ↦ not_here u v _ info e s | inr m ↦ nobody v info m ],
        )
      ]
    ]
