-- ===== src/Media/Screens.antt =====
-- Two members who share the screen of a room at once.
use zvonok.Prelude.{
  String, ◌≡◌, ◌≢◌, ◌∙◌, ap, true, some, arith, get, put, get-put, modify, get-modify,
}
use zvonok.Media.State.{Sfu, MediaPeer, Producer, is_screen}
use zvonok.Media.Producers.{
  ProducePayload, source_of, Producing, begin_produce, add_producer, produced, finish_produce,
}
use zvonok.Media.Quiet.{kept, finish_produce-IsQuiet}
use zvonok.Media.Guards.{MayProduce, begun_lem}

-- The socket has a producer of a screen with the id.
abbrev pub Shares : Sfu → String → String → Type 0
Shares s sid id =
    (peer : MediaPeer) × (q : Producer) × (get sid s.media ≡ some peer)
    × (get id peer.producers ≡ some q)
    × (is_screen q.source ≡ true)

-- A finished production of someone who may share a screen.
module _ (s : Sfu) (sid : String) (p : ProducePayload) (g : Producing) (id : String)
    (m : MayProduce s sid p g) (scr : is_screen (source_of p.source) ≡ true) where
  shared-lock :
      (t : Sfu)
      → (finish_produce g (some id) t).room_screen_share
        ≡ put g.context.room_id sid t.room_screen_share
  unfolding kept
  shared-lock t =
      let (a, b, c, d, e) = m in
      let own : g.sid ≡ sid = ap (λ (z : Producing). z.sid) e in
      let screen : is_screen g.source ≡ true = ap (λ (z : Producing). is_screen z.source) e ∙ scr in
      ap (λ (z : Sfu). z.room_screen_share) (finish_produce-IsQuiet g id t)
      ∙ ground (arith, own, screen)

  shared-media :
      (t : Sfu)
      → (finish_produce g (some id) t).media ≡ modify sid (add_producer (produced g id)) t.media
  unfolding kept
  shared-media t =
      let (a, b, c, d, e) = m in
      let own : g.sid ≡ sid = ap (λ (z : Producing). z.sid) e in
      ap (λ (z : Sfu). z.media) (finish_produce-IsQuiet g id t)
      ∙ ap (λ k. modify k (add_producer (produced g id)) t.media) own

  shared-Shares :
      (t : Sfu) (peer : MediaPeer)
      → get sid t.media ≡ some peer
      → get sid (finish_produce g (some id) t).media ≡ some (add_producer (produced g id) peer)
  shared-Shares t peer there =
      ap (get sid) (shared-media t)
      ∙ ground (arith, get-modify sid sid (add_producer (produced g id)) t.media peer there)

added-Shares :
    (s u : Sfu) (sid : String) (p : ProducePayload) (g : Producing) (id : String) (peer : MediaPeer)
    → MayProduce s sid p g
    → is_screen (source_of p.source) ≡ true
    → get sid u.media ≡ some (add_producer (produced g id) peer)
    → Shares u sid id
unfolding add_producer
added-Shares s u sid p g id peer (a, b, c, d, e) scr there = (
  add_producer (produced g id) peer,
  produced g id,
  there,
  ground (arith, get-put id id (produced g id) peer.producers),
  ap (λ (z : Producing). is_screen z.source) e ∙ scr,
)

-- The lock on sharing a screen is read before the media library is awaited and taken after. Where two
-- members of a room both ask to share a screen and pass the checks before either is answered, both
-- come to share one, and the lock names the member who was answered last.
pub screen_race :
    (s : Sfu) (sid sid' : String) (p p' : ProducePayload) (g g' : Producing) (id id' : String)
    → begin_produce s sid p ≡ (s, some g)
    → begin_produce s sid' p' ≡ (s, some g')
    → is_screen (source_of p.source) ≡ true
    → is_screen (source_of p'.source) ≡ true
    → sid ≢ sid'
    → g'.context.room_id ≡ g.context.room_id
    → Shares (finish_produce g' (some id') (finish_produce g (some id) s)) sid id
      × Shares (finish_produce g' (some id') (finish_produce g (some id) s)) sid' id'
      × (get g.context.room_id
            (finish_produce g' (some id') (finish_produce g (some id) s)).room_screen_share
          ≡ some sid')
unfolding begin_produce
screen_race s sid sid' p p' g g' id id' h h' scr scr' ne same =
    let m = begun_lem s sid p g h in
    let m' = begun_lem s sid' p' g' h' in
    let t = finish_produce g (some id) s in
    let u = finish_produce g' (some id') t in
    let (a, b, (peer, there, sends), d, e) = m in
    let (a', b', (peer', there', sends'), d', e') = m' in
    let mine : get sid t.media ≡ some (add_producer (produced g id) peer) =
      shared-Shares s sid p g id m scr s peer there in
    let theirs : get sid' t.media ≡ some peer' =
      ap (get sid') (shared-media s sid p g id m scr s)
      ∙ ground (
        arith,
        get-modify sid' sid (add_producer (produced g id)) s.media peer there,
        there',
        ne,
      ) in
    (
      added-Shares s u sid p g id peer m scr (
          ap (get sid) (shared-media s sid' p' g' id' m' scr' t)
          ∙ ground (
            arith,
            get-modify sid sid' (add_producer (produced g' id')) t.media peer' theirs,
            mine,
            ne,
          )),
      added-Shares s u sid' p' g' id' peer' m' scr'
          (shared-Shares s sid' p' g' id' m' scr' t peer' theirs),
      ap (get g.context.room_id) (shared-lock s sid' p' g' id' m' scr' t)
          ∙ ground
              (arith, get-put g.context.room_id g'.context.room_id sid' t.room_screen_share, same),
    )
