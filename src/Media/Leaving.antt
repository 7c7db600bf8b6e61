-- ===== src/Media/Leaving.antt =====
-- The media of a member who is taken out, and what the others keep.
use zvonok.Prelude.{
  keys, String, ◌≡◌, ◌≢◌, inl, inr, refl, sym, ap, Bool, true, false, ◌&&◌, none, some, List, [],
  ◌∷◌, arith, Bool-cases, Option-cases, if◌then◌else◌, Map, get, remove, get-remove, modify,
}
use zvonok.Presence.State.{PresenceRecord}
use zvonok.Presence.Rooms.{list_peer_sockets}
use zvonok.Media.State.{
  Sfu, MediaPeer, Producer, is_screen, user_json, fan, call, close_transports, close_producer,
}
use zvonok.Media.Closing.{
  stop_share, release_share, drop_producer, close_producer_for_peer, close_producers,
  release_fallback, drop_media, detach_media, is_sharer,
}
use zvonok.Media.Spares.{
  producers_of, Spares, Spares-trans, LockKept, lock_trans, modify_published, SparesAll,
  quiet-SparesAll, stop_share-SparesAll,
}

-- Leaves the others and their locks alone.
abbrev pub Lets : String → Sfu → Sfu → Type 0
Lets sid s t = Spares sid s t × LockKept sid s t

Lets-trans : (sid : String) (s t u : Sfu) → Lets sid s t → Lets sid t u → Lets sid s u
Lets-trans sid s t u p q = (Spares-trans sid s t u p.0 q.0, lock_trans sid s t u p.1 q.1)

all-Lets : (sid : String) (s t : Sfu) → SparesAll sid s t → Lets sid s t
all-Lets sid s t p = (p.0, λ room. inl (ap (get room) p.1))

-- The member's lock of a room is taken away.
unlocked : String → Sfu → Sfu
unlocked room s = record s { room_screen_share = remove room s.room_screen_share }

is_sharer_lem :
    (shares : Map String) (room sid : String)
    → is_sharer shares room sid ≡ true
    → get room shares ≡ some sid
is_sharer_lem shares room sid h = ground (arith, h)

unlocked-Lets :
    (sid room : String) (s : Sfu)
    → is_sharer s.room_screen_share room sid ≡ true
    → Lets sid s (unlocked room s)
unfolding unlocked
unlocked-Lets sid room s h = (
  (refl, λ x ne. refl),
  λ k.
      ground (
        arith,
        is_sharer_lem s.room_screen_share room sid h,
        get-remove k room s.room_screen_share,
      ),
)

Lets-if :
    (sid : String) (b : Bool) (s t u : Sfu)
    → (b ≡ true → Lets sid s t)
    → Lets sid s u
    → Lets sid s (if b then t else u)
Lets-if sid true s t u p q = p refl
Lets-if sid false s t u p q = q

Lets-refl : (sid : String) (s : Sfu) → Lets sid s s
Lets-refl sid s = all-Lets sid s s (quiet-SparesAll sid s s refl)

release_share-Lets :
    (sid : String) (r : PresenceRecord) (p : Producer) (s : Sfu)
    → Lets sid s (release_share sid r p s)
unfolding release_share unlocked
release_share-Lets sid r p s =
    let freed = unlocked r.room_id s in
    let sockets = list_peer_sockets s.presence r.room_id in
    Lets-if sid (is_screen p.source && is_sharer s.room_screen_share r.room_id sid) s
      (stop_share sid r p.id sockets freed) s
      (λ e.
        Lets-trans sid s freed (stop_share sid r p.id sockets freed)
          (unlocked-Lets sid r.room_id s (ground (arith, e)))
          (all-Lets sid freed (stop_share sid r p.id sockets freed)
            (stop_share-SparesAll sid p.id r sockets freed)))
      (Lets-refl sid s)

pub close_producer-Lets :
    (sid id : String) (s : Sfu) → Lets sid s (close_producer_for_peer sid id s)
unfolding close_producer_for_peer
close_producer-Lets sid id s = elim (Option-cases (get sid s.media)) [
  | inl e ↦ rw (close_producer_for_peer, e) (Lets-refl sid s)
  | inr (peer, e) ↦ elim (Option-cases (get sid s.presence.records)) [
    | inl f ↦ rw (close_producer_for_peer, e, f) (Lets-refl sid s)
    | inr (r, f) ↦ elim (Option-cases (get id peer.producers)) [
      | inl k ↦ rw (close_producer_for_peer, e, f, k) (Lets-refl sid s)
      | inr (p, k) ↦
          let mid =
            call (close_producer id ∷ [])
              (record s { media = modify sid (drop_producer id) s.media }) in
          rw (close_producer_for_peer, e, f, k)
            (Lets-trans sid s mid (release_share sid r p mid)
              (
                (
                  refl,
                  λ x ne.
                      modify_published sid x (drop_producer id) s.media
                        (λ q same. absurd (ne (sym same))),
                ),
                λ room. inl refl,
              )
              (release_share-Lets sid r p mid))
    ]
  ]
]

close_producers-Lets :
    (sid : String) (ids : List String) (s : Sfu) → Lets sid s (close_producers sid ids s)
unfolding close_producers
close_producers-Lets sid [] s = Lets-refl sid s
close_producers-Lets sid (id ∷ ids) s =
    let next = close_producer_for_peer sid id s in
    Lets-trans sid s next (close_producers sid ids next) (close_producer-Lets sid id s)
      (close_producers-Lets sid ids next)

release_fallback-Lets :
    (sid : String) (r : PresenceRecord) (s : Sfu) → Lets sid s (release_fallback sid r s)
unfolding release_fallback unlocked
release_fallback-Lets sid r s =
    let freed = unlocked r.room_id s in
    let told = fan r.room_id "sfu:screen-share-stopped" (user_json r.user_id) (some sid) freed in
    Lets-if sid (is_sharer s.room_screen_share r.room_id sid) s told s
      (λ e.
        Lets-trans sid s freed told (unlocked-Lets sid r.room_id s e)
          (all-Lets sid freed told (quiet-SparesAll sid freed told refl)))
      (Lets-refl sid s)

release_fallback-lock :
    (sid : String) (r : PresenceRecord) (s : Sfu)
    → get r.room_id (release_fallback sid r s).room_screen_share ≢ some sid
unfolding release_fallback
release_fallback-lock sid r s h = elim (Bool-cases (is_sharer s.room_screen_share r.room_id sid)) [
  | inl e ↦ ground (arith, e, h, get-remove r.room_id r.room_id s.room_screen_share)
  | inr e ↦ ground (arith, e, h)
]

drop_media-Lets : (sid : String) (s : Sfu) → Lets sid s (drop_media sid s)
unfolding drop_media
drop_media-Lets sid s = (
  (refl, λ x ne. ap producers_of (ground (arith, get-remove x sid s.media, ne))),
  λ room. inl refl,
)

pub detach_clears :
    (s : Sfu) (sid : String) (peer : MediaPeer) (r : PresenceRecord)
    → get sid s.media ≡ some peer
    → get sid s.presence.records ≡ some r
    → (get sid (detach_media sid s).media ≡ none)
      × (get r.room_id (detach_media sid s).room_screen_share ≢ some sid)
      × Spares sid s (detach_media sid s)
      × LockKept sid s (detach_media sid s)
unfolding detach_media drop_media
detach_clears s sid peer r e f =
    let told = fan r.room_id "sfu:peer-media-detached" (user_json r.user_id) (some sid) s in
    let closed = close_producers sid (keys peer.producers) told in
    let freed = release_fallback sid r closed in
    let ended = call (close_transports peer) freed in
    let lets =
      Lets-trans sid s told (drop_media sid ended)
        (all-Lets sid s told (quiet-SparesAll sid s told refl))
        (Lets-trans sid told closed (drop_media sid ended)
          (close_producers-Lets sid (keys peer.producers) told)
          (Lets-trans sid closed freed (drop_media sid ended) (release_fallback-Lets sid r closed) (
            Lets-trans sid freed ended (drop_media sid ended)
              (all-Lets sid freed ended (quiet-SparesAll sid freed ended refl))
              (drop_media-Lets sid ended)))) in
    rw (detach_media, e, f)
      (
        ground (arith, get-remove sid sid freed.media),
        release_fallback-lock sid r closed,
        lets.0,
        lets.1,
      )
