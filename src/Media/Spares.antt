-- ===== src/Media/Spares.antt =====
-- What the end of a screen share leaves alone.
use zvonok.Prelude.{
  String, ◌≡◌, ◌≢◌, ◌⊎◌, inl, inr, ◌∙◌, refl, ap, Option, none, some, List, [], ◌∷◌, arith,
  Option-cases, str_dec, ite, Map, get, modify, get-modify,
}
use zvonok.Json.{object, field, text, end}
use zvonok.Presence.State.{State, PresenceRecord}
use zvonok.Media.State.{Sfu, MediaPeer, Producer, user_json, tell_peer, call, close_consumer}
use zvonok.Media.Closing.{
  consumer_of, drop_consumer, close_shared_consumer, lose_screen, stop_share,
}
use zvonok.Media.Quiet.{IsQuiet, tell_peer-IsQuiet}

abbrev pub producers_of : Option MediaPeer → Option (Map Producer)
producers_of none = none
producers_of (some peer) = some peer.producers

-- What a member publishes.
abbrev pub published : Sfu → String → Option (Map Producer)
published s x = producers_of (get x s.media)

-- Presence stays but for the events, and so does what every member other than `sid` publishes.
abbrev pub Spares : String → Sfu → Sfu → Type 0
Spares sid s t =
    (t.presence ≡ record s.presence { effects = t.presence.effects })
    × ((x : String) → x ≢ sid → published t x ≡ published s x)

pub Spares-trans : (sid : String) (s t u : Sfu) → Spares sid s t → Spares sid t u → Spares sid s u
Spares-trans sid s t u p q = (
  q.0 ∙ ap (λ (x : State). record x { effects = u.presence.effects }) p.0,
  λ x ne. q.1 x ne ∙ p.1 x ne,
)

-- The lock of a room is as before, unless it was the member's and is gone.
abbrev pub LockKept : String → Sfu → Sfu → Type 0
LockKept sid s t =
    (room : String)
    → (get room t.room_screen_share ≡ get room s.room_screen_share)
      ⊎ ((get room s.room_screen_share ≡ some sid) × (get room t.room_screen_share ≡ none))

pub lock_trans :
    (sid : String) (s t u : Sfu) → LockKept sid s t → LockKept sid t u → LockKept sid s u
lock_trans sid s t u p q room = ground (arith, p room, q room)

pub modify_published :
    (x y : String) (f : MediaPeer → MediaPeer) (m : Map MediaPeer)
    → ((peer : MediaPeer) → (x ≡ y) → (f peer).producers ≡ peer.producers)
    → producers_of (get y (modify x f m)) ≡ producers_of (get y m)
modify_published x y f m keeps = elim (Option-cases (get x m)) [
  | inl e ↦ unfold modify in rw (modify, e) refl
  | inr (peer, e) ↦ elim (str_dec x y) [
    | yes p ↦ ground (arith, get-modify y x f m peer e, p, e, keeps peer p)
    | no p ↦ ground (arith, get-modify y x f m peer e, p)
  ]
]

pub quiet-Spares : (sid : String) (s t : Sfu) → IsQuiet s t → Spares sid s t
quiet-Spares sid s t q = (ap (λ (x : Sfu). x.presence) q, λ x ne. ap (λ (u : Sfu). published u x) q)

close_shared-Spares :
    (sid producer_id x : String) (peer : MediaPeer) (s : Sfu)
    → Spares sid s (close_shared_consumer producer_id x peer s)
      × ((close_shared_consumer producer_id x peer s).room_screen_share ≡ s.room_screen_share)
unfolding close_shared_consumer drop_consumer
close_shared-Spares sid producer_id x peer s =
    elim (Option-cases (consumer_of producer_id peer.consumers)) [
      | inl e ↦ rw (close_shared_consumer, e) ((refl, λ y ne. refl), refl)
      | inr (c, e) ↦
          let mid =
            call (close_consumer c.id ∷ [])
              (record s { media = modify x (drop_consumer c.id) s.media }) in
          let said_so = object (field "consumerId" (text c.id) end) in
          rw (close_shared_consumer, e)
            (
              Spares-trans sid s mid (tell_peer x "sfu:consumer-closed" said_so mid)
                  (refl, λ y ne. modify_published x y (drop_consumer c.id) s.media (λ q same. refl))
                  (quiet-Spares sid mid _ (tell_peer-IsQuiet x "sfu:consumer-closed" said_so mid)),
              refl,
            )
    ]

-- Spares, with the locks as they are.
abbrev pub SparesAll : String → Sfu → Sfu → Type 0
SparesAll sid s t = Spares sid s t × (t.room_screen_share ≡ s.room_screen_share)

all_trans : (sid : String) (s t u : Sfu) → SparesAll sid s t → SparesAll sid t u → SparesAll sid s u
all_trans sid s t u p q = (Spares-trans sid s t u p.0 q.0, q.1 ∙ p.1)

pub quiet-SparesAll : (sid : String) (s t : Sfu) → IsQuiet s t → SparesAll sid s t
quiet-SparesAll sid s t q = (quiet-Spares sid s t q, ap (λ (x : Sfu). x.room_screen_share) q)

all_ite :
    (sid x y : String) (s t u : Sfu)
    → SparesAll sid s t
    → SparesAll sid s u
    → SparesAll sid s (ite (str_dec x y) t u)
all_ite sid x y s t u p q = elim (str_dec x y) as (λ d. SparesAll sid s (ite d t u)) [
  | yes e ↦ p
  | no e ↦ q
]

lose_screen-SparesAll :
    (sid producer_id : String) (r : PresenceRecord) (x : String) (s : Sfu)
    → SparesAll sid s (lose_screen r producer_id x s)
unfolding lose_screen
lose_screen-SparesAll sid producer_id r x s = elim (Option-cases (get x s.media)) [
  | inl e ↦ rw (lose_screen, e) (quiet-SparesAll sid s s refl)
  | inr (peer, e) ↦
      let mid = close_shared_consumer producer_id x peer s in
      let told = tell_peer x "sfu:screen-share-stopped" (user_json r.user_id) mid in
      rw (lose_screen, e)
        (all_trans sid s mid told (close_shared-Spares sid producer_id x peer s) (
          quiet-SparesAll sid mid told
            (tell_peer-IsQuiet x "sfu:screen-share-stopped" (user_json r.user_id) mid)))
]

pub stop_share-SparesAll :
    (sid producer_id : String) (r : PresenceRecord) (xs : List String) (s : Sfu)
    → SparesAll sid s (stop_share sid r producer_id xs s)
unfolding stop_share
stop_share-SparesAll sid producer_id r [] s = quiet-SparesAll sid s s refl
stop_share-SparesAll sid producer_id r (x ∷ xs) s =
    let lost = lose_screen r producer_id x s in
    let next = ite (str_dec x sid) s lost in
    all_trans sid s next (stop_share sid r producer_id xs next)
      (all_ite sid x sid s s lost (quiet-SparesAll sid s s refl)
        (lose_screen-SparesAll sid producer_id r x s))
      (stop_share-SparesAll sid producer_id r xs next)
