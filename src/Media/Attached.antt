-- ===== src/Media/Attached.antt =====
-- A socket with media is known to the presence service, which will tell of its departure.
use zvonok.Prelude.{
  String, ◌≡◌, ◌≢◌, ◌⊎◌, inl, inr, ◌∙◌, refl, sym, ap, subst, true, Option, none, some, List, [],
  ◌∷◌, arith, Bool-cases, Option-cases, str_dec, truthy, get, get-remove,
}
use zvonok.Presence.State.{State, PresenceRecord}
use zvonok.Presence.Rooms.{list_peer_sockets}
use zvonok.Media.State.{Sfu, MediaPeer}
use zvonok.Media.Closing.{detach_media, drop_media}
use zvonok.Media.Sessions.{
  detach_handler, listens, run_detach, departs, with_presence, after_close, close_room_media,
  drop_member, drop_members, closed_handler,
}
use zvonok.Media.Spares.{producers_of}
use zvonok.Media.Leaving.{detach_clears}
use zvonok.Media.Frames.{SameMaps, Frames}

-- The presence service has a record of the socket, in a room, and the media layer's handler for it.
abbrev pub IsKnown : String → State → Type 0
IsKnown x p =
    (r : PresenceRecord) × (get x p.records ≡ some r)
    × (r.room_id ≢ "")
    × (listens detach_handler (get x p.peer_detach_handlers) ≡ true)

abbrev pub IsAttached : Sfu → Type 0
IsAttached s = (x : String) (peer : MediaPeer) → get x s.media ≡ some peer → IsKnown x s.presence

-- No socket comes to have media, and the records and handlers stay.
abbrev pub IsMild : Sfu → Sfu → Type 0
IsMild s t =
    SameMaps s.presence t.presence × ((x : String) → get x s.media ≡ none → get x t.media ≡ none)

pub IsMild-refl : (s : Sfu) → IsMild s s
IsMild-refl s = ((refl, refl), λ x e. e)

pub IsMild-trans : (s t u : Sfu) → IsMild s t → IsMild t u → IsMild s u
IsMild-trans s t u ((a, b), f) ((c, d), g) = ((c ∙ a, d ∙ b), λ x e. g x (f x e))

pub IsKnown-same :
    (x : String) (p q : State)
    → get x q.records ≡ get x p.records
    → get x q.peer_detach_handlers ≡ get x p.peer_detach_handlers
    → IsKnown x p
    → IsKnown x q
IsKnown-same x p q a b (r, e, n, l) = (r, a ∙ e, n, ap (listens detach_handler) b ∙ l)

pub mild-IsAttached : (s t : Sfu) → IsMild s t → IsAttached s → IsAttached t
mild-IsAttached s t ((a, b), f) h x peer e = elim (Option-cases (get x s.media)) [
  | inl n ↦ absurd (ground (arith, f x n, e))
  | inr (peer', n) ↦
      IsKnown-same x s.presence t.presence (ap (get x) a) (ap (get x) b) (h x peer' n)
]

drop_media-IsMild : (sid : String) (s : Sfu) → IsMild s (drop_media sid s)
unfolding drop_media
drop_media-IsMild sid s = ((refl, refl), λ x e. ground (arith, get-remove x sid s.media, e))

pub none_published :
    (o o' : Option MediaPeer) → producers_of o' ≡ producers_of o → o ≡ none → o' ≡ none
none_published none none p e = refl
none_published none (some peer) p e = absurd (cc)
none_published (some peer) o' p e = absurd (cc)

truthy_filled : (room : String) → room ≢ "" → truthy (some room) ≡ some room
unfolding truthy
truthy_filled room n = ground (arith, n)

run_detach_absent :
    (sid : String) (s : Sfu)
    → get sid s.media ≡ none
    → (run_detach sid s ≡ s) ⊎ (run_detach sid s ≡ drop_media sid s)
unfolding run_detach detach_media
run_detach_absent sid s e = elim (Option-cases (get sid s.presence.records)) [
  | inl f ↦ inl (rw (run_detach, f) refl)
  | inr (r, f) ↦ elim (Option-cases (truthy (some r.room_id))) [
    | inl k ↦ inl (rw (run_detach, f, k) refl)
    | inr (room, k) ↦
        elim (Bool-cases (listens detach_handler (get sid s.presence.peer_detach_handlers))) [
          | inl l ↦ inr (rw (run_detach, f, k, l, detach_media, e) refl)
          | inr l ↦ inl (rw (run_detach, f, k, l) refl)
        ]
  ]
]

-- The media of a member that departs is gone before its record is.
run_detach_lem :
    (sid : String) (s : Sfu)
    → IsAttached s
    → IsMild s (run_detach sid s) × (get sid (run_detach sid s).media ≡ none)
unfolding run_detach
run_detach_lem sid s h = elim (Option-cases (get sid s.media)) [
  | inr (peer, e) ↦
      let (r, f, n, l) = h sid peer e in
      let there : truthy (some r.room_id) ≡ some r.room_id = truthy_filled r.room_id n in
      let (gone, lock, (same, others), locks) = detach_clears s sid peer r e f in
      rw (run_detach, f, there, l)
        (
          (
            (ap (λ (p : State). p.records) same, ap (λ (p : State). p.peer_detach_handlers) same),
            λ x m. elim (str_dec x sid) [
              | yes p ↦ ap (λ z. get z (detach_media sid s).media) p ∙ gone
              | no p ↦
                  none_published (get x s.media) (get x (detach_media sid s).media) (others x p) m
            ],
          ),
          gone,
        )
  | inl e ↦ elim (run_detach_absent sid s e) [
    | inl same ↦
        subst (λ (t : Sfu). IsMild s t × (get sid t.media ≡ none)) (sym same) (IsMild-refl s, e)
    | inr same ↦
        subst (λ (t : Sfu). IsMild s t × (get sid t.media ≡ none)) (sym same)
          (drop_media-IsMild sid s, (drop_media-IsMild sid s).1 sid e)
  ]
]

drop_member-IsMild : (x : String) (s : Sfu) → IsMild s (drop_member x s)
unfolding drop_member drop_media
drop_member-IsMild x s = ((refl, refl), (drop_media-IsMild x s).1)

drop_members-IsMild : (xs : List String) (s : Sfu) → IsMild s (drop_members xs s)
unfolding drop_members
drop_members-IsMild [] s = IsMild-refl s
drop_members-IsMild (x ∷ xs) s =
    IsMild-trans s (drop_member x s) (drop_members xs (drop_member x s)) (drop_member-IsMild x s)
      (drop_members-IsMild xs (drop_member x s))

close_room_media-IsMild : (room : String) (s : Sfu) → IsMild s (close_room_media room s)
unfolding close_room_media
close_room_media-IsMild room s = drop_members-IsMild (list_peer_sockets s.presence room) s

pub after_close-IsMild :
    (room : String) (before : State) (s : Sfu) → IsMild s (after_close room before s)
unfolding after_close
after_close-IsMild room before s =
    elim (Bool-cases (listens closed_handler (get room before.room_closed_handlers))) [
      | inr e ↦ rw (after_close, e) (IsMild-refl s)
      | inl e ↦
          elim (Bool-cases (listens closed_handler (get room s.presence.room_closed_handlers))) [
            | inl f ↦ rw (after_close, e, f) (IsMild-refl s)
            | inr f ↦ rw (after_close, e, f) (close_room_media-IsMild room s)
          ]
    ]

-- Where the media of the one socket whose record may go is gone.
Frames-IsAttached :
    (sid : String) (s : Sfu) (q : State)
    → get sid s.media ≡ none
    → Frames sid s.presence q
    → IsAttached s
    → IsAttached (with_presence q s)
Frames-IsAttached sid s q gone f h x peer e = elim (str_dec x sid) [
  | yes p ↦ absurd (ground (arith, p, gone, e))
  | no p ↦ let (a, b) = f x p in IsKnown-same x s.presence q a b (h x peer e)
]

pub departs-IsAttached :
    (sid : String) (operation : State → State) (s : Sfu)
    → ((p : State) → Frames sid p (operation p))
    → IsAttached s
    → IsAttached (departs sid operation s)
unfolding departs
departs-IsAttached sid operation s f h =
    let t = run_detach sid s in
    let (mild, gone) = run_detach_lem sid s h in
    let u = with_presence (operation t.presence) t in
    mild-IsAttached u (departs sid operation s) (after_close-IsMild _ t.presence u) (
      Frames-IsAttached sid t (operation t.presence) gone (f t.presence)
        (mild-IsAttached s t mild h))
