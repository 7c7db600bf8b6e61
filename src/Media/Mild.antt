-- ===== src/Media/Mild.antt =====
-- Producing and muting: operations on media that give no socket media and leave presence alone but for the events.
use zvonok.Prelude.{
  String, ◌≡◌, inl, inr, ◌∙◌, refl, sym, ap, subst, Bool, Option, none, some, List, [], ◌∷◌, arith,
  Option-cases, str_dec, ite, Map, get, modify, get-modify,
}
use zvonok.Presence.State.{State}
use zvonok.Presence.Rooms.{list_peer_sockets}
use zvonok.Presence.Lookup.{peer_socket_in_room}
use zvonok.Presence.Control.{SfuHostActionAck, ok, not_found}
use zvonok.Media.State.{Sfu, MediaPeer, Call}
use zvonok.Media.Producers.{
  Producing, ProducePayload, produce_error, finish_produce, create_producer,
}
use zvonok.Media.Closing.{close_producer_for_peer}
use zvonok.Media.Muting.{
  own_producer, change_producer, set_producer, mute_media, mute_room_peer, mute_target, mute_peer,
  deny_host_action, publishers, mute_each, mute_all,
}
use zvonok.Media.Quiet.{IsQuiet, kept, finish_produce-IsQuiet}
use zvonok.Media.Guards.{produce_guarded}
use zvonok.Media.Leaving.{close_producer-Lets}
use zvonok.Media.Attached.{IsMild, IsMild-refl, IsMild-trans, none_published}

modify-none :
    (x k : String) (f : MediaPeer → MediaPeer) (m : Map MediaPeer)
    → get x m ≡ none
    → get x (modify k f m) ≡ none
modify-none x k f m e = elim (Option-cases (get k m)) [
  | inl n ↦ unfold modify in rw (modify, n) e
  | inr (v, n) ↦ elim (str_dec k x) [
    | yes p ↦ absurd (ground (arith, p, n, e))
    | no p ↦ ground (arith, get-modify x k f m v n, p, e)
  ]
]

pub quiet-IsMild : (s t : Sfu) → IsQuiet s t → IsMild s t
quiet-IsMild s t q = (
  (ap (λ (x : Sfu). x.presence.records) q, ap (λ (x : Sfu). x.presence.peer_detach_handlers) q),
  λ x e. ap (λ (u : Sfu). get x u.media) q ∙ e,
)

-- The media of one socket changes.
pub changed-IsMild :
    (k : String) (f : MediaPeer → MediaPeer) (s : Sfu)
    → IsMild s (record s { media = modify k f s.media })
changed-IsMild k f s = ((refl, refl), λ x e. modify-none x k f s.media e)

pub finish_produce-IsMild :
    (g : Producing) (answer : Option String) (s : Sfu) → IsMild s (finish_produce g answer s)
unfolding finish_produce produce_error kept
finish_produce-IsMild g none s = ((refl, refl), λ x e. e)
finish_produce-IsMild g (some id) s =
    IsMild-trans s (kept g id s) (finish_produce g (some id) s)
      ((refl, refl), λ x e. modify-none x g.sid _ s.media e)
      (quiet-IsMild (kept g id s) (finish_produce g (some id) s) (finish_produce-IsQuiet g id s))

pub create_producer-IsMild :
    (s : Sfu) (sid : String) (p : ProducePayload) (answer : Option String)
    → IsMild s (create_producer s sid p answer)
unfolding produce_error
create_producer-IsMild s sid p answer = elim (produce_guarded s sid p answer) [
  | inl (code, message, e) ↦ subst (IsMild s) (sym e) ((refl, refl), λ x n. n)
  | inr (g, may, e) ↦ subst (IsMild s) (sym e) (finish_produce-IsMild g answer s)
]

pub close_producer-IsMild :
    (sid id : String) (s : Sfu) → IsMild s (close_producer_for_peer sid id s)
close_producer-IsMild sid id s =
    let ((same, others), locks) = close_producer-Lets sid id s in
    (
      (ap (λ (p : State). p.records) same, ap (λ (p : State). p.peer_detach_handlers) same),
      λ x e. elim (str_dec x sid) [
        | yes p ↦
            unfold close_producer_for_peer in
            rw (close_producer_for_peer, sym (ap (λ z. get z s.media) p) ∙ e) e
        | no p ↦
            none_published (get x s.media) (get x (close_producer_for_peer sid id s).media)
              (others x p) e
      ],
    )

mute_room_peer-IsMild :
    (room target u : String) (s : Sfu) → IsMild s (mute_room_peer room target u s)
unfolding mute_room_peer
mute_room_peer-IsMild room target u s =
    ((refl, refl), λ x e. modify-none x target mute_media s.media e)

mute_each-IsMild :
    (room : String) (ts : List (String × String)) (s : Sfu) → IsMild s (mute_each room ts s)
unfolding mute_each
mute_each-IsMild room [] s = IsMild-refl s
mute_each-IsMild room ((y, u) ∷ ts) s =
    let t = mute_room_peer room y u s in
    IsMild-trans s t (mute_each room ts t) (mute_room_peer-IsMild room y u s)
      (mute_each-IsMild room ts t)

pub mute_all-IsMild : (s : Sfu) (sid : String) → IsMild s (mute_all s sid).0
unfolding mute_all
mute_all-IsMild s sid = elim (Option-cases (deny_host_action s sid)) [
  | inr (d, e) ↦ rw (mute_all, e) (IsMild-refl s)
  | inl e ↦ elim (Option-cases (get sid s.presence.records)) [
    | inl f ↦ rw (mute_all, e, f) (IsMild-refl s)
    | inr (r, f) ↦
        rw (mute_all, e, f)
          (mute_each-IsMild r.room_id (publishers s sid (list_peer_sockets s.presence r.room_id)) s)
  ]
]

ite-IsMild :
    (s : Sfu) (a b : String) (x y : Sfu × SfuHostActionAck)
    → IsMild s x.0
    → IsMild s y.0
    → IsMild s (ite (str_dec a b) x y).0
ite-IsMild s a b x y p q = elim (str_dec a b) as (λ d. IsMild s (ite d x y).0) [
  | yes e ↦ p
  | no e ↦ q
]

pub mute_peer-IsMild : (s : Sfu) (sid u : String) → IsMild s (mute_peer s sid u).0
unfolding mute_peer mute_target
mute_peer-IsMild s sid u = elim (Option-cases (deny_host_action s sid)) [
  | inr (d, e) ↦ rw (mute_peer, e) (IsMild-refl s)
  | inl e ↦ elim (Option-cases (get sid s.presence.records)) [
    | inl f ↦ rw (mute_peer, e, f) (IsMild-refl s)
    | inr (r, f) ↦ elim (Option-cases (peer_socket_in_room s.presence r.room_id u)) [
      | inl k ↦ rw (mute_peer, e, f, mute_target, k) (IsMild-refl s)
      | inr (t, k) ↦
          rw (mute_peer, e, f, mute_target, k)
            (ite-IsMild s t sid (s, not_found u) (mute_room_peer r.room_id t u s, ok)
              (IsMild-refl s) (mute_room_peer-IsMild r.room_id t u s))
    ]
  ]
]

pub change_producer-IsMild :
    (paused : Bool) (done : Call) (s : Sfu) (sid id : String)
    → IsMild s (change_producer paused done s sid id)
unfolding change_producer
change_producer-IsMild paused done s sid id = elim (Option-cases (own_producer s sid id)) [
  | inl e ↦ rw (change_producer, e) (IsMild-refl s)
  | inr ((p, r), e) ↦
      rw (change_producer, e)
        ((refl, refl), λ x n. modify-none x sid (set_producer id paused) s.media n)
]
