-- ===== src/Media/Quiet.antt =====
-- Steps that only say something: what `SfuService` stores is as before, but for the events and the
-- calls to the media library.
use zvonok.Prelude.{
  String, ◌≡◌, ◌∙◌, refl, ap, Bool, true, false, some, List, [], ◌∷◌, Bool-cases, Option-cases, inl,
  inr, str_dec, ite, if◌then◌else◌, get, put, modify,
}
use zvonok.Json.{Json}
use zvonok.Presence.State.{Effect}
use zvonok.Presence.Rooms.{emit_to_peer, list_peer_sockets}
use zvonok.Presence.Lookup.{context_of}
use zvonok.Media.State.{Sfu, Call, Producer, is_screen, tell, tell_peer}
use zvonok.Media.Producers.{
  Producing, notify_peers, notify_peers_to_consume, notify_tap_handlers, start_share, add_producer,
  created_json, produced, finish_produce,
}

abbrev pub said : Sfu → List Effect → List Call → Sfu
said s es cs = record s { presence = record s.presence { effects = es }; calls = cs }

abbrev pub IsQuiet : Sfu → Sfu → Type 0
IsQuiet s t = t ≡ said s t.presence.effects t.calls

pub IsQuiet-trans : (s t u : Sfu) → IsQuiet s t → IsQuiet t u → IsQuiet s u
IsQuiet-trans s t u p q = q ∙ ap (λ (x : Sfu). said x u.presence.effects u.calls) p

pub tell_peer-IsQuiet :
    (x name : String) (value : Json) (s : Sfu) → IsQuiet s (tell_peer x name value s)
unfolding emit_to_peer
tell_peer-IsQuiet x name value s = elim (Option-cases (get x s.presence.records)) [
  | inl e ↦ rw (emit_to_peer, e) refl
  | inr (r, e) ↦ rw (emit_to_peer, e) refl
]

pub IsQuiet-ite :
    (x y : String) (s t u : Sfu) → IsQuiet s t → IsQuiet s u → IsQuiet s (ite (str_dec x y) t u)
IsQuiet-ite x y s t u p q = elim (str_dec x y) as (λ d. IsQuiet s (ite d t u)) [
  | yes e ↦ p
  | no e ↦ q
]

pub IsQuiet-if :
    (b : Bool) (s t u : Sfu) → IsQuiet s t → IsQuiet s u → IsQuiet s (if b then t else u)
IsQuiet-if true s t u p q = p
IsQuiet-if false s t u p q = q

notify_peers-IsQuiet :
    (sid : String) (value : Json) (xs : List String) (s : Sfu)
    → IsQuiet s (notify_peers sid value xs s)
unfolding notify_peers
notify_peers-IsQuiet sid value [] s = refl
notify_peers-IsQuiet sid value (x ∷ xs) s =
    IsQuiet-trans s _ _
      (IsQuiet-ite x sid s s _ refl
        (IsQuiet-if _ s _ s (tell_peer-IsQuiet x "sfu:new-producer" value s) refl))
      (notify_peers-IsQuiet sid value xs _)

pub notify_peers_to_consume-IsQuiet :
    (sid : String) (p : Producer) (s : Sfu) → IsQuiet s (notify_peers_to_consume sid p s)
unfolding notify_peers_to_consume
notify_peers_to_consume-IsQuiet sid p s = elim (Option-cases (context_of s.presence sid)) [
  | inl e ↦ rw (notify_peers_to_consume, e) refl
  | inr (r, e) ↦
      rw (notify_peers_to_consume, e)
        (notify_peers-IsQuiet sid _ (list_peer_sockets s.presence r.room_id) s)
]

-- What a production writes down.
unfoldable pub kept : Producing → String → Sfu → Sfu
kept g id s = record s {
  media = modify g.sid (add_producer (produced g id)) s.media;
  room_screen_share =
      if is_screen g.source
      then put g.context.room_id g.sid s.room_screen_share
      else s.room_screen_share;
}

-- The stored part of a production, before anyone is told of it.
stored : Producing → String → Sfu → Sfu
stored g id s = record s { media = modify g.sid (add_producer (produced g id)) s.media }

start_share-IsQuiet :
    (g : Producing) (id : String) (s : Sfu) → IsQuiet (kept g id s) (start_share g (stored g id s))
unfolding start_share kept stored
start_share-IsQuiet g id s = elim (Bool-cases (is_screen g.source)) [
  | inl t ↦ rw (start_share, t) refl
  | inr f ↦ rw (start_share, f) refl
]

pub finish_produce-IsQuiet :
    (g : Producing) (id : String) (s : Sfu) → IsQuiet (kept g id s) (finish_produce g (some id) s)
unfolding finish_produce notify_tap_handlers stored
finish_produce-IsQuiet g id s =
    let p = produced g id in
    let shared = start_share g (stored g id s) in
    let answered = tell g.sid "sfu:producer-created" (created_json g p) shared in
    IsQuiet-trans (kept g id s) answered _
      (IsQuiet-trans (kept g id s) shared answered (start_share-IsQuiet g id s) refl)
      (IsQuiet-trans answered (notify_peers_to_consume g.sid p answered) _
        (notify_peers_to_consume-IsQuiet g.sid p answered) refl)
