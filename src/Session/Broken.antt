-- ===== src/Session/Broken.antt =====
-- A lost socket, and the socket that comes back.
use zvonok.Prelude.{
  elim_cases, ℕ, String, Bool, true, false, Option, none, some, List, [], ◌∷◌, ◌++◌, ◌≡◌, refl, ap,
  ◌∙◌, arith,
}
use zvonok.Json.{Json}
use zvonok.Session.State.{
  Manager, reconnecting, emit_join, Track, Intent, JoinPayload, nothing, closed, act,
}
use zvonok.Session.Producers.{
  retain_local_produces, live_intents, intents, close_publishing, close_calls, rejections,
}
use zvonok.Session.Subscribe.{close_consumers, clear_pending_producers}
use zvonok.Session.Recovery.{
  recoverable, show_connection, close_all, reset_media_state, allow_rejoin, join_room, join_request,
  rejoin, handle_connected, handle_disconnected,
}
use zvonok.Session.Facade.{on_connected, on_disconnected}
use zvonok.Session.Core.{joins, joins-append}
use zvonok.Session.Queue.{settlements, settle_all}
use zvonok.Session.Events.{recoverable-cases}

-- The intents to publish again, of a session without media that can be recovered.
abbrev pub IsBroken : List Intent → JoinPayload → Manager → Type 0
IsBroken is p s =
    (s.retained ≡ is)
    × (s.pending_local ≡ [])
    × (s.producers ≡ [])
    × (s.in_progress ≡ [])
    × (s.send_transport ≡ none)
    × (s.session_established ≡ true)
    × (s.last_join_payload ≡ some p)

-- What is to be published again after a break.
abbrev pub to_restore : (Track → Bool) → Manager → List Intent
to_restore live s = live_intents live s.producers ++ intents s.pending_local

close_publishing_lem :
    (s : Manager)
    → close_publishing s
      ≡ act (settlements closed s.pending_local) (
          act (close_calls s.producers ++ rejections s.pending_requests) (record s {
            producers = [];
            in_progress = [];
            pending_requests = [];
            pending_local = [];
          }))
unfolding close_publishing
close_publishing_lem s = settle_all closed s.pending_local _

pub closed-IsBroken :
    (is : List Intent) (p : JoinPayload) (s : Manager)
    → s.retained ≡ is
    → s.session_established ≡ true
    → s.last_join_payload ≡ some p
    → IsBroken is p (close_all s)
      × ((close_all s).rejoin_times ≡ s.rejoin_times)
      × ((close_all s).socket ≡ s.socket)
unfolding close_all close_consumers
closed-IsBroken is p s a b c =
    rw (close_publishing_lem s) ((a, refl, refl, refl, refl, b, c), refl, refl)

pub retain_lem :
    (live : Track → Bool) (s : Manager)
    → retain_local_produces live s
      ≡ act
          (settlements nothing s.pending_local)
          (record s { retained = s.retained ++ to_restore live s; pending_local = [] })
unfolding retain_local_produces
retain_lem live s = settle_all nothing s.pending_local _

-- The socket is lost, and what was published is held.
pub on_disconnected-IsBroken :
    (live : Track → Bool) (s : Manager) (p : JoinPayload) (c : Bool)
    → recoverable s ≡ some p
    → s.socket ≡ some c
    → IsBroken (s.retained ++ to_restore live s) p (on_disconnected live s)
      × ((on_disconnected live s).rejoin_times ≡ s.rejoin_times)
      × ((on_disconnected live s).socket ≡ some false)
unfolding on_disconnected handle_disconnected recoverable reset_media_state clear_pending_producers
on_disconnected-IsBroken live s p c e f =
    let P = λ (z : Manager).
      IsBroken (s.retained ++ to_restore live s) p z
      × (z.rejoin_times ≡ s.rejoin_times)
      × (z.socket ≡ some false) in
    let t = show_connection reconnecting (record s { socket = some false }) in
    let u = retain_local_produces live t in
    let (est, last) = recoverable-cases s p e in
    elim_cases P s.socket _ _ (λ k. absurd (ground (arith, f, k)))
      (λ x k.
        elim_cases P (recoverable s) _ _ (λ m. absurd (ground (arith, e, m)))
          (λ q m.
            let held : u.retained ≡ s.retained ++ to_restore live s =
              ap (λ (z : Manager). z.retained) (retain_lem live t) in
            let (broken, times, sock) =
              closed-IsBroken (s.retained ++ to_restore live s) p u held
                (ap (λ (z : Manager). z.session_established) (retain_lem live t) ∙ est)
                (ap (λ (z : Manager). z.last_join_payload) (retain_lem live t) ∙ last) in
            (
              broken,
              times ∙ ap (λ (z : Manager). z.rejoin_times) (retain_lem live t),
              sock ∙ ap (λ (z : Manager). z.socket) (retain_lem live t),
            )))

-- The socket comes back, and the client asks to join again.
pub on_connected-IsBroken :
    (decode : String → Option Json) (now : ℕ) (is : List Intent) (p : JoinPayload) (s : Manager)
    (c : Bool)
    → s.socket ≡ some c
    → (allow_rejoin now s.rejoin_times).1 ≡ true
    → IsBroken is p s
    → IsBroken is p (on_connected decode now s)
      × ((on_connected decode now s).socket ≡ some true)
      × (joins (on_connected decode now s).acts ≡ joins s.acts ++ join_request decode p ∷ [])
unfolding on_connected handle_connected rejoin join_room recoverable joins
on_connected-IsBroken decode now is p s c f allowed (a, b, d, e, g, est, last) =
    let P = λ (z : Manager).
      IsBroken is p z
      × (z.socket ≡ some true)
      × (joins z.acts ≡ joins s.acts ++ join_request decode p ∷ []) in
    elim_cases P s.socket _ _ (λ k. absurd (ground (arith, f, k)))
      (λ x k.
        rw (est, last, allowed)
          (
            (a, b, d, e, g, refl, refl),
            refl,
            joins-append s.acts (emit_join (join_request decode p) ∷ []),
          ))
