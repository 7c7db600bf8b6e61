-- ===== src/Session/Events.antt =====
-- The events of the connection and of the session keep the client sound.
use zvonok.Prelude.{
  if_cases, elim_cases, ℕ, ◌≤◌, String, Bool, true, false, Option, none, some, List, [], ◌∷◌, ◌≡◌,
  refl, sym, subst, inl, inr, arith, Option-cases, Bool-cases, length, length-append,
}
use zvonok.Json.{Json}
use zvonok.Session.State.{
  Manager, connecting, reconnecting, connected, failed, Track, JoinPayload, emit_join, act,
}
use zvonok.Session.Producers.{
  produce_all, unanswered, retain_local_produces, replay_retained_produces,
}
use zvonok.Session.Recovery.{
  recoverable, show_connection, close_all, reset_media_state, filter_recent, allow_rejoin,
  join_room, join_request, either_options, rejoin, handle_connected, handle_disconnected,
  handle_reconnect_failed,
}
use zvonok.Session.Facade.{on_connected, on_disconnected}
use zvonok.Session.Sound.{IsSound, SoundCore, produce_all-Keeps, retain-core}
use zvonok.Session.Quiet.{
  Quiet, Keeps-Quiet, mild-Quiet, Quiet-trans, reset_all-Keeps, fail_recovery-Quiet,
}

pub recoverable-cases :
    (s : Manager) (p : JoinPayload)
    → recoverable s ≡ some p
    → (s.session_established ≡ true) × (s.last_join_payload ≡ some p)
unfolding recoverable
recoverable-cases s p e = elim (Bool-cases s.session_established) [
  | inl f ↦ (f, rw f at e)
  | inr f ↦ absurd (ground (arith, e, f))
]

-- Where a session can be recovered, soundness is all that is asked.
pub active-Quiet :
    (s t : Manager) (p : JoinPayload)
    → s.last_join_payload ≡ some p
    → (IsSound s → IsSound t)
    → Quiet s t
active-Quiet s t p e h = (h, λ f. absurd (ground (arith, e, f)))

pub retain-IsSound :
    (live : Track → Bool) (s : Manager) (p : JoinPayload)
    → recoverable s ≡ some p
    → IsSound s
    → IsSound (retain_local_produces live s)
retain-IsSound live s p e (held, devices, bounded, flushed, rated) =
    let (f, g) = recoverable-cases s p e in
    subst SoundCore (sym (retain-core live s)) (
      (λ k. absurd (ground (arith, g, k)), λ k. absurd (ground (arith, f, k))),
      devices,
      omega arith,
      λ t k. refl,
      rated,
    )

pub replay-Quiet : (live : Track → Bool) (s : Manager) → Quiet s (replay_retained_produces live s)
unfolding replay_retained_produces
replay-Quiet live s =
    let t = record s { retained = [] } in
    Quiet-trans s t (produce_all live (unanswered s.retained) t)
      (
        λ (held, devices, bounded, flushed, rated).
            ((λ e. refl, λ e. refl), devices, bounded, flushed, rated),
        λ e. (e, refl),
      )
      (Keeps-Quiet t (produce_all live (unanswered s.retained) t)
        (produce_all-Keeps live (unanswered s.retained) t))

pub handle_disconnected-Quiet :
    (live : Track → Bool) (s : Manager) → Quiet s (handle_disconnected live s)
unfolding handle_disconnected recoverable
handle_disconnected-Quiet live s =
    elim_cases (Quiet s) (recoverable s) _ _
      (λ e.
        let t = show_connection connecting s in
        Quiet-trans s t (reset_media_state (close_all t)) (mild-Quiet s t refl)
          (Keeps-Quiet t (reset_media_state (close_all t)) (reset_all-Keeps t)))
      (λ p e.
        let t = show_connection reconnecting s in
        let u = retain_local_produces live t in
        active-Quiet s (reset_media_state (close_all u)) p (recoverable-cases s p e).1
          (λ h. (reset_all-Keeps u).0 (retain-IsSound live t p e h)))

pub on_disconnected-Quiet : (live : Track → Bool) (s : Manager) → Quiet s (on_disconnected live s)
unfolding on_disconnected
on_disconnected-Quiet live s =
    elim_cases (Quiet s) s.socket _ _ (λ e. mild-Quiet s s refl)
      (λ c e. handle_disconnected-Quiet live (record s { socket = some false }))

pub handle_reconnect_failed-Quiet : (s : Manager) → Quiet s (handle_reconnect_failed s)
unfolding handle_reconnect_failed
handle_reconnect_failed-Quiet s =
    elim_cases (Quiet s) (recoverable s) _ _ (λ e. mild-Quiet s (show_connection failed s) refl)
      (λ p e. fail_recovery-Quiet "reconnect-error" "RECONNECT_EXHAUSTED" s)

length-filter_recent : (now : ℕ) (ts : List ℕ) → length (filter_recent now ts) ≤ length ts
unfolding filter_recent
length-filter_recent now [] = omega arith
length-filter_recent now (t ∷ ts) = ground (arith, length-filter_recent now ts)

pub length-allow_rejoin :
    (now : ℕ) (ts : List ℕ) → length ts ≤ 5 → length (allow_rejoin now ts).0 ≤ 5
unfolding allow_rejoin
length-allow_rejoin now ts h =
    ground (arith, length-filter_recent now ts, length-append (filter_recent now ts) (now ∷ []))

-- A request to join, where there is a socket.
pub join_room-IsSound :
    (decode : String → Option Json) (p : JoinPayload) (o : Option Bool) (s t : Manager)
    → join_room decode p o s ≡ some t
    → IsSound s
    → IsSound t
unfolding join_room
join_room-IsSound decode p o s t e ((held, held_too), devices, bounded, flushed, rated) =
    elim (Option-cases s.socket) [
      | inl f ↦ absurd (ground (arith, e, f))
      | inr (c, f) ↦
          let made : act (emit_join (join_request decode p) ∷ []) (record s {
            join_options = either_options o s.join_options;
            last_join_payload = some p;
          })
              ≡ t =
            ground (arith, e, f) in
          subst IsSound made ((λ k. absurd (cc), held_too), devices, bounded, flushed, rated)
    ]

rejoin-IsSound :
    (decode : String → Option Json) (now : ℕ) (p : JoinPayload) (s : Manager)
    → IsSound s
    → IsSound (rejoin decode now p s)
unfolding rejoin
rejoin-IsSound decode now p s (held, devices, bounded, flushed, rated) =
    let t = record s { rejoin_times = (allow_rejoin now s.rejoin_times).0 } in
    let u = record t { token_refresh_attempted = false } in
    let sound : IsSound t =
      (held, devices, bounded, flushed, length-allow_rejoin now s.rejoin_times rated) in
    if_cases IsSound (allow_rejoin now s.rejoin_times).1 _ _
      (λ e. elim (Option-cases (join_room decode p none u)) [
        | inl f ↦ rw f sound
        | inr (w, f) ↦ rw f (join_room-IsSound decode p none u w f sound)
      ])
      (λ e. (fail_recovery-Quiet "reconnect-error" "RECONNECT_EXHAUSTED" t).0 sound)

pub on_connected-Quiet :
    (decode : String → Option Json) (now : ℕ) (s : Manager) → Quiet s (on_connected decode now s)
unfolding on_connected handle_connected
on_connected-Quiet decode now s =
    let t = record s { socket = some true } in
    elim_cases (Quiet s) s.socket _ _ (λ e. mild-Quiet s s refl)
      (λ c e.
        elim_cases (Quiet s) (recoverable t) _ _
          (λ f. mild-Quiet s (show_connection connected t) refl)
          (λ p f.
            active-Quiet s (rejoin decode now p t) p (recoverable-cases t p f).1
              (λ h. rejoin-IsSound decode now p t h)))
