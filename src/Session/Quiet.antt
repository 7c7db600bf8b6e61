-- ===== src/Session/Quiet.antt =====
-- Operations that keep the client sound and ask for nothing more: the teardowns.
use zvonok.Prelude.{String, none, [], ◌∷◌, ◌≡◌, refl, sym, ap, subst, ◌∙◌, arith}
use zvonok.Session.State.{Manager, failed, tell}
use zvonok.Session.Producers.{clear_retained_produces}
use zvonok.Session.Subscribe.{clear_pending_producers}
use zvonok.Session.Recovery.{
  show_connection, close_all, reset_media_state, clear_session, fail_recovery,
}
use zvonok.Session.Core.{joins, Core, core, IsMild, act-IsMild}
use zvonok.Session.Sound.{IsSound, SoundCore, Keeps, mild-Keeps, close_all-core, torn}

-- The client stays sound, asks for nothing more, and a session that is over stays so.
abbrev pub Quiet : Manager → Manager → Type 0
Quiet s t =
    (IsSound s → IsSound t)
    × (s.last_join_payload ≡ none → (t.last_join_payload ≡ none) × (joins t.acts ≡ joins s.acts))

pub Keeps-Quiet : (s t : Manager) → Keeps s t → Quiet s t
Keeps-Quiet s t (sound, held, payload, same) = (sound, λ e. (payload ∙ e, same))

pub mild-Quiet : (s t : Manager) → IsMild s t → Quiet s t
mild-Quiet s t m = Keeps-Quiet s t (mild-Keeps s t m)

pub Quiet-trans : (s t u : Manager) → Quiet s t → Quiet t u → Quiet s u
Quiet-trans s t u (a, b) (c, d) =
    (λ h. c (a h), λ e. let (x, y) = b e in let (z, w) = d x in (z, w ∙ y))

torn-Sound : (c : Core) → SoundCore c → SoundCore (torn c)
torn-Sound c (held, devices, bounded, flushed, rated) =
    (held, λ e. (refl, refl), omega arith, λ t f. refl, rated)

pub close_all-Keeps : (s : Manager) → Keeps s (close_all s)
close_all-Keeps s =
    let m = close_all-core s in
    (
      λ h. subst SoundCore (sym m) (torn-Sound (core s) h),
      ap (λ (c : Core). c.0) m,
      ap (λ (c : Core). c.1) m,
      ap (λ (c : Core). c.8) m,
    )

-- The media are torn down, the device included.
pub reset_all-Keeps : (s : Manager) → Keeps s (reset_media_state (close_all s))
unfolding reset_media_state clear_pending_producers
reset_all-Keeps s =
    let m = close_all-core s in
    (
      λ h.
          let (held, devices, bounded, flushed, rated) =
            subst SoundCore (sym m) (torn-Sound (core s) h) in
          (
            held,
            λ e. (ap (λ (c : Core). c.4) m, ap (λ (c : Core). c.5) m),
            bounded,
            flushed,
            rated,
          ),
      ap (λ (c : Core). c.0) m,
      ap (λ (c : Core). c.1) m,
      ap (λ (c : Core). c.8) m,
    )

-- Nothing is held once the session is over.
pub clear_session-Quiet : (s : Manager) → Quiet s (clear_session s)
unfolding clear_session clear_retained_produces
clear_session-Quiet s = (
  λ (held, devices, bounded, flushed, rated).
      ((λ e. refl, λ e. refl), devices, bounded, flushed, omega arith),
  λ e. (refl, refl),
)

pub fail_recovery-Quiet : (whom error : String) (s : Manager) → Quiet s (fail_recovery whom error s)
unfolding fail_recovery joins
fail_recovery-Quiet whom error s =
    let t = close_all (clear_session s) in
    Quiet-trans s (clear_session s) (fail_recovery whom error s) (clear_session-Quiet s) (
      Quiet-trans (clear_session s) t (fail_recovery whom error s)
        (Keeps-Quiet (clear_session s) t (close_all-Keeps (clear_session s)))
        (mild-Quiet t (fail_recovery whom error s)
          (act-IsMild (tell whom error ∷ []) (show_connection failed t) refl)))
