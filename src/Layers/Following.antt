-- ===== src/Layers/Following.antt =====
-- New statistics: the users that went are cleared, and the others are followed.
use zvonok.Prelude.{
  keys, ℕ, String, true, some, List, [], ◌∷◌, ◌≡◌, refl, sym, ap, ◌∙◌, subst, arith, str_dec,
  elim_cases, Map, get, has, has-add, add, Option,
}
use zvonok.Client.Quality.{QualityScore}
use zvonok.Layers.Engine.{Act, BoundState, Engine, is_viewport_visible, schedule_layer_switch}
use zvonok.Layers.Statistics.{
  clear_user_layer_state, clear_users, follow, set_stats, missing_in, clear_missing_user_state,
  while_bound, on_quality_stats,
}
use zvonok.Layers.Timers.{cancelled-IsTracked}
use zvonok.Layers.Settled.{
  Fits, Tracked, IsSettled, Frame, schedule-frame, schedule-IsTracked, schedule-Fits,
  schedule_keeps,
}

-- What neither clearing nor following changes.
abbrev pub Base : Type 0
Base = Map QualityScore × Option BoundState × List Act

abbrev pub base : Engine → Base
base s = (s.stats, s.bound, s.acts)

pub clear_users-base : (us : List String) (s : Engine) → base (clear_users us s) ≡ base s
unfolding clear_users clear_user_layer_state
clear_users-base [] s = refl
clear_users-base (u ∷ us) s = clear_users-base us (clear_user_layer_state u s)

pub clear_users-IsTracked : (us : List String) (s : Engine) → Tracked s → Tracked (clear_users us s)
unfolding clear_users clear_user_layer_state
clear_users-IsTracked [] s v = v
clear_users-IsTracked (u ∷ us) s v =
    clear_users-IsTracked us (clear_user_layer_state u s) (cancelled-IsTracked v u)

-- The state in which a user that is followed is looked at.
abbrev pub known : String → Engine → Engine
known u s = record s { known_peers = add u s.known_peers }

pub follow-base : (now : ℕ) (us : List String) (s : Engine) → base (follow now us s) ≡ base s
unfolding follow
follow-base now [] s = refl
follow-base now (u ∷ us) s =
    follow-base now us (schedule_layer_switch now u (known u s))
    ∙ ap (λ (z : Frame). (z.0, z.5, z.6)) (schedule-frame now u (known u s))

pub follow-IsTracked :
    (now : ℕ) (us : List String) (s : Engine) → Tracked s → Tracked (follow now us s)
unfolding follow
follow-IsTracked now [] s v = v
follow-IsTracked now (u ∷ us) s v =
    follow-IsTracked now us (schedule_layer_switch now u (known u s))
      (schedule-IsTracked now u (known u s) v)

follow_keeps :
    (now : ℕ) (us : List String) (w : String) (s : Engine) → Fits w s → Fits w (follow now us s)
unfolding follow is_viewport_visible
follow_keeps now [] w s h = h
follow_keeps now (u ∷ us) w s h =
    follow_keeps now us w (schedule_layer_switch now u (known u s))
      (schedule_keeps now u w (known u s) h)

follow-Fits :
    (now : ℕ) (us : List String) (w : String) (s : Engine) (b : BoundState)
    → s.bound ≡ some b
    → has w us ≡ true
    → Fits w (follow now us s)
unfolding follow has
follow-Fits now [] w s b e h = absurd (ground (arith, h))
follow-Fits now (u ∷ us) w s b e h = elim (str_dec u w) [
  | yes k ↦ follow_keeps now us w (schedule_layer_switch now u (known u s)) (
      subst (λ z. Fits z (schedule_layer_switch now u (known u s))) k
        (schedule-Fits now u (known u s) b e))
  | no k ↦
      follow-Fits now us w (schedule_layer_switch now u (known u s)) b
        (ap (λ (z : Frame). z.5) (schedule-frame now u (known u s)) ∙ e) (ground (arith, h, k))
]

still_known :
    (now : ℕ) (us : List String) (w : String) (s : Engine)
    → has w s.known_peers ≡ true
    → has w (follow now us s).known_peers ≡ true
unfolding follow
still_known now [] w s h = h
still_known now (u ∷ us) w s h = still_known now us w (schedule_layer_switch now u (known u s)) (
    ap (λ (z : Frame). has w z.4) (schedule-frame now u (known u s))
    ∙ ground (arith, has-add w u s.known_peers, h))

follow-known :
    (now : ℕ) (us : List String) (w : String) (s : Engine)
    → has w us ≡ true
    → has w (follow now us s).known_peers ≡ true
unfolding follow has
follow-known now [] w s h = absurd (ground (arith, h))
follow-known now (u ∷ us) w s h = elim (str_dec u w) [
  | yes k ↦ still_known now us w (schedule_layer_switch now u (known u s)) (
      ap (λ (z : Frame). has w z.4) (schedule-frame now u (known u s))
      ∙ ground (arith, has-add w u s.known_peers, k))
  | no k ↦ follow-known now us w (schedule_layer_switch now u (known u s)) (ground (arith, h, k))
]

pub has-keys :
    (u : String) (q : QualityScore) (m : Map QualityScore)
    → get u m ≡ some q
    → has u (keys m) ≡ true
unfolding get has
has-keys u q [] e = absurd (ground (arith, e))
has-keys u q ((w, k) ∷ m) e = ground (arith, e, has-keys u q m)

pub clear_missing-base :
    (stats : Map QualityScore) (s : Engine) → base (clear_missing_user_state stats s) ≡ base s
unfolding clear_missing_user_state
clear_missing-base stats s =
    let t = clear_users (missing_in stats (keys s.layer_timers)) s in
    clear_users-base (missing_in stats (keys t.last_emitted_layer)) t
    ∙ clear_users-base (missing_in stats (keys s.layer_timers)) s

pub clear_missing-IsTracked :
    (stats : Map QualityScore) (s : Engine) → Tracked s → Tracked (clear_missing_user_state stats s)
unfolding clear_missing_user_state
clear_missing-IsTracked stats s v =
    let t = clear_users (missing_in stats (keys s.layer_timers)) s in
    clear_users-IsTracked (missing_in stats (keys t.last_emitted_layer)) t
      (clear_users-IsTracked (missing_in stats (keys s.layer_timers)) s v)

pub on_quality_stats-IsSettled :
    (now : ℕ) (stats : Map QualityScore) (s : Engine)
    → IsSettled s
    → IsSettled (on_quality_stats now stats s)
unfolding on_quality_stats while_bound set_stats
on_quality_stats-IsSettled now stats s v =
    elim_cases IsSettled s.bound _ _ (λ e. v)
      (λ b e.
        let t = clear_missing_user_state stats (set_stats stats s) in
        let cleared = clear_missing-base stats (set_stats stats s) in
        let same = follow-base now (keys stats) t ∙ cleared in
        let listed : (u : String) (q : QualityScore)
            → get u (follow now (keys stats) t).stats ≡ some q
            → has u (keys stats) ≡ true =
          λ u q f. has-keys u q stats (ap (λ (z : Base). get u z.0) (sym same) ∙ f) in
        record {
          tracked =
              follow-IsTracked now (keys stats) t
                (clear_missing-IsTracked stats (set_stats stats s) v.tracked);
          followed = λ u q f. follow-known now (keys stats) u t (listed u q f);
          idle = λ f. absurd (ground (arith, ap (λ (z : Base). z.1) same, e, f));
          fits = λ u q l f.
              follow-Fits now (keys stats) u t b (ap (λ (z : Base). z.1) cleared ∙ e) (listed u q f)
                q l f;
        })
