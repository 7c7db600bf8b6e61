-- ===== src/Layers/Changes.antt =====
-- Every operation of the engine keeps it settled.
use zvonok.Prelude.{
  ℕ, String, Bool, not, ◌&&◌, List, [], ◌≡◌, inl, inr, refl, sym, ap, ◌∙◌, subst, arith, str_dec,
  if◌then◌else◌, if_neg, if_cases, get, has, has-add, has-discard, add, discard, Option-cases,
}
use zvonok.Layers.Engine.{
  Engine, fresh, Act, find_timer, is_viewport_visible, schedule_layer_switch, schedule_all, act,
  set_visibility, set_suspended,
}
use zvonok.Layers.Settled.{
  FitsAt, Fits, IsSettled, Frame, schedule-frame, schedule-IsTracked, schedule-Fits, schedule_keeps,
  schedule_all-frame, schedule_all-IsTracked, schedule_all-Fits,
}

pub fresh-IsSettled : IsSettled fresh
unfolding find_timer get
fresh-IsSettled = record {
  tracked = record {
    kept = λ n t e. absurd (ground (arith, e));
    runs = λ u n e. absurd (ground (arith, e));
    below = λ n t e. absurd (ground (arith, e));
  };
  followed = λ u q e. absurd (ground (arith, e));
  idle = λ e. refl;
  fits = λ u q l e. absurd (ground (arith, e));
}

-- Without statistics nothing is to fit.
no_stats : (u : String) (s : Engine) → s.stats ≡ [] → Fits u s
unfolding get
no_stats u s e q l f = absurd (ground (arith, ap (get u) e, f))

pub visibility-IsSettled :
    (now : ℕ) (u : String) (visible : Bool) (s : Engine)
    → IsSettled s
    → IsSettled (set_visibility now u visible s)
unfolding set_visibility is_viewport_visible
visibility-IsSettled now u visible s v =
    if_cases IsSettled _ _ _ (λ e. v)
      (λ e.
        let t = record s {
          hidden_users = if visible then discard u s.hidden_users else add u s.hidden_users;
        } in
        let same = schedule-frame now u t in
        record {
          tracked = schedule-IsTracked now u t v.tracked;
          followed = λ w q f.
              ap (λ (z : Frame). has w z.4) same
              ∙ v.followed w q (sym (ap (λ (z : Frame). get w z.0) same) ∙ f);
          idle =
              λ f. ap (λ (z : Frame). z.0) same ∙ v.idle (sym (ap (λ (z : Frame). z.5) same) ∙ f);
          fits = λ w. elim (str_dec u w) [
            | yes k ↦ elim (Option-cases s.bound) [
              | inl f ↦
                  no_stats w (schedule_layer_switch now u t)
                    (ap (λ (z : Frame). z.0) same ∙ v.idle f)
              | inr (b, f) ↦
                  subst (λ z. Fits z (schedule_layer_switch now u t)) k (schedule-Fits now u t b f)
            ]
            | no k ↦ schedule_keeps now u w t (
                subst (FitsAt (get w s.stats) (get w s.last_emitted_layer) (get w s.layer_timers))
                  (ap (λ z. not z && not s.suspended) (sym (others_hidden w k))) (v.fits w))
          ];
        })
  where
    others_hidden :
        (w : String)
        → ¬ (u ≡ w)
        → has w (if visible then discard u s.hidden_users else add u s.hidden_users)
          ≡ has w s.hidden_users
    others_hidden w k =
        if_cases (λ z. has w z ≡ has w s.hidden_users) visible _ _
          (λ e. has-discard w u s.hidden_users ∙ if_neg (str_dec u w) k _ _)
          (λ e. has-add w u s.hidden_users ∙ if_neg (str_dec u w) k _ _)

pub suspended-IsSettled :
    (now : ℕ) (suspended : Bool) (s : Engine)
    → IsSettled s
    → IsSettled (set_suspended now suspended s)
unfolding set_suspended
suspended-IsSettled now suspended s v =
    if_cases IsSettled _ _ _ (λ e. v)
      (λ e.
        let t = record s { suspended = suspended } in
        let same = schedule_all-frame now s.known_peers t in
        record {
          tracked = schedule_all-IsTracked now s.known_peers t v.tracked;
          followed = λ w q f.
              ap (λ (z : Frame). has w z.4) same
              ∙ v.followed w q (sym (ap (λ (z : Frame). get w z.0) same) ∙ f);
          idle =
              λ f. ap (λ (z : Frame). z.0) same ∙ v.idle (sym (ap (λ (z : Frame). z.5) same) ∙ f);
          fits = λ w. elim (Option-cases s.bound) [
            | inl f ↦
                no_stats w (schedule_all now s.known_peers t)
                  (ap (λ (z : Frame). z.0) same ∙ v.idle f)
            | inr (b, f) ↦ λ q l g.
                schedule_all-Fits now s.known_peers w t b f
                  (v.followed w q (sym (ap (λ (z : Frame). get w z.0) same) ∙ g)) q l g
          ];
        })

pub act-IsSettled : (es : List Act) (s : Engine) → IsSettled s → IsSettled (act es s)
unfolding is_viewport_visible
act-IsSettled es s v = record {
  tracked = v.tracked;
  followed = v.followed;
  idle = v.idle;
  fits = v.fits;
}
