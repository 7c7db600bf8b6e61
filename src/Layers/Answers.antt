-- ===== src/Layers/Answers.antt =====
-- The timers, the statistics and what clears a user keep the engine settled.
use zvonok.Prelude.{
  ℕ, String, Option, none, some, List, [], ◌∷◌, ◌≡◌, ◌≢◌, inl, refl, sym, ap, ◌∙◌, subst, arith,
  str_dec, if_neg, if_cases, elim_cases, Map, get, put, remove, get-put, get-remove, truthy,
}
use zvonok.Client.Quality.{QualityScore}
use zvonok.Layers.Engine.{
  Engine, set_preferred_layers, Timer, find_timer, drop_timer, is_viewport_visible, effective_layer,
  is_layer, cancelled, level_or, emit_layer, on_timer,
}
use zvonok.Layers.Statistics.{clear_user_layer_state, while_bound, on_participant_left}
use zvonok.Layers.Timers.{IsTracked, cancelled-IsTracked}
use zvonok.Layers.Settled.{FitsAt, is_shown, IsSettled, is_layer_lem}
use zvonok.Layers.Changes.{act-IsSettled}

-- The timer of a user goes, and what was last asked for the user changes.
user-IsSettled :
    (s : Engine) (u : String) (running : List (ℕ × Timer)) (last : Map ℕ)
    → IsSettled s
    → IsTracked running (remove u s.layer_timers) s.next_timer
    → ((q : QualityScore) (l : ℕ)
        → get u s.stats ≡ some q
        → get u last ≡ some l
        → l ≡ effective_layer u q.level s)
    → ((w : String) → u ≢ w → get w last ≡ get w s.last_emitted_layer)
    → IsSettled (record s {
      running = running;
      layer_timers = remove u s.layer_timers;
      last_emitted_layer = last;
    })
unfolding is_viewport_visible effective_layer
user-IsSettled s u running last v tracked own others = record {
  tracked = tracked;
  followed = v.followed;
  idle = v.idle;
  fits = λ w. elim (str_dec u w) [
    | yes k ↦ λ q l e f. inl (
        subst (λ z. get z s.stats ≡ some q → get z last ≡ some l → l ≡ effective_layer z q.level s)
          k (own q l) e f)
    | no k ↦
        let timer =
          get-remove w u s.layer_timers ∙ if_neg (str_dec u w) k none (get w s.layer_timers) in
        subst (λ z. FitsAt (get w s.stats) z (get w (remove u s.layer_timers)) (is_shown w s))
          (sym (others w k))
          (subst (λ z. FitsAt (get w s.stats) (get w s.last_emitted_layer) z (is_shown w s))
            (sym timer) (v.fits w))
  ];
}

removed_last : (u : String) (last : Map ℕ) (l : ℕ) → ¬ (get u (remove u last) ≡ some l)
removed_last u last l e = ground (arith, get-remove u u last, e)

others_removed : (u w : String) (last : Map ℕ) → u ≢ w → get w (remove u last) ≡ get w last
others_removed u w last k = get-remove w u last ∙ if_neg (str_dec u w) k none (get w last)

clear_user-IsSettled :
    (u : String) (s : Engine) → IsSettled s → IsSettled (clear_user_layer_state u s)
unfolding clear_user_layer_state
clear_user-IsSettled u s v =
    user-IsSettled s u (cancelled (get u s.layer_timers) s.running) (remove u s.last_emitted_layer)
      v (cancelled-IsTracked v.tracked u)
      (λ q l e f. absurd (removed_last u s.last_emitted_layer l f))
      (λ w k. others_removed u w s.last_emitted_layer k)

pub on_participant_left-IsSettled :
    (u : String) (s : Engine) → IsSettled s → IsSettled (on_participant_left u s)
unfolding on_participant_left while_bound
on_participant_left-IsSettled u s v =
    elim_cases IsSettled s.bound _ _ (λ e. v) (λ b e. clear_user-IsSettled u s v)

emit_layer-IsSettled :
    (camera_of : String → Option String) (n : ℕ) (t : Timer) (s : Engine)
    → find_timer n s.running ≡ some t
    → IsSettled s
    → IsSettled (emit_layer camera_of t (record s { running = drop_timer n s.running }))
unfolding emit_layer cancelled is_viewport_visible effective_layer
emit_layer-IsSettled camera_of n t s e v =
    let u = t.user_id in
    let dropped = drop_timer n s.running in
    let at = effective_layer u (level_or t.level (get u s.stats)) s in
    let tracked : IsTracked dropped (remove u s.layer_timers) s.next_timer =
      subst (λ o. IsTracked (cancelled o s.running) (remove u s.layer_timers) s.next_timer)
        (v.tracked.kept n t e) (cancelled-IsTracked v.tracked u) in
    let seen : (q : QualityScore) → get u s.stats ≡ some q → at ≡ effective_layer u q.level s =
      λ q f. ap (λ z. effective_layer u (level_or t.level z) s) f in
    elim_cases IsSettled (truthy (camera_of u)) _ _
      (λ f.
        user-IsSettled s u dropped (remove u s.last_emitted_layer) v tracked
          (λ q l g h. absurd (removed_last u s.last_emitted_layer l h))
          (λ w k. others_removed u w s.last_emitted_layer k))
      (λ c f.
        if_cases IsSettled (is_layer at (get u s.last_emitted_layer)) _ _
          (λ g.
            user-IsSettled s u dropped s.last_emitted_layer v tracked
              (λ q l h k. is_layer_lem at l (get u s.last_emitted_layer) g k ∙ seen q h)
              (λ w k. refl))
          (λ g. act-IsSettled (set_preferred_layers c at ∷ []) _ (
            user-IsSettled s u dropped (put u at s.last_emitted_layer) v tracked
              (λ q l h k. ground (arith, get-put u u at s.last_emitted_layer, k) ∙ seen q h)
              (λ w k.
                get-put w u at s.last_emitted_layer
                ∙ if_neg (str_dec u w) k (some at) (get w s.last_emitted_layer)))))

pub on_timer-IsSettled :
    (camera_of : String → Option String) (n : ℕ) (s : Engine)
    → IsSettled s
    → IsSettled (on_timer camera_of n s)
unfolding on_timer
on_timer-IsSettled camera_of n s v =
    elim_cases IsSettled (find_timer n s.running) _ _ (λ e. v)
      (λ t e. emit_layer-IsSettled camera_of n t s e v)
