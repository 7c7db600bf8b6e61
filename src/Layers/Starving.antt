-- ===== src/Layers/Starving.antt =====
-- Statistics that come faster than the debounce: each of them sets the timers anew.
use zvonok.Prelude.{
  keys, ℕ, suc, ◌+◌, ◌<◌, String, true, Option, none, some, List, [], ◌∷◌, ◌++◌, map, ◌≡◌, ◌⊎◌, inl,
  inr, refl, sym, ap, ◌∙◌, subst, arith, str_dec, if_neg, elim_cases, Map, get, remove, get-put,
  has,
}
use zvonok.Client.Quality.{QualityScore}
use zvonok.Layers.Engine.{
  BoundState, Engine, Timer, Act, set_preferred_layers, start_stats_collection,
  stop_stats_collection, notify, cancelled, arm, is_layer, schedule_layer_switch,
}
use zvonok.Layers.Statistics.{
  clear_user_layer_state, clear_users, follow, set_stats, changed_in, missing_in,
  clear_missing_user_state, while_bound, on_quality_stats, due_timers, run_timers, polls,
}
use zvonok.Layers.Following.{known, base, Base, follow-base, clear_missing-base}
use zvonok.Layers.Entries.{
  Entries, Entries-map, Own, Entries-cancelled, clear_users-Entries, has-missing, has-owned,
  get-keys,
}

-- Nothing was asked for yet, and each timer was set just now or is for a user still to come.
unfoldable Due : ℕ → List String → Engine → Type 0
Due at us s =
    (s.last_emitted_layer ≡ [])
    × Entries (λ n t. Own s.layer_timers n t × ((t.due ≡ at) ⊎ (has t.user_id us ≡ true))) s.running

schedule-arms :
    (now : ℕ) (u : String) (s : Engine) (b : BoundState) (q : QualityScore)
    → s.bound ≡ some b
    → get u s.stats ≡ some q
    → get u s.last_emitted_layer ≡ none
    → schedule_layer_switch now u s ≡ arm now b.debounce_ms u q.level s
unfolding schedule_layer_switch is_layer
schedule-arms now u s b q e f h = ground (arith, e, f, h)

none_emitted :
    (u : String) (s : Engine) → s.last_emitted_layer ≡ [] → get u s.last_emitted_layer ≡ none
unfolding get
none_emitted u s e = ap (get u) e

armed-Due :
    (now d : ℕ) (u : String) (us : List String) (s : Engine) (q : QualityScore)
    → Due (now + d) (u ∷ us) s
    → Due (now + d) us (arm now d u q.level s)
unfolding Due arm has Entries
armed-Due now d u us s q (last, h) = (
  last,
  (
    (ground (arith, get-put u u s.next_timer s.layer_timers), inl refl),
    Entries-map _ _ (cancelled (get u s.layer_timers) s.running)
        (λ n t (own, r, apart). (
          get-put t.user_id u s.next_timer s.layer_timers
              ∙ if_neg (str_dec u t.user_id) apart (some s.next_timer)
                  (get t.user_id s.layer_timers)
              ∙ own,
          elim r [ inl e ↦ inl e | inr e ↦ inr (ground (arith, e, apart)) ],
        ))
        (Entries-cancelled _ u (get u s.layer_timers) s.layer_timers s.running refl h),
  ),
)

follow-Due :
    (now : ℕ) (us : List String) (s : Engine) (b : BoundState)
    → s.bound ≡ some b
    → ((u : String) → has u us ≡ true → has u (keys s.stats) ≡ true)
    → Due (now + b.debounce_ms) us s
    → Due (now + b.debounce_ms) [] (follow now us s)
unfolding follow has Due arm
follow-Due now [] s b e all h = h
follow-Due now (u ∷ us) s b e all h =
    let k = known u s in
    let (q, f) = get-keys u s.stats (all u (ground arith)) in
    let arms = schedule-arms now u k b q e f (none_emitted u s h.0) in
    let same = ap base arms in
    follow-Due now us (schedule_layer_switch now u k) b (ap (λ (z : Base). z.1) same ∙ e)
      (λ w m. ap (λ (z : Base). has w (keys z.0)) same ∙ all w (ground (arith, m)))
      (subst (Due (now + b.debounce_ms) us) (sym arms) (armed-Due now b.debounce_ms u us k q h))

clear_users-last :
    (us : List String) (s : Engine)
    → s.last_emitted_layer ≡ []
    → (clear_users us s).last_emitted_layer ≡ []
unfolding clear_users clear_user_layer_state remove
clear_users-last [] s e = e
clear_users-last (u ∷ us) s e = clear_users-last us (clear_user_layer_state u s) (ap (remove u) e)

-- Each timer that is left is for a user with statistics.
clear_missing-Due :
    (at now : ℕ) (stats : Map QualityScore) (s : Engine)
    → Due at [] s
    → Due now (keys stats) (clear_missing_user_state stats s)
unfolding Due clear_missing_user_state
clear_missing-Due at now stats s (last, h) =
    let us = missing_in stats (keys s.layer_timers) in
    let t = clear_users us s in
    let gone = clear_users-last us s last in
    let none_left : missing_in stats (keys t.last_emitted_layer) ≡ [] =
      unfold missing_in in ap (λ m. missing_in stats (keys m)) gone in
    subst (λ ws. Due now (keys stats) (clear_users ws t)) (sym none_left)
      (unfold clear_users in
        (
          gone,
          Entries-map _ _ t.running
              (λ n q (own, known, out).
                (own, inr (has-missing q.user_id stats (keys s.layer_timers) known out)))
              (clear_users-Entries us (λ n q. has q.user_id (keys s.layer_timers) ≡ true) s
                (Entries-map _ _ s.running
                  (λ n q (own, r). (own, has-owned s.layer_timers q.user_id n own)) h)),
        ))

no_due :
    (now at : ℕ) (timers : Map ℕ) (ts : List (ℕ × Timer))
    → now < at
    → Entries (λ n t. Own timers n t × ((t.due ≡ at) ⊎ (has t.user_id [] ≡ true))) ts
    → due_timers now ts ≡ []
unfolding due_timers Entries has
no_due now at timers [] h e = refl
no_due now at timers ((n, t) ∷ ts) h ((own, inl d), e) =
    ground (arith, d, no_due now at timers ts h e)
no_due now at timers ((n, t) ∷ ts) h ((own, inr d), e) = absurd (ground (arith, d))

-- The requests for layers.
unfoldable pub requests : List Act → List (String × ℕ)
requests [] = []
requests (set_preferred_layers id layer ∷ es) = (id, layer) ∷ requests es
requests (start_stats_collection ms ∷ es) = requests es
requests (stop_stats_collection ∷ es) = requests es
requests (notify u ∷ es) = requests es

requests-notify : (es : List Act) (us : List String) → requests (es ++ map notify us) ≡ requests es
unfolding requests
requests-notify [] [] = refl
requests-notify [] (u ∷ us) = requests-notify [] us
requests-notify (set_preferred_layers id layer ∷ es) us =
    ap (λ z. (id, layer) ∷ z) (requests-notify es us)
requests-notify (start_stats_collection ms ∷ es) us = requests-notify es us
requests-notify (stop_stats_collection ∷ es) us = requests-notify es us
requests-notify (notify u ∷ es) us = requests-notify es us

poll-Due :
    (at now : ℕ) (stats : Map QualityScore) (s : Engine) (b : BoundState)
    → s.bound ≡ some b
    → Due at [] s
    → ((on_quality_stats now stats s).bound ≡ some b)
      × Due (now + b.debounce_ms) [] (on_quality_stats now stats s)
      × (requests (on_quality_stats now stats s).acts ≡ requests s.acts)
unfolding on_quality_stats while_bound set_stats Due
poll-Due at now stats s b e h =
    let P = λ (z : Engine).
      (z.bound ≡ some b) × Due (now + b.debounce_ms) [] z × (requests z.acts ≡ requests s.acts) in
    elim_cases P s.bound _ _ (λ f. absurd (ground (arith, e, f)))
      (λ c f.
        let t = clear_missing_user_state stats (set_stats stats s) in
        let cleared = clear_missing-base stats (set_stats stats s) in
        let same = follow-base now (keys stats) t ∙ cleared in
        (
          ap (λ (z : Base). z.1) same ∙ e,
          follow-Due now (keys stats) t b (ap (λ (z : Base). z.1) cleared ∙ e)
              (λ u g. ap (λ (z : Base). has u (keys z.0)) cleared ∙ g)
              (clear_missing-Due at (now + b.debounce_ms) stats (set_stats stats s) h),
          ap (λ (z : Base). requests z.2) same
              ∙ requests-notify s.acts
                  (changed_in s.stats stats ++ missing_in stats (keys s.stats)),
        ))

polls_starve :
    (camera_of : String → Option String) (interval now at : ℕ) (later : List (Map QualityScore))
    (s : Engine) (b : BoundState)
    → s.bound ≡ some b
    → interval < b.debounce_ms
    → now < at
    → Due at [] s
    → (requests (polls camera_of interval now later s).acts ≡ requests s.acts)
      × ((polls camera_of interval now later s).last_emitted_layer ≡ [])
unfolding polls run_timers Due
polls_starve camera_of interval now at [] s b e fast soon h = (refl, h.0)
polls_starve camera_of interval now at (stats ∷ later) s b e fast soon h =
    let none_due : run_timers camera_of (due_timers now s.running) s ≡ s =
      ap (λ ns. run_timers camera_of ns s) (no_due now at s.layer_timers s.running soon h.1) in
    let (bound, due, asked) = poll-Due at now stats s b e h in
    let (same, last) =
      polls_starve camera_of interval (now + interval) (now + b.debounce_ms) later
        (on_quality_stats now stats s) b bound fast (omega (arith, fast)) due in
    let P = λ (z : Engine).
      (requests
          (polls camera_of interval (now + interval) later (on_quality_stats now stats z)).acts
        ≡ requests s.acts)
      × ((polls camera_of interval (now + interval) later
            (on_quality_stats now stats z)).last_emitted_layer
          ≡ []) in
    subst P (sym none_due) (same ∙ asked, last)

-- Where an engine is bound with a debounce that is longer than the pace of the statistics, has asked for no
-- layer and has no timer, it asks for none, however many statistics come at that pace and whatever they say.
pub fast_stats_starve :
    (camera_of : String → Option String) (interval now : ℕ) (later : List (Map QualityScore))
    (s : Engine) (b : BoundState)
    → s.bound ≡ some b
    → interval < b.debounce_ms
    → s.last_emitted_layer ≡ []
    → s.running ≡ []
    → (requests (polls camera_of interval now later s).acts ≡ requests s.acts)
      × ((polls camera_of interval now later s).last_emitted_layer ≡ [])
unfolding Due Entries
fast_stats_starve camera_of interval now later s b e fast last idle =
    polls_starve camera_of interval now (suc now) later s b e fast (omega arith) (
      last,
      subst
          (λ ts.
            Entries
              (λ n t. Own s.layer_timers n t × ((t.due ≡ suc now) ⊎ (has t.user_id [] ≡ true))) ts)
          (sym idle) tt,
    )
