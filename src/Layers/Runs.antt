-- ===== src/Layers/Runs.antt =====
-- Every run of an engine.
use zvonok.Prelude.{ℕ, String, Bool, Option, refl, arith, elim_cases, Map, get}
use zvonok.Client.Quality.{QualityScore}
use zvonok.Layers.Engine.{
  Engine, fresh, is_viewport_visible, on_timer, set_visibility, set_suspended,
}
use zvonok.Layers.Statistics.{
  while_bound, on_quality_stats, on_participant_left, handle_visibility_change,
  clear_all_layer_state, reset, unbind, bind,
}
use zvonok.Layers.Timers.{all_cancelled}
use zvonok.Layers.Settled.{IsSettled}
use zvonok.Layers.Changes.{
  visibility-IsSettled, suspended-IsSettled, act-IsSettled, fresh-IsSettled,
}
use zvonok.Layers.Answers.{on_timer-IsSettled, on_participant_left-IsSettled}
use zvonok.Layers.Following.{on_quality_stats-IsSettled}

unbind-IsSettled : (s : Engine) → IsSettled s → IsSettled (unbind s)
unfolding unbind while_bound reset clear_all_layer_state get
unbind-IsSettled s v =
    elim_cases IsSettled s.bound _ _ (λ e. v)
      (λ b e. record {
        tracked = record {
          kept = λ n t f. absurd (ground (arith, all_cancelled v.tracked n, f));
          runs = λ u n f. absurd (ground (arith, f));
          below = λ n t f. absurd (ground (arith, all_cancelled v.tracked n, f));
        };
        followed = λ u q f. absurd (ground (arith, f));
        idle = λ f. refl;
        fits = λ u q l f. absurd (ground (arith, f));
      })

bind-IsSettled :
    (debounce_ms stats_interval_ms : Option ℕ) (s : Engine)
    → IsSettled s
    → IsSettled (bind debounce_ms stats_interval_ms s)
unfolding bind is_viewport_visible
bind-IsSettled debounce_ms stats_interval_ms s v =
    let w = unbind-IsSettled s v in
    record {
      tracked = w.tracked;
      followed = w.followed;
      idle = λ f. absurd (ground (arith, f));
      fits = w.fits;
    }

change-IsSettled :
    (now : ℕ) (hidden : Bool) (s : Engine)
    → IsSettled s
    → IsSettled (handle_visibility_change now hidden s)
unfolding handle_visibility_change while_bound
change-IsSettled now hidden s v =
    elim_cases IsSettled s.bound _ _ (λ e. v)
      (λ b e. act-IsSettled _ (set_suspended now hidden s) (suspended-IsSettled now hidden s v))

-- What may happen to an engine.
pub data Step : Engine → Engine → Type 0 where
  binds :
      (s : Engine) (debounce_ms interval_ms : Option ℕ) → Step s (bind debounce_ms interval_ms s)
  unbinds : (s : Engine) → Step s (unbind s)
  polls_stats :
      (s : Engine) (now : ℕ) (stats : Map QualityScore) → Step s (on_quality_stats now stats s)
  scrolls :
      (s : Engine) (now : ℕ) (u : String) (visible : Bool) → Step s (set_visibility now u visible s)
  suspends : (s : Engine) (now : ℕ) (suspended : Bool) → Step s (set_suspended now suspended s)
  hides : (s : Engine) (now : ℕ) (hidden : Bool) → Step s (handle_visibility_change now hidden s)
  loses : (s : Engine) (u : String) → Step s (on_participant_left u s)
  fires :
      (s : Engine) (camera_of : String → Option String) (n : ℕ) → Step s (on_timer camera_of n s)

pub data Run : Engine → Type 0 where
  here : Run fresh
  next : {s t : Engine} → Run s → Step s t → Run t

Step-IsSettled : {s t : Engine} → Step s t → IsSettled s → IsSettled t
Step-IsSettled (binds s d i) v = bind-IsSettled d i s v
Step-IsSettled (unbinds s) v = unbind-IsSettled s v
Step-IsSettled (polls_stats s now stats) v = on_quality_stats-IsSettled now stats s v
Step-IsSettled (scrolls s now u visible) v = visibility-IsSettled now u visible s v
Step-IsSettled (suspends s now b) v = suspended-IsSettled now b s v
Step-IsSettled (hides s now b) v = change-IsSettled now b s v
Step-IsSettled (loses s u) v = on_participant_left-IsSettled u s v
Step-IsSettled (fires s camera_of n) v = on_timer-IsSettled camera_of n s v

pub Run-IsSettled : {s : Engine} → Run s → IsSettled s
Run-IsSettled here = fresh-IsSettled
Run-IsSettled (next r m) = Step-IsSettled m (Run-IsSettled r)
