-- ===== src/Layers/Statistics.antt =====
-- `PeerQualityEngine`: the statistics it is given, who goes, and its binding to a manager.
use zvonok.Prelude.{
  keys, ℕ, ◌+◌, String, Bool, true, false, not, ◌&&◌, Option, none, some, List, [], ◌∷◌, ◌++◌, map,
  if◌then◌else◌, ◌==◌, leb, or_else, Map, get, remove, values, add,
}
use zvonok.Client.Quality.{QualityLevel, excellent, good, fair, poor, QualityScore}
use zvonok.Layers.Engine.{
  notify, start_stats_collection, stop_stats_collection, stats_interval_desktop,
  layer_switch_debounce_ms, Timer, BoundState, Engine, act, drop_timer, cancelled,
  schedule_layer_switch, on_timer, set_suspended,
}

unfoldable pub same_level : QualityLevel → QualityLevel → Bool
same_level excellent excellent = true
same_level good good = true
same_level fair fair = true
same_level poor poor = true
same_level _ _ = false

unfoldable pub is_changed : Option QualityScore → QualityScore → Bool
is_changed none new = true
is_changed (some old) new = not (old.score == new.score && same_level old.level new.level)

unfoldable pub changed_in : Map QualityScore → Map QualityScore → List String
changed_in old [] = []
changed_in old ((u, score) ∷ new) =
    let rest = changed_in old new in if is_changed (get u old) score then u ∷ rest else rest

-- Those of a list without statistics.
unfoldable pub missing_in : Map QualityScore → List String → List String
missing_in stats [] = []
missing_in stats (u ∷ us) =
    let rest = missing_in stats us in elim (get u stats) [ none ↦ u ∷ rest | some score ↦ rest ]

unfoldable pub set_stats : Map QualityScore → Engine → Engine
set_stats stats s =
    act (map notify (changed_in s.stats stats ++ missing_in stats (keys s.stats)))
      (record s { stats = stats })

unfoldable pub clear_user_layer_state : String → Engine → Engine
clear_user_layer_state u s = record s {
  running = cancelled (get u s.layer_timers) s.running;
  layer_timers = remove u s.layer_timers;
  last_emitted_layer = remove u s.last_emitted_layer;
}

unfoldable pub clear_users : List String → Engine → Engine
clear_users [] s = s
clear_users (u ∷ us) s = clear_users us (clear_user_layer_state u s)

unfoldable pub clear_missing_user_state : Map QualityScore → Engine → Engine
clear_missing_user_state stats s =
    let t = clear_users (missing_in stats (keys s.layer_timers)) s in
    clear_users (missing_in stats (keys t.last_emitted_layer)) t

unfoldable pub follow : ℕ → List String → Engine → Engine
follow now [] s = s
follow now (u ∷ us) s =
    follow now us (schedule_layer_switch now u (record s { known_peers = add u s.known_peers }))

-- The callbacks that `bind` registers are there while the engine is bound.
unfoldable pub while_bound : (BoundState → Engine) → Engine → Engine
while_bound f s = elim s.bound [ none ↦ s | some b ↦ f b ]

unfoldable pub on_quality_stats : ℕ → Map QualityScore → Engine → Engine
on_quality_stats now stats s =
    while_bound (λ b. follow now (keys stats) (clear_missing_user_state stats (set_stats stats s)))
      s

unfoldable pub on_participant_left : String → Engine → Engine
on_participant_left u s = while_bound (λ b. clear_user_layer_state u s) s

unfoldable pub handle_visibility_change : ℕ → Bool → Engine → Engine
handle_visibility_change now hidden s =
    while_bound
      (λ b.
        act
          ((if hidden then stop_stats_collection else start_stats_collection b.stats_interval_ms)
            ∷ [])
          (set_suspended now hidden s))
      s

unfoldable pub cancel_all : List ℕ → List (ℕ × Timer) → List (ℕ × Timer)
cancel_all [] ts = ts
cancel_all (n ∷ ns) ts = cancel_all ns (drop_timer n ts)

unfoldable pub clear_all_layer_state : Engine → Engine
clear_all_layer_state s = record s {
  running = cancel_all (values s.layer_timers) s.running;
  layer_timers = [];
  last_emitted_layer = [];
}

-- The listeners that `reset` tells are left out.
unfoldable pub reset : Engine → Engine
reset s = record s { stats = []; hidden_users = []; suspended = false; known_peers = [] }

unfoldable pub unbind : Engine → Engine
unbind s =
    while_bound
      (λ b.
        reset
          (clear_all_layer_state (act (stop_stats_collection ∷ []) (record s { bound = none }))))
      s

unfoldable pub bind : Option ℕ → Option ℕ → Engine → Engine
bind debounce_ms stats_interval_ms s =
    let interval = or_else stats_interval_ms stats_interval_desktop in
    record (act (start_stats_collection interval ∷ []) (unbind s)) {
      bound = some (record {
        debounce_ms = or_else debounce_ms layer_switch_debounce_ms;
        stats_interval_ms = interval;
      });
    }

-- The timers that are due, the oldest first.
unfoldable pub due_timers : ℕ → List (ℕ × Timer) → List ℕ
due_timers now [] = []
due_timers now ((n, t) ∷ ts) =
    let rest = due_timers now ts in if leb t.due now then rest ++ n ∷ [] else rest

unfoldable pub run_timers : (String → Option String) → List ℕ → Engine → Engine
run_timers camera_of [] s = s
run_timers camera_of (n ∷ ns) s = run_timers camera_of ns (on_timer camera_of n s)

-- Statistics that come at a steady pace, with the timers that are due by then.
unfoldable pub polls : (String → Option String) → ℕ → ℕ → List (Map QualityScore) → Engine → Engine
polls camera_of interval now [] s = s
polls camera_of interval now (stats ∷ later) s =
    polls camera_of interval (now + interval) later
      (on_quality_stats now stats (run_timers camera_of (due_timers now s.running) s))
