-- ===== src/Layers/Tests.antt =====
-- A page with one other participant, and the theorems of this part at it.
use zvonok.Prelude.{
  String, Option, none, some, [], ◌∷◌, ◌≡◌, refl, arith, str_dec, truthy, get, put, remove, has,
  add,
}
use zvonok.Client.Quality.{good, poor, QualityScore, quality_to_spatial_layer}
use zvonok.Layers.Engine.{
  Engine, fresh, find_timer, drop_timer, is_viewport_visible, effective_layer, is_layer, cancelled,
  arm, schedule_layer_switch, emit_layer, on_timer, stats_interval_desktop, stats_interval_mobile,
}
use zvonok.Layers.Statistics.{
  same_level, is_changed, changed_in, missing_in, set_stats, clear_user_layer_state, clear_users,
  clear_missing_user_state, follow, while_bound, on_quality_stats, unbind, bind, due_timers,
  run_timers, polls,
}
use zvonok.Layers.Starving.{requests, fast_stats_starve}

program : Unit {0}
unfolding get put remove has add truthy find_timer drop_timer is_viewport_visible effective_layer
    is_layer cancelled arm schedule_layer_switch emit_layer on_timer same_level is_changed
    changed_in missing_in set_stats clear_user_layer_state clear_users clear_missing_user_state
    follow while_bound on_quality_stats unbind bind due_timers run_timers polls
    quality_to_spatial_layer str_dec
program = tt

abbrev camera_of : String → Option String
camera_of u = some "c1"

abbrev bad_line : QualityScore
bad_line = record { level = poor; score = 10 }

abbrev good_line : QualityScore
good_line = record { level = good; score = 70 }

abbrev desktop : Engine
desktop = bind none none fresh

abbrev mobile : Engine
mobile = bind none (some stats_interval_mobile) fresh

-- The layer of a good line is asked for, and then the line gets bad.
abbrev asked : Engine
asked = on_timer camera_of 0 (on_quality_stats 0 (("ada", good_line) ∷ []) desktop)

abbrev worse : Engine
worse = on_quality_stats 5000 (("ada", bad_line) ∷ []) asked

fast_stats_starve_example :
    requests
      (polls camera_of stats_interval_desktop 2000
        ((("ada", bad_line) ∷ []) ∷ (("ada", bad_line) ∷ []) ∷ (("ada", good_line) ∷ []) ∷ [])
        desktop).acts
    ≡ []
unfolding program requests
fast_stats_starve_example =
    (fast_stats_starve camera_of stats_interval_desktop 2000
      ((("ada", bad_line) ∷ []) ∷ (("ada", bad_line) ∷ []) ∷ (("ada", good_line) ∷ []) ∷ []) desktop
      (record { debounce_ms = 3000; stats_interval_ms = 2000 }) refl (omega arith) refl refl).0

-- At the pace of a phone the layer is asked for.
slow_stats_ask :
    requests
      (polls camera_of stats_interval_mobile 5000
        ((("ada", bad_line) ∷ []) ∷ (("ada", bad_line) ∷ []) ∷ [])
        mobile).acts
    ≡ ("c1", 0) ∷ []
unfolding program requests
slow_stats_ask = refl
