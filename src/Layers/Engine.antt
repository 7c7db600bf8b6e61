-- ===== src/Layers/Engine.antt =====
use zvonok.Prelude.{
  ℕ, suc, ◌+◌, String, Bool, false, not, ◌&&◌, Option, none, some, List, [], ◌∷◌, ◌++◌,
  if◌then◌else◌, ◌==◌, truthy, Map, get, put, remove, has, add, discard,
}
use zvonok.Client.Quality.{QualityLevel, QualityScore, quality_to_spatial_layer}

abbrev pub stats_interval_mobile : ℕ
stats_interval_mobile = 5000

abbrev pub stats_interval_desktop : ℕ
stats_interval_desktop = 2000

abbrev pub layer_switch_debounce_ms : ℕ
layer_switch_debounce_ms = 3000

-- A timer with the level that its callback has captured.
pub record Timer : Type 0 where
  pub user_id : String
  pub due : ℕ
  pub level : QualityLevel

pub record BoundState : Type 0 where
  pub debounce_ms : ℕ
  pub stats_interval_ms : ℕ

pub data Act : Type 0 where
  set_preferred_layers : String → ℕ → Act
  start_stats_collection : ℕ → Act
  stop_stats_collection : Act
  notify : String → Act

pub record Engine : Type 0 where
  pub stats : Map QualityScore
  pub hidden_users : List String
  pub suspended : Bool
  pub layer_timers : Map ℕ
  pub last_emitted_layer : Map ℕ
  pub known_peers : List String
  pub bound : Option BoundState
  pub running : List (ℕ × Timer)
  pub next_timer : ℕ
  pub acts : List Act

abbrev pub fresh : Engine
fresh = record {
  stats = [];
  hidden_users = [];
  suspended = false;
  layer_timers = [];
  last_emitted_layer = [];
  known_peers = [];
  bound = none;
  running = [];
  next_timer = 0;
  acts = [];
}

abbrev pub act : List Act → Engine → Engine
act es s = record s { acts = s.acts ++ es }

unfoldable pub find_timer : ℕ → List (ℕ × Timer) → Option Timer
find_timer n [] = none
find_timer n ((m, t) ∷ ts) = if m == n then some t else find_timer n ts

unfoldable pub drop_timer : ℕ → List (ℕ × Timer) → List (ℕ × Timer)
drop_timer n [] = []
drop_timer n ((m, t) ∷ ts) = let rest = drop_timer n ts in if m == n then rest else (m, t) ∷ rest

unfoldable pub is_viewport_visible : String → Engine → Bool
is_viewport_visible u s = not (has u s.hidden_users)

unfoldable pub effective_layer : String → QualityLevel → Engine → ℕ
effective_layer u level s =
    if is_viewport_visible u s && not s.suspended then quality_to_spatial_layer level else 0

unfoldable pub is_layer : ℕ → Option ℕ → Bool
is_layer n none = false
is_layer n (some m) = m == n

-- `clearTimeout` of a user's timer.
unfoldable pub cancelled : Option ℕ → List (ℕ × Timer) → List (ℕ × Timer)
cancelled none ts = ts
cancelled (some n) ts = drop_timer n ts

-- `setTimeout`, under the user.
unfoldable pub arm : ℕ → ℕ → String → QualityLevel → Engine → Engine
arm now debounce u level s = record s {
  layer_timers = put u s.next_timer s.layer_timers;
  running =
      (s.next_timer, record { user_id = u; due = now + debounce; level = level })
      ∷ cancelled (get u s.layer_timers) s.running;
  next_timer = suc s.next_timer;
}

unfoldable pub schedule_layer_switch : ℕ → String → Engine → Engine
schedule_layer_switch now u s = elim s.bound [
  | none ↦ s
  | some b ↦ elim (get u s.stats) [
    | none ↦ s
    | some score ↦
        if is_layer (effective_layer u score.level s) (get u s.last_emitted_layer)
        then s
        else arm now b.debounce_ms u score.level s
  ]
]

abbrev pub level_or : QualityLevel → Option QualityScore → QualityLevel
level_or level none = level
level_or level (some score) = score.level

-- The callback of a timer.
unfoldable pub emit_layer : (String → Option String) → Timer → Engine → Engine
emit_layer camera_of t s =
    let u = t.user_id in
    let now_at = effective_layer u (level_or t.level (get u s.stats)) s in
    let rest = record s { layer_timers = remove u s.layer_timers } in
    elim (truthy (camera_of u)) [
      | none ↦ record rest { last_emitted_layer = remove u s.last_emitted_layer }
      | some consumer_id ↦
          if is_layer now_at (get u s.last_emitted_layer)
          then rest
          else act (set_preferred_layers consumer_id now_at ∷ [])
              (record rest { last_emitted_layer = put u now_at s.last_emitted_layer })
    ]

unfoldable pub on_timer : (String → Option String) → ℕ → Engine → Engine
on_timer camera_of n s = elim (find_timer n s.running) [
  | none ↦ s
  | some t ↦ emit_layer camera_of t (record s { running = drop_timer n s.running })
]

unfoldable pub set_visibility : ℕ → String → Bool → Engine → Engine
set_visibility now u visible s =
    if (if is_viewport_visible u s then visible else not visible)
    then s
    else schedule_layer_switch now u (record s {
      hidden_users = if visible then discard u s.hidden_users else add u s.hidden_users;
    })

unfoldable pub schedule_all : ℕ → List String → Engine → Engine
schedule_all now [] s = s
schedule_all now (u ∷ us) s = schedule_all now us (schedule_layer_switch now u s)

unfoldable pub set_suspended : ℕ → Bool → Engine → Engine
set_suspended now suspended s =
    if (if s.suspended then suspended else not suspended)
    then s
    else schedule_all now s.known_peers (record s { suspended = suspended })
