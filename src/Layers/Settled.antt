-- ===== src/Layers/Settled.antt =====
-- A layer that was asked for and does not fit any more has a timer: what each operation keeps of it.
use zvonok.Prelude.{
  ℕ, String, Bool, true, not, ◌&&◌, Option, none, some, List, [], ◌∷◌, ◌≡◌, ◌≢◌, ◌⊎◌, inl, inr,
  refl, sym, ap, ◌∙◌, subst, arith, str_dec, if◌then◌else◌, if_neg, if_cases, elim_cases, Map, get,
  put, get-put, has,
}
use mathlib.Core.Option.{some-injective}
use zvonok.Client.Quality.{QualityLevel, QualityScore, quality_to_spatial_layer}
use zvonok.Layers.Engine.{
  Act, BoundState, Engine, is_viewport_visible, effective_layer, is_layer, arm,
  schedule_layer_switch, schedule_all,
}
use zvonok.Layers.Timers.{IsTracked, armed-IsTracked}

-- The layer that was asked for fits, or a timer is set.
abbrev pub FitsAt : Option QualityScore → Option ℕ → Option ℕ → Bool → Type 0
FitsAt score last timer shown =
    (q : QualityScore) (l : ℕ)
    → score ≡ some q
    → last ≡ some l
    → (l ≡ (if shown then quality_to_spatial_layer q.level else 0)) ⊎ ((n : ℕ) × (timer ≡ some n))

abbrev pub is_shown : String → Engine → Bool
is_shown u s = is_viewport_visible u s && not s.suspended

abbrev pub Fits : String → Engine → Type 0
Fits u s = FitsAt (get u s.stats) (get u s.last_emitted_layer) (get u s.layer_timers) (is_shown u s)

abbrev pub Tracked : Engine → Type 0
Tracked s = IsTracked s.running s.layer_timers s.next_timer

pub record IsSettled (s : Engine) : Type 0 where
  pub tracked : Tracked s
  pub followed :
      (u : String) (q : QualityScore) → get u s.stats ≡ some q → has u s.known_peers ≡ true
  pub idle : s.bound ≡ none → s.stats ≡ []
  pub fits : (u : String) → Fits u s

-- What a schedule leaves alone.
abbrev pub Frame : Type 0
Frame = Map QualityScore × List String × Bool × Map ℕ × List String × Option BoundState × List Act

abbrev pub frame : Engine → Frame
frame s =
    (s.stats, s.hidden_users, s.suspended, s.last_emitted_layer, s.known_peers, s.bound, s.acts)

pub schedule_cases {ℓ} :
    (P : Engine → Type ℓ) (now : ℕ) (u : String) (s : Engine)
    → (s.bound ≡ none → P s)
    → (get u s.stats ≡ none → P s)
    → ((q : QualityScore)
        → get u s.stats ≡ some q
        → is_layer (effective_layer u q.level s) (get u s.last_emitted_layer) ≡ true
        → P s)
    → ((b : BoundState) (q : QualityScore)
        → get u s.stats ≡ some q
        → P (arm now b.debounce_ms u q.level s))
    → P (schedule_layer_switch now u s)
unfolding schedule_layer_switch
schedule_cases P now u s p q r w = elim_cases P s.bound _ _ p (λ b e.
    elim_cases P (get u s.stats) _ _ q (λ score f.
      if_cases P (is_layer (effective_layer u score.level s) (get u s.last_emitted_layer)) _ _
        (λ g. r score f g) (λ g. w b score f)))

pub schedule-frame :
    (now : ℕ) (u : String) (s : Engine) → frame (schedule_layer_switch now u s) ≡ frame s
unfolding arm
schedule-frame now u s =
    schedule_cases (λ z. frame z ≡ frame s) now u s (λ e. refl) (λ e. refl) (λ q e f. refl)
      (λ b q e. refl)

pub schedule-IsTracked :
    (now : ℕ) (u : String) (s : Engine) → Tracked s → Tracked (schedule_layer_switch now u s)
unfolding arm
schedule-IsTracked now u s v =
    schedule_cases Tracked now u s (λ e. v) (λ e. v) (λ q e f. v)
      (λ b q e. armed-IsTracked v u _ refl)

pub is_layer_lem : (n m : ℕ) (o : Option ℕ) → is_layer n o ≡ true → o ≡ some m → m ≡ n
unfolding is_layer
is_layer_lem n m none e f = absurd (ground (arith, f))
is_layer_lem n m (some k) e f = ground (arith, e, f)

-- A timer is set for the user, and others keep theirs.
armed-Fits :
    (now d : ℕ) (u w : String) (level : QualityLevel) (s : Engine)
    → (u ≢ w → Fits w s)
    → Fits w (arm now d u level s)
unfolding arm is_viewport_visible
armed-Fits now d u w level s h = elim (str_dec u w) [
  | yes k ↦
      λ q l e f. inr (s.next_timer, ground (arith, get-put w u s.next_timer s.layer_timers, k))
  | no k ↦
      let same : get w (put u s.next_timer s.layer_timers) ≡ get w s.layer_timers =
        get-put w u s.next_timer s.layer_timers ∙ if_neg (str_dec u w) k _ _ in
      subst (λ o. FitsAt (get w s.stats) (get w s.last_emitted_layer) o (is_shown w s)) (sym same)
        (h k)
]

pub schedule-Fits :
    (now : ℕ) (u : String) (s : Engine) (b : BoundState)
    → s.bound ≡ some b
    → Fits u (schedule_layer_switch now u s)
unfolding effective_layer
schedule-Fits now u s b e =
    schedule_cases (Fits u) now u s (λ f. absurd (ground (arith, e, f)))
      (λ f q l g. absurd (ground (arith, f, g)))
      (λ q f g p l h k. inl (
        is_layer_lem _ l _ g k
        ∙ ap (λ z. effective_layer u z.level s) (some-injective q p (sym f ∙ h))))
      (λ c q f. armed-Fits now c.debounce_ms u u q.level s (λ k. absurd (k refl)))

pub schedule_keeps :
    (now : ℕ) (u w : String) (s : Engine) → Fits w s → Fits w (schedule_layer_switch now u s)
schedule_keeps now u w s h =
    schedule_cases (Fits w) now u s (λ f. h) (λ f. h) (λ q f g. h)
      (λ c q f. armed-Fits now c.debounce_ms u w q.level s (λ k. h))

pub schedule_all-frame :
    (now : ℕ) (us : List String) (s : Engine) → frame (schedule_all now us s) ≡ frame s
unfolding schedule_all
schedule_all-frame now [] s = refl
schedule_all-frame now (u ∷ us) s =
    schedule_all-frame now us (schedule_layer_switch now u s) ∙ schedule-frame now u s

pub schedule_all-IsTracked :
    (now : ℕ) (us : List String) (s : Engine) → Tracked s → Tracked (schedule_all now us s)
unfolding schedule_all
schedule_all-IsTracked now [] s v = v
schedule_all-IsTracked now (u ∷ us) s v =
    schedule_all-IsTracked now us (schedule_layer_switch now u s) (schedule-IsTracked now u s v)

all_keep :
    (now : ℕ) (us : List String) (w : String) (s : Engine)
    → Fits w s
    → Fits w (schedule_all now us s)
unfolding schedule_all
all_keep now [] w s h = h
all_keep now (u ∷ us) w s h =
    all_keep now us w (schedule_layer_switch now u s) (schedule_keeps now u w s h)

pub schedule_all-Fits :
    (now : ℕ) (us : List String) (w : String) (s : Engine) (b : BoundState)
    → s.bound ≡ some b
    → has w us ≡ true
    → Fits w (schedule_all now us s)
unfolding schedule_all has
schedule_all-Fits now [] w s b e h = absurd (ground (arith, h))
schedule_all-Fits now (u ∷ us) w s b e h = elim (str_dec u w) [
  | yes k ↦
      all_keep now us w (schedule_layer_switch now u s)
        (subst (λ z. Fits z (schedule_layer_switch now u s)) k (schedule-Fits now u s b e))
  | no k ↦
      schedule_all-Fits now us w (schedule_layer_switch now u s) b
        (ap (λ (z : Frame). z.5) (schedule-frame now u s) ∙ e) (ground (arith, h, k))
]
