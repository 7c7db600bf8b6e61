-- ===== src/Client/Quality.antt =====
-- packages/client/src/sfu/quality-score.ts. The packet loss is counted in tenths of a percent, the
-- other figures are whole, as the code compares them with whole numbers only.
use zvonok.Prelude.{ℕ, ◌+◌, ◌-◌, ◌≤◌, ◌≡◌, ◌&&◌, ◌||◌, if◌then◌else◌, ltb, leb, refl, ap, arith}

pub data QualityLevel : Type 0 where
  excellent good fair poor : QualityLevel

pub record QualityStats : Type 0 where
  pub packet_loss : ℕ
  pub rtt : ℕ
  pub jitter : ℕ
  pub width : ℕ
  pub height : ℕ
  pub fps : ℕ

pub record QualityScore : Type 0 where
  pub level : QualityLevel
  pub score : ℕ

unfoldable pub get_quality_level : ℕ → QualityLevel
get_quality_level score =
    if leb 80 score
    then excellent
    else if leb 60 score
    then good
    else if leb 40 score
    then fair
    else poor

unfoldable pub loss_penalty : ℕ → ℕ
loss_penalty loss =
    if ltb 100 loss
    then 40
    else if ltb 50 loss
    then 25
    else if ltb 20 loss
    then 10
    else if ltb 5 loss
    then 5
    else 0

unfoldable pub rtt_penalty : ℕ → ℕ
rtt_penalty rtt =
    if ltb 500 rtt then 25 else if ltb 300 rtt then 15 else if ltb 150 rtt then 5 else 0

unfoldable pub jitter_penalty : ℕ → ℕ
jitter_penalty jitter =
    if ltb 100 jitter then 20 else if ltb 50 jitter then 10 else if ltb 20 jitter then 5 else 0

unfoldable pub resolution_bonus : ℕ → ℕ → ℕ
resolution_bonus width height = if leb 1280 width && leb 720 height then 5 else 0

unfoldable pub resolution_penalty : ℕ → ℕ → ℕ
resolution_penalty width height =
    if ltb 0 width && ltb 0 height
    then (if leb 1280 width && leb 720 height
        then 0
        else if ltb width 320 || ltb height 240
        then 10
        else 0)
    else 0

unfoldable pub fps_penalty : ℕ → ℕ
fps_penalty fps = if ltb 0 fps && ltb fps 15 then 10 else 0

unfoldable pub min : ℕ → ℕ → ℕ
min a b = if leb a b then a else b

-- The score before it is cut off. Only the last subtraction can go below 0, where the code's
-- `Math.max(0, …)` also puts 0.
unfoldable pub raw_score : QualityStats → ℕ
raw_score stats =
    let network =
      100 - loss_penalty stats.packet_loss - rtt_penalty stats.rtt - jitter_penalty stats.jitter in
    let picture =
      network
      + resolution_bonus stats.width stats.height
      - resolution_penalty stats.width stats.height in
    picture - fps_penalty stats.fps

unfoldable pub calculate_quality_score : QualityStats → QualityScore
calculate_quality_score stats =
    let score = min 100 (raw_score stats) in
    record { level = get_quality_level score; score = score }

unfoldable pub quality_to_spatial_layer : QualityLevel → ℕ
quality_to_spatial_layer excellent = 2
quality_to_spatial_layer good = 2
quality_to_spatial_layer fair = 1
quality_to_spatial_layer poor = 0

loss_mono : (a b : ℕ) → a ≤ b → loss_penalty a ≤ loss_penalty b
unfolding loss_penalty
loss_mono a b h = ground arith

rtt_mono : (a b : ℕ) → a ≤ b → rtt_penalty a ≤ rtt_penalty b
unfolding rtt_penalty
rtt_mono a b h = ground arith

jitter_mono : (a b : ℕ) → a ≤ b → jitter_penalty a ≤ jitter_penalty b
unfolding jitter_penalty
jitter_mono a b h = ground arith

layer_mono :
    (a b : ℕ)
    → a ≤ b
    → quality_to_spatial_layer (get_quality_level a)
      ≤ quality_to_spatial_layer (get_quality_level b)
unfolding quality_to_spatial_layer get_quality_level
layer_mono a b h = ground arith

min_mono : (a b : ℕ) → a ≤ b → min 100 a ≤ min 100 b
unfolding min
min_mono a b h = ground arith

raw_mono :
    (a b : QualityStats)
    → a.packet_loss ≤ b.packet_loss
    → a.rtt ≤ b.rtt
    → a.jitter ≤ b.jitter
    → a.width ≡ b.width
    → a.height ≡ b.height
    → a.fps ≡ b.fps
    → raw_score b ≤ raw_score a
unfolding raw_score
raw_mono a b l r j w h f =
    rw (w, h, f)
      (omega (
        arith,
        loss_mono a.packet_loss b.packet_loss l,
        rtt_mono a.rtt b.rtt r,
        jitter_mono a.jitter b.jitter j,
      ))

bounds :
    (s : QualityStats)
    → (loss_penalty s.packet_loss ≤ 40)
      × (rtt_penalty s.rtt ≤ 25)
      × (jitter_penalty s.jitter ≤ 20)
      × (resolution_penalty s.width s.height ≤ 10)
unfolding loss_penalty rtt_penalty jitter_penalty resolution_penalty
bounds s = (ground arith, ground arith, ground arith, ground arith)

raw_sum :
    (s : QualityStats)
    → raw_score s
      ≡ 100
        + resolution_bonus s.width s.height
        - (loss_penalty s.packet_loss
            + rtt_penalty s.rtt
            + jitter_penalty s.jitter
            + resolution_penalty s.width s.height
            + fps_penalty s.fps)
unfolding raw_score
raw_sum s = let (loss, rtt, jitter, picture) = bounds s in omega (arith, loss, rtt, jitter, picture)

min_bound : (a : ℕ) → min 100 a ≤ 100
unfolding min
min_bound a = ground arith

-- Of two streams with the same picture, the one whose loss, round trip and jitter are each at least
-- as high has no higher score and is sent no higher spatial layer.
pub worse_network_no_better :
    (a b : QualityStats)
    → a.packet_loss ≤ b.packet_loss
    → a.rtt ≤ b.rtt
    → a.jitter ≤ b.jitter
    → a.width ≡ b.width
    → a.height ≡ b.height
    → a.fps ≡ b.fps
    → ((calculate_quality_score b).score ≤ (calculate_quality_score a).score)
      × (quality_to_spatial_layer (calculate_quality_score b).level
          ≤ quality_to_spatial_layer (calculate_quality_score a).level)
unfolding calculate_quality_score
worse_network_no_better a b l r j w h f =
    let less = min_mono (raw_score b) (raw_score a) (raw_mono a b l r j w h f) in
    (less, layer_mono _ _ less)

-- The score is the one of the sum: what the penalties leave of 100 and the bonus, cut off at 0 and at
-- 100. The level is that of the score.
pub score_is_clamped_sum :
    (s : QualityStats)
    → ((calculate_quality_score s).score
        ≡ min 100 (
            100
            + resolution_bonus s.width s.height
            - (loss_penalty s.packet_loss
                + rtt_penalty s.rtt
                + jitter_penalty s.jitter
                + resolution_penalty s.width s.height
                + fps_penalty s.fps)))
      × ((calculate_quality_score s).score ≤ 100)
      × ((calculate_quality_score s).level ≡ get_quality_level (calculate_quality_score s).score)
unfolding calculate_quality_score
score_is_clamped_sum s = (ap (min 100) (raw_sum s), min_bound (raw_score s), refl)
