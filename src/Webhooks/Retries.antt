-- ===== src/Webhooks/Retries.antt =====
-- How often a delivery is tried, and how long it can hold up its chain.
use zvonok.Prelude.{
  ℕ, zero, suc, ◌+◌, ◌≤◌, ◌<◌, ◌≡◌, ◌≢◌, ◌⊎◌, inl, inr, refl, ap, ◌∙◌, List, [], ◌∷◌, arith, length,
}
use zvonok.Webhooks.Queue.{
  Outcome, delivered, failed, throws, Action, attempts, waits, Ending, done, dropped, crashed,
  with_delays, webhook_retry_delays_ms, run_with_retries,
}

-- An attempt, and n more, each after the next of the delays.
abbrev pub schedule : ℕ → List ℕ → List Action
schedule zero ds = attempts ∷ []
schedule (suc n) [] = attempts ∷ []
schedule (suc n) (d ∷ ds) = attempts ∷ waits d ∷ schedule n ds

abbrev pub ending_of : Outcome → Ending
ending_of delivered = done
ending_of failed = dropped
ending_of throws = crashed

unfoldable pub waited : List Action → ℕ
waited [] = 0
waited (attempts ∷ as') = waited as'
waited (waits d ∷ as') = d + waited as'

unfoldable pub tries : List Action → ℕ
tries [] = 0
tries (attempts ∷ as') = suc (tries as')
tries (waits d ∷ as') = tries as'

abbrev total : List ℕ → ℕ
total [] = 0
total (d ∷ ds) = d + total ds

-- The run stops at the first attempt that does not fail, or, where all fail, after the last delay.
abbrev pub StopsAt : List ℕ → (ℕ → Outcome) → ℕ → Type 0
StopsAt ds attempt n =
    (n ≤ length ds)
    × ((m : ℕ) → m < n → attempt m ≡ failed)
    × ((n ≡ length ds) ⊎ (attempt n ≢ failed))
    × (with_delays ds attempt ≡ (schedule n ds, ending_of (attempt n)))

Outcome-cases : (o : Outcome) → (o ≡ failed) ⊎ (o ≡ delivered) ⊎ (o ≡ throws)
Outcome-cases delivered = inr (inl refl)
Outcome-cases failed = inl refl
Outcome-cases throws = inr (inr refl)

before_suc :
    (n : ℕ) (attempt : ℕ → Outcome)
    → attempt 0 ≡ failed
    → ((m : ℕ) → m < n → attempt (suc m) ≡ failed)
    → (m : ℕ) → m < suc n
    → attempt m ≡ failed
before_suc n attempt e h zero l = e
before_suc n attempt e h (suc m) l = h m (omega arith)

at_once :
    (d : ℕ) (ds : List ℕ) (attempt : ℕ → Outcome)
    → attempt 0 ≢ failed
    → with_delays (d ∷ ds) attempt ≡ (attempts ∷ [], ending_of (attempt 0))
    → StopsAt (d ∷ ds) attempt 0
at_once d ds attempt ne e = (omega arith, (λ m h. absurd (omega arith)), inr ne, e)

stops_last :
    (attempt : ℕ → Outcome) → with_delays [] attempt ≡ (attempts ∷ [], ending_of (attempt 0))
unfolding with_delays
stops_last attempt = elim (Outcome-cases (attempt 0)) [
  | inl e ↦ rw (with_delays, e) refl
  | inr (inl e) ↦ rw (with_delays, e) refl
  | inr (inr e) ↦ rw (with_delays, e) refl
]

-- Some attempt is the one at which the run stops.
pub with_delays-StopsAt : (ds : List ℕ) (attempt : ℕ → Outcome) → (n : ℕ) × StopsAt ds attempt n
unfolding with_delays
with_delays-StopsAt [] attempt =
    (0, (omega arith, (λ m h. absurd (omega arith)), inl refl, stops_last attempt))
with_delays-StopsAt (d ∷ ds) attempt = elim (Outcome-cases (attempt 0)) [
  | inr (inl e) ↦ (0, at_once d ds attempt (λ f. ground (arith, e)) (rw (with_delays, e) refl))
  | inr (inr e) ↦ (0, at_once d ds attempt (λ f. ground (arith, e)) (rw (with_delays, e) refl))
  | inl e ↦
      let (n, (le, before, why, whole)) = with_delays-StopsAt ds (λ k. attempt (suc k)) in
      (
        suc n,
        (
          omega arith,
          before_suc n attempt e before,
          elim why [ inl l ↦ inl (omega arith) | inr ne ↦ inr ne ],
          rw (with_delays, e, whole) refl,
        ),
      )
]

schedule_bounds :
    (n : ℕ) (ds : List ℕ)
    → n ≤ length ds
    → (tries (schedule n ds) ≡ suc n) × (waited (schedule n ds) ≤ total ds)
unfolding tries waited
schedule_bounds zero ds h = (refl, omega arith)
schedule_bounds (suc n) [] h = absurd (omega arith)
schedule_bounds (suc n) (d ∷ ds) h =
    let (t, w) = schedule_bounds n ds (omega arith) in (omega (arith, t), omega (arith, w))

-- Whatever its attempts come to, a delivery settles after at most six of them and 310 seconds of
-- delay. It is dropped only after six failed attempts; where an attempt succeeds and all before it
-- have failed, it is done right after that one, and where an attempt throws, the delivery crashes
-- there and the attempts that are left are not made.
pub retries_settle :
    (attempt : ℕ → Outcome)
    → (n : ℕ) × (n ≤ 5)
      × ((m : ℕ) → m < n → attempt m ≡ failed)
      × ((n ≡ 5) ⊎ (attempt n ≢ failed))
      × ((run_with_retries attempt).1 ≡ ending_of (attempt n))
      × (tries (run_with_retries attempt).0 ≡ suc n)
      × (waited (run_with_retries attempt).0 ≤ 310000)
retries_settle attempt =
    let (n, (le, before, why, whole)) = with_delays-StopsAt webhook_retry_delays_ms attempt in
    let (t, w) = schedule_bounds n webhook_retry_delays_ms le in
    (
      n,
      le,
      before,
      why,
      ap (λ (x : List Action × Ending). x.1) whole,
      ap (λ (x : List Action × Ending). tries x.0) whole ∙ t,
      rw (whole) w,
    )
