-- ===== src/Webhooks/Tests.antt =====
-- The theorems of this part at small inputs.
use zvonok.Prelude.{ℕ, zero, suc, ◌≤◌, ◌<◌, ◌≡◌, ◌≢◌, ◌⊎◌, none, some, [], ◌∷◌, ◌++◌}
use zvonok.Json.{null}
use zvonok.Webhooks.Queue.{
  Queue, Outcome, delivered, failed, Delivery, empty, enqueued, settles, run_all, enqueue_delivery,
  run_with_retries,
}
use zvonok.Webhooks.Retries.{tries, waited, ending_of, retries_settle}
use zvonok.Webhooks.Fifo.{known, asked_of, run_all-known}
use zvonok.Webhooks.Dispatch.{ConfigRead, row}

abbrev third_time : ℕ → Outcome
third_time zero = failed
third_time (suc zero) = failed
third_time (suc (suc n)) = delivered

retries_settle_example :
    (n : ℕ) × (n ≤ 5)
    × ((m : ℕ) → m < n → third_time m ≡ failed)
    × ((n ≡ 5) ⊎ (third_time n ≢ failed))
    × ((run_with_retries third_time).1 ≡ ending_of (third_time n))
    × (tries (run_with_retries third_time).0 ≡ suc n)
    × (waited (run_with_retries third_time).0 ≤ 310000)
retries_settle_example = retries_settle third_time

abbrev first_event : Delivery
first_event = record { body = null; attempt = third_time }

abbrev second_event : Delivery
second_event = record { body = null; attempt = λ n. failed }

run_all-known_example :
    known "p" (
      run_all
        (enqueued "p" first_event
          ∷ enqueued "q" second_event
          ∷ settles "q"
          ∷ enqueued "p" second_event
          ∷ settles "p"
          ∷ [])
        empty)
    ≡ known "p" empty
      ++ asked_of "p" (
          enqueued "p" first_event
          ∷ enqueued "q" second_event
          ∷ settles "q"
          ∷ enqueued "p" second_event
          ∷ settles "p"
          ∷ [])
run_all-known_example =
    run_all-known "p"
      (enqueued "p" first_event
        ∷ enqueued "q" second_event
        ∷ settles "q"
        ∷ enqueued "p" second_event
        ∷ settles "p"
        ∷ [])
      empty

abbrev configs : ℕ → ConfigRead
configs zero =
    row (some (record { id = "p"; webhook_url = some "https://a"; webhook_secret = some "k" }))
configs (suc n) = row none

abbrev waiting : Queue
waiting = enqueue_delivery "p" second_event (enqueue_delivery "p" first_event empty)
