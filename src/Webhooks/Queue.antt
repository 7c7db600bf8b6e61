-- ===== src/Webhooks/Queue.antt =====
-- apps/server/src/webhooks/webhook-queue.ts. The promise of an attempt is what it comes to, the n-th
-- attempt of a delivery being the n-th value of a function; a chain of promises is the list of the
-- deliveries that have not settled, the one that runs in front.
use zvonok.Prelude.{ℕ, suc, String, List, [], ◌∷◌, ◌++◌, Map, put, remove, set_at}
use zvonok.Json.{Json}

pub data Outcome : Type 0 where
  delivered failed throws : Outcome

abbrev pub webhook_retry_delays_ms : List ℕ
webhook_retry_delays_ms = 10000 ∷ 20000 ∷ 40000 ∷ 80000 ∷ 160000 ∷ []

pub data Action : Type 0 where
  attempts : Action
  waits : ℕ → Action

pub data Ending : Type 0 where
  done dropped crashed : Ending

last_ending : Outcome → Ending
last_ending delivered = done
last_ending failed = dropped
last_ending throws = crashed

-- What is done until the delivery settles, and how it settles.
unfoldable pub with_delays : List ℕ → (ℕ → Outcome) → List Action × Ending
unfolding last_ending
with_delays [] attempt = (attempts ∷ [], last_ending (attempt 0))
with_delays (d ∷ ds) attempt =
    let rest = with_delays ds (λ n. attempt (suc n)) in
    elim (attempt 0) [
      | delivered ↦ (attempts ∷ [], done)
      | throws ↦ (attempts ∷ [], crashed)
      | failed ↦ (attempts ∷ waits d ∷ rest.0, rest.1)
    ]

abbrev pub run_with_retries : (ℕ → Outcome) → List Action × Ending
run_with_retries = with_delays webhook_retry_delays_ms

pub record Delivery : Type 0 where
  pub body : Json
  pub attempt : ℕ → Outcome

pub record Settled : Type 0 where
  pub project_id : String
  pub delivery : Delivery
  pub actions : List Action
  pub ending : Ending

pub record Queue : Type 0 where
  pub tails : Map (List Delivery)
  pub log : List Settled

abbrev pub empty : Queue
empty = record { tails = []; log = [] }

unfoldable pub enqueue_delivery : String → Delivery → Queue → Queue
enqueue_delivery project_id d q = record q {
  tails = put project_id (set_at q.tails project_id ++ d ∷ []) q.tails;
}

unfoldable pub keep_tail : String → List Delivery → Map (List Delivery) → Map (List Delivery)
keep_tail project_id [] tails = remove project_id tails
keep_tail project_id (d ∷ ds) tails = put project_id (d ∷ ds) tails

-- The delivery in front of a chain runs and settles; a chain that is through is forgotten. An error
-- of a run is caught, and the chain goes on.
unfoldable pub settle : String → Queue → Queue
unfolding keep_tail
settle project_id q = elim (set_at q.tails project_id) [
  | [] ↦ q
  | d ∷ ds ↦
      let run = run_with_retries d.attempt in
      record q {
        tails = keep_tail project_id ds q.tails;
        log =
            q.log
            ++ (record { project_id = project_id; delivery = d; actions = run.0; ending = run.1 })
              ∷ [];
      }
]

pub data Event : Type 0 where
  enqueued : String → Delivery → Event
  settles : String → Event

unfoldable pub step : Event → Queue → Queue
step (enqueued project_id d) q = enqueue_delivery project_id d q
step (settles project_id) q = settle project_id q

-- The events in their order, of any projects.
unfoldable pub run_all : List Event → Queue → Queue
run_all [] q = q
run_all (e ∷ es) q = run_all es (step e q)
