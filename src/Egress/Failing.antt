-- ===== src/Egress/Failing.antt =====
-- Sessions that run and sessions that have failed, and what the start of a pipeline does to the rows.
use zvonok.Prelude.{
  ℕ, String, ◌≡◌, ◌≢◌, inl, inr, ◌∙◌, refl, Bool, some, List, [], ◌∷◌, arith, Bool-cases,
  Option-cases, get, get-modify,
}
use zvonok.Media.Consumers.{RoomTapDescriptor}
use zvonok.Egress.State.{SessionStatus, stopping, Service, Egress, row_failed, change}
use zvonok.Egress.Ports.{allocate_port}
use zvonok.Egress.Inputs.{is_composable}
use zvonok.Egress.Pipeline.{
  close_runtime, begin_pipeline, open_tap, open_taps, spawn, start_pipeline, halted, halt, fail_row,
  fail_session,
}
use zvonok.Egress.Frames.{IsSession, modify-IsSession, close_runtime-IsSession}

pub close_runtime-rows : (id : String) (s : Service) → (close_runtime id s).rows ≡ s.rows
unfolding close_runtime
close_runtime-rows id s = elim (Option-cases (get id s.heap)) [
  | inl e ↦ rw (close_runtime, e) refl
  | inr (x, e) ↦ rw (close_runtime, e) refl
]

open_tap-rows :
    (opens : String → Bool) (id : String) (d : RoomTapDescriptor) (s : Service)
    → (open_tap opens id d s).0.rows ≡ s.rows
unfolding open_tap
open_tap-rows opens id d s = elim (Option-cases (allocate_port s.ports_in_use)) [
  | inl e ↦ rw (open_tap, e) refl
  | inr ((port, used), e) ↦ elim (Bool-cases (opens d.producer_id)) [
    | inl f ↦ rw (open_tap, e, f) refl
    | inr f ↦ rw (open_tap, e, f) refl
  ]
]

pub open_taps-rows :
    (opens : String → Bool) (id : String) (ds : List RoomTapDescriptor) (s : Service)
    → (open_taps opens id ds s).0.rows ≡ s.rows
unfolding open_taps
open_taps-rows opens id [] s = refl
open_taps-rows opens id (d ∷ ds) s =
    let one = open_tap-rows opens id d s in
    let rest = open_taps-rows opens id ds (open_tap opens id d s).0 in
    elim (Bool-cases (open_tap opens id d s).1) [ inl e ↦ rw e (rest ∙ one) | inr e ↦ rw e one ]

pub start_pipeline-rows :
    (opens : String → Bool) (ds : List RoomTapDescriptor) (id : String) (s : Service)
    → (start_pipeline opens ds id s).0.rows ≡ s.rows
unfolding start_pipeline begin_pipeline spawn
start_pipeline-rows opens ds id s =
    let begun = close_runtime-rows id s in
    let opened = open_taps-rows opens id ds (begin_pipeline id s) in
    elim (Bool-cases (open_taps opens id ds (begin_pipeline id s)).1) [
      | inr e ↦ rw e (opened ∙ begun)
      | inl e ↦ elim (Bool-cases (is_composable ds)) [
        | inl f ↦ rw (e, f) (opened ∙ begun)
        | inr f ↦ rw (e, f) (opened ∙ begun)
      ]
    ]

-- The row is failed and the session is stopped.
abbrev pub HasFailed : String → Service → Type 0
HasFailed id s =
    ((times : List ℕ) × IsSession id stopping times s.heap)
    × ((row : Egress) × (get id s.rows ≡ some row) × (row.status ≡ row_failed))

-- The session runs, with the failures that it has counted.
abbrev pub Runs : String → List ℕ → Service → Type 0
Runs id times s =
    ((status : SessionStatus) × (status ≢ stopping) × IsSession id status times s.heap)
    × ((row : Egress) × (get id s.rows ≡ some row))

pub fail_session-HasFailed :
    (id error : String) (status : SessionStatus) (times : List ℕ) (row : Egress) (s : Service)
    → IsSession id status times s.heap
    → get id s.rows ≡ some row
    → HasFailed id (fail_session id error s)
unfolding fail_session halt halted fail_row
fail_session-HasFailed id error status times row s h e =
    let t = change id halted s in
    let k = modify-IsSession id halted status stopping times times s.heap (λ x p q. (refl, q)) h in
    (
      (times, close_runtime-IsSession id stopping times t k),
      (
        fail_row error row,
        ground (
          arith,
          close_runtime-rows id t,
          get-modify id id (fail_row error) (close_runtime id t).rows row,
        ),
        refl,
      ),
    )
