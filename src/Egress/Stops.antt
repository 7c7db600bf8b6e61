-- ===== src/Egress/Stops.antt =====
-- Which processes a service stops: the effects of the start of a pipeline and of a failure.
use zvonok.Prelude.{
  ℕ, String, ◌≡◌, ◌⊎◌, inl, inr, ◌∙◌, refl, sym, ap, subst, Bool, true, some, List, [], ◌∷◌, ◌++◌,
  arith, Bool-cases, Option-cases, ltb, get, get-modify, length,
}
use zvonok.Media.Consumers.{RoomTapDescriptor}
use zvonok.Egress.State.{ActiveSession, SessionStatus, Service, Effect, stopped_process, change}
use zvonok.Egress.Inputs.{is_composable}
use zvonok.Egress.Ports.{allocate_port}
use zvonok.Egress.Pipeline.{
  close_runtime, begin_pipeline, open_tap, open_taps, spawn, start_pipeline, run_process, halted,
  halt, fail_session, next_part, count_failure, retry, on_pipeline_failure, times_of,
}
use zvonok.Egress.Frames.{IsSession, open_taps-IsSession, begin_pipeline-IsSession}

abbrev pub Done : Effect → List Effect → Type 0
Done e [] = ⊥
Done e (x ∷ xs) = (x ≡ e) ⊎ Done e xs

Done-left : (e : Effect) (xs ys : List Effect) → Done e xs → Done e (xs ++ ys)
Done-left e [] ys d = absurd d
Done-left e (x ∷ xs) ys (inl p) = inl p
Done-left e (x ∷ xs) ys (inr d) = inr (Done-left e xs ys d)

Done-right : (e : Effect) (xs ys : List Effect) → Done e ys → Done e (xs ++ ys)
Done-right e [] ys d = d
Done-right e (x ∷ xs) ys d = inr (Done-right e xs ys d)

-- The session has the process.
abbrev pub HasProcess : String → ℕ → Service → Type 0
HasProcess id p s = (x : ActiveSession) × (get id s.heap ≡ some x) × (x.process ≡ some p)

close_runtime-Done :
    (id : String) (p : ℕ) (s : Service)
    → HasProcess id p s
    → Done (stopped_process p) (close_runtime id s).effects
unfolding close_runtime
close_runtime-Done id p s (x, found, runs) =
    rw (close_runtime, found, runs) (Done-right (stopped_process p) s.effects _ (inl refl))

close_runtime-keeps :
    (e : Effect) (id : String) (s : Service)
    → Done e s.effects
    → Done e (close_runtime id s).effects
unfolding close_runtime
close_runtime-keeps e id s d = elim (Option-cases (get id s.heap)) [
  | inl f ↦ rw (close_runtime, f) d
  | inr (x, f) ↦ rw (close_runtime, f) (Done-left e s.effects _ d)
]

-- Opening taps does nothing outside and spawns nothing.
abbrev Still : Service → Service → Type 0
Still s t = (t.effects ≡ s.effects) × (t.next_process ≡ s.next_process)

open_tap-Still :
    (opens : String → Bool) (id : String) (d : RoomTapDescriptor) (s : Service)
    → Still s (open_tap opens id d s).0
unfolding open_tap
open_tap-Still opens id d s = elim (Option-cases (allocate_port s.ports_in_use)) [
  | inl e ↦ rw (open_tap, e) (refl, refl)
  | inr ((port, used), e) ↦ elim (Bool-cases (opens d.producer_id)) [
    | inl f ↦ rw (open_tap, e, f) (refl, refl)
    | inr f ↦ rw (open_tap, e, f) (refl, refl)
  ]
]

pub open_taps-Still :
    (opens : String → Bool) (id : String) (ds : List RoomTapDescriptor) (s : Service)
    → Still s (open_taps opens id ds s).0
unfolding open_taps
open_taps-Still opens id [] s = (refl, refl)
open_taps-Still opens id (d ∷ ds) s =
    let (a, b) = open_tap-Still opens id d s in
    let (c, e) = open_taps-Still opens id ds (open_tap opens id d s).0 in
    elim (Bool-cases (open_tap opens id d s).1) [
      | inl f ↦ rw f (c ∙ a, e ∙ b)
      | inr f ↦ rw f (a, b)
    ]

spawn-keeps :
    (e : Effect) (id : String) (ds : List RoomTapDescriptor) (s : Service)
    → Done e s.effects
    → Done e (spawn id ds s).0.effects
unfolding spawn
spawn-keeps e id ds s d = elim (Bool-cases (is_composable ds)) [
  | inl f ↦ rw (spawn, f) (Done-left e s.effects _ d)
  | inr f ↦ rw (spawn, f) d
]

-- The start of a pipeline stops the process that the session had.
pub start_pipeline-Done :
    (opens : String → Bool) (ds : List RoomTapDescriptor) (id : String) (p : ℕ) (s : Service)
    → HasProcess id p s
    → Done (stopped_process p) (start_pipeline opens ds id s).0.effects
unfolding start_pipeline begin_pipeline
start_pipeline-Done opens ds id p s h =
    let t = begin_pipeline id s in
    let d =
      subst (Done (stopped_process p)) (sym (open_taps-Still opens id ds t).0)
        (close_runtime-Done id p s h) in
    elim (Bool-cases (open_taps opens id ds t).1) [
      | inl e ↦ rw e (spawn-keeps (stopped_process p) id ds (open_taps opens id ds t).0 d)
      | inr e ↦ rw e d
    ]

fail_session-keeps :
    (e : Effect) (id error : String) (s : Service)
    → Done e s.effects
    → Done e (fail_session id error s).effects
unfolding fail_session halt
fail_session-keeps e id error s d =
    Done-left e (close_runtime id (change id halted s)).effects _
      (close_runtime-keeps e id (change id halted s) d)

fail_session-Done :
    (id error : String) (p : ℕ) (s : Service)
    → HasProcess id p s
    → Done (stopped_process p) (fail_session id error s).effects
unfolding fail_session halt halted
fail_session-Done id error p s (x, found, runs) =
    let t = change id halted s in
    Done-left (stopped_process p) (close_runtime id t).effects _ (
      close_runtime-Done id p t
        (halted x, ground (arith, get-modify id id halted s.heap x found), runs))

pub change-HasProcess :
    (f : ActiveSession → ActiveSession) (id : String) (p : ℕ) (s : Service)
    → ((x : ActiveSession) → (f x).process ≡ x.process)
    → HasProcess id p s
    → HasProcess id p (change id f s)
change-HasProcess f id p s keeps (x, found, runs) =
    (f x, ground (arith, get-modify id id f s.heap x found), keeps x ∙ runs)

-- So does a failure of the pipeline, whether it is started again or given up.
pub failure-Done :
    (opens : String → Bool) (ds : List RoomTapDescriptor) (now : ℕ) (id reason : String) (p : ℕ)
    (s : Service)
    → HasProcess id p s
    → Done (stopped_process p) (on_pipeline_failure opens ds now id reason s).effects
unfolding on_pipeline_failure retry count_failure next_part
failure-Done opens ds now id reason p s h =
    let t = change id (count_failure now) s in
    let k = change-HasProcess (count_failure now) id p s (λ x. refl) h in
    let u = change id next_part t in
    let d =
      start_pipeline-Done opens ds id p u (change-HasProcess next_part id p t (λ x. refl) k) in
    elim (Bool-cases (ltb 3 (length (times_of (get id t.heap))))) [
      | inl f ↦ rw f (fail_session-Done id reason p t k)
      | inr f ↦ rw f (elim (Bool-cases (start_pipeline opens ds id u).1) [
        | inl g ↦ rw g d
        | inr g ↦ rw g (
            fail_session-keeps (stopped_process p) id "restart failed"
              (start_pipeline opens ds id u).0 d)
      ])
    ]

close_runtime-next :
    (id : String) (s : Service) → (close_runtime id s).next_process ≡ s.next_process
unfolding close_runtime
close_runtime-next id s = elim (Option-cases (get id s.heap)) [
  | inl f ↦ rw (close_runtime, f) refl
  | inr (x, f) ↦ rw (close_runtime, f) refl
]

-- A pipeline that starts has the next process.
pub start_pipeline-HasProcess :
    (opens : String → Bool) (ds : List RoomTapDescriptor) (id : String) (status : SessionStatus)
    (times : List ℕ) (s : Service)
    → IsSession id status times s.heap
    → (start_pipeline opens ds id s).1 ≡ true
    → HasProcess id s.next_process (start_pipeline opens ds id s).0
unfolding start_pipeline spawn begin_pipeline run_process
start_pipeline-HasProcess opens ds id status times s h started =
    let t = begin_pipeline id s in
    let u = (open_taps opens id ds t).0 in
    let k =
      open_taps-IsSession id status times opens ds t
        (begin_pipeline-IsSession id status times s h) in
    let next : u.next_process ≡ s.next_process =
      (open_taps-Still opens id ds t).1 ∙ close_runtime-next id s in
    elim (Bool-cases (open_taps opens id ds t).1) [
      | inr e ↦ absurd (ground (arith, e, started))
      | inl e ↦ elim (Bool-cases (is_composable ds)) [
        | inr f ↦ absurd (ground (arith, e, f, started))
        | inl f ↦
            rw (e, f)
              (
                run_process u.next_process k.session,
                ground
                    (arith, get-modify id id (run_process u.next_process) u.heap k.session k.found),
                ap some next,
              )
      ]
    ]
