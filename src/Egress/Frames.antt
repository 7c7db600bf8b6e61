-- ===== src/Egress/Frames.antt =====
-- What the start of a pipeline leaves alone in its session.
use zvonok.Prelude.{
  ℕ, String, ◌≡◌, inl, inr, ◌∙◌, refl, Bool, false, some, List, [], ◌∷◌, arith, Bool-cases,
  Option-cases, Map, get, modify, get-modify,
}
use zvonok.Media.Consumers.{RoomTapDescriptor}
use zvonok.Egress.State.{ActiveSession, SessionStatus, Service}
use zvonok.Egress.Ports.{allocate_port}
use zvonok.Egress.Inputs.{is_composable}
use zvonok.Egress.Pipeline.{
  without_runtime, close_runtime, set_start_timer, add_tap, run_process, begin_pipeline, open_tap,
  open_taps, spawn, start_pipeline,
}

-- The session is there, with the status and the restarts that are given.
pub record IsSession (id : String) (status : SessionStatus) (times : List ℕ)
    (heap : Map ActiveSession) : Type 0 where
  pub session : ActiveSession
  pub found : get id heap ≡ some session
  pub with_status : session.status ≡ status
  pub with_times : session.restart_times ≡ times

pub modify-IsSession :
    (id : String) (f : ActiveSession → ActiveSession) (status status' : SessionStatus)
    (times times' : List ℕ) (heap : Map ActiveSession)
    → ((x : ActiveSession)
        → x.status ≡ status
        → x.restart_times ≡ times
        → ((f x).status ≡ status') × ((f x).restart_times ≡ times'))
    → IsSession id status times heap
    → IsSession id status' times' (modify id f heap)
modify-IsSession id f status status' times times' heap keeps h =
    let (a, b) = keeps h.session h.with_status h.with_times in
    record {
      session = f h.session;
      found = ground (arith, get-modify id id f heap h.session h.found);
      with_status = a;
      with_times = b;
    }

module _ (id : String) (status : SessionStatus) (times : List ℕ) where
  -- A change that keeps both.
  pub same-IsSession :
      (f : ActiveSession → ActiveSession) (heap : Map ActiveSession)
      → ((x : ActiveSession) → ((f x).status ≡ x.status) × ((f x).restart_times ≡ x.restart_times))
      → IsSession id status times heap
      → IsSession id status times (modify id f heap)
  same-IsSession f heap keeps =
      modify-IsSession id f status status times times heap
        (λ x p q. let (a, b) = keeps x in (a ∙ p, b ∙ q))

  pub close_runtime-IsSession :
      (s : Service)
      → IsSession id status times s.heap
      → IsSession id status times (close_runtime id s).heap
  unfolding close_runtime without_runtime
  close_runtime-IsSession s h =
      rw (close_runtime, h.found) (same-IsSession without_runtime s.heap (λ x. (refl, refl)) h)

  pub begin_pipeline-IsSession :
      (s : Service)
      → IsSession id status times s.heap
      → IsSession id status times (begin_pipeline id s).heap
  unfolding begin_pipeline set_start_timer
  begin_pipeline-IsSession s h =
      same-IsSession (set_start_timer false) (close_runtime id s).heap (λ x. (refl, refl))
        (close_runtime-IsSession s h)

  open_tap-IsSession :
      (opens : String → Bool) (d : RoomTapDescriptor) (s : Service)
      → IsSession id status times s.heap
      → IsSession id status times (open_tap opens id d s).0.heap
  unfolding open_tap add_tap
  open_tap-IsSession opens d s h = elim (Option-cases (allocate_port s.ports_in_use)) [
    | inl e ↦ rw (open_tap, e) h
    | inr ((port, used), e) ↦ elim (Bool-cases (opens d.producer_id)) [
      | inl f ↦
          rw (open_tap, e, f)
            (same-IsSession (add_tap (record { descriptor = d; port = port })) s.heap
              (λ x. (refl, refl)) h)
      | inr f ↦ rw (open_tap, e, f) h
    ]
  ]

  pub open_taps-IsSession :
      (opens : String → Bool) (ds : List RoomTapDescriptor) (s : Service)
      → IsSession id status times s.heap
      → IsSession id status times (open_taps opens id ds s).0.heap
  unfolding open_taps
  open_taps-IsSession opens [] s h = h
  open_taps-IsSession opens (d ∷ ds) s h =
      let k = open_tap-IsSession opens d s h in
      let rest = open_taps-IsSession opens ds (open_tap opens id d s).0 k in
      elim (Bool-cases (open_tap opens id d s).1) [ inl e ↦ rw e rest | inr e ↦ rw e k ]

  spawn-IsSession :
      (ds : List RoomTapDescriptor) (s : Service)
      → IsSession id status times s.heap
      → IsSession id status times (spawn id ds s).0.heap
  unfolding spawn run_process
  spawn-IsSession ds s h = elim (Bool-cases (is_composable ds)) [
    | inl e ↦
        rw (spawn, e) (same-IsSession (run_process s.next_process) s.heap (λ x. (refl, refl)) h)
    | inr e ↦ rw (spawn, e) h
  ]

  pub start_pipeline-IsSession :
      (opens : String → Bool) (ds : List RoomTapDescriptor) (s : Service)
      → IsSession id status times s.heap
      → IsSession id status times (start_pipeline opens ds id s).0.heap
  unfolding start_pipeline
  start_pipeline-IsSession opens ds s h =
      let t = begin_pipeline id s in
      let k = open_taps-IsSession opens ds t (begin_pipeline-IsSession s h) in
      let l = spawn-IsSession ds (open_taps opens id ds t).0 k in
      elim (Bool-cases (open_taps opens id ds t).1) [ inl e ↦ rw e l | inr e ↦ rw e k ]
