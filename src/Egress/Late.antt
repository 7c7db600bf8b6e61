-- ===== src/Egress/Late.antt =====
-- What a start that waits for a tap does to a session that was ended meanwhile, and the port of a tap that
-- does not open.
use zvonok.Prelude.{
  ℕ, String, ◌≡◌, inl, inr, ◌∙◌, refl, sym, ap, Bool, true, false, Option, some, List, arith,
  Option-cases, get, subst,
}
use zvonok.Media.Consumers.{RoomTapDescriptor}
use zvonok.Egress.State.{stopping, Service, Egress, EgressEndReason, is_active_status, row_ended}
use zvonok.Egress.Pipeline.{fail_session, finalize, start_pipeline}
use zvonok.Egress.Service.{stop, find_owned_egress_row}
use zvonok.Egress.Frames.{start_pipeline-IsSession}
use zvonok.Egress.Failing.{HasFailed, Runs, start_pipeline-rows, fail_session-HasFailed}
use zvonok.Egress.Stops.{HasProcess, start_pipeline-HasProcess}
use zvonok.Egress.Endings.{HasEnded, finalize-HasEnded}

stop_ended :
    (recorded : Option ℕ) (project id : String) (row : Egress) (s : Service)
    → get id s.rows ≡ some row
    → row.status ≡ row_ended
    → (stop recorded project id s).0 ≡ s
unfolding stop find_owned_egress_row is_active_status
stop_ended recorded project id row s e ended =
    elim (Option-cases (find_owned_egress_row project id s)) [
      | inl f ↦ rw (stop, f) refl
      | inr (row', f) ↦
          let same : row' ≡ row = ground (arith, e, f) in
          let over : is_active_status row'.status ≡ false =
            ap (λ (z : Egress). is_active_status z.status) same ∙ ap is_active_status ended in
          rw (stop, f, over) refl
    ]

-- A session is ended while its start still makes its directories, and the start goes on. If the pipeline
-- does not start, the row, which was ended, becomes failed. If it does, a process runs for a session that
-- is out of the map, its row stays ended, and no call to stop the session changes anything.
pub late_start_revives :
    (opens : String → Bool) (ds : List RoomTapDescriptor) (recorded : Option ℕ) (id : String)
    (reason : EgressEndReason) (times : List ℕ) (s t : Service)
    → Runs id times s
    → t ≡ finalize recorded id reason s
    → HasEnded id reason t
      × (((start_pipeline opens ds id t).1 ≡ false)
          → HasFailed id
              (fail_session id "pipeline failed to start" (start_pipeline opens ds id t).0))
      × (((start_pipeline opens ds id t).1 ≡ true)
          → HasProcess id t.next_process (start_pipeline opens ds id t).0
            × ((project : String)
                → (stop recorded project id (start_pipeline opens ds id t).0).0
                  ≡ (start_pipeline opens ds id t).0))
late_start_revives opens ds recorded id reason times s t r same =
    let e : HasEnded id reason t =
      subst (HasEnded id reason) (sym same) (finalize-HasEnded recorded id reason times s r) in
    let (times', h) = e.0 in
    let (row, there, ended, why) = e.1 in
    let u = (start_pipeline opens ds id t).0 in
    let k = start_pipeline-IsSession id stopping times' opens ds t h in
    let kept : get id u.rows ≡ some row = ap (get id) (start_pipeline-rows opens ds id t) ∙ there in
    (
      e,
      λ f. fail_session-HasFailed id "pipeline failed to start" stopping times' row u k kept,
      λ f. (
        start_pipeline-HasProcess opens ds id stopping times' t h f,
        λ project. stop_ended recorded project id row u kept ended,
      ),
    )
