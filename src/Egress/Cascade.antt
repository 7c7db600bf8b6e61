-- ===== src/Egress/Cascade.antt =====
-- A restart of the service's own making that it takes for failures.
use zvonok.Prelude.{
  ℕ, ◌<◌, String, ◌≡◌, ◌∙◌, refl, sym, ap, subst, Bool, true, false, List, [], ◌∷◌, arith, get,
  length,
}
use zvonok.Media.Consumers.{RoomTapDescriptor}
use zvonok.Egress.State.{Service, stopped_process, change}
use zvonok.Egress.Pipeline.{
  start_pipeline, next_part, set_restart_timer, membership_restart, on_process_exit,
}
use zvonok.Egress.Frames.{same-IsSession, start_pipeline-IsSession}
use zvonok.Egress.Failing.{HasFailed, Runs, start_pipeline-rows}
use zvonok.Egress.Restarts.{Within, exits, crash_loop_ends, is_stopping_lem}
use zvonok.Egress.Stops.{
  Done, HasProcess, start_pipeline-Done, start_pipeline-HasProcess, failure-Done, change-HasProcess,
}

-- When the members of a room change, the service stops the session's process itself and starts another.
-- The exit of the stopped one then counts as a failure, for which the new process is stopped in turn. With
-- no failure counted before, the session ends as failed when more than three such exits come within five
-- minutes.
pub membership_restart_cascades :
    (opens : String → Bool) (ds : List RoomTapDescriptor) (id : String) (p base now : ℕ)
    (ts : List ℕ) (s t : Service)
    → Runs id [] s
    → HasProcess id p s
    → t ≡ membership_restart opens ds id s
    → (start_pipeline opens ds id (change id next_part (change id (set_restart_timer false) s))).1
      ≡ true
    → Within base (now ∷ ts)
    → 2 < length ts
    → Done (stopped_process p) t.effects
      × HasProcess id s.next_process t
      × Done (stopped_process s.next_process) (on_process_exit opens ds now id t).effects
      × HasFailed id (exits opens ds id (now ∷ ts) t)
unfolding membership_restart set_restart_timer next_part
membership_restart_cascades opens ds id p base now ts s t ((status, n, h), (row, e)) has same
      started w many =
    let u = change id (set_restart_timer false) s in
    let v = change id next_part u in
    let hv =
      same-IsSession id status [] next_part u.heap (λ x. (refl, refl))
        (same-IsSession id status [] (set_restart_timer false) s.heap (λ x. (refl, refl)) h) in
    let pv =
      change-HasProcess next_part id p u (λ x. refl)
        (change-HasProcess (set_restart_timer false) id p s (λ x. refl) has) in
    let t' = (start_pipeline opens ds id v).0 in
    let restarted : t ≡ t' =
      same
      ∙ rw (membership_restart, h.found, is_stopping_lem h.session status h.with_status n) refl in
    let k = start_pipeline-IsSession id status [] opens ds v hv in
    let runs : Runs id [] t' =
      ((status, n, k), (row, ap (get id) (start_pipeline-rows opens ds id v) ∙ e)) in
    let fresh = start_pipeline-HasProcess opens ds id status [] v hv started in
    let stops : Done (stopped_process s.next_process) (on_process_exit opens ds now id t').effects =
      unfold on_process_exit in
      rw (on_process_exit, k.found, is_stopping_lem k.session status k.with_status n)
        (failure-Done opens ds now id "pipeline exited unexpectedly" s.next_process t' fresh) in
    subst
      (λ (z : Service).
        Done (stopped_process p) z.effects
        × HasProcess id s.next_process z
        × Done (stopped_process s.next_process) (on_process_exit opens ds now id z).effects
        × HasFailed id (exits opens ds id (now ∷ ts) z))
      (sym restarted)
      (
        start_pipeline-Done opens ds id p v pv,
        fresh,
        stops,
        crash_loop_ends opens ds id base (now ∷ ts) t' runs w (omega (arith, many)),
      )
