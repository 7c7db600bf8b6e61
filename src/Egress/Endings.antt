-- ===== src/Egress/Endings.antt =====
-- The end of a session: what stays as it is afterwards, and what a start that is still going on may do.
use zvonok.Prelude.{
  ℕ, String, ◌≡◌, inl, inr, refl, Bool, true, false, ◌||◌, not, Option, some, List, arith,
  Bool-cases, Option-cases, get, get-modify, has, has-discard,
}
use zvonok.Media.Consumers.{RoomTapDescriptor}
use zvonok.Egress.State.{
  ActiveSession, stopping, Service, Egress, EgressEndReason, row_ended, change,
}
use zvonok.Egress.Pipeline.{
  close_runtime, halted, halt, end_row, finalize, mark_live, on_process_exit,
  schedule_membership_restart, is_starting,
}
use zvonok.Egress.Frames.{IsSession, modify-IsSession, close_runtime-IsSession}
use zvonok.Egress.Failing.{Runs, close_runtime-rows}
use zvonok.Egress.Restarts.{is_stopping_lem, stopped_lem}

-- The session is stopped, is out of the map, and its row is ended for the reason.
abbrev pub HasEnded : String → EgressEndReason → Service → Type 0
HasEnded id reason s =
    ((times : List ℕ) × IsSession id stopping times s.heap)
    × ((row : Egress) × (get id s.rows ≡ some row)
        × (row.status ≡ row_ended)
        × (row.ended_reason ≡ some reason))
    × (has id s.sessions ≡ false)

close_runtime-sessions : (id : String) (s : Service) → (close_runtime id s).sessions ≡ s.sessions
unfolding close_runtime
close_runtime-sessions id s = elim (Option-cases (get id s.heap)) [
  | inl e ↦ rw (close_runtime, e) refl
  | inr (x, e) ↦ rw (close_runtime, e) refl
]

pub finalize-HasEnded :
    (recorded : Option ℕ) (id : String) (reason : EgressEndReason) (times : List ℕ) (s : Service)
    → Runs id times s
    → HasEnded id reason (finalize recorded id reason s)
unfolding finalize halt halted end_row
finalize-HasEnded recorded id reason times s ((status, n, h), (row, e)) =
    let t = change id halted s in
    let k = modify-IsSession id halted status stopping times times s.heap (λ x p q. (refl, q)) h in
    rw (finalize, h.found, is_stopping_lem h.session status h.with_status n)
      (
        (times, close_runtime-IsSession id stopping times t k),
        (
          end_row reason row,
          ground (
            arith,
            close_runtime-rows id t,
            get-modify id id (end_row reason) (close_runtime id t).rows row,
            e,
          ),
          refl,
          refl,
        ),
        ground (arith, has-discard id id (close_runtime id t).sessions),
      )

not_live :
    (x : ActiveSession)
    → x.status ≡ stopping
    → (x.live_emitted || not (is_starting x.status)) ≡ true
not_live x e = elim (Bool-cases x.live_emitted) [ inl f ↦ rw (e, f) refl | inr f ↦ rw (e, f) refl ]

-- Once a running session has been ended, by a call or with its room, its row says so with the reason, it
-- is out of the map, and nothing that is still to come of it changes anything: a second end, the exit of
-- its process, a sign of life of its process, a change of the members.
pub end_is_final :
    (recorded recorded' : Option ℕ) (id : String) (reason reason' : EgressEndReason)
    (times : List ℕ) (s : Service) (opens : String → Bool) (ds : List RoomTapDescriptor) (now : ℕ)
    → Runs id times s
    → HasEnded id reason (finalize recorded id reason s)
      × (finalize recorded' id reason' (finalize recorded id reason s)
          ≡ finalize recorded id reason s)
      × (on_process_exit opens ds now id (finalize recorded id reason s)
          ≡ finalize recorded id reason s)
      × (mark_live id (finalize recorded id reason s) ≡ finalize recorded id reason s)
      × (schedule_membership_restart id (finalize recorded id reason s)
          ≡ finalize recorded id reason s)
end_is_final recorded recorded' id reason reason' times s opens ds now r =
    let t = finalize recorded id reason s in
    let e = finalize-HasEnded recorded id reason times s r in
    let h = e.0.1 in
    let stops = stopped_lem h.session h.with_status in
    (
      e,
      unfold finalize in rw (finalize, h.found, stops) refl,
      unfold on_process_exit in rw (on_process_exit, h.found, stops) refl,
      unfold mark_live in rw (mark_live, h.found, not_live h.session h.with_status) refl,
      unfold schedule_membership_restart in rw (schedule_membership_restart, h.found, stops) refl,
    )
