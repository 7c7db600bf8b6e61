-- ===== src/Egress/Pipeline.antt =====
-- The pipeline of a session: `startPipeline`, `closeRuntime`, `markLive`, `onProcessExit`,
-- `onPipelineFailure`, `scheduleMembershipRestart`, `finalize` and `failSession` of
-- apps/server/src/egress/egress.service.ts. The media source answers with the producers of the room, and
-- with whether the tap of a producer opens; the clock is an argument. The session is passed by its id.
use zvonok.Prelude.{
  ℕ, suc, ◌-◌, String, Bool, true, false, ◌||◌, not, Option, none, some, List, [], ◌∷◌, ◌++◌, map,
  ltb, if◌then◌else◌, length, get, discard,
}
use zvonok.Media.Consumers.{RoomTapDescriptor}
use zvonok.Egress.Inputs.{is_composable}
use zvonok.Egress.Ports.{allocate_port, free}
use zvonok.Egress.State.{
  EgressTap, ActiveSession, SessionStatus, starting, stopping, row_live, row_ended, row_failed,
  EgressEndReason, Egress, Effect, spawned, stopped_process, closed_tap, notified, egress_started,
  egress_stopped, egress_failed, recording_ready, Service, did, change, update_row, is_stopping,
}

abbrev pub egress_retry_window_ms : ℕ
egress_retry_window_ms = 300000

abbrev pub egress_max_restarts : ℕ
egress_max_restarts = 3

stop_effects : Option ℕ → List Effect
stop_effects none = []
stop_effects (some p) = stopped_process p ∷ []

abbrev pub free_taps : List EgressTap → List ℕ → List ℕ
free_taps [] used = used
free_taps (t ∷ ts) used = free_taps ts (free t.port used)

unfoldable pub without_runtime : ActiveSession → ActiveSession
without_runtime x = record x { process = none; taps = [] }

unfoldable pub close_runtime : String → Service → Service
unfolding stop_effects
close_runtime id s = elim (get id s.heap) [
  | none ↦ s
  | some x ↦ change id without_runtime (
      did (stop_effects x.process ++ map closed_tap x.taps)
        (record s { ports_in_use = free_taps x.taps s.ports_in_use }))
]

unfoldable pub set_start_timer : Bool → ActiveSession → ActiveSession
set_start_timer b x = record x { start_timer = b }

unfoldable pub add_tap : EgressTap → ActiveSession → ActiveSession
add_tap t x = record x { taps = x.taps ++ t ∷ [] }

unfoldable pub run_process : ℕ → ActiveSession → ActiveSession
run_process p x = record x { process = some p; start_timer = true }

-- The part of `startPipeline` before it waits for the first tap.
unfoldable pub begin_pipeline : String → Service → Service
begin_pipeline id s = change id (set_start_timer false) (close_runtime id s)

-- A tap on a port of its own; where it does not open the port stays taken.
unfoldable pub open_tap : (String → Bool) → String → RoomTapDescriptor → Service → Service × Bool
open_tap opens id d s = elim (allocate_port s.ports_in_use) [
  | none ↦ (s, false)
  | some (port, used) ↦
      let t = record s { ports_in_use = used } in
      if opens d.producer_id
      then (change id (add_tap (record { descriptor = d; port = port })) t, true)
      else (t, false)
]

unfoldable pub open_taps :
    (String → Bool) → String → List RoomTapDescriptor → Service → Service × Bool
open_taps opens id [] s = (s, true)
open_taps opens id (d ∷ ds) s =
    let r = open_tap opens id d s in
    let rest = open_taps opens id ds r.0 in if r.1 then rest else (r.0, false)

-- The process is spawned, where its arguments can be composed.
unfoldable pub spawn : String → List RoomTapDescriptor → Service → Service × Bool
spawn id ds s =
    if is_composable ds
    then (
      change id (run_process s.next_process)
          (did (spawned s.next_process ∷ []) (record s { next_process = suc s.next_process })),
      true,
    )
    else (s, false)

-- `false` where it throws.
unfoldable pub start_pipeline :
    (String → Bool) → List RoomTapDescriptor → String → Service → Service × Bool
start_pipeline opens ds id s =
    let r = open_taps opens id ds (begin_pipeline id s) in
    if r.1 then spawn id ds r.0 else (r.0, false)

unfoldable pub halted : ActiveSession → ActiveSession
halted x = record x {
  status = stopping;
  restart_timer = false;
  start_timer = false;
  is_subscribed = false;
}

-- What `finalize` and `failSession` have in common.
unfoldable pub halt : String → Service → Service
halt id s =
    let t = close_runtime id (change id halted s) in record t { sessions = discard id t.sessions }

unfoldable pub end_row : EgressEndReason → Egress → Egress
end_row reason row = record row { status = row_ended; ended_reason = some reason }

unfoldable pub fail_row : String → Egress → Egress
fail_row error row = record row { status = row_failed; error = some error }

-- The parts of a recording are put together to one file of the size that the answer names.
unfoldable pub finalize_recording : Bool → Option ℕ → String → List Effect
finalize_recording false answer id = []
finalize_recording true none id = []
finalize_recording true (some size) id = recording_ready id size ∷ []

unfoldable pub finalize : Option ℕ → String → EgressEndReason → Service → Service
finalize recorded id reason s = elim (get id s.heap) [
  | none ↦ s
  | some x ↦ elim (is_stopping x) [
    | true ↦ s
    | false ↦
        did
          (egress_stopped id reason ∷ finalize_recording x.outputs.recording recorded id
            ++ notified id row_ended ∷ [])
          (update_row id (end_row reason) (halt id s))
  ]
]

-- Without a test of the session's status.
unfoldable pub fail_session : String → String → Service → Service
fail_session id error s =
    did (egress_failed id error ∷ notified id row_failed ∷ [])
      (update_row id (fail_row error) (halt id s))

unfoldable pub set_live : ActiveSession → ActiveSession
set_live x = record x { live_emitted = true; start_timer = false }

unfoldable pub live_row : Egress → Egress
live_row row = record row { status = row_live }

abbrev pub is_starting : SessionStatus → Bool
is_starting starting = true
is_starting _ = false

unfoldable pub mark_live : String → Service → Service
mark_live id s = elim (get id s.heap) [
  | none ↦ s
  | some x ↦
      if x.live_emitted || not (is_starting x.status)
      then s
      else did (egress_started id ∷ notified id row_live ∷ [])
          (update_row id live_row (change id set_live s))
]

-- The failures that are not older than the window.
unfoldable pub recent : ℕ → List ℕ → List ℕ
recent now [] = []
recent now (t ∷ ts) =
    let rest = recent now ts in if ltb (now - t) egress_retry_window_ms then t ∷ rest else rest

unfoldable pub count_failure : ℕ → ActiveSession → ActiveSession
count_failure now x = record x { restart_times = recent now x.restart_times ++ now ∷ [] }

unfoldable pub next_part : ActiveSession → ActiveSession
next_part x = record x {
  recording_part = if x.outputs.recording then suc x.recording_part else x.recording_part;
}

abbrev pub times_of : Option ActiveSession → List ℕ
times_of none = []
times_of (some x) = x.restart_times

-- A restart, which fails the session where the pipeline cannot be started.
unfoldable pub retry : (String → Bool) → List RoomTapDescriptor → String → Service → Service
retry opens ds id s =
    let r = start_pipeline opens ds id (change id next_part s) in
    if r.1 then r.0 else fail_session id "restart failed" r.0

unfoldable pub on_pipeline_failure :
    (String → Bool) → List RoomTapDescriptor → ℕ → String → String → Service → Service
on_pipeline_failure opens ds now id reason s =
    let t = change id (count_failure now) s in
    if ltb egress_max_restarts (length (times_of (get id t.heap)))
    then fail_session id reason t
    else retry opens ds id t

-- The exit of a process that was the session's, at any time.
unfoldable pub on_process_exit :
    (String → Bool) → List RoomTapDescriptor → ℕ → String → Service → Service
on_process_exit opens ds now id s = elim (get id s.heap) [
  | none ↦ s
  | some x ↦ elim (is_stopping x) [
    | true ↦ s
    | false ↦ on_pipeline_failure opens ds now id "pipeline exited unexpectedly" s
  ]
]

unfoldable pub set_restart_timer : Bool → ActiveSession → ActiveSession
set_restart_timer b x = record x { restart_timer = b }

unfoldable pub schedule_membership_restart : String → Service → Service
schedule_membership_restart id s = elim (get id s.heap) [
  | none ↦ s
  | some x ↦ elim (is_stopping x) [ true ↦ s | false ↦ change id (set_restart_timer true) s ]
]

-- The restart timer runs out; a pipeline that does not start is only logged.
unfoldable pub membership_restart :
    (String → Bool) → List RoomTapDescriptor → String → Service → Service
membership_restart opens ds id s = elim (get id s.heap) [
  | none ↦ s
  | some x ↦
      let t = change id (set_restart_timer false) s in
      elim (is_stopping x) [
        | true ↦ t
        | false ↦ (start_pipeline opens ds id (change id next_part t)).0
      ]
]

-- The start timer runs out.
unfoldable pub start_timeout :
    (String → Bool) → List RoomTapDescriptor → ℕ → String → Service → Service
start_timeout opens ds now id s = elim (get id s.heap) [
  | none ↦ s
  | some x ↦
      if x.live_emitted
      then s
      else on_pipeline_failure opens ds now id "timed out before producing output" s
]
