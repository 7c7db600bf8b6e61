-- ===== src/Egress/Service.antt =====
-- The calls of `EgressService` (apps/server/src/egress/egress.service.ts) and `findOwnedEgressRow` of
-- egress-ownership.ts. The row of the room and the id of a new row are the database's answers; whether the
-- endpoints are allowed is the outcome of `assertEndpointsAllowed`, which asks the name service.
use zvonok.Prelude.{
  ℕ, String, Bool, true, false, ◌&&◌, not, Option, none, some, List, [], ◌∷◌, ite, if◌then◌else◌,
  str_dec, Map, get, put, add, has, is_some,
}
use zvonok.Presence.Rooms.{nonempty}
use zvonok.Media.Consumers.{RoomTapDescriptor}
use zvonok.Egress.State.{
  EgressOutputs, ActiveSession, starting, row_starting, row_failed, EgressEndReason, stopped,
  room_ended, Egress, notified, Service, did, update_row, is_active_status,
}
use zvonok.Egress.Pipeline.{start_pipeline, finalize, fail_session, end_row}

pub data EgressError : Type 0 where
  output_required room_not_found room_not_active already_active endpoint_not_allowed : EgressError
  session_not_found session_not_active : EgressError

pub record EgressRoom : Type 0 where
  pub project_id : String
  pub slug : Option String
  pub in_session : Bool

-- The session of the room that a query for the active statuses finds.
unfoldable pub running : String → Map Egress → Option Egress
running room [] = none
running room ((k, row) ∷ rows) =
    let rest = running room rows in
    ite (str_dec row.room_id room) (if is_active_status row.status then some row else rest) rest

-- The guards of `start`.
unfoldable pub start_error :
    Bool → Option EgressRoom → String → String → EgressOutputs → Service → Option EgressError
start_error allowed room_row project room outputs s =
    if not (nonempty outputs.rtmp_endpoints) && (not outputs.hls && not outputs.recording)
    then some output_required
    else elim room_row [
      | none ↦ some room_not_found
      | some row ↦
          ite (str_dec row.project_id project)
            (if row.in_session
              then (if is_some (running room s.rows)
                  then some already_active
                  else if allowed
                  then none
                  else some endpoint_not_allowed)
              else some room_not_active)
            (some room_not_found)
    ]

abbrev pub new_row : String → String → String → EgressOutputs → Egress
new_row id project room outputs = record {
  id = id;
  room_id = room;
  project_id = project;
  status = row_starting;
  outputs = outputs;
  ended_reason = none;
  error = none;
}

abbrev pub new_session : String → String → Option String → EgressOutputs → ActiveSession
new_session id room slug outputs = record {
  id = id;
  room_id = room;
  room_slug = slug;
  outputs = outputs;
  recording_part = 0;
  status = starting;
  live_emitted = false;
  taps = [];
  process = none;
  restart_times = [];
  is_subscribed = true;
  start_timer = false;
  restart_timer = false;
}

-- `start` up to the pipeline.
unfoldable pub open_session :
    String → String → String → Option String → EgressOutputs → Service → Service
open_session id project room slug outputs s = did (notified id row_starting ∷ []) (record s {
  rows = put id (new_row id project room outputs) s.rows;
  heap = put id (new_session id room slug outputs) s.heap;
  sessions = add id s.sessions;
})

slug_of : Option EgressRoom → Option String
slug_of none = none
slug_of (some row) = row.slug

unfoldable pub start :
    Bool
    → Option EgressRoom
    → (String → Bool)
    → List RoomTapDescriptor
    → String
    → String
    → String
    → EgressOutputs
    → Service
    → Service × Option EgressError
unfolding slug_of
start allowed room_row opens ds id project room outputs s =
    elim (start_error allowed room_row project room outputs s) [
      | some e ↦ (s, some e)
      | none ↦
          let r =
            start_pipeline opens ds id
              (open_session id project room (slug_of room_row) outputs s) in
          (if r.1 then r.0 else fail_session id "pipeline failed to start" r.0, none)
    ]

-- A row of the project; another project's counts as missing.
unfoldable pub find_owned_egress_row : String → String → Service → Option Egress
find_owned_egress_row project id s = elim (get id s.rows) [
  | none ↦ none
  | some row ↦ ite (str_dec row.project_id project) (some row) none
]

unfoldable pub stop : Option ℕ → String → String → Service → Service × Option EgressError
stop recorded project id s = elim (find_owned_egress_row project id s) [
  | none ↦ (s, some session_not_found)
  | some row ↦
      if is_active_status row.status
      then (if has id s.sessions
          then (finalize recorded id stopped s, none)
          else (update_row id (end_row stopped) s, none))
      else (s, some session_not_active)
]

unfoldable pub restarted_row : Egress → Egress
restarted_row row =
    if is_active_status row.status
    then record row { status = row_failed; error = some "server-restarted" }
    else row

unfoldable pub reconcile : Map Egress → Map Egress
unfolding restarted_row
reconcile [] = []
reconcile ((k, row) ∷ rows) = (k, restarted_row row) ∷ reconcile rows

abbrev pub on_module_init : Service → Service
on_module_init s = record s { rows = reconcile s.rows }

unfoldable pub finalize_all : Option ℕ → List String → Service → Service
finalize_all recorded [] s = s
finalize_all recorded (id ∷ ids) s = finalize_all recorded ids (finalize recorded id stopped s)

abbrev pub on_module_destroy : Option ℕ → Service → Service
on_module_destroy recorded s = finalize_all recorded s.sessions s

-- What ended the session, as clients read it.
unfoldable pub end_reason_dto : Option EgressEndReason → Option String
end_reason_dto none = none
end_reason_dto (some stopped) = some "stopped"
end_reason_dto (some room_ended) = some "room-ended"
