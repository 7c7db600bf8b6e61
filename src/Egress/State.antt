-- ===== src/Egress/State.antt =====
-- The state of `EgressService` (apps/server/src/egress/egress.service.ts): the sessions that were ever
-- made, as a handler keeps the one that it was made for, the ids of those in the service's map, the
-- ports in use, the rows of the database, and what was done outside, in order. A process is a number.
use zvonok.Prelude.{ℕ, String, Bool, true, false, Option, List, ◌++◌, Map, modify}
use zvonok.Media.Consumers.{RoomTapDescriptor}

pub record EgressOutputs : Type 0 where
  pub rtmp_endpoints : List String
  pub hls : Bool
  pub recording : Bool

pub data SessionStatus : Type 0 where
  starting live stopping : SessionStatus

pub record EgressTap : Type 0 where
  pub descriptor : RoomTapDescriptor
  pub port : ℕ

pub record ActiveSession : Type 0 where
  pub id : String
  pub room_id : String
  pub room_slug : Option String
  pub outputs : EgressOutputs
  pub recording_part : ℕ
  pub status : SessionStatus
  pub live_emitted : Bool
  pub taps : List EgressTap
  pub process : Option ℕ
  pub restart_times : List ℕ
  pub is_subscribed : Bool
  pub start_timer : Bool
  pub restart_timer : Bool

pub data EgressStatus : Type 0 where
  row_starting row_live row_stopping row_ended row_failed : EgressStatus

pub data EgressEndReason : Type 0 where
  stopped room_ended : EgressEndReason

pub record Egress : Type 0 where
  pub id : String
  pub room_id : String
  pub project_id : String
  pub status : EgressStatus
  pub outputs : EgressOutputs
  pub ended_reason : Option EgressEndReason
  pub error : Option String

pub data Effect : Type 0 where
  spawned stopped_process : ℕ → Effect
  closed_tap : EgressTap → Effect
  notified : String → EgressStatus → Effect
  egress_started : String → Effect
  egress_stopped : String → EgressEndReason → Effect
  egress_failed : String → String → Effect
  recording_ready : String → ℕ → Effect

pub record Service : Type 0 where
  pub heap : Map ActiveSession
  pub sessions : List String
  pub ports_in_use : List ℕ
  pub rows : Map Egress
  pub next_process : ℕ
  pub effects : List Effect

abbrev pub did : List Effect → Service → Service
did es s = record s { effects = s.effects ++ es }

-- A change of the session itself.
abbrev pub change : String → (ActiveSession → ActiveSession) → Service → Service
change id f s = record s { heap = modify id f s.heap }

-- `prisma.egress.update`.
abbrev pub update_row : String → (Egress → Egress) → Service → Service
update_row id f s = record s { rows = modify id f s.rows }

unfoldable pub is_active_status : EgressStatus → Bool
is_active_status row_ended = false
is_active_status row_failed = false
is_active_status _ = true

unfoldable pub is_stopping : ActiveSession → Bool
is_stopping x = elim x.status [ starting ↦ false | live ↦ false | stopping ↦ true ]
