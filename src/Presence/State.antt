-- ===== src/Presence/State.antt =====
-- The state of `RoomPresenceService` and what it sends out. Payloads that the service only hands
-- through are kept as JSON. A handler is known by a number, a socket by its id.
use zvonok.Prelude.{ℕ, String, Bool, false, Option, List, [], ◌++◌, Map}
use zvonok.Json.{Json}
use zvonok.Capabilities.{CapabilityId}

-- A participant as events, seats and webhooks name them.
pub record Participant : Type 0 where
  pub id : String
  pub display_name : String
  pub external_id : Option String
  pub metadata : Option Json

pub record PresenceRecord : Type 0 where
  pub socket_id : String
  pub room_id : String
  pub user_id : String
  pub username : String
  pub external_id : Option String
  pub metadata : Option Json
  pub capabilities : List CapabilityId
  pub owns_room : Bool

pub record HeldSeat : Type 0 where
  pub room_id : String
  pub socket_id : String
  pub participant : Participant
  pub timer : ℕ

pub data LeaveReason : Type 0 where
  leave kick room_end disconnect : LeaveReason

pub data JoinErrorCode : Type 0 where
  room_token_invalid room_token_expired room_token_room_mismatch room_locked : JoinErrorCode
  sfu_join_unauthorized sfu_join_forbidden kicked_from_room : JoinErrorCode

pub data Event : Type 0 where
  join_error : JoinErrorCode → String → Event
  peer_joined : Participant → Event
  existing_peers : List Participant → Event
  peer_left : String → Event
  kicked : String → Event
  room_locked : Bool → Event
  room_ended : String → Event
  message : String → Json → Event

pub data Webhook : Type 0 where
  room_started : String → Option String → Webhook
  participant_joined : String → Option String → Participant → Webhook
  participant_left : String → Option String → Participant → LeaveReason → Webhook
  room_ended : String → Option String → Webhook

-- What the service does to the world outside, in the order in which it does it.
pub data Effect : Type 0 where
  emit : String → Event → Effect
  fan_out : String → Option String → Event → Effect
  socket_join socket_leave : String → String → Effect
  socket_disconnect : String → Effect
  set_timer : ℕ → String → ℕ → Effect
  clear_timer : ℕ → Effect
  run_handler : ℕ → Effect
  webhook : Webhook → Effect

pub record State : Type 0 where
  pub records : Map PresenceRecord
  pub rooms : Map (List String)
  pub room_owners : Map String
  pub room_locks : Map Bool
  pub slug_to_room_id : Map String
  pub room_id_to_slugs : Map (List String)
  pub held_seats_by_room : Map (List String)
  pub held_seats : Map HeldSeat
  pub io : Bool
  pub kicked_users : Map (List String)
  pub room_closed_handlers : Map (List ℕ)
  pub peer_detach_handlers : Map (List ℕ)
  pub rejoin_grace_ms : ℕ
  pub next_timer : ℕ
  pub effects : List Effect

abbrev pub init : State
init = record {
  records = [];
  rooms = [];
  room_owners = [];
  room_locks = [];
  slug_to_room_id = [];
  room_id_to_slugs = [];
  held_seats_by_room = [];
  held_seats = [];
  io = false;
  kicked_users = [];
  room_closed_handlers = [];
  peer_detach_handlers = [];
  rejoin_grace_ms = 30000;
  next_timer = 0;
  effects = [];
}

abbrev pub send : List Effect → State → State
send es s = record s { effects = s.effects ++ es }

abbrev pub participant_of : PresenceRecord → Participant
participant_of r = record {
  id = r.user_id;
  display_name = r.username;
  external_id = r.external_id;
  metadata = r.metadata;
}
