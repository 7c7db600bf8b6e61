-- ===== src/Session/State.antt =====
-- The state of `SfuManager` with its units `SfuPublish`, `SfuSubscribe` and `SfuSession`
-- (packages/client/src/sfu/), and what they call, in order. A track, a call of `produce` and a run of
-- `doProduceTrack` are numbers. The callbacks that are told of each new state are left out.
use zvonok.Prelude.{ℕ, String, Bool, false, Option, none, some, List, [], ◌++◌, Map}
use zvonok.Capabilities.{CapabilityId}
use zvonok.Json.{Json}
use zvonok.Client.Registry.{MediaKind, MediaSource, Registry}

pub data ConnectionState : Type 0 where
  disconnected connecting connected reconnecting failed : ConnectionState

pub record EgressStatus : Type 0 where
  pub session_id : String
  pub is_recorded : Bool
  pub is_hls : Bool
  pub status : String

pub record BroadcastMessage : Type 0 where
  pub sender_id : String
  pub topic : String
  pub payload : Json
  pub timestamp : String

pub record SfuState : Type 0 where
  pub connection_state : ConnectionState
  pub capabilities : List CapabilityId
  pub egress : Option EgressStatus
  pub last_broadcast : Option BroadcastMessage
  pub audio_producer_id : Option String
  pub video_producer_id : Option String
  pub screen_producer_id : Option String
  pub is_screen_share_blocked : Bool

abbrev pub fresh_state : SfuState
fresh_state = record {
  connection_state = disconnected;
  capabilities = [];
  egress = none;
  last_broadcast = none;
  audio_producer_id = none;
  video_producer_id = none;
  screen_producer_id = none;
  is_screen_share_blocked = false;
}

pub record Track : Type 0 where
  pub id : ℕ
  pub kind : MediaKind

-- What is asked of `produceWithSource`.
pub record Intent : Type 0 where
  pub track : Track
  pub source : Option MediaSource
  pub is_mobile : Bool

-- A producer of the media library with its track and the source in its `appData`.
pub record LocalProducer : Type 0 where
  pub kind : MediaKind
  pub source : Option MediaSource
  pub track : Option Track

-- A run of `doProduceTrack` that waits for the media library, and the calls that share its promise.
pub record Flight : Type 0 where
  pub key : String
  pub intent : Intent
  pub replies : List (Option ℕ)

pub record RemoteConsumer : Type 0 where
  pub kind : MediaKind
  pub producer_id : String

pub record NewProducer : Type 0 where
  pub producer_id : String
  pub user_id : String
  pub username : String
  pub kind : MediaKind
  pub paused : Bool
  pub source : Option MediaSource

pub record JoinPayload : Type 0 where
  pub room_id : Option String
  pub room_slug : Option String
  pub token : Option String

pub data JoinErrorCode : Type 0 where
  kicked_from_room room_token_expired : JoinErrorCode
  other : String → JoinErrorCode

pub data ProduceResult : Type 0 where
  produced : String → ProduceResult
  refused : String → ProduceResult
  nothing closed : ProduceResult

pub record Encoding : Type 0 where
  pub rid : String
  pub max_bitrate : ℕ
  pub scale_resolution_down_by : Option ℕ
  pub max_framerate : Option ℕ

-- `codecOptions`: for video the bitrate to start with, for audio whether the mobile settings are added.
pub data CodecOptions : Type 0 where
  start_bitrate : ℕ → CodecOptions
  opus : Bool → CodecOptions

pub data Act : Type 0 where
  emit : String → String → Act
  emit_join : JoinPayload → Act
  emit_produce : String → String → MediaKind → Option MediaSource → Act
  transport_produce :
      ℕ → String → Track → Option (List Encoding) → CodecOptions → Option MediaSource → Act
  transport_consume : String → String → String → Act
  close_transport close_producer close_consumer pause_producer resume_producer : String → Act
  settle : ℕ → ProduceResult → Act
  answer_request : String → ProduceResult → Act
  tell : String → String → Act
  tell_track : String → String → Option MediaSource → Act
  load_device : Json → Act
  connect_socket disconnect_socket ask_token : Act

pub record Manager : Type 0 where
  pub socket : Option Bool
  pub has_device : Bool
  pub send_transport : Option String
  pub recv_transport : Option String
  pub local_user_id : Option String
  pub registry : Registry
  pub state : SfuState
  pub producers : Map LocalProducer
  pub in_progress : Map ℕ
  pub flights : List (ℕ × Flight)
  pub next_flight : ℕ
  pub pending_requests : Map MediaSource
  pub pending_local : List (Intent × Option ℕ)
  pub retained : List Intent
  pub consumers : Map RemoteConsumer
  pub pending_new : List NewProducer
  pub last_join_payload : Option JoinPayload
  pub session_established : Bool
  pub join_options : Option Bool
  pub token_refresh_attempted : Bool
  pub rejoin_times : List ℕ
  pub acts : List Act

abbrev pub fresh : Manager
fresh = record {
  socket = none;
  has_device = false;
  send_transport = none;
  recv_transport = none;
  local_user_id = none;
  registry = [];
  state = fresh_state;
  producers = [];
  in_progress = [];
  flights = [];
  next_flight = 0;
  pending_requests = [];
  pending_local = [];
  retained = [];
  consumers = [];
  pending_new = [];
  last_join_payload = none;
  session_established = false;
  join_options = none;
  token_refresh_attempted = false;
  rejoin_times = [];
  acts = [];
}

abbrev pub act : List Act → Manager → Manager
act xs s = record s { acts = s.acts ++ xs }

-- `getSocket()?.emit(...)`.
unfoldable pub send : List Act → Manager → Manager
send es s = elim s.socket [ none ↦ s | some c ↦ act es s ]

unfoldable pub is_connected : Manager → Bool
is_connected s = elim s.socket [ none ↦ false | some c ↦ c ]

-- The `joinOptions` hold whether there is a `tokenProvider`.
unfoldable pub has_provider : Manager → Bool
has_provider s = elim s.join_options [ none ↦ false | some p ↦ p ]
