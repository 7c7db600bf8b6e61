-- ===== src/Media/State.antt =====
-- The state of `SfuService`: the presence service that it stands on, the media of the joined sockets,
-- who shares a screen, the routers, and the calls to the media library in order. A producer, consumer
-- or transport is known by its id.
use zvonok.Prelude.{ℕ, String, Bool, true, false, Option, none, some, List, [], ◌∷◌, ◌++◌, Map}
use zvonok.Json.{Json, text, object, end, field}
use zvonok.Presence.State.{State, emit, message, send}
use zvonok.Presence.Rooms.{broadcast_to_room, emit_to_peer}
use zvonok.Media.Pool.{Pool}

pub data Kind : Type 0 where
  audio video : Kind

-- What the client names as the source of a producer; the code does not check the text.
pub data Source : Type 0 where
  camera screen : Source
  other : String → Source

pub record Producer : Type 0 where
  pub id : String
  pub kind : Kind
  pub source : Source
  pub paused : Bool

pub record Consumer : Type 0 where
  pub id : String
  pub producer_id : String

pub record MediaPeer : Type 0 where
  pub send_transport : Option String
  pub recv_transport : Option String
  pub producers : Map Producer
  pub consumers : Map Consumer

pub data Call : Type 0 where
  close_transport close_producer close_consumer : String → Call
  pause_producer resume_producer resume_consumer : String → Call
  connect_transport : String → Call
  set_layers : String → ℕ → Call
  run_tap : ℕ → String → Call

pub record Sfu : Type 0 where
  pub presence : State
  pub media : Map MediaPeer
  pub room_screen_share : Map String
  pub tap_handlers : Map (List ℕ)
  pub router_rooms : List String
  pub pool : Pool
  pub calls : List Call

abbrev pub new_peer : MediaPeer
new_peer = record { send_transport = none; recv_transport = none; producers = []; consumers = [] }

unfoldable pub is_screen : Source → Bool
is_screen screen = true
is_screen _ = false

kind_text : Kind → String
kind_text audio = "audio"
kind_text video = "video"

source_text : Source → String
source_text camera = "camera"
source_text screen = "screen"
source_text (other s) = s

abbrev pub kind_json : Kind → Json
unfolding kind_text
kind_json k = text (kind_text k)

abbrev pub source_json : Source → Json
unfolding source_text
source_json s = text (source_text s)

-- `socket.emit`.
abbrev pub tell : String → String → Json → Sfu → Sfu
tell sid name value s = record s { presence = send (emit sid (message name value) ∷ []) s.presence }

-- `presence.emitToPeer`.
abbrev pub tell_peer : String → String → Json → Sfu → Sfu
tell_peer sid name value s = record s {
  presence = emit_to_peer s.presence sid (message name value);
}

-- `presence.broadcastToRoom`.
abbrev pub fan : String → String → Json → Option String → Sfu → Sfu
fan room name value except s = record s {
  presence = broadcast_to_room s.presence room (message name value) except;
}

abbrev pub call : List Call → Sfu → Sfu
call cs s = record s { calls = s.calls ++ cs }

close_option : Option String → List Call
close_option none = []
close_option (some id) = close_transport id ∷ []

unfoldable pub close_transports : MediaPeer → List Call
unfolding close_option
close_transports peer = close_option peer.send_transport ++ close_option peer.recv_transport

abbrev pub user_json : String → Json
user_json id = object (field "userId" (text id) end)
