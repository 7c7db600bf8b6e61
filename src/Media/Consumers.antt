-- ===== src/Media/Consumers.antt =====
-- Transports, consumers and taps of apps/server/src/sfu/sfu.service.ts. What the media library answers
-- is an argument: the id of a transport or a consumer, or a failure. What it tells of the connection and
-- of the encoding (ICE, DTLS and RTP parameters) is left out of the messages.
use zvonok.Prelude.{
  ℕ, String, Bool, true, false, Option, none, some, List, [], ◌∷◌, ◌++◌, ite, if◌then◌else◌,
  str_dec, Map, get, put, modify,
}
use zvonok.Json.{Json, text, object, end, field}
use zvonok.Presence.State.{PresenceRecord}
use zvonok.Presence.Rooms.{list_peer_sockets}
use zvonok.Presence.Lookup.{context_of}
use zvonok.Media.Pool.{Router}
use zvonok.Media.State.{
  Sfu, MediaPeer, Producer, Consumer, Kind, Source, kind_json, connect_transport as connects,
  resume_consumer as resumes, set_layers, tell, call,
}
use zvonok.Media.Producers.{new_producer_json}

-- The router of the socket's room.
unfoldable pub router_of : Sfu → String → Option Router
router_of s sid = elim (context_of s.presence sid) [
  | none ↦ none
  | some r ↦ get r.room_id s.pool.routers
]

transport_json : String → String → Json
transport_json direction id =
    object (field "direction" (text direction) (field "transportId" (text id) end))

unfoldable pub emit_transport_created : String → String → String → Sfu → Sfu
unfolding transport_json
emit_transport_created sid direction id =
    tell sid "sfu:transport-created" (transport_json direction id)

unfoldable pub set_send : String → MediaPeer → MediaPeer
set_send id peer = record peer { send_transport = some id }

unfoldable pub set_recv : String → MediaPeer → MediaPeer
set_recv id peer = record peer { recv_transport = some id }

unfoldable pub create_send_transport : Sfu → String → Option String → Sfu
create_send_transport s sid answer = elim (get sid s.media) [
  | none ↦ s
  | some peer ↦ elim (router_of s sid) [
    | none ↦ s
    | some router ↦ elim answer [
      | none ↦ s
      | some id ↦
          emit_transport_created sid "send" id
            (record s { media = modify sid (set_send id) s.media })
    ]
  ]
]

unfoldable pub tell_producers : String → PresenceRecord → Map Producer → Sfu → Sfu
tell_producers sid r [] s = s
tell_producers sid r ((k, p) ∷ ps) s =
    tell_producers sid r ps (tell sid "sfu:new-producer" (new_producer_json p r) s)

-- The producers of one member, as its context and its media are known.
unfoldable pub tell_member : String → Option MediaPeer → Option PresenceRecord → Sfu → Sfu
tell_member sid (some peer) (some r) s = tell_producers sid r peer.producers s
tell_member sid _ _ s = s

unfoldable pub announce_existing : String → List String → Sfu → Sfu
announce_existing sid [] s = s
announce_existing sid (x ∷ xs) s =
    announce_existing sid xs
      (ite (str_dec x sid) s (tell_member sid (get x s.media) (context_of s.presence x) s))

unfoldable pub create_recv_transport : Sfu → String → Option String → Sfu
create_recv_transport s sid answer = elim (get sid s.media) [
  | none ↦ s
  | some peer ↦ elim (context_of s.presence sid) [
    | none ↦ s
    | some r ↦ elim (get r.room_id s.pool.routers) [
      | none ↦ s
      | some router ↦ elim answer [
        | none ↦ s
        | some id ↦ announce_existing sid (list_peer_sockets s.presence r.room_id) (
            emit_transport_created sid "recv" id
              (record s { media = modify sid (set_recv id) s.media }))
      ]
    ]
  ]
]

same_id : Option String → String → Bool
same_id none id = false
same_id (some x) id = ite (str_dec x id) true false

unfoldable pub get_transport : MediaPeer → String → Option String
unfolding same_id
get_transport peer id =
    if same_id peer.send_transport id
    then some id
    else if same_id peer.recv_transport id
    then some id
    else none

unfoldable pub connect_transport : Sfu → String → String → Sfu
connect_transport s sid id = elim (get sid s.media) [
  | none ↦ s
  | some peer ↦ elim (get_transport peer id) [
    | none ↦ s
    | some found ↦
        tell sid "sfu:transport-connected" (object (field "transportId" (text id) end))
          (call (connects found ∷ []) s)
  ]
]

-- The producer with the id, among all sockets.
unfoldable pub find_producer : String → Map MediaPeer → Option Producer
find_producer id [] = none
find_producer id ((k, peer) ∷ peers) = elim (get id peer.producers) [
  | none ↦ find_producer id peers
  | some p ↦ some p
]

unfoldable pub add_consumer : String → String → MediaPeer → MediaPeer
add_consumer id producer_id peer = record peer {
  consumers = put id (record { id = id; producer_id = producer_id }) peer.consumers;
}

unfoldable pub consumer_json : String → String → Producer → Json
consumer_json id producer_id p = object (
    field "consumerId" (text id)
      (field "producerId" (text producer_id) (field "kind" (kind_json p.kind) end)))

unfoldable pub create_consumer : Sfu → String → String → Option String → Sfu
create_consumer s sid producer_id answer = elim (get sid s.media) [
  | none ↦ s
  | some peer ↦ elim peer.recv_transport [
    | none ↦ s
    | some transport ↦ elim (router_of s sid) [
      | none ↦ s
      | some router ↦ elim (find_producer producer_id s.media) [
        | none ↦ s
        | some p ↦ elim answer [
          | none ↦ s
          | some id ↦
              tell sid "sfu:consumer-created" (consumer_json id producer_id p)
                (record s { media = modify sid (add_consumer id producer_id) s.media })
        ]
      ]
    ]
  ]
]

unfoldable pub get_consumer : Sfu → String → String → Option Consumer
get_consumer s sid id = elim (get sid s.media) [ none ↦ none | some peer ↦ get id peer.consumers ]

unfoldable pub resume_consumer : Sfu → String → String → Sfu
resume_consumer s sid id = elim (get_consumer s sid id) [
  | none ↦ s
  | some c ↦
      tell sid "sfu:consumer-resumed" (object (field "consumerId" (text id) end))
        (call (resumes c.id ∷ []) s)
]

unfoldable pub set_preferred_layers : Sfu → String → String → ℕ → Sfu × Bool
set_preferred_layers s sid id layer = elim (get_consumer s sid id) [
  | none ↦ (s, false)
  | some c ↦ (call (set_layers c.id layer ∷ []) s, true)
]

pub record RoomTapDescriptor : Type 0 where
  pub producer_id : String
  pub kind : Kind
  pub source : Source

unfoldable pub descriptors : Map Producer → List RoomTapDescriptor
descriptors [] = []
descriptors ((k, p) ∷ ps) =
    record { producer_id = p.id; kind = p.kind; source = p.source } ∷ descriptors ps

taps_of : Option MediaPeer → List RoomTapDescriptor
unfolding descriptors
taps_of none = []
taps_of (some peer) = descriptors peer.producers

unfoldable pub taps_from : Map MediaPeer → List String → List RoomTapDescriptor
unfolding taps_of
taps_from media [] = []
taps_from media (x ∷ xs) = taps_of (get x media) ++ taps_from media xs

unfoldable pub list_taps : Sfu → String → List RoomTapDescriptor
list_taps s room = taps_from s.media (list_peer_sockets s.presence room)
