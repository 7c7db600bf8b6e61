-- ===== src/Media/Producers.antt =====
-- Producing, with the lock on sharing a screen: `createProducer` of apps/server/src/sfu/sfu.service.ts,
-- which awaits the media library between the checks, `begin_produce`, and the rest, `finish_produce`.
use zvonok.Prelude.{
  String, Bool, true, false, ◌&&◌, Option, none, some, List, [], ◌∷◌, ite, if◌then◌else◌, str_dec,
  truthy, is_some, Map, get, put, modify, set_at, map,
}
use Prim.Native.String.{◌++◌ as append}
use zvonok.Json.{Json, text, boolean, object, end, field}
use zvonok.Capabilities.{CapabilityId, includes, send_audio, send_video, send_screenshare}
use zvonok.Presence.State.{PresenceRecord}
use zvonok.Presence.Rooms.{list_peer_sockets}
use zvonok.Presence.Lookup.{context_of}
use zvonok.Media.State.{
  Sfu, MediaPeer, Producer, Kind, audio, video, Source, is_screen, kind_json, source_json,
  user_json, run_tap, tell, tell_peer, fan, call,
}

pub record ProducePayload : Type 0 where
  pub request_id : String
  pub transport_id : String
  pub kind : Kind
  pub source : Option Source

pub data ProduceErrorCode : Type 0 where
  publish_not_allowed send_transport_not_ready transport_not_found : ProduceErrorCode
  screen_share_already_active produce_failed : ProduceErrorCode

code_text : ProduceErrorCode → String
code_text publish_not_allowed = "PUBLISH_NOT_ALLOWED"
code_text send_transport_not_ready = "SEND_TRANSPORT_NOT_READY"
code_text transport_not_found = "TRANSPORT_NOT_FOUND"
code_text screen_share_already_active = "SCREEN_SHARE_ALREADY_ACTIVE"
code_text produce_failed = "PRODUCE_FAILED"

unfoldable pub produce_error : String → String → ProduceErrorCode → String → Sfu → Sfu
unfolding code_text
produce_error sid request code message = tell sid "sfu:produce-error" (
    object (
      field "requestId" (text request)
        (field "code" (text (code_text code)) (field "message" (text message) end))))

unfoldable pub source_of : Option Source → Source
source_of none = Source.camera
source_of (some s) = s

unfoldable pub required : Source → Kind → CapabilityId
required Source.screen kind = send_screenshare
required _ audio = send_audio
required _ video = send_video

required_text : Source → Kind → String
required_text Source.screen kind = "Missing send-screenshare capability"
required_text _ audio = "Missing send-audio capability"
required_text _ video = "Missing send-video capability"

-- Someone else shares a screen in the room.
unfoldable pub is_shared_by_other : Map String → String → String → Bool
is_shared_by_other shares room sid = elim (truthy (get room shares)) [
  | none ↦ false
  | some sharer ↦ ite (str_dec sharer sid) false true
]

abbrev pub send_transport_of : Option MediaPeer → Option String
send_transport_of none = none
send_transport_of (some peer) = peer.send_transport

-- What is awaited of the media library: a producer for the request.
pub record Producing : Type 0 where
  pub sid : String
  pub context : PresenceRecord
  pub payload : ProducePayload
  pub source : Source

pub data Begun : Type 0 where
  refused : ProduceErrorCode → String → Begun
  begun : Producing → Begun

unfoldable pub produce_checks : Sfu → String → ProducePayload → Begun
unfolding required_text
produce_checks s sid p =
    let source = source_of p.source in
    elim (context_of s.presence sid) [
      | none ↦ refused send_transport_not_ready "No send transport or room found"
      | some r ↦
          if includes r.capabilities (required source p.kind)
          then (elim (send_transport_of (get sid s.media)) [
            | none ↦ refused send_transport_not_ready "No send transport or room found"
            | some transport ↦
                ite (str_dec transport p.transport_id)
                  (if is_screen source && is_shared_by_other s.room_screen_share r.room_id sid
                    then refused screen_share_already_active
                        "Another participant is already sharing"
                    else begun (record { sid = sid; context = r; payload = p; source = source }))
                  (refused transport_not_found
                    (append "Transport " (append p.transport_id " not found")))
          ])
          else refused publish_not_allowed (required_text source p.kind)
    ]

unfoldable pub begin_produce : Sfu → String → ProducePayload → Sfu × Option Producing
begin_produce s sid p = elim (produce_checks s sid p) [
  | refused code message ↦ (produce_error sid p.request_id code message s, none)
  | begun producing ↦ (s, some producing)
]

unfoldable pub new_producer_json : Producer → PresenceRecord → Json
new_producer_json p r = object (
    field "producerId" (text p.id) (
      field "userId" (text r.user_id) (
        field "username" (text r.username) (
          field "kind" (kind_json p.kind) (
            field "paused" (boolean p.paused)
              (field "appData" (object (field "source" (source_json p.source) end)) end))))))

has_recv : Option MediaPeer → Bool
has_recv none = false
has_recv (some peer) = is_some peer.recv_transport

-- The other members that can consume are told of a producer.
unfoldable pub notify_peers : String → Json → List String → Sfu → Sfu
unfolding has_recv
notify_peers sid value [] s = s
notify_peers sid value (x ∷ xs) s =
    let told = if has_recv (get x s.media) then tell_peer x "sfu:new-producer" value s else s in
    notify_peers sid value xs (ite (str_dec x sid) s told)

unfoldable pub notify_peers_to_consume : String → Producer → Sfu → Sfu
notify_peers_to_consume sid producer s = elim (context_of s.presence sid) [
  | none ↦ s
  | some r ↦
      notify_peers sid (new_producer_json producer r) (list_peer_sockets s.presence r.room_id) s
]

unfoldable pub notify_tap_handlers : String → Producer → Sfu → Sfu
notify_tap_handlers room producer s =
    call (map (λ h. run_tap h producer.id) (set_at s.tap_handlers room)) s

unfoldable pub add_producer : Producer → MediaPeer → MediaPeer
add_producer p peer = record peer { producers = put p.id p peer.producers }

-- The lock is taken, and the room is told.
unfoldable pub start_share : Producing → Sfu → Sfu
start_share g s =
    if is_screen g.source
    then fan g.context.room_id "sfu:screen-share-started" (user_json g.context.user_id) (some g.sid)
        (record s { room_screen_share = put g.context.room_id g.sid s.room_screen_share })
    else s

unfoldable pub created_json : Producing → Producer → Json
created_json g p = object (
    field "requestId" (text g.payload.request_id) (
      field "producerId" (text p.id) (
        field "userId" (text g.context.user_id) (
          field "kind" (kind_json p.kind)
            (field "appData" (object (field "source" (source_json g.source) end)) end)))))

abbrev pub produced : Producing → String → Producer
produced g id = record { id = id; kind = g.payload.kind; source = g.source; paused = false }

-- The library answers with the id of the producer, or fails.
unfoldable pub finish_produce : Producing → Option String → Sfu → Sfu
finish_produce g none s =
    produce_error g.sid g.payload.request_id produce_failed "Failed to create producer" s
finish_produce g (some id) s =
    let p = produced g id in
    let kept = record s { media = modify g.sid (add_producer p) s.media } in
    notify_tap_handlers g.context.room_id p (
      notify_peers_to_consume g.sid p
        (tell g.sid "sfu:producer-created" (created_json g p) (start_share g kept)))

-- The rest of `createProducer`, where the checks let it.
abbrev pub act_on : Option String → Sfu × Option Producing → Sfu
act_on answer (s, none) = s
act_on answer (s, some g) = finish_produce g answer s

unfoldable pub create_producer : Sfu → String → ProducePayload → Option String → Sfu
create_producer s sid p answer = act_on answer (begin_produce s sid p)
