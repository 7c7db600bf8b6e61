-- ===== src/Session/Subscribe.antt =====
-- packages/client/src/sfu/subscribe.ts: the media of others that is received.
use zvonok.Prelude.{
  String, Bool, true, false, not, ◌&&◌, Option, none, some, List, [], ◌∷◌, ◌++◌, map, ite, str_dec,
  if◌then◌else◌, or_else, Map, get, put, remove,
}
use zvonok.Client.Registry.{
  MediaKind, SfuParticipantInfo, ParticipantLifecycleInput, ParticipantProducerInfo, upsert,
  attach_producer, find_producer,
}
use zvonok.Session.State.{
  Manager, RemoteConsumer, NewProducer, Act, emit, transport_consume, close_consumer, tell,
  tell_track, act, send,
}
use zvonok.Session.Publish.{is_screen, is_video}
use zvonok.Session.Producers.{with_state, notify_producer_state}

unfoldable pub set_preferred_layers : String → Manager → Manager
set_preferred_layers consumer_id s = send (emit "sfu:set-preferred-layers" consumer_id ∷ []) s

abbrev is_camera_of : SfuParticipantInfo → RemoteConsumer → Bool
is_camera_of peer c = is_video c.kind && elim (get c.producer_id peer.producers) [
  | none ↦ false
  | some info ↦ not (is_screen info.source)
]

unfoldable pub find_camera : SfuParticipantInfo → Map RemoteConsumer → Option String
unfolding is_video is_screen
find_camera peer [] = none
find_camera peer ((id, c) ∷ cs) = if is_camera_of peer c then some id else find_camera peer cs

unfoldable pub get_video_consumer_id_for_user_id : String → Manager → Option String
get_video_consumer_id_for_user_id user_id s = elim (get user_id s.registry) [
  | none ↦ none
  | some peer ↦ find_camera peer s.consumers
]

unfoldable pub is_local : String → Manager → Bool
is_local user_id s = elim s.local_user_id [
  | none ↦ false
  | some me ↦ ite (str_dec user_id me) true false
]

unfoldable pub announce_new : String → Bool → Manager → Manager
announce_new user_id created s = if created then act (tell "peer-joined" user_id ∷ []) s else s

abbrev pub input_of : NewProducer → ParticipantLifecycleInput
input_of p = record {
  user_id = p.user_id;
  username = some p.username;
  external_id = none;
  metadata = none;
}

abbrev pub info_of : NewProducer → ParticipantProducerInfo
info_of p = record { kind = p.kind; paused = some p.paused; source = p.source }

-- Consuming says that the participant is there.
unfoldable pub request_consume : NewProducer → Manager → Manager
request_consume p s =
    let (peers, peer, created) = upsert (input_of p) s.registry in
    let t = announce_new p.user_id created (record s { registry = peers }) in
    send (emit "sfu:consume" p.producer_id ∷ [])
      (record t { registry = attach_producer p.user_id p.producer_id (info_of p) t.registry })

unfoldable pub can_receive : Manager → Bool
can_receive s = elim s.socket [
  | none ↦ false
  | some c ↦ s.has_device && elim s.recv_transport [ none ↦ false | some t ↦ true ]
]

unfoldable pub consume_producer : NewProducer → Manager → Manager
consume_producer p s =
    if can_receive s
    then request_consume p s
    else record s { pending_new = s.pending_new ++ p ∷ [] }

unfoldable pub handle_new_producer : NewProducer → Manager → Manager
handle_new_producer p s = consume_producer p (
    if is_screen p.source && not (is_local p.user_id s)
    then with_state (λ st. record st { is_screen_share_blocked = true }) s
    else s)

-- `handleConsumerCreated` up to its await: the transport is asked for a consumer.
unfoldable pub begin_consumer : String → String → MediaKind → Manager → Manager
begin_consumer consumer_id producer_id kind s = elim s.recv_transport [
  | none ↦ s
  | some t ↦ if s.has_device then act (transport_consume t consumer_id producer_id ∷ []) s else s
]

-- Audio is resumed by a timer.
unfoldable pub resumed : String → MediaKind → Manager → Manager
resumed consumer_id kind s =
    if is_video kind then send (emit "sfu:resume-consumer" consumer_id ∷ []) s else s

-- `handleConsumerCreated` after its await.
unfoldable pub finish_consumer : String → String → MediaKind → Manager → Manager
finish_consumer consumer_id producer_id kind s =
    let t = record s {
      consumers = put consumer_id (record { kind = kind; producer_id = producer_id }) s.consumers;
    } in
    let u = resumed consumer_id kind t in
    elim (find_producer producer_id s.registry) [
      | none ↦ act (tell_track consumer_id "" none ∷ []) u
      | some (user_id, info) ↦
          let told = act (tell_track consumer_id user_id info.source ∷ []) u in
          if or_else info.paused false then notify_producer_state producer_id told else told
    ]

-- The timer for audio.
unfoldable pub resume_audio : String → Manager → Manager
resume_audio consumer_id s = send (emit "sfu:resume-consumer" consumer_id ∷ []) s

-- The consumer's "transportclose" and "trackended".
unfoldable pub drop_consumer : String → Manager → Manager
drop_consumer consumer_id s = record s { consumers = remove consumer_id s.consumers }

unfoldable pub end_consumer : String → Manager → Manager
end_consumer consumer_id s = act (close_consumer consumer_id ∷ []) (drop_consumer consumer_id s)

unfoldable pub handle_consumer_closed : String → Manager → Manager
handle_consumer_closed consumer_id s = elim (get consumer_id s.consumers) [
  | none ↦ s
  | some c ↦ end_consumer consumer_id s
]

unfoldable pub consumers_of : SfuParticipantInfo → Map RemoteConsumer → List String
consumers_of peer [] = []
consumers_of peer ((id, c) ∷ cs) =
    let rest = consumers_of peer cs in
    elim (get c.producer_id peer.producers) [ none ↦ rest | some info ↦ id ∷ rest ]

unfoldable pub end_consumers : List String → Manager → Manager
end_consumers [] s = s
end_consumers (id ∷ ids) s = end_consumers ids (end_consumer id s)

unfoldable pub close_consumers_for_peer : SfuParticipantInfo → Manager → Manager
close_consumers_for_peer peer s = end_consumers (consumers_of peer s.consumers) s

unfoldable pub consume_all : List NewProducer → Manager → Manager
consume_all [] s = s
consume_all (p ∷ ps) s = consume_all ps (consume_producer p s)

unfoldable pub flush_pending_producers : Manager → Manager
flush_pending_producers s = consume_all s.pending_new (record s { pending_new = [] })

unfoldable pub clear_pending_producers : Manager → Manager
clear_pending_producers s = record s { pending_new = [] }

abbrev pub close_consumer_calls : Map RemoteConsumer → List Act
close_consumer_calls cs = map (λ e. close_consumer e.0) cs

unfoldable pub close_consumers : Manager → Manager
close_consumers s = act (close_consumer_calls s.consumers) (record s { consumers = [] })

unfoldable pub reset_consumers : Manager → Manager
reset_consumers s = record s { consumers = []; pending_new = [] }
