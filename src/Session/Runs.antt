-- ===== src/Session/Runs.antt =====
-- Every run of the client: the calls of the application, the events of the socket and of the server, and
-- what the media library and the token provider answer.
use zvonok.Prelude.{ℕ, String, Bool, Option, some, List, ◌≡◌, refl}
use zvonok.Json.{Json}
use zvonok.Capabilities.{CapabilityId}
use zvonok.Client.Registry.{MediaKind, MediaSource, ParticipantLifecycleInput}
use zvonok.Session.State.{
  Manager, Track, Intent, ProduceResult, NewProducer, JoinPayload, JoinErrorCode, BroadcastMessage,
  EgressStatus,
}
use zvonok.Session.Publish.{produce_with_source, finish_flight, on_transport_close}
use zvonok.Session.Producers.{
  on_produce, close_screen_producer, close_producer, pause_producer, resume_producer,
  handle_producer_created, handle_produce_error,
}
use zvonok.Session.Subscribe.{
  handle_new_producer, begin_consumer, finish_consumer, drop_consumer, handle_consumer_closed,
  resume_audio, set_preferred_layers,
}
use zvonok.Session.Recovery.{
  join_room, finish_load, handle_reconnect_failed, handle_joined, finish_refresh,
}
use zvonok.Session.Facade.{
  connect, disconnect, leave_room, handle_kicked, handle_room_ended, handle_join_error,
  begin_media_reset, finish_media_reset, send_transport_created, recv_transport_created,
  handle_peer_joined, handle_peer_left, handle_peer_media_detached, handle_existing_peers,
  handle_screen_share_started, handle_screen_share_stopped, handle_broadcast, handle_egress_status,
  on_transport_connect, on_connected, on_disconnected,
}
use zvonok.Session.Mild.{
  finish_flight-IsMild, on_produce-IsMild, close_screen_producer-IsMild, close_producer-IsMild,
  pause_producer-IsMild, resume_producer-IsMild, handle_producer_created-IsMild,
  handle_produce_error-IsMild,
}
use zvonok.Session.Receiving.{
  handle_new_producer-IsMild, begin_consumer-IsMild, finish_consumer-IsMild,
  handle_consumer_closed-IsMild, handle_peer_joined-IsMild, handle_peer_left-IsMild,
  handle_peer_media_detached-IsMild, connect-IsMild, set_preferred_layers-IsMild,
  resume_audio-IsMild, on_transport_connect-IsMild, handle_existing_peers-IsMild,
  handle_screen_share_started-IsMild, handle_screen_share_stopped-IsMild, handle_broadcast-IsMild,
}
use zvonok.Session.Sound.{IsSound, produce-Keeps}
use zvonok.Session.Quiet.{Quiet, mild-Quiet, Keeps-Quiet}
use zvonok.Session.Events.{
  on_connected-Quiet, on_disconnected-Quiet, handle_reconnect_failed-Quiet, join_room-IsSound,
}
use zvonok.Session.Answers.{
  finish_load-Quiet, finish_media_reset-Quiet, handle_joined-Quiet, begin_media_reset-Quiet,
  finish_refresh-Quiet,
}
use zvonok.Session.Endings.{
  leave_room-Quiet, handle_room_ended-Quiet, handle_kicked-Quiet, handle_join_error-Quiet,
  disconnect-Quiet, send_transport_created-Quiet, recv_transport_created-Quiet,
}

-- What may happen but a request of the application to join.
pub data Event : Manager → Manager → Type 0 where
  connects : (s : Manager) → Event s (connect s)
  disconnects : (s : Manager) → Event s (disconnect s)
  leaves : (s : Manager) → Event s (leave_room s)
  asks_for :
      (s : Manager) (live : Track → Bool) (i : Intent) (reply : Option ℕ)
      → Event s (produce_with_source live i reply s)
  produces : (s : Manager) (n : ℕ) (result : ProduceResult) → Event s (finish_flight n result s)
  requests :
      (s : Manager) (id : String) (kind : MediaKind) (source : Option MediaSource)
      → Event s (on_produce id kind source s)
  closes : (s : Manager) (kind : MediaKind) → Event s (close_producer kind s)
  closes_screen : (s : Manager) → Event s (close_screen_producer s)
  pauses : (s : Manager) (id : String) → Event s (pause_producer id s)
  resumes : (s : Manager) (id : String) → Event s (resume_producer id s)
  is_answered :
      (s : Manager) (request_id id : String) (kind : MediaKind) (source : Option MediaSource)
      → Event s (handle_producer_created request_id id kind source s)
  is_refused :
      (s : Manager) (request_id code : String) → Event s (handle_produce_error request_id code s)
  loses_producer : (s : Manager) (id : String) → Event s (on_transport_close id s)
  hears_of : (s : Manager) (p : NewProducer) → Event s (handle_new_producer p s)
  is_offered :
      (s : Manager) (id producer_id : String) (kind : MediaKind)
      → Event s (begin_consumer id producer_id kind s)
  consumes :
      (s : Manager) (id producer_id : String) (kind : MediaKind)
      → Event s (finish_consumer id producer_id kind s)
  loses_consumer : (s : Manager) (id : String) → Event s (drop_consumer id s)
  stops_consuming : (s : Manager) (id : String) → Event s (handle_consumer_closed id s)
  peer_joins : (s : Manager) (p : ParticipantLifecycleInput) → Event s (handle_peer_joined p s)
  peer_leaves : (s : Manager) (user_id : String) → Event s (handle_peer_left user_id s)
  peer_detaches : (s : Manager) (user_id : String) → Event s (handle_peer_media_detached user_id s)
  all_join :
      (s : Manager) (ps : List ParticipantLifecycleInput) → Event s (handle_existing_peers ps s)
  screen_starts : (s : Manager) (user_id : String) → Event s (handle_screen_share_started user_id s)
  screen_stops : (s : Manager) (user_id : String) → Event s (handle_screen_share_stopped user_id s)
  hears : (s : Manager) (m : BroadcastMessage) → Event s (handle_broadcast m s)
  streams : (s : Manager) (e : EgressStatus) → Event s (handle_egress_status e s)
  resumes_audio : (s : Manager) (id : String) → Event s (resume_audio id s)
  prefers : (s : Manager) (id : String) → Event s (set_preferred_layers id s)
  shakes_hands : (s : Manager) (id : Option String) → Event s (on_transport_connect id s)
  socket_up :
      (s : Manager) (decode : String → Option Json) (now : ℕ) → Event s (on_connected decode now s)
  socket_down : (s : Manager) (live : Track → Bool) → Event s (on_disconnected live s)
  gives_up : (s : Manager) → Event s (handle_reconnect_failed s)
  is_joined :
      (s : Manager) (live : Track → Bool) (router : Json) (user_id : Option String)
      (capabilities : List CapabilityId)
      → Event s (handle_joined live router user_id capabilities s)
  is_kept_out : (s : Manager) (code : JoinErrorCode) → Event s (handle_join_error code s)
  gets_token :
      (s : Manager) (decode : String → Option Json) (token : Option String)
      → Event s (finish_refresh decode token s)
  loads : (s : Manager) (b : Bool) → Event s (finish_load b s)
  can_send :
      (s : Manager) (live : Track → Bool) (id : String) → Event s (send_transport_created live id s)
  can_hear : (s : Manager) (id : String) → Event s (recv_transport_created id s)
  is_reset :
      (s : Manager) (live : Track → Bool) (router : Json) (room_id : String)
      → Event s (begin_media_reset live router room_id s)
  is_rebuilt :
      (s : Manager) (live : Track → Bool) (b : Bool) → Event s (finish_media_reset live b s)
  is_kicked : (s : Manager) → Event s (handle_kicked s)
  room_ends : (s : Manager) (room_id : String) → Event s (handle_room_ended room_id s)

pub data Events : Manager → Manager → Type 0 where
  none_yet : {s : Manager} → Events s s
  after : {s t u : Manager} → Events s t → Event t u → Events s u

pub data Step : Manager → Manager → Type 0 where
  joins_room :
      (s t : Manager) (decode : String → Option Json) (p : JoinPayload) (o : Option Bool)
      → join_room decode p o s ≡ some t
      → Step s t
  happens : {s t : Manager} → Event s t → Step s t

pub data Run : Manager → Manager → Type 0 where
  here : {s : Manager} → Run s s
  next : {s t u : Manager} → Run s t → Step t u → Run s u

Event-Quiet : {s t : Manager} → Event s t → Quiet s t
unfolding on_transport_close drop_consumer handle_egress_status
Event-Quiet (connects s) = mild-Quiet s (connect s) (connect-IsMild s)
Event-Quiet (disconnects s) = disconnect-Quiet s
Event-Quiet (leaves s) = leave_room-Quiet s
Event-Quiet (asks_for s live i reply) =
    Keeps-Quiet s (produce_with_source live i reply s) (produce-Keeps live i reply s)
Event-Quiet (produces s n result) =
    mild-Quiet s (finish_flight n result s) (finish_flight-IsMild n result s)
Event-Quiet (requests s id kind source) =
    mild-Quiet s (on_produce id kind source s) (on_produce-IsMild id kind source s)
Event-Quiet (closes s kind) = mild-Quiet s (close_producer kind s) (close_producer-IsMild kind s)
Event-Quiet (closes_screen s) =
    mild-Quiet s (close_screen_producer s) (close_screen_producer-IsMild s)
Event-Quiet (pauses s id) = mild-Quiet s (pause_producer id s) (pause_producer-IsMild id s)
Event-Quiet (resumes s id) = mild-Quiet s (resume_producer id s) (resume_producer-IsMild id s)
Event-Quiet (is_answered s r id kind source) =
    mild-Quiet s (handle_producer_created r id kind source s)
      (handle_producer_created-IsMild r id kind source s)
Event-Quiet (is_refused s r code) =
    mild-Quiet s (handle_produce_error r code s) (handle_produce_error-IsMild r code s)
Event-Quiet (loses_producer s id) = mild-Quiet s (on_transport_close id s) refl
Event-Quiet (hears_of s p) = mild-Quiet s (handle_new_producer p s) (handle_new_producer-IsMild p s)
Event-Quiet (is_offered s id p kind) =
    mild-Quiet s (begin_consumer id p kind s) (begin_consumer-IsMild id p kind s)
Event-Quiet (consumes s id p kind) =
    mild-Quiet s (finish_consumer id p kind s) (finish_consumer-IsMild id p kind s)
Event-Quiet (loses_consumer s id) = mild-Quiet s (drop_consumer id s) refl
Event-Quiet (stops_consuming s id) =
    mild-Quiet s (handle_consumer_closed id s) (handle_consumer_closed-IsMild id s)
Event-Quiet (peer_joins s p) = mild-Quiet s (handle_peer_joined p s) (handle_peer_joined-IsMild p s)
Event-Quiet (peer_leaves s u) = mild-Quiet s (handle_peer_left u s) (handle_peer_left-IsMild u s)
Event-Quiet (peer_detaches s u) =
    mild-Quiet s (handle_peer_media_detached u s) (handle_peer_media_detached-IsMild u s)
Event-Quiet (all_join s ps) =
    mild-Quiet s (handle_existing_peers ps s) (handle_existing_peers-IsMild ps s)
Event-Quiet (screen_starts s u) =
    mild-Quiet s (handle_screen_share_started u s) (handle_screen_share_started-IsMild u s)
Event-Quiet (screen_stops s u) =
    mild-Quiet s (handle_screen_share_stopped u s) (handle_screen_share_stopped-IsMild u s)
Event-Quiet (hears s m) = mild-Quiet s (handle_broadcast m s) (handle_broadcast-IsMild m s)
Event-Quiet (streams s e) = mild-Quiet s (handle_egress_status e s) refl
Event-Quiet (resumes_audio s id) = mild-Quiet s (resume_audio id s) (resume_audio-IsMild id s)
Event-Quiet (prefers s id) =
    mild-Quiet s (set_preferred_layers id s) (set_preferred_layers-IsMild id s)
Event-Quiet (shakes_hands s id) =
    mild-Quiet s (on_transport_connect id s) (on_transport_connect-IsMild id s)
Event-Quiet (socket_up s decode now) = on_connected-Quiet decode now s
Event-Quiet (socket_down s live) = on_disconnected-Quiet live s
Event-Quiet (gives_up s) = handle_reconnect_failed-Quiet s
Event-Quiet (is_joined s live router u cs) = handle_joined-Quiet live router u cs s
Event-Quiet (is_kept_out s code) = handle_join_error-Quiet code s
Event-Quiet (gets_token s decode token) = finish_refresh-Quiet decode token s
Event-Quiet (loads s b) = finish_load-Quiet b s
Event-Quiet (can_send s live id) = send_transport_created-Quiet live id s
Event-Quiet (can_hear s id) = recv_transport_created-Quiet id s
Event-Quiet (is_reset s live router room) = begin_media_reset-Quiet live router room s
Event-Quiet (is_rebuilt s live b) = finish_media_reset-Quiet live b s
Event-Quiet (is_kicked s) = handle_kicked-Quiet s
Event-Quiet (room_ends s room) = handle_room_ended-Quiet room s

Step-IsSound : {s t : Manager} → Step s t → IsSound s → IsSound t
Step-IsSound (joins_room s t decode p o e) h = join_room-IsSound decode p o s t e h
Step-IsSound (happens e) h = (Event-Quiet e).0 h

-- Where the client holds intents only for a session that can be recovered, has transports only with a
-- device, buffers at most eight calls and none once it can send, and counts at most five rejoins, the same
-- holds after every run of requests to join and of events.
pub Run-IsSound : {s t : Manager} → IsSound s → Run s t → IsSound t
Run-IsSound h here = h
Run-IsSound h (next r m) = Step-IsSound m (Run-IsSound h r)
