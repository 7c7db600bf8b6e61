-- ===== src/Session/Receiving.antt =====
-- The operations on consumers, members and the connection leave the session alone.
use zvonok.Prelude.{
  String, Bool, true, false, not, ◌&&◌, Option, none, some, List, [], ◌∷◌, refl, ◌∙◌, get, put,
  remove, or_else,
}
use zvonok.Client.Registry.{
  MediaKind, MediaSource, SfuParticipantInfo, ParticipantLifecycleInput, upsert,
  mark_media_detached, find_producer, attach_producer,
}
use zvonok.Session.State.{
  connecting, emit, tell, tell_track, close_consumer, transport_consume, connect_socket,
  disconnect_socket, Manager, NewProducer, BroadcastMessage, act,
}
use zvonok.Session.Publish.{is_video, is_screen}
use zvonok.Session.Producers.{with_state, notify_producer_state}
use zvonok.Session.Subscribe.{
  announce_new, request_consume, can_receive, consume_producer, handle_new_producer, is_local,
  begin_consumer, finish_consumer, resumed, input_of, info_of, resume_audio, drop_consumer,
  end_consumer, end_consumers, consumers_of, set_preferred_layers, handle_consumer_closed,
  close_consumers_for_peer, consume_all,
}
use zvonok.Session.Facade.{
  handle_peer_joined, handle_existing_peers, close_removed, handle_peer_left,
  handle_peer_media_detached, block_screen_share, handle_screen_share_started,
  handle_screen_share_stopped, open_socket, connect, drop_socket, on_transport_connect,
  handle_broadcast,
}
use zvonok.Session.Recovery.{show_connection}
use zvonok.Session.Core.{joins, IsMild, act-IsMild, send-IsMild, if-IsMild, elim-IsMild}

announce_new-IsMild :
    (user_id : String) (b : Bool) (s : Manager) → IsMild s (announce_new user_id b s)
unfolding announce_new joins
announce_new-IsMild user_id true s = act-IsMild (tell "peer-joined" user_id ∷ []) s refl
announce_new-IsMild user_id false s = refl

request_consume-IsMild : (p : NewProducer) (s : Manager) → IsMild s (request_consume p s)
unfolding request_consume joins
request_consume-IsMild p s =
    let (peers, peer, created) = upsert (input_of p) s.registry in
    let t = announce_new p.user_id created (record s { registry = peers }) in
    send-IsMild (emit "sfu:consume" p.producer_id ∷ [])
      (record t { registry = attach_producer p.user_id p.producer_id (info_of p) t.registry }) refl
    ∙ announce_new-IsMild p.user_id created (record s { registry = peers })

consume_producer-IsMild : (p : NewProducer) (s : Manager) → IsMild s (consume_producer p s)
unfolding consume_producer
consume_producer-IsMild p s = if-IsMild (can_receive s) s _ _ (request_consume-IsMild p s) refl

pub consume_all-IsMild : (ps : List NewProducer) (s : Manager) → IsMild s (consume_all ps s)
unfolding consume_all
consume_all-IsMild [] s = refl
consume_all-IsMild (p ∷ ps) s =
    consume_all-IsMild ps (consume_producer p s) ∙ consume_producer-IsMild p s

pub handle_new_producer-IsMild :
    (p : NewProducer) (s : Manager) → IsMild s (handle_new_producer p s)
unfolding handle_new_producer
handle_new_producer-IsMild p s =
    consume_producer-IsMild p _
    ∙ if-IsMild (is_screen p.source && not (is_local p.user_id s)) s _ _ refl refl

pub begin_consumer-IsMild :
    (id producer_id : String) (kind : MediaKind) (s : Manager)
    → IsMild s (begin_consumer id producer_id kind s)
unfolding begin_consumer joins
begin_consumer-IsMild id producer_id kind s = elim-IsMild s.recv_transport s _ _ refl (λ t.
    if-IsMild s.has_device s _ _ (act-IsMild (transport_consume t id producer_id ∷ []) s refl) refl)

resumed-IsMild : (id : String) (kind : MediaKind) (s : Manager) → IsMild s (resumed id kind s)
unfolding resumed joins
resumed-IsMild id kind s =
    if-IsMild (is_video kind) s _ _ (send-IsMild (emit "sfu:resume-consumer" id ∷ []) s refl) refl

told_track-IsMild :
    (id user_id : String) (source : Option MediaSource) (s : Manager)
    → IsMild s (act (tell_track id user_id source ∷ []) s)
unfolding joins
told_track-IsMild id user_id source s = act-IsMild (tell_track id user_id source ∷ []) s refl

pub notify_producer_state-IsMild :
    (id : String) (s : Manager) → IsMild s (notify_producer_state id s)
unfolding notify_producer_state joins
notify_producer_state-IsMild id s = act-IsMild (tell "producer-state" id ∷ []) s refl

pub finish_consumer-IsMild :
    (id producer_id : String) (kind : MediaKind) (s : Manager)
    → IsMild s (finish_consumer id producer_id kind s)
unfolding finish_consumer
finish_consumer-IsMild id producer_id kind s =
    let t = record s {
      consumers = put id (record { kind = kind; producer_id = producer_id }) s.consumers;
    } in
    let u = resumed id kind t in
    elim-IsMild (find_producer producer_id s.registry) s _ _
      (told_track-IsMild id "" none u ∙ resumed-IsMild id kind t)
      (λ (user_id, info).
        let v = act (tell_track id user_id info.source ∷ []) u in
        if-IsMild (or_else info.paused false) s _ _
          (notify_producer_state-IsMild producer_id v
            ∙ told_track-IsMild id user_id info.source u
            ∙ resumed-IsMild id kind t)
          (told_track-IsMild id user_id info.source u ∙ resumed-IsMild id kind t))

end_consumer-IsMild : (id : String) (s : Manager) → IsMild s (end_consumer id s)
unfolding end_consumer drop_consumer joins
end_consumer-IsMild id s =
    act-IsMild (close_consumer id ∷ []) (record s { consumers = remove id s.consumers }) refl

end_consumers-IsMild : (ids : List String) (s : Manager) → IsMild s (end_consumers ids s)
unfolding end_consumers
end_consumers-IsMild [] s = refl
end_consumers-IsMild (id ∷ ids) s =
    end_consumers-IsMild ids (end_consumer id s) ∙ end_consumer-IsMild id s

pub handle_consumer_closed-IsMild :
    (id : String) (s : Manager) → IsMild s (handle_consumer_closed id s)
unfolding handle_consumer_closed
handle_consumer_closed-IsMild id s =
    elim-IsMild (get id s.consumers) s _ _ refl (λ c. end_consumer-IsMild id s)

pub handle_peer_joined-IsMild :
    (p : ParticipantLifecycleInput) (s : Manager) → IsMild s (handle_peer_joined p s)
unfolding handle_peer_joined joins
handle_peer_joined-IsMild p s =
    act-IsMild (tell "peer-joined" p.user_id ∷ []) (record s { registry = (upsert p s.registry).0 })
      refl

close_removed-IsMild : (o : Option SfuParticipantInfo) (s : Manager) → IsMild s (close_removed o s)
unfolding close_removed close_consumers_for_peer
close_removed-IsMild none s = refl
close_removed-IsMild (some peer) s = end_consumers-IsMild (consumers_of peer s.consumers) s

pub handle_peer_left-IsMild : (u : String) (s : Manager) → IsMild s (handle_peer_left u s)
unfolding handle_peer_left joins
handle_peer_left-IsMild u s =
    let t = record s { registry = remove u s.registry } in
    act-IsMild (tell "peer-left" u ∷ []) (close_removed (get u s.registry) t) refl
    ∙ close_removed-IsMild (get u s.registry) t

pub handle_peer_media_detached-IsMild :
    (u : String) (s : Manager) → IsMild s (handle_peer_media_detached u s)
unfolding handle_peer_media_detached joins
handle_peer_media_detached-IsMild u s =
    let (peers, found) = mark_media_detached u s.registry in
    let t = record s { registry = peers } in
    elim-IsMild found s _ _ refl (λ p. act-IsMild (tell "peer-media-detached" u ∷ []) t refl)

pub connect-IsMild : (s : Manager) → IsMild s (connect s)
unfolding connect open_socket joins
connect-IsMild s = if-IsMild _ s _ _ refl (
    act-IsMild (connect_socket ∷ []) (record (show_connection connecting s) { socket = some false })
      refl)

pub drop_socket-IsMild : (s : Manager) → IsMild s (drop_socket s)
unfolding drop_socket joins
drop_socket-IsMild s =
    elim-IsMild s.socket s _ _ refl
      (λ c. act-IsMild (disconnect_socket ∷ []) (record s { socket = none }) refl)

pub set_preferred_layers-IsMild : (id : String) (s : Manager) → IsMild s (set_preferred_layers id s)
unfolding set_preferred_layers joins
set_preferred_layers-IsMild id s = send-IsMild (emit "sfu:set-preferred-layers" id ∷ []) s refl

pub resume_audio-IsMild : (id : String) (s : Manager) → IsMild s (resume_audio id s)
unfolding resume_audio joins
resume_audio-IsMild id s = send-IsMild (emit "sfu:resume-consumer" id ∷ []) s refl

pub on_transport_connect-IsMild :
    (o : Option String) (s : Manager) → IsMild s (on_transport_connect o s)
unfolding on_transport_connect joins
on_transport_connect-IsMild none s = refl
on_transport_connect-IsMild (some id) s = send-IsMild (emit "sfu:connect-transport" id ∷ []) s refl

pub handle_existing_peers-IsMild :
    (ps : List ParticipantLifecycleInput) (s : Manager) → IsMild s (handle_existing_peers ps s)
unfolding handle_existing_peers
handle_existing_peers-IsMild [] s = refl
handle_existing_peers-IsMild (p ∷ ps) s =
    handle_existing_peers-IsMild ps (handle_peer_joined p s) ∙ handle_peer_joined-IsMild p s

pub handle_screen_share_started-IsMild :
    (u : String) (s : Manager) → IsMild s (handle_screen_share_started u s)
unfolding handle_screen_share_started block_screen_share
handle_screen_share_started-IsMild u s = if-IsMild (is_local u s) s _ _ refl refl

pub handle_screen_share_stopped-IsMild :
    (u : String) (s : Manager) → IsMild s (handle_screen_share_stopped u s)
unfolding handle_screen_share_stopped block_screen_share joins
handle_screen_share_stopped-IsMild u s =
    if-IsMild (is_local u s) s _ _ refl
      (act-IsMild (tell "screen-share-stopped" u ∷ []) (block_screen_share false s) refl)

pub handle_broadcast-IsMild : (m : BroadcastMessage) (s : Manager) → IsMild s (handle_broadcast m s)
unfolding handle_broadcast joins
handle_broadcast-IsMild m s =
    act-IsMild (tell "broadcast" m.sender_id ∷ [])
      (with_state (λ st. record st { last_broadcast = some m }) s) refl
