-- ===== src/Session/Facade.antt =====
-- packages/client/src/sfu/manager.ts: what the application calls and what the server's events do, with
-- packages/client/src/sfu/connection.ts.
use zvonok.Prelude.{
  ℕ, String, Bool, true, false, ◌||◌, Option, none, some, List, [], ◌∷◌, if◌then◌else◌, get, remove,
}
use zvonok.Json.{Json}
use zvonok.Client.Registry.{
  ParticipantLifecycleInput, SfuParticipantInfo, upsert, mark_media_detached,
}
use zvonok.Session.State.{
  Manager, fresh_state, ConnectionState, disconnected, connecting, Track, JoinErrorCode,
  kicked_from_room, room_token_expired, other, EgressStatus, BroadcastMessage, emit, tell,
  connect_socket, disconnect_socket, act, send, is_connected,
}
use zvonok.Session.Producers.{
  with_state, flush_pending_produces, retain_local_produces, replay_retained_produces,
  reset_publishing,
}
use zvonok.Session.Subscribe.{
  flush_pending_producers, close_consumers_for_peer, is_local, reset_consumers,
}
use zvonok.Session.Recovery.{
  show_connection, recoverable, close_all, reset_media_state, clear_session, begin_load,
  finish_load, begin_refresh, fail_recovery, handle_connected, handle_disconnected,
}

abbrev is_connecting : ConnectionState → Bool
is_connecting connecting = true
is_connecting _ = false

-- `SfuConnection.connect` where there is no connected socket: a new one.
unfoldable pub open_socket : Manager → Manager
open_socket s = act (connect_socket ∷ []) (record s { socket = some false })

unfoldable pub connect : Manager → Manager
connect s =
    if is_connected s || is_connecting s.state.connection_state
    then s
    else open_socket (show_connection connecting s)

-- `SfuConnection.disconnect`.
unfoldable pub drop_socket : Manager → Manager
drop_socket s = elim s.socket [
  | none ↦ s
  | some c ↦ act (disconnect_socket ∷ []) (record s { socket = none })
]

unfoldable pub reset_state : Manager → Manager
reset_state s =
    let t = reset_consumers (
      reset_publishing (record (clear_session s) {
        has_device = false;
        send_transport = none;
        recv_transport = none;
      })) in
    record t { registry = []; state = fresh_state }

unfoldable pub disconnect : Manager → Manager
disconnect s = reset_state (drop_socket (close_all s))

unfoldable pub leave_room : Manager → Manager
leave_room s = close_all (clear_session (send (emit "sfu:leave" "" ∷ []) s))

unfoldable pub handle_kicked : Manager → Manager
handle_kicked s =
    show_connection disconnected
      (drop_socket (close_all (clear_session (act (tell "kicked" "" ∷ []) s))))

unfoldable pub handle_room_ended : String → Manager → Manager
handle_room_ended room_id s =
    show_connection disconnected
      (close_all (clear_session (act (tell "room-ended" room_id ∷ []) s)))

abbrev pub code_text : JoinErrorCode → String
code_text kicked_from_room = "KICKED_FROM_ROOM"
code_text room_token_expired = "ROOM_TOKEN_EXPIRED"
code_text (other c) = c

unfoldable pub refused_rejoin : JoinErrorCode → Manager → Manager
refused_rejoin kicked_from_room s = handle_kicked s
refused_rejoin room_token_expired s = begin_refresh "ROOM_TOKEN_EXPIRED" s
refused_rejoin (other c) s = fail_recovery "join-error" c s

-- `SfuSession.handleJoinError`.
unfoldable pub handle_join_error : JoinErrorCode → Manager → Manager
handle_join_error code s = elim (recoverable s) [
  | some payload ↦ refused_rejoin code s
  | none ↦ act (tell "join-error" (code_text code) ∷ []) s
]

-- `handleRoomMediaReset` up to its await.
unfoldable pub begin_media_reset : (Track → Bool) → Json → String → Manager → Manager
begin_media_reset live router room_id s = elim (recoverable s) [
  | none ↦ s
  | some payload ↦ begin_load router (
      reset_media_state
        (close_all (retain_local_produces live (act (tell "room-media-reset" room_id ∷ []) s))))
]

-- `handleRoomMediaReset` after its await.
unfoldable pub finish_media_reset : (Track → Bool) → Bool → Manager → Manager
finish_media_reset live loaded s = replay_retained_produces live (finish_load loaded s)

unfoldable pub send_transport_created : (Track → Bool) → String → Manager → Manager
send_transport_created live id s =
    if s.has_device then flush_pending_produces live (record s { send_transport = some id }) else s

unfoldable pub recv_transport_created : String → Manager → Manager
recv_transport_created id s =
    if s.has_device then flush_pending_producers (record s { recv_transport = some id }) else s

-- The library's "connect" event on a transport.
unfoldable pub on_transport_connect : Option String → Manager → Manager
on_transport_connect none s = s
on_transport_connect (some id) s = send (emit "sfu:connect-transport" id ∷ []) s

unfoldable pub handle_peer_joined : ParticipantLifecycleInput → Manager → Manager
handle_peer_joined input s =
    act (tell "peer-joined" input.user_id ∷ [])
      (record s { registry = (upsert input s.registry).0 })

unfoldable pub handle_existing_peers : List ParticipantLifecycleInput → Manager → Manager
handle_existing_peers [] s = s
handle_existing_peers (p ∷ ps) s = handle_existing_peers ps (handle_peer_joined p s)

unfoldable pub close_removed : Option SfuParticipantInfo → Manager → Manager
close_removed none s = s
close_removed (some peer) s = close_consumers_for_peer peer s

unfoldable pub handle_peer_left : String → Manager → Manager
handle_peer_left user_id s =
    act (tell "peer-left" user_id ∷ [])
      (close_removed (get user_id s.registry) (record s { registry = remove user_id s.registry }))

unfoldable pub handle_peer_media_detached : String → Manager → Manager
handle_peer_media_detached user_id s =
    let (peers, found) = mark_media_detached user_id s.registry in
    let t = record s { registry = peers } in
    elim found [ none ↦ t | some peer ↦ act (tell "peer-media-detached" user_id ∷ []) t ]

unfoldable pub block_screen_share : Bool → Manager → Manager
block_screen_share b s = with_state (λ st. record st { is_screen_share_blocked = b }) s

unfoldable pub handle_screen_share_started : String → Manager → Manager
handle_screen_share_started user_id s = if is_local user_id s then s else block_screen_share true s

unfoldable pub handle_screen_share_stopped : String → Manager → Manager
handle_screen_share_stopped user_id s =
    if is_local user_id s
    then s
    else act (tell "screen-share-stopped" user_id ∷ []) (block_screen_share false s)

-- `SfuActions.handleBroadcast` and `handleEgressStatus`.
unfoldable pub handle_broadcast : BroadcastMessage → Manager → Manager
handle_broadcast message s =
    act (tell "broadcast" message.sender_id ∷ [])
      (with_state (λ st. record st { last_broadcast = some message }) s)

unfoldable pub handle_egress_status : EgressStatus → Manager → Manager
handle_egress_status payload s = with_state (λ st. record st { egress = some payload }) s

-- The socket's own "connect" and "disconnect".
unfoldable pub on_connected : (String → Option Json) → ℕ → Manager → Manager
on_connected decode now s = elim s.socket [
  | none ↦ s
  | some c ↦ handle_connected decode now (record s { socket = some true })
]

unfoldable pub on_disconnected : (Track → Bool) → Manager → Manager
on_disconnected live s = elim s.socket [
  | none ↦ s
  | some c ↦ handle_disconnected live (record s { socket = some false })
]
