-- ===== src/Session/Endings.antt =====
-- The ends of a session and the new transports keep the client sound.
use zvonok.Prelude.{if_cases, elim_cases, String, Bool, false, none, some, [], ◌∷◌, refl, arith}
use zvonok.Session.State.{
  Manager, Track, JoinErrorCode, kicked_from_room, room_token_expired, other, emit, tell, act, send,
}
use zvonok.Session.Producers.{produce_all, flush_pending_produces, reset_publishing, rejections}
use zvonok.Session.Subscribe.{flush_pending_producers, consume_all, reset_consumers}
use zvonok.Session.Recovery.{recoverable, close_all, clear_session}
use zvonok.Session.Facade.{
  send_transport_created, recv_transport_created, leave_room, refused_rejoin, handle_join_error,
  code_text, handle_kicked, handle_room_ended, drop_socket, disconnect, reset_state,
}
use zvonok.Session.Core.{joins, IsMild, act-IsMild, send-IsMild, joins-rejections}
use zvonok.Session.Receiving.{consume_all-IsMild, drop_socket-IsMild}
use zvonok.Session.Sound.{produce_all-Keeps}
use zvonok.Session.Quiet.{
  Quiet, Keeps-Quiet, mild-Quiet, Quiet-trans, close_all-Keeps, clear_session-Quiet,
  fail_recovery-Quiet,
}
use zvonok.Session.Answers.{begin_refresh-Quiet}

-- A session that is cleared, with the media.
over-Quiet : (s t : Manager) → IsMild s t → Quiet s (close_all (clear_session t))
over-Quiet s t m = Quiet-trans s t (close_all (clear_session t)) (mild-Quiet s t m) (
    Quiet-trans t (clear_session t) (close_all (clear_session t)) (clear_session-Quiet t) (
      Keeps-Quiet (clear_session t) (close_all (clear_session t))
        (close_all-Keeps (clear_session t))))

pub leave_room-Quiet : (s : Manager) → Quiet s (leave_room s)
unfolding leave_room joins
leave_room-Quiet s =
    over-Quiet s (send (emit "sfu:leave" "" ∷ []) s) (send-IsMild (emit "sfu:leave" "" ∷ []) s refl)

pub handle_room_ended-Quiet :
    (room_id : String) (s : Manager) → Quiet s (handle_room_ended room_id s)
unfolding handle_room_ended joins
handle_room_ended-Quiet room_id s =
    let t = act (tell "room-ended" room_id ∷ []) s in
    over-Quiet s t (act-IsMild (tell "room-ended" room_id ∷ []) s refl)

pub handle_kicked-Quiet : (s : Manager) → Quiet s (handle_kicked s)
unfolding handle_kicked joins
handle_kicked-Quiet s =
    let t = act (tell "kicked" "" ∷ []) s in
    let u = close_all (clear_session t) in
    Quiet-trans s u (handle_kicked s) (over-Quiet s t (act-IsMild (tell "kicked" "" ∷ []) s refl))
      (mild-Quiet u (handle_kicked s) (drop_socket-IsMild u))

pub handle_join_error-Quiet :
    (code : JoinErrorCode) (s : Manager) → Quiet s (handle_join_error code s)
unfolding handle_join_error refused_rejoin joins
handle_join_error-Quiet code s =
    elim_cases (Quiet s) (recoverable s) _ _
      (λ e.
        mild-Quiet s (act (tell "join-error" (code_text code) ∷ []) s)
          (act-IsMild (tell "join-error" (code_text code) ∷ []) s refl))
      (λ p e. refused code s)
  where
    refused : (c : JoinErrorCode) (s : Manager) → Quiet s (refused_rejoin c s)
    refused kicked_from_room s = handle_kicked-Quiet s
    refused room_token_expired s = begin_refresh-Quiet "ROOM_TOKEN_EXPIRED" s
    refused (other c) s = fail_recovery-Quiet "join-error" c s

pub disconnect-Quiet : (s : Manager) → Quiet s (disconnect s)
unfolding disconnect reset_state reset_consumers reset_publishing joins
disconnect-Quiet s =
    let t = close_all s in
    let u = drop_socket t in
    let v = clear_session u in
    let w = record v { has_device = false; send_transport = none; recv_transport = none } in
    Quiet-trans s t (disconnect s) (Keeps-Quiet s t (close_all-Keeps s)) (
      Quiet-trans t u (disconnect s) (mild-Quiet t u (drop_socket-IsMild t)) (
        Quiet-trans u v (disconnect s) (clear_session-Quiet u) (
          Quiet-trans v w (disconnect s)
            (
              λ (held, devices, bounded, flushed, rated).
                  (held, λ e. (refl, refl), bounded, λ t f. absurd (cc), rated),
              λ e. (e, refl),
            )
            (mild-Quiet w (disconnect s) (
              act-IsMild (rejections w.pending_requests) w
                (joins-rejections w.pending_requests))))))

pub send_transport_created-Quiet :
    (live : Track → Bool) (id : String) (s : Manager) → Quiet s (send_transport_created live id s)
unfolding send_transport_created flush_pending_produces
send_transport_created-Quiet live id s =
    if_cases (Quiet s) s.has_device _ _
      (λ e.
        let t = record s { send_transport = some id; pending_local = [] } in
        Quiet-trans s t (produce_all live s.pending_local t)
          (
            λ (held, devices, bounded, flushed, rated).
                (held, λ f. absurd (ground (arith, e, f)), omega arith, λ x f. refl, rated),
            λ f. (f, refl),
          )
          (Keeps-Quiet t (produce_all live s.pending_local t)
            (produce_all-Keeps live s.pending_local t)))
      (λ e. mild-Quiet s s refl)

pub recv_transport_created-Quiet :
    (id : String) (s : Manager) → Quiet s (recv_transport_created id s)
unfolding recv_transport_created flush_pending_producers
recv_transport_created-Quiet id s =
    if_cases (Quiet s) s.has_device _ _
      (λ e.
        let t = record s { recv_transport = some id; pending_new = [] } in
        let u = consume_all s.pending_new t in
        Quiet-trans s t u
          (
            λ (held, devices, bounded, flushed, rated).
                (held, λ f. absurd (ground (arith, e, f)), bounded, flushed, rated),
            λ f. (f, refl),
          )
          (mild-Quiet t u (consume_all-IsMild s.pending_new t)))
      (λ e. mild-Quiet s s refl)
