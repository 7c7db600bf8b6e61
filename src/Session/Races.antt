-- ===== src/Session/Races.antt =====
-- What overtakes an answer that the client waits for.
use zvonok.Prelude.{
  elim_cases, String, Bool, true, false, Option, none, some, List, [], ◌∷◌, ◌++◌, ◌≡◌, refl, sym,
  ap, subst, ◌∙◌, inl, inr, arith, Option-cases,
}
use zvonok.Json.{Json}
use zvonok.Capabilities.{CapabilityId}
use zvonok.Session.State.{
  Manager, tell, emit, emit_join, Track, Intent, JoinPayload, act, send, is_connected,
}
use zvonok.Session.Publish.{produce_with_source, reply_with}
use zvonok.Session.Producers.{
  produce_all, unanswered, replay_retained_produces, clear_retained_produces, retain_local_produces,
}
use zvonok.Session.Subscribe.{clear_pending_producers}
use zvonok.Session.Recovery.{
  recoverable, reset_media_state, token_room, join_room, join_request, has_joined_session,
  clear_session, begin_load, finish_load, create_transports, finish_refresh, handle_joined,
  begin_refresh, either, either_options,
}
use zvonok.Session.Facade.{begin_media_reset, finish_media_reset, leave_room, on_disconnected}
use zvonok.Session.Core.{joins, joins-append}
use zvonok.Session.Events.{recoverable-cases}
use zvonok.Session.Answers.{handle_joined-Quiet}
use zvonok.Session.Quiet.{close_all-Keeps}
use zvonok.Session.Broken.{closed-IsBroken, retain_lem, on_disconnected-IsBroken}

leave_room-none : (s : Manager) → (leave_room s).last_join_payload ≡ none
unfolding leave_room clear_session clear_retained_produces
leave_room-none s = (close_all-Keeps (clear_session (send (emit "sfu:leave" "" ∷ []) s))).2

-- A token is put on the payload, and joined with.
abbrev Hijacks : (String → Option Json) → JoinPayload → String → String → Manager → Type 0
Hijacks decode p token room t =
    ((finish_refresh decode (some token) t).last_join_payload
      ≡ some (record p { token = some token }))
    × (joins (finish_refresh decode (some token) t).acts
        ≡ joins t.acts ++ record p { token = some token; room_id = some room } ∷ [])

token_taken :
    (decode : String → Option Json) (p : JoinPayload) (o : Option Bool) (token room : String)
    (s t : Manager)
    → join_room decode p o s ≡ some t
    → token_room decode (some token) ≡ some room
    → Hijacks decode p token room t
unfolding finish_refresh join_room joins
token_taken decode p o token room s t e r = elim (Option-cases s.socket) [
  | inl f ↦ absurd (ground (arith, e, f))
  | inr (c, f) ↦
      let u =
        act (emit_join (join_request decode p) ∷ []) (record s {
          join_options = either_options o s.join_options;
          last_join_payload = some p;
        }) in
      let made : u ≡ t = ground (arith, e, f) in
      let q = record p { token = some token } in
      let same : join_request decode q ≡ record q { room_id = some room } =
        ap (λ z. record q { room_id = either z p.room_id }) r in
      subst (Hijacks decode p token room) made (
        rw f (
          refl,
          joins-append u.acts (emit_join (join_request decode q) ∷ [])
              ∙ ap (λ z. joins u.acts ++ z ∷ []) same,
        ))
]

-- Where a session asks for a new token, the application leaves and joins with another payload, and the token
-- then comes, the token is put on the new payload and the client asks to join the room of the token.
pub late_token_rejoins :
    (decode : String → Option Json) (p : JoinPayload) (o : Option Bool) (token room : String)
    (s t : Manager)
    → join_room decode p o (leave_room (begin_refresh "ROOM_TOKEN_EXPIRED" s)) ≡ some t
    → token_room decode (some token) ≡ some room
    → ((finish_refresh decode (some token) t).last_join_payload
        ≡ some (record p { token = some token }))
      × (joins (finish_refresh decode (some token) t).acts
          ≡ joins t.acts ++ record p { token = some token; room_id = some room } ∷ [])
late_token_rejoins decode p o token room s t e r =
    token_taken decode p o token room (leave_room (begin_refresh "ROOM_TOKEN_EXPIRED" s)) t e r

-- An answer to a join that comes after the client has left establishes a session that cannot be recovered.
pub late_answer_establishes :
    (live : Track → Bool) (router : Json) (user : Option String) (capabilities : List CapabilityId)
    (s : Manager)
    → (has_joined_session (handle_joined live router user capabilities (leave_room s)) ≡ true)
      × (recoverable (handle_joined live router user capabilities (leave_room s)) ≡ none)
unfolding has_joined_session recoverable
late_answer_establishes live router user capabilities s =
    let est : (handle_joined live router user capabilities (leave_room s)).session_established
        ≡ true =
      unfold handle_joined begin_load in refl in
    (
      est,
      rw est
          ((handle_joined-Quiet live router user capabilities (leave_room s)).1
            (leave_room-none s)).0,
    )

-- Without a socket that is connected, nothing is published and nothing is kept to be.
dropped :
    (live : Track → Bool) (es : List Intent) (s : Manager)
    → s.send_transport ≡ none
    → is_connected s ≡ false
    → produce_all live (unanswered es) s ≡ s
unfolding produce_all
dropped live [] s e f = refl
dropped live (i ∷ es) s e f =
    let one : produce_with_source live i none s ≡ s =
      unfold produce_with_source reply_with in ground (arith, e, f) in
    ap (produce_all live (unanswered es)) one ∙ dropped live es s e f

begin_media_reset-recoverable :
    (live : Track → Bool) (router : Json) (room_id : String) (s : Manager) (p : JoinPayload)
    → recoverable s ≡ some p
    → s.socket ≡ some true
    → (recoverable (begin_media_reset live router room_id s) ≡ some p)
      × ((begin_media_reset live router room_id s).socket ≡ some true)
unfolding begin_media_reset begin_load reset_media_state clear_pending_producers recoverable
begin_media_reset-recoverable live router room_id s p e f =
    let P = λ (z : Manager). (recoverable z ≡ some p) × (z.socket ≡ some true) in
    let t = act (tell "room-media-reset" room_id ∷ []) s in
    let u = retain_local_produces live t in
    let (est, last) = recoverable-cases s p e in
    elim_cases P (recoverable s) _ _ (λ m. absurd (ground (arith, e, m)))
      (λ q m.
        let same = retain_lem live t in
        let ((a, b, c, d, g, est', last'), times, sock) =
          closed-IsBroken u.retained p u refl
            (ap (λ (z : Manager). z.session_established) same ∙ est)
            (ap (λ (z : Manager). z.last_join_payload) same ∙ last) in
        (rw est' last', sock ∙ ap (λ (z : Manager). z.socket) same ∙ f))

-- The socket is lost, and nothing is sent or waits to be.
abbrev IsIdle : Manager → Type 0
IsIdle s =
    (s.send_transport ≡ none)
    × (s.socket ≡ some false)
    × (s.pending_local ≡ [])
    × (s.producers ≡ [])
    × (s.in_progress ≡ [])

finish_load-IsIdle : (s : Manager) → IsIdle s → IsIdle (finish_load true s)
unfolding finish_load create_transports send
finish_load-IsIdle s h = elim_cases IsIdle s.socket _ _ (λ e. h) (λ c e. h)

-- Where the socket is lost while the device is loaded for a reset of the room's media, the load then drops
-- what was held to publish again: the client holds, buffers, sends and starts nothing.
pub reset_break_loses :
    (live : Track → Bool) (router : Json) (room_id : String) (s : Manager) (p : JoinPayload)
    → recoverable s ≡ some p
    → s.socket ≡ some true
    → ((finish_media_reset live true
          (on_disconnected live (begin_media_reset live router room_id s))).retained
        ≡ [])
      × ((finish_media_reset live true
            (on_disconnected live (begin_media_reset live router room_id s))).pending_local
          ≡ [])
      × ((finish_media_reset live true
            (on_disconnected live (begin_media_reset live router room_id s))).producers
          ≡ [])
      × ((finish_media_reset live true
            (on_disconnected live (begin_media_reset live router room_id s))).in_progress
          ≡ [])
unfolding finish_media_reset replay_retained_produces
reset_break_loses live router room_id s p e f =
    let (again, up) = begin_media_reset-recoverable live router room_id s p e f in
    let w = begin_media_reset live router room_id s in
    let x = on_disconnected live w in
    let ((a, b, c, d, g, est, last), times, down) =
      on_disconnected-IsBroken live w p true again up in
    let P = λ (z : Manager).
      (z.retained ≡ []) × (z.pending_local ≡ []) × (z.producers ≡ []) × (z.in_progress ≡ []) in
    let y = finish_load true x in
    let z = record y { retained = [] } in
    let (g', down', b', c', d') = finish_load-IsIdle x (g, down, b, c, d) in
    subst P (sym (dropped live y.retained z g' (unfold is_connected in rw down' refl)))
      (refl, b', c', d')
