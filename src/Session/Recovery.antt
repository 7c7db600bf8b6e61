-- ===== src/Session/Recovery.antt =====
-- packages/client/src/sfu/session.ts: the join and the recovery of a session, with the teardown of
-- manager.ts. `decode` is `atob` and `JSON.parse`.
use Prim.Native.Char.{Char, code}
use zvonok.Prelude.{
  ℕ, ◌-◌, String, Bool, true, false, not, ◌||◌, Option, none, some, List, [], ◌∷◌, ◌++◌,
  if◌then◌else◌, ltb, leb, ◌==◌, length, truthy,
}
use zvonok.Json.{Json, property, is_plain_object, as_text}
use zvonok.Capabilities.{CapabilityId}
use zvonok.Session.State.{
  Manager, SfuState, ConnectionState, connected, connecting, reconnecting, failed, Track,
  JoinPayload, Act, emit, emit_join, close_transport, tell, load_device as load_call, ask_token,
  act, send, has_provider,
}
use zvonok.Session.Producers.{
  with_state, retain_local_produces, replay_retained_produces, clear_retained_produces,
  close_publishing,
}
use zvonok.Session.Subscribe.{close_consumers, clear_pending_producers}

-- Times in milliseconds.
abbrev pub rejoin_window_ms : ℕ
rejoin_window_ms = 30000

abbrev pub rejoin_max_per_window : ℕ
rejoin_max_per_window = 5

unfoldable pub before_dot : String → String
before_dot String.[] = ""
before_dot (String.◌∷◌ c s) =
    let rest = before_dot s in if code c == b'.' then "" else String.◌∷◌ c rest

-- `split(".")[1]`.
unfoldable pub second_part : String → Option String
second_part String.[] = none
second_part (String.◌∷◌ c s) = if code c == b'.' then some (before_dot s) else second_part s

abbrev standard_char : Char → Char
standard_char c = if code c == b'-' then "+" else if code c == b'_' then "/" else c

unfoldable pub normalized : String → String
normalized String.[] = ""
normalized (String.◌∷◌ c s) = String.◌∷◌ (standard_char c) (normalized s)

unfoldable pub sub_of : Option Json → Option String
sub_of none = none
sub_of (some payload) = elim (is_plain_object payload) [
  | none ↦ none
  | some fields ↦ truthy (as_text (property "sub" fields))
]

unfoldable pub read_room_id_from_token : (String → Option Json) → String → Option String
read_room_id_from_token decode token = elim (truthy (second_part token)) [
  | none ↦ none
  | some part ↦ sub_of (decode (normalized part))
]

abbrev pub token_room : (String → Option Json) → Option String → Option String
token_room decode token = elim (truthy token) [
  | none ↦ none
  | some t ↦ read_room_id_from_token decode t
]

abbrev pub either : Option String → Option String → Option String
either (some x) y = some x
either none y = y

abbrev pub join_request : (String → Option Json) → JoinPayload → JoinPayload
join_request decode payload = record payload {
  room_id = either (token_room decode payload.token) payload.room_id;
}

abbrev pub either_options : Option Bool → Option Bool → Option Bool
either_options (some x) y = some x
either_options none y = y

-- `none` where it throws: there is no socket.
unfoldable pub join_room :
    (String → Option Json) → JoinPayload → Option Bool → Manager → Option Manager
join_room decode payload options s = elim s.socket [
  | none ↦ none
  | some c ↦ some (
      act (emit_join (join_request decode payload) ∷ []) (record s {
        join_options = either_options options s.join_options;
        last_join_payload = some payload;
      }))
]

unfoldable pub has_joined_session : Manager → Bool
has_joined_session s = s.session_established

-- The payload to join with again, where a session can be recovered.
unfoldable pub recoverable : Manager → Option JoinPayload
recoverable s = if s.session_established then s.last_join_payload else none

abbrev pub show_connection : ConnectionState → Manager → Manager
show_connection c = with_state (λ st. record st { connection_state = c })

abbrev pub close_calls_of : Option String → List Act
close_calls_of none = []
close_calls_of (some t) = close_transport t ∷ []

abbrev pub without_producers : SfuState → SfuState
without_producers st = record st {
  audio_producer_id = none;
  video_producer_id = none;
  screen_producer_id = none;
  is_screen_share_blocked = false;
}

unfoldable pub close_all : Manager → Manager
close_all s =
    let t = close_consumers (close_publishing s) in
    with_state without_producers (
      act (close_calls_of t.send_transport ++ close_calls_of t.recv_transport)
        (record t { send_transport = none; recv_transport = none; registry = [] }))

unfoldable pub reset_media_state : Manager → Manager
reset_media_state s = clear_pending_producers (record s { has_device = false })

unfoldable pub clear_session : Manager → Manager
clear_session s = clear_retained_produces (record s {
  session_established = false;
  last_join_payload = none;
  token_refresh_attempted = false;
  rejoin_times = [];
})

-- Who is told of a recovery that failed, and the code.
unfoldable pub fail_recovery : String → String → Manager → Manager
fail_recovery whom error s =
    act (tell whom error ∷ []) (show_connection failed (close_all (clear_session s)))

unfoldable pub filter_recent : ℕ → List ℕ → List ℕ
filter_recent now [] = []
filter_recent now (t ∷ ts) =
    let rest = filter_recent now ts in if ltb (now - t) rejoin_window_ms then t ∷ rest else rest

-- The times that count, and whether one more may be added to them.
unfoldable pub allow_rejoin : ℕ → List ℕ → List ℕ × Bool
allow_rejoin now times =
    let recent = filter_recent now times in
    if leb rejoin_max_per_window (length recent)
    then (recent, false)
    else (recent ++ now ∷ [], true)

abbrev pub or_same : Manager → Option Manager → Manager
or_same s none = s
or_same s (some t) = t

unfoldable pub rejoin : (String → Option Json) → ℕ → JoinPayload → Manager → Manager
rejoin decode now payload s =
    let (times, allowed) = allow_rejoin now s.rejoin_times in
    let t = record s { rejoin_times = times } in
    let u = record t { token_refresh_attempted = false } in
    if allowed
    then or_same u (join_room decode payload none u)
    else fail_recovery "reconnect-error" "RECONNECT_EXHAUSTED" t

unfoldable pub handle_connected : (String → Option Json) → ℕ → Manager → Manager
handle_connected decode now s = elim (recoverable s) [
  | some payload ↦ rejoin decode now payload s
  | none ↦ show_connection connected s
]

unfoldable pub handle_disconnected : (Track → Bool) → Manager → Manager
handle_disconnected live s = elim (recoverable s) [
  | some payload ↦
      reset_media_state (close_all (retain_local_produces live (show_connection reconnecting s)))
  | none ↦ reset_media_state (close_all (show_connection connecting s))
]

unfoldable pub handle_reconnect_failed : Manager → Manager
handle_reconnect_failed s = elim (recoverable s) [
  | some payload ↦ fail_recovery "reconnect-error" "RECONNECT_EXHAUSTED" s
  | none ↦ show_connection failed s
]

-- `loadDevice` up to its await.
unfoldable pub begin_load : Json → Manager → Manager
begin_load router s = act (load_call router ∷ []) (record s { has_device = true })

unfoldable pub create_transports : Manager → Manager
create_transports s =
    send (emit "sfu:create-send-transport" "" ∷ emit "sfu:create-recv-transport" "" ∷ []) s

-- `loadDevice` after its await, where the device was loaded or was not.
unfoldable pub finish_load : Bool → Manager → Manager
finish_load true s = create_transports s
finish_load false s = show_connection failed s

unfoldable pub recovered : (Track → Bool) → Manager → Manager
recovered live s =
    if s.session_established then replay_retained_produces live (show_connection connected s) else s

unfoldable pub handle_joined :
    (Track → Bool) → Json → Option String → List CapabilityId → Manager → Manager
handle_joined live router user_id capabilities s =
    let t =
      with_state (λ st. record st { capabilities = capabilities })
        (record s { local_user_id = user_id }) in
    begin_load router (record (recovered live t) { session_established = true })

-- `refreshTokenAndRejoin` up to its await.
unfoldable pub begin_refresh : String → Manager → Manager
begin_refresh code s =
    if not (has_provider s) || s.token_refresh_attempted
    then fail_recovery "join-error" code s
    else act (ask_token ∷ []) (record s { token_refresh_attempted = true })

abbrev pub or_expired : Manager → Option Manager → Manager
or_expired s none = fail_recovery "join-error" "ROOM_TOKEN_EXPIRED" s
or_expired s (some t) = t

-- `refreshTokenAndRejoin` after its await, with the provider's token or its failure.
unfoldable pub finish_refresh : (String → Option Json) → Option String → Manager → Manager
finish_refresh decode none s = fail_recovery "join-error" "ROOM_TOKEN_EXPIRED" s
finish_refresh decode (some token) s = elim s.last_join_payload [
  | none ↦ s
  | some payload ↦
      let renewed = record payload { token = some token } in
      let t = record s { last_join_payload = some renewed } in
      or_expired t (join_room decode renewed none t)
]
