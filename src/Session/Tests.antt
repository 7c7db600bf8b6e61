-- ===== src/Session/Tests.antt =====
-- A client with a microphone and a camera, and the theorems of this part at it.
use zvonok.Prelude.{
  String, ◌≡◌, refl, Bool, true, false, none, some, Option, [], ◌∷◌, ◌++◌, arith, get, str_dec,
  truthy,
}
use zvonok.Json.{Json, null, text, object, field, end, property, is_plain_object, as_text}
use zvonok.Client.Registry.{audio, video, camera}
use zvonok.Session.State.{
  Manager, fresh, Track, Intent, JoinPayload, produced, settle, send, has_provider,
}
use zvonok.Session.Publish.{
  produce_with_source, finish_flight, existing_producer, get_producer_by_kind, get_screen_producer,
  find_producer, is_screen, caught,
}
use zvonok.Session.Producers.{settle_pending, close_publishing, clear_retained_produces}
use zvonok.Session.Subscribe.{close_consumers}
use zvonok.Session.Recovery.{
  recoverable, join_room, finish_refresh, token_room, read_room_id_from_token, second_part,
  before_dot, normalized, sub_of, begin_refresh, clear_session, close_all, or_same,
}
use zvonok.Session.Facade.{
  connect, leave_room, on_connected, on_disconnected, begin_media_reset, finish_media_reset,
}
use zvonok.Session.Core.{joins}
use zvonok.Session.Sound.{IsSound}
use zvonok.Session.Runs.{connects, socket_up, happens, here, next, Run-IsSound}
use zvonok.Session.Queue.{call_for}
use zvonok.Session.Races.{late_token_rejoins, reset_break_loses}
use zvonok.Session.Sharing.{shared_flight}

abbrev mic : Track
mic = record { id = 1; kind = audio }

abbrev cam : Track
cam = record { id = 2; kind = video }

abbrev all_live : Track → Bool
all_live t = true

abbrev payload : JoinPayload
payload = record { room_id = some "r1"; room_slug = none; token = none }

-- The text of a token's claims is not read.
abbrev reads : String → Option Json
reads part = some (object (field "sub" (text "r1") end))

abbrev in_call : Manager
in_call = record fresh {
  socket = some true;
  has_device = true;
  send_transport = some "t1";
  producers =
      ("a", record { kind = audio; source = none; track = some mic })
      ∷ ("v", record { kind = video; source = some camera; track = some cam })
      ∷ [];
  last_join_payload = some payload;
  session_established = true;
  join_options = some true;
}

fresh-IsSound : IsSound fresh
fresh-IsSound = ((λ e. refl, λ e. refl), λ e. (refl, refl), omega arith, λ t e. refl, omega arith)

Run-IsSound_example : IsSound (on_connected reads 5 (connect fresh))
Run-IsSound_example =
    Run-IsSound fresh-IsSound
      (next (next here (happens (connects fresh))) (happens (socket_up (connect fresh) reads 5)))

abbrev elsewhere : JoinPayload
elsewhere = record { room_id = some "r2"; room_slug = none; token = none }

running : Unit {0}
unfolding join_room leave_room begin_refresh has_provider send close_all close_publishing
    settle_pending close_consumers clear_session clear_retained_produces recoverable
running = tt

parsing : Unit {0}
unfolding read_room_id_from_token second_part before_dot normalized sub_of truthy is_plain_object
    property as_text str_dec
parsing = tt

abbrev moved : Manager
moved =
    or_same in_call
      (join_room reads elsewhere none (leave_room (begin_refresh "ROOM_TOKEN_EXPIRED" in_call)))

moved_lem :
    join_room reads elsewhere none (leave_room (begin_refresh "ROOM_TOKEN_EXPIRED" in_call))
    ≡ some moved
unfolding running
moved_lem = refl

old_room : token_room reads (some "a.b.c") ≡ some "r1"
unfolding parsing
old_room = refl

late_token_rejoins_example :
    joins (finish_refresh reads (some "a.b.c") moved).acts
    ≡ joins moved.acts ++ record elsewhere { token = some "a.b.c"; room_id = some "r1" } ∷ []
late_token_rejoins_example =
    (late_token_rejoins reads elsewhere none "a.b.c" "r1" in_call moved moved_lem old_room).1

reset_break_loses_example :
    (finish_media_reset all_live true
      (on_disconnected all_live (begin_media_reset all_live null "r1" in_call))).retained
    ≡ []
unfolding running
reset_break_loses_example = (reset_break_loses all_live null "r1" in_call payload refl refl).0

abbrev silent_call : Manager
silent_call = record in_call { producers = [] }

abbrev speak : Intent
speak = record { track = mic; source = none; is_mobile = false }

looking : Unit {0}
unfolding existing_producer get_producer_by_kind get_screen_producer find_producer is_screen get
looking = tt

shared_flight_example :
    (finish_flight 0 (produced "a") (
      produce_with_source all_live speak
        (some 9)
        (produce_with_source all_live speak (some 8) silent_call))).acts
    ≡ call_for "t1" 0 speak
      ∷ settle 8 (caught (produced "a"))
      ∷ settle 9 (caught (produced "a"))
      ∷ []
unfolding looking
shared_flight_example =
    shared_flight all_live all_live speak speak 8 9 "t1" (produced "a") silent_call refl refl refl
      refl refl
