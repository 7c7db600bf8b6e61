-- ===== src/Media/Tests.antt =====
-- Two members who publish, and the theorems of this part at them.
use package.text.Mathlib.TextEquality.{eq_iff}
use zvonok.Prelude.{
  String, ◌≢◌, refl, subst, true, false, none, some, [], ◌∷◌, arith, str_dec, truthy, get, put,
  remove, has, add, discard, modify,
}
use zvonok.Capabilities.{host, participant, capabilities_for_role, includes, CapabilityId-discrete}
use zvonok.Presence.State.{PresenceRecord, init}
use zvonok.Presence.Rooms.{fan_out_effects, deliveries, emit_to_peer}
use zvonok.Media.Pool.{Pool}
use zvonok.Media.State.{Sfu, MediaPeer, new_peer, audio, video, Source, is_screen}
use zvonok.Media.Producers.{
  ProducePayload, source_of, required, is_shared_by_other, produce_checks, begin_produce,
  finish_produce, create_producer, Producing,
}
use zvonok.Media.Screens.{Shares, screen_race}
use zvonok.Media.Sessions.{detach_handler, listens, leave_room}
use zvonok.Media.Attached.{IsAttached, IsKnown}
use zvonok.Media.Reach.{here, next, produces, leaves, Run-IsAttached}

s1_not_s2 : ◌≢◌ {A = String} "s1" "s2"
s1_not_s2 = ground (arith, eq_iff "s1" "s2")

r1_filled : ◌≢◌ {A = String} "r1" ""
r1_filled = ground (arith, eq_iff "r1" "")

program : Unit {0}
unfolding get put remove has add discard modify str_dec truthy includes capabilities_for_role
    CapabilityId-discrete fan_out_effects deliveries emit_to_peer is_screen source_of required
    is_shared_by_other produce_checks begin_produce
program = tt

abbrev ada : PresenceRecord
ada = record {
  socket_id = "s1";
  room_id = "r1";
  user_id = "ada";
  username = "Ada";
  external_id = none;
  metadata = none;
  capabilities = capabilities_for_role host;
  owns_room = true;
}

abbrev bob : PresenceRecord
bob = record ada {
  socket_id = "s2";
  user_id = "bob";
  username = "Bob";
  capabilities = capabilities_for_role participant;
  owns_room = false;
}

abbrev two_workers : Pool
two_workers = record {
  entries = record { pid = 7; room_ids = "r1" ∷ [] } ∷ record { pid = 8; room_ids = [] } ∷ [];
  routers = [];
  is_closing = false;
}

abbrev peer_of : String → MediaPeer
peer_of id = record new_peer {
  send_transport = some id;
  producers = ("m", record { id = "m"; kind = audio; source = Source.camera; paused = false }) ∷ [];
}

abbrev meeting : Sfu
meeting = record {
  presence = record init {
    records = ("s1", ada) ∷ ("s2", bob) ∷ [];
    rooms = ("r1", "s1" ∷ "s2" ∷ []) ∷ [];
  };
  media = ("s1", peer_of "t1") ∷ ("s2", peer_of "t2") ∷ [];
  room_screen_share = [];
  tap_handlers = [];
  router_rooms = "r1" ∷ [];
  pool = two_workers;
  calls = [];
}

abbrev screen_of : String → ProducePayload
screen_of transport = record {
  request_id = "q";
  transport_id = transport;
  kind = video;
  source = some Source.screen;
}

abbrev adas : Producing
adas = record { sid = "s1"; context = ada; payload = screen_of "t1"; source = Source.screen }

abbrev bobs : Producing
bobs = record { sid = "s2"; context = bob; payload = screen_of "t2"; source = Source.screen }

screen_race_example :
    Shares (finish_produce bobs (some "y") (finish_produce adas (some "x") meeting)) "s1" "x"
unfolding program
screen_race_example =
    (screen_race meeting "s1" "s2" (screen_of "t1") (screen_of "t2") adas bobs "x" "y" refl refl
      refl refl s1_not_s2 refl).0

abbrev watched : Sfu
watched = record meeting {
  presence = record meeting.presence { peer_detach_handlers = ("s1", detach_handler ∷ []) ∷ [] };
  media = ("s1", peer_of "t1") ∷ [];
}

watched-IsAttached : IsAttached watched
unfolding get str_dec listens
watched-IsAttached x peer m = elim (str_dec "s1" x) [
  | yes e ↦ subst (λ z. IsKnown z watched.presence) e (ada, refl, r1_filled, refl)
  | no n ↦ absurd (ground (arith, m, n))
]

Run-IsAttached_example :
    IsAttached (leave_room "s1" (create_producer watched "s1" (screen_of "t1") (some "x")))
Run-IsAttached_example = Run-IsAttached watched-IsAttached (
    next (next here (produces watched "s1" (screen_of "t1") (some "x")))
      (leaves (create_producer watched "s1" (screen_of "t1") (some "x")) "s1"))
