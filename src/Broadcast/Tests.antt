-- ===== src/Broadcast/Tests.antt =====
-- The theorems of this part in a room with two members.
use zvonok.Prelude.{ℕ, false, none, some, str_dec, get, put, has, add, truthy, with_colon}
use zvonok.Json.{Json, text, as_text}
use zvonok.Capabilities.{participant, capabilities_for_role, includes, CapabilityId-discrete}
use zvonok.Presence.State.{State, PresenceRecord, init}
use zvonok.Presence.Rooms.{room_has_held_seat, find_room_slug, deliveries, fan_out_effects}
use zvonok.Presence.Join.{admit, restore_seat, register, others, tell_existing, announce_join}
use zvonok.Broadcast.{
  BroadcastPayload, broadcast, topic_of, fits, valid_topic, topic_within, in_topic,
}
use zvonok.Broadcast.Reach.{is_sent}

program : Unit {0}
unfolding as_text get put has add str_dec truthy with_colon includes capabilities_for_role
    CapabilityId-discrete room_has_held_seat find_room_slug deliveries fan_out_effects restore_seat
    others tell_existing register announce_join admit broadcast topic_of fits valid_topic
    topic_within in_topic is_sent
program = tt

abbrev ada : PresenceRecord
ada = record {
  socket_id = "s1";
  room_id = "r1";
  user_id = "ada";
  username = "Ada";
  external_id = none;
  metadata = none;
  capabilities = capabilities_for_role participant;
  owns_room = false;
}

abbrev both : State
both =
    (admit (admit init "s1" none ada).0 "s2" none
      (record ada { socket_id = "s2"; user_id = "bob"; username = "Bob" })).0

abbrev hello : BroadcastPayload
hello = record { topic = some (text "chat.v1"); payload = some (text "hello") }

abbrev seven : Json → ℕ
seven v = 7
