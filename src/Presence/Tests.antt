-- ===== src/Presence/Tests.antt =====
-- A room with a host and a guest, and the theorems of this component at it.
use package.text.Mathlib.TextEquality.{eq_iff}
use zvonok.Prelude.{
  String, ◌≡◌, ◌≢◌, refl, inl, true, false, none, some, [], ◌∷◌, arith, str_dec, truthy, get, put,
  remove, has, add, discard, colon_free, with_colon, modify, remove_all,
}
use zvonok.Capabilities.{host, participant, capabilities_for_role, includes, CapabilityId-discrete}
use zvonok.Json.{text, object, end, field, property, is_plain_object, as_text}
use zvonok.Auth.Jwt.{Services, payload, throws}
use zvonok.Auth.Cookies.{extract_guest_slug_from_cookie}
use zvonok.Auth.Identity.{Handshake, resolve_token, resolve_room_socket_identity}
use zvonok.Presence.State.{State, PresenceRecord, HeldSeat, Effect, init, webhook, room_started}
use zvonok.Presence.State
use zvonok.Presence.Rooms.{
  room_has_held_seat, find_room_slug, deliveries, fan_out_effects, emit_to_peer, index_held_seat,
  unindex, run_handlers, notify_room_closed, drop_record, detach_peer, forget_room,
  cleanup_room_if_empty, announce_left, depart,
}
use zvonok.Presence.Join.{
  Database, SfuJoinPayload, restore_seat, others, tell_existing, register, announce_join, admit,
  join, seat_key, resolve_record, resolve_handshake_record, record_of_identity,
}
use zvonok.Presence.Control.{
  ok, enter_seat, hold_seat, expire_held_seat, find_user, mark_kicked, remove_target, requester_of,
  kick_in, kick, set_lock, lock_room, end_lifetime, depart_all, end_room,
}
use zvonok.Presence.Members.{IsRoomId}
use zvonok.Presence.Invariant.{IsValid, init-IsValid}
use zvonok.Presence.Reach.{admit-IsValid, Reach, here, next, admits, holds, Reach-IsValid}
use zvonok.Presence.Moderation.{KickedBy, kick_authorised}
use zvonok.Presence.Locks.{lock_refuses_joins}
use zvonok.Presence.Ending.{IsEnded, end_room_clears}
use zvonok.Presence.Grace.{Restores, sole_rejoin_restarts}
use zvonok.Presence.Expiry.{expire_announces}
use zvonok.Presence.Authority.{MayRemove, removers_authorised}
use zvonok.Presence.Moves.{second_room_stays_member}

r1_not_r2 : ◌≢◌ {A = String} "r1" "r2"
r1_not_r2 = ground (arith, eq_iff "r1" "r2")

program : Unit {0}
unfolding get put remove has add discard modify remove_all str_dec truthy with_colon includes
    capabilities_for_role CapabilityId-discrete room_has_held_seat find_room_slug deliveries
    fan_out_effects emit_to_peer index_held_seat unindex run_handlers notify_room_closed drop_record
    detach_peer forget_room cleanup_room_if_empty announce_left depart restore_seat others
    tell_existing register announce_join admit join enter_seat hold_seat expire_held_seat find_user
    mark_kicked remove_target requester_of kick_in kick set_lock lock_room end_lifetime depart_all
    end_room
program = tt

resolutions : Unit {0}
unfolding resolve_record resolve_handshake_record record_of_identity resolve_room_socket_identity
    resolve_token extract_guest_slug_from_cookie property is_plain_object as_text
resolutions = tt

abbrev ada : PresenceRecord
ada = record {
  socket_id = "s1";
  room_id = "r1";
  user_id = "ada";
  username = "Ada";
  external_id = none;
  metadata = none;
  capabilities = capabilities_for_role host;
  owns_room = true;
}

abbrev bob : PresenceRecord
bob = record ada {
  socket_id = "s2";
  user_id = "bob";
  username = "Bob";
  capabilities = capabilities_for_role participant;
  owns_room = false;
}

abbrev sole : State
sole = (admit init "s1" (some "daily") ada).0

abbrev both : State
both = (admit sole "s2" (some "daily") bob).0

r1-IsRoomId : IsRoomId "r1"
unfolding colon_free
r1-IsRoomId = record { filled = λ e. cc; plain = refl }

sole-IsValid : IsValid sole
unfolding program
sole-IsValid = admit-IsValid init "s1" (some "daily") ada (r1-IsRoomId, inl refl) init-IsValid

both-IsValid : IsValid both
unfolding program
both-IsValid = admit-IsValid sole "s2" (some "daily") bob (r1-IsRoomId, inl refl) sole-IsValid

dropped : Reach init (hold_seat sole "s1")
unfolding program
dropped =
    next (next here (admits init "s1" (some "daily") ada (r1-IsRoomId, inl refl))) (holds sole "s1")

Reach-IsValid_example : IsValid (hold_seat sole "s1")
Reach-IsValid_example = Reach-IsValid init-IsValid dropped

kick_authorised_example : KickedBy both (kick both "s1" "bob").0 "s1" "bob"
unfolding program
kick_authorised_example = kick_authorised both (kick both "s1" "bob").0 "s1" "bob" both-IsValid refl

abbrev no_services : Services
no_services = record { verify = λ t k. throws "JsonWebTokenError"; config = λ k. none }

abbrev no_rows : Database
no_rows = record { api_key = λ k. none; room = λ k. none; username = λ k. none }

abbrev nobody : Handshake
nobody = record { socket_id = "s9"; auth_token = none; origin = none; cookie = none }

abbrev to_r1 : SfuJoinPayload
to_r1 = record { room_id = "r1"; room_slug = none; token = none }

lock_refuses_joins_example :
    lock_room (lock_room both "s1" true).0 "s1" true ≡ ((lock_room both "s1" true).0, ok)
unfolding program
lock_refuses_joins_example =
    (lock_refuses_joins both (lock_room both "s1" true).0 "s1" ada no_services no_rows nobody to_r1
      refl refl refl).2

end_room_clears_example : IsEnded (end_room both "r1") "r1"
end_room_clears_example = end_room_clears both "r1" both-IsValid

sole_rejoin_restarts_example :
    Restores
      (hold_seat sole "s1")
      "s3"
      none
      ada
      sole.next_timer
      (webhook (room_started "r1" none) ∷ [])
unfolding program
sole_rejoin_restarts_example =
    sole_rejoin_restarts sole "s1" "s3" none ada ada sole-IsValid refl refl refl refl refl refl

abbrev adas_seat : HeldSeat
adas_seat = record {
  room_id = "r1";
  socket_id = "s1";
  participant = State.participant_of ada;
  timer = 0;
}

expire_announces_example :
    get
      (seat_key "r1" "ada")
      (expire_held_seat (hold_seat sole "s1") (seat_key "r1" "ada")).held_seats
    ≡ none
unfolding program
expire_announces_example =
    (expire_announces (hold_seat sole "s1") (seat_key "r1" "ada") adas_seat refl).0

second_room_stays_member_example :
    ¬ IsValid (admit sole "s1" none (record ada { room_id = "r2" })).0
unfolding program
second_room_stays_member_example =
    (second_room_stays_member sole "s1" none (record ada { room_id = "r2" }) ada sole-IsValid refl
      r1_not_r2 refl).2

abbrev adas_login : Services
adas_login = record {
  verify = λ t k. payload (object (field "id" (text "ada") end));
  config = λ k. none;
}

abbrev one_row : Database
one_row = record {
  api_key = λ k. none;
  room = λ k. some (record { slug = "daily"; owner_id = some "ada" });
  username = λ k. some "Ada";
}

abbrev adas_page : Handshake
adas_page = record { socket_id = "s1"; auth_token = some "jwt"; origin = none; cookie = none }

removers_authorised_example : MayRemove adas_login one_row adas_page to_r1 "ada"
unfolding program resolutions
removers_authorised_example = removers_authorised adas_login one_row adas_page to_r1 ada refl refl
