-- ===== src/Presence/Join.antt =====
-- `join` of apps/server/src/sfu/room-presence.service.ts. The code awaits the database between the
-- check of the lock and the rest, so the rest, `admit`, is a function of its own.
use zvonok.Prelude.{
  String, Bool, true, false, Option, none, some, List, [], ◌∷◌, ◌++◌, ite, if◌then◌else◌, not, ◌&&◌,
  str_dec, truthy, or_else, is_some, Map, get, put, remove, set_at, has, add, with_colon,
}
use zvonok.Capabilities.{capabilities_for_role, host, participant}
use zvonok.Auth.Jwt.{Services}
use zvonok.Auth.RoomToken.{verify, ok, failed, expired, invalid}
use zvonok.Auth.Identity.{RoomSocketIdentity, Handshake, user, guest, resolve_room_socket_identity}
use zvonok.Presence.State.{
  State, PresenceRecord, HeldSeat, Participant, JoinErrorCode, Event, join_error, peer_joined,
  existing_peers, emit, socket_join, clear_timer, webhook, room_token_invalid, room_token_expired,
  room_token_room_mismatch, sfu_join_unauthorized, sfu_join_forbidden, kicked_from_room, send,
  participant_of,
}
use zvonok.Presence.State
use zvonok.Presence.Rooms.{
  list_peer_sockets, slugs_of, nonempty, room_has_held_seat, unindex_held_seat, fan_out_effects,
}

-- The rows that the join reads, by their ids.
pub record Room : Type 0 where
  pub slug : String
  pub owner_id : Option String

pub record Database : Type 0 where
  -- An API key, with the time of its revocation.
  pub api_key : String → Option (Option String)
  pub room : String → Option Room
  pub username : String → Option String

pub record SfuJoinPayload : Type 0 where
  pub room_id : String
  pub room_slug : Option String
  pub token : Option String

pub data Resolved : Type 0 where
  resolved : PresenceRecord → Resolved
  refused : JoinErrorCode → String → Resolved

unfoldable pub resolve_token_record :
    Services → Database → Handshake → SfuJoinPayload → String → Resolved
resolve_token_record svc db h p token = elim (verify svc token) [
  | failed code ↦ elim code [
    | expired ↦ refused room_token_expired "Room token is not valid"
    | invalid ↦ refused room_token_invalid "Room token is not valid"
  ]
  | ok claims ↦
      ite (str_dec claims.room_id p.room_id)
        (elim (db.api_key claims.key_id) [
          | none ↦ refused room_token_invalid "API key is not active"
          | some revoked_at ↦
              if is_some (truthy revoked_at)
              then refused room_token_invalid "API key is not active"
              else resolved (record {
                socket_id = h.socket_id;
                room_id = p.room_id;
                user_id = claims.participant_id;
                username = claims.name;
                external_id = claims.external_id;
                metadata = claims.metadata;
                capabilities = capabilities_for_role claims.role;
                owns_room = false;
              })
        ])
        (refused room_token_room_mismatch "Room token was minted for a different room")
]

owns : Option String → String → Bool
owns none id = false
owns (some owner) id = ite (str_dec owner id) true false

unfoldable pub record_of_identity :
    Database → Handshake → SfuJoinPayload → Room → RoomSocketIdentity → Resolved
unfolding owns
record_of_identity db h p room (guest guest_id room_slug display_name) =
    ite (str_dec room_slug room.slug)
      (resolved (record {
        socket_id = h.socket_id;
        room_id = p.room_id;
        user_id = guest_id;
        username = display_name;
        external_id = none;
        metadata = none;
        capabilities = capabilities_for_role participant;
        owns_room = false;
      }))
      (refused sfu_join_forbidden "Guest token was issued for a different room")
record_of_identity db h p room (user id) = elim (db.username id) [
  | none ↦ refused sfu_join_unauthorized "Account not found"
  | some name ↦ resolved (record {
    socket_id = h.socket_id;
    room_id = p.room_id;
    user_id = id;
    username = name;
    external_id = none;
    metadata = none;
    capabilities = capabilities_for_role (if owns room.owner_id id then host else participant);
    owns_room = owns room.owner_id id;
  })
]

unfoldable pub resolve_handshake_record :
    Services → Database → Handshake → SfuJoinPayload → Resolved
resolve_handshake_record svc db h p =
    let client_url = or_else (truthy (svc.config "CLIENT_URL")) "http://localhost:5173" in
    elim (resolve_room_socket_identity svc h (client_url ∷ [])) [
      | none ↦
          refused sfu_join_unauthorized "Join requires an authenticated session or a room token"
      | some identity ↦ elim (db.room p.room_id) [
        | none ↦ refused sfu_join_forbidden "Room not found"
        | some room ↦ record_of_identity db h p room identity
      ]
    ]

unfoldable pub resolve_record : Services → Database → Handshake → SfuJoinPayload → Resolved
resolve_record svc db h p = elim (truthy p.token) [
  | some token ↦ resolve_token_record svc db h p token
  | none ↦ resolve_handshake_record svc db h p
]

pub record PresenceJoinOutcome : Type 0 where
  pub peer : PresenceRecord
  pub restored_seat : Bool

abbrev pub emit_join_error : State → String → JoinErrorCode → String → State
emit_join_error s sid code message = send (emit sid (join_error code message) ∷ []) s

-- A seat that is still held for the same participant is given back.
unfoldable pub restore_seat : State → String → String → State
restore_seat s room key = elim (get key s.held_seats) [
  | none ↦ s
  | some seat ↦
      unindex_held_seat
        (send (clear_timer seat.timer ∷ []) (record s { held_seats = remove key s.held_seats }))
        room key
]

put_slug : String → Option String → State → State
put_slug room none s = s
put_slug room (some slug) s = record s {
  slug_to_room_id = put slug room s.slug_to_room_id;
  room_id_to_slugs = put room (add slug (slugs_of s room)) s.room_id_to_slugs;
}

-- The maps after the join, and the adapter room of the socket.
unfoldable pub register : State → String → PresenceRecord → Option String → State
unfolding put_slug
register s sid r room_slug = send (socket_join sid r.room_id ∷ []) (
    put_slug r.room_id (truthy room_slug) (record s {
      records = put r.socket_id r s.records;
      rooms = put r.room_id (add r.socket_id (list_peer_sockets s r.room_id)) s.rooms;
      room_owners = if r.owns_room then put r.room_id r.user_id s.room_owners else s.room_owners;
    }))

unfoldable pub others : Map PresenceRecord → String → List String → List Participant
others records sid [] = []
others records sid (x ∷ xs) =
    let rest = others records sid xs in
    ite (str_dec x sid) rest
      (elim (get x records) [ none ↦ rest | some r ↦ participant_of r ∷ rest ])

unfoldable pub tell_existing : String → List Participant → List State.Effect
tell_existing sid [] = []
tell_existing sid (p ∷ ps) = emit sid (existing_peers (p ∷ ps)) ∷ []

-- The announcements and the webhooks of a join.
unfoldable pub announce_join : State → String → PresenceRecord → Option String → Bool → Bool → State
unfolding others tell_existing
announce_join s sid r room_slug first_peer restored =
    send
      ((if restored
          then []
          else fan_out_effects s r.room_id (peer_joined (participant_of r)) (some sid))
        ++ (tell_existing sid (others s.records sid (list_peer_sockets s r.room_id))
            ++ ((if first_peer
                  then webhook (State.Webhook.room_started r.room_id room_slug) ∷ []
                  else [])
                ++ (if restored
                    then []
                    else webhook
                        (State.Webhook.participant_joined r.room_id room_slug (participant_of r))
                      ∷ []))))
      s

abbrev pub seat_key : String → String → String
seat_key room user_id = with_colon room user_id

abbrev pub is_kicked : State → String → String → Bool
is_kicked s room user_id = has user_id (set_at s.kicked_users room)

unfoldable pub admit :
    State → String → Option String → PresenceRecord → State × Option PresenceJoinOutcome
admit s sid room_slug r =
    let key = seat_key r.room_id r.user_id in
    let restored = is_some (get key s.held_seats) in
    let t = restore_seat s r.room_id key in
    let first_peer =
      not (nonempty (list_peer_sockets t r.room_id)) && not (room_has_held_seat t r.room_id) in
    if is_kicked s r.room_id r.user_id
    then (emit_join_error s sid kicked_from_room "Removed from the room by the host", none)
    else (
      announce_join (register t sid r room_slug) sid r room_slug first_peer restored,
      some (record { peer = r; restored_seat = restored }),
    )

unfoldable pub join :
    Services → Database → State → Handshake → SfuJoinPayload → State × Option PresenceJoinOutcome
join svc db s h p =
    if or_else (get p.room_id s.room_locks) false
    then (
      emit_join_error s h.socket_id State.JoinErrorCode.room_locked "Room is locked by the host",
      none,
    )
    else elim (resolve_record svc db h p) [
      | refused code message ↦ (emit_join_error s h.socket_id code message, none)
      | resolved r ↦ admit s h.socket_id p.room_slug r
    ]
