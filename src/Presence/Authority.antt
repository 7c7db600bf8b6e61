-- ===== src/Presence/Authority.antt =====
-- Where the capabilities of a participant come from: the resolvers of
-- apps/server/src/sfu/room-presence.service.ts.
use zvonok.Prelude.{
  String, ◌≡◌, ◌⊎◌, ◌∙◌, sym, ap, inl, inr, refl, true, false, Option, none, some, [], ◌∷◌, arith,
  Option-cases, truthy, is_some, or_else,
}
use zvonok.Capabilities.{
  ParticipantRole, host, participant, viewer, includes, capabilities_for_role,
  CapabilityId-discrete, remove_participants,
}
use zvonok.Auth.Jwt.{Services}
use zvonok.Auth.RoomToken.{
  RoomTokenVerifyResult, RoomTokenClaims, RoomTokenFailureCode, ok, failed, verify,
}
use zvonok.Auth.Identity.{Handshake, RoomSocketIdentity, user, guest, resolve_room_socket_identity}
use zvonok.Presence.State.{PresenceRecord}
use zvonok.Presence.Join.{
  Room, Database, SfuJoinPayload, resolved, resolve_token_record, resolve_handshake_record,
  record_of_identity, resolve_record,
}

host_of_capability :
    (role : ParticipantRole)
    → includes (capabilities_for_role role) remove_participants ≡ true
    → role ≡ host
unfolding includes capabilities_for_role CapabilityId-discrete
host_of_capability host h = refl
host_of_capability participant h = cc
host_of_capability viewer h = cc

-- A host token: it was minted for the room and the participant, and its key is not revoked.
abbrev pub IsHostToken : Database → SfuJoinPayload → String → RoomTokenClaims → Type 0
IsHostToken db p user_id claims =
    (claims.room_id ≡ p.room_id)
    × (claims.role ≡ host)
    × (claims.participant_id ≡ user_id)
    × ((revoked : Option String) × (db.api_key claims.key_id ≡ some revoked)
        × (truthy revoked ≡ none))

Verify-cases :
    (x : RoomTokenVerifyResult)
    → ((claims : RoomTokenClaims) × (x ≡ ok claims))
      ⊎ ((code : RoomTokenFailureCode) × (x ≡ failed code))
Verify-cases (ok claims) = inl (claims, refl)
Verify-cases (failed code) = inr (code, refl)

truthy-none : (o : Option String) → is_some (truthy o) ≡ false → truthy o ≡ none
truthy-none o h = ground arith

token_authority :
    (svc : Services) (db : Database) (h : Handshake) (p : SfuJoinPayload) (token : String)
    (r : PresenceRecord)
    → resolve_token_record svc db h p token ≡ resolved r
    → includes r.capabilities remove_participants ≡ true
    → (claims : RoomTokenClaims) × (verify svc token ≡ ok claims)
      × IsHostToken db p r.user_id claims
unfolding resolve_token_record
token_authority svc db h p token r e may = elim (Verify-cases (verify svc token)) [
  | inr (code, f) ↦ absurd (ground (arith, f))
  | inl (claims, f) ↦ elim (Option-cases (db.api_key claims.key_id)) [
    | inl k ↦ absurd (ground (arith, f, k))
    | inr (revoked, k) ↦
        let caps : r.capabilities ≡ capabilities_for_role claims.role = ground (arith, f, k) in
        (
          claims,
          f,
          (
            ground (arith, f, k),
            host_of_capability claims.role
                (ap (λ cs. includes cs remove_participants) (sym caps) ∙ may),
            ground (arith, f, k),
            (revoked, k, truthy-none revoked (ground (arith, f, k))),
          ),
        )
  ]
]

owner_authority :
    (db : Database) (h : Handshake) (p : SfuJoinPayload) (room : Room)
    (identity : RoomSocketIdentity) (r : PresenceRecord)
    → record_of_identity db h p room identity ≡ resolved r
    → includes r.capabilities remove_participants ≡ true
    → (identity ≡ user r.user_id) × (room.owner_id ≡ some r.user_id)
unfolding record_of_identity includes capabilities_for_role CapabilityId-discrete
owner_authority db h p room (guest g slug name) r e may = ground arith
owner_authority db h p room (user id) r e may = ground arith

-- The identity of a socket from the pages of the application.
abbrev pub app_identity : Services → Handshake → Option RoomSocketIdentity
app_identity svc h =
    resolve_room_socket_identity svc h
      (or_else (truthy (svc.config "CLIENT_URL")) "http://localhost:5173" ∷ [])

handshake_authority :
    (svc : Services) (db : Database) (h : Handshake) (p : SfuJoinPayload) (r : PresenceRecord)
    → resolve_handshake_record svc db h p ≡ resolved r
    → includes r.capabilities remove_participants ≡ true
    → (room : Room) × (db.room p.room_id ≡ some room)
      × (app_identity svc h ≡ some (user r.user_id))
      × (room.owner_id ≡ some r.user_id)
unfolding resolve_handshake_record
handshake_authority svc db h p r e may = elim (Option-cases (app_identity svc h)) [
  | inl f ↦ absurd (ground (arith, f))
  | inr (identity, f) ↦ elim (Option-cases (db.room p.room_id)) [
    | inl k ↦ absurd (ground (arith, f, k))
    | inr (room, k) ↦
        let (who, owner) = owner_authority db h p room identity r (ground (arith, f, k)) may in
        (room, k, f ∙ ap some who, owner)
  ]
]

-- The user holds a host token for the room, or owns its row and is who the handshake verifies.
abbrev pub MayRemove : Services → Database → Handshake → SfuJoinPayload → String → Type 0
MayRemove svc db h p user_id =
    ((token : String) × (claims : RoomTokenClaims) × (truthy p.token ≡ some token)
      × (verify svc token ≡ ok claims)
      × IsHostToken db p user_id claims)
    ⊎ ((room : Room) × (truthy p.token ≡ none)
        × (db.room p.room_id ≡ some room)
        × (app_identity svc h ≡ some (user user_id))
        × (room.owner_id ≡ some user_id))

-- A join gives the power to remove participants only to the bearer of a host token for the room,
-- whose key is not revoked, or, where no token is presented, to the registered user whose verified
-- credentials the handshake carries and who owns the room's row.
pub removers_authorised :
    (svc : Services) (db : Database) (h : Handshake) (p : SfuJoinPayload) (r : PresenceRecord)
    → resolve_record svc db h p ≡ resolved r
    → includes r.capabilities remove_participants ≡ true
    → MayRemove svc db h p r.user_id
unfolding resolve_record
removers_authorised svc db h p r e may = elim (Option-cases (truthy p.token)) [
  | inl f ↦
      let (room, k, who, owner) = handshake_authority svc db h p r (ground (arith, f)) may in
      inr (room, f, k, who, owner)
  | inr (token, f) ↦
      let (claims, g, good) = token_authority svc db h p token r (ground (arith, f)) may in
      inl (token, claims, f, g, good)
]
