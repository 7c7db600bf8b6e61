-- ===== src/Auth/Minting.antt =====
-- `RoomTokenHelper.mint` of apps/server/src/platform/room-token.helper.ts. The signing of a payload is
-- a parameter; it adds the subject and the times of issue and expiry to the payload.
use zvonok.Prelude.{ℕ, String, Option, none, some}
use zvonok.Json.{Json, text, number, object, Fields, end, field}
use zvonok.Capabilities.{ParticipantRole, host, participant, viewer}
use zvonok.Auth.Jwt.{Services}
use zvonok.Auth.RoomToken.{RoomTokenClaims}

unfoldable pub role_text : ParticipantRole → String
role_text host = "host"
role_text participant = "participant"
role_text viewer = "viewer"

external_field : Option String → Fields → Fields
external_field none fs = fs
external_field (some s) fs = field "externalId" (text s) fs

metadata_field : Option Json → Fields → Fields
metadata_field none fs = fs
metadata_field (some v) fs = field "metadata" v fs

-- The payload, with what stands behind it.
unfoldable pub mint_fields : RoomTokenClaims → Fields → Fields
unfolding external_field metadata_field
mint_fields claims rest = field "projectId" (text claims.project_id) (
    field "keyId" (text claims.key_id) (
      field "participantId" (text claims.participant_id) (
        field "name" (text claims.name) (
          field "role" (text (role_text claims.role))
            (external_field claims.external_id (metadata_field claims.metadata rest))))))

unfoldable pub mint :
    (Fields → String → Option String → String) → Services → RoomTokenClaims → String
mint sign svc claims = sign (mint_fields claims end) claims.room_id (svc.config "JWT_ROOM_SECRET")

-- A signed payload, as it is read back.
abbrev pub issued : RoomTokenClaims → ℕ → ℕ → Json
issued claims iat exp = object (
    mint_fields claims
      (field "iat" (number iat) (field "exp" (number exp) (field "sub" (text claims.room_id) end))))

abbrev pub metadata_of : Option Fields → Option Json
metadata_of none = none
metadata_of (some fs) = some (object fs)
