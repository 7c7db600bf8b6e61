-- ===== src/Auth/RoomToken.antt =====
-- apps/server/src/platform/room-token.helper.ts, `RoomTokenHelper.verify`.
use zvonok.Prelude.{◌>>=◌, String, Option, none, some, ite, str_dec}
use zvonok.Json.{Json, property, is_plain_object, as_text}
use zvonok.Capabilities.{ParticipantRole, is_participant_role}
use zvonok.Auth.Jwt.{Services, Verified, payload, throws}

pub record RoomTokenClaims : Type 0 where
  pub room_id : String
  pub project_id : String
  pub key_id : String
  pub participant_id : String
  pub name : String
  pub role : ParticipantRole
  pub external_id : Option String
  pub metadata : Option Json

pub data RoomTokenFailureCode : Type 0 where
  expired invalid : RoomTokenFailureCode

pub data RoomTokenVerifyResult : Type 0 where
  ok : RoomTokenClaims → RoomTokenVerifyResult
  failed : RoomTokenFailureCode → RoomTokenVerifyResult

-- An optional field that must have the right form where it is there.
optional_text : Option Json → Option (Option String)
optional_text none = some none
optional_text (some v) = do s ← as_text (some v); some (some s)

optional_object : Option Json → Option (Option Json)
optional_object none = some none
optional_object (some v) = do fs ← is_plain_object v; some (some v)

-- `isDecodedRoomToken`, with the claims that the test makes known.
unfoldable pub decoded_room_token : Json → Option RoomTokenClaims
unfolding optional_text optional_object
decoded_room_token value = do
  fs ← is_plain_object value
  sub ← as_text (property "sub" fs)
  project_id ← as_text (property "projectId" fs)
  key_id ← as_text (property "keyId" fs)
  participant_id ← as_text (property "participantId" fs)
  name ← as_text (property "name" fs)
  role ← is_participant_role (property "role" fs)
  external_id ← optional_text (property "externalId" fs)
  metadata ← optional_object (property "metadata" fs)
  some (record {
    room_id = sub;
    project_id = project_id;
    key_id = key_id;
    participant_id = participant_id;
    name = name;
    role = role;
    external_id = external_id;
    metadata = metadata;
  })

checked : Verified → RoomTokenVerifyResult
unfolding decoded_room_token
checked (throws name) = ite (str_dec name "TokenExpiredError") (failed expired) (failed invalid)
checked (payload value) = elim (decoded_room_token value) [
  | none ↦ failed invalid
  | some claims ↦ ok claims
]

unfoldable pub verify : Services → String → RoomTokenVerifyResult
unfolding checked
verify svc token = checked (svc.verify token (svc.config "JWT_ROOM_SECRET"))
