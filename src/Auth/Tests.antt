-- ===== src/Auth/Tests.antt =====
-- A room token minted for a host, and read back.
use zvonok.Prelude.{some}
use zvonok.Json.{Json, text, end, field}
use zvonok.Capabilities.{host}
use zvonok.Auth.Jwt.{Services, payload}
use zvonok.Auth.RoomToken.{RoomTokenClaims, verify}
use zvonok.Auth.Minting.{issued}

abbrev adas_claims : RoomTokenClaims
adas_claims = record {
  room_id = "r1";
  project_id = "p1";
  key_id = "k1";
  participant_id = "ada";
  name = "Ada";
  role = host;
  external_id = some "crm-7";
  metadata = some (Json.object (field "seat" (text "front") end));
}

abbrev one_token : Services
one_token = record {
  verify = λ t k. payload (issued adas_claims 100 3700);
  config = λ k. some "secret";
}
