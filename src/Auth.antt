-- ===== src/Auth.antt =====
-- apps/server/src/auth/helpers and apps/server/src/platform/room-token.helper.ts: who a socket is.
pub mod Jwt
pub mod Cookies
pub mod RoomToken
pub mod Minting
mod Tests
pub mod Identity
