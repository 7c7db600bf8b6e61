-- ===== src/Auth/Identity.antt =====
-- `resolveRoomSocketIdentity` of apps/server/src/auth/helpers/room-socket-auth.helper.ts and
-- `verifyGuestToken` of guest-token.helper.ts.
use zvonok.Prelude.{
  ◌>>=◌, String, Bool, true, false, Option, none, some, List, [], ◌∷◌, ite, if◌then◌else◌, str_dec,
  truthy,
}
use zvonok.Json.{Json, property, is_plain_object, as_text}
use zvonok.Auth.Jwt.{Services, Verified, payload, throws}
use zvonok.Auth.Cookies.{extract_cookie_token, extract_guest_slug_from_cookie, is_allowed_origin}

pub data RoomSocketIdentity : Type 0 where
  user : String → RoomSocketIdentity
  guest : String → String → String → RoomSocketIdentity

-- What the handshake of a socket carries.
pub record Handshake : Type 0 where
  pub socket_id : String
  pub auth_token : Option String
  pub origin : Option String
  pub cookie : Option String

-- A claim that the server wrote into a token of its own, where it is a text. A token that lacks one
-- of these claims is none of the server's, and counts here as one that does not verify.
claim : String → Json → Option String
claim k value = do fs ← is_plain_object value; as_text (property k fs)

unfoldable pub verify_guest_token : Services → String → String → Option RoomSocketIdentity
unfolding claim
verify_guest_token svc token room_slug = elim (svc.verify token (svc.config "JWT_GUEST_SECRET")) [
  | throws name ↦ none
  | payload value ↦ do
    scope ← claim "scope" value
    slug ← claim "roomSlug" value
    guest_id ← claim "guestId" value
    display_name ← claim "displayName" value
    ite (str_dec scope "room")
        (ite (str_dec slug room_slug) (some (guest guest_id room_slug display_name)) none) none
]

user_of : Verified → Option RoomSocketIdentity
unfolding claim
user_of (throws name) = none
user_of (payload value) = do id ← claim "id" value; some (user id)

guest_for : Services → String → Option String → Option RoomSocketIdentity
guest_for svc token none = none
guest_for svc token (some slug) = verify_guest_token svc token slug

unfoldable pub resolve_token : Services → String → Handshake → Option RoomSocketIdentity
unfolding user_of guest_for
resolve_token svc token h = elim (guest_for svc token (extract_guest_slug_from_cookie h.cookie)) [
  | some identity ↦ some identity
  | none ↦ user_of (svc.verify token none)
]

-- The allowed origins bind only where there are any.
origin_passes : List String → Option String → Bool
origin_passes [] origin = true
origin_passes (a ∷ as') none = false
origin_passes (a ∷ as') (some o) = is_allowed_origin o (a ∷ as')

unfoldable pub resolve_room_socket_identity :
    Services → Handshake → List String → Option RoomSocketIdentity
unfolding origin_passes
resolve_room_socket_identity svc h allowed_origins = elim (truthy h.auth_token) [
  | some explicit ↦ resolve_token svc explicit h
  | none ↦
      if origin_passes allowed_origins (truthy h.origin)
      then (do token ← extract_cookie_token h.cookie; resolve_token svc token h)
      else none
]
