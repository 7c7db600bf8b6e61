-- ===== src/Egress/Targets.antt =====
-- `isPrivateAddress` and `assertEndpointsAllowed` of apps/server/src/egress/egress.service.ts. Whether a
-- text is an address, and of which kind (`isIP`), its numbers or its text in lower case, the host of a URL
-- and the addresses of a name are answers of the platform.
use Prim.Native.Char.{code}
use zvonok.Prelude.{
  ℕ, String, Bool, true, false, ◌||◌, ◌&&◌, Option, none, some, List, [], ◌∷◌, ite, str_dec, leb,
  ◌==◌, if◌then◌else◌,
}

pub data Address : Type 0 where
  ipv4 : ℕ → ℕ → ℕ → ℕ → Address
  ipv6 : String → Address
  no_address : Address

unfoldable pub starts_with : String → String → Bool
starts_with String.[] s = true
starts_with (String.◌∷◌ c p) String.[] = false
starts_with (String.◌∷◌ c p) (String.◌∷◌ d s) = (code c == code d) && starts_with p s

same_text : String → String → Bool
same_text s t = ite (str_dec s t) true false

unfoldable pub is_private_address : Address → Bool
unfolding same_text
is_private_address (ipv4 a b c d) =
    (a == 0 || (a == 10 || a == 127))
    || ((a == 169 && b == 254) || ((a == 172 && (leb 16 b && leb b 31)) || (a == 192 && b == 168)))
is_private_address (ipv6 s) =
    (same_text s "::" || same_text s "::1")
    || (starts_with "fe80" s || (starts_with "fc" s || starts_with "fd" s))
is_private_address no_address = true

-- What becomes of an endpoint: its text is no URL, its host has no address, or it has these.
pub data LookedUp : Type 0 where
  invalid unresolved : LookedUp
  addresses : List Address → LookedUp

pub data TargetError : Type 0 where
  invalid_endpoint lookup_failed target_not_allowed : String → TargetError

unfoldable pub any_private : List Address → Bool
any_private [] = false
any_private (a ∷ rest) = is_private_address a || any_private rest

unfoldable pub endpoint_error : String → LookedUp → Option TargetError
endpoint_error e invalid = some (invalid_endpoint e)
endpoint_error e unresolved = some (lookup_failed e)
endpoint_error e (addresses found) = if any_private found then some (target_not_allowed e) else none

unfoldable pub first_error : Option TargetError → Option TargetError → Option TargetError
first_error (some e) rest = some e
first_error none rest = rest

unfoldable pub endpoints_error : (String → LookedUp) → List String → Option TargetError
endpoints_error resolve [] = none
endpoints_error resolve (e ∷ es) =
    first_error (endpoint_error e (resolve e)) (endpoints_error resolve es)

unfoldable pub assert_endpoints_allowed :
    Bool → (String → LookedUp) → List String → Option TargetError
assert_endpoints_allowed allow_private resolve endpoints =
    if allow_private then none else endpoints_error resolve endpoints
