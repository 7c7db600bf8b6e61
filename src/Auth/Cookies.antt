-- ===== src/Auth/Cookies.antt =====
-- The text of a cookie header and of an origin, as
-- apps/server/src/auth/helpers/room-socket-auth.helper.ts takes them apart.
use Prim.Native.Char.{Char, code}
use zvonok.Prelude.{
  ℕ, zero, suc, String, Bool, false, Option, none, some, List, [], ◌∷◌, ◌&&◌, ◌||◌, if◌then◌else◌,
  ◌==◌, str_dec, truthy,
}
use text.Mathlib.Text.{starts_with, ◌==◌ as same_text}

in_front : Char → List String → List String
in_front c [] = []
in_front c (x ∷ xs) = String.◌∷◌ c x ∷ xs

-- `split('; ')`
unfoldable pub split_cookies : String → List String
unfolding in_front
split_cookies String.[] = "" ∷ []
split_cookies (String.◌∷◌ c String.[]) = String.◌∷◌ c "" ∷ []
split_cookies (String.◌∷◌ c (String.◌∷◌ d s)) =
    let after = split_cookies s in
    let before = in_front c (split_cookies (String.◌∷◌ d s)) in
    if code c == b';' && code d == b' ' then "" ∷ after else before

-- `split('=').slice(1).join('=')`
unfoldable pub after_equals : String → String
after_equals String.[] = ""
after_equals (String.◌∷◌ c s) = if code c == b'=' then s else after_equals s

-- `split('=')[0]`
unfoldable pub before_equals : String → String
before_equals String.[] = ""
before_equals (String.◌∷◌ c s) =
    let rest = before_equals s in if code c == b'=' then "" else String.◌∷◌ c rest

drop_chars : ℕ → String → String
drop_chars zero s = s
drop_chars (suc n) String.[] = ""
drop_chars (suc n) (String.◌∷◌ c s) = drop_chars n s

find_cookie : String → List String → Option String
find_cookie name [] = none
find_cookie name (c ∷ cs) = if starts_with c name then some c else find_cookie name cs

cookie_value : Option String → Option String
cookie_value none = none
cookie_value (some c) = truthy (some (after_equals c))

unfoldable pub extract_cookie_token : Option String → Option String
unfolding split_cookies after_equals find_cookie cookie_value truthy
extract_cookie_token header = elim (truthy header) [
  | none ↦ none
  | some h ↦ elim (find_cookie "access_token=" (split_cookies h)) [
    | some c ↦ cookie_value (some c)
    | none ↦ cookie_value (find_cookie "zvonok_guest_" (split_cookies h))
  ]
]

-- The name of the cookie starts with the prefix of 13 characters that is taken off.
unfoldable pub extract_guest_slug_from_cookie : Option String → Option String
unfolding split_cookies before_equals find_cookie drop_chars truthy
extract_guest_slug_from_cookie header = elim (truthy header) [
  | none ↦ none
  | some h ↦ elim (find_cookie "zvonok_guest_" (split_cookies h)) [
    | none ↦ none
    | some c ↦ truthy (some (drop_chars 13 (before_equals c)))
  ]
]

-- `replace(/\/+$/, '')`
unfoldable pub normalize : String → String
unfolding str_dec
normalize String.[] = ""
normalize (String.◌∷◌ c s) =
    let rest = normalize s in if code c == b'/' && same_text rest "" then "" else String.◌∷◌ c rest

unfoldable pub is_allowed_origin : String → List String → Bool
unfolding normalize
is_allowed_origin origin [] = false
is_allowed_origin origin (a ∷ as') =
    same_text (normalize a) (normalize origin) || is_allowed_origin origin as'
