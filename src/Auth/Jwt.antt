-- ===== src/Auth/Jwt.antt =====
-- What the server takes from `@nestjs/jwt` and from its configuration. Both are parameters: the
-- verification of a token under a secret (`none` is the module's own secret), and a lookup by name.
use zvonok.Prelude.{String, Option}
use zvonok.Json.{Json}

pub data Verified : Type 0 where
  payload : Json → Verified
  throws : String → Verified

pub record Services : Type 0 where
  pub verify : String → Option String → Verified
  pub config : String → Option String
