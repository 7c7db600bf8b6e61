-- ===== src/Pagination/Tests.antt =====
-- A list of two rows, walked one row at a time.
use zvonok.Prelude.{ℕ, String, Option, none, some, List, [], ◌∷◌, str_dec, ite}
use zvonok.Json.{Json, text, object, end, field}
use zvonok.Pagination.{PageCursor, Source, slice}

pub data Row : Type 0 where
  newer older : Row

abbrev position : Row → PageCursor
position newer = record { order = "2026-02"; id = "b" }
position older = record { order = "2026-01"; id = "a" }

abbrev rows : List Row
rows = newer ∷ older ∷ []

abbrev written : PageCursor → Json
written c = object (field "order" (text c.order) (field "id" (text c.id) end))

unfoldable parsed : String → Option Json
unfolding str_dec
parsed raw =
    ite (str_dec raw "b") (some (written (position newer))) (some (written (position older)))

unfoldable behind : PageCursor → List Row
unfolding str_dec
behind c = ite (str_dec c.id "b") (older ∷ []) []

abbrev found : Option PageCursor → ℕ → List Row
found none n = slice n rows
found (some c) n = slice n (behind c)

abbrev source : Source Row
source = record { encode = λ c. c.id; parse = parsed; cursor_of = position; find_page = found }
