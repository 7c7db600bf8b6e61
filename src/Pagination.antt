-- ===== src/Pagination.antt =====
-- apps/server/src/platform/pagination.helper.ts. The text of a cursor (base64url and JSON) and the
-- query of the database are parameters; the scope of a list is part of its query.
pub mod Walk
mod Tests
use zvonok.Prelude.{
  ℕ, zero, suc, ◌+◌, String, Bool, true, Option, none, some, List, [], ◌∷◌, ◌++◌, ◌&&◌, ◌>>=◌,
  if◌then◌else◌, leb, ltb, length, or_else, truthy,
}
use zvonok.Json.{Json, property, is_plain_object, as_text}

pub record PageCursor : Type 0 where
  pub order : String
  pub id : String

pub record Page (A : Type 0) : Type 0 where
  pub items : List A
  pub next : Option String

abbrev pub default_page_limit : ℕ
default_page_limit = 50

abbrev pub max_page_limit : ℕ
max_page_limit = 100

-- The first elements, `slice(0, n)`, and the last one.
unfoldable pub slice {ℓ} : {A : Type ℓ} → ℕ → List A → List A
slice zero xs = []
slice (suc n) [] = []
slice (suc n) (x ∷ xs) = x ∷ slice n xs

unfoldable pub last {ℓ} : {A : Type ℓ} → List A → Option A
last [] = none
last (x ∷ []) = some x
last (x ∷ (y ∷ ys)) = last (y ∷ ys)

unfoldable pub decode_cursor : (String → Option Json) → String → Option PageCursor
decode_cursor parse raw = do
  value ← parse raw
  fs ← is_plain_object value
  order ← as_text (property "order" fs)
  id ← as_text (property "id" fs)
  filled ← truthy (some id)
  some (record { order = order; id = id })

unfoldable pub valid_limit : Option ℕ → Bool
valid_limit none = true
valid_limit (some n) = leb 1 n && leb n max_page_limit

-- A list of rows: the text of a cursor and its reading, the position of a row, and the query, which
-- takes the cursor and a number of rows.
pub record Source (A : Type 0) : Type 0 where
  pub encode : PageCursor → String
  pub parse : String → Option Json
  pub cursor_of : A → PageCursor
  pub find_page : Option PageCursor → ℕ → List A

next_of : {A : Type 0} → Source A → Option A → Option String
next_of src none = none
next_of src (some r) = some (src.encode (src.cursor_of r))

unfoldable pub page_of : {A : Type 0} → Source A → ℕ → List A → Page A
unfolding next_of
page_of src limit rows =
    if ltb limit (length rows)
    then record { items = slice limit rows; next = next_of src (last (slice limit rows)) }
    else record { items = rows; next = none }

unfoldable pub page_after : {A : Type 0} → Source A → ℕ → Option PageCursor → Page A
page_after src limit after = page_of src limit (src.find_page after (suc limit))

-- `none` is the refusal of a bad limit or cursor.
unfoldable pub paginate : {A : Type 0} → Source A → Option ℕ → Option String → Option (Page A)
paginate src limit cursor =
    let size = or_else limit default_page_limit in
    if valid_limit limit
    then (elim (truthy cursor) [
      | none ↦ some (page_after src size none)
      | some raw ↦ elim (decode_cursor src.parse raw) [
        | none ↦ none
        | some after ↦ some (page_after src size (some after))
      ]
    ])
    else none
