-- ===== src/Pagination/Walk.antt =====
-- Following the cursors from the first page yields every row once.
use zvonok.Prelude.{
  ℕ, zero, suc, ◌<◌, ◌≡◌, refl, ap, String, true, Option, none, some, List, [], ◌∷◌, ◌++◌, ◌>>=◌,
  arith, length, truthy,
}
use zvonok.Pagination.{Source, slice, last, decode_cursor, valid_limit, page_of, paginate}

-- The pages from a cursor on, as long as there is a next one.
unfoldable pub walk : {A : Type 0} → Source A → Option ℕ → ℕ → Option String → Option (List A)
walk src limit zero cursor = none
walk src limit (suc fuel) cursor = do
  page ← paginate src limit cursor
  elim page.next [
    | none ↦ some page.items
    | some c ↦ do rest ← walk src limit fuel (some c); some (page.items ++ rest)
  ]

module _ {A : Type 0} where
  -- A list that is longer than n > 0 splits behind its n-th element.
  abbrev Cut : ℕ → List A → Type 0
  Cut n xs =
      (zs : List A) × (r : A) × (ws : List A) × (xs ≡ zs ++ r ∷ ws)
      × (slice (suc n) (slice (suc (suc n)) xs) ≡ zs ++ r ∷ [])
      × (last (zs ++ r ∷ []) ≡ some r)
      × (length ws < length xs)
      × (suc n < length (slice (suc (suc n)) xs))

  last-cons :
      (x r : A) (zs : List A) → last (zs ++ r ∷ []) ≡ some r → last (x ∷ (zs ++ r ∷ [])) ≡ some r
  unfolding last
  last-cons x r [] h = h
  last-cons x r (z ∷ zs) h = h

  cut : (n : ℕ) (xs : List A) → suc n < length xs → Cut n xs
  unfolding slice last
  cut n [] h = absurd (omega arith)
  cut zero (x ∷ []) h = absurd (omega arith)
  cut zero (x ∷ (y ∷ ys)) h = ([], x, y ∷ ys, refl, refl, refl, omega arith, omega arith)
  cut (suc n) (x ∷ xs) h =
      let (zs, r, ws, whole, head, end, less, more) = cut n xs (omega arith) in
      (
        x ∷ zs,
        r,
        ws,
        ap (λ ys. x ∷ ys) whole,
        ap (λ ys. x ∷ ys) head,
        last-cons x r zs end,
        omega arith,
        omega arith,
      )

-- What the list is: the query takes the first rows, or the first behind the row of a cursor, in the
-- order of the rows; a cursor's text is not empty and reads back.
pub record Lists {A : Type 0} (src : Source A) (rows : List A) : Type 0 where
  pub first : (n : ℕ) → src.find_page none n ≡ slice n rows
  pub after :
      (xs : List A) (r : A) (ys : List A) (n : ℕ)
      → rows ≡ xs ++ r ∷ ys
      → src.find_page (some (src.cursor_of r)) n ≡ slice n ys
  pub filled :
      (r : A) → truthy (some (src.encode (src.cursor_of r))) ≡ some (src.encode (src.cursor_of r))
  pub reads :
      (r : A) → decode_cursor src.parse (src.encode (src.cursor_of r)) ≡ some (src.cursor_of r)

module _ {A : Type 0} (src : Source A) (rows : List A) (v : Lists src rows) (size : ℕ)
    (ok : valid_limit (some (suc size)) ≡ true) where
  -- The page that a cursor stands for begins the rest of the list.
  abbrev Begins : Option String → List A → Type 0
  Begins cursor ys =
      paginate src (some (suc size)) cursor
      ≡ some (page_of src (suc size) (slice (suc (suc size)) ys))
