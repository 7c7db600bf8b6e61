-- ===== src/Prelude/Maps.antt =====
-- JavaScript's `Map` with text keys, as an association list in the order of insertion.
use Prim.Native.String.{String}
use mathlib.Core.Path.{◌≡◌, refl}
use mathlib.Core.Logic.{ite}
use mathlib.Core.List.{List, [], ◌∷◌, map}
use mathlib.Core.Option.{Option, none, some}
use native.Mathlib.Omega.{arith}
use zvonok.Prelude.Text.{str_dec}
use zvonok.Prelude.Tests.{or_else}

abbrev pub Map {ℓ} : Type ℓ → Type ℓ
Map V = List (String × V)

module _ {ℓ} {V : Type ℓ} where
  unfoldable pub get : String → Map V → Option V
  get k [] = none
  get k ((j, v) ∷ m) = ite (str_dec j k) (some v) (get k m)

  -- A new key goes to the end, an old one keeps its place.
  unfoldable pub put : String → V → Map V → Map V
  put k v [] = (k, v) ∷ []
  put k v ((j, w) ∷ m) = ite (str_dec j k) ((k, v) ∷ m) ((j, w) ∷ put k v m)

  unfoldable pub remove : String → Map V → Map V
  remove k [] = []
  remove k ((j, v) ∷ m) = let rest = remove k m in ite (str_dec j k) rest ((j, v) ∷ rest)

  pub get-put :
      (j k : String) (v : V) (m : Map V) → get j (put k v m) ≡ ite (str_dec k j) (some v) (get j m)
  unfolding get put
  get-put j k v [] = refl
  get-put j k v ((i, w) ∷ m) = ground (arith, get-put j k v m)

  pub get-remove :
      (j k : String) (m : Map V) → get j (remove k m) ≡ ite (str_dec k j) none (get j m)
  unfolding get remove
  get-remove j k [] = ground arith
  get-remove j k ((i, w) ∷ m) = ground (arith, get-remove j k m)

abbrev pub keys {ℓ} : {V : Type ℓ} → Map V → List String
keys = map (λ e. e.0)

abbrev pub values {ℓ} : {V : Type ℓ} → Map V → List V
values = map (λ e. e.1)

-- A value that the code changes in place, where the key has one.
unfoldable pub modify {ℓ} : {V : Type ℓ} → String → (V → V) → Map V → Map V
modify k f m = elim (get k m) [ none ↦ m | some v ↦ put k (f v) m ]

pub get-modify {ℓ} :
    {V : Type ℓ} (j k : String) (f : V → V) (m : Map V) (v : V)
    → get k m ≡ some v
    → get j (modify k f m) ≡ ite (str_dec k j) (some (f v)) (get j m)
unfolding modify
get-modify j k f m v e = rw (modify, e) (get-put j k (f v) m)

-- The set under a key, empty where there is none.
abbrev pub set_at {ℓ} : {A : Type ℓ} → Map (List A) → String → List A
set_at m k = or_else (get k m) []

module _ {ℓ} {A : Type ℓ} where
  pub set_at-put :
      (j k : String) (xs : List A) (m : Map (List A))
      → set_at (put k xs m) j ≡ ite (str_dec k j) xs (set_at m j)
  set_at-put j k xs m = ground (arith, get-put j k xs m)

  pub set_at-remove :
      (j k : String) (m : Map (List A)) → set_at (remove k m) j ≡ ite (str_dec k j) [] (set_at m j)
  set_at-remove j k m = ground (arith, get-remove j k m)

  pub set_at-modify :
      (j k : String) (f : List A → List A) (m : Map (List A))
      → f [] ≡ []
      → set_at (modify k f m) j ≡ ite (str_dec k j) (f (set_at m j)) (set_at m j)
  unfolding modify
  set_at-modify j k f m e = ground (arith, get-put j k (f (set_at m k)) m)

-- `for (const k of ks) m.delete(k)`
unfoldable pub remove_all {ℓ} : {V : Type ℓ} → List String → Map V → Map V
remove_all [] m = m
remove_all (k ∷ ks) m = remove_all ks (remove k m)
