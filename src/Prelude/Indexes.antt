-- ===== src/Prelude/Indexes.antt =====
-- Maps into sets: what is in the set under a key after an entry was added, taken out or dropped.
use Prim.Native.String.{String}
use mathlib.Core.Path.{◌≡◌, refl}
use mathlib.Core.Logic.{ite}
use mathlib.Core.Bool.{Bool, true, false}
use mathlib.Core.Option.{none}
use mathlib.Core.List.{List, [], ◌∷◌}
use native.Mathlib.Omega.{arith}
use zvonok.Prelude.Tests.{if◌then◌else◌}
use zvonok.Prelude.Text.{str_dec}
use zvonok.Prelude.Maps.{
  Map, get, put, remove, remove_all, get-remove, modify, set_at, set_at-put, set_at-remove,
  set_at-modify,
}
use zvonok.Prelude.Sets.{has, add, discard, has-add, has-discard}

-- `x` is in the set under `k`.
abbrev pub has_at : String → Map (List String) → String → Bool
has_at x m k = has x (set_at m k)

module _ (x k : String) (m : Map (List String)) where
  pub has_at-add :
      (j y : String)
      → has_at x (put j (add y (set_at m j)) m) k
        ≡ ite (str_dec j k) (ite (str_dec y x) true (has_at x m k)) (has_at x m k)
  has_at-add j y = ground (arith, set_at-put k j (add y (set_at m j)) m, has-add x y (set_at m j))

  pub has_at-modify :
      (j y : String)
      → has_at x (modify j (discard y) m) k
        ≡ ite (str_dec j k) (ite (str_dec y x) false (has_at x m k)) (has_at x m k)
  unfolding discard
  has_at-modify j y =
      ground (arith, set_at-modify k j (discard y) m refl, has-discard x y (set_at m k))

  pub has_at-remove :
      (j : String) → has_at x (remove j m) k ≡ ite (str_dec j k) false (has_at x m k)
  unfolding has
  has_at-remove j = ground (arith, set_at-remove k j m)

pub get-remove_all {ℓ} :
    {V : Type ℓ} (k : String) (ks : List String) (m : Map V)
    → get k (remove_all ks m) ≡ (if has k ks then none else get k m)
unfolding remove_all has
get-remove_all k [] m = refl
get-remove_all k (j ∷ ks) m = ground (arith, get-remove_all k ks (remove j m), get-remove k j m)
