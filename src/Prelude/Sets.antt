-- ===== src/Prelude/Sets.antt =====
-- JavaScript's `Set` of texts, as a list in the order of insertion.
use Prim.Native.String.{String}
use mathlib.Core.Path.{◌≡◌, refl}
use mathlib.Core.Logic.{ite}
use mathlib.Core.Bool.{Bool, true, false}
use mathlib.Core.List.{List, [], ◌∷◌}
use native.Mathlib.Omega.{arith}
use zvonok.Prelude.Text.{str_dec}

unfoldable pub has : String → List String → Bool
has k [] = false
has k (j ∷ s) = ite (str_dec j k) true (has k s)

unfoldable pub add : String → List String → List String
add k [] = k ∷ []
add k (j ∷ s) = ite (str_dec j k) (j ∷ s) (j ∷ add k s)

unfoldable pub discard : String → List String → List String
discard k [] = []
discard k (j ∷ s) = let rest = discard k s in ite (str_dec j k) rest (j ∷ rest)

pub has-add : (j k : String) (s : List String) → has j (add k s) ≡ ite (str_dec k j) true (has j s)
unfolding has add
has-add j k [] = refl
has-add j k (i ∷ s) = ground (arith, has-add j k s)

pub has-discard :
    (j k : String) (s : List String) → has j (discard k s) ≡ ite (str_dec k j) false (has j s)
unfolding has discard
has-discard j k [] = ground arith
has-discard j k (i ∷ s) = ground (arith, has-discard j k s)
