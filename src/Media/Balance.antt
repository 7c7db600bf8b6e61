-- ===== src/Media/Balance.antt =====
-- The routers are spread over the workers.
use zvonok.Prelude.{ℕ, suc, ◌≤◌, ◌≡◌, ◌≢◌, ◌⊎◌, List, [], ◌∷◌}
use zvonok.Media.Pool.{PoolEntry, Pool, load}

abbrev AllLoads : ℕ → ℕ → List PoolEntry → Type 0
AllLoads lo hi [] = Unit
AllLoads lo hi (e ∷ es) = (lo ≤ load e) × (load e ≤ hi) × AllLoads lo hi es

-- No worker serves two rooms more than another.
abbrev pub IsBalanced : List PoolEntry → Type 0
IsBalanced es = (lo : ℕ) × AllLoads lo (suc lo) es

abbrev Among : PoolEntry → List PoolEntry → Type 0
Among e [] = ⊥
Among e (x ∷ xs) = (x ≡ e) ⊎ Among e xs

abbrev NotPid : ℕ → List PoolEntry → Type 0
NotPid pid [] = Unit
NotPid pid (e ∷ es) = (e.pid ≢ pid) × NotPid pid es

-- The workers have different pids.
abbrev pub IsDistinct : List PoolEntry → Type 0
IsDistinct [] = Unit
IsDistinct (e ∷ es) = NotPid e.pid es × IsDistinct es

abbrev AtLeast : ℕ → List PoolEntry → Type 0
AtLeast n [] = Unit
AtLeast n (e ∷ es) = (n ≤ load e) × AtLeast n es
