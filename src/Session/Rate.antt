-- ===== src/Session/Rate.antt =====
-- The limit on joins after a break.
use zvonok.Prelude.{ℕ, suc, ◌-◌, ◌≤◌, List, [], ◌∷◌, if◌then◌else◌, ltb}
use zvonok.Session.Recovery.{rejoin_window_ms, allow_rejoin}

-- The times at which a rejoin was allowed, of the times at which one was tried.
unfoldable pub granted : List ℕ → List ℕ → List ℕ
granted times [] = []
granted times (now ∷ later) =
    let rest = granted (allow_rejoin now times).0 later in
    if (allow_rejoin now times).1 then now ∷ rest else rest

-- How many of the times lie in the window that ends at `now`.
unfoldable pub count_recent : ℕ → List ℕ → ℕ
count_recent now [] = 0
count_recent now (t ∷ ts) =
    let rest = count_recent now ts in if ltb (now - t) rejoin_window_ms then suc rest else rest

-- No time lies before the one in front of it.
abbrev pub IsOrdered : ℕ → List ℕ → Type 0
IsOrdered from [] = Unit
IsOrdered from (t ∷ ts) = (from ≤ t) × IsOrdered t ts

-- The times that the client holds after the tries.
unfoldable pub held_times : List ℕ → List ℕ → List ℕ
held_times times [] = times
held_times times (now ∷ later) = held_times (allow_rejoin now times).0 later

abbrev pub latest : ℕ → List ℕ → ℕ
latest from [] = from
latest from (t ∷ ts) = latest t ts
