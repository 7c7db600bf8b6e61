-- ===== src/Layers/Entries.antt =====
-- What holds of each timer in a list, and what clearing users leaves of it.
use zvonok.Prelude.{
  keys, ℕ, String, true, false, Option, none, some, List, [], ◌∷◌, ◌≡◌, ◌≢◌, ◌==◌, inl, inr, refl,
  ◌∙◌, arith, str_dec, if_neg, if_cases, Map, get, get-remove, has, Option-cases,
}
use zvonok.Client.Quality.{QualityScore}
use zvonok.Layers.Engine.{Engine, Timer, drop_timer, cancelled}
use zvonok.Layers.Statistics.{clear_user_layer_state, clear_users, missing_in}
use zvonok.Layers.Following.{has-keys}

-- What holds of each timer in a list.
unfoldable pub Entries : (ℕ → Timer → Type 0) → List (ℕ × Timer) → Type 0
Entries P [] = Unit {0}
Entries P ((n, t) ∷ ts) = P n t × Entries P ts

pub Entries-map :
    (P Q : ℕ → Timer → Type 0) (ts : List (ℕ × Timer))
    → ((n : ℕ) (t : Timer) → P n t → Q n t)
    → Entries P ts
    → Entries Q ts
unfolding Entries
Entries-map P Q [] h e = tt
Entries-map P Q ((n, t) ∷ ts) h (p, e) = (h n t p, Entries-map P Q ts h e)

Entries-drop :
    (P : ℕ → Timer → Type 0) (k : ℕ) (ts : List (ℕ × Timer))
    → Entries P ts
    → Entries (λ n t. P n t × (n ≢ k)) (drop_timer k ts)
unfolding Entries drop_timer
Entries-drop P k [] e = tt
Entries-drop P k ((n, t) ∷ ts) (p, e) =
    let rest = Entries-drop P k ts e in
    if_cases (Entries (λ m q. P m q × (m ≢ k))) (n == k) _ _ (λ f. rest)
      (λ f. ((p, λ z. absurd (ground (arith, f, z))), rest))

-- The timer is the one that is kept for its user.
abbrev pub Own : Map ℕ → ℕ → Timer → Type 0
Own timers n t = get t.user_id timers ≡ some n

-- The timer of a user is cleared.
pub Entries-cancelled :
    (R : ℕ → Timer → Type 0) (u : String) (o : Option ℕ) (timers : Map ℕ) (ts : List (ℕ × Timer))
    → get u timers ≡ o
    → Entries (λ n t. Own timers n t × R n t) ts
    → Entries (λ n t. Own timers n t × R n t × (u ≢ t.user_id)) (cancelled o ts)
unfolding cancelled
Entries-cancelled R u none timers ts e h =
    Entries-map _ _ ts (λ n t (own, r). (own, r, λ k. absurd (ground (arith, own, e, k)))) h
Entries-cancelled R u (some k) timers ts e h =
    Entries-map _ _ (drop_timer k ts)
      (λ n t ((own, r), apart). (own, r, λ z. apart (ground (arith, own, e, z))))
      (Entries-drop _ k ts h)

pub clear_users-Entries :
    (us : List String) (R : ℕ → Timer → Type 0) (s : Engine)
    → Entries (λ n t. Own s.layer_timers n t × R n t) s.running
    → Entries
        (λ n t. Own (clear_users us s).layer_timers n t × R n t × (has t.user_id us ≡ false))
        (clear_users us s).running
unfolding clear_users clear_user_layer_state has
clear_users-Entries [] R s h = Entries-map _ _ s.running (λ n t (own, r). (own, r, refl)) h
clear_users-Entries (u ∷ us) R s h =
    let t = clear_user_layer_state u s in
    Entries-map _ _ (clear_users us t).running
      (λ n q (own, (r, apart), out). (own, r, ground (arith, out, apart)))
      (clear_users-Entries us (λ n q. R n q × (u ≢ q.user_id)) t
        (Entries-map _ _ t.running
          (λ n q (own, r, apart). (
            get-remove q.user_id u s.layer_timers
                ∙ if_neg (str_dec u q.user_id) apart none (get q.user_id s.layer_timers)
                ∙ own,
            (r, apart),
          ))
          (Entries-cancelled R u (get u s.layer_timers) s.layer_timers s.running refl h)))

-- Whom a list has and its missing ones do not, has statistics.
pub has-missing :
    (u : String) (stats : Map QualityScore) (us : List String)
    → has u us ≡ true
    → has u (missing_in stats us) ≡ false
    → has u (keys stats) ≡ true
unfolding has missing_in
has-missing u stats [] e f = absurd (ground (arith, e))
has-missing u stats (w ∷ us) e f = elim (Option-cases (get w stats)) [
  | inl g ↦ ground (arith, e, f, g, has-missing u stats us)
  | inr (q, g) ↦ ground (arith, e, f, g, has-keys w q stats g, has-missing u stats us)
]

pub has-owned :
    (timers : Map ℕ) (u : String) (n : ℕ) → get u timers ≡ some n → has u (keys timers) ≡ true
unfolding get has
has-owned [] u n e = absurd (ground (arith, e))
has-owned ((w, k) ∷ m) u n e = ground (arith, e, has-owned m u n)

pub get-keys :
    (u : String) (stats : Map QualityScore)
    → has u (keys stats) ≡ true
    → (q : QualityScore) × (get u stats ≡ some q)
unfolding get has
get-keys u [] e = absurd (ground (arith, e))
get-keys u ((w, q) ∷ m) e = elim (str_dec w u) [
  | yes k ↦ (q, ground (arith, k))
  | no k ↦ let (p, f) = get-keys u m (ground (arith, e, k)) in (p, ground (arith, k, f))
]
