-- ===== src/Layers/Timers.antt =====
-- The timers that run are those that the engine keeps, one for each user.
use zvonok.Prelude.{
  ℕ, suc, ◌<◌, String, true, false, Bool, ◌||◌, ◌⊎◌, Option, none, some, List, [], ◌∷◌, ◌≡◌, ◌≢◌,
  refl, sym, ap, ◌∙◌, inl, inr, arith, str_dec, if◌then◌else◌, ◌==◌, Option-cases, Map, get, put,
  remove, values, get-put, get-remove, ℕ_discrete,
}
use mathlib.Core.Option.{some-injective}
use zvonok.Layers.Engine.{Timer, find_timer, drop_timer, cancelled}
use zvonok.Layers.Statistics.{cancel_all}

pub record IsTracked (running : List (ℕ × Timer)) (timers : Map ℕ) (next : ℕ) : Type 0 where
  pub kept : (n : ℕ) (t : Timer) → find_timer n running ≡ some t → get t.user_id timers ≡ some n
  pub runs :
      (u : String) (n : ℕ)
      → get u timers ≡ some n
      → (t : Timer) × (find_timer n running ≡ some t) × (t.user_id ≡ u)
  pub below : (n : ℕ) (t : Timer) → find_timer n running ≡ some t → n < next

pub find-drop :
    (m n : ℕ) (ts : List (ℕ × Timer))
    → find_timer m (drop_timer n ts) ≡ (if m == n then none else find_timer m ts)
unfolding find_timer drop_timer
find-drop m n [] = ground arith
find-drop m n ((k, t) ∷ ts) = ground (arith, find-drop m n ts)

pub dropped :
    (m n : ℕ) (t : Timer) (ts : List (ℕ × Timer))
    → find_timer m (drop_timer n ts) ≡ some t
    → (find_timer m ts ≡ some t) × (m ≢ n)
dropped m n t ts e = ground (arith, find-drop m n ts, e)

unfoldable among : ℕ → List ℕ → Bool
among m [] = false
among m (n ∷ ns) = (n == m) || among m ns

-- The timers that are cleared one after another are gone.
spared :
    (m : ℕ) (t : Timer) (ns : List ℕ) (ts : List (ℕ × Timer))
    → find_timer m (cancel_all ns ts) ≡ some t
    → (find_timer m ts ≡ some t) × (among m ns ≡ false)
unfolding cancel_all among
spared m t [] ts e = (e, refl)
spared m t (n ∷ ns) ts e =
    let (f, out) = spared m t ns (drop_timer n ts) e in
    let (g, apart) = dropped m n t ts f in (g, ground (arith, out, apart))

among-values : (u : String) (n : ℕ) (m : Map ℕ) → get u m ≡ some n → among n (values m) ≡ true
unfolding get among
among-values u n [] e = absurd (ground (arith, e))
among-values u n ((w, k) ∷ m) e = ground (arith, e, among-values u n m)

-- A timer among some is the first or one of the rest.
pub first_or_rest :
    (m n : ℕ) (t q : Timer) (ts : List (ℕ × Timer))
    → find_timer m ((n, t) ∷ ts) ≡ some q
    → ((n ≡ m) × (t ≡ q)) ⊎ (find_timer m ts ≡ some q)
unfolding find_timer
first_or_rest m n t q ts e = elim (ℕ_discrete n m) [
  | yes k ↦ inl (k, some-injective t q (ground (arith, e, k)))
  | no k ↦ inr (ground (arith, e, k))
]

module _ {running : List (ℕ × Timer)} {timers : Map ℕ} {next : ℕ}
    (v : IsTracked running timers next) where
  -- What is left when the timer of a user is cleared are the timers of the others.
  left_over :
      (u : String) (o : Option ℕ) (m : ℕ) (t : Timer)
      → get u timers ≡ o
      → find_timer m (cancelled o running) ≡ some t
      → (find_timer m running ≡ some t) × (t.user_id ≢ u)
  unfolding cancelled
  left_over u none m t f e = (e, λ k. absurd (ground (arith, v.kept m t e, k, f)))
  left_over u (some n) m t f e =
      let (g, apart) = dropped m n t running e in
      (g, λ k. apart (ground (arith, v.kept m t g, k, f)))

  others_run :
      (u : String) (o : Option ℕ) (m : ℕ) (t : Timer)
      → get u timers ≡ o
      → find_timer m running ≡ some t
      → t.user_id ≢ u
      → find_timer m (cancelled o running) ≡ some t
  unfolding cancelled
  others_run u none m t f e apart = e
  others_run u (some n) m t f e apart =
      let (q, g, k) = v.runs u n f in
      find-drop m n running ∙ elim (ℕ_discrete m n) [
        | yes z ↦ absurd (
            apart (
              ap (λ x. x.user_id)
                (some-injective _ _ (sym e ∙ ap (λ x. find_timer x running) z ∙ g))
              ∙ k))
        | no z ↦ ground (arith, e, z)
      ]

  pub cancelled-IsTracked :
      (u : String) → IsTracked (cancelled (get u timers) running) (remove u timers) next
  cancelled-IsTracked u = record {
    kept = λ m t e.
        let (g, apart) = left_over u (get u timers) m t refl e in
        get-remove t.user_id u timers ∙ ground (arith, v.kept m t g, apart);
    runs = λ w m e.
        let f : get w timers ≡ some m = ground (arith, get-remove w u timers, e) in
        let apart : w ≢ u = λ k. absurd (ground (arith, get-remove w u timers, e, k)) in
        let (t, g, k) = v.runs w m f in
        (t, others_run u (get u timers) m t refl g (λ z. apart (sym k ∙ z)), k);
    below = λ m t e. v.below m t (left_over u (get u timers) m t refl e).0;
  }

  pub armed-IsTracked :
      (u : String) (t : Timer)
      → t.user_id ≡ u
      → IsTracked ((next, t) ∷ cancelled (get u timers) running) (put u next timers) (suc next)
  unfolding find_timer
  armed-IsTracked u t own = record {
    kept = λ m q e. elim (first_or_rest m next t q _ e) [
      | inl (k, z) ↦
          get-put q.user_id u next timers ∙ ground (arith, k, sym own ∙ ap (λ x. x.user_id) z)
      | inr f ↦
          let (g, apart) = left_over u (get u timers) m q refl f in
          get-put q.user_id u next timers ∙ ground (arith, v.kept m q g, apart)
    ];
    runs = λ w m e. elim (str_dec u w) [
      | yes k ↦ (t, ground (arith, get-put w u next timers, e, k), own ∙ k)
      | no k ↦
          let (q, g, z) = v.runs w m (ground (arith, get-put w u next timers, e, k)) in
          let old = v.below m q g in
          (q, ground (arith, old, others_run u (get u timers) m q refl g (λ x. k (sym x ∙ z))), z)
    ];
    below = λ m q e. elim (first_or_rest m next t q _ e) [
      | inl (k, z) ↦ omega arith
      | inr f ↦ omega (arith, v.below m q (left_over u (get u timers) m q refl f).0)
    ];
  }

  pub all_cancelled : (m : ℕ) → find_timer m (cancel_all (values timers) running) ≡ none
  all_cancelled m = elim (Option-cases (find_timer m (cancel_all (values timers) running))) [
    | inl e ↦ e
    | inr (t, e) ↦
        let (f, out) = spared m t (values timers) running e in
        absurd (ground (arith, out, among-values t.user_id m timers (v.kept m t f)))
  ]
