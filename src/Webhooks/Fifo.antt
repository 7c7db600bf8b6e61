-- ===== src/Webhooks/Fifo.antt =====
-- The chains of the projects: each is first in, first out, whatever the others do.
use zvonok.Prelude.{
  ℕ, zero, suc, String, ◌⊎◌, ap₂, ◌≡◌, ◌∙◌, sym, ap, refl, inl, inr, List, [], ◌∷◌, ◌++◌, ite,
  str_dec, Map, set_at, set_at-put, set_at-remove,
}
use mathlib.Core.List.{append_assoc, append-nil}
use zvonok.Webhooks.Queue.{
  keep_tail, Delivery, Settled, Queue, Event, enqueued, settles, enqueue_delivery, settle, step,
  run_all,
}

-- A delivery counts where it is the project's.
abbrev pub mine : {q p : String} → Dec (q ≡ p) → Delivery → List Delivery → List Delivery
mine (yes e) d ds = d ∷ ds
mine (no n) d ds = ds

-- The deliveries of a project that have settled, in order.
unfoldable pub settled_of : String → List Settled → List Delivery
settled_of p [] = []
settled_of p (x ∷ xs) = mine (str_dec x.project_id p) x.delivery (settled_of p xs)

-- The deliveries that the events ask for, in order.
unfoldable pub asked_of : String → List Event → List Delivery
asked_of p [] = []
asked_of p (enqueued q d ∷ es) = mine (str_dec q p) d (asked_of p es)
asked_of p (settles q ∷ es) = asked_of p es

abbrev pub known : String → Queue → List Delivery
known p q = settled_of p q.log ++ set_at q.tails p

mine-append :
    {q p : String} (w : Dec (q ≡ p)) (d : Delivery) (xs ys : List Delivery)
    → mine w d (xs ++ ys) ≡ mine w d xs ++ ys
mine-append (yes e) d xs ys = refl
mine-append (no n) d xs ys = refl

settled_of-append :
    (p : String) (xs ys : List Settled)
    → settled_of p (xs ++ ys) ≡ settled_of p xs ++ settled_of p ys
unfolding settled_of
settled_of-append p [] ys = refl
settled_of-append p (x ∷ xs) ys =
    ap (mine (str_dec x.project_id p) x.delivery) (settled_of-append p xs ys)
    ∙ mine-append (str_dec x.project_id p) x.delivery (settled_of p xs) (settled_of p ys)

longer_chain :
    (p r : String) (w : Dec (r ≡ p)) (d : Delivery) (m : Map (List Delivery))
    → ite w (set_at m r ++ d ∷ []) (set_at m p) ≡ set_at m p ++ mine w d []
longer_chain p r (yes e) d m = ap (λ x. set_at m x ++ d ∷ []) e
longer_chain p r (no n) d m = sym (append-nil (set_at m p))

known-enqueue :
    (p r : String) (d : Delivery) (q : Queue)
    → known p (enqueue_delivery r d q) ≡ known p q ++ mine (str_dec r p) d []
unfolding enqueue_delivery
known-enqueue p r d q =
    ap (λ x. settled_of p q.log ++ x)
      (set_at-put p r (set_at q.tails r ++ d ∷ []) q.tails
        ∙ longer_chain p r (str_dec r p) d q.tails)
    ∙ sym (append_assoc (settled_of p q.log) (set_at q.tails p) (mine (str_dec r p) d []))

set_at-keep_tail :
    (p r : String) (ds : List Delivery) (m : Map (List Delivery))
    → set_at (keep_tail r ds m) p ≡ ite (str_dec r p) ds (set_at m p)
unfolding keep_tail
set_at-keep_tail p r [] m = set_at-remove p r m
set_at-keep_tail p r (d ∷ ds) m = set_at-put p r (d ∷ ds) m

moved :
    (p r : String) (w : Dec (r ≡ p)) (d : Delivery) (ds old : List Delivery)
    (m : Map (List Delivery))
    → set_at m r ≡ d ∷ ds
    → (old ++ mine w d []) ++ ite w ds (set_at m p) ≡ old ++ set_at m p
moved p r (yes e) d ds old m k =
    append_assoc old (d ∷ []) ds ∙ ap (λ x. old ++ x) (sym k ∙ ap (set_at m) e)
moved p r (no n) d ds old m k = ap (λ x. x ++ set_at m p) (append-nil old)

chain-cases :
    (xs : List Delivery) → (xs ≡ []) ⊎ ((d : Delivery) × (ds : List Delivery) × (xs ≡ d ∷ ds))
chain-cases [] = inl refl
chain-cases (d ∷ ds) = inr (d, ds, refl)

known-settle : (p r : String) (q : Queue) → known p (settle r q) ≡ known p q
unfolding settle settled_of
known-settle p r q = elim (chain-cases (set_at q.tails r)) [
  | inl e ↦ rw (settle, e) refl
  | inr (d, ds, e) ↦
      rw (settle, e)
        (ap₂ (λ x y. x ++ y) (settled_of-append p q.log _) (set_at-keep_tail p r ds q.tails)
          ∙ moved p r (str_dec r p) d ds (settled_of p q.log) q.tails e)
]

-- Each project's deliveries settle in the order in which they were enqueued, none lost and none
-- twice, whatever is enqueued and settles for other projects in between: those of a project that have
-- settled, followed by those that wait in its chain, are those that it had followed by those that were
-- asked for.
pub run_all-known :
    (p : String) (es : List Event) (q : Queue) → known p (run_all es q) ≡ known p q ++ asked_of p es
unfolding run_all step asked_of
run_all-known p [] q = sym (append-nil (known p q))
run_all-known p (enqueued r d ∷ es) q =
    run_all-known p es (enqueue_delivery r d q)
    ∙ ap (λ x. x ++ asked_of p es) (known-enqueue p r d q)
    ∙ append_assoc (known p q) (mine (str_dec r p) d []) (asked_of p es)
    ∙ ap (λ x. known p q ++ x) (sym (mine-append (str_dec r p) d [] (asked_of p es)))
run_all-known p (settles r ∷ es) q =
    run_all-known p es (settle r q) ∙ ap (λ x. x ++ asked_of p es) (known-settle p r q)

-- The chain of a project settles so many times.
unfoldable pub settles_of : ℕ → String → List Event
settles_of zero p = []
settles_of (suc n) p = settles p ∷ settles_of n p
