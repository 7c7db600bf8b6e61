-- ===== src/Egress/Ports.antt =====
-- `allocatePort` of apps/server/src/egress/egress.service.ts, with the ports of egress.config.ts.
use zvonok.Prelude.{
  ℕ, zero, suc, ◌+◌, ◌-◌, ◌≤◌, ◌<◌, ◌≡◌, ◌⊎◌, inl, inr, refl, Bool, true, false, Option, none, some,
  List, [], ◌∷◌, arith, ◌==◌, if◌then◌else◌, Bool-cases, Option-cases, ℕ_discrete, subst, sym, ◌∙◌,
}

-- The default range.
abbrev pub egress_media_port_min : ℕ
egress_media_port_min = 42000

abbrev pub egress_media_port_max : ℕ
egress_media_port_max = 42100

unfoldable pub in_use : ℕ → List ℕ → Bool
in_use p [] = false
in_use p (q ∷ qs) = let rest = in_use p qs in if q == p then true else rest

unfoldable pub free : ℕ → List ℕ → List ℕ
free p [] = []
free p (q ∷ qs) = let rest = free p qs in if q == p then rest else q ∷ rest

-- The first of `n` ports from `p` on that is not in use.
unfoldable pub port_from : ℕ → ℕ → List ℕ → Option ℕ
port_from zero p used = none
port_from (suc n) p used =
    let rest = port_from n (suc p) used in if in_use p used then rest else some p

unfoldable pub allocate_port : List ℕ → Option (ℕ × List ℕ)
allocate_port used =
    elim (port_from (suc egress_media_port_max - egress_media_port_min) egress_media_port_min
      used) [ none ↦ none | some p ↦ some (p, p ∷ used) ]

port_from-some :
    (n p : ℕ) (used : List ℕ) (q : ℕ)
    → port_from n p used ≡ some q
    → (p ≤ q) × (q < p + n) × (in_use q used ≡ false)
unfolding port_from
port_from-some zero p used q h = absurd (cc)
port_from-some (suc n) p used q h = elim (Bool-cases (in_use p used)) [
  | inl e ↦
      let (a, b, c) = port_from-some n (suc p) used q (rw e at h) in
      (omega (arith, a), omega (arith, b), c)
  | inr e ↦ ground (arith, e, h)
]

port_from-none :
    (n p : ℕ) (used : List ℕ) (q : ℕ)
    → port_from n p used ≡ none
    → p ≤ q
    → q < p + n
    → in_use q used ≡ true
unfolding port_from
port_from-none zero p used q h a b = absurd (omega (arith, a, b))
port_from-none (suc n) p used q h a b = elim (Bool-cases (in_use p used)) [
  | inl e ↦ elim (ℕ_discrete p q) [
    | yes same ↦ subst (λ z. in_use z used ≡ true) same e
    | no other ↦
        port_from-none n (suc p) used q (rw e at h) (omega (arith, a, other)) (omega (arith, b))
  ]
  | inr e ↦ absurd (ground (arith, e, h))
]

-- A port that is handed out lies in the range, was not in use, and is the one port that is then in use
-- besides those before; none is handed out only when every port of the range is in use.
pub allocate_port_exact :
    (used : List ℕ)
    → ((p : ℕ) × (allocate_port used ≡ some (p, p ∷ used))
        × (42000 ≤ p)
        × (p ≤ 42100)
        × (in_use p used ≡ false))
      ⊎ ((allocate_port used ≡ none) × ((p : ℕ) → 42000 ≤ p → p ≤ 42100 → in_use p used ≡ true))
unfolding allocate_port
allocate_port_exact used = elim (Option-cases (port_from 101 42000 used)) [
  | inl e ↦
      inr (
        rw (allocate_port, e) refl,
        λ p a b. port_from-none 101 42000 used p e a (omega (arith, b)),
      )
  | inr (q, e) ↦
      let (a, b, c) = port_from-some 101 42000 used q e in
      inl (q, rw (allocate_port, e) refl, a, omega (arith, b), c)
]

pub allocate_port_lem :
    (used : List ℕ) (p : ℕ) (used' : List ℕ)
    → allocate_port used ≡ some (p, used')
    → (in_use p used ≡ false) × (used' ≡ p ∷ used)
allocate_port_lem used p used' h = elim (allocate_port_exact used) [
  | inl (q, e, a, b, c) ↦
      let same : some (p, used') ≡ some (q, q ∷ used) = sym h ∙ e in
      (ground (arith, same, c), ground (arith, same))
  | inr (e, k) ↦ absurd (ground (arith, h, e))
]
