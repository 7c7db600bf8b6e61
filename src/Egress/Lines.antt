-- ===== src/Egress/Lines.antt =====
-- How the output of a process is cut into chunks makes no difference to its lines.
use zvonok.Prelude.{
  ℕ, zero, suc, ◌≤◌, ◌<◌, ◌≡◌, ◌⊎◌, inl, inr, refl, sym, ap, Bool, true, false, none, some, List,
  [], ◌∷◌, ◌++◌, arith, ◌==◌, Bool-cases, Option-cases, subst, length, length-append,
}
use mathlib.Core.List.{append_assoc}
use zvonok.Egress.Output.{
  line_feed, carriage_return, is_separator, after_separator, cut, drain, LineBuffer, push,
}

abbrev pub ends_with_return : List ℕ → Bool
ends_with_return [] = false
ends_with_return (c ∷ []) = c == carriage_return
ends_with_return (c ∷ d ∷ cs) = ends_with_return (d ∷ cs)

abbrev pub starts_with_feed : List ℕ → Bool
starts_with_feed [] = false
starts_with_feed (c ∷ cs) = c == line_feed

-- No separator of two units lies across the border of the texts.
abbrev pub IsClean : List ℕ → List ℕ → Type 0
IsClean t b = (ends_with_return t ≡ false) ⊎ (starts_with_feed b ≡ false)

tail-IsClean : (c : ℕ) (cs b : List ℕ) → IsClean (c ∷ cs) b → IsClean cs b
tail-IsClean c [] b h = inl refl
tail-IsClean c (d ∷ cs) b h = h

after-IsClean : (c : ℕ) (cs b : List ℕ) → IsClean (c ∷ cs) b → IsClean (after_separator c cs) b
unfolding after_separator
after-IsClean c [] b h = inl refl
after-IsClean c (d ∷ cs) b h = elim (Bool-cases (c == carriage_return)) [
  | inr e ↦ rw e h
  | inl e ↦ elim (Bool-cases (d == line_feed)) [
    | inr f ↦ rw (e, f) h
    | inl f ↦ rw (e, f) (tail-IsClean d cs b h)
  ]
]

after-append :
    (c : ℕ) (cs b : List ℕ)
    → IsClean (c ∷ cs) b
    → after_separator c (cs ++ b) ≡ after_separator c cs ++ b
unfolding after_separator
after-append c [] [] h = refl
after-append c [] (d ∷ b) (inl h) = ground (arith, h)
after-append c [] (d ∷ b) (inr h) = ground (arith, h)
after-append c (d ∷ cs) b h = ground arith

-- A text that is cut begins with its separator, or the text after its first unit is cut.
cut_cases :
    (c : ℕ) (cs line rest : List ℕ)
    → cut (c ∷ cs) ≡ some (line, rest)
    → ((is_separator c ≡ true) × (line ≡ []) × (rest ≡ after_separator c cs))
      ⊎ ((is_separator c ≡ false) × (l : List ℕ) × (line ≡ c ∷ l) × (cut cs ≡ some (l, rest)))
unfolding cut
cut_cases c cs line rest e = elim (Bool-cases (is_separator c)) [
  | inl s ↦
      let q : some ([], after_separator c cs) ≡ some (line, rest) = rw s at e in inl (s, cc, cc)
  | inr s ↦ elim (Option-cases (cut cs)) [
    | inl n ↦ absurd (ground (arith, s, n, e))
    | inr ((l, r), n) ↦
        let q : some (c ∷ l, r) ≡ some (line, rest) = rw (s, n) at e in inr (s, l, cc, cc)
  ]
]

cut-append :
    (t b line rest : List ℕ)
    → cut t ≡ some (line, rest)
    → IsClean t b
    → (cut (t ++ b) ≡ some (line, rest ++ b)) × IsClean rest b
unfolding cut
cut-append [] b line rest e h = absurd (cc)
cut-append (c ∷ cs) b line rest e h = elim (cut_cases c cs line rest e) [
  | inl (s, l, r) ↦ (
    rw (s, l, r, after-append c cs b h) refl,
    subst (λ z. IsClean z b) (sym r) (after-IsClean c cs b h),
  )
  | inr (s, k, l, m) ↦
      let (found, clean) = cut-append cs b k rest m (tail-IsClean c cs b h) in
      (rw (s, l, found) refl, clean)
]

after-shorter : (c : ℕ) (cs : List ℕ) → length (after_separator c cs) ≤ length cs
unfolding after_separator
after-shorter c [] = omega arith
after-shorter c (d ∷ cs) = elim (Bool-cases (c == carriage_return)) [
  | inr e ↦ rw e (omega arith)
  | inl e ↦ elim (Bool-cases (d == line_feed)) [
    | inr f ↦ rw (e, f) (omega arith)
    | inl f ↦ rw (e, f) (omega arith)
  ]
]

cut-shorter : (t line rest : List ℕ) → cut t ≡ some (line, rest) → length rest < length t
unfolding cut
cut-shorter [] line rest e = absurd (cc)
cut-shorter (c ∷ cs) line rest e = elim (cut_cases c cs line rest e) [
  | inl (s, l, r) ↦ rw r (omega (arith, after-shorter c cs))
  | inr (s, k, l, m) ↦ omega (arith, cut-shorter cs k rest m)
]

-- With fuel for every unit the loop ends with nothing to cut.
drain-cut : (n : ℕ) (t : List ℕ) → length t ≤ n → cut (drain n t).1 ≡ none
unfolding drain cut
drain-cut zero [] h = refl
drain-cut zero (c ∷ t) h = absurd (omega (arith, h))
drain-cut (suc n) t h = elim (Option-cases (cut t)) [
  | inl e ↦ rw (drain, e) e
  | inr ((line, rest), e) ↦
      rw (drain, e) (drain-cut n rest (omega (arith, h, cut-shorter t line rest e)))
]

drain-fuel : (n m : ℕ) (t : List ℕ) → length t ≤ n → length t ≤ m → drain n t ≡ drain m t
unfolding drain cut
drain-fuel zero zero t hn hm = refl
drain-fuel zero (suc m) [] hn hm = refl
drain-fuel zero (suc m) (c ∷ t) hn hm = absurd (omega (arith, hn))
drain-fuel (suc n) zero [] hn hm = refl
drain-fuel (suc n) zero (c ∷ t) hn hm = absurd (omega (arith, hm))
drain-fuel (suc n) (suc m) t hn hm = elim (Option-cases (cut t)) [
  | inl e ↦ rw (drain, e) refl
  | inr ((line, rest), e) ↦
      let less = cut-shorter t line rest e in
      rw (drain, e, drain-fuel n m rest (omega (arith, hn, less)) (omega (arith, hm, less))) refl
]

drain-append :
    (n m k : ℕ) (t b : List ℕ)
    → length t ≤ n
    → length (t ++ b) ≤ m
    → length ((drain n t).1 ++ b) ≤ k
    → IsClean t b
    → drain m (t ++ b)
      ≡ ((drain n t).0 ++ (drain k ((drain n t).1 ++ b)).0, (drain k ((drain n t).1 ++ b)).1)
unfolding drain cut
drain-append zero m k [] b hn hm hk h = drain-fuel m k b hm hk
drain-append zero m k (c ∷ t) b hn hm hk h = absurd (omega (arith, hn))
drain-append (suc n) zero k t b hn hm hk h = elim (Option-cases (cut t)) [
  | inl e ↦ rw (drain, e) (drain-fuel zero k (t ++ b) hm (rw (drain, e) at hk))
  | inr ((line, rest), e) ↦ absurd (omega (arith, hm, cut-shorter t line rest e, length-append t b))
]
drain-append (suc n) (suc m) k t b hn hm hk h = elim (Option-cases (cut t)) [
  | inl e ↦ rw (drain, e) (drain-fuel (suc m) k (t ++ b) hm (rw (drain, e) at hk))
  | inr ((line, rest), e) ↦
      let less = cut-shorter t line rest e in
      let (found, clean) = cut-append t b line rest e h in
      let same =
        drain-append n m k rest b (omega (arith, hn, less))
          (omega (arith, hm, less, length-append t b, length-append rest b)) (rw (drain, e) at hk)
          clean in
      rw (drain, e, found, same) refl
]

-- Unless the first chunk, after what was pending, ends with a carriage return and the second begins with
-- a line feed, pushing the two one after the other has the same lines and the same rest as pushing them
-- at once; and what is then pending holds no separator.
pub push_split :
    (s : LineBuffer) (a b : List ℕ)
    → IsClean (s.pending ++ a) b
    → (push b (push a s) ≡ push (a ++ b) s) × (cut (push b (push a s)).pending ≡ none)
unfolding push
push_split s a b h =
    let t = s.pending ++ a in
    let u = (drain (length t) t).1 ++ b in
    let at_once : drain (length (s.pending ++ (a ++ b))) (s.pending ++ (a ++ b))
        ≡ ((drain (length t) t).0 ++ (drain (length u) u).0, (drain (length u) u).1) =
      subst
        (λ z.
          drain (length z) z
          ≡ ((drain (length t) t).0 ++ (drain (length u) u).0, (drain (length u) u).1))
        (append_assoc s.pending a b)
        (drain-append (length t) (length (t ++ b)) (length u) t b (omega arith) (omega arith)
          (omega arith) h) in
    (
      rw at_once (
          ap (λ z. record { pending = (drain (length u) u).1; lines = z })
            (append_assoc s.lines (drain (length t) t).0 (drain (length u) u).0)),
      drain-cut (length u) u (omega arith),
    )
