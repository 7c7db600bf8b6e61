-- ===== src/Egress/Tail.antt =====
-- What is kept of the error output of a process.
use zvonok.Prelude.{
  ℕ, ◌≤◌, ◌≡◌, inl, inr, refl, sym, ap, ◌∙◌, List, [], ◌∷◌, ◌++◌, arith, ◌==◌, leb, if◌then◌else◌,
  Bool-cases, length, length-append,
}
use mathlib.Core.List.{append_assoc, append-nil}
use zvonok.Egress.Output.{stderr_tail_limit, shift, on_stderr_line, on_stderr_lines}

abbrev pub at_most : ℕ → ℕ
at_most n = if leb stderr_tail_limit n then stderr_tail_limit else n

-- `kept` ends `all`, and is as long as the limit lets it be.
abbrev pub Keeps : List (List ℕ) → List (List ℕ) → Type 0
Keeps all kept =
    ((old : List (List ℕ)) × (old ++ kept ≡ all)) × (length kept ≡ at_most (length all))

line-Keeps :
    (line : List ℕ) (tail : List (List ℕ))
    → length tail ≤ stderr_tail_limit
    → Keeps (tail ++ line ∷ []) (on_stderr_line line tail)
unfolding on_stderr_line shift
line-Keeps line [] h = (([], refl), refl)
line-Keeps line (x ∷ tail) h = elim (Bool-cases (length (x ∷ tail) == stderr_tail_limit)) [
  | inl e ↦ rw e ((x ∷ [], refl), ground (arith, e, length-append tail (line ∷ [])))
  | inr e ↦ rw e (([], refl), ground (arith, e, h, length-append tail (line ∷ [])))
]

lines-Keeps :
    (lines tail : List (List ℕ))
    → length tail ≤ stderr_tail_limit
    → Keeps (tail ++ lines) (on_stderr_lines lines tail)
unfolding on_stderr_lines
lines-Keeps [] tail h = (([], sym (append-nil tail)), ground (arith, h, length-append tail []))
lines-Keeps (line ∷ lines) tail h =
    let ((old, e), n) = line-Keeps line tail h in
    let next = on_stderr_line line tail in
    let ((older, f), m) = lines-Keeps lines next (ground (arith, n)) in
    let kept = on_stderr_lines lines next in
    (
      (
        old ++ older,
        append_assoc old older kept
            ∙ ap (λ z. old ++ z) f
            ∙ sym (append_assoc old next lines)
            ∙ ap (λ z. z ++ lines) e
            ∙ append_assoc tail (line ∷ []) lines,
      ),
      ground (
        arith,
        m,
        n,
        h,
        length-append next lines,
        length-append tail (line ∷ lines),
        length-append tail (line ∷ []),
      ),
    )

-- After any lines of error output the lines kept are the last ones, in order: all of them where there
-- are at most twenty, and twenty of them otherwise.
pub stderr_tail_exact : (lines : List (List ℕ)) → Keeps lines (on_stderr_lines lines [])
stderr_tail_exact lines = lines-Keeps lines [] (omega arith)
