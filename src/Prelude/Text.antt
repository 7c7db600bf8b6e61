-- ===== src/Prelude/Text.antt =====
-- Texts as keys: a decision of equality, JavaScript's truth of a text, and texts joined by a colon.
use Prim.Native.String.append
use Prim.Native.Char.{Char, code}
use Prim.Native.String.{String, ◌∷◌, ◌++◌}
use mathlib.Core.Path.{◌≡◌, refl, sym, ap, ◌∙◌}
use mathlib.Core.Logic.{◌≢◌, ite}
use mathlib.Core.Bool.{Bool, true, false, not, ◌&&◌}
use zvonok.Prelude.Tests.{◌==◌ as nat_eq}
use mathlib.Core.Option.{Option, none, some}
use native.Mathlib.Omega.{arith}
use text.Mathlib.Text.{◌==◌}
use text.Mathlib.TextEquality.{eq_iff}
use text.Mathlib.TextLemmas.{head-eq_of_cons-eq, cons-eq-cons}

dec_of : (b : Bool) {P : Type 0} → (b ≡ true → P) → (P → b ≡ true) → Dec P
dec_of true f g = yes (f refl)
dec_of false f g = no (λ p. cc (g p))

unfoldable pub str_dec : (s t : String) → Dec (s ≡ t)
unfolding dec_of
str_dec s t = dec_of (s == t) (eq_iff s t).0 (eq_iff s t).1

-- An optional text that a condition reads as true: neither absent nor empty.
unfoldable pub truthy : Option String → Option String
unfolding str_dec
truthy none = none
truthy (some s) = ite (str_dec s "") none (some s)

unfoldable pub colon_free : String → Bool
colon_free String.[] = true
colon_free (String.◌∷◌ c s) = not (nat_eq (code c) b':') && colon_free s

-- The template `${r}:${u}`.
unfoldable pub with_colon : String → String → String
with_colon r u = r ++ (":" ++ u)

not_colon : (c : Char) (s t u : String) → colon_free (c ∷ s) ≡ true → ":" ∷ t ≢ c ∷ u
unfolding colon_free
not_colon c s t u h e =
    let same : code ":" ≡ code c = ap code (head-eq_of_cons-eq e) in ground (arith, same)

shift :
    (t : String) (c : Char) (s u : String)
    → with_colon "" t ≡ with_colon (c ∷ s) u
    → ":" ∷ t ≡ c ∷ (s ++ (":" ++ u))
unfolding with_colon
shift t c s u e =
    ap (λ w. ":" ∷ w) (sym (append.nil t))
    ∙ sym (append.cons ":" "" t)
    ∙ sym (append.nil (":" ++ t))
    ∙ e
    ∙ append.cons c s (":" ++ u)

-- The part before the colon is determined.
pub with_colon_inj :
    (r s u v : String)
    → colon_free r ≡ true
    → colon_free s ≡ true
    → with_colon r u ≡ with_colon s v
    → r ≡ s
unfolding with_colon colon_free
with_colon_inj String.[] String.[] u v h k e = refl
with_colon_inj String.[] (String.◌∷◌ c s) u v h k e =
    absurd (not_colon c s u (s ++ (":" ++ v)) k (shift u c s v e))
with_colon_inj (String.◌∷◌ c r) String.[] u v h k e =
    absurd (not_colon c r v (r ++ (":" ++ u)) h (shift v c r u (sym e)))
with_colon_inj (String.◌∷◌ c r) (String.◌∷◌ d s) u v h k e = ground (
  arith,
  with_colon_inj r s u v,
  cons-eq-cons.0 (sym (append.cons c r (":" ++ u)) ∙ e ∙ append.cons d s (":" ++ v)),
)
