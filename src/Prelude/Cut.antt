-- ===== src/Prelude/Cut.antt =====
-- `strings.Cut` and `strings.TrimSuffix`, which several readers take a text apart with.
use Prim.Native.Nat.{ℕ}
use mathlib.Core.Path.{◌≡◌, refl, ap}
use mathlib.Core.Bool.{Bool, true, false}
use mathlib.Core.Option.{Option, none, some}
use mathlib.Core.Logic.{inl, inr}
use mathlib.Core.List.{[], ◌∷◌, ◌++◌}
use native.Mathlib.Omega.{arith}
use gotmux.Prelude.Tests.{◌==◌, Option-cases, if◌then◌else◌}
use gotmux.Prelude.Lists.{Bytes, cut_prefix, cut_prefix-append, cut_prefix-eq-some}

found_here : Option Bytes → Option (Bytes × Bytes) → Option (Bytes × Bytes)
found_here (some rest) later = some ([], rest)
found_here none later = later

later_by : ℕ → Option (Bytes × Bytes) → Option (Bytes × Bytes)
later_by c none = none
later_by c (some p) = some (c ∷ p.0, p.1)

-- What stands before and after the first `sep`, if there is one.
unfoldable pub cut : Bytes → Bytes → Option (Bytes × Bytes)
unfolding found_here later_by
cut sep [] = found_here (cut_prefix sep []) none
cut sep (c ∷ s) = found_here (cut_prefix sep (c ∷ s)) (later_by c (cut sep s))

cut-here :
    (sep s : Bytes) {rest : Bytes} → cut_prefix sep s ≡ some rest → cut sep s ≡ some ([], rest)
unfolding cut
cut-here sep [] e = rw e refl
cut-here sep (c ∷ s) e = rw (cut, e) refl

pub cut-later :
    (sep : Bytes) (c : ℕ) (s : Bytes) {a b : Bytes}
    → cut_prefix sep (c ∷ s) ≡ none
    → cut sep s ≡ some (a, b)
    → cut sep (c ∷ s) ≡ some (c ∷ a, b)
unfolding cut
cut-later sep c s e f = rw (cut, e, f) refl

-- Both parts are parts of the text.
pub cut-eq-some : (sep s a b : Bytes) → cut sep s ≡ some (a, b) → s ≡ a ++ (sep ++ b)
unfolding cut
cut-eq-some sep [] a b e = elim (Option-cases (cut_prefix sep [])) [
  | inl q ↦ ground (arith, q, e)
  | inr (rest, q) ↦ ground (arith, q, e, cut_prefix-eq-some sep [] rest)
]
cut-eq-some sep (c ∷ s) a b e = elim (Option-cases (cut_prefix sep (c ∷ s))) [
  | inl q ↦ elim (Option-cases (cut sep s)) [
    | inl r ↦ ground (arith, q, r, e)
    | inr (p, r) ↦ ground (arith, q, r, e, cut-eq-some sep s p.0 p.1)
  ]
  | inr (rest, q) ↦ ground (arith, q, e, cut_prefix-eq-some sep (c ∷ s) rest)
]

-- No text with this byte in it, and none that ends in it, hides a `sep` that begins with it.
abbrev pub Lacks : ℕ → Bytes → Type 0
Lacks b [] = Unit
Lacks b (c ∷ s) = (c == b ≡ false) × Lacks b s

pub cut-Lacks :
    (b : ℕ) (sep name rest : Bytes)
    → Lacks b name
    → cut (b ∷ sep) (name ++ ((b ∷ sep) ++ rest)) ≡ some (name, rest)
cut-Lacks b sep [] rest h =
    cut-here (b ∷ sep) (b ∷ (sep ++ rest)) (cut_prefix-append (b ∷ sep) rest)
cut-Lacks b sep (c ∷ name) rest h =
    cut-later (b ∷ sep) c (name ++ ((b ∷ sep) ++ rest)) (ground (arith, h.0))
      (cut-Lacks b sep name rest h.1)

-- `strings.TrimSuffix(s, "\n")`
unfoldable pub trim_newline : Bytes → Bytes
trim_newline [] = []
trim_newline (c ∷ []) = if c == 10 then [] else c ∷ []
trim_newline (c ∷ d ∷ s) = c ∷ trim_newline (d ∷ s)

pub trim_newline-append : (s : Bytes) → trim_newline (s ++ (10 ∷ [])) ≡ s
unfolding trim_newline
trim_newline-append [] = refl
trim_newline-append (c ∷ []) = refl
trim_newline-append (c ∷ d ∷ s) = ap (λ t. c ∷ t) (trim_newline-append (d ∷ s))

-- `strings.HasPrefix`, with the prefix first.
unfoldable pub has_prefix : Bytes → Bytes → Bool
has_prefix p s = elim (cut_prefix p s) [ some _ ↦ true | none ↦ false ]

pub Lacks-append : (b : ℕ) (s t : Bytes) → Lacks b s → Lacks b t → Lacks b (s ++ t)
Lacks-append b [] t h k = k
Lacks-append b (c ∷ s) t h k = (h.0, Lacks-append b s t h.1 k)
