-- ===== src/Prelude/Decimal.antt =====
-- Decimal numerals, as `strconv.Itoa` and `%d` print them.
use gotmux.Prelude.Tests.{ltb, if◌then◌else◌, Bool-cases, ltb→lt, lt→ltb}
use gotmux.Prelude.Lists.{Bytes, length, length-append, codes}
use Prim.Native.Nat.{ℕ, zero, suc, ◌+◌, ◌*◌, ◌/◌, ◌%◌, ◌^◌, ◌≤◌, ◌<◌}
use mathlib.Core.Path.{◌≡◌, refl, ap, ap₂, ◌∙◌}
use mathlib.Core.Logic.{inl, inr}
use mathlib.Core.List.{[], ◌∷◌, ◌++◌}
use native.Mathlib.Omega.{arith}
use native.Mathlib.Nat.{pow-suc}

-- Each round divides by ten, so `suc n` rounds are more than enough for `n`.
digits : ℕ → ℕ → Bytes
digits zero n = []
digits (suc f) n =
    let front = digits f (n / 10) in
    if ltb n 10 then (b'0' + n) ∷ [] else front ++ ((b'0' + n % 10) ∷ [])

unfoldable pub itoa : ℕ → Bytes
unfolding digits
itoa n = digits (suc n) n

-- The fuel does not show, once there is enough of it.
digits_fuel : (f g n : ℕ) → n < f → n < g → digits f n ≡ digits g n
unfolding digits
digits_fuel zero g n h k = elim h [ ]
digits_fuel (suc f) zero n h k = elim k [ ]
digits_fuel (suc f) (suc g) n h k = elim (Bool-cases (ltb n 10)) [
  | inl small ↦ rw small
  | inr big ↦ rw big (rw (digits_fuel f g (n / 10) (ground arith) (ground arith)))
]

pub itoa-small : (n : ℕ) → n < 10 → itoa n ≡ (b'0' + n) ∷ []
unfolding itoa
itoa-small n h = rw (lt→ltb n 10 h)

-- A numeral of two digits or more ends in its last digit.
pub itoa-snoc : (v d : ℕ) → 0 < v → d < 10 → itoa (v * 10 + d) ≡ itoa v ++ ((b'0' + d) ∷ [])
unfolding itoa
itoa-snoc v d h k = elim (Bool-cases (ltb (v * 10 + d) 10)) [
  | inl small ↦ absurd (omega (arith, ltb→lt _ _ small))
  | inr big ↦ rw big (
      ap₂ (λ front last. front ++ ((b'0' + last) ∷ []))
        (ap (digits (v * 10 + d)) (omega arith)
          ∙ digits_fuel (v * 10 + d) (suc v) v (omega arith) (omega arith))
        (omega arith))
]

pub itoa-split : (n : ℕ) → 10 ≤ n → itoa n ≡ itoa (n / 10) ++ ((b'0' + n % 10) ∷ [])
itoa-split n h = ap itoa (omega arith) ∙ itoa-snoc (n / 10) (n % 10) (omega arith) (omega arith)

digits_pos : (f n : ℕ) → 0 < length (digits (suc f) n)
unfolding digits
digits_pos f n = ground (arith, length-append (digits f (n / 10)) ((b'0' + n % 10) ∷ []))

pub length-itoa_pos : (n : ℕ) → 0 < length (itoa n)
unfolding itoa
length-itoa_pos n = digits_pos n n

-- A number below 10 ^ k has at most k digits.
length-digits : (k f n : ℕ) → n < 10 ^ suc k → length (digits f n) ≤ suc k
unfolding digits
length-digits k zero n h = omega arith
length-digits zero (suc f) n h = ground arith
length-digits (suc k) (suc f) n h = ground (
  arith,
  pow-suc 10 (suc k),
  length-append (digits f (n / 10)) ((b'0' + n % 10) ∷ []),
  length-digits k f (n / 10),
)

pub length-itoa_le : (k n : ℕ) → n < 10 ^ suc k → length (itoa n) ≤ suc k
unfolding itoa
length-itoa_le k n h = length-digits k (suc n) n h

itoa_test : itoa 1024 ≡ codes "1024"
unfolding itoa
itoa_test = refl
