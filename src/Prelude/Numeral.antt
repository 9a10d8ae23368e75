-- ===== src/Prelude/Numeral.antt =====
-- Decimal numerals as `strconv.ParseUint` and `strconv.Atoi` read them.
use gotmux.Prelude.Tests.{ltb, leb, ◌==◌, Bool-cases, ltb→lt}
use gotmux.Prelude.Lists.{Bytes}
use gotmux.Prelude.Decimal.{itoa, itoa-small, itoa-snoc, itoa-split}
use Prim.Native.Nat.{ℕ, zero, suc, ◌+◌, ◌-◌, ◌*◌, ◌/◌, ◌%◌, ◌<◌}
use mathlib.Core.Path.{◌≡◌, refl, sym, ap, ◌∙◌}
use mathlib.Core.Logic.{inl, inr}
use mathlib.Core.Bool.{Bool, true, ◌&&◌}
use mathlib.Core.List.{[], ◌∷◌, ◌++◌, append_assoc, append-nil}
use native.Mathlib.Omega.{arith}

unfoldable pub is_digit : ℕ → Bool
is_digit c = leb 48 c && leb c 57

unfoldable pub all_digits : Bytes → Bool
all_digits [] = true
all_digits (c ∷ s) = is_digit c && all_digits s

-- The value of digits behind a numeral of value `v`.
unfoldable pub numeral_value : ℕ → Bytes → ℕ
numeral_value v [] = v
numeral_value v (c ∷ s) = numeral_value (v * 10 + (c - 48)) s

all_digits-snoc :
    (s : Bytes) (c : ℕ)
    → all_digits s ≡ true
    → is_digit c ≡ true
    → all_digits (s ++ (c ∷ [])) ≡ true
unfolding all_digits
all_digits-snoc [] c h k = ground arith
all_digits-snoc (d ∷ s) c h k = ground (arith, all_digits-snoc s c)

value-snoc :
    (v : ℕ) (s : Bytes) (c : ℕ)
    → numeral_value v (s ++ (c ∷ [])) ≡ numeral_value v s * 10 + (c - 48)
unfolding numeral_value
value-snoc v [] c = refl
value-snoc v (d ∷ s) c = value-snoc (v * 10 + (d - 48)) s c

digit-is_digit : (d : ℕ) → d < 10 → is_digit (b'0' + d) ≡ true
unfolding is_digit
digit-is_digit d h = ground arith

itoa-numeral : (f n : ℕ) → n < f → (all_digits (itoa n) ≡ true) × (numeral_value 0 (itoa n) ≡ n)
unfolding numeral_value all_digits
itoa-numeral zero n h = elim h [ ]
itoa-numeral (suc f) n h = elim (Bool-cases (ltb n 10)) [
  | inl small ↦
      let e = itoa-small n (ltb→lt n 10 small) in
      let k = digit-is_digit n (ltb→lt n 10 small) in
      (ap all_digits e ∙ ground (arith, k), ap (numeral_value 0) e ∙ omega arith)
  | inr big ↦
      let e = itoa-split n (ground arith) in
      let k = itoa-numeral f (n / 10) (ground arith) in
      (
        ap all_digits e
            ∙ all_digits-snoc (itoa (n / 10)) (b'0' + n % 10) k.0
                (digit-is_digit (n % 10) (omega arith)),
        ap (numeral_value 0) e ∙ value-snoc 0 (itoa (n / 10)) (b'0' + n % 10) ∙ omega (arith, k.1),
      )
]

pub all_digits-itoa : (n : ℕ) → all_digits (itoa n) ≡ true
all_digits-itoa n = (itoa-numeral (suc n) n (omega arith)).0

pub value-itoa : (n : ℕ) → numeral_value 0 (itoa n) ≡ n
value-itoa n = (itoa-numeral (suc n) n (omega arith)).1

-- Digits behind the numeral of a number that is not 0 make the numeral of their value.
itoa-value :
    (v : ℕ) (s : Bytes) → 0 < v → all_digits s ≡ true → itoa v ++ s ≡ itoa (numeral_value v s)
unfolding all_digits numeral_value is_digit
itoa-value v [] h k = append-nil (itoa v)
itoa-value v (c ∷ s) h k =
    let d = c - 48 in
    ap (λ x. itoa v ++ (x ∷ s)) (ground arith)
    ∙ sym (append_assoc (itoa v) ((b'0' + d) ∷ []) s)
    ∙ ap (λ t. t ++ s) (sym (itoa-snoc v d h (ground arith)))
    ∙ itoa-value (v * 10 + d) s (omega arith) (ground arith)

-- Digits that do not begin with a zero, but for the zero itself, are the numeral of their value.
pub itoa-canonical :
    (c : ℕ) (s : Bytes)
    → all_digits (c ∷ s) ≡ true
    → (c == 48 ≡ true → s ≡ [])
    → c ∷ s ≡ itoa (numeral_value 0 (c ∷ s))
unfolding all_digits numeral_value is_digit
itoa-canonical c [] h k =
    ap (λ x. x ∷ []) (ground arith)
    ∙ sym (itoa-small (c - 48) (ground arith))
    ∙ ap itoa (omega arith)
itoa-canonical c (d ∷ s) h k =
    let first : 0 < c - 48 = ground (arith, k) in
    ap (λ x. x ∷ d ∷ s) (ground arith)
    ∙ ap (λ t. t ++ (d ∷ s)) (sym (itoa-small (c - 48) (ground arith)))
    ∙ itoa-value (c - 48) (d ∷ s) first (ground arith)
    ∙ ap (λ v. itoa (numeral_value v (d ∷ s))) (omega arith)

itoa-lead : (f n : ℕ) → n < f → 0 < n → (c : ℕ) × (s : Bytes) × (itoa n ≡ c ∷ s) × (48 < c)
itoa-lead zero n h k = elim h [ ]
itoa-lead (suc f) n h k = elim (Bool-cases (ltb n 10)) [
  | inl small ↦ (b'0' + n, [], itoa-small n (ltb→lt n 10 small), omega arith)
  | inr big ↦
      let (c, s, e, l) = itoa-lead f (n / 10) (ground arith) (ground arith) in
      (
        c,
        s ++ ((b'0' + n % 10) ∷ []),
        itoa-split n (ground arith) ∙ ap (λ t. t ++ ((b'0' + n % 10) ∷ [])) e,
        l,
      )
]

-- A numeral that begins with a zero is that of the zero.
pub itoa-head : (n c : ℕ) (s : Bytes) → itoa n ≡ c ∷ s → c == 48 ≡ true → s ≡ []
itoa-head zero c s e z = ground (arith, itoa-small 0 (omega arith), e)
itoa-head (suc n) c s e z =
    let (b, t, q, l) = itoa-lead (suc (suc n)) (suc n) (omega arith) (omega arith) in
    ground (arith, q, e, l, z)
