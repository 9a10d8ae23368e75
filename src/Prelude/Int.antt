-- ===== src/Prelude/Int.antt =====
-- Signed numbers, and `strconv.Atoi` and `strconv.ParseInt(s, 10, 64)`.
use Prim.Native.Nat.{ℕ, zero, suc, ◌^◌, ◌<◌}
use mathlib.Core.Path.{◌≡◌, refl, sym, ap, ◌∙◌}
use native.Mathlib.Omega.{arith}
use mathlib.Core.Bool.{true, false, ◌&&◌}
use mathlib.Core.Option.{Option, none, some}
use mathlib.Core.List.{[], ◌∷◌}
use gotmux.Prelude.Tests.{ltb, ◌==◌, if◌then◌else◌}
use gotmux.Prelude.Lists.{Bytes, length}
use gotmux.Prelude.Numeral.{is_digit, all_digits, numeral_value, all_digits-itoa, value-itoa}
use gotmux.Prelude.Decimal.{itoa, length-itoa_pos}

pub data ℤ : Type 0 where
  pos negsuc : ℕ → ℤ

-- -n
abbrev pub neg : ℕ → ℤ
neg zero = pos 0
neg (suc n) = negsuc n

-- The digits behind the sign, whose value is below `limit`.
unfoldable pub digits_value : ℕ → Bytes → Option ℕ
digits_value limit [] = none
digits_value limit (c ∷ s) =
    if all_digits (c ∷ s) && ltb (numeral_value 0 (c ∷ s)) limit
    then some (numeral_value 0 (c ∷ s))
    else none

abbrev signed : (ℕ → ℤ) → Option ℕ → Option ℤ
signed f none = none
signed f (some n) = some (f n)

-- `none` is an error, with which no caller reads the number.
unfoldable pub atoi : Bytes → Option ℤ
atoi [] = none
atoi (c ∷ s) =
    if c == b'-'
    then signed neg (digits_value (suc (2 ^ 63)) s)
    else if c == b'+'
    then signed pos (digits_value (2 ^ 63) s)
    else signed pos (digits_value (2 ^ 63) (c ∷ s))

head-atoi :
    (c : ℕ) (s : Bytes) (n : ℕ)
    → all_digits (c ∷ s) ≡ true
    → numeral_value 0 (c ∷ s) ≡ n
    → n < 2 ^ 63
    → atoi (c ∷ s) ≡ some (pos n)
unfolding atoi digits_value all_digits is_digit
head-atoi c s n d v l =
    let not_minus : (c == b'-') ≡ false = ground (arith, d) in
    let not_plus : (c == b'+') ≡ false = ground (arith, d) in
    let small : ltb (numeral_value 0 (c ∷ s)) (2 ^ 63) ≡ true = ground (arith, v, l) in
    rw (atoi, not_minus, not_plus, digits_value, d, small, v) refl

-- What `strconv.Itoa` writes of a number of 63 bits is read back.
pub atoi-itoa : (n : ℕ) → n < 2 ^ 63 → atoi (itoa n) ≡ some (pos n)
atoi-itoa n l = from (itoa n) refl
  where
    from : (t : Bytes) → itoa n ≡ t → atoi (itoa n) ≡ some (pos n)
    from [] e = absurd (omega (arith, length-itoa_pos n, ap length e))
    from (c ∷ s) e =
        ap atoi e
        ∙ head-atoi c s n (ap all_digits (sym e) ∙ all_digits-itoa n)
            (ap (numeral_value 0) (sym e) ∙ value-itoa n) l
