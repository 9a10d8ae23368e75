-- ===== src/Ids/Canonical.antt =====
-- The identifiers of tmux/handles.go are exactly the numerals that tmux prints.
use gotmux.Prelude.{ℕ, ◌<◌, ◌≡◌, ◌↔◌, refl, sym, ap, ◌∙◌, true, [], ◌∷◌, Bytes, length, arith}
use gotmux.Prelude.Decimal.{itoa, length-itoa_pos}
use gotmux.Prelude.Numeral.{
  all_digits, numeral_value, all_digits-itoa, value-itoa, itoa-canonical, itoa-head,
}
use gotmux.Ids.{valid_id, leading_zero}

abbrev pub IsId : ℕ → Bytes → Type 0
IsId prefix s = (n : ℕ) × (n < 4294967296) × (s ≡ prefix ∷ itoa n)

valid_id_sound : (prefix : ℕ) (s : Bytes) → valid_id prefix s ≡ true → IsId prefix s
unfolding valid_id leading_zero
valid_id_sound prefix [] h = cc
valid_id_sound prefix (c ∷ []) h = cc
valid_id_sound prefix (c ∷ d ∷ []) h = (
  numeral_value 0 (d ∷ []),
  ground arith,
  ap (λ x. x ∷ d ∷ []) (ground arith)
      ∙ ap (λ t. prefix ∷ t) (itoa-canonical d [] (ground arith) (λ _. refl)),
)
valid_id_sound prefix (c ∷ d ∷ e ∷ s) h = (
  numeral_value 0 (d ∷ e ∷ s),
  ground arith,
  ap (λ x. x ∷ d ∷ e ∷ s) (ground arith)
      ∙ ap (λ t. prefix ∷ t) (itoa-canonical d (e ∷ s) (ground arith) (λ z. ground arith)),
)

valid_id-digits :
    (prefix n : ℕ) (t : Bytes) → n < 4294967296 → t ≡ itoa n → valid_id prefix (prefix ∷ t) ≡ true
unfolding valid_id leading_zero
valid_id-digits prefix n [] h e = absurd (omega (arith, ap length e, length-itoa_pos n))
valid_id-digits prefix n (d ∷ []) h e =
    ground (arith, ap all_digits e, all_digits-itoa n, ap (numeral_value 0) e, value-itoa n)
valid_id-digits prefix n (d ∷ b ∷ s) h e = ground (
  arith,
  ap all_digits e,
  all_digits-itoa n,
  ap (numeral_value 0) e,
  value-itoa n,
  itoa-head n d (b ∷ s) (sym e),
)

-- `validID` accepts exactly the prefix and the decimal numeral, as it is printed, of a number below
-- 2 ^ 32.
pub valid_id_iff : (prefix : ℕ) (s : Bytes) → (valid_id prefix s ≡ true) ↔ IsId prefix s
valid_id_iff prefix s = (
  valid_id_sound prefix s,
  λ (n, h, e). ap (valid_id prefix) e ∙ valid_id-digits prefix n (itoa n) h refl,
)
