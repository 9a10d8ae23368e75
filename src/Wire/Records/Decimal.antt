-- ===== src/Wire/Records/Decimal.antt =====
-- The lengths of a record: what `decimal` accepts is the numeral that `itoa` prints, and no other.
use gotmux.Prelude.{
  ℕ, zero, suc, ◌+◌, ◌-◌, ◌*◌, ◌/◌, ◌%◌, ◌≤◌, ◌<◌, ◌≡◌, refl, sym, ap, ◌∙◌, inl, inr, Bool, true,
  false, [], ◌∷◌, ◌++◌, append-nil, append_assoc, Bytes, ok, length, length-append, ltb, ◌==◌,
  if◌then◌else◌, Bool-cases, ltb→lt, arith,
}
use gotmux.Prelude.Decimal.{itoa, itoa-small, itoa-snoc, itoa-split, length-itoa_pos}
use gotmux.Wire.Stream.{Stream}
use gotmux.Wire.Records.{decimal_loop, decimal}

-- One digit that keeps the value within the bound.
decimal_loop-digit :
    (m v k : ℕ) (z : Bool) (d : ℕ) (rest r : Bytes)
    → d < 10
    → k < 19
    → v * 10 + d ≤ m
    → (z ≡ true → k ≡ 0)
    → decimal_loop m v k z ((b'0' + d) ∷ rest) r
      ≡ decimal_loop m
          (v * 10 + d)
          (suc k)
          (if suc k == 1 then b'0' + d == b'0' else z)
          rest
          (r ++ (b'0' + d) ∷ [])
unfolding decimal_loop
decimal_loop-digit m v k z d rest r hd hk hm hz =
    let e : (b'0' + d) - b'0' ≡ d = omega arith in rw e (ground arith)

-- The same, with the new variables given by equations.
decimal_loop-step :
    (m v k : ℕ) (z : Bool) (d : ℕ) (rest r : Bytes) (v' k' : ℕ) (z' : Bool)
    → d < 10
    → k < 19
    → v' ≤ m
    → (z ≡ true → k ≡ 0)
    → v' ≡ v * 10 + d
    → k' ≡ suc k
    → z' ≡ (if suc k == 1 then d == 0 else z)
    → decimal_loop m v k z ((b'0' + d) ∷ rest) r
      ≡ decimal_loop m v' k' z' rest (r ++ (b'0' + d) ∷ [])
decimal_loop-step m v k z d rest r v' k' z' hd hk hm hz ev ek ez =
    decimal_loop-digit m v k z d rest r hd hk (omega arith) hz
    ∙ (λ i. decimal_loop m (sym ev i) (sym ek i) (flag i) rest (r ++ (b'0' + d) ∷ []))
  where
    flag : (if suc k == 1 then b'0' + d == b'0' else z) ≡ z'
    flag = ground arith

decimal_loop-itoa :
    (f n m : ℕ) (rest r : Bytes)
    → n < f
    → n ≤ m
    → length (itoa n) ≤ 19
    → decimal_loop m 0 0 false (itoa n ++ rest) r
      ≡ decimal_loop m n (length (itoa n)) (n == 0) rest (r ++ itoa n)
decimal_loop-itoa zero n m rest r h hm hl = elim h [ ]
decimal_loop-itoa (suc f) n m rest r h hm hl = elim (Bool-cases (ltb n 10)) [
  | inl small ↦ rw (itoa-small n (ltb→lt n 10 small)) (
      decimal_loop-step m 0 0 false n rest r n 1 (n == 0) (ltb→lt n 10 small) (omega arith) hm
        (λ e. refl) (omega arith) refl (ground arith))
  | inr big ↦
      let split = itoa-split n (ground arith) in
      let front = itoa (n / 10) in
      let last = length-append front ((b'0' + n % 10) ∷ []) in
      let hf : length front < 19 = omega (arith, ap length split, last) in
      ap (λ t. decimal_loop m 0 0 false (t ++ rest) r) split
      ∙ ap (λ t. decimal_loop m 0 0 false t r) (append_assoc front ((b'0' + n % 10) ∷ []) rest)
      ∙ decimal_loop-itoa f (n / 10) m ((b'0' + n % 10) ∷ rest) r (ground arith) (omega arith)
          (omega arith)
      ∙ decimal_loop-step m (n / 10) (length front) (n / 10 == 0) (n % 10) rest (r ++ front) n
          (length (itoa n)) (n == 0) (omega arith) hf hm (λ e. ground arith) (omega arith)
          (omega (arith, ap length split, last)) (ground (arith, length-itoa_pos (n / 10)))
      ∙ ap (decimal_loop m n (length (itoa n)) (n == 0) rest)
          (append_assoc r front ((b'0' + n % 10) ∷ []) ∙ ap (λ t. r ++ t) (sym split))
]

-- `decimal` reads the numeral of every number within its bound, up to nineteen digits.
pub decimal-itoa :
    (n m : ℕ) (rest r : Bytes)
    → n ≤ m
    → length (itoa n) ≤ 19
    → decimal m (record { source = itoa n ++ (b':' ∷ rest); recorded = r }) ≡ (
      ok (n, length (itoa n) + 1),
      record { source = rest; recorded = r ++ (itoa n ++ b':' ∷ []) },
    )
unfolding decimal
decimal-itoa n m rest r hm hl =
    decimal_loop-itoa (suc n) n m (b':' ∷ rest) r (omega arith) hm hl
    ∙ rw (sym (append_assoc r (itoa n) (b':' ∷ []))) (ground (arith, length-itoa_pos n))

-- What is known of a result of `decimal_loop` after a numeral `pre`: the digits `ds` and a colon
-- were read, and `pre` and `ds` make up the numeral of the value.
record Numeral (m : ℕ) (pre src r : Bytes) (k w c : ℕ) (t : Stream) : Type 0 where
  ds : Bytes
  consumed : src ≡ ds ++ (b':' ∷ t.source)
  printed : pre ++ ds ≡ itoa w
  kept : t.recorded ≡ r ++ (ds ++ b':' ∷ [])
  counted : c ≡ k + length ds + 1
  bounded : w ≤ m

-- A digit that is accepted behind another keeps the value within the bound, and the first is no zero.
decimal_loop-inv :
    (m v k ch : ℕ) (rest r : Bytes) {w c : ℕ} {t : Stream}
    → (ch == b':') ≡ false
    → decimal_loop m v (suc k) (v == 0) (ch ∷ rest) r ≡ (ok (w, c), t)
    → (ch ≡ b'0' + (ch - b'0'))
      × (ch - b'0' < 10)
      × (0 < v)
      × (v * 10 + (ch - b'0') ≤ m)
      × (decimal_loop m
            (v * 10 + (ch - b'0'))
            (suc (suc k))
            (v * 10 + (ch - b'0') == 0)
            rest
            (r ++ ch ∷ [])
          ≡ (ok (w, c), t))
unfolding decimal_loop
decimal_loop-inv m v k ch rest r digit e =
    (ground arith, ground arith, ground arith, ground arith, ground arith)

decimal_loop_sound :
    (m v k : ℕ) (src r : Bytes) {w c : ℕ} {t : Stream}
    → v ≤ m
    → decimal_loop m v (suc k) (v == 0) src r ≡ (ok (w, c), t)
    → Numeral m (itoa v) src r (suc k) w c t
unfolding decimal_loop
decimal_loop_sound m v k [] r h e = ground arith
decimal_loop_sound m v k (ch ∷ rest) r {w} {c} {t} h e = elim (Bool-cases (ch == b':')) [
  | inl colon ↦ record {
    ds = [];
    consumed = ground arith;
    printed = append-nil (itoa v) ∙ ground arith;
    kept = ground arith;
    counted = ground arith;
    bounded = ground arith;
  }
  | inr digit ↦
      let (shape, small, pos, fits, later) = decimal_loop-inv m v k ch rest r digit e in
      let d : ℕ = ch - b'0' in
      let n = decimal_loop_sound m (v * 10 + d) (suc k) rest (r ++ ch ∷ []) fits later in
      record {
        ds = ch ∷ n.ds;
        consumed = ap (◌∷◌ ch) n.consumed;
        printed =
            ap (λ x. itoa v ++ (x ∷ n.ds)) shape
            ∙ sym (append_assoc (itoa v) ((b'0' + d) ∷ []) n.ds)
            ∙ ap (λ p. p ++ n.ds) (sym (itoa-snoc v d pos small))
            ∙ n.printed;
        kept = n.kept ∙ append_assoc r (ch ∷ []) (n.ds ++ b':' ∷ []);
        counted = omega (arith, n.counted);
        bounded = n.bounded;
      }
]

first_inv :
    (m ch : ℕ) (rest r : Bytes) {w c : ℕ} {t : Stream}
    → decimal_loop m 0 0 false (ch ∷ rest) r ≡ (ok (w, c), t)
    → (ch ≡ b'0' + (ch - b'0'))
      × (ch - b'0' < 10)
      × (ch - b'0' ≤ m)
      × (decimal_loop m (ch - b'0') 1 (ch - b'0' == 0) rest (r ++ ch ∷ []) ≡ (ok (w, c), t))
unfolding decimal_loop
first_inv m ch rest r e = (ground arith, ground arith, ground arith, ground arith)

sound_from :
    (m : ℕ) (src r : Bytes) {w c : ℕ} {t : Stream}
    → decimal_loop m 0 0 false src r ≡ (ok (w, c), t)
    → (src ≡ itoa w ++ (b':' ∷ t.source))
      × (t.recorded ≡ r ++ (itoa w ++ b':' ∷ []))
      × (c ≡ length (itoa w) + 1)
      × (w ≤ m)
sound_from m [] r e = unfold decimal_loop in cc
sound_from m (ch ∷ rest) r {w} {c} {t} e =
    let (shape, small, fits, later) = first_inv m ch rest r e in
    let d : ℕ = ch - b'0' in
    let n = decimal_loop_sound m d 0 rest (r ++ ch ∷ []) fits later in
    let whole : ch ∷ n.ds ≡ itoa w =
      ap (λ x. x ∷ n.ds) shape ∙ ap (λ p. p ++ n.ds) (sym (itoa-small d small)) ∙ n.printed in
    (
      ap (◌∷◌ ch) n.consumed ∙ ap (λ p. p ++ (b':' ∷ t.source)) whole,
      n.kept ∙ append_assoc r (ch ∷ []) (n.ds ++ b':' ∷ []) ∙ ap (λ p. r ++ (p ++ b':' ∷ [])) whole,
      omega (arith, n.counted, ap length whole),
      n.bounded,
    )

-- Whatever `decimal` accepts is the numeral of its value, which is within the bound.
pub decimal_sound :
    (m : ℕ) (s : Stream) {w c : ℕ} {t : Stream}
    → decimal m s ≡ (ok (w, c), t)
    → (s.source ≡ itoa w ++ (b':' ∷ t.source))
      × (t.recorded ≡ s.recorded ++ (itoa w ++ b':' ∷ []))
      × (c ≡ length (itoa w) + 1)
      × (w ≤ m)
unfolding decimal
decimal_sound m s e = sound_from m s.source s.recorded e
