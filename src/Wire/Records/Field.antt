-- ===== src/Wire/Records/Field.antt =====
-- One field of a record: `scanField` against the netstring that `EncodeRecord` writes.
use gotmux.Prelude.{
  ℕ, ◌+◌, ◌^◌, ◌≤◌, ◌<◌, ◌≡◌, sym, ap, ap₂, ◌∙◌, inl, inr, false, [], ◌∷◌, ◌++◌, append_assoc,
  Bytes, ok, length, length-append, ltb, ◌==◌, Bool-cases, arith,
}
use gotmux.Prelude.Decimal.{itoa, length-itoa_le}
use gotmux.Wire.Stream.{
  Stream, read_byte, read_full, expect, bind_ok, bind-eq-ok, read_full-append, read_full_sound,
  expect_cons,
}
use gotmux.Wire.Records.{netstring, decimal, scan_field, field_content, field_comma}
use gotmux.Wire.Records.Decimal.{decimal-itoa, decimal_sound}

pub length-netstring : (v : Bytes) → length (netstring v) ≡ length (itoa (length v)) + length v + 2
unfolding netstring
length-netstring v =
    omega (
      arith,
      length-append (itoa (length v)) (b':' ∷ (v ++ b',' ∷ [])),
      length-append v (b',' ∷ []),
    )

netstring-append :
    (v rest : Bytes) → netstring v ++ rest ≡ itoa (length v) ++ (b':' ∷ (v ++ (b',' ∷ rest)))
unfolding netstring
netstring-append v rest = simp append_assoc

-- The field of a netstring that fits is read whole.
pub scan_field-netstring :
    (v rest r : Bytes) (left : ℕ)
    → length (netstring v) ≤ left
    → length v < 10 ^ 19
    → scan_field left (record { source = netstring v ++ rest; recorded = r })
      ≡ (ok (v, length (netstring v)), record { source = rest; recorded = r ++ netstring v })
unfolding scan_field
scan_field-netstring v rest r left fits small =
    ap (λ src. scan_field left (record { source = src; recorded = r })) (netstring-append v rest)
    ∙ rw (n0, scan_field)
        (bind_ok (decimal left) (λ p. field_content left p.0 p.1) _
            (decimal-itoa n left tail r (omega (arith, total)) (length-itoa_le 18 n small))
          ∙ content
          ∙ ap₂ (λ k q. (ok (v, k), record { source = rest; recorded = q })) (omega (arith, total))
              whole)
  where
    n : ℕ
    n = length v

    c : ℕ
    c = length (itoa n) + 1

    total : length (netstring v) ≡ length (itoa n) + n + 2
    total = length-netstring v

    tail : Bytes
    tail = v ++ (b',' ∷ rest)

    r1 : Bytes
    r1 = r ++ (itoa n ++ b':' ∷ [])

    n0 : (left == 0) ≡ false
    n0 = ground (arith, total)

    room : ltb left (n + c + 1) ≡ false
    room = ground (arith, total)

    content :
        field_content left n c (record { source = tail; recorded = r1 })
        ≡ (ok (v, c + n + 1), record { source = rest; recorded = (r1 ++ v) ++ b',' ∷ [] })
    content =
        unfold field_content field_comma in
        rw (room, field_content)
          (bind_ok (read_full n) (field_comma (c + n + 1)) _ (read_full-append v (b',' ∷ rest) r1)
            ∙ bind_ok (expect b',') (λ _ s. (ok (v, c + n + 1), s)) _
                (expect_cons b',' rest (r1 ++ v)))

    whole : (r1 ++ v) ++ b',' ∷ [] ≡ r ++ netstring v
    whole = unfold netstring in simp append_assoc

field_comma_sound :
    (total : ℕ) (b : Bytes) (s : Stream) {v : Bytes} {n : ℕ} {t : Stream}
    → field_comma total b s ≡ (ok (v, n), t)
    → (v ≡ b) × (n ≡ total) × (s.source ≡ b',' ∷ t.source) × (t.recorded ≡ s.recorded ++ b',' ∷ [])
unfolding field_comma read_byte
field_comma_sound total b s e = (ground arith, ground arith, ground arith, ground arith)

field_content_sound :
    (left size k : ℕ) (s : Stream) {v : Bytes} {n : ℕ} {t : Stream}
    → field_content left size k s ≡ (ok (v, n), t)
    → (s.source ≡ v ++ (b',' ∷ t.source))
      × (t.recorded ≡ s.recorded ++ (v ++ b',' ∷ []))
      × (length v ≡ size)
      × (n ≡ k + size + 1)
      × (n ≤ left)
unfolding field_content field_comma
field_content_sound left size k s {v} {n} {t} e = elim (Bool-cases (ltb left (size + k + 1))) [
  | inl over ↦ absurd (ground arith)
  | inr fits ↦
      let (b, t1, e1, h1) =
        bind-eq-ok (read_full size) (field_comma (k + size + 1)) s {b = (v, n)} {u = t}
          (ground arith) in
      let (same, count, comma, kept) = field_comma_sound (k + size + 1) b t1 h1 in
      let (src, rec, len) = read_full_sound size s e1 in
      (
        src ∙ ap₂ (λ p q. p ++ q) (sym same) comma,
        kept
            ∙ ap (λ d. d ++ b',' ∷ []) rec
            ∙ append_assoc s.recorded b (b',' ∷ [])
            ∙ ap (λ d. s.recorded ++ (d ++ b',' ∷ [])) (sym same),
        ap length same ∙ len,
        count,
        ground arith,
      )
]

-- Whatever `scanField` accepts is a netstring that fits.
pub scan_field_sound :
    (left : ℕ) (s : Stream) {v : Bytes} {n : ℕ} {t : Stream}
    → scan_field left s ≡ (ok (v, n), t)
    → (s.source ≡ netstring v ++ t.source)
      × (t.recorded ≡ s.recorded ++ netstring v)
      × (n ≡ length (netstring v))
      × (n ≤ left)
unfolding scan_field
scan_field_sound left s {v} {n} {t} e = elim (Bool-cases (left == 0)) [
  | inl empty ↦ absurd (ground arith)
  | inr some_left ↦
      let (p, t1, e1, h1) =
        bind-eq-ok (decimal left) (λ p. field_content left p.0 p.1) s {b = (v, n)} {u = t}
          (ground arith) in
      let (src1, rec1, count1, _) = decimal_sound left s e1 in
      let (src2, rec2, len, count2, fits) = field_content_sound left p.0 p.1 t1 h1 in
      (
        src1 ∙ ap₂ (λ k q. itoa k ++ (b':' ∷ q)) (sym len) src2 ∙ sym (netstring-append v t.source),
        rec2
            ∙ ap₂ (λ k d. (d ++ (v ++ b',' ∷ []))) len rec1
            ∙ unfold netstring in simp (len, append_assoc),
        omega (arith, length-netstring v, count1, count2, len, ap (λ k. length (itoa k)) len),
        fits,
      )
]
