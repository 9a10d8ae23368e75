-- ===== src/Wire/Records/Consumed.antt =====
-- internal/wire/records.go: what a reader has recorded and what it leaves are what it was given, also
-- after an error.
use gotmux.Prelude.{
  ℕ, zero, suc, ◌+◌, ◌*◌, ◌-◌, ◌≡◌, refl, inl, inr, Bool, true, false, not, bytes_eq, err_record,
  List, [], ◌∷◌, ◌++◌, append-nil, append_assoc, ◌∙◌, Bytes, Error, ok, Result-cases, length,
  take-append-drop, ltb, ◌==◌, if◌then◌else◌, drop, take, ap, arith,
}
use gotmux.Wire.Stream.{Stream, Read, fails, read_byte, read_full, expect, ◌>>=◌}
use gotmux.Wire.Records.{
  Mode, record_prefix, max_record_fields, min_record_overhead, keep_if, netstring, wire_header,
  decimal_loop, decimal, field_comma, field_content, scan_field, header_count, scan_record_header,
  scan_end, scan_fields, scan_record, read_record_wire, reading,
}

-- The bytes recorded and the bytes left, which no step changes.
abbrev total : Stream → Bytes
total s = s.recorded ++ s.source

abbrev Keeps : {A : Type 0} → Read A → Type 0
Keeps m = (s : Stream) → total (m s).1 ≡ total s

bind-Keeps :
    {A B : Type 0} (m : Read A) (f : A → Read B)
    → Keeps m
    → ((a : A) → Keeps (f a))
    → Keeps (m >>= f)
bind-Keeps m f c d s = elim (Result-cases (m s).0) [
  | inl (a, q) ↦ rw (◌>>=◌, q) (d a (m s).1 ∙ c s)
  | inr (e, q) ↦ rw (◌>>=◌, q) (c s)
]

read_full-Keeps : (n : ℕ) → Keeps (read_full n)
unfolding read_full
read_full-Keeps n s = ground (
  arith,
  append-nil (s.recorded ++ s.source),
  append_assoc s.recorded (take n s.source) (drop n s.source),
  take-append-drop n s.source,
)

fails-Keeps : (A : Type 0) (e : Error) → Keeps (fails {A = A} e)
fails-Keeps A e s = refl

if-Keeps : {A : Type 0} (b : Bool) (m n : Read A) → Keeps m → Keeps n → Keeps (if b then m else n)
if-Keeps true m n c d = c
if-Keeps false m n c d = d

read_byte-keeps :
    (src d : Bytes) → total (read_byte (record { source = src; recorded = d })).1 ≡ d ++ src
unfolding read_byte
read_byte-keeps [] d = refl
read_byte-keeps (c ∷ src) d = append_assoc d (c ∷ []) src

expect-Keeps : (c : ℕ) → Keeps (expect c)
expect-Keeps c =
    bind-Keeps read_byte (λ ch. if ch == c then (λ s. (ok tt, s)) else fails err_record)
      (λ s. read_byte-keeps s.source s.recorded)
      (λ ch. if-Keeps (ch == c) _ _ (λ s. refl) (fails-Keeps (Unit {0}) err_record))

decimal_loop-Keeps :
    (m v n : ℕ) (z : Bool) (s d : Bytes) → total (decimal_loop m v n z s d).1 ≡ d ++ s
unfolding decimal_loop
decimal_loop-Keeps m v n z [] d = refl
decimal_loop-Keeps m v n z (c ∷ s) d = ground (
  arith,
  append_assoc d (c ∷ []) s,
  decimal_loop-Keeps m (v * 10 + (c - b'0')) (suc n) (if suc n == 1 then c == b'0' else z) s
      (d ++ c ∷ []),
)

decimal-Keeps : (m : ℕ) → Keeps (decimal m)
unfolding decimal
decimal-Keeps m s = decimal_loop-Keeps m 0 0 _ s.source s.recorded

field_comma-Keeps : (total : ℕ) (b : Bytes) → Keeps (field_comma total b)
unfolding field_comma
field_comma-Keeps total b =
    bind-Keeps (expect b',') (λ _ s. (ok (b, total), s)) (expect-Keeps b',') (λ a s. refl)

field_content-Keeps : (left size n : ℕ) → Keeps (field_content left size n)
unfolding field_content
field_content-Keeps left size n =
    if-Keeps (ltb left (size + n + 1)) _ _ (fails-Keeps (Bytes × ℕ) err_record) (
      bind-Keeps (read_full size) (field_comma (n + size + 1)) (read_full-Keeps size)
        (field_comma-Keeps (n + size + 1)))

scan_field-Keeps : (left : ℕ) → Keeps (scan_field left)
unfolding scan_field
scan_field-Keeps left = if-Keeps (left == 0) _ _ (fails-Keeps (Bytes × ℕ) err_record) (
    bind-Keeps (decimal left) (λ r. field_content left r.0 r.1) (decimal-Keeps left)
      (λ r. field_content-Keeps left r.0 r.1))

header_count-Keeps : (p : Bytes) → Keeps (header_count p)
unfolding header_count
header_count-Keeps p =
    if-Keeps (not (bytes_eq p record_prefix)) _ _ (fails-Keeps (ℕ × ℕ) err_record) (
      bind-Keeps (decimal max_record_fields) (λ r s. (ok (r.0, length record_prefix + r.1), s))
        (decimal-Keeps max_record_fields) (λ r s. refl))

scan_record_header-Keeps : (m : ℕ) → Keeps (scan_record_header m)
unfolding scan_record_header
scan_record_header-Keeps m =
    if-Keeps (ltb m (length record_prefix + min_record_overhead)) _ _
      (fails-Keeps (ℕ × ℕ) err_record)
      (bind-Keeps (read_full (length record_prefix)) header_count
        (read_full-Keeps (length record_prefix)) header_count-Keeps)

scan_end-Keeps :
    (m : ℕ) (mode : Mode) (used : ℕ) (w : Bytes) (f : List Bytes) (s : Stream)
    → total (scan_end m mode used w f s).1 ≡ total s
unfolding scan_end
scan_end-Keeps m mode used w f s = elim (Result-cases (expect b'\n' s).0) [
  | inl (a, q) ↦ rw (scan_end, q) (ground (arith, expect-Keeps b'\n' s))
  | inr (e, q) ↦ rw (scan_end, q) (ground (arith, expect-Keeps b'\n' s))
]

scan_fields-next :
    (m : ℕ) (mode : Mode) (n used : ℕ) (w : Bytes) (f : List Bytes) (s : Stream) (a : Bytes × ℕ)
    → (scan_field (m - used) s).0 ≡ ok a
    → scan_fields m mode (suc n) used w f s
      ≡ scan_fields m mode n
          (used + a.1)
          (keep_if mode.want_wire w (netstring a.0))
          (keep_if mode.want_fields f (a.0 ∷ []))
          (scan_field (m - used) s).1
unfolding scan_fields
scan_fields-next m mode n used w f s a q = rw (scan_fields, q) refl

scan_fields-Keeps :
    (m : ℕ) (mode : Mode) (n used : ℕ) (w : Bytes) (f : List Bytes) (s : Stream)
    → total (scan_fields m mode n used w f s).1 ≡ total s
unfolding scan_fields
scan_fields-Keeps m mode zero used w f s = scan_end-Keeps m mode used w f s
scan_fields-Keeps m mode (suc n) used w f s = elim (Result-cases (scan_field (m - used) s).0) [
  | inl (a, q) ↦
      let after = (scan_field (m - used) s).1 in
      let k =
        scan_fields-Keeps m mode n (used + a.1) (keep_if mode.want_wire w (netstring a.0))
          (keep_if mode.want_fields f (a.0 ∷ [])) after in
      let next = scan_fields-next m mode n used w f s a q in
      ap (λ r. total r.1) next ∙ k ∙ scan_field-Keeps (m - used) s
  | inr (e, q) ↦ rw (scan_fields, q) (scan_field-Keeps (m - used) s)
]

pub scan_record-Keeps :
    (m : ℕ) (mode : Mode) (s : Stream) → total (scan_record m mode s).1 ≡ total s
unfolding scan_record
scan_record-Keeps m mode s = elim (Result-cases (scan_record_header m s).0) [
  | inl (a, q) ↦
      let k =
        scan_fields-Keeps m mode a.0 a.1 (wire_header mode a.0) [] (scan_record_header m s).1 in
      rw (scan_record, q) (k ∙ scan_record_header-Keeps m s)
  | inr (e, q) ↦ rw (scan_record, q) (scan_record_header-Keeps m s)
]

pub read_record_wire_keeps :
    (s : Bytes) (m : ℕ) → (read_record_wire s m).0 ++ (read_record_wire s m).2.source ≡ s
unfolding read_record_wire
read_record_wire_keeps s m = scan_record-Keeps m _ (reading s)
