-- ===== src/Wire/Records/Sound.antt =====
-- Only encoded records are accepted: what `scanRecord` reads is `EncodeRecord` of what it returns.
use gotmux.Prelude.{
  ℕ, zero, suc, ◌+◌, ◌-◌, ◌≤◌, ◌<◌, ◌≡◌, refl, sym, ap, ap₂, ◌∙◌, inl, inr, List, [], ◌∷◌, ◌++◌,
  append_assoc, Bytes, Option, none, some, ok, Result-cases, length, length-append, bytes_eq,
  bytes_eq_iff, ltb, Bool-cases, arith,
}
use gotmux.Prelude.Decimal.{itoa}
use gotmux.Wire.Stream.{Stream, read_byte, read_full, bind-eq-ok, read_full_sound}
use gotmux.Wire.Records.{
  record_prefix, max_record_fields, netstring, netstrings, encode_record, decimal, scan_field, Mode,
  Scanned, keep_if, scan_end, scan_fields, header_count, scan_record_header, scan_record,
  wire_header,
}
use gotmux.Wire.Records.Decimal.{decimal_sound}
use gotmux.Wire.Records.Field.{scan_field_sound}
use gotmux.Wire.Records.RoundTrip.{
  ended, accepted, ended-accepted, keep_if_nil, keep_if_twice, length-encode_record,
  encode_record-append,
}

-- The scan `p`, from stream `s` with `count` fields to go and `used` bytes spent, read the fields `vs`
-- and the terminator, and nothing else.
record ReadsFields (m : ℕ) (mode : Mode) (count used : ℕ) (wire : Bytes) (fields : List Bytes)
    (s : Stream) (p : Scanned × Stream) : Type 0 where
  vs : List Bytes
  counted : length vs ≡ count
  within : used + length (netstrings vs) < m
  consumed : s.source ≡ netstrings vs ++ (b'\n' ∷ p.1.source)
  kept : p.1.recorded ≡ s.recorded ++ (netstrings vs ++ b'\n' ∷ [])
  returned :
      p.0
      ≡ ended mode
          (keep_if mode.want_wire wire (netstrings vs))
          (keep_if mode.want_fields fields vs)

scan_end_sound :
    (m : ℕ) (mode : Mode) (used : ℕ) (wire : Bytes) (fields : List Bytes) (s : Stream)
    → (scan_end m mode used wire fields s).0.failure ≡ none
    → (used < m)
      × (s.source ≡ b'\n' ∷ (scan_end m mode used wire fields s).1.source)
      × ((scan_end m mode used wire fields s).1.recorded ≡ s.recorded ++ b'\n' ∷ [])
      × ((scan_end m mode used wire fields s).0 ≡ ended mode wire fields)
unfolding scan_end read_byte
scan_end_sound m mode used wire fields s h =
    (ground arith, ground arith, ground arith, ground arith)

some≢none : {A : Type 0} {a : A} → ◌≡◌ {A = Option A} (some a) none → ⊥
some≢none e = cc

scan_fields_sound :
    (count m : ℕ) (mode : Mode) (used : ℕ) (wire : Bytes) (fields : List Bytes) (s : Stream)
    → (scan_fields m mode count used wire fields s).0.failure ≡ none
    → ReadsFields m mode count used wire fields s (scan_fields m mode count used wire fields s)
unfolding scan_fields netstrings
scan_fields_sound zero m mode used wire fields s h =
    let (within, source, recorded, returned) = scan_end_sound m mode used wire fields s h in
    record {
      vs = [];
      counted = refl;
      within = omega arith;
      consumed = source;
      kept = recorded;
      returned = returned ∙ (λ i.
          ended mode (sym (keep_if_nil mode.want_wire wire) i)
            (sym (keep_if_nil mode.want_fields fields) i));
    }
scan_fields_sound (suc count) m mode used wire fields s h =
    elim (Result-cases (scan_field (m - used) s).0) [
      | inr (e, q) ↦ absurd (some≢none (rw (q, scan_fields) at h))
      | inl ((b, n), q) ↦
          let t = (scan_field (m - used) s).1 in
          let w = keep_if mode.want_wire wire (netstring b) in
          let fs = keep_if mode.want_fields fields (b ∷ []) in
          let field = scan_field_sound (m - used) s {v = b} {n = n} {t = t} (λ i. (q i, t)) in
          let rest = scan_fields_sound count m mode (used + n) w fs t (rw (q, scan_fields) at h) in
          rw (q, scan_fields)
            (record {
              vs = b ∷ rest.vs;
              counted = ap suc rest.counted;
              within =
                  omega
                    (arith, rest.within, field.2, length-append (netstring b) (netstrings rest.vs));
              consumed =
                  field.0
                  ∙ ap (λ p. netstring b ++ p) rest.consumed
                  ∙ sym (append_assoc (netstring b) (netstrings rest.vs) _);
              kept =
                  rest.kept
                  ∙ ap (λ d. d ++ (netstrings rest.vs ++ b'\n' ∷ [])) field.1
                  ∙ simp append_assoc;
              returned = rest.returned ∙ (λ i.
                  ended mode
                    (keep_if_twice mode.want_wire wire (netstring b) (netstrings rest.vs) i)
                    (keep_if_twice mode.want_fields fields (b ∷ []) rest.vs i));
            })
    ]

header_count_sound :
    (prefix : Bytes) (s : Stream) {count used : ℕ} {t : Stream}
    → header_count prefix s ≡ (ok (count, used), t)
    → (prefix ≡ record_prefix)
      × (s.source ≡ itoa count ++ (b':' ∷ t.source))
      × (t.recorded ≡ s.recorded ++ (itoa count ++ b':' ∷ []))
      × (used ≡ 5 + (length (itoa count) + 1))
      × (count ≤ max_record_fields)
unfolding header_count
header_count_sound prefix s {count} {used} {t} e =
    elim (Bool-cases (bytes_eq prefix record_prefix)) [
      | inr other ↦ absurd (ground arith)
      | inl same ↦
          let (p, t1, e1, h1) =
            bind-eq-ok (decimal max_record_fields) (λ p s. (ok (p.0, 5 + p.1), s)) s
              {b = (count, used)} {u = t} (rw (same, header_count) at e) in
          let (src, rec, c, bound) = decimal_sound max_record_fields s e1 in
          (
            (bytes_eq_iff prefix record_prefix).0 same,
            ground arith,
            ground arith,
            ground arith,
            ground arith,
          )
    ]

scan_record_header_sound :
    (m : ℕ) (s : Stream) {count used : ℕ} {t : Stream}
    → scan_record_header m s ≡ (ok (count, used), t)
    → (s.source ≡ record_prefix ++ (itoa count ++ (b':' ∷ t.source)))
      × (t.recorded ≡ s.recorded ++ (record_prefix ++ (itoa count ++ b':' ∷ [])))
      × (used ≡ 5 + (length (itoa count) + 1))
      × (count ≤ max_record_fields)
unfolding scan_record_header
scan_record_header_sound m s {count} {used} {t} e = elim (Bool-cases (ltb m 8)) [
  | inl small ↦ absurd (ground arith)
  | inr big ↦
      let (p, t1, e1, h1) =
        bind-eq-ok (read_full 5) header_count s {b = (count, used)} {u = t}
          (rw (big, scan_record_header) at e) in
      let (src1, rec1, len) = read_full_sound 5 s e1 in
      let (same, src2, rec2, u, few) = header_count_sound p t1 h1 in
      (
        src1 ∙ ap₂ (λ a b. a ++ b) same src2,
        rec2
            ∙ ap (λ d. d ++ (itoa count ++ b':' ∷ [])) (rec1 ∙ ap (λ a. s.recorded ++ a) same)
            ∙ append_assoc s.recorded record_prefix (itoa count ++ b':' ∷ []),
        u,
        few,
      )
]

-- What a scan that ends without an error has read.
pub record Scans (m : ℕ) (mode : Mode) (s : Stream) (p : Scanned × Stream) : Type 0 where
  pub vs : List Bytes
  pub few : length vs ≤ max_record_fields
  pub within : length (encode_record vs) ≤ m
  pub consumed : s.source ≡ encode_record vs ++ p.1.source
  pub kept : p.1.recorded ≡ s.recorded ++ encode_record vs
  pub returned : p.0 ≡ accepted mode vs

encode_kept :
    (vs : List Bytes) (d : Bytes)
    → (d ++ (record_prefix ++ (itoa (length vs) ++ b':' ∷ []))) ++ (netstrings vs ++ b'\n' ∷ [])
      ≡ d ++ encode_record vs
unfolding encode_record
encode_kept vs d = simp append_assoc

pub scan_record_sound :
    (m : ℕ) (mode : Mode) (s : Stream)
    → (scan_record m mode s).0.failure ≡ none
    → Scans m mode s (scan_record m mode s)
unfolding scan_record
scan_record_sound m mode s h = elim (Result-cases (scan_record_header m s).0) [
  | inr (e, q) ↦ absurd (some≢none (rw (q, scan_record) at h))
  | inl ((count, used), q) ↦
      let t = (scan_record_header m s).1 in
      let (src, rec, u, few) =
        scan_record_header_sound m s {count = count} {used = used} {t = t} (λ i. (q i, t)) in
      let r =
        scan_fields_sound count m mode used (wire_header mode count) [] t
          (rw (q, scan_record) at h) in
      let n = r.counted in
      let left : Bytes = (scan_fields m mode count used (wire_header mode count) [] t).1.source in
      rw (q, scan_record)
        (record {
          vs = r.vs;
          few = omega (arith, n, few);
          within =
              omega (arith, r.within, u, length-encode_record r.vs, ap (λ k. length (itoa k)) n);
          consumed =
              src
              ∙ ap (λ p. record_prefix ++ (itoa count ++ (b':' ∷ p))) r.consumed
              ∙ ap (λ k. record_prefix ++ (itoa k ++ (b':' ∷ (netstrings r.vs ++ (b'\n' ∷ left)))))
                  (sym n)
              ∙ sym (encode_record-append r.vs left);
          kept =
              r.kept
              ∙ ap (λ d. d ++ (netstrings r.vs ++ b'\n' ∷ [])) rec
              ∙ ap
                  (λ k.
                    (s.recorded ++ (record_prefix ++ (itoa k ++ b':' ∷ [])))
                    ++ (netstrings r.vs ++ b'\n' ∷ []))
                  (sym n)
              ∙ encode_kept r.vs s.recorded;
          returned =
              r.returned
              ∙ ap
                  (λ k.
                    ended mode (keep_if mode.want_wire (wire_header mode k) (netstrings r.vs))
                      (keep_if mode.want_fields [] r.vs))
                  (sym n)
              ∙ ended-accepted mode r.vs;
        })
]
