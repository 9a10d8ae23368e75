-- ===== src/Wire/Records/Parse.antt =====
-- internal/wire/records.go: `ParseRecords`, and the three readers on encoded records.
use gotmux.Prelude.{
  ℕ, zero, suc, ◌≤◌, ◌<◌, ◌≡◌, ◌≢◌, refl, sym, ap, subst, ◌∙◌, inl, inr, true, not, List, [], ◌∷◌,
  ◌++◌, append-nil, append_assoc, Bytes, All, Option, none, some, Error, err_record, Result, ok,
  err, Result-cases, length, length-append, ◌==◌, if◌then◌else◌, Bool-cases, arith,
}
use gotmux.Wire.Stream.{Stream}
use gotmux.Wire.Records.{
  max_record_fields, encode_record, Mode, scan_record, reading, read_record, read_record_fields,
  read_record_wire, to_result,
}
use gotmux.Wire.Records.RoundTrip.{Fit, accepted, length-encode_record, scan_record-encode_record}
use gotmux.Wire.Records.Sound.{scan_record_sound}

-- The loop of `ParseRecords` on the bytes left; `none` means that the fuel ran out.
parse_rows : ℕ → ℕ → List (List Bytes) → Bytes → Option (Result (List (List Bytes)))
parse_rows fuel field_count out [] = some (ok out)
parse_rows zero field_count out (c ∷ rest) = none
parse_rows (suc fuel) field_count out (c ∷ rest) =
    elim ((read_record_fields (c ∷ rest) (suc (length rest))).0) [
      | err e ↦ some (err e)
      | ok fields ↦
          let more =
            parse_rows fuel field_count (out ++ fields ∷ [])
              (read_record_fields (c ∷ rest) (suc (length rest))).1.source in
          if not (length fields == field_count) then some (err err_record) else more
    ]

-- Each record takes at least one byte, so as many rounds as there are bytes are enough.
unfoldable pub parse_records : Bytes → ℕ → Option (Result (List (List Bytes)))
unfolding parse_rows
parse_records text field_count = parse_rows (length text) field_count [] text

-- The text of a list of records.
unfoldable pub rows_text : List (List Bytes) → Bytes
rows_text [] = []
rows_text (row ∷ rows) = encode_record row ++ rows_text rows

-- An encoded record within the limits is read by all three readers, whatever follows it.
pub read-encode_record :
    (vs : List Bytes) (m : ℕ) (rest : Bytes)
    → length (encode_record vs) ≤ m
    → length vs ≤ max_record_fields
    → Fit vs
    → let after : Stream = record { source = rest; recorded = encode_record vs } in
      (read_record (encode_record vs ++ rest) m
        ≡ (record { wire = encode_record vs; fields = vs; failure = none }, after))
      × (read_record_fields (encode_record vs ++ rest) m ≡ (ok vs, after))
      × (read_record_wire (encode_record vs ++ rest) m ≡ (encode_record vs, none, after))
unfolding read_record read_record_fields read_record_wire
read-encode_record vs m rest fits few f = (
  scan_record-encode_record vs m _ rest [] fits few f,
  ap (λ p. (to_result p.0.failure p.0.fields, p.1))
      (scan_record-encode_record vs m _ rest [] fits few f),
  ap (λ p. (p.1.recorded, p.0.failure, p.1)) (scan_record-encode_record vs m _ rest [] fits few f),
)

-- A reader that succeeds on `text` has read the encoding of the fields `vs`, and no more than `m` bytes.
pub record Accepts (text : Bytes) (m : ℕ) (vs : List Bytes) (rest : Bytes) : Type 0 where
  pub whole : text ≡ encode_record vs ++ rest
  pub few : length vs ≤ max_record_fields
  pub within : length (encode_record vs) ≤ m

scan_record-Accepts :
    (m : ℕ) (mode : Mode) (text : Bytes)
    → (scan_record m mode (reading text)).0.failure ≡ none
    → (vs : List Bytes) × Accepts text m vs (scan_record m mode (reading text)).1.source
      × ((scan_record m mode (reading text)).0 ≡ accepted mode vs)
      × ((scan_record m mode (reading text)).1.recorded ≡ encode_record vs)
scan_record-Accepts m mode text h =
    let r = scan_record_sound m mode (reading text) h in
    (r.vs, record { whole = r.consumed; few = r.few; within = r.within }, r.returned, r.kept)

to_result-ok :
    {A : Type 0} (o : Option Error) (a : A) {b : A} → to_result o a ≡ ok b → (o ≡ none) × (a ≡ b)
to_result-ok none a e = (refl, cc)
to_result-ok (some x) a e = cc

pub read_record_fields-Accepts :
    (text : Bytes) (m : ℕ) {vs : List Bytes}
    → (read_record_fields text m).0 ≡ ok vs
    → Accepts text m vs (read_record_fields text m).1.source
unfolding read_record_fields
read_record_fields-Accepts text m {vs} e =
    let (clean, same) = to_result-ok _ _ e in
    let (ws, a, returned, _) = scan_record-Accepts m _ text clean in
    let ws_vs : ws ≡ vs = sym (ap (λ r. r.fields) returned) ∙ same in
    subst (λ x. Accepts text m x (read_record_fields text m).1.source) ws_vs a

-- `ReadRecord` without an error returns the fields of the record that it consumed, and its text.
pub read_record-Accepts :
    (text : Bytes) (m : ℕ)
    → (read_record text m).0.failure ≡ none
    → Accepts text m (read_record text m).0.fields (read_record text m).1.source
      × ((read_record text m).0.wire ≡ encode_record (read_record text m).0.fields)
unfolding read_record
read_record-Accepts text m e =
    let (ws, a, returned, _) = scan_record-Accepts m _ text e in
    let same = ap (λ r. r.fields) returned in
    (
      subst (λ x. Accepts text m x (read_record text m).1.source) (sym same) a,
      ap (λ r. r.wire) returned ∙ ap encode_record (sym same),
    )

-- `ReadRecordWire` without an error returns exactly the bytes that it consumed, and these are a record.
pub read_record_wire-Accepts :
    (text : Bytes) (m : ℕ)
    → (read_record_wire text m).1 ≡ none
    → (vs : List Bytes) × Accepts text m vs (read_record_wire text m).2.source
      × ((read_record_wire text m).0 ≡ encode_record vs)
unfolding read_record_wire
read_record_wire-Accepts text m e =
    let (ws, a, _, kept) = scan_record-Accepts m _ text e in (ws, a, kept)

encode_record-pos : (vs : List Bytes) → 0 < length (encode_record vs)
encode_record-pos vs = omega (arith, length-encode_record vs)

-- What a reader leaves is shorter.
pub rest_shorter :
    (text rest : Bytes) (m : ℕ) (vs : List Bytes)
    → Accepts text m vs rest
    → length rest < length text
rest_shorter text rest m vs a =
    omega (arith, ap length a.whole, length-append (encode_record vs) rest, encode_record-pos vs)

some_err :
    {A : Type 0} {e : Error} {a : A} → ◌≡◌ {A = Option (Result A)} (some (err e)) (some (ok a)) → ⊥
some_err h = cc

parse_rows_total :
    (fuel k : ℕ) (out : List (List Bytes)) (text : Bytes)
    → length text ≤ fuel
    → parse_rows fuel k out text ≢ none
unfolding parse_rows
parse_rows_total fuel k out [] h = ground arith
parse_rows_total zero k out (c ∷ rest) h = elim h [ ]
parse_rows_total (suc fuel) k out (c ∷ rest) h =
    elim (Result-cases (read_record_fields (c ∷ rest) (suc (length rest))).0) [
      | inr (e, q) ↦ rw (q, parse_rows) (λ x. cc)
      | inl (fields, q) ↦
          let shorter =
            rest_shorter (c ∷ rest) _ _ fields (read_record_fields-Accepts (c ∷ rest) _ q) in
          elim (Bool-cases (length fields == k)) [
            | inl same ↦
                rw (q, parse_rows)
                  (rw same
                    (parse_rows_total fuel k (out ++ fields ∷ []) _ (omega (arith, shorter))))
            | inr other ↦ rw (q, parse_rows) (rw other (λ x. cc))
          ]
    ]

-- `ParseRecords` always ends, in a list of records or an error.
pub parse_records_total : (text : Bytes) (k : ℕ) → parse_records text k ≢ none
unfolding parse_records
parse_records_total text k = parse_rows_total (length text) k [] text (omega arith)

-- The rows that a run of the loop adds.
record Adds (k : ℕ) (out : List (List Bytes)) (text : Bytes) (all : List (List Bytes))
    : Type 0 where
  rows : List (List Bytes)
  whole : text ≡ rows_text rows
  added : all ≡ out ++ rows
  even : All (λ row. length row ≡ k) rows

parse_rows_sound :
    (fuel k : ℕ) (out : List (List Bytes)) (text : Bytes) {all : List (List Bytes)}
    → parse_rows fuel k out text ≡ some (ok all)
    → Adds k out text all
unfolding parse_rows rows_text
parse_rows_sound fuel k out [] h = record {
  rows = [];
  whole = refl;
  added = ground (arith, append-nil out);
  even = tt;
}
parse_rows_sound zero k out (c ∷ rest) h = absurd (cc (h))
parse_rows_sound (suc fuel) k out (c ∷ rest) {all} h =
    elim (Result-cases (read_record_fields (c ∷ rest) (suc (length rest))).0) [
      | inr (e, q) ↦ absurd (some_err (rw (q, parse_rows) at h))
      | inl (fields, q) ↦
          let after = (read_record_fields (c ∷ rest) (suc (length rest))).1.source in
          let a = read_record_fields-Accepts (c ∷ rest) _ q in
          elim (Bool-cases (length fields == k)) [
            | inr other ↦ absurd (some_err (rw other at (rw (q, parse_rows) at h)))
            | inl same ↦
                let r =
                  parse_rows_sound fuel k (out ++ fields ∷ []) after
                    (rw same at (rw (q, parse_rows) at h)) in
                record {
                  rows = fields ∷ r.rows;
                  whole = a.whole ∙ ap (λ t. encode_record fields ++ t) r.whole;
                  added = r.added ∙ append_assoc out (fields ∷ []) r.rows;
                  even = (ground arith, r.even);
                }
          ]
    ]

-- Rows that `ParseRecords` accepts are what the whole text encodes, each with the wanted count of fields.
pub parse_records_sound :
    (text : Bytes) (k : ℕ) {rows : List (List Bytes)}
    → parse_records text k ≡ some (ok rows)
    → (text ≡ rows_text rows) × All (λ row. length row ≡ k) rows
unfolding parse_records
parse_records_sound text k {rows} h =
    let a = parse_rows_sound (length text) k [] text h in
    subst (λ x. (text ≡ rows_text x) × All (λ row. length row ≡ k) x) (sym a.added)
      (a.whole, a.even)

parse_rows_step :
    (fuel k : ℕ) (out : List (List Bytes)) (c : ℕ) (rest : Bytes) (row : List Bytes)
    (after : Stream)
    → read_record_fields (c ∷ rest) (suc (length rest)) ≡ (ok row, after)
    → length row ≡ k
    → parse_rows (suc fuel) k out (c ∷ rest) ≡ parse_rows fuel k (out ++ row ∷ []) after.source
unfolding parse_rows
parse_rows_step fuel k out c rest row after e h =
    let same : (length row == k) ≡ true = ground arith in
    rw (ap (λ p. p.0) e, parse_rows)
      (rw same (ap (λ p. parse_rows fuel k (out ++ row ∷ []) p.1.source) e))

parse_rows_text :
    (fuel k : ℕ) (out : List (List Bytes)) (text : Bytes) (row : List Bytes) (after : Stream)
    → read_record_fields text (length text) ≡ (ok row, after)
    → length row ≡ k
    → 0 < length text
    → parse_rows (suc fuel) k out text ≡ parse_rows fuel k (out ++ row ∷ []) after.source
parse_rows_text fuel k out [] row after e h pos = elim pos [ ]
parse_rows_text fuel k out (c ∷ rest) row after e h pos =
    parse_rows_step fuel k out c rest row after e h

-- A row within the limits of a record, with `k` fields.
abbrev pub IsRow : ℕ → List Bytes → Type 0
IsRow k row = (length row ≡ k) × (length row ≤ max_record_fields) × Fit row

parse_rows_complete :
    (rows : List (List Bytes)) (fuel k : ℕ) (out : List (List Bytes))
    → length (rows_text rows) ≤ fuel
    → All (IsRow k) rows
    → parse_rows fuel k out (rows_text rows) ≡ some (ok (out ++ rows))
unfolding parse_rows rows_text
parse_rows_complete [] fuel k out h a = rw append-nil
parse_rows_complete (row ∷ rows) zero k out h a =
    absurd
      (omega (arith, length-append (encode_record row) (rows_text rows), encode_record-pos row))
parse_rows_complete (row ∷ rows) (suc fuel) k out h a =
    let text = encode_record row ++ rows_text rows in
    let size = length-append (encode_record row) (rows_text rows) in
    parse_rows_text fuel k out text row _
      (read-encode_record row (length text) (rows_text rows) (omega (arith, size)) a.0.1 a.0.2).1
      a.0.0 (omega (arith, size, encode_record-pos row))
    ∙ parse_rows_complete rows fuel k (out ++ row ∷ [])
        (omega (arith, size, h, encode_record-pos row)) a.1
    ∙ rw append_assoc

-- The text of such rows, joined, is parsed back into them.
pub parse_records-rows_text :
    (rows : List (List Bytes)) (k : ℕ)
    → All (IsRow k) rows
    → parse_records (rows_text rows) k ≡ some (ok rows)
unfolding parse_records
parse_records-rows_text rows k a = parse_rows_complete rows _ k [] (omega arith) a
