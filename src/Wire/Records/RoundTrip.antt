-- ===== src/Wire/Records/RoundTrip.antt =====
-- Whole records: `scanRecord` against `EncodeRecord`.
use gotmux.Prelude.{
  ℕ, suc, ◌+◌, ◌-◌, ◌^◌, ◌≤◌, ◌<◌, ◌≡◌, refl, sym, ap, ap₂, ◌∙◌, Bool, true, false, List, [], ◌∷◌,
  ◌++◌, append-nil, append_assoc, Bytes, All, none, ok, length, length-append, ltb, if◌then◌else◌,
  arith,
}
use gotmux.Prelude.Decimal.{itoa, length-itoa_le, length-itoa_pos}
use gotmux.Wire.Stream.{read_byte, read_full, bind_ok, read_full-append}
use gotmux.Wire.Records.{
  record_prefix, max_record_fields, netstring, netstrings, encode_record, decimal, scan_field, Mode,
  Scanned, keep_if, scan_end, scan_fields, header_count, scan_record_header, scan_record,
  wire_header,
}
use gotmux.Wire.Records.Decimal.{decimal-itoa}
use gotmux.Wire.Records.Field.{scan_field-netstring}

pub keep_if_twice :
    {A : Type 0} (w : Bool) (kept p q : List A)
    → keep_if w (keep_if w kept p) q ≡ keep_if w kept (p ++ q)
keep_if_twice true kept p q = append_assoc kept p q
keep_if_twice false kept p q = refl

pub keep_if_nil : {A : Type 0} (w : Bool) (kept : List A) → keep_if w kept [] ≡ kept
keep_if_nil true kept = append-nil kept
keep_if_nil false kept = refl

-- Every value is shorter than ten digits' worth of digits can count: the source's lengths are int64.
abbrev pub Fit : List Bytes → Type 0
Fit = All (λ v. length v < 10 ^ 19)

-- What is returned after the last field.
abbrev pub ended : Mode → Bytes → List Bytes → Scanned
ended mode wire fields = record {
  wire = if mode.want_wire then wire ++ b'\n' ∷ [] else [];
  fields = fields;
  failure = none;
}

scan_end_feed :
    (m : ℕ) (mode : Mode) (used : ℕ) (wire : Bytes) (fields : List Bytes) (rest r : Bytes)
    → used < m
    → scan_end m mode used wire fields (record { source = b'\n' ∷ rest; recorded = r })
      ≡ (ended mode wire fields, record { source = rest; recorded = r ++ b'\n' ∷ [] })
unfolding scan_end read_byte
scan_end_feed m mode used wire fields rest r h = ground arith

scan_fields-netstrings :
    (vs : List Bytes) (m : ℕ) (mode : Mode) (used : ℕ) (wire : Bytes) (fields : List Bytes)
    (rest r : Bytes)
    → used + length (netstrings vs) < m
    → Fit vs
    → scan_fields m mode
        (length vs)
        used
        wire
        fields
        (record { source = netstrings vs ++ (b'\n' ∷ rest); recorded = r })
      ≡ (
        ended mode
            (keep_if mode.want_wire wire (netstrings vs))
            (keep_if mode.want_fields fields vs),
        record { source = rest; recorded = r ++ (netstrings vs ++ b'\n' ∷ []) },
      )
unfolding scan_fields netstrings
scan_fields-netstrings [] m mode used wire fields rest r h f =
    scan_end_feed m mode used wire fields rest r (omega arith)
    ∙ ap₂ (λ w fs. (ended mode w fs, record { source = rest; recorded = r ++ b'\n' ∷ [] }))
        (sym (keep_if_nil mode.want_wire wire)) (sym (keep_if_nil mode.want_fields fields))
scan_fields-netstrings (v ∷ vs) m mode used wire fields rest r h f =
    ap
      (λ src.
        scan_fields m mode (suc (length vs)) used wire fields
          (record { source = src; recorded = r }))
      (append_assoc (netstring v) (netstrings vs) (b'\n' ∷ rest))
    ∙ rw (one, scan_fields)
        (ap (scan_fields m mode (length vs) (used + length (netstring v)) _ _) (ap (λ p. p.1) one)
          ∙ scan_fields-netstrings vs m mode (used + length (netstring v))
              (keep_if mode.want_wire wire (netstring v)) (keep_if mode.want_fields fields (v ∷ []))
              rest (r ++ netstring v) (omega (arith, length-append (netstring v) (netstrings vs)))
              f.1
          ∙ (λ i. (
            ended mode (keep_if_twice mode.want_wire wire (netstring v) (netstrings vs) i)
                (keep_if_twice mode.want_fields fields (v ∷ []) vs i),
            record { source = rest; recorded = kept i },
          )))
  where
    kept :
        (r ++ netstring v) ++ (netstrings vs ++ b'\n' ∷ [])
        ≡ r ++ ((netstring v ++ netstrings vs) ++ b'\n' ∷ [])
    kept = simp append_assoc

    one :
        scan_field
          (m - used)
          (record { source = netstring v ++ (netstrings vs ++ (b'\n' ∷ rest)); recorded = r })
        ≡ (
          ok (v, length (netstring v)),
          record { source = netstrings vs ++ (b'\n' ∷ rest); recorded = r ++ netstring v },
        )
    one =
        scan_field-netstring v _ r (m - used)
          (omega (arith, length-append (netstring v) (netstrings vs))) f.0

scan_record_header-prefix :
    (m n : ℕ) (rest r : Bytes)
    → 8 ≤ m
    → n ≤ max_record_fields
    → scan_record_header m
        (record { source = record_prefix ++ (itoa n ++ (b':' ∷ rest)); recorded = r })
      ≡ (
        ok (n, 5 + (length (itoa n) + 1)),
        record { source = rest; recorded = (r ++ record_prefix) ++ (itoa n ++ b':' ∷ []) },
      )
unfolding scan_record_header header_count
scan_record_header-prefix m n rest r big few =
    let room : ltb m 8 ≡ false = ground arith in
    rw (room, scan_record_header)
      (bind_ok (read_full 5) header_count _
          (read_full-append record_prefix (itoa n ++ (b':' ∷ rest)) r)
        ∙ bind_ok (decimal max_record_fields) (λ p s. (ok (p.0, 5 + p.1), s)) _
            (decimal-itoa n max_record_fields rest (r ++ record_prefix) few
              (length-itoa_le 18 n (omega arith))))

pub length-encode_record :
    (vs : List Bytes)
    → length (encode_record vs) ≡ 5 + length (itoa (length vs)) + 1 + length (netstrings vs) + 1
unfolding encode_record
length-encode_record vs = omega (
  arith,
  length-append (itoa (length vs)) (b':' ∷ (netstrings vs ++ b'\n' ∷ [])),
  length-append (netstrings vs) (b'\n' ∷ []),
)

pub encode_record-append :
    (vs : List Bytes) (rest : Bytes)
    → encode_record vs ++ rest
      ≡ record_prefix ++ (itoa (length vs) ++ (b':' ∷ (netstrings vs ++ (b'\n' ∷ rest))))
unfolding encode_record
encode_record-append vs rest = simp append_assoc

-- What a successful scan returns.
abbrev pub accepted : Mode → List Bytes → Scanned
accepted mode vs = record {
  wire = if mode.want_wire then encode_record vs else [];
  fields = if mode.want_fields then vs else [];
  failure = none;
}

pub ended-accepted :
    (mode : Mode) (vs : List Bytes)
    → ended mode
        (keep_if mode.want_wire (wire_header mode (length vs)) (netstrings vs))
        (keep_if mode.want_fields [] vs)
      ≡ accepted mode vs
ended-accepted mode vs =
    λ i. record { wire = text mode.want_wire i; fields = list mode.want_fields i; failure = none }
  where
    text :
        (w : Bool)
        → (if w
            then keep_if w
                (if w then record_prefix ++ (itoa (length vs) ++ b':' ∷ []) else [])
                (netstrings vs)
              ++ b'\n' ∷ []
            else [])
          ≡ (if w then encode_record vs else [])
    text true = unfold encode_record in simp append_assoc
    text false = refl

    list : (f : Bool) → keep_if f [] vs ≡ (if f then vs else [])
    list true = refl
    list false = refl

-- An encoded record that fits is read whole, and what follows it is left to read.
pub scan_record-encode_record :
    (vs : List Bytes) (m : ℕ) (mode : Mode) (rest r : Bytes)
    → length (encode_record vs) ≤ m
    → length vs ≤ max_record_fields
    → Fit vs
    → scan_record m mode (record { source = encode_record vs ++ rest; recorded = r })
      ≡ (accepted mode vs, record { source = rest; recorded = r ++ encode_record vs })
unfolding scan_record
scan_record-encode_record vs m mode rest r fits few f =
    ap (λ src. scan_record m mode (record { source = src; recorded = r }))
      (encode_record-append vs rest)
    ∙ rw (header, scan_record)
        (ap (scan_fields m mode (length vs) _ _ []) (ap (λ p. p.1) header)
          ∙ scan_fields-netstrings vs m mode (5 + (length (itoa (length vs)) + 1))
              (wire_header mode (length vs)) [] rest _ (omega (arith, length-encode_record vs)) f
          ∙ (λ i. (ended-accepted mode vs i, record { source = rest; recorded = kept i })))
  where
    kept :
        ((r ++ record_prefix) ++ (itoa (length vs) ++ b':' ∷ [])) ++ (netstrings vs ++ b'\n' ∷ [])
        ≡ r ++ encode_record vs
    kept = unfold encode_record in simp append_assoc

    header :
        scan_record_header m (record {
          source =
              record_prefix ++ (itoa (length vs) ++ (b':' ∷ (netstrings vs ++ (b'\n' ∷ rest))));
          recorded = r;
        })
        ≡ (
          ok (length vs, 5 + (length (itoa (length vs)) + 1)),
          record {
            source = netstrings vs ++ (b'\n' ∷ rest);
            recorded = (r ++ record_prefix) ++ (itoa (length vs) ++ b':' ∷ []);
          },
        )
    header =
        scan_record_header-prefix m (length vs) (netstrings vs ++ (b'\n' ∷ rest)) r
          (omega (arith, length-encode_record vs, length-itoa_pos (length vs))) few
