-- ===== src/Read/Split.antt =====
-- tmux/read.go: `decodeRead` on what one command list prints.
use gotmux.Prelude.{
  ℕ, zero, suc, ◌+◌, ◌-◌, ◌≤◌, ◌<◌, ◌≡◌, refl, sym, ap, ◌∙◌, true, none, some, List, [], ◌∷◌, ◌++◌,
  map, append-nil, append_assoc, Bytes, All, ok, length, length-append, ◌==◌, arith,
}
use gotmux.Wire.Stream.{Stream}
use gotmux.Wire.Records.{encode_record, read_record_fields}
use gotmux.Wire.Records.RoundTrip.{length-encode_record}
use gotmux.Wire.Records.Parse.{rows_text, read-encode_record, IsRow}
use gotmux.Rows.{RawRecord, ServerInfo}
use gotmux.Rows.Decode.{Server, server_info}
use gotmux.Read.{
  Request, record_map, split_rows, split_read, with_info, probed_info, decode_probed, decode_read,
  identity_fields,
}

-- The rows that one request prints: each has the request's fields, of which there is one or more.
abbrev pub Answers : Request → List (List Bytes) → Type 0
Answers r rows = (0 < length r.fields) × All (IsRow (length r.fields)) rows

-- Every request prints its rows.
abbrev pub AllAnswer :
    Request → List Request → List (List Bytes) → List (List (List Bytes)) → Type 0
AllAnswer r [] rows [] = Answers r rows
AllAnswer r [] rows (others ∷ more) = ⊥
AllAnswer r (next ∷ later) rows [] = ⊥
AllAnswer r (next ∷ later) rows (others ∷ more) = Answers r rows × AllAnswer next later others more

-- What tmux prints: the rows of the first request, then a boundary and the rows of each later one.
unfoldable pub sections_text : List (List Bytes) → List (List (List Bytes)) → Bytes
sections_text rows [] = rows_text rows
sections_text rows (others ∷ more) =
    rows_text rows ++ (encode_record [] ++ sections_text others more)

abbrev pub maps : Request → List (List Bytes) → List RawRecord
maps r rows = map (λ values. record_map r.fields values []) rows

abbrev pub later_maps : List Request → List (List (List Bytes)) → List (List RawRecord)
later_maps [] more = []
later_maps (r ∷ later) [] = []
later_maps (r ∷ later) (rows ∷ more) = maps r rows ∷ later_maps later more

split_rows_row :
    (fuel : ℕ) (out : List (List RawRecord)) (acc : List RawRecord) (r : Request)
    (later : List Request) (text : Bytes) (row : List Bytes) (after : Stream)
    → read_record_fields text (length text) ≡ (ok row, after)
    → length row ≡ length r.fields
    → 0 < length row
    → 0 < length text
    → split_rows (suc fuel) out acc r later text
      ≡ split_rows fuel out (acc ++ record_map r.fields row [] ∷ []) r later after.source
unfolding split_rows
split_rows_row fuel out acc r later [] row after e h pos pos_t = elim pos_t [ ]
split_rows_row fuel out acc r later (c ∷ s) [] after e h pos pos_t = elim pos [ ]
split_rows_row fuel out acc r later (c ∷ s) (v ∷ vs) after e h pos pos_t =
    let same : (length (v ∷ vs) == length r.fields) ≡ true = ground (arith, h) in
    rw (split_rows, ap (λ p. p.0) e)
      (rw same (
        ap
          (λ p.
            split_rows fuel out (acc ++ record_map r.fields (v ∷ vs) [] ∷ []) r later p.1.source)
          e))

split_rows_boundary :
    (fuel : ℕ) (out : List (List RawRecord)) (acc : List RawRecord) (r next : Request)
    (later : List Request) (text : Bytes) (after : Stream)
    → read_record_fields text (length text) ≡ (ok [], after)
    → 0 < length text
    → split_rows (suc fuel) out acc r (next ∷ later) text
      ≡ split_rows fuel (out ++ acc ∷ []) [] next later after.source
unfolding split_rows
split_rows_boundary fuel out acc r next later [] after e pos = elim pos [ ]
split_rows_boundary fuel out acc r next later (c ∷ s) after e pos =
    rw (split_rows, ap (λ p. p.0) e)
      (ap (λ p. split_rows fuel (out ++ acc ∷ []) [] next later p.1.source) e)

-- The rows of one request, before any text.
split_rows-rows :
    (rows : List (List Bytes)) (fuel : ℕ) (out : List (List RawRecord)) (acc : List RawRecord)
    (r : Request) (later : List Request) (rest : Bytes)
    → Answers r rows
    → length (rows_text rows) ≤ fuel
    → (left : ℕ) × (fuel ≤ left + length (rows_text rows))
      × (split_rows fuel out acc r later (rows_text rows ++ rest)
          ≡ split_rows left out (acc ++ maps r rows) r later rest)
unfolding rows_text
split_rows-rows [] fuel out acc r later rest a h =
    (fuel, omega arith, ap (λ x. split_rows fuel out x r later rest) (sym (append-nil acc)))
split_rows-rows (row ∷ rows) zero out acc r later rest a h =
    absurd (
      omega
        (arith, h, length-append (encode_record row) (rows_text rows), length-encode_record row))
split_rows-rows (row ∷ rows) (suc fuel) out acc r later rest (pos, (row_ok, rows_ok)) h =
    let text = encode_record row ++ (rows_text rows ++ rest) in
    let sizes = length-append (encode_record row) (rows_text rows) in
    let whole = length-append (encode_record row) (rows_text rows ++ rest) in
    let read =
      (read-encode_record row (length text) (rows_text rows ++ rest) (omega (arith, whole)) row_ok.1
        row_ok.2).1 in
    let step =
      split_rows_row fuel out acc r later text row _ read row_ok.0 (omega (arith, pos, row_ok.0))
        (omega (arith, whole, length-encode_record row)) in
    let (left, l, e) =
      split_rows-rows rows fuel out (acc ++ record_map r.fields row [] ∷ []) r later rest
        (pos, rows_ok) (omega (arith, h, sizes, length-encode_record row)) in
    (
      left,
      omega (arith, l, sizes, length-encode_record row),
      ap (split_rows (suc fuel) out acc r later)
            (append_assoc (encode_record row) (rows_text rows) rest)
          ∙ step
          ∙ e
          ∙ ap (λ x. split_rows left out x r later rest)
              (append_assoc acc (record_map r.fields row [] ∷ []) (maps r rows)),
    )

split_rows-sections :
    (fuel : ℕ) (out : List (List RawRecord)) (r : Request) (later : List Request)
    (rows : List (List Bytes)) (more : List (List (List Bytes)))
    → AllAnswer r later rows more
    → length (sections_text rows more) ≤ fuel
    → split_rows fuel out [] r later (sections_text rows more)
      ≡ some (ok (out ++ (maps r rows ∷ later_maps later more)))
unfolding sections_text split_rows
split_rows-sections fuel out r [] rows [] a h =
    let (left, l, e) = split_rows-rows rows fuel out [] r [] [] a h in
    ap (split_rows fuel out [] r []) (sym (append-nil (rows_text rows))) ∙ e ∙ ends left
  where
    ends :
        (left : ℕ) → split_rows left out (maps r rows) r [] [] ≡ some (ok (out ++ maps r rows ∷ []))
    ends zero = refl
    ends (suc left) = refl
split_rows-sections fuel out r [] rows (others ∷ more) a h = elim a [ ]
split_rows-sections fuel out r (next ∷ later) rows [] a h = elim a [ ]
split_rows-sections fuel out r (next ∷ later) rows (others ∷ more) (first, a) h =
    let behind = encode_record [] ++ sections_text others more in
    let sizes = length-append (rows_text rows) behind in
    let sizes_b = length-append (encode_record []) (sections_text others more) in
    let (left, l, e) =
      split_rows-rows rows fuel out [] r (next ∷ later) behind first (omega (arith, h, sizes)) in
    let enough : suc (length (sections_text others more)) ≤ left =
      omega (arith, h, l, sizes, sizes_b, length-encode_record []) in
    let one : left ≡ suc (left - 1) = omega (arith, enough) in
    let read =
      (read-encode_record [] (length behind) (sections_text others more) (omega (arith, sizes_b))
        (omega arith) tt).1 in
    e
    ∙ ap (λ k. split_rows k out (maps r rows) r (next ∷ later) behind) one
    ∙ split_rows_boundary (left - 1) out (maps r rows) r next later behind _ read
        (omega (arith, sizes_b, length-encode_record []))
    ∙ split_rows-sections (left - 1) (out ++ maps r rows ∷ []) next later others more a
        (omega (arith, enough))
    ∙ ap (λ x. some (ok x))
        (append_assoc out (maps r rows ∷ []) (maps next others ∷ later_maps later more))

probed_info-ok :
    (s : Server) (values : List Bytes) {info : ServerInfo}
    → length values ≡ length identity_fields
    → server_info s (record_map identity_fields values []) ≡ ok info
    → probed_info s values ≡ ok info
unfolding probed_info
probed_info-ok s values h e =
    let known : (length values == length identity_fields) ≡ true = ground (arith, h) in
    rw (probed_info, known) e

-- What one command list prints is split into the rows of its requests, in order, none of them
-- mixed; without a verified connection, the identity record before them is read first.
pub decode_read-sections :
    (s : Server) (info : ServerInfo) (r : Request) (later : List Request) (rows : List (List Bytes))
    (more : List (List (List Bytes))) (identity : List Bytes)
    → AllAnswer r later rows more
    → IsRow (length identity_fields) identity
    → server_info s (record_map identity_fields identity []) ≡ ok info
    → (decode_read s (some info) r later (sections_text rows more)
        ≡ some (ok (info, maps r rows ∷ later_maps later more)))
      × (decode_read s none r later (encode_record identity ++ sections_text rows more)
          ≡ some (ok (info, maps r rows ∷ later_maps later more)))
unfolding decode_read decode_probed split_read with_info
decode_read-sections s info r later rows more identity a i e =
    let text = sections_text rows more in
    let split = split_rows-sections (length text) [] r later rows more a (omega arith) in
    let sizes = length-append (encode_record identity) text in
    let read =
      (read-encode_record identity (length (encode_record identity ++ text)) text
        (omega (arith, sizes)) i.1 i.2).1 in
    let done = ap (with_info info) split in
    (
      done,
      rw (decode_probed, ap (λ p. p.0) read, probed_info-ok s identity i.0 e)
          (ap (λ p. split_read info r later p.1.source) read ∙ done),
    )
