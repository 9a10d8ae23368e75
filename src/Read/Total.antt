-- ===== src/Read/Total.antt =====
-- tmux/read.go: the fuel of `decodeRead` is enough.
use gotmux.Prelude.{
  ℕ, zero, suc, ◌≤◌, ◌≡◌, ◌≢◌, refl, inl, inr, Option, none, some, List, [], ◌∷◌, ◌++◌, Bytes,
  Result, ok, err, Result-cases, Bool-cases, length, ◌==◌, arith,
}
use gotmux.Wire.Records.{read_record_fields}
use gotmux.Wire.Records.Parse.{rest_shorter, read_record_fields-Accepts}
use gotmux.Rows.{RawRecord, ServerInfo}
use gotmux.Rows.Decode.{Server}
use gotmux.Read.{
  Request, record_map, split_rows, with_info, probed_info, split_read, decode_probed, decode_read,
}

-- A record takes bytes off the text.
record_shorter :
    (c : ℕ) (s : Bytes) (row : List Bytes)
    → (read_record_fields (c ∷ s) (suc (length s))).0 ≡ ok row
    → length (read_record_fields (c ∷ s) (suc (length s))).1.source ≤ length s
record_shorter c s row e =
    let shorter = rest_shorter (c ∷ s) _ _ row (read_record_fields-Accepts (c ∷ s) _ e) in
    omega (arith, shorter)

-- A boundary, by what follows it.
split_boundary :
    (fuel : ℕ) (out : List (List RawRecord)) (rows : List RawRecord) (r : Request)
    (later : List Request) (c : ℕ) (s : Bytes)
    → (read_record_fields (c ∷ s) (suc (length s))).0 ≡ ok []
    → ((next : Request) (behind : List Request)
        → split_rows fuel
            (out ++ rows ∷ [])
            []
            next
            behind
            (read_record_fields (c ∷ s) (suc (length s))).1.source
          ≢ none)
    → split_rows (suc fuel) out rows r later (c ∷ s) ≢ none
unfolding split_rows
split_boundary fuel out rows r [] c s q rest = rw (split_rows, q) (λ x. cc)
split_boundary fuel out rows r (next ∷ behind) c s q rest = rw (split_rows, q) (rest next behind)

split_rows_total :
    (fuel : ℕ) (out : List (List RawRecord)) (rows : List RawRecord) (r : Request)
    (later : List Request) (text : Bytes)
    → length text ≤ fuel
    → split_rows fuel out rows r later text ≢ none
unfolding split_rows
split_rows_total fuel out rows r [] [] h = λ x. cc
split_rows_total fuel out rows r (next ∷ later) [] h = λ x. cc
split_rows_total zero out rows r later (c ∷ s) h = elim h [ ]
split_rows_total (suc fuel) out rows r later (c ∷ s) h =
    elim (Result-cases (read_record_fields (c ∷ s) (suc (length s))).0) [
      | inr (e, q) ↦ rw (split_rows, q) (λ x. cc)
      | inl ([], q) ↦
          let left = (read_record_fields (c ∷ s) (suc (length s))).1.source in
          let fits : length left ≤ fuel = omega (arith, h, record_shorter c s [] q) in
          split_boundary fuel out rows r later c s q
            (λ next behind. split_rows_total fuel (out ++ rows ∷ []) [] next behind left fits)
      | inl (v ∷ values, q) ↦
          let rest =
            split_rows_total fuel out (rows ++ record_map r.fields (v ∷ values) [] ∷ []) r later _
              (omega (arith, h, record_shorter c s (v ∷ values) q)) in
          elim (Bool-cases (length (v ∷ values) == length r.fields)) [
            | inl same ↦ rw (split_rows, q) (rw same rest)
            | inr other ↦ rw (split_rows, q) (rw other (λ x. cc))
          ]
    ]

with_info_total :
    (info : ServerInfo) (o : Option (Result (List (List RawRecord))))
    → o ≢ none
    → with_info info o ≢ none
unfolding with_info
with_info_total info none h = absurd (h refl)
with_info_total info (some (err e)) h = λ x. cc
with_info_total info (some (ok rows)) h = λ x. cc

-- Whatever is printed, `decodeRead` ends, in the rows of each request or an error.
pub decode_read_total :
    (s : Server) (verified : Option ServerInfo) (r : Request) (later : List Request) (text : Bytes)
    → decode_read s verified r later text ≢ none
unfolding decode_read split_read decode_probed
decode_read_total s (some info) r later text =
    with_info_total info _ (split_rows_total (length text) [] [] r later text (omega arith))
decode_read_total s none r later text =
    elim (Result-cases (read_record_fields text (length text)).0) [
      | inr (e, q) ↦ rw (decode_probed, q) (λ x. cc)
      | inl (values, q) ↦ elim (Result-cases (probed_info s values)) [
        | inr (e, p) ↦ rw (decode_probed, q, p) (λ x. cc)
        | inl (info, p) ↦
            let left = (read_record_fields text (length text)).1.source in
            rw (decode_probed, q, p)
              (with_info_total info _
                (split_rows_total (length left) [] [] r later left (omega arith)))
      ]
    ]
