-- ===== src/Frames/RoundTrip.antt =====
-- tmux/control_codec.go: `readControlUnit` on a frame of records, as a connection prints it.
use gotmux.Prelude.{
  ℕ, zero, suc, ◌+◌, ◌-◌, ◌≤◌, ◌<◌, ◌≡◌, refl, ap, subst, ◌∙◌, true, false, some, List, [], ◌∷◌,
  ◌++◌, append_assoc, append-nil, Bytes, Result, ◌>>=◌, All, codes, ok, length, length-append, ltb,
  arith,
}
use gotmux.Prelude.Cut.{has_prefix, Lacks}
use gotmux.Prelude.Decimal.{itoa}
use gotmux.Prelude.Space.{skip_spaces}
use gotmux.Prelude.Numeral.{all_digits, is_digit, all_digits-itoa}
use gotmux.Wire.Records.{record_prefix, encode_record}
use gotmux.Wire.Records.Parse.{
  rows_text, read-encode_record, IsRow, parse_records, parse_records-rows_text,
}
use gotmux.Wire.Records.RoundTrip.{length-encode_record}
use gotmux.Events.{Event}
use gotmux.Events.Subscription.{decode_event}
use gotmux.Frames.{
  FrameId, ControlFrame, frame_unit, is_dsc_trailer, line_end, bounded_line, ending_name,
  frame_ending, same_id, check_frame_end, read_record_wire_chunk, FrameState, closes,
  is_error_ending, process_frame_line, finished, again, after_line, append_chunk, line_round,
  frame_round, frame_loop, read_frame, skip_dsc, unit_line, read_unit_line, frame_result,
  read_control_unit,
}
use gotmux.Frames.Line.{line_of, line_or_limit, bounded_line-line_of}
use gotmux.Frames.Header.{
  IsFrame, IsPlain, header_text, header_line, frame_header-header_line, space_width-IsPlain,
}

line_of-Lacks :
    (l rest : Bytes) → Lacks 10 l → line_of (l ++ (10 ∷ rest)) ≡ some (l ++ (10 ∷ []), rest)
unfolding line_of
line_of-Lacks [] rest h = refl
line_of-Lacks (c ∷ l) rest h = rw (line_of, h.0, line_of-Lacks l rest h.1) refl

digits-Lacks : (s rest : Bytes) → all_digits s ≡ true → Lacks 10 rest → Lacks 10 (s ++ rest)
unfolding all_digits is_digit
digits-Lacks [] rest h k = k
digits-Lacks (c ∷ s) rest h k = (ground arith, digits-Lacks s rest (ground arith) k)

kind-Lacks : (s rest : Bytes) → All IsPlain s → Lacks 10 rest → Lacks 10 (s ++ rest)
kind-Lacks [] rest h k = k
kind-Lacks (c ∷ s) rest h k = (ground (arith, h.0), kind-Lacks s rest h.1 k)

header_text-Lacks :
    (kind : Bytes) (id : FrameId) → All IsPlain kind → Lacks 10 (header_text kind id)
header_text-Lacks kind id p = (
  refl,
  kind-Lacks kind _ p (
    refl,
    digits-Lacks (itoa id.time) _ (all_digits-itoa id.time) (
      refl,
      digits-Lacks (itoa id.number) _ (all_digits-itoa id.number) (
        refl,
        subst (Lacks 10) (append-nil (itoa id.flags))
            (digits-Lacks (itoa id.flags) [] (all_digits-itoa id.flags) tt),
      ),
    ),
  ),
)

not_trailer : (l rest : Bytes) → line_end (37 ∷ l) rest ≡ ok (37 ∷ l, rest)
unfolding line_end is_dsc_trailer skip_spaces
not_trailer l rest =
    let here : skip_spaces 0 (37 ∷ l) ≡ 37 ∷ l =
      rw (skip_spaces, space_width-IsPlain 37 l (omega arith, omega arith)) refl in
    let none_of : is_dsc_trailer (37 ∷ l) ≡ false = rw (is_dsc_trailer, here) refl in
    rw (line_end, none_of) refl

-- `boundedLine` on a header line, within the bound.
bounded_line-header :
    (size limit : ℕ) (kind : Bytes) (id : FrameId) (rest : Bytes)
    → 0 < size
    → All IsPlain kind
    → length (header_line kind id) ≤ limit
    → bounded_line size limit (header_line kind id ++ rest) ≡ ok (header_line kind id, rest)
unfolding line_or_limit
bounded_line-header size limit kind id rest pos p h =
    let text = header_text kind id in
    let found = line_of-Lacks text rest (header_text-Lacks kind id p) in
    let fits : ltb limit (length (header_line kind id)) ≡ false = ground (arith, h) in
    ap (bounded_line size limit) (append_assoc text (10 ∷ []) rest)
    ∙ bounded_line-line_of size limit (text ++ (10 ∷ rest)) pos (omega (arith, h))
    ∙ rw (line_or_limit, found, fits) (not_trailer _ rest)

same_id_refl : (id : FrameId) → same_id id id ≡ true
unfolding same_id
same_id_refl id = ground arith

-- The state behind the records that have been read.
abbrev kept : ℕ → Bytes → FrameState
kept n body = record { body = body; used = n + length body; ordinary = false; published = [] }

abbrev pub complete : FrameId → Bytes → ControlFrame
complete id body = record { id = id; data_bytes = body; failed = false }

end-IsPlain : All IsPlain (codes "end")
end-IsPlain =
    ((omega arith, omega arith), ((omega arith, omega arith), ((omega arith, omega arith), tt)))

begin-IsPlain : All IsPlain (codes "begin")
begin-IsPlain = (
  (omega arith, omega arith),
  (
    (omega arith, omega arith),
    ((omega arith, omega arith), ((omega arith, omega arith), ((omega arith, omega arith), tt))),
  ),
)

skip_dsc-header :
    (id : FrameId) (rest : Bytes)
    → skip_dsc (header_line (codes "begin") id ++ rest)
      ≡ some (header_line (codes "begin") id ++ rest)
unfolding skip_dsc has_prefix
skip_dsc-header id rest = refl

has_prefix-header :
    (kind : Bytes) (id : FrameId) (rest : Bytes)
    → has_prefix record_prefix (header_line kind id ++ rest) ≡ false
unfolding has_prefix
has_prefix-header kind id rest = refl

has_prefix-encode_record :
    (vs : List Bytes) (rest : Bytes) → has_prefix record_prefix (encode_record vs ++ rest) ≡ true
unfolding has_prefix encode_record
has_prefix-encode_record vs rest = refl

closing :
    (n : ℕ) (id : FrameId) (body : Bytes) (event : Result Event)
    → IsFrame id
    → process_frame_line (header_line (codes "end") id) id event (kept n body) ≡ ok (closes false)
unfolding process_frame_line frame_ending check_frame_end ending_name has_prefix is_error_ending
closing n id body event f =
    rw (check_frame_end, frame_header-header_line (codes "end") id end-IsPlain f, same_id_refl id)
      refl

module _ (size max_bytes : ℕ) (clock : Bytes → ℕ) (room : 0 < size) where
  chunk-encode_record :
      (vs : List Bytes) (left k : ℕ) (rest : Bytes)
      → IsRow k vs
      → length (encode_record vs) ≤ left
      → read_record_wire_chunk size (encode_record vs ++ rest) left ≡ ok (encode_record vs, rest)
  unfolding read_record_wire_chunk
  chunk-encode_record vs left k rest row fits =
      let r = (read-encode_record vs left rest fits row.1 row.2).2 in
      rw (read_record_wire_chunk, ap (λ p. p.1) r) (ap (λ p. ok (p.0, p.2.source)) r)

  frame_round-row :
      (n k : ℕ) (id : FrameId) (body : Bytes) (vs : List Bytes) (rest : Bytes)
      → IsRow k vs
      → n + length body + length (encode_record vs) ≤ max_bytes
      → frame_round size max_bytes clock id (kept n body) (encode_record vs ++ rest)
        ≡ ok (again (kept n (body ++ encode_record vs)) rest)
  unfolding frame_round append_chunk
  frame_round-row n k id body vs rest row fits =
      let s = encode_record vs ++ rest in
      let sizes = length-append (encode_record vs) rest in
      let long : ltb (length s) (length record_prefix) ≡ false =
        ground (arith, sizes, length-encode_record vs) in
      let chunk =
        chunk-encode_record vs (max_bytes - (n + length body)) k rest row (omega (arith, fits)) in
      let count = length-append body (encode_record vs) in
      rw (frame_round, long, has_prefix-encode_record vs rest, chunk, append_chunk)
        (ap
          (λ u. ok (
            again
              (record {
                body = body ++ encode_record vs;
                used = u;
                ordinary = false;
                published = [];
              })
              rest))
          (omega (arith, count)))

  frame_round-end :
      (n : ℕ) (id : FrameId) (body rest : Bytes)
      → IsFrame id
      → length (header_line (codes "end") id) ≤ max_bytes
      → frame_round size max_bytes clock id (kept n body) (header_line (codes "end") id ++ rest)
        ≡ ok (finished (complete id body) [] rest)
  unfolding frame_round line_round process_frame_line frame_ending check_frame_end ending_name
      after_line
  frame_round-end n id body rest f fits =
      let line = header_line (codes "end") id in
      let long : ltb (length (line ++ rest)) (length record_prefix) ≡ false = ground arith in
      let event = decode_event (clock rest) line max_bytes in
      rw (frame_round, long, has_prefix-header (codes "end") id rest, line_round)
        (ap
            (λ l. l >>= λ p.
              process_frame_line p.0 id (decode_event (clock p.1) p.0 max_bytes) (kept n body)
              >>= λ step. after_line max_bytes id (kept n body) p.1 step)
            (bounded_line-header size max_bytes (codes "end") id rest room end-IsPlain fits)
          ∙ ap (λ q. q >>= λ step. after_line max_bytes id (kept n body) rest step)
              (closing n id body event f)
          ∙ refl)

  frame_loop-rows :
      (rows : List (List Bytes)) (fuel n k : ℕ) (id : FrameId) (body rest : Bytes)
      → IsFrame id
      → All (IsRow k) rows
      → length (header_line (codes "end") id) ≤ max_bytes
      → n + length body + length (rows_text rows) ≤ max_bytes
      → length (rows_text rows) < fuel
      → frame_loop size max_bytes clock fuel id
          (kept n body)
          (rows_text rows ++ (header_line (codes "end") id ++ rest))
        ≡ some (ok (complete id (body ++ rows_text rows), [], rest))
  unfolding frame_loop rows_text
  frame_loop-rows rows zero n k id body rest f a e fits fuel_left = elim fuel_left [ ]
  frame_loop-rows [] (suc fuel) n k id body rest f a e fits fuel_left =
      rw (frame_loop, frame_round-end n id body rest f e, append-nil body) refl
  frame_loop-rows (vs ∷ rows) (suc fuel) n k id body rest f a e fits fuel_left =
      let later = header_line (codes "end") id ++ rest in
      let sizes = length-append (encode_record vs) (rows_text rows) in
      let longer = length-append body (encode_record vs) in
      let one =
        frame_round-row n k id body vs (rows_text rows ++ later) a.0 (omega (arith, fits, sizes)) in
      let more =
        frame_loop-rows rows fuel n k id (body ++ encode_record vs) rest f a.1 e
          (omega (arith, fits, sizes, longer))
          (omega (arith, fuel_left, sizes, length-encode_record vs)) in
      ap (frame_loop size max_bytes clock (suc fuel) id (kept n body))
        (append_assoc (encode_record vs) (rows_text rows) later)
      ∙ rw (frame_loop, one)
          (more
            ∙ ap (λ b. some (ok (complete id b, [], rest)))
                (append_assoc body (encode_record vs) (rows_text rows)))

  unit_line-begin :
      (id : FrameId) (rest : Bytes)
      → unit_line size max_bytes clock (header_line (codes "begin") id) rest
        ≡ frame_result (read_frame size max_bytes clock (header_line (codes "begin") id) rest)
  unfolding unit_line has_prefix
  unit_line-begin id rest = refl

  read_frame-begin :
      (id : FrameId) (rest : Bytes)
      → IsFrame id
      → read_frame size max_bytes clock (header_line (codes "begin") id) rest
        ≡ frame_loop size max_bytes clock
            (suc (length rest))
            id
            (kept (length (header_line (codes "begin") id)) [])
            rest
  unfolding read_frame
  read_frame-begin id rest f =
      rw (read_frame, frame_header-header_line (codes "begin") id begin-IsPlain f)
        (ap
          (λ u.
            frame_loop size max_bytes clock (suc (length rest)) id
              (record { body = []; used = u; ordinary = false; published = [] }) rest)
          (omega arith))

  -- A frame of rows that the limits of a record admit, named by numbers that fit: with a buffer of any
  -- size but 0 it is read whole, whatever follows it, if its first line and its data are together within
  -- the bound; and what it holds is parsed into the rows again.
  pub read_control_unit-rows :
      (id : FrameId) (rows : List (List Bytes)) (k : ℕ) (rest : Bytes)
      → IsFrame id
      → All (IsRow k) rows
      → length (header_line (codes "begin") id) + length (rows_text rows) ≤ max_bytes
      → (read_control_unit size max_bytes clock (
            header_line (codes "begin") id
            ++ (rows_text rows ++ (header_line (codes "end") id ++ rest)))
          ≡ some (ok (frame_unit (complete id (rows_text rows)), [], rest)))
        × (parse_records (rows_text rows) k ≡ some (ok rows))
  unfolding read_control_unit read_unit_line
  read_control_unit-rows id rows k rest f a fits =
      let later = rows_text rows ++ (header_line (codes "end") id ++ rest) in
      let line = header_line (codes "begin") id in
      let shorter : length (header_line (codes "end") id) ≤ max_bytes = omega (arith, fits) in
      let fuel_left : length (rows_text rows) < suc (length later) =
        omega (arith, length-append (rows_text rows) (header_line (codes "end") id ++ rest)) in
      let first =
        bounded_line-header size max_bytes (codes "begin") id later room begin-IsPlain
          (omega (arith, fits)) in
      let frame =
        frame_loop-rows rows (suc (length later)) (length line) k id [] rest f a shorter
          (omega (arith, fits)) fuel_left in
      (
        rw (read_control_unit, skip_dsc-header id later)
            (rw (read_unit_line, first)
              (unit_line-begin id later ∙ ap frame_result (read_frame-begin id later f ∙ frame))),
        parse_records-rows_text rows k a,
      )
