-- ===== src/Wire/Records.antt =====
-- internal/wire/records.go: length-prefixed records, written by `EncodeRecord` and read by
-- `scanRecord`. Lengths are int64 in the source; here they are natural numbers, and a subtraction that
-- could go below zero there is written as a comparison of sums.
pub mod Decimal
pub mod Field
pub mod RoundTrip
pub mod Sound
pub mod Parse
pub mod Consumed
use gotmux.Prelude.{
  ℕ, zero, suc, ◌+◌, ◌-◌, ◌*◌, ◌/◌, ◌≡◌, refl, Bool, true, false, not, ◌&&◌, ◌||◌, List, [], ◌∷◌,
  ◌++◌, Bytes, Option, none, some, Error, codes, err_record, Result, ok, err, length, bytes_eq, ltb,
  leb, ◌==◌, if◌then◌else◌, arith,
}
use gotmux.Prelude.Decimal.{itoa}
use gotmux.Wire.Stream.{Stream, Read, ◌>>=◌, fails, read_full, expect}

-- `RecordPrefix`, `minRecordOverhead`, `MaxRecordFields`
abbrev pub record_prefix : Bytes
record_prefix = codes "TGO1:"

abbrev pub min_record_overhead : ℕ
min_record_overhead = 3

abbrev pub max_record_fields : ℕ
max_record_fields = 1024

-- What `EncodeRecord` writes for one value.
unfoldable pub netstring : Bytes → Bytes
netstring v = itoa (length v) ++ (b':' ∷ (v ++ b',' ∷ []))

unfoldable pub netstrings : List Bytes → Bytes
unfolding netstring
netstrings [] = []
netstrings (v ∷ vs) = netstring v ++ netstrings vs

-- `EncodeRecord`
unfoldable pub encode_record : List Bytes → Bytes
unfolding netstrings
encode_record vs = record_prefix ++ (itoa (length vs) ++ (b':' ∷ (netstrings vs ++ b'\n' ∷ [])))

unfoldable pub is_invalid_decimal_char : ℕ → ℕ → Bool → Bool
is_invalid_decimal_char ch count leading_zero =
    if ltb ch b'0' || ltb b'9' ch then true else ltb 19 count || (leading_zero && ltb 1 count)

-- The loop of `decimal`, after `count` bytes.
unfoldable pub decimal_loop : ℕ → ℕ → ℕ → Bool → Bytes → Bytes → Result (ℕ × ℕ) × Stream
unfolding is_invalid_decimal_char
decimal_loop max_bytes value count leading_zero [] d =
    (err Error.eof, record { source = []; recorded = d })
decimal_loop max_bytes value count leading_zero (ch ∷ rest) d =
    let after : Stream = record { source = rest; recorded = d ++ ch ∷ [] } in
    let digit = ch - b'0' in
    let more =
      decimal_loop max_bytes (value * 10 + digit) (suc count)
        (if suc count == 1 then ch == b'0' else leading_zero) rest (d ++ ch ∷ []) in
    if ch == b':'
    then (if suc count == 1 then (err err_record, after) else (ok (value, suc count), after))
    else if is_invalid_decimal_char ch (suc count) leading_zero
    then (err err_record, after)
    else if ltb ((max_bytes - digit) / 10) value || ltb max_bytes digit
    then (err err_record, after)
    else more

-- `decimal`: the value, and the bytes read with the colon.
unfoldable pub decimal : ℕ → Read (ℕ × ℕ)
unfolding decimal_loop
decimal max_bytes s = decimal_loop max_bytes 0 0 false s.source s.recorded

-- The end of `scanField`: the comma behind the content.
unfoldable pub field_comma : ℕ → Bytes → Read (Bytes × ℕ)
field_comma total b = expect b',' >>= λ _ s. (ok (b, total), s)

-- `scanField` behind the length, which took `n` bytes.
unfoldable pub field_content : ℕ → ℕ → ℕ → Read (Bytes × ℕ)
field_content left size n =
    if ltb left (size + n + 1)
    then fails err_record
    else read_full size >>= field_comma (n + size + 1)

-- `scanField`
unfoldable pub scan_field : ℕ → Read (Bytes × ℕ)
scan_field left =
    if left == 0 then fails err_record else decimal left >>= λ r. field_content left r.0 r.1

-- `scanRecordHeader` behind the prefix.
unfoldable pub header_count : Bytes → Read (ℕ × ℕ)
header_count prefix =
    if not (bytes_eq prefix record_prefix)
    then fails err_record
    else decimal max_record_fields >>= λ r s. (ok (r.0, length record_prefix + r.1), s)

-- `scanRecordHeader`: the field count, and the bytes read.
unfoldable pub scan_record_header : ℕ → Read (ℕ × ℕ)
scan_record_header max_bytes =
    if ltb max_bytes (length record_prefix + min_record_overhead)
    then fails err_record
    else read_full (length record_prefix) >>= header_count

-- What `scanRecord` returns: the wire text, which is kept on an error too, the fields, the error.
pub record Scanned : Type 0 where
  pub wire : Bytes
  pub fields : List Bytes
  pub failure : Option Error

-- The bits of `mode`.
pub record Mode : Type 0 where
  pub want_wire : Bool
  pub want_fields : Bool

abbrev pub scan_failed : Bytes → Error → Scanned
scan_failed wire e = record { wire = wire; fields = []; failure = some e }

-- The end of `scanRecord`, with `readRecordTerminator`.
unfoldable pub scan_end : ℕ → Mode → ℕ → Bytes → List Bytes → Stream → Scanned × Stream
scan_end max_bytes mode used wire fields s =
    if leb max_bytes used then (scan_failed wire err_record, s) else elim ((expect b'\n' s).0) [
      | err e ↦ (scan_failed wire e, (expect b'\n' s).1)
      | ok _ ↦ (
        record {
          wire = if mode.want_wire then wire ++ b'\n' ∷ [] else [];
          fields = fields;
          failure = none;
        },
        (expect b'\n' s).1,
      )
    ]

-- `if mode&want… != 0`: the text or the fields grow only where they are wanted.
abbrev pub keep_if : {A : Type 0} → Bool → List A → List A → List A
keep_if wanted kept more = if wanted then kept ++ more else kept

-- The loop of `scanRecord`, with `count` rounds left.
unfoldable pub scan_fields : ℕ → Mode → ℕ → ℕ → Bytes → List Bytes → Stream → Scanned × Stream
scan_fields max_bytes mode zero used wire fields s = scan_end max_bytes mode used wire fields s
scan_fields max_bytes mode (suc count) used wire fields s =
    elim ((scan_field (max_bytes - used) s).0) [
      | err e ↦ (scan_failed wire e, (scan_field (max_bytes - used) s).1)
      | ok (b, n) ↦
          scan_fields max_bytes mode count (used + n) (keep_if mode.want_wire wire (netstring b))
            (keep_if mode.want_fields fields (b ∷ [])) (scan_field (max_bytes - used) s).1
    ]

abbrev pub wire_header : Mode → ℕ → Bytes
wire_header mode count = if mode.want_wire then record_prefix ++ (itoa count ++ b':' ∷ []) else []

-- `scanRecord`
unfoldable pub scan_record : ℕ → Mode → Stream → Scanned × Stream
scan_record max_bytes mode s = elim ((scan_record_header max_bytes s).0) [
  | err e ↦ (scan_failed [] e, (scan_record_header max_bytes s).1)
  | ok (count, used) ↦
      scan_fields max_bytes mode count used (wire_header mode count) []
        (scan_record_header max_bytes s).1
]

abbrev pub reading : Bytes → Stream
reading text = record { source = text; recorded = [] }

-- `ReadRecord`, on the bytes that are left to read.
unfoldable pub read_record : Bytes → ℕ → Scanned × Stream
read_record text max_bytes =
    scan_record max_bytes (record { want_wire = true; want_fields = true }) (reading text)

abbrev pub to_result {ℓ} : {A : Type ℓ} → Option Error → A → Result A
to_result none a = ok a
to_result (some e) a = err e

-- `ReadRecordFields`
unfoldable pub read_record_fields : Bytes → ℕ → Result (List Bytes) × Stream
read_record_fields text max_bytes =
    let (r, s) =
      scan_record max_bytes (record { want_wire = false; want_fields = true }) (reading text) in
    (to_result r.failure r.fields, s)

-- `ReadRecordWire` returns what its `recordReader` has recorded, with the error.
unfoldable pub read_record_wire : Bytes → ℕ → Bytes × Option Error × Stream
read_record_wire text max_bytes =
    let (r, s) =
      scan_record max_bytes (record { want_wire = false; want_fields = false }) (reading text) in
    (s.recorded, r.failure, s)
