-- ===== src/Wire/Octal.antt =====
-- internal/wire/records.go: `DecodeOctal`, the reader of the `\ooo` dialect of control output.
pub mod Correct
use gotmux.Prelude.{
  ℕ, zero, suc, ◌+◌, ◌-◌, ◌*◌, ◌/◌, ◌≡◌, Bool, ◌&&◌, ◌||◌, [], ◌∷◌, ◌++◌, Bytes, err_record, Result,
  ok, err, ◌>>=◌, length, ltb, leb, ◌==◌, if◌then◌else◌,
}

-- `(1<<63 - 1) / 4`
abbrev pub max_limit : ℕ
max_limit = 2305843009213693951

unfoldable pub is_octal_digit : ℕ → Bool
is_octal_digit c = leb b'0' c && leb c b'7'

abbrev pub octal_number : ℕ → ℕ → ℕ → ℕ
octal_number x y z = (x - b'0') * 64 + (y - b'0') * 8 + (z - b'0')

-- `decodeOctalEscape`, on the bytes behind the backslash; the sum stays below 512, so uint16 holds it.
unfoldable pub decode_octal_escape : Bytes → Result ℕ
unfolding is_octal_digit
decode_octal_escape (x ∷ y ∷ z ∷ rest) =
    if is_octal_digit x && is_octal_digit y && is_octal_digit z
    then (if ltb 255 (octal_number x y z) then err err_record else ok (octal_number x y z))
    else err err_record
decode_octal_escape _ = err err_record

abbrev pub taking_three : ℕ → Result (ℕ × ℕ)
taking_three v = ok (v, 3)

-- The byte at the index, and the bytes that the index jumps over.
unfoldable pub octal_byte : ℕ → Bytes → Result (ℕ × ℕ)
unfolding decode_octal_escape
octal_byte b rest = if b == b'\\' then (decode_octal_escape rest >>= taking_three) else ok (b, 0)

-- The loop, with `skip` bytes to jump over.
unfoldable pub decode_loop : ℕ → Bytes → ℕ → Bytes → Result Bytes
unfolding octal_byte
decode_loop max_bytes out skip [] = ok out
decode_loop max_bytes out (suc skip) (b ∷ rest) = decode_loop max_bytes out skip rest
decode_loop max_bytes out zero (b ∷ rest) = elim (octal_byte b rest) [
  | err e ↦ err e
  | ok (v, skip) ↦
      let more = decode_loop max_bytes (out ++ v ∷ []) skip rest in
      if leb max_bytes (length out) then err err_record else more
]

unfoldable pub decode_octal : Bytes → ℕ → Result Bytes
unfolding decode_loop
decode_octal text max_bytes =
    if ltb max_limit max_bytes || ltb (max_bytes * 4) (length text)
    then err err_record
    else decode_loop max_bytes [] 0 text
