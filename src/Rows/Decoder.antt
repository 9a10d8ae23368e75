-- ===== src/Rows/Decoder.antt =====
-- tmux/decode.go: `recordDecoder`. A step takes the record and gives a value with the error that it
-- is the first to meet, if any; `fail` keeps an earlier error, and so does the composition of steps.
-- The field that an error names is left out.
use gotmux.Prelude.{
  ℕ, Bool, true, false, not, ◌||◌, Option, none, some, [], ◌∷◌, Bytes, codes, bytes_eq, Error,
  err_record, Result, ok, err, if◌then◌else◌,
}
use gotmux.Prelude.Int.{ℤ, pos, negsuc, atoi}
use gotmux.Rows.{RawRecord}

abbrev pub Decode : Type 0 → Type 0
Decode A = RawRecord → A × Option Error

-- `if d.err == nil`
abbrev pub first_error : Option Error → Option Error → Option Error
first_error none later = later
first_error (some e) later = some e

infixl 5 ◌>>=◌ ◌>>◌
abbrev pub ◌>>=◌ : {A B : Type 0} → Decode A → (A → Decode B) → Decode B
◌>>=◌ m f raw = ((f (m raw).0 raw).0, first_error (m raw).1 (f (m raw).0 raw).1)

abbrev pub ◌>>◌ : {B : Type 0} → Decode (Unit {0}) → Decode B → Decode B
m >> k = m >>= λ _. k

abbrev pub pure : {A : Type 0} → A → Decode A
pure a raw = (a, none)

-- `d.fail`
abbrev pub fail : Error → Decode (Unit {0})
fail e raw = (tt, some e)

abbrev pub fail_if : Bool → Error → Decode (Unit {0})
fail_if true e raw = (tt, some e)
fail_if false e raw = (tt, none)

unfoldable pub lookup : Bytes → RawRecord → Option Bytes
lookup k [] = none
lookup k ((j, v) ∷ raw) = let rest = lookup k raw in if bytes_eq j k then some v else rest

-- `d.str`
unfoldable pub str : Bytes → Decode Bytes
str field raw = elim (lookup field raw) [ some v ↦ (v, none) | none ↦ ([], some err_record) ]

unfoldable pub number : Option ℤ → ℤ × Option Error
number none = (pos 0, some err_record)
number (some n) = (n, none)

-- `d.integer`
unfoldable pub integer : Bytes → Decode ℤ
integer field = str field >>= λ s _. number (atoi s)

unfoldable pub not_negative : ℤ → ℕ × Option Error
not_negative (pos n) = (n, none)
not_negative (negsuc n) = (0, some err_record)

-- `d.nonnegative`, and `d.timestamp`, which reads a number of seconds in the same way.
unfoldable pub nonnegative : Bytes → Decode ℕ
nonnegative field = integer field >>= λ n _. not_negative n

unfoldable pub timestamp : Bytes → Decode ℕ
timestamp field = integer field >>= λ n _. not_negative n

unfoldable pub optional_number : Bytes → ℕ × Option Error
optional_number [] = (0, none)
optional_number (c ∷ s) = elim (atoi (c ∷ s)) [
  | some (pos n) ↦ (n, none)
  | some (negsuc n) ↦ (0, some err_record)
  | none ↦ (0, some err_record)
]

-- `d.optionalNonnegative`
unfoldable pub optional_nonnegative : Bytes → Decode ℕ
optional_nonnegative field = str field >>= λ s _. optional_number s

-- `d.boolean`
unfoldable pub boolean : Bytes → Decode Bool
boolean field = do
  v ← str field
  fail_if (not (bytes_eq v (codes "0") || bytes_eq v (codes "1"))) err_record
  pure (bytes_eq v (codes "1"))

-- The decoders' end: `if d.err != nil`.
unfoldable pub run : {A : Type 0} → Decode A → RawRecord → Result A
run m raw = elim ((m raw).1) [ none ↦ ok (m raw).0 | some e ↦ err e ]
