-- ===== src/Wire/Counter.antt =====
-- internal/wire/argv.go: `Counter`, the writer that only adds up lengths, up to a limit.
use gotmux.Prelude.Fields.{all_bytes}
use gotmux.Prelude.{
  ℕ, ◌-◌, refl, sym, ap, inl, inr, true, false, map, List, [], ◌∷◌, Bool-cases, ◌+◌, ◌≤◌, ◌≡◌, ◌++◌,
  Bytes, Option, none, some, Error, err_encoded_size_limit, Result, ok, err, ◌>>=◌, length,
  length-append, ltb, if◌then◌else◌, arith,
}
use gotmux.Wire.Writer.{Writer, put, Lawful}

pub record Counter : Type 0 where
  pub n : ℕ
  pub limit : ℕ
  pub failure : Option Error

-- `c.N > c.Limit-n`, where no sum leaves the range of int64. The error stays with the counter.
unfoldable pub counter_write : Bytes → Counter → Counter × Result ℕ
counter_write b c = elim c.failure [
  | some e ↦ (c, err e)
  | none ↦
      if ltb c.limit (c.n + length b)
      then (record c { failure = some err_encoded_size_limit }, err err_encoded_size_limit)
      else (record c { n = c.n + length b }, ok (length b))
]

-- The counter behind the interface.
unfoldable pub counter_writer : Writer Counter
unfolding counter_write
counter_writer b c = let (c', r) = counter_write b c in r >>= λ k. ok (k, c')

-- No write has failed, and the count is within the limit.
pub record Counting (c : Counter) : Type 0 where
  pub fresh : c.failure ≡ none
  pub within : c.n ≤ c.limit

-- From a fresh counter, a text is counted exactly if it fits.
pub put-counter :
    (p : Bytes) (c : Counter)
    → Counting c
    → put counter_writer p c ≡ (
        if ltb c.limit (c.n + length p)
        then err err_encoded_size_limit
        else ok (record c { n = c.n + length p }))
unfolding counter_writer
put-counter p c g = ground arith

put-Counting :
    (p : Bytes) (c : Counter) {d : Counter}
    → Counting c
    → put counter_writer p c ≡ ok d
    → Counting d
unfolding counter_writer
put-Counting p c g e = ground arith

put-counter_append :
    (p q : Bytes) (c : Counter)
    → Counting c
    → put counter_writer (p ++ q) c ≡ (put counter_writer p c >>= put counter_writer q)
unfolding counter_writer
put-counter_append p q c g = ground (arith, length-append p q)

pub counter-Lawful : Lawful counter_writer Counting
unfolding counter_writer
counter-Lawful = record {
  put_nil = λ c g. ground arith;
  put_append = λ p q c _ _ g. put-counter_append p q c g;
  put_good = λ p c _ g e. put-Counting p c g e;
}

-- The writes of several pieces: what each returns, and the counter behind the last.
unfoldable pub writes : List Bytes → Counter → List (Result ℕ) × Counter
writes [] c = ([], c)
writes (p ∷ pieces) c =
    let rest = writes pieces (counter_write p c).0 in ((counter_write p c).1 ∷ rest.0, rest.1)

-- The pieces before the first one that does not fit into the room that is left.
unfoldable pub fitting : ℕ → List Bytes → List Bytes
fitting room [] = []
fitting room (p ∷ pieces) =
    let rest = fitting (room - length p) pieces in if ltb room (length p) then [] else p ∷ rest

abbrev pub refusals : List Bytes → List (Result ℕ)
refusals pieces = map (λ _. err err_encoded_size_limit) pieces

-- What is said of each piece: its length, or from the first that does not fit on, the error.
unfoldable pub answers : ℕ → List Bytes → List (Result ℕ)
answers room [] = []
answers room (p ∷ pieces) =
    let rest = answers (room - length p) pieces in
    if ltb room (length p) then refusals (p ∷ pieces) else ok (length p) ∷ rest

abbrev pub counting : ℕ → ℕ → Counter
counting n limit = record { n = n; limit = limit; failure = none }

abbrev failed : ℕ → ℕ → Counter
failed n limit = record { n = n; limit = limit; failure = some err_encoded_size_limit }

-- The counter behind the pieces.
abbrev pub behind : ℕ → ℕ → List Bytes → Counter
behind n limit pieces = record {
  n = n + all_bytes (fitting (limit - n) pieces);
  limit = limit;
  failure = if ltb limit (n + all_bytes pieces) then some err_encoded_size_limit else none;
}

writes_refused :
    (n limit : ℕ) (pieces : List Bytes)
    → writes pieces (failed n limit) ≡ (refusals pieces, failed n limit)
unfolding writes counter_write
writes_refused n limit [] = refl
writes_refused n limit (p ∷ pieces) = rw (writes, writes_refused n limit pieces) refl

counter_write_over :
    (n limit : ℕ) (p : Bytes)
    → ltb limit (n + length p) ≡ true
    → counter_write p (counting n limit) ≡ (failed n limit, err err_encoded_size_limit)
unfolding counter_write
counter_write_over n limit p h = rw (counter_write, h) refl

counter_write_fits :
    (n limit : ℕ) (p : Bytes)
    → ltb limit (n + length p) ≡ false
    → counter_write p (counting n limit) ≡ (counting (n + length p) limit, ok (length p))
unfolding counter_write
counter_write_fits n limit p h = rw (counter_write, h) refl

-- From a counter within its limit, pieces in any number are counted up to the first that does not fit:
-- each of these is answered with its length and the count is their sum; that one and all behind it
-- are answered with the error, which stays with the counter and leaves the count. The counter fails
-- exactly if the whole does not fit.
pub writes-behind :
    (n limit : ℕ) (pieces : List Bytes)
    → n ≤ limit
    → writes pieces (counting n limit) ≡ (answers (limit - n) pieces, behind n limit pieces)
unfolding writes answers fitting
writes-behind n limit [] h =
    let no : ltb limit (n + 0) ≡ false = ground (arith, h) in
    let same : n + 0 ≡ n = omega arith in rw (no) (ap (λ k. ([], counting k limit)) (sym same))
writes-behind n limit (p ∷ pieces) h = elim (Bool-cases (ltb limit (n + length p))) [
  | inl over ↦
      let tight : ltb (limit - n) (length p) ≡ true = ground (arith, over) in
      let whole : ltb limit (n + (length p + all_bytes pieces)) ≡ true = ground (arith, over) in
      let same : n + 0 ≡ n = omega arith in
      rw (writes, answers, fitting, counter_write_over n limit p over, tight, whole)
        (rw (writes_refused n limit pieces)
          (ap (λ k. (refusals (p ∷ pieces), failed k limit)) (sym same)))
  | inr fits ↦
      let roomy : ltb (limit - n) (length p) ≡ false = ground (arith, fits) in
      let left : limit - n - length p ≡ limit - (n + length p) = omega arith in
      let ih = writes-behind (n + length p) limit pieces (ground (arith, fits)) in
      let whole : n + length p + all_bytes pieces ≡ n + (length p + all_bytes pieces) =
        omega arith in
      let kept = all_bytes (fitting (limit - (n + length p)) pieces) in
      let count : n + length p + kept ≡ n + (length p + kept) = omega arith in
      rw (writes, answers, fitting, counter_write_fits n limit p fits, roomy, left)
        (rw (ih, whole, count) refl)
]
