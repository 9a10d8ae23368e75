-- ===== src/Version/Release.antt =====
-- tmux/version.go: the versions that releases of tmux report.
use gotmux.Prelude.{
  ℕ, ◌^◌, ◌<◌, ◌≡◌, refl, ap, ◌∙◌, Bool, true, false, ◌&&◌, Option, none, some, [], ◌∷◌, ◌++◌,
  append-nil, Bytes, codes, All, bytes_eq, length, leb, ltb, ◌==◌, arith,
}
use gotmux.Prelude.Decimal.{itoa, length-itoa_pos}
use gotmux.Prelude.Fields.{space_width}
use gotmux.Prelude.Numeral.{is_digit, all_digits, all_digits-itoa, value-itoa}
use gotmux.Prelude.Space.{trim_space, trim_right, skip_spaces, is_empty}
use gotmux.Version.{
  VersionMatch, trim_prefix, fold_case, is_name_byte, run_of, has_newline, match_tail, match_minor,
  match_dot, match_major, match_version, atoi_digits, join_suffix, version_of, parse_trimmed,
  parse_version,
}

-- The letter of a release, if it has one.
abbrev pub IsLetter : Option ℕ → Type 0
IsLetter none = Unit
IsLetter (some c) = (96 < c) × (c < 123)

abbrev pub letter_text : Option ℕ → Bytes
letter_text none = []
letter_text (some c) = c ∷ []

-- The text of a release, such as "3.6a", and what the executable prints, with the name before it.
abbrev pub release_text : ℕ → ℕ → Option ℕ → Bytes
release_text major minor letter = itoa major ++ (b'.' ∷ (itoa minor ++ letter_text letter))

abbrev pub named_text : Bool → Bytes → Bytes
named_text true t = codes "tmux " ++ t
named_text false t = t

-- A byte that is neither white space nor part of a longer character.
abbrev IsVisible : ℕ → Type 0
IsVisible c = (32 < c) × (c < 128)

space_width-IsVisible : (c : ℕ) (s : Bytes) → IsVisible c → space_width (c ∷ s) ≡ 0
unfolding space_width
space_width-IsVisible c [] p = ground arith
space_width-IsVisible c (d ∷ []) p = ground arith
space_width-IsVisible c (d ∷ e ∷ s) p = ground arith

skip_spaces-IsVisible : (c : ℕ) (s : Bytes) → IsVisible c → skip_spaces 0 (c ∷ s) ≡ c ∷ s
unfolding skip_spaces
skip_spaces-IsVisible c s p = rw (skip_spaces, space_width-IsVisible c s p) refl

trim_right-IsVisible : (s : Bytes) → All IsVisible s → trim_right s ≡ s
unfolding trim_right is_empty
trim_right-IsVisible [] h = refl
trim_right-IsVisible (c ∷ s) h =
    rw (trim_right, skip_spaces-IsVisible c s h.0) (ap (λ t. c ∷ t) (trim_right-IsVisible s h.1))

trim_space-IsVisible : (c : ℕ) (s : Bytes) → All IsVisible (c ∷ s) → trim_space (c ∷ s) ≡ c ∷ s
unfolding trim_space
trim_space-IsVisible c s h =
    ap trim_right (skip_spaces-IsVisible c s h.0) ∙ trim_right-IsVisible (c ∷ s) h

digits-IsVisible : (s t : Bytes) → all_digits s ≡ true → All IsVisible t → All IsVisible (s ++ t)
unfolding all_digits is_digit
digits-IsVisible [] t h k = k
digits-IsVisible (c ∷ s) t h k = (ground (arith, h), digits-IsVisible s t (ground (arith, h)) k)

letter-IsVisible : (l : Option ℕ) → IsLetter l → All IsVisible (letter_text l)
letter-IsVisible none h = tt
letter-IsVisible (some c) h = (omega (arith, h), tt)

-- Digits, and what no digit begins.
run_of-digits :
    (d : Bytes) (c : ℕ) (s : Bytes)
    → all_digits d ≡ true
    → is_digit c ≡ false
    → run_of is_digit (d ++ c ∷ s) ≡ (d, c ∷ s)
unfolding run_of all_digits
run_of-digits [] c s h n = rw (run_of, n) refl
run_of-digits (e ∷ d) c s h n =
    let first : is_digit e ≡ true = ground (arith, h) in
    rw (run_of, first, run_of-digits d c s (ground (arith, h)) n) refl

run_of-all_digits : (d : Bytes) → all_digits d ≡ true → run_of is_digit d ≡ (d, [])
unfolding run_of all_digits
run_of-all_digits [] h = refl
run_of-all_digits (e ∷ d) h =
    let first : is_digit e ≡ true = ground (arith, h) in
    rw (run_of, first, run_of-all_digits d (ground (arith, h))) refl

run_of-minor :
    (d : Bytes) (l : Option ℕ)
    → all_digits d ≡ true
    → IsLetter l
    → run_of is_digit (d ++ letter_text l) ≡ (d, letter_text l)
unfolding is_digit
run_of-minor d none h k = ap (run_of is_digit) (append-nil d) ∙ run_of-all_digits d h
run_of-minor d (some c) h k = run_of-digits d c [] h (ground (arith, k))

match_tail-letter :
    (l : Option ℕ) → IsLetter l → match_tail (letter_text l) ≡ some (letter_text l, [])
unfolding match_tail has_newline
match_tail-letter none h = refl
match_tail-letter (some c) h =
    let one_line : has_newline (c ∷ []) ≡ false = ground (arith, h) in
    let is_letter : (leb 97 c && leb c 122) ≡ true = ground (arith, h) in
    rw (match_tail, one_line, is_letter) refl

is_empty-itoa : (n : ℕ) → is_empty (itoa n) ≡ false
unfolding is_empty
is_empty-itoa n = from (itoa n) refl
  where
    from : (t : Bytes) → itoa n ≡ t → is_empty (itoa n) ≡ false
    from [] e = absurd (omega (arith, length-itoa_pos n, ap length e))
    from (c ∷ s) e = ap is_empty e

abbrev release_match : ℕ → ℕ → Option ℕ → VersionMatch
release_match major minor l = record {
  prefix = [];
  major_digits = itoa major;
  minor_digits = itoa minor;
  letter = letter_text l;
  tail = [];
}

match_major-release :
    (major minor : ℕ) (l : Option ℕ)
    → IsLetter l
    → match_major [] (release_text major minor l) ≡ some (release_match major minor l)
unfolding match_major match_dot match_minor is_digit
match_major-release major minor l h =
    let behind = itoa minor ++ letter_text l in
    rw
      (
        match_major,
        run_of-digits (itoa major) b'.' behind (all_digits-itoa major) refl,
        is_empty-itoa major,
      )
      (rw
        (
          match_minor,
          run_of-minor (itoa minor) l (all_digits-itoa minor) h,
          is_empty-itoa minor,
          match_tail-letter l h,
        )
        (rw (run_of-minor (itoa minor) l (all_digits-itoa minor) h) refl))

version_of-release :
    (raw : Bytes) (major minor : ℕ) (l : Option ℕ)
    → major < 2 ^ 63
    → minor < 2 ^ 63
    → version_of raw (release_match major minor l) ≡ record {
      raw = raw;
      major = major;
      minor = minor;
      patch = letter_text l;
      suffix = [];
      recognized = true;
    }
unfolding version_of atoi_digits join_suffix is_empty
version_of-release raw major minor l h k =
    let small_major : ltb major (2 ^ 63) ≡ true = ground (arith, h) in
    let small_minor : ltb minor (2 ^ 63) ≡ true = ground (arith, k) in
    rw (version_of, atoi_digits, value-itoa major, value-itoa minor, small_major, small_minor) refl

digit-not_name : (c : ℕ) → is_digit c ≡ true → is_name_byte c ≡ false
unfolding is_digit is_name_byte
digit-not_name c h = ground (arith, h)

run_of-stop : (p : ℕ → Bool) (c : ℕ) (s : Bytes) → p c ≡ false → run_of p (c ∷ s) ≡ ([], c ∷ s)
unfolding run_of
run_of-stop p c s h = rw (run_of, h) refl

match_version-digit :
    (c : ℕ) (s : Bytes) → is_digit c ≡ true → match_version (c ∷ s) ≡ match_major [] (c ∷ s)
unfolding is_empty match_version match_major
match_version-digit c s h =
    rw (match_version, run_of-stop is_name_byte c s (digit-not_name c h)) refl

-- A word of letters does not begin with a digit.
fold_case-digit :
    (c b : ℕ) (s w : Bytes)
    → is_digit c ≡ true
    → 96 < b
    → bytes_eq (fold_case (c ∷ s)) (b ∷ w) ≡ false
unfolding fold_case is_digit
fold_case-digit c b [] w h k = ground (arith, h, k)
fold_case-digit c b (d ∷ s) w h k = ground (arith, h, k)

-- A text that begins with a digit is matched from its major version on.
parse_trimmed-digit :
    (raw : Bytes) (c : ℕ) (s : Bytes) {m : VersionMatch}
    → is_digit c ≡ true
    → match_major [] (c ∷ s) ≡ some m
    → parse_trimmed raw (c ∷ s) ≡ version_of raw m
unfolding parse_trimmed version_of
parse_trimmed-digit raw c s h e =
    rw
      (
        parse_trimmed,
        fold_case-digit c 109 s (codes "aster") h (omega arith),
        fold_case-digit c 110 s (codes "ext") h (omega arith),
        match_version-digit c s h,
        e,
      )
      refl

trim_prefix-named :
    (named : Bool) (c : ℕ) (s : Bytes)
    → is_digit c ≡ true
    → trim_prefix (codes "tmux ") (named_text named (c ∷ s)) ≡ c ∷ s
unfolding trim_prefix is_digit
trim_prefix-named true c s h = refl
trim_prefix-named false c s h =
    let other : (116 == c) ≡ false = ground (arith, h) in rw (trim_prefix, other) refl

parse_version-digits :
    (named : Bool) (d rest : Bytes) {m : VersionMatch}
    → all_digits d ≡ true
    → 0 < length d
    → All IsVisible rest
    → match_major [] (d ++ rest) ≡ some m
    → parse_version (named_text named (d ++ rest)) ≡ version_of (named_text named (d ++ rest)) m
unfolding parse_version all_digits
parse_version-digits named [] rest h pos v e = elim pos [ ]
parse_version-digits named (c ∷ d) rest h pos v e =
    let raw = named_text named (c ∷ (d ++ rest)) in
    let first : is_digit c ≡ true = ground (arith, h) in
    ap (λ t. parse_trimmed raw (trim_space t)) (trim_prefix-named named c (d ++ rest) first)
    ∙ ap (parse_trimmed raw)
        (trim_space-IsVisible c (d ++ rest) (digits-IsVisible (c ∷ d) rest h v))
    ∙ parse_trimmed-digit raw c (d ++ rest) first e

-- A release's version, with the name of the program before it or not, is read as its two numbers
-- of 63 bits and its letter, and is recognized.
pub parse_version-release :
    (named : Bool) (major minor : ℕ) (l : Option ℕ)
    → major < 2 ^ 63
    → minor < 2 ^ 63
    → IsLetter l
    → parse_version (named_text named (release_text major minor l)) ≡ record {
      raw = named_text named (release_text major minor l);
      major = major;
      minor = minor;
      patch = letter_text l;
      suffix = [];
      recognized = true;
    }
parse_version-release named major minor l h k a =
    let raw = named_text named (release_text major minor l) in
    let behind =
      digits-IsVisible (itoa minor) (letter_text l) (all_digits-itoa minor)
        (letter-IsVisible l a) in
    parse_version-digits named (itoa major) (b'.' ∷ (itoa minor ++ letter_text l))
      (all_digits-itoa major) (length-itoa_pos major) (omega arith, behind)
      (match_major-release major minor l a)
    ∙ version_of-release raw major minor l h k
