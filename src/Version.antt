-- ===== src/Version.antt =====
-- tmux/version.go: `ParseVersion`, whose pattern is read from the left: each of its repetitions ends
-- where the next byte is not of its class, so that no other reading of a text can match.
pub mod Release
mod Tests
use gotmux.Prelude.{
  ℕ, ◌+◌, ◌-◌, ◌^◌, Bool, true, false, ◌&&◌, ◌||◌, Option, none, some, [], ◌∷◌, ◌++◌, Bytes, codes,
  bytes_eq, cut_prefix, Error, ltb, leb, ◌==◌, if◌then◌else◌,
}
use gotmux.Prelude.Numeral.{is_digit, numeral_value}
use gotmux.Prelude.Space.{trim_space, is_empty}

pub record Version : Type 0 where
  pub raw : Bytes
  pub major : ℕ
  pub minor : ℕ
  pub patch : Bytes
  pub suffix : Bytes
  pub recognized : Bool

-- `strings.TrimPrefix`, with the prefix first.
unfoldable pub trim_prefix : Bytes → Bytes → Bytes
trim_prefix p s = elim (cut_prefix p s) [ some rest ↦ rest | none ↦ s ]

-- `strings.EqualFold` with a lower-case word: "ſ" (bytes 197, 191) is the one other character that folds to a
-- letter of the words it is given.
unfoldable pub fold_case : Bytes → Bytes
fold_case [] = []
fold_case (c ∷ []) = (if leb 65 c && leb c 90 then c + 32 else c) ∷ []
fold_case (c ∷ d ∷ s) =
    let rest = fold_case (d ∷ s) in
    let behind = fold_case s in
    if c == 0xC5 && d == 0xBF
    then 115 ∷ behind
    else (if leb 65 c && leb c 90 then c + 32 else c) ∷ rest

-- The class [a-zA-Z_-].
unfoldable pub is_name_byte : ℕ → Bool
is_name_byte c = leb 97 c && leb c 122 || leb 65 c && leb c 90 || c == 95 || c == 45

-- The longest beginning whose bytes pass a test, and what follows it.
unfoldable pub run_of : (ℕ → Bool) → Bytes → Bytes × Bytes
run_of p [] = ([], [])
run_of p (c ∷ s) = let rest = run_of p s in if p c then (c ∷ rest.0, rest.1) else ([], c ∷ s)

-- What stands before the dash that a text ends in.
unfoldable pub before_dash : Bytes → Option Bytes
before_dash [] = none
before_dash (c ∷ []) = if c == 45 then some [] else none
before_dash (c ∷ d ∷ s) = elim (before_dash (d ∷ s)) [ some t ↦ some (c ∷ t) | none ↦ none ]

-- The submatches of `versionPattern`.
pub record VersionMatch : Type 0 where
  pub prefix : Bytes
  pub major_digits : Bytes
  pub minor_digits : Bytes
  pub letter : Bytes
  pub tail : Bytes

unfoldable pub has_newline : Bytes → Bool
has_newline [] = false
has_newline (c ∷ s) = let rest = has_newline s in if c == 10 then true else rest

-- ([a-z]?)(.*)$
unfoldable pub match_tail : Bytes → Option (Bytes × Bytes)
unfolding has_newline
match_tail [] = some ([], [])
match_tail (c ∷ s) =
    if has_newline (c ∷ s)
    then none
    else if leb 97 c && leb c 122
    then some (c ∷ [], s)
    else some ([], c ∷ s)

-- (\d+)([a-z]?)(.*)$
unfoldable pub match_minor : Bytes → Bytes → Bytes → Option VersionMatch
unfolding run_of match_tail
match_minor prefix major s =
    let run = run_of is_digit s in
    if is_empty run.0 then none else elim (match_tail run.1) [
      | none ↦ none
      | some (letter, tail) ↦ some (record {
        prefix = prefix;
        major_digits = major;
        minor_digits = run.0;
        letter = letter;
        tail = tail;
      })
    ]

-- \.
unfoldable pub match_dot : Bytes → Bytes → Bytes → Option VersionMatch
unfolding match_minor
match_dot prefix major [] = none
match_dot prefix major (c ∷ s) = if c == 46 then match_minor prefix major s else none

-- (\d+)
unfoldable pub match_major : Bytes → Bytes → Option VersionMatch
unfolding match_dot run_of
match_major prefix s =
    let run = run_of is_digit s in if is_empty run.0 then none else match_dot prefix run.0 run.1

-- ^(?:([a-zA-Z_-]+)-)?
unfoldable pub match_version : Bytes → Option VersionMatch
unfolding is_name_byte run_of before_dash match_major
match_version s =
    let run = run_of is_name_byte s in
    if is_empty run.0 then match_major [] s else elim (before_dash run.0) [
      | none ↦ none
      | some [] ↦ none
      | some (c ∷ prefix) ↦ match_major (c ∷ prefix) run.1
    ]

-- `strconv.Atoi` of digits: the largest `int` stands with its error.
unfoldable pub atoi_digits : Bytes → ℕ × Bool
atoi_digits s =
    if ltb (numeral_value 0 s) (2 ^ 63) then (numeral_value 0 s, true) else (2 ^ 63 - 1, false)

unfoldable pub join_suffix : Bytes → Bytes → Bytes
unfolding trim_prefix
join_suffix prefix suffix =
    if is_empty prefix
    then suffix
    else if is_empty suffix
    then prefix
    else prefix ++ (45 ∷ trim_prefix (45 ∷ []) suffix)

-- `ParseVersion` behind its match.
unfoldable pub version_of : Bytes → VersionMatch → Version
unfolding atoi_digits join_suffix
version_of raw m =
    let major = atoi_digits m.major_digits in
    let minor = atoi_digits m.minor_digits in
    if major.1
    then (if minor.1
        then record {
          raw = raw;
          major = major.0;
          minor = minor.0;
          patch = m.letter;
          suffix = join_suffix m.prefix m.tail;
          recognized = is_empty m.prefix && is_empty m.tail;
        }
        else record {
          raw = raw;
          major = major.0;
          minor = minor.0;
          patch = [];
          suffix = [];
          recognized = false;
        })
    else record {
      raw = raw;
      major = major.0;
      minor = 0;
      patch = [];
      suffix = [];
      recognized = false;
    }

-- `ParseVersion` on the trimmed text.
unfoldable pub parse_trimmed : Bytes → Bytes → Version
unfolding fold_case match_version version_of
parse_trimmed raw s =
    if bytes_eq (fold_case s) (codes "master") || bytes_eq (fold_case s) (codes "next")
    then record { raw = raw; major = 3; minor = 9; patch = []; suffix = s; recognized = true }
    else elim (match_version s) [
      | some m ↦ version_of raw m
      | none ↦ record {
        raw = raw;
        major = 0;
        minor = 0;
        patch = [];
        suffix = [];
        recognized = false;
      }
    ]

unfoldable pub parse_version : Bytes → Version
unfolding parse_trimmed trim_prefix
parse_version raw = parse_trimmed raw (trim_space (trim_prefix (codes "tmux ") raw))

-- `Version.AtLeast`
unfoldable pub at_least : Version → ℕ → ℕ → Bool
at_least v major minor = ltb major v.major || v.major == major && leb minor v.minor

-- `supportedVersion` returns no error.
unfoldable pub supported_version : Version → Bool
supported_version v = ltb 3 v.major || v.major == 3 && leb 6 v.minor
