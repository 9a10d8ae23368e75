-- ===== src/Wire/Sequence.antt =====
-- internal/wire/words.go: `SplitSequence`, `SplitBindingSequence` and their helpers. The loop keeps
-- `text[start:i]` as `part`; where it moves the index past a byte, `skip` says whether that byte still
-- belongs to the part (an escape) or not (an escaped separator, after which the part starts anew).
pub mod RoundTrip
pub mod Trim
pub mod Whole
use gotmux.Prelude.{
  ℕ, zero, suc, ◌≡◌, refl, Bool, true, false, not, ◌&&◌, ◌||◌, List, [], ◌∷◌, ◌++◌, Bytes, Error,
  codes, err_command_text, Result, ok, err, ◌>>=◌, ◌==◌, if◌then◌else◌,
}
use gotmux.Wire.Words.{is_space, is_word_comment, toggle_quote, can_escape}

-- `strings.TrimLeft(s, " \t")`
unfoldable pub trim_left : Bytes → Bytes
unfolding is_space
trim_left [] = []
trim_left (c ∷ s) = elim (is_space c) [ true ↦ trim_left s | false ↦ c ∷ s ]

trim_cons : ℕ → Bytes → Bytes
unfolding is_space
trim_cons c [] = if is_space c then [] else c ∷ []
trim_cons c (d ∷ s) = c ∷ d ∷ s

-- `strings.TrimRight(s, " \t")`
unfoldable pub trim_right : Bytes → Bytes
unfolding trim_cons
trim_right [] = []
trim_right (c ∷ s) = trim_cons c (trim_right s)

-- `strings.Trim(s, " \t")`
unfoldable pub trim : Bytes → Bytes
unfolding trim_left trim_right
trim s = trim_right (trim_left s)

unfoldable pub is_sequence_invalid : ℕ → Bool
is_sequence_invalid c = c == b'{' || c == b'}' || c == b'\n'

pub data Skip : Type 0 where
  take keep drop_next : Skip

pub record Split : Type 0 where
  pub out : List Bytes
  pub part : Bytes
  pub quote : ℕ
  pub word_started : Bool
  pub skip : Skip

pub data Round : Type 0 where
  go : Split → Round
  stop : Split → Round
  fail : Error → Round

abbrev non_empty : Bytes → Result Bytes
non_empty [] = err err_command_text
non_empty (c ∷ s) = ok (c ∷ s)

-- `extractPart`
unfoldable pub extract_part : Bytes → Result Bytes
unfolding trim
extract_part part = non_empty (trim part)

abbrev go_on : Result Split → Round
go_on (ok s) = go s
go_on (err e) = fail e

-- `parseSequencePart`; the caller clears `wordStarted`.
parse_sequence_part : Split → Skip → Round
parse_sequence_part s skip = go_on (
    extract_part s.part >>= λ part.
    ok (record s { out = s.out ++ part ∷ []; part = []; word_started = false; skip = skip }))

-- `i+1 < len(text) && text[i+1] == ';'`
before_semicolon : Bytes → Bool
before_semicolon [] = false
before_semicolon (c ∷ rest) = c == b';'

-- The end of the body: the quote and `wordStarted` at an ordinary byte.
plain_byte : Split → ℕ → Round
unfolding is_space toggle_quote
plain_byte s c =
    let quote = (toggle_quote c s.quote).0 in
    go (record s {
      part = s.part ++ c ∷ [];
      quote = quote;
      word_started = not (quote == 0) || not (is_space c);
    })

-- `skipEscape`: the next byte belongs to the part, and there must be one.
skip_escape : Split → ℕ → Bytes → Round
skip_escape s c [] = fail err_command_text
skip_escape s c (d ∷ rest) =
    go (record s { part = s.part ++ c ∷ []; word_started = true; skip = keep })

-- The body of the loop at byte `c`, with `rest` behind it.
unfoldable pub split_round : Bool → Split → ℕ → Bytes → Round
unfolding is_word_comment is_sequence_invalid parse_sequence_part before_semicolon plain_byte
    skip_escape can_escape
split_round escaped_separator s c rest =
    if is_word_comment c s.quote s.word_started
    then stop s
    else if s.quote == 0 && is_sequence_invalid c
    then fail err_command_text
    else if s.quote == 0 && c == b';'
    then parse_sequence_part s take
    else if s.quote == 0 && escaped_separator && c == b'\\' && before_semicolon rest
    then parse_sequence_part s drop_next
    else if can_escape c s.quote
    then skip_escape s c rest
    else plain_byte s c

add_part : List Bytes → Bytes → List Bytes
add_part out [] = out
add_part out (c ∷ part) = out ++ (c ∷ part) ∷ []

-- After the loop; an empty last part is left out.
finish_split : Split → Result (List Bytes)
unfolding add_part trim
finish_split s =
    if not (s.quote == 0) then err err_command_text else ok (add_part s.out (trim s.part))

unfoldable pub scan_sequence : Bool → Split → Bytes → Result (List Bytes)
unfolding finish_split
scan_sequence escaped s [] = finish_split s
scan_sequence escaped s (c ∷ rest) = elim s.skip [
  | keep ↦ scan_sequence escaped (record s { part = s.part ++ c ∷ []; skip = take }) rest
  | drop_next ↦ scan_sequence escaped (record s { skip = take }) rest
  | take ↦ elim (split_round escaped s c rest) [
    | go t ↦ scan_sequence escaped t rest
    | stop t ↦ finish_split t
    | fail e ↦ err e
  ]
]

abbrev pub blank_split : Split
blank_split = record { out = []; part = []; quote = 0; word_started = false; skip = take }

unfoldable pub split_sequence : Bytes → Result (List Bytes)
split_sequence text = scan_sequence false blank_split text

unfoldable pub split_binding_sequence : Bytes → Result (List Bytes)
split_binding_sequence text = scan_sequence true blank_split text
