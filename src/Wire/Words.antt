-- ===== src/Wire/Words.antt =====
-- internal/wire/words.go: `ParseWords` and its helpers. A byte variable `quote` of the source is 0,
-- a single or a double quotation mark. The index of the loop is the position in the list: an escape
-- moves the index over the bytes that it has read, which `skip` counts here.
pub mod Quoted
use gotmux.Prelude.{
  ℕ, zero, suc, ◌+◌, ◌-◌, ◌*◌, ◌≡◌, refl, Bool, true, false, not, ◌&&◌, ◌||◌, List, [], ◌∷◌, ◌++◌,
  Bytes, Option, none, some, Error, err_command_text, Result, ok, err, ◌>>=◌, ltb, leb, ◌==◌,
  if◌then◌else◌, arith,
}

unfoldable pub is_space : ℕ → Bool
is_space c = c == b' ' || c == b'\t'

unfoldable pub is_word_comment : ℕ → ℕ → Bool → Bool
is_word_comment c quote started = c == b'#' && quote == 0 && not started

is_word_separator : ℕ → Bool
is_word_separator c = c == b'\n' || c == b';' || c == b'{' || c == b'}'

-- The new quote, and whether `c` toggled it.
unfoldable pub toggle_quote : ℕ → ℕ → ℕ × Bool
toggle_quote c quote =
    if c == b'\'' && not (quote == b'"')
    then (if quote == b'\'' then (0, true) else (b'\'', true))
    else if c == b'"' && not (quote == b'\'')
    then (if quote == b'"' then (0, true) else (b'"', true))
    else (quote, false)

unfoldable pub can_escape : ℕ → ℕ → Bool
can_escape c quote = c == b'\\' && not (quote == b'\'')

starts_variable : ℕ → Bool
starts_variable c =
    c == b'{' || c == b'_' || (leb b'a' c && leb c b'z') || (leb b'A' c && leb c b'Z')

-- `i+1 < len(text) && startsVariable(text[i+1])`, on the text after the index.
next_starts_variable : Bytes → Bool
next_starts_variable [] = false
next_starts_variable (c ∷ rest) = starts_variable c

-- A NUL, or a byte that tmux would expand outside single quotes.
refused_word_byte : ℕ → Bytes → ℕ → Bool → Bool
unfolding starts_variable next_starts_variable
refused_word_byte c rest quote fresh =
    if c == 0
    then true
    else if quote == b'\''
    then false
    else if c == b'$'
    then next_starts_variable rest
    else c == b'~' && fresh

-- What an escape stands for: a byte, or nothing for an escaped line feed; and the bytes after the
-- backslash that it takes.
pub record Escape : Type 0 where
  pub value : ℕ
  pub taken : ℕ
  pub is_byte : Bool

map_escape_char : ℕ → ℕ × Bool
map_escape_char c =
    if c == b'n'
    then (b'\n', true)
    else if c == b'r'
    then (b'\r', true)
    else if c == b't'
    then (b'\t', true)
    else if c == b'b'
    then (8, true)
    else if c == b'f'
    then (12, true)
    else if c == b'v'
    then (11, true)
    else if c == b'a'
    then (7, true)
    else if c == b'e'
    then (27, true)
    else if c == b's'
    then (b' ', true)
    else if c == b'\n'
    then (0, false)
    else (c, true)

is_octal : ℕ → Bool
is_octal c = leb b'0' c && leb c b'7'

-- `strconv.ParseUint(s, 8, 8)` on three octal digits fails above 255; zero is refused as well.
octal_value : ℕ → ℕ → ℕ → Result Escape
octal_value a b c =
    let n = (a - b'0') * 64 + (b - b'0') * 8 + (c - b'0') in
    if ltb 255 n || n == 0
    then err err_command_text
    else ok (record { value = n; taken = 3; is_byte = true })

-- `parseOctalEscape` at the first digit, which is octal by the caller's test.
parse_octal_escape : Bytes → Result Escape
unfolding is_octal octal_value
parse_octal_escape (a ∷ b ∷ c ∷ rest) =
    if is_octal a && is_octal b && is_octal c then octal_value a b c else err err_command_text
parse_octal_escape _ = err err_command_text

-- `parseEscape`, on the text after the backslash.
unfoldable pub parse_escape : Bytes → Result Escape
unfolding parse_octal_escape map_escape_char
parse_escape [] = err err_command_text
parse_escape (c ∷ rest) =
    if leb b'0' c && leb c b'7'
    then parse_octal_escape (c ∷ rest)
    else ok (record { value = (map_escape_char c).0; taken = 1; is_byte = (map_escape_char c).1 })

-- The variables of `ParseWords`.
pub record Scan : Type 0 where
  pub words : List Bytes
  pub b : Bytes
  pub quote : ℕ
  pub started : Bool
  pub fresh : Bool
  pub skip : ℕ

unfoldable pub flush_word : Scan → Scan
flush_word s =
    if s.started then record s { words = s.words ++ s.b ∷ []; b = []; started = false } else s

-- `handleEscape` together with the assignments that follow it.
handle_escape : Scan → Bytes → Result Scan
unfolding parse_escape
handle_escape s rest = parse_escape rest >>= λ e. ok (
    if e.is_byte
    then record s { b = s.b ++ e.value ∷ []; started = true; fresh = false; skip = e.taken }
    else record s { fresh = false; skip = e.taken })

-- One round of a loop: go on, `break`, or return an error.
pub data Round : Type 0 where
  go : Scan → Round
  stop : Scan → Round
  fail : Error → Round

abbrev go_on : Result Scan → Round
go_on (ok s) = go s
go_on (err e) = fail e

-- The body of the loop at byte `c`, with `rest` behind it.
unfoldable pub word_round : Scan → ℕ → Bytes → Round
unfolding flush_word is_space is_word_comment is_word_separator toggle_quote can_escape
    handle_escape refused_word_byte
word_round s c rest =
    if s.quote == 0 && is_space c
    then go (record (flush_word s) { fresh = true })
    else if is_word_comment c s.quote s.started
    then stop s
    else if s.quote == 0 && is_word_separator c
    then fail err_command_text
    else if (toggle_quote c s.quote).1
    then go (record s { quote = (toggle_quote c s.quote).0; started = true; fresh = true })
    else if can_escape c s.quote
    then go_on (handle_escape s rest)
    else if refused_word_byte c rest s.quote s.fresh
    then fail err_command_text
    else go (record s { b = s.b ++ c ∷ []; started = true; fresh = false })

-- After the loop.
finish_words : Scan → Result (List Bytes)
unfolding flush_word
finish_words s = if not (s.quote == 0) then err err_command_text else ok (flush_word s).words

unfoldable pub scan_words : Scan → Bytes → Result (List Bytes)
unfolding finish_words
scan_words s [] = finish_words s
scan_words s (c ∷ rest) = elim s.skip [
  | suc k ↦ scan_words (record s { skip = k }) rest
  | zero ↦ elim (word_round s c rest) [
    | go t ↦ scan_words t rest
    | stop t ↦ finish_words t
    | fail e ↦ err e
  ]
]

abbrev pub blank_scan : Scan
blank_scan = record { words = []; b = []; quote = 0; started = false; fresh = true; skip = 0 }

unfoldable pub parse_words : Bytes → Result (List Bytes)
parse_words text = scan_words blank_scan text
