-- ===== src/Wire/Words/Quoted.antt =====
-- `ParseWords` reads back what `QuoteWriter` and `WriteQuoted` write.
use gotmux.Prelude.{
  ℕ, ◌+◌, ◌/◌, ◌%◌, ◌<◌, ◌≡◌, ◌≢◌, refl, ◌∙◌, inl, inr, Bool, true, false, List, [], ◌∷◌, ◌++◌,
  append-nil, append_assoc, Bytes, All, ok, Bool-cases, codes, arith,
}
use gotmux.Wire.Argv.{is_letter, is_command_char, command_chars, valid_command, is_safe_quote_byte}
use gotmux.Wire.Quote.{octal_escape, escape, quoted}
use gotmux.Wire.Words.{
  Scan, handle_escape, go, finish_words, scan_words, word_round, parse_words, parse_escape,
}

-- The bytes of a C string: no NUL, and each below 256.
abbrev pub IsText : Bytes → Type 0
IsText = All (λ c. (c ≢ 0) × (c < 256))

test_words :
    parse_words (codes "ab \"c\\040d\" 'x y'  # no")
    ≡ ok (codes "ab" ∷ codes "c d" ∷ codes "x y" ∷ [])
unfolding parse_words scan_words word_round
test_words = refl

-- A scan between double quotation marks.
abbrev inside : List Bytes → Bytes → Bool → Scan
inside ws b fresh = record {
  words = ws;
  b = b;
  quote = b'"';
  started = true;
  fresh = fresh;
  skip = 0;
}

-- The bytes that double quotes leave alone.
pub record IsPlain (c : ℕ) : Type 0 where
  pub not_nul : c ≢ 0
  pub not_quote : c ≢ b'"'
  pub not_backslash : c ≢ b'\\'
  pub not_dollar : c ≢ b'$'
  pub not_tilde : c ≢ b'~'

pub safe-IsPlain : (c : ℕ) → is_safe_quote_byte c ≡ true → IsPlain c
unfolding is_safe_quote_byte
safe-IsPlain c h = ground arith

word_round-plain :
    (ws : List Bytes) (b : Bytes) (fresh : Bool) (c : ℕ) (rest : Bytes)
    → IsPlain c
    → word_round (inside ws b fresh) c rest ≡ go (inside ws (b ++ c ∷ []) false)
unfolding word_round
word_round-plain ws b fresh c rest p = ground arith

scan_words-plain :
    (ws : List Bytes) (b : Bytes) (fresh : Bool) (c : ℕ) (rest : Bytes)
    → IsPlain c
    → scan_words (inside ws b fresh) (c ∷ rest) ≡ scan_words (inside ws (b ++ c ∷ []) false) rest
unfolding scan_words
scan_words-plain ws b fresh c rest p = rw (word_round-plain ws b fresh c rest p, scan_words)

parse_escape-octal :
    (c : ℕ) (rest : Bytes)
    → c ≢ 0
    → c < 256
    → parse_escape ((b'0' + c / 64) ∷ (b'0' + c / 8 % 8) ∷ (b'0' + c % 8) ∷ rest)
      ≡ ok (record { value = c; taken = 3; is_byte = true })
unfolding parse_escape
parse_escape-octal c rest nz small = ground arith

scan_words-octal :
    (ws : List Bytes) (b : Bytes) (fresh : Bool) (c : ℕ) (rest : Bytes)
    → c ≢ 0
    → c < 256
    → scan_words (inside ws b fresh) (octal_escape c ++ rest)
      ≡ scan_words (inside ws (b ++ c ∷ []) false) rest
unfolding scan_words word_round octal_escape handle_escape
scan_words-octal ws b fresh c rest nz small = rw (parse_escape-octal c rest nz small, scan_words)

-- A word is under way, outside quotes.
abbrev pub within_word : List Bytes → Bytes → Bool → Scan
within_word ws b fresh = record {
  words = ws;
  b = b;
  quote = 0;
  started = true;
  fresh = fresh;
  skip = 0;
}

scan_words-escape :
    (ws : List Bytes) (b : Bytes) (fresh : Bool) (s rest : Bytes)
    → IsText s
    → scan_words (inside ws b fresh) (escape s ++ (b'"' ∷ rest))
      ≡ scan_words (within_word ws (b ++ s) true) rest
unfolding escape
scan_words-escape ws b fresh [] rest h = rw append-nil (unfold scan_words word_round in refl)
scan_words-escape ws b fresh (c ∷ s) rest h = elim (Bool-cases (is_safe_quote_byte c)) [
  | inl safe ↦ rw safe (
      scan_words-plain ws b fresh c (escape s ++ (b'"' ∷ rest)) (safe-IsPlain c safe)
      ∙ scan_words-escape ws (b ++ c ∷ []) false s rest h.1
      ∙ rw append_assoc)
  | inr unsafe ↦ rw unsafe (
      rw append_assoc (
        scan_words-octal ws b fresh c (escape s ++ (b'"' ∷ rest)) h.0.0 h.0.1
        ∙ scan_words-escape ws (b ++ c ∷ []) false s rest h.1
        ∙ rw append_assoc))
]

-- Quoted arguments, each behind a space.
unfoldable pub spaced : List Bytes → Bytes
unfolding quoted
spaced [] = []
spaced (a ∷ args) = b' ' ∷ (quoted a ++ spaced args)

-- After a word, quoted arguments are read as the words that they stand for.
pub scan_words-spaced :
    (ws : List Bytes) (b : Bytes) (fresh : Bool) (args : List Bytes)
    → All IsText args
    → scan_words (within_word ws b fresh) (spaced args) ≡ ok (ws ++ b ∷ args)
unfolding spaced
scan_words-spaced ws b fresh [] h = unfold scan_words finish_words in refl
scan_words-spaced ws b fresh (a ∷ args) h =
    opened
    ∙ scan_words-escape (ws ++ b ∷ []) [] true a (spaced args) h.0
    ∙ scan_words-spaced (ws ++ b ∷ []) a true args h.1
    ∙ rw append_assoc
  where
    opened :
        scan_words (within_word ws b fresh) (b' ' ∷ (quoted a ++ spaced args))
        ≡ scan_words (inside (ws ++ b ∷ []) [] true) (escape a ++ (b'"' ∷ spaced args))
    opened = rw append_assoc (unfold scan_words word_round in refl)

-- The bytes that need no quotes.
pub record IsBare (c : ℕ) : Type 0 where
  pub plain : IsPlain c
  pub not_space : c ≢ b' '
  pub not_tab : c ≢ b'\t'
  pub not_feed : c ≢ b'\n'
  pub not_hash : c ≢ b'#'
  pub not_semicolon : c ≢ b';'
  pub not_open : c ≢ b'{'
  pub not_close : c ≢ b'}'
  pub not_single : c ≢ b'\''

pub command_char-IsBare : (c : ℕ) → is_command_char c ≡ true → IsBare c
unfolding is_command_char
command_char-IsBare c h = ground arith

pub letter-command_char : (c : ℕ) → is_letter c ≡ true → is_command_char c ≡ true
unfolding is_letter is_command_char
letter-command_char c h = ground arith

-- Outside quotes.
abbrev outside : List Bytes → Bytes → Bool → Bool → Scan
outside ws b started fresh = record {
  words = ws;
  b = b;
  quote = 0;
  started = started;
  fresh = fresh;
  skip = 0;
}

word_round-bare :
    (ws : List Bytes) (b : Bytes) (started fresh : Bool) (c : ℕ) (rest : Bytes)
    → IsBare c
    → word_round (outside ws b started fresh) c rest ≡ go (within_word ws (b ++ c ∷ []) false)
unfolding word_round
word_round-bare ws b started fresh c rest h = ground arith

scan_words-bare :
    (ws : List Bytes) (b : Bytes) (started fresh : Bool) (c : ℕ) (rest : Bytes)
    → IsBare c
    → scan_words (outside ws b started fresh) (c ∷ rest)
      ≡ scan_words (within_word ws (b ++ c ∷ []) false) rest
unfolding scan_words
scan_words-bare ws b started fresh c rest h =
    rw (word_round-bare ws b started fresh c rest h, scan_words)

scan_words-command_chars :
    (ws : List Bytes) (b : Bytes) (name rest : Bytes)
    → command_chars name ≡ true
    → scan_words (within_word ws b false) (name ++ rest)
      ≡ scan_words (within_word ws (b ++ name) false) rest
unfolding command_chars
scan_words-command_chars ws b [] rest h = rw append-nil
scan_words-command_chars ws b (c ∷ name) rest h =
    scan_words-bare ws b true false c (name ++ rest) (command_char-IsBare c (ground arith))
    ∙ scan_words-command_chars ws (b ++ c ∷ []) name rest (ground arith)
    ∙ rw append_assoc

-- A command name, then quoted arguments: the text of one command. It is read back whole.
pub parse_words-spaced :
    (name : Bytes) (args : List Bytes)
    → valid_command name ≡ true
    → All IsText args
    → parse_words (name ++ spaced args) ≡ ok (name ∷ args)
unfolding parse_words valid_command
parse_words-spaced [] args v h = cc
parse_words-spaced (c ∷ name) args v h =
    scan_words-bare [] [] false true c (name ++ spaced args)
      (command_char-IsBare c (letter-command_char c (ground arith)))
    ∙ scan_words-command_chars [] (c ∷ []) name (spaced args) (ground arith)
    ∙ scan_words-spaced [] (c ∷ name) false args h

-- One quoted text is one word.
pub parse_words-quoted : (s : Bytes) → IsText s → parse_words (quoted s) ≡ ok (s ∷ [])
unfolding parse_words quoted
parse_words-quoted s h = unfold scan_words word_round in scan_words-escape [] [] true s [] h
