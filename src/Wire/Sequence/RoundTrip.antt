-- ===== src/Wire/Sequence/RoundTrip.antt =====
-- `SplitSequence` on command text that quotes its arguments: a separator inside quotes is no separator.
use gotmux.Prelude.{
  ℕ, ◌+◌, ◌/◌, ◌%◌, ◌<◌, ◌≡◌, refl, ◌∙◌, inl, inr, Bool, true, List, [], ◌∷◌, ◌++◌, append-nil,
  append_assoc, Bytes, All, Bool-cases, arith,
}
use gotmux.Wire.Argv.{is_safe_quote_byte, command_chars, valid_command}
use gotmux.Wire.Quote.{octal_escape, escape, quoted}
use gotmux.Wire.Words.Quoted.{IsText, IsPlain, safe-IsPlain, IsBare, command_char-IsBare, spaced}
use gotmux.Wire.Sequence.{Split, go, take, split_round, scan_sequence}

-- Between double quotation marks.
abbrev inside : List Bytes → Bytes → Split
inside out part = record { out = out; part = part; quote = b'"'; word_started = true; skip = take }

abbrev pub outside : List Bytes → Bytes → Bool → Split
outside out part started = record {
  out = out;
  part = part;
  quote = 0;
  word_started = started;
  skip = take;
}

module _ (e : Bool) where
  split_round-plain :
      (out : List Bytes) (part : Bytes) (c : ℕ) (rest : Bytes)
      → IsPlain c
      → split_round e (inside out part) c rest ≡ go (inside out (part ++ c ∷ []))
  unfolding split_round
  split_round-plain out part c rest p = ground arith

  split_round-bare :
      (out : List Bytes) (part : Bytes) (started : Bool) (c : ℕ) (rest : Bytes)
      → IsBare c
      → split_round e (outside out part started) c rest ≡ go (outside out (part ++ c ∷ []) true)
  unfolding split_round
  split_round-bare out part started c rest p = ground arith

  scan-plain :
      (out : List Bytes) (part : Bytes) (c : ℕ) (rest : Bytes)
      → IsPlain c
      → scan_sequence e (inside out part) (c ∷ rest)
        ≡ scan_sequence e (inside out (part ++ c ∷ [])) rest
  unfolding scan_sequence
  scan-plain out part c rest p = rw (split_round-plain out part c rest p, scan_sequence)

  pub scan-bare :
      (out : List Bytes) (part : Bytes) (started : Bool) (c : ℕ) (rest : Bytes)
      → IsBare c
      → scan_sequence e (outside out part started) (c ∷ rest)
        ≡ scan_sequence e (outside out (part ++ c ∷ []) true) rest
  unfolding scan_sequence
  scan-bare out part started c rest p =
      rw (split_round-bare out part started c rest p, scan_sequence)

  scan-backslash :
      (out : List Bytes) (part : Bytes) (d : ℕ) (rest : Bytes)
      → scan_sequence e (inside out part) (b'\\' ∷ d ∷ rest)
        ≡ scan_sequence e (inside out ((part ++ b'\\' ∷ []) ++ d ∷ [])) rest
  unfolding scan_sequence split_round
  scan-backslash out part d rest = refl

  scan-octal :
      (out : List Bytes) (part : Bytes) (c : ℕ) (rest : Bytes)
      → c < 256
      → scan_sequence e (inside out part) (octal_escape c ++ rest)
        ≡ scan_sequence e (inside out (part ++ octal_escape c)) rest
  unfolding octal_escape
  scan-octal out part c rest h =
      scan-backslash out part (b'0' + c / 64) ((b'0' + c / 8 % 8) ∷ (b'0' + c % 8) ∷ rest)
      ∙ scan-plain out _ (b'0' + c / 8 % 8) ((b'0' + c % 8) ∷ rest) (omega arith)
      ∙ scan-plain out _ (b'0' + c % 8) rest (omega arith)
      ∙ simp append_assoc

  scan-escape :
      (out : List Bytes) (part s rest : Bytes)
      → IsText s
      → scan_sequence e (inside out part) (escape s ++ rest)
        ≡ scan_sequence e (inside out (part ++ escape s)) rest
  unfolding escape
  scan-escape out part [] rest h = rw append-nil
  scan-escape out part (c ∷ s) rest h = elim (Bool-cases (is_safe_quote_byte c)) [
    | inl safe ↦ rw safe (
        scan-plain out part c (escape s ++ rest) (safe-IsPlain c safe)
        ∙ scan-escape out (part ++ c ∷ []) s rest h.1
        ∙ rw append_assoc)
    | inr unsafe ↦ rw unsafe (
        rw append_assoc (
          scan-octal out part c (escape s ++ rest) h.0.1
          ∙ scan-escape out (part ++ octal_escape c) s rest h.1
          ∙ rw append_assoc))
  ]

  scan-open :
      (out : List Bytes) (part rest : Bytes)
      → scan_sequence e (outside out part true) (b' ' ∷ b'"' ∷ rest)
        ≡ scan_sequence e (inside out ((part ++ b' ' ∷ []) ++ b'"' ∷ [])) rest
  unfolding scan_sequence split_round
  scan-open out part rest = ground arith

  scan-close :
      (out : List Bytes) (part rest : Bytes)
      → scan_sequence e (inside out part) (b'"' ∷ rest)
        ≡ scan_sequence e (outside out (part ++ b'"' ∷ []) true) rest
  unfolding scan_sequence split_round
  scan-close out part rest = refl

  scan-quoted :
      (out : List Bytes) (part a rest : Bytes)
      → IsText a
      → scan_sequence e (outside out part true) (b' ' ∷ (quoted a ++ rest))
        ≡ scan_sequence e (outside out (part ++ (b' ' ∷ quoted a)) true) rest
  unfolding quoted
  scan-quoted out part a rest h = rw append_assoc (
      scan-open out part (escape a ++ (b'"' ∷ rest))
      ∙ scan-escape out _ a (b'"' ∷ rest) h
      ∙ scan-close out _ rest
      ∙ simp append_assoc)

  pub scan-spaced :
      (out : List Bytes) (part : Bytes) (args : List Bytes) (rest : Bytes)
      → All IsText args
      → scan_sequence e (outside out part true) (spaced args ++ rest)
        ≡ scan_sequence e (outside out (part ++ spaced args) true) rest
  unfolding spaced
  scan-spaced out part [] rest h = rw append-nil
  scan-spaced out part (a ∷ args) rest h = rw append_assoc (
      scan-quoted out part a (spaced args ++ rest) h.0
      ∙ scan-spaced out (part ++ (b' ' ∷ quoted a)) args rest h.1
      ∙ rw append_assoc)

  pub scan-command_chars :
      (out : List Bytes) (part name rest : Bytes)
      → command_chars name ≡ true
      → scan_sequence e (outside out part true) (name ++ rest)
        ≡ scan_sequence e (outside out (part ++ name) true) rest
  unfolding command_chars
  scan-command_chars out part [] rest h = rw append-nil
  scan-command_chars out part (c ∷ name) rest h =
      scan-bare out part true c (name ++ rest) (command_char-IsBare c (ground arith))
      ∙ scan-command_chars out (part ++ c ∷ []) name rest (ground arith)
      ∙ rw append_assoc

-- A command's name and arguments, and its text.
abbrev pub Call : Type 0
Call = Bytes × List Bytes

unfoldable pub call_text : Call → Bytes
call_text (name, args) = name ++ spaced args

abbrev pub IsCall : Call → Type 0
IsCall (name, args) = (valid_command name ≡ true) × All IsText args

-- The texts that follow the first one, each behind a separator.
unfoldable pub tail_text : List Bytes → Bytes
tail_text [] = []
tail_text (t ∷ ts) = b' ' ∷ b';' ∷ b' ' ∷ (t ++ tail_text ts)

unfoldable pub sequence_text : List Bytes → Bytes
unfolding tail_text
sequence_text [] = []
sequence_text (t ∷ ts) = t ++ tail_text ts
