-- ===== src/Options/Lines.antt =====
-- The lines of an array option are read by tmux/options.go.
use gotmux.Prelude.{
  ℕ, ◌^◌, ◌<◌, ◌≡◌, ◌≢◌, refl, sym, ap, ◌∙◌, inl, inr, Bool, true, false, map, append-nil, none,
  some, List, [], ◌∷◌, ◌++◌, append_assoc, Bytes, codes, All, cut_prefix, cut_prefix-append, length,
  length-append, ok, ◌==◌, Bool-cases, arith,
}
use gotmux.Prelude.Cut.{Lacks, Lacks-append, cut-Lacks, trim_newline, trim_newline-append}
use gotmux.Prelude.Decimal.{itoa}
use gotmux.Prelude.Fields.{split, split-here, split-last}
use gotmux.Prelude.Int.{atoi-itoa}
use gotmux.Prelude.Numeral.{is_digit, all_digits, all_digits-itoa}
use gotmux.Wire.Words.{parse_words}
use gotmux.Read.{valid_format_name, all_format_bytes, is_format_byte}
use gotmux.Options.{
  before_last, trim_last, base_name, parse_option_name, whole_name, ArrayEntry, index_of,
  array_index, array_value, array_words, array_key, parse_array_line, array_lines, read_array,
}

-- The key of an entry; one that is inherited is marked.
abbrev pub key_text : Bytes → ℕ → Bytes
key_text base n = base ++ (b'[' ∷ (itoa n ++ b']' ∷ []))

abbrev pub mark : Bool → Bytes
mark true = b'*' ∷ []
mark false = []

-- A line: its entry, whether that is inherited, and the text that stands for the value.
pub record Printed : Type 0 where
  pub entry : ArrayEntry
  pub inherited : Bool
  pub shown : Bytes

abbrev pub marked_key : Bytes → Printed → Bytes
marked_key base e = key_text base e.entry.index ++ mark e.inherited

abbrev pub line_text : Bytes → Printed → Bytes
line_text base e = marked_key base e ++ (b' ' ∷ e.shown)

-- Each entry on a line of its own.
unfoldable pub array_text : Bytes → List Printed → Bytes
array_text base [] = []
array_text base (e ∷ entries) = line_text base e ++ b'\n' ∷ array_text base entries

-- The index is an `int`, and the text is one word, in whatever way it is written, on one line.
pub record IsPrinted (e : Printed) : Type 0 where
  pub bounded : e.entry.index < 2 ^ 63
  pub one_word : parse_words e.shown ≡ ok (e.entry.value ∷ [])
  pub one_line : Lacks b'\n' e.shown

before_last-append : (b : ℕ) (s : Bytes) → before_last b (s ++ b ∷ []) ≡ some s
unfolding before_last
before_last-append b [] = let same : (b == b) ≡ true = ground arith in rw (before_last, same) refl
before_last-append b (c ∷ []) = rw (before_last, before_last-append b []) refl
before_last-append b (c ∷ d ∷ s) = rw (before_last, before_last-append b (d ∷ s)) refl

before_last-other : (b c : ℕ) (s : Bytes) → c == b ≡ false → before_last b (s ++ c ∷ []) ≡ none
unfolding before_last
before_last-other b c [] h = rw (before_last, h) refl
before_last-other b c (d ∷ []) h = rw (before_last, before_last-other b c [] h) refl
before_last-other b c (d ∷ e ∷ s) h = rw (before_last, before_last-other b c (e ∷ s) h) refl

-- Bytes of a format name.
format_byte-Lacks :
    (b : ℕ) (s : Bytes) → is_format_byte b ≡ false → all_format_bytes s ≡ true → Lacks b s
unfolding all_format_bytes
format_byte-Lacks b [] h a = tt
format_byte-Lacks b (c ∷ s) h a = elim (Bool-cases (c == b)) [
  | inl same ↦ absurd (ground (arith, h, a, same))
  | inr other ↦ (other, format_byte-Lacks b s h (ground (arith, a)))
]

digits-Lacks : (b : ℕ) (s : Bytes) → b < 48 → all_digits s ≡ true → Lacks b s
unfolding all_digits is_digit
digits-Lacks b [] h a = tt
digits-Lacks b (c ∷ s) h a = (ground arith, digits-Lacks b s h (ground arith))

module _ (base : Bytes) where
  -- A plain base has no byte but those of a name.
  base-bytes : base_name base ≡ true → all_format_bytes base ≡ true
  unfolding base_name valid_format_name
  base-bytes h = ground (arith, h)

  key-Lacks :
      (b n : ℕ)
      → b < 48
      → base_name base ≡ true
      → is_format_byte b ≡ false
      → Lacks b (key_text base n)
  key-Lacks b n small h f =
      Lacks-append b base (b'[' ∷ (itoa n ++ b']' ∷ [])) (format_byte-Lacks b base f (base-bytes h))
        (
          ground arith,
          Lacks-append b (itoa n) (b']' ∷ []) (digits-Lacks b (itoa n) small (all_digits-itoa n))
              (ground arith, tt),
        )

  array_index-itoa : (n : ℕ) → n < 2 ^ 63 → array_index (itoa n ++ b']' ∷ []) ≡ ok n
  unfolding array_index index_of
  array_index-itoa n l = rw (array_index, before_last-append b']' (itoa n), atoi-itoa n l) refl

  trim_last-key : (n : ℕ) (b : Bool) → trim_last b'*' (key_text base n ++ mark b) ≡ key_text base n
  unfolding trim_last
  trim_last-key n true = rw (trim_last, before_last-append b'*' (key_text base n)) refl
  trim_last-key n false =
      let whole : key_text base n ++ [] ≡ (base ++ (b'[' ∷ itoa n)) ++ b']' ∷ [] =
        append-nil (key_text base n) ∙ sym (append_assoc base (b'[' ∷ itoa n) (b']' ∷ [])) in
      let none_left =
        ap (before_last b'*') whole ∙ before_last-other b'*' b']' (base ++ (b'[' ∷ itoa n)) refl in
      rw (trim_last, none_left) (append-nil (key_text base n))

  array_key-printed :
      (e : Printed)
      → IsPrinted e
      → array_key base (key_text base e.entry.index) e.shown ≡ ok e.entry
  unfolding array_key array_words array_value
  array_key-printed e p =
      let behind = itoa e.entry.index ++ b']' ∷ [] in
      let found : cut_prefix (base ++ codes "[") (key_text base e.entry.index) ≡ some behind =
        ap (cut_prefix (base ++ codes "[")) (sym (append_assoc base (codes "[") behind))
        ∙ cut_prefix-append (base ++ codes "[") behind in
      rw (array_key, found, array_index-itoa e.entry.index p.bounded)
        (rw (array_words, p.one_word) refl)

  marked-Lacks :
      (b : ℕ) (e : Printed)
      → b < 42
      → base_name base ≡ true
      → is_format_byte b ≡ false
      → Lacks b (marked_key base e)
  marked-Lacks b e small h f =
      Lacks-append b (key_text base e.entry.index) (mark e.inherited)
        (key-Lacks b e.entry.index (omega (arith, small)) h f) (of_mark e.inherited)
    where
      of_mark : (m : Bool) → Lacks b (mark m)
      of_mark true = (ground (arith, small), tt)
      of_mark false = tt

  parse_array_line-printed :
      (e : Printed)
      → base_name base ≡ true
      → IsPrinted e
      → parse_array_line base (line_text base e) ≡ ok e.entry
  unfolding parse_array_line is_format_byte
  parse_array_line-printed e h p =
      rw
        (
          parse_array_line,
          cut-Lacks b' ' [] (marked_key base e) e.shown (marked-Lacks b' ' e (ground arith) h refl),
        )
        (ap (λ k. array_key base k e.shown) (trim_last-key e.entry.index e.inherited)
          ∙ array_key-printed e p)

  line-Lacks : (e : Printed) → base_name base ≡ true → IsPrinted e → Lacks b'\n' (line_text base e)
  unfolding is_format_byte
  line-Lacks e h p =
      Lacks-append b'\n' (marked_key base e) (b' ' ∷ e.shown)
        (marked-Lacks b'\n' e (ground arith) h refl) (refl, p.one_line)

  -- The lines of entries, without the line feed at the end.
  joined : Printed → List Printed → Bytes
  joined e [] = line_text base e
  joined e (f ∷ entries) = line_text base e ++ b'\n' ∷ joined f entries

  array_text-joined :
      (e : Printed) (entries : List Printed)
      → array_text base (e ∷ entries) ≡ joined e entries ++ b'\n' ∷ []
  unfolding array_text joined
  array_text-joined e [] = refl
  array_text-joined e (f ∷ entries) =
      ap (λ t. line_text base e ++ b'\n' ∷ t) (array_text-joined f entries)
      ∙ sym (append_assoc (line_text base e) (b'\n' ∷ joined f entries) (b'\n' ∷ []))

  array_lines-line :
      (l : Bytes) (e : ArrayEntry) (lines : List Bytes) (entries : List ArrayEntry)
      → l ≢ []
      → parse_array_line base l ≡ ok e
      → array_lines base lines ≡ ok entries
      → array_lines base (l ∷ lines) ≡ ok (e ∷ entries)
  unfolding array_lines
  array_lines-line [] e lines entries n p h = absurd (n refl)
  array_lines-line (c ∷ s) e lines entries n p h = rw (array_lines, p, h) refl

  line_text-full : (e : Printed) → line_text base e ≢ []
  line_text-full e q =
      absurd (omega (arith, length-append (marked_key base e) (b' ' ∷ e.shown), ap length q))

  array_lines-joined :
      (e : Printed) (entries : List Printed)
      → base_name base ≡ true
      → All IsPrinted (e ∷ entries)
      → array_lines base (split b'\n' (joined e entries)) ≡ ok (map (λ x. x.entry) (e ∷ entries))
  unfolding joined
  array_lines-joined e [] h p =
      ap (array_lines base) (split-last b'\n' (line_text base e) (line-Lacks e h p.0))
      ∙ array_lines-line (line_text base e) e.entry [] [] (line_text-full e)
          (parse_array_line-printed e h p.0) (unfold array_lines in refl)
  array_lines-joined e (f ∷ entries) h p =
      ap (array_lines base)
        (split-here b'\n' (line_text base e) (joined f entries) (line-Lacks e h p.0))
      ∙ array_lines-line (line_text base e) e.entry (split b'\n' (joined f entries))
          (map (λ x. x.entry) (f ∷ entries)) (line_text-full e) (parse_array_line-printed e h p.0)
          (array_lines-joined f entries h p.1)

  before_last-Lacks : (b : ℕ) (s : Bytes) → Lacks b s → before_last b s ≡ none
  unfolding before_last
  before_last-Lacks b [] h = refl
  before_last-Lacks b (c ∷ []) h = rw (before_last, h.0) refl
  before_last-Lacks b (c ∷ d ∷ s) h = rw (before_last, before_last-Lacks b (d ∷ s) h.1) refl

  whole_name-base : base_name base ≡ true → whole_name base ≡ ok base
  unfolding whole_name parse_option_name is_format_byte
  whole_name-base h =
      let no_index =
        before_last-Lacks b']' base (format_byte-Lacks b']' base refl (base-bytes h)) in
      rw (whole_name, parse_option_name, no_index, h) refl

  -- Lines of an array option, each with the key of its entry, marked if it is inherited, and behind a
  -- space a text without a line feed that is one word, are read as the entries that they stand for,
  -- in order and with their gaps.
  pub read_array-array_text :
      (entries : List Printed)
      → base_name base ≡ true
      → All IsPrinted entries
      → read_array base (array_text base entries) ≡ ok (map (λ x. x.entry) entries)
  unfolding read_array
  read_array-array_text [] h p =
      rw (read_array, whole_name-base h) (unfold array_text trim_newline split array_lines in refl)
  read_array-array_text (e ∷ entries) h p =
      rw (read_array, whole_name-base h)
        (ap (λ t. array_lines base (split b'\n' (trim_newline t))) (array_text-joined e entries)
          ∙ ap (λ t. array_lines base (split b'\n' t)) (trim_newline-append (joined e entries))
          ∙ array_lines-joined e entries h p)
