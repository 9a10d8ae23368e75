-- ===== src/Wire/Sequence/Whole.antt =====
-- A command sequence written with quoted arguments is split into the texts of its commands.
use gotmux.Prelude.{
  ℕ, ◌≡◌, refl, sym, ◌∙◌, ap, Bool, true, false, List, [], ◌∷◌, ◌++◌, map, append-nil, append_assoc,
  Bytes, All, ok, arith,
}
use gotmux.Wire.Argv.{command_chars, valid_command}
use gotmux.Wire.Quote.{escape, quoted}
use gotmux.Wire.Words.{is_space}
use gotmux.Wire.Words.Quoted.{IsBare, command_char-IsBare, letter-command_char, spaced}
use gotmux.Wire.Sequence.{
  blank_split, scan_sequence, split_round, finish_split, extract_part, split_sequence,
  split_binding_sequence, trim,
}
use gotmux.Wire.Sequence.RoundTrip.{
  outside, scan-bare, scan-command_chars, scan-spaced, Call, call_text, IsCall, tail_text,
  sequence_text,
}
use gotmux.Wire.Sequence.Trim.{BeginsSolid, EndsSolid, EndsSolid-append, trim-solid}

bare-solid : (c : ℕ) → IsBare c → is_space c ≡ false
unfolding is_space
bare-solid c h = ground arith

quoted-EndsSolid : (a : Bytes) → EndsSolid (quoted a)
unfolding quoted is_space
quoted-EndsSolid a = EndsSolid-append (b'"' ∷ escape a) (b'"' ∷ []) refl

spaced-EndsSolid : (a : Bytes) (args : List Bytes) → EndsSolid (spaced (a ∷ args))
unfolding spaced
spaced-EndsSolid a [] = rw append-nil (EndsSolid-append (b' ' ∷ []) (quoted a) (quoted-EndsSolid a))
spaced-EndsSolid a (b ∷ args) =
    EndsSolid-append (b' ' ∷ quoted a) (spaced (b ∷ args)) (spaced-EndsSolid b args)

name-EndsSolid :
    (c : ℕ) (name : Bytes) → IsBare c → command_chars name ≡ true → EndsSolid (c ∷ name)
unfolding command_chars
name-EndsSolid c [] b h = bare-solid c b
name-EndsSolid c (d ∷ name) b h =
    name-EndsSolid d name (command_char-IsBare d (ground arith)) (ground arith)

head-IsBare : (c : ℕ) (name : Bytes) → valid_command (c ∷ name) ≡ true → IsBare c
unfolding valid_command
head-IsBare c name v = command_char-IsBare c (letter-command_char c (ground arith))

tail_chars : (c : ℕ) (name : Bytes) → valid_command (c ∷ name) ≡ true → command_chars name ≡ true
unfolding valid_command
tail_chars c name v = ground arith

call-BeginsSolid : (k : Call) → IsCall k → BeginsSolid (call_text k)
unfolding call_text
call-BeginsSolid ([], args) h = absurd (unfold valid_command in cc (h.0))
call-BeginsSolid (c ∷ name, args) h = bare-solid c (head-IsBare c name h.0)

call-EndsSolid : (k : Call) → IsCall k → EndsSolid (call_text k)
unfolding call_text spaced
call-EndsSolid ([], args) h = absurd (unfold valid_command in cc (h.0))
call-EndsSolid (c ∷ name, []) h =
    rw append-nil (name-EndsSolid c name (head-IsBare c name h.0) (tail_chars c name h.0))
call-EndsSolid (c ∷ name, a ∷ args) h =
    EndsSolid-append (c ∷ name) (spaced (a ∷ args)) (spaced-EndsSolid a args)

module _ (e : Bool) where
  scan-call :
      (out : List Bytes) (part : Bytes) (k : Call) (rest : Bytes)
      → IsCall k
      → scan_sequence e (outside out part false) (call_text k ++ rest)
        ≡ scan_sequence e (outside out (part ++ call_text k) true) rest
  unfolding call_text
  scan-call out part ([], args) rest h = absurd (unfold valid_command in cc (h.0))
  scan-call out part (c ∷ name, args) rest h = rw (append_assoc name (spaced args) rest) (
      scan-bare e out part false c (name ++ (spaced args ++ rest)) (head-IsBare c name h.0)
      ∙ scan-command_chars e out (part ++ c ∷ []) name (spaced args ++ rest) (tail_chars c name h.0)
      ∙ scan-spaced e out ((part ++ c ∷ []) ++ name) args rest h.1
      ∙ simp append_assoc)

  -- A separator ends the part before it.
  scan_separator :
      (out : List Bytes) (part t rest : Bytes)
      → extract_part (part ++ b' ' ∷ []) ≡ ok t
      → scan_sequence e (outside out part true) (b' ' ∷ b';' ∷ b' ' ∷ rest)
        ≡ scan_sequence e (outside (out ++ t ∷ []) (b' ' ∷ []) false) rest
  unfolding scan_sequence split_round
  scan_separator out part t rest h = ground arith

-- What the loop holds of command `k` when its last byte has been read: the command's text, perhaps
-- behind a blank, so that trimming gives the text, also with a blank behind it.
record Holds (part : Bytes) (k : Call) : Type 0 where
  at_end : trim part ≡ call_text k
  at_blank : trim (part ++ b' ' ∷ []) ≡ call_text k

first-Holds : (k : Call) → IsCall k → Holds (call_text k) k
unfolding trim
first-Holds k h = record {
  at_end =
      ap trim (sym (append-nil (call_text k)))
      ∙ trim-solid (call_text k) [] (call-BeginsSolid k h) (call-EndsSolid k h) refl;
  at_blank =
      trim-solid (call_text k) (b' ' ∷ []) (call-BeginsSolid k h) (call-EndsSolid k h)
        (unfold is_space in refl);
}

later-Holds : (k : Call) → IsCall k → Holds (b' ' ∷ call_text k) k
unfolding trim is_space
later-Holds k h = let p = first-Holds k h in record { at_end = p.at_end; at_blank = p.at_blank }

extract-solid :
    (part : Bytes) (k : Call)
    → IsCall k
    → trim part ≡ call_text k
    → extract_part part ≡ ok (call_text k)
unfolding extract_part
extract-solid part ([], args) h e = absurd (unfold valid_command in cc (h.0))
extract-solid part (c ∷ name, args) h e = rw e (unfold call_text in refl)

finish-solid :
    (out : List Bytes) (part : Bytes) (k : Call)
    → IsCall k
    → trim part ≡ call_text k
    → finish_split (outside out part true) ≡ ok (out ++ call_text k ∷ [])
unfolding finish_split
finish-solid out part ([], args) h e = absurd (unfold valid_command in cc (h.0))
finish-solid out part (c ∷ name, args) h e = rw e (unfold call_text in refl)

module _ (e : Bool) where
  scan_tail :
      (out : List Bytes) (part : Bytes) (k : Call) (ks : List Call)
      → Holds part k
      → IsCall k
      → All IsCall ks
      → scan_sequence e (outside out part true) (tail_text (map call_text ks))
        ≡ ok (out ++ call_text k ∷ map call_text ks)
  unfolding tail_text
  scan_tail out part k [] p h hs = unfold scan_sequence in finish-solid out part k h p.at_end
  scan_tail out part k (j ∷ ks) p h hs =
      scan_separator e out part (call_text k) (call_text j ++ tail_text (map call_text ks))
        (extract-solid (part ++ b' ' ∷ []) k h p.at_blank)
      ∙ scan-call e (out ++ call_text k ∷ []) (b' ' ∷ []) j (tail_text (map call_text ks)) hs.0
      ∙ scan_tail (out ++ call_text k ∷ []) (b' ' ∷ call_text j) j ks (later-Holds j hs.0) hs.0 hs.1
      ∙ rw append_assoc

  scan_whole :
      (ks : List Call)
      → All IsCall ks
      → scan_sequence e blank_split (sequence_text (map call_text ks)) ≡ ok (map call_text ks)
  unfolding sequence_text
  scan_whole [] hs = unfold scan_sequence finish_split in refl
  scan_whole (k ∷ ks) hs =
      scan-call e [] [] k (tail_text (map call_text ks)) hs.0
      ∙ scan_tail [] (call_text k) k ks (first-Holds k hs.0) hs.0 hs.1

-- Commands with quoted arguments, joined by separators, are split where they were joined, whatever
-- the arguments hold; bindings are split alike.
pub split_sequence-sequence_text :
    (ks : List Call)
    → All IsCall ks
    → (split_sequence (sequence_text (map call_text ks)) ≡ ok (map call_text ks))
      × (split_binding_sequence (sequence_text (map call_text ks)) ≡ ok (map call_text ks))
unfolding split_sequence split_binding_sequence
split_sequence-sequence_text ks hs = (scan_whole false ks hs, scan_whole true ks hs)
