-- ===== src/Prelude/Fields.antt =====
-- `strings.Fields` and `strings.Split` of Go, on bytes of UTF-8 text.
use Prim.Native.Nat.{ℕ, zero, suc, ◌+◌, ◌-◌, ◌≤◌}
use mathlib.Core.Path.{◌≡◌, refl, ◌∙◌}
use mathlib.Core.Bool.{true, ◌&&◌, ◌||◌}
use mathlib.Core.Logic.{inl, inr}
use mathlib.Core.List.{List, [], ◌∷◌, ◌++◌, append-nil, append_assoc}
use native.Mathlib.Omega.{arith}
use gotmux.Prelude.Tests.{leb, ◌==◌, if◌then◌else◌, Bool-cases}
use gotmux.Prelude.Cut.{Lacks}
use gotmux.Prelude.Lists.{Bytes, length, length-append}

-- The length of the white space that a text begins with, 0 if there is none: `unicode.IsSpace` on
-- the first character.
unfoldable pub space_width : Bytes → ℕ
space_width [] = 0
space_width (c ∷ []) = if leb 9 c && leb c 13 || c == 32 then 1 else 0
space_width (c ∷ d ∷ []) =
    if leb 9 c && leb c 13 || c == 32
    then 1
    else if c == 0xC2 && (d == 0x85 || d == 0xA0)
    then 2
    else 0
space_width (c ∷ d ∷ e ∷ s) =
    if leb 9 c && leb c 13 || c == 32
    then 1
    else if c == 0xC2 && (d == 0x85 || d == 0xA0)
    then 2
    else if c == 0xE1 && d == 0x9A && e == 0x80
        || c == 0xE2
          && d == 0x80
          && (leb 0x80 e && leb e 0x8A || e == 0xA8 || e == 0xA9 || e == 0xAF)
        || c == 0xE2 && d == 0x81 && e == 0x9F
        || c == 0xE3 && d == 0x80 && e == 0x80
    then 3
    else 0

-- A word that has ended.
unfoldable pub word_done : Bytes → List Bytes → List Bytes
word_done [] words = words
word_done (c ∷ w) words = (c ∷ w) ∷ words

-- `skip` bytes belong to white space that has begun; `w` is the word so far.
unfoldable pub fields_loop : ℕ → Bytes → Bytes → List Bytes
unfolding space_width word_done
fields_loop skip w [] = word_done w []
fields_loop (suc skip) w (c ∷ s) = fields_loop skip w s
fields_loop zero w (c ∷ s) =
    let n = space_width (c ∷ s) in
    let in_word = fields_loop 0 (w ++ c ∷ []) s in
    let after = word_done w (fields_loop (n - 1) [] s) in if n == 0 then in_word else after

unfoldable pub fields : Bytes → List Bytes
unfolding fields_loop
fields s = fields_loop 0 [] s

split_loop : ℕ → Bytes → Bytes → List Bytes
split_loop sep w [] = w ∷ []
split_loop sep w (c ∷ s) =
    let same = split_loop sep (w ++ c ∷ []) s in
    let after = w ∷ split_loop sep [] s in if c == sep then after else same

-- `strings.Split` with a separator of one byte.
unfoldable pub split : ℕ → Bytes → List Bytes
unfolding split_loop
split sep s = split_loop sep [] s

-- The bytes of a list of texts.
abbrev pub all_bytes : List Bytes → ℕ
all_bytes [] = 0
all_bytes (w ∷ ws) = length w + all_bytes ws

word_done-bytes :
    (w : Bytes) (ws : List Bytes) → all_bytes (word_done w ws) ≡ length w + all_bytes ws
unfolding word_done
word_done-bytes [] ws = omega arith
word_done-bytes (c ∷ w) ws = refl

fields_loop-bytes :
    (skip : ℕ) (w s : Bytes) → all_bytes (fields_loop skip w s) ≤ length w + length s
unfolding fields_loop
fields_loop-bytes zero w [] = omega (arith, word_done-bytes w [])
fields_loop-bytes (suc skip) w [] = omega (arith, word_done-bytes w [])
fields_loop-bytes (suc skip) w (c ∷ s) = omega (arith, fields_loop-bytes skip w s)
fields_loop-bytes zero w (c ∷ s) = elim (Bool-cases (space_width (c ∷ s) == 0)) [
  | inl e ↦
      let k = fields_loop-bytes 0 (w ++ c ∷ []) s in
      rw (fields_loop, e) (omega (arith, length-append w (c ∷ []), k))
  | inr e ↦
      let k = fields_loop-bytes (space_width (c ∷ s) - 1) [] s in
      rw (fields_loop, e)
        (omega (arith, word_done-bytes w (fields_loop (space_width (c ∷ s) - 1) [] s), k))
]

-- The words of a text are no longer than it.
pub fields-bytes : (s : Bytes) → all_bytes (fields s) ≤ length s
unfolding fields
fields-bytes s = omega (arith, fields_loop-bytes 0 [] s)

split_loop-bytes : (sep : ℕ) (w s : Bytes) → all_bytes (split_loop sep w s) ≤ length w + length s
unfolding split_loop
split_loop-bytes sep w [] = omega arith
split_loop-bytes sep w (c ∷ s) = ground (
  arith,
  length-append w (c ∷ []),
  split_loop-bytes sep (w ++ c ∷ []) s,
  split_loop-bytes sep [] s,
)

pub split-bytes : (sep : ℕ) (s : Bytes) → all_bytes (split sep s) ≤ length s
unfolding split
split-bytes sep s = omega (arith, split_loop-bytes sep [] s)

split_loop-here :
    (sep : ℕ) (w l s : Bytes)
    → Lacks sep l
    → split_loop sep w (l ++ sep ∷ s) ≡ (w ++ l) ∷ split_loop sep [] s
unfolding split_loop
split_loop-here sep w [] s h =
    let same : (sep == sep) ≡ true = ground arith in rw (split_loop, same, append-nil w) refl
split_loop-here sep w (c ∷ l) s h =
    rw (split_loop, h.0) (split_loop-here sep (w ++ c ∷ []) l s h.1 ∙ rw append_assoc)

split_loop-last : (sep : ℕ) (w l : Bytes) → Lacks sep l → split_loop sep w l ≡ (w ++ l) ∷ []
unfolding split_loop
split_loop-last sep w [] h = rw append-nil
split_loop-last sep w (c ∷ l) h =
    rw (split_loop, h.0) (split_loop-last sep (w ++ c ∷ []) l h.1 ∙ rw append_assoc)

-- A part that has no separator in it.
pub split-here : (sep : ℕ) (l s : Bytes) → Lacks sep l → split sep (l ++ sep ∷ s) ≡ l ∷ split sep s
unfolding split
split-here sep l s h = split_loop-here sep [] l s h

pub split-last : (sep : ℕ) (l : Bytes) → Lacks sep l → split sep l ≡ l ∷ []
unfolding split
split-last sep l h = split_loop-last sep [] l h
