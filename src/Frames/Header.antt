-- ===== src/Frames/Header.antt =====
-- tmux/control_codec.go: `frameHeader` on the lines that tmux prints.
use gotmux.Prelude.{
  ℕ, ◌^◌, ◌≤◌, ◌<◌, ◌≡◌, refl, sym, ap, ◌∙◌, true, [], ◌∷◌, ◌++◌, append_assoc, append-nil, Bytes,
  All, ok, length, bytes_eq_refl, arith,
}
use gotmux.Prelude.Cut.{trim_newline-append}
use gotmux.Prelude.Decimal.{itoa, length-itoa_pos}
use gotmux.Prelude.Numeral.{all_digits, is_digit, numeral_value, all_digits-itoa, value-itoa}
use gotmux.Prelude.Fields.{fields, fields_loop, space_width, word_done}
use gotmux.Frames.{FrameId, parse_uint, header_id, frame_header}

-- Characters of ASCII that are not white space.
abbrev pub IsPlain : ℕ → Type 0
IsPlain c = (33 ≤ c) × (c < 128)

pub space_width-IsPlain : (c : ℕ) (s : Bytes) → IsPlain c → space_width (c ∷ s) ≡ 0
unfolding space_width
space_width-IsPlain c [] p = ground arith
space_width-IsPlain c (d ∷ []) p = ground arith
space_width-IsPlain c (d ∷ e ∷ s) p = ground arith

space_width-space : (s : Bytes) → space_width (32 ∷ s) ≡ 1
unfolding space_width
space_width-space [] = refl
space_width-space (d ∷ []) = refl
space_width-space (d ∷ e ∷ s) = refl

fields_loop-IsPlain :
    (w p s : Bytes) → All IsPlain p → fields_loop 0 w (p ++ s) ≡ fields_loop 0 (w ++ p) s
unfolding fields_loop
fields_loop-IsPlain w [] s h = ap (λ v. fields_loop 0 v s) (sym (append-nil w))
fields_loop-IsPlain w (c ∷ p) s h =
    rw (fields_loop, space_width-IsPlain c (p ++ s) h.0)
      (fields_loop-IsPlain (w ++ c ∷ []) p s h.1
        ∙ ap (λ v. fields_loop 0 v s) (append_assoc w (c ∷ []) p))

-- A word and a space behind it.
fields-word :
    (c : ℕ) (p s : Bytes) → All IsPlain (c ∷ p) → fields ((c ∷ p) ++ (32 ∷ s)) ≡ (c ∷ p) ∷ fields s
unfolding fields fields_loop word_done
fields-word c p s h =
    fields_loop-IsPlain [] (c ∷ p) (32 ∷ s) h ∙ rw (fields_loop, space_width-space s) refl

fields-last : (c : ℕ) (p : Bytes) → All IsPlain (c ∷ p) → fields (c ∷ p) ≡ (c ∷ p) ∷ []
unfolding fields fields_loop word_done
fields-last c p h = ap fields (sym (append-nil (c ∷ p))) ∙ fields_loop-IsPlain [] (c ∷ p) [] h

digits-IsPlain : (s : Bytes) → all_digits s ≡ true → All IsPlain s
unfolding all_digits is_digit
digits-IsPlain [] h = tt
digits-IsPlain (c ∷ s) h = (ground arith, digits-IsPlain s (ground arith))

-- A numeral is not empty.
itoa-word : (n : ℕ) → (c : ℕ) × (s : Bytes) × (itoa n ≡ c ∷ s) × All IsPlain (c ∷ s)
itoa-word n = go (itoa n) (length-itoa_pos n) (all_digits-itoa n)
  where
    go :
        (t : Bytes)
        → 0 < length t
        → all_digits t ≡ true
        → (c : ℕ) × (s : Bytes) × (t ≡ c ∷ s) × All IsPlain (c ∷ s)
    go [] h k = elim h [ ]
    go (c ∷ s) h k = (c, s, refl, digits-IsPlain (c ∷ s) k)

fields-itoa : (n : ℕ) (s : Bytes) → fields (itoa n ++ (32 ∷ s)) ≡ itoa n ∷ fields s
fields-itoa n s =
    let (c, t, e, p) = itoa-word n in
    ap (λ v. fields (v ++ (32 ∷ s))) e ∙ fields-word c t s p ∙ ap (λ v. v ∷ fields s) (sym e)

fields-itoa_last : (n : ℕ) → fields (itoa n) ≡ itoa n ∷ []
fields-itoa_last n =
    let (c, t, e, p) = itoa-word n in ap fields e ∙ fields-last c t p ∙ ap (λ v. v ∷ []) (sym e)

parse_uint-itoa : (n : ℕ) → n < 2 ^ 64 → parse_uint (itoa n) ≡ ok n
unfolding parse_uint
parse_uint-itoa n h =
    let (c, t, e, p) = itoa-word n in
    let d : all_digits (c ∷ t) ≡ true = ap all_digits (sym e) ∙ all_digits-itoa n in
    let v : numeral_value 0 (c ∷ t) ≡ n = ap (numeral_value 0) (sym e) ∙ value-itoa n in
    ap parse_uint e ∙ rw (parse_uint, d, v) (ground arith)

-- The numbers of a frame that tmux names.
pub record IsFrame (id : FrameId) : Type 0 where
  pub time_fits : id.time < 2 ^ 64
  pub number_fits : id.number < 2 ^ 64
  pub one_flag : id.flags ≤ 1

-- "%<kind> <time> <number> <flags>"
abbrev pub header_text : Bytes → FrameId → Bytes
header_text kind id =
    (37 ∷ kind) ++ (32 ∷ (itoa id.time ++ (32 ∷ (itoa id.number ++ (32 ∷ itoa id.flags)))))

abbrev pub header_line : Bytes → FrameId → Bytes
header_line kind id = header_text kind id ++ (10 ∷ [])

fields-header_text :
    (kind : Bytes) (id : FrameId)
    → All IsPlain kind
    → fields (header_text kind id)
      ≡ (37 ∷ kind) ∷ itoa id.time ∷ itoa id.number ∷ itoa id.flags ∷ []
fields-header_text kind id p =
    fields-word 37 kind _ (omega arith, p)
    ∙ ap (λ v. (37 ∷ kind) ∷ v)
        (fields-itoa id.time _
          ∙ ap (λ v. itoa id.time ∷ v)
              (fields-itoa id.number _ ∙ ap (λ v. itoa id.number ∷ v) (fields-itoa_last id.flags)))

pub frame_header-header_line :
    (kind : Bytes) (id : FrameId)
    → All IsPlain kind
    → IsFrame id
    → frame_header (header_line kind id) kind ≡ ok id
unfolding frame_header header_id
frame_header-header_line kind id p f =
    let flag_fits : id.flags < 2 ^ 64 = omega (arith, f.one_flag) in
    ap (λ v. header_id kind (fields v)) (trim_newline-append (header_text kind id))
    ∙ ap (header_id kind) (fields-header_text kind id p)
    ∙ rw
        (
          header_id,
          bytes_eq_refl kind,
          parse_uint-itoa id.time f.time_fits,
          parse_uint-itoa id.number f.number_fits,
          parse_uint-itoa id.flags flag_fits,
        )
        (ground (arith, f.one_flag))
