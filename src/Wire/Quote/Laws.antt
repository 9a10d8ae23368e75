-- ===== src/Wire/Quote/Laws.antt =====
-- `QuoteWriter` over a lawful writer writes the escaped text, and is lawful again.
use gotmux.Prelude.{
  ℕ, suc, ◌+◌, ◌≡◌, refl, sym, ◌∙◌, ap, ap₂, inl, inr, true, false, [], ◌∷◌, ◌++◌, append-nil,
  append_assoc, Bytes, ◌⊎◌, Error, err_nul_command_text, Result, ok, err, ◌>>=◌, Result-cases,
  Bool-cases, length, ◌==◌, arith,
}
use native.Mathlib.Nat.{add-zero}
use gotmux.Wire.Argv.{is_safe_quote_byte, valid_string}
use gotmux.Wire.Writer.{Writer, put, NonZero, Lawful, builder_write, NonZero-append}
use gotmux.Wire.Quote.{
  octal_escape, octal_escape-NonZero, write_octal_escape, flush, quote_loop, quote_write,
  write_quoted, quote, quoted, escape, escape-append, escape-NonZero,
}

-- Two binds in a row.
pub bind_assoc :
    {A B C : Type 0} (m : Result A) (f : A → Result B) (g : B → Result C)
    → ((m >>= f) >>= g) ≡ (m >>= λ a. f a >>= g)
bind_assoc (ok a) f g = refl
bind_assoc (err e) f g = refl

bind_ok : {A : Type 0} (m : Result A) → (m >>= λ a. ok a) ≡ m
bind_ok (ok a) = refl
bind_ok (err e) = refl

module _ {S : Type 0} (w : Writer S) (Good : S → Type 0) (l : Lawful w Good) where
  flush-put : (chunk : Bytes) (s : S) → Good s → flush w chunk s ≡ put w chunk s
  unfolding flush
  flush-put [] s g = sym (l.put_nil s g)
  flush-put (c ∷ chunk) s g = refl

  -- A write that is followed by more, in one piece.
  pub put_then :
      {B : Type 0} (p q : Bytes) (s : S) (f : S → Result B)
      → NonZero p
      → NonZero q
      → Good s
      → (put w p s >>= λ t. put w q t >>= f) ≡ (put w (p ++ q) s >>= f)
  put_then p q s f hp hq g =
      sym (bind_assoc (put w p s) (put w q) f)
      ∙ ap (λ m. m >>= f) (sym (l.put_append p q s hp hq g))

  -- A continuation matters only at the good states that a write can reach.
  pub put_cong :
      {B : Type 0} (p : Bytes) (s : S) (f h : S → Result B)
      → NonZero p
      → Good s
      → ((t : S) → Good t → f t ≡ h t)
      → (put w p s >>= f) ≡ (put w p s >>= h)
  put_cong p s f h hp g same = elim (Result-cases (put w p s)) [
    | inl (t, e) ↦ rw e (same t (l.put_good p s hp g e))
    | inr (x, e) ↦ rw e
  ]

  quote_loop-put :
      (i : ℕ) (chunk rest : Bytes) (s : S)
      → NonZero chunk
      → NonZero rest
      → Good s
      → quote_loop w i chunk rest s
        ≡ (put w (chunk ++ escape rest) s >>= λ t. ok (i + length rest, t))
  unfolding quote_loop escape write_octal_escape
  quote_loop-put i chunk [] s hc hr g = simp (append-nil, add-zero, flush-put chunk s g)
  quote_loop-put i chunk (b ∷ rest) s hc hr g = elim (Bool-cases (is_safe_quote_byte b)) [
    | inl safe ↦
        rw (safe, quote_loop)
          (quote_loop-put (suc i) (chunk ++ b ∷ []) rest s
              (NonZero-append chunk (b ∷ []) hc (hr.0, tt)) hr.1 g
            ∙ ap₂ (λ p n. put w p s >>= λ t. ok (n, t)) (append_assoc chunk (b ∷ []) (escape rest))
                (omega arith))
    | inr unsafe ↦
        let oct = octal_escape b in
        let done : S → Result (ℕ × S) = λ v. ok (i + suc (length rest), v) in
        let hb = octal_escape-NonZero b in
        let he = escape-NonZero rest hr.1 in
        let nz : (b == 0) ≡ false = ground arith in
        rw (unsafe, nz, quote_loop)
          (rw (flush-put chunk s g) (
              put_cong chunk s _ (λ t. put w oct t >>= λ u. put w (escape rest) u >>= done) hc g
                (λ t gt.
                  put_cong oct t _ (λ u. put w (escape rest) u >>= done) hb gt
                    (λ u gu.
                      quote_loop-put (suc i) [] rest u tt hr.1 gu
                      ∙ ap (λ n. put w (escape rest) u >>= λ v. ok (n, v)) (omega arith))))
            ∙ put_then chunk oct s (λ u. put w (escape rest) u >>= done) hc hb g
            ∙ put_then (chunk ++ oct) (escape rest) s done (NonZero-append chunk oct hc hb) he g
            ∙ ap (λ p. put w p s >>= done) (append_assoc chunk oct (escape rest)))
  ]

  -- Through `QuoteWriter`, a text without NUL arrives escaped.
  pub quote_write-put :
      (p : Bytes) (s : S) → NonZero p → Good s → put (quote_write w) p s ≡ put w (escape p) s
  unfolding quote_write
  quote_write-put p s h g =
      ap (λ m. m >>= λ r. ok r.1) (quote_loop-put 0 [] p s tt h g)
      ∙ bind_assoc (put w (escape p) s) _ _
      ∙ bind_ok (put w (escape p) s)

  pub quote_write-Lawful : Lawful (quote_write w) Good
  unfolding escape
  quote_write-Lawful = record {
    put_nil = λ s g. quote_write-put [] s tt g ∙ l.put_nil s g;
    put_append = λ p q s hp hq g.
        quote_write-put (p ++ q) s (NonZero-append p q hp hq) g
        ∙ ap (λ r. put w r s) (escape-append p q)
        ∙ l.put_append (escape p) (escape q) s (escape-NonZero p hp) (escape-NonZero q hq) g
        ∙ put_cong (escape p) s _ (put (quote_write w) q) (escape-NonZero p hp) g
            (λ t gt. sym (quote_write-put q t hq gt))
        ∙ ap (λ m. m >>= put (quote_write w) q) (sym (quote_write-put p s hp g));
    put_good = λ p s hp g e.
        l.put_good (escape p) s (escape-NonZero p hp) g (sym (quote_write-put p s hp g) ∙ e);
  }

  -- `WriteQuoted` writes the escaped text between two quotation marks.
  pub write_quoted-put :
      (p : Bytes) (s : S) → NonZero p → Good s → write_quoted w p s ≡ put w (quoted p) s
  unfolding write_quoted quoted
  write_quoted-put p s h g =
      let mark = b'"' ∷ [] in
      let hm : NonZero mark = omega arith in
      put_cong mark s _ (λ t. put w (escape p) t >>= put w mark) hm g
        (λ t gt. ap (λ m. m >>= put w mark) (quote_write-put p t h gt))
      ∙ put_then mark (escape p) s (put w mark) hm (escape-NonZero p h) g
      ∙ sym (
          l.put_append (mark ++ escape p) mark s
            (NonZero-append mark (escape p) hm (escape-NonZero p h)) hm g)

pub builder-Lawful : Lawful builder_write (λ _. Unit {0})
unfolding builder_write
builder-Lawful = record {
  put_nil = λ s _. ap ok (append-nil s);
  put_append = λ p q s _ _ _. ap ok (sym (append_assoc s p q));
  put_good = λ p s _ _ _. tt;
}

-- A text without NUL has its quoted form.
pub quote-eq-quoted : (p : Bytes) → NonZero p → quote p ≡ ok (quoted p)
unfolding quote quoted builder_write
quote-eq-quoted p h = write_quoted-put builder_write (λ _. Unit {0}) builder-Lawful p [] h tt

safe_not_nul : (c : ℕ) → is_safe_quote_byte c ≡ true → (c == 0) ≡ false
unfolding is_safe_quote_byte
safe_not_nul c h = ground arith

later_nul :
    (c : ℕ) (rest : Bytes)
    → (c == 0) ≡ false
    → valid_string (c ∷ rest) ≡ false
    → valid_string rest ≡ false
unfolding valid_string
later_nul c rest h v = ground arith

flushed :
    (chunk b : Bytes) (c : ℕ) {f : Bytes → Result (ℕ × Bytes)} {e : Error}
    → ((u : Bytes) → f u ≡ err e)
    → (flush builder_write chunk b >>= λ t. write_octal_escape builder_write c t >>= f) ≡ err e
unfolding flush write_octal_escape builder_write
flushed [] b c h = h _
flushed (d ∷ chunk) b c h = h _

-- On a builder, a NUL stops the loop with its error wherever it stands.
quote_loop_nul :
    (i : ℕ) (chunk rest b : Bytes)
    → valid_string rest ≡ false
    → quote_loop builder_write i chunk rest b ≡ err err_nul_command_text
unfolding quote_loop valid_string write_octal_escape builder_write flush
quote_loop_nul i chunk [] b h = cc
quote_loop_nul i chunk (c ∷ rest) b h = elim (Bool-cases (is_safe_quote_byte c)) [
  | inl safe ↦
      rw (safe, quote_loop)
        (quote_loop_nul (suc i) (chunk ++ c ∷ []) rest b (later_nul c rest (safe_not_nul c safe) h))
  | inr unsafe ↦ elim (Bool-cases (c == 0)) [
    | inl nul ↦ rw (unsafe, nul, quote_loop)
    | inr other ↦
        rw (unsafe, other, quote_loop)
          (flushed chunk b c (λ u. quote_loop_nul (suc i) [] rest u (later_nul c rest other h)))
  ]
]

valid-NonZero : (p : Bytes) → valid_string p ≡ true → NonZero p
unfolding valid_string
valid-NonZero [] h = tt
valid-NonZero (c ∷ p) h = (ground arith, valid-NonZero p (ground arith))

-- `Quote` refuses exactly the texts with a NUL; any other becomes its quoted form.
pub quote-cases :
    (p : Bytes)
    → ((valid_string p ≡ false) × (quote p ≡ err err_nul_command_text))
      ⊎ ((valid_string p ≡ true) × (quote p ≡ ok (quoted p)))
unfolding quote quote_write write_quoted
quote-cases p = elim (Bool-cases (valid_string p)) [
  | inl fine ↦ inr (fine, quote-eq-quoted p (valid-NonZero p fine))
  | inr nul ↦ inl (
    nul,
    ap (λ m. (m >>= λ r. ok r.1) >>= put builder_write (b'"' ∷ []))
        (quote_loop_nul 0 [] p (b'"' ∷ []) nul),
  )
]
