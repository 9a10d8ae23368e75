-- ===== src/Wire/Quote.antt =====
-- internal/wire/argv.go: `QuoteWriter`, `WriteQuoted`, `Quote`, over any writer.
pub mod Laws
use gotmux.Prelude.{
  ℕ, suc, ◌+◌, ◌*◌, ◌/◌, ◌%◌, ◌<◌, ◌≡◌, ◌≢◌, refl, sym, ◌∙◌, ap, inl, inr, Bool, true, false, List,
  [], ◌∷◌, ◌++◌, append-nil, append_assoc, Bytes, All, Error, err_nul_command_text, Result, ok, err,
  ◌>>=◌, Result-cases, Bool-cases, length, ◌==◌, ==_iff, if◌then◌else◌, arith,
}
use gotmux.Wire.Argv.{is_safe_quote_byte}
use gotmux.Wire.Writer.{Writer, put, NonZero, Lawful, Builder, builder_write, NonZero-append}

-- `\ooo`: no sum here reaches 256 for a byte.
unfoldable pub octal_escape : ℕ → Bytes
octal_escape b = b'\\' ∷ (b'0' + b / 64) ∷ (b'0' + b / 8 % 8) ∷ (b'0' + b % 8) ∷ []

module _ {S : Type 0} where
  pub write_octal_escape : Writer S → ℕ → S → Result S
  write_octal_escape w b = put w (octal_escape b)

  -- `if start < i`: the bytes since the last escape, if there are any.
  pub flush : Writer S → Bytes → S → Result S
  flush w [] s = ok s
  flush w (c ∷ chunk) s = put w (c ∷ chunk) s

  -- The loop of `QuoteWriter.Write` at index `i`, with `chunk` for `p[start:i]`.
  pub quote_loop : Writer S → ℕ → Bytes → Bytes → S → Result (ℕ × S)
  quote_loop w i chunk [] s = flush w chunk s >>= λ t. ok (i, t)
  quote_loop w i chunk (b ∷ rest) s = elim (is_safe_quote_byte b) [
    | true ↦ quote_loop w (suc i) (chunk ++ b ∷ []) rest s
    | false ↦ elim (b == 0) [
      | true ↦ err err_nul_command_text
      | false ↦
          flush w chunk s >>= λ t. write_octal_escape w b t >>= λ u. quote_loop w (suc i) [] rest u
    ]
  ]

  unfoldable pub quote_write : Writer S → Writer S
  unfolding quote_loop flush write_octal_escape octal_escape
  quote_write w p s = quote_loop w 0 [] p s

  unfoldable pub write_quoted : Writer S → Bytes → S → Result S
  write_quoted w text s =
      put w (b'"' ∷ []) s >>= λ t. put (quote_write w) text t >>= λ u. put w (b'"' ∷ []) u

-- `Quote`, on a fresh builder.
unfoldable pub quote : Bytes → Result Bytes
unfolding quote_write write_quoted builder_write
quote text = write_quoted builder_write text []

-- What `QuoteWriter` makes of a text: each unsafe byte becomes an octal escape.
unfoldable pub escape : Bytes → Bytes
escape [] = []
escape (b ∷ rest) = (if is_safe_quote_byte b then b ∷ [] else octal_escape b) ++ escape rest

pub escape-append : (p q : Bytes) → escape (p ++ q) ≡ escape p ++ escape q
unfolding escape
escape-append [] q = refl
escape-append (b ∷ p) q = rw (escape-append p q) (sym (append_assoc _ (escape p) (escape q)))

octal_escape-NonZero : (b : ℕ) → NonZero (octal_escape b)
unfolding octal_escape
octal_escape-NonZero b = omega arith

pub escape-NonZero : (p : Bytes) → NonZero p → NonZero (escape p)
unfolding escape
escape-NonZero [] h = tt
escape-NonZero (b ∷ p) h = elim (Bool-cases (is_safe_quote_byte b)) [
  | inl safe ↦ rw safe (h.0, escape-NonZero p h.1)
  | inr unsafe ↦
      rw unsafe
        (NonZero-append (octal_escape b) (escape p) (octal_escape-NonZero b) (escape-NonZero p h.1))
]

-- A whole quoted argument.
unfoldable pub quoted : Bytes → Bytes
unfolding escape
quoted p = (b'"' ∷ escape p) ++ b'"' ∷ []
