-- ===== src/Wire/Writer.antt =====
-- Go's `io.Writer` as an interface: the state of the destination is passed on by each write. A
-- failed write ends every caller of this program, so the state after one is not kept.
use gotmux.Prelude.{ℕ, ◌≡◌, ◌≢◌, [], ◌∷◌, ◌++◌, Bytes, All, Result, ok, ◌>>=◌, length}

-- The count of bytes taken, and the new state.
abbrev pub Writer : Type 0 → Type 0
Writer S = Bytes → S → Result (ℕ × S)

-- A write whose count is not read, as in `_, err := io.WriteString(w, s)`.
abbrev pub put : {S : Type 0} → Writer S → Bytes → S → Result S
put w p s = w p s >>= λ r. ok r.1

abbrev pub NonZero : Bytes → Type 0
NonZero = All (λ c. c ≢ 0)

-- What command text relies on: from a good state, a text may be written in one piece or in several.
pub record Lawful {S : Type 0} (w : Writer S) (Good : S → Type 0) : Type 0 where
  pub put_nil : (s : S) → Good s → put w [] s ≡ ok s
  pub put_append :
      (p q : Bytes) (s : S)
      → NonZero p
      → NonZero q
      → Good s
      → put w (p ++ q) s ≡ (put w p s >>= put w q)
  pub put_good : (p : Bytes) (s : S) {t : S} → NonZero p → Good s → put w p s ≡ ok t → Good t

-- `strings.Builder`: its writes append, and never fail.
abbrev pub Builder : Type 0
Builder = Bytes

unfoldable pub builder_write : Writer Builder
builder_write p b = ok (length p, b ++ p)

pub NonZero-append : (p q : Bytes) → NonZero p → NonZero q → NonZero (p ++ q)
NonZero-append [] q hp hq = hq
NonZero-append (c ∷ p) q hp hq = (hp.0, NonZero-append p q hp.1 hq)

pub NonZero-append_left : (p q : Bytes) → NonZero (p ++ q) → NonZero p
NonZero-append_left [] q h = tt
NonZero-append_left (c ∷ p) q h = (h.0, NonZero-append_left p q h.1)

pub NonZero-append_right : (p q : Bytes) → NonZero (p ++ q) → NonZero q
NonZero-append_right [] q h = h
NonZero-append_right (c ∷ p) q h = NonZero-append_right p q h.1
