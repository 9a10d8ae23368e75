-- ===== src/Wire/Stream.antt =====
-- The `Reader` of internal/wire/records.go over a byte source that ends: `bytes.Reader`, or a
-- connection that is closed at last. A stream passes bytes on unchanged and records them as
-- `recordReader` does; `ReadRecord` and `ReadRecordFields` do not look at what was recorded.
use gotmux.Prelude.{
  ℕ, ◌≡◌, refl, sym, ap, ◌∙◌, [], ◌∷◌, ◌++◌, append_assoc, Bytes, Error, err_record, eof,
  unexpected_eof, Result, ok, err, length, length-take, ◌==◌, take, drop, leb, if◌then◌else◌,
  take-append-drop, take-length, drop-length, length-append, arith,
}

pub record Stream : Type 0 where
  pub source : Bytes
  pub recorded : Bytes

-- A reading step: its result, and the stream behind it, also after an error.
abbrev pub Read : Type 0 → Type 0
Read A = Stream → Result A × Stream

infixl 5 ◌>>=◌
abbrev pub ◌>>=◌ : {A B : Type 0} → Read A → (A → Read B) → Read B
◌>>=◌ m f s = elim ((m s).0) [ ok a ↦ f a (m s).1 | err e ↦ (err e, (m s).1) ]

abbrev pub fails : {A : Type 0} → Error → Read A
fails e s = (err e, s)

-- `recordReader.ReadByte`
unfoldable pub read_byte : Read ℕ
read_byte s = elim s.source [
  | [] ↦ (err eof, s)
  | c ∷ rest ↦ (ok c, record { source = rest; recorded = s.recorded ++ c ∷ [] })
]

abbrev short_read : Bytes → Error
short_read [] = eof
short_read (c ∷ rest) = unexpected_eof

-- `io.ReadFull` into a buffer of `n` bytes, through `recordReader.Read`.
unfoldable pub read_full : ℕ → Read Bytes
read_full n s =
    if leb n (length s.source)
    then (
      ok (take n s.source),
      record { source = drop n s.source; recorded = s.recorded ++ take n s.source },
    )
    else (err (short_read s.source), record { source = []; recorded = s.recorded ++ s.source })

-- A byte that must be there.
abbrev pub expect : ℕ → Read (Unit {0})
expect want = read_byte >>= λ ch. if ch == want then (λ s. (ok tt, s)) else fails err_record

-- Bytes move from the source to the record, and none is lost or made up.
abbrev pub Moves : Stream → Stream → Bytes → Type 0
Moves s t p = (s.source ≡ p ++ t.source) × (t.recorded ≡ s.recorded ++ p)

pub Moves-trans : (s t u : Stream) (p q : Bytes) → Moves s t p → Moves t u q → Moves s u (p ++ q)
Moves-trans s t u p q m n = (
  m.0 ∙ ap (◌++◌ p) n.0 ∙ sym (append_assoc p q u.source),
  n.1 ∙ ap (λ d. d ++ q) m.1 ∙ append_assoc s.recorded p q,
)

-- Reading as many bytes as the text has gives the text.
pub read_full-append :
    (p rest d : Bytes)
    → read_full (length p) (record { source = p ++ rest; recorded = d })
      ≡ (ok p, record { source = rest; recorded = d ++ p })
unfolding read_full
read_full-append p rest d =
    rw (length-append p rest, take-length p rest, drop-length p rest) (ground arith)

module _ {A B : Type 0} where
  -- A step that has succeeded, and what follows.
  pub bind_ok :
      (m : Read A) (f : A → Read B) (s : Stream) {a : A} {t : Stream}
      → m s ≡ (ok a, t)
      → (m >>= f) s ≡ f a t
  bind_ok m f s e = rw (ap (λ p. p.0) e, ap (λ p. p.1) e, ◌>>=◌)

  of_pair :
      (p : Result A × Stream) (f : A → Read B) {b : B} {u : Stream}
      → ◌≡◌ {A = Result B × Stream} (elim p.0 [ ok a ↦ f a p.1 | err e ↦ (err e, p.1) ]) (ok b, u)
      → (a : A) × (t : Stream) × (p ≡ (ok a, t)) × (f a t ≡ (ok b, u))
  of_pair (ok a, t) f h = (a, t, refl, h)
  of_pair (err e, t) f h = cc

  pub bind-eq-ok :
      (m : Read A) (f : A → Read B) (s : Stream) {b : B} {u : Stream}
      → (m >>= f) s ≡ (ok b, u)
      → (a : A) × (t : Stream) × (m s ≡ (ok a, t)) × (f a t ≡ (ok b, u))
  bind-eq-ok m f s e = of_pair (m s) f e

pub read_full_sound :
    (n : ℕ) (s : Stream) {p : Bytes} {t : Stream}
    → read_full n s ≡ (ok p, t)
    → (s.source ≡ p ++ t.source) × (t.recorded ≡ s.recorded ++ p) × (length p ≡ n)
unfolding read_full
read_full_sound n s e = ground (arith, take-append-drop n s.source, length-take n s.source)

pub expect_sound :
    (c : ℕ) (s : Stream) {t : Stream}
    → expect c s ≡ (ok tt, t)
    → (s.source ≡ c ∷ t.source) × (t.recorded ≡ s.recorded ++ c ∷ [])
unfolding read_byte
expect_sound c s e = ground arith

pub expect_cons :
    (c : ℕ) (rest r : Bytes)
    → expect c (record { source = c ∷ rest; recorded = r })
      ≡ (ok tt, record { source = rest; recorded = r ++ c ∷ [] })
unfolding read_byte
expect_cons c rest r = ground arith
