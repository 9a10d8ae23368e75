-- ===== src/Wire/Octal/Correct.antt =====
-- `DecodeOctal` decides a relation: each byte is written as it is, unless it is a backslash, or as a
-- backslash and three octal digits.
use gotmux.Prelude.{
  ℕ, zero, suc, ◌+◌, ◌*◌, ◌≤◌, ◌<◌, ◌≡◌, ◌≢◌, ◌↔◌, refl, sym, ap, ◌∙◌, subst, inl, inr, true, false,
  ◌||◌, [], ◌∷◌, ◌++◌, append-nil, append_assoc, Bytes, Error, Result, ok, err, ◌>>=◌, length,
  length-append, ◌==◌, leb, ltb, Bool-cases, Result-cases, arith,
}
use gotmux.Wire.Octal.{
  max_limit, is_octal_digit, octal_number, taking_three, decode_octal_escape, octal_byte,
  decode_loop, decode_octal,
}

pub data Escapes : Bytes → Bytes → Type 0 where
  done : Escapes [] []
  plain : {b : ℕ} {e d : Bytes} → b ≢ b'\\' → Escapes e d → Escapes (b ∷ e) (b ∷ d)
  escaped :
      {b x y z v : ℕ} {e d : Bytes}
      → b ≡ b'\\'
      → is_octal_digit x ≡ true
      → is_octal_digit y ≡ true
      → is_octal_digit z ≡ true
      → v ≡ octal_number x y z
      → v ≤ 255
      → Escapes e d
      → Escapes (b ∷ x ∷ y ∷ z ∷ e) (v ∷ d)

-- An escape is four bytes long.
Escapes-length : {e d : Bytes} → Escapes e d → length e ≤ 4 * length d
Escapes-length done = omega arith
Escapes-length (plain h t) = omega (arith, Escapes-length t)
Escapes-length (escaped b x y z v s t) = omega (arith, Escapes-length t)

plain_byte : (b : ℕ) (rest : Bytes) → b ≢ b'\\' → octal_byte b rest ≡ ok (b, 0)
unfolding octal_byte
plain_byte b rest h = ground arith

escaped_byte :
    (b x y z v : ℕ) (rest : Bytes)
    → b ≡ b'\\'
    → is_octal_digit x ≡ true
    → is_octal_digit y ≡ true
    → is_octal_digit z ≡ true
    → v ≡ octal_number x y z
    → v ≤ 255
    → octal_byte b (x ∷ y ∷ z ∷ rest) ≡ ok (v, 3)
unfolding octal_byte decode_octal_escape
escaped_byte b x y z v rest hb hx hy hz hv small = ground arith

-- What `octal_byte` accepts.
data Byte (b v : ℕ) (rest : Bytes) : ℕ → Type 0 where
  as_is : {k : ℕ} → k ≡ 0 → b ≢ b'\\' → v ≡ b → Byte b v rest k
  as_escape :
      {k x y z : ℕ} {e : Bytes}
      → k ≡ 3
      → b ≡ b'\\'
      → rest ≡ x ∷ y ∷ z ∷ e
      → is_octal_digit x ≡ true
      → is_octal_digit y ≡ true
      → is_octal_digit z ≡ true
      → v ≡ octal_number x y z
      → v ≤ 255
      → Byte b v rest k

escape-cases :
    (b v k : ℕ) (rest : Bytes)
    → b ≡ b'\\'
    → (decode_octal_escape rest >>= taking_three) ≡ ok (v, k)
    → Byte b v rest k
unfolding decode_octal_escape
escape-cases b v k (x ∷ y ∷ z ∷ e) hb h =
    as_escape {x = x} {y = y} {z = z} {e = e} (ground arith) hb refl (ground arith) (ground arith)
      (ground arith) (ground arith) (ground arith)
escape-cases b v k [] hb h = absurd (cc (h))
escape-cases b v k (x ∷ []) hb h = absurd (cc (h))
escape-cases b v k (x ∷ y ∷ []) hb h = absurd (cc (h))

octal_byte-cases : (b v k : ℕ) (rest : Bytes) → octal_byte b rest ≡ ok (v, k) → Byte b v rest k
unfolding octal_byte
octal_byte-cases b v k rest h = elim (Bool-cases (b == b'\\')) [
  | inl slash ↦ escape-cases b v k rest (ground arith) (rw (slash, octal_byte) at h)
  | inr other ↦ as_is (ground arith) (ground arith) (ground arith)
]

err≢ok : {A : Type 0} {x : Error} {a : A} → ◌≡◌ {A = Result A} (err x) (ok a) → ⊥
err≢ok h = cc

module _ (m : ℕ) where
  room : (out : Bytes) → length out < m → leb m (length out) ≡ false
  room out h = ground arith

  decode_loop-Escapes :
      (out : Bytes) {e d : Bytes}
      → Escapes e d
      → length out + length d ≤ m
      → decode_loop m out 0 e ≡ ok (out ++ d)
  unfolding decode_loop
  decode_loop-Escapes out done h = rw append-nil
  decode_loop-Escapes out (plain {b} {e} {d} p t) h =
      rw (plain_byte b e p, decode_loop)
        (rw (room out (omega arith)) (
          decode_loop-Escapes (out ++ b ∷ []) t (omega (arith, length-append out (b ∷ [])))
          ∙ rw append_assoc))
  decode_loop-Escapes out (escaped {b} {x} {y} {z} {v} {e} {d} p hx hy hz hv small t) h =
      rw (escaped_byte b x y z v e p hx hy hz hv small, decode_loop)
        (rw (room out (omega arith)) (
          decode_loop-Escapes (out ++ v ∷ []) t (omega (arith, length-append out (v ∷ [])))
          ∙ rw append_assoc))

  jump :
      (out rest e all : Bytes) (k x y z : ℕ)
      → k ≡ 3
      → rest ≡ x ∷ y ∷ z ∷ e
      → decode_loop m out k rest ≡ ok all
      → decode_loop m out 0 e ≡ ok all
  unfolding decode_loop
  jump out rest e all k x y z k3 shape h = (λ i. decode_loop m out (sym k3 i) (sym shape i)) ∙ h

  record Decodes (out e all : Bytes) : Type 0 where
    d : Bytes
    escapes : Escapes e d
    whole : all ≡ out ++ d
    within : length out + length d ≤ m

  -- One round that is not the last.
  decode_loop-inv :
      (out : Bytes) (b v k : ℕ) (rest : Bytes) {all : Bytes}
      → octal_byte b rest ≡ ok (v, k)
      → decode_loop m out 0 (b ∷ rest) ≡ ok all
      → (length out < m) × (decode_loop m (out ++ v ∷ []) k rest ≡ ok all)
  unfolding decode_loop
  decode_loop-inv out b v k rest e h = elim (Bool-cases (leb m (length out))) [
    | inl full ↦ absurd (err≢ok (rw full at (rw (e, decode_loop) at h)))
    | inr free ↦ (ground arith, rw free at (rw (e, decode_loop) at h))
  ]

  decode_loop_sound :
      (f : ℕ) (out e : Bytes) {all : Bytes}
      → length e ≤ f
      → length out ≤ m
      → decode_loop m out 0 e ≡ ok all
      → Decodes out e all
  unfolding decode_loop
  decode_loop_sound f out [] h fit r = record {
    d = [];
    escapes = done;
    whole = ground (arith, append-nil out);
    within = omega arith;
  }
  decode_loop_sound zero out (b ∷ rest) h fit r = elim h [ ]
  decode_loop_sound (suc f) out (b ∷ rest) {all} h fit r = elim (Result-cases (octal_byte b rest)) [
    | inr (x, q) ↦ absurd (err≢ok (rw (q, decode_loop) at r))
    | inl ((v, k), q) ↦
        let (free, later) = decode_loop-inv out b v k rest q r in
        let size = length-append out (v ∷ []) in
        let fit' : length (out ++ v ∷ []) ≤ m = omega (arith, size) in
        elim (octal_byte-cases b v k rest q) [
          | as_is k0 nb vb ↦
              let t =
                decode_loop_sound f (out ++ v ∷ []) rest (omega arith) fit'
                  (subst (λ j. decode_loop m (out ++ v ∷ []) j rest ≡ ok all) k0 later) in
              record {
                d = b ∷ t.d;
                escapes = plain nb t.escapes;
                whole = t.whole ∙ append_assoc out (v ∷ []) t.d ∙ ap (λ c. out ++ (c ∷ t.d)) vb;
                within = omega (arith, t.within, size);
              }
          | as_escape {x = x} {y = y} {z = z} {e = e} k3 bb shape hx hy hz hv small ↦
              let t =
                decode_loop_sound f (out ++ v ∷ []) e (omega (arith, ap length shape)) fit'
                  (jump (out ++ v ∷ []) rest e all k x y z k3 shape later) in
              record {
                d = v ∷ t.d;
                escapes =
                    subst (λ q. Escapes (b ∷ q) (v ∷ t.d)) (sym shape)
                      (escaped bb hx hy hz hv small t.escapes);
                whole = t.whole ∙ append_assoc out (v ∷ []) t.d;
                within = omega (arith, t.within, size);
              }
        ]
  ]

-- `DecodeOctal` returns `out` exactly if the text is `out` with some bytes escaped, backslashes among
-- them, `out` is within the limit, and the limit is one that the source allows. So its check on the
-- length of the text refuses nothing by itself.
pub decode_octal_iff :
    (text out : Bytes) (m : ℕ)
    → (decode_octal text m ≡ ok out) ↔ (Escapes text out × (length out ≤ m) × (m ≤ max_limit))
unfolding decode_octal
decode_octal_iff text out m = (forward, backward)
  where
    forward : decode_octal text m ≡ ok out → Escapes text out × (length out ≤ m) × (m ≤ max_limit)
    forward h = elim (Bool-cases (ltb max_limit m || ltb (m * 4) (length text))) [
      | inl refused ↦ absurd (err≢ok (rw refused at h))
      | inr allowed ↦
          let r =
            decode_loop_sound m (length text) [] text (omega arith) (omega arith)
              (rw allowed at h) in
          (
            subst (Escapes text) (sym r.whole) r.escapes,
            omega (arith, r.within, ap length r.whole),
            ground arith,
          )
    ]

    backward : Escapes text out × (length out ≤ m) × (m ≤ max_limit) → decode_octal text m ≡ ok out
    backward (t, fits, allowed) =
        let open_gate : (ltb max_limit m || ltb (m * 4) (length text)) ≡ false =
          ground (arith, Escapes-length t) in
        rw open_gate (decode_loop-Escapes m [] t (omega arith))
