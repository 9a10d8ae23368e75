-- ===== src/ControlStream/InPlace.antt =====
-- The transform of tmux/control_codec.go overwrites no byte that it has still to read.
use gotmux.Prelude.{
  ℕ, zero, suc, ◌+◌, ◌-◌, ◌≤◌, ◌≡◌, refl, sym, ap, subst, ◌∙◌, ◌⊎◌, inl, inr, Bool, true, false, [],
  ◌∷◌, ◌++◌, append_assoc, Bytes, length, length-append, take, drop, take-length, ltb, ◌==◌,
  Bool-cases, arith,
}
use gotmux.ControlStream.{
  Transform, byte_at, set_byte, emit, set_cr, flush_cr, transform_byte, transform_loop, transform,
  place, reserved, process, filter_dsc,
}
use gotmux.ControlStream.Copied.{
  Copy, copy_emit, copy_cr, copy_flush, copy_byte, copy_loop, copy_all, copied,
}
use gotmux.ControlStream.Normal.{owed, at_work, seen}

-- The slice begins with what has been written.
abbrev in_place : Bytes → Bytes → Bool → Bytes → Transform
in_place w rest cr q = record { buffer = w ++ rest; dst = length w; cr = cr; held = q }

set_byte-append :
    (w : Bytes) (b x : ℕ) (r : Bytes) → set_byte (length w) b (w ++ x ∷ r) ≡ (w ++ b ∷ []) ++ r
unfolding set_byte
set_byte-append [] b x r = refl
set_byte-append (c ∷ w) b x r = ap (λ t. c ∷ t) (set_byte-append w b x r)

byte_at-append : (w : Bytes) (b : ℕ) (r : Bytes) → byte_at (length w) (w ++ b ∷ r) ≡ b
unfolding byte_at
byte_at-append [] b r = refl
byte_at-append (c ∷ w) b r = byte_at-append w b r

-- The same bytes written by both, `k` of them over `rest`.
record Both (n k : ℕ) (rest : Bytes) (cr : Bool) (t : Transform) (u : Copy) : Type 0 where
  w : Bytes
  q : Bytes
  placed : t ≡ in_place w (drop k rest) cr q
  copy : u ≡ at_work w cr q
  size : length (w ++ drop k rest) ≡ n

emit-Both :
    (n b : ℕ) (w rest : Bytes) (cr : Bool) (q : Bytes)
    → length (w ++ rest) ≡ n
    → Both n 1 rest cr (emit b (in_place w rest cr q)) (copy_emit n b (at_work w cr q))
unfolding emit copy_emit
emit-Both n b w [] cr q h =
    let full : ltb (length w) (length (w ++ [])) ≡ false = ground (arith, length-append w []) in
    let full_n : ltb (length w) n ≡ false = ground (arith, length-append w [], h) in
    record {
      w = w;
      q = q ++ b ∷ [];
      placed = rw (emit, full) refl;
      copy = rw (copy_emit, full_n) refl;
      size = h;
    }
emit-Both n b w (x ∷ r) cr q h =
    let room : ltb (length w) (length (w ++ x ∷ r)) ≡ true =
      ground (arith, length-append w (x ∷ r)) in
    let room_n : ltb (length w) n ≡ true = ground (arith, length-append w (x ∷ r), h) in
    let grown : length (w ++ b ∷ []) ≡ length w + 1 = omega (arith, length-append w (b ∷ [])) in
    record {
      w = w ++ b ∷ [];
      q = q;
      placed =
          rw (emit, room, set_byte-append w b x r)
            (ap (λ k. record { buffer = (w ++ b ∷ []) ++ r; dst = k; cr = cr; held = q })
              (sym grown));
      copy = rw (copy_emit, room_n) refl;
      size =
          ap length (append_assoc w (b ∷ []) r)
          ∙ omega (arith, h, length-append w (x ∷ r), length-append w (b ∷ r));
    }

drop-nil : (k : ℕ) → drop {A = ℕ} k [] ≡ []
drop-nil zero = refl
drop-nil (suc k) = refl

drop-one : (rest : Bytes) → drop 1 (drop 1 rest) ≡ drop 2 rest
drop-one [] = refl
drop-one (x ∷ r) = refl

-- One byte: what it writes beyond the carriage return that was owed is one byte at most, with what it
-- comes to owe.
record Step (n b : ℕ) (w rest : Bytes) (cr : Bool) (q : Bytes) : Type 0 where
  k : ℕ
  owes : Bool
  both :
      Both n k rest owes (transform_byte b (in_place w rest cr q)) (copy_byte n b (at_work w cr q))
  paid : k + length (owed owes) ≤ suc (length (owed cr))

-- By what a step does, where that is known.
Both-from :
    {n k : ℕ} {rest : Bytes} {cr : Bool} {t t' : Transform} {u u' : Copy}
    → t ≡ t'
    → u ≡ u'
    → Both n k rest cr t' u'
    → Both n k rest cr t u
Both-from e f b = record {
  w = b.w;
  q = b.q;
  placed = e ∙ b.placed;
  copy = f ∙ b.copy;
  size = b.size;
}

set_cr-Both :
    {n k : ℕ} {rest : Bytes} {cr : Bool} {t : Transform} {u : Copy} (c : Bool)
    → Both n k rest cr t u
    → Both n k rest c (set_cr c t) (copy_cr c u)
unfolding set_cr copy_cr
set_cr-Both c b = record {
  w = b.w;
  q = b.q;
  placed = ap (set_cr c) b.placed;
  copy = ap (copy_cr c) b.copy;
  size = b.size;
}

emit-twice :
    {n : ℕ} {rest : Bytes} {t : Transform} {u : Copy} (b : ℕ)
    → Both n 1 rest false t u
    → Both n 2 rest false (emit b t) (copy_emit n b u)
emit-twice {n} {rest} b f =
    let g = emit-Both n b f.w (drop 1 rest) false f.q f.size in
    record {
      w = g.w;
      q = g.q;
      placed = ap (emit b) f.placed ∙ g.placed ∙ ap (λ r. in_place g.w r false g.q) (drop-one rest);
      copy = ap (copy_emit n b) f.copy ∙ g.copy;
      size = ap (λ r. length (g.w ++ r)) (sym (drop-one rest)) ∙ g.size;
    }

transform_byte-Step :
    (n b : ℕ) (w rest : Bytes) (cr : Bool) (q : Bytes)
    → length (w ++ rest) ≡ n
    → Step n b w rest cr q
unfolding transform_byte copy_byte flush_cr copy_flush set_cr copy_cr
transform_byte-Step n b w rest false q h = elim (Bool-cases (b == 13)) [
  | inl e ↦ record {
    k = 0;
    owes = true;
    both = record {
      w = w;
      q = q;
      placed = rw (transform_byte, e) refl;
      copy = rw (copy_byte, e) refl;
      size = h;
    };
    paid = omega arith;
  }
  | inr e ↦ record {
    k = 1;
    owes = false;
    both =
        Both-from (rw (transform_byte, e) refl) (rw (copy_byte, e) refl)
          (emit-Both n b w rest false q h);
    paid = omega arith;
  }
]
transform_byte-Step n b w rest true q h =
    let first = emit-Both n 13 w rest false q h in
    elim (Bool-cases (b == 13)) [
      | inl e ↦
          let no_line : (b == 10) ≡ false = ground (arith, e) in
          record {
            k = 1;
            owes = true;
            both =
                Both-from (rw (transform_byte, e, flush_cr, no_line) refl)
                  (rw (copy_byte, e, copy_flush, no_line) refl) (set_cr-Both true first);
            paid = omega arith;
          }
      | inr e ↦ elim (Bool-cases (b == 10)) [
        | inl l ↦ record {
          k = 1;
          owes = false;
          both =
              Both-from (rw (transform_byte, e, flush_cr, l) refl)
                (rw (copy_byte, e, copy_flush, l) refl) (emit-Both n b w rest false q h);
          paid = omega arith;
        }
        | inr l ↦ record {
          k = 2;
          owes = false;
          both =
              Both-from (rw (transform_byte, e, flush_cr, l) refl)
                (rw (copy_byte, e, copy_flush, l) refl) (emit-twice b first);
          paid = omega arith;
        }
      ]
    ]

-- The bytes before those to be read, once `k` more are written.
advance :
    (k : ℕ) (gap : Bytes) (b : ℕ) (more : Bytes)
    → k ≤ suc (length gap)
    → (g : Bytes) × (drop k (gap ++ b ∷ more) ≡ g ++ more) × (length g + k ≡ suc (length gap))
advance zero gap b more h =
    (gap ++ b ∷ [], sym (append_assoc gap (b ∷ []) more), omega (arith, length-append gap (b ∷ [])))
advance (suc zero) [] b more h = ([], refl, omega arith)
advance (suc (suc k)) [] b more h = absurd (omega (arith, h))
advance (suc k) (x ∷ gap) b more h =
    let (g, e, l) = advance k gap b more (omega (arith, h)) in (g, e, omega (arith, l))

-- The end of both loops.
record Agree (n : ℕ) (t : Transform) (u : Copy) : Type 0 where
  pub cr : t.cr ≡ u.cr
  pub held : t.held ≡ u.held
  pub written : take t.dst t.buffer ≡ u.written
  pub size : length t.buffer ≡ n

Both-Agree :
    {n k : ℕ} {rest : Bytes} {c : Bool} {t : Transform} {u : Copy}
    → Both n k rest c t u
    → Agree n t u
Both-Agree {k = k} {rest = rest} b = record {
  cr = ap (λ x. x.cr) b.placed ∙ sym (ap (λ x. x.cr) b.copy);
  held = ap (λ x. x.held) b.placed ∙ sym (ap (λ x. x.held) b.copy);
  written =
      ap (λ x. take x.dst x.buffer) b.placed
      ∙ take-length b.w (drop k rest)
      ∙ sym (ap (λ x. x.written) b.copy);
  size = ap (λ x. length x.buffer) b.placed ∙ b.size;
}

Agree-from :
    {n : ℕ} {t t' : Transform} {u u' : Copy} → t ≡ t' → u ≡ u' → Agree n t' u' → Agree n t u
Agree-from {n} {u' = u'} e f a = subst (Agree n _) (sym f) (subst (λ x. Agree n x u') (sym e) a)

last-Agree :
    (n at : ℕ) (src : Bytes) {k : ℕ} {rest : Bytes} {c : Bool} {t : Transform} {u : Copy}
    → length src ≤ 0
    → Both n k rest c t u
    → Agree n (transform_loop (length src) at t) (copy_loop n src u)
unfolding transform_loop copy_loop
last-Agree n at [] h b = Both-Agree b
last-Agree n at (x ∷ src) h b = elim h [ ]

length-take_le : (n : ℕ) (p : Bytes) → n ≤ length p → length (take n p) ≡ n
length-take_le zero p h = refl
length-take_le (suc n) [] h = absurd (omega (arith, h))
length-take_le (suc n) (b ∷ p) h = ap suc (length-take_le n p (omega (arith, h)))

length-drop_le : (n : ℕ) (p : Bytes) → n ≤ length p → n + length (drop n p) ≡ length p
length-drop_le zero p h = omega arith
length-drop_le (suc n) [] h = absurd (omega (arith, h))
length-drop_le (suc n) (b ∷ p) h = omega (arith, length-drop_le n p (omega (arith, h)))

-- The place of the carriage return that is owed, or a slice of one byte.
kept :
    (p got : Bytes) (cr : Bool)
    → reserved p cr + length got ≤ length p
    → length (take (reserved p cr) p) ≡ reserved p cr
    → (length (owed cr) ≤ length (take (reserved p cr) p)) ⊎ (length got ≤ 1)
unfolding reserved
kept p got false h f = inl (omega arith)
kept p got true h f = elim (Bool-cases (ltb 1 (length p))) [
  | inl e ↦ inl (ground (arith, rw e at f, e, f))
  | inr e ↦ inr (ground (arith, h, e))
]

-- Between two bytes: those behind `gap` have still to be read. What is owed has its place before them,
-- or one byte at most is left.
loop-Agree :
    (n at : ℕ) (src tail w gap : Bytes) (cr : Bool) (q : Bytes)
    → length (w ++ (gap ++ (src ++ tail))) ≡ n
    → at ≡ length w + length gap
    → ((length (owed cr) ≤ length gap) ⊎ (length src ≤ 1))
    → Agree n
        (transform_loop (length src) at (in_place w (gap ++ (src ++ tail)) cr q))
        (copy_loop n src (at_work w cr q))
unfolding transform_loop copy_loop
loop-Agree n at [] tail w gap cr q h i room =
    Both-Agree {k = 0} {rest = gap ++ tail}
      (record { w = w; q = q; placed = refl; copy = refl; size = h })
loop-Agree n at (b ∷ src) tail w gap cr q h i room =
    let more = src ++ tail in
    let whole = in_place w (gap ++ b ∷ more) cr q in
    let found : byte_at at whole.buffer ≡ b =
      ap (λ k. byte_at k (w ++ (gap ++ b ∷ more))) (i ∙ sym (length-append w gap))
      ∙ ap (byte_at (length (w ++ gap))) (sym (append_assoc w gap (b ∷ more)))
      ∙ byte_at-append (w ++ gap) b more in
    let s = transform_byte-Step n b w (gap ++ b ∷ more) cr q h in
    let start = ap (λ c. transform_loop (length src) (suc at) (transform_byte c whole)) found in
    let done = s.both in
    let to_done = start ∙ ap (transform_loop (length src) (suc at)) done.placed in
    elim room [
      | inr last ↦ Agree-from start refl (last-Agree n (suc at) src (omega (arith, last)) done)
      | inl free ↦
          let (g, e, l) = advance s.k gap b more (omega (arith, free, s.paid)) in
          let size = ap (λ r. length (done.w ++ r)) (sym e) ∙ done.size in
          let next : suc at ≡ length done.w + length g = omega (
            arith,
            i,
            h,
            size,
            length-append done.w (g ++ more),
            length-append g more,
            length-append w (gap ++ b ∷ more),
            length-append gap (b ∷ more),
          ) in
          Agree-from
            (to_done
              ∙ ap (λ r. transform_loop (length src) (suc at) (in_place done.w r s.owes done.q)) e)
            (ap (copy_loop n src) done.copy)
            (loop-Agree n (suc at) src tail done.w g s.owes done.q size next
              (inl (omega (arith, free, s.paid, l))))
    ]

source_place :
    (at : ℕ) (got p : Bytes)
    → at + length got ≤ length p
    → (length (place at got p) ≡ length p) × (length (take at p) ≡ at)
unfolding place
source_place at got p h =
    let front : length (take at p) ≡ at = length-take_le at p (omega (arith, h)) in
    (
      omega (
        arith,
        front,
        length-append (take at p) (got ++ drop (at + length got) p),
        length-append got (drop (at + length got) p),
        length-drop_le (at + length got) p h,
        h,
      ),
      front,
    )

-- A round that has read `got` into the caller's slice writes what it would write into another.
pub process-copied :
    (p got : Bytes) (cr : Bool)
    → reserved p cr + length got ≤ length p
    → let r = process p (reserved p cr) got (seen cr []) in
      let c = copied (length p) got (seen cr []) in
      (r.written ≡ c.0) × (r.reader ≡ c.1) × (length r.buffer ≡ length p)
unfolding process transform copied copy_all filter_dsc place
process-copied p got cr h =
    let at = reserved p cr in
    let (size, front) = source_place at got p h in
    let tail = drop (at + length got) p in
    let start : at + (length got - length got) ≡ length {A = ℕ} [] + length (take at p) =
      omega (arith, front) in
    let a =
      loop-Agree (length p) (at + (length got - length got)) got tail [] (take at p) cr [] size
        start (kept p got cr h front) in
    (a.written, (λ i. record { has_cr = a.cr i; seen_dsc = true; pending = a.held i }), a.size)
