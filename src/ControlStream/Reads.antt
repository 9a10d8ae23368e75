-- ===== src/ControlStream/Reads.antt =====
-- `Read` of the reader of tmux/control_codec.go: what its calls return together is the normal
-- form of what the client writes, however the pieces and the callers' slices are cut.
use gotmux.Prelude.{
  ℕ, zero, suc, ◌+◌, ◌-◌, ◌≤◌, ◌<◌, ◌≡◌, refl, sym, ap, ap₂, subst, ◌∙◌, Bool, true, false, Option,
  some, [], ◌∷◌, ◌++◌, append_assoc, Bytes, length, take, drop, take-append-drop, length-append,
  ◌⊎◌, inl, inr, ltb, Bool-cases, arith,
}
use gotmux.ControlStream.{
  ControlStreamReader, Source, transform, filter_dsc, put_back, source_read, Round, reserved,
  Reading, read_end, process, reading, read_loop, flat, read, after_round,
}
use gotmux.ControlStream.Copied.{copy_loop, copy_all, copied}
use gotmux.ControlStream.InPlace.{process-copied}
use gotmux.ControlStream.Normal.{seen, normal, owed, produced, at_work, copy_loop-normal}

flat-put_back : (p : Bytes) (s : Source) → flat (put_back p s) ≡ p ++ flat s
unfolding flat put_back
flat-put_back [] s = refl
flat-put_back (b ∷ p) s = refl

-- The reader below loses nothing.
source_read-flat : (n : ℕ) (s : Source) → (source_read n s).0 ++ flat (source_read n s).1 ≡ flat s
unfolding source_read flat
source_read-flat zero s = refl
source_read-flat (suc n) [] = refl
source_read-flat (suc n) (p ∷ s) =
    ap (λ t. p.0 ∷ t)
      (ap (λ t. take n p.1 ++ t) (flat-put_back (drop n p.1) s)
        ∙ sym (append_assoc (take n p.1) (drop n p.1) (flat s))
        ∙ ap (λ t. t ++ flat s) (take-append-drop n p.1))

source_read_le : (n : ℕ) (s : Source) → length (source_read n s).0 ≤ n
unfolding source_read
source_read_le zero s = omega arith
source_read_le (suc n) [] = omega arith
source_read_le (suc n) (p ∷ s) = omega (arith, length_take n p.1)
  where
    length_take : (m : ℕ) (t : Bytes) → length (take m t) ≤ m
    length_take zero t = omega arith
    length_take (suc m) [] = omega arith
    length_take (suc m) (b ∷ t) = omega (arith, length_take m t)

-- The slice that the reader below is given is not empty, and it lies in the caller's.
room : (p : Bytes) (cr : Bool) → 0 < length p → (m : ℕ) × (length p - reserved p cr ≡ suc m)
unfolding reserved
room p false h = (length p - 1, omega (arith, h))
room p true h = elim (Bool-cases (ltb 1 (length p))) [
  | inl e ↦ (length p - 2, rw e (ground (arith, e)))
  | inr e ↦ (length p - 1, rw e (omega (arith, h)))
]

fits :
    (p : Bytes) (cr : Bool) (s : Source)
    → 0 < length p
    → reserved p cr + length (source_read (length p - reserved p cr) s).0 ≤ length p
fits p cr s h =
    let r = room p cr h in omega (arith, source_read_le (length p - reserved p cr) s, r.1)

-- What the reader has still to return.
unfoldable pub view : ControlStreamReader → Source → Bytes
view c s = c.pending ++ normal (owed c.has_cr ++ flat s)

copied-view :
    (size : ℕ) (got : Bytes) (cr : Bool) (s : Source)
    → normal (owed cr ++ (got ++ flat s))
      ≡ (copied size got (seen cr [])).0 ++ view (copied size got (seen cr [])).1 s
unfolding copied copy_all filter_dsc view produced
copied-view size got cr s =
    let t = at_work [] cr [] in
    let u = copy_loop size got t in
    copy_loop-normal size got (flat s) t (λ _. refl)
    ∙ append_assoc u.written u.held (normal (owed u.cr ++ flat s))

-- A call of `Read` that returns: nothing is lost, what it returns fits into the slice, and it is
-- empty only at the end.
abbrev pub Returns : ℕ → ControlStreamReader → Source → Reading → Type 0
Returns size c s r =
    (view c s ≡ r.output ++ view r.reader r.source)
    × (r.ended ≡ true → view r.reader r.source ≡ [])
    × (r.ended ≡ false → 0 < length r.output)
    × (r.reader.seen_dsc ≡ true)
    × (length r.output ≤ size)

-- What a round reads, and what it makes of it.
abbrev got_by : Bytes → Bool → Source → Bytes × Source
got_by p cr s = source_read (length p - reserved p cr) s

abbrev round : Bytes → Bool → Source → Round
round p cr s = process p (reserved p cr) (got_by p cr s).0 (seen cr [])

round-view :
    (p : Bytes) (cr : Bool) (s : Source)
    → 0 < length p
    → view (seen cr []) s ≡ (round p cr s).written ++ view (round p cr s).reader (got_by p cr s).1
unfolding view
round-view p cr s h =
    let got = got_by p cr s in
    let (w, r, size) = process-copied p got.0 cr (fits p cr s h) in
    ap (λ t. normal (owed cr ++ t)) (sym (source_read-flat (length p - reserved p cr) s))
    ∙ copied-view (length p) got.0 cr got.1
    ∙ ap₂ (λ x c. x ++ view c got.1) (sym w) (sym r)

length-take_le : (n : ℕ) (t : Bytes) → (length (take n t) ≤ n) × (length (take n t) ≤ length t)
length-take_le zero t = (omega arith, omega arith)
length-take_le (suc n) [] = (omega arith, omega arith)
length-take_le (suc n) (b ∷ t) = let k = length-take_le n t in (omega (arith, k), omega (arith, k))

round-size :
    (p : Bytes) (cr : Bool) (s : Source)
    → 0 < length p
    → (length (round p cr s).buffer ≡ length p) × (length (round p cr s).written ≤ length p)
unfolding process transform
round-size p cr s h =
    let (w, r, size) = process-copied p (got_by p cr s).0 cr (fits p cr s h) in
    (size, omega (arith, size, (length-take_le _ (round p cr s).buffer).1))

source_read-cons :
    (n : ℕ) (p : ℕ × Bytes) (s : Source)
    → (b : ℕ) × (rest : Bytes) × ((source_read (suc n) (p ∷ s)).0 ≡ b ∷ rest)
unfolding source_read
source_read-cons n p s = (p.0, take n p.1, refl)

pending-Returns :
    (n : ℕ) (cr : Bool) (b : ℕ) (q : Bytes) (s : Source)
    → 0 < n
    → Returns n (seen cr (b ∷ q)) s (reading (take n (b ∷ q)) (seen cr (drop n (b ∷ q))) s)
unfolding view
pending-Returns zero cr b q s h = elim h [ ]
pending-Returns (suc n) cr b q s h = (
  ap (λ t. b ∷ (t ++ normal (owed cr ++ flat s))) (sym (take-append-drop n q))
      ∙ ap (λ t. b ∷ t) (append_assoc (take n q) (drop n q) (normal (owed cr ++ flat s))),
  λ e. ground (arith, e),
  λ _. omega arith,
  refl,
  omega (arith, (length-take_le n q).0),
)

end-Returns : (n : ℕ) (cr : Bool) → 0 < n → Returns n (seen cr []) [] (read_end (seen cr []))
unfolding view read_end normal flat
end-Returns n false h = (refl, λ _. refl, λ e. ground (arith, e), refl, omega arith)
end-Returns n true h = (refl, λ _. refl, λ e. ground (arith, e), refl, omega (arith, h))

abbrev pub Answers : ℕ → Bytes → ControlStreamReader → Source → Type 0
Answers fuel p c s = (r : Reading) × (read_loop fuel p c s ≡ some r) × Returns (length p) c s r

round-eta :
    (p : Bytes) (cr : Bool) (s : Source)
    → let c = (round p cr s).reader in c ≡ seen c.has_cr c.pending
unfolding process transform filter_dsc
round-eta p cr s = refl

source_read-end : (p : Bytes) (cr : Bool) → 0 < length p → (got_by p cr []).0 ≡ []
unfolding source_read
source_read-end p cr h = rw (room p cr h).1 refl

source_read-piece :
    (p : Bytes) (cr : Bool) (d : ℕ × Bytes) (s : Source)
    → 0 < length p
    → (b : ℕ) × (rest : Bytes) × ((got_by p cr (d ∷ s)).0 ≡ b ∷ rest)
source_read-piece p cr d s h =
    let k = room p cr h in
    let g = source_read-cons k.0 d s in (g.0, g.1, ap (λ m. (source_read m (d ∷ s)).0) k.1 ∙ g.2)

shorter :
    (m : ℕ) (s : Source) {b : ℕ} {rest : Bytes}
    → (source_read m s).0 ≡ b ∷ rest
    → length (flat (source_read m s).1) < length (flat s)
shorter m s {b} {rest} e =
    let l = ap length (source_read-flat m s) in
    let a = length-append (source_read m s).0 (flat (source_read m s).1) in
    let k = ap length e in omega arith

Bytes-cases : (s : Bytes) → (s ≡ []) ⊎ ((b : ℕ) × (rest : Bytes) × (s ≡ b ∷ rest))
Bytes-cases [] = inl refl
Bytes-cases (b ∷ s) = inr (b, s, refl)

after_round_path :
    {got out want : Bytes} {b : ℕ} {rest : Bytes} (end again : Option Reading)
    (returned : Bytes → Option Reading)
    → got ≡ b ∷ rest
    → out ≡ want
    → after_round got out end again returned ≡ after_round (b ∷ rest) want end again returned
after_round_path end again returned g e i = after_round (g i) (e i) end again returned

-- A round that has written nothing is followed by another.
read_loop-again :
    (fuel : ℕ) (p : Bytes) (cr : Bool) (d : ℕ × Bytes) (s : Source)
    → 0 < length p
    → (round p cr (d ∷ s)).written ≡ []
    → read_loop (suc fuel) p (seen cr []) (d ∷ s)
      ≡ read_loop fuel
          (round p cr (d ∷ s)).buffer
          (round p cr (d ∷ s)).reader
          (got_by p cr (d ∷ s)).1
unfolding read_loop
read_loop-again fuel p cr d s h e =
    let got = got_by p cr (d ∷ s) in
    let next = round p cr (d ∷ s) in
    after_round_path (some (read_end (seen cr []))) (read_loop fuel next.buffer next.reader got.1)
      (λ o. some (reading o next.reader got.1)) (source_read-piece p cr d s h).2 e

again-Answers :
    (fuel : ℕ) (p : Bytes) (cr : Bool) (d : ℕ × Bytes) (s : Source)
    → 0 < length p
    → (round p cr (d ∷ s)).written ≡ []
    → Answers fuel (round p cr (d ∷ s)).buffer (round p cr (d ∷ s)).reader (got_by p cr (d ∷ s)).1
    → Answers (suc fuel) p (seen cr []) (d ∷ s)
again-Answers fuel p cr d s h e (r, q, k) =
    let got = got_by p cr (d ∷ s) in
    let next = round p cr (d ∷ s) in
    (
      r,
      read_loop-again fuel p cr d s h e ∙ q,
      (
        round-view p cr (d ∷ s) h ∙ ap (λ t. t ++ view next.reader got.1) e ∙ k.0,
        k.1,
        k.2,
        k.3,
        omega (arith, k.4, (round-size p cr (d ∷ s) h).0),
      ),
    )

read_loop-Answers :
    (fuel : ℕ) (p : Bytes) (cr : Bool) (q : Bytes) (s : Source)
    → 0 < length p
    → length (flat s) < fuel
    → Answers fuel p (seen cr q) s
unfolding read_loop
read_loop-Answers zero p cr q s h l = absurd (omega (arith, l))
read_loop-Answers (suc fuel) p cr (b ∷ q) s h l = (
  reading (take (length p) (b ∷ q)) (seen cr (drop (length p) (b ∷ q))) s,
  refl,
  pending-Returns (length p) cr b q s h,
)
read_loop-Answers (suc fuel) p cr [] [] h l = (
  read_end (seen cr []),
  rw (read_loop, source_read-end p cr h) refl,
  end-Returns (length p) cr h,
)
read_loop-Answers (suc fuel) p cr [] (d ∷ s) h l =
    let got = got_by p cr (d ∷ s) in
    let next = round p cr (d ∷ s) in
    let g = source_read-piece p cr d s h in
    let size = round-size p cr (d ∷ s) h in
    elim (Bytes-cases next.written) [
      | inl e ↦
          let again =
            read_loop-Answers fuel next.buffer next.reader.has_cr next.reader.pending got.1
              (omega (arith, h, size.0))
              (omega (arith, l, shorter (length p - reserved p cr) (d ∷ s) g.2)) in
          let r =
            subst (λ c. Answers fuel next.buffer c got.1) (sym (round-eta p cr (d ∷ s))) again in
          again-Answers fuel p cr d s h e r
      | inr (b, out, e) ↦ (
        reading (b ∷ out) next.reader got.1,
        after_round_path (some (read_end (seen cr [])))
            (read_loop fuel next.buffer next.reader got.1) (λ o. some (reading o next.reader got.1))
            g.2 e,
        (
          round-view p cr (d ∷ s) h ∙ ap (λ t. t ++ view next.reader got.1) e,
          λ k. ground (arith, k),
          λ _. omega arith,
          ap (λ c. c.seen_dsc) (round-eta p cr (d ∷ s)),
          omega (arith, size.1, ap length e),
        ),
      )
    ]

-- `Read` on a slice that is not empty, whatever is in it, once the device control string has been looked
-- for: it returns, and what it returns with what its next calls have still to return is the normal
-- form of all that the client writes: every carriage return before a line feed is dropped, and
-- nothing else, wherever the client's writes and the callers' slices are cut, and although it reads
-- and writes in the same slice. What it returns fits into the slice; it returns no byte only at the
-- end, and then nothing is left.
pub read-Returns :
    (b : ℕ) (p : Bytes) (cr : Bool) (q : Bytes) (s : Source)
    → (r : Reading) × (read (b ∷ p) (seen cr q) s ≡ some r)
      × Returns (length (b ∷ p)) (seen cr q) s r
unfolding read
read-Returns b p cr q s =
    read_loop-Answers (suc (length (flat s))) (b ∷ p) cr q s (omega arith) (omega arith)
