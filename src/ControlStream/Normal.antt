-- ===== src/ControlStream/Normal.antt =====
-- What a copying transform makes of a stream, however it is cut into reads.
use gotmux.Prelude.{
  ℕ, ◌≡◌, refl, sym, ap, subst, ==_iff, ◌∙◌, Bool, true, false, [], ◌∷◌, ◌++◌, append-nil,
  append_assoc, Bytes, length, ltb, ◌==◌, if◌then◌else◌, Bool-cases, inl, inr, arith,
}
use gotmux.ControlStream.{ControlStreamReader}
use gotmux.ControlStream.Copied.{Copy, copy_emit, copy_cr, copy_flush, copy_byte, copy_loop}

-- The text with every carriage return before a line feed dropped.
unfoldable pub normal : Bytes → Bytes
normal [] = []
normal (b ∷ s) =
    let rest = normal s in
    if b == 13
    then elim s [ [] ↦ b ∷ rest | ◌∷◌ d _ ↦ if d == 10 then rest else b ∷ rest ]
    else b ∷ rest

-- A carriage return that has been read and not yet written.
abbrev pub owed : Bool → Bytes
owed true = 13 ∷ []
owed false = []

-- A reader that has looked for the device control string.
abbrev pub seen : Bool → Bytes → ControlStreamReader
seen cr q = record { has_cr = cr; seen_dsc = true; pending = q }

-- What has been written, and after it what is queued.
unfoldable pub produced : Copy → Bytes
produced t = t.written ++ t.held

-- Bytes are queued only behind a full slice.
abbrev pub Ordered : ℕ → Copy → Type 0
Ordered size t = ltb (length t.written) size ≡ true → t.held ≡ []

copy_emit-produced :
    (size b : ℕ) (t : Copy) → Ordered size t → produced (copy_emit size b t) ≡ produced t ++ b ∷ []
unfolding produced copy_emit
copy_emit-produced size b t h = elim (Bool-cases (ltb (length t.written) size)) [
  | inl e ↦ rw (copy_emit, e, h e, append-nil t.written, append-nil (t.written ++ b ∷ [])) refl
  | inr e ↦ rw (copy_emit, e) (sym (append_assoc t.written t.held (b ∷ [])))
]

copy_emit-Ordered : (size b : ℕ) (t : Copy) → Ordered size t → Ordered size (copy_emit size b t)
unfolding copy_emit
copy_emit-Ordered size b t h k = ground arith

copy_emit-cr : (size b : ℕ) (t : Copy) → (copy_emit size b t).cr ≡ t.cr
unfolding copy_emit
copy_emit-cr size b t = ground arith

abbrev pub at_work : Bytes → Bool → Bytes → Copy
at_work w cr q = record { written = w; cr = cr; held = q }

copy_emit-normal :
    (size b : ℕ) (t : Copy) (x s : Bytes)
    → Ordered size t
    → t.cr ≡ false
    → x ≡ b ∷ normal s
    → produced t ++ x ≡ produced (copy_emit size b t) ++ normal (owed (copy_emit size b t).cr ++ s)
copy_emit-normal size b t x s h f e =
    ap (λ y. produced t ++ y) e
    ∙ sym (append_assoc (produced t) (b ∷ []) (normal s))
    ∙ ap (λ y. y ++ normal s) (sym (copy_emit-produced size b t h))
    ∙ ap (λ c. produced (copy_emit size b t) ++ normal (owed c ++ s))
        (sym (copy_emit-cr size b t ∙ f))

normal-other : (b : ℕ) (s : Bytes) → b == 13 ≡ false → normal (b ∷ s) ≡ b ∷ normal s
unfolding normal
normal-other b s e = rw e refl

normal-return : (b : ℕ) (s : Bytes) → b == 10 ≡ false → normal (13 ∷ b ∷ s) ≡ 13 ∷ normal (b ∷ s)
unfolding normal
normal-return b s e = rw e refl

normal-line : (b : ℕ) (s : Bytes) → b == 10 ≡ true → normal (13 ∷ b ∷ s) ≡ b ∷ normal s
unfolding normal
normal-line b s e = ground arith

abbrev pub StepNormal : ℕ → ℕ → Bytes → Copy → Type 0
StepNormal size b s t =
    (produced t ++ normal (owed t.cr ++ b ∷ s)
      ≡ produced (copy_byte size b t) ++ normal (owed (copy_byte size b t).cr ++ s))
    × Ordered size (copy_byte size b t)

return-StepNormal :
    (size : ℕ) (s w q : Bytes) (cr : Bool)
    → Ordered size (at_work w cr q)
    → StepNormal size 13 s (at_work w cr q)
unfolding copy_byte copy_flush copy_cr produced
return-StepNormal size s w q false h = (refl, h)
return-StepNormal size s w q true h =
    let t = at_work w false q in
    (
      ap (λ y. (w ++ q) ++ y) (normal-return 13 s refl)
          ∙ sym (append_assoc (w ++ q) (13 ∷ []) (normal (13 ∷ s)))
          ∙ ap (λ y. y ++ normal (13 ∷ s)) (sym (copy_emit-produced size 13 t h)),
      copy_emit-Ordered size 13 t h,
    )

other-StepNormal :
    (size b : ℕ) (s w q : Bytes) (cr : Bool)
    → b == 13 ≡ false
    → Ordered size (at_work w cr q)
    → StepNormal size b s (at_work w cr q)
unfolding copy_byte copy_flush copy_cr produced
other-StepNormal size b s w q false e h = rw e (
  copy_emit-normal size b (at_work w false q) (normal (b ∷ s)) s h refl (normal-other b s e),
  copy_emit-Ordered size b (at_work w false q) h,
)
other-StepNormal size b s w q true e h = elim (Bool-cases (b == 10)) [
  | inl d ↦
      rw (e, d)
        (
          copy_emit-normal size b (at_work w false q) (normal (13 ∷ b ∷ s)) s h refl
              (normal-line b s d),
          copy_emit-Ordered size b (at_work w false q) h,
        )
  | inr d ↦
      let t = at_work w false q in
      let u = copy_emit size 13 t in
      let k = copy_emit-Ordered size 13 t h in
      rw (e, d)
        (
          ap (λ y. (w ++ q) ++ y) (normal-return b s d)
              ∙ sym (append_assoc (w ++ q) (13 ∷ []) (normal (b ∷ s)))
              ∙ ap (λ y. y ++ normal (b ∷ s)) (sym (copy_emit-produced size 13 t h))
              ∙ copy_emit-normal size b u (normal (b ∷ s)) s k (copy_emit-cr size 13 t)
                  (normal-other b s e),
          copy_emit-Ordered size b u k,
        )
]

copy_byte-normal : (size b : ℕ) (s : Bytes) (t : Copy) → Ordered size t → StepNormal size b s t
copy_byte-normal size b s t h = elim (Bool-cases (b == 13)) [
  | inl e ↦
      subst (λ c. StepNormal size c s t) (sym ((==_iff b 13).0 e))
        (return-StepNormal size s t.written t.held t.cr h)
  | inr e ↦ other-StepNormal size b s t.written t.held t.cr e h
]

pub copy_loop-normal :
    (size : ℕ) (src s : Bytes) (t : Copy)
    → Ordered size t
    → (produced t ++ normal (owed t.cr ++ (src ++ s))
        ≡ produced (copy_loop size src t) ++ normal (owed (copy_loop size src t).cr ++ s))
unfolding copy_loop
copy_loop-normal size [] s t h = refl
copy_loop-normal size (b ∷ src) s t h =
    let k = copy_byte-normal size b (src ++ s) t h in
    k.0 ∙ copy_loop-normal size src s (copy_byte size b t) k.1
