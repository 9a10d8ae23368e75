-- ===== src/Frames/Line.antt =====
-- tmux/control_codec.go: `boundedLine` and the first line of a text.
use gotmux.Prelude.{
  ℕ, zero, suc, ◌-◌, ◌≤◌, ◌<◌, ◌≡◌, refl, sym, ap, ap₂, subst, ◌∙◌, inl, inr, true, false, Option,
  none, some, [], ◌∷◌, ◌++◌, Bytes, append_assoc, append-nil, err_output_limit, eof, Result, ok,
  err, length, length-append, ltb, leb, ◌==◌, if◌then◌else◌, Bool-cases, Option-cases, arith,
}
use gotmux.Frames.{line_end, line_loop, bounded_line}

-- The bytes up to the first line feed, and those behind it.
unfoldable pub line_of : Bytes → Option (Bytes × Bytes)
line_of [] = none
line_of (c ∷ s) =
    let rest = line_of s in
    if c == 10 then some (c ∷ [], s) else elim rest [ some p ↦ some (c ∷ p.0, p.1) | none ↦ none ]

-- What stands for a line behind `acc` that is bounded by `limit`.
unfoldable pub line_or_limit : ℕ → Bytes → Bytes → Result (Bytes × Bytes)
line_or_limit limit acc s = elim (line_of s) [
  | some p ↦
      if ltb limit (length (acc ++ p.0)) then err err_output_limit else line_end (acc ++ p.0) p.1
  | none ↦ if ltb limit (length (acc ++ s)) then err err_output_limit else err eof
]

line_or_limit_step :
    (limit : ℕ) (acc : Bytes) (c : ℕ) (s : Bytes)
    → (c == 10) ≡ false
    → line_or_limit limit acc (c ∷ s) ≡ line_or_limit limit (acc ++ c ∷ []) s
unfolding line_or_limit line_of
line_or_limit_step limit acc c s e = elim (Option-cases (line_of s)) [
  | inl q ↦ rw (line_or_limit, line_of, e, q, append_assoc acc (c ∷ []) s) refl
  | inr (p, q) ↦ rw (line_or_limit, line_of, e, q, append_assoc acc (c ∷ []) p.0) refl
]

line_or_limit_over :
    (limit : ℕ) (acc s : Bytes)
    → limit < length acc
    → line_or_limit limit acc s ≡ err err_output_limit
unfolding line_or_limit
line_or_limit_over limit acc s h = elim (Option-cases (line_of s)) [
  | inl q ↦ rw (line_or_limit, q) (ground (arith, length-append acc s))
  | inr (p, q) ↦ rw (line_or_limit, q) (ground (arith, length-append acc p.0))
]

line_loop_feed :
    (size limit : ℕ) (out part : Bytes) (c : ℕ) (s : Bytes)
    → length out ≤ limit
    → (c == 10) ≡ true
    → line_loop size limit out part (c ∷ s) ≡ line_or_limit limit (out ++ part) (c ∷ s)
unfolding line_loop line_or_limit line_of
line_loop_feed size limit out part c s l e =
    let size_all = length-append out (part ++ c ∷ []) in
    rw (line_loop, line_or_limit, line_of, e, append_assoc out part (c ∷ []))
      (ground (arith, size_all))

line_loop_lem :
    (size limit : ℕ) (out part s : Bytes)
    → length part < size
    → length out ≤ limit
    → line_loop size limit out part s ≡ line_or_limit limit (out ++ part) s
unfolding line_loop line_or_limit line_of
line_loop_lem size limit out part [] h l =
    ground (arith, append-nil (out ++ part), length-append out part)
line_loop_lem size limit out part (c ∷ s) h l =
    let whole = append_assoc out part (c ∷ []) in
    elim (Bool-cases (c == 10)) [
      | inl e ↦ line_loop_feed size limit out part c s l e
      | inr e ↦ elim (Bool-cases (leb size (length (part ++ c ∷ [])))) [
        | inr room ↦
            rw (line_loop, e, room)
              (line_loop_lem size limit out (part ++ c ∷ []) s (ground (arith, room)) l
                ∙ ap (λ t. line_or_limit limit t s) (sym whole)
                ∙ sym (line_or_limit_step limit (out ++ part) c s e))
        | inl full ↦ elim (Bool-cases (ltb (limit - length out) (length (part ++ c ∷ [])))) [
          | inl over ↦
              rw (line_loop, e, full, over)
                (sym (
                  line_or_limit_step limit (out ++ part) c s e
                  ∙ line_or_limit_over limit ((out ++ part) ++ c ∷ []) s
                      (ground (arith, over, ap length whole, length-append out (part ++ c ∷ [])))))
          | inr within ↦
              rw (line_loop, e, full, within)
                (line_loop_lem size limit (out ++ (part ++ c ∷ [])) [] s (ground (arith, h))
                    (ground (arith, within, length-append out (part ++ c ∷ [])))
                  ∙ ap (λ t. line_or_limit limit t s)
                      (append-nil (out ++ (part ++ c ∷ [])) ∙ sym whole)
                  ∙ sym (line_or_limit_step limit (out ++ part) c s e))
        ]
      ]
    ]

pub bounded_line-line_of :
    (size limit : ℕ) (s : Bytes)
    → 0 < size
    → 0 < limit
    → bounded_line size limit s ≡ line_or_limit limit [] s
unfolding bounded_line
bounded_line-line_of size limit s h l =
    ground (arith, line_loop_lem size limit [] [] s h (omega arith))

line_of_sound : (s l rest : Bytes) → line_of s ≡ some (l, rest) → (s ≡ l ++ rest) × (0 < length l)
unfolding line_of
line_of_sound [] l rest h = ground (arith, h)
line_of_sound (c ∷ s) l rest h = elim (Bool-cases (c == 10)) [
  | inl e ↦ ground (arith, e, h)
  | inr e ↦ elim (Option-cases (line_of s)) [
    | inl q ↦ ground (arith, e, q, h)
    | inr (p, q) ↦ ground (arith, e, q, h, line_of_sound s p.0 p.1)
  ]
]

line_end-ok : (a b l rest : Bytes) → line_end a b ≡ ok (l, rest) → (a ≡ l) × (b ≡ rest)
unfolding line_end
line_end-ok a b l rest h = ground (arith, h)

line_or_limit_sound :
    (limit : ℕ) (s l rest : Bytes)
    → line_or_limit limit [] s ≡ ok (l, rest)
    → (s ≡ l ++ rest) × (0 < length l) × (length l ≤ limit)
unfolding line_or_limit
line_or_limit_sound limit s l rest h = elim (Option-cases (line_of s)) [
  | inl q ↦ ground (arith, q, h)
  | inr (p, q) ↦ elim (Bool-cases (ltb limit (length p.0))) [
    | inl over ↦ ground (arith, rw over at (rw (line_or_limit, q) at h))
    | inr fits ↦
        let same = line_end-ok p.0 p.1 l rest (rw fits at (rw (line_or_limit, q) at h)) in
        ground (arith, fits, same, line_of_sound s p.0 p.1 q)
  ]
]

-- A line that is returned is what stands before the rest, and it is within the limit.
pub bounded_line_sound :
    (size limit : ℕ) (s l rest : Bytes)
    → 0 < size
    → bounded_line size limit s ≡ ok (l, rest)
    → (s ≡ l ++ rest) × (0 < length l) × (length l ≤ limit)
unfolding bounded_line
bounded_line_sound size zero s l rest pos h = ground (arith, h)
bounded_line_sound size (suc limit) s l rest pos h =
    line_or_limit_sound (suc limit) s l rest
      (sym (bounded_line-line_of size (suc limit) s pos (omega arith)) ∙ h)

-- A text that is one line, with its line feed at the end.
abbrev pub IsLine : Bytes → Type 0
IsLine l = line_of l ≡ some (l, [])

line_of-IsLine : (s l rest : Bytes) → line_of s ≡ some (l, rest) → IsLine l
unfolding line_of
line_of-IsLine [] l rest h = absurd (cc (h))
line_of-IsLine (c ∷ s) l rest h = elim (Bool-cases (c == 10)) [
  | inl e ↦ let same : c ∷ [] ≡ l = ground (arith, e, h) in subst IsLine same (rw (line_of, e) refl)
  | inr e ↦ elim (Option-cases (line_of s)) [
    | inl q ↦ absurd (ground (arith, e, q, h))
    | inr (p, q) ↦
        let same : c ∷ p.0 ≡ l = ground (arith, e, q, h) in
        subst IsLine same (rw (line_of, e, line_of-IsLine s p.0 p.1 q) refl)
  ]
]

line_or_limit-line_of :
    (limit : ℕ) (s l rest : Bytes)
    → line_or_limit limit [] s ≡ ok (l, rest)
    → line_of s ≡ some (l, rest)
unfolding line_or_limit
line_or_limit-line_of limit s l rest h = elim (Option-cases (line_of s)) [
  | inl q ↦ absurd (ground (arith, q, h))
  | inr (p, q) ↦ elim (Bool-cases (ltb limit (length p.0))) [
    | inl over ↦ absurd (ground (arith, rw over at (rw (line_or_limit, q) at h)))
    | inr fits ↦
        let same = line_end-ok p.0 p.1 l rest (rw fits at (rw (line_or_limit, q) at h)) in
        q ∙ ap₂ (λ x y. some (x, y)) same.0 same.1
  ]
]

-- A line that is returned is the first line of the text.
pub bounded_line-first :
    (size limit : ℕ) (s l rest : Bytes)
    → 0 < size
    → bounded_line size limit s ≡ ok (l, rest)
    → (line_of s ≡ some (l, rest)) × IsLine l
unfolding bounded_line
bounded_line-first size zero s l rest pos h = absurd (ground (arith, h))
bounded_line-first size (suc limit) s l rest pos h =
    let first =
      line_or_limit-line_of (suc limit) s l rest
        (sym (bounded_line-line_of size (suc limit) s pos (omega arith)) ∙ h) in
    (first, line_of-IsLine s l rest first)
