-- ===== src/Frames/Sound.antt =====
-- tmux/control_codec.go: what a frame that is read without an error is made of.
use gotmux.Prelude.{
  ℕ, ◌+◌, ◌-◌, ◌≤◌, ◌<◌, ◌≡◌, refl, sym, ap, ap₂, subst, ◌∙◌, inl, inr, Bool, true, false, not,
  ◌&&◌, some, List, [], ◌∷◌, ◌++◌, append_assoc, Bytes, codes, Error, err_protocol, Result, ok, err,
  Result-cases, length, length-append, ltb, ◌==◌, if◌then◌else◌, Bool-cases, Option-cases, arith,
}
use gotmux.Prelude.Cut.{has_prefix}
use gotmux.Wire.Records.{record_prefix, encode_record, read_record_wire}
use gotmux.Wire.Records.Parse.{read_record_wire-Accepts}
use gotmux.Wire.Records.RoundTrip.{length-encode_record}
use gotmux.Wire.Records.Consumed.{read_record_wire_keeps}
use gotmux.Events.{Event}
use gotmux.Frames.{
  FrameId, ControlFrame, frame_header, bounded_line, Ending, ending_name, frame_ending,
  is_allowed_marker, same_id, is_error_ending, check_frame_end, is_record_error, rest_of_line,
  read_record_wire_chunk, FrameState, LineStep, closes, keeps, append_line, publish_event,
  data_line, process_frame_line, FrameRound, finished, again, after_line,
}
use gotmux.Frames.Line.{line_of, IsLine, bounded_line_sound, bounded_line-first}

-- A chunk that is taken off a text.
pub record Taken (s c rest : Bytes) (left : ℕ) : Type 0 where
  pub whole : s ≡ c ++ rest
  pub some_bytes : 0 < length c
  pub within : length c ≤ left

ok-pair :
    (a b c d : Bytes) → ◌≡◌ {A = Result (Bytes × Bytes)} (ok (a, b)) (ok (c, d)) → (a ≡ c) × (b ≡ d)
ok-pair a b c d h = (cc, cc)

pub ok-inj : {A : Type 0} {a b : A} → ◌≡◌ {A = Result A} (ok a) (ok b) → a ≡ b
ok-inj h = cc

rest_of_line-Taken :
    (size left : ℕ) (s w : Bytes) (e : Error) (t c rest : Bytes)
    → 0 < size
    → w ++ t ≡ s
    → rest_of_line size left w e t ≡ ok (c, rest)
    → Taken s c rest left
unfolding rest_of_line
rest_of_line-Taken size left s w e t c rest pos k h = elim (Bool-cases (is_record_error e)) [
  | inr no_error ↦ absurd (ground (arith, rw (no_error) at h))
  | inl is_record ↦ elim (Result-cases (bounded_line size (left - length w) t)) [
    | inr (x, q) ↦ ground (arith, rw q at (rw is_record at h))
    | inl (l, q) ↦
        let b = bounded_line_sound size (left - length w) t l.0 l.1 pos q in
        let same = ok-pair (w ++ l.0) l.1 c rest (rw q at (rw is_record at h)) in
        let size_c = length-append w l.0 in
        let left_pos = ap length same.0 in
        record {
          whole =
              sym k
              ∙ ap (λ x. w ++ x) b.0
              ∙ sym (append_assoc w l.0 l.1)
              ∙ ap₂ (λ x y. x ++ y) same.0 same.1;
          some_bytes = omega (arith, b, size_c, left_pos);
          within = omega (arith, b, size_c, left_pos);
        }
  ]
]

pub read_record_wire_chunk-Taken :
    (size : ℕ) (s : Bytes) (left : ℕ) (c rest : Bytes)
    → 0 < size
    → read_record_wire_chunk size s left ≡ ok (c, rest)
    → Taken s c rest left
unfolding read_record_wire_chunk
read_record_wire_chunk-Taken size s left c rest pos h =
    elim (Option-cases (read_record_wire s left).1) [
      | inl q ↦
          let (vs, a, same_c) = read_record_wire-Accepts s left q in
          let same = ok-pair _ _ c rest (rw (read_record_wire_chunk, q) at h) in
          record {
            whole = sym (read_record_wire_keeps s left) ∙ ap₂ (λ x y. x ++ y) same.0 same.1;
            some_bytes = omega (arith, ap length same_c, ap length same.0, length-encode_record vs);
            within = omega (arith, ap length same_c, ap length same.0, a.within);
          }
      | inr (e, q) ↦
          rest_of_line-Taken size left s (read_record_wire s left).0 e _ c rest pos
            (read_record_wire_keeps s left) (rw (read_record_wire_chunk, q) at h)
    ]

-- A line that is a marker of the guard or the runner, a record, or what begins as a record and is
-- none: the bytes that its reader takes, and the rest of the line.
pub data IsPiece : Bytes → Type 0 where
  marker_piece : {p : Bytes} → is_allowed_marker p ≡ true → IsLine p → IsPiece p
  record_piece : (row : List Bytes) → IsPiece (encode_record row)
  broken_piece :
      (s l rest : Bytes) (left : ℕ) (e : Error)
      → has_prefix record_prefix s ≡ true
      → (read_record_wire s left).1 ≡ some e
      → line_of (read_record_wire s left).2.source ≡ some (l, rest)
      → IsPiece ((read_record_wire s left).0 ++ l)

rest_of_line-IsPiece :
    (size left : ℕ) (s : Bytes) (e : Error) (c rest : Bytes)
    → 0 < size
    → has_prefix record_prefix s ≡ true
    → (read_record_wire s left).1 ≡ some e
    → rest_of_line size left (read_record_wire s left).0 e (read_record_wire s left).2.source
      ≡ ok (c, rest)
    → IsPiece c
unfolding rest_of_line
rest_of_line-IsPiece size left s e c rest pos p q h =
    let w = (read_record_wire s left).0 in
    let t = (read_record_wire s left).2.source in
    elim (Bool-cases (is_record_error e)) [
      | inr no_error ↦ absurd (ground (arith, rw (no_error) at h))
      | inl is_record ↦ elim (Result-cases (bounded_line size (left - length w) t)) [
        | inr (x, r) ↦ absurd (ground (arith, rw r at (rw is_record at h)))
        | inl (l, r) ↦
            let same = ok-pair (w ++ l.0) l.1 c rest (rw r at (rw is_record at h)) in
            subst IsPiece same.0 (
              broken_piece s l.0 l.1 left e p q
                (bounded_line-first size (left - length w) t l.0 l.1 pos r).0)
      ]
    ]

pub read_record_wire_chunk-IsPiece :
    (size : ℕ) (s : Bytes) (left : ℕ) (c rest : Bytes)
    → 0 < size
    → has_prefix record_prefix s ≡ true
    → read_record_wire_chunk size s left ≡ ok (c, rest)
    → IsPiece c
unfolding read_record_wire_chunk
read_record_wire_chunk-IsPiece size s left c rest pos p h =
    elim (Option-cases (read_record_wire s left).1) [
      | inl q ↦
          let (vs, a, same_c) = read_record_wire-Accepts s left q in
          let same = ok-pair _ _ c rest (rw (read_record_wire_chunk, q) at h) in
          subst IsPiece (sym same_c ∙ same.0) (record_piece vs)
      | inr (e, q) ↦
          rest_of_line-IsPiece size left s e c rest pos p q (rw (read_record_wire_chunk, q) at h)
    ]

pub data Clean : Bytes → Type 0 where
  clean_none : Clean []
  clean_piece : {b p : Bytes} → Clean b → IsPiece p → Clean (b ++ p)

-- What holds between two rounds, behind a first line of `n` bytes.
pub record Kept (n : ℕ) (st : FrameState) : Type 0 where
  pub counted : st.used ≡ n + length st.body
  pub clean : st.ordinary ≡ false → Clean st.body

-- A frame that is read off `s` behind its first line, which has `n` bytes: it ends with the line before
-- `rest`, which names the same frame.
pub record Framed (n max_bytes : ℕ) (id : FrameId) (s rest : Bytes) (f : ControlFrame)
    : Type 0 where
  pub body_text : Bytes
  pub end_line : Bytes
  pub ending : Ending
  pub whole : s ≡ body_text ++ (end_line ++ rest)
  pub one_line : IsLine end_line
  pub named : f.id ≡ id
  pub same_frame : frame_header end_line (ending_name ending) ≡ ok id
  pub of_ending : f.failed ≡ is_error_ending ending
  pub within : n + length f.data_bytes ≤ max_bytes
  pub clean : f.failed ≡ false → Clean f.data_bytes

append_line-Kept :
    (n : ℕ) (line : Bytes) (st : FrameState)
    → IsLine line
    → Kept n st
    → Kept n (append_line line st)
unfolding append_line
append_line-Kept n line st one k = record {
  counted = omega (arith, k.counted, length-append st.body line);
  clean = λ h. elim (Bool-cases (is_allowed_marker line)) [
    | inl e ↦ clean_piece (k.clean (rw e at h)) (marker_piece e one)
    | inr e ↦ absurd (ground (arith, rw e at h))
  ];
}

publish_event-Kept : (n : ℕ) (e : Event) (st : FrameState) → Kept n st → Kept n (publish_event e st)
unfolding publish_event
publish_event-Kept n e st k = record { counted = k.counted; clean = k.clean }

data_line-Kept :
    (n : ℕ) (line : Bytes) (event : Result Event) (st : FrameState)
    → IsLine line
    → Kept n st
    → Kept n (data_line line event st)
unfolding data_line
data_line-Kept n [] event st one k = append_line-Kept n [] st one k
data_line-Kept n (c ∷ line) event st one k = elim (Bool-cases (c == 37)) [
  | inr e ↦ rw (data_line, e) (append_line-Kept n (c ∷ line) st one k)
  | inl e ↦ elim (Result-cases event) [
    | inl (v, q) ↦ rw (data_line, e, q) (publish_event-Kept n v st k)
    | inr (x, q) ↦ rw (data_line, e, q) (append_line-Kept n (c ∷ line) st one k)
  ]
]

-- What a line leads to.
abbrev pub AfterLine : ℕ → FrameId → FrameState → Bytes → LineStep → Type 0
AfterLine n id st line (keeps next) = Kept n next
AfterLine n id st line (closes failed) =
    (ending : Ending) × (frame_header line (ending_name ending) ≡ ok id)
    × (failed ≡ is_error_ending ending)
    × (failed ≡ false → st.ordinary ≡ false)

same_id-eq : (a b : FrameId) → same_id a b ≡ true → a ≡ b
unfolding same_id
same_id-eq a b h =
    let t : a.time ≡ b.time = ground arith in
    let n : a.number ≡ b.number = ground arith in
    let f : a.flags ≡ b.flags = ground arith in
    (λ i. record { time = t i; number = n i; flags = f i })

-- The last test of `checkFrameEnd`.
verdict :
    (o e f : Bool)
    → ◌≡◌ {A = Result Bool} (if o && not e then err err_protocol else ok e) (ok f)
    → (f ≡ e) × (f ≡ false → o ≡ false)
verdict true false f h = absurd (ground (arith, h))
verdict true true f h = (cc, λ k. cc)
verdict false e f h = (cc, λ k. refl)

check_frame_end-After :
    (n : ℕ) (line : Bytes) (ending : Ending) (id : FrameId) (st : FrameState) (failed : Bool)
    → check_frame_end line ending id st.ordinary ≡ ok failed
    → AfterLine n id st line (closes failed)
unfolding check_frame_end
check_frame_end-After n line ending id st failed h =
    elim (Result-cases (frame_header line (ending_name ending))) [
      | inr (e, q) ↦ absurd (ground (arith, rw (check_frame_end, q) at h))
      | inl (end_id, q) ↦ elim (Bool-cases (same_id end_id id)) [
        | inr other ↦ absurd (ground (arith, rw other at (rw (check_frame_end, q) at h)))
        | inl same ↦
            let said = rw same at (rw (check_frame_end, q) at h) in
            (
              ending,
              q ∙ ap ok (same_id-eq end_id id same),
              (verdict st.ordinary (is_error_ending ending) failed said).0,
              (verdict st.ordinary (is_error_ending ending) failed said).1,
            )
      ]
    ]

pub process_frame_line-After :
    (n : ℕ) (line : Bytes) (id : FrameId) (event : Result Event) (st : FrameState) (step : LineStep)
    → IsLine line
    → Kept n st
    → process_frame_line line id event st ≡ ok step
    → AfterLine n id st line step
unfolding process_frame_line
process_frame_line-After n line id event st step one k h = elim (Option-cases (frame_ending line)) [
  | inl q ↦ elim (Bool-cases (has_prefix (37 ∷ codes "begin ") line)) [
    | inl e ↦ absurd (ground (arith, rw e at (rw (process_frame_line, q) at h)))
    | inr e ↦
        subst (AfterLine n id st line) (ok-inj (rw e at (rw (process_frame_line, q) at h)))
          (data_line-Kept n line event st one k)
  ]
  | inr (ending, q) ↦ elim (Result-cases (check_frame_end line ending id st.ordinary)) [
    | inr (x, r) ↦ absurd (ground (arith, rw r at (rw (process_frame_line, q) at h)))
    | inl (failed, r) ↦
        subst (AfterLine n id st line) (ok-inj (rw r at (rw (process_frame_line, q) at h)))
          (check_frame_end-After n line ending id st failed r)
  ]
]

-- What a round leads to.
abbrev pub AfterRound : ℕ → ℕ → FrameId → Bytes → FrameRound → Type 0
AfterRound n max_bytes id s (finished f events rest) = Framed n max_bytes id s rest f
AfterRound n max_bytes id s (again next rest) =
    Kept n next
    × (next.used ≤ max_bytes)
    × (length rest < length s)
    × (read : Bytes) × (s ≡ read ++ rest)

pub after_line-After :
    (n max_bytes : ℕ) (id : FrameId) (st : FrameState) (s l rest : Bytes) (step : LineStep)
    (r : FrameRound)
    → Kept n st
    → st.used ≤ max_bytes
    → AfterLine n id st l step
    → IsLine l
    → s ≡ l ++ rest
    → length rest < length s
    → after_line max_bytes id st rest step ≡ ok r
    → AfterRound n max_bytes id s r
unfolding after_line
after_line-After n m id st s l rest (keeps next) r k u a one whole shorter h =
    elim (Bool-cases (ltb m next.used)) [
      | inl over ↦ absurd (ground (arith, rw over at h))
      | inr fits ↦
          subst (AfterRound n m id s) (ok-inj (rw fits at h))
            (a, ground (arith, fits), shorter, l, whole)
    ]
after_line-After n m id st s l rest (closes failed) r k u (ending, e, f, o) one whole shorter h =
    subst (AfterRound n m id s) (ok-inj h) (record {
      body_text = [];
      end_line = l;
      ending = ending;
      whole = whole;
      one_line = one;
      named = refl;
      same_frame = e;
      of_ending = f;
      within = omega (arith, k.counted, u);
      clean = λ q. k.clean (o q);
    })

-- What is read before a frame's end stands before it.
pub Framed-behind :
    {n m : ℕ} {id : FrameId} {s t rest : Bytes} {f : ControlFrame} (read : Bytes)
    → s ≡ read ++ t
    → Framed n m id t rest f
    → Framed n m id s rest f
Framed-behind {rest = rest} read e f = record {
  body_text = read ++ f.body_text;
  end_line = f.end_line;
  ending = f.ending;
  whole =
      e ∙ ap (λ x. read ++ x) f.whole ∙ sym (append_assoc read f.body_text (f.end_line ++ rest));
  one_line = f.one_line;
  named = f.named;
  same_frame = f.same_frame;
  of_ending = f.of_ending;
  within = f.within;
  clean = f.clean;
}
