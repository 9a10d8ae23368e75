-- ===== src/Frames/Read.antt =====
-- tmux/control_codec.go: `readFrame` and `readControlUnit`, round by round.
use gotmux.Prelude.{
  ℕ, zero, suc, ◌-◌, ◌≤◌, ◌<◌, ◌≡◌, ◌≢◌, refl, ap, subst, inl, inr, Bool, true, false, Option, none,
  some, List, [], ◌∷◌, ◌++◌, Bytes, codes, err_protocol, if◌then◌else◌, err, ok, Result,
  Result-cases, length, length-append, ltb, Bool-cases, Option-cases, arith,
}
use gotmux.Prelude.Cut.{has_prefix}
use gotmux.Wire.Records.{record_prefix}
use gotmux.Events.{Event}
use gotmux.Events.Subscription.{decode_event}
use gotmux.Frames.{
  FrameId, ControlFrame, frame_header, bounded_line, read_record_wire_chunk, FrameState,
  process_frame_line, FrameRound, finished, again, append_chunk, line_round, frame_round,
  frame_loop, started, read_frame, skip_dsc, event_result, unit_line, read_unit_line,
  read_control_unit, frame_result,
}
use gotmux.Frames.Line.{IsLine, bounded_line_sound, bounded_line-first}
use gotmux.Frames.Sound.{
  IsPiece, read_record_wire_chunk-IsPiece, Taken, read_record_wire_chunk-Taken, clean_none,
  clean_piece, Kept, Framed, process_frame_line-After, AfterRound, after_line-After, ok-inj,
}

append_chunk-After :
    (n m : ℕ) (id : FrameId) (st : FrameState) (s c rest : Bytes)
    → Kept n st
    → st.used ≤ m
    → IsPiece c
    → Taken s c rest (m - st.used)
    → AfterRound n m id s (append_chunk st (c, rest))
unfolding append_chunk
append_chunk-After n m id st s c rest k u p t = (
  record {
    counted = omega (arith, k.counted, length-append st.body c);
    clean = λ h. clean_piece (k.clean h) p;
  },
  omega (arith, u, t.within),
  omega (arith, ap length t.whole, length-append c rest, t.some_bytes),
  c,
  t.whole,
)

frame_result-total :
    (r : Option (Result (ControlFrame × List Event × Bytes))) → r ≢ none → frame_result r ≢ none
frame_result-total none h = λ x. h refl
frame_result-total (some (err e)) h = λ x. cc
frame_result-total (some (ok r)) h = λ x. cc

event_result-total : (rest : Bytes) (r : Result Event) → event_result rest r ≢ none
unfolding event_result
event_result-total rest (ok e) = λ x. cc
event_result-total rest (err e) = λ x. cc

event_or_error-total :
    (b : Bool) (rest : Bytes) (r : Result Event)
    → (if b then some (err err_protocol) else event_result rest r) ≢ none
event_or_error-total true rest r = λ x. cc
event_or_error-total false rest r = event_result-total rest r

started-Kept :
    (line : Bytes)
    → Kept
        (length line)
        (record { body = []; used = length line; ordinary = false; published = [] })
started-Kept line = record { counted = omega arith; clean = λ h. clean_none }

-- A text that begins with a whole frame: its first line, which names it, then what the frame is read off.
pub record BeginsFrame (max_bytes : ℕ) (t rest : Bytes) (f : ControlFrame) : Type 0 where
  pub line : Bytes
  pub behind : Bytes
  pub id : FrameId
  pub whole : t ≡ line ++ behind
  pub one_line : IsLine line
  pub header : frame_header line (codes "begin") ≡ ok id
  pub framed : Framed (length line) max_bytes id behind rest f

module _ (size max_bytes : ℕ) (clock : Bytes → ℕ) (room : 0 < size) where
  line_round-After :
      (n : ℕ) (id : FrameId) (st : FrameState) (s : Bytes) (r : FrameRound)
      → Kept n st
      → st.used ≤ max_bytes
      → line_round size max_bytes clock id st s ≡ ok r
      → AfterRound n max_bytes id s r
  unfolding line_round
  line_round-After n id st s r k u h = elim (Result-cases (bounded_line size max_bytes s)) [
    | inr (e, q) ↦ absurd (ground (arith, rw (line_round, q) at h))
    | inl (l, q) ↦
        let event = decode_event (clock l.1) l.0 max_bytes in
        let b = bounded_line_sound size max_bytes s l.0 l.1 room q in
        let shorter : length l.1 < length s =
          omega (arith, ap length b.0, length-append l.0 l.1, b.1) in
        elim (Result-cases (process_frame_line l.0 id event st)) [
          | inr (e, w) ↦ absurd (ground (arith, rw w at (rw (line_round, q) at h)))
          | inl (step, w) ↦
              let first = bounded_line-first size max_bytes s l.0 l.1 room q in
              after_line-After n max_bytes id st s l.0 l.1 step r k u
                (process_frame_line-After n l.0 id event st step first.1 k w) first.1 b.0 shorter
                (rw w at (rw (line_round, q) at h))
        ]
  ]

  frame_round-After :
      (n : ℕ) (id : FrameId) (st : FrameState) (s : Bytes) (r : FrameRound)
      → Kept n st
      → st.used ≤ max_bytes
      → frame_round size max_bytes clock id st s ≡ ok r
      → AfterRound n max_bytes id s r
  unfolding frame_round
  frame_round-After n id st s r k u h = elim (Bool-cases (ltb (length s) (length record_prefix))) [
    | inl short ↦ absurd (ground (arith, rw short at h))
    | inr long ↦ elim (Bool-cases (has_prefix record_prefix s)) [
      | inr other ↦ line_round-After n id st s r k u (rw other at (rw long at h))
      | inl starts ↦ elim (Result-cases (read_record_wire_chunk size s (max_bytes - st.used))) [
        | inr (e, q) ↦ absurd (ground (arith, rw q at (rw starts at (rw long at h))))
        | inl (c, q) ↦
            subst (AfterRound n max_bytes id s) (ok-inj (rw q at (rw starts at (rw long at h)))) (
              append_chunk-After n max_bytes id st s c.0 c.1 k u
                (read_record_wire_chunk-IsPiece size s (max_bytes - st.used) c.0 c.1 room starts q)
                (read_record_wire_chunk-Taken size s (max_bytes - st.used) c.0 c.1 room q))
      ]
    ]
  ]

  frame_loop-total :
      (fuel n : ℕ) (id : FrameId) (st : FrameState) (s : Bytes)
      → length s < fuel
      → Kept n st
      → st.used ≤ max_bytes
      → frame_loop size max_bytes clock fuel id st s ≢ none
  unfolding frame_loop
  frame_loop-total zero n id st s l k u = elim l [ ]
  frame_loop-total (suc fuel) n id st s l k u =
      elim (Result-cases (frame_round size max_bytes clock id st s)) [
        | inr (e, q) ↦ rw (frame_loop, q) (λ x. cc)
        | inl (finished f events rest, q) ↦ rw (frame_loop, q) (λ x. cc)
        | inl (again next rest, q) ↦
            let (k2, u2, shorter, read, whole) =
              frame_round-After n id st s (again next rest) k u q in
            rw (frame_loop, q)
              (frame_loop-total fuel n id next rest (omega (arith, l, shorter)) k2 u2)
      ]

  read_frame-total :
      (line s : Bytes) → length line ≤ max_bytes → read_frame size max_bytes clock line s ≢ none
  unfolding read_frame
  read_frame-total line s u = elim (Result-cases (frame_header line (codes "begin"))) [
    | inr (e, q) ↦ rw (read_frame, q) (λ x. cc)
    | inl (id, q) ↦
        rw (read_frame, q)
          (frame_loop-total (suc (length s)) (length line) id (started line) s (omega arith)
            (started-Kept line) u)
  ]

  unit_line-total :
      (line rest : Bytes)
      → length line ≤ max_bytes
      → unit_line size max_bytes clock line rest ≢ none
  unfolding unit_line
  unit_line-total line rest u = elim (Bool-cases (has_prefix (37 ∷ codes "begin ") line)) [
    | inl e ↦ rw (unit_line, e) (frame_result-total _ (read_frame-total line rest u))
    | inr e ↦ rw (unit_line, e) (event_or_error-total _ rest _)
  ]

  read_unit_line-total : (s : Bytes) → read_unit_line size max_bytes clock s ≢ none
  unfolding read_unit_line
  read_unit_line-total s = elim (Result-cases (bounded_line size max_bytes s)) [
    | inr (e, q) ↦ rw (read_unit_line, q) (λ x. cc)
    | inl (l, q) ↦
        rw (read_unit_line, q)
          (unit_line-total l.0 l.1 (bounded_line_sound size max_bytes s l.0 l.1 room q).2)
  ]

  -- With a buffer of any size but 0, `readControlUnit` always ends, in a unit or an error.
  pub read_control_unit_total : (s : Bytes) → read_control_unit size max_bytes clock s ≢ none
  unfolding read_control_unit
  read_control_unit_total s = elim (Option-cases (skip_dsc s)) [
    | inl q ↦ rw (read_control_unit, q) (λ x. cc)
    | inr (rest, q) ↦ rw (read_control_unit, q) (read_unit_line-total rest)
  ]
