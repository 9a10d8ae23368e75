-- ===== src/Events/Charge.antt =====
-- What a decoded notification of tmux/events.go is charged for is bounded by its line.
use gotmux.Prelude.{
  ℕ, zero, suc, ◌+◌, ◌*◌, ◌≤◌, ◌≡◌, refl, ap, subst, Bool, true, false, Option, none, some, List,
  [], ◌∷◌, ◌++◌, Bytes, codes, bytes_eq, length, length-append, cut_prefix, cut_prefix-eq-some,
  Result, ok, err, if◌then◌else◌, Bool-cases, Option-cases, Result-cases, inl, inr, arith,
}
use gotmux.Prelude.Cut.{cut, cut-eq-some, trim_newline}
use gotmux.Prelude.Fields.{fields, split, all_bytes, fields-bytes, split-bytes}
use gotmux.Wire.Octal.{decode_octal}
use gotmux.Wire.Octal.Correct.{Escapes, done, plain, escaped, decode_octal_iff}
use gotmux.Ids.{valid_pane_id}
use gotmux.Events.{
  EventBase, Event, pane_pause_event, pane_continue_event, layout_changed_event, session_event,
  window_event, client_event, client_flags_changed_event, pane_mode_changed_event,
  paste_buffer_changed_event, paste_buffer_deleted_event, window_pane_changed_event, event_bytes,
}
use gotmux.Events.Decode.{
  cut_or_all, space, colon, Decoded, or_next, event_if, decode_flow_event, decode_client_flags,
  decode_server_event, decode_paste_buffer_event, decode_window_pane, decode_target_event,
  is_output_event, output_age, output_parts, or_protocol, decode_pane_output, decode_output_event,
  decode_layout_event, decode_session_parts, decode_session_event, decode_window_event,
  decode_client_parts, decode_client_event,
}
use gotmux.Events.Subscription.{
  replace_loop, session_value, subscription_data, subscription_parts, subscription_session_prefix,
  subscription_value_prefix, is_session_event, is_window_event, is_client_event,
  decode_subscription_event, decode_lifecycle_event, decode_known_event, is_valid_event_name,
  or_unknown, decode_named, validate_event_line, after_first, decode_event,
}

-- The event of a result, if there is one, is charged for at most `n` bytes.
abbrev pub Charged : ℕ → Result Event → Type 0
Charged n (ok e) = event_bytes e ≤ n
Charged n (err e) = Unit

abbrev pub ChargedOption : ℕ → Decoded → Type 0
ChargedOption n none = Unit
ChargedOption n (some r) = Charged n r

-- The bound of a decoder: the name once, the rest twice, since a header is kept whole and in parts.
abbrev pub limit : EventBase → Bytes → ℕ
limit base rest = length base.name + (length rest + length rest) + 128

event_if-Charged : (n : ℕ) (b : Bool) (e : Event) → event_bytes e ≤ n → Charged n (event_if b e)
unfolding event_if
event_if-Charged n true e h = h
event_if-Charged n false e h = tt

if-ChargedOption :
    (n : ℕ) (b : Bool) (x y : Decoded)
    → ChargedOption n x
    → ChargedOption n y
    → ChargedOption n (if b then x else y)
if-ChargedOption n true x y h k = h
if-ChargedOption n false x y h k = k

if-Charged :
    (n : ℕ) (b : Bool) (x y : Result Event)
    → Charged n x
    → Charged n y
    → Charged n (if b then x else y)
if-Charged n true x y h k = h
if-Charged n false x y h k = k

or_next-ChargedOption :
    (n : ℕ) (x y : Decoded) → ChargedOption n x → ChargedOption n y → ChargedOption n (or_next x y)
unfolding or_next
or_next-ChargedOption n none y h k = k
or_next-ChargedOption n (some r) y h k = h

-- The parts of a cut are no longer than the text.
cut-bytes : (sep s a b : Bytes) → cut sep s ≡ some (a, b) → length a + length b ≤ length s
cut-bytes sep s a b e =
    omega
      (arith, ap length (cut-eq-some sep s a b e), length-append a (sep ++ b), length-append sep b)

cut_or_all-bytes :
    (sep s : Bytes) → length (cut_or_all sep s).0 + length (cut_or_all sep s).1 ≤ length s
unfolding cut_or_all
cut_or_all-bytes sep s = elim (Option-cases (cut sep s)) [
  | inl e ↦ rw (cut_or_all, e) (omega arith)
  | inr (p, e) ↦ rw (cut_or_all, e) (cut-bytes sep s p.0 p.1 e)
]

decode_flow_event-Charged :
    (base : EventBase) (name rest : Bytes)
    → ChargedOption (limit base rest) (decode_flow_event base name rest)
unfolding decode_flow_event event_bytes
decode_flow_event-Charged base name rest =
    if-ChargedOption _ (bytes_eq name (codes "pause")) _ _
      (event_if-Charged _ _ (pane_pause_event base rest) (omega arith))
      (if-ChargedOption _ (bytes_eq name (codes "continue")) _ _
        (event_if-Charged _ _ (pane_continue_event base rest) (omega arith)) tt)

decode_server_event-Charged :
    (base : EventBase) (name rest : Bytes)
    → ChargedOption (limit base rest) (decode_server_event base name rest)
unfolding decode_server_event decode_client_flags event_bytes
decode_server_event-Charged base name rest =
    let p = cut_or_all space rest in
    let k = cut_or_all-bytes space rest in
    if-ChargedOption _ (bytes_eq name (codes "config-error")) _ _ (omega arith) (
      if-ChargedOption _ (bytes_eq name (codes "message")) _ _ (omega arith) (
        if-ChargedOption _ (bytes_eq name (codes "client-flags-changed")) _ _
          (event_if-Charged _ _ (client_flags_changed_event base p.0 p.1) (omega arith)) tt))

decode_target_event-Charged :
    (base : EventBase) (name rest : Bytes)
    → ChargedOption (limit base rest) (decode_target_event base name rest)
unfolding decode_target_event decode_paste_buffer_event decode_window_pane event_bytes
decode_target_event-Charged base name rest =
    let p = cut_or_all space rest in
    let k = cut_or_all-bytes space rest in
    or_next-ChargedOption _ (decode_paste_buffer_event base name rest) _
      (if-ChargedOption _ (bytes_eq name (codes "paste-buffer-changed")) _ _
        (event_if-Charged _ _ (paste_buffer_changed_event base rest) (omega arith))
        (if-ChargedOption _ (bytes_eq name (codes "paste-buffer-deleted")) _ _
          (event_if-Charged _ _ (paste_buffer_deleted_event base rest) (omega arith)) tt))
      (if-ChargedOption _ (bytes_eq name (codes "pane-mode-changed")) _ _
        (event_if-Charged _ _ (pane_mode_changed_event base rest) (omega arith))
        (if-ChargedOption _ (bytes_eq name (codes "window-pane-changed")) _ _
          (event_if-Charged _ _ (window_pane_changed_event base p.0 p.1) (omega arith)) tt))

decode_layout_event-Charged :
    (base : EventBase) (rest : Bytes) (parts : List Bytes)
    → all_bytes parts ≤ length rest
    → Charged (limit base rest) (decode_layout_event base parts)
unfolding decode_layout_event event_bytes
decode_layout_event-Charged base rest [] h = tt
decode_layout_event-Charged base rest (w ∷ []) h = tt
decode_layout_event-Charged base rest (w ∷ l ∷ []) h = tt
decode_layout_event-Charged base rest (w ∷ l ∷ v ∷ []) h = tt
decode_layout_event-Charged base rest (w ∷ l ∷ v ∷ f ∷ []) h =
    event_if-Charged _ _ (layout_changed_event base w l v f) (omega arith)
decode_layout_event-Charged base rest (w ∷ l ∷ v ∷ f ∷ x ∷ parts) h = tt

decode_session_event-Charged :
    (base : EventBase) (name rest : Bytes)
    → Charged (limit base rest) (decode_session_event base name rest)
unfolding decode_session_event decode_session_parts event_bytes
decode_session_event-Charged base name rest =
    let p = cut_or_all space rest in
    if-Charged _ (bytes_eq name (codes "sessions-changed")) _ _ (omega arith) (
      event_if-Charged _ _
        (session_event base (some p.0)
          (if bytes_eq name (codes "session-window-changed") then none else some p.1) rest)
        (omega arith))

decode_window_event-Charged :
    (base : EventBase) (rest : Bytes) → Charged (limit base rest) (decode_window_event base rest)
unfolding decode_window_event event_bytes
decode_window_event-Charged base rest = elim (Option-cases (cut space rest)) [
  | inl e ↦
      rw (decode_window_event, e)
        (event_if-Charged _ _ (window_event base rest none rest) (omega arith))
  | inr (p, e) ↦
      rw (decode_window_event, e)
        (event_if-Charged _ _ (window_event base p.0 (some p.1) rest) (omega arith))
]

decode_client_event-Charged :
    (base : EventBase) (name rest : Bytes)
    → Charged (limit base rest) (decode_client_event base name rest)
unfolding decode_client_event decode_client_parts event_bytes
decode_client_event-Charged base name rest =
    let p = cut_or_all space rest in
    if-Charged _ (bytes_eq name (codes "client-session-changed")) _ _
      (event_if-Charged _ _ (client_event base p.0 (some ((cut_or_all space p.1).0)) rest)
        (omega arith))
      (event_if-Charged _ _ (client_event base p.0 none rest) (omega arith))

Escapes-shorter : {text out : Bytes} → Escapes text out → length out ≤ length text
Escapes-shorter done = omega arith
Escapes-shorter (plain h t) = omega (arith, Escapes-shorter t)
Escapes-shorter (escaped b x y z v s t) = omega (arith, Escapes-shorter t)

decode_octal-bytes :
    (text : Bytes) (m : ℕ) (out : Bytes) → decode_octal text m ≡ ok out → length out ≤ length text
decode_octal-bytes text m out e = Escapes-shorter ((decode_octal_iff text out m).0 e).0

output_parts-bytes :
    (name tail : Bytes) (p : Option ℕ × Bytes)
    → output_parts name tail ≡ ok p
    → length p.1 ≤ length tail
unfolding output_parts
output_parts-bytes name tail p e = elim (Bool-cases (bytes_eq name (codes "extended-output"))) [
  | inr h ↦ let k = rw (output_parts, h) at e in ground (arith, k)
  | inl h ↦ elim (Option-cases (cut colon tail)) [
    | inl q ↦ cc (rw (output_parts, h, q) at e)
    | inr (c, q) ↦ elim (Result-cases (output_age (fields c.0))) [
      | inr (f, g) ↦ cc (rw (output_parts, h, q, g) at e)
      | inl (age, g) ↦
          let k = rw (output_parts, h, q, g) at e in
          ground (arith, k, cut-bytes colon tail c.0 c.1 q)
    ]
  ]
]

pane_output-Charged :
    (base : EventBase) (name id tail rest : Bytes) (m : ℕ)
    → length id + length tail ≤ length rest
    → Charged (limit base rest) (decode_pane_output base name m (id, tail))
unfolding decode_pane_output event_bytes or_protocol
pane_output-Charged base name id tail rest m h =
    if-Charged _ (valid_pane_id id) _ _
      (elim (Result-cases (output_parts name tail)) [
        | inr (f, e) ↦ rw e tt
        | inl (p, e) ↦ rw e (elim (Result-cases (decode_octal p.1 m)) [
          | inr (f, d) ↦ rw (or_protocol, d) tt
          | inl (out, d) ↦
              rw (or_protocol, d)
                (omega (arith, output_parts-bytes name tail p e, decode_octal-bytes p.1 m out d))
        ])
      ])
      tt

decode_output_event-Charged :
    (base : EventBase) (name rest : Bytes) (m : ℕ)
    → Charged (limit base rest) (decode_output_event base name rest m)
unfolding decode_output_event
decode_output_event-Charged base name rest m =
    let p = cut_or_all space rest in
    pane_output-Charged base name p.0 p.1 rest m (cut_or_all-bytes space rest)

-- Replacing escapes shortens a text.
replace_loop-bytes : (skip : ℕ) (s : Bytes) → length (replace_loop skip s) ≤ length s
unfolding replace_loop
replace_loop-bytes zero [] = omega arith
replace_loop-bytes (suc skip) [] = omega arith
replace_loop-bytes (suc skip) (c ∷ s) = omega (arith, replace_loop-bytes skip s)
replace_loop-bytes zero (c ∷ s) = ground (arith, replace_loop-bytes 2 s, replace_loop-bytes 0 s)

session_value-bytes :
    (o : Option (Bytes × Bytes)) (n : ℕ) (r : Option Bytes × Bytes)
    → ((p : Bytes × Bytes) → o ≡ some p → length p.1 ≤ n)
    → session_value o ≡ ok r
    → length r.1 ≤ n
unfolding session_value
session_value-bytes none n r h e = cc
session_value-bytes (some p) n r h e = ground (arith, h p refl, replace_loop-bytes 0 p.1)

subscription_data-bytes :
    (text : Bytes) (r : Option Bytes × Bytes)
    → subscription_data text ≡ ok r
    → length r.1 ≤ length text
unfolding subscription_data
subscription_data-bytes text r e =
    elim (Option-cases (cut_prefix subscription_session_prefix text)) [
      | inr (rest, q) ↦
          session_value-bytes (cut (58 ∷ []) rest) (length text) r
            (λ p g. omega (
              arith,
              cut-bytes (58 ∷ []) rest p.0 p.1 g,
              ap length (cut_prefix-eq-some subscription_session_prefix text rest q),
            ))
            (rw (subscription_data, q) at e)
      | inl q ↦ elim (Option-cases (cut_prefix subscription_value_prefix text)) [
        | inr (rest, g) ↦
            let k = rw (subscription_data, q, g) at e in
            ground (
              arith,
              k,
              replace_loop-bytes 0 rest,
              ap length (cut_prefix-eq-some subscription_value_prefix text rest g),
            )
        | inl g ↦ let k = rw (subscription_data, q, g) at e in ground (arith, k)
      ]
    ]

subscription_parts-Charged :
    (base : EventBase) (header rest : Bytes) (parts : List Bytes) (r : Option Bytes × Bytes)
    → all_bytes parts ≤ length header
    → length header + length r.1 ≤ length rest
    → Charged (limit base rest) (subscription_parts base header parts r)
unfolding subscription_parts event_bytes
subscription_parts-Charged base header rest [] r h k = tt
subscription_parts-Charged base header rest (name ∷ parts) r h k = omega arith

decode_subscription_event-Charged :
    (base : EventBase) (rest : Bytes)
    → Charged (limit base rest) (decode_subscription_event base rest)
unfolding decode_subscription_event
decode_subscription_event-Charged base rest = elim (Option-cases (cut colon rest)) [
  | inl q ↦ rw (decode_subscription_event, q) tt
  | inr (p, q) ↦ elim (Result-cases (subscription_data p.1)) [
    | inr (f, g) ↦ rw (decode_subscription_event, q, g) tt
    | inl (r, g) ↦
        rw (decode_subscription_event, q, g)
          (subscription_parts-Charged base p.0 rest (fields p.0) r (fields-bytes p.0)
            (omega (arith, cut-bytes colon rest p.0 p.1 q, subscription_data-bytes p.1 r g)))
  ]
]

decode_lifecycle_event-Charged :
    (base : EventBase) (name rest : Bytes)
    → ChargedOption (limit base rest) (decode_lifecycle_event base name rest)
unfolding decode_lifecycle_event
decode_lifecycle_event-Charged base name rest =
    if-ChargedOption _ (bytes_eq name (codes "layout-change")) _ _
      (decode_layout_event-Charged base rest (split 32 rest) (split-bytes 32 rest))
      (if-ChargedOption _ (is_session_event name) _ _ (decode_session_event-Charged base name rest)
        (if-ChargedOption _ (is_window_event name) _ _ (decode_window_event-Charged base rest) (
          if-ChargedOption _ (is_client_event name) _ _ (decode_client_event-Charged base name rest)
            (if-ChargedOption _ (bytes_eq name (codes "subscription-changed")) _ _
              (decode_subscription_event-Charged base rest) tt))))

decode_known_event-Charged :
    (base : EventBase) (name rest : Bytes) (m : ℕ)
    → ChargedOption (limit base rest) (decode_known_event base name rest m)
unfolding decode_known_event
decode_known_event-Charged base name rest m =
    or_next-ChargedOption _ (decode_flow_event base name rest) _
      (decode_flow_event-Charged base name rest)
      (or_next-ChargedOption _ (decode_server_event base name rest) _
        (decode_server_event-Charged base name rest)
        (or_next-ChargedOption _ (decode_target_event base name rest) _
          (decode_target_event-Charged base name rest)
          (if-ChargedOption _ (is_output_event name) _ _
            (decode_output_event-Charged base name rest m)
            (decode_lifecycle_event-Charged base name rest))))

or_unknown-Charged :
    (base : EventBase) (rest : Bytes) (d : Decoded)
    → ChargedOption (limit base rest) d
    → Charged (limit base rest) (or_unknown base rest d)
unfolding or_unknown event_bytes
or_unknown-Charged base rest (some r) h = h
or_unknown-Charged base rest none h =
    if-Charged _ (is_valid_event_name base.name) _ _ (omega arith) tt

decode_named-Charged :
    (received m : ℕ) (name rest : Bytes)
    → Charged
        (length name + (length rest + length rest) + 128)
        (decode_named received m (name, rest))
unfolding decode_named
decode_named-Charged received m [] rest = tt
decode_named-Charged received m (c ∷ name) rest =
    let base : EventBase = record { name = c ∷ name; received = received } in
    or_unknown-Charged base rest (decode_known_event base (c ∷ name) rest m)
      (decode_known_event-Charged base (c ∷ name) rest m)

trim_newline-bytes : (s : Bytes) → length (trim_newline s) ≤ length s
unfolding trim_newline
trim_newline-bytes [] = omega arith
trim_newline-bytes (c ∷ []) = ground arith
trim_newline-bytes (c ∷ d ∷ s) = omega (arith, trim_newline-bytes (d ∷ s))

after_first-bytes : (s : Bytes) → length (after_first s) ≤ length s
after_first-bytes [] = omega arith
after_first-bytes (c ∷ s) = omega arith

Charged-le : (n m : ℕ) (r : Result Event) → n ≤ m → Charged n r → Charged m r
Charged-le n m (ok e) h k = omega arith
Charged-le n m (err f) h k = tt

valid_line-bytes : (line : Bytes) (m : ℕ) → validate_event_line line m ≡ true → length line ≤ m
unfolding validate_event_line
valid_line-bytes [] m h = cc
valid_line-bytes (c ∷ []) m h = cc
valid_line-bytes (c ∷ d ∷ line) m h = ground arith

-- Whatever line `decodeEvent` makes an event of, the event is charged for at most twice the bytes of
-- the line and 128 more, and the line is within the bound that `decodeEvent` is given.
pub decode_event_charge :
    (received : ℕ) (line : Bytes) (max_bytes : ℕ) {e : Event}
    → decode_event received line max_bytes ≡ ok e
    → (event_bytes e ≤ 2 * length line + 128) × (length line ≤ max_bytes)
unfolding decode_event
decode_event_charge received line max_bytes {e} h =
    elim (Bool-cases (validate_event_line line max_bytes)) [
      | inr v ↦ cc (rw (decode_event, v) at h)
      | inl v ↦
          let s = after_first (trim_newline line) in
          let p = cut_or_all space s in
          let bound = length p.0 + (length p.1 + length p.1) + 128 in
          let k : event_bytes e ≤ bound =
            subst (Charged bound) (rw (decode_event, v) at h)
              (decode_named-Charged received max_bytes p.0 p.1) in
          (
            omega (
              arith,
              k,
              cut_or_all-bytes space s,
              after_first-bytes (trim_newline line),
              trim_newline-bytes line,
            ),
            valid_line-bytes line max_bytes v,
          )
    ]
