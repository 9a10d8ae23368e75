-- ===== src/Collect/Output.antt =====
-- tmux/control_dispatch.go: what `collectRequest` returns.
use gotmux.Prelude.{
  ℕ, ◌-◌, ◌≤◌, ◌≡◌, refl, sym, ap, subst, ◌∙◌, inl, inr, Bool, true, false, not, ◌&&◌, ◌||◌, Option,
  some, List, [], ◌∷◌, ◌++◌, append-nil, append_assoc, Bytes, err_control_command_failed,
  err_protocol, length, length-append, length-take, take, ltb, ◌==◌, if◌then◌else◌, Bool-cases,
  arith,
}
use gotmux.Prelude.Space.{is_empty}
use gotmux.Frames.{ControlFrame}
use gotmux.Collect.{
  Collected, append_frame_data, library_output, limit_error, keep_frame, foreign_frame, is_last,
  handle_collect_frame, collect_request, classify_stderr,
}

append_frame_data-bound :
    (dst s : Bytes) (limit : ℕ)
    → length dst ≤ limit
    → length (append_frame_data dst s limit).0 ≤ limit
unfolding append_frame_data
append_frame_data-bound dst s limit h = elim (Bool-cases (ltb (limit - length dst) (length s))) [
  | inl over ↦
      let cut = length-take (limit - length dst) s (ground (arith, over)) in
      rw (append_frame_data, over)
        (ground (arith, h, cut, length-append dst (take (limit - length dst) s)))
  | inr fits ↦ rw (append_frame_data, fits) (ground (arith, h, fits, length-append dst s))
]

same_end :
    {c d : Collected} {a b : List ControlFrame}
    → ◌≡◌ {A = Option (Collected × List ControlFrame)} (some (c, a)) (some (d, b))
    → (c ≡ d) × (a ≡ b)
same_end h = (cc, cc)

-- Both outputs are within their limits.
pub record IsBounded (out_limit err_limit : ℕ) (c : Collected) : Type 0 where
  pub out_within : length c.stdout ≤ out_limit
  pub err_within : length c.stderr ≤ err_limit

module _ (out_limit err_limit : ℕ) where
  keep_frame-IsBounded :
      (f : ControlFrame) (c : Collected)
      → IsBounded out_limit err_limit c
      → IsBounded out_limit err_limit (keep_frame out_limit err_limit f c)
  unfolding keep_frame
  keep_frame-IsBounded f c b =
      let e = append_frame_data-bound c.stderr f.data_bytes err_limit b.err_within in
      let o = append_frame_data-bound c.stdout f.data_bytes out_limit b.out_within in
      elim (Bool-cases f.failed) [
        | inl q ↦ rw (keep_frame, q) (record { out_within = b.out_within; err_within = e })
        | inr q ↦ rw (keep_frame, q) (record { out_within = o; err_within = b.err_within })
      ]

  foreign_frame-IsBounded :
      (startup : Bool) (f : ControlFrame) (c : Collected)
      → IsBounded out_limit err_limit c
      → IsBounded out_limit err_limit (foreign_frame out_limit err_limit startup f c)
  unfolding foreign_frame
  foreign_frame-IsBounded startup f c b =
      elim (Bool-cases (is_empty f.data_bytes || not f.failed)) [
        | inl q ↦ rw (foreign_frame, q) b
        | inr q ↦ elim (Bool-cases (not startup)) [
          | inl n ↦
              rw (foreign_frame, q, n)
                (record { out_within = b.out_within; err_within = b.err_within })
          | inr n ↦ rw (foreign_frame, q, n) (keep_frame-IsBounded f c b)
        ]
      ]

  handle_collect_frame-IsBounded :
      (startup : Bool) (f : ControlFrame) (c : Collected)
      → IsBounded out_limit err_limit c
      → IsBounded out_limit err_limit (handle_collect_frame out_limit err_limit startup f c)
  unfolding handle_collect_frame
  handle_collect_frame-IsBounded startup f c b =
      elim (Bool-cases (f.id.flags == 0 && not (library_output f))) [
        | inl q ↦ rw (handle_collect_frame, q) (foreign_frame-IsBounded startup f c b)
        | inr q ↦ rw (handle_collect_frame, q) (keep_frame-IsBounded f c b)
      ]

  -- What a request collects is within the limits of its outputs, whatever frames arrive, if what it
  -- starts with is.
  pub collect_request-IsBounded :
      (nonce : Bytes) (startup : Bool) (frames : List ControlFrame) (c d : Collected)
      (rest : List ControlFrame)
      → IsBounded out_limit err_limit c
      → collect_request out_limit err_limit nonce startup frames c ≡ some (d, rest)
      → IsBounded out_limit err_limit d
  unfolding collect_request
  collect_request-IsBounded nonce startup [] c d rest b h = absurd (ground (arith, h))
  collect_request-IsBounded nonce startup (f ∷ frames) c d rest b h =
      elim (Bool-cases (is_last nonce f)) [
        | inl q ↦
            subst (IsBounded out_limit err_limit) (same_end (rw (collect_request, q) at h)).0 b
        | inr q ↦
            collect_request-IsBounded nonce startup frames _ d rest
              (handle_collect_frame-IsBounded startup f c b) (rw (collect_request, q) at h)
      ]

-- A frame whose data is output: it has not failed, and has a flag or the library has printed it.
unfoldable pub is_shown : ControlFrame → Bool
is_shown f = not f.failed && not (f.id.flags == 0 && not (library_output f))

unfoldable pub shown_data : ControlFrame → Bytes
shown_data f = if is_shown f then f.data_bytes else []

unfoldable pub output_of : List ControlFrame → Bytes
output_of [] = []
output_of (f ∷ frames) = shown_data f ++ output_of frames

append-eq-nil : {A : Type 0} (xs ys : List A) → xs ++ ys ≡ [] → (xs ≡ []) × (ys ≡ [])
append-eq-nil [] ys h = (refl, h)
append-eq-nil (x ∷ xs) ys h = absurd (cc (h))

limit_error-nil : (b : Bool) → limit_error b ≡ [] → b ≡ true
unfolding limit_error
limit_error-nil true h = refl
limit_error-nil false h = absurd (cc (h))

append_frame_data-whole :
    (dst s : Bytes) (limit : ℕ)
    → (append_frame_data dst s limit).1 ≡ true
    → (append_frame_data dst s limit).0 ≡ dst ++ s
unfolding append_frame_data
append_frame_data-whole dst s limit h = ground (arith, h)

shown_foreign :
    (f : ControlFrame) → (f.id.flags == 0 && not (library_output f)) ≡ true → shown_data f ≡ []
unfolding shown_data is_shown
shown_foreign f q = ground (arith, q)

shown_kept :
    (f : ControlFrame)
    → (f.id.flags == 0 && not (library_output f)) ≡ false
    → f.failed ≡ false
    → shown_data f ≡ f.data_bytes
unfolding shown_data is_shown
shown_kept f q e = ground (arith, q, e)

-- What a frame adds if no failure is noted.
record Adds (c d : Collected) (more : Bytes) : Type 0 where
  no_failure : c.failure ≡ []
  same_stderr : d.stderr ≡ c.stderr
  grown : d.stdout ≡ c.stdout ++ more

module _ (out_limit err_limit : ℕ) where
  keep_frame-Adds :
      (f : ControlFrame) (c : Collected)
      → (keep_frame out_limit err_limit f c).failure ≡ []
      → (f.failed ≡ false) × Adds c (keep_frame out_limit err_limit f c) f.data_bytes
  unfolding keep_frame
  keep_frame-Adds f c h = elim (Bool-cases f.failed) [
    | inl q ↦
        let e = append_frame_data c.stderr f.data_bytes err_limit in
        let a =
          append-eq-nil c.failure
            (limit_error e.1 ++ (err_control_command_failed ∷ classify_stderr f.data_bytes))
            (rw q at h) in
        let b =
          append-eq-nil (limit_error e.1)
            (err_control_command_failed ∷ classify_stderr f.data_bytes) a.1 in
        absurd (cc (b.1))
    | inr q ↦
        let o = append_frame_data c.stdout f.data_bytes out_limit in
        let clean = append-eq-nil c.failure (limit_error o.1) (rw q at h) in
        (
          q,
          rw (keep_frame, q)
              (record {
                no_failure = clean.0;
                same_stderr = refl;
                grown =
                    append_frame_data-whole c.stdout f.data_bytes out_limit
                      (limit_error-nil o.1 clean.1);
              }),
        )
  ]

  foreign_frame-Adds :
      (startup : Bool) (f : ControlFrame) (c : Collected)
      → (foreign_frame out_limit err_limit startup f c).failure ≡ []
      → Adds c (foreign_frame out_limit err_limit startup f c) []
  unfolding foreign_frame
  foreign_frame-Adds startup f c h = elim (Bool-cases (is_empty f.data_bytes || not f.failed)) [
    | inl q ↦
        rw (foreign_frame, q)
          (record {
            no_failure = rw (foreign_frame, q) at h;
            same_stderr = refl;
            grown = sym (append-nil c.stdout);
          })
    | inr q ↦ elim (Bool-cases (not startup)) [
      | inl n ↦
          let a =
            append-eq-nil c.failure (err_protocol ∷ []) (rw n at (rw (foreign_frame, q) at h)) in
          absurd (cc (a.1))
      | inr n ↦
          let a = keep_frame-Adds f c (rw n at (rw (foreign_frame, q) at h)) in
          absurd (ground (arith, q, a.0))
    ]
  ]

  handle_collect_frame-Adds :
      (startup : Bool) (f : ControlFrame) (c : Collected)
      → (handle_collect_frame out_limit err_limit startup f c).failure ≡ []
      → Adds c (handle_collect_frame out_limit err_limit startup f c) (shown_data f)
  unfolding handle_collect_frame
  handle_collect_frame-Adds startup f c h =
      elim (Bool-cases (f.id.flags == 0 && not (library_output f))) [
        | inl q ↦
            let none_shown : shown_data f ≡ [] = shown_foreign f q in
            rw (handle_collect_frame, q)
              (subst (Adds c (foreign_frame out_limit err_limit startup f c)) (sym none_shown)
                (foreign_frame-Adds startup f c (rw (handle_collect_frame, q) at h)))
        | inr q ↦
            let a = keep_frame-Adds f c (rw (handle_collect_frame, q) at h) in
            let all_shown : shown_data f ≡ f.data_bytes = shown_kept f q a.0 in
            rw (handle_collect_frame, q)
              (subst (Adds c (keep_frame out_limit err_limit f c)) (sym all_shown) a.1)
      ]

  -- A request that is answered without a failure has taken the frames up to the one with its nonce;
  -- what it adds to its standard output is the data of those that are output, whole and in order, and
  -- it adds nothing to its standard error.
  pub collect_request-output :
      (nonce : Bytes) (startup : Bool) (frames : List ControlFrame) (c d : Collected)
      (rest : List ControlFrame)
      → collect_request out_limit err_limit nonce startup frames c ≡ some (d, rest)
      → d.failure ≡ []
      → (before : List ControlFrame) × (last : ControlFrame) × (frames ≡ before ++ (last ∷ rest))
        × (is_last nonce last ≡ true)
        × (c.failure ≡ [])
        × (d.stderr ≡ c.stderr)
        × (d.stdout ≡ c.stdout ++ output_of before)
  unfolding collect_request output_of
  collect_request-output nonce startup [] c d rest h clean = absurd (ground (arith, h))
  collect_request-output nonce startup (f ∷ frames) c d rest h clean =
      elim (Bool-cases (is_last nonce f)) [
        | inl q ↦
            let (same, left) = same_end (rw (collect_request, q) at h) in
            (
              [],
              f,
              ap (λ r. f ∷ r) left,
              q,
              ap (λ x. x.failure) same ∙ clean,
              ap (λ x. x.stderr) (sym same),
              ap (λ x. x.stdout) (sym same) ∙ sym (append-nil c.stdout),
            )
        | inr q ↦
            let (before, last, e, l, f0, r, o) =
              collect_request-output nonce startup frames _ d rest (rw (collect_request, q) at h)
                clean in
            let a = handle_collect_frame-Adds startup f c f0 in
            (
              f ∷ before,
              last,
              ap (λ t. f ∷ t) e,
              l,
              a.no_failure,
              r ∙ a.same_stderr,
              o
                  ∙ ap (λ t. t ++ output_of before) a.grown
                  ∙ append_assoc c.stdout (shown_data f) (output_of before),
            )
      ]
