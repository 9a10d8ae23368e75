-- ===== src/Environment/Sound.antt =====
-- What tmux/environment.go accepts.
use gotmux.Prelude.{
  ℕ, zero, suc, ◌≤◌, ◌<◌, ◌≡◌, refl, sym, ap, ◌∙◌, Bool, true, false, some, List, [], ◌∷◌, ◌++◌,
  append_assoc, append-nil, subst, ==_iff, Bytes, codes, length, length-append, cut_prefix,
  cut_prefix-eq-some, Error, Result, ok, err, ◌==◌, Bool-cases, Option-cases, Result-cases, ◌⊎◌,
  inl, inr, arith,
}
use gotmux.Prelude.Cut.{cut, cut-eq-some}
use gotmux.Environment.{
  EnvironmentEntry, stored_env_name, unescape_loop, unescape_shell_value, export_tail,
  present_entry, unset_entry, parse_unset, parse_export, parse_present, parse_entry, parse_entries,
  parse_shell_environment,
}
use gotmux.Environment.RoundTrip.{parse_entries-step, parse_entries-nil}

-- `Quotes s v`: dropping each backslash of `s` and keeping the byte behind it leaves `v`, and no
-- other byte of `s` is a quotation mark.
pub data Quotes : Bytes → Bytes → Type 0 where
  quotes_nil : Quotes [] []
  quotes_plain :
      (c : ℕ) {s v : Bytes}
      → c == 34 ≡ false
      → c == 92 ≡ false
      → Quotes s v
      → Quotes (c ∷ s) (c ∷ v)
  quotes_escaped : (c : ℕ) {s v : Bytes} → Quotes s v → Quotes (92 ∷ c ∷ s) (c ∷ v)

-- The text that an entry was read from.
abbrev pub UnsetText : Bool → EnvironmentEntry → Bytes → Type 0
UnsetText hidden x t =
    (name : Bytes) × (stored_env_name name ≡ true)
    × (x ≡ unset_entry hidden name)
    × (t ≡ codes "unset " ++ (name ++ (59 ∷ 10 ∷ [])))

abbrev pub SetText : Bool → EnvironmentEntry → Bytes → Type 0
SetText hidden x t =
    (name : Bytes) × (value : Bytes) × (quoted : Bytes) × (stored_env_name name ≡ true)
    × (x ≡ present_entry hidden name value)
    × Quotes quoted value
    × (t ≡ name ++ (61 ∷ 34 ∷ (quoted ++ (34 ∷ export_tail name))))

abbrev pub EntryText : Bool → EnvironmentEntry → Bytes → Type 0
EntryText hidden x t = UnsetText hidden x t ⊎ SetText hidden x t

abbrev pub EntryTexts : Bool → List EnvironmentEntry → Bytes → Type 0
EntryTexts hidden [] text = text ≡ []
EntryTexts hidden (x ∷ xs) text =
    (t : Bytes) × (u : Bytes) × EntryText hidden x t × EntryTexts hidden xs u × (text ≡ t ++ u)

abbrev Unescaped : Bytes → Bytes → Bytes → Bytes → Type 0
Unescaped b s w rest =
    (quoted : Bytes) × (v : Bytes) × (w ≡ b ++ v) × Quotes quoted v × (s ≡ quoted ++ (34 ∷ rest))

unescape_loop_sound : (b s w rest : Bytes) → unescape_loop b s ≡ ok (w, rest) → Unescaped b s w rest
unfolding unescape_loop
unescape_loop_sound b [] w rest e = cc
unescape_loop_sound b (c ∷ []) w rest e = elim (Bool-cases (c == 34)) [
  | inl q ↦ ([], [], ground (arith, append-nil b), quotes_nil, ground arith)
  | inr q ↦ cc (rw q at e)
]
unescape_loop_sound b (c ∷ d ∷ s) w rest e = elim (Bool-cases (c == 34)) [
  | inl q ↦ ([], [], ground (arith, append-nil b), quotes_nil, ground arith)
  | inr q ↦ elim (Bool-cases (c == 92)) [
    | inl r ↦
        let k = unescape_loop_sound (b ++ d ∷ []) s w rest (rw (unescape_loop, q, r) at e) in
        (
          c ∷ d ∷ k.0,
          d ∷ k.1,
          k.2 ∙ append_assoc b (d ∷ []) k.1,
          subst (λ x. Quotes (x ∷ d ∷ k.0) (d ∷ k.1)) (sym ((==_iff c 92).0 r))
              (quotes_escaped d k.3),
          ap (λ x. c ∷ d ∷ x) k.4,
        )
    | inr r ↦
        let k = unescape_loop_sound (b ++ c ∷ []) (d ∷ s) w rest (rw (unescape_loop, q, r) at e) in
        (
          c ∷ k.0,
          c ∷ k.1,
          k.2 ∙ append_assoc b (c ∷ []) k.1,
          quotes_plain c q r k.3,
          ap (λ x. c ∷ x) k.4,
        )
  ]
]

parse_unset_sound :
    (hidden : Bool) (after : Bytes) {x : EnvironmentEntry} {tail : Bytes}
    → parse_unset hidden after ≡ ok (x, tail)
    → (name : Bytes) × (stored_env_name name ≡ true)
      × (x ≡ unset_entry hidden name)
      × (after ≡ name ++ ((59 ∷ 10 ∷ []) ++ tail))
unfolding parse_unset
parse_unset_sound hidden after e = elim (Option-cases (cut (59 ∷ 10 ∷ []) after)) [
  | inl q ↦ cc (rw (parse_unset, q) at e)
  | inr (p, q) ↦ elim (Bool-cases (stored_env_name p.0)) [
    | inl h ↦
        let k = cut-eq-some (59 ∷ 10 ∷ []) after p.0 p.1 q in
        let e' = rw (parse_unset, q, h) at e in
        (p.0, h, ground (arith, e'), k ∙ ap (λ t. p.0 ++ (59 ∷ 10 ∷ t)) (ground (arith, e')))
    | inr h ↦ cc (rw (parse_unset, q, h) at e)
  ]
]

parse_export_sound :
    (hidden : Bool) (name value tail : Bytes) {x : EnvironmentEntry} {rest : Bytes}
    → parse_export hidden name (value, tail) ≡ ok (x, rest)
    → (x ≡ present_entry hidden name value) × (tail ≡ export_tail name ++ rest)
unfolding parse_export
parse_export_sound hidden name value tail {x} {rest} e =
    elim (Option-cases (cut_prefix (export_tail name) tail)) [
      | inl q ↦ cc (rw (parse_export, q) at e)
      | inr (r, q) ↦
          let e' = rw (parse_export, q) at e in
          (
            ground (arith, e'),
            cut_prefix-eq-some (export_tail name) tail rest (q ∙ ap some (ground (arith, e'))),
          )
    ]

parse_present_sound :
    (hidden : Bool) (text : Bytes) {x : EnvironmentEntry} {tail : Bytes}
    → parse_present hidden text ≡ ok (x, tail)
    → (name : Bytes) × (value : Bytes) × (quoted : Bytes) × (stored_env_name name ≡ true)
      × (x ≡ present_entry hidden name value)
      × Quotes quoted value
      × (text ≡ name ++ (61 ∷ 34 ∷ (quoted ++ (34 ∷ (export_tail name ++ tail)))))
unfolding parse_present unescape_shell_value
parse_present_sound hidden text {x} {tail} e = elim (Option-cases (cut (61 ∷ 34 ∷ []) text)) [
  | inl q ↦ cc (rw (parse_present, q) at e)
  | inr (p, q) ↦ elim (Bool-cases (stored_env_name p.0)) [
    | inr h ↦ cc (rw (parse_present, q, h) at e)
    | inl h ↦ elim (Result-cases (unescape_loop [] p.1)) [
      | inr (f, r) ↦ cc (rw (parse_present, q, h, r) at e)
      | inl (v, r) ↦
          let u = unescape_loop_sound [] p.1 v.0 v.1 r in
          let x' =
            parse_export_sound hidden p.0 v.0 v.1 {x = x} {rest = tail}
              (rw (parse_present, q, h, r) at e) in
          (
            p.0,
            v.0,
            u.0,
            h,
            x'.0,
            subst (λ y. Quotes u.0 y) (sym u.2) u.3,
            cut-eq-some (61 ∷ 34 ∷ []) text p.0 p.1 q
                ∙ ap (λ y. p.0 ++ (61 ∷ 34 ∷ y)) (u.4 ∙ ap (λ y. u.0 ++ (34 ∷ y)) x'.1),
          )
    ]
  ]
]

-- The text that an accepted entry was read from is followed by the rest.
parse_entry_sound :
    (hidden : Bool) (text : Bytes) {x : EnvironmentEntry} {tail : Bytes}
    → parse_entry hidden text ≡ ok (x, tail)
    → (t : Bytes) × EntryText hidden x t × (text ≡ t ++ tail)
unfolding parse_entry
parse_entry_sound hidden text {x} {tail} e =
    elim (Option-cases (cut_prefix (codes "unset ") text)) [
      | inr (after, q) ↦
          let k = parse_unset_sound hidden after {x = x} {tail = tail} (rw (parse_entry, q) at e) in
          (
            codes "unset " ++ (k.0 ++ (59 ∷ 10 ∷ [])),
            inl (k.0, k.1, k.2, refl),
            cut_prefix-eq-some (codes "unset ") text after q
                ∙ ap (λ y. codes "unset " ++ y) (k.3 ∙ sym (append_assoc k.0 (59 ∷ 10 ∷ []) tail)),
          )
      | inl q ↦
          let k =
            parse_present_sound hidden text {x = x} {tail = tail} (rw (parse_entry, q) at e) in
          let t = 34 ∷ export_tail k.0 in
          (
            k.0 ++ (61 ∷ 34 ∷ (k.2 ++ t)),
            inr (k.0, k.1, k.2, k.3, k.4, k.5, refl),
            k.6
                ∙ ap (λ y. k.0 ++ (61 ∷ 34 ∷ y)) (sym (append_assoc k.2 t tail))
                ∙ sym (append_assoc k.0 (61 ∷ 34 ∷ (k.2 ++ t)) tail),
          )
    ]

EntryText-length :
    (hidden : Bool) (x : EnvironmentEntry) (t : Bytes) → EntryText hidden x t → 0 < length t
EntryText-length hidden x t (inl (name, h, e, q)) = omega (arith, ap length q)
EntryText-length hidden x t (inr (name, value, quoted, h, e, u, q)) =
    omega (arith, ap length q, length-append name (61 ∷ 34 ∷ (quoted ++ (34 ∷ export_tail name))))

-- What the loop returns, if its fuel is the length of its text.
abbrev Ends : ℕ → Bool → Bytes → Type 0
Ends fuel hidden text =
    (r : Result (List EnvironmentEntry)) × (parse_entries fuel hidden text ≡ some r)
    × ((xs : List EnvironmentEntry) → r ≡ ok xs → EntryTexts hidden xs text)

parse_entries-failed :
    (fuel : ℕ) (hidden : Bool) (c : ℕ) (text : Bytes) (f : Error)
    → parse_entry hidden (c ∷ text) ≡ err f
    → parse_entries (suc fuel) hidden (c ∷ text) ≡ some (err f)
unfolding parse_entries
parse_entries-failed fuel hidden c text f q = rw (parse_entries, q) refl

parse_entries-later :
    (fuel : ℕ) (hidden : Bool) (c : ℕ) (text tail : Bytes) (x : EnvironmentEntry) (f : Error)
    → parse_entry hidden (c ∷ text) ≡ ok (x, tail)
    → parse_entries fuel hidden tail ≡ some (err f)
    → parse_entries (suc fuel) hidden (c ∷ text) ≡ some (err f)
unfolding parse_entries
parse_entries-later fuel hidden c text tail x f q r = rw (parse_entries, q, r) refl

no_entries :
    {f : Error} (hidden : Bool) (text : Bytes) (xs : List EnvironmentEntry)
    → err f ≡ ok xs
    → EntryTexts hidden xs text
no_entries hidden text xs e = cc

same_entries :
    (hidden : Bool) (text : Bytes) (ys : List EnvironmentEntry)
    → EntryTexts hidden ys text
    → (xs : List EnvironmentEntry) → ok ys ≡ ok xs
    → EntryTexts hidden xs text
same_entries hidden text ys h xs e =
    subst (λ zs. EntryTexts hidden zs text)
      (ap (λ r. elim r as (λ _. List EnvironmentEntry) [ ok zs ↦ zs | err _ ↦ [] ]) e) h

ended :
    (fuel : ℕ) (hidden : Bool) (c : ℕ) (text tail : Bytes) (x : EnvironmentEntry)
    → parse_entry hidden (c ∷ text) ≡ ok (x, tail)
    → (t : Bytes) → EntryText hidden x t
    → c ∷ text ≡ t ++ tail
    → Ends fuel hidden tail
    → Ends (suc fuel) hidden (c ∷ text)
ended fuel hidden c text tail x q t v e (err f, r, k) =
    (err f, parse_entries-later fuel hidden c text tail x f q r, no_entries hidden (c ∷ text))
ended fuel hidden c text tail x q t v e (ok ys, r, k) = (
  ok (x ∷ ys),
  parse_entries-step fuel hidden c text tail x ys q r,
  same_entries hidden (c ∷ text) (x ∷ ys) (t, tail, v, k ys refl, e),
)

parse_entries-Ends :
    (fuel : ℕ) (hidden : Bool) (text : Bytes) → length text ≤ fuel → Ends fuel hidden text
parse_entries-Ends fuel hidden [] h =
    (ok [], parse_entries-nil fuel hidden, same_entries hidden [] [] refl)
parse_entries-Ends zero hidden (c ∷ text) h = absurd (omega arith)
parse_entries-Ends (suc fuel) hidden (c ∷ text) h =
    elim (Result-cases (parse_entry hidden (c ∷ text))) [
      | inr (f, q) ↦
          (err f, parse_entries-failed fuel hidden c text f q, no_entries hidden (c ∷ text))
      | inl (p, q) ↦
          let k = parse_entry_sound hidden (c ∷ text) {x = p.0} {tail = p.1} q in
          ended fuel hidden c text p.1 p.0 q k.0 k.1 k.2 (
            parse_entries-Ends fuel hidden p.1 (
              omega
                (arith, ap length k.2, length-append k.0 p.1, EntryText-length hidden p.0 k.0 k.1)))
    ]

-- `parseShellEnvironment` always ends. The entries that it returns are what the whole text says, one
-- after another: each is "unset", a name and a semicolon, or a name, a quoted value and the export
-- of the same name, every name is one that tmux stores, and a value is its quoted text without the
-- backslashes that escape a byte.
pub parse_shell_environment_sound :
    (text : Bytes) (hidden : Bool)
    → (r : Result (List EnvironmentEntry)) × (parse_shell_environment text hidden ≡ some r)
      × ((xs : List EnvironmentEntry) → r ≡ ok xs → EntryTexts hidden xs text)
unfolding parse_shell_environment
parse_shell_environment_sound text hidden =
    parse_entries-Ends (length text) hidden text (omega arith)
