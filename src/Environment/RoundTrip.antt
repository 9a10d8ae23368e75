-- ===== src/Environment/RoundTrip.antt =====
-- What tmux prints for an environment is read back by tmux/environment.go.
use gotmux.Prelude.{
  ℕ, zero, suc, ◌≤◌, ◌≡◌, refl, sym, ap, ◌∙◌, Bool, true, false, none, some, List, [], ◌∷◌, ◌++◌,
  append_assoc, append-nil, Bytes, codes, All, length, length-append, cut_prefix, cut_prefix-append,
  ok, ◌==◌, ==_iff, if◌then◌else◌, Bool-cases, inl, inr, arith,
}
use gotmux.Prelude.Cut.{cut, cut-later, Lacks, cut-Lacks}
use gotmux.Environment.{
  EnvironmentEntry, refused_name_byte, stored_name_bytes, stored_env_name, unescape_loop,
  unescape_shell_value, export_tail, present_entry, unset_entry, parse_unset, parse_export,
  parse_present, parse_entry, parse_entries, parse_shell_environment,
}

-- A printed value: bytes that the shell would read are behind a backslash, the quotation mark and
-- the backslash among them.
unfoldable pub escape : (ℕ → Bool) → Bytes → Bytes
escape special [] = []
escape special (c ∷ s) = if special c then 92 ∷ c ∷ escape special s else c ∷ escape special s

abbrev pub Escapes : (ℕ → Bool) → Type 0
Escapes special = (special 34 ≡ true) × (special 92 ≡ true)

-- The entries that show-environment -s prints: a variable and its value, or a removed variable.
pub data Shown : Type 0 where
  shown_set : Bytes → Bytes → Shown
  shown_unset : Bytes → Shown

abbrev pub shown_name : Shown → Bytes
shown_name (shown_set n v) = n
shown_name (shown_unset n) = n

unfoldable pub shown_text : (ℕ → Bool) → Shown → Bytes
shown_text special (shown_set n v) =
    n ++ ((61 ∷ 34 ∷ []) ++ (escape special v ++ (34 ∷ export_tail n)))
shown_text special (shown_unset n) = codes "unset " ++ (n ++ (59 ∷ 10 ∷ []))

unfoldable pub shown_texts : (ℕ → Bool) → List Shown → Bytes
shown_texts special [] = []
shown_texts special (x ∷ xs) = shown_text special x ++ shown_texts special xs

abbrev pub shown_entry : Bool → Shown → EnvironmentEntry
shown_entry hidden (shown_set n v) = present_entry hidden n v
shown_entry hidden (shown_unset n) = unset_entry hidden n

abbrev pub shown_entries : Bool → List Shown → List EnvironmentEntry
shown_entries hidden [] = []
shown_entries hidden (x ∷ xs) = shown_entry hidden x ∷ shown_entries hidden xs

pub stored_name_bytes-Lacks :
    (b : ℕ) (name : Bytes)
    → refused_name_byte b ≡ true
    → stored_name_bytes name ≡ true
    → Lacks b name
unfolding stored_name_bytes refused_name_byte
stored_name_bytes-Lacks b [] r h = tt
stored_name_bytes-Lacks b (c ∷ name) r h =
    (ground arith, stored_name_bytes-Lacks b name r (ground arith))

pub stored_env_name-bytes :
    (name : Bytes) → stored_env_name name ≡ true → stored_name_bytes name ≡ true
unfolding stored_env_name
stored_env_name-bytes [] h = cc
stored_env_name-bytes (c ∷ name) h = h

-- Both separators are found behind the name.
cut-equals :
    (name rest : Bytes)
    → stored_env_name name ≡ true
    → cut (61 ∷ 34 ∷ []) (name ++ ((61 ∷ 34 ∷ []) ++ rest)) ≡ some (name, rest)
unfolding refused_name_byte
cut-equals name rest h =
    cut-Lacks 61 (34 ∷ []) name rest
      (stored_name_bytes-Lacks 61 name refl (stored_env_name-bytes name h))

cut-newline :
    (name rest : Bytes)
    → stored_name_bytes name ≡ true
    → cut (59 ∷ 10 ∷ []) (name ++ (59 ∷ 10 ∷ rest)) ≡ some (name, rest)
unfolding cut stored_name_bytes refused_name_byte
cut-newline [] rest h = refl
cut-newline (c ∷ []) rest h = cut-later (59 ∷ 10 ∷ []) c (59 ∷ 10 ∷ rest) (ground arith) refl
cut-newline (c ∷ d ∷ name) rest h =
    cut-later (59 ∷ 10 ∷ []) c (d ∷ (name ++ (59 ∷ 10 ∷ rest))) (ground arith)
      (cut-newline (d ∷ name) rest (ground arith))

unescape_loop-plain :
    (b : Bytes) (c : ℕ) (s : Bytes)
    → c == 34 ≡ false
    → c == 92 ≡ false
    → unescape_loop b (c ∷ s) ≡ unescape_loop (b ++ c ∷ []) s
unfolding unescape_loop
unescape_loop-plain b c [] e f = rw e refl
unescape_loop-plain b c (d ∷ s) e f = rw (e, f) refl

unescape_loop-escaped :
    (b : Bytes) (c : ℕ) (s : Bytes) → unescape_loop b (92 ∷ c ∷ s) ≡ unescape_loop (b ++ c ∷ []) s
unfolding unescape_loop
unescape_loop-escaped b c s = refl

unescape_loop-end : (b s : Bytes) → unescape_loop b (34 ∷ s) ≡ ok (b, s)
unfolding unescape_loop
unescape_loop-end b [] = refl
unescape_loop-end b (d ∷ s) = refl

not-special : (special : ℕ → Bool) (c k : ℕ) → special k ≡ true → special c ≡ false → c == k ≡ false
not-special special c k h e = elim (Bool-cases (c == k)) [
  | inl q ↦ cc (ap special ((==_iff c k).0 q), h, e)
  | inr q ↦ q
]

unescape_loop-escape :
    (special : ℕ → Bool) (b v rest : Bytes)
    → Escapes special
    → unescape_loop b (escape special v ++ (34 ∷ rest)) ≡ ok (b ++ v, rest)
unfolding escape
unescape_loop-escape special b [] rest h =
    unescape_loop-end b rest ∙ ap (λ t. ok (t, rest)) (sym (append-nil b))
unescape_loop-escape special b (c ∷ v) rest h =
    let more = escape special v ++ (34 ∷ rest) in
    let k =
      unescape_loop-escape special (b ++ c ∷ []) v rest h
      ∙ ap (λ t. ok (t, rest)) (append_assoc b (c ∷ []) v) in
    elim (Bool-cases (special c)) [
      | inl e ↦ rw (escape, e) (unescape_loop-escaped b c more ∙ k)
      | inr e ↦
          rw (escape, e)
            (unescape_loop-plain b c more (not-special special c 34 h.0 e)
                (not-special special c 92 h.1 e)
              ∙ k)
    ]

parse_unset-shown :
    (hidden : Bool) (name rest : Bytes)
    → stored_env_name name ≡ true
    → parse_unset hidden (name ++ (59 ∷ 10 ∷ rest)) ≡ ok (unset_entry hidden name, rest)
unfolding parse_unset
parse_unset-shown hidden name rest h =
    rw (parse_unset, cut-newline name rest (stored_env_name-bytes name h), h) refl

parse_present-shown :
    (special : ℕ → Bool) (hidden : Bool) (name value rest : Bytes)
    → Escapes special
    → stored_env_name name ≡ true
    → parse_present hidden
        (name ++ ((61 ∷ 34 ∷ []) ++ (escape special value ++ (34 ∷ (export_tail name ++ rest)))))
      ≡ ok (present_entry hidden name value, rest)
unfolding parse_present unescape_shell_value parse_export
parse_present-shown special hidden name value rest k h =
    rw
      (
        parse_present,
        cut-equals name (escape special value ++ (34 ∷ (export_tail name ++ rest))) h,
        h,
        unescape_loop-escape special [] value (export_tail name ++ rest) k,
        parse_export,
        cut_prefix-append (export_tail name) rest,
      )
      refl

-- A word and a blank do not begin a name with an equals sign.
no_word :
    (word name rest : Bytes)
    → Lacks 61 word
    → Lacks 32 name
    → cut_prefix (word ++ (32 ∷ [])) (name ++ (61 ∷ rest)) ≡ none
no_word [] [] rest w h = refl
no_word [] (c ∷ name) rest w h = ground (arith, h.0)
no_word (d ∷ word) [] rest w h = ground (arith, w.0)
no_word (d ∷ word) (c ∷ name) rest w h = ground (arith, no_word word name rest w.1 h.1)

shown_set-append :
    (special : ℕ → Bool) (name value rest : Bytes)
    → shown_text special (shown_set name value) ++ rest
      ≡ name ++ (61 ∷ 34 ∷ (escape special value ++ (34 ∷ (export_tail name ++ rest))))
unfolding shown_text
shown_set-append special name value rest =
    append_assoc name (61 ∷ 34 ∷ (escape special value ++ (34 ∷ export_tail name))) rest
    ∙ ap (λ t. name ++ (61 ∷ 34 ∷ t))
        (append_assoc (escape special value) (34 ∷ export_tail name) rest)

parse_entry-shown :
    (special : ℕ → Bool) (hidden : Bool) (x : Shown) (rest : Bytes)
    → Escapes special
    → stored_env_name (shown_name x) ≡ true
    → parse_entry hidden (shown_text special x ++ rest) ≡ ok (shown_entry hidden x, rest)
unfolding parse_entry shown_text refused_name_byte
parse_entry-shown special hidden (shown_unset name) rest k h =
    ap (parse_unset hidden) (append_assoc name (59 ∷ 10 ∷ []) rest)
    ∙ parse_unset-shown hidden name rest h
parse_entry-shown special hidden (shown_set name value) rest k h =
    let more = escape special value ++ (34 ∷ (export_tail name ++ rest)) in
    ap (parse_entry hidden) (shown_set-append special name value rest)
    ∙ rw
        (
          parse_entry,
          no_word (codes "unset") name (34 ∷ more) (refl, (refl, (refl, (refl, (refl, tt)))))
              (stored_name_bytes-Lacks 32 name refl (stored_env_name-bytes name h)),
        )
        (parse_present-shown special hidden name value rest k h)

shown_text-cons :
    (special : ℕ → Bool) (x : Shown)
    → stored_env_name (shown_name x) ≡ true
    → (c : ℕ) × (t : Bytes) × (shown_text special x ≡ c ∷ t)
unfolding shown_text stored_env_name
shown_text-cons special (shown_unset name) h = (117, _, refl)
shown_text-cons special (shown_set [] value) h = cc
shown_text-cons special (shown_set (c ∷ name) value) h = (c, _, refl)

pub parse_entries-nil : (fuel : ℕ) (hidden : Bool) → parse_entries fuel hidden [] ≡ some (ok [])
unfolding parse_entries
parse_entries-nil zero hidden = refl
parse_entries-nil (suc fuel) hidden = refl

pub parse_entries-step :
    (fuel : ℕ) (hidden : Bool) (c : ℕ) (t tail : Bytes) (x : EnvironmentEntry)
    (xs : List EnvironmentEntry)
    → parse_entry hidden (c ∷ t) ≡ ok (x, tail)
    → parse_entries fuel hidden tail ≡ some (ok xs)
    → parse_entries (suc fuel) hidden (c ∷ t) ≡ some (ok (x ∷ xs))
unfolding parse_entries
parse_entries-step fuel hidden c t tail x xs e f = rw (parse_entries, e, f) refl

abbrev pub AllStored : List Shown → Type 0
AllStored xs = All (λ x. stored_env_name (shown_name x) ≡ true) xs

parse_entries-shown :
    (special : ℕ → Bool) (hidden : Bool) (xs : List Shown) (fuel : ℕ)
    → Escapes special
    → AllStored xs
    → length xs ≤ fuel
    → parse_entries fuel hidden (shown_texts special xs) ≡ some (ok (shown_entries hidden xs))
unfolding shown_texts
parse_entries-shown special hidden [] fuel k h f = parse_entries-nil fuel hidden
parse_entries-shown special hidden (x ∷ xs) zero k h f = elim f [ ]
parse_entries-shown special hidden (x ∷ xs) (suc fuel) k h f =
    let (c, t, q) = shown_text-cons special x h.0 in
    let more = shown_texts special xs in
    ap (λ y. parse_entries (suc fuel) hidden (y ++ more)) q
    ∙ parse_entries-step fuel hidden c (t ++ more) more (shown_entry hidden x)
        (shown_entries hidden xs)
        (ap (λ y. parse_entry hidden (y ++ more)) (sym q)
          ∙ parse_entry-shown special hidden x more k h.0)
        (parse_entries-shown special hidden xs fuel k h.1 (omega arith))

shown_texts-length :
    (special : ℕ → Bool) (xs : List Shown)
    → AllStored xs
    → length xs ≤ length (shown_texts special xs)
unfolding shown_texts
shown_texts-length special [] h = omega arith
shown_texts-length special (x ∷ xs) h =
    let k = shown_text-cons special x h.0 in
    omega (
      arith,
      ap length k.2,
      length-append (shown_text special x) (shown_texts special xs),
      shown_texts-length special xs h.1,
    )

-- The text in which show-environment -s prints variables and removed variables, with names that
-- tmux stores and any values, is read back as these entries, whichever bytes tmux escapes besides
-- the quotation mark and the backslash.
pub parse_shell_environment-shown :
    (special : ℕ → Bool) (hidden : Bool) (xs : List Shown)
    → Escapes special
    → AllStored xs
    → parse_shell_environment (shown_texts special xs) hidden ≡ some (ok (shown_entries hidden xs))
unfolding parse_shell_environment
parse_shell_environment-shown special hidden xs k h =
    parse_entries-shown special hidden xs (length (shown_texts special xs)) k h
      (shown_texts-length special xs h)
