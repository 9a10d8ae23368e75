-- ===== src/Environment/Get.antt =====
-- `EnvironmentScope.GetWith` of tmux/environment.go on what tmux prints for one variable.
use gotmux.Prelude.{
  ℕ, ◌≡◌, refl, sym, ap, ◌∙◌, subst, Bool, true, false, none, some, [], ◌∷◌, ◌++◌, append_assoc,
  Bytes, cut_prefix, cut_prefix-append, ok, Bool-cases, inl, inr, arith, bytes_eq, bytes_eq_refl,
  bytes_eq_iff,
}
use gotmux.Prelude.Cut.{Lacks, trim_newline, trim_newline-append}
use gotmux.Environment.{refused_name_byte, stored_env_name, get_value, shown_value}
use gotmux.Environment.RoundTrip.{stored_name_bytes-Lacks, stored_env_name-bytes}

not-Lacks : (b : ℕ) (s rest : Bytes) → Lacks b (s ++ (b ∷ rest)) → ⊥
not-Lacks b [] rest h = ground (arith, h.0)
not-Lacks b (c ∷ s) rest h = not-Lacks b s rest h.1

-- A variable and its value are no removed variable.
set_is_not_removed :
    (name value : Bytes)
    → stored_env_name name ≡ true
    → bytes_eq (name ++ (61 ∷ value)) (45 ∷ name) ≡ false
unfolding refused_name_byte
set_is_not_removed name value h = elim (Bool-cases (bytes_eq (name ++ (61 ∷ value)) (45 ∷ name))) [
  | inl e ↦ absurd (
      not-Lacks 61 name value (
        subst (λ t. Lacks 61 t) (sym ((bytes_eq_iff (name ++ (61 ∷ value)) (45 ∷ name)).0 e))
          (refl, stored_name_bytes-Lacks 61 name refl (stored_env_name-bytes name h))))
  | inr e ↦ e
]

get_value-line :
    (hidden : Bool) (name s : Bytes)
    → get_value hidden name (s ++ (10 ∷ [])) ≡ shown_value hidden name s
unfolding get_value trim_newline
get_value-line hidden name [] = refl
get_value-line hidden name (c ∷ s) = ap (shown_value hidden name) (trim_newline-append (c ∷ s))

shown_value-removed :
    (hidden : Bool) (name : Bytes)
    → shown_value hidden name (45 ∷ name)
      ≡ ok (record { value = none; is_unset = true; hidden = hidden })
unfolding shown_value
shown_value-removed hidden name = rw (shown_value, bytes_eq_refl name) refl

shown_value-set :
    (hidden : Bool) (name value : Bytes)
    → stored_env_name name ≡ true
    → shown_value hidden name (name ++ (61 ∷ value))
      ≡ ok (record { value = some value; is_unset = false; hidden = hidden })
unfolding shown_value
shown_value-set hidden name value h =
    rw
      (
        shown_value,
        set_is_not_removed name value h,
        ap (cut_prefix (name ++ (61 ∷ []))) (sym (append_assoc name (61 ∷ []) value))
            ∙ cut_prefix-append (name ++ (61 ∷ [])) value,
      )
      refl

-- `GetWith` on what tmux prints for a variable: its name, an equals sign and its value, whatever
-- bytes the value has, line feeds among them, is that value; a minus sign and its name is a removed
-- variable; no output is a variable that is not there.
pub get_value-printed :
    (hidden : Bool) (name value : Bytes)
    → stored_env_name name ≡ true
    → (get_value hidden name (name ++ (61 ∷ value) ++ (10 ∷ []))
        ≡ ok (record { value = some value; is_unset = false; hidden = hidden }))
      × (get_value hidden name ((45 ∷ name) ++ (10 ∷ []))
          ≡ ok (record { value = none; is_unset = true; hidden = hidden }))
      × (get_value hidden name [] ≡ ok (record { value = none; is_unset = false; hidden = hidden }))
unfolding get_value
get_value-printed hidden name value h = (
  get_value-line hidden name (name ++ (61 ∷ value)) ∙ shown_value-set hidden name value h,
  get_value-line hidden name (45 ∷ name) ∙ shown_value-removed hidden name,
  refl,
)
