-- ===== src/Environment/Tests.antt =====
-- The environment readers of tmux/environment.go on concrete texts.
use gotmux.Prelude.{
  ℕ, ◌≡◌, refl, Bool, true, false, ◌||◌, none, some, List, [], ◌∷◌, ◌++◌, Bytes, codes,
  err_protocol, Result, ok, err, ◌==◌,
}
use gotmux.Prelude.Cut.{cut}
use gotmux.Environment.{
  EnvironmentEntry, parse_shell_environment, parse_entries, parse_entry, parse_unset, parse_present,
  parse_export, export_tail, unescape_shell_value, unescape_loop, stored_env_name,
  stored_name_bytes, refused_name_byte, get_value,
}
use gotmux.Environment.RoundTrip.{
  Shown, shown_set, shown_unset, shown_texts, shown_entries, parse_shell_environment-shown,
}
use gotmux.Environment.Sound.{EntryTexts, parse_shell_environment_sound}
use gotmux.Environment.Get.{get_value-printed}

-- What tmux escapes: $ ` " \
abbrev special : ℕ → Bool
special c = c == 36 || c == 96 || c == 34 || c == 92

abbrev shown : List Shown
shown =
    shown_set (codes "A") (34 ∷ 92 ∷ 10 ∷ codes "x=;")
    ∷ shown_unset (codes "B;")
    ∷ shown_set (codes "F%%") []
    ∷ []

parse_shell_environment-shown_example :
    parse_shell_environment (shown_texts special shown) true ≡ some (ok (shown_entries true shown))
unfolding refused_name_byte stored_env_name stored_name_bytes
parse_shell_environment-shown_example =
    parse_shell_environment-shown special true shown (refl, refl) (refl, (refl, (refl, tt)))

-- An entry, and a name that is not exported.
abbrev broken : Bytes
broken = codes "unset X;" ++ (10 ∷ codes "A=") ++ (34 ∷ 34 ∷ codes "; export B;")

parse_shell_environment_sound_example :
    (r : Result (List EnvironmentEntry)) × (parse_shell_environment broken false ≡ some r)
    × ((xs : List EnvironmentEntry) → r ≡ ok xs → EntryTexts false xs broken)
parse_shell_environment_sound_example = parse_shell_environment_sound broken false

broken_refused : parse_shell_environment broken false ≡ some (err err_protocol)
unfolding parse_shell_environment parse_entries parse_entry parse_unset cut stored_env_name
    stored_name_bytes refused_name_byte parse_present unescape_shell_value unescape_loop
    parse_export export_tail
broken_refused = refl

get_value-printed_example :
    (get_value true (codes "A") (codes "A" ++ (61 ∷ (10 ∷ codes "b")) ++ (10 ∷ []))
      ≡ ok (record { value = some (10 ∷ codes "b"); is_unset = false; hidden = true }))
    × (get_value true (codes "A") ((45 ∷ codes "A") ++ (10 ∷ []))
        ≡ ok (record { value = none; is_unset = true; hidden = true }))
    × (get_value true (codes "A") []
        ≡ ok (record { value = none; is_unset = false; hidden = true }))
unfolding stored_env_name stored_name_bytes refused_name_byte
get_value-printed_example = get_value-printed true (codes "A") (10 ∷ codes "b") refl
