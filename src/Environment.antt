-- ===== src/Environment.antt =====
-- tmux/environment.go: the environment of a scope. The handle of a scope is the base of its
-- arguments, and what a run of tmux answers is an argument.
mod RoundTrip
mod Sound
mod Get
mod Tests
use gotmux.Prelude.{
  ℕ, zero, suc, Bool, true, false, not, ◌&&◌, ◌||◌, Option, none, some, List, [], ◌∷◌, ◌++◌, Bytes,
  codes, bytes_eq, length, cut_prefix, Error, err_invalid, err_protocol, Result, ok, err, ◌>>=◌,
  ltb, leb, ◌==◌, if◌then◌else◌,
}
use gotmux.Prelude.Cut.{cut, trim_newline}
use gotmux.Wire.Argv.{valid_string}

-- `EnvironmentValue`: an unavailable value is `none`.
pub record EnvironmentValue : Type 0 where
  pub value : Option Bytes
  pub is_unset : Bool
  pub hidden : Bool

pub record EnvironmentEntry : Type 0 where
  pub name : Bytes
  pub value : EnvironmentValue

-- The scope of a target: the global one, or that of a session.
pub data EnvironmentScope : Type 0 where
  global_scope : EnvironmentScope
  session_scope : Bytes → EnvironmentScope

unfoldable pub base : EnvironmentScope → List Bytes
base global_scope = codes "-g" ∷ []
base (session_scope id) = codes "-t" ∷ id ∷ []

-- A byte that `storedEnvName` refuses.
unfoldable pub refused_name_byte : ℕ → Bool
refused_name_byte c = leb c 32 || c == 61 || c == 127

unfoldable pub stored_name_bytes : Bytes → Bool
stored_name_bytes [] = true
stored_name_bytes (c ∷ name) = not (refused_name_byte c) && stored_name_bytes name

unfoldable pub stored_env_name : Bytes → Bool
stored_env_name [] = false
stored_env_name (c ∷ name) = stored_name_bytes (c ∷ name)

-- `unescapeShellValue`, after the bytes `b`.
unfoldable pub unescape_loop : Bytes → Bytes → Result (Bytes × Bytes)
unescape_loop b [] = err err_protocol
unescape_loop b (c ∷ []) = if c == 34 then ok (b, []) else err err_protocol
unescape_loop b (c ∷ d ∷ s) =
    let escaped = unescape_loop (b ++ d ∷ []) s in
    let plain = unescape_loop (b ++ c ∷ []) (d ∷ s) in
    if c == 34 then ok (b, d ∷ s) else if c == 92 then escaped else plain

unfoldable pub unescape_shell_value : Bytes → Result (Bytes × Bytes)
unescape_shell_value s = unescape_loop [] s

-- What follows the value of `name`.
unfoldable pub export_tail : Bytes → Bytes
export_tail name = codes "; export " ++ (name ++ (59 ∷ 10 ∷ []))

unfoldable pub present_entry : Bool → Bytes → Bytes → EnvironmentEntry
present_entry hidden name value = record {
  name = name;
  value = record { value = some value; is_unset = false; hidden = hidden };
}

unfoldable pub unset_entry : Bool → Bytes → EnvironmentEntry
unset_entry hidden name = record {
  name = name;
  value = record { value = none; is_unset = true; hidden = hidden };
}

-- The part of the loop's body after "unset ".
unfoldable pub parse_unset : Bool → Bytes → Result (EnvironmentEntry × Bytes)
parse_unset hidden after = elim (cut (59 ∷ 10 ∷ []) after) [
  | none ↦ err err_protocol
  | some (name, tail) ↦
      if stored_env_name name then ok (unset_entry hidden name, tail) else err err_protocol
]

unfoldable pub parse_export : Bool → Bytes → Bytes × Bytes → Result (EnvironmentEntry × Bytes)
parse_export hidden name (value, tail) = elim (cut_prefix (export_tail name) tail) [
  | none ↦ err err_protocol
  | some rest ↦ ok (present_entry hidden name value, rest)
]

unfoldable pub parse_present : Bool → Bytes → Result (EnvironmentEntry × Bytes)
parse_present hidden rest = elim (cut (61 ∷ 34 ∷ []) rest) [
  | none ↦ err err_protocol
  | some (name, after) ↦
      if stored_env_name name
      then unescape_shell_value after >>= parse_export hidden name
      else err err_protocol
]

-- The loop's body: the next entry, and the rest of the text.
unfoldable pub parse_entry : Bool → Bytes → Result (EnvironmentEntry × Bytes)
parse_entry hidden rest = elim (cut_prefix (codes "unset ") rest) [
  | some after ↦ parse_unset hidden after
  | none ↦ parse_present hidden rest
]

-- The loop of `parseShellEnvironment`; `none` means that the fuel has run out.
unfoldable pub parse_entries : ℕ → Bool → Bytes → Option (Result (List EnvironmentEntry))
parse_entries fuel hidden [] = some (ok [])
parse_entries zero hidden (c ∷ rest) = none
parse_entries (suc fuel) hidden (c ∷ rest) = elim (parse_entry hidden (c ∷ rest)) [
  | err e ↦ some (err e)
  | ok (entry, tail) ↦ elim (parse_entries fuel hidden tail) [
    | none ↦ none
    | some (err e) ↦ some (err e)
    | some (ok entries) ↦ some (ok (entry ∷ entries))
  ]
]

unfoldable pub parse_shell_environment : Bytes → Bool → Option (Result (List EnvironmentEntry))
parse_shell_environment text hidden = parse_entries (length text) hidden text

-- `EnvironmentScope.change`: the arguments of set-environment. A flag is empty, "-h", "-u" or "-r".
unfoldable pub change_args : EnvironmentScope → Bytes → Bytes → Bytes → Result (List Bytes)
change_args scope name value flag =
    if not (stored_env_name name) || not (valid_string value)
    then err err_invalid
    else ok (
        base scope
        ++ ((elim flag [ [] ↦ [] | ◌∷◌ c f ↦ (c ∷ f) ∷ [] ])
            ++ (codes "--"
                ∷ name
                ∷ (if bytes_eq flag (codes "-u") || bytes_eq flag (codes "-r")
                    then []
                    else value ∷ []))))

env_value : Option Bytes → Bool → Bool → EnvironmentValue
env_value v u h = record { value = v; is_unset = u; hidden = h }

-- The end of `GetWith`, on the output without its line feed.
unfoldable pub shown_value : Bool → Bytes → Bytes → Result EnvironmentValue
unfolding env_value
shown_value hidden name text =
    if bytes_eq text (45 ∷ name)
    then ok (env_value none true hidden)
    else elim (cut_prefix (name ++ (61 ∷ [])) text) [
      | none ↦ err err_protocol
      | some value ↦ ok (env_value (some value) false hidden)
    ]

-- `GetWith` on the standard output of a show-environment that did not fail.
unfoldable pub get_value : Bool → Bytes → Bytes → Result EnvironmentValue
unfolding env_value
get_value hidden name [] = ok (env_value none false hidden)
get_value hidden name (c ∷ out) = shown_value hidden name (trim_newline (c ∷ out))
