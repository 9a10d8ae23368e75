-- ===== src/Options.antt =====
-- tmux/options.go: the names of options, the arguments of the commands that read and change them, and
-- what their output stands for. A target is its scope with the identifier of its handle.
pub mod Update
pub mod Lines
mod Tests
use gotmux.Prelude.{
  ℕ, ◌^◌, Bool, true, false, not, ◌&&◌, ◌||◌, Option, none, some, List, [], ◌∷◌, ◌++◌, Bytes, codes,
  bytes_eq, cut_prefix, err_protocol, err_invalid, err_inconsistent, Result, ok, err, ◌>>=◌, leb,
  ◌==◌, if◌then◌else◌,
}
use gotmux.Prelude.Cut.{cut, trim_newline}
use gotmux.Prelude.Decimal.{itoa}
use gotmux.Prelude.Fields.{split}
use gotmux.Prelude.Int.{ℤ, pos, negsuc, atoi}
use gotmux.Wire.Argv.{valid_string}
use gotmux.Wire.Words.{parse_words}
use gotmux.Rows.{Value, unavailable, unsupported, present}
use gotmux.Read.{valid_format_name}

pub data Scope : Type 0 where
  scope_server scope_global_session scope_session : Scope
  scope_global_window scope_window scope_pane : Scope

pub record OptionTarget : Type 0 where
  pub scope : Scope
  pub id : Bytes

-- `optionTarget.args`
unfoldable pub target_args : OptionTarget → List Bytes
target_args t = elim (t.scope) [
  | scope_server ↦ codes "-s" ∷ []
  | scope_global_session ↦ codes "-g" ∷ []
  | scope_session ↦ codes "-t" ∷ t.id ∷ []
  | scope_global_window ↦ codes "-g" ∷ codes "-w" ∷ []
  | scope_window ↦ codes "-w" ∷ codes "-t" ∷ t.id ∷ []
  | scope_pane ↦ codes "-p" ∷ codes "-t" ∷ t.id ∷ []
]

-- What stands before a byte that the text ends in.
unfoldable pub before_last : ℕ → Bytes → Option Bytes
before_last b [] = none
before_last b (c ∷ []) = if c == b then some [] else none
before_last b (c ∷ d ∷ s) = elim (before_last b (d ∷ s)) [ some t ↦ some (c ∷ t) | none ↦ none ]

-- `strings.TrimSuffix` of one byte.
unfoldable pub trim_last : ℕ → Bytes → Bytes
trim_last b s = elim (before_last b s) [ some t ↦ t | none ↦ s ]

unfoldable pub base_name : Bytes → Bool
base_name s = valid_format_name s && not (bytes_eq s (codes "@"))

-- `parseOptionName`: the base, the index, and whether there is one.
unfoldable pub option_index : Bytes → Option ℤ → Result (Bytes × ℕ × Bool)
option_index base (some (pos n)) = if leb n (2 ^ 30) then ok (base, n, true) else err err_invalid
option_index base (some (negsuc n)) = err err_invalid
option_index base none = err err_invalid

unfoldable pub indexed_name : Option (Bytes × Bytes) → Result (Bytes × ℕ × Bool)
indexed_name none = err err_invalid
indexed_name (some (base, digits)) =
    if base_name base then option_index base (atoi digits) else err err_invalid

unfoldable pub parse_option_name : Bytes → Result (Bytes × ℕ × Bool)
parse_option_name name = elim (before_last b']' name) [
  | none ↦ if base_name name then ok (name, 0, false) else err err_invalid
  | some front ↦ indexed_name (cut (codes "[") front)
]

unfoldable pub valid_option_name : Bytes → Bool
valid_option_name name = elim (parse_option_name name) [ ok _ ↦ true | err _ ↦ false ]

unfoldable pub user_base : Bytes → Bool
user_base [] = false
user_base (c ∷ []) = false
user_base (c ∷ d ∷ s) = c == b'@'

unfoldable pub user_option_name : Bytes → Bool
user_option_name name = elim (parse_option_name name) [ ok p ↦ user_base p.0 | err _ ↦ false ]

-- The arguments of `readScalar`.
unfoldable pub scalar_args : OptionTarget → Bytes → Bool → List Bytes
scalar_args t name inherited =
    target_args t
    ++ (codes "-q" ∷ ((if inherited then codes "-A" ∷ [] else []) ++ codes "--" ∷ name ∷ []))

unfoldable pub scalar_words : Bytes → List Bytes → Result (Value Bytes)
scalar_words name (key ∷ value ∷ []) =
    if bytes_eq (trim_last b'*' key) name then ok (present value) else err err_invalid
scalar_words name _ = err err_invalid

unfoldable pub is_array_output : Bytes → Bytes → Bool
is_array_output name stdout = elim (before_last b']' name) [
  | some _ ↦ false
  | none ↦ elim (cut_prefix (name ++ codes "[") stdout) [ some _ ↦ true | none ↦ false ]
]

-- What `readScalar` returns for what show-options prints.
unfoldable pub read_scalar : Bytes → Bytes → Result (Value Bytes)
read_scalar name [] = ok unavailable
read_scalar name (c ∷ s) = elim (before_last b'\n' (c ∷ s)) [
  | none ↦ err err_protocol
  | some text ↦
      if is_array_output name (c ∷ s)
      then err err_invalid
      else (parse_words text >>= scalar_words name)
]

pub record OptionValue (A : Type 0) : Type 0 where
  pub local_value : Value A
  pub effective : Value A
  pub origin : Value Scope

-- The scope of a native option, by the generated table; `none` is an unknown name.
abbrev pub NativeScope : Type 0
NativeScope = Bytes → Option Scope

unfoldable pub widened_scope : Scope → Scope
widened_scope scope_session = scope_global_session
widened_scope scope_window = scope_global_window
widened_scope s = s

unfoldable pub seen_scope : Scope → Scope → Scope
seen_scope scope_pane scope_pane = scope_pane
seen_scope scope_global_session scope_pane = scope_global_window
seen_scope scope_global_window scope_pane = scope_global_window
seen_scope target scope_pane = scope_window
seen_scope scope_global_session scope = widened_scope scope
seen_scope scope_global_window scope = widened_scope scope
seen_scope target scope = scope

unfoldable pub base_of : Bytes → Bytes
base_of name = elim (cut (codes "[") name) [ some p ↦ p.0 | none ↦ name ]

unfoldable pub local_origin : NativeScope → OptionTarget → Bytes → Value Scope
local_origin native t name =
    if user_option_name name then present t.scope else elim (native (base_of name)) [
      | none ↦ unavailable
      | some scope ↦ present (seen_scope t.scope scope)
    ]

unfoldable pub same_value : Bytes → Value Bytes → Bool
same_value a (present b) = bytes_eq a b
same_value a unavailable = false
same_value a unsupported = false

unfoldable pub option_value :
    NativeScope → OptionTarget → Bytes → Value Bytes → Value Bytes → Result (OptionValue Bytes)
option_value native t name (present a) effective =
    if same_value a effective
    then ok (record {
      local_value = present a;
      effective = effective;
      origin = local_origin native t name;
    })
    else err err_inconsistent
option_value native t name local_value effective =
    ok (record { local_value = local_value; effective = effective; origin = unavailable })

-- `optionTarget.read`, on what its two executions print.
unfoldable pub read_option :
    NativeScope → OptionTarget → Bytes → Bytes → Bytes → Result (OptionValue Bytes)
read_option native t name first second =
    if valid_option_name name
    then (read_scalar name first >>= λ local_value.
        read_scalar name second >>= λ effective. option_value native t name local_value effective)
    else err err_invalid

pub record SetOptionOptions : Type 0 where
  pub value : Value Bytes
  pub append : Bool
  pub expand_format : Bool
  pub only_if_unset : Bool

abbrev flag_if : Bool → Bytes → List Bytes
flag_if true flag = flag ∷ []
flag_if false flag = []

unfoldable pub set_args : OptionTarget → Bytes → SetOptionOptions → List Bytes → List Bytes
set_args t name opts value =
    target_args t
    ++ (flag_if opts.append (codes "-a")
        ++ (flag_if opts.expand_format (codes "-F")
            ++ (flag_if opts.only_if_unset (codes "-o") ++ codes "--" ∷ name ∷ value)))

unfoldable pub value_args : Value Bytes → Result (List Bytes)
value_args (present v) = if valid_string v then ok (v ∷ []) else err err_invalid
value_args unavailable = ok []
value_args unsupported = ok []

-- The arguments of `setWith`'s command.
unfoldable pub set_with : OptionTarget → Bytes → SetOptionOptions → Result (List Bytes)
set_with t name opts =
    if valid_option_name name
    then (value_args opts.value >>= λ value. ok (set_args t name opts value))
    else err err_invalid

-- The arguments of `unsetWith`'s command.
unfoldable pub unset_with : OptionTarget → Bytes → Bool → Result (List Bytes)
unset_with t name cascade =
    if valid_option_name name
    then ok (target_args t ++ (if cascade then codes "-U" else codes "-u") ∷ codes "--" ∷ name ∷ [])
    else err err_invalid

pub record OptionEntry : Type 0 where
  pub name : Bytes
  pub value : Value Bytes
  pub inherited : Bool

unfoldable pub is_inherited : Bytes → Bool
is_inherited key = elim (before_last b'*' key) [ some _ ↦ true | none ↦ false ]

unfoldable pub entry_of : Bytes → Value Bytes → OptionEntry
entry_of key value = record {
  name = trim_last b'*' key;
  value = value;
  inherited = is_inherited key;
}

unfoldable pub printed_value : Bytes → Bytes
printed_value text = elim (parse_words text) [
  | ok [] ↦ text
  | ok (w ∷ []) ↦ w
  | ok (w ∷ v ∷ more) ↦ text
  | err _ ↦ text
]

unfoldable pub list_entry : Bytes → OptionEntry
list_entry line = elim (cut (codes " ") line) [
  | none ↦ entry_of line unavailable
  | some (key, text) ↦ entry_of key (present (printed_value text))
]

-- The loop of `list` over the lines; an empty one is passed over.
unfoldable pub list_entries : List Bytes → List OptionEntry
list_entries [] = []
list_entries ([] ∷ lines) = list_entries lines
list_entries ((c ∷ s) ∷ lines) = list_entry (c ∷ s) ∷ list_entries lines

unfoldable pub list_options : Bytes → List OptionEntry
list_options stdout = list_entries (split b'\n' (trim_newline stdout))

-- `convertOption`
unfoldable pub convert_value : {A : Type 0} → (Bytes → Result A) → Value Bytes → Result (Value A)
convert_value parse unsupported = ok unsupported
convert_value parse unavailable = ok unavailable
convert_value parse (present s) = parse s >>= λ x. ok (present x)

unfoldable pub convert_option :
    {A : Type 0} → OptionValue Bytes → (Bytes → Result A) → Result (OptionValue A)
convert_option v parse = convert_value parse v.local_value >>= λ l.
    convert_value parse v.effective >>= λ e.
    ok (record { local_value = l; effective = e; origin = v.origin })

unfoldable pub parse_option_bool : Bytes → Result Bool
parse_option_bool s =
    if bytes_eq s (codes "on") || bytes_eq s (codes "1")
    then ok true
    else if bytes_eq s (codes "off") || bytes_eq s (codes "0")
    then ok false
    else err err_protocol

unfoldable pub bool_option : Bool → Bytes
bool_option true = codes "on"
bool_option false = codes "off"

pub record ArrayEntry : Type 0 where
  pub index : ℕ
  pub value : Bytes

-- `arrayIndex` of a key that begins with the name and a bracket, by what follows it.
unfoldable pub index_of : Option ℤ → Result ℕ
index_of (some (pos n)) = ok n
index_of (some (negsuc n)) = err err_protocol
index_of none = err err_protocol

unfoldable pub array_index : Bytes → Result ℕ
array_index behind = elim (before_last b']' behind) [
  | none ↦ err err_protocol
  | some digits ↦ index_of (atoi digits)
]

unfoldable pub array_value : ℕ → List Bytes → Result ArrayEntry
array_value index (w ∷ []) = ok (record { index = index; value = w })
array_value index _ = err err_protocol

-- `ParseWords` of the value: its own error is not passed on.
unfoldable pub array_words : ℕ → Bytes → Result ArrayEntry
array_words index text = elim (parse_words text) [
  | err _ ↦ err err_protocol
  | ok words ↦ array_value index words
]

unfoldable pub array_key : Bytes → Bytes → Bytes → Result ArrayEntry
array_key base key text = elim (cut_prefix (base ++ codes "[") key) [
  | none ↦ err err_invalid
  | some behind ↦ array_index behind >>= λ index. array_words index text
]

unfoldable pub parse_array_line : Bytes → Bytes → Result ArrayEntry
parse_array_line base line = elim (cut (codes " ") line) [
  | none ↦ err err_protocol
  | some (key, text) ↦ array_key base (trim_last b'*' key) text
]

-- The loop of `array` over the lines.
unfoldable pub array_lines : Bytes → List Bytes → Result (List ArrayEntry)
array_lines base [] = ok []
array_lines base ([] ∷ lines) = array_lines base lines
array_lines base ((c ∷ s) ∷ lines) =
    parse_array_line base (c ∷ s) >>= λ entry. array_lines base lines >>= λ out. ok (entry ∷ out)

-- A name without an index, which `array` and `updateArray` want.
unfoldable pub whole_name : Bytes → Result Bytes
whole_name name = parse_option_name name >>= λ p. if p.2 then err err_invalid else ok p.0

unfoldable pub read_array : Bytes → Bytes → Result (List ArrayEntry)
read_array name stdout =
    whole_name name >>= λ base. array_lines base (split b'\n' (trim_newline stdout))
