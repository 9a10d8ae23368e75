-- ===== src/Command/Vector.antt =====
-- tmux/command.go: `splitArgvCommands`, which reads an argument vector as commands, and the vector
-- that `plan.argv` makes.
use gotmux.Prelude.{
  ℕ, ◌≡◌, ◌≢◌, ◌⊎◌, refl, sym, ap, ◌∙◌, inl, inr, Bool, true, false, not, ◌||◌, List, [], ◌∷◌, ◌++◌,
  map, append-nil, append_assoc, Bytes, codes, Option, none, some, ok, Bool-cases, ◌==◌,
  if◌then◌else◌, arith,
}
use gotmux.Wire.Argv.{valid_command, command_chars, is_letter, is_command_char, escape_arg}
use gotmux.Command.{
  Command, Arg, Args, node, Nodes, no_nodes, more_nodes, Plan, argv, argv_nodes, argv_args,
  arg_value,
}
use gotmux.Command.Text.{
  arg_word, ValidArg, valid_text, valid_nested, ValidArgs, valid_end, valid_more, valid_node,
  ValidNodes, valid_stop, valid_next,
}
use gotmux.Command.Writing.{write_nodes-nodes_text}
use gotmux.Command.Parsing.{words, node_command, commands}

-- All bytes but the last, and the last.
unfoldable pub split_last : Bytes → Option (Bytes × ℕ)
split_last [] = none
split_last (c ∷ s) = elim (split_last s) [
  | none ↦ some ([], c)
  | some (init, d) ↦ some (c ∷ init, d)
]

-- What is in front of a last `;`: behind a backslash, it belongs to the argument.
strip_separator : Bytes → Bytes × Bool
strip_separator front = elim (split_last front) [
  | none ↦ (front, true)
  | some (init, d) ↦ if d == b'\\' then (init ++ b';' ∷ [], false) else (front, true)
]

-- The argument that a word stands for, and whether it ends the command.
unfoldable pub strip : Bytes → Bytes × Bool
unfolding strip_separator
strip word = elim (split_last word) [
  | none ↦ (word, false)
  | some (front, c) ↦ if c == b';' then strip_separator front else (word, false)
]

abbrev has_bytes : Bytes → Bool
has_bytes [] = false
has_bytes (c ∷ s) = true

add_group : List (List Bytes) → List Bytes → List (List Bytes)
add_group cmds [] = cmds
add_group cmds (a ∷ current) = cmds ++ (a ∷ current) ∷ []

-- `current` behind a word.
with_word : List Bytes → Bytes × Bool → List Bytes
with_word current (arg, ends) = if not ends || has_bytes arg then current ++ arg ∷ [] else current

-- The loop of `splitArgvCommands`.
unfoldable pub split_loop : List (List Bytes) → List Bytes → List Bytes → List (List Bytes)
unfolding add_group with_word
split_loop cmds current [] = add_group cmds current
split_loop cmds current (a ∷ args) =
    split_loop (if (strip a).1 then add_group cmds (with_word current (strip a)) else cmds)
      (if (strip a).1 then [] else with_word current (strip a)) args

unfoldable pub split_argv_commands : List Bytes → List (List Bytes)
split_argv_commands args = split_loop [] [] args

split_last-snoc : (s : Bytes) (c : ℕ) → split_last (s ++ c ∷ []) ≡ some (s, c)
unfolding split_last
split_last-snoc [] c = refl
split_last-snoc (d ∷ s) c = rw (split_last-snoc s c)

-- A text is empty, or has a last byte.
split_last-cases : (s : Bytes) → (s ≡ []) ⊎ ((init : Bytes) × (c : ℕ) × (s ≡ init ++ c ∷ []))
split_last-cases [] = inl refl
split_last-cases (d ∷ s) = elim (split_last-cases s) [
  | inl e ↦ inr ([], d, ap (◌∷◌ d) e)
  | inr (init, c, e) ↦ inr (d ∷ init, c, ap (◌∷◌ d) e)
]

escape_arg-snoc :
    (s : Bytes) (c : ℕ)
    → escape_arg (s ++ c ∷ []) ≡ (if c == b';' then s ++ (b'\\' ∷ b';' ∷ []) else s ++ c ∷ [])
unfolding escape_arg
escape_arg-snoc [] c = refl
escape_arg-snoc (d ∷ []) c = ground arith
escape_arg-snoc (d ∷ e ∷ s) c = ground (arith, escape_arg-snoc (e ∷ s) c)

strip_plain : (s : Bytes) (c : ℕ) → c ≢ b';' → strip (s ++ c ∷ []) ≡ (s ++ c ∷ [], false)
unfolding strip
strip_plain s c h =
    let other : (c == b';') ≡ false = ground arith in rw (split_last-snoc s c, strip) (rw other)

strip_escaped : (s : Bytes) → strip ((s ++ b'\\' ∷ []) ++ b';' ∷ []) ≡ (s ++ b';' ∷ [], false)
unfolding strip
strip_escaped s =
    rw (split_last-snoc (s ++ b'\\' ∷ []) b';', strip)
      (rw (split_last-snoc s b'\\', strip_separator))

-- An escaped argument is read as itself.
strip-escape_arg : (a : Bytes) → strip (escape_arg a) ≡ (a, false)
strip-escape_arg a = elim (split_last-cases a) [
  | inl e ↦ rw e (unfold escape_arg strip split_last in refl)
  | inr (init, c, e) ↦
      rw (e, escape_arg-snoc init c)
        (elim (Bool-cases (c == b';')) [
          | inl semi ↦ rw semi (
              ap strip (sym (append_assoc init (b'\\' ∷ []) (b';' ∷ [])))
              ∙ strip_escaped init
              ∙ ap (λ d. (init ++ d ∷ [], false)) (ground arith))
          | inr other ↦ rw other (strip_plain init c (ground arith))
        ])
]

last_char :
    (init : Bytes) (c : ℕ) → command_chars (init ++ c ∷ []) ≡ true → is_command_char c ≡ true
unfolding command_chars
last_char [] c h = ground arith
last_char (d ∷ init) c h = last_char init c (ground arith)

command_char-ne : (c : ℕ) → is_command_char c ≡ true → c ≢ b';'
unfolding is_command_char
command_char-ne c h = ground arith

name_chars : (name : Bytes) → valid_command name ≡ true → command_chars name ≡ true
unfolding valid_command command_chars
name_chars [] h = refl
name_chars (c ∷ s) h = ground (arith, letter_char c)
  where
    letter_char : (c : ℕ) → is_letter c ≡ true → is_command_char c ≡ true
    letter_char c h = unfold is_letter is_command_char in ground arith

strip-name : (name : Bytes) → valid_command name ≡ true → strip name ≡ (name, false)
strip-name name h = elim (split_last-cases name) [
  | inl e ↦ absurd (unfold valid_command in cc (rw e at h))
  | inr (init, c, e) ↦
      rw e (strip_plain init c (command_char-ne c (last_char init c (rw e at (name_chars name h)))))
]

split_loop_word :
    (cmds : List (List Bytes)) (current : List Bytes) (word a : Bytes) (rest : List Bytes)
    → strip word ≡ (a, false)
    → split_loop cmds current (word ∷ rest) ≡ split_loop cmds (current ++ a ∷ []) rest
unfolding split_loop
split_loop_word cmds current word a rest e = rw (e, split_loop)

split_loop_words :
    (cmds : List (List Bytes)) (current ws rest : List Bytes)
    → split_loop cmds current (map escape_arg ws ++ rest) ≡ split_loop cmds (current ++ ws) rest
split_loop_words cmds current [] rest = rw append-nil
split_loop_words cmds current (a ∷ ws) rest =
    split_loop_word cmds current (escape_arg a) a (map escape_arg ws ++ rest) (strip-escape_arg a)
    ∙ split_loop_words cmds (current ++ a ∷ []) ws rest
    ∙ rw append_assoc

split_loop_separator :
    (cmds : List (List Bytes)) (a : Bytes) (current rest : List Bytes)
    → split_loop cmds (a ∷ current) (codes ";" ∷ rest)
      ≡ split_loop (cmds ++ (a ∷ current) ∷ []) [] rest
unfolding split_loop strip split_last
split_loop_separator cmds a current rest = refl

-- The vector of a tree.
vector : Bool → Nodes → List Bytes
vector first no_nodes = []
vector first (more_nodes (node name args) ns) =
    (if first then [] else codes ";" ∷ [])
    ++ (name ∷ (map escape_arg (words args) ++ vector false ns))

arg_value-arg_word : {a : Arg} → ValidArg a → arg_value a ≡ ok (arg_word a)
unfolding arg_value arg_word
arg_value-arg_word (valid_text h) = refl
arg_value-arg_word (valid_nested v) = write_nodes-nodes_text v

argv_args-words : {args : Args} → ValidArgs args → argv_args args ≡ ok (map escape_arg (words args))
unfolding argv_args words
argv_args-words valid_end = refl
argv_args-words (valid_more v vs) = rw (arg_value-arg_word v, argv_args-words vs)

argv_nodes-vector :
    (first : Bool) {ns : Nodes} → ValidNodes ns → argv_nodes first ns ≡ ok (vector first ns)
unfolding argv_nodes vector
argv_nodes-vector first valid_stop = refl
argv_nodes-vector first (valid_next (valid_node h v) vs) =
    rw (argv_args-words v, argv_nodes-vector false vs)

-- A command as a list of words.
abbrev pub group : Command → List Bytes
group c = c.name ∷ c.args

split_loop-vector :
    (cmds : List (List Bytes)) (a : Bytes) (current : List Bytes) {ns : Nodes}
    → ValidNodes ns
    → split_loop cmds (a ∷ current) (vector false ns)
      ≡ cmds ++ (a ∷ current) ∷ map group (commands ns)
unfolding vector commands node_command
split_loop-vector cmds a current valid_stop = unfold split_loop in refl
split_loop-vector cmds a current (valid_next {ns = ns} (valid_node {name} {args} h v) vs) =
    split_loop_separator cmds a current (name ∷ (map escape_arg (words args) ++ vector false ns))
    ∙ split_loop_word (cmds ++ (a ∷ current) ∷ []) [] name name _ (strip-name name h)
    ∙ split_loop_words (cmds ++ (a ∷ current) ∷ []) (name ∷ []) (words args) (vector false ns)
    ∙ split_loop-vector (cmds ++ (a ∷ current) ∷ []) name (words args) vs
    ∙ append_assoc cmds ((a ∷ current) ∷ []) _

-- The argument vector of a valid plan is read back as its commands, each argument as the word that it
-- stands for: a last `;` of an argument separates nothing.
pub split_argv_commands-argv :
    (p : Plan)
    → ValidNodes p.nodes
    → (args : List Bytes) × (argv p ≡ ok args)
      × (split_argv_commands args ≡ map group (commands p.nodes))
unfolding argv split_argv_commands
split_argv_commands-argv p v = (vector true p.nodes, argv_nodes-vector true v, whole v)
  where
    whole :
        {ns : Nodes} → ValidNodes ns → split_loop [] [] (vector true ns) ≡ map group (commands ns)
    whole valid_stop = unfold split_loop vector commands in refl
    whole (valid_next {ns = ns} (valid_node {name} {args} h vs) rest) =
        unfold vector commands node_command in
        split_loop_word [] [] name name (map escape_arg (words args) ++ vector false ns)
          (strip-name name h)
        ∙ split_loop_words [] (name ∷ []) (words args) (vector false ns)
        ∙ split_loop-vector [] name (words args) rest
