-- ===== src/Command.antt =====
-- tmux/command.go: commands and command sequences, the node trees that carry nested commands, and
-- the plans that render them. An error keeps its cause; the operation's name that `opError` adds to
-- it is left out.
pub mod Text
pub mod Plain
pub mod Writing
pub mod Parsing
pub mod Vector
mod Tests
use gotmux.Prelude.{
  ℕ, zero, suc, ◌+◌, ◌≡◌, Bool, true, false, not, ◌&&◌, ◌||◌, List, [], ◌∷◌, ◌++◌, map, Bytes,
  codes, Option, none, some, Error, err_invalid, err_input_limit, Result, ok, err, ◌>>=◌, leb, ltb,
  ◌==◌, bytes_eq, if◌then◌else◌,
}
use gotmux.Wire.Argv.{valid_command, valid_string, escape_arg}
use gotmux.Wire.Writer.{Writer, put, builder_write}
use gotmux.Wire.Quote.{quote_write, write_quoted}
use gotmux.Wire.Counter.{Counter, counter_writer}
use gotmux.Wire.Words.{parse_words}
use gotmux.Wire.Sequence.{split_sequence}

pub record Command : Type 0 where
  pub name : Bytes
  pub args : List Bytes

-- A `wireArg` is a text, or (its `nested` is not nil) a list of nodes; a `wireNode` is a name with
-- arguments. A list of either is a type of the block.
mutual
  pub data Arg : Type 0 where
    text_arg : Bytes → Arg
    nested_arg : Nodes → Arg

  pub data Args : Type 0 where
    no_args : Args
    more_args : Arg → Args → Args

  pub data Node : Type 0 where
    node : Bytes → Args → Node

  pub data Nodes : Type 0 where
    no_nodes : Nodes
    more_nodes : Node → Nodes → Nodes

pub data ReplyMode : Type 0 where
  reply_raw reply_records reply_empty : ReplyMode

pub record Plan : Type 0 where
  pub nodes : Nodes
  pub mode : ReplyMode
  pub allow_start : Bool

unfoldable pub all_valid_strings : List Bytes → Bool
all_valid_strings [] = true
all_valid_strings (a ∷ args) = valid_string a && all_valid_strings args

-- `Command.Valid`
unfoldable pub valid : Command → Bool
valid c = valid_command c.name && all_valid_strings c.args

-- `NewCommand`
unfoldable pub new_command : Bytes → List Bytes → Result Command
new_command name args =
    if not (valid_command name)
    then err err_invalid
    else if not (all_valid_strings args)
    then err err_invalid
    else ok (record { name = name; args = args })

-- `Sequence`: the call of `NewCommand` in it cannot fail after the test.
unfoldable pub sequence : List Command → Result (List Command)
sequence [] = ok []
sequence (c ∷ cs) =
    let rest = sequence cs >>= λ out. ok (c ∷ out) in
    if not (valid c) then err err_invalid else rest

-- A command from the words of one part; no words, no command.
command_of_words : List Bytes → Result (Option Command)
command_of_words [] = ok none
command_of_words (name ∷ args) = new_command name args >>= λ c. ok (some c)

add_command : Option Command → List Command → List Command
add_command none cs = cs
add_command (some c) cs = c ∷ cs

-- The loop of `ParseSequence` over the parts.
unfoldable pub parse_parts : List Bytes → Result (List Command)
unfolding command_of_words add_command
parse_parts [] = ok []
parse_parts (part ∷ parts) = parse_words part >>= λ words.
    command_of_words words >>= λ c. parse_parts parts >>= λ cs. ok (add_command c cs)

-- `ParseSequence`
unfoldable pub parse_sequence : Bytes → Result (List Command)
parse_sequence text = split_sequence text >>= λ parts. parse_parts parts >>= sequence

unfoldable pub leaf_args : List Bytes → Args
leaf_args [] = no_args
leaf_args (a ∷ args) = more_args (text_arg a) (leaf_args args)

-- `leaf`, and `CommandSequence.nodes`
unfoldable pub leaf : Command → Node
unfolding leaf_args
leaf c = node c.name (leaf_args c.args)

unfoldable pub leaves : List Command → Nodes
unfolding leaf
leaves [] = no_nodes
leaves (c ∷ cs) = more_nodes (leaf c) (leaves cs)

unfoldable pub command_starts_server : Bytes → Bool
command_starts_server name =
    bytes_eq name (codes "new-session") || bytes_eq name (codes "start-server")

unfoldable pub plain_plan : Command → Plan
unfolding command_starts_server leaf
plain_plan c = record {
  nodes = more_nodes (leaf c) no_nodes;
  mode = reply_raw;
  allow_start = command_starts_server c.name;
}

unfoldable pub records_plan : Command → Plan
unfolding plain_plan
records_plan c = record (plain_plan c) { mode = reply_records }

unfoldable pub empty_plan : Command → Plan
unfolding plain_plan
empty_plan c = record (plain_plan c) { mode = reply_empty }

-- `writeArg`, `writeNode` and `writeNodes` over any writer. The flag of `write_nodes` is `i == 0`.
unfoldable mutual
  pub write_arg : {S : Type 0} → Writer S → Arg → S → Result S
  write_arg w (text_arg t) s = write_quoted w t s
  write_arg w (nested_arg ns) s = put w (b'"' ∷ []) s >>= λ t.
      write_nodes (quote_write w) true ns t >>= λ u. put w (b'"' ∷ []) u

  pub write_args : {S : Type 0} → Writer S → Args → S → Result S
  write_args w no_args s = ok s
  write_args w (more_args a args) s =
      put w (b' ' ∷ []) s >>= λ t. write_arg w a t >>= λ u. write_args w args u

  pub write_node : {S : Type 0} → Writer S → Node → S → Result S
  write_node w (node name args) s =
      if not (valid_command name)
      then err err_invalid
      else (put w name s >>= λ t. write_args w args t)

  pub write_nodes : {S : Type 0} → Writer S → Bool → Nodes → S → Result S
  write_nodes w first no_nodes s = ok s
  write_nodes w first (more_nodes n ns) s = (if first then ok s else put w (codes " ; ") s) >>= λ t.
      write_node w n t >>= λ u. write_nodes w false ns u

-- `plan.text`
unfoldable pub text : Plan → Result Bytes
unfolding write_nodes builder_write
text p = write_nodes builder_write true p.nodes [] >>= λ b. ok (b ++ b'\n' ∷ [])

-- What `plan.size` makes of the counter's result.
size_of : ℕ → Result Counter → Result ℕ
size_of max_bytes (err e) = err err_input_limit
size_of max_bytes (ok c) = if leb max_bytes c.n then err err_input_limit else ok (c.n + 1)

-- `plan.size`
unfoldable pub size : Plan → ℕ → Result ℕ
unfolding write_nodes counter_writer size_of
size p max_bytes =
    size_of max_bytes (
      write_nodes counter_writer true p.nodes (record { n = 0; limit = max_bytes; failure = none }))

-- The text of an argument in `plan.argv`.
unfoldable pub arg_value : Arg → Result Bytes
arg_value (text_arg t) = ok t
arg_value (nested_arg ns) = write_nodes builder_write true ns []

unfoldable pub argv_args : Args → Result (List Bytes)
unfolding arg_value
argv_args no_args = ok []
argv_args (more_args a args) =
    arg_value a >>= λ s. argv_args args >>= λ rest. ok (escape_arg s ∷ rest)

unfoldable pub argv_nodes : Bool → Nodes → Result (List Bytes)
unfolding argv_args
argv_nodes first no_nodes = ok []
argv_nodes first (more_nodes (node name args) ns) = argv_args args >>= λ words.
    argv_nodes false ns >>= λ rest.
    ok ((if first then [] else codes ";" ∷ []) ++ (name ∷ (words ++ rest)))

-- `plan.argv`
unfoldable pub argv : Plan → Result (List Bytes)
unfolding argv_nodes
argv p = argv_nodes true p.nodes
