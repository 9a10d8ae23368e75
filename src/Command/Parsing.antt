-- ===== src/Command/Parsing.antt =====
-- `ParseSequence` reads back the text of a plan: every node becomes a command, and every argument the
-- word that it stands for.
use gotmux.Prelude.{
  ◌≡◌, refl, ap, ap₂, true, false, List, [], ◌∷◌, ◌++◌, map, Bytes, All, codes, ok, arith,
}
use gotmux.Wire.Argv.{valid_command, valid_string}
use gotmux.Wire.Quote.{quoted}
use gotmux.Wire.Words.{parse_words}
use gotmux.Wire.Words.Quoted.{IsText, spaced, parse_words-spaced}
use gotmux.Wire.Sequence.RoundTrip.{Call, call_text, IsCall, tail_text, sequence_text}
use gotmux.Wire.Sequence.Whole.{split_sequence-sequence_text}
use gotmux.Command.{
  Command, Args, no_args, more_args, Node, node, Nodes, no_nodes, more_nodes, valid,
  all_valid_strings, new_command, sequence, parse_parts, parse_sequence,
}
use gotmux.Command.Text.{
  arg_word, args_text, node_text, nodes_text, ValidArgs, valid_end, valid_more, valid_node,
  ValidNodes, valid_stop, valid_next,
}
use gotmux.Command.Plain.{arg_word-IsText}

-- The words of a node's arguments, and the commands of a list of nodes.
unfoldable pub words : Args → List Bytes
words no_args = []
words (more_args a args) = arg_word a ∷ words args

unfoldable pub node_command : Node → Command
unfolding words
node_command (node name args) = record { name = name; args = words args }

unfoldable pub commands : Nodes → List Command
unfolding node_command
commands no_nodes = []
commands (more_nodes n ns) = node_command n ∷ commands ns

abbrev as_call : Command → Call
as_call c = (c.name, c.args)

args_text-spaced : (args : Args) → args_text args ≡ spaced (words args)
unfolding args_text spaced words
args_text-spaced no_args = refl
args_text-spaced (more_args a args) =
    ap (λ t. b' ' ∷ (quoted (arg_word a) ++ t)) (args_text-spaced args)

node_text-call_text : (n : Node) → node_text n ≡ call_text (as_call (node_command n))
unfolding node_text call_text node_command
node_text-call_text (node name args) = ap (λ t. name ++ t) (args_text-spaced args)

later_text :
    (ns : Nodes) → nodes_text false ns ≡ tail_text (map call_text (map as_call (commands ns)))
unfolding nodes_text tail_text commands
later_text no_nodes = refl
later_text (more_nodes n ns) =
    ap₂ (λ t u. codes " ; " ++ (t ++ u)) (node_text-call_text n) (later_text ns)

nodes_text-sequence_text :
    (ns : Nodes) → nodes_text true ns ≡ sequence_text (map call_text (map as_call (commands ns)))
unfolding nodes_text sequence_text commands
nodes_text-sequence_text no_nodes = refl
nodes_text-sequence_text (more_nodes n ns) =
    ap₂ (λ t u. t ++ u) (node_text-call_text n) (later_text ns)

-- A command whose name is one and whose arguments are texts.
abbrev pub IsCommand : Command → Type 0
IsCommand c = (valid_command c.name ≡ true) × All IsText c.args

words-IsText : {args : Args} → ValidArgs args → All IsText (words args)
unfolding words
words-IsText valid_end = tt
words-IsText (valid_more v vs) = (arg_word-IsText v, words-IsText vs)

commands-IsCommand : {ns : Nodes} → ValidNodes ns → All IsCommand (commands ns)
unfolding commands
commands-IsCommand valid_stop = tt
commands-IsCommand (valid_next (valid_node h v) vs) = ((h, words-IsText v), commands-IsCommand vs)

calls_of : (cs : List Command) → All IsCommand cs → All IsCall (map as_call cs)
calls_of [] h = tt
calls_of (c ∷ cs) h = (h.0, calls_of cs h.1)

text-valid_string : (s : Bytes) → IsText s → valid_string s ≡ true
unfolding valid_string
text-valid_string [] h = refl
text-valid_string (c ∷ s) h = ground (arith, text-valid_string s h.1)

texts-valid : (args : List Bytes) → All IsText args → all_valid_strings args ≡ true
unfolding all_valid_strings
texts-valid [] h = refl
texts-valid (a ∷ args) h = ground (arith, text-valid_string a h.0, texts-valid args h.1)

new_command-IsCommand : (c : Command) → IsCommand c → new_command c.name c.args ≡ ok c
unfolding new_command
new_command-IsCommand c h = rw (h.0, texts-valid c.args h.1)

IsCommand-valid : (c : Command) → IsCommand c → valid c ≡ true
unfolding valid
IsCommand-valid c h = rw (h.0, texts-valid c.args h.1)

sequence-IsCommand : (cs : List Command) → All IsCommand cs → sequence cs ≡ ok cs
unfolding sequence
sequence-IsCommand [] h = refl
sequence-IsCommand (c ∷ cs) h = rw (IsCommand-valid c h.0, sequence-IsCommand cs h.1)

parse_words-call :
    (c : Command) → IsCommand c → parse_words (call_text (as_call c)) ≡ ok (c.name ∷ c.args)
unfolding call_text
parse_words-call c h = parse_words-spaced c.name c.args h.0 h.1

parse_parts-IsCommand :
    (cs : List Command) → All IsCommand cs → parse_parts (map call_text (map as_call cs)) ≡ ok cs
unfolding parse_parts
parse_parts-IsCommand [] h = refl
parse_parts-IsCommand (c ∷ cs) h =
    rw (parse_words-call c h.0, new_command-IsCommand c h.0, parse_parts-IsCommand cs h.1)

-- The text of a valid tree is parsed into one command for each node, in order, with the word that
-- each argument stands for: nothing in an argument is taken for syntax, however deep it is nested.
pub parse_sequence-nodes_text :
    {ns : Nodes} → ValidNodes ns → parse_sequence (nodes_text true ns) ≡ ok (commands ns)
unfolding parse_sequence
parse_sequence-nodes_text {ns} v =
    let cs = commands-IsCommand v in
    rw (nodes_text-sequence_text ns, (split_sequence-sequence_text _ (calls_of (commands ns) cs)).0)
      (rw (parse_parts-IsCommand (commands ns) cs) (sequence-IsCommand (commands ns) cs))
