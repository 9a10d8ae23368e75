-- ===== src/Command/Tests.antt =====
-- Plans, sequences and argument vectors on concrete commands, and the theorems at them.
use gotmux.Prelude.{
  ◌≡◌, refl, true, false, List, map, Bytes, codes, ok, err, err_input_limit, length, leb,
  if◌then◌else◌, arith,
}
use gotmux.Command.{
  text_arg, nested_arg, no_args, more_args, node, Nodes, no_nodes, more_nodes, Plan, reply_empty,
  text, size, argv, parse_sequence,
}
use gotmux.Command.Text.{
  nodes_text, valid_text, valid_nested, valid_end, valid_more, ValidNodes, valid_node, valid_stop,
  valid_next,
}
use gotmux.Command.Writing.{size-text}
use gotmux.Command.Parsing.{commands, parse_sequence-nodes_text}
use gotmux.Command.Vector.{split_argv_commands, group, split_argv_commands-argv}
use gotmux.Wire.Argv.{valid_command}

-- if-shell with a nested command whose argument holds a separator and a quotation mark.
abbrev inner : Nodes
inner =
    more_nodes (node (codes "display-message") (more_args (text_arg (codes "a\" ; $b")) no_args))
      no_nodes

abbrev tree : Nodes
tree =
    more_nodes
      (node (codes "if-shell")
        (more_args (text_arg (codes "1;")) (more_args (nested_arg inner) no_args)))
      (more_nodes (node (codes "kill-server") no_args) no_nodes)

tree-ValidNodes : ValidNodes tree
unfolding valid_command
tree-ValidNodes =
    valid_next
      (valid_node refl (
        valid_more (valid_text (omega arith)) (
          valid_more
            (valid_nested (
              valid_next (valid_node refl (valid_more (valid_text (omega arith)) valid_end))
                valid_stop))
            valid_end)))
      (valid_next (valid_node refl valid_end) valid_stop)

abbrev plan : Plan
plan = record { nodes = tree; mode = reply_empty; allow_start = false }

parse_sequence-nodes_text_example : parse_sequence (nodes_text true tree) ≡ ok (commands tree)
parse_sequence-nodes_text_example = parse_sequence-nodes_text tree-ValidNodes

size-text_example :
    (t : Bytes) × (text plan ≡ ok t)
    × (size plan 60 ≡ (if leb (length t) 60 then ok (length t) else err err_input_limit))
size-text_example = size-text plan 60 tree-ValidNodes

split_argv_commands-argv_example :
    (args : List Bytes) × (argv plan ≡ ok args)
    × (split_argv_commands args ≡ map group (commands tree))
split_argv_commands-argv_example = split_argv_commands-argv plan tree-ValidNodes
