-- ===== src/Command/Text.antt =====
-- The text that a node tree stands for, and when a tree can be written.
use gotmux.Prelude.{◌≡◌, Bool, true, false, [], ◌∷◌, ◌++◌, Bytes, codes, if◌then◌else◌}
use gotmux.Wire.Argv.{valid_command}
use gotmux.Wire.Quote.{quoted}
use gotmux.Wire.Words.Quoted.{IsText}
use gotmux.Command.{
  Arg, text_arg, nested_arg, Args, no_args, more_args, Node, node, Nodes, no_nodes, more_nodes,
}

unfoldable mutual
  -- The word that an argument stands for: a nested list stands for its text.
  pub arg_word : Arg → Bytes
  arg_word (text_arg t) = t
  arg_word (nested_arg ns) = nodes_text true ns

  pub args_text : Args → Bytes
  args_text no_args = []
  args_text (more_args a args) = b' ' ∷ (quoted (arg_word a) ++ args_text args)

  pub node_text : Node → Bytes
  node_text (node name args) = name ++ args_text args

  pub nodes_text : Bool → Nodes → Bytes
  nodes_text first no_nodes = []
  nodes_text first (more_nodes n ns) =
      (if first then [] else codes " ; ") ++ (node_text n ++ nodes_text false ns)

-- Names are command names, and texts hold bytes other than NUL.
mutual
  pub data ValidArg : Arg → Type 0 where
    valid_text : {t : Bytes} → IsText t → ValidArg (text_arg t)
    valid_nested : {ns : Nodes} → ValidNodes ns → ValidArg (nested_arg ns)

  pub data ValidArgs : Args → Type 0 where
    valid_end : ValidArgs no_args
    valid_more :
        {a : Arg} {args : Args} → ValidArg a → ValidArgs args → ValidArgs (more_args a args)

  pub data ValidNode : Node → Type 0 where
    valid_node :
        {name : Bytes} {args : Args}
        → valid_command name ≡ true
        → ValidArgs args
        → ValidNode (node name args)

  pub data ValidNodes : Nodes → Type 0 where
    valid_stop : ValidNodes no_nodes
    valid_next :
        {n : Node} {ns : Nodes} → ValidNode n → ValidNodes ns → ValidNodes (more_nodes n ns)
