-- ===== src/Guard/Tests.antt =====
-- A guarded plan of tmux/identity.go on a daemon that follows `if-shell -F` and
-- `display-message -p`.
use gotmux.Prelude.{Bool, true, false, List, [], ◌∷◌, ◌++◌, Bytes, codes, bytes_eq, if◌then◌else◌}
use gotmux.Command.{
  Args, Node, Nodes, Plan, text_arg, nested_arg, no_args, more_args, node, no_nodes, more_nodes,
  reply_empty,
}
use gotmux.Guard.{Guard}

-- Every condition holds, but in the session "$2:".
holds : Bytes → Bytes → Bool
holds c target = if bytes_eq target (codes "$2:") then false else true

-- A command, by its name, its texts and the output of its nested nodes.
run_if : List (Bytes × Bytes) → Bytes
run_if (flag ∷ c ∷ yes_part ∷ no_part ∷ []) = if holds c.0 [] then yes_part.1 else no_part.1
run_if (flag ∷ option ∷ target ∷ c ∷ yes_part ∷ no_part ∷ []) =
    if holds c.0 target.0 then yes_part.1 else no_part.1
run_if _ = []

run_message : List (Bytes × Bytes) → Bytes
run_message (flag ∷ text ∷ []) = text.0 ++ 10 ∷ []
run_message _ = []

run_command : Bytes → List (Bytes × Bytes) → Bytes
run_command name parts =
    if bytes_eq name (codes "if-shell") then run_if parts else run_message parts

mutual
  exec : Nodes → Bytes
  exec no_nodes = []
  exec (more_nodes n rest) = exec_node n ++ exec rest

  exec_node : Node → Bytes
  exec_node (node name args) = run_command name (exec_args args)

  exec_args : Args → List (Bytes × Bytes)
  exec_args no_args = []
  exec_args (more_args (text_arg t) rest) = (t, []) ∷ exec_args rest
  exec_args (more_args (nested_arg ns) rest) = ([], exec ns) ∷ exec_args rest

abbrev guard : Guard
guard = record {
  identity = record { reported_socket = codes "/tmp/s"; pid = 12; started = 1700 };
  links =
      record { session = codes "$1"; index = 0; window = codes "@1" }
      ∷ record { session = codes "$2"; index = 3; window = codes "@2" }
      ∷ [];
  clients = record { name = codes "/dev/pts/1"; pid = 44; created = 1800 } ∷ [];
}

abbrev plan : Plan
plan = record { nodes = no_nodes; mode = reply_empty; allow_start = false }
