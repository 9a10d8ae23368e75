-- ===== src/Guard.antt =====
-- tmux/identity.go: the guard that a plan is wrapped in, which checks the daemon's identity, the
-- window links and the clients that the plan's handles were made from. A start time is its number
-- of seconds; a process id, an index and a creation time are not negative.
mod Outcome
mod Tests
use gotmux.Prelude.{
  ℕ, ◌≤◌, Bool, true, false, ◌||◌, Option, none, some, List, [], ◌∷◌, ◌++◌, Bytes, codes,
  cut_prefix, Error, err_server_changed, err_link_changed, err_client_changed, err_not_found,
  err_protocol, ltb, ◌==◌, if◌then◌else◌,
}
use gotmux.Prelude.Cut.{trim_newline}
use gotmux.Prelude.Decimal.{itoa}
use gotmux.Command.{
  Arg, Args, Node, Nodes, Plan, text_arg, nested_arg, no_args, more_args, node, no_nodes,
  more_nodes, leaf,
}

-- The parts of `ServerIdentity` that a condition reads.
pub record ServerIdentity : Type 0 where
  pub reported_socket : Bytes
  pub pid : ℕ
  pub started : ℕ

pub record LinkCheck : Type 0 where
  pub session : Bytes
  pub index : ℕ
  pub window : Bytes

pub record ClientCheck : Type 0 where
  pub name : Bytes
  pub pid : ℕ
  pub created : ℕ

pub record Guard : Type 0 where
  pub identity : ServerIdentity
  pub links : List LinkCheck
  pub clients : List ClientCheck

-- The constants that begin with `guard`.
pub data Marker : Type 0 where
  guard_ok guard_server_changed guard_link_changed guard_client_changed : Marker

unfoldable pub marker : Marker → Bytes
marker guard_ok = codes "TGO-GUARD-1:ok" ++ 10 ∷ []
marker guard_server_changed = codes "TGO-GUARD-1:server-changed" ++ 10 ∷ []
marker guard_link_changed = codes "TGO-GUARD-1:link-changed" ++ 10 ∷ []
marker guard_client_changed = codes "TGO-GUARD-1:client-changed" ++ 10 ∷ []

unfoldable pub format_bytes : Bytes → Bytes
format_bytes [] = []
format_bytes (b ∷ s) =
    let rest = format_bytes s in
    if ltb b 32 || ltb 126 b then b ∷ rest else codes "#{a:" ++ itoa b ++ codes "}" ++ rest

unfoldable pub eq_format : Bytes → Bytes → Bytes
eq_format variable value =
    codes "#{==:#{" ++ variable ++ codes "}," ++ format_bytes value ++ codes "}"

unfoldable pub and_format : Bytes → Bytes → Bytes
and_format a b = codes "#{&&:" ++ a ++ codes "," ++ b ++ codes "}"

-- `ServerIdentity.condition`
unfoldable pub condition : ServerIdentity → Bytes
condition i =
    and_format
      (and_format (eq_format (codes "pid") (itoa i.pid))
        (eq_format (codes "start_time") (itoa i.started)))
      (eq_format (codes "socket_path") i.reported_socket)

unfoldable pub marker_node : Bytes → Node
unfolding trim_newline
marker_node s =
    leaf (record { name = codes "display-message"; args = codes "-p" ∷ trim_newline s ∷ [] })

branches : Bytes → Nodes → Nodes → Args
branches c then_nodes else_nodes =
    more_args (text_arg c)
      (more_args (nested_arg then_nodes) (more_args (nested_arg else_nodes) no_args))

with_target : Bytes → Args → Args
with_target [] args = args
with_target (b ∷ target) args =
    more_args (text_arg (codes "-t")) (more_args (text_arg (b ∷ target)) args)

unfoldable pub condition_node : Bytes → Nodes → Nodes → Bytes → Node
unfolding branches with_target
condition_node c then_nodes else_nodes target =
    node (codes "if-shell")
      (more_args (text_arg (codes "-F")) (with_target target (branches c then_nodes else_nodes)))

unfoldable pub one_node : Node → Nodes
one_node n = more_nodes n no_nodes

unfoldable pub client_condition : ClientCheck → Bytes
client_condition c =
    codes "#{L:#{?"
    ++ and_format (eq_format (codes "client_name") c.name) (
        and_format (eq_format (codes "client_pid") (itoa c.pid))
          (eq_format (codes "client_created") (itoa c.created)))
    ++ codes ",1,}}"

unfoldable pub link_condition : LinkCheck → Bytes
link_condition l =
    codes "#{W:#{?"
    ++ and_format (eq_format (codes "window_id") l.window)
        (eq_format (codes "window_index") (itoa l.index))
    ++ codes ",1,}}"

unfoldable pub link_target : LinkCheck → Bytes
link_target l = l.session ++ codes ":"

-- The loop over the clients, and the one over the links: the first is the outermost.
unfoldable pub wrap_clients : List ClientCheck → Nodes → Nodes
wrap_clients [] nodes = nodes
wrap_clients (c ∷ cs) nodes = one_node (
    condition_node (client_condition c) (wrap_clients cs nodes)
      (one_node (marker_node (marker guard_client_changed))) [])

unfoldable pub wrap_links : List LinkCheck → Nodes → Nodes
wrap_links [] nodes = nodes
wrap_links (l ∷ ls) nodes = one_node (
    condition_node (link_condition l) (wrap_links ls nodes)
      (one_node (marker_node (marker guard_link_changed))) (link_target l))

unfoldable pub wrap : Guard → Plan → Plan
wrap g p = record {
  nodes = one_node (
      condition_node (condition g.identity)
        (wrap_links g.links
          (wrap_clients g.clients (more_nodes (marker_node (marker guard_ok)) p.nodes)))
        (one_node (marker_node (marker guard_server_changed))) []);
  mode = p.mode;
  allow_start = p.allow_start;
}

-- The end of `unwrap`: no marker is there.
unfoldable pub unmarked : Guard → Option Error → Option Error
unmarked g none = some err_protocol
unmarked g (some e) = elim g.links [
  | [] ↦ some e
  | ◌∷◌ _ _ ↦ some (elim e [ err_not_found ↦ err_link_changed | other ↦ other ])
]

-- `unwrap` on the standard output and the error of a run: the output without its marker, and the
-- first cause of the error.
unfoldable pub unwrap : Guard → Bytes → Option Error → Bytes × Option Error
unwrap g out e = elim (cut_prefix (marker guard_server_changed) out) [
  | some rest ↦ (rest, some err_server_changed)
  | none ↦ elim (cut_prefix (marker guard_link_changed) out) [
    | some rest ↦ (rest, some err_link_changed)
    | none ↦ elim (cut_prefix (marker guard_client_changed) out) [
      | some rest ↦ (rest, some err_client_changed)
      | none ↦ elim (cut_prefix (marker guard_ok) out) [
        | some rest ↦ (rest, e)
        | none ↦ (out, unmarked g e)
      ]
    ]
  ]
]
