-- ===== src/Guard/Outcome.antt =====
-- What `unwrap` of tmux/identity.go makes of a run of what `wrap` has built.
use gotmux.Prelude.{
  Bool, Option, none, some, List, [], ◌∷◌, Bytes, Error, err_server_changed, err_link_changed,
  err_client_changed, if◌then◌else◌,
}
use gotmux.Guard.{
  Guard, LinkCheck, ClientCheck, Marker, guard_ok, guard_server_changed, guard_link_changed,
  guard_client_changed, marker, condition, link_condition, link_target, client_condition,
}

-- The marker that the first failing check prints, if one fails.
unfoldable pub clients_failing : (Bytes → Bytes → Bool) → List ClientCheck → Option Marker
clients_failing holds [] = none
clients_failing holds (c ∷ cs) =
    let rest = clients_failing holds cs in
    if holds (client_condition c) [] then rest else some guard_client_changed

unfoldable pub links_failing :
    (Bytes → Bytes → Bool) → List LinkCheck → Option Marker → Option Marker
links_failing holds [] next = next
links_failing holds (l ∷ ls) next =
    let rest = links_failing holds ls next in
    if holds (link_condition l) (link_target l) then rest else some guard_link_changed

unfoldable pub first_failing : (Bytes → Bytes → Bool) → Guard → Option Marker
first_failing holds g =
    if holds (condition g.identity) []
    then links_failing holds g.links (clients_failing holds g.clients)
    else some guard_server_changed

-- The error that a marker stands for, given that of the run.
abbrev pub cause : Marker → Option Error → Option Error
cause guard_ok e = e
cause guard_server_changed e = some err_server_changed
cause guard_link_changed e = some err_link_changed
cause guard_client_changed e = some err_client_changed

-- What the checks print, before the output of the nodes inside.
abbrev pub printed : Option Marker → Bytes → Bytes
printed none out = out
printed (some k) out = marker k

abbrev pub outcome : Option Marker → Bytes → Option Error → Bytes × Option Error
outcome none out e = (out, e)
outcome (some k) out e = ([], cause k e)
