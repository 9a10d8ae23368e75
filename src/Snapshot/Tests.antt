-- ===== src/Snapshot/Tests.antt =====
-- `assess` of tmux/snapshot.go on a snapshot with a window that is linked to no session.
use gotmux.Prelude.{◌≡◌, ◌↔◌, refl, false, none, some, [], ◌∷◌, codes, length, take}
use gotmux.Rows.{window_object, WindowLinkInfo, Handle}
use gotmux.Identity.{ServerIdentity}
use gotmux.Rows.Tables.{seen}
use gotmux.Snapshot.{
  Snapshot, consistency_complete, max_missing_references, assess, check_clients, check_pane_counts,
  check_window_counts, check_pane_references, check_link_references, add_unless, add,
}
use gotmux.Snapshot.Assess.{dangling}
use gotmux.Snapshot.Resolved.{IsResolved, assess_report}

abbrev daemon : ServerIdentity
daemon = record {
  endpoint = record { socket_path = []; socket_name = []; temp_dir = []; uid = 0 };
  reported_socket = codes "/tmp/t";
  pid = 1;
  started = some 1;
  generation = 0;
}

abbrev handle : Handle
handle = record { origin = daemon; id = codes "@1"; kind = window_object; client = none }

abbrev lonely : WindowLinkInfo
lonely = record {
  raw = [];
  session_id = codes "$1";
  window_id = codes "@1";
  window_name = [];
  index = 0;
  active = false;
  flags = [];
  link = record { h = handle; session = codes "$1"; index = 0 };
}

abbrev collected : Snapshot
collected = record {
  started = 1;
  finished = 2;
  identity = daemon;
  consistency = consistency_complete;
  missing_count = 0;
  sessions = [];
  windows = [];
  links = lonely ∷ [];
  panes = [];
  clients = [];
  missing = [];
}

assess_report_example :
    (((assess collected).consistency ≡ consistency_complete) ↔ IsResolved collected)
    × ((assess collected).missing_count ≡ length (dangling collected))
    × ((assess collected).missing ≡ take max_missing_references (dangling collected))
assess_report_example = assess_report collected refl refl refl

two_missing : (assess collected).missing_count ≡ 2
unfolding assess check_clients check_pane_counts check_window_counts check_pane_references
    check_link_references add_unless seen add
two_missing = refl
