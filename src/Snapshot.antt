-- ===== src/Snapshot.antt =====
-- tmux/snapshot.go: the collected lists of one server, and `assess`, which looks for references between
-- them that do not hold. Its maps are the lists of their keys, and functions from keys to counts.
pub mod Assess
pub mod Resolved
mod Tests
use gotmux.Prelude.{
  ℕ, zero, suc, ◌+◌, Bool, true, false, Option, none, some, List, [], ◌∷◌, ◌++◌, map, Bytes, codes,
  bytes_eq, length, ltb, ◌==◌, if◌then◌else◌,
}
use gotmux.Identity.{ServerIdentity}
use gotmux.Rows.{
  Value, get_value, ObjectKind, no_object, session_object, window_object, pane_object,
  client_object, window_link_object, link_target, SessionInfo, WindowInfo, WindowLinkInfo, PaneInfo,
  ClientInfo, Handle, WindowLink,
}
use gotmux.Rows.Tables.{seen}

pub data Consistency : Type 0 where
  consistency_complete consistency_incomplete : Consistency

pub record MissingReference : Type 0 where
  pub kind : ObjectKind
  pub id : Bytes
  pub referenced_kind : ObjectKind
  pub referenced_id : Bytes
  pub reason : Bytes

pub record Snapshot : Type 0 where
  pub started : ℕ
  pub finished : ℕ
  pub identity : ServerIdentity
  pub consistency : Consistency
  pub missing_count : ℕ
  pub sessions : List SessionInfo
  pub windows : List WindowInfo
  pub links : List WindowLinkInfo
  pub panes : List PaneInfo
  pub clients : List ClientInfo
  pub missing : List MissingReference

abbrev pub max_missing_references : ℕ
max_missing_references = 128

-- `Snapshot.Pane`, `Snapshot.Window`, `Snapshot.Session` and `Snapshot.Client`: the first row whose
-- handle has the identifier.
unfoldable pub find_row : {A : Type 0} → (A → Handle) → Bytes → List A → Option A
find_row handle id [] = none
find_row handle id (v ∷ rows) =
    let rest = find_row handle id rows in if bytes_eq (handle v).id id then some v else rest

unfoldable pub find_pane : Snapshot → Bytes → Option PaneInfo
find_pane v id = find_row (λ p. p.h) id v.panes

unfoldable pub find_window : Snapshot → Bytes → Option WindowInfo
find_window v id = find_row (λ w. w.h) id v.windows

unfoldable pub find_session : Snapshot → Bytes → Option SessionInfo
find_session v id = find_row (λ s. s.h) id v.sessions

unfoldable pub find_client : Snapshot → Bytes → Option ClientInfo
find_client v name = find_row (λ c. c.h) name v.clients

-- `add`, the function that `assess` passes on.
unfoldable pub add : MissingReference → Snapshot → Snapshot
add m v = record v {
  consistency = consistency_incomplete;
  missing_count = v.missing_count + 1;
  missing =
      if ltb (length v.missing) max_missing_references then v.missing ++ m ∷ [] else v.missing;
}

unfoldable pub add_unless : Bool → MissingReference → Snapshot → Snapshot
add_unless true m v = v
add_unless false m v = add m v

-- `counts[key]++`
unfoldable pub increment : Bytes → (Bytes → ℕ) → Bytes → ℕ
increment key counts k = if bytes_eq k key then suc (counts k) else counts k

abbrev pub missing_session : WindowLinkInfo → MissingReference
missing_session l = record {
  kind = window_link_object;
  id = link_target l.link;
  referenced_kind = session_object;
  referenced_id = l.session_id;
  reason = codes "missing session";
}

abbrev pub missing_window : WindowLinkInfo → MissingReference
missing_window l = record {
  kind = window_link_object;
  id = link_target l.link;
  referenced_kind = window_object;
  referenced_id = l.window_id;
  reason = codes "missing window";
}

unfoldable pub check_link_references :
    List Bytes → List Bytes → List WindowLinkInfo → (Bytes → ℕ) → Snapshot → Snapshot × (Bytes → ℕ)
check_link_references sessions windows [] counts v = (v, counts)
check_link_references sessions windows (l ∷ links) counts v =
    check_link_references sessions windows links (increment l.session_id counts) (
      add_unless (seen l.window_id windows) (missing_window l)
        (add_unless (seen l.session_id sessions) (missing_session l) v))

abbrev pub missing_pane_window : PaneInfo → MissingReference
missing_pane_window p = record {
  kind = pane_object;
  id = p.id;
  referenced_kind = window_object;
  referenced_id = p.window_id;
  reason = codes "missing window";
}

unfoldable pub check_pane_references :
    List Bytes → List PaneInfo → (Bytes → ℕ) → Snapshot → Snapshot × (Bytes → ℕ)
check_pane_references windows [] counts v = (v, counts)
check_pane_references windows (p ∷ panes) counts v =
    check_pane_references windows panes (increment p.window_id counts)
      (add_unless (seen p.window_id windows) (missing_pane_window p) v)

abbrev pub window_count_differs : SessionInfo → MissingReference
window_count_differs s = record {
  kind = session_object;
  id = s.id;
  referenced_kind = no_object;
  referenced_id = [];
  reason = codes "observed window count differs from membership count";
}

unfoldable pub check_window_counts : (Bytes → ℕ) → List SessionInfo → Snapshot → Snapshot
check_window_counts counts [] v = v
check_window_counts counts (s ∷ sessions) v =
    check_window_counts counts sessions
      (add_unless (counts s.id == s.window_count) (window_count_differs s) v)

abbrev pub pane_count_differs : WindowInfo → MissingReference
pane_count_differs w = record {
  kind = window_object;
  id = w.id;
  referenced_kind = no_object;
  referenced_id = [];
  reason = codes "observed pane count differs from collected panes";
}

unfoldable pub check_pane_counts : (Bytes → ℕ) → List WindowInfo → Snapshot → Snapshot
check_pane_counts counts [] v = v
check_pane_counts counts (w ∷ windows) v =
    check_pane_counts counts windows
      (add_unless (counts w.id == w.pane_count) (pane_count_differs w) v)

abbrev pub missing_client_session : ClientInfo → Bytes → MissingReference
missing_client_session c sid = record {
  kind = client_object;
  id = c.name;
  referenced_kind = session_object;
  referenced_id = sid;
  reason = codes "missing client session";
}

unfoldable pub check_client : List Bytes → ClientInfo → Option Bytes → Snapshot → Snapshot
check_client sessions c none v = v
check_client sessions c (some sid) v =
    add_unless (seen sid sessions) (missing_client_session c sid) v

unfoldable pub check_clients : List Bytes → List ClientInfo → Snapshot → Snapshot
check_clients sessions [] v = v
check_clients sessions (c ∷ clients) v =
    check_clients sessions clients (check_client sessions c (get_value c.session_id) v)

abbrev pub session_ids : Snapshot → List Bytes
session_ids v = map (λ s. s.id) v.sessions

abbrev pub window_ids : Snapshot → List Bytes
window_ids v = map (λ w. w.id) v.windows

unfoldable pub assess : Snapshot → Snapshot
assess v =
    let after_links = check_link_references (session_ids v) (window_ids v) v.links (λ _. 0) v in
    let after_panes = check_pane_references (window_ids v) v.panes (λ _. 0) after_links.0 in
    check_clients (session_ids v) v.clients (
      check_pane_counts after_panes.1 v.windows
        (check_window_counts after_links.1 v.sessions after_panes.0))
