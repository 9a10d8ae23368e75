-- ===== src/Snapshot/Assess.antt =====
-- tmux/snapshot.go: what `assess` reports.
use gotmux.Prelude.{
  ℕ, suc, ◌+◌, ◌≡◌, refl, ap, ◌∙◌, Bool, true, false, Option, none, some, List, [], ◌∷◌, ◌++◌, map,
  Bytes, bytes_eq, ◌==◌, if◌then◌else◌, arith,
}
use gotmux.Rows.{get_value, SessionInfo, WindowInfo, WindowLinkInfo, PaneInfo, ClientInfo}
use gotmux.Rows.Tables.{seen}
use gotmux.Snapshot.{
  MissingReference, Snapshot, add, add_unless, increment, missing_session, missing_window,
  check_link_references, missing_pane_window, check_pane_references, window_count_differs,
  check_window_counts, pane_count_differs, check_pane_counts, missing_client_session, check_client,
  check_clients, session_ids, window_ids, assess,
}

unfoldable pub unless : Bool → MissingReference → List MissingReference
unless true m = []
unless false m = m ∷ []

-- Adding a list of references, in order.
unfoldable pub adds : List MissingReference → Snapshot → Snapshot
adds [] v = v
adds (m ∷ ms) v = adds ms (add m v)

adds-append :
    (ms ns : List MissingReference) (v : Snapshot) → adds ns (adds ms v) ≡ adds (ms ++ ns) v
unfolding adds
adds-append [] ns v = refl
adds-append (m ∷ ms) ns v = adds-append ms ns (add m v)

add_unless-adds :
    (b : Bool) (m : MissingReference) (v : Snapshot) → add_unless b m v ≡ adds (unless b m) v
unfolding add_unless adds unless
add_unless-adds true m v = refl
add_unless-adds false m v = refl

-- The references of each list that do not hold.
unfoldable pub links_missing : List Bytes → List Bytes → List WindowLinkInfo → List MissingReference
links_missing sessions windows [] = []
links_missing sessions windows (l ∷ links) =
    unless (seen l.session_id sessions) (missing_session l)
    ++ (unless (seen l.window_id windows) (missing_window l)
        ++ links_missing sessions windows links)

unfoldable pub panes_missing : List Bytes → List PaneInfo → List MissingReference
panes_missing windows [] = []
panes_missing windows (p ∷ panes) =
    unless (seen p.window_id windows) (missing_pane_window p) ++ panes_missing windows panes

unfoldable pub sessions_missing : (Bytes → ℕ) → List SessionInfo → List MissingReference
sessions_missing counts [] = []
sessions_missing counts (s ∷ sessions) =
    unless (counts s.id == s.window_count) (window_count_differs s)
    ++ sessions_missing counts sessions

unfoldable pub windows_missing : (Bytes → ℕ) → List WindowInfo → List MissingReference
windows_missing counts [] = []
windows_missing counts (w ∷ windows) =
    unless (counts w.id == w.pane_count) (pane_count_differs w) ++ windows_missing counts windows

unfoldable pub client_missing : List Bytes → ClientInfo → Option Bytes → List MissingReference
client_missing sessions c none = []
client_missing sessions c (some sid) = unless (seen sid sessions) (missing_client_session c sid)

unfoldable pub clients_missing : List Bytes → List ClientInfo → List MissingReference
clients_missing sessions [] = []
clients_missing sessions (c ∷ clients) =
    client_missing sessions c (get_value c.session_id) ++ clients_missing sessions clients

-- How many of the keys are this one.
unfoldable pub count_of : Bytes → List Bytes → ℕ
count_of k [] = 0
count_of k (j ∷ keys) = if bytes_eq k j then suc (count_of k keys) else count_of k keys

unfoldable pub link_sessions : Snapshot → List Bytes
link_sessions v = map (λ l. l.session_id) v.links

unfoldable pub pane_windows : Snapshot → List Bytes
pane_windows v = map (λ p. p.window_id) v.panes

check_link_references-adds :
    (sessions windows : List Bytes) (links : List WindowLinkInfo) (counts : Bytes → ℕ)
    (v : Snapshot)
    → ((check_link_references sessions windows links counts v).0
        ≡ adds (links_missing sessions windows links) v)
      × ((k : Bytes)
          → (check_link_references sessions windows links counts v).1 k
            ≡ counts k + count_of k (map (λ l. l.session_id) links))
unfolding check_link_references links_missing adds count_of increment
check_link_references-adds sessions windows [] counts v = (refl, λ k. omega arith)
check_link_references-adds sessions windows (l ∷ links) counts v =
    let a = unless (seen l.session_id sessions) (missing_session l) in
    let b = unless (seen l.window_id windows) (missing_window l) in
    let rest = links_missing sessions windows links in
    let inner = add_unless (seen l.session_id sessions) (missing_session l) v in
    let (e, c) =
      check_link_references-adds sessions windows links (increment l.session_id counts)
        (add_unless (seen l.window_id windows) (missing_window l) inner) in
    (
      e
          ∙ ap (adds rest) (add_unless-adds (seen l.window_id windows) (missing_window l) inner)
          ∙ adds-append b rest inner
          ∙ ap (adds (b ++ rest))
              (add_unless-adds (seen l.session_id sessions) (missing_session l) v)
          ∙ adds-append a (b ++ rest) v,
      λ k. c k ∙ ground arith,
    )

check_pane_references-adds :
    (windows : List Bytes) (panes : List PaneInfo) (counts : Bytes → ℕ) (v : Snapshot)
    → ((check_pane_references windows panes counts v).0 ≡ adds (panes_missing windows panes) v)
      × ((k : Bytes)
          → (check_pane_references windows panes counts v).1 k
            ≡ counts k + count_of k (map (λ p. p.window_id) panes))
unfolding check_pane_references panes_missing adds count_of increment
check_pane_references-adds windows [] counts v = (refl, λ k. omega arith)
check_pane_references-adds windows (p ∷ panes) counts v =
    let a = unless (seen p.window_id windows) (missing_pane_window p) in
    let rest = panes_missing windows panes in
    let (e, c) =
      check_pane_references-adds windows panes (increment p.window_id counts)
        (add_unless (seen p.window_id windows) (missing_pane_window p) v) in
    (
      e
          ∙ ap (adds rest) (add_unless-adds (seen p.window_id windows) (missing_pane_window p) v)
          ∙ adds-append a rest v,
      λ k. c k ∙ ground arith,
    )

-- The counts that a check reads are those of the keys.
check_window_counts-adds :
    (keys : List Bytes) (counts : Bytes → ℕ) (sessions : List SessionInfo) (v : Snapshot)
    → ((k : Bytes) → counts k ≡ count_of k keys)
    → check_window_counts counts sessions v
      ≡ adds (sessions_missing (λ k. count_of k keys) sessions) v
unfolding check_window_counts sessions_missing adds
check_window_counts-adds keys counts [] v h = refl
check_window_counts-adds keys counts (s ∷ sessions) v h =
    let a = unless (count_of s.id keys == s.window_count) (window_count_differs s) in
    let rest = sessions_missing (λ k. count_of k keys) sessions in
    check_window_counts-adds keys counts sessions _ h
    ∙ ap (λ n. adds rest (add_unless (n == s.window_count) (window_count_differs s) v)) (h s.id)
    ∙ ap (adds rest)
        (add_unless-adds (count_of s.id keys == s.window_count) (window_count_differs s) v)
    ∙ adds-append a rest v

check_pane_counts-adds :
    (keys : List Bytes) (counts : Bytes → ℕ) (windows : List WindowInfo) (v : Snapshot)
    → ((k : Bytes) → counts k ≡ count_of k keys)
    → check_pane_counts counts windows v ≡ adds (windows_missing (λ k. count_of k keys) windows) v
unfolding check_pane_counts windows_missing adds
check_pane_counts-adds keys counts [] v h = refl
check_pane_counts-adds keys counts (w ∷ windows) v h =
    let a = unless (count_of w.id keys == w.pane_count) (pane_count_differs w) in
    let rest = windows_missing (λ k. count_of k keys) windows in
    check_pane_counts-adds keys counts windows _ h
    ∙ ap (λ n. adds rest (add_unless (n == w.pane_count) (pane_count_differs w) v)) (h w.id)
    ∙ ap (adds rest) (add_unless-adds (count_of w.id keys == w.pane_count) (pane_count_differs w) v)
    ∙ adds-append a rest v

check_client-adds :
    (sessions : List Bytes) (c : ClientInfo) (o : Option Bytes) (v : Snapshot)
    → check_client sessions c o v ≡ adds (client_missing sessions c o) v
unfolding check_client client_missing adds
check_client-adds sessions c none v = refl
check_client-adds sessions c (some sid) v =
    add_unless-adds (seen sid sessions) (missing_client_session c sid) v

check_clients-adds :
    (sessions : List Bytes) (clients : List ClientInfo) (v : Snapshot)
    → check_clients sessions clients v ≡ adds (clients_missing sessions clients) v
unfolding check_clients clients_missing adds
check_clients-adds sessions [] v = refl
check_clients-adds sessions (c ∷ clients) v =
    check_clients-adds sessions clients _
    ∙ ap (adds (clients_missing sessions clients))
        (check_client-adds sessions c (get_value c.session_id) v)
    ∙ adds-append (client_missing sessions c (get_value c.session_id))
        (clients_missing sessions clients) v

-- All references of a snapshot that do not hold, in the order in which they are looked for.
unfoldable pub dangling : Snapshot → List MissingReference
dangling v =
    links_missing (session_ids v) (window_ids v) v.links
    ++ (panes_missing (window_ids v) v.panes
        ++ (sessions_missing (λ k. count_of k (link_sessions v)) v.sessions
            ++ (windows_missing (λ k. count_of k (pane_windows v)) v.windows
                ++ clients_missing (session_ids v) v.clients)))

pub assess-adds : (v : Snapshot) → assess v ≡ adds (dangling v) v
unfolding assess dangling link_sessions pane_windows
assess-adds v =
    let a = links_missing (session_ids v) (window_ids v) v.links in
    let b = panes_missing (window_ids v) v.panes in
    let c = sessions_missing (λ k. count_of k (link_sessions v)) v.sessions in
    let d = windows_missing (λ k. count_of k (pane_windows v)) v.windows in
    let e = clients_missing (session_ids v) v.clients in
    let links = check_link_references (session_ids v) (window_ids v) v.links (λ _. 0) v in
    let links_ok = check_link_references-adds (session_ids v) (window_ids v) v.links (λ _. 0) v in
    let panes = check_pane_references (window_ids v) v.panes (λ _. 0) links.0 in
    let panes_ok = check_pane_references-adds (window_ids v) v.panes (λ _. 0) links.0 in
    check_clients-adds (session_ids v) v.clients _
    ∙ ap (adds e) (
        check_pane_counts-adds (pane_windows v) panes.1 v.windows _
          (λ k. panes_ok.1 k ∙ omega arith)
        ∙ ap (adds d) (
            check_window_counts-adds (link_sessions v) links.1 v.sessions _
              (λ k. links_ok.1 k ∙ omega arith)
            ∙ ap (adds c) (panes_ok.0 ∙ ap (adds b) links_ok.0)))
    ∙ adds-append d e _
    ∙ adds-append c (d ++ e) _
    ∙ adds-append b (c ++ (d ++ e)) _
    ∙ adds-append a (b ++ (c ++ (d ++ e))) v
