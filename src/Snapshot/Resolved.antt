-- ===== src/Snapshot/Resolved.antt =====
-- tmux/snapshot.go: when a snapshot is complete.
use gotmux.Prelude.{
  ℕ, zero, suc, ◌+◌, ◌≤◌, ◌≡◌, ◌↔◌, refl, sym, ap, ◌∙◌, ◌⊎◌, inl, inr, Bool, true, false, Option,
  none, some, List, [], ◌∷◌, ◌++◌, append-nil, append_assoc, Bytes, All, bytes_eq, bytes_eq_iff,
  length, length-append, take, take-length, ltb, ◌==◌, ==_iff, Bool-cases, arith,
}
use gotmux.Rows.{get_value, SessionInfo, WindowInfo, WindowLinkInfo, PaneInfo, ClientInfo}
use gotmux.Rows.Tables.{seen}
use gotmux.Snapshot.{
  consistency_complete, consistency_incomplete, MissingReference, Snapshot, max_missing_references,
  add, missing_session, missing_window, missing_pane_window, window_count_differs,
  pane_count_differs, missing_client_session, session_ids, window_ids, assess,
}
use gotmux.Snapshot.Assess.{
  unless, adds, links_missing, panes_missing, sessions_missing, windows_missing, client_missing,
  clients_missing, count_of, link_sessions, pane_windows, dangling, assess-adds,
}

-- A key is one of a list.
abbrev pub In : Bytes → List Bytes → Type 0
In k [] = ⊥
In k (j ∷ keys) = (k ≡ j) ⊎ In k keys

seen_iff : (k : Bytes) (keys : List Bytes) → (seen k keys ≡ true) ↔ In k keys
unfolding seen
seen_iff k [] = (λ h. cc, λ h. elim h [ ])
seen_iff k (j ∷ keys) = elim (Bool-cases (bytes_eq k j)) [
  | inl e ↦ (λ h. inl ((bytes_eq_iff k j).0 e), λ h. rw e refl)
  | inr e ↦ (
    λ h. inr ((seen_iff k keys).0 (rw e at h)),
    λ h. elim h [
      | inl same ↦ absurd (ground (arith, e, (bytes_eq_iff k j).1 same))
      | inr later ↦ rw e ((seen_iff k keys).1 later)
    ],
  )
]

abbrev ClientResolves : List Bytes → Option Bytes → Type 0
ClientResolves sessions none = Unit
ClientResolves sessions (some sid) = In sid sessions

-- Every reference between the lists holds, and the counts that tmux reports are those of the lists.
pub record IsResolved (v : Snapshot) : Type 0 where
  pub links_resolve :
      All (λ l. In l.session_id (session_ids v) × In l.window_id (window_ids v)) v.links
  pub panes_resolve : All (λ p. In p.window_id (window_ids v)) v.panes
  pub windows_counted : All (λ s. count_of s.id (link_sessions v) ≡ s.window_count) v.sessions
  pub panes_counted : All (λ w. count_of w.id (pane_windows v) ≡ w.pane_count) v.windows
  pub clients_resolve : All (λ c. ClientResolves (session_ids v) (get_value c.session_id)) v.clients

append_nil_iff : {A : Type 0} (xs ys : List A) → (xs ++ ys ≡ []) ↔ ((xs ≡ []) × (ys ≡ []))
append_nil_iff [] ys = (λ h. (refl, h), λ h. h.1)
append_nil_iff (x ∷ xs) ys = (λ h. cc, λ h. absurd (cc (h.0)))

unless_nil_iff : (b : Bool) (m : MissingReference) → (unless b m ≡ []) ↔ (b ≡ true)
unfolding unless
unless_nil_iff true m = (λ h. refl, λ h. refl)
unless_nil_iff false m = (λ h. cc, λ h. cc)

-- A list of references with that of one more row.
step_nil_iff :
    {P Q : Type 0} (b : Bool) (m : MissingReference) (rest : List MissingReference)
    → ((b ≡ true) ↔ P)
    → ((rest ≡ []) ↔ Q)
    → (unless b m ++ rest ≡ []) ↔ (P × Q)
step_nil_iff b m rest p q =
    let parts = append_nil_iff (unless b m) rest in
    let one = unless_nil_iff b m in
    (λ h. (p.0 (one.0 (parts.0 h).0), q.0 (parts.0 h).1), λ h. parts.1 (one.1 (p.1 h.0), q.1 h.1))

links_nil_iff :
    (sessions windows : List Bytes) (links : List WindowLinkInfo)
    → (links_missing sessions windows links ≡ [])
      ↔ All (λ l. In l.session_id sessions × In l.window_id windows) links
unfolding links_missing
links_nil_iff sessions windows [] = (λ h. tt, λ h. refl)
links_nil_iff sessions windows (l ∷ links) =
    let both =
      step_nil_iff (seen l.session_id sessions) (missing_session l) _
        (seen_iff l.session_id sessions)
        (step_nil_iff (seen l.window_id windows) (missing_window l) _ (seen_iff l.window_id windows)
          (links_nil_iff sessions windows links)) in
    (λ h. (((both.0 h).0, (both.0 h).1.0), (both.0 h).1.1), λ h. both.1 (h.0.0, (h.0.1, h.1)))

panes_nil_iff :
    (windows : List Bytes) (panes : List PaneInfo)
    → (panes_missing windows panes ≡ []) ↔ All (λ p. In p.window_id windows) panes
unfolding panes_missing
panes_nil_iff windows [] = (λ h. tt, λ h. refl)
panes_nil_iff windows (p ∷ panes) =
    step_nil_iff (seen p.window_id windows) (missing_pane_window p) _ (seen_iff p.window_id windows)
      (panes_nil_iff windows panes)

sessions_nil_iff :
    (counts : Bytes → ℕ) (sessions : List SessionInfo)
    → (sessions_missing counts sessions ≡ []) ↔ All (λ s. counts s.id ≡ s.window_count) sessions
unfolding sessions_missing
sessions_nil_iff counts [] = (λ h. tt, λ h. refl)
sessions_nil_iff counts (s ∷ sessions) =
    step_nil_iff (counts s.id == s.window_count) (window_count_differs s) _
      (==_iff (counts s.id) s.window_count) (sessions_nil_iff counts sessions)

windows_nil_iff :
    (counts : Bytes → ℕ) (windows : List WindowInfo)
    → (windows_missing counts windows ≡ []) ↔ All (λ w. counts w.id ≡ w.pane_count) windows
unfolding windows_missing
windows_nil_iff counts [] = (λ h. tt, λ h. refl)
windows_nil_iff counts (w ∷ windows) =
    step_nil_iff (counts w.id == w.pane_count) (pane_count_differs w) _
      (==_iff (counts w.id) w.pane_count) (windows_nil_iff counts windows)

client_nil_iff :
    (sessions : List Bytes) (c : ClientInfo) (o : Option Bytes)
    → (client_missing sessions c o ≡ []) ↔ ClientResolves sessions o
unfolding client_missing
client_nil_iff sessions c none = (λ h. tt, λ h. refl)
client_nil_iff sessions c (some sid) =
    let one = unless_nil_iff (seen sid sessions) (missing_client_session c sid) in
    (λ h. (seen_iff sid sessions).0 (one.0 h), λ h. one.1 ((seen_iff sid sessions).1 h))

clients_nil_iff :
    (sessions : List Bytes) (clients : List ClientInfo)
    → (clients_missing sessions clients ≡ [])
      ↔ All (λ c. ClientResolves sessions (get_value c.session_id)) clients
unfolding clients_missing
clients_nil_iff sessions [] = (λ h. tt, λ h. refl)
clients_nil_iff sessions (c ∷ clients) =
    let one = client_nil_iff sessions c (get_value c.session_id) in
    let rest = clients_nil_iff sessions clients in
    let parts =
      append_nil_iff (client_missing sessions c (get_value c.session_id))
        (clients_missing sessions clients) in
    (λ h. (one.0 (parts.0 h).0, rest.0 (parts.0 h).1), λ h. parts.1 (one.1 h.0, rest.1 h.1))

dangling_nil_iff : (v : Snapshot) → (dangling v ≡ []) ↔ IsResolved v
unfolding dangling
dangling_nil_iff v =
    let counts = λ (k : Bytes). count_of k (link_sessions v) in
    let pane_counts = λ (k : Bytes). count_of k (pane_windows v) in
    let a = links_nil_iff (session_ids v) (window_ids v) v.links in
    let b = panes_nil_iff (window_ids v) v.panes in
    let c = sessions_nil_iff counts v.sessions in
    let d = windows_nil_iff pane_counts v.windows in
    let e = clients_nil_iff (session_ids v) v.clients in
    let de =
      append_nil_iff (windows_missing pane_counts v.windows)
        (clients_missing (session_ids v) v.clients) in
    let cde = append_nil_iff (sessions_missing counts v.sessions) _ in
    let bcde = append_nil_iff (panes_missing (window_ids v) v.panes) _ in
    let all = append_nil_iff (links_missing (session_ids v) (window_ids v) v.links) _ in
    (
      λ h.
          let (ha, h1) = all.0 h in
          let (hb, h2) = bcde.0 h1 in
          let (hc, h3) = cde.0 h2 in
          let (hd, he) = de.0 h3 in
          record {
            links_resolve = a.0 ha;
            panes_resolve = b.0 hb;
            windows_counted = c.0 hc;
            panes_counted = d.0 hd;
            clients_resolve = e.0 he;
          },
      λ r. all.1 (
        a.1 r.links_resolve,
        bcde.1 (
          b.1 r.panes_resolve,
          cde.1 (c.1 r.windows_counted, de.1 (d.1 r.panes_counted, e.1 r.clients_resolve)),
        ),
      ),
    )

take-all : {A : Type 0} (n : ℕ) (xs : List A) → length xs ≤ n → take n xs ≡ xs
take-all zero [] h = refl
take-all (suc n) [] h = refl
take-all zero (x ∷ xs) h = absurd (omega (arith, h))
take-all (suc n) (x ∷ xs) h = ap (λ t. x ∷ t) (take-all n xs (omega (arith, h)))

take-full : {A : Type 0} (n : ℕ) (xs ys : List A) → length xs ≡ n → take n (xs ++ ys) ≡ xs
take-full n xs ys h = ap (λ k. take k (xs ++ ys)) (sym h) ∙ take-length xs ys

add_room :
    (m : MissingReference) (v : Snapshot)
    → ltb (length v.missing) max_missing_references ≡ true
    → (add m v).missing ≡ v.missing ++ m ∷ []
unfolding add
add_room m v e = rw e refl

add_full :
    (m : MissingReference) (v : Snapshot)
    → ltb (length v.missing) max_missing_references ≡ false
    → (add m v).missing ≡ v.missing
unfolding add
add_full m v e = rw e refl

-- What adding references does to the report.
adds_report :
    (ms : List MissingReference) (v : Snapshot)
    → length v.missing ≤ max_missing_references
    → ((adds ms v).missing_count ≡ v.missing_count + length ms)
      × ((adds ms v).missing ≡ take max_missing_references (v.missing ++ ms))
unfolding adds add
adds_report [] v h = (
  omega arith,
  sym (
      ap (take max_missing_references) (append-nil v.missing)
      ∙ take-all max_missing_references v.missing h),
)
adds_report (m ∷ ms) v h = elim (Bool-cases (ltb (length v.missing) max_missing_references)) [
  | inl room ↦
      let here = add_room m v room in
      let fits : length (add m v).missing ≤ max_missing_references =
        ground (arith, room, ap length here, length-append v.missing (m ∷ [])) in
      (
        (adds_report ms (add m v) fits).0 ∙ omega arith,
        (adds_report ms (add m v) fits).1
            ∙ ap (λ x. take max_missing_references (x ++ ms)) here
            ∙ ap (take max_missing_references) (append_assoc v.missing (m ∷ []) ms),
      )
  | inr full ↦
      let here = add_full m v full in
      let fits : length (add m v).missing ≤ max_missing_references =
        omega (arith, h, ap length here) in
      let size : length v.missing ≡ max_missing_references = ground (arith, full, h) in
      (
        (adds_report ms (add m v) fits).0 ∙ omega arith,
        (adds_report ms (add m v) fits).1
            ∙ ap (λ x. take max_missing_references (x ++ ms)) here
            ∙ take-full max_missing_references v.missing ms size
            ∙ sym (take-full max_missing_references v.missing (m ∷ ms) size),
      )
]

adds-incomplete :
    (ms : List MissingReference) (v : Snapshot)
    → v.consistency ≡ consistency_incomplete
    → (adds ms v).consistency ≡ consistency_incomplete
unfolding adds add
adds-incomplete [] v h = h
adds-incomplete (m ∷ ms) v h = adds-incomplete ms (add m v) refl

adds-complete_iff :
    (ms : List MissingReference) (v : Snapshot)
    → v.consistency ≡ consistency_complete
    → ((adds ms v).consistency ≡ consistency_complete) ↔ (ms ≡ [])
unfolding adds add
adds-complete_iff [] v h = (λ e. refl, λ e. h)
adds-complete_iff (m ∷ ms) v h =
    (λ e. absurd (cc (e, adds-incomplete ms (add m v) refl)), λ e. absurd (cc (e)))

-- A snapshot that has been collected, and nothing reported yet: it is complete exactly when every
-- reference between its lists holds and every count is that of the lists; the references that do not
-- hold are all counted, and the first 128 of them are listed, in order.
pub assess_report :
    (v : Snapshot)
    → v.consistency ≡ consistency_complete
    → v.missing_count ≡ 0
    → v.missing ≡ []
    → (((assess v).consistency ≡ consistency_complete) ↔ IsResolved v)
      × ((assess v).missing_count ≡ length (dangling v))
      × ((assess v).missing ≡ take max_missing_references (dangling v))
assess_report v complete none_counted none_listed =
    let e = assess-adds v in
    let (c, m) = adds_report (dangling v) v (ground (arith, none_listed)) in
    let complete_iff = adds-complete_iff (dangling v) v complete in
    let resolved = dangling_nil_iff v in
    (
      (
        λ h. resolved.0 (complete_iff.0 (sym (ap (λ x. x.consistency) e) ∙ h)),
        λ h. ap (λ x. x.consistency) e ∙ complete_iff.1 (resolved.1 h),
      ),
      ap (λ x. x.missing_count) e ∙ c ∙ omega (arith, none_counted),
      ap (λ x. x.missing) e
          ∙ m
          ∙ ap (λ x. take max_missing_references (x ++ dangling v)) none_listed,
    )
