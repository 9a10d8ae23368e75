-- ===== src/Rows/Tables.antt =====
-- tmux/query.go: the lists of sessions, windows, panes and clients. `sort.Slice` is an argument, for
-- each type of its rows: it takes the order that the code gives it.
use gotmux.Prelude.{
  ℕ, Bool, true, false, some, List, [], ◌∷◌, Bytes, bytes_eq, Result, ok, err, ltb, if◌then◌else◌,
  ◌==◌,
}
use gotmux.Prelude.Numeral.{numeral_value}
use gotmux.Identity.{ServerIdentity}
use gotmux.Rows.{RawRecord, SessionInfo, WindowInfo, WindowLinkInfo, PaneInfo, ClientInfo}
use gotmux.Rows.Decode.{Server, decode_session, decode_window, decode_pane, decode_client}

-- `numericID` of an identifier that a decoder has accepted.
unfoldable pub numeric_id : Bytes → ℕ
numeric_id [] = 0
numeric_id (c ∷ s) = numeral_value 0 s

-- `<` on strings.
unfoldable pub bytes_lt : Bytes → Bytes → Bool
bytes_lt a [] = false
bytes_lt [] (c ∷ b) = true
bytes_lt (c ∷ a) (d ∷ b) =
    let rest = bytes_lt a b in if ltb c d then true else if c == d then rest else false

abbrev pub Less : Type 0 → Type 0
Less A = A → A → Bool

abbrev pub Sort : Type 1
Sort = (A : Type 0) → Less A → List A → List A

-- The loop over the rows, with `append` for each.
unfoldable pub decode_rows :
    {A : Type 0} → (RawRecord → Result A) → List RawRecord → Result (List A)
decode_rows decode [] = ok []
decode_rows decode (m ∷ rows) = elim (decode m) [
  | err e ↦ err e
  | ok v ↦ elim (decode_rows decode rows) [ err e ↦ err e | ok out ↦ ok (v ∷ out) ]
]

-- `seen[id]`
unfoldable pub seen : Bytes → List Bytes → Bool
seen id [] = false
seen id (j ∷ ids) = let rest = seen id ids in if bytes_eq id j then true else rest

-- The rows whose identifier has not been seen before.
unfoldable pub first_rows : {A : Type 0} → (A → Bytes) → List Bytes → List A → List A
first_rows id_of ids [] = []
first_rows id_of ids (v ∷ rows) =
    let rest = first_rows id_of (id_of v ∷ ids) rows in
    let same = first_rows id_of ids rows in if seen (id_of v) ids then same else v ∷ rest

unfoldable pub windows_of : List (WindowInfo × WindowLinkInfo) → List WindowInfo
windows_of [] = []
windows_of (p ∷ rows) = p.0 ∷ windows_of rows

unfoldable pub links_of : List (WindowInfo × WindowLinkInfo) → List WindowLinkInfo
links_of [] = []
links_of (p ∷ rows) = p.1 ∷ links_of rows

unfoldable pub session_less : Less SessionInfo
session_less a b = ltb (numeric_id a.id) (numeric_id b.id)

unfoldable pub window_less : Less WindowInfo
window_less a b = ltb (numeric_id a.id) (numeric_id b.id)

unfoldable pub link_less : Less WindowLinkInfo
link_less a b =
    if bytes_eq a.session_id b.session_id
    then ltb a.index b.index
    else ltb (numeric_id a.session_id) (numeric_id b.session_id)

unfoldable pub pane_less : Less PaneInfo
pane_less a b = ltb (numeric_id a.id) (numeric_id b.id)

unfoldable pub client_less : Less ClientInfo
client_less a b = bytes_lt a.name b.name

abbrev pub map_ok : {A B : Type 0} → (A → B) → Result A → Result B
map_ok f (ok a) = ok (f a)
map_ok f (err e) = err e

module _ (sort : Sort) where
  unfoldable pub decode_sessions :
      Server → List RawRecord → ServerIdentity → Result (List SessionInfo)
  decode_sessions s rows id =
      map_ok (sort SessionInfo session_less) (decode_rows (λ m. decode_session s m (some id)) rows)

  unfoldable pub decode_windows :
      Server → List RawRecord → ServerIdentity → Result (List WindowInfo × List WindowLinkInfo)
  decode_windows s rows id =
      map_ok
        (λ all. (
          sort WindowInfo window_less (first_rows (λ v. v.id) [] (windows_of all)),
          sort WindowLinkInfo link_less (links_of all),
        ))
        (decode_rows (λ m. decode_window s m (some id)) rows)

  unfoldable pub decode_panes : Server → List RawRecord → ServerIdentity → Result (List PaneInfo)
  decode_panes s rows id =
      map_ok (λ all. sort PaneInfo pane_less (first_rows (λ v. v.id) [] all))
        (decode_rows (λ m. decode_pane s m (some id)) rows)

  unfoldable pub decode_clients :
      Server → List RawRecord → ServerIdentity → Result (List ClientInfo)
  decode_clients s rows id =
      map_ok (sort ClientInfo client_less) (decode_rows (λ m. decode_client s m (some id)) rows)
