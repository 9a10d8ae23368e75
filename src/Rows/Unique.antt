-- ===== src/Rows/Unique.antt =====
-- tmux/query.go: a list without the rows that tmux repeats.
use gotmux.Prelude.{
  ◌≡◌, refl, sym, ap, subst, inl, inr, true, false, some, List, [], ◌∷◌, map, Bytes, bytes_eq,
  bytes_eq_iff, bytes_eq_refl, Result, ok, err, Bool-cases, arith,
}
use mathlib.Core.Logic.Or
use mathlib.Core.HLevel.{⊥_prop}
use mathlib.Core.List.{Mem, Mem-prop, not-mem-nil, mem-cons, Nodup, Nodup-nil, Nodup-cons, Perm}
use mathlib.Core.List.Perm
use gotmux.Identity.{ServerIdentity}
use gotmux.Rows.{RawRecord, WindowInfo, WindowLinkInfo}
use gotmux.Rows.Decode.{Server, decode_window}
use gotmux.Rows.Tables.{
  seen, first_rows, windows_of, links_of, window_less, link_less, Less, Sort, decode_rows, map_ok,
  decode_windows,
}

seen-later : (k j : Bytes) (ids : List Bytes) → seen k ids ≡ true → seen k (j ∷ ids) ≡ true
unfolding seen
seen-later k j ids h = ground (arith, h)

seen_self : (k : Bytes) (ids : List Bytes) → seen k (k ∷ ids) ≡ true
unfolding seen
seen_self k ids = ground (arith, bytes_eq_refl k)

not_seen-later :
    (k j : Bytes) (ids : List Bytes)
    → seen k ids ≡ false
    → bytes_eq k j ≡ false
    → seen k (j ∷ ids) ≡ false
unfolding seen
not_seen-later k j ids h e = ground (arith, h, e)

module _ {A : Type 0} (id_of : A → Bytes) where
  -- A row whose identifier has been seen is left out.
  first_rows-fresh :
      (k : Bytes) (ids : List Bytes) (rows : List A)
      → seen k ids ≡ true
      → Mem k (map id_of (first_rows id_of ids rows))
      → ⊥
  unfolding first_rows seen
  first_rows-fresh k ids [] h m = not-mem-nil m
  first_rows-fresh k ids (v ∷ rows) h m = elim (Bool-cases (seen (id_of v) ids)) [
    | inl old ↦ first_rows-fresh k ids rows h (rw (first_rows, old) at m)
    | inr new ↦
        Or.elim ⊥_prop (mem-cons.0 (rw (first_rows, new) at m))
          (λ e. cc (sym h, new, ap (λ x. seen x ids) e))
          (λ t. first_rows-fresh k (id_of v ∷ ids) rows (seen-later k (id_of v) ids h) t)
  ]

  pub first_rows-Nodup :
      (ids : List Bytes) (rows : List A) → Nodup (map id_of (first_rows id_of ids rows))
  unfolding first_rows
  first_rows-Nodup ids [] = Nodup-nil
  first_rows-Nodup ids (v ∷ rows) = elim (Bool-cases (seen (id_of v) ids)) [
    | inl old ↦ rw (first_rows, old) (first_rows-Nodup ids rows)
    | inr new ↦
        rw (first_rows, new)
          (Nodup-cons.1 (
            first_rows-fresh (id_of v) (id_of v ∷ ids) rows (seen_self (id_of v) ids),
            first_rows-Nodup (id_of v ∷ ids) rows,
          ))
  ]

  -- An identifier that has not been seen before is kept, once.
  first_rows-kept :
      (k : Bytes) (ids : List Bytes) (rows : List A)
      → seen k ids ≡ false
      → Mem k (map id_of rows)
      → Mem k (map id_of (first_rows id_of ids rows))
  unfolding first_rows
  first_rows-kept k ids [] h m = m
  first_rows-kept k ids (v ∷ rows) h m = elim (Bool-cases (seen (id_of v) ids)) [
    | inl old ↦
        rw (first_rows, old)
          (Or.elim Mem-prop (mem-cons.0 m) (λ e. absurd (cc (sym old, h, ap (λ x. seen x ids) e)))
            (λ t. first_rows-kept k ids rows h t))
    | inr new ↦
        rw (first_rows, new)
          (elim (Bool-cases (bytes_eq k (id_of v))) [
            | inl same ↦ mem-cons.1 (Or.inl ((bytes_eq_iff k (id_of v)).0 same))
            | inr other ↦ mem-cons.1 (
                Or.inr (
                  first_rows-kept k (id_of v ∷ ids) rows (not_seen-later k (id_of v) ids h other) (
                    Or.elim Mem-prop (mem-cons.0 m)
                      (λ e. absurd (cc (other, (bytes_eq_iff k (id_of v)).1 e))) (λ t. t))))
          ])
  ]

  pub first_rows-from :
      (v : A) (ids : List Bytes) (rows : List A) → Mem v (first_rows id_of ids rows) → Mem v rows
  unfolding first_rows
  first_rows-from v ids [] m = m
  first_rows-from v ids (w ∷ rows) m = elim (Bool-cases (seen (id_of w) ids)) [
    | inl old ↦ mem-cons.1 (Or.inr (first_rows-from v ids rows (rw (first_rows, old) at m)))
    | inr new ↦
        Or.elim Mem-prop (mem-cons.0 (rw (first_rows, new) at m)) (λ e. mem-cons.1 (Or.inl e))
          (λ t. mem-cons.1 (Or.inr (first_rows-from v (id_of w ∷ ids) rows t)))
  ]

  pub first_rows-ids :
      (k : Bytes) (rows : List A)
      → Mem k (map id_of rows)
      → Mem k (map id_of (first_rows id_of [] rows))
  unfolding seen
  first_rows-ids k rows m = first_rows-kept k [] rows refl m

-- `sort.Slice` only moves the rows of a slice.
abbrev pub Permutes : Sort → Type 1
Permutes sort = (A : Type 0) (less : Less A) (rows : List A) → Perm (sort A less rows) rows

-- What the lists of windows and links are, by the decoded records `all`: each window is one of the
-- records', no two have the same identifier, and each record's is there; each record has its link.
pub record IsDeduplicated (all : List (WindowInfo × WindowLinkInfo)) (windows : List WindowInfo)
    (links : List WindowLinkInfo) : Type 0 where
  pub distinct : Nodup (map (λ v. v.id) windows)
  pub from_records : (v : WindowInfo) → Mem v windows → Mem v (windows_of all)
  pub every_id :
      (k : Bytes) → Mem k (map (λ v. v.id) (windows_of all)) → Mem k (map (λ v. v.id) windows)
  pub every_link : Perm links (links_of all)

map_ok-eq-ok :
    {A B : Type 0} (f : A → B) (r : Result A) {b : B}
    → map_ok f r ≡ ok b
    → (a : A) × (r ≡ ok a) × (f a ≡ b)
map_ok-eq-ok f (ok a) h = (a, refl, cc)
map_ok-eq-ok f (err e) h = absurd (cc (h))

deduplicated :
    (sort : Sort)
    → Permutes sort
    → (all : List (WindowInfo × WindowLinkInfo))
    → IsDeduplicated all
        (sort WindowInfo window_less (first_rows (λ v. v.id) [] (windows_of all)))
        (sort WindowLinkInfo link_less (links_of all))
deduplicated sort p all =
    let kept : List WindowInfo = first_rows (λ v. v.id) [] (windows_of all) in
    let moved = p WindowInfo window_less kept in
    record {
      distinct =
          Perm.nodup (Perm.symm (Perm.map (λ (w : WindowInfo). w.id) moved))
            (first_rows-Nodup (λ v. v.id) [] (windows_of all));
      from_records = λ v m.
          first_rows-from (λ (w : WindowInfo). w.id) v [] (windows_of all)
            ((Perm.mem_iff moved).0 m);
      every_id = λ k m.
          (Perm.mem_iff (Perm.map (λ (w : WindowInfo). w.id) moved)).1
            (first_rows-ids (λ v. v.id) k (windows_of all) m);
      every_link = p WindowLinkInfo link_less (links_of all);
    }

-- With a sort that only moves rows: the windows that are listed are the decoded ones without
-- repetition, and each record is listed as a link.
pub decode_windows-IsDeduplicated :
    (sort : Sort)
    → Permutes sort
    → (s : Server) (rows : List RawRecord) (id : ServerIdentity) {windows : List WindowInfo}
      {links : List WindowLinkInfo}
    → decode_windows sort s rows id ≡ ok (windows, links)
    → (all : List (WindowInfo × WindowLinkInfo)) × (decode_rows
          (λ m. decode_window s m (some id))
          rows
        ≡ ok all)
      × IsDeduplicated all windows links
unfolding decode_windows
decode_windows-IsDeduplicated sort p s rows id {windows} {links} h =
    let (all, e, same) = map_ok-eq-ok _ (decode_rows (λ m. decode_window s m (some id)) rows) h in
    (all, e, subst (λ r. IsDeduplicated all r.0 r.1) same (deduplicated sort p all))
