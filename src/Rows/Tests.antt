-- ===== src/Rows/Tests.antt =====
-- The lists of tmux/query.go on a window that is linked twice, with `sort.Slice` as an insertion sort.
use gotmux.Prelude.{
  ◌≡◌, refl, true, false, none, some, List, [], ◌∷◌, Bytes, codes, ok, inl, inr, if◌then◌else◌,
  Bool-cases,
}
use mathlib.Core.List.{Perm}
use mathlib.Core.List.Perm
use gotmux.Prelude.Int.{atoi, digits_value}
use gotmux.Prelude.Numeral.{numeral_value, all_digits, is_digit}
use gotmux.Prelude.Space.{trim_space, skip_spaces}
use gotmux.Identity.{ServerIdentity, valid_identity, same_daemon, same_endpoint, same_time}
use gotmux.Ids.{valid_window_id, valid_session_id, valid_id, leading_zero}
use gotmux.Version.{parse_version, supported_version}
use gotmux.Rows.{RawRecord, window_object, Handle, WindowInfo, WindowLinkInfo}
use gotmux.Rows.Decoder.{
  str, lookup, nonnegative, timestamp, integer, number, not_negative, boolean, run,
}
use gotmux.Rows.Decode.{
  Server, decode_identity, generation_of, is_other_daemon, decoder, window_part, link_part,
  window_steps, decode_window, new_handle,
}
use gotmux.Rows.Tables.{
  Less, Sort, seen, first_rows, windows_of, links_of, window_less, link_less, numeric_id,
  decode_rows, decode_windows,
}
use gotmux.Rows.Unique.{Permutes, IsDeduplicated, decode_windows-IsDeduplicated}

unfoldable insert : {A : Type 0} → Less A → A → List A → List A
insert less x [] = x ∷ []
insert less x (y ∷ ys) = let rest = insert less x ys in if less y x then y ∷ rest else x ∷ y ∷ ys

unfoldable insertion_sort : Sort
insertion_sort A less [] = []
insertion_sort A less (x ∷ xs) = insert less x (insertion_sort A less xs)

insert_perm : {A : Type 0} (less : Less A) (x : A) (ys : List A) → Perm (insert less x ys) (x ∷ ys)
unfolding insert
insert_perm less x [] = Perm.refl (x ∷ [])
insert_perm less x (y ∷ ys) = elim (Bool-cases (less y x)) [
  | inl e ↦ rw (insert, e) (Perm.trans (Perm.cons y (insert_perm less x ys)) (Perm.swap x y ys))
  | inr e ↦ rw (insert, e) (Perm.refl (x ∷ y ∷ ys))
]

insertion_sort-Permutes : Permutes insertion_sort
unfolding insertion_sort
insertion_sort-Permutes A less [] = Perm.refl []
insertion_sort-Permutes A less (x ∷ xs) =
    Perm.trans (insert_perm less x (insertion_sort A less xs))
      (Perm.cons x (insertion_sort-Permutes A less xs))

abbrev server : Server
server = record {
  endpoint = record { socket_path = codes "/tmp/t"; socket_name = []; temp_dir = []; uid = 0 };
  connection = none;
  bound = none;
}

abbrev daemon : ServerIdentity
daemon = record {
  endpoint = server.endpoint;
  reported_socket = codes "/tmp/t";
  pid = 41;
  started = some 1700000000;
  generation = 0;
}

abbrev row : Bytes → RawRecord
row session =
    (codes "pid", codes "41")
    ∷ (codes "start_time", codes "1700000000")
    ∷ (codes "socket_path", codes "/tmp/t")
    ∷ (codes "version", codes "3.6")
    ∷ (codes "window_id", codes "@3")
    ∷ (codes "window_name", codes "vi")
    ∷ (codes "window_width", codes "80")
    ∷ (codes "window_height", codes "24")
    ∷ (codes "window_panes", codes "1")
    ∷ (codes "window_layout", codes "L")
    ∷ (codes "window_zoomed_flag", codes "0")
    ∷ (codes "session_id", session)
    ∷ (codes "window_index", codes "2")
    ∷ (codes "window_active", codes "1")
    ∷ (codes "window_flags", codes "*")
    ∷ []

abbrev window_handle : Handle
window_handle = record { origin = daemon; id = codes "@3"; kind = window_object; client = none }

abbrev window : WindowInfo
window = record {
  raw = row (codes "$10");
  id = codes "@3";
  name = codes "vi";
  width = 80;
  height = 24;
  pane_count = 1;
  layout = codes "L";
  zoomed = false;
  h = window_handle;
}

abbrev link : Bytes → WindowLinkInfo
link session = record {
  raw = row session;
  session_id = session;
  window_id = codes "@3";
  window_name = codes "vi";
  index = 2;
  active = true;
  flags = codes "*";
  link = record { h = window_handle; session = session; index = 2 };
}

linked_twice :
    decode_windows insertion_sort server (row (codes "$10") ∷ row (codes "$9") ∷ []) daemon
    ≡ ok (window ∷ [], link (codes "$9") ∷ link (codes "$10") ∷ [])
unfolding decode_windows decode_rows decode_window window_steps window_part link_part decoder
    decode_identity run nonnegative timestamp integer number not_negative boolean str lookup atoi
    digits_value all_digits is_digit numeral_value valid_identity is_other_daemon generation_of
    parse_version trim_space skip_spaces supported_version new_handle valid_window_id
    valid_session_id valid_id leading_zero first_rows seen windows_of links_of window_less link_less
    numeric_id insertion_sort insert same_daemon same_endpoint same_time
linked_twice = refl

decode_windows-IsDeduplicated_example :
    (all : List (WindowInfo × WindowLinkInfo)) × (decode_rows
        (λ m. decode_window server m (some daemon))
        (row (codes "$10") ∷ row (codes "$9") ∷ [])
      ≡ ok all)
    × IsDeduplicated all (window ∷ []) (link (codes "$9") ∷ link (codes "$10") ∷ [])
decode_windows-IsDeduplicated_example =
    decode_windows-IsDeduplicated insertion_sort insertion_sort-Permutes server
      (row (codes "$10") ∷ row (codes "$9") ∷ []) daemon linked_twice
