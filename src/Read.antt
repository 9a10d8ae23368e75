-- ===== src/Read.antt =====
-- tmux/read.go and tmux/query.go: the requests of one read, the command list that asks for them, and
-- the split of what it prints. internal/schema/fields.go: the variables of each kind of object.
pub mod Split
pub mod Total
mod Tests
use gotmux.Prelude.{
  ℕ, zero, suc, Bool, true, false, not, ◌&&◌, ◌||◌, Option, none, some, List, [], ◌∷◌, ◌++◌, Bytes,
  codes, bytes_eq, Error, err_record, err_invalid, Result, ok, err, ◌>>=◌, length, ltb, leb, ◌==◌,
  if◌then◌else◌,
}
use gotmux.Prelude.Space.{is_empty}
use gotmux.Wire.Argv.{valid_string}
use gotmux.Wire.Format.{record_format}
use gotmux.Wire.Records.{max_record_fields, read_record_fields}
use gotmux.Command.{Command, Node, Nodes, no_nodes, more_nodes, leaf, Plan, reply_records}
use gotmux.Guard.{eq_format}
use gotmux.Rows.{
  Value, unavailable, unsupported, present, get_value, ObjectKind, no_object, session_object,
  window_object, pane_object, client_object, window_link_object, RawRecord, ServerInfo, SessionInfo,
  WindowInfo, WindowLinkInfo, PaneInfo, ClientInfo,
}
use gotmux.Rows.Decode.{Server, server_info}
use gotmux.Rows.Tables.{Sort, seen, decode_sessions, decode_windows, decode_panes, decode_clients}

-- `schema.Identity`, `schema.Session`, `schema.Window`, `schema.Pane` and `schema.Client`
abbrev pub identity_fields : List Bytes
identity_fields = codes "pid" ∷ codes "start_time" ∷ codes "socket_path" ∷ codes "version" ∷ []

abbrev pub session_fields : List Bytes
session_fields =
    codes "session_id"
    ∷ codes "session_name"
    ∷ codes "session_path"
    ∷ codes "session_created"
    ∷ codes "session_activity"
    ∷ codes "session_attached"
    ∷ codes "session_windows"
    ∷ codes "session_group"
    ∷ codes "session_grouped"
    ∷ []

abbrev pub window_fields : List Bytes
window_fields =
    codes "window_id"
    ∷ codes "window_name"
    ∷ codes "window_width"
    ∷ codes "window_height"
    ∷ codes "window_panes"
    ∷ codes "window_layout"
    ∷ codes "window_zoomed_flag"
    ∷ codes "session_id"
    ∷ codes "window_index"
    ∷ codes "window_active"
    ∷ codes "window_flags"
    ∷ []

abbrev pub pane_fields : List Bytes
pane_fields =
    codes "pane_id"
    ∷ codes "window_id"
    ∷ codes "pane_index"
    ∷ codes "pane_title"
    ∷ codes "pane_current_path"
    ∷ codes "pane_current_command"
    ∷ codes "pane_pid"
    ∷ codes "pane_tty"
    ∷ codes "pane_width"
    ∷ codes "pane_height"
    ∷ codes "pane_left"
    ∷ codes "pane_top"
    ∷ codes "pane_active"
    ∷ codes "history_size"
    ∷ codes "alternate_on"
    ∷ codes "pane_dead"
    ∷ codes "pane_dead_status"
    ∷ codes "cursor_x"
    ∷ codes "cursor_y"
    ∷ codes "pane_in_mode"
    ∷ codes "pane_mode"
    ∷ codes "selection_present"
    ∷ codes "selection_start_x"
    ∷ codes "selection_start_y"
    ∷ codes "selection_end_x"
    ∷ codes "selection_end_y"
    ∷ codes "rectangle_toggle"
    ∷ codes "scroll_position"
    ∷ codes "session_id"
    ∷ codes "session_name"
    ∷ codes "window_name"
    ∷ codes "window_index"
    ∷ []

abbrev pub client_fields : List Bytes
client_fields =
    codes "client_name"
    ∷ codes "client_tty"
    ∷ codes "client_pid"
    ∷ codes "client_created"
    ∷ codes "client_activity"
    ∷ codes "client_width"
    ∷ codes "client_height"
    ∷ codes "session_id"
    ∷ codes "client_control_mode"
    ∷ codes "client_readonly"
    ∷ codes "client_flags"
    ∷ []

-- `schema.WithIdentity`
abbrev pub with_identity : List Bytes → List Bytes
with_identity fields = identity_fields ++ fields

unfoldable pub fields_for : ObjectKind → List Bytes
fields_for session_object = with_identity session_fields
fields_for window_object = with_identity window_fields
fields_for window_link_object = with_identity window_fields
fields_for pane_object = with_identity pane_fields
fields_for client_object = with_identity client_fields
fields_for no_object = identity_fields

unfoldable pub is_format_byte : ℕ → Bool
is_format_byte b =
    leb 97 b && leb b 122
    || leb 65 b && leb b 90
    || leb 48 b && leb b 57
    || b == 95
    || b == 45
    || b == 64

unfoldable pub all_format_bytes : Bytes → Bool
all_format_bytes [] = true
all_format_bytes (b ∷ s) = is_format_byte b && all_format_bytes s

unfoldable pub valid_format_name : Bytes → Bool
valid_format_name s = not (is_empty s) && all_format_bytes s

-- The loop of `queryFields` over the extra fields: a name that is there already is left out.
unfoldable pub add_fields : List Bytes → List Bytes → Result (List Bytes)
add_fields out [] = ok out
add_fields out (f ∷ extra) =
    let rest = add_fields (if seen f out then out else out ++ f ∷ []) extra in
    if valid_format_name f then rest else err err_invalid

unfoldable pub within_fields : List Bytes → Result (List Bytes)
within_fields out = if ltb max_record_fields (length out) then err err_invalid else ok out

unfoldable pub query_fields : List Bytes → List Bytes → Result (List Bytes)
query_fields base extra =
    if ltb max_record_fields (length extra)
    then err err_invalid
    else (add_fields base extra >>= within_fields)

pub record QueryOptions : Type 0 where
  pub filter : Bytes
  pub extra_fields : List Bytes

pub record RecordQuery : Type 0 where
  pub kind : ObjectKind
  pub fields : List Bytes
  pub filter : Bytes

-- `readRequest`
pub record Request : Type 0 where
  pub kind : ObjectKind
  pub fields : List Bytes
  pub node : Node

unfoldable pub list_command_and_args : ObjectKind → Bytes → Result (Bytes × List Bytes)
list_command_and_args session_object target = ok (codes "list-sessions", [])
list_command_and_args window_object target =
    ok (codes "list-windows", if is_empty target then codes "-a" ∷ [] else [])
list_command_and_args pane_object target =
    ok (codes "list-panes", if is_empty target then codes "-a" ∷ [] else [])
list_command_and_args client_object target = ok (codes "list-clients", [])
list_command_and_args window_link_object target = err err_invalid
list_command_and_args no_object target = err err_invalid

-- An option with its value, unless that is empty.
unfoldable pub flag_value : Bytes → Bytes → List Bytes
flag_value flag [] = []
flag_value flag (c ∷ s) = flag ∷ (c ∷ s) ∷ []

unfoldable pub list_node : Bytes → List Bytes → Bytes → Bytes → List Bytes → List Bytes → Node
list_node name args filter target scope fields = leaf (record {
  name = name;
  args =
      args
      ++ (scope
          ++ (flag_value (codes "-t") target
              ++ (flag_value (codes "-f") filter ++ codes "-F" ∷ record_format fields ∷ [])));
})

unfoldable pub list_fields : ObjectKind → List Bytes → Bytes → Bytes → List Bytes → Result Request
list_fields kind fields filter target scope = elim (list_command_and_args kind target) [
  | err e ↦ err e
  | ok (name, args) ↦
      if valid_string filter
      then ok (record {
        kind = kind;
        fields = fields;
        node = list_node name args filter target scope fields;
      })
      else err err_invalid
]

unfoldable pub list_request : ObjectKind → QueryOptions → Bytes → List Bytes → Result Request
list_request kind opts target scope = query_fields (fields_for kind) opts.extra_fields >>= λ fields.
    list_fields kind fields opts.filter target scope

unfoldable pub record_query_request : RecordQuery → Result Request
record_query_request query = query_fields [] query.fields >>= λ fields.
    if length fields == 0 || ltb max_record_fields (length fields)
    then err err_invalid
    else list_fields query.kind fields query.filter [] []

unfoldable pub is_client : ObjectKind → Bool
is_client client_object = true
is_client _ = false

unfoldable pub inspect_node : ObjectKind → Bytes → List Bytes → Node
inspect_node kind target fields =
    if is_client kind
    then leaf (record {
      name = codes "list-clients";
      args =
          codes "-f"
          ∷ eq_format (codes "client_name") target
          ∷ codes "-F"
          ∷ record_format fields
          ∷ [];
    })
    else leaf (record {
      name = codes "display-message";
      args = codes "-p" ∷ codes "-t" ∷ target ∷ record_format fields ∷ [];
    })

unfoldable pub inspect_request : ObjectKind → Bytes → QueryOptions → Result Request
inspect_request kind target opts = query_fields (fields_for kind) opts.extra_fields >>= λ fields.
    ok (record { kind = kind; fields = fields; node = inspect_node kind target fields })

unfoldable pub display : Bytes → Node
display format = leaf (record { name = codes "display-message"; args = codes "-p" ∷ format ∷ [] })

-- `readBoundary`
abbrev pub read_boundary : Bytes
read_boundary = codes "TGO1:0:"

-- The nodes behind the first request's.
unfoldable pub later_nodes : List Request → Nodes
later_nodes [] = no_nodes
later_nodes (r ∷ later) = more_nodes (display read_boundary) (more_nodes r.node (later_nodes later))

-- The plan of `readRecords`, for one request or more.
unfoldable pub read_plan : Bool → Request → List Request → Plan
read_plan probed r later =
    let asked = more_nodes r.node (later_nodes later) in
    record {
      nodes = if probed then more_nodes (display (record_format identity_fields)) asked else asked;
      mode = reply_records;
      allow_start = false;
    }

-- `recordMap`, on as many values as there are fields.
unfoldable pub record_map : List Bytes → List Bytes → RawRecord → RawRecord
record_map [] values raw = raw
record_map (f ∷ fields) [] raw = raw
record_map (f ∷ fields) (v ∷ values) raw = record_map fields values ((f, v) ∷ raw)

-- The loop of `decodeRead` on the bytes left: the rows of the requests that are finished, those of
-- the one at hand, and the requests behind it. `none` means that the fuel ran out.
unfoldable pub split_rows :
    ℕ
    → List (List RawRecord)
    → List RawRecord
    → Request
    → List Request
    → Bytes
    → Option (Result (List (List RawRecord)))
split_rows fuel out rows r [] [] = some (ok (out ++ rows ∷ []))
split_rows fuel out rows r (next ∷ later) [] = some (err err_record)
split_rows zero out rows r later (c ∷ s) = none
split_rows (suc fuel) out rows r later (c ∷ s) =
    let read = read_record_fields (c ∷ s) (suc (length s)) in
    elim (read.0) [
      | err e ↦ some (err e)
      | ok [] ↦ elim later [
        | [] ↦ some (err err_record)
        | next ∷ behind ↦ split_rows fuel (out ++ rows ∷ []) [] next behind read.1.source
      ]
      | ok (v ∷ values) ↦
          let row = record_map r.fields (v ∷ values) [] in
          let more = split_rows fuel out (rows ++ row ∷ []) r later read.1.source in
          if length (v ∷ values) == length r.fields then more else some (err err_record)
    ]

-- What `decodeRead` returns.
abbrev pub ReadRows : Type 0
ReadRows = Option (Result (ServerInfo × List (List RawRecord)))

unfoldable pub with_info : ServerInfo → Option (Result (List (List RawRecord))) → ReadRows
with_info info none = none
with_info info (some (err e)) = some (err e)
with_info info (some (ok rows)) = some (ok (info, rows))

-- The identity record that a read begins with, if it asks for one.
unfoldable pub probed_info : Server → List Bytes → Result ServerInfo
probed_info s values =
    if length values == length identity_fields
    then server_info s (record_map identity_fields values [])
    else err err_record

unfoldable pub split_read : ServerInfo → Request → List Request → Bytes → ReadRows
split_read info r later text = with_info info (split_rows (length text) [] [] r later text)

unfoldable pub decode_probed : Server → Request → List Request → Bytes → ReadRows
decode_probed s r later text =
    let read = read_record_fields text (length text) in
    elim (read.0) [
      | err _ ↦ some (err err_record)
      | ok values ↦ elim (probed_info s values) [
        | err e ↦ some (err e)
        | ok info ↦ split_read info r later read.1.source
      ]
    ]

-- `decodeRead`; `verified` is what a connection has verified when it attached.
unfoldable pub decode_read : Server → Option ServerInfo → Request → List Request → Bytes → ReadRows
decode_read s (some info) r later text = split_read info r later text
decode_read s none r later text = decode_probed s r later text

unfoldable pub is_record_error : Error → Bool
is_record_error err_record = true
is_record_error _ = false

-- The second try of `readRecords`, whose error is the first one's.
unfoldable pub or_first : Error → ReadRows → ReadRows
or_first e none = none
or_first e (some (err _)) = some (err e)
or_first e (some (ok r)) = some (ok r)

unfoldable pub retry_read :
    Server → Option ServerInfo → Request → List Request → Error → Result Bytes → ReadRows
retry_read s verified r later e (err _) = some (err e)
retry_read s verified r later e (ok text) = or_first e (decode_read s verified r later text)

unfoldable pub or_retry : ReadRows → (Error → ReadRows) → ReadRows
or_retry none again = none
or_retry (some (ok r)) again = some (ok r)
or_retry (some (err e)) again = if is_record_error e then again e else some (err e)

-- `readRecords`, on what the plan's first and, if it is run again, second execution print.
unfoldable pub read_records :
    Server → Option ServerInfo → Request → List Request → Result Bytes → Result Bytes → ReadRows
read_records s verified r later (err e) second = some (err e)
read_records s verified r later (ok text) second =
    or_retry (decode_read s verified r later text) (λ e. retry_read s verified r later e second)

pub record ReadRequest : Type 0 where
  pub sessions : Value QueryOptions
  pub windows : Value QueryOptions
  pub panes : Value QueryOptions
  pub clients : Value QueryOptions

-- One entry of the table in `ReadRequest.lists`.
unfoldable pub selected_request :
    ObjectKind → Value QueryOptions → Result (List Request) → Result (List Request)
selected_request kind unavailable later = later
selected_request kind unsupported later = later
selected_request kind (present opts) later =
    list_request kind opts [] [] >>= λ r. later >>= λ rs. ok (r ∷ rs)

-- `ReadRequest.lists`: one request or more.
unfoldable pub lists : ReadRequest → Result (Request × List Request)
lists q =
    let selected = selected_request session_object q.sessions (
      selected_request window_object q.windows (
        selected_request pane_object q.panes (selected_request client_object q.clients (ok [])))) in
    elim selected [ err e ↦ err e | ok [] ↦ err err_invalid | ok (r ∷ later) ↦ ok (r, later) ]

pub record ReadResult : Type 0 where
  pub server : ServerInfo
  pub sessions : List SessionInfo
  pub windows : List WindowInfo
  pub links : List WindowLinkInfo
  pub panes : List PaneInfo
  pub clients : List ClientInfo

module _ (sort : Sort) where
  -- The switch of `decodeLists` on the kind of a request.
  unfoldable pub decode_list : Server → ObjectKind → List RawRecord → ReadResult → Result ReadResult
  decode_list s session_object rows out =
      decode_sessions sort s rows out.server.identity >>= λ v. ok (record out { sessions = v })
  decode_list s window_object rows out = decode_windows sort s rows out.server.identity >>= λ v.
      ok (record out { windows = v.0; links = v.1 })
  decode_list s pane_object rows out =
      decode_panes sort s rows out.server.identity >>= λ v. ok (record out { panes = v })
  decode_list s client_object rows out =
      decode_clients sort s rows out.server.identity >>= λ v. ok (record out { clients = v })
  decode_list s window_link_object rows out = err err_invalid
  decode_list s no_object rows out = ok out

  unfoldable pub decode_lists :
      Server → List Request → List (List RawRecord) → ReadResult → Result ReadResult
  decode_lists s [] rows out = ok out
  decode_lists s (r ∷ requests) [] out = ok out
  decode_lists s (r ∷ requests) (rs ∷ rows) out =
      decode_list s r.kind rs out >>= λ next. decode_lists s requests rows next
