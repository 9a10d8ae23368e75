-- ===== src/Rows/Decode.antt =====
-- tmux/decode.go and tmux/read.go: the records of the server, sessions, windows, panes and clients.
-- The steps stand in the order in which Go evaluates them.
use gotmux.Prelude.{
  ℕ, Bool, true, false, not, ◌&&◌, Option, none, some, List, [], ◌∷◌, Bytes, codes, err_record,
  err_server_changed, err_unsupported, Result, ok, err, ltb, if◌then◌else◌,
}
use gotmux.Prelude.Int.{ℤ, pos, negsuc, atoi}
use gotmux.Prelude.Space.{is_empty}
use gotmux.Prelude.Fields.{split}
use gotmux.Identity.{Endpoint, ServerIdentity, valid_identity, same_daemon}
use gotmux.Ids.{valid_session_id, valid_window_id, valid_pane_id, valid_client_name}
use gotmux.Version.{parse_version, supported_version}
use gotmux.Rows.{
  Value, unavailable, present, ObjectKind, session_object, window_object, pane_object,
  client_object, Handle, RawRecord, ServerInfo, SessionInfo, WindowInfo, WindowLinkInfo,
  SelectionInfo, PaneInfo, ClientInfo,
}
use gotmux.Rows.Decoder.{
  Decode, ◌>>=◌, ◌>>◌, pure, fail_if, lookup, str, integer, nonnegative, timestamp,
  optional_nonnegative, boolean, run,
}

-- What the decoders read of a `Server`.
pub record Server : Type 0 where
  pub endpoint : Endpoint
  pub connection : Option ℕ
  pub bound : Option ServerIdentity

unfoldable pub generation_of : Option ℕ → Option ServerIdentity → ℕ
generation_of (some g) bound = g
generation_of none (some id) = id.generation
generation_of none none = 0

unfoldable pub decode_identity : Server → Decode ServerIdentity
decode_identity s = do
  pid ← nonnegative (codes "pid")
  started ← timestamp (codes "start_time")
  socket ← str (codes "socket_path")
  let id : ServerIdentity = record {
    endpoint = s.endpoint;
    reported_socket = socket;
    pid = pid;
    started = some started;
    generation = generation_of s.connection s.bound;
  }
  fail_if (not (valid_identity id)) err_record
  pure id

-- An expected daemon that is valid and is not the one that answers.
unfoldable pub is_other_daemon : Option ServerIdentity → ServerIdentity → Bool
is_other_daemon none id = false
is_other_daemon (some expected) id = valid_identity expected && not (same_daemon id expected)

-- `Server.decoder`: the identity that the record reports.
unfoldable pub decoder : Server → Option ServerIdentity → Decode ServerIdentity
decoder s expected = do
  id ← decode_identity s
  fail_if (is_other_daemon expected id) err_server_changed
  v ← str (codes "version")
  fail_if (not (supported_version (parse_version v))) err_unsupported
  pure id

unfoldable pub new_handle : Bytes → ObjectKind → ServerIdentity → Handle
new_handle id kind origin = record { origin = origin; id = id; kind = kind; client = none }

unfoldable pub session_group : Bool → Decode (Value Bytes)
session_group true = str (codes "session_group") >>= λ g. pure (present g)
session_group false = pure unavailable

unfoldable pub session_steps : Server → Option ServerIdentity → RawRecord → Decode SessionInfo
session_steps s expected raw = do
  id ← decoder s expected
  sid ← str (codes "session_id")
  fail_if (not (valid_session_id sid)) err_record
  grouped ← boolean (codes "session_grouped")
  group ← session_group grouped
  name ← str (codes "session_name")
  path ← str (codes "session_path")
  created ← timestamp (codes "session_created")
  activity ← timestamp (codes "session_activity")
  attached ← nonnegative (codes "session_attached")
  window_count ← nonnegative (codes "session_windows")
  pure (record {
    raw = raw;
    id = sid;
    name = name;
    path = path;
    created = created;
    activity = activity;
    attached = attached;
    window_count = window_count;
    group = group;
    h = new_handle sid session_object id;
  })

unfoldable pub decode_session : Server → RawRecord → Option ServerIdentity → Result SessionInfo
decode_session s raw expected = run (session_steps s expected raw) raw

-- The parts of `decodeWindow`: the window and its link.
unfoldable pub window_part : RawRecord → Bytes → Handle → Decode WindowInfo
window_part raw wid wh = do
  name ← str (codes "window_name")
  width ← nonnegative (codes "window_width")
  height ← nonnegative (codes "window_height")
  pane_count ← nonnegative (codes "window_panes")
  layout ← str (codes "window_layout")
  zoomed ← boolean (codes "window_zoomed_flag")
  pure (record {
    raw = raw;
    id = wid;
    name = name;
    width = width;
    height = height;
    pane_count = pane_count;
    layout = layout;
    zoomed = zoomed;
    h = wh;
  })

unfoldable pub link_part : RawRecord → Bytes → Bytes → Handle → Decode WindowLinkInfo
link_part raw wid sid wh = do
  index ← nonnegative (codes "window_index")
  name ← str (codes "window_name")
  active ← boolean (codes "window_active")
  flags ← str (codes "window_flags")
  pure (record {
    raw = raw;
    session_id = sid;
    window_id = wid;
    window_name = name;
    index = index;
    active = active;
    flags = flags;
    link = record { h = wh; session = sid; index = index };
  })

unfoldable pub window_steps :
    Server → Option ServerIdentity → RawRecord → Decode (WindowInfo × WindowLinkInfo)
window_steps s expected raw = do
  id ← decoder s expected
  wid ← str (codes "window_id")
  fail_if (not (valid_window_id wid)) err_record
  sid ← str (codes "session_id")
  fail_if (not (valid_session_id sid)) err_record
  v ← window_part raw wid (new_handle wid window_object id)
  l ← link_part raw wid sid (new_handle wid window_object id)
  pure (v, l)

unfoldable pub decode_window :
    Server → RawRecord → Option ServerIdentity → Result (WindowInfo × WindowLinkInfo)
decode_window s raw expected = run (window_steps s expected raw) raw

unfoldable pub dead_number : Bytes → Decode (Value ℤ)
dead_number [] = pure unavailable
dead_number (c ∷ s) = integer (codes "pane_dead_status") >>= λ n. pure (present n)

unfoldable pub dead_status : Bool → Decode (Value ℤ)
dead_status false = pure unavailable
dead_status true = str (codes "pane_dead_status") >>= dead_number

unfoldable pub pane_mode : Bool → Decode (Value Bytes)
pane_mode false = pure (present [])
pane_mode true = str (codes "pane_mode") >>= λ m. pure (present m)

unfoldable pub selection_info : Decode (Value SelectionInfo)
selection_info = do
  start_x ← nonnegative (codes "selection_start_x")
  start_y ← nonnegative (codes "selection_start_y")
  end_x ← nonnegative (codes "selection_end_x")
  end_y ← nonnegative (codes "selection_end_y")
  rectangle ← boolean (codes "rectangle_toggle")
  scroll ← nonnegative (codes "scroll_position")
  pure (
      present (record {
        start_x = start_x;
        start_y = start_y;
        end_x = end_x;
        end_y = end_y;
        rectangle = rectangle;
        scroll_position = scroll;
      }))

unfoldable pub shown_selection : Bool → Decode (Value SelectionInfo)
shown_selection true = selection_info
shown_selection false = pure unavailable

unfoldable pub selected : Bool → Decode (Value SelectionInfo)
selected true = boolean (codes "selection_present") >>= shown_selection
selected false = pure unavailable

unfoldable pub decode_pane_selection : Bool → Decode (Value SelectionInfo)
decode_pane_selection in_mode =
    str (codes "selection_present") >>= λ s. selected (in_mode && not (is_empty s))

pub record PaneContext : Type 0 where
  pub session_id : Value Bytes
  pub session_name : Value Bytes
  pub window_name : Value Bytes
  pub window_index : Value ℕ

unfoldable pub context_session : Bytes → Decode (Value Bytes)
context_session [] = pure unavailable
context_session (c ∷ s) = do
  fail_if (not (valid_session_id (c ∷ s))) err_record
  pure (present (c ∷ s))

unfoldable pub text_value : Option Bytes → Value Bytes
text_value none = unavailable
text_value (some []) = unavailable
text_value (some (c ∷ s)) = present (c ∷ s)

unfoldable pub index_value : Option Bytes → Value ℕ
index_value none = unavailable
index_value (some s) = elim (atoi s) [
  | none ↦ unavailable
  | some (negsuc n) ↦ unavailable
  | some (pos n) ↦ present n
]

unfoldable pub decode_pane_context : RawRecord → Decode PaneContext
decode_pane_context raw = do
  sid ← str (codes "session_id")
  session_id ← context_session sid
  pure (record {
    session_id = session_id;
    session_name = text_value (lookup (codes "session_name") raw);
    window_name = text_value (lookup (codes "window_name") raw);
    window_index = index_value (lookup (codes "window_index") raw);
  })

unfoldable pub pane_steps : Server → Option ServerIdentity → RawRecord → Decode PaneInfo
pane_steps s expected raw = do
  id ← decoder s expected
  pane_id ← str (codes "pane_id")
  fail_if (not (valid_pane_id pane_id)) err_record
  wid ← str (codes "window_id")
  fail_if (not (valid_window_id wid)) err_record
  dead ← boolean (codes "pane_dead")
  status ← dead_status dead
  modes ← nonnegative (codes "pane_in_mode")
  mode ← pane_mode (ltb 0 modes)
  selection ← decode_pane_selection (ltb 0 modes)
  context ← decode_pane_context raw
  index ← nonnegative (codes "pane_index")
  title ← str (codes "pane_title")
  current_path ← str (codes "pane_current_path")
  current_command ← str (codes "pane_current_command")
  pid ← optional_nonnegative (codes "pane_pid")
  tty ← str (codes "pane_tty")
  width ← nonnegative (codes "pane_width")
  height ← nonnegative (codes "pane_height")
  left ← nonnegative (codes "pane_left")
  top ← nonnegative (codes "pane_top")
  active ← boolean (codes "pane_active")
  history_size ← nonnegative (codes "history_size")
  alternate ← boolean (codes "alternate_on")
  cursor_x ← nonnegative (codes "cursor_x")
  cursor_y ← nonnegative (codes "cursor_y")
  pure (record {
    raw = raw;
    id = pane_id;
    window_id = wid;
    session_id = context.session_id;
    session_name = context.session_name;
    window_name = context.window_name;
    window_index = context.window_index;
    index = index;
    title = title;
    current_path = current_path;
    current_command = current_command;
    pid = pid;
    tty = tty;
    width = width;
    height = height;
    left = left;
    top = top;
    active = active;
    history_size = history_size;
    alternate = alternate;
    dead = dead;
    dead_status = status;
    cursor_x = cursor_x;
    cursor_y = cursor_y;
    mode = mode;
    selection = selection;
    h = new_handle pane_id pane_object id;
  })

unfoldable pub decode_pane : Server → RawRecord → Option ServerIdentity → Result PaneInfo
decode_pane s raw expected = run (pane_steps s expected raw) raw

unfoldable pub client_flags : Bytes → List Bytes
client_flags [] = []
client_flags (c ∷ s) = split 44 (c ∷ s)

-- `dimension`: a control client may have none.
unfoldable pub sized : Bytes → Bytes → Decode ℕ
sized field [] = pure 0
sized field (c ∷ s) = nonnegative field

unfoldable pub dimension : Bool → Bytes → Decode ℕ
dimension false field = nonnegative field
dimension true field = str field >>= sized field

unfoldable pub client_steps : Server → Option ServerIdentity → RawRecord → Decode ClientInfo
client_steps s expected raw = do
  id ← decoder s expected
  name ← str (codes "client_name")
  fail_if (not (valid_client_name name)) err_record
  flags ← str (codes "client_flags")
  sid ← str (codes "session_id")
  session_id ← context_session sid
  pid ← nonnegative (codes "client_pid")
  created ← timestamp (codes "client_created")
  control ← boolean (codes "client_control_mode")
  tty ← str (codes "client_tty")
  activity ← timestamp (codes "client_activity")
  width ← dimension control (codes "client_width")
  height ← dimension control (codes "client_height")
  read_only ← boolean (codes "client_readonly")
  pure (record {
    raw = raw;
    name = name;
    tty = tty;
    pid = pid;
    created = created;
    activity = activity;
    width = width;
    height = height;
    session_id = session_id;
    control = control;
    read_only = read_only;
    flags = client_flags flags;
    h = record {
      origin = id;
      id = name;
      kind = client_object;
      client = some (record { name = name; pid = pid; created = created });
    };
  })

unfoldable pub decode_client : Server → RawRecord → Option ServerIdentity → Result ClientInfo
decode_client s raw expected = run (client_steps s expected raw) raw

unfoldable pub info_steps : Server → RawRecord → Decode ServerInfo
info_steps s raw = do
  id ← decode_identity s
  fail_if (is_other_daemon s.bound id) err_server_changed
  v ← str (codes "version")
  pure (record { raw = raw; identity = id; version = parse_version v })

-- `Server.serverInfo`
unfoldable pub server_info : Server → RawRecord → Result ServerInfo
server_info s raw = elim (run (info_steps s raw) raw) [
  | err e ↦ err e
  | ok info ↦ if supported_version info.version then ok info else err err_unsupported
]
