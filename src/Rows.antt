-- ===== src/Rows.antt =====
-- tmux/records.go, tmux/value.go and tmux/handles.go: what is known of tmux's objects. A handle is
-- given without the server it acts on. A time is its number of seconds.
pub mod Decoder
pub mod Decode
pub mod Tables
pub mod Unique
mod Tests
use gotmux.Prelude.{ℕ, Bool, true, false, Option, none, some, List, ◌∷◌, ◌++◌, Bytes, Error}
use gotmux.Prelude.Int.{ℤ}
use gotmux.Prelude.Decimal.{itoa}
use gotmux.Identity.{ServerIdentity}
use gotmux.Guard.{ClientCheck}
use gotmux.Version.{Version}

pub data Value {ℓ} (A : Type ℓ) : Type ℓ where
  unavailable : Value A
  unsupported : Value A
  present : A → Value A

-- `Value.Get`
unfoldable pub get_value {ℓ} : {A : Type ℓ} → Value A → Option A
get_value unavailable = none
get_value unsupported = none
get_value (present a) = some a

pub data ObjectKind : Type 0 where
  no_object session_object window_object pane_object client_object window_link_object : ObjectKind

pub record Handle : Type 0 where
  pub origin : ServerIdentity
  pub id : Bytes
  pub kind : ObjectKind
  pub client : Option ClientCheck

pub record WindowLink : Type 0 where
  pub h : Handle
  pub session : Bytes
  pub index : ℕ

-- `WindowLink.target`
unfoldable pub link_target : WindowLink → Bytes
link_target l = l.session ++ (58 ∷ itoa l.index)

-- A record's format variables; a later entry for a name stands before an earlier one.
abbrev pub RawRecord : Type 0
RawRecord = List (Bytes × Bytes)

pub record ServerInfo : Type 0 where
  pub raw : RawRecord
  pub identity : ServerIdentity
  pub version : Version

pub record SessionInfo : Type 0 where
  pub raw : RawRecord
  pub id : Bytes
  pub name : Bytes
  pub path : Bytes
  pub created : ℕ
  pub activity : ℕ
  pub attached : ℕ
  pub window_count : ℕ
  pub group : Value Bytes
  pub h : Handle

pub record WindowInfo : Type 0 where
  pub raw : RawRecord
  pub id : Bytes
  pub name : Bytes
  pub width : ℕ
  pub height : ℕ
  pub pane_count : ℕ
  pub layout : Bytes
  pub zoomed : Bool
  pub h : Handle

pub record WindowLinkInfo : Type 0 where
  pub raw : RawRecord
  pub session_id : Bytes
  pub window_id : Bytes
  pub window_name : Bytes
  pub index : ℕ
  pub active : Bool
  pub flags : Bytes
  pub link : WindowLink

pub record SelectionInfo : Type 0 where
  pub start_x : ℕ
  pub start_y : ℕ
  pub end_x : ℕ
  pub end_y : ℕ
  pub rectangle : Bool
  pub scroll_position : ℕ

pub record PaneInfo : Type 0 where
  pub raw : RawRecord
  pub id : Bytes
  pub window_id : Bytes
  pub session_id : Value Bytes
  pub session_name : Value Bytes
  pub window_name : Value Bytes
  pub window_index : Value ℕ
  pub index : ℕ
  pub title : Bytes
  pub current_path : Bytes
  pub current_command : Bytes
  pub pid : ℕ
  pub tty : Bytes
  pub width : ℕ
  pub height : ℕ
  pub left : ℕ
  pub top : ℕ
  pub active : Bool
  pub history_size : ℕ
  pub alternate : Bool
  pub dead : Bool
  pub dead_status : Value ℤ
  pub cursor_x : ℕ
  pub cursor_y : ℕ
  pub mode : Value Bytes
  pub selection : Value SelectionInfo
  pub h : Handle

pub record ClientInfo : Type 0 where
  pub raw : RawRecord
  pub name : Bytes
  pub tty : Bytes
  pub pid : ℕ
  pub created : ℕ
  pub activity : ℕ
  pub width : ℕ
  pub height : ℕ
  pub session_id : Value Bytes
  pub control : Bool
  pub read_only : Bool
  pub flags : List Bytes
  pub h : Handle
