-- ===== src/Events.antt =====
-- tmux/events.go: the notifications of control mode and the memory each is charged for. A
-- `Value` is an option; an age is in nanoseconds.
pub mod Decode
pub mod Subscription
mod Charge
mod Output
mod Tests
use gotmux.Prelude.{ℕ, ◌+◌, Option, some, none, Bytes, length}

-- `eventBase`; `received` counts the local clock's ticks.
pub record EventBase : Type 0 where
  pub name : Bytes
  pub received : ℕ

pub data Event : Type 0 where
  pane_output_event : (base : EventBase) (pane_id : Bytes) (age : Option ℕ) (output : Bytes) → Event
  pane_pause_event pane_continue_event : (base : EventBase) (pane_id : Bytes) → Event
  layout_changed_event : (base : EventBase) (window_id layout visible_layout flags : Bytes) → Event
  session_event : (base : EventBase) (session_id name : Option Bytes) (payload : Bytes) → Event
  window_event :
      (base : EventBase) (window_id : Bytes) (name : Option Bytes) (payload : Bytes) → Event
  client_event :
      (base : EventBase) (client_name : Bytes) (session_id : Option Bytes) (payload : Bytes) → Event
  subscription_event :
      (base : EventBase) (name raw_header : Bytes) (session_id window_id pane_id : Option Bytes)
      (window_index : Option ℕ) (value : Bytes)
      → Event
  unknown_event : (base : EventBase) (payload : Bytes) → Event
  config_error_event : (base : EventBase) (error : Bytes) → Event
  message_event : (base : EventBase) (message : Bytes) → Event
  client_flags_changed_event : (base : EventBase) (client_name flags : Bytes) → Event
  pane_mode_changed_event : (base : EventBase) (pane_id : Bytes) → Event
  paste_buffer_changed_event paste_buffer_deleted_event : (base : EventBase) (name : Bytes) → Event
  window_pane_changed_event : (base : EventBase) (window_id pane_id : Bytes) → Event

-- `eventBytes`, with the constants of the const block.
unfoldable pub event_bytes : Event → ℕ
event_bytes (pane_output_event b p a d) = length d + length b.name + 96
event_bytes (pane_pause_event b p) = length b.name + length p + 64
event_bytes (pane_continue_event b p) = length b.name + length p + 64
event_bytes (layout_changed_event b w l v f) = length b.name + length l + length v + length f + 96
event_bytes (session_event b i n p) = length b.name + length p + 96
event_bytes (window_event b i n p) = length b.name + length p + 96
event_bytes (client_event b c i p) = length b.name + length p + 96
event_bytes (subscription_event b n h i w p x d) =
    length b.name + length n + length h + length d + 128
event_bytes (unknown_event b p) = length b.name + length p + 64
event_bytes (config_error_event b e) = length b.name + length e + 64
event_bytes (message_event b m) = length b.name + length m + 64
event_bytes (client_flags_changed_event b c f) = length b.name + length c + length f + 64
event_bytes (pane_mode_changed_event b p) = length b.name + length p + 64
event_bytes (paste_buffer_changed_event b n) = length b.name + length n + 64
event_bytes (paste_buffer_deleted_event b n) = length b.name + length n + 64
event_bytes (window_pane_changed_event b w p) = length b.name + length w + length p + 64

-- The pane whose output an event carries.
unfoldable pub output_pane : Event → Option Bytes
output_pane (pane_output_event b p a d) = some p
output_pane _ = none
