-- ===== src/Events/Decode.antt =====
-- tmux/events.go: `decodeEvent` and the decoders of the families of notifications. A decoder that
-- also says whether the name is one of its own returns an option. The clock's reading that
-- `decodeEvent` takes is an argument.
use gotmux.Prelude.{
  ℕ, ◌*◌, Bool, true, false, ◌&&◌, ◌||◌, Option, none, some, List, [], ◌∷◌, Bytes, codes, bytes_eq,
  err_protocol, Result, ok, err, ◌>>=◌, leb, ◌==◌, if◌then◌else◌,
}
use gotmux.Prelude.Cut.{cut}
use gotmux.Prelude.Fields.{fields}
use gotmux.Prelude.Numeral.{all_digits, numeral_value}
use gotmux.Wire.Argv.{valid_string}
use gotmux.Wire.Octal.{decode_octal}
use gotmux.Ids.{valid_pane_id, valid_window_id, valid_session_id, valid_client_name}
use gotmux.Events.{
  EventBase, Event, pane_output_event, pane_pause_event, pane_continue_event, layout_changed_event,
  session_event, window_event, client_event, config_error_event, message_event,
  client_flags_changed_event, pane_mode_changed_event, paste_buffer_changed_event,
  paste_buffer_deleted_event, window_pane_changed_event,
}

-- `before, after, _ := strings.Cut(s, sep)`
unfoldable pub cut_or_all : Bytes → Bytes → Bytes × Bytes
cut_or_all sep s = elim (cut sep s) [ some p ↦ p | none ↦ (s, []) ]

abbrev pub space : Bytes
space = 32 ∷ []

-- " : "
abbrev pub colon : Bytes
colon = 32 ∷ 58 ∷ 32 ∷ []

abbrev pub Decoded : Type 0
Decoded = Option (Result Event)

-- The decoders are tried in turn.
unfoldable pub or_next : Decoded → Decoded → Decoded
or_next (some r) next = some r
or_next none next = next

-- An event, if a test holds.
unfoldable pub event_if : Bool → Event → Result Event
event_if true e = ok e
event_if false e = err err_protocol

unfoldable pub decode_flow_event : EventBase → Bytes → Bytes → Decoded
decode_flow_event base name rest =
    if bytes_eq name (codes "pause")
    then some (event_if (valid_pane_id rest) (pane_pause_event base rest))
    else if bytes_eq name (codes "continue")
    then some (event_if (valid_pane_id rest) (pane_continue_event base rest))
    else none

unfoldable pub decode_client_flags : EventBase → Bytes × Bytes → Result Event
decode_client_flags base (client, flags) =
    event_if (valid_client_name client) (client_flags_changed_event base client flags)

unfoldable pub decode_server_event : EventBase → Bytes → Bytes → Decoded
decode_server_event base name rest =
    if bytes_eq name (codes "config-error")
    then some (ok (config_error_event base rest))
    else if bytes_eq name (codes "message")
    then some (ok (message_event base rest))
    else if bytes_eq name (codes "client-flags-changed")
    then some (decode_client_flags base (cut_or_all space rest))
    else none

not_empty : Bytes → Bool
not_empty [] = false
not_empty (_ ∷ _) = true

unfoldable pub decode_paste_buffer_event : EventBase → Bytes → Bytes → Decoded
unfolding not_empty
decode_paste_buffer_event base name rest =
    if bytes_eq name (codes "paste-buffer-changed")
    then some
        (event_if (valid_string rest && not_empty rest) (paste_buffer_changed_event base rest))
    else if bytes_eq name (codes "paste-buffer-deleted")
    then some
        (event_if (valid_string rest && not_empty rest) (paste_buffer_deleted_event base rest))
    else none

unfoldable pub decode_window_pane : EventBase → Bytes × Bytes → Result Event
decode_window_pane base (window, pane) =
    event_if (valid_window_id window && valid_pane_id pane)
      (window_pane_changed_event base window pane)

unfoldable pub decode_target_event : EventBase → Bytes → Bytes → Decoded
decode_target_event base name rest = or_next (decode_paste_buffer_event base name rest) (
    if bytes_eq name (codes "pane-mode-changed")
    then some (event_if (valid_pane_id rest) (pane_mode_changed_event base rest))
    else if bytes_eq name (codes "window-pane-changed")
    then some (decode_window_pane base (cut_or_all space rest))
    else none)

unfoldable pub is_output_event : Bytes → Bool
is_output_event name = bytes_eq name (codes "output") || bytes_eq name (codes "extended-output")

-- `strconv.ParseInt(s, 10, 64)`, where a result below zero is an error: `none`.
unfoldable pub parse_digits : Bytes → ℕ → Option ℕ
parse_digits [] limit = none
parse_digits (c ∷ s) limit =
    if all_digits (c ∷ s) && leb (numeral_value 0 (c ∷ s)) limit
    then some (numeral_value 0 (c ∷ s))
    else none

unfoldable pub parse_nonnegative : Bytes → Option ℕ
unfolding parse_digits
parse_nonnegative [] = none
parse_nonnegative (c ∷ s) =
    if c == 43
    then parse_digits s 9223372036854775807
    else if c == 45
    then parse_digits s 0
    else parse_digits (c ∷ s) 9223372036854775807

-- The age of an extended output, in nanoseconds.
unfoldable pub output_age : List Bytes → Result (Option ℕ)
output_age [] = err err_protocol
output_age (part ∷ parts) = elim (parse_nonnegative part) [
  | none ↦ err err_protocol
  | some n ↦ if leb n 9223372036854 then ok (some (n * 1000000)) else err err_protocol
]

-- The age and the text of the output.
unfoldable pub output_parts : Bytes → Bytes → Result (Option ℕ × Bytes)
output_parts name tail =
    if bytes_eq name (codes "extended-output")
    then elim (cut colon tail) [
      | none ↦ err err_protocol
      | some p ↦ output_age (fields p.0) >>= λ age. ok (age, p.1)
    ]
    else ok (none, tail)

-- A failure of any kind is a protocol error.
unfoldable pub or_protocol : Result Bytes → Result Bytes
or_protocol (ok s) = ok s
or_protocol (err e) = err err_protocol

unfoldable pub decode_pane_output : EventBase → Bytes → ℕ → Bytes × Bytes → Result Event
decode_pane_output base name max_bytes (id, tail) =
    if valid_pane_id id
    then (output_parts name tail >>= λ p.
        (or_protocol (decode_octal p.1 max_bytes) >>= λ out.
        ok (pane_output_event base id p.0 out)))
    else err err_protocol

unfoldable pub decode_output_event : EventBase → Bytes → Bytes → ℕ → Result Event
decode_output_event base name rest max_bytes =
    decode_pane_output base name max_bytes (cut_or_all space rest)

unfoldable pub decode_layout_event : EventBase → List Bytes → Result Event
unfolding not_empty
decode_layout_event base (w ∷ l ∷ v ∷ f ∷ []) =
    event_if (valid_window_id w && not_empty l && not_empty v) (layout_changed_event base w l v f)
decode_layout_event base _ = err err_protocol

unfoldable pub decode_session_parts : EventBase → Bytes → Bytes → Bytes × Bytes → Result Event
decode_session_parts base name rest (id, tail) = event_if (valid_session_id id) (
    session_event base (some id)
      (if bytes_eq name (codes "session-window-changed") then none else some tail) rest)

unfoldable pub decode_session_event : EventBase → Bytes → Bytes → Result Event
decode_session_event base name rest =
    if bytes_eq name (codes "sessions-changed")
    then ok (session_event base none none rest)
    else decode_session_parts base name rest (cut_or_all space rest)

unfoldable pub decode_window_event : EventBase → Bytes → Result Event
decode_window_event base rest = elim (cut space rest) [
  | some p ↦ event_if (valid_window_id p.0) (window_event base p.0 (some p.1) rest)
  | none ↦ event_if (valid_window_id rest) (window_event base rest none rest)
]

unfoldable pub decode_client_parts : EventBase → Bytes → Bytes → Bytes × Bytes → Result Event
decode_client_parts base name rest (id, tail) =
    if bytes_eq name (codes "client-session-changed")
    then event_if (valid_client_name id && valid_session_id ((cut_or_all space tail).0))
        (client_event base id (some ((cut_or_all space tail).0)) rest)
    else event_if (valid_client_name id) (client_event base id none rest)

unfoldable pub decode_client_event : EventBase → Bytes → Bytes → Result Event
decode_client_event base name rest = decode_client_parts base name rest (cut_or_all space rest)
