-- ===== src/Events/Subscription.antt =====
-- tmux/events.go: `decodeSubscriptionEvent` and, with all decoders there, `decodeEvent`.
use gotmux.Prelude.{
  ℕ, zero, suc, Bool, true, false, not, ◌&&◌, ◌||◌, Option, none, some, List, [], ◌∷◌, Bytes, codes,
  bytes_eq, length, cut_prefix, err_protocol, Result, ok, err, ◌>>=◌, leb, ◌==◌, if◌then◌else◌,
}
use gotmux.Prelude.Cut.{cut, trim_newline}
use gotmux.Prelude.Fields.{fields, split}
use gotmux.Ids.{valid_pane_id, valid_window_id, valid_session_id}
use gotmux.Events.{EventBase, Event, subscription_event, unknown_event}
use gotmux.Events.Decode.{
  cut_or_all, space, colon, Decoded, or_next, decode_flow_event, decode_server_event,
  decode_target_event, is_output_event, parse_nonnegative, decode_output_event, decode_layout_event,
  decode_session_event, decode_window_event, decode_client_event,
}

-- The replacer of `subscriptionData`: "%0A", "%0D" and "%25", from the left.
unfoldable pub escape_at : ℕ → Bytes → Option ℕ
escape_at c (d ∷ e ∷ s) =
    if not (c == 37)
    then none
    else if d == 48 && e == 65
    then some 10
    else if d == 48 && e == 68
    then some 13
    else if d == 50 && e == 53
    then some 37
    else none
escape_at c _ = none

unfoldable pub replace_loop : ℕ → Bytes → Bytes
replace_loop skip [] = []
replace_loop (suc skip) (c ∷ s) = replace_loop skip s
replace_loop zero (c ∷ s) =
    let escaped = replace_loop 2 s in
    let plain = replace_loop 0 s in elim (escape_at c s) [ some b ↦ b ∷ escaped | none ↦ c ∷ plain ]

-- `subscriptionValuePrefix` and `subscriptionSessionPrefix` of tmux/clients.go
abbrev pub subscription_value_prefix : Bytes
subscription_value_prefix = codes "TGO-SUB-1:"

abbrev pub subscription_session_prefix : Bytes
subscription_session_prefix = codes "TGO-SUB-SESSION-1:"

-- The target session, if the text names one, and the value.
unfoldable pub session_value : Option (Bytes × Bytes) → Result (Option Bytes × Bytes)
session_value none = err err_protocol
session_value (some p) =
    if valid_session_id p.0 then ok (some p.0, replace_loop 0 p.1) else err err_protocol

unfoldable pub subscription_data : Bytes → Result (Option Bytes × Bytes)
subscription_data text = elim (cut_prefix subscription_session_prefix text) [
  | some rest ↦ session_value (cut (58 ∷ []) rest)
  | none ↦ elim (cut_prefix subscription_value_prefix text) [
    | some encoded ↦ ok (none, replace_loop 0 encoded)
    | none ↦ ok (none, text)
  ]
]

-- The last part of a header that is an identifier of a kind.
unfoldable pub last_valid : (Bytes → Bool) → Option Bytes → List Bytes → Option Bytes
last_valid test found [] = found
last_valid test found (x ∷ xs) = last_valid test (if test x then some x else found) xs

unfoldable pub subscription_window_index : List Bytes → Option ℕ
subscription_window_index (a ∷ b ∷ c ∷ d ∷ parts) =
    if bytes_eq d (codes "-") then none else parse_nonnegative d
subscription_window_index _ = none

target_session : Option Bytes → Option Bytes → Option Bytes
target_session (some s) found = some s
target_session none found = found

unfoldable pub subscription_parts :
    EventBase → Bytes → List Bytes → Option Bytes × Bytes → Result Event
unfolding target_session
subscription_parts base header [] (session, value) = err err_protocol
subscription_parts base header (name ∷ parts) (session, value) = ok (
    subscription_event base name header
      (target_session session (last_valid valid_session_id none parts))
      (last_valid valid_window_id none parts) (last_valid valid_pane_id none parts)
      (subscription_window_index (name ∷ parts)) value)

-- A header without a word is refused before the value is read; both are protocol errors.
unfoldable pub decode_subscription_event : EventBase → Bytes → Result Event
decode_subscription_event base rest = elim (cut colon rest) [
  | none ↦ err err_protocol
  | some p ↦ subscription_data p.1 >>= subscription_parts base p.0 (fields p.0)
]

-- A name among names.
unfoldable pub one_of : Bytes → List Bytes → Bool
one_of name [] = false
one_of name (x ∷ xs) = bytes_eq name x || one_of name xs

unfoldable pub is_session_event : Bytes → Bool
is_session_event name = one_of name (
    codes "session-changed"
    ∷ codes "session-renamed"
    ∷ codes "session-window-changed"
    ∷ codes "sessions-changed"
    ∷ [])

unfoldable pub is_window_event : Bytes → Bool
is_window_event name = one_of name (
    codes "window-add"
    ∷ codes "window-close"
    ∷ codes "window-renamed"
    ∷ codes "unlinked-window-add"
    ∷ codes "unlinked-window-close"
    ∷ codes "unlinked-window-renamed"
    ∷ [])

unfoldable pub is_client_event : Bytes → Bool
is_client_event name = one_of name (codes "client-session-changed" ∷ codes "client-detached" ∷ [])

unfoldable pub decode_lifecycle_event : EventBase → Bytes → Bytes → Decoded
decode_lifecycle_event base name rest =
    if bytes_eq name (codes "layout-change")
    then some (decode_layout_event base (split 32 rest))
    else if is_session_event name
    then some (decode_session_event base name rest)
    else if is_window_event name
    then some (decode_window_event base rest)
    else if is_client_event name
    then some (decode_client_event base name rest)
    else if bytes_eq name (codes "subscription-changed")
    then some (decode_subscription_event base rest)
    else none

unfoldable pub decode_known_event : EventBase → Bytes → Bytes → ℕ → Decoded
decode_known_event base name rest max_bytes = or_next (decode_flow_event base name rest) (
    or_next (decode_server_event base name rest) (
      or_next (decode_target_event base name rest) (
        if is_output_event name
        then some (decode_output_event base name rest max_bytes)
        else decode_lifecycle_event base name rest)))

unfoldable pub is_valid_event_name : Bytes → Bool
is_valid_event_name [] = true
is_valid_event_name (b ∷ name) =
    ((leb 97 b && leb b 122) || (leb 48 b && leb b 57) || b == 45) && is_valid_event_name name

unfoldable pub or_unknown : EventBase → Bytes → Decoded → Result Event
or_unknown base rest (some r) = r
or_unknown base rest none =
    if is_valid_event_name base.name then ok (unknown_event base rest) else err err_protocol

-- `decodeEvent` after the name and the rest are known.
unfoldable pub decode_named : ℕ → ℕ → Bytes × Bytes → Result Event
decode_named received max_bytes ([], rest) = err err_protocol
decode_named received max_bytes (c ∷ name, rest) =
    let base : EventBase = record { name = c ∷ name; received = received } in
    or_unknown base rest (decode_known_event base (c ∷ name) rest max_bytes)

unfoldable pub validate_event_line : Bytes → ℕ → Bool
validate_event_line (c ∷ d ∷ line) max_bytes = leb (length (c ∷ d ∷ line)) max_bytes && c == 37
validate_event_line _ max_bytes = false

-- `s[1:]`
abbrev pub after_first : Bytes → Bytes
after_first [] = []
after_first (c ∷ s) = s

unfoldable pub decode_event : ℕ → Bytes → ℕ → Result Event
decode_event received line max_bytes =
    if validate_event_line line max_bytes
    then decode_named received max_bytes (cut_or_all space (after_first (trim_newline line)))
    else err err_protocol
