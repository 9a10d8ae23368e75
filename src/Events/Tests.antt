-- ===== src/Events/Tests.antt =====
-- Identifiers (tmux/handles.go) and notifications (tmux/events.go) on concrete texts.
use gotmux.Prelude.{
  ◌+◌, ◌*◌, ◌≤◌, ◌≡◌, ◌↔◌, refl, true, none, [], ◌∷◌, Bytes, codes, length, ok, arith,
}
use gotmux.Prelude.Decimal.{itoa}
use gotmux.Wire.Octal.{is_octal_digit}
use gotmux.Wire.Octal.Correct.{Escapes, done, plain, escaped}
use gotmux.Ids.{valid_id}
use gotmux.Ids.Canonical.{IsId, valid_id_iff}
use gotmux.Events.{Event, pane_output_event, event_bytes}
use gotmux.Events.Subscription.{decode_event}
use gotmux.Events.Charge.{decode_event_charge}
use gotmux.Events.Output.{output_line, decode_event-output_line}

valid_id_iff_example : (valid_id 37 (codes "%12") ≡ true) ↔ IsId 37 (codes "%12")
valid_id_iff_example = valid_id_iff 37 (codes "%12")

-- "a\012": an escaped line feed.
abbrev escaped_line : Bytes
escaped_line = 97 ∷ 92 ∷ 48 ∷ 49 ∷ 50 ∷ []

abbrev printed : Event
printed =
    pane_output_event (record { name = codes "output"; received = 5 }) (37 ∷ itoa 3) none
      (97 ∷ 10 ∷ [])

text-Escapes : Escapes escaped_line (97 ∷ 10 ∷ [])
unfolding is_octal_digit
text-Escapes = plain (omega arith) (escaped refl refl refl refl refl (omega arith) done)

decode_event-output_line_example : decode_event 5 (output_line 3 escaped_line) 1000 ≡ ok printed
unfolding itoa
decode_event-output_line_example =
    decode_event-output_line 5 3 escaped_line (97 ∷ 10 ∷ []) 1000 (omega arith) text-Escapes
      (omega arith) (omega arith) (omega arith)

decode_event_charge_example :
    (event_bytes printed ≤ 2 * length (output_line 3 escaped_line) + 128)
    × (length (output_line 3 escaped_line) ≤ 1000)
decode_event_charge_example =
    decode_event_charge 5 (output_line 3 escaped_line) 1000 decode_event-output_line_example
