-- ===== src/Events/Output.antt =====
-- The output of a pane, as tmux prints it, and `decodeEvent` of tmux/events.go.
use gotmux.Prelude.{
  ℕ, ◌≤◌, ◌<◌, ◌≡◌, refl, ap, ◌∙◌, true, none, some, [], ◌∷◌, ◌++◌, Bytes, codes, length, ok, arith,
}
use gotmux.Prelude.Cut.{cut-Lacks, Lacks, trim_newline-append}
use gotmux.Prelude.Decimal.{itoa}
use gotmux.Prelude.Numeral.{all_digits, is_digit, all_digits-itoa}
use gotmux.Wire.Octal.{decode_octal, max_limit}
use gotmux.Wire.Octal.Correct.{Escapes, decode_octal_iff}
use gotmux.Ids.{valid_pane_id}
use gotmux.Ids.Canonical.{valid_id_iff}
use gotmux.Events.{EventBase, pane_output_event}
use gotmux.Events.Decode.{
  cut_or_all, space, or_next, decode_flow_event, decode_server_event, decode_paste_buffer_event,
  decode_target_event, is_output_event, output_parts, or_protocol, decode_pane_output,
  decode_output_event,
}
use gotmux.Events.Subscription.{
  decode_known_event, or_unknown, decode_named, validate_event_line, after_first, decode_event,
}

abbrev output : Bytes
output = codes "output"

-- The line of a pane's output: "%output %<pane> <text>".
abbrev pub output_line : ℕ → Bytes → Bytes
output_line pane text = (37 ∷ (output ++ (32 ∷ ((37 ∷ itoa pane) ++ (32 ∷ text))))) ++ (10 ∷ [])

digits-Lacks : (s : Bytes) → all_digits s ≡ true → Lacks 32 s
unfolding all_digits is_digit
digits-Lacks [] h = tt
digits-Lacks (c ∷ s) h = (ground arith, digits-Lacks s (ground arith))

cut_or_all-space :
    (name rest : Bytes) → Lacks 32 name → cut_or_all space (name ++ (32 ∷ rest)) ≡ (name, rest)
unfolding cut_or_all
cut_or_all-space name rest h = rw (cut_or_all, cut-Lacks 32 [] name rest h) refl

known_output :
    (base : EventBase) (rest : Bytes) (m : ℕ)
    → decode_known_event base output rest m ≡ some (decode_output_event base output rest m)
unfolding decode_known_event decode_flow_event decode_server_event decode_target_event
    decode_paste_buffer_event or_next is_output_event
known_output base rest m = refl

pane_output :
    (base : EventBase) (pane : ℕ) (text out : Bytes) (m : ℕ)
    → pane < 4294967296
    → decode_octal text m ≡ ok out
    → decode_output_event base output ((37 ∷ itoa pane) ++ (32 ∷ text)) m
      ≡ ok (pane_output_event base (37 ∷ itoa pane) none out)
unfolding decode_output_event decode_pane_output output_parts or_protocol valid_pane_id
pane_output base pane text out m h e =
    ap (decode_pane_output base output m) (
      cut_or_all-space (37 ∷ itoa pane) text
        (refl, digits-Lacks (itoa pane) (all_digits-itoa pane)))
    ∙ rw (decode_pane_output, (valid_id_iff 37 (37 ∷ itoa pane)).1 (pane, h, refl), e) refl

valid_output_line :
    (pane : ℕ) (text : Bytes) (m : ℕ)
    → length (output_line pane text) ≤ m
    → validate_event_line (output_line pane text) m ≡ true
unfolding validate_event_line
valid_output_line pane text m h = ground arith

-- The output that a pane has written, whatever its bytes and whichever of them tmux escapes, is the
-- event's output, if the line and the output are within the bound.
pub decode_event-output_line :
    (received pane : ℕ) (text out : Bytes) (max_bytes : ℕ)
    → pane < 4294967296
    → Escapes text out
    → length out ≤ max_bytes
    → max_bytes ≤ max_limit
    → length (output_line pane text) ≤ max_bytes
    → decode_event received (output_line pane text) max_bytes
      ≡ ok (
          pane_output_event
            (record { name = codes "output"; received = received })
            (37 ∷ itoa pane)
            none
            out)
unfolding decode_event decode_named or_unknown
decode_event-output_line received pane text out m h e l k n =
    let rest = (37 ∷ itoa pane) ++ (32 ∷ text) in
    let base : EventBase = record { name = output; received = received } in
    let decoded = (decode_octal_iff text out m).1 (e, l, k) in
    rw (decode_event, valid_output_line pane text m n)
      (ap (λ s. decode_named received m (cut_or_all space (after_first s)))
          (trim_newline-append (37 ∷ (output ++ (32 ∷ rest))))
        ∙ ap (decode_named received m)
            (cut_or_all-space output rest (refl, (refl, (refl, (refl, (refl, (refl, tt)))))))
        ∙ ap (or_unknown base rest) (known_output base rest m)
        ∙ pane_output base pane text out m h decoded)
