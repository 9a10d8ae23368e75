-- ===== src/Frames/Tests.antt =====
-- The frames of tmux/control_codec.go on one connection's text.
use gotmux.Prelude.{
  ◌≡◌, ◌≢◌, refl, none, some, List, [], ◌∷◌, ◌++◌, Bytes, All, codes, ok, length, arith,
}
use gotmux.Prelude.Decimal.{itoa}
use gotmux.Wire.Records.{netstring, netstrings, encode_record}
use gotmux.Wire.Records.Parse.{rows_text, IsRow, parse_records}
use gotmux.Frames.{FrameId, frame_unit, read_control_unit}
use gotmux.Frames.Read.{read_control_unit_total}
use gotmux.Frames.Header.{IsFrame, header_line}
use gotmux.Frames.RoundTrip.{complete, read_control_unit-rows}

abbrev two_lines : Bytes
two_lines = codes "a line of more than sixteen bytes" ++ (10 ∷ 98 ∷ 10 ∷ [])

read_control_unit_total_example : read_control_unit 16 100 (λ left. length left) two_lines ≢ none
read_control_unit_total_example =
    read_control_unit_total 16 100 (λ left. length left) (omega arith) two_lines

abbrev seventh : FrameId
seventh = record { time = 1700000000; number = 7; flags = 1 }

seventh-IsFrame : IsFrame seventh
seventh-IsFrame = record {
  time_fits = omega arith;
  number_fits = omega arith;
  one_flag = omega arith;
}

abbrev rows : List (List Bytes)
rows = (codes "%1" ∷ codes "zsh" ∷ []) ∷ (codes "%2" ∷ [] ∷ []) ∷ []

rows-IsRow : All (IsRow 2) rows
rows-IsRow = (
  (refl, omega arith, (omega arith, (omega arith, tt))),
  ((refl, omega arith, (omega arith, (omega arith, tt))), tt),
)

abbrev stream : Bytes
stream =
    header_line (codes "begin") seventh
    ++ (rows_text rows ++ (header_line (codes "end") seventh ++ codes "%exit"))

read_control_unit-rows_example :
    (read_control_unit 16 100 (λ left. length left) stream
      ≡ some (ok (frame_unit (complete seventh (rows_text rows)), [], codes "%exit")))
    × (parse_records (rows_text rows) 2 ≡ some (ok rows))
unfolding rows_text encode_record itoa netstrings netstring
read_control_unit-rows_example =
    read_control_unit-rows 16 100 (λ left. length left) (omega arith) seventh rows 2 (codes "%exit")
      seventh-IsFrame rows-IsRow (omega arith)
