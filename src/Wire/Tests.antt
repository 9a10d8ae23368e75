-- ===== src/Wire/Tests.antt =====
-- The functions of internal/wire on concrete texts, and the theorems about them at inputs that meet
-- their hypotheses.
use gotmux.Prelude.{
  ◌≡◌, ◌≢◌, ◌↔◌, ◌⊎◌, refl, true, false, ◌≤◌, List, [], ◌∷◌, ◌++◌, map, Bytes, All, codes, none,
  some, err_nul_command_text, err_record, err_command_text, ok, err, length, arith,
}
use gotmux.Prelude.Decimal.{itoa}
use gotmux.Wire.Argv.{is_safe_quote_byte, escape_arg, literal_format, valid_string, valid_command}
use gotmux.Wire.Quote.{quote, quoted}
use gotmux.Wire.Quote.Laws.{quote-cases}
use gotmux.Wire.Counter.{writes, counting, answers, behind, writes-behind}
use gotmux.Wire.Words.{parse_words, scan_words, word_round}
use gotmux.Wire.Words.Quoted.{parse_words-quoted}
use gotmux.Wire.Sequence.{
  split_sequence, split_binding_sequence, scan_sequence, split_round, extract_part,
}
use gotmux.Wire.Sequence.RoundTrip.{Call, call_text, sequence_text}
use gotmux.Wire.Sequence.Whole.{split_sequence-sequence_text}
use gotmux.Wire.Stream.{Stream, read_byte, read_full}
use gotmux.Wire.Records.{
  netstring, encode_record, decimal, decimal_loop, field_comma, field_content, scan_field,
  header_count, scan_record_header, scan_end, scan_fields, scan_record, read_record,
  read_record_fields, read_record_wire,
}
use gotmux.Wire.Records.Parse.{
  parse_records, rows_text, Accepts, read-encode_record, read_record-Accepts,
  read_record_wire-Accepts, parse_records_total, parse_records_sound, parse_records-rows_text,
}
use gotmux.Wire.Octal.{decode_octal, max_limit}
use gotmux.Wire.Octal.Correct.{Escapes, decode_octal_iff}

escapes_of_arguments :
    (escape_arg (codes "a;") ≡ codes "a\\;")
    × (escape_arg (codes "a;b") ≡ codes "a;b")
    × (literal_format (codes "x#y") ≡ codes "x#{a:35}y")
unfolding escape_arg literal_format
escapes_of_arguments = (refl, refl, refl)

quote_dollar : quote (codes "a $b") ≡ ok (codes "\"a \\044b\"")
unfolding quote is_safe_quote_byte
quote_dollar = refl

quote-cases_example :
    ((valid_string (codes "a;b") ≡ false) × (quote (codes "a;b") ≡ err err_nul_command_text))
    ⊎ ((valid_string (codes "a;b") ≡ true) × (quote (codes "a;b") ≡ ok (quoted (codes "a;b"))))
quote-cases_example = quote-cases (codes "a;b")

words_and_comment :
    parse_words (codes "ab \"c\\040d\" 'x y'  # no")
    ≡ ok (codes "ab" ∷ codes "c d" ∷ codes "x y" ∷ [])
unfolding parse_words scan_words word_round
words_and_comment = refl

words_refused : parse_words (codes "a $HOME") ≡ err err_command_text
unfolding parse_words scan_words word_round
words_refused = refl

parse_words-quoted_example : parse_words (quoted (codes "a ; $b")) ≡ ok (codes "a ; $b" ∷ [])
parse_words-quoted_example = parse_words-quoted (codes "a ; $b") (omega arith)

sequence_parts :
    split_sequence (codes "a \"b;c\" ; d \\; e;") ≡ ok (codes "a \"b;c\"" ∷ codes "d \\; e" ∷ [])
unfolding split_sequence scan_sequence split_round extract_part
sequence_parts = refl

binding_parts : split_binding_sequence (codes "a \\; e # x") ≡ ok (codes "a" ∷ codes "e" ∷ [])
unfolding split_binding_sequence scan_sequence split_round extract_part
binding_parts = refl

abbrev two_calls : List Call
two_calls =
    (codes "display-message", codes "-p" ∷ codes "a ; b" ∷ []) ∷ (codes "kill-server", []) ∷ []

split_sequence-sequence_text_example :
    (split_sequence (sequence_text (map call_text two_calls)) ≡ ok (map call_text two_calls))
    × (split_binding_sequence (sequence_text (map call_text two_calls))
        ≡ ok (map call_text two_calls))
unfolding valid_command
split_sequence-sequence_text_example =
    split_sequence-sequence_text two_calls ((refl, omega arith), ((refl, tt), tt))

writes-behind_example : writes (codes "a" ∷ codes "bc" ∷ codes "d" ∷ []) (counting 3 5) ≡ (
  answers 2 (codes "a" ∷ codes "bc" ∷ codes "d" ∷ []),
  behind 3 5 (codes "a" ∷ codes "bc" ∷ codes "d" ∷ []),
)
writes-behind_example = writes-behind 3 5 (codes "a" ∷ codes "bc" ∷ codes "d" ∷ []) (omega arith)

abbrev row : List Bytes
row = codes "ab" ∷ [] ∷ []

encoded_row : encode_record row ≡ codes "TGO1:2:2:ab,0:,\n"
unfolding encode_record itoa
encoded_row = refl

row_read : read_record (codes "TGO1:2:2:ab,0:,\n%end") 16 ≡ (
  record { wire = codes "TGO1:2:2:ab,0:,\n"; fields = row; failure = none },
  record { source = codes "%end"; recorded = codes "TGO1:2:2:ab,0:,\n" },
)
unfolding read_record scan_record scan_record_header header_count scan_fields scan_field
    field_content field_comma scan_end decimal decimal_loop read_byte read_full netstring itoa
row_read = refl

leading_zero_refused : (read_record_fields (codes "TGO1:01:1:a,\n") 99).0 ≡ err err_record
unfolding read_record_fields scan_record scan_record_header header_count scan_fields scan_field
    field_content field_comma scan_end decimal decimal_loop read_byte read_full netstring itoa
leading_zero_refused = refl

read-encode_record_example :
    let after : Stream = record { source = codes "x"; recorded = encode_record row } in
    (read_record (encode_record row ++ codes "x") 16
      ≡ (record { wire = encode_record row; fields = row; failure = none }, after))
    × (read_record_fields (encode_record row ++ codes "x") 16 ≡ (ok row, after))
    × (read_record_wire (encode_record row ++ codes "x") 16 ≡ (encode_record row, none, after))
unfolding encode_record itoa
read-encode_record_example =
    read-encode_record row 16 (codes "x") (omega arith) (omega arith) (omega arith)

read_record-Accepts_example :
    Accepts
      (codes "TGO1:1:1:a,\n")
      12
      (read_record (codes "TGO1:1:1:a,\n") 12).0.fields
      (read_record (codes "TGO1:1:1:a,\n") 12).1.source
    × ((read_record (codes "TGO1:1:1:a,\n") 12).0.wire
        ≡ encode_record (read_record (codes "TGO1:1:1:a,\n") 12).0.fields)
unfolding read_record scan_record scan_record_header header_count scan_fields scan_field
    field_content field_comma scan_end decimal decimal_loop read_byte read_full netstring itoa
read_record-Accepts_example = read_record-Accepts (codes "TGO1:1:1:a,\n") 12 refl

read_record_wire-Accepts_example :
    (vs : List Bytes) × Accepts
      (codes "TGO1:1:1:a,\n")
      12
      vs
      (read_record_wire (codes "TGO1:1:1:a,\n") 12).2.source
    × ((read_record_wire (codes "TGO1:1:1:a,\n") 12).0 ≡ encode_record vs)
unfolding read_record_wire scan_record scan_record_header header_count scan_fields scan_field
    field_content field_comma scan_end decimal decimal_loop read_byte read_full netstring itoa
read_record_wire-Accepts_example = read_record_wire-Accepts (codes "TGO1:1:1:a,\n") 12 refl

abbrev rows : List (List Bytes)
rows = row ∷ (codes "c" ∷ codes "d" ∷ []) ∷ []

parse_records-rows_text_example : parse_records (rows_text rows) 2 ≡ some (ok rows)
parse_records-rows_text_example =
    parse_records-rows_text rows 2
      ((refl, omega arith, omega arith), ((refl, omega arith, omega arith), tt))

parse_records_sound_example : (rows_text rows ≡ rows_text rows) × All (λ r. length r ≡ 2) rows
parse_records_sound_example = parse_records_sound (rows_text rows) 2 parse_records-rows_text_example

parse_records_total_example : parse_records (codes "TGO1:x") 2 ≢ none
parse_records_total_example = parse_records_total (codes "TGO1:x") 2

octal_text : decode_octal (codes "a\\033b") 3 ≡ ok (97 ∷ 27 ∷ 98 ∷ [])
unfolding decode_octal
octal_text = refl

decode_octal_iff_example :
    (decode_octal (codes "a\\033b") 3 ≡ ok (97 ∷ 27 ∷ 98 ∷ []))
    ↔ (Escapes (codes "a\\033b") (97 ∷ 27 ∷ 98 ∷ []) × (3 ≤ 3) × (3 ≤ max_limit))
decode_octal_iff_example = decode_octal_iff (codes "a\\033b") (97 ∷ 27 ∷ 98 ∷ []) 3
