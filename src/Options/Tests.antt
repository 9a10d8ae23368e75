-- ===== src/Options/Tests.antt =====
-- tmux/options.go on an array option with a gap, and on an update whose second command is refused.
use gotmux.Prelude.{
  ℕ, zero, suc, ◌≡◌, refl, true, false, none, some, List, [], ◌∷◌, map, codes, ok, arith,
}
use gotmux.Prelude.Int.{pos}
use gotmux.Prelude.Space.{is_empty}
use gotmux.Wire.Words.{parse_words, scan_words, word_round}
use gotmux.Read.{valid_format_name, all_format_bytes, is_format_byte}
use gotmux.Options.{OptionTarget, scope_server, base_name, read_array}
use gotmux.Options.Lines.{Printed, array_text, read_array-array_text}
use gotmux.Options.Update.{ArrayUpdate, effect_not_sent, Execute}

-- A bare word that is inherited, a quoted text, and an escaped quotation mark.
abbrev printed : List Printed
printed =
    record {
      entry = record { index = 0; value = codes "ab" };
      inherited = true;
      shown = codes "ab";
    }
    ∷ record {
      entry = record { index = 7; value = codes "a #" };
      inherited = false;
      shown = codes "\"a #\"";
    }
    ∷ record {
      entry = record { index = 9; value = codes "\"" };
      inherited = false;
      shown = codes "\\\"";
    }
    ∷ []

words-read :
    (parse_words (codes "ab") ≡ ok (codes "ab" ∷ []))
    × (parse_words (codes "\"a #\"") ≡ ok (codes "a #" ∷ []))
    × (parse_words (codes "\\\"") ≡ ok (codes "\"" ∷ []))
unfolding parse_words scan_words word_round
words-read = (refl, refl, refl)

is_base : base_name (codes "status-format") ≡ true
unfolding base_name valid_format_name all_format_bytes is_format_byte is_empty
is_base = refl

read_array-array_text_example :
    read_array (codes "status-format") (array_text (codes "status-format") printed)
    ≡ ok (map (λ x. x.entry) printed)
read_array-array_text_example = read_array-array_text (codes "status-format") printed is_base (
  record { bounded = omega arith; one_word = words-read.0; one_line = (refl, (refl, tt)) },
  (
    record {
      bounded = omega arith;
      one_word = words-read.1;
      one_line = (refl, (refl, (refl, (refl, (refl, tt)))));
    },
    (record { bounded = omega arith; one_word = words-read.2; one_line = (refl, (refl, tt)) }, tt),
  ),
)

abbrev update : ℕ → ArrayUpdate
update i = record { index = pos i; value = codes "x"; unset = false }

-- The command of step 1 is not sent, the others succeed.
abbrev one_refused : Execute
one_refused zero args = none
one_refused (suc zero) args = some effect_not_sent
one_refused (suc (suc i)) args = none

abbrev target : OptionTarget
target = record { scope = scope_server; id = [] }
