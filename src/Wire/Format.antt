-- ===== src/Wire/Format.antt =====
-- internal/wire/records.go: the tmux formats that print records, `RecordFormat`, `ExpressionsFormat` and
-- `nestedExpression`.
use gotmux.Prelude.{
  ℕ, Bool, ◌&&◌, ◌||◌, ◌≡◌, refl, List, [], ◌∷◌, ◌++◌, Bytes, codes, length, take, ◌==◌,
  if◌then◌else◌,
}
use gotmux.Prelude.Decimal.{itoa}
use gotmux.Wire.Records.{record_prefix}

-- "#{n:<field>}:#{<field>},"
unfoldable pub field_format : Bytes → Bytes
field_format f = codes "#{n:" ++ (f ++ (codes "}:#{" ++ (f ++ codes "},")))

unfoldable pub fields_format : List Bytes → Bytes
fields_format [] = []
fields_format (f ∷ fields) = field_format f ++ fields_format fields

unfoldable pub record_format : List Bytes → Bytes
record_format fields = record_prefix ++ (itoa (length fields) ++ (b':' ∷ fields_format fields))

-- ",#{}:"
unfoldable pub is_escaped : ℕ → Bool
is_escaped c = c == 44 || c == 35 || c == 123 || c == 125 || c == 58

-- The variables of the loop: `result`, and `openings` with the last one first.
pub record Nesting : Type 0 where
  pub written : Bytes
  pub openings : List ℕ

unfoldable pub write : Bytes → Nesting → Nesting
write s n = record { written = n.written ++ s; openings = n.openings }

unfoldable pub open_at : ℕ → Nesting → Nesting
open_at c n =
    if c == 123 then record { written = n.written; openings = length n.written ∷ n.openings } else n

-- A brace that closes nothing is escaped.
unfoldable pub close_brace : List ℕ → Nesting → Nesting
close_brace [] n = write (codes "#}") n
close_brace (o ∷ openings) n = record { written = n.written ++ 125 ∷ []; openings = openings }

-- A character that does not begin an escape.
unfoldable pub plain_character : ℕ → Nesting → Nesting
unfolding write close_brace
plain_character c n = if c == 125 then close_brace n.openings n else write (c ∷ []) n

-- The loop of `nestedExpression`. A number sign at the end is left off.
unfoldable pub nesting_loop : Bytes → Nesting → Nesting
unfolding write open_at plain_character is_escaped
nesting_loop [] n = n
nesting_loop (c ∷ []) n = if c == 35 then n else plain_character c n
nesting_loop (c ∷ d ∷ s) n =
    let escape = nesting_loop s (write (c ∷ d ∷ []) (open_at d n)) in
    let next = nesting_loop (d ∷ s) (if c == 35 then write (c ∷ []) n else plain_character c n) in
    if c == 35 && is_escaped d then escape else next

-- The first opening that is left.
unfoldable pub cut_at : List ℕ → Bytes → Bytes
cut_at [] s = s
cut_at (o ∷ []) s = take o s
cut_at (o ∷ p ∷ openings) s = cut_at (p ∷ openings) s

unfoldable pub nested_expression : Bytes → Bytes
unfolding nesting_loop cut_at
nested_expression e =
    let n = nesting_loop e (record { written = []; openings = [] }) in cut_at n.openings n.written

-- "#{n:#{l:}<expression>}:<expression>,"
unfoldable pub expression_format : Bytes → Bytes
unfolding nested_expression
expression_format e =
    let nested = nested_expression e in
    codes "#{n:#{l:}" ++ (nested ++ (codes "}:" ++ (nested ++ codes ",")))

unfoldable pub expressions_text : List Bytes → Bytes
expressions_text [] = []
expressions_text (e ∷ exprs) = expression_format e ++ expressions_text exprs

-- `ExpressionsFormat`, and `ExpressionFormat` is that of one expression.
unfoldable pub expressions_format : List Bytes → Bytes
expressions_format exprs = record_prefix ++ (itoa (length exprs) ++ (b':' ∷ expressions_text exprs))

nested_test : nested_expression (codes "#{?x,a}b}c#{d") ≡ codes "#{?x,a}b#}c"
unfolding nested_expression
nested_test = refl
