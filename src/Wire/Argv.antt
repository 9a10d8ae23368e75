-- ===== src/Wire/Argv.antt =====
-- internal/wire/argv.go: the tests on names and texts, and the escapes for argument vectors.
use gotmux.Prelude.{
  ℕ, Bool, true, false, not, ◌&&◌, ◌||◌, [], ◌∷◌, ◌++◌, Bytes, codes, leb, ltb, ◌==◌, if◌then◌else◌,
}

unfoldable pub is_letter : ℕ → Bool
is_letter b = (leb b'a' b && leb b b'z') || (leb b'A' b && leb b b'Z')

unfoldable pub is_command_char : ℕ → Bool
unfolding is_letter
is_command_char b = is_letter b || (leb b'0' b && leb b b'9') || b == b'-' || b == b'_'

-- `!strings.ContainsRune(s, 0)`
unfoldable pub valid_string : Bytes → Bool
valid_string [] = true
valid_string (c ∷ s) = not (c == 0) && valid_string s

unfoldable pub command_chars : Bytes → Bool
command_chars [] = true
command_chars (c ∷ s) = is_command_char c && command_chars s

unfoldable pub valid_command : Bytes → Bool
unfolding is_letter is_command_char command_chars
valid_command [] = false
valid_command (c ∷ s) = is_letter c && command_chars s

-- Only a last byte `;` is escaped: the tail is walked until one byte is left.
unfoldable pub escape_arg : Bytes → Bytes
escape_arg [] = []
escape_arg (c ∷ []) = if c == b';' then b'\\' ∷ b';' ∷ [] else c ∷ []
escape_arg (c ∷ d ∷ s) = c ∷ escape_arg (d ∷ s)

-- `strings.ReplaceAll(s, "#", "#{a:35}")`
unfoldable pub literal_format : Bytes → Bytes
literal_format [] = []
literal_format (c ∷ s) =
    let rest = literal_format s in if c == b'#' then codes "#{a:35}" ++ rest else c ∷ rest

unfoldable pub is_safe_quote_byte : ℕ → Bool
is_safe_quote_byte b =
    if ltb b 0x20 || leb 0x7f b
    then false
    else if b == b'"' || b == b'\\' || b == b'$' || b == b'`' || b == b'~'
    then false
    else true
