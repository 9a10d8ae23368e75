-- ===== src/Command/Plain.antt =====
-- The text of a valid tree holds bytes other than NUL.
use gotmux.Prelude.{
  ℕ, ◌<◌, ◌≡◌, ◌≢◌, inl, inr, Bool, true, false, [], ◌∷◌, ◌++◌, Bytes, codes, Bool-cases,
  if◌then◌else◌, arith,
}
use gotmux.Wire.Argv.{valid_command, command_chars, is_letter, is_command_char, is_safe_quote_byte}
use gotmux.Wire.Quote.{quoted, escape, octal_escape}
use gotmux.Wire.Writer.{NonZero}
use gotmux.Wire.Words.Quoted.{IsText}
use gotmux.Command.{Arg, Args, Node, Nodes}
use gotmux.Command.Text.{
  arg_word, args_text, node_text, nodes_text, ValidArg, valid_text, valid_nested, ValidArgs,
  valid_end, valid_more, ValidNode, valid_node, ValidNodes, valid_stop, valid_next,
}

pub IsText-NonZero : (s : Bytes) → IsText s → NonZero s
IsText-NonZero [] h = tt
IsText-NonZero (c ∷ s) h = (h.0.0, IsText-NonZero s h.1)

IsText-append : (p q : Bytes) → IsText p → IsText q → IsText (p ++ q)
IsText-append [] q hp hq = hq
IsText-append (c ∷ p) q hp hq = (hp.0, IsText-append p q hp.1 hq)

octal_escape-IsText : (b : ℕ) → b < 256 → IsText (octal_escape b)
unfolding octal_escape
octal_escape-IsText b h = omega arith

escape-IsText : (p : Bytes) → IsText p → IsText (escape p)
unfolding escape
escape-IsText [] h = tt
escape-IsText (b ∷ p) h = elim (Bool-cases (is_safe_quote_byte b)) [
  | inl safe ↦ rw safe (h.0, escape-IsText p h.1)
  | inr unsafe ↦ rw unsafe (
      IsText-append (octal_escape b) (escape p) (octal_escape-IsText b h.0.1) (escape-IsText p h.1))
]

quoted-IsText : (p : Bytes) → IsText p → IsText (quoted p)
unfolding quoted
quoted-IsText p h =
    (omega arith, IsText-append (escape p) (b'"' ∷ []) (escape-IsText p h) (omega arith))

command_char-byte : (c : ℕ) → is_command_char c ≡ true → (c ≢ 0) × (c < 256)
unfolding is_command_char
command_char-byte c h = ground arith

letter-byte : (c : ℕ) → is_letter c ≡ true → (c ≢ 0) × (c < 256)
unfolding is_letter
letter-byte c h = ground arith

command_chars-IsText : (s : Bytes) → command_chars s ≡ true → IsText s
unfolding command_chars
command_chars-IsText [] h = tt
command_chars-IsText (c ∷ s) h =
    (command_char-byte c (ground arith), command_chars-IsText s (ground arith))

pub valid_command-IsText : (name : Bytes) → valid_command name ≡ true → IsText name
unfolding valid_command
valid_command-IsText [] h = tt
valid_command-IsText (c ∷ s) h =
    (letter-byte c (ground arith), command_chars-IsText s (ground arith))

separator-bytes : (first : Bool) → IsText (if first then [] else codes " ; ")
separator-bytes true = tt
separator-bytes false = omega arith

mutual
  unfolding arg_word args_text node_text nodes_text

  arg_word-bytes : {a : Arg} → ValidArg a → IsText (arg_word a)
  arg_word-bytes (valid_text h) = h
  arg_word-bytes (valid_nested v) = nodes_text-bytes true v

  args_text-bytes : {args : Args} → ValidArgs args → IsText (args_text args)
  args_text-bytes valid_end = tt
  args_text-bytes (valid_more {a} {args} v vs) = (
    omega arith,
    IsText-append (quoted (arg_word a)) (args_text args)
        (quoted-IsText (arg_word a) (arg_word-bytes v)) (args_text-bytes vs),
  )

  node_text-bytes : {n : Node} → ValidNode n → IsText (node_text n)
  node_text-bytes (valid_node {name} {args} h vs) =
      IsText-append name (args_text args) (valid_command-IsText name h) (args_text-bytes vs)

  nodes_text-bytes : (first : Bool) {ns : Nodes} → ValidNodes ns → IsText (nodes_text first ns)
  nodes_text-bytes first valid_stop = tt
  nodes_text-bytes first (valid_next {n} {ns} v vs) =
      IsText-append (if first then [] else codes " ; ") (node_text n ++ nodes_text false ns)
        (separator-bytes first)
        (IsText-append (node_text n) (nodes_text false ns) (node_text-bytes v)
          (nodes_text-bytes false vs))

-- The same, outside the block.
pub arg_word-IsText : {a : Arg} → ValidArg a → IsText (arg_word a)
arg_word-IsText v = arg_word-bytes v

pub args_text-IsText : {args : Args} → ValidArgs args → IsText (args_text args)
args_text-IsText v = args_text-bytes v

pub node_text-IsText : {n : Node} → ValidNode n → IsText (node_text n)
node_text-IsText v = node_text-bytes v

pub nodes_text-IsText : (first : Bool) {ns : Nodes} → ValidNodes ns → IsText (nodes_text first ns)
nodes_text-IsText first v = nodes_text-bytes first v
