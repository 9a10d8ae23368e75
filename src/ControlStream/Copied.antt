-- ===== src/ControlStream/Copied.antt =====
-- The transform of tmux/control_codec.go into a slice of its own: what it does when its input cannot be
-- overwritten.
use gotmux.Prelude.{ℕ, Bool, true, false, [], ◌∷◌, ◌++◌, Bytes, length, ltb, ◌==◌, if◌then◌else◌}
use gotmux.ControlStream.{ControlStreamReader, filter_dsc}

-- A copy_all at work: the bytes written to the caller's slice, and the reader's fields.
pub record Copy : Type 0 where
  pub written : Bytes
  pub cr : Bool
  pub held : Bytes

-- One byte, with a slice of `size` bytes.
unfoldable pub copy_emit : ℕ → ℕ → Copy → Copy
copy_emit size b t =
    if ltb (length t.written) size
    then record { written = t.written ++ b ∷ []; cr = t.cr; held = t.held }
    else record { written = t.written; cr = t.cr; held = t.held ++ b ∷ [] }

unfoldable pub copy_cr : Bool → Copy → Copy
copy_cr b t = record { written = t.written; cr = b; held = t.held }

-- The first test of the loop's body: a carriage return that is not before a line feed is written.
unfoldable pub copy_flush : ℕ → ℕ → Copy → Copy
copy_flush size b t =
    if t.cr then if b == 10 then copy_cr false t else copy_emit size 13 (copy_cr false t) else t

unfoldable pub copy_byte : ℕ → ℕ → Copy → Copy
copy_byte size b t =
    if b == 13 then copy_cr true (copy_flush size b t) else copy_emit size b (copy_flush size b t)

unfoldable pub copy_loop : ℕ → Bytes → Copy → Copy
copy_loop size [] t = t
copy_loop size (b ∷ src) t = copy_loop size src (copy_byte size b t)

unfoldable pub copy_all : ℕ → Bytes → ControlStreamReader → Bytes × ControlStreamReader
copy_all size src c =
    let t = copy_loop size src (record { written = []; cr = c.has_cr; held = c.pending }) in
    (t.written, record { has_cr = t.cr; seen_dsc = c.seen_dsc; pending = t.held })

unfoldable pub copied : ℕ → Bytes → ControlStreamReader → Bytes × ControlStreamReader
copied size got c = copy_all size (filter_dsc got c).0 (filter_dsc got c).1
