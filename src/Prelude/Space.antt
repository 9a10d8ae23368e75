-- ===== src/Prelude/Space.antt =====
-- `strings.TrimSpace` of Go, on bytes of UTF-8 text.
use Prim.Native.Nat.{ℕ, zero, suc, ◌-◌}
use mathlib.Core.Bool.{Bool, true, false}
use mathlib.Core.List.{[], ◌∷◌}
use gotmux.Prelude.Tests.{◌==◌, if◌then◌else◌}
use gotmux.Prelude.Lists.{Bytes}
use gotmux.Prelude.Fields.{space_width}

-- The text without the white space at its beginning; `skip` bytes belong to a character that has
-- begun.
unfoldable pub skip_spaces : ℕ → Bytes → Bytes
unfolding space_width
skip_spaces skip [] = []
skip_spaces (suc skip) (c ∷ s) = skip_spaces skip s
skip_spaces zero (c ∷ s) =
    let n = space_width (c ∷ s) in
    let after = skip_spaces (n - 1) s in if n == 0 then c ∷ s else after

unfoldable pub is_empty : Bytes → Bool
is_empty [] = true
is_empty (_ ∷ _) = false

-- The text before the white space at its end: no byte inside a character begins white space.
unfoldable pub trim_right : Bytes → Bytes
unfolding skip_spaces is_empty
trim_right [] = []
trim_right (c ∷ s) =
    let rest = trim_right s in if is_empty (skip_spaces 0 (c ∷ s)) then [] else c ∷ rest

unfoldable pub trim_space : Bytes → Bytes
unfolding trim_right skip_spaces
trim_space s = trim_right (skip_spaces 0 s)
