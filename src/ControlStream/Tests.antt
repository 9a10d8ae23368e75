-- ===== src/ControlStream/Tests.antt =====
-- The reader of tmux/control_codec.go on one stream.
use gotmux.Prelude.{◌≡◌, false, some, [], ◌∷◌}
use gotmux.ControlStream.{Source, Reading, read}
use gotmux.ControlStream.Normal.{seen}
use gotmux.ControlStream.Reads.{Returns, read-Returns}

-- "a\r", "\nb\r", "c"
abbrev pieces : Source
pieces = (97, 13 ∷ []) ∷ (10, 98 ∷ 13 ∷ []) ∷ (99, []) ∷ []

read-Returns_example :
    (r : Reading) × (read (0 ∷ 0 ∷ []) (seen false []) pieces ≡ some r)
    × Returns 2 (seen false []) pieces r
read-Returns_example = read-Returns 0 (0 ∷ []) false [] pieces
