-- ===== src/Ids.antt =====
-- tmux/handles.go: the identifiers that tmux gives its objects, and client names.
pub mod Canonical
use gotmux.Prelude.{
  ℕ, Bool, true, false, not, ◌&&◌, ◌||◌, List, [], ◌∷◌, Bytes, ltb, ◌==◌, if◌then◌else◌,
}
use gotmux.Prelude.Numeral.{all_digits, numeral_value}

unfoldable pub leading_zero : ℕ → Bytes → Bool
leading_zero d [] = false
leading_zero d (_ ∷ _) = d == 48

-- `validID`; digits of any number have a value, which `ParseUint` refuses from 2^32 on.
unfoldable pub valid_id : ℕ → Bytes → Bool
unfolding leading_zero
valid_id prefix [] = false
valid_id prefix (c ∷ []) = false
valid_id prefix (c ∷ d ∷ s) =
    c == prefix
    && all_digits (d ∷ s)
    && not (leading_zero d s)
    && ltb (numeral_value 0 (d ∷ s)) 4294967296

-- `SessionID.Valid`, `WindowID.Valid` and `PaneID.Valid`: "$", "@" and "%"
unfoldable pub valid_session_id : Bytes → Bool
valid_session_id s = valid_id 36 s

unfoldable pub valid_window_id : Bytes → Bool
valid_window_id s = valid_id 64 s

unfoldable pub valid_pane_id : Bytes → Bool
valid_pane_id s = valid_id 37 s

unfoldable pub client_name_bytes : Bytes → Bool
client_name_bytes [] = true
client_name_bytes (c ∷ s) = not (c == 0 || c == 10 || c == 13) && client_name_bytes s

-- `ClientName.Valid`
unfoldable pub valid_client_name : Bytes → Bool
valid_client_name [] = false
valid_client_name (c ∷ s) = client_name_bytes (c ∷ s)
