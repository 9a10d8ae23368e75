-- ===== src/Collect.antt =====
-- tmux/control_dispatch.go: the frames that `collectRequest` takes for one request, and the class of
-- a failure's text (tmux/executor.go). An error that is joined from several is the list of them;
-- a frame that stops the collection for another reason than the nonce is not among the frames.
pub mod Output
mod Tests
use gotmux.Prelude.{
  ℕ, ◌-◌, Bool, true, false, not, ◌&&◌, ◌||◌, Option, none, some, List, [], ◌∷◌, ◌++◌, Bytes, codes,
  bytes_eq, Error, err_protocol, err_output_limit, err_not_found, err_no_server, err_already_exists,
  err_ambiguous_target, err_permission, err_control_command_failed, length, take, ltb, ◌==◌,
  if◌then◌else◌,
}
use gotmux.Prelude.Space.{is_empty}
use gotmux.Prelude.Cut.{cut, has_prefix}
use gotmux.Frames.{ControlFrame}

-- `strings.Contains`
unfoldable pub contains : Bytes → Bytes → Bool
contains s part = elim (cut part s) [ some _ ↦ true | none ↦ false ]

unfoldable pub has_any_prefix : List Bytes → Bytes → Bool
has_any_prefix [] s = false
has_any_prefix (p ∷ ps) s = let rest = has_any_prefix ps s in if has_prefix p s then true else rest

unfoldable pub is_not_found_stderr : Bytes → Bool
is_not_found_stderr s =
    has_any_prefix
      (codes "can't find pane:"
        ∷ codes "can't find window:"
        ∷ codes "can't find session:"
        ∷ codes "can't find client:"
        ∷ codes "no such session:"
        ∷ codes "no such buffer:"
        ∷ codes "no buffer "
        ∷ [])
      s

unfoldable pub is_no_server_stderr : Bytes → Bool
is_no_server_stderr s =
    has_prefix (codes "error connecting to ") s || has_prefix (codes "no server running on ") s

-- `classifyStderr`; no error is the empty list.
unfoldable pub classify_stderr : Bytes → List Error
classify_stderr s =
    if contains s (codes "Permission denied") || contains s (codes "Operation not permitted")
    then err_permission ∷ []
    else if is_no_server_stderr s
    then err_no_server ∷ []
    else if is_not_found_stderr s
    then err_not_found ∷ []
    else if has_prefix (codes "duplicate session: ") s
    then err_already_exists ∷ []
    else if has_prefix (codes "multiple sessions:") s || has_prefix (codes "ambiguous ") s
    then err_ambiguous_target ∷ []
    else []

-- The `Result` and the error of `collectRequest`, so far.
pub record Collected : Type 0 where
  pub stdout : Bytes
  pub stderr : Bytes
  pub failure : List Error

-- `appendFrameData`: the bytes there are then, and whether all the data fits.
unfoldable pub append_frame_data : Bytes → Bytes → ℕ → Bytes × Bool
append_frame_data dst data_bytes limit =
    let left = limit - length dst in
    if ltb left (length data_bytes)
    then ((if ltb 0 left then dst ++ take left data_bytes else dst), false)
    else (dst ++ data_bytes, true)

unfoldable pub library_output : ControlFrame → Bool
library_output f =
    has_prefix (codes "TGO-GUARD-1:") f.data_bytes || has_prefix (codes "TGO1:") f.data_bytes

unfoldable pub limit_error : Bool → List Error
limit_error true = []
limit_error false = err_output_limit ∷ []

-- The frame that ends a request's answer.
unfoldable pub is_last : Bytes → ControlFrame → Bool
is_last nonce f = bytes_eq f.data_bytes nonce && not f.failed

module _ (out_limit err_limit : ℕ) where
  -- `handleCollectFrame` behind its returns.
  unfoldable pub keep_frame : ControlFrame → Collected → Collected
  keep_frame f c =
      let e = append_frame_data c.stderr f.data_bytes err_limit in
      let o = append_frame_data c.stdout f.data_bytes out_limit in
      if f.failed
      then record {
        stdout = c.stdout;
        stderr = e.0;
        failure =
            c.failure
            ++ (limit_error e.1 ++ (err_control_command_failed ∷ classify_stderr f.data_bytes));
      }
      else record { stdout = o.0; stderr = c.stderr; failure = c.failure ++ limit_error o.1 }

  -- A frame without flags that the library has not printed.
  unfoldable pub foreign_frame : Bool → ControlFrame → Collected → Collected
  foreign_frame startup f c =
      if is_empty f.data_bytes || not f.failed
      then c
      else if not startup
      then record {
        stdout = c.stdout;
        stderr = c.stderr;
        failure = c.failure ++ (err_protocol ∷ []);
      }
      else keep_frame f c

  -- `handleCollectFrame` on a frame that is not the last one.
  unfoldable pub handle_collect_frame : Bool → ControlFrame → Collected → Collected
  handle_collect_frame startup f c =
      if f.id.flags == 0 && not (library_output f)
      then foreign_frame startup f c
      else keep_frame f c

  -- The loop of `collectRequest` on the frames that arrive, until the nonce; `none` waits for more.
  unfoldable pub collect_request :
      Bytes → Bool → List ControlFrame → Collected → Option (Collected × List ControlFrame)
  collect_request nonce startup [] c = none
  collect_request nonce startup (f ∷ frames) c =
      let rest = collect_request nonce startup frames (handle_collect_frame startup f c) in
      if is_last nonce f then some (c, frames) else rest
