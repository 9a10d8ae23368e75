-- ===== src/Collect/Tests.antt =====
-- `collectRequest` of tmux/control_dispatch.go on the frames of one answer.
use gotmux.Prelude.{◌++◌, ◌≡◌, refl, true, false, some, List, [], ◌∷◌, Bytes, codes, arith}
use gotmux.Frames.{ControlFrame}
use gotmux.Collect.{
  Collected, append_frame_data, limit_error, keep_frame, handle_collect_frame, is_last,
  collect_request,
}
use gotmux.Collect.Output.{IsBounded, output_of, collect_request-IsBounded, collect_request-output}

abbrev nothing : Collected
nothing = record { stdout = []; stderr = []; failure = [] }

abbrev frame_of : Bytes → ControlFrame
frame_of text = record {
  id = record { time = 1; number = 2; flags = 1 };
  data_bytes = text;
  failed = false;
}

-- One frame of output, the frame with the nonce, and one that stays.
abbrev frames : List ControlFrame
frames = frame_of (codes "ab") ∷ frame_of (codes "n1") ∷ frame_of [] ∷ []

abbrev answer : Collected
answer = record { stdout = codes "ab"; stderr = []; failure = [] }

collected : collect_request 4 4 (codes "n1") false frames nothing ≡ some (answer, frame_of [] ∷ [])
unfolding collect_request is_last handle_collect_frame keep_frame append_frame_data limit_error
collected = refl

collect_request-IsBounded_example : IsBounded 4 4 answer
collect_request-IsBounded_example =
    collect_request-IsBounded 4 4 (codes "n1") false frames nothing answer (frame_of [] ∷ [])
      (record { out_within = omega arith; err_within = omega arith }) collected

collect_request-output_example :
    (before : List ControlFrame) × (last : ControlFrame) × (frames
      ≡ before ++ (last ∷ frame_of [] ∷ []))
    × (is_last (codes "n1") last ≡ true)
    × (nothing.failure ≡ [])
    × (answer.stderr ≡ nothing.stderr)
    × (answer.stdout ≡ nothing.stdout ++ output_of before)
collect_request-output_example =
    collect_request-output 4 4 (codes "n1") false frames nothing answer (frame_of [] ∷ []) collected
      refl
