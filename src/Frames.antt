-- ===== src/Frames.antt =====
-- tmux/control_codec.go: the frames of a control connection, read from a `bufio.Reader` whose buffer
-- has `size` bytes. The reader is the bytes it still has, at whose end it returns `io.EOF`. What is
-- left is given only with a result: no reader reads on after an error. An error that is joined to
-- `ErrProtocol` is that one. The clock that `decodeEvent` reads is a function of the bytes that are
-- left, so that each event may have its own time.
pub mod Line
pub mod Sound
pub mod Read
pub mod Header
pub mod RoundTrip
mod Tests
use gotmux.Prelude.{
  ℕ, zero, suc, ◌+◌, ◌-◌, ◌^◌, Bool, true, false, not, ◌&&◌, ◌||◌, Option, none, some, List, [],
  ◌∷◌, ◌++◌, Bytes, codes, cut_prefix, bytes_eq, Error, err_record, err_protocol, err_output_limit,
  eof, Result, ok, err, ◌>>=◌, length, drop, ltb, leb, ◌==◌, if◌then◌else◌,
}
use gotmux.Prelude.Cut.{has_prefix, trim_newline}
use gotmux.Prelude.Fields.{fields}
use gotmux.Prelude.Space.{skip_spaces, is_empty}
use gotmux.Prelude.Numeral.{all_digits, numeral_value}
use gotmux.Wire.Stream.{Stream}
use gotmux.Wire.Records.{record_prefix, read_record_wire}
use gotmux.ControlStream.{dsc_preamble}
use gotmux.Events.{Event}
use gotmux.Events.Subscription.{decode_event}

pub record FrameId : Type 0 where
  pub time : ℕ
  pub number : ℕ
  pub flags : ℕ

pub record ControlFrame : Type 0 where
  pub id : FrameId
  pub data_bytes : Bytes
  pub failed : Bool

-- A `controlUnit` that is returned without an error has a frame or an event.
pub data ControlUnit : Type 0 where
  frame_unit : ControlFrame → ControlUnit
  event_unit : Event → ControlUnit

-- `strconv.ParseUint(s, 10, 64)`
unfoldable pub parse_uint : Bytes → Result ℕ
parse_uint [] = err err_protocol
parse_uint (c ∷ s) =
    if all_digits (c ∷ s) && ltb (numeral_value 0 (c ∷ s)) (2 ^ 64)
    then ok (numeral_value 0 (c ∷ s))
    else err err_protocol

unfoldable pub header_id : Bytes → List Bytes → Result FrameId
header_id kind (name ∷ time ∷ number ∷ flags ∷ []) =
    if bytes_eq name (37 ∷ kind)
    then (parse_uint time >>= λ t. parse_uint number >>= λ n. parse_uint flags >>= λ f.
        if ltb 1 f then err err_protocol else ok (record { time = t; number = n; flags = f }))
    else err err_protocol
header_id kind _ = err err_protocol

unfoldable pub frame_header : Bytes → Bytes → Result FrameId
frame_header line kind = header_id kind (fields (trim_newline line))

-- What is trimmed to the trailer is the trailer with white space around it.
unfoldable pub is_dsc_trailer : Bytes → Bool
is_dsc_trailer b = elim (cut_prefix (27 ∷ 92 ∷ []) (skip_spaces 0 b)) [
  | some rest ↦ is_empty (skip_spaces 0 rest)
  | none ↦ false
]

-- A whole line, and the bytes behind it.
unfoldable pub line_end : Bytes → Bytes → Result (Bytes × Bytes)
line_end out rest = if is_dsc_trailer out then err eof else ok (out, rest)

-- The loop of `boundedLine`, a round for each byte: `part` is what this call of `ReadSlice` has so
-- far, which returns at the end of a line, with a full buffer and at the end of the file. There,
-- each branch of the source returns `io.EOF`.
unfoldable pub line_loop : ℕ → ℕ → Bytes → Bytes → Bytes → Result (Bytes × Bytes)
line_loop size limit out part [] =
    if ltb (limit - length out) (length part) then err err_output_limit else err eof
line_loop size limit out part (c ∷ s) =
    let got = part ++ c ∷ [] in
    let full = leb size (length got) in
    let over = ltb (limit - length out) (length got) in
    let more =
      line_loop size limit (if full then out ++ got else out) (if full then [] else got) s in
    if c == 10
    then (if over then err err_output_limit else line_end (out ++ got) s)
    else if full && over
    then err err_output_limit
    else more

unfoldable pub bounded_line : ℕ → ℕ → Bytes → Result (Bytes × Bytes)
bounded_line size limit s =
    if limit == 0 then err err_output_limit else line_loop size limit [] [] s

-- The names of the two endings.
pub data Ending : Type 0 where
  end_ending error_ending : Ending

unfoldable pub ending_name : Ending → Bytes
ending_name end_ending = codes "end"
ending_name error_ending = codes "error"

unfoldable pub frame_ending : Bytes → Option Ending
frame_ending line =
    if has_prefix (37 ∷ codes "end ") line
    then some end_ending
    else if has_prefix (37 ∷ codes "error ") line
    then some error_ending
    else none

unfoldable pub is_allowed_marker : Bytes → Bool
is_allowed_marker line =
    has_prefix (codes "TGO-GUARD-1:") line
    || has_prefix (codes "TGO-DONE:") line
    || has_prefix (codes "TGO-READY:") line

unfoldable pub same_id : FrameId → FrameId → Bool
same_id a b = a.time == b.time && a.number == b.number && a.flags == b.flags

unfoldable pub is_error_ending : Ending → Bool
is_error_ending end_ending = false
is_error_ending error_ending = true

-- Whether the frame has failed.
unfoldable pub check_frame_end : Bytes → Ending → FrameId → Bool → Result Bool
check_frame_end line ending id ordinary = frame_header line (ending_name ending) >>= λ end_id.
    if not (same_id end_id id)
    then err err_protocol
    else if ordinary && not (is_error_ending ending)
    then err err_protocol
    else ok (is_error_ending ending)

unfoldable pub is_record_error : Error → Bool
is_record_error err_record = true
is_record_error _ = false

-- `readRecordWireChunk` on an error of `ReadRecordWire`.
unfoldable pub rest_of_line : ℕ → ℕ → Bytes → Error → Bytes → Result (Bytes × Bytes)
rest_of_line size left wire e s =
    if is_record_error e
    then elim (bounded_line size (left - length wire) s) [
      | ok r ↦ ok (wire ++ r.0, r.1)
      | err _ ↦ err err_protocol
    ]
    else err err_protocol

unfoldable pub read_record_wire_chunk : ℕ → Bytes → ℕ → Result (Bytes × Bytes)
read_record_wire_chunk size s left =
    let r = read_record_wire s left in
    elim r.1 [ none ↦ ok (r.0, r.2.source) | some e ↦ rest_of_line size left r.0 e r.2.source ]

-- What `readFrame` keeps between two rounds of its loop, and the events published so far.
pub record FrameState : Type 0 where
  pub body : Bytes
  pub used : ℕ
  pub ordinary : Bool
  pub published : List Event

-- A line ends the frame, or the loop goes on.
pub data LineStep : Type 0 where
  closes : Bool → LineStep
  keeps : FrameState → LineStep

-- A line of the frame's data. `used` grows where the loop adds the growth of the data.
unfoldable pub append_line : Bytes → FrameState → FrameState
append_line line st = record {
  body = st.body ++ line;
  used = st.used + length line;
  ordinary = if is_allowed_marker line then st.ordinary else true;
  published = st.published;
}

unfoldable pub publish_event : Event → FrameState → FrameState
publish_event e st = record {
  body = st.body;
  used = st.used;
  ordinary = st.ordinary;
  published = st.published ++ e ∷ [];
}

-- `processFrameLine` on a line that does not begin or end a frame; `event` is what `decodeEvent`
-- says of it.
unfoldable pub data_line : Bytes → Result Event → FrameState → FrameState
data_line [] event st = append_line [] st
data_line (c ∷ line) event st =
    if c == 37
    then elim event [ ok e ↦ publish_event e st | err _ ↦ append_line (c ∷ line) st ]
    else append_line (c ∷ line) st

unfoldable pub process_frame_line : Bytes → FrameId → Result Event → FrameState → Result LineStep
process_frame_line line id event st = elim (frame_ending line) [
  | some ending ↦ check_frame_end line ending id st.ordinary >>= λ failed. ok (closes failed)
  | none ↦
      if has_prefix (37 ∷ codes "begin ") line
      then err err_protocol
      else ok (keeps (data_line line event st))
]

-- The frame is complete, or another round follows on the bytes that are left.
pub data FrameRound : Type 0 where
  finished : ControlFrame → List Event → Bytes → FrameRound
  again : FrameState → Bytes → FrameRound

unfoldable pub after_line : ℕ → FrameId → FrameState → Bytes → LineStep → Result FrameRound
after_line max_bytes id st rest (closes failed) =
    ok (finished (record { id = id; data_bytes = st.body; failed = failed }) st.published rest)
after_line max_bytes id st rest (keeps next) =
    if ltb max_bytes next.used then err err_output_limit else ok (again next rest)

-- `appendRecordChunk`, with what the loop adds to `used`.
unfoldable pub append_chunk : FrameState → Bytes × Bytes → FrameRound
append_chunk st chunk =
    again
      (record {
        body = st.body ++ chunk.0;
        used = st.used + length chunk.0;
        ordinary = st.ordinary;
        published = st.published;
      })
      chunk.1

abbrev pub started : Bytes → FrameState
started begin_line = record {
  body = [];
  used = length begin_line;
  ordinary = false;
  published = [];
}

-- The preamble is discarded; `none` is the trailer.
unfoldable pub skip_dsc : Bytes → Option Bytes
skip_dsc s = elim (cut_prefix dsc_preamble s) [
  | some rest ↦ some rest
  | none ↦ if has_prefix (27 ∷ 92 ∷ []) s then none else some s
]

abbrev pub Units : Type 0
Units = Option (Result (ControlUnit × List Event × Bytes))

abbrev pub frame_result : Option (Result (ControlFrame × List Event × Bytes)) → Units
frame_result none = none
frame_result (some (err e)) = some (err e)
frame_result (some (ok r)) = some (ok (frame_unit r.0, r.1, r.2))

unfoldable pub event_result : Bytes → Result Event → Units
event_result rest (ok e) = some (ok (event_unit e, [], rest))
event_result rest (err x) = some (err x)

module _ (size max_bytes : ℕ) (clock : Bytes → ℕ) where
  unfoldable pub line_round : FrameId → FrameState → Bytes → Result FrameRound
  line_round id st s = bounded_line size max_bytes s >>= λ l.
      process_frame_line l.0 id (decode_event (clock l.1) l.0 max_bytes) st >>= λ step.
      after_line max_bytes id st l.1 step

  -- The body of the loop of `readFrame`.
  unfoldable pub frame_round : FrameId → FrameState → Bytes → Result FrameRound
  frame_round id st s =
      if ltb (length s) (length record_prefix)
      then err eof
      else if has_prefix record_prefix s
      then (read_record_wire_chunk size s (max_bytes - st.used) >>= λ c. ok (append_chunk st c))
      else line_round id st s

  -- Each round takes a byte, so the count of the bytes that are left is fuel enough.
  unfoldable pub frame_loop :
      ℕ → FrameId → FrameState → Bytes → Option (Result (ControlFrame × List Event × Bytes))
  frame_loop zero id st s = none
  frame_loop (suc fuel) id st s = elim (frame_round id st s) [
    | err e ↦ some (err e)
    | ok (finished f events rest) ↦ some (ok (f, events, rest))
    | ok (again next rest) ↦ frame_loop fuel id next rest
  ]

  unfoldable pub read_frame : Bytes → Bytes → Option (Result (ControlFrame × List Event × Bytes))
  read_frame begin_line s = elim (frame_header begin_line (codes "begin")) [
    | err e ↦ some (err e)
    | ok id ↦ frame_loop (suc (length s)) id (started begin_line) s
  ]

  -- `readControlUnit` behind the first line.
  unfoldable pub unit_line : Bytes → Bytes → Units
  unit_line line rest =
      if not (has_prefix (37 ∷ codes "begin ") line)
      then (if has_prefix (37 ∷ codes "end ") line || has_prefix (37 ∷ codes "error ") line
          then some (err err_protocol)
          else event_result rest (decode_event (clock rest) line max_bytes))
      else frame_result (read_frame line rest)

  unfoldable pub read_unit_line : Bytes → Units
  read_unit_line s = elim (bounded_line size max_bytes s) [
    | err e ↦ some (err e)
    | ok l ↦ unit_line l.0 l.1
  ]

  -- `readControlUnit`, with the events that are published meanwhile.
  unfoldable pub read_control_unit : Bytes → Units
  read_control_unit s = elim (skip_dsc s) [
    | none ↦ some (err eof)
    | some rest ↦ read_unit_line rest
  ]
