-- ===== src/EventStream.antt =====
-- tmux/event_stream.go: the streams of a control connection. A connection holds every stream it
-- has made, in the order of creation; a stream's handle is its position. `registered` says that
-- the stream is a key of `Connection.streams`. Each function is one section under the stream's or
-- the connection's lock; `finish` and `push` are the sequences of sections that the code runs.
mod Invariant
mod Steps
mod Fifo
mod Tests
use gotmux.Prelude.{
  ℕ, zero, suc, ◌+◌, ◌-◌, Bool, true, false, not, ◌&&◌, ◌||◌, Option, none, some, List, [], ◌∷◌,
  ◌++◌, Bytes, bytes_eq, length, Error, err_closed, err_concurrent_read, err_events_lost,
  err_invalid, err_resource_limit, eof, Result, ok, err, ltb, leb, ◌==◌, if◌then◌else◌,
}
use gotmux.Events.{Event, event_bytes, output_pane}
pub use gotmux.Prelude.Int.{ℤ, pos, negsuc}

-- `EventOptions`; the overflow policy is the number of its constant, `OverflowPolicyFail` is 0.
pub record EventOptions : Type 0 where
  max_bytes : ℤ
  max_count : ℤ
  overflow : ℕ

-- Options that have passed `normalizeEventOptions`.
pub record EventLimits : Type 0 where
  max_bytes : ℕ
  max_count : ℕ

pub record EventStream : Type 0 where
  queue : List Event
  bytes : ℕ
  max_bytes : ℕ
  max_count : ℕ
  terminal : Option Error
  released : Bool
  reading : Bool
  registered : Bool

pub record Connection : Type 0 where
  closed : Bool
  max_streams : ℕ
  event_bytes_limit : ℕ
  event_reserved : ℕ
  streams : List EventStream
  selective_output : Bool
  output_panes : List (Bytes × Bool)

abbrev pub default_max_event_bytes : ℕ
default_max_event_bytes = 4194304

abbrev pub default_max_event_count : ℕ
default_max_event_count = 256

or_default : ℕ → ℕ → ℕ
or_default d n = if n == 0 then d else n

bounded_limits : ℕ → ℕ → Result EventLimits
bounded_limits b n =
    if ltb 1099511627776 b || ltb 1048576 n
    then err err_invalid
    else ok (record { max_bytes = b; max_count = n })

unfoldable pub normalize_event_options : EventOptions → Result EventLimits
unfolding bounded_limits or_default
normalize_event_options o = elim o.max_bytes [
  | negsuc _ ↦ err err_invalid
  | pos b ↦ elim o.max_count [
    | negsuc _ ↦ err err_invalid
    | pos n ↦
        if o.overflow == 0
        then bounded_limits (or_default default_max_event_bytes b)
            (or_default default_max_event_count n)
        else err err_invalid
  ]
]

-- The sum of a weight over the streams.
unfoldable pub total : (EventStream → ℕ) → List EventStream → ℕ
total w [] = 0
total w (s ∷ h) = w s + total w h

-- `len(c.streams)` is the sum of `count_of`.
unfoldable pub count_of : EventStream → ℕ
count_of s = if s.registered then 1 else 0

unfoldable pub quota_of : EventStream → ℕ
quota_of s = if s.registered then s.max_bytes else 0

-- The stream of a handle, and the streams with one of them changed.
unfoldable pub stream_at : ℕ → List EventStream → Option EventStream
stream_at i [] = none
stream_at zero (s ∷ h) = some s
stream_at (suc i) (s ∷ h) = stream_at i h

unfoldable pub adjust : ℕ → (EventStream → EventStream) → List EventStream → List EventStream
adjust i f [] = []
adjust zero f (s ∷ h) = f s ∷ h
adjust (suc i) f (s ∷ h) = s ∷ adjust i f h

unfoldable pub check_stream_capacity : ℕ → Connection → Option Error
check_stream_capacity n c =
    if leb c.max_streams (total count_of c.streams)
      || ltb (c.event_bytes_limit - c.event_reserved) n
    then some err_resource_limit
    else none

unfoldable pub new_event_stream : EventLimits → EventStream
new_event_stream o = record {
  queue = [];
  bytes = 0;
  max_bytes = o.max_bytes;
  max_count = o.max_count;
  terminal = none;
  released = false;
  reading = false;
  registered = true;
}

-- `c.streams[s] = struct{}{}; c.eventReserved += opts.MaxBytes`
unfoldable pub register : EventLimits → Connection → Connection
register o c = record {
  closed = c.closed;
  max_streams = c.max_streams;
  event_bytes_limit = c.event_bytes_limit;
  event_reserved = c.event_reserved + o.max_bytes;
  streams = c.streams ++ new_event_stream o ∷ [];
  selective_output = c.selective_output;
  output_panes = c.output_panes;
}

-- A context: nil, or the value of its `Err`.
pub data Context : Type 0 where
  nil_context : Context
  context : Option Error → Context

-- `Connection.Events` from the connection's lock on.
unfoldable pub reserve_stream : EventLimits → Connection → Result ℕ × Connection
reserve_stream o c =
    if c.closed then (err err_closed, c) else elim (check_stream_capacity o.max_bytes c) [
      | some e ↦ (err e, c)
      | none ↦ (ok (length c.streams), register o c)
    ]

unfoldable pub events : Context → EventOptions → Connection → Result ℕ × Connection
events nil_context o c = (err err_invalid, c)
events (context (some e)) o c = (err e, c)
events (context none) o c = elim (normalize_event_options o) [
  | err e ↦ (err e, c)
  | ok n ↦ reserve_stream n c
]

-- The section of `finish` under the stream's lock.
unfoldable pub mark : Error → EventStream → EventStream
mark e s = elim s.terminal [
  | some _ ↦ s
  | none ↦ record {
    queue = [];
    bytes = 0;
    max_bytes = s.max_bytes;
    max_count = s.max_count;
    terminal = some e;
    released = s.released;
    reading = s.reading;
    registered = s.registered;
  }
]

unfoldable pub drop_registration : EventStream → EventStream
drop_registration s = record {
  queue = s.queue;
  bytes = s.bytes;
  max_bytes = s.max_bytes;
  max_count = s.max_count;
  terminal = s.terminal;
  released = true;
  reading = s.reading;
  registered = false;
}

unfoldable pub with_streams : Connection → ℕ → List EventStream → Connection
with_streams c n h = record {
  closed = c.closed;
  max_streams = c.max_streams;
  event_bytes_limit = c.event_bytes_limit;
  event_reserved = n;
  streams = h;
  selective_output = c.selective_output;
  output_panes = c.output_panes;
}

-- `release`: its body runs once, and a stream that is not registered gives nothing back.
unfoldable pub release : ℕ → Connection → Connection
release i c = elim (stream_at i c.streams) [
  | none ↦ c
  | some s ↦
      if s.released
      then c
      else with_streams c
          (if s.registered then c.event_reserved - s.max_bytes else c.event_reserved)
          (adjust i drop_registration c.streams)
]

unfoldable pub at_stream : ℕ → (EventStream → EventStream) → Connection → Connection
at_stream i f c = with_streams c c.event_reserved (adjust i f c.streams)

-- `finish`: a stream that has ended is left as it is.
unfoldable pub finish : ℕ → Error → Connection → Connection
finish i e c = release i (at_stream i (mark e) c)

unfoldable pub close : ℕ → Connection → Connection
close i c = finish i eof c

-- The test of `push` that ends the stream.
unfoldable pub overflows : Event → EventStream → Bool
overflows e s = leb s.max_count (length s.queue) || ltb (s.max_bytes - s.bytes) (event_bytes e)

-- The section of `push` under the stream's lock.
unfoldable pub append_event : Event → EventStream → EventStream
append_event e s = elim s.terminal [
  | some _ ↦ s
  | none ↦ if overflows e s then s else record {
    queue = s.queue ++ e ∷ [];
    bytes = s.bytes + event_bytes e;
    max_bytes = s.max_bytes;
    max_count = s.max_count;
    terminal = none;
    released = s.released;
    reading = s.reading;
    registered = s.registered;
  }
]

unfoldable pub lost : Event → EventStream → Bool
lost e s = elim s.terminal [ some _ ↦ false | none ↦ overflows e s ]

unfoldable pub push : ℕ → Event → Connection → Connection
unfolding lost
push i e c = elim (stream_at i c.streams) [
  | none ↦ c
  | some s ↦ if lost e s then finish i err_events_lost c else at_stream i (append_event e) c
]

-- `publish` withholds the output of a pane that is disabled, or that a selective connection has
-- not been told about.
abbrev pub lookup : Bytes → List (Bytes × Bool) → Option Bool
lookup k [] = none
lookup k (p ∷ ps) = if bytes_eq k p.0 then some p.1 else lookup k ps

unfoldable pub withheld : Connection → Event → Bool
withheld c e = elim (output_pane e) [
  | none ↦ false
  | some p ↦ elim (lookup p c.output_panes) [
    | some enabled ↦ not enabled
    | none ↦ c.selective_output
  ]
]

-- The pushes of `publish`, stream by stream; a stream that is not registered is passed over.
unfoldable pub push_all : ℕ → List EventStream → Event → Connection → Connection
push_all i [] e c = c
push_all i (s ∷ h) e c = push_all (suc i) h e (if s.registered then push i e c else c)

unfoldable pub publish : Event → Connection → Connection
publish e c = if withheld c e then c else push_all 0 c.streams e c

-- `Next` before its loop: one reader at a time.
unfoldable pub enter : EventStream → Result (Unit {0}) × EventStream
enter s = if s.reading then (err err_concurrent_read, s) else (
  ok tt,
  record {
    queue = s.queue;
    bytes = s.bytes;
    max_bytes = s.max_bytes;
    max_count = s.max_count;
    terminal = s.terminal;
    released = s.released;
    reading = true;
    registered = s.registered;
  },
)

take_event : EventStream → Event → List Event → EventStream
take_event s e q = record {
  queue = q;
  bytes = s.bytes - event_bytes e;
  max_bytes = s.max_bytes;
  max_count = s.max_count;
  terminal = s.terminal;
  released = s.released;
  reading = false;
  registered = s.registered;
}

stop_reading : EventStream → EventStream
stop_reading s = record {
  queue = s.queue;
  bytes = s.bytes;
  max_bytes = s.max_bytes;
  max_count = s.max_count;
  terminal = s.terminal;
  released = s.released;
  reading = false;
  registered = s.registered;
}

-- One round of the loop of `Next` under the stream's lock; `none` is a round that goes on to
-- wait. The argument is the value of `ctx.Err()`.
unfoldable pub poll : Option Error → EventStream → Option (Result Event) × EventStream
unfolding take_event stop_reading
poll ctx s = elim s.terminal [
  | some t ↦ (some (err t), stop_reading s)
  | none ↦ elim ctx [
    | some e ↦ (some (err e), stop_reading s)
    | none ↦ elim s.queue [ [] ↦ (none, s) | ◌∷◌ e q ↦ (some (ok e), take_event s e q) ]
  ]
]
