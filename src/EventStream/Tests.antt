-- ===== src/EventStream/Tests.antt =====
-- The streams of tmux/event_stream.go on concrete calls.
use gotmux.Prelude.{ℕ, ◌≡◌, refl, false, none, some, List, [], ◌∷◌, codes, canceled, eof, arith}
use gotmux.Events.{Event, message_event}
use gotmux.EventStream.{
  Connection, EventStream, EventOptions, pos, context, total, new_event_stream,
}
use gotmux.EventStream.Invariant.{ValidConnection}
use gotmux.EventStream.Steps.{
  Action, opens, marks, releases, pushes, publishes, enters, polls, run, run-ValidConnection,
}
use gotmux.EventStream.Fifo.{Call, put, take_next, serve, Missing, serve-lossless}

abbrev hello : Event
hello = message_event (record { name = codes "message"; received = 0 }) (codes "hello")

abbrev empty_connection : Connection
empty_connection = record {
  closed = false;
  max_streams = 2;
  event_bytes_limit = 1000;
  event_reserved = 0;
  streams = [];
  selective_output = false;
  output_panes = [];
}

empty_connection-ValidConnection : ValidConnection empty_connection
unfolding total
empty_connection-ValidConnection = (refl, omega arith, omega arith, tt)

abbrev options : ℕ → EventOptions
options n = record { max_bytes = pos n; max_count = pos 2; overflow = 0 }

-- Two streams, of which the first overflows and the second is read and closed.
abbrev actions : List Action
actions =
    opens (context none) (options 100)
    ∷ opens (context none) (options 800)
    ∷ publishes hello
    ∷ pushes 0 hello
    ∷ enters 1
    ∷ polls 1 none
    ∷ marks 1 eof
    ∷ releases 1
    ∷ releases 1
    ∷ []

run-ValidConnection_example : ValidConnection (run actions empty_connection)
run-ValidConnection_example =
    run-ValidConnection actions empty_connection empty_connection-ValidConnection

abbrev fresh : EventStream
fresh = new_event_stream (record { max_bytes = 500; max_count = 2 })

abbrev calls : List Call
calls = put hello ∷ take_next none ∷ put hello ∷ take_next (some canceled) ∷ []

serve-lossless_example :
    ((m : List Event) × Missing calls fresh m)
    × ((serve calls fresh).1.terminal ≡ none → Missing calls fresh (serve calls fresh).1.queue)
serve-lossless_example = serve-lossless calls fresh
