-- ===== src/EventStream/Steps.antt =====
-- Any interleaving of the calls on the streams of a connection (tmux/event_stream.go), each as the
-- sections it runs under a lock: what the readers, the context watchers and the dispatcher do.
use gotmux.Prelude.{
  ℕ, suc, ◌≡◌, Option, none, some, List, [], ◌∷◌, Error, Result-cases, Bool-cases, Option-cases,
  if◌then◌else◌, err_events_lost, arith, inl, inr,
}
use gotmux.Events.{Event}
use gotmux.EventStream.{
  EventLimits, EventOptions, EventStream, Connection, Context, context, nil_context, total,
  count_of, quota_of, check_stream_capacity, new_event_stream, register, reserve_stream, events,
  mark, release, at_stream, finish, append_event, push, push_all, publish, withheld, enter, poll,
  normalize_event_options, lost, stream_at,
}
use gotmux.EventStream.Invariant.{
  ValidStream, ValidConnection, queue_bytes, total-append, All-append, mark-ValidStream,
  append_event-ValidStream, enter-ValidStream, poll-ValidStream, at_stream-ValidConnection,
  release-ValidConnection, mark-Kept, append_event-Kept, enter-Kept, poll-Kept, Kept,
}

pub data Action : Type 0 where
  opens : Context → EventOptions → Action
  marks : ℕ → Error → Action
  releases : ℕ → Action
  appends : ℕ → Event → Action
  pushes : ℕ → Event → Action
  publishes : Event → Action
  enters : ℕ → Action
  polls : ℕ → Option Error → Action

unfoldable pub step : Action → Connection → Connection
step (opens ctx o) c = (events ctx o c).1
step (marks i e) c = at_stream i (mark e) c
step (releases i) c = release i c
step (appends i e) c = at_stream i (append_event e) c
step (pushes i e) c = push i e c
step (publishes e) c = publish e c
step (enters i) c = at_stream i (λ s. (enter s).1) c
step (polls i ctx) c = at_stream i (λ s. (poll ctx s).1) c

unfoldable pub run : List Action → Connection → Connection
run [] c = c
run (a ∷ rest) c = run rest (step a c)

Kept-ValidConnection :
    (i : ℕ) (f : EventStream → EventStream) (c : Connection)
    → Kept f
    → ((s : EventStream) → ValidStream s → ValidStream (f s))
    → ValidConnection c
    → ValidConnection (at_stream i f c)
Kept-ValidConnection i f c k h v = at_stream-ValidConnection i f c (λ s. (k s).0) (λ s. (k s).1) h v

finish-ValidConnection :
    (i : ℕ) (e : Error) (c : Connection) → ValidConnection c → ValidConnection (finish i e c)
unfolding finish
finish-ValidConnection i e c v =
    release-ValidConnection i (at_stream i (mark e) c)
      (Kept-ValidConnection i (mark e) c (mark-Kept e) (mark-ValidStream e) v)

append_event-ValidConnection :
    (i : ℕ) (e : Event) (c : Connection)
    → ValidConnection c
    → ValidConnection (at_stream i (append_event e) c)
append_event-ValidConnection i e c v =
    Kept-ValidConnection i (append_event e) c (append_event-Kept e) (append_event-ValidStream e) v

push-ValidConnection :
    (i : ℕ) (e : Event) (c : Connection) → ValidConnection c → ValidConnection (push i e c)
unfolding push
push-ValidConnection i e c v = elim (Option-cases (stream_at i c.streams)) [
  | inl q ↦ rw (push, q) v
  | inr (s, q) ↦ elim (Bool-cases (lost e s)) [
    | inl r ↦ rw (push, q, r) (finish-ValidConnection i err_events_lost c v)
    | inr r ↦ rw (push, q, r) (append_event-ValidConnection i e c v)
  ]
]

push_all-ValidConnection :
    (i : ℕ) (h : List EventStream) (e : Event) (c : Connection)
    → ValidConnection c
    → ValidConnection (push_all i h e c)
unfolding push_all
push_all-ValidConnection i [] e c v = v
push_all-ValidConnection i (s ∷ h) e c v =
    push_all-ValidConnection (suc i) h e (if s.registered then push i e c else c)
      (elim (Bool-cases s.registered) [
        | inl r ↦ rw r (push-ValidConnection i e c v)
        | inr r ↦ rw r v
      ])

new_event_stream-ValidStream : (o : EventLimits) → ValidStream (new_event_stream o)
unfolding new_event_stream queue_bytes
new_event_stream-ValidStream o = ground arith

register-ValidConnection :
    (o : EventLimits) (c : Connection)
    → check_stream_capacity o.max_bytes c ≡ none
    → ValidConnection c
    → ValidConnection (register o c)
unfolding check_stream_capacity register new_event_stream quota_of count_of
register-ValidConnection o c k v =
    let q = total-append quota_of c.streams (new_event_stream o) in
    let n = total-append count_of c.streams (new_event_stream o) in
    (
      ground (arith, q, v.0),
      ground (arith, k, v.1),
      ground (arith, n, k),
      All-append c.streams (new_event_stream o) v.3 (new_event_stream-ValidStream o),
    )

reserve_stream-ValidConnection :
    (o : EventLimits) (c : Connection) → ValidConnection c → ValidConnection (reserve_stream o c).1
unfolding reserve_stream check_stream_capacity total
reserve_stream-ValidConnection o c v = elim (Bool-cases c.closed) [
  | inl d ↦ rw (reserve_stream, d) v
  | inr d ↦ elim (Option-cases (check_stream_capacity o.max_bytes c)) [
    | inl k ↦ rw (reserve_stream, d, k) (register-ValidConnection o c k v)
    | inr (e, k) ↦ rw (reserve_stream, d, k) v
  ]
]

events-ValidConnection :
    (ctx : Context) (o : EventOptions) (c : Connection)
    → ValidConnection c
    → ValidConnection (events ctx o c).1
unfolding events
events-ValidConnection nil_context o c v = v
events-ValidConnection (context (some e)) o c v = v
events-ValidConnection (context none) o c v = elim (Result-cases (normalize_event_options o)) [
  | inl (n, q) ↦ rw (events, q) (reserve_stream-ValidConnection n c v)
  | inr (e, q) ↦ rw (events, q) v
]

step-ValidConnection :
    (a : Action) (c : Connection) → ValidConnection c → ValidConnection (step a c)
unfolding step publish
step-ValidConnection (opens ctx o) c v = events-ValidConnection ctx o c v
step-ValidConnection (marks i e) c v =
    Kept-ValidConnection i (mark e) c (mark-Kept e) (mark-ValidStream e) v
step-ValidConnection (releases i) c v = release-ValidConnection i c v
step-ValidConnection (appends i e) c v = append_event-ValidConnection i e c v
step-ValidConnection (pushes i e) c v = push-ValidConnection i e c v
step-ValidConnection (publishes e) c v = elim (Bool-cases (withheld c e)) [
  | inl w ↦ rw (publish, w) v
  | inr w ↦ rw (publish, w) (push_all-ValidConnection 0 c.streams e c v)
]
step-ValidConnection (enters i) c v =
    Kept-ValidConnection i (λ s. (enter s).1) c enter-Kept enter-ValidStream v
step-ValidConnection (polls i ctx) c v =
    Kept-ValidConnection i (λ s. (poll ctx s).1) c (poll-Kept ctx) (poll-ValidStream ctx) v

-- Whatever sections the readers, the watchers and the publisher of a connection run, and in
-- whatever order: the reserved bytes stay the sum of the registered streams' quotas and within
-- the connection's limit, the number of streams stays within its limit, and every queue stays
-- within its stream's byte and count limits with its bytes accounted for.
pub run-ValidConnection :
    (actions : List Action) (c : Connection) → ValidConnection c → ValidConnection (run actions c)
unfolding run
run-ValidConnection [] c v = v
run-ValidConnection (a ∷ rest) c v =
    run-ValidConnection rest (step a c) (step-ValidConnection a c v)
