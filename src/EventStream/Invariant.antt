-- ===== src/EventStream/Invariant.antt =====
-- What every operation on the streams of tmux/event_stream.go keeps: the accounts of each queue
-- and of the connection's reservations.
use gotmux.Prelude.{
  ℕ, zero, suc, ◌+◌, ◌-◌, ◌≤◌, ◌≡◌, refl, ap, subst, true, false, Option, none, some, List, [], ◌∷◌,
  ◌++◌, Error, All, length, length-append, if◌then◌else◌, Bool-cases, Option-cases, arith, inl, inr,
}
use gotmux.Events.{Event, event_bytes}
use gotmux.EventStream.{
  EventStream, Connection, total, count_of, quota_of, stream_at, adjust, mark, drop_registration,
  with_streams, release, at_stream, overflows, append_event, enter, poll,
}

-- `eventBytes` summed over a queue.
unfoldable pub queue_bytes : List Event → ℕ
queue_bytes [] = 0
queue_bytes (e ∷ q) = event_bytes e + queue_bytes q

-- A stream's queue is within its limits, and accounted for; a stream that has given its
-- reservation back is not registered.
abbrev pub ValidStream : EventStream → Type 0
ValidStream s =
    (s.bytes ≡ queue_bytes s.queue)
    × (s.bytes ≤ s.max_bytes)
    × (length s.queue ≤ s.max_count)
    × (s.released ≡ true → s.registered ≡ false)

-- The reservations of a connection are those of its registered streams, and within its limits.
abbrev pub ValidConnection : Connection → Type 0
ValidConnection c =
    (c.event_reserved ≡ total quota_of c.streams)
    × (c.event_reserved ≤ c.event_bytes_limit)
    × (total count_of c.streams ≤ c.max_streams)
    × All ValidStream c.streams

queue_bytes-append :
    (q : List Event) (e : Event) → queue_bytes (q ++ e ∷ []) ≡ queue_bytes q + event_bytes e
unfolding queue_bytes
queue_bytes-append [] e = omega arith
queue_bytes-append (x ∷ q) e = omega (arith, queue_bytes-append q e)

pub total-append :
    (w : EventStream → ℕ) (h : List EventStream) (s : EventStream)
    → total w (h ++ s ∷ []) ≡ total w h + w s
unfolding total
total-append w [] s = omega arith
total-append w (x ∷ h) s = omega (arith, total-append w h s)

pub All-append :
    (h : List EventStream) (s : EventStream)
    → All ValidStream h
    → ValidStream s
    → All ValidStream (h ++ s ∷ [])
All-append [] s a v = (v, tt)
All-append (x ∷ h) s a v = (a.0, All-append h s a.1 v)

total-adjust_same :
    (w : EventStream → ℕ) (f : EventStream → EventStream) (i : ℕ) (h : List EventStream)
    → ((s : EventStream) → w (f s) ≡ w s)
    → total w (adjust i f h) ≡ total w h
unfolding total adjust
total-adjust_same w f i [] k = refl
total-adjust_same w f zero (s ∷ h) k = omega (arith, k s)
total-adjust_same w f (suc i) (s ∷ h) k = omega (arith, total-adjust_same w f i h k)

-- The stream that a handle names is there.
pub stream_at-head :
    (x : EventStream) (h : List EventStream) {s : EventStream}
    → stream_at zero (x ∷ h) ≡ some s
    → x ≡ s
unfolding stream_at
stream_at-head x h e = ap (λ o. elim o as (λ _. EventStream) [ none ↦ x | some y ↦ y ]) e

total-adjust :
    (w : EventStream → ℕ) (f : EventStream → EventStream) (i : ℕ) (h : List EventStream)
    {s : EventStream}
    → stream_at i h ≡ some s
    → total w (adjust i f h) + w s ≡ total w h + w (f s)
unfolding total adjust stream_at
total-adjust w f i [] e = cc
total-adjust w f zero (x ∷ h) {s} e =
    subst (λ y. total w (f x ∷ h) + w y ≡ total w (x ∷ h) + w (f y)) (stream_at-head x h e)
      (omega arith)
total-adjust w f (suc i) (x ∷ h) e = omega (arith, total-adjust w f i h e)

All-adjust :
    (f : EventStream → EventStream) (i : ℕ) (h : List EventStream)
    → ((s : EventStream) → ValidStream s → ValidStream (f s))
    → All ValidStream h
    → All ValidStream (adjust i f h)
unfolding adjust
All-adjust f i [] k a = tt
All-adjust f zero (s ∷ h) k a = (k s a.0, a.1)
All-adjust f (suc i) (s ∷ h) k a = (a.0, All-adjust f i h k a.1)

All-stream_at :
    (i : ℕ) (h : List EventStream) {s : EventStream}
    → stream_at i h ≡ some s
    → All ValidStream h
    → ValidStream s
unfolding stream_at
All-stream_at i [] e a = cc
All-stream_at zero (x ∷ h) {s} e a = subst ValidStream (stream_at-head x h e) a.0
All-stream_at (suc i) (x ∷ h) e a = All-stream_at i h e a.1

pub mark-ValidStream : (e : Error) (s : EventStream) → ValidStream s → ValidStream (mark e s)
unfolding mark queue_bytes
mark-ValidStream e s v = ground arith

drop_registration-ValidStream :
    (s : EventStream) → ValidStream s → ValidStream (drop_registration s)
unfolding drop_registration
drop_registration-ValidStream s v = (v.0, v.1, v.2, λ _. refl)

pub append_event-ValidStream :
    (e : Event) (s : EventStream) → ValidStream s → ValidStream (append_event e s)
unfolding append_event overflows
append_event-ValidStream e s v =
    ground (arith, queue_bytes-append s.queue e, length-append s.queue (e ∷ []))

pub enter-ValidStream : (s : EventStream) → ValidStream s → ValidStream (enter s).1
unfolding enter
enter-ValidStream s v = ground arith

pub poll-ValidStream :
    (ctx : Option Error) (s : EventStream) → ValidStream s → ValidStream (poll ctx s).1
unfolding poll queue_bytes
poll-ValidStream ctx s v = ground arith

-- A change that keeps a stream's weight and its accounts keeps the connection's.
pub at_stream-ValidConnection :
    (i : ℕ) (f : EventStream → EventStream) (c : Connection)
    → ((s : EventStream) → quota_of (f s) ≡ quota_of s)
    → ((s : EventStream) → count_of (f s) ≡ count_of s)
    → ((s : EventStream) → ValidStream s → ValidStream (f s))
    → ValidConnection c
    → ValidConnection (at_stream i f c)
unfolding at_stream with_streams
at_stream-ValidConnection i f c q n k v =
    let sq = total-adjust_same quota_of f i c.streams q in
    let sn = total-adjust_same count_of f i c.streams n in
    (omega arith, omega arith, omega arith, All-adjust f i c.streams k v.3)

-- What a registered stream had reserved is given back.
released-ValidConnection :
    (i : ℕ) (c : Connection) (s : EventStream)
    → stream_at i c.streams ≡ some s
    → ValidConnection c
    → ValidConnection (
        with_streams c
          (if s.registered then c.event_reserved - s.max_bytes else c.event_reserved)
          (adjust i drop_registration c.streams))
unfolding with_streams drop_registration quota_of count_of
released-ValidConnection i c s e v =
    let sq = total-adjust quota_of drop_registration i c.streams e in
    let sn = total-adjust count_of drop_registration i c.streams e in
    let a = All-adjust drop_registration i c.streams drop_registration-ValidStream v.3 in
    elim (Bool-cases s.registered) [
      | inl r ↦ ground (arith, sq, sn, a)
      | inr r ↦ ground (arith, sq, sn, a)
    ]

pub release-ValidConnection :
    (i : ℕ) (c : Connection) → ValidConnection c → ValidConnection (release i c)
unfolding release total
release-ValidConnection i c v = elim (Option-cases (stream_at i c.streams)) [
  | inl e ↦ rw (release, e) v
  | inr (s, e) ↦ elim (Bool-cases s.released) [
    | inl r ↦ rw (release, e, r) v
    | inr r ↦ rw (release, e, r) (released-ValidConnection i c s e v)
  ]
]

abbrev pub Kept : (EventStream → EventStream) → Type 0
Kept f = (s : EventStream) → (quota_of (f s) ≡ quota_of s) × (count_of (f s) ≡ count_of s)

pub mark-Kept : (e : Error) → Kept (mark e)
unfolding mark quota_of count_of
mark-Kept e s = ground arith

pub append_event-Kept : (e : Event) → Kept (append_event e)
unfolding append_event quota_of count_of
append_event-Kept e s = ground arith

pub enter-Kept : Kept (λ s. (enter s).1)
unfolding enter quota_of count_of
enter-Kept s = ground arith

pub poll-Kept : (ctx : Option Error) → Kept (λ s. (poll ctx s).1)
unfolding poll quota_of count_of
poll-Kept ctx s = ground arith
