-- ===== src/Requests.antt =====
-- tmux/control_dispatch.go: the requests of a control connection. A caller takes one unit of the
-- weighted semaphore `count` and its bytes of the semaphore `bytes`, puts its request into the
-- channel `requests`, whose capacity is the size of `count`, and waits; the dispatcher takes the
-- requests out one by one. Who holds a request is where it stands: with its caller, in the channel,
-- or with the dispatcher.
mod Capacity
mod Effects
mod Drain
mod Tests
use gotmux.Prelude.{
  ℕ, zero, suc, ◌+◌, ◌-◌, ◌≤◌, ◌<◌, ◌≡◌, ◌≢◌, Bool, true, false, Option, none, some, List, [], ◌∷◌,
  ◌++◌, length, Error, err_closed, err_resource_limit, canceled, ltb, leb, ◌==◌, if◌then◌else◌,
}

-- `requestQueued`, `requestInFlight`, `requestDelivered`, `requestCanceled`
pub data RequestState : Type 0 where
  request_queued request_in_flight request_delivered request_canceled : RequestState

-- `controlRequest`; `aborted` says that `abortRequest` has told the caller that nothing was sent,
-- and `written` that the dispatcher has begun to write the request's text.
pub record ControlRequest : Type 0 where
  pub bytes : ℕ
  pub state : RequestState
  pub aborted : Bool
  pub written : Bool

-- The fields of `Connection` that the requests use. `waiting` and `admitted` are the bytes of the
-- callers in `acquireCapacity` that have one unit of `count`, and of those that have both.
pub record Requests : Type 0 where
  pub queue_depth : ℕ
  pub queued_bytes : ℕ
  pub count : ℕ
  pub bytes : ℕ
  pub closed : Bool
  pub waiting : List ℕ
  pub admitted : List ℕ
  pub requests : List ControlRequest
  pub current : Option ControlRequest

unfoldable pub new_request : ℕ → ControlRequest
new_request n = record { bytes = n; state = request_queued; aborted = false; written = false }

-- `state.CompareAndSwap(requestQueued, next)`
unfoldable pub compare_and_swap : RequestState → ControlRequest → Bool × ControlRequest
compare_and_swap next r = elim r.state [
  | request_queued ↦ (true, record r { state = next })
  | request_in_flight ↦ (false, r)
  | request_delivered ↦ (false, r)
  | request_canceled ↦ (false, r)
]

-- `abortRequest` where the reply is not there yet.
unfoldable pub abort_request : ControlRequest → ControlRequest
unfolding compare_and_swap
abort_request r =
    let swapped = compare_and_swap request_canceled r in
    if swapped.0 then record (swapped.1) { aborted = true } else r

-- `releaseRequest`
unfoldable pub release_request : ℕ → Requests → Requests
release_request n c = record c { bytes = c.bytes - n; count = c.count - 1 }

-- `enqueueRequest` on the request of an admitted caller, which `rest` no longer holds.
unfoldable pub enqueue_request : ℕ → List ℕ → Requests → Option Error × Requests
enqueue_request n rest c =
    if c.closed
    then (some err_closed, release_request n (record c { admitted = rest }))
    else if ltb (length c.requests) c.queue_depth
    then (none, record c { admitted = rest; requests = c.requests ++ new_request n ∷ [] })
    else (some err_resource_limit, release_request n (record c { admitted = rest }))

-- `deliver`: the request's capacity is given back before its reply is sent.
unfoldable pub deliver : ControlRequest → Requests → Requests
deliver r c = release_request r.bytes (record c { current = none })

-- The compare-and-swap of `dispatchRequest`: a request that its caller has canceled is delivered.
unfoldable pub start_request : ControlRequest → Requests → Requests
unfolding compare_and_swap
start_request r c =
    let swapped = compare_and_swap request_in_flight r in
    if swapped.0 then record c { current = some (swapped.1) } else deliver r c

-- `drainRequests`
unfoldable pub drain_loop : List ControlRequest → Requests → Requests
drain_loop [] c = c
drain_loop (r ∷ rest) c = drain_loop rest (deliver r (record c { requests = rest }))

unfoldable pub drain_requests : Requests → Requests
drain_requests c = drain_loop c.requests c

unfoldable pub adjust :
    ℕ → (ControlRequest → ControlRequest) → List ControlRequest → List ControlRequest
adjust i f [] = []
adjust zero f (r ∷ rest) = f r ∷ rest
adjust (suc i) f (r ∷ rest) = r ∷ adjust i f rest

-- What callers and the dispatcher may do next. The list of a caller is split where it stands. More runs
-- are allowed than the code has: the dispatcher may receive again behind its drain.
pub data Step (c : Requests) : Requests → Type 0 where
  -- acquireCapacity
  acquire_count :
      (n : ℕ)
      → n ≤ c.queued_bytes
      → c.count < c.queue_depth
      → Step c (record c { count = c.count + 1; waiting = n ∷ c.waiting })
  acquire_bytes :
      (n : ℕ) (before after : List ℕ)
      → c.waiting ≡ before ++ (n ∷ after)
      → c.bytes + n ≤ c.queued_bytes
      → Step c
          (record c { bytes = c.bytes + n; waiting = before ++ after; admitted = n ∷ c.admitted })
  give_up :
      (n : ℕ) (before after : List ℕ)
      → c.waiting ≡ before ++ (n ∷ after)
      → Step c (record c { count = c.count - 1; waiting = before ++ after })
  enqueue :
      (n : ℕ) (before after : List ℕ)
      → c.admitted ≡ before ++ (n ∷ after)
      → Step c (enqueue_request n (before ++ after) c).1
  -- abortRequest, on a request in the channel or with the dispatcher
  abort_queued : (i : ℕ) → Step c (record c { requests = adjust i abort_request c.requests })
  abort_current :
      (r : ControlRequest)
      → c.current ≡ some r
      → Step c (record c { current = some (abort_request r) })
  -- stop
  stop : Step c (record c { closed = true })
  -- dispatch
  receive :
      (r : ControlRequest) (rest : List ControlRequest)
      → c.requests ≡ r ∷ rest
      → c.current ≡ none
      → Step c (record c { requests = rest; current = some r })
  refuse : (r : ControlRequest) → c.current ≡ some r → r.written ≡ false → Step c (deliver r c)
  start :
      (r : ControlRequest)
      → c.current ≡ some r
      → r.state ≢ request_in_flight
      → Step c (start_request r c)
  write :
      (r : ControlRequest)
      → c.current ≡ some r
      → r.state ≡ request_in_flight
      → Step c (record c { current = some (record r { written = true }) })
  finish : (r : ControlRequest) → c.current ≡ some r → r.written ≡ true → Step c (deliver r c)
  drain : c.closed ≡ true → c.current ≡ none → Step c (drain_requests c)

pub data Reach (c : Requests) : Requests → Type 0 where
  here : Reach c c
  next : {d e : Requests} → Reach c d → Step d e → Reach c e
