-- ===== src/Requests/Effects.antt =====
-- What `abortRequest` of tmux/control_dispatch.go tells a caller is true.
use gotmux.Prelude.{
  ℕ, zero, suc, ◌≡◌, refl, sym, subst, true, false, Option, none, some, List, [], ◌∷◌, ◌++◌, All,
  length, ltb, Bool-cases, ◌⊎◌, inl, inr, arith,
}
use gotmux.Requests.{
  ControlRequest, RequestState, request_queued, request_in_flight, request_delivered,
  request_canceled, Requests, new_request, compare_and_swap, abort_request, release_request,
  enqueue_request, deliver, start_request, drain_loop, drain_requests, adjust, Step, acquire_count,
  acquire_bytes, give_up, enqueue, abort_queued, abort_current, stop, receive, refuse, start, write,
  finish, drain, Reach, here, next,
}

-- A request whose caller was told that nothing was sent is canceled and not written, and only a
-- request in flight is written.
pub record IsHonest (r : ControlRequest) : Type 0 where
  pub aborted_canceled : r.aborted ≡ true → r.state ≡ request_canceled
  pub aborted_unwritten : r.aborted ≡ true → r.written ≡ false
  pub written_in_flight : r.written ≡ true → r.state ≡ request_in_flight

abbrev pub HonestOption : Option ControlRequest → Type 0
HonestOption none = Unit
HonestOption (some r) = IsHonest r

-- All requests of a connection are honest.
abbrev pub AllHonest : Requests → Type 0
AllHonest c = All IsHonest c.requests × HonestOption c.current

new_request-IsHonest : (n : ℕ) → IsHonest (new_request n)
unfolding new_request
new_request-IsHonest n = ground arith

abort_request-IsHonest : (r : ControlRequest) → IsHonest r → IsHonest (abort_request r)
unfolding abort_request
abort_request-IsHonest r h = ground arith

write-IsHonest :
    (r : ControlRequest)
    → r.state ≡ request_in_flight
    → IsHonest r
    → IsHonest (record r { written = true })
write-IsHonest r e h = ground arith

in_flight-IsHonest :
    (r : ControlRequest)
    → IsHonest r
    → r.state ≡ request_queued
    → IsHonest (record r { state = request_in_flight })
in_flight-IsHonest r h e = ground arith

-- A request that starts is in flight, and nothing of it has been written.
started :
    (s : RequestState) (r : ControlRequest) (c : Requests)
    → r.state ≡ s
    → IsHonest r
    → HonestOption (start_request r c).current
unfolding start_request deliver release_request compare_and_swap
started request_queued r c e h = rw (start_request, e) (in_flight-IsHonest r h e)
started request_in_flight r c e h = rw (start_request, e) tt
started request_delivered r c e h = rw (start_request, e) tt
started request_canceled r c e h = rw (start_request, e) tt

start_request-requests :
    (r : ControlRequest) (c : Requests) → (start_request r c).requests ≡ c.requests
unfolding start_request deliver release_request
start_request-requests r c = ground arith

All-snoc :
    (rs : List ControlRequest) (r : ControlRequest)
    → All IsHonest rs
    → IsHonest r
    → All IsHonest (rs ++ r ∷ [])
All-snoc [] r a h = (h, tt)
All-snoc (q ∷ rs) r a h = (a.0, All-snoc rs r a.1 h)

All-adjust :
    (i : ℕ) (rs : List ControlRequest) → All IsHonest rs → All IsHonest (adjust i abort_request rs)
unfolding adjust
All-adjust i [] a = tt
All-adjust zero (r ∷ rs) a = (abort_request-IsHonest r a.0, a.1)
All-adjust (suc i) (r ∷ rs) a = (a.0, All-adjust i rs a.1)

drain_loop-AllHonest :
    (rs : List ControlRequest) (c : Requests)
    → All IsHonest rs
    → AllHonest c
    → AllHonest (drain_loop rs c)
unfolding drain_loop deliver release_request
drain_loop-AllHonest [] c a h = h
drain_loop-AllHonest (r ∷ rs) c a h =
    drain_loop-AllHonest rs (deliver r (record c { requests = rs })) a.1 (a.1, tt)

enqueue_request-current :
    (n : ℕ) (rest : List ℕ) (c : Requests) → (enqueue_request n rest c).1.current ≡ c.current
unfolding enqueue_request release_request
enqueue_request-current n rest c = ground arith

enqueue_request-requests :
    (n : ℕ) (rest : List ℕ) (c : Requests)
    → ((enqueue_request n rest c).1.requests ≡ c.requests)
      ⊎ ((enqueue_request n rest c).1.requests ≡ c.requests ++ new_request n ∷ [])
unfolding enqueue_request release_request
enqueue_request-requests n rest c = elim (Bool-cases c.closed) [
  | inl e ↦ inl (ground arith)
  | inr e ↦ elim (Bool-cases (ltb (length c.requests) c.queue_depth)) [
    | inl k ↦ inr (ground arith)
    | inr k ↦ inl (ground arith)
  ]
]

enqueue_request-AllHonest :
    (n : ℕ) (rest : List ℕ) (c : Requests) → AllHonest c → AllHonest (enqueue_request n rest c).1
enqueue_request-AllHonest n rest c h = (
  elim (enqueue_request-requests n rest c) [
    | inl e ↦ subst (All IsHonest) (sym e) h.0
    | inr e ↦
        subst (All IsHonest) (sym e)
          (All-snoc c.requests (new_request n) h.0 (new_request-IsHonest n))
  ],
  subst HonestOption (sym (enqueue_request-current n rest c)) h.1,
)

Step-AllHonest : {c d : Requests} → Step c d → AllHonest c → AllHonest d
unfolding deliver release_request drain_requests
Step-AllHonest {c} (acquire_count n h k) v = v
Step-AllHonest {c} (acquire_bytes n before after e h) v = v
Step-AllHonest {c} (give_up n before after e) v = v
Step-AllHonest {c} (enqueue n before after e) v = enqueue_request-AllHonest n (before ++ after) c v
Step-AllHonest {c} (abort_queued i) v = (All-adjust i c.requests v.0, v.1)
Step-AllHonest {c} (abort_current r e) v =
    (v.0, abort_request-IsHonest r (subst HonestOption e v.1))
Step-AllHonest {c} stop v = v
Step-AllHonest {c} (receive r rest e f) v = let a = subst (All IsHonest) e v.0 in (a.1, a.0)
Step-AllHonest {c} (refuse r e h) v = (v.0, tt)
Step-AllHonest {c} (start r e h) v = (
  subst (All IsHonest) (sym (start_request-requests r c)) v.0,
  started r.state r c refl (subst HonestOption e v.1),
)
Step-AllHonest {c} (write r e h) v = (v.0, write-IsHonest r h (subst HonestOption e v.1))
Step-AllHonest {c} (finish r e h) v = (v.0, tt)
Step-AllHonest {c} (drain h e) v = drain_loop-AllHonest c.requests c v.0 v

-- However callers, their cancellations and the dispatcher interleave, from a connection without
-- requests: of every request in the channel or with the dispatcher, if its caller was told that
-- nothing was sent, nothing has been written and, being canceled, it is never in flight; and what
-- has been written is in flight.
pub Reach-AllHonest :
    {c d : Requests} → Reach c d → c.requests ≡ [] → c.current ≡ none → AllHonest d
Reach-AllHonest here e f = (subst (All IsHonest) (sym e) tt, subst HonestOption (sym f) tt)
Reach-AllHonest (next r s) e f = Step-AllHonest s (Reach-AllHonest r e f)
