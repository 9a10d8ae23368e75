-- ===== src/Requests/Capacity.antt =====
-- The capacity of a control connection (tmux/control_dispatch.go): every unit and every byte that is
-- taken is held by one request, until it is given back once.
use gotmux.Prelude.{
  ℕ, zero, suc, ◌+◌, ◌≤◌, ◌≡◌, refl, ap, false, Option, none, some, List, [], ◌∷◌, ◌++◌, length,
  length-append, arith,
}
use gotmux.Requests.{
  ControlRequest, Requests, new_request, abort_request, release_request, enqueue_request, deliver,
  start_request, drain_loop, drain_requests, adjust, Step, acquire_count, acquire_bytes, give_up,
  enqueue, abort_queued, abort_current, stop, receive, refuse, start, write, finish, drain, Reach,
  here, next,
}

abbrev pub sum : List ℕ → ℕ
sum [] = 0
sum (n ∷ ns) = n + sum ns

abbrev pub request_bytes : List ControlRequest → ℕ
request_bytes [] = 0
request_bytes (r ∷ rs) = r.bytes + request_bytes rs

abbrev pub held_count : Option ControlRequest → ℕ
held_count none = 0
held_count (some r) = 1

abbrev pub held_bytes : Option ControlRequest → ℕ
held_bytes none = 0
held_bytes (some r) = r.bytes

-- What is taken of the semaphores is what the requests hold, and within their sizes.
pub record IsAccounted (c : Requests) : Type 0 where
  pub count_held :
      c.count ≡ length c.waiting + length c.admitted + length c.requests + held_count c.current
  pub bytes_held : c.bytes ≡ sum c.admitted + request_bytes c.requests + held_bytes c.current
  pub count_limit : c.count ≤ c.queue_depth
  pub bytes_limit : c.bytes ≤ c.queued_bytes

length-middle :
    {A : Type 0} (before after : List A) (a : A)
    → length (before ++ (a ∷ after)) ≡ suc (length (before ++ after))
length-middle [] after a = refl
length-middle (b ∷ before) after a = omega (arith, length-middle before after a)

sum-middle :
    (before after : List ℕ) (n : ℕ) → sum (before ++ (n ∷ after)) ≡ n + sum (before ++ after)
sum-middle [] after n = refl
sum-middle (b ∷ before) after n = omega (arith, sum-middle before after n)

request_bytes-append :
    (rs : List ControlRequest) (r : ControlRequest)
    → request_bytes (rs ++ r ∷ []) ≡ request_bytes rs + r.bytes
request_bytes-append [] r = omega arith
request_bytes-append (q ∷ rs) r = omega (arith, request_bytes-append rs r)

abort_request-bytes : (r : ControlRequest) → (abort_request r).bytes ≡ r.bytes
unfolding abort_request
abort_request-bytes r = ground arith

length-adjust :
    (i : ℕ) (f : ControlRequest → ControlRequest) (rs : List ControlRequest)
    → length (adjust i f rs) ≡ length rs
unfolding adjust
length-adjust i f [] = refl
length-adjust zero f (r ∷ rs) = refl
length-adjust (suc i) f (r ∷ rs) = ap suc (length-adjust i f rs)

bytes-adjust :
    (i : ℕ) (rs : List ControlRequest)
    → request_bytes (adjust i abort_request rs) ≡ request_bytes rs
unfolding adjust
bytes-adjust i [] = refl
bytes-adjust zero (r ∷ rs) = omega (arith, abort_request-bytes r)
bytes-adjust (suc i) (r ∷ rs) = omega (arith, bytes-adjust i rs)

-- The places of a caller's bytes.
taken :
    (ns before after : List ℕ) (n : ℕ)
    → ns ≡ before ++ (n ∷ after)
    → (length ns ≡ suc (length (before ++ after))) × (sum ns ≡ n + sum (before ++ after))
taken ns before after n e = (
  omega (arith, ap length e, length-middle before after n),
  omega (arith, ap sum e, sum-middle before after n),
)

enqueue_request-IsAccounted :
    (n : ℕ) (before after : List ℕ) (c : Requests)
    → c.admitted ≡ before ++ (n ∷ after)
    → IsAccounted c
    → IsAccounted (enqueue_request n (before ++ after) c).1
unfolding enqueue_request release_request new_request
enqueue_request-IsAccounted n before after c e v =
    let k = taken c.admitted before after n e in
    ground (
      arith,
      k,
      length-append c.requests (new_request n ∷ []),
      request_bytes-append c.requests (new_request n),
    )

deliver-IsAccounted :
    (r : ControlRequest) (c : Requests)
    → c.current ≡ some r
    → IsAccounted c
    → IsAccounted (deliver r c)
unfolding deliver release_request
deliver-IsAccounted r c e v = ground (arith, e, ap held_count e, ap held_bytes e)

start_request-IsAccounted :
    (r : ControlRequest) (c : Requests)
    → c.current ≡ some r
    → IsAccounted c
    → IsAccounted (start_request r c)
unfolding start_request deliver release_request
start_request-IsAccounted r c e v = ground (arith, ap held_count e, ap held_bytes e)

drain_loop-IsAccounted :
    (rs : List ControlRequest) (c : Requests)
    → c.requests ≡ rs
    → c.current ≡ none
    → IsAccounted c
    → IsAccounted (drain_loop rs c)
unfolding drain_loop deliver release_request
drain_loop-IsAccounted [] c e f v = v
drain_loop-IsAccounted (r ∷ rs) c e f v =
    drain_loop-IsAccounted rs (deliver r (record c { requests = rs })) refl refl
      (ground (arith, ap length e, ap request_bytes e, ap held_count f, ap held_bytes f))

Step-IsAccounted : {c d : Requests} → Step c d → IsAccounted c → IsAccounted d
unfolding drain_requests
Step-IsAccounted {c} (acquire_count n h k) v = ground arith
Step-IsAccounted {c} (acquire_bytes n before after e h) v =
    let k = taken c.waiting before after n e in ground (arith, k)
Step-IsAccounted {c} (give_up n before after e) v =
    let k = taken c.waiting before after n e in ground (arith, k)
Step-IsAccounted {c} (enqueue n before after e) v = enqueue_request-IsAccounted n before after c e v
Step-IsAccounted {c} (abort_queued i) v =
    ground (arith, length-adjust i abort_request c.requests, bytes-adjust i c.requests)
Step-IsAccounted {c} (abort_current r e) v =
    ground (arith, ap held_count e, ap held_bytes e, abort_request-bytes r)
Step-IsAccounted {c} stop v = ground arith
Step-IsAccounted {c} (receive r rest e f) v =
    ground (arith, ap length e, ap request_bytes e, ap held_count f, ap held_bytes f)
Step-IsAccounted {c} (refuse r e h) v = deliver-IsAccounted r c e v
Step-IsAccounted {c} (start r e h) v = start_request-IsAccounted r c e v
Step-IsAccounted {c} (write r e h) v = ground (arith, ap held_count e, ap held_bytes e)
Step-IsAccounted {c} (finish r e h) v = deliver-IsAccounted r c e v
Step-IsAccounted {c} (drain h e) v = drain_loop-IsAccounted c.requests c refl e v

pub Reach-IsAccounted : {c d : Requests} → Reach c d → IsAccounted c → IsAccounted d
Reach-IsAccounted here v = v
Reach-IsAccounted (next r s) v = Step-IsAccounted s (Reach-IsAccounted r v)

-- A caller that has its capacity finds a place in the channel.
enqueue_request-room :
    (n : ℕ) (before after : List ℕ) (c : Requests)
    → c.admitted ≡ before ++ (n ∷ after)
    → IsAccounted c
    → c.closed ≡ false
    → (enqueue_request n (before ++ after) c).0 ≡ none
unfolding enqueue_request
enqueue_request-room n before after c e v f =
    let k = taken c.admitted before after n e in ground (arith, k, f)

-- However callers, their cancellations and the dispatcher interleave, from a connection that
-- accounts for its capacity: what is taken of both semaphores is what the callers, the channel and
-- the dispatcher hold, within the sizes of both, so nothing is lost and nothing is given back twice;
-- and a caller that has its capacity on an open connection is never refused by a full channel.
pub Reach-capacity :
    {c d : Requests}
    → Reach c d
    → IsAccounted c
    → IsAccounted d
      × ((n : ℕ) (before after : List ℕ)
          → d.admitted ≡ before ++ (n ∷ after)
          → d.closed ≡ false
          → (enqueue_request n (before ++ after) d).0 ≡ none)
Reach-capacity {c} {d} r v =
    let w = Reach-IsAccounted r v in
    (w, λ n before after e f. enqueue_request-room n before after d e w f)
