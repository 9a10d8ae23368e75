-- ===== src/Requests/Drain.antt =====
-- The end of a control connection (tmux/control_dispatch.go): what its drain gives back.
use gotmux.Prelude.{◌+◌, ◌≡◌, refl, ap, none, List, [], ◌∷◌, length, arith}
use gotmux.Requests.{ControlRequest, Requests, release_request, deliver, drain_loop, drain_requests}
use gotmux.Requests.Capacity.{IsAccounted, sum, request_bytes, held_count, held_bytes}

-- A connection behind its drain: nothing is in the channel, and what is taken of the semaphores is what
-- the callers hold that have no request in it.
pub record IsDrained (c d : Requests) : Type 0 where
  pub empty : d.requests ≡ []
  pub idle : d.current ≡ none
  pub callers_kept : (d.waiting ≡ c.waiting) × (d.admitted ≡ c.admitted)
  pub still_closed : d.closed ≡ c.closed
  pub count_left : d.count ≡ length c.waiting + length c.admitted
  pub bytes_left : d.bytes ≡ sum c.admitted

drain_loop-IsDrained :
    (rs : List ControlRequest) (c : Requests)
    → c.requests ≡ rs
    → c.current ≡ none
    → c.count ≡ length c.waiting + length c.admitted + length rs
    → c.bytes ≡ sum c.admitted + request_bytes rs
    → IsDrained c (drain_loop rs c)
unfolding drain_loop deliver release_request
drain_loop-IsDrained [] c q e n b = record {
  empty = q;
  idle = e;
  callers_kept = (refl, refl);
  still_closed = refl;
  count_left = omega (arith, n);
  bytes_left = omega (arith, b);
}
drain_loop-IsDrained (r ∷ rs) c q e n b =
    let d =
      drain_loop-IsDrained rs (deliver r (record c { requests = rs })) refl refl (omega (arith, n))
        (omega (arith, b)) in
    record {
      empty = d.empty;
      idle = d.idle;
      callers_kept = d.callers_kept;
      still_closed = d.still_closed;
      count_left = d.count_left;
      bytes_left = d.bytes_left;
    }

-- On a connection that accounts for its capacity and whose dispatcher has no request in hand,
-- `drainRequests` ends with an empty channel and gives back, once, the unit and the bytes of every
-- request that was in it: what stays taken is what the callers hold that have not got there.
pub drain_requests-IsDrained :
    (c : Requests) → IsAccounted c → c.current ≡ none → IsDrained c (drain_requests c)
unfolding drain_requests
drain_requests-IsDrained c v e =
    drain_loop-IsDrained c.requests c refl e (omega (arith, v.count_held, ap held_count e))
      (omega (arith, v.bytes_held, ap held_bytes e))
