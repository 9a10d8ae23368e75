-- ===== src/Requests/Tests.antt =====
-- The requests of a control connection (tmux/control_dispatch.go) on a short run.
use gotmux.Prelude.{ℕ, ◌≡◌, refl, false, none, List, [], ◌∷◌, ◌++◌, arith}
use gotmux.Requests.{
  Requests, new_request, enqueue_request, acquire_count, acquire_bytes, enqueue, drain_requests,
  Reach, here, next,
}
use gotmux.Requests.Capacity.{IsAccounted, Reach-capacity}
use gotmux.Requests.Effects.{AllHonest, Reach-AllHonest}
use gotmux.Requests.Drain.{IsDrained, drain_requests-IsDrained}

abbrev idle_connection : Requests
idle_connection = record {
  queue_depth = 2;
  queued_bytes = 100;
  count = 0;
  bytes = 0;
  closed = false;
  waiting = [];
  admitted = [];
  requests = [];
  current = none;
}

idle_connection-IsAccounted : IsAccounted idle_connection
idle_connection-IsAccounted = record {
  count_held = refl;
  bytes_held = refl;
  count_limit = omega arith;
  bytes_limit = omega arith;
}

-- One caller waits in the channel, another has its capacity.
abbrev two_callers : Requests
two_callers = record {
  queue_depth = 2;
  queued_bytes = 100;
  count = 2;
  bytes = 12;
  closed = false;
  waiting = [];
  admitted = 7 ∷ [];
  requests = new_request 5 ∷ [];
  current = none;
}

two_callers-Reach : Reach idle_connection two_callers
unfolding enqueue_request
two_callers-Reach =
    next
      (next
        (next
          (next (next here (acquire_count 5 (omega arith) (omega arith)))
            (acquire_bytes 5 [] [] refl (omega arith)))
          (enqueue 5 [] [] refl))
        (acquire_count 7 (omega arith) (omega arith)))
      (acquire_bytes 7 [] [] refl (omega arith))

Reach-capacity_example :
    IsAccounted two_callers
    × ((n : ℕ) (before after : List ℕ)
        → two_callers.admitted ≡ before ++ (n ∷ after)
        → two_callers.closed ≡ false
        → (enqueue_request n (before ++ after) two_callers).0 ≡ none)
Reach-capacity_example = Reach-capacity two_callers-Reach idle_connection-IsAccounted

Reach-AllHonest_example : AllHonest two_callers
Reach-AllHonest_example = Reach-AllHonest two_callers-Reach refl refl

drain_requests-IsDrained_example : IsDrained two_callers (drain_requests two_callers)
drain_requests-IsDrained_example =
    drain_requests-IsDrained two_callers
      (Reach-capacity two_callers-Reach idle_connection-IsAccounted).0 refl
