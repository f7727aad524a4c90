-- ===== src/Examples/Pools.antt =====
-- Tests of the goroutines of the Memcached backend.
use api_ratelimit.Common.{length, ℕ, ◌*◌, ◌≤◌, ◌≡◌, refl, ◌⊎◌, [], ◌∷◌}
use mathlib.Core.List.{Perm}
use api_ratelimit.Memcached.Pool.{
  empty_pool, submit, end_task, after_tick, waiting, Pool, WorkerStep, finishes, ticks, hands_over,
  starts, works, PoolSteps, here, next, rests, goes_on,
}
use api_ratelimit.Memcached.Pool.Keeps.{flush-ran}
use api_ratelimit.Memcached.Pool.Ends.{workers_end}

-- Two tasks: a goroutine starts with the first, ends it, and is handed the second.
abbrev two_done : Pool ℕ
two_done = record {
  workers = waiting 1 ∷ [];
  wait_group = 0;
  submitted = 2 ∷ 1 ∷ [];
  ran = 2 ∷ 1 ∷ [];
}

to_two : PoolSteps empty_pool two_done
unfolding submit end_task
to_two =
    next
      (next (next (next here (starts 1)) (works (finishes 1 0 [] [] refl)))
        (hands_over 2 0 [] [] refl))
      (works (finishes 2 1 [] [] refl))

flush-ran_example : Perm two_done.submitted two_done.ran
flush-ran_example = flush-ran to_two refl

abbrev after_two_ticks : Pool ℕ
after_two_ticks = record two_done { workers = [] }

workers_end_example :
    (2 ≤ 3 * length two_done.workers)
    × (((after_two_ticks.workers ≡ []) × Perm two_done.submitted after_two_ticks.ran)
        ⊎ ((r : Pool ℕ) × WorkerStep after_two_ticks r))
unfolding after_tick
workers_end_example =
    workers_end to_two (goes_on (goes_on rests (ticks 1 [] [] refl)) (ticks 0 [] [] refl))
