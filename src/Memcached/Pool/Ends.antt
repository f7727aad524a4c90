-- ===== src/Memcached/Pool/Ends.antt =====
-- The goroutines of runAsync come to an end (src/memcached/cache_impl.go).
use api_ratelimit.Common.{
  length, ℕ, zero, suc, ◌+◌, ◌*◌, ◌≤◌, ◌<◌, ◌≡◌, refl, ◌∙◌, ◌⊎◌, inl, inr, List, [], ◌∷◌, ◌++◌,
  arith,
}
use mathlib.Core.List.{Perm}
use mathlib.Core.Path.{subst}
use api_ratelimit.Memcached.Pool.{
  empty_pool, end_task, after_tick, Worker, busy, waiting, Pool, WorkerStep, finishes, ticks, works,
  PoolSteps, next, Works, rests, goes_on,
}
use api_ratelimit.Memcached.Pool.Keeps.{none_left-ran}

module _ {T : Type 0} where
  -- The steps that a goroutine has left: the end of its task and two ticks, at most.
  steps_left : Worker T → ℕ
  steps_left (busy task n) = 3
  steps_left (waiting (suc n)) = 2
  steps_left (waiting zero) = 1

  all_left : List (Worker T) → ℕ
  unfolding steps_left
  all_left [] = 0
  all_left (w ∷ ws) = steps_left w + all_left ws

  all_left-append : (ws vs : List (Worker T)) → all_left (ws ++ vs) ≡ all_left ws + all_left vs
  unfolding all_left
  all_left-append [] vs = omega arith
  all_left-append (w ∷ ws) vs = omega (arith, all_left-append ws vs)

  all_left-le : (ws : List (Worker T)) → all_left ws ≤ 3 * length ws
  unfolding all_left
  all_left-le [] = omega arith
  all_left-le (busy task n ∷ ws) = omega (arith, all_left-le ws)
  all_left-le (waiting zero ∷ ws) = omega (arith, all_left-le ws)
  all_left-le (waiting (suc n) ∷ ws) = omega (arith, all_left-le ws)

  finished-lt :
      (task : T) (n : ℕ) (before after : List (Worker T))
      → all_left (before ++ waiting n ∷ after) < all_left (before ++ busy task n ∷ after)
  unfolding all_left
  finished-lt task zero before after = omega (
    arith,
    all_left-append before (waiting 0 ∷ after),
    all_left-append before (busy task 0 ∷ after),
  )
  finished-lt task (suc n) before after = omega (
    arith,
    all_left-append before (waiting (suc n) ∷ after),
    all_left-append before (busy task (suc n) ∷ after),
  )

  ticked-lt :
      (n : ℕ) (before after : List (Worker T))
      → all_left (before ++ after_tick n after) < all_left (before ++ waiting n ∷ after)
  unfolding all_left after_tick
  ticked-lt zero before after =
      omega (arith, all_left-append before after, all_left-append before (waiting 0 ∷ after))
  ticked-lt (suc n) before after = omega (
    arith,
    all_left-append before (waiting 0 ∷ after),
    all_left-append before (waiting (suc n) ∷ after),
  )

  WorkerStep-lt : {p q : Pool T} → WorkerStep p q → all_left q.workers < all_left p.workers
  unfolding end_task
  WorkerStep-lt (finishes task n before after e) = rw e (finished-lt task n before after)
  WorkerStep-lt (ticks n before after e) = rw e (ticked-lt n before after)

  Works-le :
      {p : Pool T} {k : ℕ} {q : Pool T} → Works p k q → k + all_left q.workers ≤ all_left p.workers
  Works-le rests = omega arith
  Works-le (goes_on w s) = omega (arith, Works-le w, WorkerStep-lt s)

  WorkerStep-submitted : {p q : Pool T} → WorkerStep p q → q.submitted ≡ p.submitted
  unfolding end_task
  WorkerStep-submitted (finishes task n before after e) = refl
  WorkerStep-submitted (ticks n before after e) = refl

  Works-submitted : {p : Pool T} {k : ℕ} {q : Pool T} → Works p k q → q.submitted ≡ p.submitted
  Works-submitted rests = refl
  Works-submitted (goes_on w s) = WorkerStep-submitted s ∙ Works-submitted w

  Works-PoolSteps :
      {p : Pool T} {k : ℕ} {q : Pool T}
      → PoolSteps empty_pool p
      → Works p k q
      → PoolSteps empty_pool q
  Works-PoolSteps r rests = r
  Works-PoolSteps r (goes_on w s) = next (Works-PoolSteps r w) (works s)

  works_on :
      (q : Pool T) (ws : List (Worker T))
      → q.workers ≡ ws
      → (ws ≡ []) ⊎ ((r : Pool T) × WorkerStep q r)
  works_on q [] e = inl refl
  works_on q (busy task n ∷ ws) e = inr (end_task task (waiting n ∷ ws) q, finishes task n [] ws e)
  works_on q (waiting n ∷ ws) e = inr (record q { workers = after_tick n ws }, ticks n [] ws e)

  -- Where runAsync is called no more, the goroutines take at most three steps each, and as long as
  -- there is one left it can take a step. Where none is left, each task that was passed to
  -- runAsync has run exactly once.
  pub workers_end :
      {p : Pool T} {k : ℕ} {q : Pool T}
      → PoolSteps empty_pool p
      → Works p k q
      → (k ≤ 3 * length p.workers)
        × (((q.workers ≡ []) × Perm p.submitted q.ran) ⊎ ((r : Pool T) × WorkerStep q r))
  workers_end {p = p} {q = q} reached w = (
    omega (arith, Works-le w, all_left-le p.workers),
    elim (works_on q q.workers refl) [
      | inl e ↦ inl (
        e,
        subst (λ l. Perm l q.ran) (Works-submitted w) (none_left-ran (Works-PoolSteps reached w) e),
      )
      | inr s ↦ inr s
    ],
  )
