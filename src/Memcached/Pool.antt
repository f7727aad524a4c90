-- ===== src/Memcached/Pool.antt =====
-- The goroutines that run the jobs of the Memcached backend: runAsync and Flush of
-- src/memcached/cache_impl.go. The channel taskQueue has no buffer, so that a job that is sent is received
-- by one goroutine in the same step. A goroutine on its way to its `select` does not receive yet;
-- `starts` may therefore happen whatever the goroutines do.
pub mod Keeps
pub mod Ends
-- runAsync, one goroutine: in a task, with tasksProcessedWithinOnePeriod as it is after the task, or
-- at the `select`
use api_ratelimit.Common.{ℕ, zero, suc, ◌-◌, ◌≡◌, List, [], ◌∷◌, ◌++◌}

pub data Worker (T : Type 0) : Type 0 where
  busy : T → ℕ → Worker T
  waiting : ℕ → Worker T

-- The goroutines and the count of `waitGroup`, with the tasks passed to runAsync and those that
-- have ended, the last one first.
pub record Pool (T : Type 0) : Type 0 where
  pub workers : List (Worker T)
  pub wait_group : ℕ
  pub submitted : List T
  pub ran : List T

module _ {T : Type 0} where
  abbrev pub empty_pool : Pool T
  empty_pool = record { workers = []; wait_group = 0; submitted = []; ran = [] }

  -- waitGroup.Add(1), and runAsync, which leaves the workers as they are given
  unfoldable pub submit : T → List (Worker T) → Pool T → Pool T
  submit task workers p = record {
    workers = workers;
    wait_group = suc p.wait_group;
    submitted = task ∷ p.submitted;
    ran = p.ran;
  }

  -- The end of a task, with the deferred waitGroup.Done().
  unfoldable pub end_task : T → List (Worker T) → Pool T → Pool T
  end_task task workers p = record {
    workers = workers;
    wait_group = p.wait_group - 1;
    submitted = p.submitted;
    ran = task ∷ p.ran;
  }

  -- runAsync: the case of the tick, before the other workers
  unfoldable pub after_tick : ℕ → List (Worker T) → List (Worker T)
  after_tick zero others = others
  after_tick (suc n) others = waiting 0 ∷ others

  -- The steps of the goroutines.
  pub data WorkerStep (p : Pool T) : Pool T → Type 0 where
    finishes :
        (task : T) (n : ℕ) (before after : List (Worker T))
        → p.workers ≡ before ++ busy task n ∷ after
        → WorkerStep p (end_task task (before ++ waiting n ∷ after) p)
    ticks :
        (n : ℕ) (before after : List (Worker T))
        → p.workers ≡ before ++ waiting n ∷ after
        → WorkerStep p (record p { workers = before ++ after_tick n after })

  -- The calls of runAsync: a goroutine at its `select` receives the task, or a new one starts with it.
  pub data PoolStep (p : Pool T) : Pool T → Type 0 where
    hands_over :
        (task : T) (n : ℕ) (before after : List (Worker T))
        → p.workers ≡ before ++ waiting n ∷ after
        → PoolStep p (submit task (before ++ busy task (suc n) ∷ after) p)
    starts : (task : T) → PoolStep p (submit task (busy task 0 ∷ p.workers) p)
    works : {q : Pool T} → WorkerStep p q → PoolStep p q

  pub data PoolSteps (p : Pool T) : Pool T → Type 0 where
    here : PoolSteps p p
    next : {q r : Pool T} → PoolSteps p q → PoolStep q r → PoolSteps p r

  -- Steps of the goroutines alone, with their number.
  pub data Works (p : Pool T) : ℕ → Pool T → Type 0 where
    rests : Works p 0 p
    goes_on : {k : ℕ} {q r : Pool T} → Works p k q → WorkerStep q r → Works p (suc k) r

  -- Flush returns where the count is 0.
  abbrev pub CanFlush : Pool T → Type 0
  CanFlush p = p.wait_group ≡ 0
