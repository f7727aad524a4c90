-- ===== src/Memcached/Pool/Keeps.antt =====
-- No job is lost, and none is run twice (runAsync of src/memcached/cache_impl.go).
use api_ratelimit.Common.{
  length, length-append, ℕ, zero, suc, ◌≡◌, refl, sym, ap, ◌∙◌, List, [], ◌∷◌, ◌++◌, arith,
}
use mathlib.Core.List.{Perm, append-nil, append_assoc, perm_middle}
use mathlib.Core.List.Perm
use mathlib.Core.Path.{subst}
use api_ratelimit.Memcached.Pool.{
  empty_pool, submit, end_task, after_tick, CanFlush, Worker, busy, waiting, Pool, WorkerStep,
  finishes, ticks, PoolStep, hands_over, starts, works, PoolSteps, here, next,
}

module _ {T : Type 0} where
  -- The tasks that the goroutines are in.
  busy_tasks : List (Worker T) → List T
  busy_tasks [] = []
  busy_tasks (busy task n ∷ ws) = task ∷ busy_tasks ws
  busy_tasks (waiting n ∷ ws) = busy_tasks ws

  busy_tasks-append :
      (ws vs : List (Worker T)) → busy_tasks (ws ++ vs) ≡ busy_tasks ws ++ busy_tasks vs
  unfolding busy_tasks
  busy_tasks-append [] vs = refl
  busy_tasks-append (busy task n ∷ ws) vs = ap (λ l. task ∷ l) (busy_tasks-append ws vs)
  busy_tasks-append (waiting n ∷ ws) vs = busy_tasks-append ws vs

  busy_tasks-busy :
      (task : T) (n : ℕ) (before after : List (Worker T))
      → busy_tasks (before ++ busy task n ∷ after) ≡ busy_tasks before ++ task ∷ busy_tasks after
  unfolding busy_tasks
  busy_tasks-busy task n before after = busy_tasks-append before (busy task n ∷ after)

  busy_tasks-waiting :
      (n : ℕ) (before after : List (Worker T))
      → busy_tasks (before ++ waiting n ∷ after) ≡ busy_tasks before ++ busy_tasks after
  unfolding busy_tasks
  busy_tasks-waiting n before after = busy_tasks-append before (waiting n ∷ after)

  busy_tasks-tick :
      (n : ℕ) (before after : List (Worker T))
      → busy_tasks (before ++ after_tick n after) ≡ busy_tasks before ++ busy_tasks after
  unfolding after_tick
  busy_tasks-tick zero before after = busy_tasks-append before after
  busy_tasks-tick (suc n) before after = busy_tasks-waiting 0 before after

  task_moved :
      (task : T) (ran before after : List T)
      → Perm (ran ++ (before ++ task ∷ after)) (task ∷ (ran ++ (before ++ after)))
  task_moved task ran before after =
      rw (sym (append_assoc ran before (task ∷ after)), sym (append_assoc ran before after))
        (perm_middle (ran ++ before) after)

  record IsKept (p : Pool T) : Type 0 where
    all_there : Perm p.submitted (p.ran ++ busy_tasks p.workers)
    counted : p.wait_group ≡ length (busy_tasks p.workers)

  IsKept-submit :
      (p : Pool T) (task : T) (before after vs : List (Worker T))
      → busy_tasks p.workers ≡ busy_tasks before ++ busy_tasks after
      → busy_tasks vs ≡ busy_tasks before ++ task ∷ busy_tasks after
      → IsKept p
      → IsKept (submit task vs p)
  unfolding submit
  IsKept-submit p task before after vs old new k = record {
    all_there = rw new (
        Perm.trans (Perm.cons task (subst (λ l. Perm p.submitted (p.ran ++ l)) old k.all_there))
          (Perm.symm (task_moved task p.ran (busy_tasks before) (busy_tasks after))));
    counted = omega (
      arith,
      k.counted,
      ap length old,
      ap length new,
      length-append (busy_tasks before) (busy_tasks after),
      length-append (busy_tasks before) (task ∷ busy_tasks after),
    );
  }

  IsKept-end_task :
      (p : Pool T) (task : T) (before after vs : List (Worker T))
      → busy_tasks p.workers ≡ busy_tasks before ++ task ∷ busy_tasks after
      → busy_tasks vs ≡ busy_tasks before ++ busy_tasks after
      → IsKept p
      → IsKept (end_task task vs p)
  unfolding end_task
  IsKept-end_task p task before after vs old new k = record {
    all_there = rw new (
        Perm.trans (subst (λ l. Perm p.submitted (p.ran ++ l)) old k.all_there)
          (task_moved task p.ran (busy_tasks before) (busy_tasks after)));
    counted = omega (
      arith,
      k.counted,
      ap length old,
      ap length new,
      length-append (busy_tasks before) (busy_tasks after),
      length-append (busy_tasks before) (task ∷ busy_tasks after),
    );
  }

  IsKept-workers :
      (p : Pool T) (vs : List (Worker T))
      → busy_tasks vs ≡ busy_tasks p.workers
      → IsKept p
      → IsKept (record p { workers = vs })
  IsKept-workers p vs e k = record { all_there = rw e k.all_there; counted = rw e k.counted }

  WorkerStep-IsKept : {p q : Pool T} → WorkerStep p q → IsKept p → IsKept q
  WorkerStep-IsKept {p} (finishes task n before after e) k =
      IsKept-end_task p task before after (before ++ waiting n ∷ after)
        (ap busy_tasks e ∙ busy_tasks-busy task n before after) (busy_tasks-waiting n before after)
        k
  WorkerStep-IsKept {p} (ticks n before after e) k =
      IsKept-workers p (before ++ after_tick n after)
        (busy_tasks-tick n before after ∙ sym (ap busy_tasks e ∙ busy_tasks-waiting n before after))
        k

  PoolStep-IsKept : {p q : Pool T} → PoolStep p q → IsKept p → IsKept q
  unfolding busy_tasks
  PoolStep-IsKept {p} (hands_over task n before after e) k =
      IsKept-submit p task before after (before ++ busy task (suc n) ∷ after)
        (ap busy_tasks e ∙ busy_tasks-waiting n before after)
        (busy_tasks-busy task (suc n) before after) k
  PoolStep-IsKept {p} (starts task) k =
      IsKept-submit p task [] p.workers (busy task 0 ∷ p.workers) refl refl k
  PoolStep-IsKept (works s) k = WorkerStep-IsKept s k

  PoolSteps-IsKept : {p : Pool T} → PoolSteps empty_pool p → IsKept p
  unfolding busy_tasks
  PoolSteps-IsKept here = record { all_there = Perm.nil; counted = refl }
  PoolSteps-IsKept (next r s) = PoolStep-IsKept s (PoolSteps-IsKept r)

  all_ran :
      {p : Pool T} → PoolSteps empty_pool p → busy_tasks p.workers ≡ [] → Perm p.submitted p.ran
  all_ran {p} r quiet =
      subst (λ l. Perm p.submitted l) (ap (λ l. p.ran ++ l) quiet ∙ append-nil p.ran)
        (PoolSteps-IsKept r).all_there

  pub none_left-ran :
      {p : Pool T} → PoolSteps empty_pool p → p.workers ≡ [] → Perm p.submitted p.ran
  unfolding busy_tasks
  none_left-ran r e = all_ran r (ap busy_tasks e)

  none_busy : (l : List T) → length l ≡ 0 → l ≡ []
  none_busy [] h = refl
  none_busy (t ∷ l) h = absurd (omega arith)

  -- Where Flush can return, each task that was passed to runAsync has run exactly once.
  pub flush-ran : {p : Pool T} → PoolSteps empty_pool p → CanFlush p → Perm p.submitted p.ran
  flush-ran r idle = all_ran r (none_busy _ (sym (PoolSteps-IsKept r).counted ∙ idle))
