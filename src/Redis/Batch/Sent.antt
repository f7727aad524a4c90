-- ===== src/Redis/Batch/Sent.antt =====
-- The commands of a batch on the servers: their replies, and the counters afterwards
-- (src/redis/fixed_cache_impl.go).
pub mod Room
pub mod Replies
use api_ratelimit.Redis.Batch.Sent.Room.{HasRoom, room_now, rest-HasRoom, bump_at-HasRoom}
use api_ratelimit.Common.{
  Bool-cases, length, replicate, GoString, returns, ℕ, suc, ◌≡◌, refl, sym, ap, ◌∙◌, inl, inr, Bool,
  true, false, ◌&&◌, List, [], ◌∷◌, arith,
}
use api_ratelimit.Limiter.{BaseRateLimiter}
use api_ratelimit.Limiter.CacheKey.{is_per_second_limit}
use api_ratelimit.Redis.Driver.{Pipeline, do_each, pipe_do-implicit, Action, incrby, expire}
use api_ratelimit.Redis.FixedCache.{run_main, run_per_second, run_pipelines, State}
use api_ratelimit.Limiter.Batch.{
  bump, Stores, bump_at, store_of, key_of, bumped, BatchItem, free, limited,
}
use api_ratelimit.Redis.Batch.Prepared.{
  second_client, same, this, seconds, drawn, commands, both, Server,
}
use api_ratelimit.Redis.Batch.Sent.Replies.{counted, replies, results, written-results}

some_command : {a : Action} {p : Pipeline} → ◌≡◌ {A = Pipeline} (a ∷ p) [] → ⊥
some_command e = cc

module _ {L F R : Type 0} (base : BaseRateLimiter L F) (servers : Bool → Server R)
    (dedicated : Bool) (domain : GoString) (now hits : ℕ) where
  -- What the commands for one server do to it, given the counters that it has.
  pub record Ran (c : Bool) (i : ℕ) (jitter : ℕ → ℕ) (stores : Stores) (items : List BatchItem)
      (r : R) : Type 0 where
    pub final : R
    pub ran :
        do_each
          (servers c).radix
          (commands base servers dedicated domain now hits c i jitter items)
          r
        ≡ (returns (replies base.prefix domain now dedicated hits c i stores items), final)
    pub counts :
        (servers c).law.count final ≡ bumped base.prefix domain now dedicated hits stores items c

  count-sent :
      (s : Server R) (i : ℕ) (k : GoString) (t : ℕ) (r : R)
      → s.law.count (s.radix.run (expire k t) (s.radix.run (incrby i k hits) r).1).1
        ≡ bump (s.law.count r) k hits
  count-sent s i k t r e j =
      (s.law.expire_count k t (s.radix.run (incrby i k hits) r).1 j (omega (arith, s.at_once))
          ∙ s.law.incrby_count i k hits r j)
        e

  bump_at-same :
      (b c : Bool) (stores : Stores) (k : GoString)
      → same b c ≡ true
      → bump_at stores b k hits c ≡ bump (stores c) k hits
  bump_at-same true true stores k h = refl
  bump_at-same true false stores k h = cc
  bump_at-same false true stores k h = cc
  bump_at-same false false stores k h = refl

  bump_at_elsewhere :
      (b c : Bool) (stores : Stores) (k : GoString)
      → same b c ≡ false
      → bump_at stores b k hits c ≡ stores c
  bump_at_elsewhere true true stores k h = cc
  bump_at_elsewhere true false stores k h = refl
  bump_at_elsewhere false true stores k h = refl
  bump_at_elsewhere false false stores k h = cc

  same_eq : (b c : Bool) → same b c ≡ true → b ≡ c
  same_eq true true h = refl
  same_eq true false h = cc
  same_eq false true h = cc
  same_eq false false h = refl

  pub run-batch :
      (c : Bool) (i : ℕ) (jitter : ℕ → ℕ) (stores : Stores) (items : List BatchItem) (r : R)
      → HasRoom hits stores items
      → (servers c).law.count r ≡ stores c
      → Ran c i jitter stores items r
  unfolding commands replies bumped do_each
  run-batch c i jitter stores [] r room at = record { final = r; ran = refl; counts = at }
  run-batch c i jitter stores (free d ∷ is) r room at =
      let rest =
        run-batch c (suc i) jitter stores is r (rest-HasRoom hits stores (free d) is room) at in
      record { final = rest.final; ran = rest.ran; counts = rest.counts }
  run-batch c i jitter stores (limited d l ∷ is) r room at =
      let k = key_of base.prefix domain now l d in
      let b = store_of dedicated l in
      let jitter' = drawn base servers dedicated domain now hits jitter in
      let room' = bump_at-HasRoom hits stores b k (limited d l) is room in
      elim (Bool-cases (same b c)) [
        | inl e ↦
            let s = servers c in
            let t = seconds base servers dedicated domain now hits l jitter in
            let r₁ = (s.radix.run (incrby i k hits) r).1 in
            let r₂ = (s.radix.run (expire k t) r₁).1 in
            let before : s.law.count r k ≡ stores b k =
              ap (λ f. f k) at ∙ ap (λ x. stores x k) (sym (same_eq b c e)) in
            let rest =
              run-batch c (suc i) jitter' (counted base.prefix domain now dedicated hits stores l d)
                is r₂ room'
                (count-sent s i k t r
                  ∙ (ap (λ f. bump f k hits) at ∙ sym (bump_at-same b c stores k e))) in
            record {
              final = rest.final;
              ran =
                  rw
                    (
                      e,
                      s.law.incrby_reply i k hits r
                          (rw before (room_now hits (stores b k) (length is) (room b k))),
                      s.law.expire_reply k t r₁,
                      rest.ran,
                      before,
                    )
                    refl;
              counts = rest.counts;
            }
        | inr e ↦
            let rest =
              run-batch c (suc i) jitter' (counted base.prefix domain now dedicated hits stores l d)
                is r room' (at ∙ sym (bump_at_elsewhere b c stores k e)) in
            record { final = rest.final; ran = rw e rest.ran; counts = rest.counts }
      ]

  run_main-all :
      (p : Pipeline) (s : State L R)
      → run_main (this base servers dedicated domain now hits) p s ≡ (
          let (o, server) = do_each (servers false).radix p s.redis in
          (o, record s { redis = server }))
  unfolding run_main do_each
  run_main-all [] s = refl
  run_main-all (a ∷ p) s =
      let main = servers false in
      ap (λ x. (x.0, record s { redis = x.1 }))
        (pipe_do-implicit main.radix main.implicit (a ∷ p) s.redis main.in_order)

  run_second-all :
      (b : Bool) (p : Pipeline) (s : State L R)
      → (b ≡ false → p ≡ [])
      → run_per_second
          (record (this base servers dedicated domain now hits) {
            per_second_client = second_client b (servers true);
          })
          p
          s
        ≡ (let (o, server) = do_each (servers true).radix p s.per_second_redis in
            (o, record s { per_second_redis = server }))
  unfolding run_per_second do_each
  run_second-all b [] s h = refl
  run_second-all true (a ∷ p) s h =
      let per_second = servers true in
      ap (λ x. (x.0, record s { per_second_redis = x.1 }))
        (pipe_do-implicit per_second.radix per_second.implicit (a ∷ p) s.per_second_redis
          per_second.in_order)
  run_second-all false (a ∷ p) s h = absurd (some_command (h refl))

  -- Without a client for limits per second there are no commands for it.
  no_second :
      (i : ℕ) (jitter : ℕ → ℕ) (items : List BatchItem)
      → dedicated ≡ false
      → commands base servers dedicated domain now hits true i jitter items ≡ []
  unfolding commands
  no_second i jitter [] h = refl
  no_second i jitter (free d ∷ is) h = no_second (suc i) jitter is h
  no_second i jitter (limited d l ∷ is) h =
      rw (commands, ap (λ b. same (b && is_per_second_limit l.limit.unit) true) h)
        (no_second (suc i) (drawn base servers dedicated domain now hits jitter) is h)

  -- Both pipelines, and the results base.prefix domain now dedicated hits that the replies base.prefix domain now dedicated hits are written to.
  pub run_pipelines-batch :
      (jitter : ℕ → ℕ) (stores : Stores) (items : List BatchItem) (s : State L R)
      (ran₁ : Ran false 0 jitter stores items s.redis)
      (ran₂ : Ran true 0 jitter stores items s.per_second_redis)
      → run_pipelines
          (this base servers dedicated domain now hits)
          (both base servers dedicated domain now hits 0 jitter items)
          (replicate (length items) 0)
          s
        ≡ (
          returns (results base.prefix domain now dedicated hits stores items),
          record s { redis = ran₁.final; per_second_redis = ran₂.final },
        )
  unfolding run_pipelines
  run_pipelines-batch jitter stores items s ran₁ ran₂ =
      rw
        (
          run_main-all (commands base servers dedicated domain now hits false 0 jitter items) s,
          ran₁.ran,
          run_second-all dedicated
              (commands base servers dedicated domain now hits true 0 jitter items)
              (record s { redis = ran₁.final }) (no_second 0 jitter items),
          ran₂.ran,
          written-results base.prefix domain now dedicated hits stores items,
        )
        refl
