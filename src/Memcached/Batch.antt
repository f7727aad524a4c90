-- ===== src/Memcached/Batch.antt =====
-- `DoLimit` of src/memcached/cache_impl.go on any number of descriptors.
pub mod Grows
use api_ratelimit.Limiter.Batch.Keys.{entered, batch, generated}
use api_ratelimit.Limiter.Batch.Statuses.{decide-Decided}
use api_ratelimit.Utils.{max, uint32_mod, add32}
use api_ratelimit.Common.{
  any, All, GoString, ◌==◌, eq_refl, Outcome, returns, Dict, ℕ, suc, ◌+◌, ◌<◌, ◌≡◌, refl, ap, ◌∙◌,
  true, false, none, List, [], ◌∷◌, ◌++◌, map, arith,
}
use api_ratelimit.Limiter.{
  generate_response_descriptor_status, get_response_descriptor_status, World, DescriptorStatus,
}
use api_ratelimit.Limiter.Batch.{
  limit_of, Known, key_of, peek, key_of-IsLong, BatchItem, free, limited,
}
use api_ratelimit.Memcached.{
  count_before, statuses, run_async, flush, do_limit, Job, State, MemcacheImpl,
}
use api_ratelimit.Memcached.Fetch.{
  int32_mod, not_over, no_flush_lem, or_true, keys, wanted, state, over_flags-batch,
  keys_to_get-batch, fetch-Fetched, Reads,
}

module _ {L F M : Type 0} (this : MemcacheImpl L F M) (stored : M → GoString → ℕ)
    (law : Reads this stored) (domain : GoString) where
  -- What is stored under a key is below 2^31, and leaves room for the hits of the request in 32 bits.
  abbrev pub HasRoom : ℕ → M → Type 0
  HasRoom hits m = (k : GoString) → (stored m k < int32_mod) × (stored m k + hits < uint32_mod)

  added_lem : (a n : ℕ) → a + n < uint32_mod → add32 a n ≡ a + n
  unfolding add32
  added_lem a n h = ground (arith, h)

  -- The second loop gives the statuses of the specification.
  statuses-batch :
      (now hits : ℕ) (values : Dict GoString) (items : List BatchItem) (w : World L) (m m' : M)
      (js : List Job)
      → All Known items
      → ((k : GoString)
          → any (λ j. j == k) (wanted this stored law domain now items) ≡ true
          → count_before this values k ≡ stored m k)
      → HasRoom hits m
      → w.local ≡ none
      → (later : World L) × (statuses this values
            (keys this stored law domain now items)
            (map limit_of items)
            (map not_over items)
            hits
            (state this stored law domain w m' js)
          ≡ (
            returns (peek this.base.prefix domain now hits (stored m) w.time items),
            state this stored law domain later m' js,
          ))
  unfolding statuses peek wanted get_response_descriptor_status generate_response_descriptor_status
  statuses-batch now hits values [] w m m' js known read room h = (w, refl)
  statuses-batch now hits values (free d ∷ is) w m m' js (known, rest) read room h =
      let (later, e) = statuses-batch now hits values is w m m' js rest read room h in
      (later, rw e refl)
  statuses-batch now hits values (limited d l ∷ is) w m m' js ((unit_known, rfits), rest) read room
        h =
      let k = key_of this.base.prefix domain now l d in
      let seen = read k (rw (eq_refl k) refl) in
      let one =
        decide-Decided this.base hits k l (count_before this values k)
          (add32 (count_before this values k) hits) (stored m k) w
          (key_of-IsLong this.base.prefix domain now l d) unit_known rfits (room k).1 seen
          (ap (λ x. add32 x hits) seen ∙ added_lem (stored m k) hits (room k).1) h in
      let (later, e) =
        statuses-batch now hits values is one.later m m' js rest
          (λ j g. read j (or_true (k == j) g)) room one.no_cache in
      (later, rw one.decided (rw e (rw one.ticked refl)))

  -- The job that a request leaves behind.
  abbrev pub job_of : ℕ → ℕ → List BatchItem → Job
  job_of now hits items = record {
    keys = keys this stored law domain now items;
    over = map not_over items;
    limits = map limit_of items;
    hits = hits;
  }

  abbrev pub answer_batch :
      ℕ → List BatchItem → State L M → Outcome (List DescriptorStatus) × State L M
  answer_batch n items s = do_limit this (batch domain n items) (map limit_of items) s

  -- A request with any number of descriptors, some of them without a limit and some perhaps with the
  -- same key: with known units, counts below 2^31, room for the hits within 32 bits, no local cache, no
  -- flush at the end, and a client that reads such counts as they are stored, each status is decided by what was stored under its key
  -- before the request and the hits of the request; nothing is stored, and one job is left to be done.
  pub do_limit-peek :
      (n : ℕ) (items : List BatchItem) (w : World L) (m : M) (js : List Job)
      → this.auto_flush ≡ false
      → All Known items
      → HasRoom (max 1 n) m
      → w.local ≡ none
      → (let (answer, s) = answer_batch n items (state this stored law domain w m js) in
          (answer
            ≡ returns (
                peek this.base.prefix domain
                  (w.time 0)
                  (max 1 n)
                  (stored m)
                  (λ i. w.time (suc i))
                  items))
          × (stored s.server ≡ stored m)
          × (s.pending ≡ js ++ job_of (w.time 0) (max 1 n) items ∷ []))
  unfolding do_limit run_async
  do_limit-peek n items w m js no_flush known room no_cache =
      let now = w.time 0 in
      let hits = max 1 n in
      let w₁ = entered hits items w in
      let got =
        fetch-Fetched this stored law domain (wanted this stored law domain now items) w₁ m js
          (λ k. (room k).0) in
      let (later, e) =
        statuses-batch now hits got.values items w₁ m got.server js known got.known room no_cache in
      let whole : answer_batch n items (state this stored law domain w m js) ≡ (
        returns (peek this.base.prefix domain now hits (stored m) w₁.time items),
        state this stored law domain later got.server (js ++ job_of now hits items ∷ []),
      ) =
        rw
          (
            generated this.base domain n items w known,
            over_flags-batch this stored law domain now items w₁ m js no_cache,
            keys_to_get-batch this stored law domain now items,
            got.fetched,
          )
          (rw
            (
              e,
              no_flush_lem this.auto_flush (flush this)
                  (state this stored law domain later got.server (js ++ job_of now hits items ∷ []))
                  no_flush,
            )
            refl) in
      (
        ap (λ x. x.0) whole,
        ap (λ x. stored x.1.server) whole ∙ got.kept_server,
        ap (λ x. x.1.pending) whole,
      )
