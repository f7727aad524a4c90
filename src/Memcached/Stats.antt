-- ===== src/Memcached/Stats.antt =====
-- src/memcached/stats_collecting_client.go
use api_ratelimit.Common.{length, GoString, text, Dict, ℕ, Option, none, some, List, [], ◌∷◌}
use api_ratelimit.Stats.{Calls, memcache_scope}
use api_ratelimit.Memcached.{Failure, cache_miss, not_stored, other_failure, Item, Client}

-- The wrapped client's state, with the additions to the counters.
pub record Counted (M : Type 0) : Type 0 where
  pub inner : M
  pub calls : Calls

-- A counter of the scope; the second string is the tag `code`, empty where there is none.
abbrev pub count_call : {M : Type 0} → GoString → GoString → ℕ → Counted M → Counted M
count_call name code n m = record m { calls = (memcache_scope name code, n) ∷ m.calls }

abbrev pub increment_code : Option Failure → GoString
increment_code (some cache_miss) = text "miss"
increment_code none = text "success"
increment_code (some not_stored) = text "error"
increment_code (some other_failure) = text "error"

abbrev pub add_code : Option Failure → GoString
add_code (some not_stored) = text "not_stored"
add_code none = text "success"
add_code (some cache_miss) = text "error"
add_code (some other_failure) = text "error"

module _ {M : Type 0} (c : Client M) where
  -- stats_collecting_client.go, GetMulti
  abbrev pub count_results : Dict GoString × Option Failure → Counted M → Counted M
  count_results (results, some e) m = count_call (text "multiget") (text "error") 1 m
  count_results (results, none) m =
      count_call (text "multiget") (text "success") 1
        (count_call (text "keys_found") [] (length results) m)

  unfoldable pub get_multi :
      List GoString → Counted M → (Dict GoString × Option Failure) × Counted M
  get_multi keys m =
      let before = count_call (text "keys_requested") [] (length keys) m in
      let (answer, inner) = c.get_multi keys before.inner in
      (answer, count_results answer (record before { inner = inner }))

  -- stats_collecting_client.go, Increment
  unfoldable pub increment : GoString → ℕ → Counted M → Option Failure × Counted M
  increment key delta m =
      let (failure, inner) = c.increment key delta m.inner in
      (
        failure,
        count_call (text "increment") (increment_code failure) 1 (record m { inner = inner }),
      )

  -- stats_collecting_client.go, Add
  unfoldable pub add_item : Item → Counted M → Option Failure × Counted M
  add_item item m =
      let (failure, inner) = c.add_item item m.inner in
      (failure, count_call (text "add") (add_code failure) 1 (record m { inner = inner }))

  -- stats_collecting_client.go, CollectStats
  unfoldable pub collect_stats : Client (Counted M)
  unfolding get_multi increment add_item
  collect_stats = record { get_multi = get_multi; increment = increment; add_item = add_item }
