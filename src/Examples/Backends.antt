-- ===== src/Examples/Backends.antt =====
-- Tests of the backends.
use api_ratelimit.Common.Strings.{format_uint}
use api_ratelimit.Limiter.{World, DescriptorStatus}
use api_ratelimit.Common.{
  if◌then◌else◌, GoString, text, ◌==◌, Go, pure, ◌>>=◌, Outcome, returns, Dict, insert, lookup,
  lookup-insert, ℕ, ◌+◌, ◌*◌, ◌≡◌, refl, ap, Bool, true, false, none, List, [], ◌∷◌, ◌++◌, arith,
}
use api_ratelimit.Utils.{unit_to_divider, max, second}
use api_ratelimit.Config.Limit.{new_rate_limit, RateLimit}
use api_ratelimit.Redis.Driver.{Replies, do_each, RunsInOrder}
use api_ratelimit.Redis.FixedCache.{statuses, State}
use api_ratelimit.Limiter.Decision.{decision}
use api_ratelimit.Limiter.CacheKey.{generate_cache_key}
use api_ratelimit.Redis.Single.{CountsKeys}
use api_ratelimit.Redis.Quota.{answer, do_limit_quota}
use api_ratelimit.Redis.Window.{call, after, do_limit_window, InWindow}
use api_ratelimit.Limiter.Batch.{admit, BatchItem, free, limited}
use api_ratelimit.Redis.Batch.Admits.{answer_batch, stores_of, do_limit-admits}
use api_ratelimit.Redis.Batch.Prepared.{seconds, Server}
use api_ratelimit.Redis.Batch.Sent.Room.{HasRoom}
use api_ratelimit.Examples.{
  limiter, ten_per_minute, by_user, or_zero_count, run_action, run_actions, counting,
}

counting_in_order : RunsInOrder counting
unfolding run_actions do_each
counting_in_order [] r = refl
counting_in_order (a ∷ p) r =
    ap (λ (rest : Go (Dict ℕ) Replies). (run_action a >>= λ f. rest >>= λ g. pure (f ++ g)) r)
      (λ i s. counting_in_order p s i)

count-insert :
    (k j : GoString) (n : ℕ) (r : Dict ℕ)
    → or_zero_count (lookup j (insert k n r)) ≡ (if k == j then n else or_zero_count (lookup j r))
count-insert k j n r = ground (arith, lookup-insert k j n r)

abbrev counting_over : ℕ → CountsKeys counting
counting_over seconds = record {
  span = seconds;
  count = λ r k. or_zero_count (lookup k r);
  incrby_reply = λ i k n r fits. refl;
  incrby_count = λ i k n r j. count-insert k j (or_zero_count (lookup k r) + n) r;
  expire_reply = λ k t r. refl;
  expire_count = λ k t r j long. refl;
}

-- Over a minute.
abbrev counting_law : CountsKeys counting
counting_law = counting_over 60

abbrev no_cache : World (List GoString)
no_cache = record { calls = []; local = none; time = λ i. 1000; jitter = λ i. 0 }

abbrev user_key : GoString
user_key = text "web_user_ann_960"

abbrev first_call : Outcome (List DescriptorStatus) × State (List GoString) (Dict ℕ)
first_call =
    answer limiter counting counting_law counting_in_order true false b'w' (text "eb_user_ann_960")
      false ten_per_minute (text "web") by_user 1 60 no_cache [] []

do_limit_quota_example :
    (first_call.0
      ≡ returns (decision ten_per_minute (counting_law.count [] user_key + max 1 1) 20 ∷ []))
    × ((j : GoString)
        → counting_law.count first_call.1.redis j ≡ (
            if user_key == j
            then counting_law.count [] user_key + max 1 1
            else counting_law.count [] j))
unfolding unit_to_divider generate_cache_key new_rate_limit format_uint lookup max
do_limit_quota_example =
    do_limit_quota limiter counting counting_law counting_in_order true false b'w'
      (text "eb_user_ann_960") false ten_per_minute (text "web") by_user 1 60 no_cache [] [] refl
      refl refl (omega arith) (omega arith) (omega arith)

abbrev cold : State (List GoString) (Dict ℕ)
cold = record { world = no_cache; redis = []; per_second_redis = [] }

cold-InWindow :
    InWindow limiter counting counting_law counting_in_order true false b'w'
      (text "eb_user_ann_960")
      false
      ten_per_minute
      (text "web")
      by_user
      1
      60
      cold
unfolding generate_cache_key format_uint new_rate_limit
cold-InWindow = record { no_cache = refl; one_key = λ i. refl }

abbrev eleventh : Outcome (List DescriptorStatus) × State (List GoString) (Dict ℕ)
eleventh =
    call limiter counting counting_law counting_in_order true false b'w' (text "eb_user_ann_960")
      false ten_per_minute (text "web") by_user 1 60
      (after limiter counting counting_law counting_in_order true false b'w'
        (text "eb_user_ann_960") false ten_per_minute (text "web") by_user 1 60 10 cold)

-- The eleventh request of a minute, with a limit of ten.
do_limit_window_example :
    (reset : ℕ) × (eleventh.0
      ≡ returns
          (decision ten_per_minute (counting_law.count [] user_key + 11 * max 1 1) reset ∷ []))
unfolding unit_to_divider new_rate_limit lookup max
do_limit_window_example =
    do_limit_window limiter counting counting_law counting_in_order true false b'w'
      (text "eb_user_ann_960") false ten_per_minute (text "web") by_user 1 60 refl (omega arith)
      (omega arith) 10 cold cold-InWindow (omega arith)

-- Two servers that count, and one limit per second between two limits of one key per minute.
abbrev counting_server : Bool → Server (Dict ℕ)
counting_server b = record {
  radix = counting;
  law = counting_over 0;
  at_once = refl;
  in_order = counting_in_order;
  implicit = b;
}

abbrev ten_per_second : RateLimit
ten_per_second = record ten_per_minute { limit = record ten_per_minute.limit { unit = second } }

abbrev four_items : List BatchItem
four_items =
    limited by_user ten_per_minute
    ∷ limited by_user ten_per_second
    ∷ free by_user
    ∷ limited by_user ten_per_minute
    ∷ []

abbrev of_four : Outcome (List DescriptorStatus) × State (List GoString) (Dict ℕ)
of_four = answer_batch limiter counting_server true (text "web") 6 four_items cold

four-HasRoom :
    HasRoom (max 1 6) (stores_of limiter counting_server true (text "web") 6 [] []) four_items
unfolding max lookup
four-HasRoom true j = omega arith
four-HasRoom false j = omega arith

do_limit-admits_example :
    (let (statuses, final) =
        admit []
          (text "web")
          1000
          true
          (max 1 6)
          (stores_of limiter counting_server true (text "web") 6 [] [])
          (λ i. 1000)
          four_items in
      let (answer, s) = of_four in
      (answer ≡ returns statuses)
      × ((b : Bool)
          → stores_of limiter counting_server true (text "web") 6 s.redis s.per_second_redis b
            ≡ final b))
unfolding unit_to_divider new_rate_limit
do_limit-admits_example =
    do_limit-admits limiter counting_server true (text "web") 6 four_items no_cache [] []
      ((refl, omega arith), ((refl, omega arith), (tt, ((refl, omega arith), tt)))) refl
      four-HasRoom
