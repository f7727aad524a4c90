-- ===== src/Examples/Stored.antt =====
-- Tests of the Memcached backend on what a server has stored.
use api_ratelimit.Common.{
  Bool-cases, Option-cases, any, GoString, text, ◌==◌, eq_iff, Outcome, returns, Dict, insert,
  lookup, ℕ, ◌+◌, ◌≡◌, refl, sym, ap, ◌∙◌, inl, inr, true, false, Option, none, some, List, [], ◌∷◌,
  arith,
}
use api_ratelimit.Common.Strings.{format_uint}
use api_ratelimit.Common.Decimal.{value-format_uint}
use api_ratelimit.Utils.{unit_to_divider, max}
use api_ratelimit.Config.Limit.{new_rate_limit}
use api_ratelimit.Limiter.{World, DescriptorStatus}
use api_ratelimit.Limiter.Batch.{peek, BatchItem, limited}
use api_ratelimit.Memcached.{Failure, Client, State, MemcacheImpl}
use api_ratelimit.Memcached.Increase.{StoresHits}
use api_ratelimit.Memcached.Fetch.{IsRead, Reads}
use api_ratelimit.Memcached.Batch.{HasRoom, job_of, answer_batch, do_limit-peek}
use api_ratelimit.Memcached.Batch.Grows.{all_grown, increase_batch, increase-grown}
use api_ratelimit.Examples.{noon, ten_per_minute, by_user, or_zero_count}
use api_ratelimit.Examples.Memcache.{count_client, count_client-StoresHits, memcache}

-- The servers of one process, read back as text.
abbrev values_of : List GoString → Dict ℕ → Dict GoString
values_of [] m = []
values_of (k ∷ ks) m = elim (lookup k m) [
  | none ↦ values_of ks m
  | some n ↦ (k, format_uint n) ∷ values_of ks m
]

abbrev reading_client : Client (Dict ℕ)
reading_client = record count_client { get_multi = λ ks m. ((values_of ks m, none), m) }

abbrev reading : MemcacheImpl (List GoString) ℕ (Dict ℕ)
reading = record memcache { client = reading_client; auto_flush = false }

abbrev reading-StoresHits : StoresHits reading_client
reading-StoresHits = record {
  stored = count_client-StoresHits.stored;
  incremented = count_client-StoresHits.incremented;
  not_incremented = count_client-StoresHits.not_incremented;
  added = count_client-StoresHits.added;
  not_added = count_client-StoresHits.not_added;
}

some_absurd : {n : ℕ} → ◌≡◌ {A = Option ℕ} (some n) none → ⊥
some_absurd e = cc

abbrev user_key : GoString
user_key = text "web_user_ann_960"

value_lem : (k j : GoString) (m : Dict ℕ) → (k == j) ≡ true → lookup k m ≡ lookup j m
value_lem k j m h = ap (λ x. lookup x m) ((eq_iff k j).0 h)

none_read :
    (ks : List GoString) (m : Dict ℕ) (k : GoString)
    → lookup k m ≡ none
    → lookup k (values_of ks m) ≡ none
unfolding lookup
none_read [] m k h = refl
none_read (j ∷ ks) m k h = elim (Option-cases (lookup j m)) [
  | inl e ↦ rw (values_of, e) (none_read ks m k h)
  | inr (n, e) ↦ elim (Bool-cases (j == k)) [
    | inl same ↦ absurd (some_absurd (sym e ∙ (value_lem j k m same ∙ h)))
    | inr differs ↦ rw (values_of, e, differs) (none_read ks m k h)
  ]
]

some_read :
    (ks : List GoString) (m : Dict ℕ) (k : GoString) (n : ℕ)
    → lookup k m ≡ some n
    → any (λ j. j == k) ks ≡ true
    → lookup k (values_of ks m) ≡ some (format_uint n)
unfolding lookup
some_read [] m k n h asked = cc
some_read (j ∷ ks) m k n h asked = elim (Bool-cases (j == k)) [
  | inl same ↦ rw (values_of, value_lem j k m same, h, same) refl
  | inr differs ↦
      let later = some_read ks m k n h (sym (rw differs refl) ∙ asked) in
      elim (Option-cases (lookup j m)) [
        | inl e ↦ rw (values_of, e) later
        | inr (v, e) ↦ rw (values_of, e, differs) later
      ]
]

read_lem :
    (ks : List GoString) (m : Dict ℕ) (k : GoString)
    → any (λ j. j == k) ks ≡ true
    → IsRead reading.parse_value (lookup k (values_of ks m)) (or_zero_count (lookup k m))
read_lem ks m k h = elim (Option-cases (lookup k m)) [
  | inl e ↦ rw (none_read ks m k e, e) refl
  | inr (n, e) ↦ rw (some_read ks m k n e h, e) (ap some (value-format_uint n))
]

abbrev reading-Reads : Reads reading reading-StoresHits.stored
unfolding lookup
reading-Reads = record { read = λ ks m k h small. read_lem ks m k h; kept = λ ks m. refl }

-- Two descriptors of one key, of which five hits are stored.
abbrev two_items : List BatchItem
two_items = limited by_user ten_per_minute ∷ limited by_user ten_per_minute ∷ []

abbrev quiet : World (List GoString)
quiet = record noon { local = none }

abbrev stored_five : Dict ℕ
stored_five = insert (text "web_user_ann_960") 5 []

abbrev of_two : Outcome (List DescriptorStatus) × State (List GoString) (Dict ℕ)
of_two =
    answer_batch reading reading-StoresHits.stored reading-Reads (text "web") 1 two_items
      (record { world = quiet; server = stored_five; pending = [] })

five-HasRoom :
    HasRoom reading reading-StoresHits.stored reading-Reads (text "web") (max 1 1) stored_five
unfolding insert lookup max
five-HasRoom k = elim (Bool-cases (user_key == k)) [
  | inl e ↦ rw e (omega arith, omega arith)
  | inr e ↦ rw e (omega arith, omega arith)
]

do_limit-peek_example :
    (of_two.0
      ≡ returns (
          peek []
            (text "web")
            1000
            (max 1 1)
            (reading-StoresHits.stored stored_five)
            (λ i. 1000)
            two_items))
    × (reading-StoresHits.stored of_two.1.server ≡ reading-StoresHits.stored stored_five)
    × (of_two.1.pending
        ≡ job_of reading reading-StoresHits.stored reading-Reads
            (text "web")
            1000
            (max 1 1)
            two_items
          ∷ [])
unfolding unit_to_divider new_rate_limit
do_limit-peek_example =
    do_limit-peek reading reading-StoresHits.stored reading-Reads (text "web") 1 two_items quiet
      stored_five [] refl ((refl, omega arith), ((refl, omega arith), tt)) five-HasRoom refl

abbrev done_two : Outcome (List (Option Failure)) × State (List GoString) (Dict ℕ)
done_two =
    increase_batch reading reading-StoresHits reading-Reads (text "web") 1000 2 two_items
      (record { world = quiet; server = stored_five; pending = [] })

increase-grown_example :
    (answers : List (Option Failure)) × (done_two.0 ≡ returns answers)
    × (reading-StoresHits.stored done_two.1.server user_key
        ≡ reading-StoresHits.stored stored_five user_key
          + all_grown [] (text "web") 1000 2 two_items answers user_key)
unfolding unit_to_divider new_rate_limit
increase-grown_example =
    increase-grown reading reading-StoresHits reading-Reads (text "web") 1000 2 two_items
      (record { world = quiet; server = stored_five; pending = [] }) user_key
      ((refl, omega arith), ((refl, omega arith), tt))
