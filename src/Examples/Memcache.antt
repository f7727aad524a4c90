-- ===== src/Examples/Memcache.antt =====
-- Tests of the Memcached backend.
use api_ratelimit.Common.{
  if◌then◌else◌, Option-cases, GoString, text, ◌==◌, eq_iff, Outcome, Dict, insert, lookup,
  lookup-insert, ℕ, ◌+◌, ◌≡◌, inl, inr, true, Option, none, some, List, [], arith,
}
use api_ratelimit.Common.Strings.{format_uint}
use api_ratelimit.Common.Decimal.{value_from, value-format_uint}
use api_ratelimit.Memcached.{
  increase_key, Failure, cache_miss, not_stored, Item, Client, State, MemcacheImpl,
}
use api_ratelimit.Memcached.Increase.{grown, increase_key-stored, StoresHits}
use api_ratelimit.Examples.{limiter, noon, ten_per_minute, or_zero_count}

-- A server of one process that counts.
abbrev pub increment_count : GoString → ℕ → Dict ℕ → Option Failure × Dict ℕ
increment_count k n m = elim (lookup k m) [
  | none ↦ (some cache_miss, m)
  | some c ↦ (none, insert k (c + n) m)
]

abbrev pub add_count : Item → Dict ℕ → Option Failure × Dict ℕ
add_count i m = elim (lookup i.key m) [
  | none ↦ (none, insert i.key (value_from 0 i.value) m)
  | some c ↦ (some not_stored, m)
]

abbrev pub count_client : Client (Dict ℕ)
count_client = record {
  get_multi = λ ks m. (([], none), m);
  increment = increment_count;
  add_item = add_count;
}

abbrev pub stored_of : Dict ℕ → GoString → ℕ
stored_of m k = or_zero_count (lookup k m)

abbrev pub number_item : GoString → ℕ → ℕ → Item
number_item k n t = record { key = k; value = format_uint n; expiration = t }

pub incremented_lem :
    (k : GoString) (n : ℕ) (m : Dict ℕ) (j : GoString)
    → (increment_count k n m).0 ≡ none
    → stored_of (increment_count k n m).1 j ≡ (if k == j then stored_of m k + n else stored_of m j)
incremented_lem k n m j h = elim (Option-cases (lookup k m)) [
  | inl e ↦ ground (arith, e, h)
  | inr (c, e) ↦ ground (arith, e, eq_iff k j, lookup-insert k j (c + n) m)
]

pub not_incremented_lem :
    (k : GoString) (n : ℕ) (m : Dict ℕ) (j : GoString) (e : Failure)
    → (increment_count k n m).0 ≡ some e
    → stored_of (increment_count k n m).1 j ≡ stored_of m j
not_incremented_lem k n m j e h = ground (arith, h)

pub added_lem :
    (k : GoString) (n t : ℕ) (m : Dict ℕ) (j : GoString)
    → (add_count (number_item k n t) m).0 ≡ none
    → stored_of (add_count (number_item k n t) m).1 j
      ≡ (if k == j then stored_of m k + n else stored_of m j)
added_lem k n t m j h =
    ground (
      arith,
      eq_iff k j,
      lookup-insert k j (value_from 0 (format_uint n)) m,
      value-format_uint n,
      h,
    )

pub not_added_lem :
    (k : GoString) (n t : ℕ) (m : Dict ℕ) (j : GoString) (e : Failure)
    → (add_count (number_item k n t) m).0 ≡ some e
    → stored_of (add_count (number_item k n t) m).1 j ≡ stored_of m j
not_added_lem k n t m j e h = ground (arith, h)

abbrev pub count_client-StoresHits : StoresHits count_client
count_client-StoresHits = record {
  stored = stored_of;
  incremented = incremented_lem;
  not_incremented = not_incremented_lem;
  added = added_lem;
  not_added = not_added_lem;
}

abbrev pub memcache : MemcacheImpl (List GoString) ℕ (Dict ℕ)
memcache = record {
  client = count_client;
  parse_value = λ s. some (value_from 0 s);
  auto_flush = true;
  base = limiter;
}

abbrev empty_servers : State (List GoString) (Dict ℕ)
empty_servers = record { world = noon; server = []; pending = [] }

abbrev increased : Outcome (Option Failure) × State (List GoString) (Dict ℕ)
increased = increase_key memcache (text "k") (some ten_per_minute) 3 empty_servers

increase_key-stored_example :
    count_client-StoresHits.stored increased.1.server (text "k")
    ≡ count_client-StoresHits.stored [] (text "k") + grown (text "k") (text "k") 3 increased.0
increase_key-stored_example =
    increase_key-stored memcache count_client-StoresHits (text "k") (some ten_per_minute) 3
      empty_servers (text "k")
