-- ===== src/Memcached/Fetch.antt =====
-- What `DoLimit` of src/memcached/cache_impl.go reads for a batch of descriptors.
use api_ratelimit.Common.{
  if◌then◌else◌, any, GoString, ◌==◌, Go, pure, returns, Dict, lookup, ℕ, ◌<◌, ◌≡◌, refl, sym, ap,
  Bool, true, false, ◌||◌, Option, none, some, List, [], ◌∷◌, map,
}
use api_ratelimit.Limiter.{World}
use api_ratelimit.Limiter.CacheKey.{is_per_second_limit, CacheKey}
use api_ratelimit.Limiter.Decision.{nil_cache}
use api_ratelimit.Limiter.Batch.{
  IsLong, long_key, key_of, cache_key_of, key_of-IsLong, BatchItem, free, limited,
}
use api_ratelimit.Memcached.{
  is_over, over_flags, keys_to_get, fetch, count_before, Job, State, MemcacheImpl,
}

abbrev pub int32_mod : ℕ
int32_mod = 2147483648

-- A value that the client found, or did not find, where `n` hits are stored.
abbrev pub IsRead : (GoString → Option ℕ) → Option GoString → ℕ → Type 0
IsRead parse none n = n ≡ 0
IsRead parse (some raw) n = parse raw ≡ some n

-- What the libraries say of `GetMulti` and of `strconv.ParseInt` with 32 bits: for the keys that are
-- asked for there is what is stored, readable where it is below 2^31, and nothing is stored.
pub record Reads {L F M : Type 0} (this : MemcacheImpl L F M) (stored : M → GoString → ℕ)
    : Type 0 where
  pub read :
      (ks : List GoString) (m : M) (k : GoString)
      → any (λ j. j == k) ks ≡ true
      → stored m k < int32_mod
      → IsRead this.parse_value (lookup k (this.client.get_multi ks m).0.0) (stored m k)
  pub kept : (ks : List GoString) (m : M) → stored (this.client.get_multi ks m).1 ≡ stored m

abbrev pub not_over : BatchItem → Bool
not_over i = false

pub no_flush_lem :
    {S : Type 0} (b : Bool) (m : Go S (Unit {0})) (s : S)
    → b ≡ false
    → (if b then m else pure tt) s ≡ (returns tt, s)
no_flush_lem b m s h = rw h refl

true_absurd : false ≡ true → ⊥
true_absurd e = cc

pub or_true : (a : Bool) {b : Bool} → b ≡ true → (a || b) ≡ true
or_true true h = refl
or_true false h = h

module _ {L F M : Type 0} (this : MemcacheImpl L F M) (stored : M → GoString → ℕ)
    (law : Reads this stored) (domain : GoString) where
  abbrev pub keys : ℕ → List BatchItem → List CacheKey
  keys now items = map (cache_key_of this.base.prefix domain now) items

  -- The keys of the limits.
  unfoldable pub wanted : ℕ → List BatchItem → List GoString
  wanted now [] = []
  wanted now (free d ∷ is) = wanted now is
  wanted now (limited d l ∷ is) = key_of this.base.prefix domain now l d ∷ wanted now is

  abbrev pub state : World L → M → List Job → State L M
  state w m pending = record { world = w; server = m; pending = pending }

  is_over-long :
      (key : GoString) (b : Bool) (w : World L) (m : M) (js : List Job)
      → IsLong key
      → w.local ≡ none
      → is_over this (record { key = key; per_second = b }) (state w m js)
        ≡ (returns false, state w m js)
  unfolding is_over ◌==◌
  is_over-long key b w m js (c, k, e) h = rw (e, nil_cache this.base (c ∷ k) w h) refl

  pub over_flags-batch :
      (now : ℕ) (items : List BatchItem) (w : World L) (m : M) (js : List Job)
      → w.local ≡ none
      → over_flags this (keys now items) (state w m js)
        ≡ (returns (map not_over items), state w m js)
  unfolding over_flags is_over ◌==◌
  over_flags-batch now [] w m js h = refl
  over_flags-batch now (free d ∷ is) w m js h = rw (over_flags-batch now is w m js h) refl
  over_flags-batch now (limited d l ∷ is) w m js h =
      rw
        (is_over-long (key_of this.base.prefix domain now l d) (is_per_second_limit l.limit.unit) w
          m js (key_of-IsLong this.base.prefix domain now l d) h)
        (rw (over_flags-batch now is w m js h) refl)

  pub keys_to_get-batch :
      (now : ℕ) (items : List BatchItem)
      → keys_to_get this (keys now items) (map not_over items) ≡ wanted now items
  unfolding keys_to_get wanted ◌==◌
  keys_to_get-batch now [] = refl
  keys_to_get-batch now (free d ∷ is) = keys_to_get-batch now is
  keys_to_get-batch now (limited d l ∷ is) =
      rw (long_key _ (key_of-IsLong this.base.prefix domain now l d))
        (ap (λ x. key_of this.base.prefix domain now l d ∷ x) (keys_to_get-batch now is))

  -- The values of a fetch, and the servers after it.
  pub record Fetched (ks : List GoString) (w : World L) (m : M) (js : List Job) : Type 0 where
    pub values : Dict GoString
    pub server : M
    pub fetched : fetch this ks (state w m js) ≡ (returns values, state w server js)
    pub known :
        (k : GoString) → any (λ j. j == k) ks ≡ true → count_before this values k ≡ stored m k
    pub kept_server : stored server ≡ stored m

  count-IsRead :
      (values : Dict GoString) (k : GoString) (n : ℕ)
      → IsRead this.parse_value (lookup k values) n
      → count_before this values k ≡ n
  unfolding count_before
  count-IsRead values k n h = go (lookup k values) refl h
    where
      go :
          (o : Option GoString)
          → lookup k values ≡ o
          → IsRead this.parse_value o n
          → count_before this values k ≡ n
      go none e g = rw (count_before, e) (sym g)
      go (some raw) e g = rw (count_before, e, g) refl

  pub fetch-Fetched :
      (ks : List GoString) (w : World L) (m : M) (js : List Job)
      → ((k : GoString) → stored m k < int32_mod)
      → Fetched ks w m js
  unfolding fetch
  fetch-Fetched [] w m js small = record {
    values = [];
    server = m;
    fetched = refl;
    known = λ k h. absurd (true_absurd h);
    kept_server = refl;
  }
  fetch-Fetched (k ∷ ks) w m js small = record {
    values = (this.client.get_multi (k ∷ ks) m).0.0;
    server = (this.client.get_multi (k ∷ ks) m).1;
    fetched = refl;
    known = λ j h. count-IsRead _ j (stored m j) (law.read (k ∷ ks) m j h (small j));
    kept_server = law.kept (k ∷ ks) m;
  }
