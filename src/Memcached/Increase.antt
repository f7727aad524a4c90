-- ===== src/Memcached/Increase.antt =====
-- What an increase leaves on the servers (src/memcached/cache_impl.go, increaseAsync).
use api_ratelimit.Common.Strings.{format_uint}
use api_ratelimit.Common.{
  if◌then◌else◌, Option-cases, GoString, ◌==◌, eq_iff, lift, ◌>>=◌, Outcome, returns, panics, ℕ,
  ◌+◌, ◌≡◌, ap, ◌∙◌, inl, inr, Option, none, some, arith,
}
use api_ratelimit.Config.Limit.{RateLimit}
use api_ratelimit.Memcached.{
  call, expiration_seconds, after_add, after_increment, increase_key, Failure, cache_miss,
  not_stored, other_failure, Client, State, MemcacheImpl,
}

-- What the library says of the hits of this process that are stored under a key: `Increment` and
-- `Add` store their number where they return no error, and change nothing where they return one.
-- Other processes may write between the calls.
pub record StoresHits {M : Type 0} (client : Client M) : Type 0 where
  pub stored : M → GoString → ℕ
  pub incremented :
      (k : GoString) (n : ℕ) (m : M) (j : GoString)
      → (client.increment k n m).0 ≡ none
      → stored (client.increment k n m).1 j ≡ (if k == j then stored m k + n else stored m j)
  pub not_incremented :
      (k : GoString) (n : ℕ) (m : M) (j : GoString) (e : Failure)
      → (client.increment k n m).0 ≡ some e
      → stored (client.increment k n m).1 j ≡ stored m j
  pub added :
      (k : GoString) (n t : ℕ) (m : M) (j : GoString)
      → (client.add_item (record { key = k; value = format_uint n; expiration = t }) m).0 ≡ none
      → stored (client.add_item (record { key = k; value = format_uint n; expiration = t }) m).1 j
        ≡ (if k == j then stored m k + n else stored m j)
  pub not_added :
      (k : GoString) (n t : ℕ) (m : M) (j : GoString) (e : Failure)
      → (client.add_item (record { key = k; value = format_uint n; expiration = t }) m).0 ≡ some e
      → stored (client.add_item (record { key = k; value = format_uint n; expiration = t }) m).1 j
        ≡ stored m j

-- What a call with the key `key` adds under `j`: its hits if it ends with no error.
unfoldable pub grown : GoString → GoString → ℕ → Outcome (Option Failure) → ℕ
grown key j hits (returns none) = if key == j then hits else 0
grown key j hits _ = 0

module _ {L F M : Type 0} (this : MemcacheImpl L F M) (law : StoresHits this.client) where
  increment-stored :
      (key : GoString) (hits : ℕ) (m : M) (j : GoString)
      → law.stored (this.client.increment key hits m).1 j
        ≡ law.stored m j + grown key j hits (returns (this.client.increment key hits m).0)
  unfolding grown
  increment-stored key hits m j = elim (Option-cases (this.client.increment key hits m).0) [
    | inl e ↦ ground (arith, e, law.incremented key hits m j e, eq_iff key j)
    | inr (x, e) ↦ ground (arith, e, law.not_incremented key hits m j x e)
  ]

  add_item-stored :
      (key : GoString) (hits t : ℕ) (m : M) (j : GoString)
      → (let (failure, m') =
            this.client.add_item
              (record { key = key; value = format_uint hits; expiration = t })
              m in
          law.stored m' j ≡ law.stored m j + grown key j hits (returns failure))
  unfolding grown
  add_item-stored key hits t m j =
      elim (Option-cases
        (this.client.add_item (record { key = key; value = format_uint hits; expiration = t })
          m).0) [
            | inl e ↦ ground (arith, e, law.added key hits t m j e, eq_iff key j)
            | inr (x, e) ↦ ground (arith, e, law.not_added key hits t m j x e)
          ]

  after_add-stored :
      (key : GoString) (hits : ℕ) (failure : Option Failure) (s : State L M) (j : GoString) (n : ℕ)
      → law.stored s.server j ≡ n + grown key j hits (returns failure)
      → (let (answer, s') = after_add this key hits failure s in
          law.stored s'.server j ≡ n + grown key j hits answer)
  unfolding after_add grown
  after_add-stored key hits (some not_stored) s j n h =
      omega (arith, increment-stored key hits s.server j, h)
  after_add-stored key hits (some cache_miss) s j n h = h
  after_add-stored key hits (some other_failure) s j n h = h
  after_add-stored key hits none s j n h = h

  added-stored :
      (key : GoString) (hits : ℕ) (o : Outcome ℕ) (s : State L M) (j : GoString) (n : ℕ)
      → law.stored s.server j ≡ n
      → (let (answer, s') =
            (lift o >>= λ expiration. do
              stored ← call (
                  this.client.add_item
                    (record { key = key; value = format_uint hits; expiration = expiration }))
              after_add this key hits stored)
              s in
          law.stored s'.server j ≡ n + grown key j hits answer)
  unfolding grown
  added-stored key hits (panics p) s j n h = omega (arith, h)
  added-stored key hits (returns t) s j n h =
      let (failure, m) =
        this.client.add_item (record { key = key; value = format_uint hits; expiration = t })
          s.server in
      after_add-stored key hits failure (record s { server = m }) j n
        (add_item-stored key hits t s.server j ∙ ap (λ x. x + grown key j hits (returns failure)) h)

  after_increment-stored :
      (key : GoString) (l : Option RateLimit) (hits : ℕ) (failure : Option Failure) (s : State L M)
      (j : GoString) (n : ℕ)
      → law.stored s.server j ≡ n + grown key j hits (returns failure)
      → (let (answer, s') = after_increment this key l hits failure s in
          law.stored s'.server j ≡ n + grown key j hits answer)
  unfolding after_increment grown
  after_increment-stored key l hits (some not_stored) s j n h = h
  after_increment-stored key l hits (some other_failure) s j n h = h
  after_increment-stored key l hits none s j n h = h
  after_increment-stored key none hits (some cache_miss) s j n h = h
  after_increment-stored key (some limit) hits (some cache_miss) s j n h =
      let (o, w) = expiration_seconds this limit s.world in
      added-stored key hits o (record s { world = w }) j n (omega (arith, h))

  -- Where the calls of the client store their hits when they return no error, and nothing when they
  -- return one: the hits stored under any key grow by those of the call if it ends with no logged
  -- error and its key is that key, and otherwise stay.
  pub increase_key-stored :
      (key : GoString) (l : Option RateLimit) (hits : ℕ) (s : State L M) (j : GoString)
      → (let (answer, s') = increase_key this key l hits s in
          law.stored s'.server j ≡ law.stored s.server j + grown key j hits answer)
  unfolding increase_key
  increase_key-stored key l hits s j =
      let (failure, m) = this.client.increment key hits s.server in
      after_increment-stored key l hits failure (record s { server = m }) j (law.stored s.server j)
        (increment-stored key hits s.server j)
