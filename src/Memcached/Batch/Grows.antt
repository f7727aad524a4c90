-- ===== src/Memcached/Batch/Grows.antt =====
-- What the job that a request leaves behind stores (src/memcached/cache_impl.go, increaseAsync).
use api_ratelimit.Memcached.Fetch.{not_over, keys, Reads}
use api_ratelimit.Memcached.Increase.{grown, increase_key-stored, StoresHits}
use api_ratelimit.Common.Strings.{format_uint}
use api_ratelimit.Common.{
  ltb, Bool-cases, All, GoString, ◌==◌, Outcome, returns, ℕ, ◌+◌, ◌%◌, ◌≡◌, refl, ap, ◌∙◌, inl, inr,
  Option, none, some, List, [], ◌∷◌, map, arith,
}
use api_ratelimit.Utils.{unit_to_divider, uint32_mod}
use api_ratelimit.Config.Limit.{RateLimit}
use api_ratelimit.Limiter.{int63n, World}
use api_ratelimit.Limiter.Batch.{
  limit_of, window, Known, long_key, key_of, key_of-IsLong, BatchItem, free, limited,
}
use api_ratelimit.Memcached.{
  expiration_seconds, after_add, after_increment, increase_key, increase, Failure, cache_miss,
  not_stored, other_failure, State, MemcacheImpl,
}

-- The call ends with an answer, and so with no panic.
abbrev pub Returns : {A S : Type 0} → Outcome A × S → Type 0
Returns {A} o = (a : A) × (o.0 ≡ returns a)

module _ {L F M : Type 0} (this : MemcacheImpl L F M) where
  expiration-Returns :
      (l : RateLimit) (w : World L)
      → unit_to_divider l.limit.unit ≡ returns (window l)
      → Returns (expiration_seconds this l w)
  unfolding expiration_seconds int63n
  expiration-Returns l w h = elim (Bool-cases (ltb 0 this.base.expiration_jitter_max_seconds)) [
    | inl e ↦ (
      (window l + w.jitter 0 % this.base.expiration_jitter_max_seconds) % uint32_mod,
      rw (h, e) refl,
    )
    | inr e ↦ ((window l + 0) % uint32_mod, rw (h, e) refl)
  ]

  after_add-Returns :
      (key : GoString) (hits : ℕ) (failure : Option Failure) (s : State L M)
      → Returns (after_add this key hits failure s)
  unfolding after_add
  after_add-Returns key hits (some not_stored) s = (_, refl)
  after_add-Returns key hits (some cache_miss) s = (_, refl)
  after_add-Returns key hits (some other_failure) s = (_, refl)
  after_add-Returns key hits none s = (_, refl)

  after_increment-Returns :
      (key : GoString) (l : RateLimit) (hits : ℕ) (failure : Option Failure) (s : State L M)
      → unit_to_divider l.limit.unit ≡ returns (window l)
      → Returns (after_increment this key (some l) hits failure s)
  unfolding after_increment
  after_increment-Returns key l hits (some not_stored) s h = (_, refl)
  after_increment-Returns key l hits (some other_failure) s h = (_, refl)
  after_increment-Returns key l hits none s h = (_, refl)
  after_increment-Returns key l hits (some cache_miss) s h =
      let (t, e) = expiration-Returns l s.world h in
      let (failure, m) =
        this.client.add_item (record { key = key; value = format_uint hits; expiration = t })
          s.server in
      let later = (expiration_seconds this l s.world).1 in
      let (answer, f) =
        after_add-Returns key hits failure (record s { server = m; world = later }) in
      (answer, rw e f)

  increase_key-Returns :
      (key : GoString) (l : RateLimit) (hits : ℕ) (s : State L M)
      → unit_to_divider l.limit.unit ≡ returns (window l)
      → Returns (increase_key this key (some l) hits s)
  unfolding increase_key
  increase_key-Returns key l hits s h =
      let (failure, m) = this.client.increment key hits s.server in
      after_increment-Returns key l hits failure (record s { server = m }) h

-- What a job adds under `j`: the hits of each limit whose key is `j` and whose call logs no error.
unfoldable pub all_grown :
    GoString → GoString → ℕ → ℕ → List BatchItem → List (Option Failure) → GoString → ℕ
all_grown prefix domain now hits (free d ∷ is) (a ∷ rest) j =
    all_grown prefix domain now hits is rest j
all_grown prefix domain now hits (limited d l ∷ is) (a ∷ rest) j =
    grown (key_of prefix domain now l d) j hits (returns a)
    + all_grown prefix domain now hits is rest j
all_grown prefix domain now hits _ _ j = 0

sum_lem : (a b c x y : ℕ) → x ≡ a + b → y ≡ x + c → y ≡ a + (b + c)
sum_lem a b c x y h g = omega (arith, h, g)

module _ {L F M : Type 0} (this : MemcacheImpl L F M) (law : StoresHits this.client)
    (reads : Reads this law.stored) (domain : GoString) (now hits : ℕ) where
  abbrev pub increase_batch :
      List BatchItem → State L M → Outcome (List (Option Failure)) × State L M
  increase_batch items s =
      increase this (keys this law.stored reads domain now items) (map not_over items)
        (map limit_of items) hits s

  -- On servers that store nothing where a call of the client fails, and the hits of one that does not
  -- (`law`), and a client that reads counts below 2^31 as they are stored (`reads`): the job of a batch
  -- whose limits have known units ends with no panic, whichever of its calls fail, and the hits stored
  -- under each key grow by those of the calls for it that log no error.
  pub increase-grown :
      (items : List BatchItem) (s : State L M) (j : GoString)
      → All Known items
      → (answers : List (Option Failure)) × ((increase_batch items s).0 ≡ returns answers)
        × (law.stored (increase_batch items s).1.server j
            ≡ law.stored s.server j + all_grown this.base.prefix domain now hits items answers j)
  unfolding increase all_grown ◌==◌
  increase-grown [] s j known = ([], refl, omega arith)
  increase-grown (free d ∷ is) s j (known, rest) =
      let (answers, e, g) = increase-grown is s j rest in (none ∷ answers, rw e refl, rw e g)
  increase-grown (limited d l ∷ is) s j ((unit_known, fits), rest) =
      let k = key_of this.base.prefix domain now l d in
      let (a, e) = increase_key-Returns this k l hits s unit_known in
      let s₁ = (increase_key this k (some l) hits s).1 in
      let (answers, f, g) = increase-grown is s₁ j rest in
      let whole : increase_batch (limited d l ∷ is) s
          ≡ (returns (a ∷ answers), (increase_batch is s₁).1) =
        rw (long_key k (key_of-IsLong this.base.prefix domain now l d), e, f) refl in
      let one = increase_key-stored this law k (some l) hits s j in
      (
        a ∷ answers,
        ap (λ x. x.0) whole,
        ap (λ x. law.stored x.1.server j) whole
            ∙ sum_lem (law.stored s.server j) (grown k j hits (returns a))
                (all_grown this.base.prefix domain now hits is answers j) (law.stored s₁.server j)
                (law.stored (increase_batch is s₁).1.server j)
                (one ∙ ap (λ x. law.stored s.server j + grown k j hits x) e) g,
      )
