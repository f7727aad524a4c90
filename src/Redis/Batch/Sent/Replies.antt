-- ===== src/Redis/Batch/Sent/Replies.antt =====
-- The replies to a batch and the results that they are written to (src/redis/fixed_cache_impl.go).
use api_ratelimit.Common.{
  if◌then◌else◌, Bool-cases, length, replicate, set, GoString, ℕ, suc, ◌+◌, ◌≡◌, refl, ap, ◌∙◌, inl,
  inr, Bool, true, false, List, [], ◌∷◌,
}
use api_ratelimit.Request.{Descriptor}
use api_ratelimit.Config.Limit.{RateLimit}
use api_ratelimit.Redis.Driver.{Replies}
use api_ratelimit.Redis.FixedCache.{assign}
use api_ratelimit.Limiter.Batch.{Stores, bump_at, store_of, key_of, BatchItem, free, limited}
use api_ratelimit.Redis.Batch.Prepared.{same}

module _ (prefix domain : GoString) (now : ℕ) (dedicated : Bool) (hits : ℕ) where
  abbrev pub key_at : RateLimit → Descriptor → GoString
  key_at = key_of prefix domain now

  -- The stores after one item.
  abbrev pub counted : Stores → RateLimit → Descriptor → Stores
  counted stores l d = bump_at stores (store_of dedicated l) (key_at l d) hits

  abbrev pub count_of : Stores → RateLimit → Descriptor → ℕ
  count_of stores l d = stores (store_of dedicated l) (key_at l d) + hits

  -- The replies of one server, to the receivers from index `i` on.
  unfoldable pub replies : Bool → ℕ → Stores → List BatchItem → Replies
  replies c i stores [] = []
  replies c i stores (free d ∷ is) = replies c (suc i) stores is
  replies c i stores (limited d l ∷ is) =
      let rest = replies c (suc i) (counted stores l d) is in
      if same (store_of dedicated l) c then (i, count_of stores l d) ∷ rest else rest

  -- The counts that the statuses are made of; a descriptor without a limit has none.
  unfoldable pub results : Stores → List BatchItem → List ℕ
  results stores [] = []
  results stores (free d ∷ is) = 0 ∷ results stores is
  results stores (limited d l ∷ is) = count_of stores l d ∷ results (counted stores l d) is

  replies_here :
      (c : Bool) (i : ℕ) (stores : Stores) (d : Descriptor) (l : RateLimit) (is : List BatchItem)
      → same (store_of dedicated l) c ≡ true
      → replies c i stores (limited d l ∷ is)
        ≡ (i, count_of stores l d) ∷ replies c (suc i) (counted stores l d) is
  unfolding replies
  replies_here c i stores d l is h = rw (replies, h) refl

  replies_elsewhere :
      (c : Bool) (i : ℕ) (stores : Stores) (d : Descriptor) (l : RateLimit) (is : List BatchItem)
      → same (store_of dedicated l) c ≡ false
      → replies c i stores (limited d l ∷ is) ≡ replies c (suc i) (counted stores l d) is
  unfolding replies
  replies_elsewhere c i stores d l is h = rw (replies, h) refl

  assign_later :
      (c : Bool) (i x : ℕ) (xs : List ℕ) (stores : Stores) (is : List BatchItem)
      → assign (replies c (suc i) stores is) (x ∷ xs) ≡ x ∷ assign (replies c i stores is) xs
  unfolding assign replies
  assign_later c i x xs stores [] = refl
  assign_later c i x xs stores (free d ∷ is) = assign_later c (suc i) x xs stores is
  assign_later c i x xs stores (limited d l ∷ is) =
      elim (Bool-cases (same (store_of dedicated l) c)) [
        | inl e ↦
            rw e (assign_later c (suc i) x (set xs i (count_of stores l d)) (counted stores l d) is)
        | inr e ↦ rw e (assign_later c (suc i) x xs (counted stores l d) is)
      ]

  -- The replies of both servers, written one after the other.
  abbrev pub written : Stores → List BatchItem → List ℕ → List ℕ
  written stores is xs = assign (replies true 0 stores is) (assign (replies false 0 stores is) xs)

  written_later :
      (x : ℕ) (xs : List ℕ) (stores : Stores) (is : List BatchItem)
      → assign (replies true 1 stores is) (assign (replies false 1 stores is) (x ∷ xs))
        ≡ x ∷ written stores is xs
  written_later x xs stores is =
      ap (assign (replies true 1 stores is)) (assign_later false 0 x xs stores is)
      ∙ assign_later true 0 x (assign (replies false 0 stores is) xs) stores is

  written_second :
      (x : ℕ) (xs : List ℕ) (stores : Stores) (d : Descriptor) (l : RateLimit) (is : List BatchItem)
      → store_of dedicated l ≡ true
      → written stores (limited d l ∷ is) (x ∷ xs)
        ≡ count_of stores l d ∷ written (counted stores l d) is xs
  unfolding assign
  written_second x xs stores d l is e =
      let v = count_of stores l d in
      let after = counted stores l d in
      rw
        (
          replies_here true 0 stores d l is (ap (λ b. same b true) e),
          replies_elsewhere false 0 stores d l is (ap (λ b. same b false) e),
        )
        (ap (assign ((0, v) ∷ replies true 1 after is)) (assign_later false 0 x xs after is)
          ∙ assign_later true 0 v (assign (replies false 0 after is) xs) after is)

  written_first :
      (x : ℕ) (xs : List ℕ) (stores : Stores) (d : Descriptor) (l : RateLimit) (is : List BatchItem)
      → store_of dedicated l ≡ false
      → written stores (limited d l ∷ is) (x ∷ xs)
        ≡ count_of stores l d ∷ written (counted stores l d) is xs
  unfolding assign
  written_first x xs stores d l is e =
      rw
        (
          replies_elsewhere true 0 stores d l is (ap (λ b. same b true) e),
          replies_here false 0 stores d l is (ap (λ b. same b false) e),
        )
        (written_later (count_of stores l d) xs (counted stores l d) is)

  written_item :
      (x : ℕ) (xs : List ℕ) (stores : Stores) (d : Descriptor) (l : RateLimit) (is : List BatchItem)
      → written stores (limited d l ∷ is) (x ∷ xs)
        ≡ count_of stores l d ∷ written (counted stores l d) is xs
  written_item x xs stores d l is = elim (Bool-cases (store_of dedicated l)) [
    | inl e ↦ written_second x xs stores d l is e
    | inr e ↦ written_first x xs stores d l is e
  ]

  pub written-results :
      (stores : Stores) (is : List BatchItem)
      → written stores is (replicate (length is) 0) ≡ results stores is
  unfolding assign replies results
  written-results stores [] = refl
  written-results stores (free d ∷ is) =
      written_later 0 (replicate (length is) 0) stores is
      ∙ ap (λ x. 0 ∷ x) (written-results stores is)
  written-results stores (limited d l ∷ is) =
      written_item 0 (replicate (length is) 0) stores d l is
      ∙ ap (λ x. count_of stores l d ∷ x) (written-results (counted stores l d) is)
