-- ===== src/Redis/Single.antt =====
-- What the driver library and the server say of INCRBY and EXPIRE, the commands that
-- src/redis/fixed_cache_impl.go sends for one key.
use api_ratelimit.Common.{
  if◌then◌else◌, GoString, ◌==◌, returns, ℕ, ◌+◌, ◌≤◌, ◌<◌, ◌≡◌, [], ◌∷◌, arith,
}
use api_ratelimit.Utils.{uint32_mod}
use api_ratelimit.Redis.Driver.{do_each, incrby, expire, Radix}

-- What the server says of INCRBY and EXPIRE: the count of a key grows by the amount, and the reply is
-- the new count, as long as it fits the receiver. `count` is read at most `span` seconds after an
-- EXPIRE, which keeps the counts if it gives the key at least that time.
pub record CountsKeys {R : Type 0} (radix : Radix R) : Type 0 where
  pub span : ℕ
  pub count : R → GoString → ℕ
  pub incrby_reply :
      (i : ℕ) (k : GoString) (n : ℕ) (r : R)
      → count r k + n < uint32_mod
      → (radix.run (incrby i k n) r).0 ≡ returns ((i, count r k + n) ∷ [])
  pub incrby_count :
      (i : ℕ) (k : GoString) (n : ℕ) (r : R) (j : GoString)
      → count (radix.run (incrby i k n) r).1 j ≡ (if k == j then count r k + n else count r j)
  pub expire_reply : (k : GoString) (t : ℕ) (r : R) → (radix.run (expire k t) r).0 ≡ returns []
  pub expire_count :
      (k : GoString) (t : ℕ) (r : R) (j : GoString)
      → span ≤ t
      → count (radix.run (expire k t) r).1 j ≡ count r j

module _ {R : Type 0} (radix : Radix R) (law : CountsKeys radix) where
  -- INCRBY and EXPIRE of one key, one after the other.
  pub do_each-increment :
      (i : ℕ) (k : GoString) (n t : ℕ) (r : R)
      → law.count r k + n < uint32_mod
      → (do_each radix (incrby i k n ∷ expire k t ∷ []) r).0 ≡ returns ((i, law.count r k + n) ∷ [])
  unfolding do_each
  do_each-increment i k n t r fits =
      ground
        (arith, law.incrby_reply i k n r fits, law.expire_reply k t (radix.run (incrby i k n) r).1)

  pub count-do_each :
      (i : ℕ) (k : GoString) (n t : ℕ) (r : R) (j : GoString)
      → law.count r k + n < uint32_mod
      → law.span ≤ t
      → law.count (do_each radix (incrby i k n ∷ expire k t ∷ []) r).1 j
        ≡ (if k == j then law.count r k + n else law.count r j)
  unfolding do_each
  count-do_each i k n t r j fits long = ground (
    arith,
    law.incrby_reply i k n r fits,
    law.incrby_count i k n r j,
    law.expire_reply k t (radix.run (incrby i k n) r).1,
    law.expire_count k t (radix.run (incrby i k n) r).1 j long,
  )
