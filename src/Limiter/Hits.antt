-- ===== src/Limiter/Hits.antt =====
-- The hits of a request counted one at a time: with `before` hits in the window, the hits of a
-- request of size `n` are the hits number before + 1, ..., before + n of the window.
use Prim.Native.Nat.add
use api_ratelimit.Common.{
  ltb, leb, if◌then◌else◌, ℕ, zero, suc, ◌+◌, ◌-◌, ◌≤◌, ◌≡◌, Bool, ◌&&◌, arith,
}

unfoldable pub count_hits : (ℕ → Bool) → ℕ → ℕ → ℕ
count_hits p before zero = 0
count_hits p before (suc n) = (if p (before + suc n) then 1 else 0) + count_hits p before n

-- A hit above the limit.
abbrev pub is_over : ℕ → ℕ → Bool
is_over limit i = ltb limit i

-- A hit above the near threshold and not above the limit.
abbrev pub is_near : ℕ → ℕ → ℕ → Bool
is_near threshold limit i = ltb threshold i && leb i limit

pub count-over : (limit before n : ℕ) → count_hits (is_over limit) before n ≡ n - (limit - before)
unfolding count_hits
count-over limit before zero = omega arith
count-over limit before (suc n) = ground (arith, count-over limit before n)

pub count-near :
    (threshold limit before n : ℕ)
    → threshold ≤ limit
    → count_hits (is_near threshold limit) before n
      ≡ (n - (threshold - before)) - (n - (limit - before))
unfolding count_hits
count-near threshold limit before zero h = omega arith
count-near threshold limit before (suc n) h = ground (arith, count-near threshold limit before n)

add_swap : (a m n : ℕ) → a + suc (n + m) ≡ (a + m) + suc n
add_swap a m n = omega arith

-- A batch of hits is counted like its parts, one after the other.
pub count_hits-add :
    (p : ℕ → Bool) (before m n : ℕ)
    → count_hits p before (n + m) ≡ count_hits p before m + count_hits p (before + m) n
unfolding count_hits
count_hits-add p before m zero = rw (add.zero m) (omega arith)
count_hits-add p before m (suc n) =
    rw (add.suc n m, add_swap before m n) (omega (arith, count_hits-add p before m n))
