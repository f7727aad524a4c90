-- ===== src/Redis/Batch/Sent/Room.antt =====
-- Counters within 32 bits while a batch is counted.
use api_ratelimit.Common.{
  Bool-cases, length, GoString, ◌==◌, ℕ, suc, ◌+◌, ◌*◌, ◌<◌, inl, inr, Bool, true, false, List, ◌∷◌,
  arith,
}
use api_ratelimit.Utils.{uint32_mod}
use api_ratelimit.Limiter.Batch.{Counts, bump, Stores, bump_at, BatchItem}

module _ (hits : ℕ) where
  -- There is room for the hits of every item at every key.
  abbrev pub HasRoom : Stores → List BatchItem → Type 0
  HasRoom stores items = (b : Bool) (j : GoString) → stores b j + length items * hits < uint32_mod

  pub room_now : (a n : ℕ) → a + suc n * hits < uint32_mod → a + hits < uint32_mod
  room_now a n h = grind arith

  room_rest : (a n : ℕ) → a + suc n * hits < uint32_mod → a + n * hits < uint32_mod
  room_rest a n h = grind arith

  room_bumped : (a n : ℕ) → a + suc n * hits < uint32_mod → (a + hits) + n * hits < uint32_mod
  room_bumped a n h = grind arith

  pub rest-HasRoom :
      (stores : Stores) (i : BatchItem) (is : List BatchItem)
      → HasRoom stores (i ∷ is)
      → HasRoom stores is
  rest-HasRoom stores i is h b j = room_rest (stores b j) (length is) (h b j)

  bump_lem :
      (counts : Counts) (k : GoString) (n : ℕ)
      → ((j : GoString) → counts j + suc n * hits < uint32_mod)
      → (j : GoString) → bump counts k hits j + n * hits < uint32_mod
  bump_lem counts k n h j = elim (Bool-cases (k == j)) [
    | inl e ↦ rw e (room_bumped (counts k) n (h k))
    | inr e ↦ rw e (room_rest (counts j) n (h j))
  ]

  pub bump_at-HasRoom :
      (stores : Stores) (b : Bool) (k : GoString) (i : BatchItem) (is : List BatchItem)
      → HasRoom stores (i ∷ is)
      → HasRoom (bump_at stores b k hits) is
  bump_at-HasRoom stores true k i is h true j = bump_lem (stores true) k (length is) (h true) j
  bump_at-HasRoom stores true k i is h false j = rest-HasRoom stores i is h false j
  bump_at-HasRoom stores false k i is h true j = rest-HasRoom stores i is h true j
  bump_at-HasRoom stores false k i is h false j = bump_lem (stores false) k (length is) (h false) j
