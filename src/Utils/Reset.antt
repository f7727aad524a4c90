-- ===== src/Utils/Reset.antt =====
-- The time until a window ends (src/utils/utilities.go, CalculateReset).
use api_ratelimit.Common.{Go, returns, ℕ, ◌+◌, ◌-◌, ◌%◌, ◌≤◌, ◌<◌, ◌≡◌, refl, arith}
use api_ratelimit.Utils.{
  unit_to_divider, calculate_reset, LimitUnit, unknown, second, minute, hour, day, other,
}

end_of_window :
    (u : LimitUnit) (d t : ℕ)
    → unit_to_divider u ≡ returns d
    → (0 < d - t % d) × (d - t % d ≤ d) × ((t + (d - t % d)) % d ≡ 0)
unfolding unit_to_divider
end_of_window second d t h = ground arith
end_of_window minute d t h = ground arith
end_of_window hour d t h = ground arith
end_of_window day d t h = ground arith
end_of_window unknown d t h = absurd (ground (arith, h))
end_of_window (other n) d t h = absurd (ground (arith, h))

-- For a unit with a divider and a clock that reads `t`, the reset is a positive number of seconds of at
-- most the divider, and `t` plus the reset is the start of a window.
pub calculate_reset_window :
    {S : Type 0} (u : LimitUnit) (d t : ℕ) (unix_now : Go S ℕ) (s s' : S)
    → unit_to_divider u ≡ returns d
    → unix_now s ≡ (returns t, s')
    → (r : ℕ) × (calculate_reset u unix_now s ≡ (returns r, s'))
      × (0 < r)
      × (r ≤ d)
      × ((t + r) % d ≡ 0)
unfolding calculate_reset
calculate_reset_window u d t unix_now s s' h e =
    let (positive, bounded, at_start) = end_of_window u d t h in
    (d - t % d, rw (h, e) refl, positive, bounded, at_start)
