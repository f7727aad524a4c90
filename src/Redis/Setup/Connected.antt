-- ===== src/Redis/Setup/Connected.antt =====
-- The clients that come of the settings, and PING (src/redis/driver_impl.go, src/redis/cache_impl.go).
use mathlib.Core.Path.{subst}
use api_ratelimit.Common.{
  Bool-cases, All, GoString, text, ◌==◌, eq_sound, and_then-returns, Outcome, returns, panics, ◌≡◌,
  refl, ap, ◌∙◌, inl, inr, Bool, true, false, List, [], ◌∷◌, ◌++◌, arith,
}
use api_ratelimit.Srv.{Result, found, failed}
use api_ratelimit.Limiter.{BaseRateLimiter}
use api_ratelimit.Redis.Driver.{implicit_pipelining, choose_client, ClientImpl}
use api_ratelimit.Redis.FixedCache.{has_client, FixedCache}
use api_ratelimit.Redis.Setup.{
  pool_options, check_error, check_pong, after_ping, after_connect, after_choice, new_client_impl,
  new_per_second, first_client, with_clients, with_per_second, new_cache_from_settings, Answers,
  PoolSettings, RadixLibrary,
}

module _ {R : Type 0} (library : RadixLibrary R) where
  as_found : {A : Type 0} → Outcome A → Result A
  as_found (returns a) = found a
  as_found (panics p) = failed []

  check_error-returns :
      {A : Type 0} (r : Result A) {a : A} → check_error r ≡ returns a → r ≡ found a
  unfolding as_found
  check_error-returns (found b) h = ap as_found h
  check_error-returns (failed e) h = cc

  or_else : {A : Type 0} → A → Outcome A → A
  or_else d (returns a) = a
  or_else d (panics p) = d

  check_pong-returns :
      (reply : GoString) {u : Unit {0}} → check_pong library reply ≡ returns u → reply ≡ text "PONG"
  check_pong-returns reply h = elim (Bool-cases (reply == text "PONG")) [
    | inl e ↦ eq_sound reply (text "PONG") e
    | inr e ↦ ground (arith, e, h)
  ]

  client-Answers :
      (s : PoolSettings) (c : ClientImpl R)
      → new_client_impl library s ≡ returns c
      → Answers library c
  unfolding new_client_impl or_else
  client-Answers s c h =
      let chosen = choose_client s.redis_type s.url s.pipeline_window s.pipeline_limit in
      let (kind, h₁, g₁) = and_then-returns chosen (after_choice library s) h in
      let connected = library.connect kind s.socket_type s.url (pool_options s) in
      let (radix, h₂, g₂) = and_then-returns (check_error connected) (after_connect library s) g₁ in
      let (reply, h₃, g₃) =
        and_then-returns (check_error (library.ping radix)) (after_ping library s radix) g₂ in
      let (u, h₄, g₄) =
        and_then-returns (check_pong library reply)
          (λ u. returns (record {
            radix = radix;
            implicit_pipelining = implicit_pipelining s.pipeline_window s.pipeline_limit;
          }))
          g₃ in
      subst (Answers library) (ap (or_else c) g₄)
        (check_error-returns (library.ping radix) h₃ ∙ ap found (check_pong-returns reply h₄))

  per_second-Answers :
      (b : Bool) (s : PoolSettings) (cs : List (ClientImpl R))
      → new_per_second library b s ≡ returns cs
      → All (Answers library) cs × (has_client (first_client library cs) ≡ b)
  unfolding new_per_second or_else
  per_second-Answers false s cs h =
      subst (λ l. All (Answers library) l × (has_client (first_client library l) ≡ false))
        (ap (or_else cs) h) (tt, refl)
  per_second-Answers true s cs h =
      let (c, h₁, g₁) = and_then-returns (new_client_impl library s) (λ c. returns (c ∷ [])) h in
      subst (λ l. All (Answers library) l × (has_client (first_client library l) ≡ true))
        (ap (or_else cs) g₁) ((client-Answers s c h₁, tt), refl)

  answers_lem :
      (xs ys : List (ClientImpl R))
      → All (Answers library) xs
      → All (Answers library) ys
      → All (Answers library) (xs ++ ys)
  answers_lem [] ys h g = g
  answers_lem (x ∷ xs) ys (h, hs) g = (h, answers_lem xs ys hs g)

  -- A cache that is made from settings, which may also end in a panic: every client that it is to close
  -- has answered a PING with PONG, and it has a client for limits per second exactly when the settings
  -- ask for one.
  pub new_cache_from_settings-Answers :
      {L F : Type 0} (redis_per_second stop : Bool) (per_second_settings settings : PoolSettings)
      (base : BaseRateLimiter L F) (cache : FixedCache L F R) (closers : List (ClientImpl R))
      → new_cache_from_settings library redis_per_second per_second_settings settings stop base
        ≡ returns (cache, closers)
      → All (Answers library) closers × (has_client cache.per_second_client ≡ redis_per_second)
  unfolding new_cache_from_settings or_else
  new_cache_from_settings-Answers redis_per_second stop per_second_settings settings base cache
        closers h =
      let (cs, h₁, g₁) =
        and_then-returns (new_per_second library redis_per_second per_second_settings)
          (with_per_second library settings stop base) h in
      let (c, h₂, g₂) =
        and_then-returns (new_client_impl library settings)
          (λ other. returns (with_clients library stop base cs other)) g₁ in
      let (answers, has) = per_second-Answers redis_per_second per_second_settings cs h₁ in
      subst (λ x. All (Answers library) x.1 × (has_client x.0.per_second_client ≡ redis_per_second))
        (ap (or_else (cache, closers)) g₂)
        (answers_lem cs (c ∷ []) answers (client-Answers settings c h₂, tt), has)
