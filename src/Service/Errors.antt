-- ===== src/Service/Errors.antt =====
-- Errors and panics of a call (src/service/ratelimit.go, ShouldRateLimit).
use api_ratelimit.Common.{
  ltb, Bool-cases, length, GoString, text, ◌==◌, eq_refl, Panic, redis_error, service_error,
  Outcome, returns, panics, ◌≡◌, refl, ◌↔◌, ◌⊎◌, inl, inr, Bool, true, false, none, List, [], ◌∷◌,
  arith,
}
use api_ratelimit.Request.{Descriptor, Request}
use api_ratelimit.Limiter.Cache.{RateLimitCache}
use api_ratelimit.Service.Worker.{
  no_domain, no_descriptors, limits_of, should_rate_limit_worker, recover, should_rate_limit,
  Service, Response, Answer, responds, fails,
}

-- A panic that the deferred function of `ShouldRateLimit` does not turn into an error.
abbrev pub escapes : Panic → Bool
escapes (redis_error e) = false
escapes (service_error e) = false
escapes _ = true

is_empty : {t : GoString} → t ≡ [] → (t == []) ≡ true
is_empty h = rw h (eq_refl [])

is_zero : {ds : List Descriptor} → ds ≡ [] → ltb 0 (length ds) ≡ false
is_zero h = rw h refl

module _ {B : Type 0} (cache : RateLimitCache B) (request : Request) (s : Service B) where
  abbrev pub rejected : GoString → Outcome Answer × Service B
  rejected e = (
    returns (fails (service_error e)),
    record s { calls = (s.stats.service_errors, 1) ∷ s.calls },
  )

  -- A request without a domain, one without descriptors, and any request while no configuration is
  -- loaded get a service error; the error is counted once, and nothing else changes.
  pub should_rate_limit-rejected :
      (request.domain ≡ []) ⊎ ((request.descriptors ≡ []) ⊎ (s.config ≡ none))
      → (e : GoString) × (should_rate_limit cache request s ≡ rejected e)
  unfolding should_rate_limit should_rate_limit_worker limits_of
  should_rate_limit-rejected (inl h) = (no_domain, rw (is_empty h) refl)
  should_rate_limit-rejected (inr (inl h)) = elim (Bool-cases (request.domain == [])) [
    | inl e ↦ (no_domain, rw e refl)
    | inr e ↦ (no_descriptors, rw e (rw (is_zero h) refl))
  ]
  should_rate_limit-rejected (inr (inr h)) = elim (Bool-cases (request.domain == [])) [
    | inl e ↦ (no_domain, rw e refl)
    | inr e ↦ elim (Bool-cases (ltb 0 (length request.descriptors))) [
      | inl f ↦ (text "no rate limit configuration loaded", rw e (rw f (simp h refl)))
      | inr f ↦ (no_descriptors, rw e (rw f refl))
    ]
  ]

  -- The answer that an error of the worker becomes.
  failed_answer :
      (r : Outcome Response) (t : Service B) (p : Panic)
      → (r ≡ panics p) × (escapes p ≡ false)
      → (recover r t).0 ≡ returns (fails p)
  unfolding recover
  failed_answer r t p h = ground (arith, h.0, h.1)

  answer_failed :
      (r : Outcome Response) (t : Service B) (p : Panic)
      → (recover r t).0 ≡ returns (fails p)
      → (r ≡ panics p) × (escapes p ≡ false)
  unfolding recover
  answer_failed r t p h = ground (arith, h)

  answer_responds :
      (r : Outcome Response) (t : Service B) (a : Response)
      → (recover r t).0 ≡ returns (responds a)
      → r ≡ returns a
  unfolding recover
  answer_responds r t a h = ground (arith, h)

  recover_panics :
      (r : Outcome Response) (t : Service B) (p : Panic)
      → (recover r t).0 ≡ panics p
      → (r ≡ panics p) × (escapes p ≡ true)
  unfolding recover
  recover_panics r t p h = ground arith

  panics_recover :
      (r : Outcome Response) (t : Service B) (p : Panic)
      → r ≡ panics p
      → escapes p ≡ true
      → (recover r t).0 ≡ panics p
  unfolding recover
  panics_recover r t p h e = ground arith

  -- How a call ends: it panics exactly when the worker panics with something that is neither a Redis
  -- error nor a service error, and with the same; it fails exactly when the worker panics with a
  -- Redis or service error, and with that error; and it responds exactly when the worker does, with
  -- the same response.
  pub should_rate_limit-panics :
      (p : Panic) (a : Response)
      → (((should_rate_limit cache request s).0 ≡ panics p)
          ↔ (((should_rate_limit_worker cache request s).0 ≡ panics p) × (escapes p ≡ true)))
        × (((should_rate_limit cache request s).0 ≡ returns (fails p))
            ↔ (((should_rate_limit_worker cache request s).0 ≡ panics p) × (escapes p ≡ false)))
        × (((should_rate_limit cache request s).0 ≡ returns (responds a))
            ↔ ((should_rate_limit_worker cache request s).0 ≡ returns a))
  unfolding should_rate_limit recover
  should_rate_limit-panics p a =
      let (r, t) = should_rate_limit_worker cache request s in
      (
        (λ h. recover_panics r t p h, λ h. panics_recover r t p h.0 h.1),
        (λ h. answer_failed r t p h, λ h. failed_answer r t p h),
        (λ h. answer_responds r t a h, λ h. rw h refl),
      )
