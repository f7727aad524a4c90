-- ===== src/Service/Answers.antt =====
-- What the service answers (src/service/ratelimit.go, shouldRateLimitWorker and ShouldRateLimit).
use api_ratelimit.Common.{
  ltb, ==_iff, nat_eq, length, ◌==◌, check, check-returns, bind-returns, bind_lift-returns,
  service_error, Outcome, returns, ◌≡◌, refl, sym, ap, ◌∙◌, Bool, true, false, not, ◌&&◌, Option,
  List, [], arith,
}
use api_ratelimit.Limiter.Keys.{assertion_failed}
use api_ratelimit.Request.{Request}
use api_ratelimit.Config.Limit.{RateLimit}
use api_ratelimit.Limiter.{Code, DescriptorStatus}
use api_ratelimit.Limiter.Cache.{RateLimitCache}
use api_ratelimit.Service.Worker.{
  initial_tally, tally, response_statuses, no_domain, no_descriptors, response_headers, limits_of,
  call_backend, apply_global_shadow_mode, should_rate_limit_worker, Service, Response, Tally,
}
use api_ratelimit.Service.Codes.{any_over_limit, code_of, final_code-tally}

module _ {B : Type 0} (cache : RateLimitCache B) (request : Request) (s s' : Service B)
    (r : Response) where
  -- How a response comes about: the lookups, the one call of the backend, and the response made of
  -- its statuses.
  pub record IsAnswered : Type 0 where
    pub limits : List (Option RateLimit)
    pub unlimited : List Bool
    pub before : Service B
    pub after : Service B
    pub from_backend : List DescriptorStatus
    pub looked_up : limits_of request s ≡ (returns (limits, unlimited), before)
    pub asked : call_backend cache request limits before ≡ (returns from_backend, after)
    pub one_each : length limits ≡ length from_backend
    pub statuses : r.statuses ≡ response_statuses unlimited from_backend
    pub code :
        r.overall_code ≡ code_of (any_over_limit unlimited from_backend && not s.global_shadow_mode)

  response_path :
      {a b : Response} {t t' : Service B}
      → ◌≡◌ {A = Outcome Response × Service B} (returns a, t) (returns b, t')
      → a ≡ b
  response_path h = ground arith

  shadowed_code :
      (b g : Bool) (c : Code) (t t' : Service B) (code : Code)
      → c ≡ code_of b
      → apply_global_shadow_mode g c t ≡ (returns code, t')
      → code ≡ code_of (b && not g)
  unfolding apply_global_shadow_mode
  shadowed_code true true c t t' code e h = ground arith
  shadowed_code _ g c t t' code e h = ground arith

  -- Where the worker returns a response, its overall code is OVER_LIMIT exactly when the backend
  -- reports a descriptor that is not unlimited over its limit and the global shadow mode is off,
  -- and else OK, whether its limit is configured or an override of the request; the statuses are those of one call of the backend with the limits that were
  -- looked up, but for the unlimited descriptors.
  pub worker-IsAnswered : should_rate_limit_worker cache request s ≡ (returns r, s') → IsAnswered
  unfolding should_rate_limit_worker
  worker-IsAnswered h =
      let (_, _, h₁) =
        bind_lift-returns (check (service_error no_domain) (not (request.domain == []))) _ s h in
      let (_, _, h₂) =
        bind_lift-returns
          (check (service_error no_descriptors) (ltb 0 (length request.descriptors))) _ s h₁ in
      let (found, s₃, e₃, h₃) = bind-returns (limits_of request) _ s h₂ in
      let (ss, s₄, e₄, h₄) = bind-returns (call_backend cache request found.0) _ s₃ h₃ in
      let (_, e₅, h₅) =
        bind_lift-returns (check assertion_failed (nat_eq (length found.0) (length ss))) _ s₄ h₄ in
      let t : Tally = tally s₄.headers.enabled found.1 ss initial_tally in
      let (hs, s₆, e₆, h₆) =
        bind-returns (response_headers s₄.headers.enabled t.minimum_descriptor) _ s₄ h₅ in
      let (code, s₇, e₇, h₇) =
        bind-returns (apply_global_shadow_mode s.global_shadow_mode t.final_code) _ s₆ h₆ in
      record {
        limits = found.0;
        unlimited = found.1;
        before = s₃;
        after = s₄;
        from_backend = ss;
        looked_up = e₃;
        asked = e₄;
        one_each = (==_iff _ _).0 (check-returns _ _ e₅);
        statuses = sym (ap (λ x. x.statuses) (response_path h₇));
        code =
            sym (ap (λ x. x.overall_code) (response_path h₇))
            ∙ shadowed_code (any_over_limit found.1 ss) s.global_shadow_mode t.final_code s₆ s₇ code
                (final_code-tally s₄.headers.enabled found.1 ss initial_tally false refl) e₇;
      }
