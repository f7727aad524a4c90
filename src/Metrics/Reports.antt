-- ===== src/Metrics/Reports.antt =====
-- The interceptor passes the handler's answer on (src/metrics).
use api_ratelimit.Common.Strings.{after_prefix, trim_prefix}
use api_ratelimit.Common.{
  GoString, text, Go, Outcome, returns, panics, ℕ, suc, ◌-◌, ◌≡◌, refl, List, [], ◌∷◌, ◌++◌,
}
use api_ratelimit.Metrics.{
  split_method_name, new_server_metrics, read_clock, after_handler, unary_server_interceptor,
  Report, counted, timed, Metered,
}
use api_ratelimit.Godogstats.Tags.{IsFreeOf, cut_at_byte}

split_full_name :
    (service method : GoString)
    → IsFreeOf (text "/") service
    → split_method_name (b'/' ∷ (service ++ b'/' ∷ method)) ≡ (service, method)
unfolding split_method_name trim_prefix after_prefix
split_full_name service method h = rw (cut_at_byte b'/' service method h) refl

-- What the interceptor reports for an outcome of the handler.
abbrev pub reports_of : {A : Type 0} → GoString → ℕ → ℕ → Outcome A → List Report
reports_of method start now (panics p) = counted (method ++ text ".total_requests") 1 ∷ []
reports_of method start now (returns a) =
    timed (method ++ text ".response_time") (now - start)
    ∷ counted (method ++ text ".total_requests") 1
    ∷ []

module _ {S A : Type 0} where
  after_handler-reports :
      (method : GoString) (start : ℕ) (old : List Report) (r : Outcome A) (s : S) (clock : ℕ → ℕ)
      → let m : Metered S = record {
        inner = s;
        reports = counted (method ++ text ".total_requests") 1 ∷ old;
        clock = clock;
      } in
        let after = after_handler (method ++ text ".response_time") start r m in
        (after.0 ≡ r)
        × (after.1.inner ≡ s)
        × (after.1.reports ≡ reports_of method start (clock 0) r ++ old)
  unfolding after_handler read_clock
  after_handler-reports method start old (returns a) s clock = (refl, refl, refl)
  after_handler-reports method start old (panics p) s clock = (refl, refl, refl)

  -- The interceptor gives what the handler of a method gives, and leaves what the handler leaves. It
  -- counts the call under the method's name, and reports its time unless the handler panics.
  pub interceptor_passes :
      (service method : GoString) (handler : Go S A) (m : Metered S)
      → IsFreeOf (text "/") service
      → let after = unary_server_interceptor (b'/' ∷ (service ++ b'/' ∷ method)) handler m in
        (after.0 ≡ (handler m.inner).0)
        × (after.1.inner ≡ (handler m.inner).1)
        × (after.1.reports
            ≡ reports_of method (m.clock 0) (m.clock 1) (handler m.inner).0 ++ m.reports)
  unfolding unary_server_interceptor new_server_metrics read_clock
  interceptor_passes service method handler m h = rw (split_full_name service method h) (
      after_handler-reports method (m.clock 0) m.reports (handler m.inner).0 (handler m.inner).1
        (λ n. m.clock (suc n)))
