-- ===== src/Metrics.antt =====
-- src/metrics: the interceptor that counts the calls of gRPC and measures their time.
pub mod Reports
use api_ratelimit.Common.{
  GoString, text, Go, Outcome, returns, panics, ℕ, suc, ◌-◌, Option, none, some, List, ◌∷◌, ◌++◌,
}
use api_ratelimit.Common.Strings.{trim_prefix, cut}

-- What is reported: an addition to a counter, and a value of a timer, by their names.
pub data Report : Type 0 where
  counted : GoString → ℕ → Report
  timed : GoString → ℕ → Report

abbrev pub method_parts : Option (GoString × GoString) → GoString × GoString
method_parts (some (service, method)) = (service, method)
method_parts none = (text "unknown", text "unknown")

-- utils.go, splitMethodName
unfoldable pub split_method_name : GoString → GoString × GoString
unfolding cut trim_prefix
split_method_name full_method_name =
    method_parts (cut (trim_prefix full_method_name (text "/")) (text "/"))

-- metrics.go, newServerMetrics: the names of the counter and of the timer
unfoldable pub new_server_metrics : GoString → GoString × GoString
unfolding split_method_name
new_server_metrics full_method =
    let method = (split_method_name full_method).1 in
    (method ++ text ".total_requests", method ++ text ".response_time")

-- The state of the server with what has been reported, the last report first, and the readings of the
-- clock to come, in milliseconds.
pub record Metered (S : Type 0) : Type 0 where
  pub inner : S
  pub reports : List Report
  pub clock : ℕ → ℕ

module _ {S : Type 0} where
  -- time.Now()
  unfoldable pub read_clock : Metered S → ℕ × Metered S
  read_clock m = (m.clock 0, record m { clock = λ n. m.clock (suc n) })

  abbrev pub report : Report → Metered S → Metered S
  report r m = record m { reports = r ∷ m.reports }

module _ {S A : Type 0} where
  -- UnaryServerInterceptor: what follows the call of the handler; a panic passes over it.
  unfoldable pub after_handler : GoString → ℕ → Outcome A → Go (Metered S) A
  unfolding read_clock
  after_handler timer start (panics p) m = (panics p, m)
  after_handler timer start (returns a) m =
      let (now, m') = read_clock m in (returns a, report (timed timer (now - start)) m')

  -- metrics.go, UnaryServerInterceptor, for a handler that returns or panics
  unfoldable pub unary_server_interceptor : GoString → Go S A → Go (Metered S) A
  unfolding new_server_metrics read_clock after_handler
  unary_server_interceptor full_method handler m =
      let (start, m₁) = read_clock m in
      let (total_requests, response_time) = new_server_metrics full_method in
      let m₂ = report (counted total_requests 1) m₁ in
      let (r, s) = handler m₂.inner in after_handler response_time start r (record m₂ { inner = s })
