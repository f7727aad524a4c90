-- ===== src/Examples/Loops.antt =====
-- Tests of the goroutines of the xDS provider.
use api_ratelimit.Common.{◌≡◌, refl, ◌≢◌, true, false, arith}
use api_ratelimit.Provider.Loop.Retries.{Redialed, failed_fetch}
use api_ratelimit.Provider.Loop.{
  new_xds_provider, initialize_and_watch, watch_configs, sending_retry, receiving, finished,
  not_called, sending_stop, stopped, System, dials, fetches, calls_stop, Steps, here, next,
}
use api_ratelimit.Provider.Loop.Runs.{
  new-Steps-IsOrdered, IsWatching, stop_returns, failed_dial, IsOrdered,
}

-- A connection, a response, an error, a call of Stop.
abbrev after_error : System
after_error = record {
  loop = receiving;
  fetching = 0;
  sending = 1;
  responses = 1;
  stop = sending_stop;
}

to_error : Steps new_xds_provider after_error
unfolding initialize_and_watch watch_configs
to_error =
    next
      (next (next (next here (dials true refl)) (fetches true (omega arith)))
        (fetches false (omega arith)))
      (calls_stop refl)

new-Steps-IsOrdered_example : IsOrdered after_error
new-Steps-IsOrdered_example = new-Steps-IsOrdered to_error

-- The first watcher fetches.
abbrev first_watch : System
first_watch = record new_xds_provider { loop = receiving; fetching = 1 }

to_first : Steps new_xds_provider first_watch
unfolding initialize_and_watch
to_first = next here (dials true refl)

failed_fetch_example :
    (t : System) × Redialed (watch_configs false first_watch) t × IsWatching not_called t
failed_fetch_example = failed_fetch to_first refl (omega arith)

stop_returns_example :
    (t : System) × Steps after_error t × ((t.loop ≡ finished) × (t.stop ≡ stopped))
stop_returns_example = stop_returns to_error (λ e. cc) refl

abbrev not_dialed : System
not_dialed = record new_xds_provider { loop = sending_retry }

to_failure : Steps new_xds_provider not_dialed
unfolding initialize_and_watch
to_failure = next here (dials false refl)

abbrev with_stop : System
with_stop = record not_dialed { stop = sending_stop }

failed_dial_example : (with_stop.responses ≡ not_dialed.responses) × (with_stop.stop ≢ stopped)
failed_dial_example = failed_dial to_failure refl (next here (calls_stop refl))
