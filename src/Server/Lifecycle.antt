-- ===== src/Server/Lifecycle.antt =====
-- Start, startGrpc and Stop of src/server/server_impl.go: the goroutines of a server, in runs with at
-- most one call of Stop. The caller is the runner or, at a signal, the goroutine of
-- handleGracefulShutdown, which ends the process when Stop returns; runs in which both call Stop are
-- not modelled.
-- What is done under `listenerMu` is one step. The listeners can be opened, except that of the debug
-- endpoints, whose error is only logged. As the libraries say, GracefulStop ends the calls of Serve,
-- also those that come later, and Close makes Serve return.
pub mod Stops
use api_ratelimit.Common.{ℕ, suc, ◌≡◌}

-- `debugListener.listener` and `httpServer`: nil, in use, closed
pub data Handle : Type 0 where
  absent in_use closed : Handle

-- Start: before the HTTP server is made, in its Serve, at the end
pub data StartState : Type 0 where
  opening serving returned : StartState

-- startGrpc
pub data GrpcState : Type 0 where
  not_serving serving_grpc ended : GrpcState

-- Stop: before the call, in GracefulStop, at the lock, at the end
pub data StopState : Type 0 where
  not_called graceful closing stopped : StopState

pub record Threads : Type 0 where
  pub debug : Handle
  pub http : Handle
  pub start : StartState
  pub grpc : GrpcState
  pub stop : StopState
  pub provider_stops : ℕ

abbrev pub new_threads : Threads
new_threads = record {
  debug = absent;
  http = absent;
  start = opening;
  grpc = not_serving;
  stop = not_called;
  provider_stops = 0;
}

-- Stop: `if x != nil { x.Close() }`
unfoldable pub close_handle : Handle → Handle
close_handle absent = absent
close_handle in_use = closed
close_handle closed = closed

-- startGrpc: Serve, before and after GracefulStop has been called
unfoldable pub serve_grpc : StopState → GrpcState
serve_grpc not_called = serving_grpc
serve_grpc graceful = ended
serve_grpc closing = ended
serve_grpc stopped = ended

-- Stop: GracefulStop waits for the call of Serve to end, if there is one.
unfoldable pub stop_grpc : GrpcState → GrpcState
stop_grpc not_serving = not_serving
stop_grpc serving_grpc = ended
stop_grpc ended = ended

-- Stop: what it does under the lock
unfoldable pub close_all : Threads → Threads
unfolding close_handle
close_all s = record s {
  debug = close_handle s.debug;
  http = close_handle s.http;
  provider_stops = suc s.provider_stops;
  stop = stopped;
}

-- One step of a goroutine. `calls_stop` is the one call, by the runner or by handleGracefulShutdown.
pub data ServerStep (s : Threads) : Threads → Type 0 where
  opens_debug : s.debug ≡ absent → ServerStep s (record s { debug = in_use })
  serves_grpc : s.grpc ≡ not_serving → ServerStep s (record s { grpc = serve_grpc s.stop })
  makes_http : s.start ≡ opening → ServerStep s (record s { http = in_use; start = serving })
  http_returns : s.start ≡ serving → s.http ≡ closed → ServerStep s (record s { start = returned })
  calls_stop : s.stop ≡ not_called → ServerStep s (record s { stop = graceful })
  grpc_stops :
      s.stop ≡ graceful → ServerStep s (record s { stop = closing; grpc = stop_grpc s.grpc })
  closes : s.stop ≡ closing → ServerStep s (close_all s)

pub data ServerSteps (s : Threads) : Threads → Type 0 where
  here : ServerSteps s s
  next : {t u : Threads} → ServerSteps s t → ServerStep t u → ServerSteps s u
