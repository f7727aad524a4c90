-- ===== src/Provider/Loop.antt =====
-- The goroutines of src/provider/xds_grpc_sotw_provider.go: the loop `initXdsClient`, the watchers
-- that it starts, and a caller of `Stop`. The channel connectionRetryChannel has no buffer: a send and
-- the receive of the loop are one step. Dialing, fetching and sleeping may take any time, and the service
-- takes what `sendConfigs` sends; the duration
-- of a sleep and the connection are the libraries'.
pub mod Runs
pub mod Retries
use api_ratelimit.Common.{ℕ, suc, ◌-◌, ◌<◌, ◌≡◌, Bool, true, false}

-- initXdsClient: in `getGrpcConnection`, in `retryGrpcConn` after an error of it, at the receive of
-- the channel, in `time.Sleep`, and at its end
pub data LoopState : Type 0 where
  dialing sending_retry receiving sleeping finished : LoopState

-- Stop
pub data StopState : Type 0 where
  not_called sending_stop stopped : StopState

-- The watchers in `Fetch` and those in `retryGrpcConn`, and the responses passed to `sendConfigs`.
pub record System : Type 0 where
  pub loop : LoopState
  pub fetching : ℕ
  pub sending : ℕ
  pub responses : ℕ
  pub stop : StopState

-- NewXdsGrpcSotwProvider
abbrev pub new_xds_provider : System
new_xds_provider = record {
  loop = dialing;
  fetching = 0;
  sending = 0;
  responses = 0;
  stop = not_called;
}

-- The senders on connectionRetryChannel: retryGrpcConn in a watcher, which then returns;
-- retryGrpcConn in initializeAndWatch, which then returns to the loop; and Stop.
pub data Send (s : System) : Bool → System → Type 0 where
  watcher_sends : 0 < s.sending → Send s true (record s { sending = s.sending - 1 })
  loop_sends : s.loop ≡ sending_retry → Send s true (record s { loop = receiving })
  stop_sends : s.stop ≡ sending_stop → Send s false (record s { stop = stopped })

-- initXdsClient: the body of the loop up to the sleep, for the value received
unfoldable pub after_receive : Bool → System → System
after_receive true s = record s { loop = sleeping }
after_receive false s = record s { loop = finished }

-- initializeAndWatch
unfoldable pub initialize_and_watch : Bool → System → System
initialize_and_watch true s = record s { loop = receiving; fetching = suc s.fetching }
initialize_and_watch false s = record s { loop = sending_retry }

-- watchConfigs: one turn of its loop
unfoldable pub watch_configs : Bool → System → System
watch_configs true s = record s { responses = suc s.responses }
watch_configs false s = record s { fetching = s.fetching - 1; sending = suc s.sending }

pub data Step (s : System) : System → Type 0 where
  dials : (succeeds : Bool) → s.loop ≡ dialing → Step s (initialize_and_watch succeeds s)
  fetches : (succeeds : Bool) → 0 < s.fetching → Step s (watch_configs succeeds s)
  receives :
      (retry : Bool) {t : System}
      → s.loop ≡ receiving
      → Send s retry t
      → Step s (after_receive retry t)
  wakes : s.loop ≡ sleeping → Step s (record s { loop = dialing })
  calls_stop : s.stop ≡ not_called → Step s (record s { stop = sending_stop })

pub data Steps (s : System) : System → Type 0 where
  here : Steps s s
  next : {t u : System} → Steps s t → Step t u → Steps s u
