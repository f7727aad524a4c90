-- ===== src/Provider/Loop/Retries.antt =====
-- What follows an error of a fetch (src/provider/xds_grpc_sotw_provider.go, watchConfigs).
use api_ratelimit.Common.{◌-◌, ◌<◌, ◌≡◌, refl, true, false, arith}
use api_ratelimit.Provider.Loop.{
  new_xds_provider, after_receive, initialize_and_watch, watch_configs, dialing, receiving,
  sleeping, finished, System, watcher_sends, dials, receives, wakes, Steps, here, next,
}
use api_ratelimit.Provider.Loop.Runs.{watchers_of, new-Steps-IsOrdered, IsWatching}

-- A run that goes through a sleep and then an attempt to dial.
abbrev pub Redialed : System → System → Type 0
Redialed s t =
    (u : System) × (v : System) × Steps s u
    × (u.loop ≡ sleeping)
    × Steps u v
    × (v.loop ≡ dialing)
    × Steps v t

-- How far the loop has come since an error of a fetch.
data Since (s t : System) : Type 0 where
  asks : t.loop ≡ receiving → t.fetching ≡ 0 → Since s t
  sleeps : t.loop ≡ sleeping → t.fetching ≡ 0 → Since s t
  ends : t.loop ≡ finished → t.fetching ≡ 0 → Since s t
  redials : Redialed s t → Since s t

-- In every run, where the loop waits for the channel and a watcher fetches: an error of the fetch has a
-- continuation through a sleep and an attempt to dial to a state in which the loop waits and a new
-- watcher fetches, with a call of Stop as it was.
pub failed_fetch :
    {s : System}
    → Steps new_xds_provider s
    → s.loop ≡ receiving
    → 0 < s.fetching
    → (t : System) × Redialed (watch_configs false s) t × IsWatching s.stop t
unfolding watch_configs after_receive initialize_and_watch
failed_fetch {s} r e h =
    let failed = watch_configs false s in
    let asleep : System = record failed { loop = sleeping; sending = failed.sending - 1 } in
    let dials_again : System = record asleep { loop = dialing } in
    let slept : Steps failed asleep = next here (receives true e (watcher_sends (omega arith))) in
    let waked : Steps asleep dials_again = next here (wakes refl) in
    let dialed : Steps dials_again (initialize_and_watch true dials_again) =
      next here (dials true refl) in
    (
      initialize_and_watch true dials_again,
      (asleep, dials_again, slept, refl, waked, refl, dialed),
      (refl, omega (arith, h, watchers_of e (new-Steps-IsOrdered r)), refl),
    )
