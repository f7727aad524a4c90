-- ===== src/Provider/Loop/Runs.antt =====
-- The runs of the goroutines of src/provider/xds_grpc_sotw_provider.go.
use mathlib.Core.Path.{subst}
use api_ratelimit.Common.{ℕ, zero, suc, ◌+◌, ◌-◌, ◌≤◌, ◌<◌, ◌≡◌, refl, ◌∙◌, ◌≢◌, true, false, arith}
use api_ratelimit.Provider.Loop.{
  new_xds_provider, after_receive, initialize_and_watch, watch_configs, LoopState, dialing,
  sending_retry, receiving, sleeping, finished, StopState, not_called, sending_stop, stopped,
  System, watcher_sends, loop_sends, stop_sends, Step, dials, fetches, receives, wakes, calls_stop,
  Steps, here, next,
}

-- The watchers that belong to a state of the loop.
abbrev pub Watched : LoopState → ℕ → Type 0
Watched receiving n = n ≡ 1
Watched finished n = n ≤ 1
Watched _ n = n ≡ 0

abbrev pub Ended : LoopState → StopState → Type 0
Ended finished s = s ≡ stopped
Ended _ s = s ≢ stopped

pub record IsOrdered (s : System) : Type 0 where
  pub watched : Watched s.loop (s.fetching + s.sending)
  pub ended : Ended s.loop s.stop

pub watchers_of :
    {s : System} {l : LoopState} → s.loop ≡ l → IsOrdered s → Watched l (s.fetching + s.sending)
watchers_of {s} e v = subst (λ l. Watched l (s.fetching + s.sending)) e v.watched

end_of : {s : System} {l : LoopState} → s.loop ≡ l → IsOrdered s → Ended l s.stop
end_of {s} e v = subst (λ l. Ended l s.stop) e v.ended

as_many : (l : LoopState) (m n : ℕ) → m ≡ n → Watched l m → Watched l n
as_many l m n e w = subst (Watched l) e w

fail_lem : (f s : ℕ) → 0 < f → f + s ≡ (f - 1) + suc s
fail_lem f s h = omega (arith, h)

still_open : (l : LoopState) {s : StopState} → s ≡ not_called → Ended l s → Ended l sending_stop
still_open dialing e h = λ f. cc
still_open sending_retry e h = λ f. cc
still_open receiving e h = λ f. cc
still_open sleeping e h = λ f. cc
still_open finished e h = cc

pub Step-IsOrdered : {s t : System} → IsOrdered s → Step s t → IsOrdered t
unfolding initialize_and_watch watch_configs after_receive
Step-IsOrdered {s} v (dials true e) = record {
  watched = omega (arith, watchers_of e v);
  ended = end_of e v;
}
Step-IsOrdered {s} v (dials false e) = record { watched = watchers_of e v; ended = end_of e v }
Step-IsOrdered v (fetches true h) = record { watched = v.watched; ended = v.ended }
Step-IsOrdered {s} v (fetches false h) = record {
  watched = as_many s.loop _ _ (fail_lem s.fetching s.sending h) v.watched;
  ended = v.ended;
}
Step-IsOrdered {s} v (receives true e (watcher_sends h)) = record {
  watched = omega (arith, watchers_of e v, h);
  ended = end_of e v;
}
Step-IsOrdered v (receives true e (loop_sends f)) = cc
Step-IsOrdered {s} v (receives false e (stop_sends f)) = record {
  watched = omega (arith, watchers_of e v);
  ended = refl;
}
Step-IsOrdered v (wakes e) = record { watched = watchers_of e v; ended = end_of e v }
Step-IsOrdered {s} v (calls_stop e) = record {
  watched = v.watched;
  ended = still_open s.loop e v.ended;
}

-- In every run there is one watcher while the loop waits for the channel, at most one after its end,
-- and none else; the loop has ended exactly when Stop has returned.
pub new-Steps-IsOrdered : {s : System} → Steps new_xds_provider s → IsOrdered s
new-Steps-IsOrdered here = record { watched = refl; ended = λ e. cc }
new-Steps-IsOrdered (next r step) = Step-IsOrdered (new-Steps-IsOrdered r) step

-- From a state there is a run to a state.
abbrev Leads : (System → Type 0) → System → Type 0
Leads P s = (t : System) × Steps s t × P t

run_from : {s t u : System} → Step s t → Steps t u → Steps s u
run_from step here = next here step
run_from step (next r last) = next (run_from step r) last

first_then : {P : System → Type 0} {s t : System} → Step s t → Leads P t → Leads P s
first_then step (u, r, p) = (u, run_from step r, p)

-- The loop waits and one watcher fetches, with a call of Stop as it was.
abbrev pub IsWatching : StopState → System → Type 0
IsWatching stop s = (s.loop ≡ receiving) × (s.fetching ≡ 1) × (s.stop ≡ stop)

from_dialing : (s : System) → s.loop ≡ dialing → IsOrdered s → Leads (IsWatching s.stop) s
unfolding initialize_and_watch
from_dialing s e v =
    first_then (dials true e) (_, here, (refl, omega (arith, watchers_of e v), refl))

from_sleeping : (s : System) → s.loop ≡ sleeping → IsOrdered s → Leads (IsWatching s.stop) s
from_sleeping s e v =
    let waking : Step s (record s { loop = dialing }) = wakes e in
    first_then waking (from_dialing _ refl (Step-IsOrdered v waking))

from_sending :
    (s : System) → s.loop ≡ receiving → 0 < s.sending → IsOrdered s → Leads (IsWatching s.stop) s
unfolding after_receive
from_sending s e h v =
    let retrying : Step s (record s { loop = sleeping; sending = s.sending - 1 }) =
      receives true e (watcher_sends h) in
    first_then retrying (from_sleeping _ refl (Step-IsOrdered v retrying))

from_receiving :
    (s : System) (f n : ℕ)
    → s.fetching ≡ f
    → s.sending ≡ n
    → s.loop ≡ receiving
    → IsOrdered s
    → Leads (IsWatching s.stop) s
from_receiving s zero n d g e v = from_sending s e (omega (arith, watchers_of e v, d, g)) v
from_receiving s (suc f) n d g e v = (s, here, (e, omega (arith, watchers_of e v, d), refl))

-- In every run, unless the loop has ended or an attempt to dial has failed, there is a continuation
-- to a state in which a watcher fetches.
watches_again :
    {s : System}
    → Steps new_xds_provider s
    → s.loop ≢ sending_retry
    → s.loop ≢ finished
    → (t : System) × Steps s t × IsWatching s.stop t
watches_again {s} r h g = go s.loop refl
  where
    v : IsOrdered s
    v = new-Steps-IsOrdered r

    go : (l : LoopState) → s.loop ≡ l → Leads (IsWatching s.stop) s
    go dialing e = from_dialing s e v
    go sending_retry e = absurd (h e)
    go receiving e = from_receiving s s.fetching s.sending refl refl e v
    go sleeping e = from_sleeping s e v
    go finished e = absurd (g e)

stop_absurd : {s : StopState} → s ≡ stopped → s ≡ sending_stop → ⊥
stop_absurd e f = cc

loop_absurd : {l : LoopState} → l ≡ sending_retry → l ≡ dialing → ⊥
loop_absurd e f = cc

receive_absurd : {l : LoopState} → l ≡ sending_retry → l ≡ receiving → ⊥
receive_absurd e f = cc

wake_absurd : {l : LoopState} → l ≡ sending_retry → l ≡ sleeping → ⊥
wake_absurd e f = cc

no_watcher : (f n : ℕ) → f + n ≡ 0 → 0 < f → ⊥
no_watcher f n e h = omega (arith, e, h)

-- Where Stop has been called in a run and no attempt to dial has failed, there is a continuation in
-- which Stop returns and the loop ends.
pub stop_returns :
    {s : System}
    → Steps new_xds_provider s
    → s.loop ≢ sending_retry
    → s.stop ≡ sending_stop
    → (t : System) × Steps s t × ((t.loop ≡ finished) × (t.stop ≡ stopped))
unfolding after_receive
stop_returns {s} r h e =
    let v = new-Steps-IsOrdered r in
    let running : s.loop ≢ finished = λ g. absurd (stop_absurd (end_of g v) e) in
    let (t, run, (waiting, one, same)) = watches_again r h running in
    (_, next run (receives false waiting (stop_sends (same ∙ e))), (refl, refl))

-- After a failed attempt to dial nothing goes on.
record IsStuck (s t : System) : Type 0 where
  loop_stuck : t.loop ≡ sending_retry
  no_response : t.responses ≡ s.responses
  no_return : t.stop ≢ stopped

IsStuck-Step : {s t u : System} → IsOrdered t → IsStuck s t → Step t u → IsStuck s u
unfolding initialize_and_watch watch_configs after_receive
IsStuck-Step v h (dials b e) = absurd (loop_absurd h.loop_stuck e)
IsStuck-Step {t = t} v h (fetches b e) =
    absurd (no_watcher t.fetching t.sending (watchers_of h.loop_stuck v) e)
IsStuck-Step v h (receives b e x) = absurd (receive_absurd h.loop_stuck e)
IsStuck-Step v h (wakes e) = absurd (wake_absurd h.loop_stuck e)
IsStuck-Step v h (calls_stop e) = record {
  loop_stuck = h.loop_stuck;
  no_response = h.no_response;
  no_return = λ f. cc;
}

stuck :
    {s t : System} → IsOrdered s → s.loop ≡ sending_retry → Steps s t → IsOrdered t × IsStuck s t
stuck v e here = (v, record { loop_stuck = e; no_response = refl; no_return = end_of e v })
stuck v e (next r step) = let (w, h) = stuck v e r in (Step-IsOrdered w step, IsStuck-Step w h step)

-- In a run in which an attempt to dial has failed, the loop waits forever for itself to receive: no
-- later step passes on a response, and Stop never returns.
pub failed_dial :
    {s t : System}
    → Steps new_xds_provider s
    → s.loop ≡ sending_retry
    → Steps s t
    → (t.responses ≡ s.responses) × (t.stop ≢ stopped)
failed_dial r e run =
    let h = (stuck (new-Steps-IsOrdered r) e run).1 in (h.no_response, h.no_return)
