-- ===== src/Server/Lifecycle/Stops.antt =====
-- What Stop reaches (Start and Stop of src/server/server_impl.go).
use mathlib.Core.Path.{subst}
use api_ratelimit.Server.Lifecycle.{
  new_threads, close_handle, serve_grpc, stop_grpc, close_all, Handle, absent, in_use, closed,
  StartState, opening, serving, returned, GrpcState, not_serving, serving_grpc, ended, StopState,
  not_called, graceful, closing, stopped, Threads, ServerStep, opens_debug, serves_grpc, makes_http,
  http_returns, calls_stop, grpc_stops, closes, ServerSteps, here, next,
}
use api_ratelimit.Common.{ℕ, suc, ◌≡◌, refl, ap, ◌≢◌, ◌⊎◌, inl, inr}

-- The HTTP server while Start goes on, as long as Stop has not closed it.
abbrev HttpFits : StartState → Handle → Type 0
HttpFits opening http = http ≡ absent
HttpFits serving http = http ≢ absent
HttpFits returned http = http ≡ closed

-- What Stop has done so far.
abbrev StopFits : StopState → Handle → GrpcState → ℕ → Type 0
StopFits not_called http grpc n = (n ≡ 0) × (http ≢ closed)
StopFits graceful http grpc n = (n ≡ 0) × (http ≢ closed)
StopFits closing http grpc n = (n ≡ 0) × (http ≢ closed) × (grpc ≢ serving_grpc)
StopFits stopped http grpc n = (n ≡ 1) × (grpc ≢ serving_grpc)

record IsFitting (s : Threads) : Type 0 where
  http_fits : HttpFits s.start s.http
  stop_fits : StopFits s.stop s.http s.grpc s.provider_stops

served-fits :
    (stop : StopState) (http : Handle) (grpc : GrpcState) (n : ℕ)
    → StopFits stop http grpc n
    → StopFits stop http (serve_grpc stop) n
unfolding serve_grpc
served-fits not_called http grpc n h = h
served-fits graceful http grpc n h = h
served-fits closing http grpc n (h, k, l) = (h, k, λ e. cc)
served-fits stopped http grpc n (h, k) = (h, λ e. cc)

made-fits :
    (stop : StopState) (http : Handle) (grpc : GrpcState) (n : ℕ)
    → StopFits stop http grpc n
    → StopFits stop in_use grpc n
made-fits not_called http grpc n (h, k) = (h, λ e. cc)
made-fits graceful http grpc n (h, k) = (h, λ e. cc)
made-fits closing http grpc n (h, k, l) = (h, (λ e. cc), l)
made-fits stopped http grpc n h = h

stop_grpc-ne : (grpc : GrpcState) → stop_grpc grpc ≢ serving_grpc
unfolding stop_grpc
stop_grpc-ne not_serving e = cc
stop_grpc-ne serving_grpc e = cc
stop_grpc-ne ended e = cc

closed-fits :
    (start : StartState) (http : Handle) → HttpFits start http → HttpFits start (close_handle http)
unfolding close_handle
closed-fits opening absent h = refl
closed-fits opening in_use h = absurd (cc)
closed-fits opening closed h = absurd (cc)
closed-fits serving absent h = absurd (h refl)
closed-fits serving in_use h = λ e. cc
closed-fits serving closed h = λ e. cc
closed-fits returned absent h = absurd (cc)
closed-fits returned in_use h = absurd (cc)
closed-fits returned closed h = refl

module _ {s : Threads} (h : IsFitting s) where
  http_of : {start : StartState} → s.start ≡ start → HttpFits start s.http
  http_of e = subst (λ x. HttpFits x s.http) e h.http_fits

  stop_of : {stop : StopState} → s.stop ≡ stop → StopFits stop s.http s.grpc s.provider_stops
  stop_of e = subst (λ x. StopFits x s.http s.grpc s.provider_stops) e h.stop_fits

ServerStep-IsFitting : {s t : Threads} → ServerStep s t → IsFitting s → IsFitting t
unfolding close_all
ServerStep-IsFitting (opens_debug e) h = record { http_fits = h.http_fits; stop_fits = h.stop_fits }
ServerStep-IsFitting {s} (serves_grpc e) h = record {
  http_fits = h.http_fits;
  stop_fits = served-fits s.stop s.http s.grpc s.provider_stops h.stop_fits;
}
ServerStep-IsFitting {s} (makes_http e) h = record {
  http_fits = λ f. cc;
  stop_fits = made-fits s.stop s.http s.grpc s.provider_stops h.stop_fits;
}
ServerStep-IsFitting (http_returns e f) h = record { http_fits = f; stop_fits = h.stop_fits }
ServerStep-IsFitting (calls_stop e) h = record { http_fits = h.http_fits; stop_fits = stop_of h e }
ServerStep-IsFitting {s} (grpc_stops e) h = record {
  http_fits = h.http_fits;
  stop_fits = ((stop_of h e).0, (stop_of h e).1, stop_grpc-ne s.grpc);
}
ServerStep-IsFitting {s} (closes e) h = record {
  http_fits = closed-fits s.start s.http h.http_fits;
  stop_fits = (ap suc (stop_of h e).0, (stop_of h e).2);
}

ServerSteps-IsFitting : {s : Threads} → ServerSteps new_threads s → IsFitting s
ServerSteps-IsFitting here = record { http_fits = refl; stop_fits = (refl, λ e. cc) }
ServerSteps-IsFitting (next r step) = ServerStep-IsFitting step (ServerSteps-IsFitting r)

-- Stop has ended without the HTTP server, which is made later or never.
abbrev IsMissed : Threads → Type 0
IsMissed s = (s.stop ≡ stopped) × (s.http ≢ closed) × (s.start ≢ returned)

ServerStep-IsMissed : {s t : Threads} → ServerStep s t → IsMissed s → IsMissed t
unfolding close_all
ServerStep-IsMissed (opens_debug e) h = h
ServerStep-IsMissed (serves_grpc e) h = h
ServerStep-IsMissed (makes_http e) (a, b, c) = (a, (λ f. cc), (λ f. cc))
ServerStep-IsMissed (http_returns e f) (a, b, c) = absurd (b f)
ServerStep-IsMissed (calls_stop e) (a, b, c) = absurd (cc)
ServerStep-IsMissed (grpc_stops e) (a, b, c) = absurd (cc)
ServerStep-IsMissed (closes e) (a, b, c) = absurd (cc)

ServerSteps-IsMissed : {s t : Threads} → IsMissed s → ServerSteps s t → IsMissed t
ServerSteps-IsMissed h here = h
ServerSteps-IsMissed h (next r step) = ServerStep-IsMissed step (ServerSteps-IsMissed h r)

-- A call of Stop that ends before Start has made its HTTP server is lost: as long as there is no other
-- call, nothing closes that server, and Start does not return.
stop_missed :
    {s t : Threads}
    → ServerSteps new_threads s
    → s.stop ≡ stopped
    → s.start ≡ opening
    → ServerSteps s t
    → (t.http ≢ closed) × (t.start ≢ returned)
stop_missed reached e f r =
    let h = ServerSteps-IsFitting reached in
    let missed = ServerSteps-IsMissed (e, (λ g. cc (http_of h f)), (λ g. cc)) r in
    (missed.1, missed.2)

-- The HTTP server is made, and stays made until Stop closes it.
abbrev IsMade : Threads → Type 0
IsMade s = (s.start ≢ opening) × ((s.stop ≢ stopped) ⊎ (s.http ≡ closed))

made-closed :
    (start : StartState) (http : Handle)
    → start ≢ opening
    → HttpFits start http
    → close_handle http ≡ closed
unfolding close_handle
made-closed opening http made h = absurd (made refl)
made-closed serving absent made h = absurd (h refl)
made-closed returned absent made h = absurd (cc)
made-closed serving in_use made h = refl
made-closed serving closed made h = refl
made-closed returned in_use made h = refl
made-closed returned closed made h = refl

ServerStep-IsMade : {s t : Threads} → ServerStep s t → IsFitting s → IsMade s → IsMade t
unfolding close_all close_handle
ServerStep-IsMade (opens_debug e) h m = m
ServerStep-IsMade (serves_grpc e) h m = m
ServerStep-IsMade (makes_http e) h (a, b) = absurd (a e)
ServerStep-IsMade (http_returns e f) h (a, b) = ((λ g. cc), inr f)
ServerStep-IsMade (calls_stop e) h (a, b) = (a, inl (λ g. cc))
ServerStep-IsMade (grpc_stops e) h (a, b) = (a, inl (λ g. cc))
ServerStep-IsMade {s} (closes e) h (a, b) = (a, inr (made-closed s.start s.http a h.http_fits))

ServerSteps-IsMade :
    {s t : Threads} → IsFitting s → IsMade s → ServerSteps s t → IsFitting t × IsMade t
ServerSteps-IsMade h m here = (h, m)
ServerSteps-IsMade h m (next r step) =
    let (h', m') = ServerSteps-IsMade h m r in
    (ServerStep-IsFitting step h', ServerStep-IsMade step h' m')

closed_when_stopped : (t : Threads) → t.stop ≡ stopped → IsMade t → t.http ≡ closed
closed_when_stopped t e (a, inl going) = absurd (going e)
closed_when_stopped t e (a, inr shut) = shut

start_returns :
    (t : Threads) (start : StartState)
    → t.start ≡ start
    → start ≢ opening
    → t.http ≡ closed
    → (u : Threads) × ServerSteps t u × (u.start ≡ returned)
start_returns t opening e made shut = absurd (made refl)
start_returns t serving e made shut =
    (record t { start = returned }, next here (http_returns e shut), refl)
start_returns t returned e made shut = (t, here, e)

-- In a run with one call of Stop, a call that has not ended when Start has made its HTTP server: once it has ended, that
-- server is closed and Start can return, gRPC is not served any more, and the provider has been
-- stopped once.
pub stop_closes :
    {s t : Threads}
    → ServerSteps new_threads s
    → s.start ≢ opening
    → s.stop ≢ stopped
    → ServerSteps s t
    → t.stop ≡ stopped
    → (t.http ≡ closed)
      × (t.grpc ≢ serving_grpc)
      × (t.provider_stops ≡ 1)
      × ((u : Threads) × ServerSteps t u × (u.start ≡ returned))
stop_closes {t = t} reached made going r e =
    let (h, m) = ServerSteps-IsMade (ServerSteps-IsFitting reached) (made, inl going) r in
    let shut = closed_when_stopped t e m in
    (shut, (stop_of h e).1, (stop_of h e).0, start_returns t t.start refl m.0 shut)
