-- ===== src/Redis/Setup.antt =====
-- The clients of Redis from their settings: NewClientImpl of src/redis/driver_impl.go and
-- NewRateLimiterCacheImplFromSettings of src/redis/cache_impl.go. The driver library is a parameter.
pub mod Connected
use api_ratelimit.Common.{
  if◌then◌else◌, GoString, text, ◌==◌, and_then, redis_error, Outcome, returns, panics, ℕ, ◌≡◌,
  Bool, true, false, Option, none, some, List, [], ◌∷◌, ◌++◌,
}
use api_ratelimit.Common.Strings.{cut}
use api_ratelimit.Srv.{Result, found, failed}
use api_ratelimit.Limiter.{BaseRateLimiter}
use api_ratelimit.Redis.Driver.{
  client_of, implicit_pipelining, choose_client, Radix, Client, ClientImpl, RedisType,
}
use api_ratelimit.Redis.FixedCache.{FixedCache}

-- The options of a connection for the authentication: none, DialAuthUser and DialAuthPass.
pub data DialAuth : Type 0 where
  no_auth : DialAuth
  auth_user : GoString → GoString → DialAuth
  auth_pass : GoString → DialAuth

-- driver_impl.go, NewClientImpl: the choice of the option
unfoldable pub dial_auth : GoString → DialAuth
unfolding cut
dial_auth auth = if auth == [] then no_auth else elim (cut auth (text ":")) [
  | none ↦ auth_pass auth
  | some (user, pass) ↦ auth_user user pass
]

-- The settings of one pool; the window of the pipeline is a duration.
pub record PoolSettings : Type 0 where
  pub use_tls : Bool
  pub auth : GoString
  pub socket_type : GoString
  pub redis_type : GoString
  pub url : GoString
  pub pool_size : ℕ
  pub pipeline_window : ℕ
  pub pipeline_limit : ℕ

-- The options of a pool and of its connections, as far as the settings give them.
pub record PoolOptions : Type 0 where
  pub tls : Bool
  pub auth : DialAuth
  pub size : ℕ
  pub pipelining : Option (ℕ × ℕ)

-- driver_impl.go, NewClientImpl: the options
unfoldable pub pool_options : PoolSettings → PoolOptions
unfolding dial_auth implicit_pipelining
pool_options s = record {
  tls = s.use_tls;
  auth = dial_auth s.auth;
  size = s.pool_size;
  pipelining =
      if implicit_pipelining s.pipeline_window s.pipeline_limit
      then some (s.pipeline_window, s.pipeline_limit)
      else none;
}

-- radix: NewPool, NewCluster and NewSentinel, given the type of the socket and the url, and PING
pub record RadixLibrary (R : Type 0) : Type 0 where
  pub connect : RedisType → GoString → GoString → PoolOptions → Result (Radix R)
  pub ping : Radix R → Result GoString

-- driver_impl.go, checkError
abbrev pub check_error {ℓ} : {A : Type ℓ} → Result A → Outcome A
check_error (found a) = returns a
check_error (failed e) = panics (redis_error e)

module _ {R : Type 0} (library : RadixLibrary R) where
  abbrev pub check_pong : GoString → Outcome (Unit {0})
  check_pong reply =
      if reply == text "PONG"
      then returns tt
      else panics (redis_error (text "connecting redis error: " ++ reply))

  -- NewClientImpl, from the reply of the server on
  abbrev pub after_ping : PoolSettings → Radix R → GoString → Outcome (ClientImpl R)
  after_ping s radix reply = and_then (check_pong reply) λ u. returns (record {
    radix = radix;
    implicit_pipelining = implicit_pipelining s.pipeline_window s.pipeline_limit;
  })

  -- NewClientImpl, from the connection on
  abbrev pub after_connect : PoolSettings → Radix R → Outcome (ClientImpl R)
  after_connect s radix = and_then (check_error (library.ping radix)) (after_ping s radix)

  -- NewClientImpl, from the choice of the client on
  abbrev pub after_choice : PoolSettings → RedisType → Outcome (ClientImpl R)
  after_choice s kind =
      and_then (check_error (library.connect kind s.socket_type s.url (pool_options s)))
        (after_connect s)

  -- driver_impl.go, NewClientImpl
  unfoldable pub new_client_impl : PoolSettings → Outcome (ClientImpl R)
  unfolding choose_client pool_options implicit_pipelining
  new_client_impl s =
      and_then (choose_client s.redis_type s.url s.pipeline_window s.pipeline_limit)
        (after_choice s)

  unfoldable pub new_per_second : Bool → PoolSettings → Outcome (List (ClientImpl R))
  unfolding new_client_impl
  new_per_second false s = returns []
  new_per_second true s = and_then (new_client_impl s) λ c. returns (c ∷ [])

  abbrev pub first_client : List (ClientImpl R) → Option (Client R)
  first_client [] = none
  first_client (c ∷ cs) = some (client_of c)

  abbrev pub with_clients :
      {L F : Type 0}
      → Bool
      → BaseRateLimiter L F
      → List (ClientImpl R)
      → ClientImpl R
      → FixedCache L F R × List (ClientImpl R)
  with_clients stop base per_second other = (
    record {
      client = client_of other;
      per_second_client = first_client per_second;
      stop_cache_key_increment_when_overlimit = stop;
      base = base;
    },
    per_second ++ other ∷ [],
  )

  abbrev pub with_per_second :
      {L F : Type 0}
      → PoolSettings
      → Bool
      → BaseRateLimiter L F
      → List (ClientImpl R)
      → Outcome (FixedCache L F R × List (ClientImpl R))
  with_per_second settings stop base per_second =
      and_then (new_client_impl settings) λ other. returns (with_clients stop base per_second other)

  -- cache_impl.go, NewRateLimiterCacheImplFromSettings: the cache, and the closers in their order
  unfoldable pub new_cache_from_settings :
      {L F : Type 0}
      → Bool
      → PoolSettings
      → PoolSettings
      → Bool
      → BaseRateLimiter L F
      → Outcome (FixedCache L F R × List (ClientImpl R))
  unfolding new_per_second new_client_impl
  new_cache_from_settings redis_per_second per_second_settings settings stop base =
      and_then (new_per_second redis_per_second per_second_settings)
        (with_per_second settings stop base)

  -- A client whose server answered.
  abbrev pub Answers : ClientImpl R → Type 0
  Answers c = library.ping c.radix ≡ found (text "PONG")
