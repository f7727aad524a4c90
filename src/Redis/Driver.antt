-- ===== src/Redis/Driver.antt =====
-- src/redis/driver.go and src/redis/driver_impl.go. The library that talks to the server is a
-- parameter: what one command does, and what a pipeline of commands does.
use api_ratelimit.Common.{
  if◌then◌else◌, nat_eq, GoString, text, ◌==◌, Go, pure, ◌>>=◌, redis_error, Outcome, returns,
  panics, ℕ, ◌≡◌, refl, Bool, true, false, not, ◌&&◌, List, [], ◌∷◌, ◌++◌,
}
use api_ratelimit.Common.Strings.{split_byte, to_lower}

-- The commands that the code sends, each with the place of its receiver: the index of a slice.
pub data Action : Type 0 where
  incrby : ℕ → GoString → ℕ → Action
  expire : GoString → ℕ → Action
  get : ℕ → GoString → Action

-- driver.go, Pipeline
abbrev pub Pipeline : Type 0
Pipeline = List Action

-- A write to a receiver: the index and the number.
abbrev pub Replies : Type 0
Replies = List (ℕ × ℕ)

-- radix.Client: the replies to a command or to a pipeline, and the server that they leave.
pub record Radix (R : Type 0) : Type 0 where
  pub run : Action → R → Outcome Replies × R
  pub run_pipeline : Pipeline → R → Outcome Replies × R

-- driver.go, Client, as far as the limiter uses it: `PipeDo`.
pub record Client (R : Type 0) : Type 0 where
  pub pipe_do : Pipeline → R → Outcome Replies × R

-- driver_impl.go, clientImpl
pub record ClientImpl (R : Type 0) : Type 0 where
  pub radix : Radix R
  pub implicit_pipelining : Bool

-- driver_impl.go, PipeAppend
abbrev pub pipe_append : Pipeline → Action → Pipeline
pipe_append pipeline action = pipeline ++ action ∷ []

module _ {R : Type 0} where
  -- driver_impl.go, PipeDo: the loop over the commands, which ends at the first error
  unfoldable pub do_each : Radix R → Pipeline → Go R Replies
  do_each radix [] = pure []
  do_each radix (a ∷ p) = do first ← radix.run a; rest ← do_each radix p; pure (first ++ rest)

  -- driver_impl.go, PipeDo. The error is the panic that `checkError` makes of it.
  unfoldable pub pipe_do : ClientImpl R → Pipeline → Go R Replies
  unfolding do_each
  pipe_do c pipeline =
      if c.implicit_pipelining then do_each c.radix pipeline else c.radix.run_pipeline pipeline

  abbrev pub client_of : ClientImpl R → Client R
  client_of c = record { pipe_do = pipe_do c }

  -- What the library says of a pipeline: its commands are run in order, and the first error ends it.
  abbrev pub RunsInOrder : Radix R → Type 0
  RunsInOrder radix = (p : Pipeline) (r : R) → radix.run_pipeline p r ≡ do_each radix p r

  -- Where the library runs a pipeline in order, the client does the same with implicit pipelining and
  -- without.
  pub pipe_do-implicit :
      (radix : Radix R) (b : Bool) (p : Pipeline) (r : R)
      → RunsInOrder radix
      → pipe_do (record { radix = radix; implicit_pipelining = b }) p r ≡ do_each radix p r
  unfolding pipe_do
  pipe_do-implicit radix true p r h = refl
  pipe_do-implicit radix false p r h = h p r

-- driver_impl.go, NewClientImpl: the choice of the client by the settings
pub data RedisType : Type 0 where
  single : RedisType
  cluster : List GoString → RedisType
  sentinel : GoString → List GoString → RedisType

unfoldable pub implicit_pipelining : ℕ → ℕ → Bool
implicit_pipelining window limit = not (nat_eq window 0 && nat_eq limit 0)

unfoldable pub choose_sentinel : List GoString → Outcome RedisType
choose_sentinel (master ∷ url ∷ urls) = returns (sentinel master (url ∷ urls))
choose_sentinel _ = panics (
    redis_error (
      text
        "Expected master name and a list of urls for the sentinels, in the format: <redis master name>,<sentinel1>,...,<sentineln>"))

unfoldable pub choose_client : GoString → GoString → ℕ → ℕ → Outcome RedisType
unfolding choose_sentinel implicit_pipelining
choose_client redis_type url window limit =
    let kind = to_lower redis_type in
    if kind == text "single"
    then returns single
    else if kind == text "cluster"
    then (if implicit_pipelining window limit
        then returns (cluster (split_byte url b','))
        else panics (
            redis_error (
              text
                "Implicit Pipelining must be enabled to work with Redis Cluster Mode. Set values for REDIS_PIPELINE_WINDOW or REDIS_PIPELINE_LIMIT to enable implicit pipelining")))
    else if kind == text "sentinel"
    then choose_sentinel (split_byte url b',')
    else panics (redis_error (text "Unrecognized redis type " ++ redis_type))
