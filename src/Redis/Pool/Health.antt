-- ===== src/Redis/Pool/Health.antt =====
-- The health of the Redis component and the connections (src/redis/driver_impl.go and
-- src/server/health.go).
use api_ratelimit.Common.{
  ltb, if◌then◌else◌, Bool-cases, nat_eq, GoString, ◌==◌, eq_refl, eq_false, insert, lookup,
  lookup-insert, ℕ, ◌+◌, ◌<◌, ◌≡◌, refl, sym, ap, ◌∙◌, ◌≢◌, inl, inr, Bool, true, false, not, ◌||◌,
  Option, none, some, arith,
}
use api_ratelimit.Server.Health.{redis_component, new_health_checker, HealthChecker}
use api_ratelimit.Server.Health.Invariant.{
  report, report-IsConsistent, new-IsConsistent, IsConsistent, Report, up, down,
}
use api_ratelimit.Redis.Pool.{
  uint64_mod, add64, sub64, new_pool_stats, conn_created, conn_closed, PoolStats, Pool,
}

abbrev pub component : Report → GoString
component (up name) = name
component (down name) = name

-- One event with nothing between its calls: a connection, an error of one, the end of one that is
-- active, or a report of another component. There is one pool, for no limits per second. Fewer than 2^64 connections are made.
pub data Step (h : HealthChecker) (s : PoolStats) : Pool → Type 0 where
  opens :
      s.connection_total + 1 < uint64_mod
      → Step h s (conn_created true none (record { stats = s; health = some h }))
  refuses :
      (err : GoString)
      → Step h s (conn_created true (some err) (record { stats = s; health = some h }))
  closes :
      0 < s.connection_active → Step h s (conn_closed true (record { stats = s; health = some h }))
  others :
      (r : Report)
      → component r ≢ redis_component
      → Step h s (record { stats = s; health = some (report r h) })

pub data Reach (start : Pool) : Pool → Type 0 where
  begin : Reach start start
  later :
      {h : HealthChecker} {s : PoolStats} {p : Pool}
      → Reach start (record { stats = s; health = some h })
      → Step h s p
      → Reach start p

-- The component is up, or there was a connection and none is left.
abbrev pub redis_up : PoolStats → Bool
redis_up s = ltb 0 s.connection_active || nat_eq s.connection_close 0

abbrev pub Follows : PoolStats → Option HealthChecker → Type 0
Follows s none = Unit
Follows s (some h) = (lookup redis_component h.health_map ≡ some (redis_up s)) × IsConsistent h

pub record IsFollowed (p : Pool) : Type 0 where
  pub balance : p.stats.connection_total ≡ p.stats.connection_active + p.stats.connection_close
  pub bound : p.stats.connection_total < uint64_mod
  pub follows : Follows p.stats p.health

-- A report sets its own component, if there is one, and no other.
abbrev value_of : Report → Bool
value_of (up name) = true
value_of (down name) = false

report_same :
    (r : Report) (h : HealthChecker) {v : Bool}
    → lookup (component r) h.health_map ≡ some v
    → lookup (component r) (report r h).health_map ≡ some (value_of r)
unfolding report
report_same (up name) h {v} e =
    ground (arith, e, eq_refl name, lookup-insert name name true h.health_map)
report_same (down name) h {v} e =
    ground (arith, e, eq_refl name, lookup-insert name name false h.health_map)

report_other :
    (r : Report) (h : HealthChecker) (name : GoString)
    → component r ≢ name
    → lookup name (report r h).health_map ≡ lookup name h.health_map
unfolding report
report_other (up n) h name e =
    ground (arith, eq_false n name e, lookup-insert n name true h.health_map)
report_other (down n) h name e =
    ground (arith, eq_false n name e, lookup-insert n name false h.health_map)

opens_up :
    (s : PoolStats)
    → s.connection_active + 1 < uint64_mod
    → redis_up (record s {
      connection_total = add64 s.connection_total 1;
      connection_active = add64 s.connection_active 1;
    })
      ≡ true
unfolding add64
opens_up s fits = ground (arith, fits)

abbrev closed_stats : PoolStats → PoolStats
closed_stats s = record s {
  connection_active = sub64 s.connection_active 1;
  connection_close = add64 s.connection_close 1;
}

closes_balance : (a c t : ℕ) → 0 < a → t ≡ a + c → t < uint64_mod → t ≡ sub64 a 1 + add64 c 1
unfolding sub64 add64
closes_balance a c t some_left e fits = ground (arith, e, fits, some_left)

closes_down :
    (s : PoolStats)
    → 0 < s.connection_active
    → s.connection_active + s.connection_close < uint64_mod
    → redis_up (closed_stats s) ≡ not (nat_eq (sub64 s.connection_active 1) 0)
unfolding sub64 add64
closes_down s some_left fits = ground (arith, some_left, fits)

closes-Follows :
    (h : HealthChecker) (s : PoolStats)
    → IsFollowed (record { stats = s; health = some h })
    → 0 < s.connection_active
    → Follows (closed_stats s) (
        if nat_eq (sub64 s.connection_active 1) 0
        then some (report (down redis_component) h)
        else some h)
closes-Follows h s v some_left =
    let known = closes_down s some_left (ground (arith, v.balance, v.bound)) in
    elim (Bool-cases (nat_eq (sub64 s.connection_active 1) 0)) [
      | inl e ↦ rw e (
        report_same (down redis_component) h v.follows.0 ∙ ap some (sym (known ∙ ap not e)),
        report-IsConsistent (down redis_component) h v.follows.1,
      )
      | inr e ↦ rw e (v.follows.0 ∙ ap some (ground (arith, known, e, some_left)), v.follows.1)
    ]

-- One step keeps the invariant.
Step-IsFollowed :
    {h : HealthChecker} {s : PoolStats} {p : Pool}
    → IsFollowed (record { stats = s; health = some h })
    → Step h s p
    → IsFollowed p
unfolding conn_created conn_closed add64 sub64 report
Step-IsFollowed {h} {s} v (opens fits) = record {
  balance = ground (arith, v.balance, fits);
  bound = ground (arith, v.balance, fits);
  follows = (
    report_same (up redis_component) h v.follows.0
        ∙ ap some (sym (opens_up s (ground (arith, v.balance, fits)))),
    report-IsConsistent (up redis_component) h v.follows.1,
  );
}
Step-IsFollowed v (refuses err) = v
Step-IsFollowed {h} {s} v (closes some_left) = record {
  balance =
      closes_balance s.connection_active s.connection_close s.connection_total some_left v.balance
        v.bound;
  bound = v.bound;
  follows = closes-Follows h s v some_left;
}
Step-IsFollowed {h} {s} v (others r other) = record {
  balance = v.balance;
  bound = v.bound;
  follows =
      (report_other r h redis_component other ∙ v.follows.0, report-IsConsistent r h v.follows.1);
}

Reach-IsFollowed : {start p : Pool} → IsFollowed start → Reach start p → IsFollowed p
Reach-IsFollowed v begin = v
Reach-IsFollowed v (later r step) = Step-IsFollowed (Reach-IsFollowed v r) step

starts_up : (b : Bool) → lookup redis_component (new_health_checker b).health_map ≡ some true
unfolding new_health_checker lookup insert ◌==◌
starts_up true = refl
starts_up false = refl

-- The pool of a server that starts.
abbrev pub new_pool : Bool → Pool
new_pool b = record { stats = new_pool_stats; health = some (new_health_checker b) }

-- With the health check of active connections, one pool, and callbacks that do not overlap: whatever connections are made and closed, and whatever
-- else is reported, the connections that are made are those that are active and those that are closed,
-- and the Redis component is healthy exactly as long as a connection is active or none has been closed.
pool-IsFollowed : (b : Bool) {p : Pool} → Reach (new_pool b) p → IsFollowed p
pool-IsFollowed b r =
    Reach-IsFollowed
      (record { balance = refl; bound = omega arith; follows = (starts_up b, new-IsConsistent b) })
      r
