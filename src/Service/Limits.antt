-- ===== src/Service/Limits.antt =====
-- src/service/ratelimit.go, constructLimitsToCheck. The limits are pointers: each is read where the
-- code reads it, and the backend reads them in the configuration that the lookups leave.
use api_ratelimit.Common.{
  if◌then◌else◌, any, GoString, ◌==◌, Dict, Bool, true, false, Option, none, some, List, [], ◌∷◌,
  ◌++◌, map,
}
use api_ratelimit.Stats.{Calls}
use api_ratelimit.Request.{Descriptor}
use api_ratelimit.Config.Limit.{RateLimit}
use api_ratelimit.Config.Tree.{Node}
use api_ratelimit.Config.Lookup.{get_limit, deref, LimitRef, nil_limit}

abbrev pub contains : GoString → List GoString → Bool
contains k xs = any (λ x. x == k) xs

-- constructLimitsToCheck: what one descriptor adds, its limit, whether it is unlimited, and the names
-- that it replaces
pub record Looked : Type 0 where
  pub limit : LimitRef
  pub unlimited : Bool
  pub replaces : List GoString

unfoldable pub look : LimitRef → Option RateLimit → Looked
look ref none = record { limit = ref; unlimited = false; replaces = [] }
look ref (some l) =
    if l.unlimited
    then record { limit = nil_limit; unlimited = true; replaces = l.replaces }
    else record { limit = ref; unlimited = false; replaces = l.replaces }

-- The slices after the first loop: limitsToCheck, isUnlimited, the set `replacing` as the list of the
-- names put in it, and the configuration and the calls of counters.
pub record Lookups : Type 0 where
  pub limits : List LimitRef
  pub unlimited : List Bool
  pub replacing : List GoString
  pub domains : Dict Node
  pub calls : Calls

-- constructLimitsToCheck: the first loop
unfoldable pub look_up : GoString → List Descriptor → Dict Node → Calls → Lookups
unfolding look
look_up domain [] domains calls = record {
  limits = [];
  unlimited = [];
  replacing = [];
  domains = domains;
  calls = calls;
}
look_up domain (d ∷ ds) domains calls =
    let (ref, domains', calls') = get_limit domains domain d calls in
    let looked = look ref (deref domains' domain ref) in
    let rest = look_up domain ds domains' calls' in
    record rest {
      limits = looked.limit ∷ rest.limits;
      unlimited = looked.unlimited ∷ rest.unlimited;
      replacing = looked.replaces ++ rest.replacing;
    }

-- constructLimitsToCheck: the body of the second loop
unfoldable pub drop_replaced : List GoString → Option RateLimit → Option RateLimit
drop_replaced replacing none = none
drop_replaced replacing (some l) =
    if l.name == [] then some l else if contains l.name replacing then none else some l

-- ratelimit.go, constructLimitsToCheck: the limits for the backend, and the lookups.
unfoldable pub construct_limits_to_check :
    GoString → List Descriptor → Dict Node → Calls → List (Option RateLimit) × Lookups
unfolding look_up drop_replaced
construct_limits_to_check domain descriptors domains calls =
    let found = look_up domain descriptors domains calls in
    (
      map (λ ref. drop_replaced found.replacing (deref found.domains domain ref)) found.limits,
      found,
    )
