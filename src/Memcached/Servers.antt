-- ===== src/Memcached/Servers.antt =====
-- The list of Memcached servers (src/memcached/cache_impl.go). The library of the client is a
-- parameter: what `SetServers` makes of a list of addresses, and the clients that it makes.
use api_ratelimit.Common.{
  ltb, if◌then◌else◌, length, GoString, text, ◌==◌, memcache_error, Outcome, returns, panics, ◌≡◌,
  refl, ap, ◌∙◌, not, ◌&&◌, List, [], ◌∷◌,
}
use api_ratelimit.Srv.{
  and_found, AddrsLookup, lookup_server_strings_from_srv, Result, found, failed, SrvParts,
}
use api_ratelimit.Srv.Order.{SameServers, lookup_servers-same}

-- memcache.ServerList and the constructors of memcache.Client
pub record ServerLibrary (M C : Type 0) : Type 0 where
  pub no_servers : M
  pub set_servers : List GoString → M → Result M
  pub new_from_selector : M → C
  pub new_client : List GoString → C

-- What `refreshServersPeriodically` waits for: a tick, with the name service at that time, or the end.
pub data Signal : Type 0 where
  tick : AddrsLookup → Signal
  finish : Signal

abbrev pub kept_or_new : {M : Type 0} → M → Result M → M
kept_or_new servers (found servers') = servers'
kept_or_new servers (failed e) = servers

module _ {M C : Type 0} (library : ServerLibrary M C) where
  -- cache_impl.go, refreshServers: the list that is set, or the error, after which the list is kept
  unfoldable pub refresh_servers : GoString → AddrsLookup → M → Result M
  unfolding lookup_server_strings_from_srv
  refresh_servers srv dns servers =
      and_found (lookup_server_strings_from_srv srv dns)
        λ addresses. library.set_servers addresses servers

  -- cache_impl.go, refreshServersPeriodically: an error is only logged
  unfoldable pub refresh_servers_periodically : GoString → List Signal → M → M
  unfolding refresh_servers
  refresh_servers_periodically srv [] servers = servers
  refresh_servers_periodically srv (tick dns ∷ signals) servers =
      refresh_servers_periodically srv signals
        (kept_or_new servers (refresh_servers srv dns servers))
  refresh_servers_periodically srv (finish ∷ signals) servers = servers

  abbrev unable : Result M → Outcome C
  unable (found servers) = returns (library.new_from_selector servers)
  unable (failed e) = panics (memcache_error (text "Unable to fetch servers from SRV"))

  -- cache_impl.go, newMemcachedFromSrv: the client before the first tick
  unfoldable pub new_memcached_from_srv : GoString → AddrsLookup → Outcome C
  unfolding refresh_servers
  new_memcached_from_srv srv dns = unable (refresh_servers srv dns library.no_servers)

  -- cache_impl.go, newMemcacheFromSettings, given MEMCACHE_SRV and MEMCACHE_HOST_PORT; the options of
  -- the connections are the library's.
  unfoldable pub new_memcache_from_settings : GoString → List GoString → AddrsLookup → Outcome C
  unfolding new_memcached_from_srv
  new_memcache_from_settings srv host_ports dns =
      if not (srv == []) && ltb 0 (length host_ports)
      then panics (memcache_error (text "Both MEMCADHE_HOST_PORT and MEMCACHE_SRV are set"))
      else if not (srv == [])
      then new_memcached_from_srv srv dns
      else returns (library.new_client host_ports)

  -- Two histories that differ in the order of the replies of the name service.
  pub data Alike : List Signal → List Signal → Type 0 where
    none_left : Alike [] []
    ticks :
        {dns dns' : AddrsLookup} {s s' : List Signal}
        → ((parts : SrvParts) → SameServers (dns parts) (dns' parts))
        → Alike s s'
        → Alike (tick dns ∷ s) (tick dns' ∷ s')
    finishes : {s s' : List Signal} → Alike s s' → Alike (finish ∷ s) (finish ∷ s')

  refresh-same :
      (srv : GoString) (dns dns' : AddrsLookup) (servers : M)
      → ((parts : SrvParts) → SameServers (dns parts) (dns' parts))
      → refresh_servers srv dns servers ≡ refresh_servers srv dns' servers
  unfolding refresh_servers
  refresh-same srv dns dns' servers h =
      ap (λ r. and_found r λ addresses. library.set_servers addresses servers)
        (lookup_servers-same srv dns dns' h)

  refreshes-same :
      (srv : GoString) {s s' : List Signal} (servers : M)
      → Alike s s'
      → refresh_servers_periodically srv s servers ≡ refresh_servers_periodically srv s' servers
  unfolding refresh_servers_periodically
  refreshes-same srv servers none_left = refl
  refreshes-same srv servers (ticks {dns = dns} {dns' = dns'} {s' = s'} h a) =
      refreshes-same srv (kept_or_new servers (refresh_servers srv dns servers)) a
      ∙ ap (λ r. refresh_servers_periodically srv s' (kept_or_new servers r))
          (refresh-same srv dns dns' servers h)
  refreshes-same srv servers (finishes a) = refl

  -- Where the name service gives the same servers in any order, at the start and at each tick, the
  -- settings lead to the same client or the same panic, and the refreshes to the same list.
  pub servers_in_order :
      (srv : GoString) (host_ports : List GoString) (dns dns' : AddrsLookup)
      (signals signals' : List Signal) (servers : M)
      → ((parts : SrvParts) → SameServers (dns parts) (dns' parts))
      → Alike signals signals'
      → (new_memcache_from_settings srv host_ports dns
          ≡ new_memcache_from_settings srv host_ports dns')
        × (refresh_servers_periodically srv signals servers
            ≡ refresh_servers_periodically srv signals' servers)
  unfolding new_memcache_from_settings new_memcached_from_srv
  servers_in_order srv host_ports dns dns' signals signals' servers h a = (
    ap
        (λ (r : Result M).
          if not (srv == []) && ltb 0 (length host_ports)
          then panics (memcache_error (text "Both MEMCADHE_HOST_PORT and MEMCACHE_SRV are set"))
          else if not (srv == [])
          then unable r
          else returns (library.new_client host_ports))
        (refresh-same srv dns dns' library.no_servers h),
    refreshes-same srv servers a,
  )
