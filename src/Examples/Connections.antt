-- ===== src/Examples/Connections.antt =====
-- Tests of the servers that are found and of the connections to them.
use mathlib.Core.List.Perm
use api_ratelimit.Common.{GoString, text, Dict, ℕ, ◌≡◌, refl, ◌↔◌, false, List, [], ◌∷◌}
use api_ratelimit.Srv.{parse_srv, AddrsLookup, found, SrvParts, Addr}
use api_ratelimit.Srv.Parts.{srv_name, parse_srv_iff}
use api_ratelimit.Srv.Order.{SameServers}
use api_ratelimit.Redis.Driver.{ClientImpl}
use api_ratelimit.Redis.Setup.{PoolSettings, RadixLibrary}
use api_ratelimit.Examples.{counting}
use api_ratelimit.Memcached.Servers.{
  refresh_servers_periodically, new_memcache_from_settings, servers_in_order, ServerLibrary, tick,
  finish, none_left, ticks, finishes,
}

abbrev imaps : SrvParts
imaps = record { service = text "imaps"; proto = text "tcp"; name = text "gmail.com" }

parse_srv_iff_example :
    (parse_srv (text "_imaps._tcp.gmail.com") ≡ found imaps)
    ↔ (text "_imaps._tcp.gmail.com" ≡ srv_name imaps)
parse_srv_iff_example =
    parse_srv_iff (text "_imaps._tcp.gmail.com") imaps ((λ e. cc), refl) ((λ e. cc), refl)
      ((λ e. cc), refl)

abbrev host : GoString → Addr
host name = record { target = name; port = 11211 }

abbrev answers : AddrsLookup
answers parts = found (host (text "b") ∷ host (text "a") ∷ [])

abbrev answers_turned : AddrsLookup
answers_turned parts = found (host (text "a") ∷ host (text "b") ∷ [])

turned : (parts : SrvParts) → SameServers (answers parts) (answers_turned parts)
turned parts = Perm.swap _ _ _

abbrev server_library : ServerLibrary (List GoString) (List GoString)
server_library = record {
  no_servers = [];
  set_servers = λ l m. found l;
  new_from_selector = λ m. m;
  new_client = λ l. l;
}

servers_in_order_example :
    (new_memcache_from_settings server_library (text "_imaps._tcp.gmail.com") [] answers
      ≡ new_memcache_from_settings server_library (text "_imaps._tcp.gmail.com") [] answers_turned)
    × (refresh_servers_periodically server_library
          (text "_imaps._tcp.gmail.com")
          (tick answers ∷ finish ∷ [])
          []
        ≡ refresh_servers_periodically server_library
            (text "_imaps._tcp.gmail.com")
            (tick answers_turned ∷ finish ∷ [])
            [])
servers_in_order_example =
    servers_in_order server_library (text "_imaps._tcp.gmail.com") [] answers answers_turned
      (tick answers ∷ finish ∷ []) (tick answers_turned ∷ finish ∷ []) [] turned
      (ticks turned (finishes none_left))

-- One connection that is made and closed.

-- A library whose servers all answer.
abbrev answering : RadixLibrary (Dict ℕ)
answering = record {
  connect = λ kind socket_type url options. found counting;
  ping = λ radix. found (text "PONG");
}

abbrev one_server : PoolSettings
one_server = record {
  use_tls = false;
  auth = text "user:pass";
  socket_type = text "tcp";
  redis_type = text "SINGLE";
  url = text "localhost:6379";
  pool_size = 10;
  pipeline_window = 0;
  pipeline_limit = 0;
}

abbrev without_pipelining : ClientImpl (Dict ℕ)
without_pipelining = record { radix = counting; implicit_pipelining = false }
