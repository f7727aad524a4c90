-- ===== src/Srv/Order.antt =====
-- The order of the servers that src/srv/srv.go finds.
use mathlib.Core.List.{Perm, Permᴰ}
use mathlib.Core.Logic.{∥∥₁_elim}
use api_ratelimit.Common.{GoString, ◌≡◌, refl, sym, ap, ◌∙◌, true, false, List, [], ◌∷◌, map, arith}
use api_ratelimit.Srv.{
  and_found, parse_srv, AddrsLookup, server_string, string_leb, insert_string, sort_strings,
  lookup_server_strings_from_srv, Result, found, failed, SrvParts, Addr,
}

leb_refl : (s : GoString) → string_leb s s ≡ true
unfolding string_leb
leb_refl [] = refl
leb_refl (c ∷ s) = ground (arith, leb_refl s)

leb_total : (s t : GoString) → string_leb s t ≡ false → string_leb t s ≡ true
unfolding string_leb
leb_total [] t h = cc
leb_total (c ∷ s) [] h = refl
leb_total (c ∷ s) (d ∷ t) h = ground (arith, leb_total s t)

leb_antisym : (s t : GoString) → string_leb s t ≡ true → string_leb t s ≡ true → s ≡ t
unfolding string_leb
leb_antisym [] [] h g = refl
leb_antisym [] (d ∷ t) h g = cc
leb_antisym (c ∷ s) [] h g = cc
leb_antisym (c ∷ s) (d ∷ t) h g = ground (arith, leb_antisym s t)

leb_trans :
    (s t u : GoString) → string_leb s t ≡ true → string_leb t u ≡ true → string_leb s u ≡ true
unfolding string_leb
leb_trans [] t u h g = refl
leb_trans (c ∷ s) [] u h g = cc
leb_trans (c ∷ s) (d ∷ t) [] h g = cc
leb_trans (c ∷ s) (d ∷ t) (e ∷ u) h g = ground (arith, leb_trans s t u)

insert_swap :
    (s t : GoString) (l : List GoString)
    → insert_string s (insert_string t l) ≡ insert_string t (insert_string s l)
unfolding insert_string
insert_swap s t [] = ground (leb_total s t, leb_total t s, leb_antisym s t, arith)
insert_swap s t (u ∷ l) = ground (
  leb_total s t,
  leb_total t s,
  leb_antisym s t,
  leb_trans s t u,
  leb_trans t s u,
  leb_trans s u t,
  leb_trans t u s,
  insert_swap s t l,
  leb_total s u,
  leb_total t u,
  arith,
)

sorted-map :
    {l l' : List Addr}
    → Permᴰ l l'
    → sort_strings (map server_string l) ≡ sort_strings (map server_string l')
unfolding sort_strings
sorted-map Permᴰ.nil = refl
sorted-map (Permᴰ.cons {a = a} e p) = rw (e, sorted-map p) refl
sorted-map (Permᴰ.swap {a = a} {b = b} {l = l} e f) =
    rw (sym e, sym f)
      (insert_swap (server_string a) (server_string b) (sort_strings (map server_string l)))
sorted-map (Permᴰ.trans p q) = sorted-map p ∙ sorted-map q

-- Replies of the name service with the same servers, in any order.
abbrev pub SameServers : Result (List Addr) → Result (List Addr) → Type 0
SameServers (found l) (found l') = Perm l l'
SameServers (failed e) (failed e') = e ≡ e'
SameServers _ _ = ⊥

strings_set : IsSet (List GoString)
strings_set = hlevel

sorted_alike :
    (l l' : List Addr)
    → Perm l l'
    → sort_strings (map server_string l) ≡ sort_strings (map server_string l')
sorted_alike l l' p = ∥∥₁_elim p (strings_set _ _) λ q. sorted-map q

sorted_same :
    (r r' : Result (List Addr))
    → SameServers r r'
    → and_found r (λ l. found (sort_strings (map server_string l)))
      ≡ and_found r' (λ l. found (sort_strings (map server_string l)))
sorted_same (found l) (found l') p = ap found (sorted_alike l l' p)
sorted_same (failed e) (failed e') h = ap failed h
sorted_same (found l) (failed e') h = absurd h
sorted_same (failed e) (found l') h = absurd h

-- The servers do not depend on the order in which the name service gives them, and its errors are
-- passed on.
pub lookup_servers-same :
    (srv : GoString) (dns dns' : AddrsLookup)
    → ((parts : SrvParts) → SameServers (dns parts) (dns' parts))
    → lookup_server_strings_from_srv srv dns ≡ lookup_server_strings_from_srv srv dns'
unfolding lookup_server_strings_from_srv
lookup_servers-same srv dns dns' h =
    ap (and_found (parse_srv srv)) λ i parts. sorted_same (dns parts) (dns' parts) (h parts) i
