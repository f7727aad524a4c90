-- ===== src/Srv.antt =====
-- src/srv/srv.go. The query of the name service is a parameter.
pub mod Order
pub mod Parts
use api_ratelimit.Common.{
  ltb, if◌then◌else◌, nat_eq, any, GoString, text, ℕ, Bool, true, false, ◌&&◌, ◌||◌, Option, none,
  some, List, [], ◌∷◌, ◌++◌, map,
}
use api_ratelimit.Common.Strings.{after_prefix, format_uint}

-- A result with Go's `error`, as its text.
pub data Result {ℓ} (A : Type ℓ) : Type ℓ where
  found : A → Result A
  failed : GoString → Result A

abbrev pub and_found {ℓ κ} : {A : Type ℓ} {B : Type κ} → Result A → (A → Result B) → Result B
and_found (found a) f = f a
and_found (failed e) f = failed e

-- The parts of `_service._proto.name`.
pub record SrvParts : Type 0 where
  pub service : GoString
  pub proto : GoString
  pub name : GoString

abbrev pub is_line_end : ℕ → Bool
is_line_end c = nat_eq c 10

abbrev pub push_group {ℓ} : {B : Type ℓ} → ℕ → Option (GoString × B) → Option (GoString × B)
push_group c none = none
push_group c (some (g, b)) = some (c ∷ g, b)

abbrev pub or_longer {ℓ} : {A : Type ℓ} → Option A → Option A → Option A
or_longer none b = b
or_longer (some a) b = some a

abbrev pub no_more {ℓ} : {B : Type ℓ} → Option B → Option (GoString × B)
no_more none = none
no_more (some b) = some ([], b)

abbrev pub behind {ℓ} :
    {B : Type ℓ} → (GoString → Option B) → Option GoString → Option (GoString × B)
behind next none = none
behind next (some rest) = no_more (next rest)

-- srv.go, srvRegex: `.*?` and a separator, the shortest with which the rest matches. The dot does
-- not match the end of a line.
unfoldable pub shortest {ℓ} :
    {B : Type ℓ} → GoString → (GoString → Option B) → GoString → Option (GoString × B)
unfolding after_prefix
shortest sep next [] = none
shortest sep next (c ∷ s) =
    let longer = shortest sep next s in
    or_longer (behind next (after_prefix sep (c ∷ s)))
      (if is_line_end c then none else push_group c longer)

-- `.+?` and a separator
unfoldable pub group {ℓ} :
    {B : Type ℓ} → GoString → (GoString → Option B) → GoString → Option (GoString × B)
unfolding shortest
group sep next [] = none
group sep next (c ∷ s) = if is_line_end c then none else push_group c (shortest sep next s)

-- `.+` up to the end
unfoldable pub to_end : GoString → Option GoString
to_end [] = none
to_end (c ∷ s) = if any is_line_end (c ∷ s) then none else some (c ∷ s)

unfoldable pub match_parts : GoString → Option (GoString × (GoString × GoString))
unfolding group to_end after_prefix
match_parts srv = elim (after_prefix (text "_") srv) [
  | none ↦ none
  | some rest ↦ group (text "._") (group (text ".") to_end) rest
]

abbrev pub not_srv : GoString → GoString
not_srv srv = text "could not parse " ++ (srv ++ text " to SRV parts")

abbrev pub or_not_srv : GoString → Option (GoString × (GoString × GoString)) → Result SrvParts
or_not_srv srv none = failed (not_srv srv)
or_not_srv srv (some (service, (proto, name))) =
    found (record { service = service; proto = proto; name = name })

-- srv.go, ParseSrv
unfoldable pub parse_srv : GoString → Result SrvParts
unfolding match_parts
parse_srv srv = or_not_srv srv (match_parts srv)

-- net.SRV, as far as it is read
pub record Addr : Type 0 where
  pub target : GoString
  pub port : ℕ

-- srv.go, addrsLookup
abbrev pub AddrsLookup : Type 0
AddrsLookup = SrvParts → Result (List Addr)

-- `fmt.Sprintf("%s:%v", srv.Target, srv.Port)`
abbrev pub server_string : Addr → GoString
server_string addr = addr.target ++ b':' ∷ format_uint addr.port

-- sort.Strings: the order of strings is that of their bytes.
unfoldable pub string_leb : GoString → GoString → Bool
string_leb [] t = true
string_leb (c ∷ s) [] = false
string_leb (c ∷ s) (d ∷ t) = ltb c d || (nat_eq c d && string_leb s t)

unfoldable pub insert_string : GoString → List GoString → List GoString
unfolding string_leb
insert_string s [] = s ∷ []
insert_string s (t ∷ ts) =
    let later = insert_string s ts in if string_leb s t then s ∷ t ∷ ts else t ∷ later

unfoldable pub sort_strings : List GoString → List GoString
unfolding insert_string
sort_strings [] = []
sort_strings (s ∷ ss) = insert_string s (sort_strings ss)

-- srv.go, lookupServerStringsFromSrv
unfoldable pub lookup_server_strings_from_srv : GoString → AddrsLookup → Result (List GoString)
unfolding parse_srv sort_strings
lookup_server_strings_from_srv srv addrs_lookup =
    and_found (parse_srv srv)
      λ parts. and_found (addrs_lookup parts) λ srvs. found (sort_strings (map server_string srvs))
