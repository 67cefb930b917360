-- ===== src/Addresses/Targets.antt =====
-- The look-ups of src/security.ts: `resolveHostAddresses`, `validateBindAddress` and
-- `resolveSafeFetchTarget`.
use cursor_claw.Base.{
  ℕ, Bool, true, false, ◌||◌, not, Option, none, some, List, [], ◌∷◌, eqb, if◌then◌else◌, dedup,
  keep, Eq, list_beq, list_beq_iff, nat_eq, ◌==◌, string_eq, String,
}
use cursor_claw.Base.Dict.{or_else}
use cursor_claw.Cron.Duration.{trim}
use cursor_claw.Addresses.{Network, normalize_and_parse_ipv4, is_private_ip, is_safe_bind_address}

instance abbrev pub text_eq : Eq (List ℕ)
text_eq = record { is_same = list_beq; is_same_iff = list_beq_iff }

abbrev strip_open : List ℕ → List ℕ
strip_open [] = []
strip_open (c ∷ s) = if eqb c b'[' then s else c ∷ s

abbrev strip_close : List ℕ → List ℕ
strip_close [] = []
strip_close (c ∷ []) = if eqb c b']' then [] else c ∷ []
strip_close (c ∷ d ∷ s) = c ∷ strip_close (d ∷ s)

-- `replace(/^\[/, "").replace(/\]$/, "")`.
unfoldable pub strip_brackets : List ℕ → List ℕ
strip_brackets s = strip_close (strip_open s)

-- No address is an error, as is a failed look-up.
abbrev pub found_addresses : Option (List (List ℕ)) → Option (List (List ℕ))
found_addresses none = none
found_addresses (some []) = none
found_addresses (some (ip ∷ ips)) = some (ip ∷ ips)

abbrev pub numeric_or_named : Network → (host : List ℕ) → Option (List ℕ) → Option (List (List ℕ))
numeric_or_named net host none = found_addresses (net.lookup host)
numeric_or_named net host (some ip) = some (ip ∷ [])

unfoldable pub resolve_host_addresses : Network → (hostname : List ℕ) → Option (List (List ℕ))
unfolding normalize_and_parse_ipv4 strip_brackets
resolve_host_addresses net hostname =
    let host = strip_brackets hostname in
    if eqb (net.is_ip host) 4
    then some (or_else (normalize_and_parse_ipv4 net host) host ∷ [])
    else if eqb (net.is_ip host) 6
    then some (host ∷ [])
    else numeric_or_named net host (normalize_and_parse_ipv4 net host)

-- A URL by what `resolveSafeFetchTarget` reads of it.
pub record Url : Type 0 where
  pub protocol : String
  pub hostname : List ℕ

pub data FetchTarget : Type 0 where
  protocol_not_allowed hostname_missing unresolved : FetchTarget
  blocked : (address : List ℕ) → FetchTarget
  target : (resolved_addresses : List (List ℕ)) → FetchTarget

-- The first private address.
unfoldable pub find_private : Network → List (List ℕ) → Option (List ℕ)
unfolding is_private_ip
find_private net [] = none
find_private net (ip ∷ ips) =
    let rest = find_private net ips in if is_private_ip net ip then some ip else rest

abbrev pub fetch_found : (addresses : List (List ℕ)) → Option (List ℕ) → FetchTarget
fetch_found addresses none = target (dedup addresses)
fetch_found addresses (some ip) = blocked ip

abbrev pub fetch_resolved : Network → Option (List (List ℕ)) → FetchTarget
fetch_resolved net none = unresolved
fetch_resolved net (some addresses) = fetch_found addresses (find_private net addresses)

abbrev pub is_empty : List ℕ → Bool
is_empty [] = true
is_empty (c ∷ s) = false

unfoldable pub resolve_safe_fetch_target : Network → Url → FetchTarget
unfolding resolve_host_addresses find_private
resolve_safe_fetch_target net url =
    if not (url.protocol == "http:" || url.protocol == "https:")
    then protocol_not_allowed
    else if is_empty url.hostname
    then hostname_missing
    else fetch_resolved net (resolve_host_addresses net url.hostname)

pub data BindCheck : Type 0 where
  valid empty_address not_allowed bind_unresolved : BindCheck
  resolves_to_unsafe : List (List ℕ) → BindCheck

abbrev pub bind_unsafe : List (List ℕ) → BindCheck
bind_unsafe [] = valid
bind_unsafe (ip ∷ ips) = resolves_to_unsafe (ip ∷ ips)

abbrev pub bind_resolved : Network → Option (List (List ℕ)) → BindCheck
bind_resolved net none = bind_unresolved
bind_resolved net (some addresses) =
    bind_unsafe (keep (λ ip. not (is_safe_bind_address net ip)) addresses)

unfoldable pub validate_bind_address : Network → (bind_address : List ℕ) → BindCheck
unfolding is_safe_bind_address resolve_host_addresses strip_brackets
validate_bind_address net bind_address =
    let normalized = strip_brackets (trim bind_address) in
    if is_empty (trim bind_address)
    then empty_address
    else if not (eqb (net.is_ip normalized) 0)
    then (if is_safe_bind_address net normalized then valid else not_allowed)
    else bind_resolved net (resolve_host_addresses net normalized)
