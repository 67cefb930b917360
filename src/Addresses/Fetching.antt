-- ===== src/Addresses/Fetching.antt =====
-- `resolveSafeFetchTarget` and `validateBindAddress` of src/security.ts: what they let through.
use cursor_claw.Base.{
  ℕ, ◌≤◌, ◌≡◌, ◌≢◌, refl, sym, ◌∙◌, subst, true, false, ◌||◌, not, Option, none, some, List, [],
  ◌∷◌, eqb, if◌then◌else◌, dedup, keep, mem-dedup, dedup-IsDistinct, IsDistinct, All, of_All,
  to_All, ◌==◌, string_eq, arith, Bool-cases, inl, inr,
}
use cursor_claw.Cron.Duration.{trim}
use cursor_claw.Addresses.{
  Network, show_ipv4, normalize_and_parse_ipv4, is_private_ip, is_safe_bind_address,
}
use cursor_claw.Addresses.Ranges.{is_special, is_private_ip-show_ipv4}
use cursor_claw.Addresses.Targets.{
  text_eq, strip_brackets, resolve_host_addresses, Url, target, blocked, find_private, fetch_found,
  fetch_resolved, is_empty, resolve_safe_fetch_target, valid, bind_unsafe, bind_resolved,
  validate_bind_address,
}

eqb-ne : (m n : ℕ) → m ≢ n → eqb m n ≡ false
eqb-ne m n h = ground (arith, h)

find_private-none :
    (net : Network) (ips : List (List ℕ))
    → find_private net ips ≡ none
    → All (λ ip. is_private_ip net ip ≡ false) ips
unfolding find_private
find_private-none net [] h = tt
find_private-none net (ip ∷ ips) h = elim (Bool-cases (is_private_ip net ip)) [
  | inl e ↦ let h' = rw e at h in cc
  | inr e ↦ (e, find_private-none net ips (rw e at h))
]

target-fetch_found :
    (net : Network) (ips addresses : List (List ℕ)) (o : Option (List ℕ))
    → find_private net ips ≡ o
    → fetch_found ips o ≡ target addresses
    → All (λ ip. is_private_ip net ip ≡ false) addresses × IsDistinct addresses
target-fetch_found net ips addresses none e h =
    let same : dedup ips ≡ addresses = cc in
    let public = find_private-none net ips e in
    subst (λ l. All (λ ip. is_private_ip net ip ≡ false) l × IsDistinct l) same
      (
        to_All _ (dedup ips) (λ ip m. of_All _ ips public ip (sym (mem-dedup ip ips) ∙ m)),
        dedup-IsDistinct ips,
      )
target-fetch_found net ips addresses (some ip) e h = cc

target-fetch_resolved :
    (net : Network) (found : Option (List (List ℕ))) (addresses : List (List ℕ))
    → fetch_resolved net found ≡ target addresses
    → All (λ ip. is_private_ip net ip ≡ false) addresses × IsDistinct addresses
target-fetch_resolved net none addresses h = cc
target-fetch_resolved net (some ips) addresses h =
    target-fetch_found net ips addresses (find_private net ips) refl h

-- A URL that may be fetched resolves to addresses none of which is private, each listed once.
pub target-resolve_safe_fetch_target :
    (net : Network) (url : Url) (addresses : List (List ℕ))
    → resolve_safe_fetch_target net url ≡ target addresses
    → All (λ ip. is_private_ip net ip ≡ false) addresses × IsDistinct addresses
unfolding resolve_safe_fetch_target
target-resolve_safe_fetch_target net url addresses h =
    elim (Bool-cases (url.protocol == "http:" || url.protocol == "https:")) [
      | inr e ↦ let h' = rw e at h in cc
      | inl e ↦ elim (Bool-cases (is_empty url.hostname)) [
        | inl f ↦ let h' = rw (e, f) at h in cc
        | inr f ↦
            target-fetch_resolved net (resolve_host_addresses net url.hostname) addresses
              (rw (e, f) at h)
      ]
    ]

-- A URL is refused when its host is read as an address of a special network. The host is no address
-- of version 6, the numbers are at most 255, and `isIP` says 4 of their decimal form.
pub resolve_safe_fetch_target-parsed :
    (net : Network) (url : Url) (a b c d : ℕ)
    → (url.protocol == "http:" || url.protocol == "https:") ≡ true
    → is_empty url.hostname ≡ false
    → net.is_ip (strip_brackets url.hostname) ≢ 6
    → normalize_and_parse_ipv4 net (strip_brackets url.hostname) ≡ some (show_ipv4 a b c d)
    → a ≤ 255
    → b ≤ 255
    → c ≤ 255
    → d ≤ 255
    → net.is_ip (show_ipv4 a b c d) ≡ 4
    → is_special a b ≡ true
    → resolve_safe_fetch_target net url ≡ blocked (show_ipv4 a b c d)
unfolding resolve_safe_fetch_target resolve_host_addresses find_private
resolve_safe_fetch_target-parsed net url a b c d p n v6 spelled ha hb hc hd v4 special =
    let private = (is_private_ip-show_ipv4 net a b c d ha hb hc hd v4).0 ∙ special in
    let other : eqb (net.is_ip (strip_brackets url.hostname)) 6 ≡ false =
      eqb-ne (net.is_ip (strip_brackets url.hostname)) 6 v6 in
    rw (p, n)
      (elim (Bool-cases (eqb (net.is_ip (strip_brackets url.hostname)) 4)) [
        | inl e ↦ rw (e, spelled) (rw private)
        | inr e ↦ rw (e, other, spelled) (rw private)
      ])

-- The address to bind, or those that its name resolves to.
abbrev pub bind_targets : Network → (bind_address : List ℕ) → Option (List (List ℕ))
bind_targets net bind_address =
    let normalized = strip_brackets (trim bind_address) in
    if not (eqb (net.is_ip normalized) 0)
    then some (normalized ∷ [])
    else resolve_host_addresses net normalized

bind_unsafe-valid :
    (net : Network) (ips : List (List ℕ))
    → bind_unsafe (keep (λ ip. not (is_safe_bind_address net ip)) ips) ≡ valid
    → All (λ ip. is_safe_bind_address net ip ≡ true) ips
bind_unsafe-valid net [] h = tt
bind_unsafe-valid net (ip ∷ ips) h = elim (Bool-cases (is_safe_bind_address net ip)) [
  | inl e ↦ (e, bind_unsafe-valid net ips (rw e at h))
  | inr e ↦ let h' = rw e at h in cc
]

bind_resolved-valid :
    (net : Network) (found : Option (List (List ℕ)))
    → bind_resolved net found ≡ valid
    → (ips : List (List ℕ)) × ((found ≡ some ips)
        × All (λ ip. is_safe_bind_address net ip ≡ true) ips)
bind_resolved-valid net none h = cc
bind_resolved-valid net (some ips) h = (ips, (refl, bind_unsafe-valid net ips h))

-- A bind address that is accepted is one that may be bound, or a name that resolves to such addresses
-- only.
pub validate_bind_address-valid :
    (net : Network) (bind_address : List ℕ)
    → validate_bind_address net bind_address ≡ valid
    → (ips : List (List ℕ)) × ((bind_targets net bind_address ≡ some ips)
        × All (λ ip. is_safe_bind_address net ip ≡ true) ips)
unfolding validate_bind_address
validate_bind_address-valid net bind_address h =
    let normalized = strip_brackets (trim bind_address) in
    elim (Bool-cases (is_empty (trim bind_address))) [
      | inl e ↦ let h' = rw e at h in cc
      | inr e ↦ elim (Bool-cases (eqb (net.is_ip normalized) 0)) [
        | inl named ↦
            rw named
              (bind_resolved-valid net (resolve_host_addresses net normalized) (rw (e, named) at h))
        | inr literal ↦ elim (Bool-cases (is_safe_bind_address net normalized)) [
          | inl safe ↦ rw literal (normalized ∷ [], (refl, (safe, tt)))
          | inr unsafe ↦ let h' = rw (e, literal, unsafe) at h in cc
        ]
      ]
    ]
