-- ===== src/Addresses/Refusing.antt =====
-- `resolveSafeFetchTarget` of src/security.ts for the spellings of an address.
use cursor_claw.Base.{
  ℕ, ◌≡◌, ◌≢◌, refl, Bool, true, false, ◌||◌, ◌&&◌, some, List, ◌∷◌, ◌++◌, leb, ◌==◌, string_eq,
  arith,
}
use cursor_claw.Cron.Duration.{trim}
use cursor_claw.Addresses.{
  Network, split, show_ipv4, four_segments, parse_segment, normalize_and_parse_ipv4,
}
use cursor_claw.Addresses.Ranges.{is_special, no_dot, split-append, split-single}
use cursor_claw.Addresses.Targets.{
  Url, strip_brackets, blocked, is_empty, resolve_safe_fetch_target,
}
use cursor_claw.Addresses.Fetching.{resolve_safe_fetch_target-parsed}
use cursor_claw.Addresses.Spelling.{
  Numeral, written, value_of, is_well_formed, no_dot-written, parse_segment-written,
}

-- A number as it may stand in an address.
abbrev pub is_octet : Numeral → Bool
is_octet x = is_well_formed x && leb (value_of x) 255

-- Four numbers with dots between them.
abbrev pub written_address : (a b c d : Numeral) → List ℕ
written_address a b c d = written a ++ b'.' ∷ (written b ++ b'.' ∷ (written c ++ b'.' ∷ written d))

octet_segment : (x : Numeral) → is_octet x ≡ true → parse_segment (written x) ≡ some (value_of x)
octet_segment x h = parse_segment-written x (ground (arith, h)) (ground (arith, h))

octet-no_dot : (x : Numeral) → is_octet x ≡ true → no_dot (written x) ≡ true
octet-no_dot x h = no_dot-written x (ground (arith, h))

four_segments-written :
    (a b c d : Numeral)
    → is_octet a ≡ true
    → is_octet b ≡ true
    → is_octet c ≡ true
    → is_octet d ≡ true
    → four_segments (split (written_address a b c d))
      ≡ some (show_ipv4 (value_of a) (value_of b) (value_of c) (value_of d))
four_segments-written a b c d ha hb hc hd =
    rw
      (
        split-append (written a) (written b ++ b'.' ∷ (written c ++ b'.' ∷ written d))
            (octet-no_dot a ha),
        split-append (written b) (written c ++ b'.' ∷ written d) (octet-no_dot b hb),
        split-append (written c) (written d) (octet-no_dot c hc),
        split-single (written d) (octet-no_dot d hd),
        octet_segment a ha,
        octet_segment b hb,
        octet_segment c hc,
        octet_segment d hd,
      )
      refl

normalize-written :
    (net : Network) (host : List ℕ) (a b c d : Numeral)
    → net.lower (trim host) ≡ written_address a b c d
    → is_octet a ≡ true
    → is_octet b ≡ true
    → is_octet c ≡ true
    → is_octet d ≡ true
    → normalize_and_parse_ipv4 net host
      ≡ some (show_ipv4 (value_of a) (value_of b) (value_of c) (value_of d))
unfolding normalize_and_parse_ipv4
normalize-written net host a b c d e ha hb hc hd = rw e (four_segments-written a b c d ha hb hc hd)

-- A URL of http or https whose host is an address of a special network is refused, however each of
-- the four numbers is spelled: in decimal, in octal after a 0 or in hexadecimal after 0x, with any
-- leading zeros after these. The host is the address up to brackets, white space around it and the
-- case of letters, the numbers are at most 255, and `isIP` does not say 6 of the host and says 4 of
-- the numbers in decimal.
pub resolve_safe_fetch_target-blocked :
    (net : Network) (url : Url) (a b c d : Numeral)
    → (url.protocol == "http:" || url.protocol == "https:") ≡ true
    → is_empty url.hostname ≡ false
    → net.lower (trim (strip_brackets url.hostname)) ≡ written_address a b c d
    → is_octet a ≡ true
    → is_octet b ≡ true
    → is_octet c ≡ true
    → is_octet d ≡ true
    → net.is_ip (strip_brackets url.hostname) ≢ 6
    → net.is_ip (show_ipv4 (value_of a) (value_of b) (value_of c) (value_of d)) ≡ 4
    → is_special (value_of a) (value_of b) ≡ true
    → resolve_safe_fetch_target net url
      ≡ blocked (show_ipv4 (value_of a) (value_of b) (value_of c) (value_of d))
resolve_safe_fetch_target-blocked net url a b c d p n host ha hb hc hd v6 v4 special =
    resolve_safe_fetch_target-parsed net url (value_of a) (value_of b) (value_of c) (value_of d) p n
      v6 (normalize-written net (strip_brackets url.hostname) a b c d host ha hb hc hd)
      (ground (arith, ha)) (ground (arith, hb)) (ground (arith, hc)) (ground (arith, hd)) v4 special
