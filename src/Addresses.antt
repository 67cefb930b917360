-- ===== src/Addresses.antt =====
-- The addresses of src/security.ts. A text is the list of its UTF-16 code units. node's `isIP`, the
-- look-up of names and `toLowerCase` are given.
pub mod Ranges
pub mod Targets
pub mod Fetching
pub mod Spelling
pub mod Refusing
use cursor_claw.Base.{
  ℕ, suc, ◌+◌, ◌-◌, ◌*◌, ◌/◌, ◌%◌, Bool, true, false, ◌||◌, ◌&&◌, not, Option, none, some, List, [],
  ◌∷◌, ◌++◌, ltb, leb, eqb, if◌then◌else◌, any, dedup, list_beq, nat_eq, map, drop,
}
use cursor_claw.Base.Dict.{or_else}
use cursor_claw.Cron.Duration.{trim, trim_start}

pub record Network : Type 0 where
  pub lower : List ℕ → List ℕ
  -- 4, 6, or 0 for a text that is no address.
  pub is_ip : List ℕ → ℕ
  -- `none` when the look-up fails.
  pub lookup : List ℕ → Option (List (List ℕ))

abbrev dot : ℕ
dot = 46

-- `split(".")`.
abbrev pub add_to_first : ℕ → List (List ℕ) → List (List ℕ)
add_to_first c [] = (c ∷ []) ∷ []
add_to_first c (s ∷ ss) = (c ∷ s) ∷ ss

unfoldable pub split : List ℕ → List (List ℕ)
split [] = [] ∷ []
split (c ∷ s) = let rest = split s in if eqb c dot then [] ∷ rest else add_to_first c rest

abbrev pub digit_value : ℕ → Option ℕ
digit_value c =
    if leb 48 c && leb c 57
    then some (c - 48)
    else if leb 97 c && leb c 122
    then some (c - 87)
    else if leb 65 c && leb c 90
    then some (c - 55)
    else none

abbrev pub is_digit_in : (radix : ℕ) → Option ℕ → Bool
is_digit_in radix none = false
is_digit_in radix (some v) = ltb v radix

unfoldable pub read_number : (radix : ℕ) → List ℕ → Option ℕ → Option ℕ
read_number radix [] acc = acc
read_number radix (c ∷ s) acc =
    let v = digit_value c in
    let rest = read_number radix s (some (or_else acc 0 * radix + or_else v 0)) in
    if is_digit_in radix v then rest else acc

-- 0x or 0X.
abbrev pub skip_prefix : (radix : ℕ) → List ℕ → List ℕ
skip_prefix radix (c ∷ d ∷ s) =
    if eqb radix 16 && (eqb c 48 && (eqb d 120 || eqb d 88)) then s else c ∷ d ∷ s
skip_prefix radix s = s

abbrev pub signed : (negative : Bool) → Option ℕ → Option (Bool × ℕ)
signed negative none = none
signed negative (some n) = some (negative, n)

-- `parseInt`: whether a minus sign stands before the number, and `none` for NaN.
abbrev pub parse_signed : (radix : ℕ) → List ℕ → Option (Bool × ℕ)
parse_signed radix [] = none
parse_signed radix (c ∷ s) =
    if eqb c 45
    then signed true (read_number radix (skip_prefix radix s) none)
    else if eqb c 43
    then signed false (read_number radix (skip_prefix radix s) none)
    else signed false (read_number radix (skip_prefix radix (c ∷ s)) none)

unfoldable pub parse_int : (radix : ℕ) → List ℕ → Option (Bool × ℕ)
unfolding read_number trim_start
parse_int radix s = parse_signed radix (trim_start s)

-- A number of a segment that is not negative and at most 255; -0 is 0.
abbrev pub octet : Option (Bool × ℕ) → Option ℕ
octet none = none
octet (some (negative, n)) = if negative && ltb 0 n || ltb 255 n then none else some n

abbrev pub segment_number : List ℕ → Option (Bool × ℕ)
segment_number (c ∷ d ∷ s) =
    if eqb c 48 && eqb d 120
    then parse_int 16 s
    else if eqb c 48
    then parse_int 8 (c ∷ d ∷ s)
    else parse_int 10 (c ∷ d ∷ s)
segment_number s = parse_int 10 s

unfoldable pub parse_segment : List ℕ → Option ℕ
unfolding parse_int
parse_segment seg = octet (segment_number (trim seg))

-- A number below 256 in decimal.
unfoldable pub show_octet : ℕ → List ℕ
show_octet n =
    if ltb n 10
    then (48 + n) ∷ []
    else if ltb n 100
    then (48 + n / 10) ∷ (48 + n % 10) ∷ []
    else (48 + n / 100) ∷ (48 + n / 10 % 10) ∷ (48 + n % 10) ∷ []

unfoldable pub show_ipv4 : (a b c d : ℕ) → List ℕ
unfolding show_octet
show_ipv4 a b c d =
    show_octet a ++ dot ∷ (show_octet b ++ dot ∷ (show_octet c ++ dot ∷ show_octet d))

abbrev pub show_all : Option ℕ → Option ℕ → Option ℕ → Option ℕ → Option (List ℕ)
show_all (some a) (some b) (some c) (some d) = some (show_ipv4 a b c d)
show_all _ _ _ _ = none

abbrev pub four_segments : List (List ℕ) → Option (List ℕ)
four_segments (a ∷ b ∷ c ∷ d ∷ []) =
    show_all (parse_segment a) (parse_segment b) (parse_segment c) (parse_segment d)
four_segments _ = none

unfoldable pub normalize_and_parse_ipv4 : Network → (host : List ℕ) → Option (List ℕ)
unfolding split parse_segment show_ipv4
normalize_and_parse_ipv4 net host = four_segments (split (net.lower (trim host)))

-- A sum of numbers with signs as its positive and its negative part.
abbrev add_part : (factor : ℕ) → (part : Bool × ℕ) → ℕ × ℕ → ℕ × ℕ
add_part factor (true, n) (p, m) = (p, m + factor * n)
add_part factor (false, n) (p, m) = (p + factor * n, m)

abbrev pub difference : ℕ × ℕ → Option ℕ
difference (p, m) = if ltb p m then none else some (p - m)

abbrev pub long_of :
    Option (Bool × ℕ) → Option (Bool × ℕ) → Option (Bool × ℕ) → Option (Bool × ℕ) → Option ℕ
long_of (some a) (some b) (some c) (some d) =
    difference (add_part 16777216 a (add_part 65536 b (add_part 256 c (add_part 1 d (0, 0)))))
long_of _ _ _ _ = none

abbrev pub long_of_parts : List (List ℕ) → Option ℕ
long_of_parts (a ∷ b ∷ c ∷ d ∷ []) =
    long_of (parse_int 10 a) (parse_int 10 b) (parse_int 10 c) (parse_int 10 d)
long_of_parts _ = none

-- `none` for a negative answer.
unfoldable pub ip_to_long : List ℕ → Option ℕ
unfolding split parse_int
ip_to_long ip = long_of_parts (split ip)

abbrev pub long : (a b c d : ℕ) → ℕ
long a b c d = 16777216 * a + (65536 * b + (256 * c + d))

abbrev pub in_range : (n : ℕ) → ℕ × ℕ → Bool
in_range n (start, end) = leb start n && leb n end

abbrev pub private_ranges : List (ℕ × ℕ)
private_ranges =
    (long 10 0 0 0, long 10 255 255 255)
    ∷ (long 127 0 0 0, long 127 255 255 255)
    ∷ (long 169 254 0 0, long 169 254 255 255)
    ∷ (long 172 16 0 0, long 172 31 255 255)
    ∷ (long 192 168 0 0, long 192 168 255 255)
    ∷ (long 0 0 0 0, long 0 255 255 255)
    ∷ (long 100 64 0 0, long 100 127 255 255)
    ∷ (long 198 18 0 0, long 198 19 255 255)
    ∷ (long 224 0 0 0, long 255 255 255 255)
    ∷ []

abbrev pub bind_ranges : List (ℕ × ℕ)
bind_ranges =
    (long 10 0 0 0, long 10 255 255 255)
    ∷ (long 127 0 0 0, long 127 255 255 255)
    ∷ (long 169 254 0 0, long 169 254 255 255)
    ∷ (long 172 16 0 0, long 172 31 255 255)
    ∷ (long 192 168 0 0, long 192 168 255 255)
    ∷ (long 100 64 0 0, long 100 127 255 255)
    ∷ []

abbrev pub in_ranges : List (ℕ × ℕ) → Option ℕ → Bool
in_ranges ranges none = false
in_ranges ranges (some n) = any (in_range n) ranges

unfoldable pub is_private_ipv4 : (ip : List ℕ) → Bool
unfolding ip_to_long
is_private_ipv4 ip = in_ranges private_ranges (ip_to_long ip)

abbrev starts_with : (prefix s : List ℕ) → Bool
starts_with [] s = true
starts_with (c ∷ prefix) [] = false
starts_with (c ∷ prefix) (d ∷ s) = eqb c d && starts_with prefix s

-- `::1`, `::` and `::ffff:`.
abbrev loopback_v6 : List ℕ
loopback_v6 = b':' ∷ b':' ∷ b'1' ∷ []

abbrev unspecified_v6 : List ℕ
unspecified_v6 = b':' ∷ b':' ∷ []

abbrev mapped_prefix : List ℕ
mapped_prefix = b':' ∷ b':' ∷ b'f' ∷ b'f' ∷ b'f' ∷ b'f' ∷ b':' ∷ []

-- `/^fe[89ab]/i`, of a text in lower case.
unfoldable pub is_link_local : List ℕ → Bool
is_link_local (c ∷ d ∷ x ∷ s) =
    eqb c b'f' && (eqb d b'e' && (eqb x b'8' || (eqb x b'9' || (eqb x b'a' || eqb x b'b'))))
is_link_local _ = false

abbrev all_digits : List ℕ → Bool
all_digits [] = true
all_digits (c ∷ s) = leb 48 c && leb c 57 && all_digits s

abbrev is_number : List ℕ → Bool
is_number [] = false
is_number s = all_digits s

abbrev are_four_numbers : List (List ℕ) → Bool
are_four_numbers (a ∷ b ∷ c ∷ d ∷ []) = is_number a && (is_number b && (is_number c && is_number d))
are_four_numbers _ = false

-- The text after `::ffff:` if it is four numbers with dots.
unfoldable pub parse_mapped_ipv4 : Network → List ℕ → Option (List ℕ)
unfolding split
parse_mapped_ipv4 net ip =
    let lower = net.lower ip in
    let v4 = drop 7 lower in
    if starts_with mapped_prefix lower && are_four_numbers (split v4) then some v4 else none

-- A mapped address that is no four numbers counts as private.
abbrev pub is_private_mapped : Option (List ℕ) → Bool
is_private_mapped none = true
is_private_mapped (some v4) = is_private_ipv4 v4

unfoldable pub is_private_ip : Network → (ip : List ℕ) → Bool
unfolding is_private_ipv4 parse_mapped_ipv4 is_link_local
is_private_ip net ip =
    let normalized = net.lower ip in
    if eqb (net.is_ip ip) 4
    then is_private_ipv4 ip
    else if not (eqb (net.is_ip ip) 6)
    then false
    else if starts_with mapped_prefix normalized
    then is_private_mapped (parse_mapped_ipv4 net normalized)
    else if list_beq normalized loopback_v6 || list_beq normalized unspecified_v6
    then true
    else if starts_with (b'f' ∷ b'c' ∷ []) normalized || starts_with (b'f' ∷ b'd' ∷ []) normalized
    then true
    else is_link_local normalized

abbrev pub in_bind_ranges : Option ℕ → Bool
in_bind_ranges none = false
in_bind_ranges (some n) =
    if leb (long 0 0 0 0) n && leb n (long 0 255 255 255)
    then false
    else any (in_range n) bind_ranges

unfoldable pub is_safe_bind_address : Network → (ip : List ℕ) → Bool
unfolding ip_to_long is_link_local
is_safe_bind_address net ip =
    if eqb (net.is_ip ip) 4
    then in_bind_ranges (ip_to_long ip)
    else if eqb (net.is_ip ip) 6
    then list_beq (net.lower ip) loopback_v6 || is_link_local (net.lower ip)
    else false
