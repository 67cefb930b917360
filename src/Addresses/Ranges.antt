-- ===== src/Addresses/Ranges.antt =====
-- The private ranges and the ranges to bind of src/security.ts, number by number of an address.
use cursor_claw.Base.{
  ℕ, ◌+◌, ◌*◌, ◌/◌, ◌%◌, ◌≤◌, ◌<◌, ◌≡◌, refl, ap, ◌∙◌, Bool, true, false, ◌||◌, ◌&&◌, not, Option,
  none, some, List, [], ◌∷◌, ◌++◌, ltb, leb, eqb, ltb→lt, eqb_iff, if◌then◌else◌, any, arith,
  Bool-cases, inl, inr,
}
use cursor_claw.Base.Dict.{or_else}
use cursor_claw.Cron.Duration.{trim_start, is_space}
use cursor_claw.Addresses.{
  split, digit_value, read_number, parse_int, show_octet, show_ipv4, ip_to_long, signed,
  skip_prefix, difference, long, in_range, private_ranges, Network, is_private_ip,
  is_safe_bind_address, is_private_ipv4, in_bind_ranges,
}

digit_value-digit : (k : ℕ) → k < 10 → digit_value (48 + k) ≡ some k
digit_value-digit k h = ground arith

is_space-digit : (k : ℕ) → k < 10 → is_space (48 + k) ≡ false
unfolding is_space
is_space-digit k h = ground arith

read_digit :
    (k : ℕ) (s : List ℕ) (acc : Option ℕ)
    → k < 10
    → read_number 10 ((48 + k) ∷ s) acc ≡ read_number 10 s (some (or_else acc 0 * 10 + k))
unfolding read_number
read_digit k s acc h =
    let below : ltb k 10 ≡ true = ground arith in rw (digit_value-digit k h) (rw below)

no_prefix : (c : ℕ) (s : List ℕ) → skip_prefix 10 (c ∷ s) ≡ c ∷ s
no_prefix c [] = refl
no_prefix c (d ∷ s) = refl

parse_digit :
    (k : ℕ) (s : List ℕ)
    → k < 10
    → parse_int 10 ((48 + k) ∷ s) ≡ signed false (read_number 10 s (some k))
unfolding parse_int trim_start
parse_digit k s h =
    let not_minus : eqb (48 + k) 45 ≡ false = ground arith in
    let not_plus : eqb (48 + k) 43 ≡ false = ground arith in
    rw (is_space-digit k h) (
      rw (not_minus, not_plus)
        (rw (no_prefix (48 + k) s) (
          rw (read_digit k s none h)
            (ap (λ m. signed false (read_number 10 s (some m))) (omega arith)))))

read_end : (n : ℕ) → signed false (read_number 10 [] (some n)) ≡ some (false, n)
unfolding read_number
read_end n = refl

two_digits :
    (j k : ℕ) → j < 10 → k < 10 → parse_int 10 ((48 + j) ∷ (48 + k) ∷ []) ≡ some (false, j * 10 + k)
two_digits j k h i =
    rw (parse_digit j ((48 + k) ∷ []) h, read_digit k [] (some j) i) (read_end (j * 10 + k))

three_digits :
    (i j k : ℕ)
    → i < 10
    → j < 10
    → k < 10
    → parse_int 10 ((48 + i) ∷ (48 + j) ∷ (48 + k) ∷ []) ≡ some (false, (i * 10 + j) * 10 + k)
three_digits i j k h g f =
    rw
      (
        parse_digit i ((48 + j) ∷ (48 + k) ∷ []) h,
        read_digit j ((48 + k) ∷ []) (some i) g,
        read_digit k [] (some (i * 10 + j)) f,
      )
      (read_end ((i * 10 + j) * 10 + k))

-- A number up to 255 is read back.
parse_int-show_octet : (n : ℕ) → n ≤ 255 → parse_int 10 (show_octet n) ≡ some (false, n)
unfolding show_octet read_number
parse_int-show_octet n h = elim (Bool-cases (ltb n 10)) [
  | inl e ↦ rw e (rw (parse_digit n [] (ltb→lt n 10 e)))
  | inr e ↦ rw e (elim (Bool-cases (ltb n 100)) [
    | inl f ↦
        let small = ltb→lt n 100 f in
        let same : n / 10 * 10 + n % 10 ≡ n = omega arith in
        rw f (
          two_digits (n / 10) (n % 10) (omega (arith, small)) (omega arith)
          ∙ ap (λ m. some (false, m)) same)
    | inr f ↦
        let same : (n / 100 * 10 + n / 10 % 10) * 10 + n % 10 ≡ n = omega arith in
        rw f (
          three_digits (n / 100) (n / 10 % 10) (n % 10) (omega arith) (omega arith) (omega arith)
          ∙ ap (λ m. some (false, m)) same)
  ])
]

-- The text of a number has no dot.
abbrev pub no_dot : List ℕ → Bool
no_dot [] = true
no_dot (c ∷ s) = not (eqb c 46) && no_dot s

no_dot-show_octet : (n : ℕ) → n ≤ 255 → no_dot (show_octet n) ≡ true
unfolding show_octet
no_dot-show_octet n h = ground arith

pub split-append : (s rest : List ℕ) → no_dot s ≡ true → split (s ++ 46 ∷ rest) ≡ s ∷ split rest
unfolding split
split-append [] rest h = refl
split-append (c ∷ s) rest h =
    let here : eqb c 46 ≡ false = ground (arith, h) in
    rw here (rw (split-append s rest (ground (arith, h))))

pub split-single : (s : List ℕ) → no_dot s ≡ true → split s ≡ s ∷ []
unfolding split
split-single [] h = refl
split-single (c ∷ s) h =
    let here : eqb c 46 ≡ false = ground (arith, h) in
    rw here (rw (split-single s (ground (arith, h))))

difference-of : (n m : ℕ) → n ≡ m → difference (n, 0) ≡ some m
difference-of n m h = ground arith

ip_to_long-show_ipv4 :
    (a b c d : ℕ)
    → a ≤ 255
    → b ≤ 255
    → c ≤ 255
    → d ≤ 255
    → ip_to_long (show_ipv4 a b c d) ≡ some (long a b c d)
unfolding ip_to_long show_ipv4
ip_to_long-show_ipv4 a b c d ha hb hc hd =
    rw
      (
        split-append (show_octet a) (show_octet b ++ 46 ∷ (show_octet c ++ 46 ∷ show_octet d))
            (no_dot-show_octet a ha),
        split-append (show_octet b) (show_octet c ++ 46 ∷ show_octet d) (no_dot-show_octet b hb),
        split-append (show_octet c) (show_octet d) (no_dot-show_octet c hc),
        split-single (show_octet d) (no_dot-show_octet d hd),
        parse_int-show_octet a ha,
        parse_int-show_octet b hb,
        parse_int-show_octet c hc,
        parse_int-show_octet d hd,
      )
      (difference-of (0 + 1 * d + 256 * c + 65536 * b + 16777216 * a) (long a b c d) (omega arith))

-- A range of all addresses with one first number, with one first number and a range of second ones, and
-- from one first number on.
in_range-first :
    (k a b c d : ℕ)
    → b ≤ 255
    → c ≤ 255
    → d ≤ 255
    → in_range (long a b c d) (long k 0 0 0, long k 255 255 255) ≡ eqb a k
in_range-first k a b c d hb hc hd = ground arith

in_range-second :
    (k j l a b c d : ℕ)
    → l ≤ 255
    → b ≤ 255
    → c ≤ 255
    → d ≤ 255
    → in_range (long a b c d) (long k j 0 0, long k l 255 255) ≡ (eqb a k && (leb j b && leb b l))
in_range-second k j l a b c d hl hb hc hd = ground arith

in_range-from :
    (k a b c d : ℕ)
    → a ≤ 255
    → b ≤ 255
    → c ≤ 255
    → d ≤ 255
    → in_range (long a b c d) (long k 0 0 0, long 255 255 255 255) ≡ leb k a
in_range-from k a b c d ha hb hc hd = ground arith

-- Loopback, private, link-local and carrier-grade NAT addresses, by their first two numbers.
abbrev pub is_internal : (a b : ℕ) → Bool
is_internal a b =
    eqb a 10
    || (eqb a 127
        || (eqb a 169 && eqb b 254
            || (eqb a 172 && (leb 16 b && leb b 31)
                || (eqb a 192 && eqb b 168 || eqb a 100 && (leb 64 b && leb b 127)))))

-- Addresses that are never fetched: also `this` network, benchmarking, multicast and above.
abbrev pub is_special : (a b : ℕ) → Bool
is_special a b = is_internal a b || (eqb a 0 || (eqb a 198 && (leb 18 b && leb b 19) || leb 224 a))

leb-both : (k n : ℕ) → (leb k n && leb n k) ≡ eqb n k
leb-both k n = ground arith

or_regroup :
    (p q r s t u v w x : Bool)
    → (p || (q || (r || (s || (t || (u || (v || (w || (x || false)))))))))
      ≡ ((p || (q || (r || (s || (t || v))))) || (u || (w || x)))
or_regroup true q r s t u v w x = refl
or_regroup false true r s t u v w x = refl
or_regroup false false true s t u v w x = refl
or_regroup false false false true t u v w x = refl
or_regroup false false false false true u v w x = refl
or_regroup false false false false false u v w x = ground arith

private_octets :
    (a b c d : ℕ)
    → a ≤ 255
    → b ≤ 255
    → c ≤ 255
    → d ≤ 255
    → any (in_range (long a b c d)) private_ranges ≡ is_special a b
private_octets a b c d ha hb hc hd =
    rw
      (
        in_range-first 10 a b c d hb hc hd,
        in_range-first 127 a b c d hb hc hd,
        in_range-second 169 254 254 a b c d (omega arith) hb hc hd,
        in_range-second 172 16 31 a b c d (omega arith) hb hc hd,
        in_range-second 192 168 168 a b c d (omega arith) hb hc hd,
        in_range-first 0 a b c d hb hc hd,
        in_range-second 100 64 127 a b c d (omega arith) hb hc hd,
        in_range-second 198 18 19 a b c d (omega arith) hb hc hd,
        in_range-from 224 a b c d ha hb hc hd,
      )
      (rw (leb-both 254 b, leb-both 168 b)
        (or_regroup (eqb a 10) (eqb a 127) (eqb a 169 && eqb b 254)
          (eqb a 172 && (leb 16 b && leb b 31)) (eqb a 192 && eqb b 168) (eqb a 0)
          (eqb a 100 && (leb 64 b && leb b 127)) (eqb a 198 && (leb 18 b && leb b 19)) (leb 224 a)))

or_end :
    (p q r s t v : Bool)
    → (p || (q || (r || (s || (t || (v || false)))))) ≡ (p || (q || (r || (s || (t || v)))))
or_end true q r s t v = refl
or_end false true r s t v = refl
or_end false false true s t v = refl
or_end false false false s t v = ground arith

bind_guard :
    (a b : ℕ)
    → (if eqb a 0
        then false
        else (eqb a 10
            || (eqb a 127
                || (eqb a 169 && eqb b 254
                    || (eqb a 172 && (leb 16 b && leb b 31)
                        || (eqb a 192 && eqb b 168
                            || (eqb a 100 && (leb 64 b && leb b 127) || false)))))))
      ≡ is_internal a b
bind_guard a b = elim (Bool-cases (eqb a 0)) [
  | inl e ↦ let zero_first = (eqb_iff a 0).0 e in rw zero_first refl
  | inr e ↦ rw e (
      or_end (eqb a 10) (eqb a 127) (eqb a 169 && eqb b 254) (eqb a 172 && (leb 16 b && leb b 31))
        (eqb a 192 && eqb b 168) (eqb a 100 && (leb 64 b && leb b 127)))
]

bind_octets :
    (a b c d : ℕ)
    → a ≤ 255
    → b ≤ 255
    → c ≤ 255
    → d ≤ 255
    → in_bind_ranges (some (long a b c d)) ≡ is_internal a b
bind_octets a b c d ha hb hc hd =
    rw
      (
        in_range-first 0 a b c d hb hc hd,
        in_range-first 10 a b c d hb hc hd,
        in_range-first 127 a b c d hb hc hd,
        in_range-second 169 254 254 a b c d (omega arith) hb hc hd,
        in_range-second 172 16 31 a b c d (omega arith) hb hc hd,
        in_range-second 192 168 168 a b c d (omega arith) hb hc hd,
        in_range-second 100 64 127 a b c d (omega arith) hb hc hd,
      )
      (rw (leb-both 254 b, leb-both 168 b) (bind_guard a b))

-- The address of the numbers a.b.c.d, written in decimal, counts as private exactly when the first two
-- numbers are those of a special network, and may be bound exactly when they are those of an internal
-- one. The numbers are at most 255, and `isIP` says 4 of the text.
pub is_private_ip-show_ipv4 :
    (net : Network) (a b c d : ℕ)
    → a ≤ 255
    → b ≤ 255
    → c ≤ 255
    → d ≤ 255
    → net.is_ip (show_ipv4 a b c d) ≡ 4
    → (is_private_ip net (show_ipv4 a b c d) ≡ is_special a b)
      × (is_safe_bind_address net (show_ipv4 a b c d) ≡ is_internal a b)
unfolding is_private_ip is_private_ipv4 is_safe_bind_address
is_private_ip-show_ipv4 net a b c d ha hb hc hd v4 =
    let value = ip_to_long-show_ipv4 a b c d ha hb hc hd in
    (
      rw (v4, value) (private_octets a b c d ha hb hc hd),
      rw (v4, value) (bind_octets a b c d ha hb hc hd),
    )
