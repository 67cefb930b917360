-- ===== src/Addresses/Spelling.antt =====
-- The spellings of an IPv4 address that src/security.ts reads: each number in decimal, in octal
-- after a 0, or in hexadecimal after 0x.
use cursor_claw.Base.{
  ℕ, ◌+◌, ◌*◌, ◌≤◌, ◌<◌, ◌≡◌, refl, ap, Bool, true, false, ◌||◌, ◌&&◌, not, some, List, [], ◌∷◌,
  ltb, eqb, if◌then◌else◌, string_eq, map, arith,
}
use mathlib.Core.List.{reverse, reverse_aux, reverse-reverse}
use cursor_claw.Cron.Duration.{trim, trim_start, is_space}
use cursor_claw.Addresses.{
  digit_value, read_number, parse_int, signed, skip_prefix, segment_number, parse_segment,
}
use cursor_claw.Addresses.Ranges.{no_dot}

-- A number by its digits, the highest one first.
pub data Numeral : Type 0 where
  decimal octal hex : (digits : List ℕ) → Numeral

-- 0 to 9, and a to f.
abbrev pub digit_char : ℕ → ℕ
digit_char k = if ltb k 10 then b'0' + k else b'W' + k

abbrev pub written : Numeral → List ℕ
written (decimal ds) = map digit_char ds
written (octal ds) = b'0' ∷ map digit_char ds
written (hex ds) = b'0' ∷ b'x' ∷ map digit_char ds

abbrev pub value_from : (radix acc : ℕ) → List ℕ → ℕ
value_from radix acc [] = acc
value_from radix acc (k ∷ ds) = value_from radix (acc * radix + k) ds

abbrev pub value_of : Numeral → ℕ
value_of (decimal ds) = value_from 10 0 ds
value_of (octal ds) = value_from 8 0 ds
value_of (hex ds) = value_from 16 0 ds

abbrev pub all_below : ℕ → List ℕ → Bool
all_below radix [] = true
all_below radix (k ∷ ds) = ltb k radix && all_below radix ds

abbrev pub has_digit : List ℕ → Bool
has_digit [] = false
has_digit (k ∷ ds) = true

-- A decimal number of several digits does not start with 0.
abbrev pub starts_decimal : List ℕ → Bool
starts_decimal [] = false
starts_decimal (k ∷ []) = true
starts_decimal (k ∷ j ∷ ds) = not (eqb k 0)

abbrev pub is_well_formed : Numeral → Bool
is_well_formed (decimal ds) = all_below 10 ds && starts_decimal ds
is_well_formed (octal ds) = all_below 8 ds && has_digit ds
is_well_formed (hex ds) = all_below 16 ds && has_digit ds

digit_value-digit_char : (k : ℕ) → k < 16 → digit_value (digit_char k) ≡ some k
digit_value-digit_char k h = ground (arith, h)

is_space-digit_char : (k : ℕ) → k < 16 → is_space (digit_char k) ≡ false
unfolding is_space
is_space-digit_char k h = ground (arith, h)

read_number-digits :
    (radix acc : ℕ) (ds : List ℕ)
    → radix ≤ 16
    → all_below radix ds ≡ true
    → read_number radix (map digit_char ds) (some acc) ≡ some (value_from radix acc ds)
unfolding read_number
read_number-digits radix acc [] r h = refl
read_number-digits radix acc (k ∷ ds) r h =
    let below : ltb k radix ≡ true = ground (arith, h) in
    let rest : all_below radix ds ≡ true = ground (arith, h) in
    let small : k < 16 = ground (arith, below, r) in
    rw (digit_value-digit_char k small)
      (rw below (read_number-digits radix (acc * radix + k) ds r rest))

no_prefix-digits :
    (radix k : ℕ) (ds : List ℕ)
    → radix ≤ 16
    → all_below radix (k ∷ ds) ≡ true
    → skip_prefix radix (map digit_char (k ∷ ds)) ≡ map digit_char (k ∷ ds)
no_prefix-digits radix k [] r h = refl
no_prefix-digits radix k (j ∷ ds) r h =
    let small : ltb j 16 ≡ true = ground (arith, h, r) in
    let not_x : (eqb (digit_char j) 120 || eqb (digit_char j) 88) ≡ false = ground (arith, small) in
    rw not_x (ground arith)

parse_int-digits :
    (radix k : ℕ) (ds : List ℕ)
    → radix ≤ 16
    → all_below radix (k ∷ ds) ≡ true
    → parse_int radix (map digit_char (k ∷ ds)) ≡ some (false, value_from radix 0 (k ∷ ds))
unfolding parse_int trim_start read_number
parse_int-digits radix k ds r h =
    let below : ltb k radix ≡ true = ground (arith, h) in
    let rest : all_below radix ds ≡ true = ground (arith, h) in
    let small : k < 16 = ground (arith, below, r) in
    let not_minus : eqb (digit_char k) 45 ≡ false = ground (arith, small) in
    let not_plus : eqb (digit_char k) 43 ≡ false = ground (arith, small) in
    rw (is_space-digit_char k small) (
      rw (not_minus, not_plus)
        (rw (no_prefix-digits radix k ds r h) (
          rw (digit_value-digit_char k small)
            (rw below (ap (signed false) (read_number-digits radix (0 * radix + k) ds r rest))))))

abbrev no_space : List ℕ → Bool
no_space [] = true
no_space (c ∷ s) = not (is_space c) && no_space s

no_space-reverse_aux :
    (s t : List ℕ) → no_space s ≡ true → no_space t ≡ true → no_space (reverse_aux s t) ≡ true
no_space-reverse_aux [] t h i = i
no_space-reverse_aux (c ∷ s) t h i =
    no_space-reverse_aux s (c ∷ t) (ground (arith, h)) (ground (arith, h, i))

trim_start-no_space : (s : List ℕ) → no_space s ≡ true → trim_start s ≡ s
unfolding trim_start
trim_start-no_space [] h = refl
trim_start-no_space (c ∷ s) h = let solid : is_space c ≡ false = ground (arith, h) in rw solid refl

trim-no_space : (s : List ℕ) → no_space s ≡ true → trim s ≡ s
unfolding trim
trim-no_space s h =
    let back = no_space-reverse_aux s [] h refl in
    rw (trim_start-no_space s h) (rw (trim_start-no_space (reverse s) back) (reverse-reverse s))

no_space-digits : (ds : List ℕ) → all_below 16 ds ≡ true → no_space (map digit_char ds) ≡ true
no_space-digits [] h = refl
no_space-digits (k ∷ ds) h =
    let small : k < 16 = ground (arith, h) in
    let rest : all_below 16 ds ≡ true = ground (arith, h) in
    rw (is_space-digit_char k small) (no_space-digits ds rest)

no_dot-digits : (ds : List ℕ) → all_below 16 ds ≡ true → no_dot (map digit_char ds) ≡ true
no_dot-digits [] h = refl
no_dot-digits (k ∷ ds) h =
    let small : ltb k 16 ≡ true = ground (arith, h) in
    let rest : all_below 16 ds ≡ true = ground (arith, h) in
    let other : eqb (digit_char k) 46 ≡ false = ground (arith, small) in
    rw other (no_dot-digits ds rest)

all_below-le : (r q : ℕ) (ds : List ℕ) → r ≤ q → all_below r ds ≡ true → all_below q ds ≡ true
all_below-le r q [] l h = refl
all_below-le r q (k ∷ ds) l h =
    let small : ltb k r ≡ true = ground (arith, h) in
    let rest : all_below r ds ≡ true = ground (arith, h) in
    let here : ltb k q ≡ true = ground (arith, small, l) in rw here (all_below-le r q ds l rest)

digits_of : Numeral → List ℕ
digits_of (decimal ds) = ds
digits_of (octal ds) = ds
digits_of (hex ds) = ds

all_below-digits_of : (x : Numeral) → is_well_formed x ≡ true → all_below 16 (digits_of x) ≡ true
unfolding digits_of
all_below-digits_of (decimal ds) h = all_below-le 10 16 ds (omega arith) (ground (arith, h))
all_below-digits_of (octal ds) h = all_below-le 8 16 ds (omega arith) (ground (arith, h))
all_below-digits_of (hex ds) h = ground (arith, h)

no_space-written : (x : Numeral) → is_well_formed x ≡ true → no_space (written x) ≡ true
unfolding is_space digits_of
no_space-written (decimal ds) h = no_space-digits ds (all_below-digits_of (decimal ds) h)
no_space-written (octal ds) h = no_space-digits ds (all_below-digits_of (octal ds) h)
no_space-written (hex ds) h = no_space-digits ds (all_below-digits_of (hex ds) h)

pub no_dot-written : (x : Numeral) → is_well_formed x ≡ true → no_dot (written x) ≡ true
unfolding digits_of
no_dot-written (decimal ds) h = no_dot-digits ds (all_below-digits_of (decimal ds) h)
no_dot-written (octal ds) h = no_dot-digits ds (all_below-digits_of (octal ds) h)
no_dot-written (hex ds) h = no_dot-digits ds (all_below-digits_of (hex ds) h)

segment_number-written :
    (x : Numeral) → is_well_formed x ≡ true → segment_number (written x) ≡ some (false, value_of x)
segment_number-written (decimal []) h = cc
segment_number-written (decimal (k ∷ [])) h =
    parse_int-digits 10 k [] (omega arith) (ground (arith, h))
segment_number-written (decimal (k ∷ j ∷ ds)) h =
    let below : all_below 10 (k ∷ j ∷ ds) ≡ true = ground (arith, h) in
    let not_zero : eqb (digit_char k) 48 ≡ false = ground (arith, h) in
    rw not_zero (parse_int-digits 10 k (j ∷ ds) (omega arith) below)
segment_number-written (octal []) h = absurd (ground (arith, h))
segment_number-written (octal (k ∷ ds)) h =
    let below : all_below 8 (k ∷ ds) ≡ true = ground (arith, h) in
    let not_x : eqb (digit_char k) 120 ≡ false = ground (arith, h) in
    rw not_x (parse_int-digits 8 0 (k ∷ ds) (omega arith) below)
segment_number-written (hex []) h = absurd (ground (arith, h))
segment_number-written (hex (k ∷ ds)) h = parse_int-digits 16 k ds (omega arith) (ground (arith, h))

pub parse_segment-written :
    (x : Numeral)
    → is_well_formed x ≡ true
    → value_of x ≤ 255
    → parse_segment (written x) ≡ some (value_of x)
unfolding parse_segment
parse_segment-written x h le =
    rw (trim-no_space (written x) (no_space-written x h), segment_number-written x h)
      (let fits : ltb 255 (value_of x) ≡ false = ground (arith, le) in rw fits refl)
