-- ===== src/Cron/Duration.antt =====
-- `parseDurationToMs` and the number parsing of src/scheduler.ts, over code points. Numbers do not
-- lose precision here, as they do in the source past 2^53.
use cursor_claw.Base.{
  ℕ, ◌+◌, ◌-◌, ◌*◌, Bool, false, ◌&&◌, ◌||◌, Option, none, some, List, [], ◌∷◌, leb, eqb,
  if◌then◌else◌,
}
use mathlib.Core.List.{reverse}

pub is_digit : ℕ → Bool
is_digit c = leb b'0' c && leb c b'9'

-- The white space of `trim` and `\s`.
unfoldable pub is_space : ℕ → Bool
is_space c =
    (leb 9 c && leb c 13)
    || (eqb c 32
        || (eqb c 160
            || (eqb c 0x1680
                || ((leb 0x2000 c && leb c 0x200a)
                    || (eqb c 0x2028
                        || (eqb c 0x2029
                            || (eqb c 0x202f
                                || (eqb c 0x205f || (eqb c 0x3000 || eqb c 0xfeff)))))))))

unfoldable pub trim_start : List ℕ → List ℕ
trim_start [] = []
trim_start (c ∷ cs) = if is_space c then trim_start cs else c ∷ cs

unfoldable pub trim : List ℕ → List ℕ
trim s = reverse (trim_start (reverse (trim_start s)))

-- The value of the leading digits after `acc`, and the rest.
pub read_digits : ℕ → List ℕ → ℕ × List ℕ
read_digits acc [] = (acc, [])
read_digits acc (c ∷ cs) =
    if is_digit c then read_digits (acc * 10 + (c - b'0')) cs else (acc, c ∷ cs)

abbrev starts_with_digit : List ℕ → Bool
starts_with_digit [] = false
starts_with_digit (c ∷ cs) = is_digit c

-- The milliseconds of a unit; `none` is no unit.
pub multiplier : List ℕ → Option ℕ
multiplier (c ∷ []) =
    if eqb c b's'
    then some 1000
    else if eqb c b'm'
    then some 60000
    else if eqb c b'h'
    then some (60 * 60000)
    else if eqb c b'd'
    then some (24 * 60 * 60000)
    else none
multiplier (c ∷ d ∷ []) = if eqb c b'm' && eqb d b's' then some 1 else none
multiplier _ = none

abbrev scaled : ℕ × List ℕ → Option ℕ
scaled (amount, unit) = elim (multiplier unit) [ none ↦ none | some m ↦ some (amount * m) ]

-- `none` is the error "invalid duration".
unfoldable pub parse_duration_to_ms : List ℕ → Option ℕ
unfolding trim trim_start is_space is_digit read_digits multiplier
parse_duration_to_ms input =
    let s = trim input in if starts_with_digit s then scaled (read_digits 0 s) else none

abbrev unsigned : List ℕ → Option ℕ
unsigned s = if starts_with_digit s then some (read_digits 0 s).0 else none

skip_plus : List ℕ → Option ℕ
skip_plus [] = none
skip_plus (c ∷ cs) = if eqb c b'+' then unsigned cs else unsigned (c ∷ cs)

-- `Number.parseInt(s, 10)`, with `none` for `NaN` and for what is below zero.
unfoldable pub parse_int : List ℕ → Option ℕ
unfolding trim_start is_space is_digit read_digits skip_plus
parse_int s = skip_plus (trim_start s)
