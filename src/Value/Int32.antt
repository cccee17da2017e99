-- ===== src/Value/Int32.antt =====
-- The operations of `i32` on numbers that are larger by 2^31, with the wrap of a release build, and
-- `str::parse::<i32>`. Division panics on a divisor of 0 and where the quotient is 2^31.
use r_universal_db.Base.{
  ℕ, ◌+◌, ◌-◌, ◌*◌, ◌/◌, ◌%◌, ◌^◌, Bool, true, false, not, ◌&&◌, Option, none, some, List, [], ◌∷◌,
  ltb, leb, eqb, if◌then◌else◌,
}

-- The number for 0.
abbrev pub origin : ℕ
origin = 2 ^ 31

abbrev pub i32_add : ℕ → ℕ → ℕ
i32_add a b = (a + b + origin) % 2 ^ 32

abbrev pub i32_sub : ℕ → ℕ → ℕ
i32_sub a b = (a + (2 ^ 32 - b) + origin) % 2 ^ 32

abbrev pub i32_neg : ℕ → ℕ
i32_neg a = (2 ^ 32 - a) % 2 ^ 32

-- By the two's complements.
abbrev pub i32_mul : ℕ → ℕ → ℕ
i32_mul a b = ((a + origin) * (b + origin) + origin) % 2 ^ 32

abbrev pub is_negative : ℕ → Bool
is_negative a = ltb a origin

abbrev pub magnitude : ℕ → ℕ
magnitude a = if ltb a origin then origin - a else a - origin

abbrev pub with_sign : Bool → ℕ → ℕ
with_sign negative n = if negative then origin - n else origin + n

-- `none` is a panic.
abbrev pub div_panics : ℕ → ℕ → Bool
div_panics a b = eqb a 0 && eqb b (origin - 1)

abbrev pub differ : Bool → Bool → Bool
differ true b = not b
differ false b = b

abbrev pub i32_div : ℕ → ℕ → Option ℕ
i32_div a b =
    if eqb b origin
    then none
    else if div_panics a b
    then none
    else some (with_sign (differ (is_negative a) (is_negative b)) (magnitude a / magnitude b))

abbrev pub i32_rem : ℕ → ℕ → Option ℕ
i32_rem a b =
    if eqb b origin
    then none
    else if div_panics a b
    then none
    else some (with_sign (is_negative a) (magnitude a % magnitude b))

-- The value of a list of digits, after those for `acc`; `none` if another byte is among them.
unfoldable pub parse_digits : ℕ → List ℕ → Option ℕ
parse_digits acc [] = some acc
parse_digits acc (c ∷ s) =
    let rest = parse_digits (10 * acc + (c - 48)) s in if leb 48 c && leb c 57 then rest else none

abbrev pub parse_magnitude : Bool → List ℕ → Option ℕ
parse_magnitude negative [] = none
parse_magnitude negative (c ∷ s) = elim (parse_digits 0 (c ∷ s)) [
  | none ↦ none
  | some n ↦
      if leb n (if negative then origin else origin - 1) then some (with_sign negative n) else none
]

-- `parse::<i32>`: a sign, and at least one digit.
unfoldable pub parse_i32 : List ℕ → Option ℕ
unfolding parse_digits
parse_i32 [] = none
parse_i32 (c ∷ s) =
    if eqb c 45
    then parse_magnitude true s
    else if eqb c 43
    then parse_magnitude false s
    else parse_magnitude false (c ∷ s)
