-- ===== src/Float32/Parse.antt =====
-- The conversions from text: `std::stof`, and `atof` with its result stored in a `float`. A text is
-- read as an exact quotient, which is rounded at the end.
use blockchain_raft.Base.{
  ℕ, zero, suc, ◌+◌, ◌-◌, ◌*◌, ◌/◌, ◌%◌, ◌^◌, Bool, true, false, not, ◌&&◌, ◌||◌, Option, none,
  some, List, [], ◌∷◌, ltb, leb, ◌==◌, if◌then◌else◌, drop, ℤ, pos, pos_part, neg_part, ◌-ℤ◌,
}
use blockchain_raft.Text.{is_digit, read_digits, skip_spaces}
use blockchain_raft.Float32.{sign_bit, infinity, nan, round_div, pack}

-- What stands at the front of a text, its sign apart: no number, a whole number over a power of
-- the base, or a word.
pub data Number : Type 0 where
  no_number : Number
  quotient : ℕ → ℕ → Number
  infinite not_a_number : Number

abbrev digit_value : ℕ → ℕ
digit_value c =
    if is_digit c
    then c - b'0'
    else (if leb b'a' c && leb c b'f'
        then c - b'a' + 10
        else (if leb b'A' c && leb c b'F' then c - b'A' + 10 else 16))

-- The digits of a mantissa: the value, how many of them, how many behind the point, and what is
-- left. `point` is that the point has been read.
record Mantissa : Type 0 where
  digits : ℕ
  count : ℕ
  behind : ℕ
  rest : List ℕ

mantissa : ℕ → Bool → ℕ → ℕ → ℕ → List ℕ → Mantissa
mantissa base point v n k [] = record { digits = v; count = n; behind = k; rest = [] }
mantissa base point v n k (c ∷ cs) = elim (ltb (digit_value c) base) [
  | true ↦ mantissa base point (v * base + digit_value c) (n + 1) (if point then k + 1 else k) cs
  | false ↦ elim ((c == b'.') && not point) [
    | true ↦ mantissa base true v n k cs
    | false ↦ record { digits = v; count = n; behind = k; rest = c ∷ cs }
  ]
]

-- A letter in either case.
abbrev is_letter : ℕ → ℕ → Bool
is_letter letter c = (c == letter) || (c + 32 == letter)

abbrev starts_with : List ℕ → List ℕ → Bool
starts_with [] s = true
starts_with (l ∷ ls) [] = false
starts_with (l ∷ ls) (c ∷ cs) = is_letter l c && starts_with ls cs

-- The exponent behind its letter, if there is one with a digit.
abbrev signed_exponent : Bool → List ℕ → ℤ
signed_exponent negative [] = pos 0
signed_exponent negative (c ∷ cs) =
    if is_digit c
    then (if negative then pos 0 -ℤ pos (read_digits 0 (c ∷ cs)) else pos (read_digits 0 (c ∷ cs)))
    else pos 0

exponent : ℕ → List ℕ → ℤ
exponent letter [] = pos 0
exponent letter (c ∷ []) = pos 0
exponent letter (c ∷ d ∷ cs) =
    if is_letter letter c
    then (if d == b'-'
        then signed_exponent true cs
        else (if d == b'+' then signed_exponent false cs else signed_exponent false (d ∷ cs)))
    else pos 0

-- v * scale ^ e / base ^ k
scaled : ℕ → ℕ → ℕ → ℕ → ℤ → Number
scaled base scale v k e = quotient (v * scale ^ pos_part e) (base ^ k * scale ^ neg_part e)

decimal_number : List ℕ → Number
unfolding mantissa exponent scaled
decimal_number s =
    let m = mantissa 10 false 0 0 0 s in
    if m.count == 0 then no_number else scaled 10 10 m.digits m.behind (exponent b'e' m.rest)

-- Behind `0x`; without a digit there only the zero is read.
hex_number : List ℕ → Number
unfolding mantissa exponent scaled
hex_number s =
    let m = mantissa 16 false 0 0 0 s in
    if m.count == 0 then quotient 0 1 else scaled 16 2 m.digits m.behind (exponent b'p' m.rest)

abbrev is_hex : List ℕ → Bool
is_hex (z ∷ x ∷ cs) = (z == b'0') && is_letter b'x' x
is_hex _ = false

unsigned_number : List ℕ → Number
unfolding decimal_number hex_number
unsigned_number s =
    if starts_with (b'i' ∷ b'n' ∷ b'f' ∷ []) s
    then infinite
    else (if starts_with (b'n' ∷ b'a' ∷ b'n' ∷ []) s
        then not_a_number
        else (if is_hex s then hex_number (drop 2 s) else decimal_number s))

-- The sign, and the number behind it.
signed_number : List ℕ → Bool × Number
unfolding unsigned_number
signed_number [] = (false, no_number)
signed_number (c ∷ cs) =
    if c == b'-'
    then (true, unsigned_number cs)
    else (if c == b'+' then (false, unsigned_number cs) else (false, unsigned_number (c ∷ cs)))

number : List ℕ → Bool × Number
unfolding skip_spaces signed_number
number s = signed_number (skip_spaces s)

with_sign : Bool → ℕ → ℕ
with_sign negative b = if negative then sign_bit + b else b

-- A value too large, or too small to be exact, is an exception.
in_range : ℕ → ℕ → Option ℕ
unfolding pack
in_range n d =
    let b = pack (n * 2 ^ 149) d in
    if (b == infinity) || (ltb b (2 ^ 23) && not (n * 2 ^ 149 % d == 0)) then none else some b

-- `none` is an exception.
unfoldable pub stof : List ℕ → Option ℕ
unfolding number with_sign in_range
stof s =
    let (negative, n) = number s in
    elim n [
      | no_number ↦ none
      | quotient v d ↦ elim (in_range v d) [ none ↦ none | some b ↦ some (with_sign negative b) ]
      | infinite ↦ some (with_sign negative infinity)
      | not_a_number ↦ some (with_sign negative nan)
    ]

-- The nearest binary64 value to n / d units of 2 ^ -1074, in such units; `none` is infinite.
round_double : ℕ → ℕ → ℕ → ℕ → Option ℕ
unfolding round_div
round_double zero k n d = none
round_double (suc f) k n d = elim (ltb (n / (d * 2 ^ k)) (2 ^ 53)) [
  | true ↦ some (round_div n (d * 2 ^ k) * 2 ^ k)
  | false ↦ round_double f (suc k) n d
]

-- `float x = atof(s)`: rounded twice, and 0 without a number.
unfoldable pub atof : List ℕ → ℕ
unfolding number with_sign round_double pack
atof s =
    let (negative, n) = number s in
    elim n [
      | no_number ↦ 0
      | quotient v d ↦ with_sign negative (elim (round_double 2046 0 (v * 2 ^ 1074) d) [
        | none ↦ infinity
        | some u ↦ pack u (2 ^ 925)
      ])
      | infinite ↦ with_sign negative infinity
      | not_a_number ↦ with_sign negative nan
    ]
