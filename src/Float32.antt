-- ===== src/Float32.antt =====
-- The `float` of the program: an IEEE 754 binary32 value, kept as its 32-bit pattern. A finite
-- value is a whole multiple of 2 ^ -149, so that sums are exact on whole numbers and are rounded
-- once, to the nearest, ties to even. Every NaN result is the pattern `nan`.
mod Tests
pub mod Parse
pub mod Printed
use blockchain_raft.Base.{
  ℕ, zero, suc, ◌+◌, ◌-◌, ◌*◌, ◌/◌, ◌%◌, ◌^◌, Bool, true, false, not, ◌&&◌, ◌||◌, List, [], ◌∷◌,
  ◌++◌, ltb, ◌==◌, if◌then◌else◌, ℤ, pos, negsuc, pos_part, neg_part, ◌+ℤ◌, ◌-ℤ◌,
}
use blockchain_raft.Text.{decimal}

abbrev pub sign_bit : ℕ
sign_bit = 2 ^ 31

abbrev pub infinity : ℕ
infinity = 255 * 2 ^ 23

abbrev pub nan : ℕ
nan = 255 * 2 ^ 23 + 2 ^ 22

-- The literals 10.0 and -1 of the source.
abbrev pub ten : ℕ
ten = 0x41200000

abbrev pub minus_one : ℕ
minus_one = 0xbf800000

pub is_negative : ℕ → Bool
is_negative b = ltb (sign_bit - 1) b

-- The pattern without its sign.
pub without_sign : ℕ → ℕ
without_sign b = b % sign_bit

pub is_nan : ℕ → Bool
unfolding without_sign
is_nan b = ltb infinity (without_sign b)

pub is_infinite : ℕ → Bool
unfolding without_sign
is_infinite b = without_sign b == infinity

-- The absolute value of a finite pattern, in units of 2 ^ -149.
pub magnitude : ℕ → ℕ
unfolding without_sign
magnitude b =
    let e = without_sign b / 2 ^ 23 in
    let m = b % 2 ^ 23 in if e == 0 then m else (m + 2 ^ 23) * 2 ^ (e - 1)

pub value : ℕ → ℤ
unfolding is_negative magnitude
value b = if is_negative b then pos 0 -ℤ pos (magnitude b) else pos (magnitude b)

-- n / d to the nearest whole number, ties to even.
pub round_div : ℕ → ℕ → ℕ
round_div n d =
    let q = n / d in
    let r = 2 * (n % d) in if ltb r d then q else (if r == d then q + q % 2 else q + 1)

-- The pattern of the float nearest to n / d units: `k` is the exponent tried, and the exponents
-- end at 253.
pub pack_from : ℕ → ℕ → ℕ → ℕ → ℕ
unfolding round_div
pack_from zero k n d = infinity
pack_from (suc f) k n d =
    let rest = pack_from f (suc k) n d in
    if ltb (n / (d * 2 ^ k)) (2 ^ 24) then k * 2 ^ 23 + round_div n (d * 2 ^ k) else rest

pub pack : ℕ → ℕ → ℕ
unfolding pack_from
pack n d = pack_from 254 0 n d

pub of_value : ℤ → ℕ
unfolding pack
of_value (pos n) = pack n 1
of_value (negsuc n) = sign_bit + pack (suc n) 1

-- A `uint32_t` as a float.
unfoldable pub of_ℕ : ℕ → ℕ
unfolding of_value
of_ℕ n = of_value (pos (n * 2 ^ 149))

-- A float as a `uint32_t`. The language defines it for a value that fits; beyond, this is what the
-- x86-64 conversion to 64 bits leaves in the low 32.
unfoldable pub to_u32 : ℕ → ℕ
unfolding is_nan is_infinite is_negative magnitude
to_u32 b =
    let n = magnitude b / 2 ^ 149 in
    if is_nan b || is_infinite b || ltb (2 ^ 63 - 1) n
    then 0
    else (if is_negative b then (2 ^ 32 - n % 2 ^ 32) % 2 ^ 32 else n % 2 ^ 32)

pub negate : ℕ → ℕ
unfolding is_negative
negate b = if is_negative b then b - sign_bit else b + sign_bit

unfoldable pub add : ℕ → ℕ → ℕ
unfolding is_nan is_infinite is_negative magnitude value of_value ◌+ℤ◌ ◌-ℤ◌
add a b =
    if is_nan a || is_nan b
    then nan
    else (if is_infinite a
        then (if is_infinite b && not (a == b) then nan else a)
        else (if is_infinite b
            then b
            else (if is_negative a && is_negative b && (magnitude a + magnitude b == 0)
                then sign_bit
                else of_value (value a +ℤ value b))))

unfoldable pub sub : ℕ → ℕ → ℕ
unfolding add negate
sub a b = if is_nan b then nan else add a (negate b)

-- `std::to_string` of a float: `%f`, six digits behind the point, of the exact value, ties to even.
pub six_digits : ℕ → List ℕ
six_digits n =
    (b'0' + n / 100_000 % 10)
    ∷ (b'0' + n / 10_000 % 10)
    ∷ (b'0' + n / 1000 % 10)
    ∷ (b'0' + n / 100 % 10)
    ∷ (b'0' + n / 10 % 10)
    ∷ (b'0' + n % 10)
    ∷ []

pub unsigned_text : ℕ → List ℕ
unfolding is_nan is_infinite round_div magnitude decimal six_digits
unsigned_text b =
    if is_nan b
    then b'n' ∷ b'a' ∷ b'n' ∷ []
    else (if is_infinite b
        then b'i' ∷ b'n' ∷ b'f' ∷ []
        else (let q = round_div (magnitude b * 1_000_000) (2 ^ 149) in
            decimal 39 (q / 1_000_000) ++ b'.' ∷ six_digits (q % 1_000_000)))

unfoldable pub to_text : ℕ → List ℕ
unfolding is_negative unsigned_text
to_text b = if is_negative b then b'-' ∷ unsigned_text b else unsigned_text b
