-- ===== src/Text.antt =====
-- The text conversions of the standard library that the program calls: `std::to_string` of whole
-- numbers, `std::stoi`, `atoi`, and hexadecimal output of bytes. A text is the list of its bytes.
pub mod Decimal
pub mod Split
use blockchain_raft.Base.{
  ℕ, zero, suc, ◌+◌, ◌-◌, ◌*◌, ◌/◌, ◌%◌, ◌^◌, Bool, true, false, ◌&&◌, ◌||◌, Option, none, some,
  List, [], ◌∷◌, ◌++◌, ltb, leb, ◌==◌, if◌then◌else◌, ℤ, pos, ◌-ℤ◌, int_max_suc, int_of_ℕ,
}

-- The decimal digits of a number, the leading one first; the fuel bounds their count.
unfoldable pub decimal : ℕ → ℕ → List ℕ
decimal zero n = []
decimal (suc f) n =
    let rest = decimal f (n / 10) ++ (b'0' + n % 10) ∷ [] in
    if ltb n 10 then (b'0' + n) ∷ [] else rest

-- `std::to_string` of a `uint32_t` or of the absolute value of an `int`: ten digits at most.
unfoldable pub to_string : ℕ → List ℕ
unfolding decimal
to_string n = decimal 10 n

abbrev pub is_digit : ℕ → Bool
is_digit c = leb b'0' c && leb c b'9'

-- The value of the leading digits, after those read so far.
unfoldable pub read_digits : ℕ → List ℕ → ℕ
read_digits acc [] = acc
read_digits acc (c ∷ cs) =
    let rest = read_digits (acc * 10 + (c - b'0')) cs in if is_digit c then rest else acc

-- What `strtol` skips: a space, or one of the five control characters from tab to carriage return.
unfoldable pub skip_spaces : List ℕ → List ℕ
skip_spaces [] = []
skip_spaces (c ∷ cs) =
    let rest = skip_spaces cs in if (c == 32) || (leb 9 c && leb c 13) then rest else c ∷ cs

-- `std::stoi` behind its sign; `none` is an exception: no digit, or out of the range of `int`.
unfoldable pub stoi_digits : Bool → List ℕ → Option ℤ
unfolding read_digits
stoi_digits negative [] = none
stoi_digits negative (c ∷ cs) =
    let v = read_digits 0 (c ∷ cs) in
    if is_digit c
    then (if negative
        then (if leb v int_max_suc then some (pos 0 -ℤ pos v) else none)
        else (if ltb v int_max_suc then some (pos v) else none))
    else none

unfoldable pub stoi_signed : List ℕ → Option ℤ
unfolding stoi_digits
stoi_signed [] = none
stoi_signed (c ∷ cs) =
    if c == b'-'
    then stoi_digits true cs
    else (if c == b'+' then stoi_digits false cs else stoi_digits false (c ∷ cs))

unfoldable pub stoi : List ℕ → Option ℤ
unfolding skip_spaces stoi_signed
stoi s = stoi_signed (skip_spaces s)

-- `atoi` behind its sign: `strtol`, which keeps to the range of `long`, and the low 32 bits of it.
unfoldable pub atoi_digits : Bool → List ℕ → ℤ
unfolding read_digits int_of_ℕ
atoi_digits negative s =
    let v = read_digits 0 s in
    if negative
    then int_of_ℕ (if ltb (2 ^ 63) v then 0 else (2 ^ 32 - v % 2 ^ 32))
    else int_of_ℕ (if ltb v (2 ^ 63) then v else 2 ^ 63 - 1)

unfoldable pub atoi_signed : List ℕ → ℤ
unfolding atoi_digits
atoi_signed [] = pos 0
atoi_signed (c ∷ cs) =
    if c == b'-'
    then atoi_digits true cs
    else (if c == b'+' then atoi_digits false cs else atoi_digits false (c ∷ cs))

-- No digit gives 0.
unfoldable pub atoi : List ℕ → ℤ
unfolding skip_spaces atoi_signed
atoi s = atoi_signed (skip_spaces s)

-- Two texts, as `compare` sees them.
abbrev pub equals : List ℕ → List ℕ → Bool
equals [] [] = true
equals [] (d ∷ ds) = false
equals (c ∷ cs) [] = false
equals (c ∷ cs) (d ∷ ds) = (c == d) && equals cs ds

-- `std::hex` of a number below 16.
abbrev pub hex_digit : ℕ → ℕ
hex_digit d = if ltb d 10 then b'0' + d else b'a' + (d - 10)

-- `std::setw(2) << std::setfill('0') << std::hex` of each byte.
unfoldable pub hex : List ℕ → List ℕ
hex [] = []
hex (b ∷ bs) = hex_digit (b / 16) ∷ hex_digit (b % 16) ∷ hex bs
