-- ===== src/Text/Decimal.antt =====
-- Reading back the decimal digits that were printed.
use blockchain_raft.Base.{
  ℕ, zero, suc, ◌+◌, ◌-◌, ◌*◌, ◌/◌, ◌%◌, ◌^◌, ◌≤◌, ◌<◌, ◌≡◌, refl, inl, inr, List, [], ◌∷◌, ◌++◌,
  arith, ltb, ge→ltb, Bool-cases, length, length-append,
}
use native.Mathlib.Nat.{pow-suc, pow-zero, one-le-pow}
use blockchain_raft.Text.{decimal, read_digits}

-- Every byte is a digit.
abbrev pub Digits : List ℕ → Type 0
Digits [] = Unit {0}
Digits (c ∷ cs) = (b'0' ≤ c) × (c ≤ b'9') × Digits cs

pub Digits-append : (xs ys : List ℕ) → Digits xs → Digits ys → Digits (xs ++ ys)
Digits-append [] ys hx hy = hy
Digits-append (x ∷ xs) ys hx hy = (hx.0, hx.1, Digits-append xs ys hx.2 hy)

pub decimal-Digits : (f n : ℕ) → Digits (decimal f n)
unfolding decimal
decimal-Digits zero n = tt
decimal-Digits (suc f) n = elim (Bool-cases (ltb n 10)) [
  | inl small ↦ rw small (ground arith)
  | inr big ↦
      rw big (Digits-append (decimal f (n / 10)) _ (decimal-Digits f (n / 10)) (omega arith))
]

pub read_digits-append :
    (acc : ℕ) (xs ys : List ℕ)
    → Digits xs
    → read_digits acc (xs ++ ys) ≡ read_digits (read_digits acc xs) ys
unfolding read_digits
read_digits-append acc [] ys h = refl
read_digits-append acc (x ∷ xs) ys h =
    ground (arith, read_digits-append (acc * 10 + (x - b'0')) xs ys h.2)

pub read_digits-snoc :
    (acc d : ℕ) (xs : List ℕ)
    → Digits xs
    → d < 10
    → read_digits acc (xs ++ (b'0' + d) ∷ []) ≡ read_digits acc xs * 10 + d
unfolding read_digits
read_digits-snoc acc d xs h s = rw (read_digits-append acc xs _ h) (ground arith)

div_bound : (f n : ℕ) → n < 10 ^ suc f → n / 10 < 10 ^ f
div_bound f n h = omega (arith, pow-suc 10 f)

pow_one : 10 ^ 1 ≡ 10
pow_one = refl

-- Reading the digits of a number gives the number, when the fuel is its count of digits or more.
pub read_digits-decimal : (f n : ℕ) → n < 10 ^ f → read_digits 0 (decimal f n) ≡ n
unfolding decimal read_digits
read_digits-decimal zero n h = let h' : n < 1 = rw pow-zero at h in omega arith
read_digits-decimal (suc f) n h = elim (Bool-cases (ltb n 10)) [
  | inl small ↦ rw small (ground arith)
  | inr big ↦ rw big (
      omega (
        arith,
        read_digits-snoc 0 (n % 10) (decimal f (n / 10)) (decimal-Digits f (n / 10)) (omega arith),
        read_digits-decimal f (n / 10) (div_bound f n h),
      ))
]

-- A number below 10 ^ k has k digits at most.
pub length-decimal : (f k n : ℕ) → n < 10 ^ suc k → length (decimal f n) ≤ suc k
unfolding decimal
length-decimal zero k n h = omega arith
length-decimal (suc f) zero n h = ground (arith, pow_one)
length-decimal (suc f) (suc k) n h = elim (Bool-cases (ltb n 10)) [
  | inl small ↦ rw small (omega arith)
  | inr big ↦ rw big (
      omega (
        arith,
        length-append {0} (decimal f (n / 10)) ((b'0' + n % 10) ∷ []),
        length-decimal f k (n / 10) (div_bound (suc k) n h),
      ))
]

-- Where there is fuel a number has at least one digit.
pub decimal-ne-nil : (f n : ℕ) → 0 < length (decimal (suc f) n)
unfolding decimal
decimal-ne-nil f n = elim (Bool-cases (ltb n 10)) [
  | inl small ↦ rw small (omega arith)
  | inr big ↦ rw big (omega (arith, length-append {0} (decimal f (n / 10)) ((b'0' + n % 10) ∷ [])))
]

long_lem :
    (f k n : ℕ) → 10 ≤ n → k < length (decimal f (n / 10)) → suc k < length (decimal (suc f) n)
unfolding decimal
long_lem f k n big h =
    rw (ge→ltb n 10 big)
      (omega (arith, length-append {0} (decimal f (n / 10)) ((b'0' + n % 10) ∷ [])))

-- A number of 10 ^ k or more has more than k digits, where the fuel allows them.
pub lt-length-decimal : (f k n : ℕ) → k < f → 10 ^ k ≤ n → k < length (decimal f n)
lt-length-decimal zero k n l h = elim l [ ]
lt-length-decimal (suc f) zero n l h = decimal-ne-nil f n
lt-length-decimal (suc f) (suc k) n l h =
    let one : 0 < 10 ^ k = one-le-pow k 10 (omega arith) in
    let rest = lt-length-decimal f k (n / 10) (omega arith) (omega (arith, pow-suc 10 k)) in
    long_lem f k n (omega (arith, pow-suc 10 k)) rest
