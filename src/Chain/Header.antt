-- ===== src/Chain/Header.antt =====
-- The first line of the backup file, written by `set_committed_index` and `write_bc_to_file` and
-- read by `parse_file_to_bc`.
use blockchain_raft.Base.{
  ℕ, zero, suc, ◌+◌, ◌-◌, ◌≤◌, ◌<◌, ◌≡◌, ◌≢◌, refl, Bool, true, false, none, some, List, [], ◌∷◌,
  ◌++◌, arith, if◌then◌else◌, length, length-append, length-replicate, set, replicate, ℤ, pos,
  negsuc, pos_part, neg_part, ◌-ℤ◌, ltb_ℤ, lt→ltb, ge→ltb, ◌∙◌, ap,
}
use blockchain_raft.Text.{to_string, stoi, stoi_digits, read_digits}
use blockchain_raft.Text.Decimal.{
  Digits, Digits-append, decimal-Digits, decimal-ne-nil, lt-length-decimal, length-decimal,
  read_digits-decimal,
}
use blockchain_raft.Chain.Lines.{IsClean}
use blockchain_raft.Chain.{index_line, strcpy, num_digits, newline}

abbrev pub magnitude : ℤ → ℕ
magnitude i = pos_part i + neg_part i

-- A committed index that four digits can hold.
abbrev pub IsStorable : ℤ → Type 0
IsStorable i = magnitude i ≤ 9999

abbrev pub sign_of : ℤ → ℕ
sign_of (pos n) = b'+'
sign_of (negsuc n) = b'-'

-- The first line without its newline: the sign and four digits.
unfoldable pub index_text : ℤ → List ℕ
index_text i =
    let s = to_string (magnitude i) in sign_of i ∷ replicate (num_digits - length s) b'0' ++ s

-- The buffer after its three writes.
buffer_lem :
    (c : ℕ) (s : List ℕ)
    → 0 < length s
    → length s ≤ num_digits
    → set
        (strcpy (set (replicate (num_digits + 2) b'0') 0 c) (1 + num_digits - length s) s)
        (num_digits + 1)
        newline
      ≡ (c ∷ replicate (num_digits - length s) b'0' ++ s) ++ newline ∷ []
unfolding strcpy
buffer_lem c [] l h = elim l [ ]
buffer_lem c (d ∷ []) l h = refl
buffer_lem c (d ∷ e ∷ []) l h = refl
buffer_lem c (d ∷ e ∷ f ∷ []) l h = refl
buffer_lem c (d ∷ e ∷ f ∷ g ∷ []) l h = refl
buffer_lem c (d ∷ e ∷ f ∷ g ∷ k ∷ s) l h = absurd (omega arith)

to_string-length : (n : ℕ) → n ≤ 9999 → (0 < length (to_string n)) × (length (to_string n) ≤ 4)
unfolding to_string
to_string-length n h = (decimal-ne-nil 9 n, length-decimal 10 3 n (omega arith))

sign_byte : (i : ℤ) → (if ltb_ℤ i (pos 0) then b'-' else b'+') ≡ sign_of i
sign_byte (pos n) = ground arith
sign_byte (negsuc n) = ground arith

-- The six bytes written for a number of at most four digits.
pub index_line-some : (i : ℤ) → IsStorable i → index_line i ≡ some (index_text i ++ newline ∷ [])
unfolding index_line index_text
index_line-some i h =
    let (some_digit, few) = to_string-length (magnitude i) h in
    rw (
      ge→ltb num_digits (length (to_string (magnitude i))) few,
      sign_byte i,
      buffer_lem (sign_of i) (to_string (magnitude i)) some_digit few,
    )

-- A committed index of more than four digits has no first line.
pub index_line-none : (i : ℤ) → 9999 < magnitude i → index_line i ≡ none
unfolding index_line to_string
index_line-none i h = rw (
    lt→ltb num_digits (length (to_string (magnitude i)))
      (lt-length-decimal 10 4 (magnitude i) (omega arith) (omega arith)))

zeros_Digits : (k : ℕ) → Digits (replicate k b'0')
zeros_Digits zero = tt
zeros_Digits (suc k) = (omega arith, omega arith, zeros_Digits k)

read_digits-zeros : (k : ℕ) (s : List ℕ) → read_digits 0 (replicate k b'0' ++ s) ≡ read_digits 0 s
unfolding read_digits
read_digits-zeros zero s = refl
read_digits-zeros (suc k) s = read_digits-zeros k s

stoi_digits_lem :
    (negative : Bool) (s : List ℕ) (v : ℕ)
    → Digits s
    → 0 < length s
    → read_digits 0 s ≡ v
    → v ≤ 9999
    → stoi_digits negative s ≡ some (if negative then pos 0 -ℤ pos v else pos v)
unfolding stoi_digits
stoi_digits_lem negative [] v d l e h = elim l [ ]
stoi_digits_lem true (c ∷ cs) v d l e h = rw e (ground arith)
stoi_digits_lem false (c ∷ cs) v d l e h = rw e (ground arith)

padded_lem :
    (negative : Bool) (v : ℕ)
    → v ≤ 9999
    → stoi_digits negative (replicate (num_digits - length (to_string v)) b'0' ++ to_string v)
      ≡ some (if negative then pos 0 -ℤ pos v else pos v)
unfolding to_string
padded_lem negative v h =
    let k = num_digits - length (to_string v) in
    stoi_digits_lem negative (replicate k b'0' ++ to_string v) v
      (Digits-append (replicate k b'0') (to_string v) (zeros_Digits k) (decimal-Digits 10 v))
      (omega (arith, length-append {0} (replicate k b'0') (to_string v), decimal-ne-nil 9 v))
      (read_digits-zeros k (to_string v) ∙ read_digits-decimal 10 v (omega arith)) h

-- The first line of the file, the sign and four digits of a committed index of at most four
-- digits, is read back by stoi as that index.
pub stoi-index_text : (i : ℤ) → IsStorable i → stoi (index_text i) ≡ some i
unfolding stoi index_text ◌-ℤ◌
stoi-index_text (pos n) h = padded_lem false (n + 0) h ∙ ap (λ m. some (pos m)) (omega arith)
stoi-index_text (negsuc n) h = padded_lem true (0 + suc n) h ∙ ground arith

-- The first line has five bytes.
pub length-index_text : (i : ℤ) → IsStorable i → length (index_text i) ≡ 5
unfolding index_text
length-index_text i h =
    let s = to_string (magnitude i) in
    let zero_digit : ℕ = b'0' in
    let (some_digit, few) = to_string-length (magnitude i) h in
    omega (
      arith,
      length-append {0} (replicate (num_digits - length s) zero_digit) s,
      length-replicate {0} (num_digits - length s) zero_digit,
    )

IsClean-of_Digits : (s : List ℕ) → Digits s → IsClean s
IsClean-of_Digits [] h = tt
IsClean-of_Digits (c ∷ s) h = (omega arith, IsClean-of_Digits s h.2)

-- The first line has no newline inside.
pub index_text-IsClean : (i : ℤ) → IsClean (index_text i)
unfolding index_text to_string
index_text-IsClean i =
    let s = to_string (magnitude i) in
    let k = num_digits - length s in
    let tail_clean =
      IsClean-of_Digits (replicate k b'0' ++ s)
        (Digits-append (replicate k b'0') s (zeros_Digits k) (decimal-Digits 10 (magnitude i))) in
    (sign_clean i, tail_clean)
  where
    sign_clean : (j : ℤ) → sign_of j ≢ newline
    sign_clean (pos n) = omega arith
    sign_clean (negsuc n) = omega arith
