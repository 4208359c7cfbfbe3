-- ===== src/Float32/Printed.antt =====
-- What `std::to_string` of a float consists of: a word that is not empty.
use blockchain_raft.Base.{
  ℕ, ◌*◌, ◌/◌, ◌%◌, ◌^◌, ◌≢◌, refl, inl, inr, List, [], ◌∷◌, ◌++◌, arith, Bool-cases,
}
use blockchain_raft.Text.{decimal}
use blockchain_raft.Text.Decimal.{Digits, decimal-Digits}
use blockchain_raft.Text.Split.{IsWord, IsWord-append}
use blockchain_raft.Float32.{
  is_nan, is_infinite, is_negative, round_div, magnitude, six_digits, unsigned_text, to_text,
}

Digits-IsWord : (s : List ℕ) → Digits s → IsWord s
Digits-IsWord [] h = tt
Digits-IsWord (c ∷ cs) h = (ground (arith, h), Digits-IsWord cs h.2)

six_digits-Digits : (n : ℕ) → Digits (six_digits n)
unfolding six_digits
six_digits-Digits n = omega arith

-- A word that is not empty.
abbrev IsText : List ℕ → Type 0
IsText w = (w ≢ []) × IsWord w

append-IsText : (v : List ℕ) (c : ℕ) (w : List ℕ) → IsWord v → IsWord (c ∷ w) → IsText (v ++ c ∷ w)
append-IsText [] c w h k = ((λ e. cc), k)
append-IsText (d ∷ v) c w h k = ((λ e. cc), IsWord-append (d ∷ v) (c ∷ w) h k)

unsigned_text-IsText : (b : ℕ) → IsText (unsigned_text b)
unfolding unsigned_text
unsigned_text-IsText b = elim (Bool-cases (is_nan b)) [
  | inl n ↦ rw n ((λ e. cc), (refl, (refl, (refl, tt))))
  | inr real ↦ elim (Bool-cases (is_infinite b)) [
    | inl i ↦ rw (real, i) ((λ e. cc), (refl, (refl, (refl, tt))))
    | inr finite ↦
        let q = round_div (magnitude b * 1_000_000) (2 ^ 149) in
        rw (real, finite)
          (append-IsText (decimal 39 (q / 1_000_000)) b'.' (six_digits (q % 1_000_000))
            (Digits-IsWord (decimal 39 (q / 1_000_000)) (decimal-Digits 39 (q / 1_000_000)))
            (refl, Digits-IsWord (six_digits (q % 1_000_000)) (six_digits-Digits (q % 1_000_000))))
  ]
]

pub to_text-IsText : (b : ℕ) → IsText (to_text b)
unfolding to_text
to_text-IsText b =
    let (some_text, word) = unsigned_text-IsText b in
    elim (Bool-cases (is_negative b)) [
      | inl n ↦ rw n ((λ e. cc), (refl, word))
      | inr p ↦ rw p (some_text, word)
    ]
