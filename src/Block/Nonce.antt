-- ===== src/Block/Nonce.antt =====
-- The nonce search of `Block::find_nonce`, and the block that the constructor makes with it.
use blockchain_raft.Base.{
  ℕ, ◌≤◌, ◌≡◌, ◌+◌, ◌%◌, inl, inr, true, some, List, [], ◌∷◌, ◌++◌, arith, Bool-cases, Option-cases,
}
use blockchain_raft.Msg.{Extern}
use blockchain_raft.Block.{
  Transaction, Block, serialize_transaction, sha256, find_hash, accepts, letter, find_nonce,
  new_block,
}

-- A nonce is one lower-case letter.
abbrev pub IsLetter : List ℕ → Type 0
IsLetter n = (c : ℕ) × (n ≡ c ∷ []) × (b'a' ≤ c) × (c ≤ b'z')

-- A nonce that is found is a letter and makes the hash pass the test.
pub find_nonce-accepts :
    (x : Extern) (rs : List ℕ) (t : Transaction) {n : List ℕ}
    → find_nonce x rs t ≡ some n
    → (accepts (sha256 x (serialize_transaction t ++ n)) ≡ true) × IsLetter n
unfolding find_nonce
find_nonce-accepts x [] t e = cc
find_nonce-accepts x (r ∷ rs) t e =
    elim (Bool-cases (accepts (sha256 x (serialize_transaction t ++ letter r)))) [
      | inl hit ↦
          (ground (arith, hit), (r % 26 + 97, ground (arith, hit), omega arith, omega arith))
      | inr miss ↦ find_nonce-accepts x rs t (rw miss at e)
    ]

-- A block that the constructor returns has the given term and transaction, a lower-case letter as
-- its nonce, and a hash that ends in 0, 1 or 2.
pub new_block_mined :
    (x : Extern) (draws : List ℕ) (term : ℕ) (t : Transaction) {b : Block}
    → new_block x draws term t ≡ some b
    → (accepts (find_hash x b) ≡ true) × IsLetter b.nonce × (b.txn ≡ t) × (b.term ≡ term)
unfolding new_block find_hash
new_block_mined x draws term t e = elim (Option-cases (find_nonce x draws t)) [
  | inl missing ↦ ground arith
  | inr (n, found) ↦
      let (passes, letter_n) = find_nonce-accepts x draws t found in
      (
        ground (arith, found, passes),
        (letter_n.0, ground (arith, found, letter_n.1), letter_n.2, letter_n.3),
        ground (arith, found),
        ground (arith, found),
      )
]
