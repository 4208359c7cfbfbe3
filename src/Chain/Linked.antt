-- ===== src/Chain/Linked.antt =====
-- The chain of hashes and positions that `Blockchain::add_transaction` builds.
use blockchain_raft.Base.{
  ℕ, zero, suc, ◌+◌, ◌≤◌, ◌≡◌, ◌≢◌, refl, ap, sym, ◌∙◌, inl, inr, none, some, List, [], ◌∷◌, ◌++◌,
  arith, length, get_elem?, get_last?, take, drop, Option-cases, int_of_ℕ, int_of_ℕ-small,
  int_max_suc, pred_ℤ, ◌<◌,
}
use mathlib.Core.Option.{some_inj}
use blockchain_raft.Msg.{Extern}
use blockchain_raft.Block.{Transaction, Block, no_hash, find_hash, new_block}
use blockchain_raft.Chain.{
  Blockchain, add_transaction, next_block, write_block_to_file, get_last_index,
}

last_block {ℓ} :
    {A : Type ℓ} (bs : List A) (n : ℕ)
    → length bs ≡ suc n
    → (b : A) × (get_elem? bs n ≡ some b) × (get_last? bs ≡ some b)
last_block [] n e = absurd (omega arith)
last_block (b ∷ []) n e = let e' : n ≡ 0 = omega arith in (b, rw e' refl, refl)
last_block (b ∷ c ∷ bs) zero e = absurd (omega arith)
last_block (b ∷ c ∷ bs) (suc n) e = last_block (c ∷ bs) n (omega arith)

not_none {ℓ} : {A : Type ℓ} (b : A) (bs : List A) → get_last? (b ∷ bs) ≢ none
not_none b [] e = cc
not_none b (c ∷ bs) e = not_none c bs e

no_last {ℓ} : {A : Type ℓ} (bs : List A) → length bs ≡ 0 → get_last? bs ≡ none
no_last [] e = refl
no_last (b ∷ bs) e = absurd (omega arith)

module _ (x : Extern) where
  -- The blocks stand at positions `i`, `i + 1` and so on, after a block whose hash is `prev`.
  abbrev pub Linked : ℕ → List ℕ → List Block → Type 0
  Linked i prev [] = Unit {0}
  Linked i prev (b ∷ bs) =
      (b.index ≡ int_of_ℕ i) × (b.phash ≡ prev) × Linked (suc i) (find_hash x b) bs

  -- The hash that the next block has to hold.
  abbrev pub tip : List ℕ → List Block → List ℕ
  tip prev [] = prev
  tip prev (b ∷ bs) = tip (find_hash x b) bs

  pub Linked-append :
      (i j : ℕ) (prev : List ℕ) (xs ys : List Block)
      → i + length xs ≡ j
      → Linked i prev xs
      → Linked j (tip prev xs) ys
      → Linked i prev (xs ++ ys)
  Linked-append i j prev [] ys e hx hy = let e' : i ≡ j = omega arith in rw e' hy
  Linked-append i j prev (b ∷ xs) ys e hx hy =
      (hx.0, hx.1, Linked-append (suc i) j (find_hash x b) xs ys (omega arith) hx.2 hy)

  pub Linked-take :
      (i k : ℕ) (prev : List ℕ) (bs : List Block) → Linked i prev bs → Linked i prev (take k bs)
  Linked-take i zero prev bs h = tt
  Linked-take i (suc k) prev [] h = tt
  Linked-take i (suc k) prev (b ∷ bs) h = (h.0, h.1, Linked-take (suc i) k (find_hash x b) bs h.2)

  pub Linked-drop :
      (i k : ℕ) (prev : List ℕ) (bs : List Block)
      → k ≤ length bs
      → Linked i prev bs
      → Linked (i + k) (tip prev (take k bs)) (drop k bs)
  Linked-drop i zero prev bs l h = let e : i + 0 ≡ i = omega arith in rw e h
  Linked-drop i (suc k) prev [] l h = elim l [ ]
  Linked-drop i (suc k) prev (b ∷ bs) l h =
      let e : i + suc k ≡ suc i + k = omega arith in
      rw e (Linked-drop (suc i) k (find_hash x b) bs (omega arith) h.2)

  pub Linked-index :
      (i k : ℕ) (prev : List ℕ) (bs : List Block) {b : Block}
      → Linked i prev bs
      → get_elem? bs k ≡ some b
      → b.index ≡ int_of_ℕ (i + k)
  Linked-index i k prev [] h e = cc
  Linked-index i zero prev (c ∷ bs) h e =
      let e' : i + 0 ≡ i = omega arith in
      rw e' (ap (λ (b : Block). b.index) (sym (some_inj.0 e)) ∙ h.0)
  Linked-index i (suc k) prev (c ∷ bs) h e =
      let e' : i + suc k ≡ suc i + k = omega arith in
      rw e' (Linked-index (suc i) k (find_hash x c) bs h.2 e)

  pub tip-get_last? :
      (prev : List ℕ) (bs : List Block) {b : Block}
      → get_last? bs ≡ some b
      → tip prev bs ≡ find_hash x b
  tip-get_last? prev [] e = cc
  tip-get_last? prev (c ∷ []) e = ap (find_hash x) (some_inj.0 e)
  tip-get_last? prev (c ∷ d ∷ bs) e = tip-get_last? (find_hash x c) (d ∷ bs) e

  tip-none : (prev : List ℕ) (bs : List Block) → get_last? bs ≡ none → tip prev bs ≡ prev
  tip-none prev [] e = refl
  tip-none prev (c ∷ []) e = absurd (ground arith)
  tip-none prev (c ∷ d ∷ bs) e = absurd (not_none c (d ∷ bs) e)

  -- The whole chain: from position 0 and the hash "NULL".
  abbrev pub IsLinked : Blockchain → Type 0
  IsLinked bc = Linked 0 no_hash bc.blocks

  -- In a linked chain the last index is the position of the last block.
  pub get_last_index-IsLinked :
      (bc : Blockchain) (n : ℕ)
      → IsLinked bc
      → length bc.blocks ≡ suc n
      → get_last_index bc ≡ int_of_ℕ n
  unfolding get_last_index
  get_last_index-IsLinked bc n h e =
      let (b, at, last) = last_block bc.blocks n e in
      let position : 0 + n ≡ n = omega arith in
      rw (last, get_last_index) (Linked-index 0 n no_hash bc.blocks h at ∙ ap int_of_ℕ position)

  -- It is one less than the number of blocks, also where there is none.
  pub get_last_index-pred :
      (bc : Blockchain) (n : ℕ)
      → IsLinked bc
      → length bc.blocks < int_max_suc
      → length bc.blocks ≡ n
      → get_last_index bc ≡ pred_ℤ n
  unfolding get_last_index
  get_last_index-pred bc zero h short e = rw (no_last bc.blocks e, get_last_index)
  get_last_index-pred bc (suc n) h short e =
      get_last_index-IsLinked bc n h e ∙ int_of_ℕ-small n (omega arith)

  -- What a call of `add_transaction` that returns has done.
  pub add_transaction_lem :
      (draws : List ℕ) (term : ℕ) (t : Transaction) (bc : Blockchain) {bc' : Blockchain}
      → add_transaction x draws term t bc ≡ some bc'
      → (b : Block) × (new_block x draws term t ≡ some b)
        × (bc'
            ≡ write_block_to_file x
                (record bc { blocks = bc.blocks ++ next_block x bc b ∷ [] })
                (next_block x bc b))
  unfolding add_transaction
  add_transaction_lem draws term t bc e = elim (Option-cases (new_block x draws term t)) [
    | inl missing ↦ absurd (grind (arith, missing))
    | inr (b, mined) ↦ (b, mined, sym (some_inj.0 (rw (mined, add_transaction) at e)))
  ]

  new_block-phash :
      (draws : List ℕ) (term : ℕ) (t : Transaction) {b : Block}
      → new_block x draws term t ≡ some b
      → b.phash ≡ no_hash
  unfolding new_block
  new_block-phash draws term t e = ground arith

  next_block-Linked :
      (bc : Blockchain) (b : Block)
      → b.phash ≡ no_hash
      → Linked (length bc.blocks) (tip no_hash bc.blocks) (next_block x bc b ∷ [])
  unfolding next_block
  next_block-Linked bc b e = (
    refl,
    elim (Option-cases (get_last? bc.blocks)) [
      | inl empty ↦ rw (empty, next_block) (e ∙ sym (tip-none no_hash bc.blocks empty))
      | inr (c, last) ↦ rw (last, next_block) (sym (tip-get_last? no_hash bc.blocks last))
    ],
    tt,
  )

  -- Adding a transaction to a linked chain, when the nonce search ends, gives a linked chain:
  -- every block holds its position and the hash of the block before it.
  pub add_transaction-IsLinked :
      (draws : List ℕ) (term : ℕ) (t : Transaction) (bc : Blockchain) {bc' : Blockchain}
      → IsLinked bc
      → add_transaction x draws term t bc ≡ some bc'
      → IsLinked bc'
  unfolding write_block_to_file
  add_transaction-IsLinked draws term t bc h e =
      let (b, mined, done) = add_transaction_lem draws term t bc e in
      rw done (
        Linked-append 0 (length bc.blocks) no_hash bc.blocks (next_block x bc b ∷ []) (omega arith)
          h (next_block-Linked bc b (new_block-phash draws term t mined)))
