-- ===== src/Chain/Cleanup.antt =====
-- The loop of `clean_up_blocks` that drops the blocks from an index on.
use blockchain_raft.Base.{
  ℕ, zero, suc, ◌+◌, ◌≤◌, ◌<◌, ◌≡◌, sym, ◌∙◌, inl, inr, List, arith, Bool-cases, length, take,
  take-length, take-pop_back, length-pop_back, pop_back, ℤ, pos, ◌-ℤ◌, leb_ℤ, int_of_ℕ,
  int_of_ℕ-small, int_max_suc, int_laws, leb_ℤ→≤ℤ, leb_ℤ→<ℤ, pos_part, neg_part,
}
use blockchain_raft.Block.{Block}
use blockchain_raft.Chain.{pop_down}

-- From the position of the last block down to `k` the loop leaves the first `k` blocks.
pop_down-take :
    (f k : ℕ) (i : ℤ) (bs : List Block)
    → length bs ≤ f
    → pos_part i + 1 ≡ length bs + neg_part i
    → pop_down (suc f) i (pos k) bs ≡ take k bs
unfolding pop_down
pop_down-take zero k i bs h e = elim (Bool-cases (leb_ℤ (pos k) i)) [
  | inl more ↦ absurd (grind (int_laws, leb_ℤ→≤ℤ (pos k) i more))
  | inr done ↦ rw done (sym (take-length k bs (omega arith)))
]
pop_down-take (suc f) k i bs h e = elim (Bool-cases (leb_ℤ (pos k) i)) [
  | inl more ↦
      let le = leb_ℤ→≤ℤ (pos k) i more in
      rw more (
        pop_down-take f k (i -ℤ pos 1) (pop_back bs) (omega (arith, length-pop_back bs))
          (omega (int_laws, length-pop_back bs, le))
        ∙ take-pop_back k bs (omega (int_laws, le)))
  | inr done ↦ rw done (sym (take-length k bs (omega (int_laws, leb_ℤ→<ℤ (pos k) i done))))
]

-- Cleaning up from `k` on keeps the first `k` blocks.
pub cleanup-take :
    (k : ℕ) (bs : List Block)
    → length bs < int_max_suc
    → pop_down (suc (length bs)) (int_of_ℕ (length bs) -ℤ pos 1) (pos k) bs ≡ take k bs
cleanup-take k bs h =
    rw (int_of_ℕ-small (length bs) h)
      (pop_down-take (length bs) k (pos (length bs) -ℤ pos 1) bs (omega arith) (omega int_laws))
