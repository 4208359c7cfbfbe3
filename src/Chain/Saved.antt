-- ===== src/Chain/Saved.antt =====
-- The backup file against the chain in memory: what each operation writes, and what a start of the
-- program reads back.
use blockchain_raft.Base.{
  ℕ, ◌+◌, ◌<◌, ◌≡◌, refl, ap, sym, ◌∙◌, false, some, List, [], ◌∷◌, ◌++◌, arith, append_assoc,
  append-nil, length, take, drop, drop-append_suc, ok, ℤ, pos, negsuc, ltb_ℤ, ◌≤ℤ◌, int_max_suc,
}
use blockchain_raft.Msg.{Extern}
use blockchain_raft.Block.{Transaction, Block}
use blockchain_raft.Chain.{
  Blockchain, num_digits, newline, block_line, next_block, write_block_to_file, write_blocks,
  write_bc_to_file, add_transaction, set_committed_index, clean_up_blocks,
}
use blockchain_raft.Chain.Header.{IsStorable, index_text, index_line-some, length-index_text}
use blockchain_raft.Chain.Cleanup.{cleanup-take}
use blockchain_raft.Chain.Linked.{add_transaction_lem}

sign_lem : (i : ℤ) → negsuc 0 ≤ℤ i → ltb_ℤ i (negsuc 0) ≡ false
sign_lem i h = ground arith

module _ (x : Extern) where
  -- One line for each block.
  unfoldable pub body : List Block → List ℕ
  body [] = []
  body (b ∷ bs) = block_line x b ++ body bs

  -- The file that holds a chain.
  unfoldable pub image : Blockchain → List ℕ
  image bc = index_text bc.committed_index ++ newline ∷ body bc.blocks

  -- The file on disk is that of the chain in memory.
  pub record IsSaved (bc : Blockchain) : Type 0 where
    pub storable : IsStorable bc.committed_index
    pub on_disk : bc.file ≡ image bc

  body-append : (as' bs : List Block) → body (as' ++ bs) ≡ body as' ++ body bs
  unfolding body
  body-append [] bs = refl
  body-append (a ∷ as') bs =
      rw (body-append as' bs) (sym (append_assoc (block_line x a) (body as') (body bs)))

  write_blocks_lem :
      (bc : Blockchain) (bs : List Block)
      → write_blocks x bc bs ≡ record bc { file = bc.file ++ body bs }
  unfolding write_blocks write_block_to_file body
  write_blocks_lem bc [] = rw (append-nil bc.file)
  write_blocks_lem bc (b ∷ bs) =
      write_blocks_lem (write_block_to_file x bc b) bs
      ∙ ap (λ (f : List ℕ). record bc { file = f })
          (append_assoc bc.file (block_line x b) (body bs))

  saved_snoc :
      (bc : Blockchain) (b : Block)
      → bc.file ≡ image bc
      → bc.file ++ block_line x b ≡ image (record bc { blocks = bc.blocks ++ b ∷ [] })
  unfolding image body
  saved_snoc bc b e =
      ap (λ (f : List ℕ). f ++ block_line x b) e
      ∙ append_assoc (index_text bc.committed_index) (newline ∷ body bc.blocks) (block_line x b)
      ∙ ap (λ (k : List ℕ). index_text bc.committed_index ++ newline ∷ k)
          (sym (
            body-append bc.blocks (b ∷ [])
            ∙ ap (λ (k : List ℕ). body bc.blocks ++ k) (append-nil (block_line x b))))

  -- Behind the six bytes of the first line stand the blocks.
  body_of_file : (bc : Blockchain) → IsSaved bc → drop (num_digits + 2) bc.file ≡ body bc.blocks
  unfolding image
  body_of_file bc s =
      ap (drop (num_digits + 2)) s.on_disk
      ∙ drop-append_suc 5 (index_text bc.committed_index) newline (body bc.blocks)
          (length-index_text bc.committed_index s.storable)

  -- If the file is that of the chain in memory, it is again after a transaction is added, when the
  -- nonce search ends.
  pub add_transaction-IsSaved :
      (draws : List ℕ) (term : ℕ) (t : Transaction) (bc : Blockchain) {bc' : Blockchain}
      → IsSaved bc
      → add_transaction x draws term t bc ≡ some bc'
      → IsSaved bc'
  unfolding write_block_to_file image body
  add_transaction-IsSaved draws term t bc s e =
      let (b, mined, done) = add_transaction_lem x draws term t bc e in
      rw done
        (record { storable = s.storable; on_disk = saved_snoc bc (next_block x bc b) s.on_disk })

  -- If the file is that of the chain in memory, it is again after the committed index is set to a
  -- number from -1 to 9999: its first line is rewritten in place and the blocks stay.
  pub set_committed_index-IsSaved :
      (i : ℤ) (bc : Blockchain)
      → IsStorable i
      → negsuc 0 ≤ℤ i
      → IsSaved bc
      → IsSaved (set_committed_index i bc)
  unfolding set_committed_index image
  set_committed_index-IsSaved i bc h l s =
      rw (sign_lem i l, index_line-some i h, set_committed_index)
        (record {
          storable = h;
          on_disk =
              ap (λ (f : List ℕ). (index_text i ++ newline ∷ []) ++ f) (body_of_file bc s)
              ∙ append_assoc (index_text i) (newline ∷ []) (body bc.blocks);
        })

  -- The rewritten file holds the chain.
  pub write_bc_to_file_lem :
      (bc : Blockchain)
      → IsStorable bc.committed_index
      → write_bc_to_file x bc ≡ (record bc { file = image bc }, ok tt)
  unfolding write_bc_to_file image
  write_bc_to_file_lem bc h =
      rw (index_line-some bc.committed_index h, write_bc_to_file)
        (ap (λ (c : Blockchain). (c, ok tt))
          (write_blocks_lem (record bc { file = index_text bc.committed_index ++ newline ∷ [] })
              bc.blocks
            ∙ ap (λ (f : List ℕ). record bc { file = f })
                (append_assoc (index_text bc.committed_index) (newline ∷ []) (body bc.blocks))))

  -- Cleaning up from k on, with fewer than 2^31 blocks and a committed index that four digits
  -- hold, returns, keeps the first k blocks with the given ones behind them, and leaves the file
  -- of that chain.
  pub clean_up_blocks_lem :
      (k : ℕ) (ref : List Block) (bc : Blockchain)
      → length bc.blocks < int_max_suc
      → IsStorable bc.committed_index
      → let c = record bc { blocks = take k bc.blocks ++ ref } in
        clean_up_blocks x (pos k) ref bc ≡ (record c { file = image c }, ok tt)
  unfolding clean_up_blocks
  clean_up_blocks_lem k ref bc h s =
      rw (cleanup-take k bc.blocks h)
        (write_bc_to_file_lem (record bc { blocks = take k bc.blocks ++ ref }) s)
