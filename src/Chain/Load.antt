-- ===== src/Chain/Load.antt =====
-- A start of the program on the backup file of an earlier run.
use blockchain_raft.Base.{
  ℕ, suc, ◌+◌, ◌<◌, ◌≡◌, ◌≢◌, refl, ap, ◌∙◌, none, some, List, [], ◌∷◌, ◌++◌, arith, append_assoc,
  length, ok, pos, negsuc, ◌-ℤ◌,
}
use blockchain_raft.Text.{stoi, to_string, decimal}
use blockchain_raft.Msg.{Extern}
use blockchain_raft.Block.{Block}
use blockchain_raft.Chain.{
  Blockchain, newline, block_to_msg, block_of_msg, block_line, parse_blocks, with_lines,
  parse_file_to_bc, load_file, lines, lines_from, last_line, first_line,
}
use blockchain_raft.Chain.Header.{index_text, stoi-index_text, index_text-IsClean}
use blockchain_raft.Chain.Lines.{IsClean, lines-clean, newlines, length-lines}
use blockchain_raft.Chain.Saved.{body, image, IsSaved}

-- The chain that a start without a backup file begins with.
abbrev pub initial : Blockchain
initial = record {
  blocks = [];
  committed_index = negsuc 0;
  file = b'-' ∷ b'0' ∷ b'0' ∷ b'0' ∷ b'1' ∷ newline ∷ [];
}

pub initial-IsSaved : (x : Extern) → IsSaved x initial
unfolding image body index_text to_string decimal
initial-IsSaved x = record { storable = omega arith; on_disk = refl }

pub load_new : (x : Extern) → load_file x none ≡ ok initial
unfolding load_file parse_file_to_bc with_lines lines lines_from first_line parse_blocks stoi ◌-ℤ◌
    last_line
load_new x = refl

module _ (x : Extern) where
  -- The line of each block has no newline inside, and is parsed as the message that was written.
  abbrev pub Readable : List Block → Type 0
  Readable [] = Unit {0}
  Readable (b ∷ bs) =
      IsClean (x.block_to_bytes (block_to_msg b))
      × (x.block_of_bytes (x.block_to_bytes (block_to_msg b)) ≡ block_to_msg b)
      × Readable bs

  block_of_msg-block_to_msg : (b : Block) → block_of_msg (block_to_msg b) ≡ b
  unfolding block_of_msg block_to_msg
  block_of_msg-block_to_msg b = refl

  body_cons :
      (b : Block) (bs : List Block)
      → body x (b ∷ bs) ≡ x.block_to_bytes (block_to_msg b) ++ newline ∷ body x bs
  unfolding body block_line
  body_cons b bs = append_assoc (x.block_to_bytes (block_to_msg b)) (newline ∷ []) (body x bs)

  parse_blocks-body : (bs : List Block) → Readable bs → parse_blocks x (lines (body x bs)) ≡ bs
  unfolding parse_blocks lines lines_from last_line body
  parse_blocks-body [] h = refl
  parse_blocks-body (b ∷ bs) h =
      ap (λ (t : List ℕ). parse_blocks x (lines t)) (body_cons b bs)
      ∙ ap (parse_blocks x) (lines-clean (x.block_to_bytes (block_to_msg b)) (body x bs) h.0)
      ∙ ap (λ (c : Block). c ∷ parse_blocks x (lines (body x bs)))
          (ap block_of_msg h.1 ∙ block_of_msg-block_to_msg b)
      ∙ ap (λ (cs : List Block). b ∷ cs) (parse_blocks-body bs h.2)

  first_line-saved :
      (bc : Blockchain)
      → IsSaved x bc
      → first_line (lines bc.file) ≡ (index_text bc.committed_index, lines (body x bc.blocks))
  unfolding first_line image
  first_line-saved bc s =
      ap (λ (t : List ℕ). first_line (lines t)) s.on_disk
      ∙ ap first_line (
          lines-clean (index_text bc.committed_index) (body x bc.blocks)
            (index_text-IsClean bc.committed_index))

  -- Loading the file of a saved chain: the committed index is read back, and a block for each line.
  pub load_file-saved :
      (bc : Blockchain)
      → IsSaved x bc
      → load_file x (some bc.file)
        ≡ ok (record bc { blocks = parse_blocks x (lines (body x bc.blocks)) })
  unfolding load_file parse_file_to_bc with_lines
  load_file-saved bc s =
      ap (with_lines x (record { blocks = []; committed_index = pos 0; file = bc.file }))
        (first_line-saved bc s)
      ∙ rw (stoi-index_text bc.committed_index s.storable, with_lines)

  -- Loading the backup file of a saved chain gives the chain back, if the encoding of each block
  -- has no newline byte and is parsed as the message that was written.
  pub load_saved :
      (bc : Blockchain) → Readable bc.blocks → IsSaved x bc → load_file x (some bc.file) ≡ ok bc
  load_saved bc h s =
      load_file-saved bc s
      ∙ ap (λ (bs : List Block). ok (record bc { blocks = bs })) (parse_blocks-body bc.blocks h)

  -- The newlines inside the lines of the blocks.
  unfoldable pub stray : List Block → ℕ
  stray [] = 0
  stray (b ∷ bs) = newlines (x.block_to_bytes (block_to_msg b)) + stray bs

  length-parse_blocks : (ls : List (List ℕ)) → length (parse_blocks x ls) ≡ length ls
  unfolding parse_blocks
  length-parse_blocks [] = refl
  length-parse_blocks (l ∷ ls) = ap suc (length-parse_blocks ls)

  length-lines-body : (bs : List Block) → length (lines (body x bs)) ≡ length bs + stray bs
  unfolding stray lines lines_from last_line body
  length-lines-body [] = omega arith
  length-lines-body (b ∷ bs) =
      ap (λ (t : List ℕ). length (lines t)) (body_cons b bs)
      ∙ omega (
        arith,
        length-lines (x.block_to_bytes (block_to_msg b)) (body x bs),
        length-lines-body bs,
      )

  -- If the encoding of some block of a saved chain has a newline byte, loading its file returns a
  -- chain with one block more for each such byte, so another chain than was saved.
  pub load_damaged :
      (bc : Blockchain)
      → IsSaved x bc
      → 0 < stray bc.blocks
      → (bc' : Blockchain) × (load_file x (some bc.file) ≡ ok bc')
        × (length bc'.blocks ≡ length bc.blocks + stray bc.blocks)
        × (bc' ≢ bc)
  load_damaged bc s h =
      let bs = parse_blocks x (lines (body x bc.blocks)) in
      let count : length bs ≡ length bc.blocks + stray bc.blocks =
        length-parse_blocks (lines (body x bc.blocks)) ∙ length-lines-body bc.blocks in
      (
        record bc { blocks = bs },
        load_file-saved bc s,
        count,
        λ e. absurd (omega (arith, ap (λ (c : Blockchain). length c.blocks) e, count)),
      )
