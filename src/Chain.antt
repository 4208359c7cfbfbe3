-- ===== src/Chain.antt =====
-- `class Blockchain` of blockchain.h: the blocks in memory, the committed index, and the backup
-- file as the list of its bytes. `int` positions are integers; what `exit` ends is a `Result`.
pub mod Header
pub mod Lines
pub mod Cleanup
pub mod Linked
pub mod Saved
pub mod Load
use blockchain_raft.Base.{
  ℕ, zero, suc, ◌+◌, ◌-◌, Bool, true, false, Option, none, some, List, [], ◌∷◌, ◌++◌, map, leb, ltb,
  ◌==◌, if◌then◌else◌, length, get_elem?, get_last?, take, drop, set, replicate, pop_back, Result,
  ok, exited, ◌>>=◌, ℤ, pos, negsuc, pos_part, neg_part, ◌-ℤ◌, leb_ℤ, ltb_ℤ, int_of_ℕ,
}
use blockchain_raft.Text.{to_string, stoi}
use blockchain_raft.Msg.{Extern, BlockMsg, TxnMsg}
use blockchain_raft.Block.{Transaction, Block, find_hash, new_block}

pub record Blockchain : Type 0 where
  pub blocks : List Block
  pub committed_index : ℤ
  pub file : List ℕ

-- NUM_DIGITS_COMMITTED_INDEX
abbrev pub num_digits : ℕ
num_digits = 4

abbrev pub newline : ℕ
newline = 10

-- `strcpy(buffer + offset, text)`: the text and a zero byte.
unfoldable pub strcpy : List ℕ → ℕ → List ℕ → List ℕ
strcpy buffer offset text =
    take offset buffer ++ (text ++ 0 ∷ drop (offset + length text + 1) buffer)

-- The six bytes of the first line; `none` where the number has too many digits.
unfoldable pub index_line : ℤ → Option (List ℕ)
index_line index =
    let blank = replicate (num_digits + 2) b'0' in
    let signed = set blank 0 (if ltb_ℤ index (pos 0) then b'-' else b'+') in
    let index_string = to_string (pos_part index + neg_part index) in
    if ltb num_digits (length index_string)
    then none
    else some (
        set (strcpy signed (1 + num_digits - length index_string) index_string) (num_digits + 1)
          newline)

-- The fields that `write_block_to_file` sets.
unfoldable pub block_to_msg : Block → BlockMsg
block_to_msg b = record {
  term = b.term;
  phash = b.phash;
  nonce = b.nonce;
  txn = record {
    sender_id = b.txn.sender_id;
    recver_id = b.txn.recver_id;
    amount = b.txn.amount;
    bal_txn_flag = some b.txn.bal_txn_flag;
  };
  index = b.index;
}

-- An optional `bool` that is not set reads as false.
abbrev pub bool_field : Option Bool → Bool
bool_field none = false
bool_field (some v) = v

-- The fields that `parse_file_to_bc` reads.
unfoldable pub block_of_msg : BlockMsg → Block
block_of_msg m = record {
  term = m.term;
  phash = m.phash;
  nonce = m.nonce;
  txn = record {
    sender_id = m.txn.sender_id;
    recver_id = m.txn.recver_id;
    amount = m.txn.amount;
    bal_txn_flag = bool_field m.txn.bal_txn_flag;
  };
  index = m.index;
}

-- `getline` until the end of the file: what follows the last newline is a line if it is not empty.
unfoldable pub last_line : List ℕ → List (List ℕ)
last_line [] = []
last_line (c ∷ line) = (c ∷ line) ∷ []

unfoldable pub lines_from : List ℕ → List ℕ → List (List ℕ)
unfolding last_line
lines_from line [] = last_line line
lines_from line (c ∷ cs) = elim (c == newline) [
  | true ↦ line ∷ lines_from [] cs
  | false ↦ lines_from (line ++ c ∷ []) cs
]

unfoldable pub lines : List ℕ → List (List ℕ)
lines = lines_from []

-- The first line as `getline` leaves it, and the others.
unfoldable pub first_line : List (List ℕ) → List ℕ × List (List ℕ)
first_line [] = ([], [])
first_line (l ∷ ls) = (l, ls)

module _ (x : Extern) where
  -- What `write_block_to_file` appends.
  unfoldable pub block_line : Block → List ℕ
  block_line b = x.block_to_bytes (block_to_msg b) ++ newline ∷ []

  unfoldable pub write_block_to_file : Blockchain → Block → Blockchain
  write_block_to_file bc b = record bc { file = bc.file ++ block_line b }

  unfoldable pub write_blocks : Blockchain → List Block → Blockchain
  write_blocks bc [] = bc
  write_blocks bc (b ∷ bs) = write_blocks (write_block_to_file bc b) bs

  -- The chain with the file that it leaves, and how the call ends.
  unfoldable pub write_bc_to_file : Blockchain → Blockchain × Result (Unit {0})
  write_bc_to_file bc = elim (index_line bc.committed_index) [
    | none ↦ (record bc { file = [] }, exited 1)
    | some h ↦ (write_blocks (record bc { file = h }) bc.blocks, ok tt)
  ]

  unfoldable pub parse_blocks : List (List ℕ) → List Block
  parse_blocks [] = []
  parse_blocks (l ∷ ls) = block_of_msg (x.block_of_bytes l) ∷ parse_blocks ls

  unfoldable pub with_lines : Blockchain → List ℕ × List (List ℕ) → Result Blockchain
  with_lines bc (line, rest) = elim (stoi line) [
    | none ↦ exited 1
    | some i ↦ ok (record bc { committed_index = i; blocks = bc.blocks ++ parse_blocks rest })
  ]

  unfoldable pub parse_file_to_bc : Blockchain → Result Blockchain
  parse_file_to_bc bc = with_lines bc (first_line (lines bc.file))

  -- `none` is a file that is not there: it is made with a committed index of -1.
  unfoldable pub load_file : Option (List ℕ) → Result Blockchain
  load_file none =
      let blank = replicate (num_digits + 2) b'0' in
      let bytes = set (set (set blank 0 b'-') num_digits b'1') (num_digits + 1) newline in
      parse_file_to_bc (record { blocks = []; committed_index = pos 0; file = bytes })
  load_file (some bytes) =
      parse_file_to_bc (record { blocks = []; committed_index = pos 0; file = bytes })

  -- The mined block with the hash of the block before it and its position.
  unfoldable pub next_block : Blockchain → Block → Block
  next_block bc mined =
      let phash : List ℕ = elim (get_last? bc.blocks) [
        | none ↦ mined.phash
        | some b ↦ find_hash x b
      ] in
      record mined { phash = phash; index = int_of_ℕ (length bc.blocks) }

  -- `none` while the nonce search still runs after the values drawn.
  unfoldable pub add_transaction : List ℕ → ℕ → Transaction → Blockchain → Option Blockchain
  add_transaction draws term new_txn bc = elim (new_block x draws term new_txn) [
    | none ↦ none
    | some mined ↦
        let newblo = next_block bc mined in
        some (write_block_to_file (record bc { blocks = bc.blocks ++ newblo ∷ [] }) newblo)
  ]

-- `fwrite` at the start of the file.
unfoldable pub set_committed_index : ℤ → Blockchain → Blockchain
set_committed_index index bc = if ltb_ℤ index (negsuc 0) then bc else elim (index_line index) [
  | none ↦ record bc { committed_index = index }
  | some h ↦ record bc { committed_index = index; file = h ++ drop (num_digits + 2) bc.file }
]

-- for (int i = start; i >= index; i--) blocks.pop_back(); the fuel bounds the rounds.
unfoldable pub pop_down : ℕ → ℤ → ℤ → List Block → List Block
pop_down zero i index bs = bs
pop_down (suc f) i index bs =
    let rest = pop_down f (i -ℤ pos 1) index (pop_back bs) in if leb_ℤ index i then rest else bs

unfoldable pub clean_up_blocks :
    Extern → ℤ → List Block → Blockchain → Blockchain × Result (Unit {0})
clean_up_blocks x index ref bc =
    let kept =
      pop_down (suc (length bc.blocks)) (int_of_ℕ (length bc.blocks) -ℤ pos 1) index bc.blocks in
    write_bc_to_file x (record bc { blocks = kept ++ ref })

unfoldable pub get_block_by_index : Blockchain → ℤ → Result Block
get_block_by_index bc (negsuc _) = exited 0
get_block_by_index bc (pos n) = elim (get_elem? bc.blocks n) [ none ↦ exited 0 | some b ↦ ok b ]

unfoldable pub get_blockchain_length : Blockchain → ℕ
get_blockchain_length bc = length bc.blocks

unfoldable pub get_last_term : Blockchain → ℕ
get_last_term bc = elim (get_last? bc.blocks) [ none ↦ 0 | some b ↦ b.term ]

unfoldable pub get_last_index : Blockchain → ℤ
get_last_index bc = elim (get_last? bc.blocks) [ none ↦ negsuc 0 | some b ↦ b.index ]
