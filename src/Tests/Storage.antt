-- ===== src/Tests/Storage.antt =====
-- The block chain, its file and the balances on small values.
use blockchain_raft.Base.{
  ℕ, ◌+◌, ◌≡◌, ◌≢◌, ◌≤◌, ◌<◌, refl, inr, Bool, false, if◌then◌else◌, ◌==◌, some, none, List, [],
  ◌∷◌, ◌++◌, arith, ok, exited, pos, negsuc, take, length, true,
}
use blockchain_raft.Text.{hex, stoi, read_digits, decimal, to_string}
use blockchain_raft.Text.Decimal.{read_digits-decimal}
use blockchain_raft.Float32
use blockchain_raft.Block.{no_hash, sha256, find_hash, accepts, find_nonce, new_block}
use blockchain_raft.Block.Nonce.{IsLetter, new_block_mined}
use blockchain_raft.Balance.{BalanceTable, update_balance}
use blockchain_raft.Balance.Update.{IsTransfer, update_balance-IsTransfer}
use blockchain_raft.Chain.{
  newline, block_to_msg, Blockchain, add_transaction, set_committed_index, clean_up_blocks,
  load_file, index_line,
}
use blockchain_raft.Chain.Lines.{newlines, IsClean}
use blockchain_raft.Chain.Header.{index_text}
use blockchain_raft.Chain.Linked.{IsLinked, add_transaction-IsLinked}
use blockchain_raft.Chain.Saved.{
  IsSaved, image, add_transaction-IsSaved, set_committed_index-IsSaved, clean_up_blocks_lem,
}
use blockchain_raft.Chain.Load.{Readable, initial, load_new, load_saved, load_damaged, stray}
use blockchain_raft.Raft.{RequestVoteRpc}
use blockchain_raft.Server.{Server, new_server}
use blockchain_raft.Follower.{handle_vote}
use blockchain_raft.Replica.Restart.{votes_again}
use blockchain_raft.Tests.{
  demo, payment, block_at, block_0, block_1, block_2, chain, balances, idle, server,
}

load_new_example : load_file demo none ≡ ok initial
load_new_example = load_new demo

abbrev one_block : Blockchain
one_block = chain (negsuc 0) (block_0 ∷ [])

abbrev two_blocks : Blockchain
two_blocks = chain (negsuc 0) (block_0 ∷ block_1 ∷ [])

one_block-IsSaved : IsSaved demo one_block
unfolding image
one_block-IsSaved = record { storable = omega arith; on_disk = refl }

two_blocks-IsSaved : IsSaved demo two_blocks
unfolding image
two_blocks-IsSaved = record { storable = omega arith; on_disk = refl }

added : add_transaction demo (0 ∷ []) 1 payment one_block ≡ some two_blocks
unfolding add_transaction new_block find_nonce accepts sha256 blockchain_raft.Text.hex
    blockchain_raft.Chain.write_block_to_file blockchain_raft.Chain.next_block image
    blockchain_raft.Base.int_of_ℕ index_text blockchain_raft.Chain.block_line to_string
    blockchain_raft.Chain.block_to_msg blockchain_raft.Chain.Saved.body find_hash
added = refl

mined :
    new_block demo (0 ∷ []) 1 payment ≡ some (record (block_at 1 0 no_hash) { index = negsuc 0 })
unfolding new_block find_nonce accepts sha256 blockchain_raft.Text.hex
mined = refl

add_transaction-IsLinked_example : IsLinked demo two_blocks
unfolding blockchain_raft.Base.int_of_ℕ
add_transaction-IsLinked_example =
    add_transaction-IsLinked demo (0 ∷ []) 1 payment one_block (refl, refl, tt) added

add_transaction-IsSaved_example : IsSaved demo two_blocks
add_transaction-IsSaved_example =
    add_transaction-IsSaved demo (0 ∷ []) 1 payment one_block one_block-IsSaved added

set_committed_index-IsSaved_example : IsSaved demo (set_committed_index (pos 1) two_blocks)
set_committed_index-IsSaved_example =
    set_committed_index-IsSaved demo (pos 1) two_blocks (omega arith) (omega arith)
      two_blocks-IsSaved

clean_up_blocks_lem_example :
    clean_up_blocks demo (pos 1) (block_2 ∷ []) two_blocks
    ≡ (chain (negsuc 0) (block_0 ∷ block_2 ∷ []), ok tt)
unfolding image
clean_up_blocks_lem_example =
    clean_up_blocks_lem demo 1 (block_2 ∷ []) two_blocks (omega arith) (omega arith)

is_clean : List ℕ → Bool
is_clean [] = true
is_clean (c ∷ cs) = let rest = is_clean cs in if c == newline then false else rest

is_clean-IsClean : (s : List ℕ) → is_clean s ≡ true → IsClean s
unfolding is_clean
is_clean-IsClean [] h = tt
is_clean-IsClean (c ∷ cs) h = (ground (arith, h), is_clean-IsClean cs (ground (arith, h)))

readable : Readable demo two_blocks.blocks
unfolding is_clean block_to_msg find_hash sha256 hex
readable = (
  is_clean-IsClean (demo.block_to_bytes (block_to_msg block_0)) refl,
  refl,
  (is_clean-IsClean (demo.block_to_bytes (block_to_msg block_1)) refl, refl, tt),
)

load_saved_example : load_file demo (some two_blocks.file) ≡ ok two_blocks
load_saved_example = load_saved demo two_blocks readable two_blocks-IsSaved

-- Replica 0 votes for candidate 1, ends, starts again, and votes for candidate 2 in the same term.
abbrev voter : Server
voter = server 0 two_blocks

abbrev asks : ℕ → RequestVoteRpc
asks id = record { candidate_id = pos id; term = 2; last_log_term = 1; last_log_index = pos 1 }

asks_granted : (handle_vote (asks 1) voter).1.vote_granted ≡ true
unfolding handle_vote blockchain_raft.Follower.adopt_term
    blockchain_raft.Server.clear_voted_candidate blockchain_raft.Follower.may_vote
    blockchain_raft.Follower.is_up_to_date blockchain_raft.Chain.get_last_term
    blockchain_raft.Chain.get_last_index
asks_granted = refl

votes_again_example :
    (s' : Server) × (new_server demo 0 idle
        (some (handle_vote (asks 1) voter).0.bc_log.file)
        balances
      ≡ ok s')
    × (s'.bc_log ≡ two_blocks)
    × ((handle_vote (asks 2) s').1.vote_granted ≡ true)
votes_again_example =
    votes_again demo (asks 1) (asks 2) voter idle balances readable two_blocks-IsSaved asks_granted
      (omega arith) refl refl refl

-- A block of term 10, whose encoding has a newline.
abbrev damaged : Blockchain
damaged = chain (negsuc 0) (block_at 10 0 no_hash ∷ [])

load_damaged_example :
    (bc' : Blockchain) × (load_file demo (some damaged.file) ≡ ok bc')
    × (length bc'.blocks ≡ length damaged.blocks + stray demo damaged.blocks)
    × (bc' ≢ damaged)
unfolding image stray newlines block_to_msg
load_damaged_example =
    load_damaged demo damaged (record { storable = omega arith; on_disk = refl }) (ground arith)

new_block_mined_example :
    (accepts (find_hash demo (record (block_at 1 0 no_hash) { index = negsuc 0 })) ≡ true)
    × IsLetter (b'a' ∷ [])
    × (payment ≡ payment)
    × ((block_at 1 0 no_hash).term ≡ 1)
new_block_mined_example = new_block_mined demo (0 ∷ []) 1 payment mined

update_balance-IsTransfer_example :
    (b' : BalanceTable) × (update_balance balances 0 1 Float32.ten ≡ ok b')
    × IsTransfer balances b' 0 1 Float32.ten
update_balance-IsTransfer_example =
    update_balance-IsTransfer balances 0 1 Float32.ten refl (omega arith) (omega arith)

read_digits-decimal_example : read_digits 0 (decimal 10 4711) ≡ 4711
read_digits-decimal_example = read_digits-decimal 10 4711 (omega arith)
