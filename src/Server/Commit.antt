-- ===== src/Server/Commit.antt =====
-- `Server::update_bal_tab_and_committed_index` against a replay of blocks on the balances.
use blockchain_raft.Base.{
  ℕ, zero, suc, ◌+◌, ◌-◌, ◌≤◌, ◌<◌, ◌≡◌, refl, sym, ap, ◌∙◌, some, List, [], ◌∷◌, ◌++◌, arith,
  length, get_elem?, get_elem?-some, get_elem?-drop, take, drop, take-drop_add, Result, ok, ◌>>=◌,
  >>=-eq-ok, >>=_assoc, ok_inj, ℤ, pos, pos_part, ◌+ℤ◌, ◌-ℤ◌, int_laws, eq_of_parts, u32_mod,
  u32_of_int, u32_of_int-pos, pred_ℤ, lt→leb,
}
use mathlib.Core.Path.{fun_ext}
use blockchain_raft.Block.{Block}
use blockchain_raft.Chain.{
  Blockchain, get_block_by_index, get_blockchain_length, set_committed_index,
}
use blockchain_raft.Balance.{BalanceTable, update_balance}
use blockchain_raft.Server.{Server, apply_blocks, update_bal_tab_and_committed_index}

-- The transactions of a list of blocks, from the first on.
unfoldable pub replay : List Block → BalanceTable → Result BalanceTable
replay [] tab = ok tab
replay (b ∷ bs) tab = update_balance tab b.txn.sender_id b.txn.recver_id b.txn.amount >>= replay bs

pub replay-append :
    (xs bs : List Block) (tab : BalanceTable)
    → replay (xs ++ bs) tab ≡ (replay xs tab >>= replay bs)
unfolding replay
replay-append [] bs tab = refl
replay-append (x ∷ xs) bs tab =
    let paid = update_balance tab x.txn.sender_id x.txn.recver_id x.txn.amount in
    ap (λ (f : BalanceTable → Result BalanceTable). paid >>= f)
      (fun_ext (λ tab'. replay-append xs bs tab'))
    ∙ sym (>>=_assoc paid (replay xs) (replay bs))

pub get_block_by_index-some :
    (bc : Blockchain) (k : ℕ) {b : Block}
    → get_elem? bc.blocks k ≡ some b
    → get_block_by_index bc (pos k) ≡ ok b
unfolding get_block_by_index
get_block_by_index-some bc k e = rw (e, get_block_by_index)

-- The loop from position `k` on replays the blocks that stand there.
apply_blocks-replay :
    (n k : ℕ) (bc : Blockchain) (tab : BalanceTable)
    → k + n ≤ length bc.blocks
    → apply_blocks n (pos k) bc tab ≡ replay (take n (drop k bc.blocks)) tab
unfolding apply_blocks replay
apply_blocks-replay zero k bc tab h = refl
apply_blocks-replay (suc n) k bc tab h =
    let (b, at) = get_elem?-some bc.blocks k (omega arith) in
    let next : pos k +ℤ pos 1 ≡ pos (suc k) = eq_of_parts _ _ (omega int_laws) in
    let paid = update_balance tab b.txn.sender_id b.txn.recver_id b.txn.amount in
    rw (get_block_by_index-some bc k at, next, get_elem?-drop k bc.blocks at)
      (ap (λ (f : BalanceTable → Result BalanceTable). paid >>= f)
        (fun_ext (λ tab'. apply_blocks-replay n (suc k) bc tab' (omega arith))))

pub set_committed_index-keeps :
    (m : ℕ) (bc : Blockchain)
    → let bc' = set_committed_index (pos m) bc in
      (bc'.committed_index ≡ pos m) × (bc'.blocks ≡ bc.blocks)
unfolding set_committed_index
set_committed_index-keeps m bc = ground arith

-- A commit up to an index that as a number of 32 bits is not below the length of the log, such as
-- -1, changes nothing.
pub commit_beyond :
    (i : ℤ) (s : Server)
    → length s.bc_log.blocks ≤ u32_of_int i
    → update_bal_tab_and_committed_index i s ≡ ok s
unfolding update_bal_tab_and_committed_index get_blockchain_length
commit_beyond i s h = ground arith

-- `c` blocks are committed, and the balances are those blocks' transactions on `start`.
pub record IsReplayed (start : BalanceTable) (c : ℕ) (s : Server) : Type 0 where
  pub committed : s.bc_log.committed_index ≡ pred_ℤ c
  pub within : c ≤ length s.bc_log.blocks
  pub replayed : replay (take c s.bc_log.blocks) start ≡ ok s.bal_tab

rounds_lem : (c m : ℕ) (old : ℤ) → old ≡ pred_ℤ c → c ≤ suc m → pos_part (pos m -ℤ old) ≡ suc m - c
unfolding ◌-ℤ◌
rounds_lem zero m old e h = rw e (ground arith)
rounds_lem (suc c) m old e h = rw e (ground arith)

pub first_lem : (c : ℕ) (old : ℤ) → old ≡ pred_ℤ c → old +ℤ pos 1 ≡ pos c
unfolding ◌+ℤ◌
first_lem zero old e = rw e refl
first_lem (suc c) old e = rw e (ground arith)

-- With c blocks committed, a commit up to a position m of a log of fewer than 2^32 blocks, at or
-- behind the last committed one, is the replay of the blocks from c to m, each once and in order,
-- followed by the new committed index.
pub commit_lem :
    (c m : ℕ) (s : Server)
    → s.bc_log.committed_index ≡ pred_ℤ c
    → c ≤ suc m
    → m < length s.bc_log.blocks
    → length s.bc_log.blocks < u32_mod
    → update_bal_tab_and_committed_index (pos m) s ≡ (
        replay (take (suc m - c) (drop c s.bc_log.blocks)) s.bal_tab >>= λ tab.
        ok (record s { bal_tab = tab; bc_log = set_committed_index (pos m) s.bc_log }))
unfolding update_bal_tab_and_committed_index get_blockchain_length
commit_lem c m s e l h small = rw (
  u32_of_int-pos m (omega arith),
  lt→leb m (length s.bc_log.blocks) h,
  rounds_lem c m s.bc_log.committed_index e l,
  first_lem c s.bc_log.committed_index e,
  apply_blocks-replay (suc m - c) c s.bc_log s.bal_tab (omega arith),
)

-- If the balances are the replay of the first c blocks on some start balances, and c blocks are
-- committed, then a commit up to a position m of the log, at or behind the last committed one,
-- leaves the balances as the replay of the first m + 1 blocks and m + 1 blocks committed, if the
-- commit returns and the log has fewer than 2^32 blocks.
pub commit-IsReplayed :
    (start : BalanceTable) (c m : ℕ) (s : Server) {s' : Server}
    → IsReplayed start c s
    → c ≤ suc m
    → m < length s.bc_log.blocks
    → length s.bc_log.blocks < u32_mod
    → update_bal_tab_and_committed_index (pos m) s ≡ ok s'
    → IsReplayed start (suc m) s'
commit-IsReplayed start c m s r l h small e =
    let bs = s.bc_log.blocks in
    let (tab, paid, done) =
      >>=-eq-ok (replay (take (suc m - c) (drop c bs)) s.bal_tab) _
        (sym (commit_lem c m s r.committed l h small) ∙ e) in
    let kept = set_committed_index-keeps m s.bc_log in
    let split : suc m ≡ c + (suc m - c) = omega arith in
    rw (← (ok_inj done)) (record {
      committed = kept.0;
      within = rw kept.1 (omega arith);
      replayed = rw kept.1 (
          ap (λ (k : ℕ). replay (take k bs) start) split
          ∙ ap (λ (l' : List Block). replay l' start) (take-drop_add c (suc m - c) bs)
          ∙ replay-append (take c bs) (take (suc m - c) (drop c bs)) start
          ∙ rw r.replayed paid);
    })

-- Two servers that have replayed the same number of committed blocks, with the same blocks, on the
-- same start balances hold the same balances.
pub replayed_agree :
    (start : BalanceTable) (c : ℕ) (s t : Server)
    → IsReplayed start c s
    → IsReplayed start c t
    → take c s.bc_log.blocks ≡ take c t.bc_log.blocks
    → s.bal_tab ≡ t.bal_tab
replayed_agree start c s t rs rt e =
    ok_inj (sym rs.replayed ∙ ap (λ (bs : List Block). replay bs start) e ∙ rt.replayed)
