-- ===== src/Leader/Commits.antt =====
-- What a leader's request does to its balances.
use blockchain_raft.Base.{
  ℕ, suc, ◌<◌, ◌≡◌, sym, ap, ◌∙◌, true, arith, length, ok, OnOk, OnOk-intro, OnOk->>=, OnOk-eq, ℤ,
  pos, ◌-ℤ◌, int_of_ℕ, int_of_ℕ-small, int_max_suc,
}
use mathlib.Core.Path.{subst}
use blockchain_raft.Balance.{BalanceTable, get_balance}
use blockchain_raft.Chain.{get_blockchain_length}
use blockchain_raft.Raft.{Request}
use blockchain_raft.Server.{Server, update_bal_tab_and_committed_index}
use blockchain_raft.Server.Commit.{IsReplayed, commit-IsReplayed}
use blockchain_raft.Leader.Wait.{commit_all, finish_request}

last_position : (k : ℕ) → suc k < int_max_suc → int_of_ℕ (suc k) -ℤ pos 1 ≡ pos k
unfolding ◌-ℤ◌
last_position k h = rw (int_of_ℕ-small (suc k) h) (ground arith)

commit_all-IsReplayed :
    (start : BalanceTable) (c k : ℕ) (s : Server)
    → IsReplayed start c s
    → length s.bc_log.blocks ≡ suc k
    → suc k < int_max_suc
    → OnOk (IsReplayed start (suc k)) (commit_all s)
unfolding commit_all get_blockchain_length
commit_all-IsReplayed start c k s r e short =
    let last : int_of_ℕ (length s.bc_log.blocks) -ℤ pos 1 ≡ pos k =
      ap (λ (n : ℕ). int_of_ℕ n -ℤ pos 1) e ∙ last_position k short in
    subst (λ (i : ℤ). OnOk (IsReplayed start (suc k)) (update_bal_tab_and_committed_index i s))
      (sym last)
      (OnOk-intro (IsReplayed start (suc k)) (update_bal_tab_and_committed_index (pos k) s)
        (λ s' done.
          commit-IsReplayed start c k s r (omega (arith, r.within, e)) (omega (arith, e))
            (omega (arith, e, short)) done))

finish_request-OnOk :
    (start : BalanceTable) (c k : ℕ) (r : Request) (s : Server)
    → IsReplayed start c s
    → length s.bc_log.blocks ≡ suc k
    → suc k < int_max_suc
    → OnOk (IsReplayed start (suc k)) (finish_request true r s)
unfolding finish_request
finish_request-OnOk start c k r s h e short =
    OnOk->>= (IsReplayed start (suc k)) (IsReplayed start (suc k)) (commit_all s) _
      (commit_all-IsReplayed start c k s h e short)
      (λ s1 h1.
        OnOk->>= (λ balance. Unit {0}) (IsReplayed start (suc k))
          (get_balance s1.bal_tab r.client_id) _
          (OnOk-intro (λ balance. Unit {0}) (get_balance s1.bal_tab r.client_id) (λ b _. tt))
          (λ balance _. record {
            committed = h1.committed;
            within = h1.within;
            replayed = h1.replayed;
          }))

-- If a leader's balances are the replay of the committed blocks, the log has a block and fewer
-- than 2^31, and the finish of an accepted request returns, then the whole log is committed and
-- the balances are its replay.
pub finish_request-IsReplayed :
    (start : BalanceTable) (c k : ℕ) (r : Request) (s : Server) {s' : Server}
    → IsReplayed start c s
    → length s.bc_log.blocks ≡ suc k
    → suc k < int_max_suc
    → finish_request true r s ≡ ok s'
    → IsReplayed start (suc k) s'
finish_request-IsReplayed start c k r s h e short done =
    OnOk-eq (IsReplayed start (suc k)) (finish_request true r s)
      (finish_request-OnOk start c k r s h e short) done
