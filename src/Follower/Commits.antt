-- ===== src/Follower/Commits.antt =====
-- What append messages do to the balances of a follower.
use blockchain_raft.Base.{
  ℕ, suc, zero, ◌≤◌, ◌<◌, ◌≡◌, ◌≢◌, refl, sym, inl, inr, true, false, [], arith, ltb, Bool-cases,
  length, ok, OnOk, OnOk-intro, OnOk-if, OnOk-list, OnOk->>=, OnOk-eq, ℤ, pos, negsuc, pred_ℤ,
  ltb_ℤ, u32_mod, u32_of_int-pos, int_max_suc, IsInt,
}
use mathlib.Core.Path.{subst}
use blockchain_raft.Msg.{Extern}
use blockchain_raft.Balance.{BalanceTable}
use blockchain_raft.Chain.{Blockchain}
use blockchain_raft.Raft.{AppendEntryRpc, AppendEntryReply}
use blockchain_raft.Server.{Server, clear_voted_candidate, update_bal_tab_and_committed_index}
use blockchain_raft.Server.Commit.{IsReplayed, commit_beyond, commit-IsReplayed}
use blockchain_raft.Follower.{
  adopt_term, reply_of, note_leader, may_advance, advance, handle_heartbeat, handle_entries,
  handle_append,
}
use blockchain_raft.Follower.Extended.{extended-IsReplayed}
use blockchain_raft.Follower.Append.{
  IsSound, ends_with, ends_with_within, entries_result, handle_entries_lem, adopted,
}

-- At least `c` blocks are committed and replayed.
abbrev pub HasReplayed : BalanceTable → ℕ → Server → Type 0
HasReplayed start c s = (c' : ℕ) × (c ≤ c') × IsReplayed start c' s

-- If the message is not outdated and carries entries, they start at or behind position `c`.
abbrev pub IsBehind : ℕ → AppendEntryRpc → Server → Type 0
IsBehind c rpc s =
    s.curr_term ≤ rpc.term → rpc.entries ≢ [] → (p : ℕ) × (rpc.prev_log_index ≡ pred_ℤ p) × (c ≤ p)

IsReplayed-cong :
    (start : BalanceTable) (c : ℕ) (s t : Server)
    → s.bc_log ≡ t.bc_log
    → s.bal_tab ≡ t.bal_tab
    → IsReplayed start c s
    → IsReplayed start c t
IsReplayed-cong start c s t e k r = record {
  committed = rw (← e) r.committed;
  within = rw (← e) r.within;
  replayed = rw (← e, ← k) r.replayed;
}

later_index :
    (c : ℕ) (old i : ℤ) → old ≡ pred_ℤ c → ltb_ℤ old i ≡ true → (m : ℕ) × (i ≡ pos m) × (c ≤ m)
later_index zero old (pos m) e h = (m, refl, omega arith)
later_index (suc c) old (pos m) e h = (m, refl, ground (arith, h, e))
later_index zero old (negsuc m) e h = absurd (ground (arith, h, e))
later_index (suc c) old (negsuc m) e h = absurd (ground (arith, h, e))

commits_lem :
    (start : BalanceTable) (c m : ℕ) (s : Server)
    → IsReplayed start c s
    → c ≤ m
    → length s.bc_log.blocks < int_max_suc
    → m < u32_mod
    → OnOk (HasReplayed start c) (update_bal_tab_and_committed_index (pos m) s)
commits_lem start c m s r le short small = elim (Bool-cases (ltb m (length s.bc_log.blocks))) [
  | inl inside ↦
      OnOk-intro (HasReplayed start c) (update_bal_tab_and_committed_index (pos m) s) (λ s' e. (
        suc m,
        omega (arith, le),
        commit-IsReplayed start c m s r (omega (arith, le)) (ground (arith, inside))
            (omega (arith, short)) e,
      ))
  | inr beyond ↦
      rw
        (commit_beyond (pos m) s (
          subst (λ (n : ℕ). length s.bc_log.blocks ≤ n) (sym (u32_of_int-pos m small))
            (ground (arith, beyond))))
        (c, omega arith, r)
]

note_leader-bc_log : (rpc : AppendEntryRpc) (s : Server) → s.bc_log ≡ (note_leader rpc s).bc_log
unfolding note_leader
note_leader-bc_log rpc s = ground arith

note_leader-bal_tab : (rpc : AppendEntryRpc) (s : Server) → s.bal_tab ≡ (note_leader rpc s).bal_tab
unfolding note_leader
note_leader-bal_tab rpc s = ground arith

adopt_term-bc_log : (term : ℕ) (s : Server) → s.bc_log ≡ (adopt_term term s).bc_log
unfolding adopt_term clear_voted_candidate
adopt_term-bc_log term s = ground arith

adopt_term-bal_tab : (term : ℕ) (s : Server) → s.bal_tab ≡ (adopt_term term s).bal_tab
unfolding adopt_term clear_voted_candidate
adopt_term-bal_tab term s = ground arith

module _ (start : BalanceTable) (c : ℕ) (rpc : AppendEntryRpc) (int : IsInt rpc.commit_index) where
  advance-HasReplayed :
      (s : Server)
      → IsReplayed start c s
      → length s.bc_log.blocks < int_max_suc
      → OnOk (HasReplayed start c) (advance rpc s)
  unfolding advance may_advance
  advance-HasReplayed s r short = elim (Bool-cases (may_advance rpc s)) [
    | inl more ↦
        let (m, at, le) =
          later_index c s.bc_log.committed_index rpc.commit_index r.committed
            (ground (arith, more)) in
        let bound : m < int_max_suc = subst IsInt at int in
        let small : m < u32_mod = omega (arith, bound) in
        rw (more, advance)
          (subst (λ (i : ℤ). OnOk (HasReplayed start c) (update_bal_tab_and_committed_index i s))
            (sym at) (commits_lem start c m s r le short small))
    | inr less ↦ rw (less, advance) (c, omega arith, r)
  ]

  heartbeat-HasReplayed :
      (s : Server)
      → IsReplayed start c s
      → length s.bc_log.blocks < int_max_suc
      → OnOk (λ r. HasReplayed start c r.0) (handle_heartbeat rpc s)
  unfolding handle_heartbeat
  heartbeat-HasReplayed s r short =
      let s1 = note_leader rpc s in
      OnOk->>= (HasReplayed start c) (λ r. HasReplayed start c r.0) (advance rpc s1) _
        (advance-HasReplayed s1
          (IsReplayed-cong start c s s1 (note_leader-bc_log rpc s) (note_leader-bal_tab rpc s) r)
          (subst (λ (bc : Blockchain). length bc.blocks < int_max_suc) (note_leader-bc_log rpc s)
            short))
        (λ s2 k. k)

  -- Entries behind the committed blocks.
  entries-HasReplayed :
      (x : Extern) (p : ℕ) (s : Server)
      → IsReplayed start c s
      → IsSound x s.bc_log
      → rpc.prev_log_index ≡ pred_ℤ p
      → c ≤ p
      → OnOk (λ r. HasReplayed start c r.0) (handle_entries x rpc s)
  unfolding entries_result
  entries-HasReplayed x p s r h prev le =
      subst (OnOk (λ (r : Server × AppendEntryReply). HasReplayed start c r.0))
        (sym (handle_entries_lem x rpc p s prev h))
        (elim (Bool-cases (ends_with p rpc.prev_log_term s.bc_log.blocks)) [
          | inl fits ↦
              rw (fits, entries_result)
                (
                  c,
                  omega arith,
                  extended-IsReplayed x start c p rpc.entries s r le
                      (ends_with_within p rpc.prev_log_term s.bc_log.blocks fits),
                )
          | inr differs ↦ rw (differs, entries_result) (c, omega arith, r)
        ])

  -- A message that is not outdated has its entries, if any, at or behind position `c`.
  append-HasReplayed :
      (x : Extern) (s : Server)
      → IsReplayed start c s
      → IsSound x s.bc_log
      → IsBehind c rpc s
      → OnOk (λ r. HasReplayed start c r.0) (handle_append x rpc s)
  unfolding handle_append
  append-HasReplayed x s r h behind =
      let s1 = adopt_term rpc.term s in
      let r1 =
        IsReplayed-cong start c s s1 (adopt_term-bc_log rpc.term s) (adopt_term-bal_tab rpc.term s)
          r in
      let h1 = adopted x rpc.term s h in
      OnOk-if (λ (r : Server × AppendEntryReply). HasReplayed start c r.0)
        (ltb rpc.term s.curr_term) (ok (s, reply_of s false true)) _ (λ _. (c, omega arith, r))
        (λ now.
          OnOk-list (λ (r : Server × AppendEntryReply). HasReplayed start c r.0) rpc.entries _ _
            (λ _. heartbeat-HasReplayed s1 r1 h1.short)
            (λ some_entry.
              let (p, prev, le) = behind (ground (arith, now)) some_entry in
              entries-HasReplayed x p s1 r1 h1 prev le))

-- If the balances of a follower with a sound log are the replay of its c committed blocks, they
-- are the replay of at least as many committed blocks after any append message whose handling
-- returns and whose committed index fits an int, be it outdated, a heartbeat, or one with entries
-- that start at or behind position c.
pub handle_append-HasReplayed :
    (start : BalanceTable) (c : ℕ) (rpc : AppendEntryRpc) (x : Extern) (s : Server) {s' : Server}
    {reply : AppendEntryReply}
    → IsInt rpc.commit_index
    → IsReplayed start c s
    → IsSound x s.bc_log
    → IsBehind c rpc s
    → handle_append x rpc s ≡ ok (s', reply)
    → HasReplayed start c s'
handle_append-HasReplayed start c rpc x s int r h behind e =
    OnOk-eq (λ (r : Server × AppendEntryReply). HasReplayed start c r.0) (handle_append x rpc s)
      (append-HasReplayed start c rpc int x s r h behind) e
