-- ===== src/Leader/Entries.antt =====
-- The entries that a leader sends, and what they do to the follower that gets them.
use blockchain_raft.Base.{
  ℕ, zero, suc, ◌+◌, ◌-◌, ◌≤◌, ◌≡◌, refl, ap, ◌∙◌, true, false, none, some, List, ◌-ℤ◌, ltb_ℤ,
  eqb_ℤ, negsuc, get_or, set, get_elem?, int_of_ℕ, int_of_ℕ-small, arith, pos, ℤ, ok, length, take,
  drop, get_elem?-some, get_elem?-drop, take-length, length-drop, pred_ℤ,
}
use mathlib.Core.Path.{ap₂}
use blockchain_raft.Block.{Block, no_hash}
use blockchain_raft.Chain.{Blockchain, get_blockchain_length}
use blockchain_raft.Msg.{Extern}
use blockchain_raft.Raft.{AppendEntryRpc, app_entr_rpc}
use blockchain_raft.Server.{Server}
use blockchain_raft.Chain.Linked.{Linked-index}
use blockchain_raft.Follower.Append.{IsSound, ends_with}
use blockchain_raft.Server.Commit.{get_block_by_index-some}
use blockchain_raft.Leader.Main.{collect, entries_from, append_msg, slot, send, Waiting}
use blockchain_raft.Leader.Wait.{retry}

collect-take :
    (n j : ℕ) (bc : Blockchain)
    → j + n ≤ length bc.blocks
    → collect n j bc ≡ ok (take n (drop j bc.blocks))
unfolding collect
collect-take zero j bc h = refl
collect-take (suc n) j bc h =
    let (b, at) = get_elem?-some bc.blocks j (omega arith) in
    let step : j + 1 ≡ suc j = omega arith in
    rw
      (
        get_block_by_index-some bc j at,
        step,
        collect-take n (suc j) bc (omega arith),
        get_elem?-drop j bc.blocks at,
      )
      refl

-- The loop that collects entries from a position within the log returns the blocks of the log from
-- that position on.
pub entries_from-drop :
    (p : ℕ) (bc : Blockchain)
    → p ≤ length bc.blocks
    → entries_from (pos p) bc ≡ ok (drop p bc.blocks)
unfolding entries_from get_blockchain_length
entries_from-drop p bc h =
    collect-take (length bc.blocks - p) p bc (omega arith)
    ∙ ap ok (
        take-length (length bc.blocks - p) (drop p bc.blocks)
          (omega (arith, length-drop p bc.blocks)))

minus_one : (n : ℕ) → pos n -ℤ pos 1 ≡ pred_ℤ n
unfolding ◌-ℤ◌
minus_one zero = ground arith
minus_one (suc n) = ground arith

not_below : (n : ℕ) → ltb_ℤ (pos n) (negsuc 0) ≡ false
not_below n = ground arith

not_first : (n : ℕ) → eqb_ℤ (pos n) (negsuc 0) ≡ false
not_first n = ground arith

-- The term of the block before a position; 0 where there is none.
abbrev pub term_before : ℕ → List Block → ℕ
term_before zero bs = 0
term_before (suc p) bs = elim (get_elem? bs p) [ none ↦ 0 | some b ↦ b.term ]

term_before-some :
    (p : ℕ) (bs : List Block) {b : Block}
    → get_elem? bs p ≡ some b
    → b.term ≡ term_before (suc p) bs
term_before-some p bs e = rw (e, term_before) refl

pub ends_with-term_before :
    (p : ℕ) (bs : List Block) → p ≤ length bs → ends_with p (term_before p bs) bs ≡ true
ends_with-term_before zero bs h = refl
ends_with-term_before (suc p) bs h =
    let (b, at) = get_elem?-some bs p h in rw (at, ends_with) (ground arith)

-- The message with all blocks from a position on.
abbrev pub entries_msg : ℕ → Server → AppendEntryRpc
entries_msg p s = append_msg (term_before p s.bc_log.blocks) (pred_ℤ p) (drop p s.bc_log.blocks) s

-- The leader, one step back for that follower.
abbrev pub stepped : ℤ → ℕ → Waiting → Waiting
stepped sender p w = record w {
  next_index = set w.next_index (slot sender) (pos p);
  prev_log_index = pred_ℤ p;
  server = send (app_entr_rpc (entries_msg p w.server)) sender w.server;
}

module _ (x : Extern) (sender : ℤ) where
  pub retry_lem :
      (p : ℕ) (w : Waiting)
      → get_or w.next_index (slot sender) (pos 0) ≡ pos (suc p)
      → p ≤ length w.server.bc_log.blocks
      → IsSound x w.server.bc_log
      → retry sender w ≡ ok (stepped sender p w)
  unfolding retry
  retry_lem zero w next within h =
      rw (next, minus_one 1, minus_one 0, entries_from-drop 0 w.server.bc_log within) refl
  retry_lem (suc p) w next within h =
      let (b, at) = get_elem?-some w.server.bc_log.blocks p (omega arith) in
      let position : 0 + p ≡ p = omega arith in
      rw
        (
          next,
          minus_one (suc (suc p)),
          minus_one (suc p),
          not_below p,
          not_first p,
          get_block_by_index-some w.server.bc_log p at,
          entries_from-drop (suc p) w.server.bc_log within,
        )
        (ap₂
          (λ (term : ℕ) (index : ℤ). ok (record w {
            next_index = set w.next_index (slot sender) (pos (suc p));
            prev_log_index = pos p;
            server =
                send
                  (app_entr_rpc
                    (append_msg term index (drop (suc p) w.server.bc_log.blocks) w.server))
                  sender w.server;
          }))
          (term_before-some p w.server.bc_log.blocks at)
          (Linked-index x 0 p no_hash w.server.bc_log.blocks h.linked at
            ∙ ap int_of_ℕ position
            ∙ int_of_ℕ-small p (omega (arith, h.short, within))))
