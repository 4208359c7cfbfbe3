-- ===== src/Follower/Extended.antt =====
-- A follower's log with entries put behind its first blocks: what of it stays.
use blockchain_raft.Base.{
  ℕ, ◌+◌, ◌≤◌, ◌<◌, ap, ◌∙◌, List, arith, length, length-take, length-append, take,
  take-append_within, int_max_suc,
}
use blockchain_raft.Msg.{Extern}
use blockchain_raft.Balance.{BalanceTable}
use blockchain_raft.Block.{Block, no_hash}
use blockchain_raft.Chain.{Blockchain}
use blockchain_raft.Chain.Linked.{Linked, Linked-append, Linked-take, tip}
use blockchain_raft.Server.{Server}
use blockchain_raft.Server.Commit.{IsReplayed, replay}
use blockchain_raft.Follower.Append.{IsSound, extended}

-- A sound log stays sound if its blocks from position p on are replaced by entries that continue
-- the hashes and positions of the first p, as long as its length stays below 2^31.
pub extended-IsSound :
    (x : Extern) (p : ℕ) (entries : List Block) (bc : Blockchain)
    → IsSound x bc
    → p ≤ length bc.blocks
    → length bc.blocks + length entries < int_max_suc
    → Linked x p (tip x no_hash (take p bc.blocks)) entries
    → IsSound x (extended x p entries bc)
unfolding extended
extended-IsSound x p entries bc h inside short next = record {
  linked =
      Linked-append x 0 p no_hash (take p bc.blocks) entries
        (omega (arith, length-take {0} p bc.blocks)) (Linked-take x 0 p no_hash bc.blocks h.linked)
        next;
  storable = h.storable;
  short = omega (arith, length-append {0} (take p bc.blocks) entries, length-take {0} p bc.blocks);
}

-- Entries put behind the first p blocks, with c of them committed and c at most p, leave the
-- balances the replay of the committed blocks.
pub extended-IsReplayed :
    (x : Extern) (start : BalanceTable) (c p : ℕ) (entries : List Block) (s : Server)
    → IsReplayed start c s
    → c ≤ p
    → p ≤ length s.bc_log.blocks
    → IsReplayed start c (record s { bc_log = extended x p entries s.bc_log })
unfolding extended
extended-IsReplayed x start c p entries s r le inside = record {
  committed = r.committed;
  within = omega (
    arith,
    length-append {0} (take p s.bc_log.blocks) entries,
    length-take {0} p s.bc_log.blocks,
  );
  replayed =
      ap (λ (bs : List Block). replay bs start)
        (take-append_within c p s.bc_log.blocks entries le inside)
      ∙ r.replayed;
}
