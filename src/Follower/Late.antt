-- ===== src/Follower/Late.antt =====
-- A message with entries that comes late, when the follower's log has more blocks than it carries.
use blockchain_raft.Base.{
  ℕ, zero, suc, ◌+◌, ◌≤◌, ◌<◌, ◌≡◌, ◌≢◌, refl, sym, ap, ◌∙◌, true, false, List, [], ◌∷◌, ◌++◌,
  arith, length, length-take, length-drop, take, drop, ok, pred_ℤ,
}
use blockchain_raft.Msg.{Extern}
use blockchain_raft.Block.{Block}
use blockchain_raft.Raft.{AppendEntryRpc, AppendEntryReply}
use blockchain_raft.Server.{Server}
use blockchain_raft.Follower.{reply_of, handle_append}
use blockchain_raft.Follower.Append.{IsSound, ends_with, extended, in_term, entries_taken}

take-nil : (n : ℕ) → ◌≡◌ {A = List Block} (take n []) []
take-nil zero = refl
take-nil (suc n) = refl

take-take-drop : (p n : ℕ) (bs : List Block) → take p bs ++ take n (drop p bs) ≡ take (p + n) bs
take-take-drop zero n bs = let e : 0 + n ≡ n = omega arith in rw e refl
take-take-drop (suc p) n [] = take-nil n ∙ sym (take-nil (suc p + n))
take-take-drop (suc p) n (b ∷ bs) =
    let e : suc p + n ≡ suc (p + n) = omega arith in
    rw e (ap (λ (l : List Block). b ∷ l) (take-take-drop p n bs))

-- If a message of no older term carries some blocks that the follower's sound log holds already,
-- at their positions, with the term of the block before them, but the log has more blocks behind
-- them, then the follower replies success and drops those, although nothing conflicts, and its
-- committed index stays even if they were committed.
pub late_append :
    (x : Extern) (rpc : AppendEntryRpc) (p n : ℕ) (s : Server)
    → IsSound x s.bc_log
    → s.curr_term ≤ rpc.term
    → rpc.prev_log_index ≡ pred_ℤ p
    → ends_with p rpc.prev_log_term s.bc_log.blocks ≡ true
    → rpc.entries ≡ take n (drop p s.bc_log.blocks)
    → 0 < n
    → p + n < length s.bc_log.blocks
    → (s' : Server) × (reply : AppendEntryReply) × (handle_append x rpc s ≡ ok (s', reply))
      × (reply.success ≡ true)
      × (s'.bc_log.blocks ≡ take (p + n) s.bc_log.blocks)
      × (length s'.bc_log.blocks < length s.bc_log.blocks)
      × (s'.bc_log.committed_index ≡ s.bc_log.committed_index)
unfolding extended
late_append x rpc p n s h term prev fits es some_block more =
    let bs = s.bc_log.blocks in
    let some_entry : rpc.entries ≢ [] = λ e. absurd (
      omega (
        arith,
        length-take {0} n (drop p bs),
        length-drop p bs,
        ap length (sym es ∙ e),
        some_block,
        more,
      )) in
    let s' = record (in_term rpc.term s) { bc_log = extended x p rpc.entries s.bc_log } in
    let left : s'.bc_log.blocks ≡ take (p + n) bs =
      ap (λ (l : List Block). take p bs ++ l) es ∙ take-take-drop p n bs in
    (
      s',
      reply_of s' true false,
      entries_taken x rpc p s h term prev some_entry fits,
      refl,
      left,
      omega (arith, ap length left, length-take {0} (p + n) bs, more),
      refl,
    )
