-- ===== src/Leader/Repairs.antt =====
-- A retry of the leader, from its sending through the network to the follower's log. The network
-- clears the flags of balance transactions, which the hashes do not cover.
use blockchain_raft.Base.{
  ℕ, zero, suc, ◌≤◌, ◌<◌, ◌≡◌, refl, sym, ap, ◌∙◌, true, false, List, [], ◌∷◌, ◌++◌, map, get_or,
  arith, pos, ok, length, leb, take, drop, length-take, length-drop, length-append,
  take-append-drop, take-append_within,
}
use mathlib.Core.Path.{ap₂, subst}
use blockchain_raft.Block.{Block, no_hash, find_hash, serialize_transaction}
use blockchain_raft.Msg.{Extern}
use blockchain_raft.Parameter.{server_count}
use blockchain_raft.Raft.{AppendEntryRpc, AppendEntryReply, app_entr_rpc}
use blockchain_raft.Network.{replica_send_message}
use blockchain_raft.Network.Wire.{arrived_block, deliveries, send_to-delivers}
use blockchain_raft.Server.{Server}
use blockchain_raft.Chain.Linked.{Linked}
use blockchain_raft.Chain.Header.{IsStorable}
use blockchain_raft.Follower.{handle_append}
use blockchain_raft.Follower.Append.{IsSound, ends_with, ends_with-take, append_catches_up}
use blockchain_raft.Leader.Main.{send, slot, Waiting}
use blockchain_raft.Leader.Wait.{retry}
use blockchain_raft.Leader.Entries.{
  term_before, ends_with-term_before, entries_msg, stepped, retry_lem,
}

-- A log but for the flags of balance transactions.
abbrev pub flagless : List Block → List Block
flagless bs = map arrived_block bs

length-flagless : (bs : List Block) → length (flagless bs) ≡ length bs
length-flagless [] = refl
length-flagless (b ∷ bs) = ap suc (length-flagless bs)

flagless-append : (xs ys : List Block) → flagless (xs ++ ys) ≡ flagless xs ++ flagless ys
flagless-append [] ys = refl
flagless-append (b ∷ xs) ys = ap (λ (l : List Block). arrived_block b ∷ l) (flagless-append xs ys)

flagless-flagless : (bs : List Block) → flagless (flagless bs) ≡ flagless bs
flagless-flagless [] = refl
flagless-flagless (b ∷ bs) = ap (λ (l : List Block). arrived_block b ∷ l) (flagless-flagless bs)

ends_with-flagless :
    (p term : ℕ) (bs : List Block) → ends_with p term (flagless bs) ≡ ends_with p term bs
ends_with-flagless zero term bs = refl
ends_with-flagless (suc p) term [] = refl
ends_with-flagless (suc zero) term (b ∷ bs) = refl
ends_with-flagless (suc (suc p)) term (b ∷ bs) = ends_with-flagless (suc p) term bs

find_hash-arrived_block : (x : Extern) (b : Block) → find_hash x (arrived_block b) ≡ find_hash x b
unfolding find_hash serialize_transaction
find_hash-arrived_block x b = refl

module _ (x : Extern) where
  flagless-Linked :
      (i : ℕ) (prev : List ℕ) (bs : List Block) → Linked x i prev bs → Linked x i prev (flagless bs)
  unfolding find_hash serialize_transaction
  flagless-Linked i prev [] h = tt
  flagless-Linked i prev (b ∷ bs) h = (h.0, h.1, flagless-Linked (suc i) (find_hash x b) bs h.2)

  Linked-flagless :
      (i : ℕ) (prev : List ℕ) (bs : List Block) → Linked x i prev (flagless bs) → Linked x i prev bs
  unfolding find_hash serialize_transaction
  Linked-flagless i prev [] h = tt
  Linked-flagless i prev (b ∷ bs) h = (h.0, h.1, Linked-flagless (suc i) (find_hash x b) bs h.2)

drop-take_append : (p : ℕ) (bs ys : List Block) → p ≤ length bs → drop p (take p bs ++ ys) ≡ ys
drop-take_append zero bs ys h = refl
drop-take_append (suc p) [] ys h = elim h [ ]
drop-take_append (suc p) (b ∷ bs) ys h = drop-take_append p bs ys (omega arith)

-- The message as it arrives.
abbrev pub arrived_msg : ℕ → Server → AppendEntryRpc
arrived_msg p s = record (entries_msg p s) { entries = flagless (drop p s.bc_log.blocks) }

send_delivers :
    (p k : ℕ) (s : Server)
    → s.id < server_count
    → k < server_count
    → deliveries (send (app_entr_rpc (entries_msg p s)) (pos k) s).network
      ≡ deliveries s.network ++ (k, app_entr_rpc (arrived_msg p s)) ∷ []
unfolding replica_send_message
send_delivers p k s own inside =
    let fits : leb server_count k ≡ false = ground (arith, inside) in
    rw fits (send_to-delivers (app_entr_rpc (entries_msg p s)) k s.network (omega (arith, own)))

-- The log that a follower gets.
abbrev pub repaired : ℕ → List Block → List Block → List Block
repaired p bs log = take p bs ++ flagless (drop p log)

module _ (p : ℕ) (bs log : List Block) (agree : flagless (take p bs) ≡ flagless (take p log))
    (inside : p < length log) where
  reaches : p ≤ length bs
  reaches = omega (
    arith,
    ap length agree,
    length-flagless (take p bs),
    length-flagless (take p log),
    length-take {0} p bs,
    length-take {0} p log,
    inside,
  )

  take-repaired : take p (repaired p bs log) ≡ take p bs
  take-repaired = take-append_within p p bs (flagless (drop p log)) (omega arith) reaches

  repaired-fits : ends_with p (term_before p log) (repaired p bs log) ≡ true
  repaired-fits =
      let term = term_before p log in
      sym (ends_with-take p term (repaired p bs log))
      ∙ ap (ends_with p term) take-repaired
      ∙ sym (ends_with-flagless p term (take p bs))
      ∙ ap (ends_with p term) agree
      ∙ ends_with-flagless p term (take p log)
      ∙ ends_with-take p term log
      ∙ ends_with-term_before p log (omega (arith, inside))

  repaired-longer : p < length (repaired p bs log)
  repaired-longer = omega (
    arith,
    length-append {0} (take p bs) (flagless (drop p log)),
    length-take {0} p bs,
    length-flagless (drop p log),
    length-drop p log,
    inside,
    reaches,
  )

  repaired-flagless : flagless (repaired p bs log) ≡ flagless log
  repaired-flagless =
      flagless-append (take p bs) (flagless (drop p log))
      ∙ ap₂ ◌++◌ agree (flagless-flagless (drop p log))
      ∙ sym (flagless-append (take p log) (drop p log))
      ∙ ap flagless (take-append-drop p log)

-- A log that is another sound one but for flags.
same_log-IsSound :
    (x : Extern) (s t : Server)
    → IsSound x s.bc_log
    → IsStorable t.bc_log.committed_index
    → flagless t.bc_log.blocks ≡ flagless s.bc_log.blocks
    → IsSound x t.bc_log
same_log-IsSound x s t sound storable same = record {
  linked = Linked-flagless x 0 no_hash t.bc_log.blocks (
      subst (Linked x 0 no_hash) (sym same)
        (flagless-Linked x 0 no_hash s.bc_log.blocks sound.linked));
  storable = storable;
  short = omega (
    arith,
    sound.short,
    ap length same,
    length-flagless t.bc_log.blocks,
    length-flagless s.bc_log.blocks,
  );
}

-- A retry of a replica for follower k of the cluster, whose next index is p + 1, with p inside the
-- leader's sound log, sends one message, which is delivered to k; every follower with a sound log,
-- no later term and the same first p blocks but for flags of balance transactions handles what is
-- delivered with success, and then has the leader's log but for such flags, whatever stood behind
-- its first p blocks, and that log is sound again.
pub retry_repairs :
    (x : Extern) (k p : ℕ) (w : Waiting) (t : Server)
    → get_or w.next_index (slot (pos k)) (pos 0) ≡ pos (suc p)
    → p < length w.server.bc_log.blocks
    → w.server.id < server_count
    → k < server_count
    → IsSound x w.server.bc_log
    → IsSound x t.bc_log
    → t.curr_term ≤ w.server.curr_term
    → flagless (take p t.bc_log.blocks) ≡ flagless (take p w.server.bc_log.blocks)
    → (w' : Waiting) × (rpc : AppendEntryRpc) × (retry (pos k) w ≡ ok w')
      × (deliveries w'.server.network ≡ deliveries w.server.network ++ (k, app_entr_rpc rpc) ∷ [])
      × (t' : Server) × (reply : AppendEntryReply) × (handle_append x rpc t ≡ ok (t', reply))
      × (reply.success ≡ true)
      × (flagless t'.bc_log.blocks ≡ flagless w.server.bc_log.blocks)
      × IsSound x t'.bc_log
retry_repairs x k p w t next inside own to sound sound' term agree =
    let bs = t.bc_log.blocks in
    let log = w.server.bc_log.blocks in
    let (t', reply, handled, success, _, taken, same_index) =
      append_catches_up x (arrived_msg p w.server) p (repaired p bs log) t sound' term refl
        (repaired-fits p bs log agree inside)
        (sym (drop-take_append p bs (flagless (drop p log)) (reaches p bs log agree inside)))
        (repaired-longer p bs log agree inside) (sym (take-repaired p bs log agree inside)) in
    let same = ap flagless taken ∙ repaired-flagless p bs log agree inside in
    (
      stepped (pos k) p w,
      arrived_msg p w.server,
      retry_lem x (pos k) p w next (omega (arith, inside)) sound,
      send_delivers p k w.server own to,
      t',
      reply,
      handled,
      success,
      same,
      same_log-IsSound x w.server t' sound (subst IsStorable (sym same_index) sound'.storable) same,
    )
