-- ===== src/Leader/Replies.antt =====
-- How the wait counts the replies of the followers.
use blockchain_raft.Base.{
  ℕ, ◌+◌, ◌/◌, ◌≤◌, ◌≡◌, refl, ap, not, List, [], ◌∷◌, ◌++◌, arith, ltb, ◌==◌, ◌&&◌, if◌then◌else◌,
  inl, inr, Bool-cases, pos, negsuc, ℤ, Result, ok, exited, get_or, set, ltb_ℤ, eqb_ℤ, ◌-ℤ◌, OnOk,
  OnOk->>=, OnOk-if, OnOk-map, OnOk-eq, ◌>>=◌,
}
use blockchain_raft.Raft.{
  AppendEntryReply, ReplicaMsg, req_vote_rpl, req_vote_rpc, app_entr_rpc, app_entr_rpl, no_msg,
  other,
}
use blockchain_raft.Parameter.{server_count}
use blockchain_raft.Block.{Block}
use blockchain_raft.Chain.{get_block_by_index}
use blockchain_raft.Network.Queues.{replica_send_message-queue}
use blockchain_raft.Network.{replica_pop_message}
use blockchain_raft.Leader.Main.{Waiting, entries_from, slot, append_msg, send}
use blockchain_raft.Leader.Wait.{
  Waited, waits, times_out, yields, retry, count_reply, wait_message, wait_round, Tick, arrive,
  Outcome, accepted, timed_out, yielded, still, wait_loop,
}

-- The replies among some messages that accept entries in a term.
unfoldable pub accepts : ℕ → List ReplicaMsg → ℕ
accepts term [] = 0
accepts term (app_entr_rpl r ∷ ms) =
    let rest = accepts term ms in
    if (r.term == term) && (r.success && not r.reply_hearbeat) then rest + 1 else rest
accepts term (_ ∷ ms) = accepts term ms

accepts-append :
    (term : ℕ) (xs ms : List ReplicaMsg)
    → accepts term (xs ++ ms) ≡ accepts term xs + accepts term ms
unfolding accepts
accepts-append term [] ms = ground arith
accepts-append term (app_entr_rpl r ∷ xs) ms = ground (arith, accepts-append term xs ms)
accepts-append term (req_vote_rpc r ∷ xs) ms = accepts-append term xs ms
accepts-append term (req_vote_rpl r ∷ xs) ms = accepts-append term xs ms
accepts-append term (app_entr_rpc r ∷ xs) ms = accepts-append term xs ms
accepts-append term (no_msg ∷ xs) ms = accepts-append term xs ms
accepts-append term (other n ∷ xs) ms = accepts-append term xs ms

-- The term stays, and what is counted and still waits in the queue is within the budget.
record Within (term budget : ℕ) (w : Waiting) : Type 0 where
  same_term : w.server.curr_term ≡ term
  counted : w.num_accept + accepts term w.server.network.replica_msg_queue ≤ budget

unfoldable RoundWithin : ℕ → ℕ → Waited → Type 0
RoundWithin term budget (waits w) = Within term budget w
RoundWithin term budget (times_out w) = Unit
RoundWithin term budget (yields s) = Unit

-- What a retry keeps.
record Kept (w w' : Waiting) : Type 0 where
  same_term : w'.server.curr_term ≡ w.server.curr_term
  same_count : w'.num_accept ≡ w.num_accept
  same_queue : w'.server.network.replica_msg_queue ≡ w.server.network.replica_msg_queue

before_cases :
    {A : Type 0} (w : Waiting) (m : Result A) (f : A → Result Waiting)
    → ((a : A) → OnOk (Kept w) (f a))
    → OnOk (Kept w) (m >>= f)
before_cases w (ok a) f h = h a
before_cases w (exited c) f h = tt

stepped_back :
    (w : Waiting) (next : List ℤ) (prev : ℤ)
    → Kept w (record w { next_index = next; prev_log_index = prev })
stepped_back w next prev = record { same_term = refl; same_count = refl; same_queue = refl }

resent :
    (w : Waiting) (next : List ℤ) (prev : ℤ) (msg : ReplicaMsg) (id : ℤ)
    → Kept w (record w { next_index = next; prev_log_index = prev; server = send msg id w.server })
resent w next prev msg id = record {
  same_term = refl;
  same_count = refl;
  same_queue = replica_send_message-queue w.server.id msg id w.server.network;
}

retry-Kept : (sender : ℤ) (w : Waiting) → OnOk (Kept w) (retry sender w)
unfolding retry
retry-Kept sender w =
    let i = slot sender in
    let next_index = get_or w.next_index i (pos 0) -ℤ pos 1 in
    let prev = next_index -ℤ pos 1 in
    let next = set w.next_index i next_index in
    let bc = w.server.bc_log in
    let before : Result (ℕ × ℤ) =
      if eqb_ℤ prev (negsuc 0)
      then ok (0, negsuc 0)
      else get_block_by_index bc prev >>= λ b. ok (b.term, b.index) in
    let again : ℕ × ℤ → List Block → Waiting = λ p es. record w {
      next_index = next;
      prev_log_index = prev;
      server = send (app_entr_rpc (append_msg p.0 p.1 es w.server)) sender w.server;
    } in
    OnOk-if (Kept w) (ltb_ℤ prev (negsuc 0)) _ _ (λ _. stepped_back w next prev)
      (λ _.
        before_cases w before (λ p. entries_from next_index bc >>= λ es. ok (again p es))
          (λ p.
            before_cases w (entries_from next_index bc) (λ es. ok (again p es))
              (λ es. resent w next prev (app_entr_rpc (append_msg p.0 p.1 es w.server)) sender)))

abbrev with_queue : List ReplicaMsg → Waiting → Waiting
with_queue q w = record w {
  server = record w.server { network = record w.server.network { replica_msg_queue = q } };
}

count_reply-Within :
    (reply : AppendEntryReply) (now : ℕ) (w : Waiting)
    → reply.term ≡ w.server.curr_term
    → OnOk
        (Within w.server.curr_term (
          w.num_accept
          + accepts w.server.curr_term (app_entr_rpl reply ∷ w.server.network.replica_msg_queue)))
        (count_reply reply now w)
unfolding count_reply accepts
count_reply-Within reply now w same =
    elim (Bool-cases (reply.success && not reply.reply_hearbeat)) [
      | inl taken ↦ ground (arith, taken)
      | inr refused ↦ ground (arith, refused, retry-Kept reply.sender_id (record w { last = now }))
    ]

wait_message-Within :
    (msg : ReplicaMsg) (now : ℕ) (w : Waiting)
    → OnOk
        (RoundWithin w.server.curr_term
          (w.num_accept + accepts w.server.curr_term (msg ∷ w.server.network.replica_msg_queue)))
        (wait_message msg now w)
unfolding wait_message accepts RoundWithin
wait_message-Within (app_entr_rpl reply) now w =
    elim (Bool-cases (reply.term == w.server.curr_term)) [
      | inl e ↦ ground (arith, e, count_reply-Within reply now w (ground (arith, e)))
      | inr e ↦ ground (arith, e)
    ]
wait_message-Within (req_vote_rpc r) now w = ground arith
wait_message-Within (req_vote_rpl r) now w = ground arith
wait_message-Within (app_entr_rpc r) now w = ground arith
wait_message-Within no_msg now w = ground arith
wait_message-Within (other n) now w = ground arith

wait_round-Within :
    (curr now : ℕ) (queue : List ReplicaMsg) (w : Waiting)
    → OnOk
        (RoundWithin w.server.curr_term (w.num_accept + accepts w.server.curr_term queue))
        (wait_round curr now (with_queue queue w))
unfolding wait_round replica_pop_message RoundWithin
wait_round-Within curr now [] w = ground arith
wait_round-Within curr now (m ∷ ms) w = ground (arith, wait_message-Within m now (with_queue ms w))

-- All that arrives over some rounds.
unfoldable pub arriving : List Tick → List ReplicaMsg
arriving [] = []
arriving (t ∷ ts) = t.arrivals ++ arriving ts

-- If the wait ends with the entries accepted, a majority is within the bound.
unfoldable pub Majority : ℕ → Outcome → Type 0
Majority bound (accepted w) = 2 ≤ bound
Majority bound (timed_out w) = Unit
Majority bound (yielded s) = Unit
Majority bound (still w) = Unit

Majority-le : {a b : ℕ} → a ≤ b → (o : Outcome) → Majority a o → Majority b o
unfolding Majority
Majority-le h (accepted w) k = omega (arith, h, k)
Majority-le h (timed_out w) k = tt
Majority-le h (yielded s) k = tt
Majority-le h (still w) k = tt

-- What the loop accepts is within its count and the replies still to come.
abbrev LoopWithin : List Tick → Waiting → Type 0
LoopWithin ts w =
    OnOk
      (Majority (
        w.num_accept
        + accepts w.server.curr_term (w.server.network.replica_msg_queue ++ arriving ts)))
      (wait_loop ts w)

next_round :
    (term budget bound : ℕ) (ts : List Tick) (r : Waited)
    → RoundWithin term budget r
    → budget + accepts term (arriving ts) ≤ bound
    → ((w : Waiting) → LoopWithin ts w)
    → OnOk (Majority bound) (elim r [
      | waits w ↦ wait_loop ts w
      | times_out w ↦ ok (timed_out w)
      | yields s ↦ ok (yielded s)
    ])
unfolding RoundWithin Majority
next_round term budget bound ts (waits w) h le loop =
    let same =
      ap (λ (n : ℕ). accepts n (w.server.network.replica_msg_queue ++ arriving ts)) h.same_term in
    let split = accepts-append term w.server.network.replica_msg_queue (arriving ts) in
    OnOk-map _ (Majority bound) (wait_loop ts w) (loop w)
      (Majority-le (omega (arith, same, split, h.counted, le)))
next_round term budget bound ts (times_out w) h le loop = tt
next_round term budget bound ts (yields s) h le loop = tt

wait_majority : (ts : List Tick) (w : Waiting) → LoopWithin ts w
unfolding wait_loop Majority arriving
wait_majority [] w = ground arith
wait_majority (t ∷ ts) w =
    let queue = w.server.network.replica_msg_queue in
    let term = w.server.curr_term in
    let all = accepts-append term queue (t.arrivals ++ arriving ts) in
    let late = accepts-append term t.arrivals (arriving ts) in
    let early = accepts-append term queue t.arrivals in
    let bound = w.num_accept + accepts term (queue ++ (t.arrivals ++ arriving ts)) in
    let budget = w.num_accept + accepts term (queue ++ t.arrivals) in
    OnOk-if (Majority bound) (ltb w.num_accept (server_count / 2 + 1)) _ (ok (accepted w))
      (λ _.
        OnOk->>= (RoundWithin term budget) (Majority bound)
          (wait_round t.curr t.now (arrive t.arrivals w)) _
          (wait_round-Within t.curr t.now (queue ++ t.arrivals) w)
          (λ r h.
            next_round term budget bound ts r h (omega (arith, all, late, early))
              (wait_majority ts)))
      (λ e. ground (arith, e))

-- If the leader's wait ends with the entry accepted, then the count it started with and the
-- successful replies to entries, in its own term, among the messages that waited and arrived are
-- two at least, the majority of three replicas.
pub accepted-majority :
    (ts : List Tick) (w : Waiting) {w' : Waiting}
    → wait_loop ts w ≡ ok (accepted w')
    → 2
      ≤ w.num_accept
        + accepts w.server.curr_term (w.server.network.replica_msg_queue ++ arriving ts)
unfolding Majority
accepted-majority ts w e = OnOk-eq _ (wait_loop ts w) (wait_majority ts w) e
