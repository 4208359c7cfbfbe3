-- ===== src/Leader/Stale.antt =====
-- A reply that is left in the queue when `LeaderState::run` of state.cpp takes the next request.
use blockchain_raft.Base.{
  ℕ, zero, suc, ◌+◌, ◌/◌, ◌≤◌, ◌≡◌, refl, sym, ap, ◌∙◌, true, false, List, [], ◌∷◌, ◌++◌, ltb, ◌==◌,
  arith, ℤ, pos, ◌+ℤ◌, ok, OnOk, OnOk->>=, OnOk-eq, OnOk-map, OnOk-any, OnOk-if, set, int_of_ℕ,
}
use blockchain_raft.Parameter.{server_count, leader_handle_time_ms}
use blockchain_raft.Msg.{Extern}
use blockchain_raft.Chain.{add_transaction, get_last_index, get_last_term, get_blockchain_length}
use blockchain_raft.Raft.{AppendEntryReply, ReplicaMsg, app_entr_rpl, app_entr_rpc, Request}
use blockchain_raft.Network.{replica_pop_message}
use blockchain_raft.Network.Queues.{replica_send_message-queue}
use blockchain_raft.Server.{Server}
use blockchain_raft.Leader.Main.{
  append_msg, entries_from, send_entries, slot, requested, begin_request, Waiting, Begun, dropped,
  searching, asked,
}
use blockchain_raft.Leader.Votes.{option_cases}
use blockchain_raft.Leader.Wait.{
  waits, count_reply, wait_message, wait_round, Tick, arrive, accepted, wait_loop,
}

-- The term and the queue of another server.
record SameQueue (s s' : Server) : Type 0 where
  same_term : s'.curr_term ≡ s.curr_term
  same_queue : s'.network.replica_msg_queue ≡ s.network.replica_msg_queue

send_entries-SameQueue :
    (n i term : ℕ) (index : ℤ) (s : Server) → OnOk (SameQueue s) (send_entries n i term index s)
unfolding send_entries
send_entries-SameQueue zero i term index s = record { same_term = refl; same_queue = refl }
send_entries-SameQueue (suc n) i term index s =
    OnOk->>= (SameQueue s) (SameQueue s) _ (send_entries n (i + 1) term index)
      (OnOk-if (SameQueue s) (i == s.id) (ok s) _
        (λ _. record { same_term = refl; same_queue = refl })
        (λ _.
          OnOk->>= (λ _. Unit {0}) (SameQueue s) (entries_from (index +ℤ pos 1) s.bc_log) _
            (OnOk-any (entries_from (index +ℤ pos 1) s.bc_log))
            (λ es _. record {
              same_term = refl;
              same_queue =
                  replica_send_message-queue s.id (app_entr_rpc (append_msg term index es s))
                    (pos i) s.network;
            })))
      (λ s1 h.
        OnOk-map (SameQueue s1) (SameQueue s) (send_entries n (i + 1) term index s1)
          (send_entries-SameQueue n (i + 1) term index s1)
          (λ s2 k. record {
            same_term = k.same_term ∙ h.same_term;
            same_queue = k.same_queue ∙ h.same_queue;
          }))

-- How the wait begins: one vote, and the messages that came before are still in the queue.
record Starts (now : ℕ) (s : Server) (w : Waiting) : Type 0 where
  one : w.num_accept ≡ 1
  just_now : w.last ≡ now
  same : SameQueue s w.server

unfoldable BegunStarts : ℕ → Server → Begun → Type 0
BegunStarts now s (asked w) = Starts now s w
BegunStarts now s (dropped s1) = Unit
BegunStarts now s searching = Unit

begin_request-Starts :
    (x : Extern) (draws : List ℕ) (now : ℕ) (r : Request) (s : Server)
    → OnOk (BegunStarts now s) (begin_request x draws now r s)
unfolding begin_request BegunStarts
begin_request-Starts x draws now r s = option_cases (BegunStarts now s) (requested r) _ _ tt (λ txn.
    option_cases (BegunStarts now s) (add_transaction x draws s.curr_term txn s.bc_log) _ _ tt
      (λ bc.
        let s0 = record s { bc_log = bc } in
        OnOk->>= (SameQueue s0) (BegunStarts now s)
          (send_entries server_count 0 (get_last_term s.bc_log) (get_last_index s.bc_log) s0) _
          (send_entries-SameQueue server_count 0 (get_last_term s.bc_log) (get_last_index s.bc_log)
            s0)
          (λ s1 h. record {
            one = refl;
            just_now = refl;
            same = record { same_term = h.same_term; same_queue = h.same_queue };
          })))

-- The wait behind a reply that is counted.
abbrev counted : AppendEntryReply → ℕ → List ReplicaMsg → Waiting → Waiting
counted reply now q w = record w {
  server = record w.server { network = record w.server.network { replica_msg_queue = q } };
  num_accept = w.num_accept + 1;
  next_index =
      set w.next_index (slot reply.sender_id) (int_of_ℕ (get_blockchain_length w.server.bc_log));
  last = now;
}

wait_round-counted :
    (curr now : ℕ) (w : Waiting) (reply : AppendEntryReply) (q : List ReplicaMsg)
    → w.server.network.replica_msg_queue ≡ app_entr_rpl reply ∷ q
    → reply.term ≡ w.server.curr_term
    → reply.success ≡ true
    → reply.reply_hearbeat ≡ false
    → curr ≤ w.last + leader_handle_time_ms
    → wait_round curr now w ≡ ok (waits (counted reply now q w))
unfolding wait_round wait_message count_reply replica_pop_message
wait_round-counted curr now w reply q e same good real soon =
    ground (arith, e, same, good, real, soon)

enough : (ts : List Tick) (w : Waiting) → w.num_accept ≡ 2 → wait_loop ts w ≡ ok (accepted w)
unfolding wait_loop
enough [] w e = ground (arith, e)
enough (t ∷ ts) w e = ground (arith, e)

-- If, when the leader has taken a request and asked the followers, the message at the front of its
-- queue is a successful reply of its term to entries that came before the request, then the wait
-- ends with the request accepted after a round that comes in time, without any other reply: no
-- reply to the new entry is needed.
pub stale_accept :
    (x : Extern) (draws : List ℕ) (now : ℕ) (r : Request) (s : Server) (w : Waiting)
    (reply : AppendEntryReply) (q : List ReplicaMsg) (t : Tick) (ts : List Tick)
    → begin_request x draws now r s ≡ ok (asked w)
    → s.network.replica_msg_queue ≡ app_entr_rpl reply ∷ q
    → reply.term ≡ s.curr_term
    → reply.success ≡ true
    → reply.reply_hearbeat ≡ false
    → t.curr ≤ now + leader_handle_time_ms
    → (w' : Waiting) × (wait_loop (t ∷ ts) w ≡ ok (accepted w'))
      × (w'.server.bc_log ≡ w.server.bc_log)
unfolding wait_loop BegunStarts
stale_accept x draws now r s w reply q t ts begun front same good real soon =
    let h : Starts now s w =
      OnOk-eq (BegunStarts now s) (begin_request x draws now r s)
        (begin_request-Starts x draws now r s) begun in
    let w0 = arrive t.arrivals w in
    let queue : w0.server.network.replica_msg_queue ≡ app_entr_rpl reply ∷ (q ++ t.arrivals) =
      ap (λ (l : List ReplicaMsg). l ++ t.arrivals) (h.same.same_queue ∙ front) in
    let round =
      wait_round-counted t.curr t.now w0 reply (q ++ t.arrivals) queue (same ∙ sym h.same.same_term)
        good real (omega (arith, soon, h.just_now)) in
    let w2 = counted reply t.now (q ++ t.arrivals) w0 in
    let few : ltb w.num_accept (server_count / 2 + 1) ≡ true = ground (arith, h.one) in
    (w2, (rw (few, round) (enough ts w2 (omega (arith, h.one)))), refl)
