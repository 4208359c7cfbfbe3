-- ===== src/Leader/Votes.antt =====
-- The steps of `LeaderState::run` against the term and the vote.
use blockchain_raft.Base.{
  ℕ, zero, suc, ◌+◌, refl, ◌∙◌, Bool, Option, none, some, List, arith, ℤ, pos, Result, OnOk,
  OnOk->>=, OnOk-map, int_of_ℕ, ◌-ℤ◌,
}
use blockchain_raft.Parameter.{server_count}
use blockchain_raft.Chain.{add_transaction, get_last_term, get_last_index, get_blockchain_length}
use blockchain_raft.Msg.{Extern}
use blockchain_raft.Raft.{
  AppendEntryReply, ReplicaMsg, req_vote_rpl, req_vote_rpc, app_entr_rpc, app_entr_rpl, no_msg,
  other, Request,
}
use blockchain_raft.Network.{replica_pop_message}
use blockchain_raft.Server.{Server, set_state}
use blockchain_raft.Follower.Vote.{SameVote, commit-SameVote}
use blockchain_raft.Leader.Main.{
  send_heartbeat, start_leading, send_entries, requested, Waiting, Begun, dropped, searching, asked,
  begin_request, MainRound, beats, steps_down, idles, takes, main_message, take_request, main_round,
}
use blockchain_raft.Leader.Wait.{
  Waited, waits, times_out, yields, retry, count_reply, wait_message, wait_round, commit_all,
  finish_request,
}

pub send_heartbeat-SameVote : (s : Server) → SameVote s (send_heartbeat s)
unfolding send_heartbeat
send_heartbeat-SameVote s = (refl, refl)

pub start_leading-SameVote : (s : Server) → SameVote s (start_leading s)
unfolding start_leading send_heartbeat
start_leading-SameVote s = (refl, refl)

send_entries-SameVote :
    (n i term : ℕ) (index : ℤ) (s : Server) → OnOk (SameVote s) (send_entries n i term index s)
unfolding send_entries
send_entries-SameVote zero i term index s = (refl, refl)
send_entries-SameVote (suc n) i term index s =
    OnOk->>= (SameVote s) (SameVote s) _ (send_entries n (i + 1) term index) (ground arith) (λ s1 h.
      OnOk-map (SameVote s1) (SameVote s) (send_entries n (i + 1) term index s1)
        (send_entries-SameVote n (i + 1) term index s1) (λ s2 k. (k.0 ∙ h.0, k.1 ∙ h.1)))

-- The server of a request that has begun; while the nonce is searched, it is the one before.
unfoldable pub begun_server : Server → Begun → Server
begun_server s (dropped s1) = s1
begun_server s searching = s
begun_server s (asked w) = w.server

-- With or without a value.
pub option_cases {ℓ} :
    {A : Type ℓ} (P : Begun → Type 0) (o : Option A) (r : Result Begun) (f : A → Result Begun)
    → OnOk P r
    → ((a : A) → OnOk P (f a))
    → OnOk P (elim o [ none ↦ r | some a ↦ f a ])
option_cases P none r f h k = h
option_cases P (some a) r f h k = k a

pub begin_request-SameVote :
    (x : Extern) (draws : List ℕ) (now : ℕ) (r : Request) (s : Server)
    → OnOk (λ b. SameVote s (begun_server s b)) (begin_request x draws now r s)
unfolding begin_request begun_server
begin_request-SameVote x draws now r s =
    option_cases (λ b. SameVote s (begun_server s b)) (requested r) _ _ (refl, refl)
      (λ txn.
        option_cases (λ b. SameVote s (begun_server s b))
          (add_transaction x draws s.curr_term txn s.bc_log) _ _ (refl, refl)
          (λ bc.
            OnOk->>= (SameVote s) (λ b. SameVote s (begun_server s b))
              (send_entries server_count 0 (get_last_term s.bc_log) (get_last_index s.bc_log)
                (record s { bc_log = bc }))
              _
              (send_entries-SameVote server_count 0 (get_last_term s.bc_log)
                (get_last_index s.bc_log) (record s { bc_log = bc }))
              (λ s1 h. h)))

unfoldable pub main_server : MainRound → Server
main_server (beats s now) = s
main_server (steps_down s) = s
main_server (idles s next) = s
main_server (takes r s) = s

take_request-SameVote :
    (s : Server) (m : MainRound)
    → SameVote s (main_server m)
    → SameVote s (main_server (take_request m))
unfolding main_server
take_request-SameVote s (beats s1 now) h = h
take_request-SameVote s (steps_down s1) h = h
take_request-SameVote s (idles s1 next) h = ground arith
take_request-SameVote s (takes r s1) h = h

main_message-SameVote :
    (next : List ℤ) (s : Server) → SameVote s (main_server (main_message next s))
unfolding main_message main_server set_state
main_message-SameVote next s = ground arith

pub main_round-SameVote :
    (last curr now : ℕ) (next : List ℤ) (s : Server)
    → SameVote s (main_server (main_round last curr now next s))
unfolding main_round main_server
main_round-SameVote last curr now next s = ground (
  arith,
  take_request-SameVote s (main_message next s) (main_message-SameVote next s),
  send_heartbeat-SameVote s,
)

unfoldable pub waited_server : Waited → Server
waited_server (waits w) = w.server
waited_server (times_out w) = w.server
waited_server (yields s) = s

retry-SameVote :
    (sender : ℤ) (w : Waiting) → OnOk (λ w'. SameVote w.server w'.server) (retry sender w)
unfolding retry
retry-SameVote sender w = ground arith

count_reply-SameVote :
    (reply : AppendEntryReply) (now : ℕ) (w : Waiting)
    → OnOk (λ w'. SameVote w.server w'.server) (count_reply reply now w)
unfolding count_reply
count_reply-SameVote reply now w =
    ground (arith, retry-SameVote reply.sender_id (record w { last = now }))

wait_message-SameVote :
    (msg : ReplicaMsg) (now : ℕ) (w : Waiting)
    → OnOk (λ r. SameVote w.server (waited_server r)) (wait_message msg now w)
unfolding wait_message waited_server set_state
wait_message-SameVote (app_entr_rpl reply) now w = ground (arith, count_reply-SameVote reply now w)
wait_message-SameVote (req_vote_rpl r) now w = (refl, refl)
wait_message-SameVote (req_vote_rpc r) now w = ground arith
wait_message-SameVote (app_entr_rpc r) now w = ground arith
wait_message-SameVote no_msg now w = (refl, refl)
wait_message-SameVote (other n) now w = (refl, refl)

pub wait_round-SameVote :
    (curr now : ℕ) (w : Waiting)
    → OnOk (λ r. SameVote w.server (waited_server r)) (wait_round curr now w)
unfolding wait_round waited_server
wait_round-SameVote curr now w =
    let (msg, n) = replica_pop_message w.server.network in
    ground
      (arith, wait_message-SameVote msg now (record w { server = record w.server { network = n } }))

pub finish_request-SameVote :
    (committed : Bool) (r : Request) (s : Server) → OnOk (SameVote s) (finish_request committed r s)
unfolding finish_request commit_all
finish_request-SameVote committed r s =
    ground (arith, commit-SameVote (int_of_ℕ (get_blockchain_length s.bc_log) -ℤ pos 1) s)
