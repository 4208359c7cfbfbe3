-- ===== src/Leader/Main.antt =====
-- `LeaderState` of state.cpp: the heartbeat, one round of the main loop, and the start of a request.
-- What the clock reads and `rand` gives are arguments.
use blockchain_raft.Base.{
  ℕ, zero, suc, ◌+◌, ◌-◌, true, false, not, ◌&&◌, Option, none, some, List, [], ◌∷◌, ltb, leb, ◌==◌,
  if◌then◌else◌, set, replicate, Result, ok, ◌>>=◌, ℤ, pos, negsuc, ◌+ℤ◌, int_of_ℕ,
}
use blockchain_raft.Parameter.{server_count, heartbeat_period_ms}
use blockchain_raft.Float32.{minus_one}
use blockchain_raft.Msg.{Extern}
use blockchain_raft.Block.{Block, Transaction, balance_txn}
use blockchain_raft.Chain.{
  Blockchain, add_transaction, get_block_by_index, get_blockchain_length, get_last_index,
  get_last_term,
}
use blockchain_raft.Raft.{
  AppendEntryRpc, ReplicaMsg, req_vote_rpc, app_entr_rpc, app_entr_rpl, Request, Response,
  transaction_request, balance_request, leader_change,
}
use blockchain_raft.Network.{
  replica_send_message, replica_pop_message, client_pop_request, client_send_message,
}
use blockchain_raft.Server.{Server, follower, set_state}

-- A message to one replica, or to all others for -1.
abbrev pub send : ReplicaMsg → ℤ → Server → Server
send msg id s = record s { network = replica_send_message s.id msg id s.network }

abbrev pub heartbeat : Server → AppendEntryRpc
heartbeat s = record {
  term = s.curr_term;
  leader_id = pos s.id;
  prev_log_term = get_last_term s.bc_log;
  prev_log_index = get_last_index s.bc_log;
  commit_index = s.bc_log.committed_index;
  entries = [];
}

unfoldable pub send_heartbeat : Server → Server
send_heartbeat s = send (app_entr_rpc (heartbeat s)) (negsuc 0) s

abbrev pub announcement : Server → Response
announcement s = record {
  type = leader_change;
  request_id = 0;
  succeed = false;
  balance = minus_one;
  leader_id = s.id;
}

-- What `run` does before its loop.
unfoldable pub start_leading : Server → Server
start_leading s =
    let s1 = send_heartbeat (record s { curr_leader = s.id }) in
    record s1 { network = client_send_message (announcement s) (negsuc 0) s1.network }

-- An array index; a negative one is out of the array, as is one that is too large.
abbrev pub slot : ℤ → ℕ
slot (pos n) = n
slot (negsuc n) = server_count

-- The reply of a follower outside of the wait: `none` is to step down.
unfoldable pub note_message : ReplicaMsg → List ℤ → Server → Option (List ℤ)
note_message (req_vote_rpc rpc) next s = if ltb s.curr_term rpc.term then none else some next
note_message (app_entr_rpc rpc) next s = if ltb s.curr_term rpc.term then none else some next
note_message (app_entr_rpl reply) next s =
    if reply.reply_hearbeat && ltb s.curr_term reply.term
    then none
    else (if not reply.reply_hearbeat && (reply.term == s.curr_term) && reply.success
        then some (set next (slot reply.sender_id) (int_of_ℕ (get_blockchain_length s.bc_log)))
        else some next)
note_message _ next s = some next

-- for (int j = first; j <= length - 1; j++): the blocks from `first` on. As an unsigned number a
-- negative `first` is beyond the log. The log is not empty where this runs, so that `length - 1` does
-- not wrap.
unfoldable pub collect : ℕ → ℕ → Blockchain → Result (List Block)
collect zero j bc = ok []
collect (suc n) j bc =
    get_block_by_index bc (pos j) >>= λ b. collect n (j + 1) bc >>= λ bs. ok (b ∷ bs)

unfoldable pub entries_from : ℤ → Blockchain → Result (List Block)
entries_from (pos j) bc = collect (get_blockchain_length bc - j) j bc
entries_from (negsuc _) bc = ok []

abbrev pub append_msg : ℕ → ℤ → List Block → Server → AppendEntryRpc
append_msg prev_log_term prev_log_index entries s = record {
  term = s.curr_term;
  leader_id = pos s.id;
  prev_log_term = prev_log_term;
  prev_log_index = prev_log_index;
  commit_index = s.bc_log.committed_index;
  entries = entries;
}

-- for (int i = start; i < start + rounds; i++), all but the own id: the entries behind
-- `prev_log_index`.
unfoldable pub send_entries : ℕ → ℕ → ℕ → ℤ → Server → Result Server
send_entries zero i prev_log_term prev_log_index s = ok s
send_entries (suc n) i prev_log_term prev_log_index s =
    let sent : Result Server =
      if i == s.id
      then ok s
      else entries_from (prev_log_index +ℤ pos 1) s.bc_log >>= λ es.
          ok (send (app_entr_rpc (append_msg prev_log_term prev_log_index es s)) (pos i) s) in
    sent >>= send_entries n (i + 1) prev_log_term prev_log_index

-- The transaction that a request asks for; a transfer without payload is not sent by the network.
abbrev pub requested : Request → Option Transaction
requested r = elim r.type [
  | balance_request ↦ some (balance_txn true)
  | transaction_request ↦ r.payload
  | _ ↦ none
]

-- What the leader waits with: the locals of `run` behind the broadcast.
pub record Waiting : Type 0 where
  pub server : Server
  pub next_index : List ℤ
  pub num_accept : ℕ
  pub prev_log_index : ℤ
  pub last : ℕ

-- How a request begins: it is dropped, or its nonce is still searched, or the followers are asked.
pub data Begun : Type 0 where
  dropped : Server → Begun
  searching : Begun
  asked : Waiting → Begun

unfoldable pub begin_request : Extern → List ℕ → ℕ → Request → Server → Result Begun
begin_request x draws now r s =
    let next = replicate server_count (get_last_index s.bc_log +ℤ pos 1) in
    let prev_log_term = get_last_term s.bc_log in
    let prev_log_index = get_last_index s.bc_log in
    elim (requested r) [
      | none ↦ ok (dropped s)
      | some txn ↦ elim (add_transaction x draws s.curr_term txn s.bc_log) [
        | none ↦ ok searching
        | some bc ↦
            send_entries server_count 0 prev_log_term prev_log_index (record s { bc_log = bc })
            >>= λ s1. ok (
                asked (record {
                  server = s1;
                  next_index = next;
                  num_accept = 1;
                  prev_log_index = prev_log_index;
                  last = now;
                }))
      ]
    ]

-- One round of the main loop: a heartbeat is due and restarts its timer, or a message makes the leader step down, or no
-- client asks, or a request is taken.
pub data MainRound : Type 0 where
  beats : Server → ℕ → MainRound
  steps_down : Server → MainRound
  idles : Server → List ℤ → MainRound
  takes : Request → Server → MainRound

-- The message at the front of the queue, if there is one.
unfoldable pub main_message : List ℤ → Server → MainRound
main_message next s = elim s.network.replica_msg_queue [
  | [] ↦ idles s next
  | _ ∷ _ ↦
      let (msg, n) = replica_pop_message s.network in
      let s1 = record s { network = n } in
      elim (note_message msg next s1) [
        | none ↦ steps_down (set_state follower s1)
        | some next' ↦ idles s1 next'
      ]
]

abbrev pub take_request : MainRound → MainRound
take_request (idles s next) =
    let (front, n) = client_pop_request s.network in
    elim front [ none ↦ idles s next | some r ↦ takes r (record s { network = n }) ]
take_request m = m

-- `now` is the clock behind a heartbeat.
unfoldable pub main_round : ℕ → ℕ → ℕ → List ℤ → Server → MainRound
main_round last_heartbeat_time curr_time now next s =
    if leb heartbeat_period_ms (curr_time - last_heartbeat_time)
    then beats (send_heartbeat s) now
    else take_request (main_message next s)
