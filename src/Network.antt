-- ===== src/Network.antt =====
-- The server's `class Network` of network.cpp: the two queues that the receiving threads fill, and
-- what is written on the sockets. A connection is seen as the messages written on it, before the
-- protocol buffer runtime makes bytes of them.
pub mod Wire
pub mod Queues
pub mod Clients
pub mod Requests
pub mod Link
use blockchain_raft.Base.{
  ℕ, zero, suc, ◌+◌, Bool, true, false, ◌||◌, Option, none, some, List, [], ◌∷◌, ◌++◌, map, leb,
  ◌==◌, if◌then◌else◌, get_or, ℤ, pos, negsuc, eqb_ℤ, leb_ℤ, ltb_ℤ, int_of_ℕ, u32_of_int,
}
use blockchain_raft.Block.{Block}
use blockchain_raft.Chain.{block_to_msg, bool_field}
use blockchain_raft.Parameter.{client_count, server_count}
use blockchain_raft.Msg.{
  BlockMsg, TxnMsg, RequestVoteRpcMsg, RequestVoteReplyMsg, AppendEntryRpcMsg, AppendEntryReplyMsg,
  ReplicaMsgT,
}
use blockchain_raft.Raft.{
  RequestVoteRpc, RequestVoteReply, AppendEntryRpc, AppendEntryReply, ReplicaMsg, no_msg,
  req_vote_rpc, req_vote_rpl, app_entr_rpc, app_entr_rpl, other, Response, Request,
}

pub record Network : Type 0 where
  pub replica_msg_queue : List ReplicaMsg
  pub client_req_queue : List Request
  pub connected : List Bool
  pub replica_out : List ReplicaMsgT
  pub client_out : List (ℕ × Response)

-- The block as `replica_send_message` packs it: the flag is not set.
unfoldable pub pack_block : Block → BlockMsg
pack_block b = record {
  term = b.term;
  phash = b.phash;
  nonce = b.nonce;
  txn = record {
    sender_id = b.txn.sender_id;
    recver_id = b.txn.recver_id;
    amount = b.txn.amount;
    bal_txn_flag = none;
  };
  index = b.index;
}

-- The block as `replica_recv_handler` unpacks it: the flag is not read.
unfoldable pub unpack_block : BlockMsg → Block
unpack_block m = record {
  term = m.term;
  phash = m.phash;
  nonce = m.nonce;
  txn = record {
    sender_id = m.txn.sender_id;
    recver_id = m.txn.recver_id;
    amount = m.txn.amount;
    bal_txn_flag = false;
  };
  index = m.index;
}

abbrev pub blank_msg : ℕ → ℕ → ReplicaMsgT
blank_msg type id = record {
  type = type;
  receiver_id = id;
  request_vote_rpc_msg = none;
  request_vote_reply_msg = none;
  append_entry_rpc_msg = none;
  append_entry_reply_msg = none;
}

-- The message built by `replica_send_message`; `none` for a type that it does not send.
unfoldable pub pack : ReplicaMsg → ℕ → Option ReplicaMsgT
pack (req_vote_rpc r) id = some (record (blank_msg 1 id) {
  request_vote_rpc_msg = some (record {
    candidate_id = u32_of_int r.candidate_id;
    term = r.term;
    last_log_term = r.last_log_term;
    last_log_index = r.last_log_index;
  });
})
pack (req_vote_rpl r) id = some (record (blank_msg 2 id) {
  request_vote_reply_msg = some (record { term = r.term; vote_granted = r.vote_granted });
})
pack (app_entr_rpc r) id = some (record (blank_msg 3 id) {
  append_entry_rpc_msg = some (record {
    term = r.term;
    leader_id = u32_of_int r.leader_id;
    prev_log_term = r.prev_log_term;
    prev_log_index = r.prev_log_index;
    commit_index = r.commit_index;
    entries = map pack_block r.entries;
  });
})
pack (app_entr_rpl r) id = some (record (blank_msg 4 id) {
  append_entry_reply_msg = some (record {
    term = r.term;
    sender_id = u32_of_int r.sender_id;
    success = r.success;
    reply_heartbeat = r.reply_hearbeat;
  });
})
pack no_msg id = none
pack (other n) id = none

-- The default instances that an accessor gives for a submessage that is not set.
abbrev pub default_vote_rpc : RequestVoteRpcMsg
default_vote_rpc = record { candidate_id = 0; term = 0; last_log_term = 0; last_log_index = pos 0 }

abbrev pub default_vote_reply : RequestVoteReplyMsg
default_vote_reply = record { term = 0; vote_granted = false }

abbrev pub default_append_rpc : AppendEntryRpcMsg
default_append_rpc = record {
  term = 0;
  leader_id = 0;
  prev_log_term = 0;
  prev_log_index = pos 0;
  commit_index = pos 0;
  entries = [];
}

abbrev pub default_append_reply : AppendEntryReplyMsg
default_append_reply = record { term = 0; sender_id = 0; success = false; reply_heartbeat = false }

abbrev pub field_or {ℓ} : {A : Type ℓ} → A → Option A → A
field_or d none = d
field_or d (some v) = v

abbrev pub unpack_vote_rpc : RequestVoteRpcMsg → RequestVoteRpc
unpack_vote_rpc m = record {
  candidate_id = int_of_ℕ m.candidate_id;
  term = m.term;
  last_log_term = m.last_log_term;
  last_log_index = m.last_log_index;
}

abbrev pub unpack_append_rpc : AppendEntryRpcMsg → AppendEntryRpc
unpack_append_rpc m = record {
  term = m.term;
  leader_id = int_of_ℕ m.leader_id;
  prev_log_term = m.prev_log_term;
  prev_log_index = m.prev_log_index;
  commit_index = m.commit_index;
  entries = map unpack_block m.entries;
}

abbrev pub unpack_append_reply : AppendEntryReplyMsg → AppendEntryReply
unpack_append_reply m = record {
  term = m.term;
  sender_id = int_of_ℕ m.sender_id;
  success = m.success;
  reply_hearbeat = m.reply_heartbeat;
}

-- What `replica_recv_handler` makes of a message that was parsed.
unfoldable pub unpack : ReplicaMsgT → ReplicaMsg
unpack m =
    if m.type == 1
    then req_vote_rpc (unpack_vote_rpc (field_or default_vote_rpc m.request_vote_rpc_msg))
    else (if m.type == 2
        then (let r = field_or default_vote_reply m.request_vote_reply_msg in
            req_vote_rpl (record { term = r.term; vote_granted = r.vote_granted }))
        else (if m.type == 3
            then app_entr_rpc
                (unpack_append_rpc (field_or default_append_rpc m.append_entry_rpc_msg))
            else (if m.type == 4
                then app_entr_rpl
                    (unpack_append_reply (field_or default_append_reply m.append_entry_reply_msg))
                else (if m.type == 0 then no_msg else other m.type))))

-- The end of a round of `replica_recv_handler`.
unfoldable pub replica_receive : ReplicaMsgT → Network → Network
replica_receive m n = record n { replica_msg_queue = n.replica_msg_queue ++ unpack m ∷ [] }

unfoldable pub send_to : ReplicaMsg → ℕ → Network → Network
send_to msg id n = elim (pack msg id) [
  | none ↦ n
  | some m ↦ record n { replica_out = n.replica_out ++ m ∷ [] }
]

-- for (int i = start; i < start + rounds; i++), all but the own id.
unfoldable pub send_others : ℕ → ℕ → ℕ → ReplicaMsg → Network → Network
send_others zero i self msg n = n
send_others (suc k) i self msg n =
    send_others k (i + 1) self msg (if i == self then n else send_to msg i n)

-- `self` is the id of the server; -1 stands for all the others.
unfoldable pub replica_send_message : ℕ → ReplicaMsg → ℤ → Network → Network
replica_send_message self msg (pos id) n = if leb server_count id then n else send_to msg id n
replica_send_message self msg (negsuc zero) n = send_others server_count 0 self msg n
replica_send_message self msg (negsuc (suc k)) n = n

-- On an empty queue the type becomes NONE.
unfoldable pub replica_pop_message : Network → ReplicaMsg × Network
replica_pop_message n = elim n.replica_msg_queue [
  | [] ↦ (no_msg, n)
  | m ∷ ms ↦ (m, record n { replica_msg_queue = ms })
]

unfoldable pub client_push_request : Request → Network → Network
client_push_request r n = record n { client_req_queue = n.client_req_queue ++ r ∷ [] }

unfoldable pub client_pop_request : Network → Option Request × Network
client_pop_request n = elim n.client_req_queue [
  | [] ↦ (none, n)
  | r ∷ rs ↦ (some r, record n { client_req_queue = rs })
]

-- A client whose id is out of the array is taken as not connected.
unfoldable pub client_send_one : Response → ℕ → Network → Network
client_send_one r id n =
    if get_or n.connected id false
    then record n { client_out = n.client_out ++ (id, r) ∷ [] }
    else n

unfoldable pub client_send_all : ℕ → ℕ → Response → Network → Network
client_send_all zero i r n = n
client_send_all (suc k) i r n = client_send_all k (i + 1) r (client_send_one r i n)

-- -1 stands for all the clients.
unfoldable pub client_send_message : Response → ℤ → Network → Network
client_send_message r (pos id) n = client_send_one r id n
client_send_message r (negsuc zero) n = client_send_all client_count 0 r n
client_send_message r (negsuc (suc k)) n = n
