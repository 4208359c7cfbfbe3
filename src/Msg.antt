-- ===== src/Msg.antt =====
-- The protocol buffers of Msg.proto, and what the program takes from outside: the protocol buffer
-- runtime and OpenSSL's SHA-256. A required field is a field, an optional one an `Option`, a
-- `uint32` or `uint64` a number, an `int32` an integer, and a `float` its bit pattern.
use blockchain_raft.Base.{ℕ, Bool, Option, List, ℤ}

pub record TxnMsg : Type 0 where
  pub sender_id : ℕ
  pub recver_id : ℕ
  pub amount : ℕ
  pub bal_txn_flag : Option Bool

pub record RequestMsgT : Type 0 where
  pub type : ℕ
  pub client_id : ℕ
  pub request_id : ℕ
  pub transaction : Option TxnMsg

pub record ResponseMsgT : Type 0 where
  pub type : ℕ
  pub request_id : ℕ
  pub succeed : Bool
  pub balance : Option ℕ
  pub leader_id : Option ℕ

pub record BlockMsg : Type 0 where
  pub term : ℕ
  pub phash : List ℕ
  pub nonce : List ℕ
  pub txn : TxnMsg
  pub index : ℤ

pub record RequestVoteRpcMsg : Type 0 where
  pub candidate_id : ℕ
  pub term : ℕ
  pub last_log_term : ℕ
  pub last_log_index : ℤ

pub record RequestVoteReplyMsg : Type 0 where
  pub term : ℕ
  pub vote_granted : Bool

pub record AppendEntryRpcMsg : Type 0 where
  pub term : ℕ
  pub leader_id : ℕ
  pub prev_log_term : ℕ
  pub prev_log_index : ℤ
  pub commit_index : ℤ
  pub entries : List BlockMsg

pub record AppendEntryReplyMsg : Type 0 where
  pub term : ℕ
  pub sender_id : ℕ
  pub success : Bool
  pub reply_heartbeat : Bool

pub record ReplicaMsgT : Type 0 where
  pub type : ℕ
  pub receiver_id : ℕ
  pub request_vote_rpc_msg : Option RequestVoteRpcMsg
  pub request_vote_reply_msg : Option RequestVoteReplyMsg
  pub append_entry_rpc_msg : Option AppendEntryRpcMsg
  pub append_entry_reply_msg : Option AppendEntryReplyMsg

-- `digest` is the 32 bytes that SHA256_Final writes; the others are `SerializeAsString` and
-- `ParseFromString` of `block_msg_t`.
pub record Extern : Type 0 where
  pub digest : List ℕ → List ℕ
  pub block_to_bytes : BlockMsg → List ℕ
  pub block_of_bytes : List ℕ → BlockMsg
