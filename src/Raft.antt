-- ===== src/Raft.antt =====
-- The messages of raft.h and message.h. A wrapper's type and the payload that it is cast to are one
-- constructor; `int` ids and positions are integers, terms are `uint32_t`.
use blockchain_raft.Base.{ℕ, Bool, Option, List, ℤ, ◌==◌, if◌then◌else◌}
use blockchain_raft.Block.{Block, Transaction}

pub record RequestVoteRpc : Type 0 where
  pub candidate_id : ℤ
  pub term : ℕ
  pub last_log_term : ℕ
  pub last_log_index : ℤ

pub record RequestVoteReply : Type 0 where
  pub term : ℕ
  pub vote_granted : Bool

pub record AppendEntryRpc : Type 0 where
  pub term : ℕ
  pub leader_id : ℤ
  pub prev_log_term : ℕ
  pub prev_log_index : ℤ
  pub commit_index : ℤ
  pub entries : List Block

pub record AppendEntryReply : Type 0 where
  pub term : ℕ
  pub sender_id : ℤ
  pub success : Bool
  pub reply_hearbeat : Bool

-- `other` is a number that names no type, with no payload.
pub data ReplicaMsg : Type 0 where
  no_msg : ReplicaMsg
  req_vote_rpc : RequestVoteRpc → ReplicaMsg
  req_vote_rpl : RequestVoteReply → ReplicaMsg
  app_entr_rpc : AppendEntryRpc → ReplicaMsg
  app_entr_rpl : AppendEntryReply → ReplicaMsg
  other : ℕ → ReplicaMsg

pub data MessageType : Type 0 where
  transaction_request balance_request transaction_response balance_response : MessageType
  leader_change : MessageType
  other_type : ℕ → MessageType

-- The numbers of the enumeration, and the cast from a number.
abbrev pub type_number : MessageType → ℕ
type_number transaction_request = 0
type_number balance_request = 1
type_number transaction_response = 2
type_number balance_response = 3
type_number leader_change = 4
type_number (other_type n) = n

abbrev pub type_of_number : ℕ → MessageType
type_of_number n =
    if n == 0
    then transaction_request
    else (if n == 1
        then balance_request
        else (if n == 2
            then transaction_response
            else (if n == 3
                then balance_response
                else (if n == 4 then leader_change else other_type n))))

pub record Response : Type 0 where
  pub type : MessageType
  pub request_id : ℕ
  pub succeed : Bool
  pub balance : ℕ
  pub leader_id : ℕ

-- The payload is a transaction, or the null pointer.
pub record Request : Type 0 where
  pub type : MessageType
  pub client_id : ℕ
  pub request_id : ℕ
  pub payload : Option Transaction
