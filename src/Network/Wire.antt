-- ===== src/Network/Wire.antt =====
-- What a message is after it was packed, sent and unpacked, and to whom it goes.
use blockchain_raft.Base.{
  ℕ, zero, suc, ◌+◌, ◌≡◌, refl, sym, ap, ◌∙◌, false, some, List, [], ◌∷◌, ◌++◌, map, append-nil,
  append_assoc, ◌==◌, if◌then◌else◌, ℤ, negsuc, IsInt, int_of_ℕ-u32_of_int, Bool-cases, inl, inr,
}
use mathlib.Core.Path.{ap₂}
use blockchain_raft.Parameter.{server_count}
use blockchain_raft.Block.{Block}
use blockchain_raft.Msg.{ReplicaMsgT}
use blockchain_raft.Raft.{
  ReplicaMsg, req_vote_rpl, req_vote_rpc, app_entr_rpc, app_entr_rpl, no_msg, other,
}
use blockchain_raft.Network.{
  Network, pack_block, unpack_block, pack, unpack, send_to, send_others, replica_send_message,
}

-- A block as it arrives: all but the flag of a balance transaction.
abbrev pub arrived_block : Block → Block
arrived_block b = record b { txn = record b.txn { bal_txn_flag = false } }

abbrev pub arrived : ReplicaMsg → ReplicaMsg
arrived (app_entr_rpc r) = app_entr_rpc (record r { entries = map arrived_block r.entries })
arrived m = m

-- The ids fit `int`, and the type is one of the four.
abbrev pub IsSendable : ReplicaMsg → Type 0
IsSendable (req_vote_rpc r) = IsInt r.candidate_id
IsSendable (req_vote_rpl r) = Unit
IsSendable (app_entr_rpc r) = IsInt r.leader_id
IsSendable (app_entr_rpl r) = IsInt r.sender_id
IsSendable no_msg = ⊥
IsSendable (other n) = ⊥

unpack-pack_block : (bs : List Block) → map unpack_block (map pack_block bs) ≡ map arrived_block bs
unfolding unpack_block pack_block
unpack-pack_block [] = refl
unpack-pack_block (b ∷ bs) = ap (λ (l : List Block). arrived_block b ∷ l) (unpack-pack_block bs)

-- A sendable message is packed for a receiver with that receiver's id, and unpacks to itself but
-- for the flags of the balance transactions in its entries, which are cleared.
pub unpack-pack :
    (msg : ReplicaMsg) (id : ℕ)
    → IsSendable msg
    → (m : ReplicaMsgT) × (pack msg id ≡ some m) × (m.receiver_id ≡ id) × (unpack m ≡ arrived msg)
unfolding pack unpack
unpack-pack (req_vote_rpc r) id h = (
  _,
  refl,
  refl,
  ap (λ (i : ℤ). req_vote_rpc (record r { candidate_id = i }))
      (int_of_ℕ-u32_of_int r.candidate_id h),
)
unpack-pack (req_vote_rpl r) id h = (_, refl, refl, refl)
unpack-pack (app_entr_rpc r) id h = (
  _,
  refl,
  refl,
  ap₂ (λ (i : ℤ) (es : List Block). app_entr_rpc (record r { leader_id = i; entries = es }))
      (int_of_ℕ-u32_of_int r.leader_id h) (unpack-pack_block r.entries),
)
unpack-pack (app_entr_rpl r) id h = (
  _,
  refl,
  refl,
  ap (λ (i : ℤ). app_entr_rpl (record r { sender_id = i })) (int_of_ℕ-u32_of_int r.sender_id h),
)
unpack-pack no_msg id h = absurd h
unpack-pack (other n) id h = absurd h

-- The receiver, and the message that it gets.
abbrev pub delivery : ReplicaMsgT → ℕ × ReplicaMsg
delivery m = (m.receiver_id, unpack m)

-- What has been sent, as the receivers get it.
abbrev pub deliveries : Network → List (ℕ × ReplicaMsg)
deliveries n = map delivery n.replica_out

map-snoc :
    (ms : List ReplicaMsgT) (m : ReplicaMsgT)
    → map delivery (ms ++ m ∷ []) ≡ map delivery ms ++ delivery m ∷ []
map-snoc [] m = refl
map-snoc (x ∷ ms) m = ap (λ (l : List (ℕ × ReplicaMsg)). delivery x ∷ l) (map-snoc ms m)

pub send_to-delivers :
    (msg : ReplicaMsg) (id : ℕ) (n : Network)
    → IsSendable msg
    → deliveries (send_to msg id n) ≡ deliveries n ++ (id, arrived msg) ∷ []
unfolding send_to
send_to-delivers msg id n h =
    let (m, packed, to, got) = unpack-pack msg id h in
    rw (packed, send_to)
      (map-snoc n.replica_out m
        ∙ ap (λ (d : ℕ × ReplicaMsg). deliveries n ++ d ∷ [])
            (ap₂ (λ (i : ℕ) (r : ReplicaMsg). (i, r)) to got))

-- All the ids from `i` on, as many as there are rounds, but `self`.
abbrev pub others : ℕ → ℕ → ℕ → List ℕ
others zero i self = []
others (suc k) i self = let rest = others k (i + 1) self in if i == self then rest else i ∷ rest

send_others-delivers :
    (k i self : ℕ) (msg : ReplicaMsg) (n : Network)
    → IsSendable msg
    → deliveries (send_others k i self msg n)
      ≡ deliveries n ++ map (λ j. (j, arrived msg)) (others k i self)
unfolding send_others
send_others-delivers zero i self msg n h = sym (append-nil (deliveries n))
send_others-delivers (suc k) i self msg n h = elim (Bool-cases (i == self)) [
  | inl own ↦ rw (own, send_others) (send_others-delivers k (i + 1) self msg n h)
  | inr other_id ↦
      rw (other_id, send_others)
        (send_others-delivers k (i + 1) self msg (send_to msg i n) h
          ∙ ap
              (λ (l : List (ℕ × ReplicaMsg)).
                l ++ map (λ j. (j, arrived msg)) (others k (i + 1) self))
              (send_to-delivers msg i n h)
          ∙ append_assoc (deliveries n) ((i, arrived msg) ∷ [])
              (map (λ j. (j, arrived msg)) (others k (i + 1) self)))
]

-- A broadcast of a sendable message adds one message for each replica but the sender, in the order
-- of the ids, which unpacks to the message sent but for the flags of balance transactions.
pub broadcast_delivers :
    (self : ℕ) (msg : ReplicaMsg) (n : Network)
    → IsSendable msg
    → deliveries (replica_send_message self msg (negsuc 0) n)
      ≡ deliveries n ++ map (λ j. (j, arrived msg)) (others server_count 0 self)
unfolding replica_send_message
broadcast_delivers self msg n h = send_others-delivers server_count 0 self msg n h
