-- ===== src/Block.antt =====
-- `class Transaction` and `class Block` of blockchain.h. Texts are lists of bytes.
pub mod Nonce
use blockchain_raft.Base.{
  ℕ, ◌+◌, ◌%◌, Bool, true, false, ◌||◌, Option, none, some, List, [], ◌∷◌, ◌++◌, ◌==◌,
  if◌then◌else◌, get_last?, ℤ, negsuc,
}
use blockchain_raft.Text.{to_string, hex}
use blockchain_raft.Float32
use blockchain_raft.Msg.{Extern}

pub record Transaction : Type 0 where
  pub sender_id : ℕ
  pub recver_id : ℕ
  pub amount : ℕ
  pub bal_txn_flag : Bool

-- `Transaction(sid, rid, amt)`
abbrev pub transfer_txn : ℕ → ℕ → ℕ → Transaction
transfer_txn sid rid amt = record {
  sender_id = sid;
  recver_id = rid;
  amount = amt;
  bal_txn_flag = false;
}

-- `Transaction(bool flag)`, which sets the flag whatever its argument is.
abbrev pub balance_txn : Bool → Transaction
balance_txn flag = record { sender_id = 0; recver_id = 0; amount = 0; bal_txn_flag = true }

unfoldable pub serialize_transaction : Transaction → List ℕ
serialize_transaction t =
    to_string t.sender_id ++ (b'-' ∷ to_string t.recver_id) ++ (b'-' ∷ Float32.to_text t.amount)

pub record Block : Type 0 where
  pub term : ℕ
  pub phash : List ℕ
  pub nonce : List ℕ
  pub txn : Transaction
  pub index : ℤ

-- `phash = "NULL"`
abbrev pub no_hash : List ℕ
no_hash = b'N' ∷ b'U' ∷ b'L' ∷ b'L' ∷ []

unfoldable pub sha256 : Extern → List ℕ → List ℕ
sha256 x str = hex (x.digest str)

unfoldable pub find_hash : Extern → Block → List ℕ
find_hash x b = sha256 x (serialize_transaction b.txn ++ b.nonce)

-- The test that ends the search: the last digit of the hash is 0, 1 or 2.
unfoldable pub accepts : List ℕ → Bool
accepts s = elim (get_last? s) [ none ↦ false | some c ↦ (c == b'0') || (c == b'1') || (c == b'2') ]

-- `std::string(1, char(rand() % 26 + 97))`
abbrev pub letter : ℕ → List ℕ
letter r = (r % 26 + 97) ∷ []

-- The loop over the values that `rand` gives, in their order; `none` if all of them are used up
-- and the search still runs.
unfoldable pub find_nonce : Extern → List ℕ → Transaction → Option (List ℕ)
find_nonce x [] t = none
find_nonce x (r ∷ rs) t =
    let rest = find_nonce x rs t in
    if accepts (sha256 x (serialize_transaction t ++ letter r)) then some (letter r) else rest

-- `Block(term_num, t)`
unfoldable pub new_block : Extern → List ℕ → ℕ → Transaction → Option Block
new_block x draws term_num t = elim (find_nonce x draws t) [
  | none ↦ none
  | some n ↦
      some (record { term = term_num; phash = no_hash; nonce = n; txn = t; index = negsuc 0 })
]
