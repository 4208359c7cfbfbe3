-- ===== src/Balance.antt =====
-- `class BalanceTable` of balance_table.h: the three balances, as float patterns, and the bytes of
-- the file that every update rewrites.
pub mod Update
pub mod Load
use blockchain_raft.Base.{
  ℕ, zero, suc, ◌+◌, ◌||◌, List, [], ◌∷◌, ◌++◌, leb, if◌then◌else◌, get_or, set, Result, ok, exited,
}
use blockchain_raft.Float32
use blockchain_raft.Parameter.{client_count}

pub record BalanceTable : Type 0 where
  pub bal_tab : List ℕ
  pub file : List ℕ

-- for (int i = start; i < start + rounds; i++) text += to_string(bal_tab[i]) + " ";
unfoldable pub table_text : ℕ → ℕ → List ℕ → List ℕ
table_text zero i bals = []
table_text (suc n) i bals =
    (Float32.to_text (get_or bals i 0) ++ b' ' ∷ []) ++ table_text n (i + 1) bals

unfoldable pub write_bal_tab_to_file : BalanceTable → BalanceTable
write_bal_tab_to_file b = record b { file = table_text client_count 0 b.bal_tab }

unfoldable pub get_balance : BalanceTable → ℕ → Result ℕ
get_balance b id = if leb client_count id then exited 0 else ok (get_or b.bal_tab id 0)

unfoldable pub set_balance : BalanceTable → ℕ → ℕ → Result BalanceTable
set_balance b id new_bal =
    if leb client_count id
    then exited 0
    else ok (write_bal_tab_to_file (record b { bal_tab = set b.bal_tab id new_bal }))

unfoldable pub update_balance : BalanceTable → ℕ → ℕ → ℕ → Result BalanceTable
update_balance b sid rid bal_change =
    if leb client_count sid || leb client_count rid
    then exited 0
    else (let paid = set b.bal_tab sid (Float32.sub (get_or b.bal_tab sid 0) bal_change) in
        ok (
          write_bal_tab_to_file
            (record b { bal_tab = set paid rid (Float32.add (get_or paid rid 0) bal_change) })))
