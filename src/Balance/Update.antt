-- ===== src/Balance/Update.antt =====
-- What `update_balance` does to each account.
use blockchain_raft.Base.{
  ℕ, ◌≤◌, ◌<◌, ◌≡◌, ◌≢◌, refl, sym, ◌∙◌, ap, ◌⊎◌, arith, length, length-set, get_or,
  get_or-set_self, get_or-set_ne, set, ok, exited,
}
use blockchain_raft.Float32
use blockchain_raft.Parameter.{client_count}
use blockchain_raft.Balance.{BalanceTable, table_text, write_bal_tab_to_file, update_balance}

-- One balance for each client, and the file of these balances.
pub record IsStored (b : BalanceTable) : Type 0 where
  pub sized : length b.bal_tab ≡ client_count
  pub on_disk : b.file ≡ table_text client_count 0 b.bal_tab

abbrev pub balance_of : BalanceTable → ℕ → ℕ
balance_of b id = get_or b.bal_tab id 0

-- The table after a transfer between valid accounts.
pub record IsTransfer (b b' : BalanceTable) (sid rid amt : ℕ) : Type 0 where
  pub stored : IsStored b'
  pub sent : sid ≢ rid → balance_of b' sid ≡ Float32.sub (balance_of b sid) amt
  pub received : sid ≢ rid → balance_of b' rid ≡ Float32.add (balance_of b rid) amt
  pub to_self : sid ≡ rid → balance_of b' sid ≡ Float32.add (Float32.sub (balance_of b sid) amt) amt
  pub others : (k : ℕ) → k ≢ sid → k ≢ rid → balance_of b' k ≡ balance_of b k

-- On a table of all clients, a transfer between two clients returns: the sender's balance falls
-- and the receiver's rises by the amount, one client's balance takes both changes in that order if
-- it is both, no other changes, and the file holds the new balances.
pub update_balance-IsTransfer :
    (b : BalanceTable) (sid rid amt : ℕ)
    → length b.bal_tab ≡ client_count
    → sid < client_count
    → rid < client_count
    → (b' : BalanceTable) × (update_balance b sid rid amt ≡ ok b') × IsTransfer b b' sid rid amt
unfolding update_balance write_bal_tab_to_file
update_balance-IsTransfer b sid rid amt z hs hr =
    let less = Float32.sub (get_or b.bal_tab sid 0) amt in
    let paid = set b.bal_tab sid less in
    let more = Float32.add (get_or paid rid 0) amt in
    let bals = set paid rid more in
    let sized : length paid ≡ 3 = length-set b.bal_tab sid less ∙ z in
    let at_sid = get_or-set_self b.bal_tab sid less 0 (omega arith) in
    let at_rid = get_or-set_self paid rid more 0 (omega arith) in
    (
      record { bal_tab = bals; file = table_text client_count 0 bals },
      ground arith,
      record {
        stored = record { sized = length-set paid rid more ∙ sized; on_disk = refl };
        sent = λ ne. get_or-set_ne paid rid sid more 0 (λ e. ne (sym e)) ∙ at_sid;
        received = λ ne.
            at_rid ∙ ap (λ (v : ℕ). Float32.add v amt) (get_or-set_ne b.bal_tab sid rid less 0 ne);
        to_self = λ e.
            ap (λ (k : ℕ). get_or bals k 0) e
            ∙ at_rid
            ∙ ap (λ (v : ℕ). Float32.add v amt) (ap (λ (k : ℕ). get_or paid k 0) (sym e) ∙ at_sid);
        others = λ k ns nr.
            get_or-set_ne paid rid k more 0 (λ e. nr (sym e))
            ∙ get_or-set_ne b.bal_tab sid k less 0 (λ e. ns (sym e));
      },
    )

-- A transfer that names an account of no client ends the process with status 0.
pub update_balance-exited :
    (b : BalanceTable) (sid rid amt : ℕ)
    → (client_count ≤ sid) ⊎ (client_count ≤ rid)
    → update_balance b sid rid amt ≡ exited 0
unfolding update_balance
update_balance-exited b sid rid amt h = ground arith
