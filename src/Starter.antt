-- ===== src/Starter.antt =====
-- The files that content_starter.cpp writes for each server.
use blockchain_raft.Base.{◌≡◌, refl, some, List, ℕ, [], ◌∷◌, ok, true, negsuc}
use blockchain_raft.Float32
use blockchain_raft.Msg.{Extern}
use blockchain_raft.Chain.{newline, load_file}
use blockchain_raft.Balance.Load

-- outfile << "-0001\n"
abbrev pub starter_chain : List ℕ
starter_chain = b'-' ∷ b'0' ∷ b'0' ∷ b'0' ∷ b'1' ∷ newline ∷ []

-- outfile << "10 10 10 " << endl
abbrev pub starter_table : List ℕ
starter_table = b'1' ∷ b'0' ∷ b' ' ∷ b'1' ∷ b'0' ∷ b' ' ∷ b'1' ∷ b'0' ∷ b' ' ∷ newline ∷ []

-- An empty chain with nothing committed.
starter_chain-loads :
    (x : Extern)
    → load_file x (some starter_chain)
      ≡ ok (record { blocks = []; committed_index = negsuc 0; file = starter_chain })
unfolding load_file blockchain_raft.Chain.parse_file_to_bc blockchain_raft.Chain.with_lines
    blockchain_raft.Text.stoi blockchain_raft.Chain.first_line blockchain_raft.Chain.lines
    blockchain_raft.Chain.lines_from blockchain_raft.Chain.parse_blocks blockchain_raft.Base.◌-ℤ◌
starter_chain-loads x = refl

-- Ten for each client.
starter_table-loads :
    Load.load_file true (some starter_table) (0 ∷ 0 ∷ 0 ∷ [])
    ≡ ok (record { bal_tab = Float32.ten ∷ Float32.ten ∷ Float32.ten ∷ []; file = starter_table })
unfolding Load.load_file Load.load_amounts blockchain_raft.Text.Split.split Load.first_line
    blockchain_raft.Float32.Parse.stof
starter_table-loads = refl
