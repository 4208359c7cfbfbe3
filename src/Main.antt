-- ===== src/Main.antt =====
-- `main` of main.cpp: the id that the command line gives.
use blockchain_raft.Base.{
  ℕ, ◌<◌, ◌≡◌, ◌↔◌, List, ◌==◌, ◌||◌, if◌then◌else◌, length, get_or, [], arith, pos, pos_part,
  leb_ℤ, ltb_ℤ, Result, ok, exited,
}
use blockchain_raft.Parameter.{server_count}
use blockchain_raft.Text.{atoi}

-- The name of the program is the first argument.
unfoldable pub server_id_of : List (List ℕ) → Result ℕ
server_id_of argv =
    if length argv == 2
    then (let server_id = atoi (get_or argv 1 []) in
        if ltb_ℤ server_id (pos 0) || leb_ℤ (pos server_count) server_id
        then exited 1
        else ok (pos_part server_id))
    else exited 1

-- A server runs exactly if there is one argument that is read as an id of one of the servers.
pub server_id_of_iff :
    (argv : List (List ℕ)) (id : ℕ)
    → (server_id_of argv ≡ ok id)
      ↔ ((length argv ≡ 2) × (atoi (get_or argv 1 []) ≡ pos id) × (id < server_count))
unfolding server_id_of
server_id_of_iff argv id = (λ e. ground (arith, e), λ h. ground (arith, h))
