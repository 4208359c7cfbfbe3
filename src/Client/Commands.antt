-- ===== src/Client/Commands.antt =====
-- The loop of `main` in client.cpp: one line of input is split, told apart and run. What the clock
-- reads and what arrives while the command waits are arguments.
pub mod Laws
use blockchain_raft.Base.{
  ℕ, zero, suc, ◌-◌, Bool, true, false, ◌&&◌, ◌||◌, Option, none, some, List, [], ◌∷◌, ltb, ◌==◌,
  if◌then◌else◌, length, get_or, ℤ, pos, leb_ℤ, ltb_ℤ, u32_of_int,
}
use blockchain_raft.Float32.Parse.{atof}
use blockchain_raft.Parameter.{client_count}
use blockchain_raft.Raft.{Response}
use blockchain_raft.Text.{atoi, equals}
use blockchain_raft.Text.Split.{split}
use blockchain_raft.Client.{
  Client, response_queue_pop, response_queue_get_count, Poll, Shown, transfer, check_balance,
}

-- The check of the argument of the program: the id is from 0 to 2.
unfoldable pub is_client_id : ℤ → Bool
is_client_id id = leb_ℤ (pos 0) id && ltb_ℤ id (pos client_count)

pub data Command : Type 0 where
  transfer_command : ℕ → ℕ → Command
  wrong_format balance_command print_command unknown : Command

-- The first word; there always is one.
unfoldable pub command_of : List (List ℕ) → Command
command_of args =
    let cmd = get_or args 0 [] in
    if equals cmd (b't' ∷ b'r' ∷ b'a' ∷ b'n' ∷ b's' ∷ b'f' ∷ b'e' ∷ b'r' ∷ [])
      || equals cmd (b't' ∷ [])
      || equals cmd (b'T' ∷ [])
    then (if length args == 3
        then transfer_command (u32_of_int (atoi (get_or args 1 []))) (atof (get_or args 2 []))
        else wrong_format)
    else (if equals cmd (b'b' ∷ b'a' ∷ b'l' ∷ b'a' ∷ b'n' ∷ b'c' ∷ b'e' ∷ [])
          || equals cmd (b'b' ∷ [])
          || equals cmd (b'B' ∷ [])
        then balance_command
        else (if equals cmd (b'p' ∷ []) then print_command else unknown))

-- `p` shows every response and empties the queue.
unfoldable pub print_rounds : ℕ → Client → List Response × Client
print_rounds zero c = ([], c)
print_rounds (suc n) c =
    let (front, c1) = response_queue_pop c in
    let (shown, c2) = print_rounds n c1 in elim front [ none ↦ ([], c) | some r ↦ (r ∷ shown, c2) ]

pub data Effect : Type 0 where
  shows : Shown → Effect
  prints : List Response → Effect
  format_error nothing : Effect

abbrev pub showing : Option (Shown × Client) → Option (Effect × Client)
showing none = none
showing (some (shown, c)) = some (shows shown, c)

unfoldable pub run_command : Command → ℕ → List Poll → Client → Option (Effect × Client)
run_command (transfer_command recv_id amount) t0 polls c =
    showing (transfer recv_id amount t0 polls c)
run_command balance_command t0 polls c = showing (check_balance t0 polls c)
run_command print_command t0 polls c =
    let (shown, c1) = print_rounds (response_queue_get_count c) c in some (prints shown, c1)
run_command wrong_format t0 polls c = some (format_error, c)
run_command unknown t0 polls c = some (nothing, c)

-- One line; `none` while the command still waits behind the turns given.
unfoldable pub run_line : List ℕ → ℕ → List Poll → Client → Option (Effect × Client)
run_line line t0 polls c = run_command (command_of (split line)) t0 polls c
