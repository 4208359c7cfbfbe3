-- ===== src/Client/Commands/Laws.antt =====
-- Every line of input of the client is finished once the clock has passed the timeout.
use blockchain_raft.Base.{
  ℕ, ◌≡◌, refl, sym, inl, inr, Option, none, some, List, [], ◌∷◌, ◌++◌, length,
}
use mathlib.Core.Path.{subst}
use blockchain_raft.Parameter.{client_req_timeout_ms}
use blockchain_raft.Raft.{Response, MessageType, transaction_response, balance_response}
use blockchain_raft.Text.Split.{split}
use blockchain_raft.Client.{
  Client, response_queue_pop, response_queue_get_count, Poll, Shown, status, show_balance, transfer,
  check_balance,
}
use blockchain_raft.Client.Queue.{AllAnswers, AllAnswers-append, answers, answers-AllAnswers}
use blockchain_raft.Client.Wait.{
  HasLate, Expires, supply, all_arrivals, IsConcluded, transfer-IsConcluded,
  check_balance-IsConcluded,
}
use blockchain_raft.Client.Commands.{
  Command, transfer_command, wrong_format, balance_command, print_command, unknown, command_of,
  print_rounds, Effect, prints, showing, run_command, run_line,
}

abbrev with_queue : List Response → Client → Client
with_queue rs c = record c { response_queue = rs }

print_rounds_lem :
    (rs : List Response) (c : Client)
    → print_rounds (length rs) (with_queue rs c) ≡ (rs, with_queue [] c)
unfolding print_rounds response_queue_pop
print_rounds_lem [] c = refl
print_rounds_lem (r ∷ rs) c = rw (print_rounds_lem rs c) refl

-- a
print_command_lem :
    (t0 : ℕ) (ps : List Poll) (c : Client)
    → run_command print_command t0 ps c
      ≡ some (prints c.response_queue, record c { response_queue = [] })
unfolding run_command response_queue_get_count
print_command_lem t0 ps c = rw (print_rounds_lem c.response_queue c) refl

AllAnswers-front : (rs qs : List Response) → AllAnswers (rs ++ qs) → AllAnswers rs
AllAnswers-front [] qs h = tt
AllAnswers-front (r ∷ rs) qs h = (h.0, AllAnswers-front rs qs h.1)

-- The command is finished, and the queue holds answers only.
abbrev pub IsFinished : Option (Effect × Client) → Type 0
IsFinished none = ⊥
IsFinished (some (effect, c)) = AllAnswers c.response_queue

showing-IsFinished :
    (type : MessageType) (show : Response → Shown) (late : Type 0) (rs : List Response)
    (o : Option (Shown × Client))
    → AllAnswers rs
    → IsConcluded type show late rs o
    → IsFinished (showing o)
showing-IsFinished type show late rs none h k = k
showing-IsFinished type show late rs (some (shown, c)) h (inl (r, rest, e, _, _)) =
    AllAnswers-front c.response_queue rest (subst AllAnswers e h).1
showing-IsFinished type show late rs (some (shown, c)) h (inr (empty, _)) =
    subst AllAnswers (sym empty) tt

supply-AllAnswers :
    (ps : List Poll) (c : Client) → AllAnswers c.response_queue → AllAnswers (supply ps c)
supply-AllAnswers ps c h =
    AllAnswers-append c.response_queue (answers (all_arrivals ps)) h
      (answers-AllAnswers (all_arrivals ps))

run_command-IsFinished :
    (command : Command) (t0 : ℕ) (ps : List Poll) (c : Client)
    → HasLate client_req_timeout_ms t0 ps
    → AllAnswers c.response_queue
    → IsFinished (run_command command t0 ps c)
unfolding run_command
run_command-IsFinished (transfer_command recv_id amount) t0 ps c late h =
    showing-IsFinished transaction_response (λ r. status r.succeed)
      (Expires client_req_timeout_ms t0 ps c) (supply ps c) (transfer recv_id amount t0 ps c)
      (supply-AllAnswers ps c h) (transfer-IsConcluded recv_id amount t0 ps c late)
run_command-IsFinished balance_command t0 ps c late h =
    showing-IsFinished balance_response show_balance (Expires client_req_timeout_ms t0 ps c)
      (supply ps c) (check_balance t0 ps c) (supply-AllAnswers ps c h)
      (check_balance-IsConcluded t0 ps c late)
run_command-IsFinished print_command t0 ps c late h =
    subst IsFinished (sym (print_command_lem t0 ps c)) tt
run_command-IsFinished wrong_format t0 ps c late h = h
run_command-IsFinished unknown t0 ps c late h = h

-- If a reading of the clock is more than the timeout behind the start, then every line of input of
-- the client is finished, whatever arrives, and the queue of responses then still holds answers to
-- requests only, if it did before.
pub run_line-IsFinished :
    (line : List ℕ) (t0 : ℕ) (ps : List Poll) (c : Client)
    → HasLate client_req_timeout_ms t0 ps
    → AllAnswers c.response_queue
    → IsFinished (run_line line t0 ps c)
unfolding run_line
run_line-IsFinished line t0 ps c late h =
    run_command-IsFinished (command_of (split line)) t0 ps c late h
