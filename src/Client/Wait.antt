-- ===== src/Client/Wait.antt =====
-- `client_wait_reply` of client.cpp: it ends, and what it returns.
use blockchain_raft.Base.{
  ℕ, ◌-◌, ◌<◌, ◌≡◌, refl, sym, ap, ◌∙◌, ◌⊎◌, inl, inr, Bool, true, false, Option, none, some, List,
  [], ◌∷◌, ◌++◌, ltb, arith, if◌then◌else◌, List-cases, Bool-cases, append-nil, append_assoc,
}
use blockchain_raft.Float32
use blockchain_raft.Parameter.{client_req_timeout_ms}
use blockchain_raft.Msg.{RequestMsgT, ResponseMsgT}
use blockchain_raft.Raft.{
  Response, MessageType, transaction_response, balance_response, type_of_number,
}
use blockchain_raft.Client.{
  Client, response_queue_pop, arrive, Poll, Reply, replied, timed_out, still, wait_reply, Shown,
  request_timeout, wrong_type, status, is_type, conclude, send_message, transaction_msg,
  send_transaction, transfer, balance_msg, send_balance, show_balance, check_balance,
  clear_responses,
}
use blockchain_raft.Client.Queue.{queued, answers, arrive-queue, clear_responses_lem}
use mathlib.Core.Path.{subst}

abbrev pub HasLate : ℕ → ℕ → List Poll → Type 0
HasLate timeout_ms t0 [] = ⊥
HasLate timeout_ms t0 (p ∷ ps) = (timeout_ms < p.time - t0) ⊎ HasLate timeout_ms t0 ps

abbrev pub Ends : Reply → Type 0
Ends (still c) = ⊥
Ends _ = Unit

pop-nil : (c : Client) → c.response_queue ≡ [] → response_queue_pop c ≡ (none, c)
unfolding response_queue_pop
pop-nil c e = rw e refl

pop-cons :
    (c : Client) {r : Response} {rs : List Response}
    → c.response_queue ≡ r ∷ rs
    → response_queue_pop c ≡ (some r, record c { response_queue = rs })
unfolding response_queue_pop
pop-cons c e = rw e refl

-- One turn, by whether the queue is empty behind its arrivals.
turn_empty :
    (timeout_ms t0 : ℕ) (p : Poll) (ps : List Poll) (c : Client)
    → (arrive p.arrivals c).response_queue ≡ []
    → wait_reply timeout_ms t0 (p ∷ ps) c ≡ (
        if ltb timeout_ms (p.time - t0)
        then timed_out (arrive p.arrivals c)
        else wait_reply timeout_ms t0 ps (arrive p.arrivals c))
unfolding wait_reply
turn_empty timeout_ms t0 p ps c e = rw (pop-nil (arrive p.arrivals c) e) refl

turn_reply :
    (timeout_ms t0 : ℕ) (p : Poll) (ps : List Poll) (c : Client) {r : Response} {rs : List Response}
    → (arrive p.arrivals c).response_queue ≡ r ∷ rs
    → wait_reply timeout_ms t0 (p ∷ ps) c
      ≡ replied r (record (arrive p.arrivals c) { response_queue = rs })
unfolding wait_reply
turn_reply timeout_ms t0 p ps c e = rw (pop-cons (arrive p.arrivals c) e) refl

-- If a reading of the clock is more than the timeout behind the start, then the wait ends, with a
-- response or by its timeout, whatever arrives.
wait_reply-Ends :
    (timeout_ms t0 : ℕ) (ps : List Poll) (c : Client)
    → HasLate timeout_ms t0 ps
    → Ends (wait_reply timeout_ms t0 ps c)
unfolding wait_reply
wait_reply-Ends timeout_ms t0 [] c h = h
wait_reply-Ends timeout_ms t0 (p ∷ ps) c h =
    let c1 = arrive p.arrivals c in
    elim (List-cases c1.response_queue) [
      | inr (r, rs, e) ↦ rw (turn_reply timeout_ms t0 p ps c e) tt
      | inl e ↦
          rw (turn_empty timeout_ms t0 p ps c e) (elim (Bool-cases (ltb timeout_ms (p.time - t0))) [
            | inl late ↦ rw late tt
            | inr early ↦ rw early (elim h [
              | inl l ↦ absurd (ground (arith, early, l))
              | inr later ↦ wait_reply-Ends timeout_ms t0 ps c1 later
            ])
          ])
    ]

abbrev pub all_arrivals : List Poll → List ResponseMsgT
all_arrivals [] = []
all_arrivals (p ∷ ps) = p.arrivals ++ all_arrivals ps

answers-append : (ms ns : List ResponseMsgT) → answers (ms ++ ns) ≡ answers ms ++ answers ns
answers-append [] ns = refl
answers-append (m ∷ ms) ns =
    ap (λ (l : List Response). queued (type_of_number m.type) m ++ l) (answers-append ms ns)
    ∙ sym (append_assoc (queued (type_of_number m.type) m) (answers ms) (answers ns))

-- The whole supply of responses: those queued and those that the turns bring.
abbrev pub supply : List Poll → Client → List Response
supply ps c = c.response_queue ++ answers (all_arrivals ps)

supply-turn :
    (p : Poll) (ps : List Poll) (c : Client) → supply (p ∷ ps) c ≡ supply ps (arrive p.arrivals c)
supply-turn p ps c =
    ap (λ (l : List Response). c.response_queue ++ l) (answers-append p.arrivals (all_arrivals ps))
    ∙ sym (append_assoc c.response_queue (answers p.arrivals) (answers (all_arrivals ps)))
    ∙ ap (λ (l : List Response). l ++ answers (all_arrivals ps)) (sym (arrive-queue p.arrivals c))

nil-parts : (xs ys : List Response) → xs ++ ys ≡ [] → (xs ≡ []) × (ys ≡ [])
nil-parts [] ys e = (refl, e)
nil-parts (x ∷ xs) ys e = cc

-- A turn is late, and up to it no answer has arrived.
abbrev pub IsSilent : ℕ → ℕ → List Poll → Type 0
IsSilent timeout_ms t0 [] = ⊥
IsSilent timeout_ms t0 (p ∷ ps) =
    (answers p.arrivals ≡ []) × ((timeout_ms < p.time - t0) ⊎ IsSilent timeout_ms t0 ps)

-- The same, and none was queued before.
abbrev pub Expires : ℕ → ℕ → List Poll → Client → Type 0
Expires timeout_ms t0 ps c = (c.response_queue ≡ []) × IsSilent timeout_ms t0 ps

-- What an outcome says of the supply; `late` is what a timeout says.
abbrev pub IsOutcome : Type 0 → List Response → Reply → Type 0
IsOutcome late rs (replied r c) = (rest : List Response) × (rs ≡ r ∷ (c.response_queue ++ rest))
IsOutcome late rs (timed_out c) = (c.response_queue ≡ []) × late
IsOutcome late rs (still c) = rs ≡ c.response_queue

IsOutcome-mono :
    (late later : Type 0) (rs : List Response) (reply : Reply)
    → (late → later)
    → IsOutcome late rs reply
    → IsOutcome later rs reply
IsOutcome-mono late later rs (replied r c) f h = h
IsOutcome-mono late later rs (timed_out c) f h = (h.0, f h.1)
IsOutcome-mono late later rs (still c) f h = h

pub wait_reply-IsOutcome :
    (timeout_ms t0 : ℕ) (ps : List Poll) (c : Client)
    → IsOutcome (Expires timeout_ms t0 ps c) (supply ps c) (wait_reply timeout_ms t0 ps c)
unfolding wait_reply
wait_reply-IsOutcome timeout_ms t0 [] c = append-nil c.response_queue
wait_reply-IsOutcome timeout_ms t0 (p ∷ ps) c =
    let c1 = arrive p.arrivals c in
    rw (supply-turn p ps c) (elim (List-cases c1.response_queue) [
      | inr (r, rs, e) ↦ rw (turn_reply timeout_ms t0 p ps c e, e) (answers (all_arrivals ps), refl)
      | inl e ↦
          let (none_queued, none_new) =
            nil-parts c.response_queue (answers p.arrivals) (sym (arrive-queue p.arrivals c) ∙ e) in
          rw (turn_empty timeout_ms t0 p ps c e) (elim (Bool-cases (ltb timeout_ms (p.time - t0))) [
            | inl late ↦ rw late (e, (none_queued, (none_new, inl (ground (arith, late)))))
            | inr early ↦ rw early (
                IsOutcome-mono (Expires timeout_ms t0 ps c1) (Expires timeout_ms t0 (p ∷ ps) c)
                  (supply ps c1) (wait_reply timeout_ms t0 ps c1)
                  (λ l. (none_queued, (none_new, inr l.1)))
                  (wait_reply-IsOutcome timeout_ms t0 ps c1))
          ])
    ])

-- How a command ends: with the first response of the supply, of the type awaited, or with an empty
-- queue, since that response is of another type or since there was none in time.
abbrev pub IsConcluded :
    MessageType → (Response → Shown) → Type 0 → List Response → Option (Shown × Client) → Type 0
IsConcluded type show late rs none = ⊥
IsConcluded type show late rs (some (shown, c)) =
    ((r : Response) × (rest : List Response) × (rs ≡ r ∷ (c.response_queue ++ rest))
      × (is_type type r ≡ true)
      × (shown ≡ show r))
    ⊎ ((c.response_queue ≡ [])
        × (((r : Response) × (rest : List Response) × (rs ≡ r ∷ rest)
              × (is_type type r ≡ false)
              × (shown ≡ wrong_type))
            ⊎ ((shown ≡ request_timeout) × late)))

conclude-IsConcluded :
    (type : MessageType) (show : Response → Shown) (late : Type 0) (rs : List Response)
    (reply : Reply)
    → Ends reply
    → IsOutcome late rs reply
    → IsConcluded type show late rs (conclude type show reply)
conclude-IsConcluded type show late rs (replied r c) ends h = elim (Bool-cases (is_type type r)) [
  | inl right ↦ rw right (inl (r, h.0, h.1, right, refl))
  | inr wrong ↦ rw wrong (
      inr (
        ap (λ (d : Client). d.response_queue) (clear_responses_lem c),
        inl (r, c.response_queue ++ h.0, h.1, wrong, refl),
      ))
]
conclude-IsConcluded type show late rs (timed_out c) ends h = inr (h.0, inr (refl, h.1))
conclude-IsConcluded type show late rs (still c) ends h = absurd ends

send_message-queue :
    (m : RequestMsgT) (c : Client) → (send_message m c).response_queue ≡ c.response_queue
unfolding send_message
send_message-queue m c = ground arith

-- What both commands do, behind the building of the message.
asked-IsConcluded :
    (type : MessageType) (show : Response → Shown) (m : RequestMsgT) (t0 : ℕ) (ps : List Poll)
    (c : Client)
    → HasLate client_req_timeout_ms t0 ps
    → IsConcluded type show
        (Expires client_req_timeout_ms t0 ps c)
        (supply ps c)
        (conclude type show (wait_reply client_req_timeout_ms t0 ps (send_message m c)))
asked-IsConcluded type show m t0 ps c h =
    let c1 = send_message m c in
    let late = Expires client_req_timeout_ms t0 ps c in
    let reply = wait_reply client_req_timeout_ms t0 ps c1 in
    conclude-IsConcluded type show late (supply ps c) reply
      (wait_reply-Ends client_req_timeout_ms t0 ps c1 h)
      (subst
        (λ (l : List Response).
          IsOutcome ((l ≡ []) × IsSilent client_req_timeout_ms t0 ps)
            (l ++ answers (all_arrivals ps)) reply)
        (send_message-queue m c) (wait_reply-IsOutcome client_req_timeout_ms t0 ps c1))

-- If a reading of the clock is more than the timeout behind the start, a transfer ends either with
-- the status of the first response that was queued or arrived, which is then an answer to a
-- transfer, and the queue holds what came behind it so far; or it ends with an empty queue, with
-- the notice of a wrong type if the first response is of another type, or with that of a timeout
-- if none was queued and none had arrived when the clock was past the timeout.
pub transfer-IsConcluded :
    (recv_id amount t0 : ℕ) (ps : List Poll) (c : Client)
    → HasLate client_req_timeout_ms t0 ps
    → IsConcluded transaction_response
        (λ r. status r.succeed)
        (Expires client_req_timeout_ms t0 ps c)
        (supply ps c)
        (transfer recv_id amount t0 ps c)
unfolding transfer send_transaction
transfer-IsConcluded recv_id amount t0 ps c h =
    asked-IsConcluded transaction_response (λ r. status r.succeed)
      (transaction_msg recv_id (Float32.to_u32 amount) 0 c) t0 ps c h

pub check_balance-IsConcluded :
    (t0 : ℕ) (ps : List Poll) (c : Client)
    → HasLate client_req_timeout_ms t0 ps
    → IsConcluded balance_response show_balance
        (Expires client_req_timeout_ms t0 ps c)
        (supply ps c)
        (check_balance t0 ps c)
unfolding check_balance send_balance
check_balance-IsConcluded t0 ps c h =
    asked-IsConcluded balance_response show_balance (balance_msg 0 c) t0 ps c h

-- If the first response in the client's queue is one to an earlier transfer, then the next
-- transfer ends in its first turn with the status of that response, whatever it asks for and
-- whatever arrives.
pub stale_reply :
    (recv_id amount t0 : ℕ) (p : Poll) (ps : List Poll) (c : Client) {r : Response}
    {rs : List Response}
    → c.response_queue ≡ r ∷ rs
    → r.type ≡ transaction_response
    → (c' : Client) × (transfer recv_id amount t0 (p ∷ ps) c ≡ some (status r.succeed, c'))
unfolding transfer send_transaction
stale_reply recv_id amount t0 p ps c {r = r} {rs = rs} e type =
    let m = transaction_msg recv_id (Float32.to_u32 amount) 0 c in
    let c1 = send_message m c in
    let q : (arrive p.arrivals c1).response_queue ≡ r ∷ (rs ++ answers p.arrivals) =
      arrive-queue p.arrivals c1
      ∙ ap (λ (l : List Response). l ++ answers p.arrivals) (send_message-queue m c ∙ e) in
    let left : Client = record (arrive p.arrivals c1) {
      response_queue = rs ++ answers p.arrivals;
    } in
    let mine : is_type transaction_response r ≡ true =
      ap (λ (t : MessageType). elim t [ transaction_response ↦ true | _ ↦ false ]) type in
    (
      left,
      ap (conclude transaction_response (λ r. status r.succeed))
            (turn_reply client_req_timeout_ms t0 p ps c1 q)
          ∙ ap
              (λ (b : Bool).
                some (if b then (status r.succeed, left) else (wrong_type, clear_responses left)))
              mine,
    )
