-- ===== src/Client/Queue.antt =====
-- The queue of responses of the client: what reaches it, and how it is emptied.
use blockchain_raft.Base.{
  suc, ◌≡◌, refl, sym, ap, ◌∙◌, ◌⊎◌, inl, inr, true, List, [], ◌∷◌, ◌++◌, append-nil, lt→ltb,
  append_assoc, length, arith, ltb,
}
use blockchain_raft.Msg.{ResponseMsgT}
use blockchain_raft.Network.{field_or}
use blockchain_raft.Raft.{
  Response, MessageType, transaction_request, balance_request, transaction_response,
  balance_response, leader_change, other_type, type_of_number,
}
use blockchain_raft.Client.{
  Client, set_leader_id, response_queue_push, response_queue_pop, response_queue_get_count,
  received, recv_typed, recv_response, arrive, clear_rounds, clear_responses,
}

-- What the queue may hold: an answer to one of the two requests; only a balance has an amount.
abbrev pub IsAnswer : Response → Type 0
IsAnswer r = ((r.type ≡ transaction_response) × (r.balance ≡ 0)) ⊎ (r.type ≡ balance_response)

abbrev pub AllAnswers : List Response → Type 0
AllAnswers [] = Unit
AllAnswers (r ∷ rs) = IsAnswer r × AllAnswers rs

-- What arrives of a message for the queue.
abbrev pub queued : MessageType → ResponseMsgT → List Response
queued transaction_response m = received transaction_response m ∷ []
queued balance_response m =
    record (received balance_response m) { balance = field_or 0 m.balance } ∷ []
queued _ m = []

recv_typed-queue :
    (type : MessageType) (m : ResponseMsgT) (c : Client)
    → (recv_typed type m c).response_queue ≡ c.response_queue ++ queued type m
unfolding recv_typed response_queue_push set_leader_id
recv_typed-queue leader_change m c = sym (append-nil c.response_queue)
recv_typed-queue transaction_response m c = refl
recv_typed-queue balance_response m c = refl
recv_typed-queue transaction_request m c = sym (append-nil c.response_queue)
recv_typed-queue balance_request m c = sym (append-nil c.response_queue)
recv_typed-queue (other_type n) m c = sym (append-nil c.response_queue)

queued-AllAnswers : (type : MessageType) (m : ResponseMsgT) → AllAnswers (queued type m)
queued-AllAnswers leader_change m = tt
queued-AllAnswers transaction_response m = (inl (refl, refl), tt)
queued-AllAnswers balance_response m = (inr refl, tt)
queued-AllAnswers transaction_request m = tt
queued-AllAnswers balance_request m = tt
queued-AllAnswers (other_type n) m = tt

pub AllAnswers-append :
    (rs qs : List Response) → AllAnswers rs → AllAnswers qs → AllAnswers (rs ++ qs)
AllAnswers-append [] qs h k = k
AllAnswers-append (r ∷ rs) qs h k = (h.0, AllAnswers-append rs qs h.1 k)

-- The responses that a sequence of messages puts into the queue.
abbrev pub answers : List ResponseMsgT → List Response
answers [] = []
answers (m ∷ ms) = queued (type_of_number m.type) m ++ answers ms

pub answers-AllAnswers : (ms : List ResponseMsgT) → AllAnswers (answers ms)
answers-AllAnswers [] = tt
answers-AllAnswers (m ∷ ms) =
    AllAnswers-append (queued (type_of_number m.type) m) (answers ms)
      (queued-AllAnswers (type_of_number m.type) m) (answers-AllAnswers ms)

pub arrive-queue :
    (ms : List ResponseMsgT) (c : Client)
    → (arrive ms c).response_queue ≡ c.response_queue ++ answers ms
unfolding recv_response
arrive-queue [] c = sym (append-nil c.response_queue)
arrive-queue (m ∷ ms) c =
    arrive-queue ms (recv_response m c)
    ∙ ap (λ (l : List Response). l ++ answers ms) (recv_typed-queue (type_of_number m.type) m c)
    ∙ append_assoc c.response_queue (queued (type_of_number m.type) m) (answers ms)

pub arrive-AllAnswers :
    (ms : List ResponseMsgT) (c : Client)
    → AllAnswers c.response_queue
    → AllAnswers (arrive ms c).response_queue
arrive-AllAnswers ms c h =
    rw (arrive-queue ms c)
      (AllAnswers-append c.response_queue (answers ms) h (answers-AllAnswers ms))

abbrev with_queue : List Response → Client → Client
with_queue rs c = record c { response_queue = rs }

clear_rounds_lem :
    (rs : List Response) (c : Client) → clear_rounds (length rs) (with_queue rs c) ≡ with_queue [] c
unfolding clear_rounds response_queue_get_count response_queue_pop
clear_rounds_lem [] c = refl
clear_rounds_lem (r ∷ rs) c =
    let positive : ltb 0 (suc (length rs)) ≡ true = lt→ltb 0 (suc (length rs)) (omega arith) in
    rw positive (clear_rounds_lem rs c)

-- The loop that clears the queue removes every response and changes nothing else.
pub clear_responses_lem : (c : Client) → clear_responses c ≡ record c { response_queue = [] }
unfolding clear_responses response_queue_get_count
clear_responses_lem c = clear_rounds_lem c.response_queue c
