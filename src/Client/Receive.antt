-- ===== src/Client/Receive.antt =====
-- `recv_handler` of client.cpp against the messages that a connection carries.
use blockchain_raft.Base.{
  ℕ, ◌≡◌, inl, inr, refl, ap, ◌∙◌, Bool, true, false, List, [], ◌∷◌, get_or, if◌then◌else◌, map,
}
use blockchain_raft.Frame.{Frame, Read, read_body, Read-cases, accepted, is_lost}
use blockchain_raft.Msg.{ResponseMsgT}
use blockchain_raft.Raft.{
  MessageType, transaction_request, balance_request, transaction_response, balance_response,
  leader_change, other_type, type_of_number,
}
use blockchain_raft.Client.{
  Client, set_leader_id, response_queue_push, recv_typed, recv_response, lose_server, recv_handler,
  arrive,
}

abbrev pub reads : List (Frame ResponseMsgT) → List (Read ResponseMsgT)
reads fs = map read_body fs

recv_typed-connected :
    (type : MessageType) (m : ResponseMsgT) (c : Client)
    → (recv_typed type m c).connected ≡ c.connected
unfolding recv_typed response_queue_push set_leader_id
recv_typed-connected leader_change m c = refl
recv_typed-connected transaction_response m c = refl
recv_typed-connected balance_response m c = refl
recv_typed-connected transaction_request m c = refl
recv_typed-connected balance_request m c = refl
recv_typed-connected (other_type n) m c = refl

pub recv_response-connected :
    (m : ResponseMsgT) (c : Client) → (recv_response m c).connected ≡ c.connected
unfolding recv_response
recv_response-connected m c = recv_typed-connected (type_of_number m.type) m c

-- On a connection that is up, the receiving thread of the client handles the messages that are
-- read whole before the connection is lost, in their order, and marks the server as not connected
-- exactly if it is lost.
pub recv_handler-arrive :
    (i : ℕ) (fs : List (Frame ResponseMsgT)) (c : Client)
    → get_or c.connected i false ≡ true
    → recv_handler i fs c ≡ (
        let c' = arrive (accepted (reads fs)) c in
        if is_lost (reads fs) then lose_server i c' else c')
unfolding recv_handler
recv_handler-arrive i [] c h = rw h
recv_handler-arrive i (f ∷ fs) c h = elim (Read-cases (read_body f)) [
  | inl e ↦ rw (h, e) refl
  | inr (inl e) ↦ rw (h, e) (recv_handler-arrive i fs c h)
  | inr (inr (m, e)) ↦
      rw (h, e)
        (recv_handler-arrive i fs (recv_response m c)
          (ap (λ (l : List Bool). get_or l i false) (recv_response-connected m c) ∙ h))
]
