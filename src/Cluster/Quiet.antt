-- ===== src/Cluster/Quiet.antt =====
-- What a step of a replica does to its mail: to the messages it has received and to those it has
-- sent. `J id m` stands for what is known of a message `m` to the replica `id`.
use blockchain_raft.Base.{
  ℕ, zero, suc, ◌+◌, ◌≡◌, refl, sym, ◌∙◌, Bool, true, false, Option, none, some, List, [], ◌∷◌,
  ◌++◌, ℤ, pos, negsuc, get_or, if◌then◌else◌,
}
use mathlib.Core.Path.{subst}
use blockchain_raft.Parameter.{client_count}
use blockchain_raft.Raft.{ReplicaMsg, no_msg, Response, Request}
use blockchain_raft.Network.{
  Network, replica_send_message, replica_pop_message, client_pop_request, client_send_one,
  client_send_all, client_send_message,
}
use blockchain_raft.Network.Wire.{IsSendable, arrived, deliveries}
use blockchain_raft.Network.Queues.{replica_send_message-queue}
use blockchain_raft.Server.{Server, leader, follower, set_state}
use blockchain_raft.Cluster.Mail.{All, IsReached, sends-All}

module _ (J : ℕ → ReplicaMsg → Type 0) where
  abbrev pub Mail : ℕ × ReplicaMsg → Type 0
  Mail (id, m) = J id m

  -- Of two states of the network of replica `i`.
  pub record Carried (i : ℕ) (n n' : Network) : Type 0 where
    pub queue : All (J i) n.replica_msg_queue → All (J i) n'.replica_msg_queue
    pub sent : All Mail (deliveries n) → All Mail (deliveries n')

  pub Carried-refl : (i : ℕ) (n : Network) → Carried i n n
  Carried-refl i n = record { queue = λ h. h; sent = λ h. h }

  pub Carried-trans :
      (i : ℕ) (n n1 n2 : Network) → Carried i n n1 → Carried i n1 n2 → Carried i n n2
  Carried-trans i n n1 n2 h k = record {
    queue = λ q. k.queue (h.queue q);
    sent = λ q. k.sent (h.sent q);
  }

  pub send-Carried :
      (i self : ℕ) (msg : ReplicaMsg) (to : ℤ) (n : Network)
      → IsSendable msg
      → ((id : ℕ) → IsReached self to id → J id (arrived msg))
      → Carried i n (replica_send_message self msg to n)
  send-Carried i self msg to n fits h = record {
    queue = λ q. subst (All (J i)) (sym (replica_send_message-queue self msg to n)) q;
    sent = λ q. sends-All Mail self msg to n fits h q;
  }

  pop_cases :
      (i : ℕ) (q : List ReplicaMsg) (n : Network)
      → (All (J i) n.replica_msg_queue → All (J i) q)
      → Carried i n
          (elim q as (λ _. ReplicaMsg × Network) [
            | [] ↦ (no_msg, n)
            | m ∷ ms ↦ (m, record n { replica_msg_queue = ms })
          ]).1
  pop_cases i [] n h = Carried-refl i n
  pop_cases i (m ∷ ms) n h = record { queue = λ q. (h q).1; sent = λ q. q }

  pub pop-Carried : (i : ℕ) (n : Network) → Carried i n (replica_pop_message n).1
  unfolding replica_pop_message
  pop-Carried i n = pop_cases i n.replica_msg_queue n (λ q. q)

  -- What is done for the clients.
  request_cases :
      (i : ℕ) (q : List Request) (n : Network)
      → Carried i n
          (elim q as (λ _. Option Request × Network) [
            | [] ↦ (none, n)
            | r ∷ rs ↦ (some r, record n { client_req_queue = rs })
          ]).1
  request_cases i [] n = Carried-refl i n
  request_cases i (r ∷ rs) n = record { queue = λ q. q; sent = λ q. q }

  pub request-Carried : (i : ℕ) (n : Network) → Carried i n (client_pop_request n).1
  unfolding client_pop_request
  request-Carried i n = request_cases i n.client_req_queue n

  respond_cases :
      (i id : ℕ) (r : Response) (b : Bool) (n : Network)
      → Carried i n (if b then record n { client_out = n.client_out ++ (id, r) ∷ [] } else n)
  respond_cases i id r true n = record { queue = λ q. q; sent = λ q. q }
  respond_cases i id r false n = Carried-refl i n

  respond_one-Carried :
      (i id : ℕ) (r : Response) (n : Network) → Carried i n (client_send_one r id n)
  unfolding client_send_one
  respond_one-Carried i id r n = respond_cases i id r (get_or n.connected id false) n

  respond_all-Carried :
      (i k id : ℕ) (r : Response) (n : Network) → Carried i n (client_send_all k id r n)
  unfolding client_send_all
  respond_all-Carried i zero id r n = Carried-refl i n
  respond_all-Carried i (suc k) id r n =
      let n1 = client_send_one r id n in
      Carried-trans i n n1 (client_send_all k (id + 1) r n1) (respond_one-Carried i id r n)
        (respond_all-Carried i k (id + 1) r n1)

  pub respond-Carried :
      (i : ℕ) (r : Response) (to : ℤ) (n : Network) → Carried i n (client_send_message r to n)
  unfolding client_send_message
  respond-Carried i r (pos id) n = respond_one-Carried i id r n
  respond-Carried i r (negsuc zero) n = respond_all-Carried i client_count 0 r n
  respond-Carried i r (negsuc (suc k)) n = Carried-refl i n

  -- Of two states of a server: its mail as above, its id the same, and no promotion to leader.
  pub record Quiet (i : ℕ) (s s' : Server) : Type 0 where
    pub same_id : s'.id ≡ s.id
    pub not_promoted : s'.next_state ≡ some leader → s.next_state ≡ some leader
    pub carried : Carried i s.network s'.network

  pub Quiet-trans : (i : ℕ) (s t u : Server) → Quiet i s t → Quiet i t u → Quiet i s u
  Quiet-trans i s t u h k = record {
    same_id = k.same_id ∙ h.same_id;
    not_promoted = λ e. h.not_promoted (k.not_promoted e);
    carried = Carried-trans i s.network t.network u.network h.carried k.carried;
  }

  -- A step that changes the network only.
  pub network-Quiet :
      (i : ℕ) (s : Server) (n : Network)
      → Carried i s.network n
      → Quiet i s (record s { network = n })
  network-Quiet i s n h = record { same_id = refl; not_promoted = λ e. e; carried = h }

  pub Quiet-refl : (i : ℕ) (s : Server) → Quiet i s s
  Quiet-refl i s = network-Quiet i s s.network (Carried-refl i s.network)

  pub step_down-Quiet : (i : ℕ) (s : Server) → Quiet i s (set_state follower s)
  unfolding set_state
  step_down-Quiet i s = record {
    same_id = refl;
    not_promoted = λ e. cc;
    carried = Carried-refl i s.network;
  }
