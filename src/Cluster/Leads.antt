-- ===== src/Cluster/Leads.antt =====
-- The rounds of `LeaderState::run` send append messages only.
use blockchain_raft.Base.{
  ℕ, ap, ◌∙◌, ◌≡◌, arith, zero, suc, ◌+◌, ◌-◌, ◌<◌, ◌≡◌, refl, sym, Bool, true, false, Option, none,
  some, List, [], ◌∷◌, ℤ, pos, negsuc, ◌+ℤ◌, leb, ◌==◌, if◌then◌else◌, IsInt, ok, OnOk, OnOk->>=,
  OnOk-map, OnOk-any, OnOk-if,
}
use mathlib.Core.Path.{subst}
use blockchain_raft.Parameter.{server_count, heartbeat_period_ms}
use blockchain_raft.Msg.{Extern}
use blockchain_raft.Chain.{add_transaction, get_last_index, get_last_term}
use blockchain_raft.Raft.{ReplicaMsg, AppendEntryRpc, app_entr_rpc, Request}
use blockchain_raft.Network.{Network, replica_pop_message, client_pop_request}
use blockchain_raft.Server.{Server, follower, set_state}
use blockchain_raft.Leader.Main.{
  send, heartbeat, send_heartbeat, announcement, start_leading, append_msg, entries_from,
  send_entries, requested, begin_request, MainRound, beats, steps_down, idles, takes, note_message,
  main_message, take_request, main_round,
}
use blockchain_raft.Leader.Votes.{begun_server, main_server, option_cases}
use blockchain_raft.Cluster.Quiet.{
  Quiet, Quiet-refl, Quiet-trans, network-Quiet, step_down-Quiet, Carried, Carried-trans,
  send-Carried, pop-Carried, request-Carried, respond-Carried,
}

-- Replica `i`, in that term.
abbrev pub IsAtTerm : ℕ → ℕ → Server → Type 0
IsAtTerm i term s = (s.id ≡ i) × (s.curr_term ≡ term)

module _ (J : ℕ → ReplicaMsg → Type 0) (i term : ℕ) (inside : i < server_count)
    (append : (id : ℕ) (r : AppendEntryRpc)
      → r.leader_id ≡ pos i
      → r.term ≡ term
      → J id (app_entr_rpc r)) where
  pub send-Quiet :
      (r : AppendEntryRpc) (to : ℤ) (s : Server)
      → r.leader_id ≡ pos s.id
      → r.term ≡ s.curr_term
      → IsAtTerm i term s
      → Quiet J i s (send (app_entr_rpc r) to s)
  send-Quiet r to s leader same at_term =
      let id : r.leader_id ≡ pos i = leader ∙ ap pos at_term.0 in
      network-Quiet J i s _ (
        send-Carried J i s.id (app_entr_rpc r) to s.network
          (subst IsInt (sym id) (omega (arith, inside))) (λ k _. append k _ id (same ∙ at_term.1)))

  send_heartbeat-Quiet : (s : Server) → IsAtTerm i term s → Quiet J i s (send_heartbeat s)
  unfolding send_heartbeat
  send_heartbeat-Quiet s at_term = send-Quiet (heartbeat s) (negsuc 0) s refl refl at_term

  pub start_leading-Quiet : (s : Server) → IsAtTerm i term s → Quiet J i s (start_leading s)
  unfolding start_leading
  start_leading-Quiet s at_term =
      let s0 = record s { curr_leader = s.id } in
      let s1 = send_heartbeat s0 in
      let h = send_heartbeat-Quiet s0 at_term in
      record {
        same_id = h.same_id;
        not_promoted = h.not_promoted;
        carried =
            Carried-trans J i s.network s1.network _ h.carried
              (respond-Carried J i (announcement s) (negsuc 0) s1.network);
      }

  -- One sending, behind which the replica is still in that term.
  StillAt : Server → Server → Type 0
  StillAt s s' = Quiet J i s s' × IsAtTerm i term s'

  send_entries-Quiet :
      (n k prev_term : ℕ) (index : ℤ) (s : Server)
      → IsAtTerm i term s
      → OnOk (Quiet J i s) (send_entries n k prev_term index s)
  unfolding send_entries StillAt
  send_entries-Quiet zero k prev_term index s at_term = Quiet-refl J i s
  send_entries-Quiet (suc n) k prev_term index s at_term =
      OnOk->>= (StillAt s) (Quiet J i s) _ (send_entries n (k + 1) prev_term index)
        (OnOk-if (StillAt s) (k == s.id) (ok s) _ (λ _. (Quiet-refl J i s, at_term))
          (λ _.
            OnOk->>= (λ _. Unit {0}) (StillAt s) (entries_from (index +ℤ pos 1) s.bc_log) _
              (OnOk-any (entries_from (index +ℤ pos 1) s.bc_log))
              (λ es _. (
                send-Quiet (append_msg prev_term index es s) (pos k) s refl refl at_term,
                at_term,
              ))))
        (λ s1 h.
          OnOk-map (Quiet J i s1) (Quiet J i s) (send_entries n (k + 1) prev_term index s1)
            (send_entries-Quiet n (k + 1) prev_term index s1 h.1)
            (λ s2 q. Quiet-trans J i s s1 s2 h.0 q))

  pub begin_request-Quiet :
      (x : Extern) (draws : List ℕ) (now : ℕ) (r : Request) (s : Server)
      → IsAtTerm i term s
      → OnOk (λ b. Quiet J i s (begun_server s b)) (begin_request x draws now r s)
  unfolding begin_request begun_server
  begin_request-Quiet x draws now r s at_term =
      option_cases (λ b. Quiet J i s (begun_server s b)) (requested r) _ _ (Quiet-refl J i s)
        (λ txn.
          option_cases (λ b. Quiet J i s (begun_server s b))
            (add_transaction x draws s.curr_term txn s.bc_log) _ _ (Quiet-refl J i s)
            (λ bc.
              let s0 = record s { bc_log = bc } in
              OnOk->>= (Quiet J i s0) (λ b. Quiet J i s (begun_server s b))
                (send_entries server_count 0 (get_last_term s.bc_log) (get_last_index s.bc_log) s0)
                _
                (send_entries-Quiet server_count 0 (get_last_term s.bc_log)
                  (get_last_index s.bc_log) s0 at_term)
                (λ s1 h. record {
                  same_id = h.same_id;
                  not_promoted = h.not_promoted;
                  carried = h.carried;
                })))

  message_cases :
      (q : List ReplicaMsg) (o : Option (List ℤ)) (next : List ℤ) (s s1 : Server)
      → Quiet J i s s1
      → Quiet J i s (
          main_server (elim q as (λ _. MainRound) [
            | [] ↦ idles s next
            | _ ∷ _ ↦ elim o as (λ _. MainRound) [
              | none ↦ steps_down (set_state follower s1)
              | some next' ↦ idles s1 next'
            ]
          ]))
  unfolding main_server
  message_cases [] o next s s1 h = Quiet-refl J i s
  message_cases (m ∷ ms) none next s s1 h =
      Quiet-trans J i s s1 (set_state follower s1) h (step_down-Quiet J i s1)
  message_cases (m ∷ ms) (some next') next s s1 h = h

  main_message-Quiet :
      (next : List ℤ) (s : Server) → Quiet J i s (main_server (main_message next s))
  unfolding main_message
  main_message-Quiet next s =
      let (msg, n) = replica_pop_message s.network in
      let s1 = record s { network = n } in
      message_cases s.network.replica_msg_queue (note_message msg next s1) next s s1
        (network-Quiet J i s n (pop-Carried J i s.network))

  request_cases :
      (o : Option Request) (next : List ℤ) (s : Server) (n : Network)
      → Carried J i s.network n
      → Quiet J i s (
          main_server (elim o as (λ _. MainRound) [
            | none ↦ idles s next
            | some r ↦ takes r (record s { network = n })
          ]))
  unfolding main_server
  request_cases none next s n h = Quiet-refl J i s
  request_cases (some r) next s n h = network-Quiet J i s n h

  take_request-Quiet :
      (s : Server) (m : MainRound)
      → Quiet J i s (main_server m)
      → Quiet J i s (main_server (take_request m))
  unfolding main_server
  take_request-Quiet s (beats s1 now) h = h
  take_request-Quiet s (steps_down s1) h = h
  take_request-Quiet s (idles s1 next) h =
      let (front, n) = client_pop_request s1.network in
      Quiet-trans J i s s1 _ h (request_cases front next s1 n (request-Carried J i s1.network))
  take_request-Quiet s (takes r s1) h = h

  round_cases :
      (b : Bool) (s : Server) (r t : MainRound)
      → Quiet J i s (main_server r)
      → Quiet J i s (main_server t)
      → Quiet J i s (main_server (if b then r else t))
  round_cases true s r t h k = h
  round_cases false s r t h k = k

  pub main_round-Quiet :
      (last curr now : ℕ) (next : List ℤ) (s : Server)
      → IsAtTerm i term s
      → Quiet J i s (main_server (main_round last curr now next s))
  unfolding main_round main_server
  main_round-Quiet last curr now next s at_term =
      round_cases (leb heartbeat_period_ms (curr - last)) s (beats (send_heartbeat s) now)
        (take_request (main_message next s)) (send_heartbeat-Quiet s at_term)
        (take_request-Quiet s (main_message next s) (main_message-Quiet next s))
