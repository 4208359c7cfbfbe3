-- ===== src/Cluster/Safe.antt =====
-- What the votes of a cluster say of one replica, and that its own steps keep it.
use blockchain_raft.Base.{
  ℕ, ◌+◌, ◌<◌, ◌≡◌, refl, sym, ap, ◌∙◌, Option, none, some, pos, OnOk-eq, arith, int_max_suc,
  u32_mod,
}
use mathlib.Core.Path.{subst}
use blockchain_raft.Parameter.{server_count}
use blockchain_raft.Msg.{Extern}
use blockchain_raft.Raft.{AppendEntryRpc, app_entr_rpc}
use blockchain_raft.Network.Wire.{deliveries}
use blockchain_raft.Server.{Server, Role, leader, run_state, increment_term}
use blockchain_raft.Follower.Vote.{VoteKept, SameVote, SameVote-VoteKept}
use blockchain_raft.Follower.Rounds.{follower_round-VoteKept}
use blockchain_raft.Candidate.{start_election, candidate_round}
use blockchain_raft.Candidate.Election.{start_election-VoteKept, candidate_round-VoteKept}
use blockchain_raft.Leader.Votes.{
  start_leading-SameVote, main_round-SameVote, begin_request-SameVote, wait_round-SameVote,
  finish_request-SameVote,
}
use blockchain_raft.Leader.Main.{start_leading}
use blockchain_raft.Cluster.Mail.{All}
use blockchain_raft.Cluster.Quiet.{Mail, Quiet}
use blockchain_raft.Cluster.Just.{Ballots, IsJust, HasBacker}
use blockchain_raft.Cluster.Leads.{
  IsAtTerm, start_leading-Quiet, main_round-Quiet, begin_request-Quiet,
}
use blockchain_raft.Cluster.Waits.{wait_round-Quiet, finish_request-Quiet}
use blockchain_raft.Cluster.Grants.{IsCast, follower_round-Quiet}
use blockchain_raft.Cluster.Campaigns.{IsBacked, start_election-Quiet, candidate_round-Campaigned}
use blockchain_raft.Cluster.{
  Phase, following, leading, campaigning, LocalStep, follows, enters, stands, campaigns, leads,
  rules, begins, waits_on, answers,
}

-- The replica has its own vote and another one.
abbrev pub HasWon : Ballots → ℕ → Server → Type 0
HasWon votes i s = (s.voted_candidate ≡ pos i) × HasBacker votes i s.curr_term

abbrev pub IsPhase : Ballots → ℕ → Phase → Server → Type 0
IsPhase votes i following s = s.next_state ≡ some leader → ⊥
IsPhase votes i (campaigning count) s = (s.voted_candidate ≡ pos i) × IsBacked votes i count s
IsPhase votes i leading s = HasWon votes i s

pub record IsSafe (votes : Ballots) (i : ℕ) (p : Phase) (s : Server) : Type 0 where
  pub own_id : s.id ≡ i
  pub queue : All (IsJust votes i) s.network.replica_msg_queue
  pub sent : All (Mail (IsJust votes)) (deliveries s.network)
  pub in_phase : IsPhase votes i p s

run_state_lem :
    (curr : Option Role) (s : Server) {r : Role}
    → s.next_state ≡ some r
    → (run_state curr s).1 ≡ record s { next_state = none }
unfolding run_state
run_state_lem curr s e = rw (e, run_state) refl

none_leads : none ≡ some leader → ⊥
none_leads e = cc

-- The server whose next state begins.
abbrev next_run : Server → Server
next_run s = record s { next_state = none }

next_run-VoteKept : (s t : Server) → VoteKept (next_run s) t → VoteKept s t
next_run-VoteKept s t k = record { term_grows = k.term_grows; vote_stays = k.vote_stays }

module _ {x : Extern} where
  pub LocalStep-VoteKept :
      {p : Phase} {s : Server} {p' : Phase} {s' : Server}
      → LocalStep x p s p' s'
      → s.curr_term + 1 < u32_mod
      → VoteKept s s'
  LocalStep-VoteKept (follows timeout last curr now s r e) h =
      follower_round-VoteKept x timeout last curr now s e
  LocalStep-VoteKept (enters p curr s e) h =
      rw (run_state_lem curr s e) (SameVote-VoteKept s (next_run s) (refl, refl))
  LocalStep-VoteKept (stands p curr s e) h =
      rw (run_state_lem curr s e) (next_run-VoteKept s _ (start_election-VoteKept (next_run s) h).0)
  LocalStep-VoteKept (campaigns timeout start curr count s) h =
      candidate_round-VoteKept timeout start curr count s
  LocalStep-VoteKept (leads p curr s e) h =
      rw (run_state_lem curr s e) (SameVote-VoteKept s _ (start_leading-SameVote (next_run s)))
  LocalStep-VoteKept (rules last curr now next s) h =
      SameVote-VoteKept s _ (main_round-SameVote last curr now next s)
  LocalStep-VoteKept (begins draws now r s b e) h =
      SameVote-VoteKept s _ (OnOk-eq _ _ (begin_request-SameVote x draws now r s) e)
  LocalStep-VoteKept (waits_on curr now w r e) h =
      SameVote-VoteKept w.server _ (OnOk-eq _ _ (wait_round-SameVote curr now w) e)
  LocalStep-VoteKept (answers committed r s s' e) h =
      SameVote-VoteKept s s' (OnOk-eq _ _ (finish_request-SameVote committed r s) e)

module _ (votes : Ballots) (i : ℕ) where
  HasWon-SameVote : (s s' : Server) → SameVote s s' → HasWon votes i s → HasWon votes i s'
  HasWon-SameVote s s' same won = (same.1 ∙ won.0, subst (HasBacker votes i) (sym same.0) won.1)

  -- A quiet step leads to a phase that its server is in.
  step-IsSafe :
      (p p' : Phase) (s s' : Server)
      → Quiet (IsJust votes) i s s'
      → IsSafe votes i p s
      → IsPhase votes i p' s'
      → IsSafe votes i p' s'
  step-IsSafe p p' s s' q h phase = record {
    own_id = q.same_id ∙ h.own_id;
    queue = q.carried.queue h.queue;
    sent = q.carried.sent h.sent;
    in_phase = phase;
  }

  leading-IsSafe :
      (s s' : Server)
      → Quiet (IsJust votes) i s s'
      → SameVote s s'
      → IsSafe votes i leading s
      → IsSafe votes i leading s'
  leading-IsSafe s s' q same h =
      step-IsSafe leading leading s s' q h (HasWon-SameVote s s' same h.in_phase)

  -- The next state begins, whatever its phase.
  next_run-IsSafe :
      (p : Phase) (s : Server) → IsSafe votes i p s → IsSafe votes i following (next_run s)
  next_run-IsSafe p s h = record {
    own_id = h.own_id;
    queue = h.queue;
    sent = h.sent;
    in_phase = λ e. cc;
  }

  -- A replica that is to lead has won.
  promoted-HasWon :
      (p : Phase) (s : Server) → IsPhase votes i p s → s.next_state ≡ some leader → HasWon votes i s
  promoted-HasWon following s h e = absurd (h e)
  promoted-HasWon leading s h e = h
  promoted-HasWon (campaigning count) s h e = (h.0, h.1.1 e)

module _ (votes : Ballots) (i : ℕ) (inside : i < server_count) where
  own_small : (s : Server) → s.id ≡ i → s.id < int_max_suc
  own_small s e = omega (arith, e, inside)

  stands-IsSafe :
      (s : Server)
      → s.curr_term + 1 < u32_mod
      → IsSafe votes i following s
      → s.next_state ≡ none
      → IsSafe votes i (campaigning (start_election s).vote_count) (start_election s).server
  unfolding start_election increment_term
  stands-IsSafe s bound h idle =
      step-IsSafe votes i following (campaigning 1) s (start_election s).server
        (start_election-Quiet votes i s (own_small s h.own_id)) h
        (
          (start_election-VoteKept s bound).1 ∙ ap pos h.own_id,
          ((λ two. absurd (omega (arith, two))), λ e. absurd (none_leads (sym idle ∙ e))),
        )

  -- The messages of a leader whose vote is on record are just.
  abbrev Announces : Server → Type 0
  Announces s =
      (id : ℕ) (r : AppendEntryRpc)
      → r.leader_id ≡ pos i
      → r.term ≡ s.curr_term
      → IsJust votes id (app_entr_rpc r)

  winner-IsJust :
      (s : Server) → votes i s.curr_term ≡ pos i → HasBacker votes i s.curr_term → Announces s
  winner-IsJust s own backer id r named now =
      (i, named, inside, ap (votes i) now ∙ own, subst (HasBacker votes i) (sym now) backer)

  own_vote :
      (s s' : Server)
      → SameVote s s'
      → votes i s'.curr_term ≡ s'.voted_candidate
      → HasWon votes i s
      → votes i s.curr_term ≡ pos i
  own_vote s s' same cast won = ap (votes i) (sym same.0) ∙ cast ∙ same.1 ∙ won.0

  leads-IsSafe :
      (s : Server)
      → IsSafe votes i following s
      → HasWon votes i s
      → votes i (start_leading s).curr_term ≡ (start_leading s).voted_candidate
      → IsSafe votes i leading (start_leading s)
  leads-IsSafe s h won cast =
      let same = start_leading-SameVote s in
      let just = winner-IsJust s (own_vote s (start_leading s) same cast won) won.1 in
      step-IsSafe votes i following leading s (start_leading s)
        (start_leading-Quiet (IsJust votes) i s.curr_term inside just s (h.own_id, refl)) h
        (HasWon-SameVote votes i s (start_leading s) same won)

  -- A step of a leader that keeps its term and its vote, on the ground that its messages are just.
  ruled-IsSafe :
      (s s' : Server)
      → SameVote s s'
      → votes i s'.curr_term ≡ s'.voted_candidate
      → IsSafe votes i leading s
      → (Announces s → IsAtTerm i s.curr_term s → Quiet (IsJust votes) i s s')
      → IsSafe votes i leading s'
  ruled-IsSafe s s' same cast h quiet =
      let just = winner-IsJust s (own_vote s s' same cast h.in_phase) h.in_phase.1 in
      leading-IsSafe votes i s s' (quiet just (h.own_id, refl)) same h

module _ {x : Extern} (votes : Ballots) (i : ℕ) (inside : i < server_count) where
  -- A step of a replica whose vote is on record keeps what is known of it.
  pub LocalStep-IsSafe :
      {p : Phase} {s : Server} {p' : Phase} {s' : Server}
      → LocalStep x p s p' s'
      → s.curr_term + 1 < u32_mod
      → IsCast votes x i inside s'
      → IsSafe votes i p s
      → IsSafe votes i p' s'
  LocalStep-IsSafe (follows timeout last curr now s r e) bound cast h =
      let q =
        OnOk-eq _ _ (follower_round-Quiet votes x i inside timeout last curr now s h.own_id h.queue)
          e cast in
      step-IsSafe votes i following following s r.server q h
        (λ promoted. h.in_phase (q.not_promoted promoted))
  LocalStep-IsSafe (enters p curr s e) bound cast h =
      rw (run_state_lem curr s e) (next_run-IsSafe votes i p s h)
  LocalStep-IsSafe (stands p curr s e) bound cast h =
      rw (run_state_lem curr s e)
        (stands-IsSafe votes i inside (next_run s) bound (next_run-IsSafe votes i p s h) refl)
  LocalStep-IsSafe (campaigns timeout start curr count s) bound cast h =
      let r = candidate_round timeout start curr count s in
      let c = candidate_round-Campaigned votes i timeout start curr count s h.queue in
      record {
        own_id = c.same_id ∙ h.own_id;
        queue = c.carried.queue h.queue;
        sent = c.carried.sent h.sent;
        in_phase = (c.same_vote.1 ∙ h.in_phase.0, c.backed h.in_phase.1);
      }
  LocalStep-IsSafe (leads p curr s e) bound cast h =
      let (mine, backer) = promoted-HasWon votes i p s h.in_phase e in
      let cast1 =
        subst
          (λ (t : Server). votes i (start_leading t).curr_term ≡ (start_leading t).voted_candidate)
          (run_state_lem curr s e) cast in
      rw (run_state_lem curr s e) (
        leads-IsSafe votes i inside (next_run s) (next_run-IsSafe votes i p s h) (mine, backer)
          cast1)
  LocalStep-IsSafe (rules last curr now next s) bound cast h =
      ruled-IsSafe votes i inside s _ (main_round-SameVote last curr now next s) cast h
        (λ just at_term.
          main_round-Quiet (IsJust votes) i s.curr_term inside just last curr now next s at_term)
  LocalStep-IsSafe (begins draws now r s b e) bound cast h =
      ruled-IsSafe votes i inside s _ (OnOk-eq _ _ (begin_request-SameVote x draws now r s) e) cast
        h
        (λ just at_term.
          OnOk-eq _ _
            (begin_request-Quiet (IsJust votes) i s.curr_term inside just x draws now r s at_term)
            e)
  LocalStep-IsSafe (waits_on curr now w r e) bound cast h =
      ruled-IsSafe votes i inside w.server _ (OnOk-eq _ _ (wait_round-SameVote curr now w) e) cast h
        (λ just at_term.
          OnOk-eq _ _
            (wait_round-Quiet (IsJust votes) i w.server.curr_term inside just curr now w at_term) e)
  LocalStep-IsSafe (answers committed r s s' e) bound cast h =
      ruled-IsSafe votes i inside s s' (OnOk-eq _ _ (finish_request-SameVote committed r s) e) cast
        h
        (λ just at_term.
          OnOk-eq _ _ (finish_request-Quiet (IsJust votes) i s.curr_term inside just committed r s)
            e)
