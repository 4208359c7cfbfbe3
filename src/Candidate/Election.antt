-- ===== src/Candidate/Election.antt =====
-- The votes that `CandidateState::run` counts, and its own term and vote.
use blockchain_raft.Base.{
  ℕ, ◌+◌, ◌≤◌, ◌<◌, ◌≡◌, ◌↔◌, refl, true, false, Bool, false, some, List, [], ◌∷◌, ◌++◌, arith,
  ◌==◌, ◌&&◌, u32_mod, if◌then◌else◌, inl, inr, Bool-cases, ◌%◌, pos,
}
use mathlib.Core.Path.{subst}
use blockchain_raft.Raft.{
  RequestVoteReply, ReplicaMsg, req_vote_rpl, req_vote_rpc, app_entr_rpc, app_entr_rpl, no_msg,
  other,
}
use blockchain_raft.Network.{replica_pop_message}
use blockchain_raft.Server.{Server, leader, increment_term, set_state}
use blockchain_raft.Follower.Vote.{VoteKept, VoteKept-refl}
use blockchain_raft.Candidate.{
  Round, Turn, arrive, start_election, handle_message, candidate_round, candidate_run,
}

-- The reply gives its vote in the candidate's term.
abbrev pub IsGrant : RequestVoteReply → Server → Type 0
IsGrant reply s = (reply.term ≡ s.curr_term) × (reply.vote_granted ≡ true)

-- The run is over, and the replica is to lead.
abbrev pub IsWon : Round → Type 0
IsWon r = (r.returns ≡ true) × (r.server.next_state ≡ some leader)

-- A vote reply makes a candidate the leader exactly if it grants the vote in the candidate's term
-- and makes two votes or more.
pub IsWon-iff :
    (reply : RequestVoteReply) (votes : ℕ) (s : Server)
    → IsWon (handle_message (req_vote_rpl reply) votes s) ↔ (IsGrant reply s × (2 ≤ votes + 1))
unfolding handle_message set_state
IsWon-iff reply votes s = ground arith

-- The votes of a term among some messages.
unfoldable pub grants : ℕ → List ReplicaMsg → ℕ
grants term [] = 0
grants term (req_vote_rpl r ∷ ms) =
    let rest = grants term ms in if (r.term == term) && r.vote_granted then rest + 1 else rest
grants term (_ ∷ ms) = grants term ms

grants-append :
    (term : ℕ) (xs ms : List ReplicaMsg) → grants term (xs ++ ms) ≡ grants term xs + grants term ms
unfolding grants
grants-append term [] ms = ground arith
grants-append term (req_vote_rpl r ∷ xs) ms = ground (arith, grants-append term xs ms)
grants-append term (req_vote_rpc r ∷ xs) ms = grants-append term xs ms
grants-append term (app_entr_rpc r ∷ xs) ms = grants-append term xs ms
grants-append term (app_entr_rpl r ∷ xs) ms = grants-append term xs ms
grants-append term (no_msg ∷ xs) ms = grants-append term xs ms
grants-append term (other n ∷ xs) ms = grants-append term xs ms

-- How a round counts: against the votes and the queue before it.
record Counted (votes term : ℕ) (queue : List ReplicaMsg) (r : Round) : Type 0 where
  same_term : r.server.curr_term ≡ term
  counted :
      r.vote_count + grants term r.server.network.replica_msg_queue ≤ votes + grants term queue
  enough : IsWon r → 2 ≤ r.vote_count

handle_message-Counted :
    (msg : ReplicaMsg) (votes : ℕ) (s : Server)
    → Counted votes s.curr_term (msg ∷ s.network.replica_msg_queue) (handle_message msg votes s)
unfolding handle_message grants set_state
handle_message-Counted (req_vote_rpl r) votes s = ground arith
handle_message-Counted (req_vote_rpc r) votes s = ground arith
handle_message-Counted (app_entr_rpc r) votes s = ground arith
handle_message-Counted (app_entr_rpl r) votes s = ground arith
handle_message-Counted no_msg votes s = ground arith
handle_message-Counted (other n) votes s = ground arith

abbrev with_queue : List ReplicaMsg → Server → Server
with_queue q s = record s { network = record s.network { replica_msg_queue = q } }

round-Counted :
    (timeout start curr votes : ℕ) (queue : List ReplicaMsg) (s : Server)
    → Counted votes s.curr_term queue
        (candidate_round timeout start curr votes (with_queue queue s))
unfolding candidate_round replica_pop_message set_state
round-Counted timeout start curr votes [] s = ground arith
round-Counted timeout start curr votes (m ∷ ms) s =
    ground (arith, handle_message-Counted m votes (with_queue ms s))

if_true : {b : Bool} {r : Round} (t : Round) → b ≡ true → (if b then r else t) ≡ r
if_true t e = rw e refl

if_false : {b : Bool} (r : Round) {t : Round} → b ≡ false → (if b then r else t) ≡ t
if_false r e = rw e refl

-- All that arrives over some rounds.
unfoldable pub arriving : List Turn → List ReplicaMsg
arriving [] = []
arriving (t ∷ ts) = t.arrivals ++ arriving ts

-- If the run of a candidate ends with the leader's state as the next one, then the votes it
-- started with and the granted replies of its own term among the messages that waited and arrived
-- are two at least, the majority of three replicas.
pub won-majority :
    (timeout start votes : ℕ) (ts : List Turn) (s : Server)
    → IsWon (candidate_run timeout start ts votes s)
    → 2 ≤ votes + grants s.curr_term (s.network.replica_msg_queue ++ arriving ts)
unfolding candidate_run arriving
won-majority timeout start votes [] s h = ground arith
won-majority timeout start votes (t ∷ ts) s h =
    let queue = s.network.replica_msg_queue in
    let r = candidate_round timeout start t.curr votes (arrive t.arrivals s) in
    let c = round-Counted timeout start t.curr votes (queue ++ t.arrivals) s in
    let all = grants-append s.curr_term queue (t.arrivals ++ arriving ts) in
    let late = grants-append s.curr_term t.arrivals (arriving ts) in
    let early = grants-append s.curr_term queue t.arrivals in
    elim (Bool-cases r.returns) [
      | inl over ↦
          let won : IsWon r = subst IsWon (if_true _ over) h in
          omega (arith, c.enough won, c.counted, all, late, early)
      | inr more ↦
          let won : IsWon (candidate_run timeout start ts r.vote_count r.server) =
            subst IsWon (if_false _ more) h in
          let later = won-majority timeout start r.vote_count ts r.server won in
          let left = grants-append s.curr_term r.server.network.replica_msg_queue (arriving ts) in
          let later1 =
            subst
              (λ (n : ℕ).
                2 ≤ r.vote_count + grants n (r.server.network.replica_msg_queue ++ arriving ts))
              c.same_term later in
          omega (arith, later1, left, c.counted, all, late, early)
    ]

-- A candidate that starts an election below the last term of 32 bits stands in the next term and
-- has voted for itself, and gives up no vote of a term it stays in.
pub start_election-VoteKept :
    (s : Server)
    → s.curr_term + 1 < u32_mod
    → VoteKept s (start_election s).server
      × ((start_election s).server.voted_candidate ≡ pos s.id)
      × ((start_election s).server.curr_term ≡ s.curr_term + 1)
unfolding start_election increment_term
start_election-VoteKept s h =
    let next : (s.curr_term + 1) % u32_mod ≡ s.curr_term + 1 = ground arith in
    (
      record {
        term_grows = omega (arith, next);
        vote_stays = λ e _. absurd (omega (arith, e, next));
      },
      refl,
      next,
    )

handle_message-VoteKept :
    (msg : ReplicaMsg) (votes : ℕ) (s : Server) → VoteKept s (handle_message msg votes s).server
unfolding handle_message set_state
handle_message-VoteKept (req_vote_rpl r) votes s = ground arith
handle_message-VoteKept (req_vote_rpc r) votes s = ground arith
handle_message-VoteKept (app_entr_rpc r) votes s = ground arith
handle_message-VoteKept (app_entr_rpl r) votes s = ground arith
handle_message-VoteKept no_msg votes s = ground arith
handle_message-VoteKept (other n) votes s = ground arith

queue-VoteKept :
    (timeout start curr votes : ℕ) (queue : List ReplicaMsg) (s : Server)
    → VoteKept s (candidate_round timeout start curr votes (with_queue queue s)).server
unfolding candidate_round replica_pop_message set_state
queue-VoteKept timeout start curr votes [] s = ground arith
queue-VoteKept timeout start curr votes (m ∷ ms) s =
    let k = handle_message-VoteKept m votes (with_queue ms s) in
    let kept : VoteKept s (handle_message m votes (with_queue ms s)).server = record {
      term_grows = k.term_grows;
      vote_stays = k.vote_stays;
    } in
    ground (arith, VoteKept-refl s, kept)

pub candidate_round-VoteKept :
    (timeout start curr votes : ℕ) (s : Server)
    → VoteKept s (candidate_round timeout start curr votes s).server
candidate_round-VoteKept timeout start curr votes s =
    queue-VoteKept timeout start curr votes s.network.replica_msg_queue s
