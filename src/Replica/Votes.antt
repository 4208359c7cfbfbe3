-- ===== src/Replica/Votes.antt =====
-- The votes of a replica over any run.
use blockchain_raft.Base.{
  Option, ◌+◌, ◌<◌, ◌≡◌, ◌≢◌, refl, sym, ◌∙◌, inl, inr, true, arith, OnOk-eq, u32_mod,
}
use blockchain_raft.Msg.{Extern}
use blockchain_raft.Parameter.{null_candidate_id}
use blockchain_raft.Raft.{RequestVoteRpc}
use blockchain_raft.Server.{Server, Role, run_state}
use blockchain_raft.Follower.{handle_vote}
use blockchain_raft.Follower.Vote.{
  VoteKept, VoteKept-refl, VoteKept-trans, SameVote, SameVote-VoteKept, vote_recorded,
  vote_granted_iff,
}
use blockchain_raft.Follower.Rounds.{follower_round-VoteKept}
use blockchain_raft.Candidate.Election.{start_election-VoteKept, candidate_round-VoteKept}
use blockchain_raft.Leader.Votes.{
  start_leading-SameVote, main_round-SameVote, begin_request-SameVote, wait_round-SameVote,
  finish_request-SameVote,
}
use blockchain_raft.Replica.{
  Step, receives, follows, enters, stands, campaigns, leads, rules, begins, waits_on, answers, Run,
  done, next, IsBounded,
}

run_state-SameVote : (curr : Option Role) (s : Server) → SameVote s (run_state curr s).1
unfolding run_state
run_state-SameVote curr s = ground arith

Step-VoteKept : {x : Extern} {s t : Server} → Step x s t → s.curr_term + 1 < u32_mod → VoteKept s t
Step-VoteKept (receives n s) h = record { term_grows = omega arith; vote_stays = λ _ _. refl }
Step-VoteKept {x = x} (follows timeout last curr now s r e) h =
    follower_round-VoteKept x timeout last curr now s e
Step-VoteKept (enters curr s) h = SameVote-VoteKept s _ (run_state-SameVote curr s)
Step-VoteKept (stands s) h = (start_election-VoteKept s h).0
Step-VoteKept (campaigns timeout start curr votes s) h =
    candidate_round-VoteKept timeout start curr votes s
Step-VoteKept (leads s) h = SameVote-VoteKept s _ (start_leading-SameVote s)
Step-VoteKept (rules last curr now next_index s) h =
    SameVote-VoteKept s _ (main_round-SameVote last curr now next_index s)
Step-VoteKept {x = x} (begins draws now r s b e) h =
    SameVote-VoteKept s _ (OnOk-eq _ _ (begin_request-SameVote x draws now r s) e)
Step-VoteKept (waits_on curr now w r e) h =
    SameVote-VoteKept w.server _ (OnOk-eq _ _ (wait_round-SameVote curr now w) e)
Step-VoteKept (answers committed r s s' e) h =
    SameVote-VoteKept s s' (OnOk-eq _ _ (finish_request-SameVote committed r s) e)

pub Run-VoteKept : {x : Extern} {s t : Server} (run : Run x s t) → IsBounded run → VoteKept s t
Run-VoteKept (done s) h = VoteKept-refl s
Run-VoteKept (next {s = s} {t = t} {u = u} step run) h =
    VoteKept-trans s t u (Step-VoteKept step h.0) (Run-VoteKept run h.1)

-- If a replica has given its vote, to another or to itself as a candidate, then after any run
-- whose terms all stay below the last one of 32 bits it grants a request of that term only to that
-- candidate.
pub one_vote :
    {x : Extern} {s t : Server} (run : Run x s t) (rpc : RequestVoteRpc)
    → IsBounded run
    → s.voted_candidate ≢ null_candidate_id
    → (handle_vote rpc t).1.vote_granted ≡ true
    → rpc.term ≡ s.curr_term
    → rpc.candidate_id ≡ s.voted_candidate
one_vote {s = s} {t = t} run rpc bounded mine granted same =
    let k = Run-VoteKept run bounded in
    elim ((vote_granted_iff rpc t).0 granted).0 [
      | inl newer ↦ absurd (omega (arith, k.term_grows, newer, same))
      | inr (now, free) ↦
          let stays = k.vote_stays (sym same ∙ sym now) mine in
          elim free [
            | inl none_yet ↦ absurd (mine (sym stays ∙ none_yet))
            | inr that ↦ sym that ∙ stays
          ]
    ]

-- Two vote requests of one term that a replica grants, the second after any run of rounds in any
-- of its three states, name the same candidate, provided that the candidate's id is not the null
-- id and that no term of the run is the last one of 32 bits.
pub vote_once :
    {x : Extern} {t : Server} (s : Server) (rpc rpc' : RequestVoteRpc)
    (run : Run x (handle_vote rpc s).0 t)
    → IsBounded run
    → rpc.candidate_id ≢ null_candidate_id
    → (handle_vote rpc s).1.vote_granted ≡ true
    → (handle_vote rpc' t).1.vote_granted ≡ true
    → rpc'.term ≡ rpc.term
    → rpc'.candidate_id ≡ rpc.candidate_id
vote_once s rpc rpc' run bounded real first second same =
    let (mine, term) = vote_recorded rpc s first in
    one_vote run rpc' bounded (λ e. real (sym mine ∙ e)) second (same ∙ sym term) ∙ mine
