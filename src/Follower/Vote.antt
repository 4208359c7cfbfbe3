-- ===== src/Follower/Vote.antt =====
-- The votes of a follower.
use blockchain_raft.Base.{
  ℕ, ◌≤◌, ◌<◌, ◌≡◌, ◌≢◌, ◌↔◌, ◌⊎◌, refl, sym, ◌∙◌, true, arith, ℤ, ◌≤ℤ◌, ok, OnOk, OnOk-eq,
}
use blockchain_raft.Msg.{Extern}
use blockchain_raft.Parameter.{null_candidate_id}
use blockchain_raft.Chain.{get_last_index, get_last_term}
use blockchain_raft.Raft.{RequestVoteRpc, AppendEntryRpc, AppendEntryReply}
use blockchain_raft.Server.{Server, clear_voted_candidate, update_bal_tab_and_committed_index}
use blockchain_raft.Follower.{
  adopt_term, is_up_to_date, may_vote, handle_vote, handle_heartbeat, note_leader, advance,
  accept_entries, handle_entries, handle_append,
}

-- The order of logs: by the last term, then by the last index.
abbrev pub AsRecentAs : Server → ℕ → ℤ → Type 0
AsRecentAs s term index =
    (get_last_term s.bc_log < term)
    ⊎ ((get_last_term s.bc_log ≡ term) × (get_last_index s.bc_log ≤ℤ index))

-- A vote is free in the request's term if that term is new, nobody has it, or the candidate has it.
abbrev pub IsFree : RequestVoteRpc → Server → Type 0
IsFree rpc s =
    (s.curr_term < rpc.term)
    ⊎ ((s.curr_term ≡ rpc.term)
        × ((s.voted_candidate ≡ null_candidate_id) ⊎ (s.voted_candidate ≡ rpc.candidate_id)))

up_to_date_iff :
    (rpc : RequestVoteRpc) (s : Server)
    → (is_up_to_date rpc s ≡ true) ↔ AsRecentAs s rpc.last_log_term rpc.last_log_index
unfolding is_up_to_date
up_to_date_iff rpc s = ground arith

-- A vote is granted exactly if the request is of a later term, or of the current one with the vote
-- free or already that candidate's, and the candidate's log is as recent as the voter's: a later
-- last term, or the same and a last index that is not smaller.
pub vote_granted_iff :
    (rpc : RequestVoteRpc) (s : Server)
    → ((handle_vote rpc s).1.vote_granted ≡ true)
      ↔ (IsFree rpc s × AsRecentAs s rpc.last_log_term rpc.last_log_index)
unfolding handle_vote adopt_term may_vote clear_voted_candidate is_up_to_date
vote_granted_iff rpc s = ground arith

-- Terms never fall, and within a term a vote that is given stays.
pub record VoteKept (s s' : Server) : Type 0 where
  pub term_grows : s.curr_term ≤ s'.curr_term
  pub vote_stays :
      s.curr_term ≡ s'.curr_term
      → s.voted_candidate ≢ null_candidate_id
      → s'.voted_candidate ≡ s.voted_candidate

pub VoteKept-refl : (s : Server) → VoteKept s s
VoteKept-refl s = record { term_grows = omega arith; vote_stays = λ _ _. refl }

pub VoteKept-trans : (s t u : Server) → VoteKept s t → VoteKept t u → VoteKept s u
VoteKept-trans s t u h k = record {
  term_grows = omega (arith, h.term_grows, k.term_grows);
  vote_stays = λ e n.
      let first = h.vote_stays (omega (arith, h.term_grows, k.term_grows)) n in
      k.vote_stays (omega (arith, h.term_grows, k.term_grows)) (λ z. n (sym first ∙ z)) ∙ first;
}

adopt_term-VoteKept : (term : ℕ) (s : Server) → VoteKept s (adopt_term term s)
unfolding adopt_term clear_voted_candidate
adopt_term-VoteKept term s = ground arith

pub handle_vote-VoteKept : (rpc : RequestVoteRpc) (s : Server) → VoteKept s (handle_vote rpc s).0
unfolding handle_vote adopt_term may_vote clear_voted_candidate
handle_vote-VoteKept rpc s = ground arith

-- A granted vote is recorded, in the request's term.
pub vote_recorded :
    (rpc : RequestVoteRpc) (s : Server)
    → (handle_vote rpc s).1.vote_granted ≡ true
    → ((handle_vote rpc s).0.voted_candidate ≡ rpc.candidate_id)
      × ((handle_vote rpc s).0.curr_term ≡ rpc.term)
unfolding handle_vote adopt_term may_vote clear_voted_candidate
vote_recorded rpc s h = ground arith

-- A commit and an accepted append leave the term and the vote alone.
abbrev pub SameVote : Server → Server → Type 0
SameVote s s' = (s'.curr_term ≡ s.curr_term) × (s'.voted_candidate ≡ s.voted_candidate)

pub SameVote-VoteKept : (s s' : Server) → SameVote s s' → VoteKept s s'
SameVote-VoteKept s s' h = record { term_grows = omega (arith, h.0); vote_stays = λ _ _. h.1 }

pub commit-SameVote :
    (i : ℤ) (s : Server) → OnOk (SameVote s) (update_bal_tab_and_committed_index i s)
unfolding update_bal_tab_and_committed_index
commit-SameVote i s = ground arith

module _ (x : Extern) where
  -- As a condition on what a handler returns.
  Keeps : Server → Server × AppendEntryReply → Type 0
  Keeps s r = SameVote s r.0

  heartbeat-SameVote : (rpc : AppendEntryRpc) (s : Server) → OnOk (Keeps s) (handle_heartbeat rpc s)
  unfolding handle_heartbeat advance note_leader Keeps
  heartbeat-SameVote rpc s = ground (arith, commit-SameVote rpc.commit_index (note_leader rpc s))

  accept_entries-SameVote :
      (rpc : AppendEntryRpc) (s : Server) → OnOk (Keeps s) (accept_entries x rpc s)
  unfolding accept_entries Keeps
  accept_entries-SameVote rpc s = ground arith

  handle_entries-SameVote :
      (rpc : AppendEntryRpc) (s : Server) → OnOk (Keeps s) (handle_entries x rpc s)
  unfolding handle_entries Keeps
  handle_entries-SameVote rpc s = ground (arith, accept_entries-SameVote rpc s)

  pub handle_append-Kept :
      (rpc : AppendEntryRpc) (s : Server) → OnOk (λ r. VoteKept s r.0) (handle_append x rpc s)
  unfolding handle_append adopt_term clear_voted_candidate Keeps
  handle_append-Kept rpc s = ground (
    arith,
    heartbeat-SameVote rpc (adopt_term rpc.term s),
    handle_entries-SameVote rpc (adopt_term rpc.term s),
  )

  -- No append message makes the term fall or changes a vote of the term.
  pub handle_append-VoteKept :
      (rpc : AppendEntryRpc) (s : Server) {s' : Server} {reply : AppendEntryReply}
      → handle_append x rpc s ≡ ok (s', reply)
      → VoteKept s s'
  handle_append-VoteKept rpc s e =
      OnOk-eq (λ r. VoteKept s r.0) (handle_append x rpc s) (handle_append-Kept rpc s) e
