-- ===== src/Cluster/Just.antt =====
-- What the votes of a cluster say of the messages between its replicas.
use blockchain_raft.Base.{ℕ, ◌<◌, ◌≡◌, ◌≢◌, sym, ◌∙◌, true, ℤ, pos}
use blockchain_raft.Parameter.{server_count, null_candidate_id}
use blockchain_raft.Raft.{
  ReplicaMsg, no_msg, req_vote_rpc, req_vote_rpl, app_entr_rpc, app_entr_rpl, other,
}

-- For a replica and a term, the candidate that it has voted for in that term, or -1.
abbrev pub Ballots : Type 0
Ballots = ℕ → ℕ → ℤ

-- Another replica has voted for `i` in that term.
abbrev pub HasBacker : Ballots → ℕ → ℕ → Type 0
HasBacker votes i term = (w : ℕ) × (w < server_count) × (w ≢ i) × (votes w term ≡ pos i)

-- The id is that of a replica with its own vote in that term, and another one.
abbrev pub HasLed : Ballots → ℤ → ℕ → Type 0
HasLed votes id term =
    (l : ℕ) × (id ≡ pos l) × (l < server_count) × (votes l term ≡ pos l) × HasBacker votes l term

-- A request to a replica names another one, a vote granted to it was cast, and an append message
-- comes from a winner of its term.
abbrev pub IsJust : Ballots → ℕ → ReplicaMsg → Type 0
IsJust votes i (req_vote_rpc r) = (k : ℕ) × (r.candidate_id ≡ pos k) × (k ≢ i)
IsJust votes i (req_vote_rpl r) = r.vote_granted ≡ true → HasBacker votes i r.term
IsJust votes i (app_entr_rpc r) = HasLed votes r.leader_id r.term
IsJust votes i _ = Unit

-- No vote that was cast is taken back.
abbrev pub Extends : Ballots → Ballots → Type 0
Extends votes votes' =
    (i term : ℕ) → votes i term ≢ null_candidate_id → votes' i term ≡ votes i term

pub pos-real : (k : ℕ) → pos k ≢ null_candidate_id
pos-real k e = cc

pub HasBacker-Extends :
    (votes votes' : Ballots) (i term : ℕ)
    → Extends votes votes'
    → HasBacker votes i term
    → HasBacker votes' i term
HasBacker-Extends votes votes' i term more (w, inside, another, cast) =
    (w, inside, another, more w term (λ e. pos-real i (sym cast ∙ e)) ∙ cast)

pub IsJust-Extends :
    (votes votes' : Ballots) (i : ℕ) (msg : ReplicaMsg)
    → Extends votes votes'
    → IsJust votes i msg
    → IsJust votes' i msg
IsJust-Extends votes votes' i (req_vote_rpc r) more h = h
IsJust-Extends votes votes' i (req_vote_rpl r) more h =
    λ g. HasBacker-Extends votes votes' i r.term more (h g)
IsJust-Extends votes votes' i (app_entr_rpc r) more (l, id, inside, own, backer) = (
  l,
  id,
  inside,
  more l r.term (λ e. pos-real l (sym own ∙ e)) ∙ own,
  HasBacker-Extends votes votes' l r.term more backer,
)
IsJust-Extends votes votes' i (app_entr_rpl r) more h = tt
IsJust-Extends votes votes' i no_msg more h = tt
IsJust-Extends votes votes' i (other n) more h = tt
