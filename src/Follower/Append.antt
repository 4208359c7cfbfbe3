-- ===== src/Follower/Append.antt =====
-- How a follower takes over entries.
use blockchain_raft.Base.{
  ℕ, zero, suc, ◌≤◌, ◌<◌, ◌≡◌, ◌≢◌, refl, sym, ap, ◌∙◌, inl, inr, Bool, true, false, none, some,
  List, [], ◌++◌, arith, ltb, ◌==◌, if◌then◌else◌, Bool-cases, length, get_elem?, get_elem?-some,
  get_elem?-none, get_elem?-take, ge→ltb, length-drop, ltb_ℤ-pred, take, drop, take-append-drop,
  Result, ok, ℤ, pos, negsuc, pred_ℤ, ltb_ℤ, eqb_ℤ, int_max_suc,
}
use mathlib.Core.Path.{ap₂, subst}
use blockchain_raft.Msg.{Extern}
use blockchain_raft.Parameter.{null_candidate_id}
use blockchain_raft.Block.{Block}
use blockchain_raft.Chain.{Blockchain, get_block_by_index, get_last_index}
use blockchain_raft.Chain.Header.{IsStorable}
use blockchain_raft.Chain.Linked.{IsLinked, get_last_index-pred}
use blockchain_raft.Chain.Saved.{image, clean_up_blocks_lem}
use blockchain_raft.Raft.{AppendEntryRpc, AppendEntryReply}
use blockchain_raft.Server.{Server, clear_voted_candidate}
use blockchain_raft.Server.Commit.{first_lem, get_block_by_index-some}
use blockchain_raft.Follower.{adopt_term, reply_of, accept_entries, handle_entries, handle_append}

-- What the code needs of a follower's log: linked, with a committed index that can be stored, and
-- short enough for `int`.
pub record IsSound (x : Extern) (bc : Blockchain) : Type 0 where
  pub linked : IsLinked x bc
  pub storable : IsStorable bc.committed_index
  pub short : length bc.blocks < int_max_suc

-- The first `p` blocks end with the given term; no block at all fits any.
abbrev pub ends_with : ℕ → ℕ → List Block → Bool
ends_with zero term bs = true
ends_with (suc p) term bs = elim (get_elem? bs p) [ none ↦ false | some b ↦ b.term == term ]

last_index :
    (x : Extern) (bc : Blockchain) → IsSound x bc → get_last_index bc ≡ pred_ℤ (length bc.blocks)
last_index x bc h = get_last_index-pred x bc (length bc.blocks) h.linked h.short refl

-- The chain with the entries behind its first `p` blocks, as it is saved.
unfoldable pub extended : Extern → ℕ → List Block → Blockchain → Blockchain
extended x p entries bc =
    let c = record bc { blocks = take p bc.blocks ++ entries } in record c { file = image x c }

ltb_zero : (n : ℕ) → ltb n 0 ≢ true
ltb_zero n h = ground arith

ends_with_beyond :
    (p term : ℕ) (bs : List Block) → ltb (length bs) p ≡ true → ends_with p term bs ≡ false
ends_with_beyond zero term bs h = absurd (ltb_zero (length bs) h)
ends_with_beyond (suc p) term bs h = rw (get_elem?-none bs p (ground arith), ends_with)

-- A log that ends so is long enough.
pub ends_with_within : (p term : ℕ) (bs : List Block) → ends_with p term bs ≡ true → p ≤ length bs
ends_with_within p term bs h = elim (Bool-cases (ltb (length bs) p)) [
  | inl beyond ↦ absurd (ground (arith, h, ends_with_beyond p term bs beyond))
  | inr within ↦ ground (arith, within)
]

-- What `handle_entries` comes to.
unfoldable pub entries_result :
    Extern → AppendEntryRpc → ℕ → Server → Result (Server × AppendEntryReply)
entries_result x rpc p s =
    let s1 = record s { bc_log = extended x p rpc.entries s.bc_log } in
    ok (
      if ends_with p rpc.prev_log_term s.bc_log.blocks
      then (s1, reply_of s1 true false)
      else (s, reply_of s false false))

module _ (x : Extern) (rpc : AppendEntryRpc) (p : ℕ) (prev : rpc.prev_log_index ≡ pred_ℤ p) where
  accept_entries_lem :
      (s : Server)
      → IsSound x s.bc_log
      → let s1 = record s { bc_log = extended x p rpc.entries s.bc_log } in
        accept_entries x rpc s ≡ ok (s1, reply_of s1 true false)
  unfolding accept_entries extended
  accept_entries_lem s h = rw (
    first_lem p rpc.prev_log_index prev,
    clean_up_blocks_lem x p rpc.entries s.bc_log h.short h.storable,
  )

  reaches :
      (s : Server)
      → IsSound x s.bc_log
      → ltb_ℤ (get_last_index s.bc_log) rpc.prev_log_index ≡ ltb (length s.bc_log.blocks) p
  reaches s h = ap₂ ltb_ℤ (last_index x s.bc_log h) prev ∙ ltb_ℤ-pred (length s.bc_log.blocks) p

not_first : (p : ℕ) → eqb_ℤ (pos p) (negsuc 0) ≡ false
not_first p = ground arith

-- The tests behind the first, where the log is long enough.
within_lem :
    (x : Extern) (rpc : AppendEntryRpc) (p : ℕ) (prev : rpc.prev_log_index ≡ pred_ℤ p) (s : Server)
    → IsSound x s.bc_log
    → ltb (length s.bc_log.blocks) p ≡ false
    → handle_entries x rpc s ≡ entries_result x rpc p s
unfolding handle_entries entries_result
within_lem x rpc zero prev s h within = rw (
  reaches x rpc zero prev s h ∙ within,
  ap (λ (i : ℤ). eqb_ℤ i (negsuc 0)) prev,
  accept_entries_lem x rpc zero prev s h,
)
within_lem x rpc (suc p) prev s h within =
    let inside : p < length s.bc_log.blocks = ground arith in
    let (b, at) = get_elem?-some s.bc_log.blocks p inside in
    rw
      (
        reaches x rpc (suc p) prev s h ∙ within,
        ap (λ (i : ℤ). eqb_ℤ i (negsuc 0)) prev ∙ not_first p,
        ap (get_block_by_index s.bc_log) prev ∙ get_block_by_index-some s.bc_log p at,
        accept_entries_lem x rpc (suc p) prev s h,
        entries_result,
        ends_with,
        at,
      )
      (ground arith)

-- The entries are taken exactly if the log reaches the position before them with the leader's
-- term; then they replace all that stands behind it. Otherwise the log stays.
pub handle_entries_lem :
    (x : Extern) (rpc : AppendEntryRpc) (p : ℕ) (s : Server)
    → rpc.prev_log_index ≡ pred_ℤ p
    → IsSound x s.bc_log
    → handle_entries x rpc s ≡ entries_result x rpc p s
unfolding handle_entries entries_result
handle_entries_lem x rpc p s prev h = elim (Bool-cases (ltb (length s.bc_log.blocks) p)) [
  | inl beyond ↦ rw (
    reaches x rpc p prev s h ∙ beyond,
    ends_with_beyond p rpc.prev_log_term s.bc_log.blocks beyond,
  )
  | inr within ↦ within_lem x rpc p prev s h within
]

adopt_term-bc_log : (term : ℕ) (s : Server) → (adopt_term term s).bc_log ≡ s.bc_log
unfolding adopt_term clear_voted_candidate
adopt_term-bc_log term s = ground arith

pub adopted :
    (x : Extern) (term : ℕ) (s : Server) → IsSound x s.bc_log → IsSound x (adopt_term term s).bc_log
adopted x term s h = subst (IsSound x) (sym (adopt_term-bc_log term s)) h

-- The server in a term that is not behind its own: the vote is free again if the term is new.
abbrev pub in_term : ℕ → Server → Server
in_term term s = record s {
  curr_term = term;
  voted_candidate = if s.curr_term == term then s.voted_candidate else null_candidate_id;
}

adopt_term_lem : (term : ℕ) (s : Server) → s.curr_term ≤ term → adopt_term term s ≡ in_term term s
unfolding adopt_term clear_voted_candidate
adopt_term_lem term s h = elim (Bool-cases (s.curr_term == term)) [
  | inl current ↦
      let same : s.curr_term ≡ term = ground (arith, current) in
      let no_later : ltb s.curr_term term ≡ false = ground (arith, same) in
      rw (no_later, current) (ap (λ (t : ℕ). record s { curr_term = t }) same)
  | inr grows ↦
      let later : ltb s.curr_term term ≡ true = ground (arith, grows, h) in rw (later, grows) refl
]

-- With a sound log, a message that carries entries and a previous index of -1 or more is refused,
-- changing nothing, if its term is older. Otherwise the server is then in the message's term, its
-- vote free if that term is new, and if the block before the entries is there with the message's
-- term, the entries replace all blocks from their position on, those that agree with the entries
-- and those behind them included; if it is not, the log stays.
pub handle_append_entries :
    (x : Extern) (rpc : AppendEntryRpc) (p : ℕ) (s : Server)
    → rpc.prev_log_index ≡ pred_ℤ p
    → rpc.entries ≢ []
    → IsSound x s.bc_log
    → handle_append x rpc s ≡ (
        if ltb rpc.term s.curr_term
        then ok (s, reply_of s false true)
        else entries_result x rpc p (in_term rpc.term s))
unfolding handle_append
handle_append_entries x rpc p s prev some_entry h = elim (Bool-cases (ltb rpc.term s.curr_term)) [
  | inl old ↦ rw old refl
  | inr now ↦
      let s1 = adopt_term rpc.term s in
      let effect = handle_entries_lem x rpc p s1 prev (adopted x rpc.term s h) in
      let taken : handle_append x rpc s ≡ entries_result x rpc p s1 =
        ground (arith, now, effect, some_entry) in
      taken
      ∙ ap (entries_result x rpc p) (adopt_term_lem rpc.term s (ground (arith, now)))
      ∙ rw now refl
]

pub ends_with-take :
    (p term : ℕ) (bs : List Block) → ends_with p term (take p bs) ≡ ends_with p term bs
ends_with-take zero term bs = refl
ends_with-take (suc p) term bs = rw (get_elem?-take (suc p) p bs (omega arith), ends_with)

-- A message with entries that fit, of no older term.
pub entries_taken :
    (x : Extern) (rpc : AppendEntryRpc) (p : ℕ) (s : Server)
    → IsSound x s.bc_log
    → s.curr_term ≤ rpc.term
    → rpc.prev_log_index ≡ pred_ℤ p
    → rpc.entries ≢ []
    → ends_with p rpc.prev_log_term s.bc_log.blocks ≡ true
    → let s' = record (in_term rpc.term s) { bc_log = extended x p rpc.entries s.bc_log } in
      handle_append x rpc s ≡ ok (s', reply_of s' true false)
unfolding entries_result
entries_taken x rpc p s h term prev some_entry fits =
    handle_append_entries x rpc p s prev some_entry h
    ∙ rw (ge→ltb rpc.term s.curr_term term, entries_result, fits)

-- A follower with a sound log that agrees with the leader's log on the blocks before the entries
-- takes a message of its own or a later term that carries the rest of that log, not empty, and the
-- position and term of the block before it: it replies success in that term, its log is then the
-- leader's, whatever stood behind the first blocks, agreeing or not, and its committed index
-- stays.
pub append_catches_up :
    (x : Extern) (rpc : AppendEntryRpc) (p : ℕ) (log : List Block) (s : Server)
    → IsSound x s.bc_log
    → s.curr_term ≤ rpc.term
    → rpc.prev_log_index ≡ pred_ℤ p
    → ends_with p rpc.prev_log_term log ≡ true
    → rpc.entries ≡ drop p log
    → p < length log
    → take p s.bc_log.blocks ≡ take p log
    → (s' : Server) × (reply : AppendEntryReply) × (handle_append x rpc s ≡ ok (s', reply))
      × (reply.success ≡ true)
      × (reply.term ≡ rpc.term)
      × (s'.bc_log.blocks ≡ log)
      × (s'.bc_log.committed_index ≡ s.bc_log.committed_index)
unfolding extended
append_catches_up x rpc p log s h term prev last es inside agree =
    let fits : ends_with p rpc.prev_log_term s.bc_log.blocks ≡ true =
      sym (ends_with-take p rpc.prev_log_term s.bc_log.blocks)
      ∙ ap (ends_with p rpc.prev_log_term) agree
      ∙ ends_with-take p rpc.prev_log_term log
      ∙ last in
    let some_entry : rpc.entries ≢ [] =
      λ e. absurd (omega (arith, length-drop p log, ap length (sym es ∙ e))) in
    let s' = record (in_term rpc.term s) { bc_log = extended x p rpc.entries s.bc_log } in
    (
      s',
      reply_of s' true false,
      entries_taken x rpc p s h term prev some_entry fits,
      refl,
      refl,
      ap₂ ◌++◌ agree es ∙ take-append-drop p log,
      refl,
    )
