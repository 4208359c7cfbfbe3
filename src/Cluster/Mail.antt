-- ===== src/Cluster/Mail.antt =====
-- A condition on all messages that `replica_send_message` of network.cpp has sent.
use blockchain_raft.Base.{
  ℕ, zero, suc, ◌+◌, ◌≡◌, ◌≢◌, refl, sym, inl, inr, List, [], ◌∷◌, ◌++◌, map, leb, ◌==◌, arith, ℤ,
  pos, negsuc, Bool-cases,
}
use mathlib.Core.Path.{subst}
use blockchain_raft.Parameter.{server_count}
use blockchain_raft.Raft.{ReplicaMsg}
use blockchain_raft.Network.{Network, replica_send_message}
use blockchain_raft.Network.Wire.{
  arrived, IsSendable, deliveries, others, send_to-delivers, broadcast_delivers,
}

module _ {A : Type 0} where
  abbrev pub All : (A → Type 0) → List A → Type 0
  All P [] = Unit
  All P (x ∷ xs) = P x × All P xs

  pub All-append : (P : A → Type 0) (xs ys : List A) → All P xs → All P ys → All P (xs ++ ys)
  All-append P [] ys h k = k
  All-append P (x ∷ xs) ys h k = (h.0, All-append P xs ys h.1 k)

  pub All-mono : (P Q : A → Type 0) (xs : List A) → ((x : A) → P x → Q x) → All P xs → All Q xs
  All-mono P Q [] f h = tt
  All-mono P Q (x ∷ xs) f h = (f x h.0, All-mono P Q xs f h.1)

-- The ids that a message goes to.
abbrev pub IsReached : ℕ → ℤ → ℕ → Type 0
IsReached self (pos k) id = id ≡ k
IsReached self (negsuc zero) id = id ≢ self
IsReached self (negsuc (suc k)) id = ⊥

module _ (P : ℕ × ReplicaMsg → Type 0) where
  others-All :
      (k i self : ℕ) (msg : ReplicaMsg)
      → ((id : ℕ) → id ≢ self → P (id, msg))
      → All P (map (λ j. (j, msg)) (others k i self))
  others-All zero i self msg h = tt
  others-All (suc k) i self msg h = elim (Bool-cases (i == self)) [
    | inl own ↦ rw own (others-All k (i + 1) self msg h)
    | inr other_id ↦ rw other_id (h i (ground (arith, other_id)), others-All k (i + 1) self msg h)
  ]

  -- What holds of all messages sent so far holds behind one more sending, if it holds of the
  -- message for each receiver.
  pub sends-All :
      (self : ℕ) (msg : ReplicaMsg) (to : ℤ) (n : Network)
      → IsSendable msg
      → ((id : ℕ) → IsReached self to id → P (id, arrived msg))
      → All P (deliveries n)
      → All P (deliveries (replica_send_message self msg to n))
  unfolding replica_send_message
  sends-All self msg (pos k) n fits h all = elim (Bool-cases (leb server_count k)) [
    | inl out ↦ rw out all
    | inr inside ↦ rw inside (
        subst (All P) (sym (send_to-delivers msg k n fits))
          (All-append P (deliveries n) ((k, arrived msg) ∷ []) all (h k refl, tt)))
  ]
  sends-All self msg (negsuc zero) n fits h all =
      subst (All P) (sym (broadcast_delivers self msg n fits)) (
        All-append P (deliveries n) (map (λ j. (j, arrived msg)) (others server_count 0 self)) all
          (others-All server_count 0 self (arrived msg) h))
  sends-All self msg (negsuc (suc k)) n fits h all = all
