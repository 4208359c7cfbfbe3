-- ===== src/Mesh/Channel.antt =====
-- What mesh.cpp promises of the messages to one replica: a channel that keeps their order, and that
-- may lose any of those that wait.
use blockchain_raft.Base.{ℕ, ◌≡◌, sym, ap, ◌∙◌, List, [], ◌∷◌, ◌++◌, append-nil, append_assoc}
use mathlib.Core.List.{Sublistᴰ}
use mathlib.Core.List.Sublistᴰ
use mathlib.Core.Path.{subst}
use blockchain_raft.Msg.{ReplicaMsgT}

pub record Channel : Type 0 where
  pub waiting : List ReplicaMsgT
  pub delivered : List ReplicaMsgT

-- A run of the channel to replica `i`, with the messages that are sent during it.
pub data ChannelRun (i : ℕ) : Channel → List ReplicaMsgT → Channel → Type 0 where
  idle : (c : Channel) → ChannelRun i c [] c
  sends :
      (c c' : Channel) (msgs : List ReplicaMsgT) (msg : ReplicaMsgT)
      → msg.receiver_id ≡ i
      → ChannelRun i (record c { waiting = c.waiting ++ msg ∷ [] }) msgs c'
      → ChannelRun i c (msg ∷ msgs) c'
  loses :
      (c c' : Channel) (msgs left : List ReplicaMsgT)
      → Sublistᴰ left c.waiting
      → ChannelRun i (record c { waiting = left }) msgs c'
      → ChannelRun i c msgs c'
  delivers :
      (c' : Channel) (msgs rest out : List ReplicaMsgT) (msg : ReplicaMsgT)
      → ChannelRun i (record { waiting = rest; delivered = out ++ msg ∷ [] }) msgs c'
      → ChannelRun i (record { waiting = msg ∷ rest; delivered = out }) msgs c'

module _ {i : ℕ} where
  pub ChannelRun-trans :
      {c d e : Channel} {xs ys : List ReplicaMsgT}
      → ChannelRun i c xs d
      → ChannelRun i d ys e
      → ChannelRun i c (xs ++ ys) e
  ChannelRun-trans (idle c) k = k
  ChannelRun-trans {e = e} {ys = ys} (sends c d msgs msg to h) k =
      sends c e (msgs ++ ys) msg to (ChannelRun-trans h k)
  ChannelRun-trans {e = e} {ys = ys} (loses c d msgs left sub h) k =
      loses c e (msgs ++ ys) left sub (ChannelRun-trans h k)
  ChannelRun-trans {e = e} {ys = ys} (delivers d msgs rest out msg h) k =
      delivers e (msgs ++ ys) rest out msg (ChannelRun-trans h k)

  -- Messages are lost at most: what is delivered and waits is, in order, among what was before and
  -- what is sent.
  pub ChannelRun-Sublist :
      {c c' : Channel} {msgs : List ReplicaMsgT}
      → ChannelRun i c msgs c'
      → Sublistᴰ (c'.delivered ++ c'.waiting) ((c.delivered ++ c.waiting) ++ msgs)
  ChannelRun-Sublist (idle c) =
      subst (Sublistᴰ (c.delivered ++ c.waiting)) (sym (append-nil (c.delivered ++ c.waiting)))
        (Sublistᴰ.refl (c.delivered ++ c.waiting))
  ChannelRun-Sublist (sends c c' msgs msg to h) =
      subst (Sublistᴰ (c'.delivered ++ c'.waiting))
        (ap (λ (l : List ReplicaMsgT). l ++ msgs)
            (sym (append_assoc c.delivered c.waiting (msg ∷ [])))
          ∙ append_assoc (c.delivered ++ c.waiting) (msg ∷ []) msgs)
        (ChannelRun-Sublist h)
  ChannelRun-Sublist (loses c c' msgs left sub h) =
      Sublistᴰ.trans (ChannelRun-Sublist h)
        (Sublistᴰ.append (Sublistᴰ.append (Sublistᴰ.refl c.delivered) sub) (Sublistᴰ.refl msgs))
  ChannelRun-Sublist (delivers c' msgs rest out msg h) =
      subst (Sublistᴰ (c'.delivered ++ c'.waiting))
        (ap (λ (l : List ReplicaMsgT). l ++ msgs) (append_assoc out (msg ∷ []) rest))
        (ChannelRun-Sublist h)

  -- The order is kept and some of the waiting ones go.
  pub loses_to :
      (c c' : Channel)
      → c'.delivered ≡ c.delivered
      → Sublistᴰ c'.waiting c.waiting
      → ChannelRun i c [] c'
  loses_to c c' same sub =
      subst (ChannelRun i c [])
        (ap (λ (l : List ReplicaMsgT). record { waiting = c'.waiting; delivered = l }) (sym same))
        (loses c _ [] c'.waiting sub (idle (record c { waiting = c'.waiting })))
