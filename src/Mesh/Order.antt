-- ===== src/Mesh/Order.antt =====
-- The messages on their way through the queues of mesh.cpp, and the delay of its sending thread.
use blockchain_raft.Base.{
  ℕ, zero, suc, ◌+◌, ◌≤◌, ◌≡◌, refl, Bool-cases, Option, none, some, List, [], ◌∷◌, ◌++◌, map,
  append-nil, append_assoc, arith, ◌==◌, inl, inr, sym, ap, ◌∙◌,
}
use mathlib.Core.List.{Sublistᴰ}
use mathlib.Core.List.Sublistᴰ
use mathlib.Core.Path.{subst}
use blockchain_raft.Msg.{ReplicaMsgT}
use blockchain_raft.Mesh.{
  network_delay_ms, TransQueueItem, ServerInfo, Servers, update, append_server_trans_queue,
  pop_server_trans_queue, pop_rounds, delay,
}

-- An item that was queued no later than now leaves, after the sending thread's sleep, no sooner
-- than the network delay after it was queued.
pub delay_lem :
    (now : ℕ) (t : TransQueueItem)
    → t.enqueue_time ≤ now
    → t.enqueue_time + network_delay_ms ≤ now + delay now t
unfolding delay
delay_lem now t h = ground arith

abbrev pub held_msgs : Option TransQueueItem → List ReplicaMsgT
held_msgs none = []
held_msgs (some t) = t.msg ∷ []

-- The messages to a replica that are written, held and queued, in this order.
unfoldable pub traffic : ServerInfo → List ReplicaMsgT
traffic p = p.written ++ (held_msgs p.held ++ map (λ t. t.msg) p.trans_queue)

-- Every message is addressed to that replica.
abbrev pub IsTo : ℕ → List ReplicaMsgT → Type 0
IsTo i [] = Unit {0}
IsTo i (msg ∷ msgs) = (msg.receiver_id ≡ i) × IsTo i msgs

-- What a change may do to the messages to each replica: drop some, and add some at the end that are
-- addressed to it; the order stays.
abbrev pub InOrder : Servers → Servers → Type 0
InOrder m m' =
    (i : ℕ)
    → (new : List ReplicaMsgT) × IsTo i new × Sublistᴰ (traffic (m' i)) (traffic (m i) ++ new)

nothing_new : (xs ys : List ReplicaMsgT) → Sublistᴰ xs ys → Sublistᴰ xs (ys ++ [])
nothing_new xs ys h = subst (Sublistᴰ xs) (sym (append-nil ys)) h

pub same-InOrder : (m : Servers) → InOrder m m
same-InOrder m i = ([], tt, nothing_new _ _ (Sublistᴰ.refl (traffic (m i))))

update-InOrder :
    (m : Servers) (j : ℕ) (p : ServerInfo) (new : List ReplicaMsgT)
    → IsTo j new
    → Sublistᴰ (traffic p) (traffic (m j) ++ new)
    → InOrder m (update m j p)
update-InOrder m j p new to kept i = elim (Bool-cases (i == j)) [
  | inl own ↦ let same : i ≡ j = ground (arith, own) in rw (own, same) (new, to, kept)
  | inr other_id ↦ rw other_id (same-InOrder m i)
]

pub IsTo-append : (i : ℕ) (xs ys : List ReplicaMsgT) → IsTo i xs → IsTo i ys → IsTo i (xs ++ ys)
IsTo-append i [] ys hx hy = hy
IsTo-append i (x ∷ xs) ys hx hy = (hx.0, IsTo-append i xs ys hx.1 hy)

pub trans-InOrder : (m m1 m2 : Servers) → InOrder m m1 → InOrder m1 m2 → InOrder m m2
trans-InOrder m m1 m2 h k i =
    let (new1, to1, kept1) = h i in
    let (new2, to2, kept2) = k i in
    (
      new1 ++ new2,
      IsTo-append i new1 new2 to1 to2,
      subst (Sublistᴰ (traffic (m2 i))) (append_assoc (traffic (m i)) new1 new2)
          (Sublistᴰ.trans kept2 (Sublistᴰ.append kept1 (Sublistᴰ.refl new2))),
    )

-- A change that only drops messages.
pub drop-InOrder :
    (m : Servers) (j : ℕ) (p : ServerInfo)
    → Sublistᴰ (traffic p) (traffic (m j))
    → InOrder m (update m j p)
drop-InOrder m j p h = update-InOrder m j p [] tt (nothing_new (traffic p) (traffic (m j)) h)

unfoldable pub msgs : List TransQueueItem → List ReplicaMsgT
msgs q = map (λ t. t.msg) q

pub msgs-append :
    (q : List TransQueueItem) (t : TransQueueItem) → msgs (q ++ t ∷ []) ≡ msgs q ++ t.msg ∷ []
unfolding msgs
msgs-append [] t = refl
msgs-append (x ∷ q) t = ap (λ (l : List ReplicaMsgT). x.msg ∷ l) (msgs-append q t)

pub append-InOrder :
    (i : ℕ) (t : TransQueueItem) (m : Servers)
    → t.msg.receiver_id ≡ i
    → InOrder m (append_server_trans_queue i t m)
unfolding append_server_trans_queue traffic msgs
append-InOrder i t m to =
    let p = m i in
    let longer = record p { trans_queue = p.trans_queue ++ t ∷ [] } in
    let same : traffic longer ≡ traffic p ++ t.msg ∷ [] =
      ap (λ (l : List ReplicaMsgT). p.written ++ (held_msgs p.held ++ l))
        (msgs-append p.trans_queue t)
      ∙ ap (λ (l : List ReplicaMsgT). p.written ++ l)
          (sym (append_assoc (held_msgs p.held) (msgs p.trans_queue) (t.msg ∷ [])))
      ∙ sym (append_assoc p.written (held_msgs p.held ++ msgs p.trans_queue) (t.msg ∷ [])) in
    update-InOrder m i longer (t.msg ∷ []) (to, tt)
      (subst (λ (l : List ReplicaMsgT). Sublistᴰ l (traffic p ++ t.msg ∷ [])) (sym same)
        (Sublistᴰ.refl (traffic p ++ t.msg ∷ [])))

pop_cases :
    (m : Servers) (i : ℕ) (q : List TransQueueItem)
    → Sublistᴰ (msgs q) (msgs (m i).trans_queue)
    → InOrder m
        (elim q as (λ _. Option TransQueueItem × Servers) [
          | [] ↦ (none, m)
          | t ∷ ts ↦ (some t, update m i (record (m i) { trans_queue = ts }))
        ]).1
unfolding traffic msgs
pop_cases m i [] h = same-InOrder m
pop_cases m i (t ∷ ts) h =
    drop-InOrder m i (record (m i) { trans_queue = ts })
      (Sublistᴰ.append (Sublistᴰ.refl (m i).written) (
        Sublistᴰ.append (Sublistᴰ.refl (held_msgs (m i).held))
          (Sublistᴰ.trans (Sublistᴰ.cons (Sublistᴰ.refl (msgs ts))) h)))

pop-InOrder : (i : ℕ) (m : Servers) → InOrder m (pop_server_trans_queue i m).1
unfolding pop_server_trans_queue
pop-InOrder i m = pop_cases m i (m i).trans_queue (Sublistᴰ.refl (msgs (m i).trans_queue))

pub pop_rounds-InOrder : (n i : ℕ) (m : Servers) → InOrder m (pop_rounds n i m)
unfolding pop_rounds
pop_rounds-InOrder zero i m = same-InOrder m
pop_rounds-InOrder (suc n) i m =
    let m1 = (pop_server_trans_queue i m).1 in
    trans-InOrder m m1 (pop_rounds n i m1) (pop-InOrder i m) (pop_rounds-InOrder n i m1)
