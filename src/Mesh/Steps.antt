-- ===== src/Mesh/Steps.antt =====
-- The changes that the threads of mesh.cpp make, and runs of them, against the messages to a
-- replica.
use blockchain_raft.Base.{
  ℕ, refl, Bool, true, false, not, Option, none, some, List, [], ◌∷◌, ◌++◌, ltb, if◌then◌else◌,
  length, ℤ, pos, negsuc, sym, ap, ◌∙◌, append_assoc,
}
use mathlib.Core.List.{Sublistᴰ}
use mathlib.Core.List.Sublistᴰ
use mathlib.Core.Path.{subst}
use blockchain_raft.Frame.{Frame, Read, lost, broken, whole, read_loose}
use blockchain_raft.Text.Split.{split}
use blockchain_raft.Msg.{ReplicaMsgT}
use blockchain_raft.Mesh.{
  TransQueueItem, Servers, update, flush_server_trans_queue, accept_connection, receive_message,
  disconnect, take_item, transfer_item, server_partition_toggle, recv_round, toggled_server,
  run_line, MeshStep, connects, receives, disconnects, takes_item, transfers, toggles, MeshRun,
  rests, moves,
}
use blockchain_raft.Mesh.Order.{
  IsTo-append, held_msgs, msgs, traffic, IsTo, InOrder, same-InOrder, trans-InOrder, drop-InOrder,
  append-InOrder, pop_rounds-InOrder,
}

if_cases :
    (m : Servers) (b : Bool) (r t : Servers)
    → InOrder m r
    → InOrder m t
    → InOrder m (if b then r else t)
if_cases m true r t h k = h
if_cases m false r t h k = k

-- The flags are no part of the traffic.
flags-InOrder :
    (m : Servers) (i : ℕ) (c p : Bool)
    → InOrder m (update m i (record (m i) { connected = c; partitioned = p }))
unfolding traffic
flags-InOrder m i c p =
    drop-InOrder m i (record (m i) { connected = c; partitioned = p })
      (Sublistᴰ.refl (traffic (m i)))

accept-InOrder : (id : ℤ) (m : Servers) → InOrder m (accept_connection id m)
unfolding accept_connection flush_server_trans_queue
accept-InOrder (negsuc n) m = same-InOrder m
accept-InOrder (pos i) m =
    let m1 = flush_server_trans_queue i m in
    if_cases m (ltb 2 i) m _ (same-InOrder m) (
      if_cases m (m i).connected m _ (same-InOrder m) (
        trans-InOrder m m1 _ (pop_rounds-InOrder (length (m i).trans_queue) i m)
          (flags-InOrder m1 i true false)))

receive-InOrder :
    (i : ℕ) (msg : ReplicaMsgT) (now : ℕ) (m : Servers) → InOrder m (receive_message i msg now m)
unfolding receive_message
receive-InOrder i msg now m = if_cases m (m i).partitioned m _ (same-InOrder m) (
    if_cases m (m msg.receiver_id).connected _ m
      (append-InOrder msg.receiver_id (record { enqueue_time = now; msg = msg }) m refl)
      (same-InOrder m))

take_cases :
    (m : Servers) (i : ℕ) (h : Option TransQueueItem) (q : List TransQueueItem)
    → Sublistᴰ (held_msgs h ++ msgs q) (held_msgs (m i).held ++ msgs (m i).trans_queue)
    → InOrder m (elim h as (λ _. Servers) [
      | some t ↦ m
      | none ↦ elim q as (λ _. Servers) [
        | [] ↦ m
        | t ∷ ts ↦ update m i (record (m i) { trans_queue = ts; held = some t })
      ]
    ])
unfolding traffic msgs
take_cases m i (some t) q k = same-InOrder m
take_cases m i none [] k = same-InOrder m
take_cases m i none (t ∷ ts) k =
    drop-InOrder m i (record (m i) { trans_queue = ts; held = some t })
      (Sublistᴰ.append (Sublistᴰ.refl (m i).written) k)

take-InOrder : (i : ℕ) (m : Servers) → InOrder m (take_item i m)
unfolding take_item
take-InOrder i m =
    take_cases m i (m i).held (m i).trans_queue
      (Sublistᴰ.refl (held_msgs (m i).held ++ msgs (m i).trans_queue))

transfer_cases :
    (m : Servers) (i : ℕ) (h : Option TransQueueItem)
    → Sublistᴰ
        (held_msgs h ++ msgs (m i).trans_queue)
        (held_msgs (m i).held ++ msgs (m i).trans_queue)
    → InOrder m (elim h as (λ _. Servers) [
      | none ↦ m
      | some t ↦
          let free = record (m i) { held = none } in
          update m i (
            if (m i).partitioned
            then free
            else record free { written = free.written ++ t.msg ∷ [] })
    ])
unfolding traffic msgs
transfer_cases m i none k = same-InOrder m
transfer_cases m i (some t) k =
    let p = m i in
    let free = record p { held = none } in
    let sent = record free { written = free.written ++ t.msg ∷ [] } in
    let all : Sublistᴰ (p.written ++ (t.msg ∷ msgs p.trans_queue)) (traffic p) =
      Sublistᴰ.append (Sublistᴰ.refl p.written) k in
    drop-InOrder m i (if p.partitioned then free else sent)
      (elim p.partitioned
        as (λ (b : Bool). Sublistᴰ (traffic (if b then free else sent)) (traffic p)) [
          | true ↦
              Sublistᴰ.trans
                (Sublistᴰ.append (Sublistᴰ.refl p.written)
                  (Sublistᴰ.cons (Sublistᴰ.refl (msgs p.trans_queue))))
                all
          | false ↦
              subst (λ (l : List ReplicaMsgT). Sublistᴰ l (traffic p))
                (sym (append_assoc p.written (t.msg ∷ []) (msgs p.trans_queue))) all
        ])

transfer-InOrder : (i : ℕ) (m : Servers) → InOrder m (transfer_item i m)
unfolding transfer_item
transfer-InOrder i m =
    transfer_cases m i (m i).held (Sublistᴰ.refl (held_msgs (m i).held ++ msgs (m i).trans_queue))

read_cases :
    (i now : ℕ) (r : Read ReplicaMsgT) (m : Servers)
    → InOrder m (elim r as (λ _. Servers) [
      | lost ↦ disconnect i m
      | broken ↦ m
      | whole msg ↦ receive_message i msg now m
    ])
unfolding disconnect
read_cases i now lost m = flags-InOrder m i false (m i).partitioned
read_cases i now broken m = same-InOrder m
read_cases i now (whole msg) m = receive-InOrder i msg now m

recv_round-InOrder :
    (i : ℕ) (f : Frame ReplicaMsgT) (now : ℕ) (m : Servers) → InOrder m (recv_round i f now m)
unfolding recv_round disconnect
recv_round-InOrder i f now m =
    if_cases m (m i).connected _ (disconnect i m) (read_cases i now (read_loose f) m)
      (flags-InOrder m i false (m i).partitioned)

toggle-InOrder : (i : ℕ) (m : Servers) → InOrder m (server_partition_toggle i m)
unfolding server_partition_toggle
toggle-InOrder i m =
    if_cases m (m i).connected _ m (flags-InOrder m i (m i).connected (not (m i).partitioned))
      (same-InOrder m)

line_cases :
    (o : Option ℕ) (m : Servers)
    → InOrder m (elim o as (λ _. Servers) [ none ↦ m | some id ↦ server_partition_toggle id m ])
line_cases none m = same-InOrder m
line_cases (some id) m = toggle-InOrder id m

pub MeshStep-InOrder : {m m' : Servers} → MeshStep m m' → InOrder m m'
unfolding disconnect run_line
MeshStep-InOrder (connects id m) = accept-InOrder id m
MeshStep-InOrder (receives i f now m) = recv_round-InOrder i f now m
MeshStep-InOrder (disconnects i m) = flags-InOrder m i false (m i).partitioned
MeshStep-InOrder (takes_item i m) = take-InOrder i m
MeshStep-InOrder (transfers i m) = transfer-InOrder i m
MeshStep-InOrder (toggles line m) = line_cases (toggled_server (split line)) m

-- Over any run of the simulated network, the messages to a replica that are written, held and
-- queued are what they were, in their order, with some dropped and some added at the end, each
-- added one addressed to that replica.
pub MeshRun-InOrder : {m m' : Servers} → MeshRun m m' → InOrder m m'
MeshRun-InOrder (rests m) = same-InOrder m
MeshRun-InOrder (moves {m = m} {m1 = m1} {m2 = m2} step run) =
    trans-InOrder m m1 m2 (MeshStep-InOrder step) (MeshRun-InOrder run)

IsTo-Sublist : (i : ℕ) {xs ys : List ReplicaMsgT} → Sublistᴰ xs ys → IsTo i ys → IsTo i xs
IsTo-Sublist i Sublistᴰ.slnil h = h
IsTo-Sublist i (Sublistᴰ.cons d) h = IsTo-Sublist i d h.1
IsTo-Sublist i (Sublistᴰ.cons-cons e d) h =
    (ap (λ (msg : ReplicaMsgT). msg.receiver_id) e ∙ h.0, IsTo-Sublist i d h.1)

IsTo-written : (i : ℕ) (xs ys : List ReplicaMsgT) → IsTo i (xs ++ ys) → IsTo i xs
IsTo-written i [] ys h = tt
IsTo-written i (x ∷ xs) ys h = (h.0, IsTo-written i xs ys h.1)

-- If all messages on the way to a replica are addressed to it, then after any run of the simulated
-- network so are all that were written to it.
pub delivered-IsTo :
    (m m' : Servers) (i : ℕ) → MeshRun m m' → IsTo i (traffic (m i)) → IsTo i (m' i).written
unfolding traffic msgs
delivered-IsTo m m' i run h =
    let (new, to, kept) = MeshRun-InOrder run i in
    IsTo-written i (m' i).written (held_msgs (m' i).held ++ msgs (m' i).trans_queue)
      (IsTo-Sublist i kept (IsTo-append i (traffic (m i)) new h to))
