-- ===== src/Mesh/Refines.antt =====
-- Each replica's part of mesh.cpp is such a channel: every change by a thread is a run of it.
use blockchain_raft.Base.{
  ℕ, zero, suc, ◌≡◌, ◌≢◌, refl, sym, ap, ◌∙◌, inl, inr, Bool, true, false, not, Option, none, some,
  List, [], ◌∷◌, ◌++◌, ltb, ◌==◌, if◌then◌else◌, length, ℤ, pos, negsuc, append-nil, append_assoc,
  arith, Bool-cases,
}
use mathlib.Core.List.{Sublistᴰ}
use mathlib.Core.List.Sublistᴰ
use mathlib.Core.Path.{subst, ap₂}
use blockchain_raft.Frame.{Frame, Read, lost, broken, whole, read_loose}
use blockchain_raft.Text.Split.{split}
use blockchain_raft.Msg.{ReplicaMsgT}
use blockchain_raft.Mesh.{
  TransQueueItem, ServerInfo, Servers, update, append_server_trans_queue, pop_server_trans_queue,
  pop_rounds, flush_server_trans_queue, accept_connection, receive_message, recv_round, disconnect,
  take_item, transfer_item, server_partition_toggle, toggled_server, run_line, MeshStep, connects,
  receives, disconnects, takes_item, transfers, toggles, MeshRun, rests, moves,
}
use blockchain_raft.Mesh.Order.{held_msgs, msgs, msgs-append}
use blockchain_raft.Mesh.Channel.{
  Channel, ChannelRun, idle, sends, delivers, ChannelRun-trans, ChannelRun-Sublist, loses_to,
}

-- The sending thread's item stands before the queue.
unfoldable pub channel : ServerInfo → Channel
channel p = record { waiting = held_msgs p.held ++ msgs p.trans_queue; delivered = p.written }

nothing_of : (xs : List ReplicaMsgT) → Sublistᴰ [] xs
nothing_of [] = Sublistᴰ.refl []
nothing_of (x ∷ xs) = Sublistᴰ.cons (nothing_of xs)

module _ (i : ℕ) where
  abbrev pub addressed : ReplicaMsgT → List ReplicaMsgT
  addressed msg = if msg.receiver_id == i then msg ∷ [] else []

  -- The message to replica `i` that a read gives.
  abbrev pub read_msgs : Read ReplicaMsgT → List ReplicaMsgT
  read_msgs (whole msg) = addressed msg
  read_msgs _ = []

  -- The messages to replica `i` that the mesh reads in a step, and in a run.
  abbrev pub step_msgs : {m m' : Servers} → MeshStep m m' → List ReplicaMsgT
  step_msgs (receives j f now m) = read_msgs (read_loose f)
  step_msgs _ = []

  abbrev pub run_msgs : {m m' : Servers} → MeshRun m m' → List ReplicaMsgT
  run_msgs (rests m) = []
  run_msgs (moves step run) = step_msgs step ++ run_msgs run

  -- Between two states of all replicas.
  unfoldable pub Runs : Servers → List ReplicaMsgT → Servers → Type 0
  Runs m sent m' = ChannelRun i (channel (m i)) sent (channel (m' i))

  update-Runs :
      (m : Servers) (j : ℕ) (p : ServerInfo) (sent : List ReplicaMsgT)
      → ChannelRun j (channel (m j)) sent (channel p)
      → (i ≢ j → sent ≡ [])
      → Runs m sent (update m j p)
  unfolding Runs
  update-Runs m j p sent h none_else = elim (Bool-cases (i == j)) [
    | inl own ↦
        let same : i ≡ j = ground (arith, own) in
        rw own (subst (λ (k : ℕ). ChannelRun k (channel (m k)) sent (channel p)) (sym same) h)
    | inr other_id ↦ rw (other_id, none_else (ground (arith, other_id))) (idle (channel (m i)))
  ]

  elsewhere : (m : Servers) (j : ℕ) (p : ServerInfo) → j ≢ i → Runs m [] (update m j p)
  unfolding Runs
  elsewhere m j p differ =
      let other_id : (i == j) ≡ false = ground (arith, differ) in rw other_id (idle (channel (m i)))

  -- A change that at most loses messages.
  drop-Runs :
      (m : Servers) (j : ℕ) (p : ServerInfo)
      → p.written ≡ (m j).written
      → Sublistᴰ
          (held_msgs p.held ++ msgs p.trans_queue)
          (held_msgs (m j).held ++ msgs (m j).trans_queue)
      → Runs m [] (update m j p)
  unfolding channel
  drop-Runs m j p same sub =
      update-Runs m j p [] (loses_to (channel (m j)) (channel p) same sub) (λ _. refl)

  same-Runs : (m : Servers) → Runs m [] m
  unfolding Runs
  same-Runs m = idle (channel (m i))

  then-Runs :
      (m m1 m2 : Servers) (xs ys : List ReplicaMsgT)
      → Runs m xs m1
      → Runs m1 ys m2
      → Runs m (xs ++ ys) m2
  unfolding Runs
  then-Runs m m1 m2 xs ys h k = ChannelRun-trans h k

  if_cases :
      (m : Servers) (sent : List ReplicaMsgT) (b : Bool) (r t : Servers)
      → Runs m sent r
      → Runs m sent t
      → Runs m sent (if b then r else t)
  if_cases m sent true r t h k = h
  if_cases m sent false r t h k = k

  flags-Runs :
      (m : Servers) (j : ℕ) (c p : Bool)
      → Runs m [] (update m j (record (m j) { connected = c; partitioned = p }))
  flags-Runs m j c p =
      drop-Runs m j (record (m j) { connected = c; partitioned = p }) refl
        (Sublistᴰ.refl (held_msgs (m j).held ++ msgs (m j).trans_queue))

  pop_cases :
      (m : Servers) (j : ℕ) (q : List TransQueueItem)
      → Sublistᴰ (msgs q) (msgs (m j).trans_queue)
      → Runs m []
          (elim q as (λ _. Option TransQueueItem × Servers) [
            | [] ↦ (none, m)
            | t ∷ ts ↦ (some t, update m j (record (m j) { trans_queue = ts }))
          ]).1
  unfolding msgs
  pop_cases m j [] h = same-Runs m
  pop_cases m j (t ∷ ts) h =
      drop-Runs m j (record (m j) { trans_queue = ts }) refl
        (Sublistᴰ.append (Sublistᴰ.refl (held_msgs (m j).held))
          (Sublistᴰ.trans (Sublistᴰ.cons (Sublistᴰ.refl (msgs ts))) h))

  pop-Runs : (j : ℕ) (m : Servers) → Runs m [] (pop_server_trans_queue j m).1
  unfolding pop_server_trans_queue
  pop-Runs j m = pop_cases m j (m j).trans_queue (Sublistᴰ.refl (msgs (m j).trans_queue))

  pop_rounds-Runs : (n j : ℕ) (m : Servers) → Runs m [] (pop_rounds n j m)
  unfolding pop_rounds
  pop_rounds-Runs zero j m = same-Runs m
  pop_rounds-Runs (suc n) j m =
      let m1 = (pop_server_trans_queue j m).1 in
      then-Runs m m1 (pop_rounds n j m1) [] [] (pop-Runs j m) (pop_rounds-Runs n j m1)

  accept-Runs : (id : ℤ) (m : Servers) → Runs m [] (accept_connection id m)
  unfolding accept_connection flush_server_trans_queue
  accept-Runs (negsuc n) m = same-Runs m
  accept-Runs (pos j) m =
      let m1 = flush_server_trans_queue j m in
      if_cases m [] (ltb 2 j) m _ (same-Runs m) (
        if_cases m [] (m j).connected m _ (same-Runs m) (
          then-Runs m m1 _ [] [] (pop_rounds-Runs (length (m j).trans_queue) j m)
            (flags-Runs m1 j true false)))

  -- A message that is read and dropped is one that is lost.
  dropped-Runs : (msg : ReplicaMsgT) (m : Servers) → Runs m (addressed msg) m
  unfolding Runs
  dropped-Runs msg m = elim (Bool-cases (msg.receiver_id == i)) [
    | inl own ↦
        let c = channel (m i) in
        let new = record c { waiting = c.waiting ++ msg ∷ [] } in
        rw own (
          sends c c [] msg (ground (arith, own)) (
            loses_to new c refl (
              subst (λ (l : List ReplicaMsgT). Sublistᴰ l (c.waiting ++ msg ∷ []))
                (append-nil c.waiting)
                (Sublistᴰ.append (Sublistᴰ.refl c.waiting) (nothing_of (msg ∷ []))))))
    | inr other_id ↦ rw other_id (idle (channel (m i)))
  ]

  append-Runs :
      (t : TransQueueItem) (m : Servers)
      → Runs m (addressed t.msg) (append_server_trans_queue t.msg.receiver_id t m)
  unfolding append_server_trans_queue channel
  append-Runs t m =
      let j = t.msg.receiver_id in
      let p = m j in
      let longer = record p { trans_queue = p.trans_queue ++ t ∷ [] } in
      let c = channel p in
      let same : channel longer ≡ record c { waiting = c.waiting ++ t.msg ∷ [] } =
        ap (λ (l : List ReplicaMsgT). record { waiting = l; delivered = p.written })
          (ap (λ (l : List ReplicaMsgT). held_msgs p.held ++ l) (msgs-append p.trans_queue t)
            ∙ sym (append_assoc (held_msgs p.held) (msgs p.trans_queue) (t.msg ∷ []))) in
      elim (Bool-cases (j == i)) [
        | inl own ↦ rw own (
            update-Runs m j longer (t.msg ∷ [])
              (subst (ChannelRun j c (t.msg ∷ [])) (sym same)
                (sends c _ [] t.msg refl (idle (record c { waiting = c.waiting ++ t.msg ∷ [] }))))
              (λ differ. absurd (differ (ground (arith, own)))))
        | inr other_id ↦ rw other_id (elsewhere m j longer (ground (arith, other_id)))
      ]

  receive-Runs :
      (j : ℕ) (msg : ReplicaMsgT) (now : ℕ) (m : Servers)
      → Runs m (addressed msg) (receive_message j msg now m)
  unfolding receive_message
  receive-Runs j msg now m = if_cases m (addressed msg) (m j).partitioned m _ (dropped-Runs msg m) (
      if_cases m (addressed msg) (m msg.receiver_id).connected _ m
        (append-Runs (record { enqueue_time = now; msg = msg }) m) (dropped-Runs msg m))

  disconnect-Runs : (j : ℕ) (m : Servers) → Runs m [] (disconnect j m)
  unfolding disconnect
  disconnect-Runs j m = flags-Runs m j false (m j).partitioned

  read_cases :
      (j now : ℕ) (r : Read ReplicaMsgT) (m : Servers)
      → Runs m (read_msgs r) (elim r as (λ _. Servers) [
        | lost ↦ disconnect j m
        | broken ↦ m
        | whole msg ↦ receive_message j msg now m
      ])
  read_cases j now lost m = disconnect-Runs j m
  read_cases j now broken m = same-Runs m
  read_cases j now (whole msg) m = receive-Runs j msg now m

  -- A thread that finds its connection closed ends without the message.
  read_dropped :
      (j : ℕ) (r : Read ReplicaMsgT) (m : Servers) → Runs m (read_msgs r) (disconnect j m)
  read_dropped j lost m = disconnect-Runs j m
  read_dropped j broken m = disconnect-Runs j m
  read_dropped j (whole msg) m =
      subst (λ (l : List ReplicaMsgT). Runs m l (disconnect j m)) (append-nil (addressed msg))
        (then-Runs m m (disconnect j m) (addressed msg) [] (dropped-Runs msg m)
          (disconnect-Runs j m))

  recv_round-Runs :
      (j : ℕ) (f : Frame ReplicaMsgT) (now : ℕ) (m : Servers)
      → Runs m (read_msgs (read_loose f)) (recv_round j f now m)
  unfolding recv_round
  recv_round-Runs j f now m =
      if_cases m (read_msgs (read_loose f)) (m j).connected _ (disconnect j m)
        (read_cases j now (read_loose f) m) (read_dropped j (read_loose f) m)

  take_cases :
      (m : Servers) (j : ℕ) (h : Option TransQueueItem) (q : List TransQueueItem)
      → Sublistᴰ (held_msgs h ++ msgs q) (held_msgs (m j).held ++ msgs (m j).trans_queue)
      → Runs m [] (elim h as (λ _. Servers) [
        | some t ↦ m
        | none ↦ elim q as (λ _. Servers) [
          | [] ↦ m
          | t ∷ ts ↦ update m j (record (m j) { trans_queue = ts; held = some t })
        ]
      ])
  unfolding msgs
  take_cases m j (some t) q k = same-Runs m
  take_cases m j none [] k = same-Runs m
  take_cases m j none (t ∷ ts) k =
      drop-Runs m j (record (m j) { trans_queue = ts; held = some t }) refl k

  take-Runs : (j : ℕ) (m : Servers) → Runs m [] (take_item j m)
  unfolding take_item
  take-Runs j m =
      take_cases m j (m j).held (m j).trans_queue
        (Sublistᴰ.refl (held_msgs (m j).held ++ msgs (m j).trans_queue))

  transfer_cases :
      (m : Servers) (j : ℕ) (h : Option TransQueueItem)
      → (m j).held ≡ h
      → Runs m [] (elim h as (λ _. Servers) [
        | none ↦ m
        | some t ↦
            let free = record (m j) { held = none } in
            update m j (
              if (m j).partitioned
              then free
              else record free { written = free.written ++ t.msg ∷ [] })
      ])
  unfolding channel
  transfer_cases m j none e = same-Runs m
  transfer_cases m j (some t) e =
      let p = m j in
      let free = record p { held = none } in
      let sent = record free { written = free.written ++ t.msg ∷ [] } in
      let full : held_msgs p.held ++ msgs p.trans_queue ≡ t.msg ∷ msgs p.trans_queue =
        ap (λ (o : Option TransQueueItem). held_msgs o ++ msgs p.trans_queue) e in
      elim p.partitioned as (λ (b : Bool). Runs m [] (update m j (if b then free else sent))) [
        | true ↦ drop-Runs m j free refl (
            subst (Sublistᴰ (msgs p.trans_queue)) (sym full)
              (Sublistᴰ.cons (Sublistᴰ.refl (msgs p.trans_queue))))
        | false ↦
            update-Runs m j sent []
              (subst
                (λ (l : List ReplicaMsgT).
                  ChannelRun j (record { waiting = l; delivered = p.written }) [] (channel sent))
                (sym full)
                (delivers (channel sent) [] (msgs p.trans_queue) p.written t.msg
                  (idle (channel sent))))
              (λ _. refl)
      ]

  transfer-Runs : (j : ℕ) (m : Servers) → Runs m [] (transfer_item j m)
  unfolding transfer_item
  transfer-Runs j m = transfer_cases m j (m j).held refl

  toggle-Runs : (j : ℕ) (m : Servers) → Runs m [] (server_partition_toggle j m)
  unfolding server_partition_toggle
  toggle-Runs j m =
      if_cases m [] (m j).connected _ m (flags-Runs m j (m j).connected (not (m j).partitioned))
        (same-Runs m)

  line_cases :
      (o : Option ℕ) (m : Servers)
      → Runs m [] (elim o as (λ _. Servers) [ none ↦ m | some id ↦ server_partition_toggle id m ])
  line_cases none m = same-Runs m
  line_cases (some id) m = toggle-Runs id m

  pub MeshStep-Runs : {m m' : Servers} (step : MeshStep m m') → Runs m (step_msgs step) m'
  unfolding run_line
  MeshStep-Runs (connects id m) = accept-Runs id m
  MeshStep-Runs (receives j f now m) = recv_round-Runs j f now m
  MeshStep-Runs (disconnects j m) = disconnect-Runs j m
  MeshStep-Runs (takes_item j m) = take-Runs j m
  MeshStep-Runs (transfers j m) = transfer-Runs j m
  MeshStep-Runs (toggles line m) = line_cases (toggled_server (split line)) m

  -- Any run of the simulated network is, for each replica, a run of a channel with the messages to
  -- it that the network reads, held and queued ones as the waiting ones and written ones as the
  -- delivered: a channel takes a message at its end, delivers the first, and may lose any that
  -- wait.
  pub MeshRun-ChannelRun :
      {m m' : Servers} (run : MeshRun m m')
      → ChannelRun i (channel (m i)) (run_msgs run) (channel (m' i))
  unfolding Runs
  MeshRun-ChannelRun (rests m) = same-Runs m
  MeshRun-ChannelRun (moves {m = m} {m1 = m1} {m2 = m2} step run) =
      then-Runs m m1 m2 (step_msgs step) (run_msgs run) (MeshStep-Runs step)
        (MeshRun-ChannelRun run)

  -- If nothing was written to a replica and nothing was on its way to it, then after any run of
  -- the simulated network the messages written to it are some of those to it that the network has
  -- read, each once and in their order.
  pub delivered_in_order :
      {m m' : Servers} (run : MeshRun m m')
      → held_msgs (m i).held ++ msgs (m i).trans_queue ≡ []
      → (m i).written ≡ []
      → Sublistᴰ (m' i).written (run_msgs run)
  unfolding channel
  delivered_in_order {m = m} {m' = m'} run empty fresh =
      let out = (m' i).written in
      let waiting = held_msgs (m' i).held ++ msgs (m' i).trans_queue in
      let start : (channel (m i)).delivered ++ (channel (m i)).waiting ≡ [] =
        ap₂ (λ (x y : List ReplicaMsgT). x ++ y) fresh empty in
      Sublistᴰ.trans
        (subst (λ (l : List ReplicaMsgT). Sublistᴰ l (out ++ waiting)) (append-nil out)
          (Sublistᴰ.append (Sublistᴰ.refl out) (nothing_of waiting)))
        (subst (λ (l : List ReplicaMsgT). Sublistᴰ (out ++ waiting) (l ++ run_msgs run)) start
          (ChannelRun-Sublist (MeshRun-ChannelRun run)))
