-- ===== src/Mesh.antt =====
-- `class Mesh` of mesh.cpp, the simulated network between the replicas: for each replica a queue of
-- messages to it, a thread that fills the queues of others, and a thread that empties its own. A
-- change that a thread makes is one function; the clock's readings are arguments.
pub mod Order
pub mod Steps
pub mod Channel
pub mod Refines
use blockchain_raft.Base.{
  ℕ, zero, suc, ◌+◌, ◌-◌, Bool, true, false, not, ◌&&◌, Option, none, some, List, [], ◌∷◌, ◌++◌,
  ltb, ◌==◌, if◌then◌else◌, length, get_or, leb, ℤ, pos, negsuc,
}
use blockchain_raft.Frame.{Frame, Read, lost, broken, whole, read_loose}
use blockchain_raft.Parameter.{server_count}
use blockchain_raft.Text.{atoi, equals}
use blockchain_raft.Text.Split.{split}
use blockchain_raft.Msg.{ReplicaMsgT}

-- MESH_NETWORK_DELAY_MS
abbrev pub network_delay_ms : ℕ
network_delay_ms = 500

pub record TransQueueItem : Type 0 where
  pub enqueue_time : ℕ
  pub msg : ReplicaMsgT

-- What `server_info_t` holds, the item that the sending thread has taken and not yet written, and
-- what it has written on the socket.
pub record ServerInfo : Type 0 where
  pub partitioned : Bool
  pub connected : Bool
  pub trans_queue : List TransQueueItem
  pub held : Option TransQueueItem
  pub written : List ReplicaMsgT

-- The array of the servers; the code reads no index beyond it that a replica sends.
abbrev pub Servers : Type 0
Servers = ℕ → ServerInfo

abbrev pub update : Servers → ℕ → ServerInfo → Servers
update m i p j = if j == i then p else m j

unfoldable pub append_server_trans_queue : ℕ → TransQueueItem → Servers → Servers
append_server_trans_queue i item m =
    update m i (record (m i) { trans_queue = (m i).trans_queue ++ item ∷ [] })

unfoldable pub pop_server_trans_queue : ℕ → Servers → Option TransQueueItem × Servers
pop_server_trans_queue i m = elim (m i).trans_queue [
  | [] ↦ (none, m)
  | t ∷ ts ↦ (some t, update m i (record (m i) { trans_queue = ts }))
]

-- for (int i = 0; i < count; i++): the items are dropped.
unfoldable pub pop_rounds : ℕ → ℕ → Servers → Servers
pop_rounds zero i m = m
pop_rounds (suc n) i m = pop_rounds n i (pop_server_trans_queue i m).1

unfoldable pub flush_server_trans_queue : ℕ → Servers → Servers
flush_server_trans_queue i m = pop_rounds (length (m i).trans_queue) i m

-- A connection from the port of that replica, once its earlier threads have ended.
unfoldable pub accept_connection : ℤ → Servers → Servers
accept_connection (negsuc n) m = m
accept_connection (pos i) m =
    if ltb 2 i
    then m
    else (if (m i).connected
        then m
        else (let m1 = flush_server_trans_queue i m in
            update m1 i (record (m1 i) { connected = true; partitioned = false })))

-- A message read from a replica's socket.
unfoldable pub receive_message : ℕ → ReplicaMsgT → ℕ → Servers → Servers
receive_message i msg now m =
    if (m i).partitioned
    then m
    else (if (m msg.receiver_id).connected
        then append_server_trans_queue msg.receiver_id (record { enqueue_time = now; msg = msg }) m
        else m)

-- The end of either thread.
unfoldable pub disconnect : ℕ → Servers → Servers
disconnect i m = update m i (record (m i) { connected = false })

-- A round of the receiving thread of replica `i`.
unfoldable pub recv_round : ℕ → Frame ReplicaMsgT → ℕ → Servers → Servers
recv_round i f now m =
    let next : Servers = elim (read_loose f) [
      | lost ↦ disconnect i m
      | broken ↦ m
      | whole msg ↦ receive_message i msg now m
    ] in
    if (m i).connected then next else disconnect i m

-- The sending thread takes the item at the front, if it does not hold one already.
unfoldable pub take_item : ℕ → Servers → Servers
take_item i m = elim (m i).held [
  | some t ↦ m
  | none ↦ elim (m i).trans_queue [
    | [] ↦ m
    | t ∷ ts ↦ update m i (record (m i) { trans_queue = ts; held = some t })
  ]
]

-- How long it sleeps then.
unfoldable pub delay : ℕ → TransQueueItem → ℕ
delay now t =
    let diff = now - t.enqueue_time in
    if ltb diff network_delay_ms then network_delay_ms - diff else 0

-- What it does with the item afterwards.
unfoldable pub transfer_item : ℕ → Servers → Servers
transfer_item i m = elim (m i).held [
  | none ↦ m
  | some t ↦
      let free = record (m i) { held = none } in
      update m i
        (if (m i).partitioned then free else record free { written = free.written ++ t.msg ∷ [] })
]

unfoldable pub server_partition_toggle : ℕ → Servers → Servers
server_partition_toggle i m =
    if (m i).connected then update m i (record (m i) { partitioned = not (m i).partitioned }) else m

-- The command line of `main`: `none` is that it says what is wrong, or ignores the line.
unfoldable pub toggled_server : List (List ℕ) → Option ℕ
toggled_server args =
    if equals (get_or args 0 []) (b't' ∷ b'o' ∷ b'g' ∷ b'g' ∷ b'l' ∷ b'e' ∷ [])
      && (length args == 2)
    then (elim (atoi (get_or args 1 [])) [
      | negsuc n ↦ none
      | pos id ↦ if leb server_count id then none else some id
    ])
    else none

unfoldable pub run_line : List ℕ → Servers → Servers
run_line line m = elim (toggled_server (split line)) [
  | none ↦ m
  | some id ↦ server_partition_toggle id m
]

-- A change that one of the threads makes.
pub data MeshStep : Servers → Servers → Type 0 where
  connects : (id : ℤ) (m : Servers) → MeshStep m (accept_connection id m)
  receives :
      (i : ℕ) (f : Frame ReplicaMsgT) (now : ℕ) (m : Servers) → MeshStep m (recv_round i f now m)
  disconnects : (i : ℕ) (m : Servers) → MeshStep m (disconnect i m)
  takes_item : (i : ℕ) (m : Servers) → MeshStep m (take_item i m)
  transfers : (i : ℕ) (m : Servers) → MeshStep m (transfer_item i m)
  toggles : (line : List ℕ) (m : Servers) → MeshStep m (run_line line m)

pub data MeshRun : Servers → Servers → Type 0 where
  rests : (m : Servers) → MeshRun m m
  moves : {m m1 m2 : Servers} → MeshStep m m1 → MeshRun m1 m2 → MeshRun m m2
