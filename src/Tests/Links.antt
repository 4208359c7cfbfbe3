-- ===== src/Tests/Links.antt =====
-- The simulated network on two messages.
use blockchain_raft.Base.{◌+◌, ◌≤◌, ◌≡◌, refl, true, false, none, [], ◌∷◌, arith, pos}
use blockchain_raft.Frame.{Frame}
use blockchain_raft.Msg.{ReplicaMsgT}
use blockchain_raft.Network.{blank_msg}
use blockchain_raft.Mesh.{
  network_delay_ms, TransQueueItem, Servers, delay, recv_round, take_item, transfer_item, MeshRun,
  rests, moves, receives, takes_item, transfers,
}
use blockchain_raft.Mesh.Order.{delay_lem}
use blockchain_raft.Mesh.Channel.{ChannelRun}
use blockchain_raft.Mesh.Refines.{channel, MeshRun-ChannelRun}

-- All servers are connected, and nothing is on the way.
abbrev pub quiet : Servers
quiet i = record {
  partitioned = false;
  connected = true;
  trans_queue = [];
  held = none;
  written = [];
}

-- A message that is read whole.
abbrev whole_frame : Frame ReplicaMsgT
whole_frame = record {
  header_count = pos 4;
  msg_bytes = 4;
  body_count = pos 4;
  received = 0 ∷ 0 ∷ 0 ∷ 0 ∷ [];
  leftover = [];
  parse = λ bytes. blank_msg 2 2;
}

-- Replica 0 sends a message to replica 2, which gets it.
abbrev sent : Servers
sent = recv_round 0 whole_frame 100 quiet

abbrev got : Servers
got = transfer_item 2 (take_item 2 sent)

abbrev passes : MeshRun quiet got
passes =
    moves (receives 0 whole_frame 100 quiet)
      (moves (takes_item 2 sent) (moves (transfers 2 (take_item 2 sent)) (rests got)))

one_message : (got 2).written ≡ blank_msg 2 2 ∷ []
unfolding transfer_item take_item recv_round blockchain_raft.Mesh.append_server_trans_queue
    blockchain_raft.Mesh.receive_message blockchain_raft.Frame.read_frame
one_message = refl

MeshRun-ChannelRun_example : ChannelRun 2 (channel (quiet 2)) (blank_msg 2 2 ∷ []) (channel (got 2))
unfolding blockchain_raft.Frame.read_frame
MeshRun-ChannelRun_example = MeshRun-ChannelRun 2 passes

delay_lem_example : 100 + 500 ≤ 300 + delay 300 (record { enqueue_time = 100; msg = blank_msg 2 2 })
delay_lem_example = delay_lem 300 (record { enqueue_time = 100; msg = blank_msg 2 2 }) (omega arith)
