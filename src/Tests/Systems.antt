-- ===== src/Tests/Systems.antt =====
-- An election over the simulated network: the request of replica 0 and the vote of replica 1 pass
-- through mesh.cpp.
use blockchain_raft.Base.{◌∷◌, ℕ, ◌≡◌, ap, ◌∙◌, refl, some, get_elem?, arith, pos, []}
use blockchain_raft.Frame.{Frame, whole, read_loose, read_frame-whole}
use blockchain_raft.Msg.{ReplicaMsgT}
use blockchain_raft.Mesh.{
  Servers, recv_round, take_item, transfer_item, receives, takes_item, transfers,
}
use blockchain_raft.Cluster.{campaigning, following, leading, Nodes}
use blockchain_raft.System.{SystemRun, acts, meshes, hears, done, next, IsBounded, IsFromReplica}
use blockchain_raft.System.Elections.{one_leader_over_mesh}
use blockchain_raft.Tests.{demo}
use blockchain_raft.Tests.Links.{quiet}
use blockchain_raft.Tests.Elections.{
  start, waited, asked, delivered, voted, returned, counted, won, request, grant, timed_out,
  standing, answered, elected, leads_now, times_out, stands_up, votes, counts, takes_office,
  start-IsInitial, start-HasTerms, waited-HasTerms, asked-HasTerms, delivered-HasTerms,
  voted-HasTerms, returned-HasTerms, counted-HasTerms, won-HasTerms,
}

-- Four bytes that are parsed as that message.
abbrev whole_frame : ReplicaMsgT → Frame ReplicaMsgT
whole_frame msg = record {
  header_count = pos 4;
  msg_bytes = 4;
  body_count = pos 4;
  received = 0 ∷ 0 ∷ 0 ∷ 0 ∷ [];
  leftover = [];
  parse = λ bytes. msg;
}

from_sent :
    (c : Nodes) (j k : ℕ) (msg : ReplicaMsgT) (now : ℕ) (m : Servers)
    → get_elem? (c j).server.network.replica_out k ≡ some msg
    → IsFromReplica c (receives j (whole_frame msg) now m)
from_sent c j k msg now m at read e =
    let same : msg ≡ read = ((read_frame-whole 4 (whole_frame msg) read).0 e).3 in
    (k, at ∙ ap some same)

-- The request on its way to replica 1.
abbrev asked_for : Servers
asked_for = recv_round 0 (whole_frame (request 1)) 100 quiet

abbrev request_out : Servers
request_out = transfer_item 1 (take_item 1 asked_for)

-- The vote on its way to replica 0.
abbrev granted : Servers
granted = recv_round 1 (whole_frame grant) 2000 request_out

abbrev grant_out : Servers
grant_out = transfer_item 0 (take_item 0 granted)

request_there : get_elem? (request_out 1).written 0 ≡ some (request 1)
unfolding transfer_item take_item recv_round blockchain_raft.Mesh.append_server_trans_queue
    blockchain_raft.Mesh.receive_message blockchain_raft.Frame.read_frame
request_there = refl

grant_there : get_elem? (grant_out 0).written 0 ≡ some grant
unfolding transfer_item take_item recv_round blockchain_raft.Mesh.append_server_trans_queue
    blockchain_raft.Mesh.receive_message blockchain_raft.Frame.read_frame
grant_there = refl

answer : SystemRun demo delivered request_out won grant_out
answer = next (acts 1 delivered following answered.server request_out (omega arith) votes) (
    next
      (meshes voted request_out granted (receives 1 (whole_frame grant) 2000 request_out)
        (from_sent voted 1 0 grant 2000 request_out refl))
      (next (meshes voted granted (take_item 0 granted) (takes_item 0 granted) tt) (
        next (meshes voted (take_item 0 granted) grant_out (transfers 0 (take_item 0 granted)) tt) (
          next (hears 0 0 grant voted grant_out grant_there) (
            next (acts 0 returned (campaigning 2) elected grant_out (omega arith) counts) (
              next (acts 0 counted leading leads_now grant_out (omega arith) takes_office)
                (done won grant_out)))))))

answer-IsBounded : IsBounded answer
unfolding answer
answer-IsBounded = (
  delivered-HasTerms,
  (
    voted-HasTerms,
    (
      voted-HasTerms,
      (voted-HasTerms, (voted-HasTerms, (returned-HasTerms, (counted-HasTerms, won-HasTerms)))),
    ),
  ),
)

election : SystemRun demo start quiet won grant_out
election = next (acts 0 start following timed_out.server quiet (omega arith) times_out) (
    next (acts 0 waited (campaigning 1) standing quiet (omega arith) stands_up) (
      next
        (meshes asked quiet asked_for (receives 0 (whole_frame (request 1)) 100 quiet)
          (from_sent asked 0 0 (request 1) 100 quiet refl))
        (next (meshes asked asked_for (take_item 1 asked_for) (takes_item 1 asked_for) tt) (
          next
            (meshes asked (take_item 1 asked_for) request_out (transfers 1 (take_item 1 asked_for))
              tt)
            (next (hears 1 0 (request 1) asked request_out request_there) answer)))))

election-IsBounded : IsBounded election
unfolding election
election-IsBounded = (
  start-HasTerms,
  (
    waited-HasTerms,
    (asked-HasTerms, (asked-HasTerms, (asked-HasTerms, (asked-HasTerms, answer-IsBounded)))),
  ),
)

one_leader_over_mesh_example : ◌≡◌ {A = ℕ} 0 0
unfolding blockchain_raft.Mesh.Order.msgs
one_leader_over_mesh_example =
    one_leader_over_mesh 0 0 election (done won grant_out) start-IsInitial (λ i. refl)
      election-IsBounded won-HasTerms (omega arith) (omega arith) refl refl refl
