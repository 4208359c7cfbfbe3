-- ===== src/Lib.antt =====
-- A verification of the Raft block chain: replicas that agree on a log of mined blocks and replay
-- its payments on a table of balances.
--
-- The parts and how they interact. A client sends a request to a replica's network (network.cpp),
-- which queues it; the client (client.cpp) waits for the response and follows announcements of a
-- new leader. The replicas send their messages through a simulated network (mesh.cpp). The replica
-- (server.cpp) runs the loop of its current state (state.cpp): a follower answers vote requests
-- and append messages and redirects clients; a candidate collects votes; a leader appends the
-- request's block to its log (blockchain.h), sends it to the others, waits for a majority,
-- commits, and answers. A commit applies the block's payment to the balances (balance_table.h).
-- Log and balances are also kept in files.
--
-- Which file models which part:
--   Base and its children: Boolean tests, lists over the native numbers, signed integers, the
--     conversions between int and uint32_t, and the result of a call that may exit.
--   Text: std::to_string, std::stoi, atoi and hexadecimal output; Text/Split the splitting of a
--     line at spaces. Float32: binary32 numbers as their bit patterns, with the operations that
--     the balances use; Float32/Parse reads them with std::stof and atof, Float32/Printed is about
--     their texts.
--   Frame: how every receiving thread reads a header and a body from a socket; what the buffer is
--     parsed as is an argument.
--   Parameter: parameter.h. Raft: raft.h and message.h. Msg: Msg.proto, and the record Extern of
--     what the program takes from the protocol buffer runtime and OpenSSL.
--   Block: the classes Transaction and Block. Chain: the class Blockchain with its file as bytes;
--     Chain/Header is the file's first line, Chain/Lines its lines, Chain/Cleanup and Chain/Saved
--     the writes, Chain/Load the reads, Chain/Linked the chain of hashes.
--   Balance: balance_table.h; Balance/Load reads the file. Network: the queues of network.cpp and
--     what is sent; Network/Queues is about sending and the received messages, Network/Wire
--     follows a message from packing to unpacking; Network/Clients is the side of network.cpp that
--     accepts clients and reads their requests, Network/Requests follows requests and responses
--     between client and server, Network/Link is the connection to the mesh.
--   Client: client.h and client.cpp; Client/Queue and Client/Receive are about the responses that
--     arrive, Client/Wait about the wait for a reply, Client/Commands the command loop of main.
--     Starter: content_starter.cpp. Main: the arguments of main.cpp.
--   Mesh: mesh.h and mesh.cpp, the simulated network between the replicas; Mesh/Order and
--     Mesh/Steps follow the messages through it, Mesh/Channel is what it promises and Mesh/Refines
--     that it keeps to it.
--   Server: server.h and server.cpp; Server/Commit relates the balances to the committed blocks,
--     and Server/Total is about when a commit returns.
--   Follower, Candidate, Leader: the three run loops of state.cpp. Follower/Vote, Follower/Append,
--     Follower/Extended, Follower/Late, Follower/Commits and Follower/Rounds treat votes, entries,
--     balances and whole rounds; Candidate/Election the count of votes; Leader/Main and
--     Leader/Wait hold the leader's definitions, Leader/Entries what it sends, Leader/Repairs what
--     a retry does to the follower's log, Leader/Replies what it counts, Leader/Stale a reply that
--     it finds in its queue, Leader/Commits its balances, Leader/Votes how it keeps term and vote.
--   Replica: any sequence of rounds of the three states; Replica/Votes its votes, Replica/Restart
--     what it forgets when it starts again.
--   Cluster: the replicas together, with the messages between them; Cluster/Mail, Cluster/Quiet
--     and Cluster/Just say what is known of messages, Cluster/Leads, Cluster/Waits,
--     Cluster/Follows, Cluster/Grants and Cluster/Campaigns what each round does to them,
--     Cluster/Safe puts these together for one replica, Cluster/Ballots and Cluster/Runs for all,
--     and Cluster/Elections draws the conclusions.
--   System: the replicas and the simulated network as one system; System/Elections brings the
--     conclusions over to it.
--   Tests: small values, and every theorem below at some of them.
--
-- How code becomes definitions. A method is a function of the object it changes, with the fields
-- in a record; a loop round is a function of the clock's readings and of the server. A call that
-- may reach exit(c) returns a Result, ok or exited c. Log output and the freeing of memory are
-- left out. The values of rand are an argument: a list for the nonce search, and one value for the
-- election timeout. A search that still runs when the list is used up is none. What the other
-- threads do between two rounds is an argument too: the messages that arrive, or any new network
-- in a step of a replica.
--
-- Numbers. uint32_t values are native numbers, wrapped where the code adds to a term and where int
-- and uint32_t meet; int values are integers. The theorems that need it state that a log has fewer
-- than 2^31 blocks or 2^32 blocks. A float is its bit pattern.
--
-- The cluster is a function from ids to replicas. A message in the list of those that a replica
-- has sent may be delivered in any later step, and stays there, so that loss, delay, repetition
-- and any order are covered; client requests may arrive at any time. A replica keeps its memory: a
-- restart, which forgets its vote, is no step. In the system of replicas and simulated network, a
-- message that mesh.cpp reads whole from a replica is one that the replica has sent, and one that
-- reaches a replica is one that mesh.cpp has written to it.
--
-- Fuel. Only the loop of clean_up_blocks has fuel, one more than the blocks there are; each round
-- drops a block; see Chain/Cleanup. Decimal output has ten digits, enough for 32 bits. The waits
-- of candidate and leader run over a list of rounds.
--
-- Conditions. A log is sound if it is linked by hashes and positions, its committed index has at
-- most four digits and it has fewer than 2^31 blocks. A saved chain is one whose file holds its
-- committed index and its blocks. A sendable message is one of the four types whose ids fit an
-- int.
--
-- Not modelled: debug_run of main.cpp, which nothing calls, unit_tests.cpp, the destructors, the
-- locks of the queues, and the socket calls, whose counts and outcomes are arguments of the loops.
-- Input and output stand at the end of what is modelled: a message counts as sent when it is
-- handed to the socket, and as received when the protocol buffer runtime has parsed it. SHA-256
-- and the encoding of a block are parameters.
pub mod Base
pub mod Text
pub mod Float32
pub mod Msg
pub mod Frame
pub mod Block
pub mod Chain
pub mod Parameter
pub mod Raft
pub mod Balance
pub mod Network
pub mod Client
pub mod Mesh
pub mod Server
pub mod Follower
pub mod Candidate
pub mod Leader
pub mod Replica
pub mod Cluster
pub mod System
pub mod Starter
pub mod Main
pub mod Tests
