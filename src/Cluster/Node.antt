-- ===== src/Cluster/Node.antt =====
-- A node of the cluster: `Cluster` of cluster/cluster.go with the loops that share its channel of
-- leader messages, which are those of `storage`, `pushServer`, `client` and `Hub`. A step is one
-- receive or send of one loop; which loop is next is open.
pub mod Order
pub mod Both
pub mod Running
pub mod Serving
use minipush.Base.{
  ℕ, Bool, true, false, String, Option, none, some, List, [], ◌∷◌, ◌++◌, ltb, length, if◌then◌else◌,
  ◌≡◌, ◌⊎◌,
}
use minipush.Proto.{LeaderMsg}

pub record Roles : Type 0 where
  pub run_leader : Bool
  pub run_follower : Bool

-- `send_msg_chan` is the channel, oldest first. `from_leader` is what Recv of the node's client will
-- return; `client_runs` is false once its loop has ended. `produced` lists what the storage of the
-- leader has sent, `sent` what the push server has handed to the streams of all hubs, the node's own
-- among them, and `handled` what the hub has taken.
pub record Node : Type 0 where
  pub send_msg_chan : List LeaderMsg
  pub from_leader : List LeaderMsg
  pub client_runs : Bool
  pub produced : List LeaderMsg
  pub sent : List LeaderMsg
  pub handled : List LeaderMsg

-- make(chan *pb.LeaderMsg, 8)
abbrev pub send_msg_chan_cap : ℕ
send_msg_chan_cap = 8

unfoldable pub new_cluster : Node
new_cluster = record {
  send_msg_chan = [];
  from_leader = [];
  client_runs = true;
  produced = [];
  sent = [];
  handled = [];
}

-- m.sendMsgChan <- msg; `none` if it blocks.
unfoldable pub send_msg : LeaderMsg → Node → Option Node
send_msg msg n =
    if ltb (length n.send_msg_chan) send_msg_chan_cap
    then some (record n { send_msg_chan = n.send_msg_chan ++ msg ∷ [] })
    else none

-- c.pushChan <- msg, in the storage.
unfoldable pub storage_sends : LeaderMsg → Node → Option Node
unfolding send_msg
storage_sends msg n = send_msg msg (record n { produced = n.produced ++ msg ∷ [] })

-- The message's case of the select in `run` of the push server.
unfoldable pub server_takes : Roles → Node → Option Node
server_takes roles n = elim n.send_msg_chan [
  | [] ↦ none
  | msg ∷ rest ↦ some (record n {
    send_msg_chan = rest;
    sent = n.sent ++ msg ∷ [];
    from_leader = if roles.run_follower then n.from_leader ++ msg ∷ [] else n.from_leader;
  })
]

-- The message's case of the select in `Run` of the hub.
unfoldable pub hub_takes : Node → Option Node
hub_takes n = elim n.send_msg_chan [
  | [] ↦ none
  | msg ∷ rest ↦ some (record n { send_msg_chan = rest; handled = n.handled ++ msg ∷ [] })
]

-- What Recv of the client returns: io.EOF or Canceled or Unavailable, another error, or a message.
pub data Received : Type 0 where
  closed failed : Received
  message : LeaderMsg → Received

-- One round of `start` of the client.
unfoldable pub client_round : Received → Node → Option Node
unfolding send_msg
client_round closed n = some (record n { client_runs = false })
client_round failed n = some n
client_round (message msg) n =
    if msg.server_shutdown then some (record n { client_runs = false }) else send_msg msg n

unfoldable pub client_receives : Node → Option Node
unfolding client_round
client_receives n = elim n.from_leader [
  | [] ↦ none
  | msg ∷ rest ↦ client_round (message msg) (record n { from_leader = rest })
]

-- What the loops do that `Run` starts for the roles of the node. The messages of another node's
-- leader and the errors of Recv come from outside.
pub data Reach (roles : Roles) : Node → Type 0 where
  start : Reach roles new_cluster
  storage :
      (msg : LeaderMsg) (n n' : Node)
      → Reach roles n
      → roles.run_leader ≡ true
      → storage_sends msg n ≡ some n'
      → Reach roles n'
  server :
      (n n' : Node)
      → Reach roles n
      → roles.run_leader ≡ true
      → server_takes roles n ≡ some n'
      → Reach roles n'
  arrives :
      (msg : LeaderMsg) (n : Node)
      → Reach roles n
      → roles.run_leader ≡ false
      → roles.run_follower ≡ true
      → Reach roles
          (record n { from_leader = n.from_leader ++ msg ∷ []; produced = n.produced ++ msg ∷ [] })
  hub :
      (n n' : Node)
      → Reach roles n
      → roles.run_follower ≡ true
      → hub_takes n ≡ some n'
      → Reach roles n'
  client :
      (n n' : Node)
      → Reach roles n
      → roles.run_follower ≡ true
      → n.client_runs ≡ true
      → client_receives n ≡ some n'
      → Reach roles n'
  errors :
      (n n' : Node)
      → Reach roles n
      → roles.run_follower ≡ true
      → n.client_runs ≡ true
      → (client_round closed n ≡ some n') ⊎ (client_round failed n ≡ some n')
      → Reach roles n'
