-- ===== src/Cluster/Node/Both.antt =====
-- A node of cluster/cluster.go that is leader and follower at once: the push server and the hub
-- take from one channel.
use minipush.Base.{ℕ, zero, suc, true, false, List, [], ◌∷◌, ◌++◌, ◌≡◌, refl}
use minipush.Proto.{LeaderMsg}
use minipush.Cluster.Node.{
  Roles, Node, new_cluster, storage_sends, server_takes, hub_takes, client_receives, Reach, start,
  storage, server, hub, client,
}

abbrev pub both_roles : Roles
both_roles = record { run_leader = true; run_follower = true }

-- A node on which nothing waits but what the channel holds.
abbrev pub node : List LeaderMsg → List LeaderMsg → List LeaderMsg → List LeaderMsg → Node
node chan produced sent handled = record {
  send_msg_chan = chan;
  from_leader = [];
  client_runs = true;
  produced = produced;
  sent = sent;
  handled = handled;
}

abbrev pub copies : ℕ → LeaderMsg → List LeaderMsg
copies zero msg = []
copies (suc k) msg = copies k msg ++ msg ∷ []

produced_once : (msg : LeaderMsg) → Reach both_roles (node (msg ∷ []) (msg ∷ []) [] [])
unfolding new_cluster storage_sends
produced_once msg = storage msg new_cluster _ start refl refl

around :
    (msg : LeaderMsg) (sent : List LeaderMsg)
    → msg.server_shutdown ≡ false
    → Reach both_roles (node (msg ∷ []) (msg ∷ []) sent [])
    → Reach both_roles (node (msg ∷ []) (msg ∷ []) (sent ++ msg ∷ []) [])
unfolding server_takes client_receives
around msg sent e r =
    client _ _
      (server _ (record (node [] (msg ∷ []) (sent ++ msg ∷ []) []) { from_leader = msg ∷ [] }) r
        refl refl)
      refl refl (rw e refl)

repeats :
    (k : ℕ) (msg : LeaderMsg)
    → msg.server_shutdown ≡ false
    → Reach both_roles (node (msg ∷ []) (msg ∷ []) (copies k msg) [])
repeats zero msg e = produced_once msg
repeats (suc k) msg e = around msg (copies k msg) e (repeats k msg e)

-- On a node that is leader and follower, a message that the storage sends once, and that is no
-- shutdown, can be taken by the node's hub and sent to no hub at all, with nothing left to do; and
-- for every number it can be sent to the hubs that many times, and still wait in the channel.
pub both_lem :
    (msg : LeaderMsg) (k : ℕ)
    → msg.server_shutdown ≡ false
    → Reach both_roles (node [] (msg ∷ []) [] (msg ∷ []))
      × Reach both_roles (node (msg ∷ []) (msg ∷ []) (copies k msg) [])
unfolding hub_takes
both_lem msg k e = (hub _ _ (produced_once msg) refl refl, repeats k msg e)
