-- ===== src/Examples/Wiring.antt =====
-- The theorems on routes, nodes and the pid file at concrete inputs.
use minipush.Base.{
  ◌&&◌, eqb, ℕ, true, false, String, none, some, List, [], ◌∷◌, ◌++◌, if◌then◌else◌, ◌≡◌, ◌⊎◌, ◌↔◌,
  refl,
}
use minipush.Base.Int.{ℤ, pos}
use minipush.Base.Keys.{◌==◌, string_eq}
use minipush.Base.Dict.{get, put}
use minipush.Base.Results.{ok, err}
use minipush.Proto.{LeaderMsg, no_leader_msg, no_follower_msg}
use minipush.Cluster.Sessions.Lookup.{find}
use minipush.Cluster.Server.{
  returns, goes_on, panics, not_empty, PushServer, new_push_server, add_stream, broadcast,
  clean_sessions,
}
use minipush.Cluster.Server.Loops.{hub_id_of, route, Kept, route_lem}
use minipush.Cluster.Server.Routes.{Recv, message, broken, end_round, route_round, Reach-stream}
use minipush.Cluster.Server.Routes
use minipush.Cluster.Server.Reconnect.{reconnect_lost}
use minipush.Cluster.Node.{Roles, Node, new_cluster, storage_sends, server_takes}
use minipush.Cluster.Node
use minipush.Cluster.Node.Order.{one_role}
use minipush.Cluster.Node.Both.{both_roles, node, copies, both_lem}
use minipush.Cluster.Node.Running.{
  Run, start_run, leader_next, wait, one_if_added, before_stop, spawned, running, notifying,
  run_lem,
}
use minipush.Cluster.Node.Running
use minipush.Main.PidFile.{Os, PidError, IsFree, exists, save_pid, save_pid_lem}
use minipush.Examples.Insertion.{insertion}
use minipush.Examples.Leader.{writer, answers, server, store-IsConsistent}

abbrev news : LeaderMsg
news = record no_leader_msg { head_seq = (pos 7, pos 3) ∷ [] }

-- A hub connects, and a message is pushed to it.
abbrev routes : List (String × ℕ)
routes = ("h", 1) ∷ []

abbrev pushed : PushServer
pushed = broadcast answers news routes (add_stream "h" 1 (new_push_server 2 4))

pushed-Reach : Routes.Reach insertion writer routes pushed
unfolding add_stream new_push_server get put
pushed-Reach =
    Routes.Reach.pushes routes (add_stream "h" 1 (new_push_server 2 4)) answers news
      (Routes.Reach.opens [] (new_push_server 2 4) "h" 1 (Routes.Reach.start 2 4) refl)

has_stream : get "h" pushed.hub_streams ≡ some 1
unfolding add_stream new_push_server get put broadcast
has_stream = refl

Reach-stream_example : get "h" routes ≡ some 1
Reach-stream_example = Reach-stream insertion writer routes pushed "h" 1 pushed-Reach has_stream

-- A hub reports a session, and its stream breaks.
abbrev inputs : List (Recv × ℤ)
inputs =
    (message (record no_follower_msg { session_offline = "b" }), pos 50) ∷ (broken, pos 51) ∷ []

route_lem_example :
    ((not_empty "h" ≡ false)
      × (route answers insertion writer (some ("h" ∷ [])) 3 inputs server ≡ (server, panics)))
    ⊎ (((route answers insertion writer (some ("h" ∷ [])) 3 inputs server).1 ≡ returns)
        × ((returns ≡ goes_on)
            ⊎ (get "h"
                  (route answers insertion writer (some ("h" ∷ [])) 3 inputs server).0.hub_streams
                ≡ none))
        × ((h : String)
            → (("h" == h) ≡ true)
              ⊎ Kept (get h server.hub_streams) (
                  get h
                    (route answers insertion writer
                      (some ("h" ∷ []))
                      3
                      inputs
                      server).0.hub_streams)))
unfolding hub_id_of
route_lem_example = route_lem answers insertion writer (some ("h" ∷ [])) 3 inputs server

reconnect_lost_example :
    (get "h"
        (end_round "h" (
          route_round answers insertion writer "h" broken
            (pos 50)
            (add_stream "h" 2 server))).hub_streams
      ≡ none)
    × (find "h" "a"
          (clean_sessions answers insertion writer (pos 60) (
            end_round "h" (
              route_round answers insertion writer "h" broken
                (pos 50)
                (add_stream "h" 2 server)))).session_store
        ≡ none)
reconnect_lost_example =
    reconnect_lost answers insertion writer "h" "a" 2 (pos 50) (pos 60) server store-IsConsistent

abbrev leader_only : Roles
leader_only = record { run_leader = true; run_follower = false }

abbrev led : Node
led = record {
  send_msg_chan = [];
  from_leader = [];
  client_runs = true;
  produced = news ∷ [];
  sent = news ∷ [];
  handled = [];
}

led-Reach : Node.Reach leader_only led
unfolding new_cluster storage_sends server_takes
led-Reach =
    Node.Reach.server _ led (Node.Reach.storage news new_cluster _ Node.Reach.start refl refl) refl
      refl

one_role_example :
    (if leader_only.run_leader
      then led.sent ++ led.send_msg_chan
      else led.handled ++ (led.send_msg_chan ++ led.from_leader))
    ≡ led.produced
one_role_example = one_role leader_only led refl led-Reach refl

both_lem_example :
    Node.Reach both_roles (node [] (news ∷ []) [] (news ∷ []))
    × Node.Reach both_roles (node (news ∷ []) (news ∷ []) (copies 3 news) [])
both_lem_example = both_lem news 3 refl

-- The leader has been told to stop, and blocks.
abbrev blocked : Run
blocked = record {
  leader = notifying;
  client = spawned;
  counter = 1;
  cancelled = true;
  notified = false;
}

blocked-Reach : Running.Reach both_roles blocked
unfolding start_run leader_next
blocked-Reach =
    Running.Reach.leads _ blocked
      (Running.Reach.cancels _ (
        Running.Reach.leads (start_run both_roles)
          (record blocked { leader = running; cancelled = false }) Running.Reach.start refl))
      refl

run_lem_example :
    (before_stop blocked.leader ≡ true)
    × (wait blocked ≡ (
        if eqb (one_if_added blocked.leader) 0 && eqb (one_if_added blocked.client) 0
        then some (record blocked { notified = true })
        else none))
    × ((early : Run) × Running.Reach both_roles early
        × (early.notified ≡ true)
        × (early.leader ≡ running))
run_lem_example = run_lem both_roles blocked refl blocked-Reach

-- The pid file of a process that does not run any more.
abbrev os : Os
os = record {
  stat = λ name. exists;
  read_file = λ name. some "77";
  atoi = λ text. some (pos 77);
  find_process = λ pid. true;
  signal = λ pid. false;
  itoa = λ pid. "78";
  write_file = λ name text. true;
}

save_pid_lem_example :
    (IsFree os "minipush.pid"
      × ((save_pid os "minipush.pid" (pos 78)).1 ≡ ("minipush.pid", "78") ∷ [])
      × (((save_pid os "minipush.pid" (pos 78)).0 ≡ ok tt) ↔ (true ≡ true)))
    ⊎ ((IsFree os "minipush.pid" → ⊥)
        × ((save_pid os "minipush.pid" (pos 78)).1 ≡ [])
        × ((e : PidError) × ((save_pid os "minipush.pid" (pos 78)).0 ≡ err e)))
save_pid_lem_example = save_pid_lem os "minipush.pid" (pos 78)
