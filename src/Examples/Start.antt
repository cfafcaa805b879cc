-- ===== src/Examples/Start.antt =====
-- The theorems on flags and on the standalone server at concrete inputs.
use minipush.Base.{true, false, String, none, some, List, [], ◌∷◌, ◌≡◌, if◌then◌else◌}
use minipush.Base.Int.{pos}
use minipush.Base.Keys.{string_eq}
use minipush.Base.Dict.{get}
use minipush.Proto.{Session, no_follower_msg}
use minipush.Cluster.Standalone.{new_standalone, clean_session}
use minipush.Cluster.Standalone.Cleaning.{Input, message, ticked, run, late, get-clean_session}
use minipush.Main.{Flags, Platform}
use minipush.Examples.Insertion.{insertion}
use minipush.Examples.Leader.{writer}

abbrev session : String → Session
session sid = record {
  hub_id = "";
  uid = pos 7;
  sid = sid;
  ip = "10.0.0.1";
  create_time = pos 5;
  kickoff_time = pos 0;
}

-- A session comes online twice over the quota of one, and the server cleans.
abbrev inputs : List Input
inputs =
    message (record no_follower_msg { session_online = some (session "a") }) (pos 20)
    ∷ message (record no_follower_msg { session_online = some (session "b") }) (pos 30)
    ∷ ticked (pos 50)
    ∷ []

get-clean_session_example :
    let s = run insertion writer inputs (new_standalone 1 4096) in
    get "a" (clean_session insertion (pos 200) s).0.sessions
    ≡ (if late (pos 200) (get "a" s.sessions) then none else get "a" s.sessions)
get-clean_session_example = get-clean_session insertion writer 1 4096 inputs (pos 200) "a"

-- Every host is a loopback address, and every file exists.
abbrev pub local : Platform
local = record {
  split_host_port = λ s. some (s, "8000");
  parse_ip = λ s. some (true, false);
  stat = λ s. true;
}

abbrev pub follower : Flags
follower = record {
  addr = "127.0.0.1:8000";
  pid_file = "minipush.pid";
  mysql_dsn = "root:@tcp(127.0.0.1:3306)/minipush";
  kafka_brokers = "127.0.0.1:9092";
  session_quota = 5;
  event_ttl_days = 30;
  get_events_limit = 100;
  clean_events = true;
  pprof_dir = "pprof";
  standalone = false;
  leader = false;
  follower = true;
  join = "127.0.0.1:8001";
  enable_demo = false;
  demo_static_dir = "";
  enable_client_msg = false;
}
