-- ===== src/Main/Config.antt =====
-- What `run` of main.go makes of the flags for the hub and for the cluster.
use minipush.Base.{Bool, String}
use minipush.Base.Int.{ℤ, pos, wrap32}
use minipush.Base.Keys.{string_eq}
use minipush.Proto.{WsConf}
use minipush.Main.{Flags}
use minipush.Cluster.Storage.{Storage, new_storage}

-- The part of `ClusterCfg` of cluster/cluster.go that the flags give.
pub record ClusterCfg : Type 0 where
  pub addr : String
  pub enable_client_msg : Bool
  pub event_payload_max_bytes : ℤ
  pub session_quota : ℤ
  pub clean_events : Bool
  pub event_ttl_days : ℤ
  pub run_leader : Bool
  pub run_follower : Bool
  pub leader_addr : String

abbrev pub event_payload_max_bytes : ℤ
event_payload_max_bytes = pos 4096

unfoldable pub ws_conf_of : Flags → WsConf
ws_conf_of flags = record {
  event_ttl_days = wrap32 (pos flags.event_ttl_days);
  get_events_limit = wrap32 (pos flags.get_events_limit);
  enable_client_msg = flags.enable_client_msg;
  max_msg_size = event_payload_max_bytes;
}

unfoldable pub cluster_cfg_of : Flags → ClusterCfg
cluster_cfg_of flags = record {
  addr = flags.addr;
  enable_client_msg = flags.enable_client_msg;
  event_payload_max_bytes = event_payload_max_bytes;
  session_quota = wrap32 (pos flags.session_quota);
  clean_events = flags.clean_events;
  event_ttl_days = wrap32 (pos flags.event_ttl_days);
  run_leader = flags.leader;
  run_follower = flags.follower;
  leader_addr = flags.join;
}

-- The call of `newStorage` in cluster/standalone.go and cluster/cluster.go.
unfoldable pub storage_of : ClusterCfg → Storage
unfolding new_storage
storage_of cfg = new_storage cfg.clean_events cfg.event_ttl_days cfg.event_payload_max_bytes
