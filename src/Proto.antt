-- ===== src/Proto.antt =====
-- The messages of proto/api.pb.go that the program passes around, field by field, without the
-- bookkeeping fields that the generator adds. A nil pointer is `none`, a `map` is a list of entries.
use minipush.Base.{ℕ, List, Bool, Option, String, none, [], false}
use minipush.Base.Int.{ℤ, pos}

pub record Event : Type 0 where
  pub uid : ℤ
  pub seq : ℤ
  pub create_time : ℤ
  pub payload : String
  pub read_state : Bool

pub record WsConf : Type 0 where
  pub event_ttl_days : ℤ
  pub get_events_limit : ℤ
  pub enable_client_msg : Bool
  pub max_msg_size : ℤ

pub record GetEventsReq : Type 0 where
  pub from_seq : ℤ
  pub to_seq : ℤ

pub record GetEventsResp : Type 0 where
  pub events : List Event

pub record StatsReq : Type 0 where
  pub count_unread : Bool

pub record StatsResp : Type 0 where
  pub conf : Option WsConf
  pub head_seq : ℤ
  pub unread_count : ℤ

pub record GetReadStatesReq : Type 0 where
  pub head_seq : ℤ

-- The text of `base64` is the list of its byte values.
pub record Block : Type 0 where
  pub seq : ℤ
  pub len : ℤ
  pub base64 : List ℕ

pub record GetReadStatesResp : Type 0 where
  pub blocks : List Block

pub record SetReadReq : Type 0 where
  pub seq : ℤ

pub record SetReadResp : Type 0 where
  pub seq : ℤ
  pub changed : Bool

pub record E2eMsg : Type 0 where
  pub kind : String
  pub from : ℤ
  pub to : List ℤ
  pub props : List (String × String)
  pub body : String

pub record ClientMsg : Type 0 where
  pub stats : Option StatsReq
  pub get_events : Option GetEventsReq
  pub set_read : Option SetReadReq
  pub get_read_states : Option GetReadStatesReq
  pub im : Option E2eMsg

pub record Error : Type 0 where
  pub code : ℤ
  pub params : List String
  pub req : Option ClientMsg

pub record ServerMsg : Type 0 where
  pub error : Option Error
  pub head_seq : ℤ
  pub kickoff : Bool
  pub stats : Option StatsResp
  pub get_events : Option GetEventsResp
  pub get_read_states : Option GetReadStatesResp
  pub set_read : Option SetReadResp

pub record Session : Type 0 where
  pub hub_id : String
  pub uid : ℤ
  pub sid : String
  pub ip : String
  pub create_time : ℤ
  pub kickoff_time : ℤ

pub record FollowerMsg : Type 0 where
  pub session_online : Option Session
  pub session_offline : String
  pub sync_sessions : List Session
  pub server_shutdown : Bool
  pub e2e_msg : Option E2eMsg

pub record LeaderMsg : Type 0 where
  pub head_seq : List (ℤ × ℤ)
  pub kickoff : List String
  pub server_shutdown : Bool

-- The messages with no field set.
abbrev pub no_client_msg : ClientMsg
no_client_msg = record {
  stats = none;
  get_events = none;
  set_read = none;
  get_read_states = none;
  im = none;
}

abbrev pub no_server_msg : ServerMsg
no_server_msg = record {
  error = none;
  head_seq = pos 0;
  kickoff = false;
  stats = none;
  get_events = none;
  get_read_states = none;
  set_read = none;
}

abbrev pub no_follower_msg : FollowerMsg
no_follower_msg = record {
  session_online = none;
  session_offline = "";
  sync_sessions = [];
  server_shutdown = false;
  e2e_msg = none;
}

abbrev pub no_leader_msg : LeaderMsg
no_leader_msg = record { head_seq = []; kickoff = []; server_shutdown = false }
