-- ===== src/Examples/Nodes.antt =====
-- The hub's and the handlers' theorems (ws/*.go) at concrete inputs.
use minipush.Base.{true, false, String, none, some, List, [], ◌∷◌, ◌≡◌, refl, arith}
use minipush.Base.Int.{pos}
use minipush.Base.Keys.{string_eq}
use minipush.Proto.{
  WsConf, Session, ClientMsg, no_client_msg, no_server_msg, no_follower_msg, no_leader_msg,
}
use minipush.Ws.Api.{EventStore, err}
use minipush.Ws.Handler.{
  Handler, new_handler, SessionData, Read, server_msg, text, send_value, returns,
}
use minipush.Ws.Handler.Closing.{append_all, send_value_stranded}
use minipush.Ws.Hub.{Hub, kickoff_value}
use minipush.Ws.Hub.Led.{HubEvent, comes, reached, lost, led}

abbrev conf : WsConf
conf = record {
  event_ttl_days = pos 30;
  get_events_limit = pos 100;
  enable_client_msg = true;
  max_msg_size = pos 4096;
}

abbrev session : String → Session
session sid = record {
  hub_id = "";
  uid = pos 7;
  sid = sid;
  ip = "10.0.0.1";
  create_time = pos 5;
  kickoff_time = pos 0;
}

abbrev one : Handler
one = new_handler (session "a")

abbrev two : Handler
two = new_handler (session "b")

-- Both sessions come, and the leader kicks off the first one.
abbrev life : List HubEvent
life =
    reached
    ∷ comes one
    ∷ comes two
    ∷ led (record no_leader_msg { kickoff = "a" ∷ [] })
    ∷ lost
    ∷ reached
    ∷ []

abbrev lived : Hub
lived = record {
  ws_conf = conf;
  handlers = ("b", two) ∷ [];
  online = true;
  follower_c =
      record no_follower_msg { session_online = some (session "a") }
      ∷ record no_follower_msg { session_online = some (session "b") }
      ∷ record no_follower_msg { sync_sessions = session "b" ∷ [] }
      ∷ [];
}

abbrev hub : Hub
hub = record {
  ws_conf = conf;
  handlers = ("a", one) ∷ ("b", two) ∷ [];
  online = false;
  follower_c = [];
}

abbrev hub_after : Hub
hub_after = record { ws_conf = conf; handlers = ("b", two) ∷ []; online = false; follower_c = [] }

abbrev values16 : List SessionData
values16 =
    kickoff_value ∷ kickoff_value ∷ kickoff_value ∷ kickoff_value ∷ kickoff_value ∷ kickoff_value
    ∷ kickoff_value ∷ kickoff_value ∷ kickoff_value ∷ kickoff_value ∷ kickoff_value ∷ kickoff_value
    ∷ kickoff_value ∷ kickoff_value ∷ kickoff_value ∷ kickoff_value ∷ []

send_value_stranded_example :
    (h' : Handler) × (send_value false (server_msg no_server_msg) one ≡ some (h', false, returns))
    × (h'.closing ≡ false)
    × (append_all values16 h' ≡ none)
unfolding new_handler
send_value_stranded_example =
    send_value_stranded no_server_msg one values16 refl (omega arith) (omega arith)

-- A store that fails every call.
abbrev failing : EventStore Unit
failing = record {
  stats = λ _ _ _ s. (err "no rows", s);
  get_events = λ _ _ s. (err "no rows", s);
  set_read = λ _ _ s. (err "no rows", s);
  get_read_states = λ _ _ _ s. (err "no rows", s);
}

abbrev stats_req : ClientMsg
stats_req = record no_client_msg { stats = some (record { count_unread = true }) }

-- Two requests, and a text that is none; what follows is not read.
abbrev reads : List Read
reads =
    text stats_req none
    ∷ text stats_req none
    ∷ text stats_req (some "bad")
    ∷ text stats_req none
    ∷ []
