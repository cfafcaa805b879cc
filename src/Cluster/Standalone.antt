-- ===== src/Cluster/Standalone.antt =====
-- The server of one node: `Standalone` of cluster/standalone.go. What it sends to the hub and to
-- kafka is listed; it shares the rules on sessions with cluster/sessionstore.go.
pub mod Cleaning
pub mod Running
use minipush.Base.{
  ℕ, String, Option, none, some, List, [], ◌∷◌, ◌++◌, ltb, length, keep, if◌then◌else◌,
}
use minipush.Base.Int.{ℤ}
use minipush.Base.Keys.{◌==◌, int_eq, string_eq}
use minipush.Base.Dict.{get, put, delete}
use minipush.Proto.{Session, E2eMsg, FollowerMsg, LeaderMsg, no_leader_msg}
use minipush.Cluster.Sorter.{Sorter}
use minipush.Cluster.Messages.{KafkaWriter, save_e2e_msg}
use minipush.Cluster.Sessions.{Sids, values, is_of, is_overdue, group, oldest_beyond, beyond_quota}
use minipush.Cluster.Server.{Round, goes_on, returns, panics, not_empty, after_save}

pub record Standalone : Type 0 where
  pub session_quota : ℕ
  pub event_payload_max_bytes : ℕ
  pub sessions : Sids
  pub send_msg_chan : List LeaderMsg
  pub written : List (List ℕ)

unfoldable pub new_standalone : ℕ → ℕ → Standalone
new_standalone session_quota event_payload_max_bytes = record {
  session_quota = session_quota;
  event_payload_max_bytes = event_payload_max_bytes;
  sessions = [];
  send_msg_chan = [];
  written = [];
}

unfoldable pub add_session : Session → Standalone → Standalone
add_session sess s = record s { sessions = put sess.sid sess s.sessions }

-- The loop of `addSessions`.
unfoldable pub put_each : List Session → Sids → Sids
put_each [] m = m
put_each (sess ∷ slice) m = put_each slice (put sess.sid sess m)

unfoldable pub add_sessions : List Session → Standalone → Standalone
unfolding put_each
add_sessions slice s = record s { sessions = put_each slice s.sessions }

unfoldable pub del_session : String → Standalone → Standalone
del_session sid s = record s { sessions = delete sid s.sessions }

-- sess.KickoffTime = now, for the sessions of the list, which are those of the map.
unfoldable pub kick_each : ℤ → List Session → Sids → Sids
kick_each now [] m = m
kick_each now (sess ∷ slice) m =
    kick_each now slice (elim (get sess.sid m) [
      | none ↦ m
      | some v ↦ put sess.sid (record v { kickoff_time = now }) m
    ])

abbrev pub sids : List Session → List String
sids [] = []
sids (sess ∷ slice) = sess.sid ∷ sids slice

unfoldable pub kickoff : ℤ → List Session → Standalone → Standalone
unfolding kick_each
kickoff now slice s = record s {
  sessions = kick_each now slice s.sessions;
  send_msg_chan = s.send_msg_chan ++ record no_leader_msg { kickoff = sids slice } ∷ [];
}

-- if len(slice) > 0 { s.kickoff(slice) }
unfoldable pub kickoff_some : ℤ → List Session → Standalone → Standalone
unfolding kickoff
kickoff_some now slice s = if ltb 0 (length slice) then kickoff now slice s else s

-- The two loops of `cleanSession` that delete.
unfoldable pub sids_to_delete : ℤ → Sids → List String
sids_to_delete now [] = []
sids_to_delete now ((_, sess) ∷ m) =
    let rest = sids_to_delete now m in if is_overdue now sess then sess.sid ∷ rest else rest

unfoldable pub delete_each : List String → Sids → Sids
delete_each [] m = m
delete_each (sid ∷ l) m = delete_each l (delete sid m)

module _ (sorter : Sorter) where
  unfoldable pub get_user_sessions_to_kickoff : ℤ → Standalone → List Session
  get_user_sessions_to_kickoff uid s =
      oldest_beyond sorter s.session_quota (keep (is_of uid) (values s.sessions))

  unfoldable pub clean_session : ℤ → Standalone → Standalone × List Session
  unfolding sids_to_delete delete_each
  clean_session now s =
      let left = delete_each (sids_to_delete now s.sessions) s.sessions in
      (record s { sessions = left }, beyond_quota sorter s.session_quota (group (values left) []))

  -- The ticker's case of `Run`.
  unfoldable pub tick : ℤ → Standalone → Standalone
  unfolding clean_session
  tick now s = let (s', slice) = clean_session now s in kickoff_some now slice s'

  -- A message of the hub, at the time `now`.
  unfoldable pub receive : KafkaWriter → FollowerMsg → ℤ → Standalone → Standalone × Round
  unfolding add_session add_sessions del_session get_user_sessions_to_kickoff
  receive writer msg now s = elim msg.session_online [
    | some v ↦
        let s' = add_session v s in
        (kickoff_some now (get_user_sessions_to_kickoff v.uid s') s', goes_on)
    | none ↦
        if not_empty msg.session_offline
        then (del_session msg.session_offline s, goes_on)
        else if ltb 0 (length msg.sync_sessions)
        then (add_sessions msg.sync_sessions s, goes_on)
        else elim msg.e2e_msg [
          | some v ↦ (
            elim (save_e2e_msg writer v s.event_payload_max_bytes).0 [
              | none ↦ s
              | some value ↦ record s { written = s.written ++ value ∷ [] }
            ],
            after_save (save_e2e_msg writer v s.event_payload_max_bytes).1,
          )
          | none ↦ if msg.server_shutdown then (s, returns) else (s, panics)
        ]
  ]
