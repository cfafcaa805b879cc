-- ===== src/Cluster/Server.antt =====
-- The leader: `pushServer` of cluster/server.go. What gRPC's Send and kafka do is given from
-- outside. A stream is named by a number. Each function is one run of the code under its locks.
pub mod Kickoff
pub mod Invariant
pub mod Routes
pub mod Reconnect
pub mod Loops
use minipush.Base.{
  ℕ, Bool, true, false, String, Option, none, some, List, [], ◌∷◌, ◌++◌, leb, ltb, length,
  if◌then◌else◌, ◌≡◌,
}
use minipush.Base.Int.{ℤ}
use minipush.Base.Keys.{◌==◌, int_eq, string_eq}
use minipush.Base.Dict.{get, put, delete}
use minipush.Proto.{Session, E2eMsg, FollowerMsg, LeaderMsg, no_leader_msg}
use minipush.Cluster.Sorter.{Sorter}
use minipush.Cluster.Messages.{KafkaWriter, SaveError, nil_writer, save_e2e_msg}
use minipush.Cluster.Sessions.{
  Sids, SessionStore, new_session_store, values, add, add_many, del, empty,
  get_user_sessions_to_kickoff, gc,
}

-- `outbox` and `written` list what was handed to Send and to kafka so far.
pub record PushServer : Type 0 where
  pub session_quota : ℕ
  pub event_max_size : ℕ
  pub session_store : SessionStore
  pub hub_streams : List (String × ℕ)
  pub outbox : List (ℕ × LeaderMsg)
  pub written : List (List ℕ)

-- v != ""
abbrev pub not_empty : String → Bool
not_empty v = if v == "" then false else true

-- What Send answers: nothing, io.EOF or Canceled or Unavailable, or another error.
pub data Sent : Type 0 where
  delivered closed failed : Sent

unfoldable pub new_push_server : ℕ → ℕ → PushServer
unfolding new_session_store
new_push_server session_quota event_max_size = record {
  session_quota = session_quota;
  event_max_size = event_max_size;
  session_store = new_session_store;
  hub_streams = [];
  outbox = [];
  written = [];
}

unfoldable pub add_stream : String → ℕ → PushServer → PushServer
add_stream hub stream s = record s { hub_streams = put hub stream s.hub_streams }

unfoldable pub remove_stream : String → PushServer → PushServer
remove_stream hub s = record s { hub_streams = delete hub s.hub_streams }

abbrev pub get_live_hub_ids : List (String × ℕ) → List String
get_live_hub_ids [] = []
get_live_hub_ids ((hub, _) ∷ streams) = hub ∷ get_live_hub_ids streams

unfoldable pub copy_streams_by_follower : List String → List (String × ℕ) → List (String × ℕ)
copy_streams_by_follower [] streams = []
copy_streams_by_follower (hub ∷ hubs) streams =
    let out = copy_streams_by_follower hubs streams in
    elim (get hub streams) [ none ↦ out | some stream ↦ (hub, stream) ∷ out ]

-- targets[sess.HubId], which is nil for a hub not met yet.
abbrev pub sids_of : String → List (String × List String) → List String
sids_of hub targets = elim (get hub targets) [ none ↦ [] | some sids ↦ sids ]

unfoldable pub targets_of : List Session → List (String × List String) → List (String × List String)
targets_of [] targets = targets
targets_of (sess ∷ sessions) targets =
    targets_of sessions (put sess.hub_id (sids_of sess.hub_id targets ++ sess.sid ∷ []) targets)

abbrev pub hubs_of : List (String × List String) → List String
hubs_of [] = []
hubs_of ((hub, _) ∷ targets) = hub ∷ hubs_of targets

-- sessions[sid].KickoffTime = now: the session is shared with the store.
unfoldable pub mark : ℤ → String → String → SessionStore → SessionStore
mark now hub sid s = elim (get hub s.kv) [
  | none ↦ s
  | some v ↦ elim (get sid v) [
    | none ↦ s
    | some sess ↦ record s { kv = put hub (put sid (record sess { kickoff_time = now }) v) s.kv }
  ]
]

unfoldable pub mark_all : ℤ → String → List String → SessionStore → SessionStore
unfolding mark
mark_all now hub [] s = s
mark_all now hub (sid ∷ sids) s = mark_all now hub sids (mark now hub sid s)

-- `send` answers for each stream and message.
module _ (send : ℕ → LeaderMsg → Sent) where
  unfoldable pub push_to_follower : String → ℕ → LeaderMsg → PushServer → PushServer × Bool
  unfolding remove_stream
  push_to_follower hub stream msg s =
      let s' : PushServer = record s { outbox = s.outbox ++ (stream, msg) ∷ [] } in
      elim (send stream msg) [
        | delivered ↦ (s', true)
        | closed ↦ (remove_stream hub s', false)
        | failed ↦ (s', false)
      ]

  -- The loop of `kickoff`. The `ok` that the code tests after the push is that of the look-up in
  -- `targets`; what the push returned is dropped.
  unfoldable pub kickoff_streams :
      ℤ → List (String × List String) → List (String × ℕ) → PushServer → PushServer
  unfolding push_to_follower mark_all
  kickoff_streams now targets [] s = s
  kickoff_streams now targets ((hub, stream) ∷ streams) s = elim (get hub targets) [
    | none ↦ kickoff_streams now targets streams s
    | some sids ↦
        let (s', _) = push_to_follower hub stream (record no_leader_msg { kickoff = sids }) s in
        kickoff_streams now targets streams
          (record s' { session_store = mark_all now hub sids s'.session_store })
  ]

  unfoldable pub kickoff : ℤ → Sids → PushServer → PushServer
  unfolding targets_of copy_streams_by_follower kickoff_streams
  kickoff now sessions s =
      let targets = targets_of (values sessions) [] in
      kickoff_streams now targets (copy_streams_by_follower (hubs_of targets) s.hub_streams) s

  -- if len(v) > 0 { s.kickoff(v) }
  abbrev pub kickoff_some : ℤ → Sids → PushServer → PushServer
  kickoff_some now sessions s = if ltb 0 (length sessions) then kickoff now sessions s else s

  -- The loop of `run` over the copied streams.
  unfoldable pub broadcast : LeaderMsg → List (String × ℕ) → PushServer → PushServer
  unfolding push_to_follower
  broadcast msg [] s = s
  broadcast msg ((hub, stream) ∷ streams) s =
      broadcast msg streams (push_to_follower hub stream msg s).0

-- How one round of the loop of `Route` ends.
pub data Round : Type 0 where
  goes_on returns panics : Round

-- An error of `saveE2eMsg` is only logged; a panic is none.
abbrev pub after_save : Option SaveError → Round
after_save (some nil_writer) = panics
after_save _ = goes_on

module _ (send : ℕ → LeaderMsg → Sent) (sorter : Sorter) (writer : KafkaWriter) where
  unfoldable pub save_im : E2eMsg → PushServer → PushServer
  unfolding save_e2e_msg
  save_im msg s = elim (save_e2e_msg writer msg s.event_max_size).0 [
    | none ↦ s
    | some value ↦ record s { written = s.written ++ value ∷ [] }
  ]

  -- One message from the hub, at the time `now`.
  unfoldable pub receive : String → FollowerMsg → ℤ → PushServer → PushServer × Round
  unfolding save_im
  receive hub_id msg now s = elim msg.session_online [
    | some v ↦
        let s' : PushServer = record s { session_store = add hub_id v s.session_store } in
        let late = get_user_sessions_to_kickoff sorter v.uid s.session_quota s'.session_store in
        (kickoff_some send now late s', goes_on)
    | none ↦
        if not_empty msg.session_offline
        then (record s { session_store = del hub_id msg.session_offline s.session_store }, goes_on)
        else if ltb 0 (length msg.sync_sessions)
        then (
          record s { session_store = add_many hub_id msg.sync_sessions s.session_store },
          goes_on,
        )
        else elim msg.e2e_msg [
          | some v ↦ (save_im v s, after_save (save_e2e_msg writer v s.event_max_size).1)
          | none ↦ if msg.server_shutdown then (s, returns) else (s, panics)
        ]
  ]

  -- The ticker's case of `cleanSessionLoop`.
  unfoldable pub clean_sessions : ℤ → PushServer → PushServer
  clean_sessions now s =
      let (store, late) =
        gc sorter (get_live_hub_ids s.hub_streams) s.session_quota now s.session_store in
      kickoff_some send now late (record s { session_store = store })
