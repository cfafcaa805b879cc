-- ===== src/Cluster/Server/Invariant.antt =====
-- The invariant of the leader of cluster/server.go over its whole life: hubs that join and leave,
-- messages from hubs, pushes and the clean ticker, in any order.
use minipush.Base.{
  ℕ, ltb, length, String, none, List, [], ◌∷◌, if◌then◌else◌, ◌≡◌, arith, inl, inr, Bool-cases,
  Option-cases,
}
use minipush.Base.Int.{ℤ}
use minipush.Base.Keys.{string_eq}
use minipush.Base.Dict.{get, Distinct, put-Distinct, delete-Distinct}
use minipush.Base.Dict.Each.{get-Each, put-Each}
use minipush.Proto.{E2eMsg, FollowerMsg, LeaderMsg, no_leader_msg}
use minipush.Cluster.Sorter.{Sorter}
use minipush.Cluster.Messages.{KafkaWriter}
use minipush.Cluster.Sessions.{Sids, SessionStore}
use minipush.Cluster.Sessions.Lookup.{
  IsLabelled, IsHubMap, IsConsistent, new-IsConsistent, put_hub-IsConsistent, adds, adds_many,
  deletes, collects, apply-IsConsistent,
}
use minipush.Cluster.Server.{
  PushServer, Sent, new_push_server, add_stream, remove_stream, get_live_hub_ids, mark, mark_all,
  push_to_follower, kickoff_streams, kickoff, broadcast, save_im, receive, clean_sessions,
}

mark-IsConsistent :
    (now : ℤ) (hub sid : String) (s : SessionStore)
    → IsConsistent s
    → IsConsistent (mark now hub sid s)
unfolding mark
mark-IsConsistent now hub sid s c = elim (Option-cases (get hub s.kv)) [
  | inl e ↦ rw (e, mark) c
  | inr (v, e) ↦ elim (Option-cases (get sid v)) [
    | inl f ↦ rw (e, mark, f) c
    | inr (sess, f) ↦
        let h = get-Each IsHubMap hub v s.kv e c.hubs in
        rw (e, mark, f)
          (put_hub-IsConsistent hub _ s
            (
              put-Distinct sid _ v h.0,
              put-Each (IsLabelled hub) sid _ v (get-Each (IsLabelled hub) sid sess v f h.1) h.1,
            )
            c)
  ]
]

mark_all-IsConsistent :
    (now : ℤ) (hub : String) (sids : List String) (s : SessionStore)
    → IsConsistent s
    → IsConsistent (mark_all now hub sids s)
unfolding mark_all
mark_all-IsConsistent now hub [] s c = c
mark_all-IsConsistent now hub (sid ∷ sids) s c =
    mark_all-IsConsistent now hub sids _ (mark-IsConsistent now hub sid s c)

-- The store is consistent, and a hub has one stream.
pub record IsServing (s : PushServer) : Type 0 where
  pub consistent : IsConsistent s.session_store
  pub streams : Distinct s.hub_streams

push-IsServing :
    (send : ℕ → LeaderMsg → Sent) (hub : String) (stream : ℕ) (msg : LeaderMsg) (s : PushServer)
    → IsServing s
    → IsServing (push_to_follower send hub stream msg s).0
unfolding push_to_follower remove_stream
push-IsServing send hub stream msg s v = ground (arith, delete-Distinct hub s.hub_streams v.streams)

kickoff_streams-IsServing :
    (send : ℕ → LeaderMsg → Sent) (now : ℤ) (targets : List (String × List String))
    (streams : List (String × ℕ)) (s : PushServer)
    → IsServing s
    → IsServing (kickoff_streams send now targets streams s)
unfolding kickoff_streams
kickoff_streams-IsServing send now targets [] s v = v
kickoff_streams-IsServing send now targets ((hub, stream) ∷ streams) s v =
    elim (Option-cases (get hub targets)) [
      | inl e ↦ rw (e, kickoff_streams) (kickoff_streams-IsServing send now targets streams s v)
      | inr (sids, e) ↦
          let w = push-IsServing send hub stream (record no_leader_msg { kickoff = sids }) s v in
          rw (e, kickoff_streams)
            (kickoff_streams-IsServing send now targets streams _ (record {
              consistent = mark_all-IsConsistent now hub sids _ w.consistent;
              streams = w.streams;
            }))
    ]

kickoff-IsServing :
    (send : ℕ → LeaderMsg → Sent) (now : ℤ) (sessions : Sids) (s : PushServer)
    → IsServing s
    → IsServing (if ltb 0 (length sessions) then kickoff send now sessions s else s)
unfolding kickoff
kickoff-IsServing send now sessions s v = elim (Bool-cases (ltb 0 (length sessions))) [
  | inl e ↦ rw e (kickoff_streams-IsServing send now _ _ s v)
  | inr n ↦ rw n v
]

broadcast-IsServing :
    (send : ℕ → LeaderMsg → Sent) (msg : LeaderMsg) (streams : List (String × ℕ)) (s : PushServer)
    → IsServing s
    → IsServing (broadcast send msg streams s)
unfolding broadcast
broadcast-IsServing send msg [] s v = v
broadcast-IsServing send msg ((hub, stream) ∷ streams) s v =
    broadcast-IsServing send msg streams _ (push-IsServing send hub stream msg s v)

-- What happens to the leader. Each event has its own answers of Send and its own time.
pub data ServerEvent : Type 0 where
  joins : String → ℕ → ServerEvent
  leaves : String → ServerEvent
  receives : (ℕ → LeaderMsg → Sent) → String → FollowerMsg → ℤ → ServerEvent
  pushes : (ℕ → LeaderMsg → Sent) → LeaderMsg → ServerEvent
  ticks : (ℕ → LeaderMsg → Sent) → ℤ → ServerEvent

module _ (sorter : Sorter) (writer : KafkaWriter) where
  pub happen : ServerEvent → PushServer → PushServer
  unfolding add_stream remove_stream
  happen (joins hub stream) s = add_stream hub stream s
  happen (leaves hub) s = remove_stream hub s
  happen (receives send hub msg now) s = (receive send sorter writer hub msg now s).0
  happen (pushes send msg) s = broadcast send msg s.hub_streams s
  happen (ticks send now) s = clean_sessions send sorter writer now s

  pub happen_all : List ServerEvent → PushServer → PushServer
  happen_all [] s = s
  happen_all (e ∷ es) s = happen_all es (happen e s)

  with_store :
      (s : PushServer) (store : SessionStore)
      → IsServing s
      → IsConsistent store
      → IsServing (record s { session_store = store })
  with_store s store v c = record { consistent = c; streams = v.streams }

  save_im-IsServing :
      (send : ℕ → LeaderMsg → Sent) (msg : E2eMsg) (s : PushServer)
      → IsServing s
      → IsServing (save_im send sorter writer msg s)
  unfolding save_im
  save_im-IsServing send msg s v = ground arith

  rest-IsServing :
      (send : ℕ → LeaderMsg → Sent) (hub : String) (msg : FollowerMsg) (now : ℤ) (s : PushServer)
      → msg.session_online ≡ none
      → IsServing s
      → IsServing (receive send sorter writer hub msg now s).0
  unfolding receive
  rest-IsServing send hub msg now s e v =
      let d = with_store s _ v (
        apply-IsConsistent sorter (deletes hub msg.session_offline) s.session_store v.consistent) in
      let m = with_store s _ v (
        apply-IsConsistent sorter (adds_many hub msg.sync_sessions) s.session_store v.consistent) in
      elim (Option-cases msg.e2e_msg) [
        | inl f ↦ rw (receive, e, f) (ground (arith, d, m))
        | inr (im, f) ↦ rw (receive, e, f) (ground (arith, d, m, save_im-IsServing send im s v))
      ]

  receive-IsServing :
      (send : ℕ → LeaderMsg → Sent) (hub : String) (msg : FollowerMsg) (now : ℤ) (s : PushServer)
      → IsServing s
      → IsServing (receive send sorter writer hub msg now s).0
  unfolding receive
  receive-IsServing send hub msg now s v = elim (Option-cases msg.session_online) [
    | inl e ↦ rest-IsServing send hub msg now s e v
    | inr (sess, e) ↦
        rw (receive, e)
          (kickoff-IsServing send now _ _ (
            with_store s _ v
              (apply-IsConsistent sorter (adds hub sess) s.session_store v.consistent)))
  ]

  happen-IsServing : (e : ServerEvent) (s : PushServer) → IsServing s → IsServing (happen e s)
  unfolding happen clean_sessions
  happen-IsServing (joins hub stream) s v = record {
    consistent = v.consistent;
    streams = put-Distinct hub stream s.hub_streams v.streams;
  }
  happen-IsServing (leaves hub) s v = record {
    consistent = v.consistent;
    streams = delete-Distinct hub s.hub_streams v.streams;
  }
  happen-IsServing (receives send hub msg now) s v = receive-IsServing send hub msg now s v
  happen-IsServing (pushes send msg) s v = broadcast-IsServing send msg s.hub_streams s v
  happen-IsServing (ticks send now) s v = kickoff-IsServing send now _ _ (
      with_store s _ v (
        apply-IsConsistent sorter (collects (get_live_hub_ids s.hub_streams) s.session_quota now)
          s.session_store v.consistent))

  happen_all-IsServing :
      (es : List ServerEvent) (s : PushServer) → IsServing s → IsServing (happen_all es s)
  unfolding happen_all
  happen_all-IsServing [] s v = v
  happen_all-IsServing (e ∷ es) s v = happen_all-IsServing es _ (happen-IsServing e s v)

  -- Whatever happens to a new leader, and whatever Send answers, its store keeps one session for a
  -- session id of a hub, each labelled with the two ids under which it stands, and a hub has one
  -- stream.
  pub run-IsServing :
      (quota limit : ℕ) (es : List ServerEvent)
      → IsServing (happen_all es (new_push_server quota limit))
  unfolding new_push_server
  run-IsServing quota limit es =
      happen_all-IsServing es _ (record { consistent = new-IsConsistent; streams = tt })
