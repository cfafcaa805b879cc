-- ===== src/Cluster/Server/Routes/Limit.antt =====
-- The size limit of the leader, which no round of `Route` of cluster/server.go changes.
use minipush.Base.{
  ℕ, String, List, [], ◌∷◌, ltb, length, ◌≡◌, refl, ◌∙◌, arith, inl, inr, Bool-cases, Option-cases,
}
use minipush.Base.Int.{ℤ}
use minipush.Base.Keys.{string_eq}
use minipush.Base.Dict.{get}
use minipush.Proto.{FollowerMsg, LeaderMsg, no_leader_msg}
use minipush.Cluster.Sorter.{Sorter}
use minipush.Cluster.Messages.{KafkaWriter}
use minipush.Cluster.Sessions.{Sids}
use minipush.Cluster.Server.{
  PushServer, Sent, remove_stream, push_to_follower, kickoff_streams, kickoff, kickoff_some,
  save_im, receive,
}
use minipush.Cluster.Server.Routes.{Recv, broken, message, route_round}

push-limit :
    (send : ℕ → LeaderMsg → Sent) (hub : String) (to : ℕ) (msg : LeaderMsg) (s : PushServer)
    → (push_to_follower send hub to msg s).0.event_max_size ≡ s.event_max_size
unfolding push_to_follower remove_stream
push-limit send hub to msg s = ground arith

kickoff_streams-limit :
    (send : ℕ → LeaderMsg → Sent) (now : ℤ) (targets : List (String × List String))
    (streams : List (String × ℕ)) (s : PushServer)
    → (kickoff_streams send now targets streams s).event_max_size ≡ s.event_max_size
unfolding kickoff_streams
kickoff_streams-limit send now targets [] s = refl
kickoff_streams-limit send now targets ((hub, to) ∷ streams) s =
    elim (Option-cases (get hub targets)) [
      | inl n ↦ rw (n, kickoff_streams) (kickoff_streams-limit send now targets streams s)
      | inr (sids, f) ↦
          rw (f, kickoff_streams)
            (kickoff_streams-limit send now targets streams _
              ∙ push-limit send hub to (record no_leader_msg { kickoff = sids }) s)
    ]

kickoff_some-limit :
    (send : ℕ → LeaderMsg → Sent) (now : ℤ) (sessions : Sids) (s : PushServer)
    → (kickoff_some send now sessions s).event_max_size ≡ s.event_max_size
unfolding kickoff
kickoff_some-limit send now sessions s = elim (Bool-cases (ltb 0 (length sessions))) [
  | inl y ↦ rw y (kickoff_streams-limit send now _ _ s)
  | inr n ↦ rw n refl
]

module _ (send : ℕ → LeaderMsg → Sent) (sorter : Sorter) (writer : KafkaWriter) where
  receive-limit :
      (hub : String) (msg : FollowerMsg) (now : ℤ) (s : PushServer)
      → (receive send sorter writer hub msg now s).0.event_max_size ≡ s.event_max_size
  unfolding receive save_im
  receive-limit hub msg now s = elim (Option-cases msg.session_online) [
    | inr (v, e) ↦ rw (e, receive) (kickoff_some-limit send now _ _)
    | inl e ↦ elim (Option-cases msg.e2e_msg) [
      | inr (v, f) ↦ rw (receive, e, f) (ground arith)
      | inl f ↦ rw (receive, e, f) (ground arith)
    ]
  ]

  pub round-limit :
      (hub : String) (recv : Recv) (now : ℤ) (s : PushServer)
      → (route_round send sorter writer hub recv now s).0.event_max_size ≡ s.event_max_size
  unfolding route_round
  round-limit hub broken now s = refl
  round-limit hub (message msg) now s = receive-limit hub msg now s
