-- ===== src/Cluster/Server/Routes.antt =====
-- The life of a stream in `Route` of cluster/server.go: its rounds, its deferred `removeStream`, and
-- what becomes of a hub that connects again.
pub mod Limit
use minipush.Base.{
  ℕ, true, String, none, some, List, [], ◌∷◌, ltb, length, ◌≡◌, refl, subst, inl, inr, arith,
  Bool-cases, Option-cases,
}
use minipush.Base.Int.{ℤ}
use minipush.Base.Keys.{string_eq}
use minipush.Base.Dict.{get, put, delete, has, get-put, get-delete}
use minipush.Proto.{FollowerMsg, LeaderMsg, no_leader_msg}
use minipush.Cluster.Sorter.{Sorter}
use minipush.Cluster.Messages.{KafkaWriter}
use minipush.Cluster.Sessions.{Sids}
use minipush.Cluster.Server.{
  PushServer, Sent, Round, goes_on, returns, panics, new_push_server, add_stream, remove_stream,
  push_to_follower, kickoff_streams, kickoff, kickoff_some, broadcast, save_im, receive,
  clean_sessions,
}

-- What stream.Recv returns: an error, which ends the route whatever it is, or a message.
pub data Recv : Type 0 where
  broken : Recv
  message : FollowerMsg → Recv

-- The deferred call, when the route returns or panics.
abbrev pub end_round : String → PushServer × Round → PushServer
end_round hub (s, goes_on) = s
end_round hub (s, _) = remove_stream hub s

-- A later state has no streams that were not there.
abbrev pub Shrinks : PushServer → PushServer → Type 0
Shrinks s s' =
    (hub : String) (stream : ℕ)
    → get hub s'.hub_streams ≡ some stream
    → get hub s.hub_streams ≡ some stream

module _ (send : ℕ → LeaderMsg → Sent) (sorter : Sorter) (writer : KafkaWriter) where
  -- One round of the loop.
  unfoldable pub route_round : String → Recv → ℤ → PushServer → PushServer × Round
  unfolding receive
  route_round hub broken now s = (s, returns)
  route_round hub (message msg) now s = receive send sorter writer hub msg now s

remove-Shrinks : (hub : String) (s : PushServer) → Shrinks s (remove_stream hub s)
unfolding remove_stream
remove-Shrinks hub s h stream e = ground (arith, get-delete hub h s.hub_streams)

push-Shrinks :
    (send : ℕ → LeaderMsg → Sent) (hub : String) (to : ℕ) (msg : LeaderMsg) (s : PushServer)
    → Shrinks s (push_to_follower send hub to msg s).0
unfolding push_to_follower remove_stream
push-Shrinks send hub to msg s h stream = ground (arith, get-delete hub h s.hub_streams)

kickoff_streams-Shrinks :
    (send : ℕ → LeaderMsg → Sent) (now : ℤ) (targets : List (String × List String))
    (streams : List (String × ℕ)) (s : PushServer)
    → Shrinks s (kickoff_streams send now targets streams s)
unfolding kickoff_streams
kickoff_streams-Shrinks send now targets [] s h stream = λ e. e
kickoff_streams-Shrinks send now targets ((hub, to) ∷ streams) s h stream =
    elim (Option-cases (get hub targets)) [
      | inl n ↦
          rw (n, kickoff_streams) (kickoff_streams-Shrinks send now targets streams s h stream)
      | inr (sids, f) ↦
          rw (f, kickoff_streams)
            (λ e.
              push-Shrinks send hub to (record no_leader_msg { kickoff = sids }) s h stream
                (kickoff_streams-Shrinks send now targets streams _ h stream e))
    ]

kickoff_some-Shrinks :
    (send : ℕ → LeaderMsg → Sent) (now : ℤ) (sessions : Sids) (s : PushServer)
    → Shrinks s (kickoff_some send now sessions s)
unfolding kickoff
kickoff_some-Shrinks send now sessions s h stream = elim (Bool-cases (ltb 0 (length sessions))) [
  | inl y ↦ rw y (kickoff_streams-Shrinks send now _ _ s h stream)
  | inr n ↦ rw n (λ e. e)
]

broadcast-Shrinks :
    (send : ℕ → LeaderMsg → Sent) (msg : LeaderMsg) (streams : List (String × ℕ)) (s : PushServer)
    → Shrinks s (broadcast send msg streams s)
unfolding broadcast
broadcast-Shrinks send msg [] s h stream e = e
broadcast-Shrinks send msg ((hub, to) ∷ streams) s h stream e =
    push-Shrinks send hub to msg s h stream (broadcast-Shrinks send msg streams _ h stream e)

module _ (sorter : Sorter) (writer : KafkaWriter) where
  -- A message without a new session changes no stream.
  others_streams :
      (send : ℕ → LeaderMsg → Sent) (hub : String) (msg : FollowerMsg) (now : ℤ) (s : PushServer)
      → msg.session_online ≡ none
      → (receive send sorter writer hub msg now s).0.hub_streams ≡ s.hub_streams
  unfolding receive save_im
  others_streams send hub msg now s e = elim (Option-cases msg.e2e_msg) [
    | inl n ↦ rw (receive, e, n) (ground arith)
    | inr (im, f) ↦ rw (receive, e, f) (ground arith)
  ]

  receive-Shrinks :
      (send : ℕ → LeaderMsg → Sent) (hub : String) (msg : FollowerMsg) (now : ℤ) (s : PushServer)
      → Shrinks s (receive send sorter writer hub msg now s).0
  unfolding receive
  receive-Shrinks send hub msg now s h stream = elim (Option-cases msg.session_online) [
    | inl n ↦ rw (others_streams send hub msg now s n) (λ e. e)
    | inr (sess, f) ↦ rw (receive, f) (kickoff_some-Shrinks send now _ _ h stream)
  ]

  clean-Shrinks :
      (send : ℕ → LeaderMsg → Sent) (now : ℤ) (s : PushServer)
      → Shrinks s (clean_sessions send sorter writer now s)
  unfolding clean_sessions
  clean-Shrinks send now s h stream = kickoff_some-Shrinks send now _ _ h stream

  pub round-Shrinks :
      (send : ℕ → LeaderMsg → Sent) (hub : String) (recv : Recv) (now : ℤ) (s : PushServer)
      → Shrinks s (route_round send sorter writer hub recv now s).0
  unfolding route_round
  round-Shrinks send hub broken now s h stream = λ e. e
  round-Shrinks send hub (message msg) now s h stream = receive-Shrinks send hub msg now s h stream

  -- The leader with the routes that are running, where a hub connects again only after its last
  -- route is over. Each step has its own answers of Send and its own time.
  pub data Reach : List (String × ℕ) → PushServer → Type 0 where
    start : (quota limit : ℕ) → Reach [] (new_push_server quota limit)
    opens :
        (routes : List (String × ℕ)) (s : PushServer) (hub : String) (stream : ℕ)
        → Reach routes s
        → get hub routes ≡ none
        → Reach (put hub stream routes) (add_stream hub stream s)
    rounds :
        (routes : List (String × ℕ)) (s : PushServer) (hub : String) (recv : Recv)
        (send : ℕ → LeaderMsg → Sent) (now : ℤ)
        → Reach routes s
        → has hub routes ≡ true
        → (route_round send sorter writer hub recv now s).1 ≡ goes_on
        → Reach routes (route_round send sorter writer hub recv now s).0
    ends :
        (routes : List (String × ℕ)) (s : PushServer) (hub : String) (recv : Recv)
        (send : ℕ → LeaderMsg → Sent) (now : ℤ)
        → Reach routes s
        → has hub routes ≡ true
        → (route_round send sorter writer hub recv now s).1 ≡ returns
        → Reach (delete hub routes) (end_round hub (route_round send sorter writer hub recv now s))
    pushes :
        (routes : List (String × ℕ)) (s : PushServer) (send : ℕ → LeaderMsg → Sent)
        (msg : LeaderMsg)
        → Reach routes s
        → Reach routes (broadcast send msg s.hub_streams s)
    cleans :
        (routes : List (String × ℕ)) (s : PushServer) (send : ℕ → LeaderMsg → Sent) (now : ℤ)
        → Reach routes s
        → Reach routes (clean_sessions send sorter writer now s)

  end-at :
      (hub : String) (r : PushServer × Round)
      → r.1 ≡ returns
      → end_round hub r ≡ remove_stream hub r.0
  end-at hub (s, goes_on) e = cc
  end-at hub (s, returns) e = refl
  end-at hub (s, panics) e = refl

  both_deleted :
      (hub h : String) (stream : ℕ) (routes streams : List (String × ℕ))
      → (get h streams ≡ some stream → get h routes ≡ some stream)
      → get h (delete hub streams) ≡ some stream
      → get h (delete hub routes) ≡ some stream
  both_deleted hub h stream routes streams f e =
      ground (arith, get-delete hub h routes, get-delete hub h streams)

  both_put :
      (hub h : String) (new stream : ℕ) (routes streams : List (String × ℕ))
      → (get h streams ≡ some stream → get h routes ≡ some stream)
      → get h (put hub new streams) ≡ some stream
      → get h (put hub new routes) ≡ some stream
  both_put hub h new stream routes streams f e =
      ground (arith, get-put hub h new routes, get-put hub h new streams)

  -- While no hub connects again before its last route is over, whatever is received, pushed and
  -- cleaned, and whatever Send answers, the leader's stream for a hub is the one of the hub's running route.
  pub Reach-stream :
      (routes : List (String × ℕ)) (s : PushServer) (hub : String) (stream : ℕ)
      → Reach routes s
      → get hub s.hub_streams ≡ some stream
      → get hub routes ≡ some stream
  unfolding new_push_server add_stream remove_stream get
  Reach-stream _ _ h stream (start quota limit) e = e
  Reach-stream _ _ h stream (opens routes s hub new r free) e =
      both_put hub h new stream routes s.hub_streams (λ p. Reach-stream routes s h stream r p) e
  Reach-stream _ _ h stream (rounds routes s hub recv send now r known on) e =
      Reach-stream routes s h stream r (round-Shrinks send hub recv now s h stream e)
  Reach-stream _ _ h stream (ends routes s hub recv send now r known over) e =
      both_deleted hub h stream routes _
        (λ p. Reach-stream routes s h stream r (round-Shrinks send hub recv now s h stream p))
        (subst (λ t. get h t.hub_streams ≡ some stream) (end-at hub _ over) e)
  Reach-stream _ _ h stream (pushes routes s send msg r) e =
      Reach-stream routes s h stream r (broadcast-Shrinks send msg s.hub_streams s h stream e)
  Reach-stream _ _ h stream (cleans routes s send now r) e =
      Reach-stream routes s h stream r (clean-Shrinks send now s h stream e)
