-- ===== src/Cluster/Server/Reconnect.antt =====
-- A hub that connects again before `Route` of cluster/server.go has seen the end of its last stream.
use minipush.Base.{
  ℕ, Bool, true, false, String, none, List, [], ◌∷◌, ltb, length, if◌then◌else◌, ◌≡◌, refl, ◌∙◌,
  inl, inr, arith, Bool-cases,
}
use minipush.Base.Int.{ℤ}
use minipush.Base.Keys.{string_eq, eq_iff}
use minipush.Base.Dict.{get, put, delete, get-delete}
use minipush.Proto.{LeaderMsg}
use minipush.Cluster.Sorter.{Sorter}
use minipush.Cluster.Messages.{KafkaWriter}
use minipush.Cluster.Sessions.{Sids, contains}
use minipush.Cluster.Sessions.Lookup.{find, IsConsistent, find-gc}
use minipush.Cluster.Server.{
  PushServer, Sent, add_stream, remove_stream, get_live_hub_ids, kickoff_some, clean_sessions,
}
use minipush.Cluster.Server.Kickoff.{find-kickoff, kicked_at}
use minipush.Cluster.Server.Routes.{broken, end_round, route_round}

not_live :
    (hub : String) (streams : List (String × ℕ))
    → get hub streams ≡ none
    → contains hub (get_live_hub_ids streams) ≡ false
unfolding contains get
not_live hub [] e = refl
not_live hub ((h, stream) ∷ streams) e = ground (arith, not_live hub streams, eq_iff h hub)

not_kicked : (now : ℤ) (b : Bool) → (if b then kicked_at now none else none) ≡ none
not_kicked now true = refl
not_kicked now false = refl

kickoff_some-none :
    (send : ℕ → LeaderMsg → Sent) (now : ℤ) (sessions : Sids) (s : PushServer) (h x : String)
    → find h x s.session_store ≡ none
    → find h x (kickoff_some send now sessions s).session_store ≡ none
kickoff_some-none send now sessions s h x e = elim (Bool-cases (ltb 0 (length sessions))) [
  | inl y ↦ rw y (find-kickoff send now sessions s h x ∙ rw e (not_kicked now _))
  | inr n ↦ rw n e
]

dead_hub :
    (send : ℕ → LeaderMsg → Sent) (sorter : Sorter) (writer : KafkaWriter) (now : ℤ)
    (s : PushServer) (hub x : String)
    → IsConsistent s.session_store
    → get hub s.hub_streams ≡ none
    → find hub x (clean_sessions send sorter writer now s).session_store ≡ none
unfolding clean_sessions
dead_hub send sorter writer now s hub x c e = kickoff_some-none send now _ _ hub x (
    find-gc sorter (get_live_hub_ids s.hub_streams) s.session_quota now s.session_store hub x c
    ∙ rw (not_live hub s.hub_streams e) refl)

-- If the session store is consistent and a hub opens a new stream before its last route has ended, the end of
-- the last route leaves the hub without a stream, and the next clean takes every session of the hub
-- from the store, although its new stream is open.
pub reconnect_lost :
    (send : ℕ → LeaderMsg → Sent) (sorter : Sorter) (writer : KafkaWriter) (hub x : String)
    (new : ℕ) (now later : ℤ) (s : PushServer)
    → IsConsistent s.session_store
    → (get hub
          (end_round hub
            (route_round send sorter writer hub broken now (add_stream hub new s))).hub_streams
        ≡ none)
      × (find hub x
            (clean_sessions send sorter writer later (
              end_round hub (
                route_round send sorter writer hub broken now
                  (add_stream hub new s)))).session_store
          ≡ none)
unfolding route_round add_stream remove_stream
reconnect_lost send sorter writer hub x new now later s c =
    let gone : get hub (delete hub (put hub new s.hub_streams)) ≡ none =
      get-delete hub hub (put hub new s.hub_streams) ∙ rw ((eq_iff hub hub).1 refl) refl in
    (
      gone,
      dead_hub send sorter writer later (remove_stream hub (add_stream hub new s)) hub x c gone,
    )
