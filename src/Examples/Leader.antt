-- ===== src/Examples/Leader.antt =====
-- The leader's theorems (cluster/*.go) at concrete inputs.
use minipush.Base.{
  ℕ, true, false, ◌&&◌, String, none, some, List, [], ◌∷◌, ◌≡◌, ◌≢◌, refl, if◌then◌else◌, keep,
}
use minipush.Base.Int.{pos, wrap64, ◌+ℤ◌}
use minipush.Base.Keys.{◌==◌, string_eq, eq_iff}
use minipush.Base.Dict.{get, has, unless, prune}
use minipush.Proto.{Session, E2eMsg, LeaderMsg, no_follower_msg, no_leader_msg}
use minipush.Cluster.Messages.{KafkaWriter}
use minipush.Cluster.Sessions.{
  Sids, SessionStore, values, all_sessions, is_of, is_overdue, contains,
  get_user_sessions_to_kickoff, gc, sweep,
}
use minipush.Cluster.Sessions.Lookup.{
  find, IsConsistent, find-gc, Operation, adds, adds_many, deletes, collects,
}
use minipush.Cluster.Sessions.Choice.{
  IsOldestBeyond, DistinctSids, get_user_sessions_to_kickoff_lem,
}
use minipush.Cluster.Sessions.Collect.{gc-IsOldestBeyond}
use minipush.Cluster.Server.{PushServer, Sent, failed, new_push_server, kickoff}
use minipush.Cluster.Server.Kickoff.{kicked_at, sids_on, find-kickoff}
use minipush.Cluster.Server.Invariant.{
  ServerEvent, joins, leaves, receives, pushes, ticks, happen_all, IsServing, run-IsServing,
}
use minipush.Examples.Insertion.{insertion}

abbrev session : String → ℕ → ℕ → Session
session sid created kicked = record {
  hub_id = "h";
  uid = pos 7;
  sid = sid;
  ip = "10.0.0.1";
  create_time = pos created;
  kickoff_time = pos kicked;
}

abbrev held : Sids
held = ("a", session "a" 5 0) ∷ ("b", session "b" 9 0) ∷ ("c", session "c" 2 3) ∷ []

abbrev pub store : SessionStore
store = record { kv = ("h", held) ∷ [] }

pub store-IsConsistent : IsConsistent store
unfolding get
store-IsConsistent = record {
  distinct = (refl, tt);
  hubs = (((refl, (refl, (refl, tt))), ((refl, refl), ((refl, refl), ((refl, refl), tt)))), tt);
}

find-gc_example : find "h" "c" (gc insertion ("h" ∷ []) 1 (pos 100) store).0 ≡ (
    if contains "h" ("h" ∷ [])
    then unless {K = String} (λ _ sess. is_overdue (pos 100) sess) "c" (find "h" "c" store)
    else none)
find-gc_example = find-gc insertion ("h" ∷ []) 1 (pos 100) store "h" "c" store-IsConsistent

differ : (s t : String) → (s == t) ≡ false → s ≢ t
differ s t n e = let y = (eq_iff s t).1 e in cc

held-DistinctSids : DistinctSids (values held)
held-DistinctSids =
    ((differ "a" "b" refl, (differ "a" "c" refl, tt)), ((differ "b" "c" refl, tt), (tt, tt)))

kept-DistinctSids : DistinctSids (all_sessions (gc insertion ("h" ∷ []) 1 (pos 100) store).0.kv)
unfolding gc sweep contains prune is_overdue wrap64 ◌+ℤ◌
kept-DistinctSids = ((differ "a" "b" refl, tt), (tt, tt))

gc-IsOldestBeyond_example :
    IsOldestBeyond 1
      (keep (is_of (pos 7)) (all_sessions (gc insertion ("h" ∷ []) 1 (pos 100) store).0.kv))
      (keep (is_of (pos 7)) (values (gc insertion ("h" ∷ []) 1 (pos 100) store).1))
gc-IsOldestBeyond_example =
    gc-IsOldestBeyond insertion ("h" ∷ []) 1 (pos 100) store (pos 7) kept-DistinctSids

get_user_sessions_to_kickoff_lem_example :
    IsOldestBeyond 2
      (keep (is_of (pos 7)) (all_sessions store.kv))
      (values (get_user_sessions_to_kickoff insertion (pos 7) 2 store))
get_user_sessions_to_kickoff_lem_example =
    get_user_sessions_to_kickoff_lem insertion (pos 7) 2 store held-DistinctSids

abbrev operations : List Operation
operations =
    adds "h" (session "a" 5 0)
    ∷ adds_many "g" (session "b" 9 0 ∷ [])
    ∷ deletes "h" "a"
    ∷ collects ("g" ∷ []) 1 (pos 100)
    ∷ []

-- kafka takes every value, and every message is written as three bytes.
abbrev pub writer : KafkaWriter
writer = record {
  is_nil = false;
  marshal = λ msg. some (1 ∷ 2 ∷ 3 ∷ []);
  write_messages = λ value. true;
}

abbrev im : E2eMsg
im = record { kind = "im"; from = pos 7; to = pos 8 ∷ []; props = []; body = "hello" }

abbrev pub answers : ℕ → LeaderMsg → Sent
answers stream msg = failed

abbrev pub server : PushServer
server = record {
  session_quota = 2;
  event_max_size = 4;
  session_store = store;
  hub_streams = ("h", 1) ∷ [];
  outbox = [];
  written = [];
}

find-kickoff_example : find "h" "a" (kickoff answers (pos 50) held server).session_store ≡ (
    if has "h" server.hub_streams && contains "a" (sids_on "h" (values held))
    then kicked_at (pos 50) (find "h" "a" server.session_store)
    else find "h" "a" server.session_store)
find-kickoff_example = find-kickoff answers (pos 50) held server "h" "a"

abbrev life : List ServerEvent
life =
    joins "h" 1
    ∷ receives answers "h" (record no_follower_msg { session_online = some (session "a" 5 0) })
        (pos 20)
    ∷ receives answers "h" (record no_follower_msg { e2e_msg = some im }) (pos 21)
    ∷ pushes answers (record no_leader_msg { head_seq = (pos 7, pos 3) ∷ [] })
    ∷ ticks answers (pos 30)
    ∷ leaves "h"
    ∷ []

run-IsServing_example : IsServing (happen_all insertion writer life (new_push_server 2 4))
run-IsServing_example = run-IsServing insertion writer 2 4 life
