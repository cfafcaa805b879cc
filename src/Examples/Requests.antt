-- ===== src/Examples/Requests.antt =====
-- The theorems on requests at a database that is three tables.
use mathlib.Core.Option
use minipush.Base.{
  ℕ, Bool, true, false, String, Option, none, some, List, [], ◌∷◌, map, if◌then◌else◌, ◌≡◌, refl,
  sym,
}
use minipush.Base.Int.{ℤ, pos}
use minipush.Base.Keys.{int_eq, ◌==◌}
use minipush.Base.Dict.{get}
use minipush.Base.Results.{Result, ok, err}
use minipush.Proto.{Block, WsConf, StatsResp, GetEventsReq, GetEventsResp, no_client_msg}
use minipush.Store.Events.{Fault}
use minipush.Store.Queries.{Queries, Clock, event_of, map_ok, stats, get_events, get_read_states}
use minipush.Store.Queries.Answers.{get_read_states-total, stats_after_save, ReadsRow}
use minipush.Ws.Api.Stored.{event_store}
use minipush.Ws.Handler.{Read, text, recv_round}
use minipush.Ws.Handler.Refusing.{recv_round-RollsBack, has_error}
use minipush.Examples.Tables.{
  Tables, tables, old, event, gives, after, saved, old-Fits, lawful, lawful_row,
}

-- Every event of a user, unread; a request for the read states of user 9 fails.
abbrev events_of : ℤ → List (ℤ × ℤ) → List (ℤ × ℤ × Bool × String)
events_of uid [] = []
events_of uid ((u, seq) ∷ l) =
    let rest = events_of uid l in if u == uid then (seq, pos 1, false, "{}") ∷ rest else rest

abbrev states_of : ℤ → List (ℤ × ℤ) → List (ℤ × ℕ)
states_of uid [] = []
states_of uid ((u, seq) ∷ l) =
    let rest = states_of uid l in if u == uid then (seq, 0) ∷ rest else rest

abbrev queries : Queries Tables
queries = record {
  get_seq = λ uid t. (ok (Option.map (λ n. some (pos n)) (get uid t.seqs)), t);
  count_unread = λ uid from t. (ok (some (pos 0)), t);
  get_events = λ uid from to t. (
    ok (record {
      scans = map (λ a. ok a) (events_of uid t.user_events);
      broken = some Fault.other;
    }),
    t,
  );
  get_read_states = λ uid head from t.
      if uid == pos 9 then (err Fault.other, record t { user_events = [] }) else (
        ok (record { scans = map (λ a. ok a) (states_of uid t.user_events); broken = none }),
        t,
      );
  set_read = λ uid seq t. (ok (pos 1, none), t);
  clean_events = λ time t. (ok (pos 0, none), record t { events = [] });
}

-- Seconds since 1970 in UTC, as a clock that shows one instant.
abbrev clock : Clock ℤ
clock = record { now = pos 1700000000; add = λ t d. t; start_of_day = λ t. t; unix = λ t. t }

abbrev range : GetEventsReq
range = record { from_seq = pos 9; to_seq = pos 1 }

-- An error that ends the rows is not told: one event of user 7, and no error.
abbrev answer : GetEventsResp
answer = record { events = event_of (pos 7) (pos 4, pos 1, false, "{}") ∷ [] }

get_read_states-total_example :
    (r : Result (List Block) Fault × Tables) × (get_read_states tables queries clock
        (pos 7)
        (pos 30)
        (record { head_seq = pos 4 })
        after
      ≡ map_ok some r)
get_read_states-total_example =
    get_read_states-total tables queries clock (pos 7) (pos 30) (record { head_seq = pos 4 }) after

reads : ReadsRow tables lawful queries
reads uid row d h = rw (lawful_row uid d) (sym (same h))
  where
    same :
        {a b : Option (Option ℤ)} → ◌≡◌ {A = Result (Option (Option ℤ)) Fault} (ok a) (ok b) → a ≡ b
    same e = cc

abbrev told : StatsResp
told = record { conf = none; head_seq = pos 4; unread_count = pos 0 }

answered :
    (stats tables queries clock (pos 7) (pos 30) (record { count_unread = true }) after).0 ≡ ok told
unfolding stats get
answered = refl

stats_after_save_example : told.head_seq ≡ pos 4
unfolding get
stats_after_save_example =
    stats_after_save tables lawful queries clock event gives old after (pos 7) (pos 30) (pos 4)
      (record { count_unread = true }) told reads old-Fits saved refl answered

abbrev conf : WsConf
conf = record {
  event_ttl_days = pos 30;
  get_events_limit = pos 100;
  enable_client_msg = true;
  max_msg_size = pos 1024;
}

abbrev read : Read
read = text (record no_client_msg { get_read_states = some (record { head_seq = pos 4 }) }) none

failed :
    has_error
      (recv_round conf
        (event_store tables queries clock (λ f. "error 1205"))
        (pos 9)
        read
        after).frames
    ≡ true
unfolding recv_round event_store
failed = refl

-- The statement that fails had emptied a table.
recv_round-RollsBack_example :
    (recv_round conf
      (event_store tables queries clock (λ f. "error 1205"))
      (pos 9)
      read
      after).state
    ≡ after
recv_round-RollsBack_example =
    recv_round-RollsBack conf tables queries clock (λ f. "error 1205") (pos 9) read after
      (λ a b. refl, λ a b. refl) failed
