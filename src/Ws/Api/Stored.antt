-- ===== src/Ws/Api/Stored.antt =====
-- The interface that ws/eventapi.go calls, as the event store of store/event.go provides it.
use minipush.Base.{String, Option, none, some, List, [], refl}
use minipush.Base.Int.{ℤ}
use minipush.Base.Results.{Result, ok, err}
use minipush.Proto.{Block, StatsReq, GetEventsReq, GetReadStatesReq, GetReadStatesResp}
use minipush.Ws.Api.{EventStore}
use minipush.Store.Events.{Fault, Database}
use minipush.Store.Queries.{
  Queries, Clock, map_ok, stats, get_events, set_read, get_read_states, stats_in, get_events_in,
  set_read_in, read_rows,
}
use minipush.Store.Queries.Answers.{Keeps, RollsBack, with_tx-Keeps, map_ok-Keeps}

-- err.Error(): the text of an error of the database.
abbrev pub described : {D A : Type 0} → (Fault → String) → Result A Fault × D → Result A String × D
described text (ok a, d) = (ok a, d)
described text (err f, d) = (err (text f), d)

-- No request comes to `none`, the panic of get_read_states-total.
abbrev pub resp_of : Option (List Block) → GetReadStatesResp
resp_of none = record { blocks = [] }
resp_of (some blocks) = record { blocks = blocks }

-- What a store promises on the calls that fail.
pub record IsTransactional {S : Type 0} (store : EventStore S) : Type 0 where
  pub stats : (uid days : ℤ) (req : StatsReq) (s : S) → Keeps s (store.stats uid days req s)
  pub get_events : (uid : ℤ) (req : GetEventsReq) (s : S) → Keeps s (store.get_events uid req s)
  pub set_read : (uid seq : ℤ) (s : S) → Keeps s (store.set_read uid seq s)
  pub get_read_states :
      (uid days : ℤ) (req : GetReadStatesReq) (s : S)
      → Keeps s (store.get_read_states uid days req s)

described-Keeps :
    {D A : Type 0} (text : Fault → String) (start : D) (r : Result A Fault × D)
    → Keeps start r
    → Keeps start (described text r)
described-Keeps text start (ok a, d) k e p = cc
described-Keeps text start (err f, d) k e p = k f refl

module _ {D T : Type 0} (db : Database D) (q : Queries D) (clock : Clock T)
    (text : Fault → String) where
  unfoldable pub event_store : EventStore D
  unfolding stats get_events set_read get_read_states
  event_store = record {
    stats = λ uid days req d. described text (stats db q clock uid days req d);
    get_events = λ uid req d. described text (get_events db q clock uid req d);
    set_read = λ uid seq d. described text (set_read db q clock uid seq d);
    get_read_states = λ uid days req d.
        described text (map_ok resp_of (get_read_states db q clock uid days req d));
  }

  pub event_store-IsTransactional : RollsBack db → IsTransactional event_store
  unfolding event_store stats get_events set_read get_read_states
  event_store-IsTransactional back = record {
    stats = λ uid days req d.
        described-Keeps text d _ (with_tx-Keeps db (stats_in db q clock uid days req) d back);
    get_events = λ uid req d.
        described-Keeps text d _
          (map_ok-Keeps _ d _ (with_tx-Keeps db (get_events_in db q clock uid req) d back));
    set_read = λ uid seq d.
        described-Keeps text d _
          (map_ok-Keeps _ d _ (with_tx-Keeps db (set_read_in db q clock uid seq) d back));
    get_read_states = λ uid days req d. described-Keeps text d _ (
        map_ok-Keeps resp_of d _
          (map_ok-Keeps _ d _ (with_tx-Keeps db (read_rows db q clock uid days req) d back)));
  }
