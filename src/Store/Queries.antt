-- ===== src/Store/Queries.antt =====
-- The queries of store/event.go, and `GetDayBefore` of store/util.go. The statements and the clock
-- are given from outside; `D` is the state of the database.
pub mod Answers
use minipush.Base.{ℕ, Bool, String, Option, none, some, List, [], ◌∷◌, ltb, if◌then◌else◌, map}
use minipush.Base.Int.{ℤ, pos, ◌+ℤ◌, ◌*ℤ◌, negate, wrap32, wrap64}
use minipush.Base.Keys.{◌==◌, int_eq}
use minipush.Base.Results.{Result, ok, err}
use minipush.Proto.{
  Event, StatsReq, StatsResp, GetEventsReq, GetEventsResp, GetReadStatesReq, GetReadStatesResp,
  SetReadResp, Block,
}
use minipush.Store.Events.{Fault, Run, Database, then_run, with_tx}
use minipush.Store.ReadStates.{make_get_read_states_resp}

-- What `rows.Next` and `rows.Scan` give, row by row, and the error, if any, that ended the rows
-- early: `rows.Err` tells it.
pub record Rows (A : Type 0) : Type 0 where
  pub scans : List (Result A Fault)
  pub broken : Option Fault

-- The statements by their names in the source. `get_seq` gives `none` if there is no row, and `none`
-- also stands for a NULL. A statement that changes rows gives what `RowsAffected` returns.
pub record Queries (D : Type 0) : Type 0 where
  pub get_seq : ℤ → Run D (Option (Option ℤ))
  pub count_unread : ℤ → ℤ → Run D (Option ℤ)
  pub get_events : ℤ → ℤ → ℤ → Run D (Rows (ℤ × ℤ × Bool × String))
  pub get_read_states : ℤ → ℤ → ℤ → Run D (Rows (ℤ × ℕ))
  pub set_read : ℤ → ℤ → Run D (ℤ × Option Fault)
  pub clean_events : ℤ → Run D (ℤ × Option Fault)

-- The standard library's time: the instant of the call, `Add` of a number of nanoseconds, the
-- beginning of the local day, and the seconds since 1970.
pub record Clock (T : Type 0) : Type 0 where
  pub now : T
  pub add : T → ℤ → T
  pub start_of_day : T → T
  pub unix : T → ℤ

-- time.Hour
abbrev hour : ℤ
hour = pos 3600000000000

-- time.Duration((days + 1)*24) * time.Hour
unfoldable pub day_offset : ℤ → ℤ
day_offset days = wrap64 (wrap32 (wrap32 (days +ℤ pos 1) *ℤ pos 24) *ℤ hour)

unfoldable pub get_day_before : {T : Type 0} → Clock T → ℤ → T
unfolding day_offset
get_day_before clock days =
    clock.start_of_day (clock.add clock.now (wrap64 (negate (day_offset days))))

-- The loop over `rows.Next`: it returns at the first row that does not scan.
unfoldable pub scan_all : {A : Type 0} → List (Result A Fault) → Result (List A) Fault
scan_all [] = ok []
scan_all (err f ∷ rows) = err f
scan_all (ok a ∷ rows) = elim (scan_all rows) [ ok l ↦ ok (a ∷ l) | err f ↦ err f ]

abbrev pub event_of : ℤ → ℤ × ℤ × Bool × String → Event
event_of uid (seq, create_time, read_state, payload) = record {
  uid = uid;
  seq = seq;
  create_time = create_time;
  payload = payload;
  read_state = read_state;
}

-- `none` reads as 0, which is the value of a NullInt32 that is not valid.
abbrev pub int32_or_zero : Option ℤ → ℤ
int32_or_zero none = pos 0
int32_or_zero (some n) = n

abbrev pub seq_of_row : {D : Type 0} → Option (Option ℤ) → Run D ℤ
seq_of_row none d = (ok (pos 0), d)
seq_of_row (some out) d = (ok (int32_or_zero out), d)

-- What follows the query: the rows, or the first error among them.
abbrev pub scanned : {D A : Type 0} → Rows A → Run D (List A)
scanned rows d = (scan_all rows.scans, d)

-- return nil, err
abbrev pub map_ok : {D A B : Type 0} → (A → B) → Result A Fault × D → Result B Fault × D
map_ok f (ok a, d) = (ok (f a), d)
map_ok f (err e, d) = (err e, d)

module _ {D T : Type 0} (db : Database D) (q : Queries D) (clock : Clock T) where
  unfoldable pub get_seq : ℤ → Run D ℤ
  get_seq uid d = then_run (q.get_seq uid d) seq_of_row

  unfoldable pub count_unread : ℤ → ℤ → Run D ℤ
  unfolding get_day_before
  count_unread uid days d =
      then_run (q.count_unread uid (clock.unix (get_day_before clock days)) d)
        (λ out d1. (ok (int32_or_zero out), d1))

  -- The body of the transaction of `Stats`.
  unfoldable pub stats_in : ℤ → ℤ → StatsReq → Run D StatsResp
  unfolding get_seq count_unread
  stats_in uid days req d = then_run (get_seq uid d) (λ seq d1.
      if req.count_unread
      then then_run (count_unread uid days d1)
          (λ count d2. (ok (record { conf = none; head_seq = seq; unread_count = count }), d2))
      else (ok (record { conf = none; head_seq = seq; unread_count = pos 0 }), d1))

  unfoldable pub stats : ℤ → ℤ → StatsReq → Run D StatsResp
  unfolding stats_in with_tx
  stats uid days req d = with_tx db (stats_in uid days req) d

  unfoldable pub get_events_in : ℤ → GetEventsReq → Run D (List Event)
  unfolding scan_all
  get_events_in uid req d =
      then_run (q.get_events uid req.from_seq req.to_seq d)
        (λ rows d1. map_ok (map (event_of uid)) (scanned rows d1))

  unfoldable pub get_events : ℤ → GetEventsReq → Run D GetEventsResp
  unfolding get_events_in with_tx
  get_events uid req d =
      map_ok (λ events. record { events = events }) (with_tx db (get_events_in uid req) d)

  unfoldable pub read_rows : ℤ → ℤ → GetReadStatesReq → Run D (List (ℤ × ℕ))
  unfolding get_day_before scan_all
  read_rows uid days req d =
      then_run (q.get_read_states uid req.head_seq (clock.unix (get_day_before clock days)) d)
        scanned

  -- `none` is the panic of an index out of range in MakeGetReadStatesResp.
  unfoldable pub get_read_states : ℤ → ℤ → GetReadStatesReq → Run D (Option (List Block))
  unfolding read_rows with_tx make_get_read_states_resp
  get_read_states uid days req d =
      map_ok (λ rows. make_get_read_states_resp (map (λ r. r.0) rows) (map (λ r. ltb 0 r.1) rows))
        (with_tx db (read_rows uid days req) d)

  unfoldable pub set_read_in : ℤ → ℤ → Run D Bool
  set_read_in uid seq d = then_run (q.set_read uid seq d) (λ res d1. (ok (res.0 == pos 1), d1))

  unfoldable pub set_read : ℤ → ℤ → Run D SetReadResp
  unfolding set_read_in with_tx
  set_read uid seq d =
      map_ok (λ changed. record { seq = seq; changed = changed })
        (with_tx db (set_read_in uid seq) d)

  unfoldable pub clean_in : ℤ → Run D ℤ
  unfolding get_day_before
  clean_in ttl_days d =
      then_run (q.clean_events (clock.unix (get_day_before clock ttl_days)) d)
        (λ res d1. elim res.1 [ some e ↦ (err e, d1) | none ↦ (ok (wrap32 res.0), d1) ])

  unfoldable pub delete_outdated_events : ℤ → Run D ℤ
  unfolding clean_in with_tx
  delete_outdated_events ttl_days d = with_tx db (clean_in ttl_days) d
