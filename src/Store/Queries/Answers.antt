-- ===== src/Store/Queries/Answers.antt =====
-- What the queries of store/event.go answer.
use mathlib.Core.Option
use minipush.Base.{
  ℕ, Bool, String, Option, none, some, List, ltb, length, length-map, map, All, ◌≡◌, refl, sym,
  subst, ap, ◌∙◌, inl, inr, Bool-cases,
}
use minipush.Base.Int.{ℤ, pos}
use minipush.Base.Keys.{int_eq}
use minipush.Base.Dict.{get}
use minipush.Base.Results.{Result, ok, err}
use minipush.Proto.{Event, StatsReq, StatsResp, GetReadStatesReq, Block}
use minipush.Store.Events.{SavedEvent, Fault, Run, Database, with_tx, save}
use minipush.Store.Events.Atomic.{with_tx-IsAtomic}
use minipush.Store.Events.Sequences.{IsLawful, head_of, seq_in, then_run-ok, pair_eq, same_ok}
use minipush.Store.Events.Recipients.{Advance, Fits}
use minipush.Store.Events.Saving.{save_gives, with_tx-ok}
use minipush.Store.ReadStates.{make_get_read_states_resp}
use minipush.Store.ReadStates.Total.{make_get_read_states_resp-total}
use minipush.Store.Queries.{
  Queries, Clock, seq_of_row, map_ok, get_seq, count_unread, stats_in, stats, read_rows,
  get_read_states,
}

-- A failure leaves the state that was there before.
abbrev pub Keeps : {D A E : Type 0} → D → Result A E × D → Type 0
Keeps {E = E} start r = (e : E) → r.0 ≡ err e → r.1 ≡ start

abbrev pub RollsBack : {D : Type 0} → Database D → Type 0
RollsBack {D} db = ((a b : D) → db.rollback a b ≡ a) × ((a b : D) → db.abandon a b ≡ a)

ok_err : {A E : Type 0} (a : A) (e : E) → ◌≡◌ {A = Result A E} (ok a) (err e) → ⊥
ok_err a e p = cc

pub with_tx-Keeps :
    {D A : Type 0} (db : Database D) (exec : Run D A) (d : D)
    → RollsBack db
    → Keeps d (with_tx db exec d)
with_tx-Keeps db exec d (r, c) e p = elim (with_tx-IsAtomic db exec d r c) [
  | inl (f, q) ↦ ap (λ x. x.1) q
  | inr (a, _, _, q) ↦ absurd (ok_err a e (sym (ap (λ x. x.0) q) ∙ p))
]

pub map_ok-Keeps :
    {D A B : Type 0} (f : A → B) (start : D) (r : Result A Fault × D)
    → Keeps start r
    → Keeps start (map_ok f r)
map_ok-Keeps f start (ok a, d) k e p = absurd (ok_err (f a) e p)
map_ok-Keeps f start (err x, d) k e p = k x refl

-- The columns of a row, in the order in which GetEvents scans them.
abbrev pub columns : Event → ℤ × ℤ × Bool × String
columns e = (e.seq, e.create_time, e.read_state, e.payload)

abbrev pub IsEventOf : ℤ → Event → Type 0
IsEventOf uid e = e.uid ≡ uid

-- Events that show rows.
abbrev pub Shows : ℤ → List (Result (ℤ × ℤ × Bool × String) Fault) → List Event → Type 0
Shows uid scans events = (scans ≡ map (λ e. ok (columns e)) events) × All (IsEventOf uid) events

module _ {D T : Type 0} (db : Database D) (q : Queries D) (clock : Clock T) where
  -- The rows of one query give as many sequences as states, so that no request for read states panics.
  pub get_read_states-total :
      (uid days : ℤ) (req : GetReadStatesReq) (d : D)
      → (r : Result (List Block) Fault × D) × (get_read_states db q clock uid days req d
          ≡ map_ok some r)
  unfolding get_read_states
  get_read_states-total uid days req d = blocks (with_tx db (read_rows db q clock uid days req) d)
    where
      blocks :
          (r : Result (List (ℤ × ℕ)) Fault × D)
          → (s : Result (List Block) Fault × D) × (map_ok
                (λ rows.
                  make_get_read_states_resp (map (λ r. r.0) rows) (map (λ r. ltb 0 r.1) rows))
                r
              ≡ map_ok some s)
      blocks (err e, d') = ((err e, d'), refl)
      blocks (ok rows, d') =
          let (l, e) =
            make_get_read_states_resp-total (map (λ r. r.0) rows) (map (λ r. ltb 0 r.1) rows)
              (length-map _ rows ∙ sym (length-map _ rows)) in
          ((ok l, d'), rw e refl)

-- The two queries of the sequence say the same: the row of the user.
abbrev pub ReadsRow : {D : Type 0} (db : Database D) → IsLawful db → Queries D → Type 0
ReadsRow {D} db law q =
    (uid : ℤ) (row : Option (Option ℤ)) (d : D)
    → (q.get_seq uid d).0 ≡ ok row
    → row ≡ Option.map (λ n. some (pos n)) (law.row uid d)

module _ {D T : Type 0} (db : Database D) (law : IsLawful db) (q : Queries D)
    (clock : Clock T) where
  read_seq :
      (r : Option ℕ) (seq : ℤ) (d1 d2 : D)
      → seq_of_row {D = D} (Option.map (λ n. some (pos n)) r) d1 ≡ (ok seq, d2)
      → seq ≡ pos (seq_in r)
  read_seq none seq d1 d2 h = sym (same_ok (pos 0) seq d1 d2 h).0
  read_seq (some n) seq d1 d2 h = sym (same_ok (pos n) seq d1 d2 h).0

  get_seq_lem :
      (uid seq : ℤ) (d d2 : D)
      → ReadsRow db law q
      → get_seq db q clock uid d ≡ (ok seq, d2)
      → seq ≡ pos (head_of law uid d)
  unfolding get_seq
  get_seq_lem uid seq d d2 reads h =
      let (row, e, r) = then_run-ok (q.get_seq uid d) _ seq d2 h in
      read_seq (law.row uid d) seq (q.get_seq uid d).1 d2
        (subst (λ o. seq_of_row {D = D} o (q.get_seq uid d).1 ≡ (ok seq, d2)) (reads uid row d e) r)

  head_in :
      (uid days : ℤ) (req : StatsReq) (resp : StatsResp) (d d2 : D)
      → ReadsRow db law q
      → stats_in db q clock uid days req d ≡ (ok resp, d2)
      → resp.head_seq ≡ pos (head_of law uid d)
  unfolding stats_in
  head_in uid days req resp d d2 reads h =
      let (seq, e, r) = then_run-ok (get_seq db q clock uid d) _ resp d2 h in
      let at_head = get_seq_lem uid seq d _ reads (pair_eq _ e) in
      elim (Bool-cases req.count_unread) [
        | inl y ↦
            let (count, e2, r2) =
              then_run-ok (count_unread db q clock uid days (get_seq db q clock uid d).1) _ resp d2
                (rw y at r) in
            ap (λ a. a.head_seq) (sym (same_ok _ resp _ d2 r2).0) ∙ at_head
        | inr n ↦ ap (λ a. a.head_seq) (sym (same_ok _ resp _ d2 (rw n at r)).0) ∙ at_head
      ]

  -- While the heads of all users leave room for the recipients, the head sequence that `Stats` tells
  -- a user right after a successful save is the one that the save gave to that user, if it named the
  -- user.
  pub stats_after_save :
      (e : SavedEvent) (m : List (ℤ × ℤ)) (d d' : D) (uid days seq : ℤ) (req : StatsReq)
      (resp : StatsResp)
      → ReadsRow db law q
      → Fits db law (length e.to) d
      → save db e d ≡ (ok m, d')
      → get uid m ≡ some seq
      → (stats db q clock uid days req d').0 ≡ ok resp
      → resp.head_seq ≡ seq
  unfolding stats
  stats_after_save e m d d' uid days seq req resp reads fits h given p =
      let read = with_tx-ok db law (stats_in db q clock uid days req) d' _ resp (pair_eq _ p) in
      head_in uid days req resp d' _ reads read
      ∙ sym
          (subst (λ o. Advance o (head_of law uid d) (head_of law uid d')) given
            (save_gives db law e m d d' fits h uid)).0
