-- ===== src/Store/Events.antt =====
-- Saving events: `withTx`, `Save` and `incSeq` of store/event.go. The statements of the database are
-- given from outside; `D` is the state of the database as the transaction sees it.
pub mod Atomic
pub mod Sequences
pub mod Increment
pub mod Recipients
pub mod Saving
use minipush.Base.{
  ℕ, Bool, true, false, ◌&&◌, String, Option, none, some, List, [], ◌∷◌, if◌then◌else◌,
}
use minipush.Base.Int.{ℤ, pos, ◌+ℤ◌, wrap32}
use minipush.Base.Keys.{◌==◌, int_eq, string_eq}
use minipush.Base.Results.{Result, ok, err}
use minipush.Base.Dict.{put}

-- `Event` of store/api.go; the time is in milliseconds.
pub record SavedEvent : Type 0 where
  pub offset : ℤ
  pub create_time : ℤ
  pub to : List ℤ
  pub payload : String

-- A MySQL error with the number 1062, and any other error.
pub data Fault : Type 0 where
  dup_key other : Fault

unfoldable pub is_dup_key_error : Fault → Bool
is_dup_key_error dup_key = true
is_dup_key_error other = false

abbrev pub Run : Type 0 → Type 0 → Type 0
Run D A = D → Result A Fault × D

-- The statements by their names in the source. `lock_seq` gives `none` if there is no row; `begin`
-- and `commit` give their error; `rollback` and `abandon` tell what a rollback and a commit that
-- fails leave, from the state at the begin and the one at the end.
pub record Database (D : Type 0) : Type 0 where
  pub begin : D → Option Fault
  pub commit : D → Option Fault
  pub rollback : D → D → D
  pub abandon : D → D → D
  pub insert_event : SavedEvent → Run D Unit
  pub get_event : ℤ → Run D (ℤ × String)
  pub prepare : Run D Unit
  pub lock_seq : ℤ → Run D (Option ℤ)
  pub insert_seq : ℤ → Run D Unit
  pub inc_seq : ℤ → ℤ → Run D Unit
  pub insert_user_event : ℤ → ℤ → SavedEvent → Run D Unit

-- if err != nil { return err }
abbrev pub then_run : {D A B : Type 0} → Result A Fault × D → (A → Run D B) → Result B Fault × D
then_run (ok a, d) f = f a d
then_run (err e, d) f = (err e, d)

module _ {D : Type 0} (db : Database D) where
  -- The end of a transaction that began at the first state.
  unfoldable pub finish : {A : Type 0} → D → Result A Fault × D → Result A Fault × D
  finish start (err e, d) = (err e, db.rollback start d)
  finish start (ok a, d) = elim (db.commit d) [
    | none ↦ (ok a, d)
    | some e ↦ (err e, db.abandon start d)
  ]

  unfoldable pub with_tx : {A : Type 0} → Run D A → Run D A
  unfolding finish
  with_tx exec d = elim (db.begin d) [ some e ↦ (err e, d) | none ↦ finish d (exec d) ]

  -- The second look at the row, which is an error if it is missing.
  abbrev pub found : Result (Option ℤ) Fault × D → Result ℤ Fault × D
  found (ok (some seq), d) = (ok seq, d)
  found (ok none, d) = (err other, d)
  found (err e, d) = (err e, d)

  -- insert if not found.
  unfoldable pub insert_missing : ℤ → ℤ → Run D ℤ
  unfolding is_dup_key_error
  insert_missing uid seq d =
      if seq == pos 0
      then (let (inserted, d') = db.insert_seq uid d in
          elim inserted [
            | ok _ ↦ (ok seq, d')
            | err e ↦ if is_dup_key_error e then found (db.lock_seq uid d') else (err e, d')
          ])
      else (ok seq, d)

  abbrev pub or_zero : Option ℤ → ℤ
  or_zero none = pos 0
  or_zero (some seq) = seq

  unfoldable pub inc_seq : ℤ → Run D ℤ
  unfolding insert_missing
  inc_seq uid d = then_run (db.lock_seq uid d) (λ row d1.
      then_run (insert_missing uid (or_zero row) d1)
        (λ seq d2. then_run (db.inc_seq uid seq d2) (λ _ d3. (ok (wrap32 (seq +ℤ pos 1)), d3))))

  -- The loop over `e.To`.
  unfoldable pub save_users : SavedEvent → List ℤ → List (ℤ × ℤ) → Run D (List (ℤ × ℤ))
  unfolding inc_seq
  save_users e [] seq_map d = (ok seq_map, d)
  save_users e (uid ∷ to) seq_map d = then_run (inc_seq uid d) (λ seq d1.
      then_run (db.insert_user_event uid seq e d1)
        (λ _ d2. save_users e to (put uid seq seq_map) d2))

  -- What follows a duplicate key: no error if the event that is there is the same.
  unfoldable pub same_event : SavedEvent → Result (ℤ × String) Fault → Bool
  same_event e (err f) = false
  same_event e (ok (create_time, payload)) = create_time == e.create_time && payload == e.payload

  unfoldable pub save_in : SavedEvent → Run D (List (ℤ × ℤ))
  unfolding save_users same_event is_dup_key_error
  save_in e d =
      let (inserted, d1) = db.insert_event e d in
      elim inserted [
        | err f ↦
            if is_dup_key_error f
            then (let (row, d2) = db.get_event e.offset d1 in
                if same_event e row then (ok [], d2) else (err f, d2))
            else (err f, d1)
        | ok _ ↦ then_run (db.prepare d1) (λ _ d2. save_users e e.to [] d2)
      ]

  unfoldable pub save : SavedEvent → Run D (List (ℤ × ℤ))
  unfolding with_tx save_in
  save e d = with_tx (save_in e) d
