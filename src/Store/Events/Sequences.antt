-- ===== src/Store/Events/Sequences.antt =====
-- The sequences that `incSeq` and `Save` of store/event.go give to the users of an event.
use minipush.Base.{
  ℕ, suc, false, Option, none, some, if◌then◌else◌, ◌≡◌, ◌⊎◌, refl, sym, ap, ◌∙◌, subst, inl, inr,
  arith, Bool-cases, Option-cases,
}
use mathlib.Core.Option
use minipush.Base.Int.{ℤ, pos}
use minipush.Base.Keys.{◌==◌, int_eq}
use minipush.Base.Results.{Result, ok, err}
use minipush.Store.Events.{
  SavedEvent, Fault, Run, Database, then_run, found, insert_missing, is_dup_key_error,
}

-- UPDATE user_seq SET seq = seq + 1 WHERE seq = ?, on the row of the user if there is one.
abbrev pub raised_row : ℤ → Option ℕ → Option ℕ
raised_row seq none = none
raised_row seq (some n) = some (if pos n == seq then suc n else n)

-- What the statements on sequences do, as their SQL says: `row` is the sequence in the row of a
-- user, if there is a row. No other statement changes it.
pub record IsLawful {D : Type 0} (db : Database D) : Type 0 where
  pub row : ℤ → D → Option ℕ
  pub rollback : (start d : D) → db.rollback start d ≡ start
  pub abandon : (start d : D) → db.abandon start d ≡ start
  pub insert_event : (e : SavedEvent) (x : ℤ) (d : D) → row x (db.insert_event e d).1 ≡ row x d
  pub get_event : (offset x : ℤ) (d : D) → row x (db.get_event offset d).1 ≡ row x d
  pub prepare : (x : ℤ) (d : D) → row x (db.prepare d).1 ≡ row x d
  pub insert_user_event :
      (uid seq : ℤ) (e : SavedEvent) (x : ℤ) (d : D)
      → row x (db.insert_user_event uid seq e d).1 ≡ row x d
  pub lock_seq : (uid x : ℤ) (d : D) → row x (db.lock_seq uid d).1 ≡ row x d
  pub lock_seq_row :
      (uid : ℤ) (r : Option ℤ) (d : D)
      → (db.lock_seq uid d).0 ≡ ok r
      → r ≡ Option.map pos (row uid d)
  pub insert_seq_new : (uid : ℤ) (d : D) → (db.insert_seq uid d).0 ≡ ok tt → row uid d ≡ none
  pub insert_seq :
      (uid x : ℤ) (d : D)
      → (db.insert_seq uid d).0 ≡ ok tt
      → row x (db.insert_seq uid d).1 ≡ (if uid == x then some 1 else row x d)
  pub insert_seq_err :
      (uid x : ℤ) (f : Fault) (d : D)
      → (db.insert_seq uid d).0 ≡ err f
      → row x (db.insert_seq uid d).1 ≡ row x d
  pub inc_seq :
      (uid seq x : ℤ) (d : D)
      → (db.inc_seq uid seq d).0 ≡ ok tt
      → row x (db.inc_seq uid seq d).1 ≡ (if uid == x then raised_row seq (row x d) else row x d)

-- The sequence of a row, and 0 without a row.
abbrev pub seq_in : Option ℕ → ℕ
seq_in none = 0
seq_in (some n) = n

abbrev pub head_of : {D : Type 0} {db : Database D} → IsLawful db → ℤ → D → ℕ
head_of law x d = seq_in (law.row x d)

-- What a successful chain of calls went through.
pub then_run-ok :
    {D A B : Type 0} (r : Result A Fault × D) (f : A → Run D B) (b : B) (d' : D)
    → then_run r f ≡ (ok b, d')
    → (a : A) × (r.0 ≡ ok a) × (f a r.1 ≡ (ok b, d'))
then_run-ok (ok a, d) f b d' h = (a, refl, h)
then_run-ok (err e, d) f b d' h = cc

pub Result-cases :
    {A E : Type 0} (r : Result A E) → ((a : A) × (r ≡ ok a)) ⊎ ((e : E) × (r ≡ err e))
Result-cases (ok a) = inl (a, refl)
Result-cases (err e) = inr (e, refl)

pub pair_eq : {D A : Type 0} {r : Result A Fault} (p : Result A Fault × D) → p.0 ≡ r → p ≡ (r, p.1)
pair_eq p e = rw (← e) refl

pub same_ok :
    {D A : Type 0} (a b : A) (d d' : D)
    → ◌≡◌ {A = Result A Fault × D} (ok a, d) (ok b, d')
    → (a ≡ b) × (d ≡ d')
same_ok {A} a b d d' h = (ok_inj (ap (λ r. r.0) h), ap (λ r. r.1) h)
  where
    ok_inj : ◌≡◌ {A = Result A Fault} (ok a) (ok b) → a ≡ b
    ok_inj e = cc

module _ {D : Type 0} (db : Database D) (law : IsLawful db) where
  open law use {row}

  abbrev head : ℤ → D → ℕ
  head = head_of law

  -- The row that is there, or the row of a new user, which says 1 before the update, which then
  -- finds no row that says 0.
  abbrev pub Inserted : ℤ → ℤ → D → D → Type 0
  Inserted uid seq d d' =
      ((row uid d ≡ some (head uid d)) × (seq ≡ pos (head uid d)) × ((x : ℤ) → row x d' ≡ row x d))
      ⊎ ((row uid d ≡ none)
          × (seq ≡ pos 0)
          × ((x : ℤ) → row x d' ≡ (if uid == x then some 1 else row x d)))

  found-ok :
      (r : Result (Option ℤ) Fault × D) (seq : ℤ) (d' : D)
      → found db r ≡ (ok seq, d')
      → (r.0 ≡ ok (some seq)) × (r.1 ≡ d')
  found-ok (ok (some s), d) seq d' h = ground arith
  found-ok (ok none, d) seq d' h = cc
  found-ok (err e, d) seq d' h = cc

  err_ok :
      (f : Fault) (seq : ℤ) (d d' : D) → ◌≡◌ {A = Result ℤ Fault × D} (err f, d) (ok seq, d') → ⊥
  err_ok f seq d d' h = no (ap (λ r. r.0) h)
    where
      no : ◌≡◌ {A = Result ℤ Fault} (err f) (ok seq) → ⊥
      no e = cc

  row_there :
      (uid : ℤ) (d : D) → (pos (head uid d) == pos 0) ≡ false → row uid d ≡ some (head uid d)
  row_there uid d n = elim (Option-cases (row uid d)) [
    | inl e ↦ absurd (zero_differs (rw e at n))
    | inr (m, e) ↦ rw (e, seq_in) refl
  ]
    where
      zero_differs : (pos 0 == pos 0) ≡ false → ⊥
      zero_differs e = cc

  some_inj : (a b : ℤ) → some a ≡ some b → a ≡ b
  some_inj a b e = cc

  row_found :
      (uid seq : ℤ) (r : Option ℕ)
      → some seq ≡ Option.map pos r
      → (r ≡ some (seq_in r)) × (seq ≡ pos (seq_in r))
  row_found uid seq none e = cc
  row_found uid seq (some n) e = (refl, some_inj seq (pos n) e)

  insert_missing_lem :
      (uid seq : ℤ) (d d' : D)
      → insert_missing db uid (pos (head uid d)) d ≡ (ok seq, d')
      → Inserted uid seq d d'
  unfolding insert_missing
  insert_missing_lem uid seq d d' h = elim (Bool-cases (pos (head uid d) == pos 0)) [
    | inr n ↦
        let (e, same) = same_ok (pos (head uid d)) seq d d' (rw n at h) in
        inl (row_there uid d n, sym e, λ x. ap (row x) (sym same))
    | inl z ↦ elim (Result-cases (db.insert_seq uid d).0) [
      | inl (u, e) ↦
          let (f, same) =
            same_ok (pos (head uid d)) seq (db.insert_seq uid d).1 d' (rw (z, e) at h) in
          let none_yet = law.insert_seq_new uid d e in
          inr (
            none_yet,
            sym f ∙ ap (λ r. pos (seq_in r)) none_yet,
            λ x. ap (row x) (sym same) ∙ law.insert_seq uid x d e,
          )
      | inr (f, e) ↦ elim (Bool-cases (is_dup_key_error f)) [
        | inl y ↦
            let d1 : D = (db.insert_seq uid d).1 in
            let (found_row, same) = found-ok (db.lock_seq uid d1) seq d' (rw (z, e, y) at h) in
            let there = row_found uid seq (row uid d) (
              law.lock_seq_row uid (some seq) d1 found_row
              ∙ ap (Option.map pos) (law.insert_seq_err uid uid f d e)) in
            inl (
              there.0,
              there.1,
              λ x. ap (row x) (sym same) ∙ (law.lock_seq uid x d1 ∙ law.insert_seq_err uid x f d e),
            )
        | inr n ↦ absurd (err_ok f seq _ d' (rw (z, e, n) at h))
      ]
    ]
  ]

  pub insert_missing_at :
      (uid first seq : ℤ) (d d' : D)
      → first ≡ pos (head uid d)
      → insert_missing db uid first d ≡ (ok seq, d')
      → Inserted uid seq d d'
  insert_missing_at uid first seq d d' e h =
      insert_missing_lem uid seq d d' (subst (λ i. insert_missing db uid i d ≡ (ok seq, d')) e h)
