-- ===== src/Store/Events/Atomic.antt =====
-- Saving an event, in store/event.go, is all or nothing.
use minipush.Base.{none, ◌≡◌, refl, inl, inr, Option-cases, ◌⊎◌}
use minipush.Base.Results.{Result, ok, err}
use minipush.Store.Events.{SavedEvent, Fault, Run, Database, finish, with_tx, save_in, save}

-- What a transaction comes to: it fails and the database is as it was, or its body is a success and
-- committed.
abbrev pub IsAtomic :
    {D A : Type 0} → Database D → D → Result A Fault × D → Result A Fault × D → Type 0
IsAtomic {A = A} db start body result =
    ((f : Fault) × (result ≡ (err f, start)))
    ⊎ ((a : A) × (body.0 ≡ ok a) × (db.commit body.1 ≡ none) × (result ≡ (ok a, body.1)))

finish_cases :
    {D A : Type 0} (db : Database D) (start : D) (body : Result A Fault × D)
    → ((a b : D) → db.rollback a b ≡ a)
    → ((a b : D) → db.abandon a b ≡ a)
    → IsAtomic db start body (finish db start body)
unfolding finish
finish_cases db start (err e, d) r c = inl (e, rw (r start d) refl)
finish_cases db start (ok a, d) r c = elim (Option-cases (db.commit d)) [
  | inl n ↦ inr (a, refl, n, rw (n, finish) refl)
  | inr (e, p) ↦ inl (e, rw (p, finish) (rw (c start d) refl))
]

pub with_tx-IsAtomic :
    {D A : Type 0} (db : Database D) (exec : Run D A) (d : D)
    → ((a b : D) → db.rollback a b ≡ a)
    → ((a b : D) → db.abandon a b ≡ a)
    → IsAtomic db d (exec d) (with_tx db exec d)
unfolding with_tx
with_tx-IsAtomic db exec d r c = elim (Option-cases (db.begin d)) [
  | inl n ↦ rw (n, with_tx) (finish_cases db d (exec d) r c)
  | inr (f, p) ↦ rw (p, with_tx) (inl (f, refl))
]

-- If a rollback and a failed commit leave the database as it was at the begin, then saving an event
-- fails and leaves it as it was, or it gives what its statements gave, all of them, and they are
-- committed.
pub save-IsAtomic :
    {D : Type 0} (db : Database D) (e : SavedEvent) (d : D)
    → ((a b : D) → db.rollback a b ≡ a)
    → ((a b : D) → db.abandon a b ≡ a)
    → IsAtomic db d (save_in db e d) (save db e d)
unfolding save
save-IsAtomic db e d r c = with_tx-IsAtomic db (save_in db e) d r c
