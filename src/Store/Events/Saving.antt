-- ===== src/Store/Events/Saving.antt =====
-- The sequences that `Save` of store/event.go returns, against those in the database.
use minipush.Base.{ℕ, String, List, [], length, ◌≡◌, sym, ap, ◌∙◌, inl, inr, arith, Bool-cases}
use minipush.Base.Int.{ℤ}
use minipush.Base.Keys.{int_eq}
use minipush.Base.Dict.{get, Distinct}
use minipush.Base.Results.{Result, ok, err}
use minipush.Store.Events.{
  SavedEvent, Fault, Run, Database, then_run, with_tx, save_users, save_in, save, same_event,
  is_dup_key_error,
}
use minipush.Store.Events.Atomic.{with_tx-IsAtomic}
use minipush.Store.Events.Sequences.{
  IsLawful, head_of, seq_in, then_run-ok, Result-cases, same_ok, pair_eq,
}
use minipush.Store.Events.Recipients.{Advance, Gave, Fits, save_users_lem, save_users-Distinct}

-- What a transaction gives is what its body gave.
pub with_tx-ok :
    {D A : Type 0} (db : Database D) (law : IsLawful db) (exec : Run D A) (d d' : D) (a : A)
    → with_tx db exec d ≡ (ok a, d')
    → exec d ≡ (ok a, d')
with_tx-ok {A} db law exec d d' a h = elim (with_tx-IsAtomic db exec d law.rollback law.abandon) [
  | inl (f, e) ↦ absurd (err_ok f (ap (λ r. r.0) (sym e ∙ h)))
  | inr (b, body, _, e) ↦
      let (same, last) = same_ok b a (exec d).1 d' (sym e ∙ h) in
      pair_eq (exec d) (body ∙ ap (λ c. ok c) same) ∙ ap (λ s. (ok a, s)) last
]
  where
    err_ok : (f : Fault) → ◌≡◌ {A = Result A Fault} (err f) (ok a) → ⊥
    err_ok f q = cc

module _ {D : Type 0} (db : Database D) (law : IsLawful db) where
  abbrev head : ℤ → D → ℕ
  head = head_of law

  same_heads :
      (m : List (ℤ × ℤ)) (start d d' : D)
      → ((x : ℤ) → head x d ≡ head x start)
      → ◌≡◌ {A = Result (List (ℤ × ℤ)) Fault × D} (ok [], d) (ok m, d')
      → Gave db law m start d' × Distinct m
  unfolding get
  same_heads m start d d' e h = let (a, b) = same_ok [] m d d' h in rw (← a, ← b) (λ x. e x, tt)

  err_no :
      (f : Fault) (m : List (ℤ × ℤ)) (d d' : D)
      → ◌≡◌ {A = Result (List (ℤ × ℤ)) Fault × D} (err f, d) (ok m, d')
      → ⊥
  err_no f m d d' h = no (ap (λ r. r.0) h)
    where
      no : ◌≡◌ {A = Result (List (ℤ × ℤ)) Fault} (err f) (ok m) → ⊥
      no e = cc

  new_event :
      (e : SavedEvent) (m : List (ℤ × ℤ)) (d d1 d' : D)
      → ((x : ℤ) → head x d1 ≡ head x d)
      → Fits db law (length e.to) d
      → then_run (db.prepare d1) (λ _ d2. save_users db e e.to [] d2) ≡ (ok m, d')
      → Gave db law m d d' × Distinct m
  unfolding get
  new_event e m d d1 d' same fits h =
      let (_, _, r) = then_run-ok (db.prepare d1) _ m d' h in
      let kept : (x : ℤ) → head x (db.prepare d1).1 ≡ head x d =
        λ x. ap seq_in (law.prepare x d1) ∙ same x in
      (
        save_users_lem db law e e.to [] m d (db.prepare d1).1 d'
            (λ x. omega (arith, kept x, fits x)) (λ x. kept x) r,
        save_users-Distinct db law e e.to [] m (db.prepare d1).1 d' tt r,
      )

  save_in_lem :
      (e : SavedEvent) (m : List (ℤ × ℤ)) (d d' : D)
      → Fits db law (length e.to) d
      → save_in db e d ≡ (ok m, d')
      → Gave db law m d d' × Distinct m
  unfolding save_in
  save_in_lem e m d d' fits h =
      let d1 : D = (db.insert_event e d).1 in
      let row : Result (ℤ × String) Fault × D = db.get_event e.offset d1 in
      elim (Result-cases (db.insert_event e d).0) [
        | inl (_, p) ↦
            new_event e m d d1 d' (λ x. ap seq_in (law.insert_event e x d)) fits
              (rw (p, save_in) at h)
        | inr (f, p) ↦ elim (Bool-cases (is_dup_key_error f)) [
          | inr n ↦ absurd (err_no f m d1 d' (rw (p, n, save_in) at h))
          | inl y ↦ elim (Bool-cases (same_event db e row.0)) [
            | inr n ↦ absurd (err_no f m row.1 d' (rw (p, y, n, save_in) at h))
            | inl s ↦
                same_heads m d row.1 d'
                  (λ x. ap seq_in (law.get_event e.offset x d1 ∙ law.insert_event e x d))
                  (rw (p, y, s, save_in) at h)
          ]
        ]
      ]

  -- While the heads of all users leave room for one more per recipient, a save that succeeds gives
  -- each user that it names the user's new head, which is above the old one, and it names every user
  -- whose head has changed.
  pub save_gives :
      (e : SavedEvent) (m : List (ℤ × ℤ)) (d d' : D)
      → Fits db law (length e.to) d
      → save db e d ≡ (ok m, d')
      → (x : ℤ) → Advance (get x m) (head x d) (head x d')
  unfolding save
  save_gives e m d d' fits h =
      (save_in_lem e m d d' fits (with_tx-ok db law (save_in db e) d d' m h)).0

  -- The map of `Save` has one entry for a user.
  pub save-Distinct :
      (e : SavedEvent) (m : List (ℤ × ℤ)) (d d' : D)
      → Fits db law (length e.to) d
      → save db e d ≡ (ok m, d')
      → Distinct m
  unfolding save
  save-Distinct e m d d' fits h =
      (save_in_lem e m d d' fits (with_tx-ok db law (save_in db e) d d' m h)).1
