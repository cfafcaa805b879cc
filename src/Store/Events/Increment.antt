-- ===== src/Store/Events/Increment.antt =====
-- `incSeq` of store/event.go gives a user the sequence after the one in the user's row.
use minipush.Base.{
  ℕ, suc, ◌+◌, ◌<◌, ◌^◌, true, false, Option, none, some, if◌then◌else◌, ◌≡◌, refl, sym, ap, ◌∙◌,
  subst, inl, inr, arith, Bool-cases,
}
use mathlib.Core.Option
use minipush.Base.Int.{ℤ, pos, ◌+ℤ◌, wrap32, wrap32_id}
use minipush.Base.Keys.{◌==◌, int_eq}
use minipush.Base.Results.{Result, ok}
use minipush.Store.ReadStates.Runs.{succ_pos}
use minipush.Store.Events.{Fault, Database, then_run, insert_missing, or_zero, inc_seq}
use minipush.Store.Events.Sequences.{
  IsLawful, seq_in, head_of, then_run-ok, pair_eq, same_ok, Inserted, insert_missing_at,
}

module _ {D : Type 0} (db : Database D) (law : IsLawful db) where
  open law use {row}

  abbrev head : ℤ → D → ℕ
  head = head_of law

  id_self : (uid : ℤ) → (uid == uid) ≡ true
  id_self uid = (int_eq.same_iff uid uid).1 refl

  at_user :
      (uid seq : ℤ) (d d' : D)
      → Inserted db law uid seq d d'
      → (db.inc_seq uid seq d').0 ≡ ok tt
      → row uid (db.inc_seq uid seq d').1 ≡ some (suc (head uid d))
  at_user uid seq d d' (inl (there, e, same)) u =
      law.inc_seq uid seq uid d' u
      ∙ rw (id_self uid, same uid, there, e, id_self (pos (head uid d))) refl
  at_user uid seq d d' (inr (none_yet, e, given)) u =
      law.inc_seq uid seq uid d' u ∙ rw (given uid, id_self uid, e, none_yet) refl

  at_other :
      (uid seq x : ℤ) (d d' : D)
      → Inserted db law uid seq d d'
      → (db.inc_seq uid seq d').0 ≡ ok tt
      → (uid == x) ≡ false
      → row x (db.inc_seq uid seq d').1 ≡ row x d
  at_other uid seq x d d' (inl (there, e, same)) u n = law.inc_seq uid seq x d' u ∙ rw n (same x)
  at_other uid seq x d d' (inr (none_yet, e, given)) u n =
      law.inc_seq uid seq x d' u ∙ rw n (given x ∙ rw n refl)

  next_seq :
      (uid seq : ℤ) (d d' : D)
      → Inserted db law uid seq d d'
      → head uid d + 1 < 2 ^ 31
      → wrap32 (seq +ℤ pos 1) ≡ pos (suc (head uid d))
  next_seq uid seq d d' (inl (there, e, same)) small =
      rw (e, succ_pos (head uid d)) (wrap32_id (pos (suc (head uid d))) (omega arith, omega arith))
  next_seq uid seq d d' (inr (none_yet, e, given)) small =
      rw (e, none_yet, succ_pos 0) (wrap32_id (pos 1) (omega arith, omega arith))

  pick :
      (uid x : ℤ) (d d' : D)
      → head uid d' ≡ suc (head uid d)
      → ((uid == x) ≡ false → head x d' ≡ head x d)
      → head x d' ≡ (if uid == x then suc (head x d) else head x d)
  pick uid x d d' mine others = elim (Bool-cases (uid == x)) [
    | inl y ↦ rw y (subst (λ i. head i d' ≡ suc (head i d)) ((int_eq.same_iff uid x).0 y) mine)
    | inr n ↦ rw n (others n)
  ]

  inc_from :
      (uid n : ℤ) (d d' : D)
      → (r : Result ℤ Fault × D) → ((seq : ℤ) → r.0 ≡ ok seq → Inserted db law uid seq d r.1)
      → head uid d + 1 < 2 ^ 31
      → then_run r
          (λ seq d2. then_run (db.inc_seq uid seq d2) (λ _ d3. (ok (wrap32 (seq +ℤ pos 1)), d3)))
        ≡ (ok n, d')
      → (n ≡ pos (suc (head uid d)))
        × ((x : ℤ) → head x d' ≡ (if uid == x then suc (head x d) else head x d))
  inc_from uid n d d' r inserted small h =
      let (seq, e, r2) = then_run-ok r _ n d' h in
      let (_, u, r3) = then_run-ok (db.inc_seq uid seq r.1) _ n d' r2 in
      let (given, same) = same_ok (wrap32 (seq +ℤ pos 1)) n (db.inc_seq uid seq r.1).1 d' r3 in
      (
        sym given ∙ next_seq uid seq d r.1 (inserted seq e) small,
        λ x.
            pick uid x d d'
              (ap (head uid) (sym same) ∙ ap seq_in (at_user uid seq d r.1 (inserted seq e) u))
              (λ o.
                ap (head x) (sym same) ∙ ap seq_in (at_other uid seq x d r.1 (inserted seq e) u o)),
      )

  or_zero-map : (r : Option ℕ) → or_zero db (Option.map pos r) ≡ pos (seq_in r)
  or_zero-map none = refl
  or_zero-map (some n) = refl

  pub inc_seq_lem :
      (uid n : ℤ) (d d' : D)
      → head uid d + 1 < 2 ^ 31
      → inc_seq db uid d ≡ (ok n, d')
      → (n ≡ pos (suc (head uid d)))
        × ((x : ℤ) → head x d' ≡ (if uid == x then suc (head x d) else head x d))
  unfolding inc_seq
  inc_seq_lem uid n d d' small h =
      let (first, e, r) = then_run-ok (db.lock_seq uid d) _ n d' h in
      let locked : D = (db.lock_seq uid d).1 in
      let kept : (x : ℤ) → head x locked ≡ head x d = λ x. ap seq_in (law.lock_seq uid x d) in
      let at_row : or_zero db first ≡ pos (head uid locked) =
        ap (or_zero db) (law.lock_seq_row uid first d e)
        ∙ (or_zero-map (law.row uid d) ∙ ap pos (sym (kept uid))) in
      let (given, heads) =
        inc_from uid n locked d' (insert_missing db uid (or_zero db first) locked)
          (λ seq q.
            insert_missing_at db law uid (or_zero db first) seq locked _ at_row (pair_eq _ q))
          (rw (kept uid) small) r in
      (rw (← kept uid) given, λ x. rw (← kept x) (heads x))
