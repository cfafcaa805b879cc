-- ===== src/Store/Events/Recipients.antt =====
-- The loop of `Save` of store/event.go over the users of an event.
use minipush.Base.{
  ℕ, suc, ◌+◌, ◌<◌, ◌^◌, Option, none, some, List, [], ◌∷◌, length, if◌then◌else◌, ◌≡◌, refl, ap,
  ◌∙◌, subst, inl, inr, arith, Bool-cases,
}
use minipush.Base.Int.{ℤ, pos}
use minipush.Base.Keys.{◌==◌, int_eq}
use minipush.Base.Results.{ok}
use minipush.Base.Dict.{get, put, get-put, Distinct, put-Distinct}
use minipush.Store.Events.{SavedEvent, Database, inc_seq, save_users}
use minipush.Store.Events.Increment.{inc_seq_lem}
use minipush.Store.Events.Sequences.{IsLawful, head_of, seq_in, then_run-ok, pair_eq, same_ok}

-- A sequence that was given, or none, from the head before and the head after.
abbrev pub Advance : Option ℤ → ℕ → ℕ → Type 0
Advance none before after = after ≡ before
Advance (some seq) before after = (seq ≡ pos after) × (before < after)

module _ {D : Type 0} (db : Database D) (law : IsLawful db) where
  abbrev head : ℤ → D → ℕ
  head = head_of law

  -- What the loop of `Save` has given by the state `d`, from the state `start` on.
  abbrev pub Gave : List (ℤ × ℤ) → D → D → Type 0
  Gave m start d = (x : ℤ) → Advance (get x m) (head x start) (head x d)

  Advance-lt : (o : Option ℤ) (before after : ℕ) → Advance o before after → before < suc after
  Advance-lt none before after a = omega (arith, a)
  Advance-lt (some seq) before after a = omega (arith, a.1)

  Gave-put :
      (uid n x : ℤ) (m : List (ℤ × ℤ)) (start d d' : D)
      → n ≡ pos (suc (head uid d))
      → ((y : ℤ) → head y d' ≡ (if uid == y then suc (head y d) else head y d))
      → Advance (get x m) (head x start) (head x d)
      → Advance (get x (put uid n m)) (head x start) (head x d')
  Gave-put uid n x m start d d' e heads a = elim (Bool-cases (uid == x)) [
    | inl y ↦
        let at_x : n ≡ pos (suc (head x d)) =
          subst (λ i. n ≡ pos (suc (head i d))) ((int_eq.same_iff uid x).0 y) e in
        let now_x : head x d' ≡ suc (head x d) = heads x ∙ rw y refl in
        rw (get-put uid x n m, y)
          (rw now_x (at_x, Advance-lt (get x m) (head x start) (head x d) a))
    | inr o ↦ rw (get-put uid x n m, o) (rw (heads x, o) a)
  ]

  -- One more than the head fits in an int32, for as many users as are left.
  abbrev pub Fits : ℕ → D → Type 0
  Fits left d = (x : ℤ) → head x d + left < 2 ^ 31

  one_less :
      (uid x : ℤ) (left : ℕ) (d d' : D)
      → head x d' ≡ (if uid == x then suc (head x d) else head x d)
      → head x d + suc left < 2 ^ 31
      → head x d' + left < 2 ^ 31
  one_less uid x left d d' e fits = elim (Bool-cases (uid == x)) [
    | inl y ↦ omega (arith, rw y at e, fits)
    | inr n ↦ omega (arith, rw n at e, fits)
  ]

  pub save_users_lem :
      (e : SavedEvent) (to : List ℤ) (m m' : List (ℤ × ℤ)) (start d d' : D)
      → Fits (length to) d
      → Gave m start d
      → save_users db e to m d ≡ (ok m', d')
      → Gave m' start d'
  unfolding save_users
  save_users_lem e [] m m' start d d' fits g h = let (a, b) = same_ok m m' d d' h in rw (← a, ← b) g
  save_users_lem e (uid ∷ to) m m' start d d' fits g h =
      let (seq, e1, r1) = then_run-ok (inc_seq db uid d) _ m' d' h in
      let d1 : D = (inc_seq db uid d).1 in
      let (_, e2, r2) = then_run-ok (db.insert_user_event uid seq e d1) _ m' d' r1 in
      let d2 : D = (db.insert_user_event uid seq e d1).1 in
      let (given, heads) =
        inc_seq_lem db law uid seq d d1 (omega (arith, fits uid)) (pair_eq _ e1) in
      let heads2 : (x : ℤ) → head x d2 ≡ (if uid == x then suc (head x d) else head x d) =
        λ x. ap seq_in (law.insert_user_event uid seq e x d1) ∙ heads x in
      save_users_lem e to (put uid seq m) m' start d2 d'
        (λ x. one_less uid x (length to) d d2 (heads2 x) (fits x))
        (λ x. Gave-put uid seq x m start d d2 given heads2 (g x)) r2

  pub save_users-Distinct :
      (e : SavedEvent) (to : List ℤ) (m m' : List (ℤ × ℤ)) (d d' : D)
      → Distinct m
      → save_users db e to m d ≡ (ok m', d')
      → Distinct m'
  unfolding save_users
  save_users-Distinct e [] m m' d d' k h = subst Distinct (same_ok m m' d d' h).0 k
  save_users-Distinct e (uid ∷ to) m m' d d' k h =
      let (seq, _, r1) = then_run-ok (inc_seq db uid d) _ m' d' h in
      let (_, _, r2) =
        then_run-ok (db.insert_user_event uid seq e (inc_seq db uid d).1) _ m' d' r1 in
      save_users-Distinct e to (put uid seq m) m' _ d' (put-Distinct uid seq m k) r2
