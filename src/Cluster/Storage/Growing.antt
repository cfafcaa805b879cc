-- ===== src/Cluster/Storage/Growing.antt =====
-- The cache of cluster/eventstore.go over the event store of store/event.go: the panic of `put` is
-- never reached.
pub mod Pushed
use minipush.Base.{
  ℕ, suc, ◌≤◌, false, Option, none, some, List, [], ◌∷◌, ltb, length, if◌then◌else◌, ◌≡◌, refl, sym,
  ap, ◌∙◌, subst, inl, inr, arith, Bool-cases, Option-cases,
}
use minipush.Base.Int.{ℤ, pos, ◌≤ℤ◌}
use minipush.Base.Keys.{int_eq}
use minipush.Base.Options.{◌>>=◌}
use minipush.Base.Dict.{get, Distinct}
use minipush.Base.Results.{Result, ok, err}
use minipush.Store.Events.{SavedEvent, Fault, Database, save}
use minipush.Store.Events.Sequences.{IsLawful, head_of}
use minipush.Store.Events.Recipients.{Advance, Fits}
use minipush.Store.Events.Atomic.{save-IsAtomic}
use minipush.Store.Events.Saving.{save_gives, save-Distinct}
use minipush.Cluster.Storage.{UserSeq, Cache, new_cache, put_cache, check, is_due}
use minipush.Cluster.Storage.Checking.{check_all_lem, get-check_all-none, check_all-Distinct}
use minipush.Cluster.Storage.Putting.{Ready, After, put_seqs_lem}

-- `Save`, and `put` of what it gives, as in `consumeLoop`; `none` is the panic.
unfoldable pub put_saved :
    {D : Type 0} → ℕ → Cache → Result (List (ℤ × ℤ)) Fault × D → Option (D × Cache)
put_saved now c (err _, d) = some (d, c)
put_saved now c (ok m, d) =
    if ltb 0 (length m) then (do c' ← put_cache now m c; some (d, c')) else some (d, c)

abbrev pub save_and_put :
    {D : Type 0} → Database D → SavedEvent → ℕ → D → Cache → Option (D × Cache)
save_and_put db e now d c = put_saved now c (save db e d)

-- The head of an entry is no more than the head in the database.
abbrev Below : Option UserSeq → ℕ → Type 0
Below none h = Unit
Below (some v) h = v.head_seq ≤ℤ pos h

is_empty : {A : Type 0} (l : List A) → ltb 0 (length l) ≡ false → l ≡ []
is_empty [] e = refl
is_empty (x ∷ l) e = absurd (more (length l) e)
  where
    more : (n : ℕ) → ltb 0 (suc n) ≡ false → ⊥
    more n e = ground arith

module _ {D : Type 0} (db : Database D) (law : IsLawful db) where
  abbrev head : ℤ → D → ℕ
  head = head_of law

  abbrev pub IsBelow : D → Cache → Type 0
  IsBelow d c = Distinct c.kv × ((x : ℤ) → Below (get x c.kv) (head x d))

  -- What happens from an empty cache on: the consumer saves an event, the ticker checks the cache,
  -- and others change the database, where no head becomes smaller.
  pub data Reach : D → Cache → Type 0 where
    start : (d : D) → Reach d new_cache
    saves :
        (e : SavedEvent) (now : ℕ) (d d' : D) (c c' : Cache)
        → Reach d c
        → Fits db law (length e.to) d
        → save_and_put db e now d c ≡ some (d', c')
        → Reach d' c'
    checks : (now : ℕ) (d : D) (c : Cache) → Reach d c → Reach d (check now c)
    others : (d d' : D) (c : Cache) → Reach d c → ((x : ℤ) → head x d ≤ head x d') → Reach d' c

  pub above :
      (o : Option ℤ) (p : Option UserSeq) (before after : ℕ)
      → Advance o before after
      → Below p before
      → Ready o p
  above none p before after a b = tt
  above (some seq) none before after a b = tt
  above (some seq) (some v) before after (e, lt) b = rw e (omega (arith, lt, b))

  raised :
      (o : Option ℤ) (p new : Option UserSeq) (before after : ℕ)
      → Advance o before after
      → Below p before
      → After o p new
      → Below new after
  raised none p new before after a b e = rw e (rw a b)
  raised (some seq) p new before after (e, lt) b (v, f, g) = rw f (rw (g ∙ e) (omega arith))

  stays : (p : Option UserSeq) (before after : ℕ) → after ≡ before → Below p before → Below p after
  stays p before after e b = rw e b

  grows : (p : Option UserSeq) (before after : ℕ) → before ≤ after → Below p before → Below p after
  grows none before after h b = tt
  grows (some v) before after h b = omega (arith, h, b)

  checked :
      (now : ℕ) (x : ℤ) (c : Cache) (h : ℕ)
      → Distinct c.kv
      → Below (get x c.kv) h
      → Below (get x (check now c).kv) h
  unfolding check
  checked now x c h d b = elim (Bool-cases c.sending) [
    | inl y ↦ rw y b
    | inr n ↦ rw n (elim (Option-cases (get x c.kv)) [
      | inl e ↦ rw ((get-check_all-none now x c.kv e).0) tt
      | inr (v, e) ↦
          rw ((check_all_lem now x c.kv d v e).0)
            (elim (Bool-cases (is_due now v)) [ inl y ↦ rw y tt | inr m ↦ rw m (rw e at b) ])
    ])
  ]

  check-IsBelow : (now : ℕ) (d : D) (c : Cache) → IsBelow d c → IsBelow d (check now c)
  unfolding check
  check-IsBelow now d c b = (
    elim (Bool-cases c.sending) [
      | inl y ↦ rw y b.0
      | inr n ↦ rw n (check_all-Distinct now c.kv b.0)
    ],
    λ x. checked now x c (head x d) b.0 (b.1 x),
  )

  abbrev Steps : SavedEvent → ℕ → D → Cache → Type 0
  Steps e now d c =
      (d' : D) × (c' : Cache) × (save_and_put db e now d c ≡ some (d', c')) × IsBelow d' c'

  saved_step :
      (e : SavedEvent) (now : ℕ) (m : List (ℤ × ℤ)) (d d' : D) (c : Cache)
      → IsBelow d c
      → Fits db law (length e.to) d
      → save db e d ≡ (ok m, d')
      → Steps e now d c
  unfolding put_saved put_cache get
  saved_step e now m d d' c b fits q =
      let gives = save_gives db law e m d d' fits q in
      elim (Bool-cases (ltb 0 (length m))) [
        | inl y ↦
            let (kv, f, after, keeps) =
              put_seqs_lem now m c.kv (save-Distinct db law e m d d' fits q)
                (λ x. above (get x m) (get x c.kv) (head x d) (head x d') (gives x) (b.1 x)) in
            (
              d',
              record c { kv = kv },
              ap (put_saved now c) q ∙ rw (y, f, put_cache) refl,
              (
                keeps b.0,
                λ x.
                    raised (get x m) (get x c.kv) (get x kv) (head x d) (head x d') (gives x)
                      (b.1 x) (after x),
              ),
            )
        | inr n ↦
            let none_given = is_empty m n in
            (
              d',
              c,
              ap (put_saved now c) q ∙ rw n refl,
              (
                b.0,
                λ x.
                    stays (get x c.kv) (head x d) (head x d')
                      (subst (λ l. Advance (get x l) (head x d) (head x d')) none_given (gives x))
                      (b.1 x),
              ),
            )
      ]

  step :
      (e : SavedEvent) (now : ℕ) (d : D) (c : Cache)
      → IsBelow d c
      → Fits db law (length e.to) d
      → Steps e now d c
  unfolding put_saved
  step e now d c b fits = elim (save-IsAtomic db e d law.rollback law.abandon) [
    | inl (f, q) ↦ (d, c, ap (put_saved now c) q, b)
    | inr (m, _, _, q) ↦ saved_step e now m d _ c b fits q
  ]

  -- Of a state that was not lost in a panic.
  abbrev Holds : Option (D × Cache) → Type 0
  Holds none = Unit
  Holds (some (d, c)) = IsBelow d c

  same_pair :
      (d d' : D) (c c' : Cache)
      → ◌≡◌ {A = Option (D × Cache)} (some (d, c)) (some (d', c'))
      → IsBelow d c
      → IsBelow d' c'
  same_pair d d' c c' e b = subst Holds e b

  pub Reach-IsBelow : {d : D} {c : Cache} → Reach d c → IsBelow d c
  unfolding new_cache get
  Reach-IsBelow (start d) = (tt, λ x. tt)
  Reach-IsBelow (saves e now d d' c c' r fits h) =
      let (d1, c1, p, b) = step e now d c (Reach-IsBelow r) fits in
      same_pair d1 d' c1 c' (sym p ∙ h) b
  Reach-IsBelow (checks now d c r) = check-IsBelow now d c (Reach-IsBelow r)
  Reach-IsBelow (others d d' c r le) =
      let b = Reach-IsBelow r in
      (b.0, λ x. grows (get x c.kv) (head x d) (head x d') (le x) (b.1 x))

  -- In every state that is reached from an empty cache, by saves, checks and changes of others that
  -- make no head smaller, saving an event for which the heads leave room, and putting what the save
  -- gives, comes to an end without the panic.
  pub no_panic :
      (e : SavedEvent) (now : ℕ) (d : D) (c : Cache)
      → Reach d c
      → Fits db law (length e.to) d
      → (d' : D) × (c' : Cache) × (save_and_put db e now d c ≡ some (d', c'))
  no_panic e now d c r fits =
      let (d', c', p, _) = step e now d c (Reach-IsBelow r) fits in (d', c', p)
