-- ===== src/Cluster/Storage/Checking.antt =====
-- What the cache of cluster/eventstore.go keeps and what it pushes to the users.
use minipush.Base.{
  ℕ, ◌+◌, ◌<◌, true, Option, none, some, List, [], ◌∷◌, if◌then◌else◌, ◌≡◌, refl, arith, inl, inr,
  Bool-cases, subst,
}
use minipush.Base.Int.{ℤ}
use minipush.Base.Keys.{◌==◌, int_eq}
use minipush.Base.Dict.{get, Distinct}
use minipush.Cluster.Storage.{UserSeq, is_due, check_all, store_cache_ttl}

-- The head that the cache has of a user.
unfoldable pub head_of : ℤ → List (ℤ × UserSeq) → Option ℤ
head_of uid kv = elim (get uid kv) [ none ↦ none | some v ↦ some v.head_seq ]

some_eq {ℓ} : {A : Type ℓ} (a b : A) → some a ≡ some b → a ≡ b
some_eq a b e = cc

pub get-check_all-none :
    (now : ℕ) (uid : ℤ) (kv : List (ℤ × UserSeq))
    → get uid kv ≡ none
    → (get uid (check_all now kv).0 ≡ none) × (get uid (check_all now kv).1 ≡ none)
unfolding check_all get
get-check_all-none now uid [] e = (refl, refl)
get-check_all-none now uid ((k, v) ∷ kv) e = ground (arith, get-check_all-none now uid kv)

-- The cache has one entry for a user. Then `check` splits the entries: the head of a user whose
-- entry is due is in what is sent and the entry is gone, and of any other user nothing is sent and
-- the entry stays as it was. So no head is lost and none is sent twice.
pub check_all_lem :
    (now : ℕ) (uid : ℤ) (kv : List (ℤ × UserSeq))
    → Distinct kv
    → ((v : UserSeq)
        → get uid kv ≡ some v
        → (get uid (check_all now kv).0 ≡ (if is_due now v then none else some v))
          × (get uid (check_all now kv).1 ≡ (if is_due now v then some v.head_seq else none)))
unfolding check_all get
check_all_lem now uid [] d v e = cc
check_all_lem now uid ((k, w) ∷ kv) d v e = elim (Bool-cases (k == uid)) [
  | inl p ↦
      let q = (int_eq.same_iff k uid).0 p in
      let r = get-check_all-none now uid kv (subst (λ i. get i kv ≡ none) q d.0) in
      rw (← some_eq w v (rw p at e)) (elim (Bool-cases (is_due now w)) [
        | inl y ↦ rw (y, p) (r.0, refl)
        | inr n ↦ rw (n, p) (refl, r.1)
      ])
  | inr n ↦
      let r = check_all_lem now uid kv d.1 v (rw n at e) in
      elim (Bool-cases (is_due now w)) [ inl y ↦ rw (y, n) r | inr z ↦ rw (z, n) r ]
]

-- An entry is sent at the latest by the first check at which it is older than the TTL.
pub is_due_late :
    (now : ℕ) (v : UserSeq) → v.cache_time + store_cache_ttl < now → is_due now v ≡ true
unfolding is_due
is_due_late now v h = ground arith

pub check_all-Distinct :
    (now : ℕ) (kv : List (ℤ × UserSeq)) → Distinct kv → Distinct (check_all now kv).0
unfolding check_all
check_all-Distinct now [] d = tt
check_all-Distinct now ((k, v) ∷ kv) d = elim (Bool-cases (is_due now v)) [
  | inl y ↦ rw y (check_all-Distinct now kv d.1)
  | inr n ↦ rw n ((get-check_all-none now k kv d.0).0, check_all-Distinct now kv d.1)
]
