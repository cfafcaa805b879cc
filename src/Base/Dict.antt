-- ===== src/Base/Dict.antt =====
-- Go's `map`: a list of entries. The order of the entries is the order in which a `range` loop
-- meets them, which Go leaves open; the theorems hold for every list, so for every order.
pub mod Each
use mathlib.Core.Path.{◌≡◌, refl, subst}
use mathlib.Core.Bool.{Bool, true, false}
use mathlib.Core.Logic.{inl, inr}
use mathlib.Core.Option.{Option, none, some}
use mathlib.Core.List.{List, [], ◌∷◌, ◌++◌}
use native.Mathlib.Omega.{arith}
use minipush.Base.Tests.{if◌then◌else◌, Bool-cases}
use minipush.Base.Keys.{Key, ◌==◌}

module _ {ℓ κ} {K : Type ℓ} ⦃e : Key K⦄ {V : Type κ} where
  -- v, ok := m[k]
  unfoldable pub get : K → List (K × V) → Option V
  get k [] = none
  get k ((j, v) ∷ m) = if j == k then some v else get k m

  -- m[k] = v
  unfoldable pub put : K → V → List (K × V) → List (K × V)
  put k v [] = (k, v) ∷ []
  put k v ((j, w) ∷ m) = if j == k then (k, v) ∷ m else (j, w) ∷ put k v m

  -- delete(m, k)
  unfoldable pub delete : K → List (K × V) → List (K × V)
  delete k [] = []
  delete k ((j, w) ∷ m) = let rest = delete k m in if j == k then rest else (j, w) ∷ rest

  pub get-put :
      (k j : K) (v : V) (m : List (K × V))
      → get j (put k v m) ≡ (if k == j then some v else get j m)
  unfolding get put
  get-put k j v [] = refl
  get-put k j v ((i, w) ∷ m) =
      ground (arith, e.same_iff k j, e.same_iff i k, e.same_iff i j, get-put k j v m)

  pub get-delete :
      (k j : K) (m : List (K × V)) → get j (delete k m) ≡ (if k == j then none else get j m)
  unfolding get delete
  get-delete k j [] = ground arith
  get-delete k j ((i, w) ∷ m) =
      ground (arith, e.same_iff k j, e.same_iff i k, e.same_iff i j, get-delete k j m)

  -- _, ok := m[k]
  unfoldable pub has : K → List (K × V) → Bool
  unfolding get
  has k m = elim (get k m) [ none ↦ false | some _ ↦ true ]

  -- for k, v := range m { if test(k, v) { delete(m, k) } }
  unfoldable pub prune : (K → V → Bool) → List (K × V) → List (K × V)
  prune test [] = []
  prune test ((k, v) ∷ m) = let rest = prune test m in if test k v then rest else (k, v) ∷ rest

  -- A map has one entry for a key.
  abbrev pub Distinct : List (K × V) → Type κ
  Distinct [] = Unit
  Distinct ((k, v) ∷ m) = (get k m ≡ none) × Distinct m

  get-put-none :
      (k j : K) (v : V) (m : List (K × V))
      → (j == k) ≡ false
      → get j m ≡ none
      → get j (put k v m) ≡ none
  get-put-none k j v m n h = ground (arith, get-put k j v m, e.same_iff j k, e.same_iff k j)

  pub put-Distinct : (k : K) (v : V) (m : List (K × V)) → Distinct m → Distinct (put k v m)
  unfolding get put
  put-Distinct k v [] d = (refl, tt)
  put-Distinct k v ((j, w) ∷ m) d = elim (Bool-cases (j == k)) [
    | inl p ↦ rw p (subst (λ i. get i m ≡ none) ((e.same_iff j k).0 p) d.0, d.1)
    | inr n ↦ rw n (get-put-none k j v m n d.0, put-Distinct k v m d.1)
  ]

  pub get-delete-none : (k j : K) (m : List (K × V)) → get j m ≡ none → get j (delete k m) ≡ none
  get-delete-none k j m h = ground (arith, get-delete k j m)

  pub delete-Distinct : (k : K) (m : List (K × V)) → Distinct m → Distinct (delete k m)
  unfolding delete
  delete-Distinct k [] d = tt
  delete-Distinct k ((j, w) ∷ m) d = elim (Bool-cases (j == k)) [
    | inl e ↦ rw e (delete-Distinct k m d.1)
    | inr n ↦ rw n (get-delete-none k j m d.0, delete-Distinct k m d.1)
  ]

  -- What is left under a key after `prune`.
  abbrev pub unless : (K → V → Bool) → K → Option V → Option V
  unless test k none = none
  unless test k (some v) = if test k v then none else some v

  get-prune-none :
      (test : K → V → Bool) (k : K) (m : List (K × V))
      → get k m ≡ none
      → get k (prune test m) ≡ none
  unfolding get prune
  get-prune-none test k [] h = refl
  get-prune-none test k ((j, v) ∷ m) h = ground (arith, get-prune-none test k m)

  pub get-prune :
      (test : K → V → Bool) (k : K) (m : List (K × V))
      → Distinct m
      → get k (prune test m) ≡ unless test k (get k m)
  unfolding get prune
  get-prune test k [] d = refl
  get-prune test k ((j, v) ∷ m) d =
      ground (arith, get-prune test k m d.1, get-prune-none test k m, e.same_iff j k)

  pub prune-Distinct :
      (test : K → V → Bool) (m : List (K × V)) → Distinct m → Distinct (prune test m)
  unfolding prune
  prune-Distinct test [] d = tt
  prune-Distinct test ((k, v) ∷ m) d = elim (Bool-cases (test k v)) [
    | inl e ↦ rw e (prune-Distinct test m d.1)
    | inr n ↦ rw n (get-prune-none test k m d.0, prune-Distinct test m d.1)
  ]

  pub put_new : (k : K) (v : V) (m : List (K × V)) → get k m ≡ none → put k v m ≡ m ++ (k, v) ∷ []
  unfolding get put
  put_new k v [] h = refl
  put_new k v ((j, w) ∷ m) h = ground (arith, put_new k v m)
