-- ===== src/Base/Dict/Each.antt =====
-- A predicate of every entry of a map, and how the map's operations keep it.
use mathlib.Core.Path.{◌≡◌, subst}
use mathlib.Core.Bool.{Bool}
use mathlib.Core.Logic.{inl, inr}
use mathlib.Core.Option.{some}
use mathlib.Core.List.{List, [], ◌∷◌}
use minipush.Base.Tests.{Bool-cases}
use minipush.Base.Keys.{Key, ◌==◌}
use minipush.Base.Dict.{get, put, delete, prune}

some_eq {ℓ} : {A : Type ℓ} (a b : A) → some a ≡ some b → a ≡ b
some_eq a b e = cc

module _ {ℓ κ μ} {K : Type ℓ} ⦃eq : Key K⦄ {V : Type κ} (P : K → V → Type μ) where
  abbrev pub Each : List (K × V) → Type μ
  Each [] = Unit
  Each ((k, v) ∷ m) = P k v × Each m

  pub get-Each : (k : K) (v : V) (m : List (K × V)) → get k m ≡ some v → Each m → P k v
  unfolding get
  get-Each k v [] e h = cc
  get-Each k v ((j, w) ∷ m) e h = elim (Bool-cases (j == k)) [
    | inl p ↦ subst (λ i. P i v) ((eq.same_iff j k).0 p) (subst (P j) (some_eq w v (rw p at e)) h.0)
    | inr n ↦ get-Each k v m (rw n at e) h.1
  ]

  pub put-Each : (k : K) (v : V) (m : List (K × V)) → P k v → Each m → Each (put k v m)
  unfolding put
  put-Each k v [] p h = (p, tt)
  put-Each k v ((j, w) ∷ m) p h = elim (Bool-cases (j == k)) [
    | inl e ↦ rw e (p, h.1)
    | inr n ↦ rw n (h.0, put-Each k v m p h.1)
  ]

  pub delete-Each : (k : K) (m : List (K × V)) → Each m → Each (delete k m)
  unfolding delete
  delete-Each k [] h = tt
  delete-Each k ((j, w) ∷ m) h = elim (Bool-cases (j == k)) [
    | inl e ↦ rw e (delete-Each k m h.1)
    | inr n ↦ rw n (h.0, delete-Each k m h.1)
  ]

  pub prune-Each : (test : K → V → Bool) (m : List (K × V)) → Each m → Each (prune test m)
  unfolding prune
  prune-Each test [] h = tt
  prune-Each test ((j, w) ∷ m) h = elim (Bool-cases (test j w)) [
    | inl e ↦ rw e (prune-Each test m h.1)
    | inr n ↦ rw n (h.0, prune-Each test m h.1)
  ]
