-- ===== src/Examples/Insertion.antt =====
-- A sorter by insertion, which shows that the assumptions on sort.Slice can hold.
use mathlib.Core.List.{Permᴰ}
use mathlib.Core.List.Permᴰ
use minipush.Base.{List, [], ◌∷◌, All, if◌then◌else◌, refl, arith, inl, inr, Bool-cases}
use minipush.Base.Int.{ℤ, ◌≤ℤ◌, leb_ℤ}
use minipush.Cluster.Sorter.{Sorter, IsSorted}
use minipush.Proto.{Session}

insert : Session → List Session → List Session
insert s [] = s ∷ []
insert s (t ∷ l) =
    let rest = insert s l in if leb_ℤ s.create_time t.create_time then s ∷ t ∷ l else t ∷ rest

pub sort : List Session → List Session
sort [] = []
sort (s ∷ l) = insert s (sort l)

insert-perm : (s : Session) (l : List Session) → Permᴰ (insert s l) (s ∷ l)
unfolding insert
insert-perm s [] = Permᴰ.refl (s ∷ [])
insert-perm s (t ∷ l) = elim (Bool-cases (leb_ℤ s.create_time t.create_time)) [
  | inl e ↦ rw e (Permᴰ.refl (s ∷ t ∷ l))
  | inr n ↦ rw n (Permᴰ.trans (Permᴰ.cons refl (insert-perm s l)) (Permᴰ.swap refl refl))
]

pub sort-perm : (l : List Session) → Permᴰ (sort l) l
unfolding sort
sort-perm [] = Permᴰ.nil
sort-perm (s ∷ l) = Permᴰ.trans (insert-perm s (sort l)) (Permᴰ.cons refl (sort-perm l))

abbrev NotBefore : ℤ → Session → Type 0
NotBefore z t = z ≤ℤ t.create_time

insert-All :
    (z : ℤ) (s : Session) (l : List Session)
    → NotBefore z s
    → All (NotBefore z) l
    → All (NotBefore z) (insert s l)
unfolding insert
insert-All z s [] p h = (p, tt)
insert-All z s (t ∷ l) p h = elim (Bool-cases (leb_ℤ s.create_time t.create_time)) [
  | inl e ↦ rw e (p, h)
  | inr n ↦ rw n (h.0, insert-All z s l p h.1)
]

later : (a b : ℤ) (l : List Session) → a ≤ℤ b → All (NotBefore b) l → All (NotBefore a) l
later a b [] p h = tt
later a b (t ∷ l) p h = (omega (arith, h.0), later a b l p h.1)

insert-IsSorted : (s : Session) (l : List Session) → IsSorted l → IsSorted (insert s l)
unfolding insert
insert-IsSorted s [] h = (tt, tt)
insert-IsSorted s (t ∷ l) h = elim (Bool-cases (leb_ℤ s.create_time t.create_time)) [
  | inl e ↦
      let p : s.create_time ≤ℤ t.create_time = ground arith in
      rw e ((p, later s.create_time t.create_time l p h.0), h)
  | inr n ↦
      let p : t.create_time ≤ℤ s.create_time = ground arith in
      rw n (insert-All t.create_time s l p h.0, insert-IsSorted s l h.1)
]

pub sort-IsSorted : (l : List Session) → IsSorted (sort l)
unfolding sort
sort-IsSorted [] = tt
sort-IsSorted (s ∷ l) = insert-IsSorted s (sort l) (sort-IsSorted l)

abbrev pub insertion : Sorter
insertion = record { slice = sort; slice-perm = sort-perm; slice-IsSorted = sort-IsSorted }
