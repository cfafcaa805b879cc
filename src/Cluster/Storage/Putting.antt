-- ===== src/Cluster/Storage/Putting.antt =====
-- When the panic of `put` in cluster/eventstore.go is not reached, and what `put` leaves.
use minipush.Base.{
  ℕ, true, Option, none, some, List, [], ◌∷◌, if◌then◌else◌, ◌≡◌, refl, ◌∙◌, subst, inl, inr, arith,
  Bool-cases, Option-cases,
}
use minipush.Base.Int.{ℤ, pos, ◌<ℤ◌, ltb_ℤ, wrap64, ◌+ℤ◌}
use minipush.Base.Keys.{◌==◌, int_eq}
use minipush.Base.Dict.{get, put, Distinct, get-put, put-Distinct}
use minipush.Cluster.Storage.{UserSeq, put_seq, put_seqs}

-- A new head may be put over an entry, or without one.
abbrev pub Ready : Option ℤ → Option UserSeq → Type 0
Ready (some seq) (some v) = v.head_seq <ℤ seq
Ready _ _ = Unit

-- What `put` leaves under a user.
abbrev pub After : Option ℤ → Option UserSeq → Option UserSeq → Type 0
After none old new = new ≡ old
After (some seq) old new = (v : UserSeq) × (new ≡ some v) × (v.head_seq ≡ seq)

abbrev pub Kv : Type 0
Kv = List (ℤ × UserSeq)

put_seq_lem :
    (now : ℕ) (uid seq : ℤ) (kv : Kv)
    → Ready (some seq) (get uid kv)
    → (v : UserSeq) × (put_seq now uid seq kv ≡ some (put uid v kv)) × (v.head_seq ≡ seq)
unfolding put_seq
put_seq_lem now uid seq kv r = elim (Option-cases (get uid kv)) [
  | inl n ↦
      (record { counter = pos 1; head_seq = seq; cache_time = now }, rw (n, put_seq) refl, refl)
  | inr (v, e) ↦
      let below : ltb_ℤ v.head_seq seq ≡ true = ground (arith, rw e at r) in
      (
        record v { head_seq = seq; counter = wrap64 (v.counter +ℤ pos 1) },
        rw (e, put_seq) (rw below refl),
        refl,
      )
]

Ready-rest :
    (uid seq x : ℤ) (v : UserSeq) (m : List (ℤ × ℤ)) (kv : Kv)
    → get uid m ≡ none
    → Ready (get x ((uid, seq) ∷ m)) (get x kv)
    → Ready (get x m) (get x (put uid v kv))
unfolding get
Ready-rest uid seq x v m kv n r = elim (Bool-cases (uid == x)) [
  | inl y ↦ rw (subst (λ i. get i m ≡ none) ((int_eq.same_iff uid x).0 y) n) tt
  | inr o ↦ rw (get-put uid x v kv, o) (rw o at r)
]

After-rest :
    (uid seq x : ℤ) (v : UserSeq) (m : List (ℤ × ℤ)) (kv : Kv) (new : Option UserSeq)
    → get uid m ≡ none
    → v.head_seq ≡ seq
    → After (get x m) (get x (put uid v kv)) new
    → After (get x ((uid, seq) ∷ m)) (get x kv) new
unfolding get
After-rest uid seq x v m kv new n e a = elim (Bool-cases (uid == x)) [
  | inl y ↦
      let gone : get x m ≡ none = subst (λ i. get i m ≡ none) ((int_eq.same_iff uid x).0 y) n in
      rw y (v, (rw gone at a) ∙ (get-put uid x v kv ∙ rw y refl), e)
  | inr o ↦
      let kept : get x (put uid v kv) ≡ get x kv = get-put uid x v kv ∙ rw o refl in
      rw o (rw kept at a)
]

put_seqs_step :
    (now : ℕ) (uid seq : ℤ) (m : List (ℤ × ℤ)) (kv kv1 kv' : Kv)
    → put_seq now uid seq kv ≡ some kv1
    → put_seqs now m kv1 ≡ some kv'
    → put_seqs now ((uid, seq) ∷ m) kv ≡ some kv'
unfolding put_seqs
put_seqs_step now uid seq m kv kv1 kv' e f = rw e f

pub put_seqs_lem :
    (now : ℕ) (m : List (ℤ × ℤ)) (kv : Kv)
    → Distinct m
    → ((x : ℤ) → Ready (get x m) (get x kv))
    → (kv' : Kv) × (put_seqs now m kv ≡ some kv')
      × ((x : ℤ) → After (get x m) (get x kv) (get x kv'))
      × (Distinct kv → Distinct kv')
unfolding put_seqs get
put_seqs_lem now [] kv d r = (kv, refl, λ x. refl, λ k. k)
put_seqs_lem now ((uid, seq) ∷ m) kv d r =
    let first : Ready (some seq) (get uid kv) =
      subst (λ b. Ready (if b then some seq else get uid m) (get uid kv))
        ((int_eq.same_iff uid uid).1 refl) (r uid) in
    let (v, e, given) = put_seq_lem now uid seq kv first in
    let (kv', f, after, keeps) =
      put_seqs_lem now m (put uid v kv) d.1 (λ x. Ready-rest uid seq x v m kv d.0 (r x)) in
    (
      kv',
      put_seqs_step now uid seq m kv (put uid v kv) kv' e f,
      λ x. After-rest uid seq x v m kv (get x kv') d.0 given (after x),
      λ k. keeps (put-Distinct uid v kv k),
    )
