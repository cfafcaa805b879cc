-- ===== src/Cluster/Storage/Growing/Pushed.antt =====
-- What the cache of cluster/eventstore.go holds after a save, and what it pushes when it is checked.
use minipush.Base.{
  ℕ, true, false, Option, none, some, List, [], ◌∷◌, ◌++◌, ltb, length, ◌≡◌, refl, sym, ap, ◌∙◌,
  inl, inr, arith, Bool-cases,
}
use minipush.Base.Int.{ℤ, pos}
use minipush.Base.Keys.{int_eq}
use minipush.Base.Dict.{get, Distinct}
use minipush.Base.Results.{ok}
use minipush.Proto.{no_leader_msg}
use minipush.Store.Events.{SavedEvent, Database, save}
use minipush.Store.Events.Sequences.{IsLawful, head_of}
use minipush.Store.Events.Recipients.{Advance, Fits}
use minipush.Store.Events.Saving.{save_gives, save-Distinct}
use minipush.Cluster.Storage.{UserSeq, Cache, put_cache, check, check_all, is_due}
use minipush.Cluster.Storage.Checking.{check_all_lem, get-check_all-none}
use minipush.Cluster.Storage.Putting.{After, put_seqs_lem}
use minipush.Cluster.Storage.Growing.{put_saved, save_and_put, IsBelow, above}

some_eq {ℓ} : {A : Type ℓ} (a b : A) → some a ≡ some b → a ≡ b
some_eq a b e = cc

none-some {ℓ} : {A : Type ℓ} (a : A) → none ≡ some a → ⊥
none-some a e = cc

-- A map with an entry is not empty.
pub not_empty_get :
    (uid seq : ℤ) (m : List (ℤ × ℤ)) → get uid m ≡ some seq → ltb 0 (length m) ≡ true
unfolding get
not_empty_get uid seq [] e = absurd (none-some seq e)
not_empty_get uid seq (x ∷ m) e = ground arith

-- What a check sends has one head for a user.
pub check_all-Distinct_out :
    (now : ℕ) (kv : List (ℤ × UserSeq)) → Distinct kv → Distinct (check_all now kv).1
unfolding check_all
check_all-Distinct_out now [] d = tt
check_all-Distinct_out now ((k, v) ∷ kv) d = elim (Bool-cases (is_due now v)) [
  | inl y ↦ rw y ((get-check_all-none now k kv d.0).1, check_all-Distinct_out now kv d.1)
  | inr n ↦ rw n (check_all-Distinct_out now kv d.1)
]

-- A check at which the entry of a user is due pushes one message, which has the head of the entry.
pub check_pushes :
    (now : ℕ) (uid : ℤ) (v : UserSeq) (c : Cache)
    → Distinct c.kv
    → c.sending ≡ false
    → get uid c.kv ≡ some v
    → is_due now v ≡ true
    → (out : List (ℤ × ℤ)) × ((check now c).push_chan
        ≡ c.push_chan ++ record no_leader_msg { head_seq = out } ∷ [])
      × (get uid out ≡ some v.head_seq)
      × Distinct out
unfolding check
check_pushes now uid v c d idle e due =
    let heads : get uid (check_all now c.kv).1 ≡ some v.head_seq =
      (check_all_lem now uid c.kv d v e).1 ∙ rw due refl in
    (
      (check_all now c.kv).1,
      rw (idle, not_empty_get uid v.head_seq (check_all now c.kv).1 heads) refl,
      heads,
      check_all-Distinct_out now c.kv d,
    )

module _ {D : Type 0} (db : Database D) (law : IsLawful db) where
  same_cache :
      (d d' : D) (c c' : Cache)
      → ◌≡◌ {A = Option (D × Cache)} (some (d, c)) (some (d', c'))
      → c ≡ c'
  same_cache d d' c c' e = ap (λ p. p.1) (some_eq (d, c) (d', c') e)

  given_head : (seq : ℤ) (before after : ℕ) → Advance (some seq) before after → seq ≡ pos after
  given_head seq before after a = a.0

  After-some :
      (seq : ℤ) (old : Option UserSeq) (v : UserSeq)
      → After (some seq) old (some v)
      → v.head_seq ≡ seq
  After-some seq old v (w, e, f) = ap (λ u. u.head_seq) (some_eq v w e) ∙ f

  -- After a save that named a user, and a put of what it gave, the cache has the user's head.
  pub named_head :
      (e : SavedEvent) (now : ℕ) (m : List (ℤ × ℤ)) (d d' : D) (c c' : Cache) (uid seq : ℤ)
      (v : UserSeq)
      → IsBelow db law d c
      → Fits db law (length e.to) d
      → save db e d ≡ (ok m, d')
      → get uid m ≡ some seq
      → save_and_put db e now d c ≡ some (d', c')
      → get uid c'.kv ≡ some v
      → v.head_seq ≡ pos (head_of law uid d')
  unfolding put_saved put_cache
  named_head e now m d d' c c' uid seq v b fits q named p at_uid =
      let gives = save_gives db law e m d d' fits q in
      let (kv, f, after, _) = put_seqs_lem now m c.kv (save-Distinct db law e m d d' fits q) (λ x.
        above db law (get x m) (get x c.kv) (head_of law x d) (head_of law x d') (gives x)
          (b.1 x)) in
      let computed : save_and_put db e now d c ≡ some (d', record c { kv = kv }) =
        ap (put_saved now c) q ∙ rw (not_empty_get uid seq m named, f, put_cache) refl in
      let same = same_cache d' d' (record c { kv = kv }) c' (sym computed ∙ p) in
      let found : get uid kv ≡ some v = ap (λ k. get uid k.kv) same ∙ at_uid in
      After-some seq (get uid c.kv) v (rw (named, found) at (after uid))
      ∙ given_head seq (head_of law uid d) (head_of law uid d') (rw named at (gives uid))
