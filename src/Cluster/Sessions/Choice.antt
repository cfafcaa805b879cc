-- ===== src/Cluster/Sessions/Choice.antt =====
-- Which sessions of a user are kicked off: `getUserSessionsToKickoff` of cluster/sessionstore.go.
use mathlib.Core.List.{Permᴰ, append-nil, append_assoc}
use mathlib.Core.List.Permᴰ
use Prim.Native.Nat.{min}
use minipush.Base.{
  ℕ, zero, suc, ◌-◌, none, List, [], ◌∷◌, ◌++◌, leb, length, take, drop, keep, All,
  take-append-drop, length-take, length-drop, length-Permᴰ, ◌≡◌, ◌≢◌, ◌∙◌, refl, sym, ap, arith,
  inl, inr, subst, Bool-cases,
}
use minipush.Base.Int.{ℤ, ◌≤ℤ◌}
use minipush.Base.Keys.{int_eq, string_eq, eq_iff}
use minipush.Base.Dict.{get, put, put_new, get-put}
use minipush.Cluster.Sorter.{Sorter, IsSorted}
use minipush.Cluster.Sessions.{
  Sids, SessionStore, values, all_sessions, is_of, by_sid, oldest_beyond,
  get_user_sessions_to_kickoff,
}
use minipush.Proto.{Session}

-- Every session of the first list was created no later than every one of the second.
abbrev pub NotAfter : List Session → List Session → Type 0
NotAfter victims kept = All (λ v. All (λ k. v.create_time ≤ℤ k.create_time) kept) victims

-- The first list is the choice that leaves `quota` of the sessions: together with what is kept it is
-- all of them, what is kept is as much as the quota allows, and no victim is newer than what is kept.
pub record IsOldestBeyond (quota : ℕ) (sessions victims : List Session) : Type 0 where
  pub kept : List Session
  pub parts : Permᴰ (victims ++ kept) sessions
  pub size : length kept ≡ min quota (length sessions)
  pub older : NotAfter victims kept

All-drop : (P : Session → Type 0) (n : ℕ) (l : List Session) → All P l → All P (drop n l)
All-drop P zero l h = h
All-drop P (suc n) [] h = h
All-drop P (suc n) (x ∷ l) h = All-drop P n l h.1

take-NotAfter : (n : ℕ) (l : List Session) → IsSorted l → NotAfter (take n l) (drop n l)
take-NotAfter zero l h = tt
take-NotAfter (suc n) [] h = tt
take-NotAfter (suc n) (x ∷ l) h = (All-drop _ n l h.0, take-NotAfter n l h.1)

module _ (sorter : Sorter) where
  open sorter use {slice, slice-perm, slice-IsSorted}

  pub oldest_beyond_lem :
      (quota : ℕ) (sessions : List Session)
      → IsOldestBeyond quota sessions (oldest_beyond sorter quota sessions)
  unfolding oldest_beyond
  oldest_beyond_lem quota sessions =
      let n : ℕ = length sessions - quota in
      let same = length-Permᴰ (slice-perm sessions) in
      elim (Bool-cases (leb (length sessions) quota)) [
        | inl few ↦ rw few (record {
          kept = sessions;
          parts = Permᴰ.refl sessions;
          size = ground arith;
          older = tt;
        })
        | inr many ↦ rw many (record {
          kept = drop n (slice sessions);
          parts = rw (take-append-drop n (slice sessions)) (slice-perm sessions);
          size = ground (arith, length-drop n (slice sessions), same);
          older = take-NotAfter n (slice sessions) (slice-IsSorted sessions);
        })
      ]

  -- So many are chosen, and no more.
  pub length-oldest_beyond :
      (quota : ℕ) (sessions : List Session)
      → length (oldest_beyond sorter quota sessions) ≡ length sessions - quota
  unfolding oldest_beyond
  length-oldest_beyond quota sessions = ground (
    arith,
    length-take (length sessions - quota) (slice sessions),
    length-Permᴰ (slice-perm sessions),
  )

-- No two sessions of the list have the same session id.
abbrev pub DistinctSids : List Session → Type 0
DistinctSids [] = Unit
DistinctSids (s ∷ l) = All (λ t. s.sid ≢ t.sid) l × DistinctSids l

pub All-Permᴰ : (P : Session → Type 0) {xs ys : List Session} → Permᴰ xs ys → All P xs → All P ys
All-Permᴰ P Permᴰ.nil h = h
All-Permᴰ P (Permᴰ.cons e p) h = (subst P e h.0, All-Permᴰ P p h.1)
All-Permᴰ P (Permᴰ.swap e f) h = (subst P f h.1.0, (subst P e h.0, h.1.1))
All-Permᴰ P (Permᴰ.trans p q) h = All-Permᴰ P q (All-Permᴰ P p h)

pub DistinctSids-Permᴰ : {xs ys : List Session} → Permᴰ xs ys → DistinctSids xs → DistinctSids ys
DistinctSids-Permᴰ Permᴰ.nil h = h
DistinctSids-Permᴰ (Permᴰ.cons {l₂ = ys} e p) h =
    (subst (λ s. All (λ t. s.sid ≢ t.sid) ys) e (All-Permᴰ _ p h.0), DistinctSids-Permᴰ p h.1)
DistinctSids-Permᴰ (Permᴰ.swap {l = l} e f) h = (
  (
    λ q. h.0.0 (ap (λ (s : Session). s.sid) e ∙ sym q ∙ sym (ap (λ (s : Session). s.sid) f)),
    subst (λ s. All (λ t. s.sid ≢ t.sid) l) f h.1.0,
  ),
  (subst (λ s. All (λ t. s.sid ≢ t.sid) l) e h.0.1, h.1.1),
)
DistinctSids-Permᴰ (Permᴰ.trans p q) h = DistinctSids-Permᴰ q (DistinctSids-Permᴰ p h)

pub All-left : (P : Session → Type 0) (xs ys : List Session) → All P (xs ++ ys) → All P xs
All-left P [] ys h = tt
All-left P (x ∷ xs) ys h = (h.0, All-left P xs ys h.1)

pub DistinctSids-left : (xs ys : List Session) → DistinctSids (xs ++ ys) → DistinctSids xs
DistinctSids-left [] ys h = tt
DistinctSids-left (x ∷ xs) ys h = (All-left _ xs ys h.0, DistinctSids-left xs ys h.1)

values-append : (v w : Sids) → values (v ++ w) ≡ values v ++ values w
values-append [] w = refl
values-append ((_, s) ∷ v) w = ap (◌∷◌ s) (values-append v w)

still_fresh :
    (s : Session) (m : Sids) (l : List Session)
    → All (λ t. s.sid ≢ t.sid) l
    → All (λ t. get t.sid m ≡ none) l
    → All (λ t. get t.sid (put s.sid s m) ≡ none) l
still_fresh s m [] d h = tt
still_fresh s m (t ∷ l) d h = (
  ground (arith, get-put s.sid t.sid s m, eq_iff s.sid t.sid, d.0, h.0),
  still_fresh s m l d.1 h.1,
)

values-by_sid :
    (l : List Session) (m : Sids)
    → DistinctSids l
    → All (λ t. get t.sid m ≡ none) l
    → values (by_sid l m) ≡ values m ++ l
unfolding by_sid
values-by_sid [] m d h = simp append-nil
values-by_sid (s ∷ l) m d h =
    values-by_sid l (put s.sid s m) d.1 (still_fresh s m l d.0 h.1)
    ∙ rw (put_new s.sid s m h.0, values-append m ((s.sid, s) ∷ []), append_assoc)

All-fresh : (l : List Session) → All (λ t. get {V = Session} t.sid [] ≡ none) l
unfolding get
All-fresh [] = tt
All-fresh (s ∷ l) = (refl, All-fresh l)

-- Where the session ids differ, the map holds the list.
pub values-by_sid_nil : (l : List Session) → DistinctSids l → values (by_sid l []) ≡ l
values-by_sid_nil l d = values-by_sid l [] d (All-fresh l)

module _ (sorter : Sorter) where
  pub oldest_beyond-DistinctSids :
      (quota : ℕ) (sessions : List Session)
      → DistinctSids sessions
      → DistinctSids (oldest_beyond sorter quota sessions)
  oldest_beyond-DistinctSids quota sessions d =
      let o = oldest_beyond_lem sorter quota sessions in
      DistinctSids-left _ o.kept (DistinctSids-Permᴰ (Permᴰ.symm o.parts) d)

  -- If the user's sessions have different session ids, the result holds the user's oldest sessions
  -- beyond the quota: with `min quota` of the user's sessions they are all the user's sessions, in
  -- some order, and none of them is newer than one of those.
  pub get_user_sessions_to_kickoff_lem :
      (uid : ℤ) (quota : ℕ) (s : SessionStore)
      → DistinctSids (keep (is_of uid) (all_sessions s.kv))
      → IsOldestBeyond quota
          (keep (is_of uid) (all_sessions s.kv))
          (values (get_user_sessions_to_kickoff sorter uid quota s))
  unfolding get_user_sessions_to_kickoff
  get_user_sessions_to_kickoff_lem uid quota s d =
      rw (values-by_sid_nil _ (oldest_beyond-DistinctSids quota _ d))
        (oldest_beyond_lem sorter quota (keep (is_of uid) (all_sessions s.kv)))
