-- ===== src/Cluster/Sessions/Collect.antt =====
-- Which sessions `gc` of cluster/sessionstore.go returns to be kicked off.
use mathlib.Core.List.{Permᴰ, append-nil, append_assoc}
use mathlib.Core.List.Permᴰ
use minipush.Base.{
  ℕ, Bool, false, String, none, List, [], ◌∷◌, ◌++◌, keep, All, ◌≡◌, ◌∙◌, refl, sym, arith, inl,
  inr, subst, Bool-cases,
}
use minipush.Base.Int.{ℤ, eqb_ℤ_iff}
use minipush.Base.Keys.{◌==◌, int_eq, string_eq}
use minipush.Base.Dict.{get, put}
use minipush.Cluster.Sorter.{Sorter}
use minipush.Cluster.Sessions.{
  SessionStore, values, all_sessions, is_of, sweep, sessions_of, group, oldest_beyond,
  get_user_sessions_to_kickoff, beyond_quota, gc,
}
use minipush.Cluster.Sessions.Choice.{
  IsOldestBeyond, get_user_sessions_to_kickoff_lem, oldest_beyond_lem, All-Permᴰ, DistinctSids,
  values-by_sid_nil, oldest_beyond-DistinctSids, All-left, DistinctSids-left, DistinctSids-Permᴰ,
}
use minipush.Proto.{Session}
use minipush.Cluster.Sessions.Grouping.{
  Users, keep-append, keep-All, keep_none, OwnedBy, sessions_of-cons, sessions_of-group, IsGrouped,
  group-IsGrouped,
}

all_users : Users → List Session
all_users [] = []
all_users ((_, l) ∷ m) = l ++ all_users m

last_in : (xs ys : List Session) (s : Session) → Permᴰ (xs ++ s ∷ [] ++ ys) (xs ++ ys ++ s ∷ [])
last_in xs ys s =
    subst (λ l. Permᴰ l (xs ++ ys ++ s ∷ [])) (sym (append_assoc xs (s ∷ []) ys))
      (subst (Permᴰ (xs ++ (s ∷ ys))) (sym (append_assoc xs ys (s ∷ [])))
        (Permᴰ.append_left xs (Permᴰ.append_comm (s ∷ []) ys)))

all_users-put :
    (u : ℤ) (old : List Session) (s : Session) (m : Users)
    → sessions_of u m ≡ old
    → Permᴰ (all_users (put u (old ++ s ∷ []) m)) (all_users m ++ s ∷ [])
unfolding all_users put get
all_users-put u old s [] e = subst (λ l. Permᴰ (l ++ s ∷ [] ++ []) (s ∷ [])) e (Permᴰ.refl (s ∷ []))
all_users-put u old s ((j, l) ∷ m) e = elim (Bool-cases (j == u)) [
  | inl p ↦ rw p (
      subst (λ x. Permᴰ (x ++ s ∷ [] ++ all_users m) (l ++ all_users m ++ s ∷ []))
        (sym (sessions_of-cons j u l m ∙ rw p) ∙ e) (last_in l (all_users m) s))
  | inr n ↦ rw n (
      subst (Permᴰ (l ++ all_users (put u (old ++ s ∷ []) m)))
        (sym (append_assoc l (all_users m) (s ∷ [])))
        (Permᴰ.append_left l (all_users-put u old s m (sym (sessions_of-cons j u l m ∙ rw n) ∙ e))))
]

all_users-group : (l : List Session) (m : Users) → Permᴰ (all_users (group l m)) (all_users m ++ l)
unfolding group
all_users-group [] m =
    subst (Permᴰ (all_users m)) (sym (append-nil (all_users m))) (Permᴰ.refl (all_users m))
all_users-group (s ∷ l) m =
    Permᴰ.trans (all_users-group l (put s.uid (sessions_of s.uid m ++ s ∷ []) m)) (
      subst (Permᴰ _) (append_assoc (all_users m) (s ∷ []) l)
        (Permᴰ.append_right l (all_users-put s.uid (sessions_of s.uid m) s m refl)))

shift : (b c d : List Session) → Permᴰ (b ++ (c ++ d)) (c ++ (b ++ d))
shift b c d =
    subst (λ l. Permᴰ l (c ++ (b ++ d))) (append_assoc b c d)
      (subst (Permᴰ (b ++ c ++ d)) (append_assoc c b d)
        (Permᴰ.append_right d (Permᴰ.append_comm b c)))

swap_middle :
    (a b c d e f : List Session)
    → Permᴰ (a ++ c) e
    → Permᴰ (b ++ d) f
    → Permᴰ (a ++ b ++ (c ++ d)) (e ++ f)
swap_middle a b c d e f p q =
    Permᴰ.trans
      (subst (λ l. Permᴰ l (a ++ c ++ (b ++ d))) (sym (append_assoc a b (c ++ d)))
        (subst (Permᴰ (a ++ (b ++ (c ++ d)))) (sym (append_assoc a c (b ++ d)))
          (Permᴰ.append_left a (shift b c d))))
      (Permᴰ.trans (Permᴰ.append_right (b ++ d) p) (Permᴰ.append_left e q))

All-keep :
    (P : Session → Type 0) (p : Session → Bool) (l : List Session) → All P l → All P (keep p l)
All-keep P p [] h = tt
All-keep P p (x ∷ l) h = ground (arith, All-keep P p l h.1)

DistinctSids-keep :
    (p : Session → Bool) (l : List Session) → DistinctSids l → DistinctSids (keep p l)
DistinctSids-keep p [] h = tt
DistinctSids-keep p (x ∷ l) h = elim (Bool-cases (p x)) [
  | inl e ↦ rw e (All-keep _ p l h.0, DistinctSids-keep p l h.1)
  | inr n ↦ rw n (DistinctSids-keep p l h.1)
]

module _ (sorter : Sorter) where
  victims_owned :
      (quota : ℕ) (uid : ℤ) (l : List Session)
      → OwnedBy uid l
      → OwnedBy uid (oldest_beyond sorter quota l)
  victims_owned quota uid l h =
      let o = oldest_beyond_lem sorter quota l in
      All-left _ _ o.kept (All-Permᴰ _ (Permᴰ.symm o.parts) h)

  oldest_beyond_nil : (quota : ℕ) → oldest_beyond sorter quota [] ≡ []
  unfolding oldest_beyond
  oldest_beyond_nil quota = ground arith

  other_users :
      (u uid : ℤ) (l : List Session)
      → (u == uid) ≡ false
      → OwnedBy u l
      → All (λ s. is_of uid s ≡ false) l
  other_users u uid [] n h = tt
  other_users u uid (s ∷ l) n h = (
    subst (λ v. (v == uid) ≡ false) (sym ((eqb_ℤ_iff s.uid u).0 h.0)) n,
    other_users u uid l n h.1,
  )

  no_more :
      (quota : ℕ) (uid : ℤ) (m : Users)
      → get uid m ≡ none
      → oldest_beyond sorter quota (sessions_of uid m) ≡ []
  no_more quota uid m e = rw (sessions_of, e) (oldest_beyond_nil quota)

  keep-beyond_quota :
      (quota : ℕ) (uid : ℤ) (m : Users)
      → IsGrouped m
      → keep (is_of uid) (beyond_quota sorter quota m)
        ≡ oldest_beyond sorter quota (sessions_of uid m)
  unfolding beyond_quota get
  keep-beyond_quota quota uid [] h = sym (oldest_beyond_nil quota)
  keep-beyond_quota quota uid ((u, l) ∷ m) h =
      let mine = victims_owned quota u l h.1.0 in
      let ih = keep-beyond_quota quota uid m (h.0.1, h.1.1) in
      rw (sessions_of-cons u uid l m) (
        keep-append (is_of uid) (oldest_beyond sorter quota l) (beyond_quota sorter quota m)
        ∙ elim (Bool-cases (u == uid)) [
          | inl e ↦
              let same = (eqb_ℤ_iff u uid).0 e in
              rw
                (
                  e,
                  ih,
                  no_more quota uid m (subst (λ v. get v m ≡ none) same h.0.0),
                  keep-All (is_of uid) (oldest_beyond sorter quota l)
                      (subst (λ v. OwnedBy v (oldest_beyond sorter quota l)) same mine),
                )
                (append-nil _)
          | inr n ↦ rw (
            n,
            ih,
            keep_none (is_of uid) (oldest_beyond sorter quota l) (other_users u uid _ n mine),
          )
        ])

  -- What `gc` leaves over, beside the sessions that it returns.
  spared : ℕ → Users → List Session
  spared quota [] = []
  spared quota ((_, l) ∷ m) = (oldest_beyond_lem sorter quota l).kept ++ spared quota m

  beyond_quota-spared :
      (quota : ℕ) (m : Users) → Permᴰ (beyond_quota sorter quota m ++ spared quota m) (all_users m)
  unfolding beyond_quota spared all_users
  beyond_quota-spared quota [] = Permᴰ.nil
  beyond_quota-spared quota ((u, l) ∷ m) =
      let o = oldest_beyond_lem sorter quota l in
      swap_middle (oldest_beyond sorter quota l) (beyond_quota sorter quota m) o.kept
        (spared quota m) l (all_users m) o.parts (beyond_quota-spared quota m)

  -- With one order of the maps and different session ids, the sessions of a user among those that `gc`
  -- returns are what `getUserSessionsToKickoff` would return for that
  -- user from the store that `gc` leaves.
  gc-get_user_sessions_to_kickoff :
      (live : List String) (quota : ℕ) (now : ℤ) (s : SessionStore) (uid : ℤ)
      → DistinctSids (all_sessions (gc sorter live quota now s).0.kv)
      → keep (is_of uid) (values (gc sorter live quota now s).1)
        ≡ values (get_user_sessions_to_kickoff sorter uid quota (gc sorter live quota now s).0)
  unfolding gc get_user_sessions_to_kickoff all_users get
  gc-get_user_sessions_to_kickoff live quota now s uid d =
      let all : List Session = all_sessions (sweep live now s.kv) in
      let users : Users = group all [] in
      let victims_d = DistinctSids-left (beyond_quota sorter quota users) (spared quota users) (
        DistinctSids-Permᴰ
          (Permᴰ.symm (Permᴰ.trans (beyond_quota-spared quota users) (all_users-group all [])))
          d) in
      rw
        (
          values-by_sid_nil _ victims_d,
          keep-beyond_quota quota uid users (group-IsGrouped all [] (tt, tt)),
          sessions_of-group uid all [],
        )
        (sym (
          values-by_sid_nil _
            (oldest_beyond-DistinctSids sorter quota _ (DistinctSids-keep (is_of uid) all d))))

  -- If the sessions that `gc` leaves in the store have different session ids, then, in whatever order the
  -- maps are walked, those of a user among the sessions that it returns are the user's oldest ones
  -- beyond the quota: with `min quota` of the user's sessions they make up all that are left in the
  -- store, and none of them is newer than one of those.
  pub gc-IsOldestBeyond :
      (live : List String) (quota : ℕ) (now : ℤ) (s : SessionStore) (uid : ℤ)
      → DistinctSids (all_sessions (gc sorter live quota now s).0.kv)
      → IsOldestBeyond quota
          (keep (is_of uid) (all_sessions (gc sorter live quota now s).0.kv))
          (keep (is_of uid) (values (gc sorter live quota now s).1))
  gc-IsOldestBeyond live quota now s uid d =
      rw (gc-get_user_sessions_to_kickoff live quota now s uid d) (
        get_user_sessions_to_kickoff_lem sorter uid quota (gc sorter live quota now s).0
          (DistinctSids-keep (is_of uid) _ d))
