-- ===== src/Cluster/Sessions/Grouping.antt =====
-- The grouping of sessions by user in `gc` of cluster/sessionstore.go.
use mathlib.Core.List.{append-nil, append_assoc}
use minipush.Base.{
  Bool, true, false, List, [], ◌∷◌, ◌++◌, keep, All, All-append, if◌then◌else◌, ◌≡◌, ◌∙◌, refl, sym,
  ap, arith, inl, inr, Bool-cases, Option-cases,
}
use minipush.Base.Int.{ℤ, eqb_ℤ, eqb_ℤ_iff}
use minipush.Base.Keys.{◌==◌, int_eq, string_eq}
use minipush.Base.Dict.{get, put, get-put, Distinct, put-Distinct}
use minipush.Base.Dict.Each.{Each, put-Each, get-Each}
use minipush.Cluster.Sessions.{is_of, sessions_of, group}
use minipush.Proto.{Session}

abbrev pub Users : Type 0
Users = List (ℤ × List Session)

pub keep-append :
    (p : Session → Bool) (xs ys : List Session) → keep p (xs ++ ys) ≡ keep p xs ++ keep p ys
keep-append p [] ys = refl
keep-append p (x ∷ xs) ys = ground (arith, keep-append p xs ys)

pub keep-All : (p : Session → Bool) (xs : List Session) → All (λ s. p s ≡ true) xs → keep p xs ≡ xs
keep-All p [] h = refl
keep-All p (x ∷ xs) h = rw h.0 (ap (◌∷◌ x) (keep-All p xs h.1))

pub keep_none :
    (p : Session → Bool) (xs : List Session) → All (λ s. p s ≡ false) xs → keep p xs ≡ []
keep_none p [] h = refl
keep_none p (x ∷ xs) h = rw h.0 (keep_none p xs h.1)

-- Each user's list holds sessions of that user.
abbrev pub OwnedBy : ℤ → List Session → Type 0
OwnedBy uid = All (λ s. is_of uid s ≡ true)

sessions_of-put :
    (u uid : ℤ) (l : List Session) (m : Users)
    → sessions_of uid (put u l m) ≡ (if u == uid then l else sessions_of uid m)
sessions_of-put u uid l m = elim (Bool-cases (u == uid)) [
  | inl e ↦ rw (sessions_of, get-put u uid l m, e)
  | inr n ↦ rw (sessions_of, get-put u uid l m, n)
]

pub sessions_of-cons :
    (u uid : ℤ) (l : List Session) (m : Users)
    → sessions_of uid ((u, l) ∷ m) ≡ (if u == uid then l else sessions_of uid m)
unfolding get
sessions_of-cons u uid l m = elim (Bool-cases (u == uid)) [
  | inl e ↦ rw (sessions_of, e)
  | inr n ↦ rw (sessions_of, n)
]

pub sessions_of-group :
    (uid : ℤ) (l : List Session) (m : Users)
    → sessions_of uid (group l m) ≡ sessions_of uid m ++ keep (is_of uid) l
unfolding group
sessions_of-group uid [] m = sym (append-nil _)
sessions_of-group uid (s ∷ l) m =
    let more : List Session = sessions_of s.uid m ++ s ∷ [] in
    sessions_of-group uid l (put s.uid more m) ∙ elim (Bool-cases (s.uid == uid)) [
      | inl e ↦
          rw (sessions_of-put s.uid uid more m, e)
            (append_assoc (sessions_of s.uid m) (s ∷ []) (keep (is_of uid) l)
              ∙ ap (λ u. sessions_of u m ++ s ∷ keep (is_of uid) l) ((eqb_ℤ_iff s.uid uid).0 e))
      | inr n ↦ rw (sessions_of-put s.uid uid more m, n)
    ]

abbrev pub IsGrouped : Users → Type 0
IsGrouped m = Distinct m × Each OwnedBy m

eqb_ℤ_self : (u : ℤ) → eqb_ℤ u u ≡ true
eqb_ℤ_self u = (eqb_ℤ_iff u u).1 refl

sessions_of-OwnedBy : (uid : ℤ) (m : Users) → Each OwnedBy m → OwnedBy uid (sessions_of uid m)
sessions_of-OwnedBy uid m h = elim (Option-cases (get uid m)) [
  | inl e ↦ rw (e, sessions_of) tt
  | inr (l, e) ↦ rw (e, sessions_of) (get-Each OwnedBy uid l m e h)
]

pub group-IsGrouped : (l : List Session) (m : Users) → IsGrouped m → IsGrouped (group l m)
unfolding group
group-IsGrouped [] m h = h
group-IsGrouped (s ∷ l) m h = group-IsGrouped l _ (
  put-Distinct s.uid _ m h.0,
  put-Each OwnedBy s.uid _ m
      (All-append _ (sessions_of s.uid m) (s ∷ []) (sessions_of-OwnedBy s.uid m h.1)
        (eqb_ℤ_self s.uid, tt))
      h.1,
)
