-- ===== src/System/Quota.antt =====
-- A session that comes online on a standalone node, from `Run` of cluster/standalone.go to `Run` of
-- ws/hub.go: how many sessions of a user stay.
use minipush.Base.{
  ℕ, suc, ◌≤◌, Bool, true, false, ◌||◌, String, Option, none, some, List, [], ◌∷◌, ◌++◌, ltb,
  length, keep, if◌then◌else◌, ◌≡◌, refl, sym, ap, ◌∙◌, subst, inl, inr, arith, Bool-cases,
  Option-cases,
}
use mathlib.Core.List.{Permᴰ}
use minipush.Base.Int.{ℤ}
use minipush.Base.Keys.{◌==◌, int_eq, string_eq, eq_iff}
use minipush.Base.Options.{◌>>=◌}
use minipush.Base.Dict.{get, put, Distinct}
use minipush.Base.Dict.Each.{Each, get-Each, put-Each}
use minipush.Proto.{Session, LeaderMsg, no_follower_msg, no_leader_msg}
use minipush.Cluster.Sorter.{Sorter}
use minipush.Cluster.Messages.{KafkaWriter}
use minipush.Cluster.Sessions.{Sids, values, oldest_beyond}
use minipush.Cluster.Sessions as Sessions
use minipush.Cluster.Sessions.Choice.{oldest_beyond_lem}
use minipush.Cluster.Standalone.{
  Standalone, sids, receive, add_session, kickoff_some, kickoff, get_user_sessions_to_kickoff,
}
use minipush.Cluster.Standalone.Cleaning.{IsKept, IsNamed}
use minipush.Ws.Handler.{Handler}
use minipush.Ws.Hub.{Hub, Handlers, get_by_uid, on_leader_msg}
use minipush.Ws.Hub.Kickoff.{among, kickoff_all_lem}
use minipush.Ws.Hub.Kickoff.Room.{AllRoom, kickoff_all_room}
use minipush.Ws.Hub.Telling.{NoDup, is_of, among-get_by_uid, get_by_uid-NoDup}

-- The hub gets one message after another.
unfoldable pub on_leader_msgs : List LeaderMsg → Hub → Option Hub
unfolding on_leader_msg
on_leader_msgs [] h = some h
on_leader_msgs (msg ∷ msgs) h = do h' ← on_leader_msg msg h; on_leader_msgs msgs h'

-- Lists without doubles.
without : String → List String → List String
without x [] = []
without x (y ∷ l) = let rest = without x l in if y == x then rest else y ∷ rest

among-without :
    (x y : String) (l : List String)
    → (x == y) ≡ false
    → among y l ≡ true
    → among y (without x l) ≡ true
unfolding without
among-without x y [] n e = e
among-without x y (z ∷ l) n e =
    ground (arith, among-without x y l n, eq_iff x y, eq_iff z x, eq_iff z y)

length-without : (x : String) (l : List String) → length (without x l) ≤ length l
unfolding without
length-without x [] = omega arith
length-without x (y ∷ l) = ground (arith, length-without x l)

length-without-lt :
    (x : String) (l : List String) → among x l ≡ true → suc (length (without x l)) ≤ length l
unfolding without
length-without-lt x [] e = cc
length-without-lt x (y ∷ l) e = ground (arith, length-without-lt x l, length-without x l)

others :
    (x : String) (xs ys : List String)
    → among x xs ≡ false
    → ((y : String) → among y (x ∷ xs) ≡ true → among y ys ≡ true)
    → (y : String) → among y xs ≡ true
    → among y (without x ys) ≡ true
others x xs ys new h y e =
    among-without x y ys
      (elim (Bool-cases (x == y)) [
        | inl same ↦
            absurd (clash (sym (subst (λ i. among i xs ≡ false) ((eq_iff x y).0 same) new) ∙ e))
        | inr n ↦ n
      ])
      (h y (ground (arith, e)))
  where
    clash : false ≡ true → ⊥
    clash q = cc

-- A list without doubles is not longer than one that has all its items.
length-NoDup :
    (xs ys : List String)
    → NoDup xs
    → ((x : String) → among x xs ≡ true → among x ys ≡ true)
    → length xs ≤ length ys
length-NoDup [] ys d h = omega arith
length-NoDup (x ∷ xs) ys (new, d) h = omega (
  arith,
  length-without-lt x ys (h x (rw ((eq_iff x x).1 refl) refl)),
  length-NoDup xs (without x ys) d (others x xs ys new h),
)

-- The session ids of a list, and of a user's sessions in a map.
among-sids-append :
    (x : String) (l m : List Session)
    → among x (sids (l ++ m)) ≡ (among x (sids l) || among x (sids m))
among-sids-append x [] m = refl
among-sids-append x (v ∷ l) m = ground (arith, among-sids-append x l m)

or_swap : (p q r : Bool) → p || (q || r) ≡ q || (p || r)
or_swap p q r = ground arith

among-sids-Permᴰ :
    (x : String) {l m : List Session} → Permᴰ l m → among x (sids l) ≡ among x (sids m)
among-sids-Permᴰ x Permᴰ.nil = refl
among-sids-Permᴰ x (Permᴰ.cons {b = b} {l₁ = l} e p) =
    ap (λ (v : Session). (v.sid == x) || among x (sids l)) e
    ∙ ap (λ t. (b.sid == x) || t) (among-sids-Permᴰ x p)
among-sids-Permᴰ x (Permᴰ.swap {a = a} {b = b} {a' = a'} {b' = b'} {l = l} e f) =
    or_swap (a.sid == x) (b.sid == x) (among x (sids l))
    ∙ ap (λ (v : Session). (v.sid == x) || ((a.sid == x) || among x (sids l))) f
    ∙ ap (λ (v : Session). (a'.sid == x) || ((v.sid == x) || among x (sids l))) e
among-sids-Permᴰ x (Permᴰ.trans p q) = among-sids-Permᴰ x p ∙ among-sids-Permᴰ x q

some_eq {ℓ} : {A : Type ℓ} (a b : A) → some a ≡ some b → a ≡ b
some_eq a b e = cc

more :
    (b : Bool) (w : Session) (x : String) (l : List Session)
    → among x (sids l) ≡ true
    → among x (sids (if b then w ∷ l else l)) ≡ true
more true w x l e = ground (arith, e)
more false w x l e = e

among-sids-user :
    (uid : ℤ) (x : String) (v : Session) (m : Sids)
    → Each IsNamed m
    → get x m ≡ some v
    → v.uid ≡ uid
    → among x (sids (keep (Sessions.is_of uid) (values m))) ≡ true
unfolding get
among-sids-user uid x v [] n e u = cc
among-sids-user uid x v ((k, w) ∷ m) n e u = elim (Bool-cases (k == x)) [
  | inl y ↦
      let same : w ≡ v = some_eq w v (rw y at e) in
      let of_user : (w.uid == uid) ≡ true =
        (int_eq.same_iff w.uid uid).1 (ap (λ (t : Session). t.uid) same ∙ u) in
      let named : (w.sid == x) ≡ true = (eq_iff w.sid x).1 (n.0 ∙ (eq_iff k x).0 y) in
      rw of_user (rw named refl)
  | inr o ↦
      more (w.uid == uid) w x (keep (Sessions.is_of uid) (values m))
        (among-sids-user uid x v m n.1 (rw o at e) u)
]

-- A handler is of a session in the map, and of its user.
abbrev pub Knows : Sids → String → Handler → Type 0
Knows m sid h = (v : Session) × (get sid m ≡ some v) × (v.uid ≡ h.session.uid)

-- Each handler of the hub is of a session in the map, and of its user.
abbrev pub AreKnown : Sids → Handlers → Type 0
AreKnown m hs = Each (λ sid h. Knows m sid h) hs

-- What a hub is after a kickoff.
abbrev Kicked : List LeaderMsg → List Session → Hub → Type 0
Kicked msgs slice hub =
    (hub' : Hub) × (on_leader_msgs msgs hub ≡ some hub')
    × Distinct hub'.handlers
    × ((x : String)
        → get x hub'.handlers ≡ (if among x (sids slice) then none else get x hub.handlers))

length-sids : (slice : List Session) → length (sids slice) ≡ length slice
length-sids [] = refl
length-sids (v ∷ slice) = ap suc (length-sids slice)

abbrev kickoff_msg : List Session → LeaderMsg
kickoff_msg slice = record no_leader_msg { kickoff = sids slice }

on_kickoff :
    (slice : List Session) (hub : Hub)
    → ltb 0 (length slice) ≡ true
    → Distinct hub.handlers
    → AllRoom hub.handlers
    → Kicked (kickoff_msg slice ∷ []) slice hub
unfolding on_leader_msgs on_leader_msg
on_kickoff slice hub some_late d room =
    let (hub', e, k) = kickoff_all_room (sids slice) hub d room in
    (
      hub',
      rw (length-sids slice, some_late) (rw e refl),
      k,
      (kickoff_all_lem (sids slice) hub hub' e).1,
    )

no_session : (slice : List Session) → ltb 0 (length slice) ≡ false → slice ≡ []
no_session [] e = refl
no_session (v ∷ slice) e = absurd (longer (length slice) e)
  where
    longer : (n : ℕ) → ltb 0 (suc n) ≡ false → ⊥
    longer n e = ground arith

-- Sends a kickoff of the sessions, if there are any.
abbrev sends_kickoff : List Session → List LeaderMsg
sends_kickoff slice = if ltb 0 (length slice) then kickoff_msg slice ∷ [] else []

Kicked-hub :
    (slice : List Session) (hub : Hub)
    → Distinct hub.handlers
    → AllRoom hub.handlers
    → Kicked (sends_kickoff slice) slice hub
unfolding on_leader_msgs
Kicked-hub slice hub d room = elim (Bool-cases (ltb 0 (length slice))) [
  | inl y ↦ subst (λ msgs. Kicked msgs slice hub) (sym (if_true y)) (on_kickoff slice hub y d room)
  | inr n ↦
      subst (λ msgs. Kicked msgs slice hub) (sym (if_false n))
        (
          hub,
          refl,
          d,
          λ x.
              ap (λ l. if among x (sids l) then none else get x hub.handlers)
                (sym (no_session slice n)),
        )
]
  where
    if_true : ltb 0 (length slice) ≡ true → sends_kickoff slice ≡ kickoff_msg slice ∷ []
    if_true y = rw y refl

    if_false : ltb 0 (length slice) ≡ false → sends_kickoff slice ≡ []
    if_false n = rw n refl

none_is : (uid : ℤ) → is_of uid none ≡ true → ⊥
unfolding is_of
none_is uid e = cc

some_is : (uid : ℤ) (h : Handler) → is_of uid (some h) ≡ true → (h.session.uid == uid) ≡ true
unfolding is_of
some_is uid h e = e

-- The handlers of a user that are left are of the sessions that are kept.
kept_handlers :
    (uid : ℤ) (x : String) (m : Sids) (slice kept : List Session) (hs hs' : Handlers)
    → Each IsNamed m
    → AreKnown m hs
    → Permᴰ (slice ++ kept) (keep (Sessions.is_of uid) (values m))
    → Distinct hs'
    → get x hs' ≡ (if among x (sids slice) then none else get x hs)
    → among x (get_by_uid uid hs') ≡ true
    → among x (sids kept) ≡ true
kept_handlers uid x m slice kept hs hs' named known parts d g e =
    let found : is_of uid (get x hs') ≡ true = sym (among-get_by_uid uid x hs' d) ∙ e in
    elim (Bool-cases (among x (sids slice))) [
      | inl y ↦ absurd (none_is uid (subst (λ o. is_of uid o ≡ true) (g ∙ rw y refl) found))
      | inr n ↦ elim (Option-cases (get x hs)) [
        | inl out ↦ absurd (none_is uid (subst (λ o. is_of uid o ≡ true) (g ∙ rw n out) found))
        | inr (h, there) ↦
            let (v, at_x, same) = get-Each (λ sid h. Knows m sid h) x h hs there known in
            let of_user : (h.session.uid == uid) ≡ true =
              some_is uid h (subst (λ o. is_of uid o ≡ true) (g ∙ rw n there) found) in
            let member =
              among-sids-user uid x v m named at_x
                (same ∙ (int_eq.same_iff h.session.uid uid).0 of_user) in
            ap (λ b. b || among x (sids kept)) (sym n)
            ∙ sym (among-sids-append x slice kept)
            ∙ among-sids-Permᴰ x parts
            ∙ member
      ]
    ]

module _ (sorter : Sorter) (writer : KafkaWriter) where
  abbrev late : Session → Standalone → List Session
  late v s =
      oldest_beyond sorter s.session_quota
        (keep (Sessions.is_of v.uid) (values (put v.sid v s.sessions)))

  coming : Session → ℤ → Standalone → Standalone
  coming v now s =
      (receive sorter writer (record no_follower_msg { session_online = some v }) now s).0

  coming_sends :
      (v : Session) (now : ℤ) (s : Standalone)
      → s.send_msg_chan ≡ []
      → (coming v now s).send_msg_chan
        ≡ (if ltb 0 (length (late v s)) then kickoff_msg (late v s) ∷ [] else [])
  unfolding coming receive kickoff_some get_user_sessions_to_kickoff add_session kickoff
  coming_sends v now s empty = elim (Bool-cases (ltb 0 (length (late v s)))) [
    | inl y ↦ rw (y, kickoff_some) (ap (λ l. l ++ kickoff_msg (late v s) ∷ []) empty)
    | inr n ↦ rw (n, kickoff_some) empty
  ]

  -- The node keeps each session under its id, and the hub has only handlers whose sessions the node
  -- knows, the new one among them; no message waits, and the handlers have room. When a session comes
  -- online, what the node sends leads the hub to a state in which the session's user has at most as
  -- many handlers as the quota says.
  pub on_leader_msgs-receive :
      (v : Session) (now : ℤ) (s : Standalone) (hub : Hub)
      → IsKept s
      → s.send_msg_chan ≡ []
      → Distinct hub.handlers
      → AllRoom hub.handlers
      → AreKnown (put v.sid v s.sessions) hub.handlers
      → (hub' : Hub) × (on_leader_msgs
            (receive sorter writer
              (record no_follower_msg { session_online = some v })
              now
              s).0.send_msg_chan
            hub
          ≡ some hub')
        × (length (get_by_uid v.uid hub'.handlers) ≤ s.session_quota)
  unfolding coming
  on_leader_msgs-receive v now s hub kept empty d room known =
      let m = put v.sid v s.sessions in
      let o = oldest_beyond_lem sorter s.session_quota (keep (Sessions.is_of v.uid) (values m)) in
      let (hub', e, d', g) = Kicked-hub (late v s) hub d room in
      (
        hub',
        ap (λ msgs. on_leader_msgs msgs hub) (coming_sends v now s empty) ∙ e,
        omega (
          arith,
          length-NoDup (get_by_uid v.uid hub'.handlers) (sids o.kept)
              (get_by_uid-NoDup v.uid hub'.handlers d')
              (λ x.
                kept_handlers v.uid x m (late v s) o.kept hub.handlers hub'.handlers
                  (put-Each IsNamed v.sid v s.sessions refl kept.1) known o.parts d' (g x)),
          length-sids o.kept,
          o.size,
        ),
      )
