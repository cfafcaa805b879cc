-- ===== src/Cluster/Standalone/Cleaning.antt =====
-- What `cleanSession` of cluster/standalone.go deletes, and the order that the sessions are kept in.
use minipush.Base.{
  ℕ, ltb, length, Bool, false, String, Option, none, some, List, [], ◌∷◌, if◌then◌else◌, ◌≡◌, refl,
  arith, inl, inr, Bool-cases, Option-cases, subst, ap, ◌∙◌,
}
use minipush.Base.Int.{ℤ}
use minipush.Base.Keys.{◌==◌, string_eq, eq_iff}
use minipush.Base.Dict.{get, put, delete, Distinct, get-delete, put-Distinct, delete-Distinct}
use minipush.Base.Dict.Each.{Each, get-Each, put-Each, delete-Each}
use minipush.Proto.{Session, FollowerMsg}
use minipush.Cluster.Sorter.{Sorter}
use minipush.Cluster.Messages.{KafkaWriter, save_e2e_msg}
use minipush.Cluster.Sessions.{Sids, is_overdue, contains}
use minipush.Cluster.Server.{Round, goes_on, returns, panics}
use minipush.Cluster.Standalone.{
  Standalone, new_standalone, add_session, put_each, add_sessions, del_session, kick_each, kickoff,
  kickoff_some, sids_to_delete, delete_each, clean_session, tick, receive,
}

get-delete_each :
    (x : String) (l : List String) (m : Sids)
    → get x (delete_each l m) ≡ (if contains x l then none else get x m)
unfolding delete_each contains
get-delete_each x [] m = refl
get-delete_each x (sid ∷ l) m =
    ground (arith, get-delete_each x l (delete sid m), get-delete sid x m)

abbrev pub IsNamed : String → Session → Type 0
IsNamed sid sess = sess.sid ≡ sid

-- A session that is there is to be deleted.
abbrev pub late : ℤ → Option Session → Bool
late now none = false
late now (some sess) = is_overdue now sess

contains-sids_to_delete :
    (now : ℤ) (x : String) (m : Sids)
    → Distinct m
    → Each IsNamed m
    → contains x (sids_to_delete now m) ≡ late now (get x m)
unfolding sids_to_delete contains get
contains-sids_to_delete now x [] d n = refl
contains-sids_to_delete now x ((k, sess) ∷ m) d n =
    let ih = contains-sids_to_delete now x m d.1 n.1 in
    let at_x = ap (λ (i : String). i == x) n.0 in
    elim (Bool-cases (k == x)) [
      | inl p ↦
          let gone = subst (λ i. get i m ≡ none) ((eq_iff k x).0 p) d.0 in
          let none_left = ih ∙ ap (late now) gone in
          elim (Bool-cases (is_overdue now sess)) [
            | inl o ↦ rw (p, o, at_x ∙ p) refl
            | inr f ↦ rw (p, f) none_left
          ]
      | inr q ↦ elim (Bool-cases (is_overdue now sess)) [
        | inl o ↦ rw (q, o, at_x ∙ q) ih
        | inr f ↦ rw (q, f) ih
      ]
    ]

-- Each session is kept under its id, and there is one for an id.
abbrev pub IsKept : Standalone → Type 0
IsKept s = Distinct s.sessions × Each IsNamed s.sessions

get-kept :
    (sorter : Sorter) (now : ℤ) (x : String) (s : Standalone)
    → IsKept s
    → get x (clean_session sorter now s).0.sessions
      ≡ (if late now (get x s.sessions) then none else get x s.sessions)
unfolding clean_session
get-kept sorter now x s k =
    rw (get-delete_each x (sids_to_delete now s.sessions) s.sessions)
      (rw (contains-sids_to_delete now x s.sessions k.0 k.1) refl)

delete_each-IsKept :
    (l : List String) (m : Sids)
    → Distinct m × Each IsNamed m
    → Distinct (delete_each l m) × Each IsNamed (delete_each l m)
unfolding delete_each
delete_each-IsKept [] m k = k
delete_each-IsKept (sid ∷ l) m k =
    delete_each-IsKept l (delete sid m) (delete-Distinct sid m k.0, delete-Each IsNamed sid m k.1)

put_each-IsKept :
    (l : List Session) (m : Sids)
    → Distinct m × Each IsNamed m
    → Distinct (put_each l m) × Each IsNamed (put_each l m)
unfolding put_each
put_each-IsKept [] m k = k
put_each-IsKept (sess ∷ l) m k =
    put_each-IsKept l (put sess.sid sess m)
      (put-Distinct sess.sid sess m k.0, put-Each IsNamed sess.sid sess m refl k.1)

clean-IsKept :
    (sorter : Sorter) (now : ℤ) (s : Standalone) → IsKept s → IsKept (clean_session sorter now s).0
unfolding clean_session
clean-IsKept sorter now s k = delete_each-IsKept (sids_to_delete now s.sessions) s.sessions k

kick_each-IsKept :
    (now : ℤ) (l : List Session) (m : Sids)
    → Distinct m × Each IsNamed m
    → Distinct (kick_each now l m) × Each IsNamed (kick_each now l m)
unfolding kick_each
kick_each-IsKept now [] m k = k
kick_each-IsKept now (sess ∷ l) m k = elim (Option-cases (get sess.sid m)) [
  | inl e ↦ rw (e, kick_each) (kick_each-IsKept now l m k)
  | inr (v, e) ↦
      rw (e, kick_each)
        (kick_each-IsKept now l (put sess.sid (record v { kickoff_time = now }) m) (
          put-Distinct sess.sid _ m k.0,
          put-Each IsNamed sess.sid _ m (get-Each IsNamed sess.sid v m e k.1) k.1,
        ))
]

kickoff_some-IsKept :
    (now : ℤ) (l : List Session) (s : Standalone) → IsKept s → IsKept (kickoff_some now l s)
unfolding kickoff_some kickoff
kickoff_some-IsKept now l s k = elim (Bool-cases (ltb 0 (length l))) [
  | inl y ↦ rw (y, kickoff_some) (kick_each-IsKept now l s.sessions k)
  | inr n ↦ rw (n, kickoff_some) k
]

-- After a message, the loop goes on or is left.
abbrev pub after_message : Round → Standalone → Standalone → Standalone
after_message goes_on s rest = rest
after_message _ s rest = s

after_message-IsKept :
    (r : Round) (s rest : Standalone) → IsKept s → IsKept rest → IsKept (after_message r s rest)
after_message-IsKept goes_on s rest k l = l
after_message-IsKept returns s rest k l = k
after_message-IsKept panics s rest k l = k

-- What the loop of `Run` takes: a message of the hub or a tick, each with its time.
pub data Input : Type 0 where
  message : FollowerMsg → ℤ → Input
  ticked : ℤ → Input

module _ (sorter : Sorter) (writer : KafkaWriter) where
  unfoldable pub run : List Input → Standalone → Standalone
  unfolding receive tick
  run [] s = s
  run (message msg now ∷ inputs) s =
      let (s', r) = receive sorter writer msg now s in after_message r s' (run inputs s')
  run (ticked now ∷ inputs) s = run inputs (tick sorter now s)

  others-IsKept :
      (msg : FollowerMsg) (now : ℤ) (s : Standalone)
      → msg.session_online ≡ none
      → IsKept s
      → IsKept (receive sorter writer msg now s).0
  unfolding receive del_session add_sessions
  others-IsKept msg now s e k =
      let gone : IsKept (del_session msg.session_offline s) = (
        delete-Distinct msg.session_offline s.sessions k.0,
        delete-Each IsNamed msg.session_offline s.sessions k.1,
      ) in
      let more : IsKept (add_sessions msg.sync_sessions s) =
        put_each-IsKept msg.sync_sessions s.sessions k in
      elim (Option-cases msg.e2e_msg) [
        | inl n ↦ rw (receive, e, n) (ground (arith, gone, more))
        | inr (im, f) ↦ elim (Option-cases (save_e2e_msg writer im s.event_payload_max_bytes).0) [
          | inl p ↦ rw (receive, e, f, p) (ground (arith, gone, more))
          | inr (v, p) ↦ rw (receive, e, f, p) (ground (arith, gone, more))
        ]
      ]

  receive-IsKept :
      (msg : FollowerMsg) (now : ℤ) (s : Standalone)
      → IsKept s
      → IsKept (receive sorter writer msg now s).0
  unfolding receive add_session
  receive-IsKept msg now s k = elim (Option-cases msg.session_online) [
    | inl n ↦ others-IsKept msg now s n k
    | inr (v, e) ↦
        rw (e, receive)
          (kickoff_some-IsKept now _ (add_session v s)
            (put-Distinct v.sid v s.sessions k.0, put-Each IsNamed v.sid v s.sessions refl k.1))
  ]

  run-IsKept : (inputs : List Input) (s : Standalone) → IsKept s → IsKept (run inputs s)
  unfolding run tick
  run-IsKept [] s k = k
  run-IsKept (message msg now ∷ inputs) s k =
      let kept = receive-IsKept msg now s k in
      after_message-IsKept (receive sorter writer msg now s).1 _ _ kept (run-IsKept inputs _ kept)
  run-IsKept (ticked now ∷ inputs) s k =
      run-IsKept inputs _ (kickoff_some-IsKept now _ _ (clean-IsKept sorter now s k))

  -- After any run of a new standalone server, whatever its hub has sent and whenever it has cleaned,
  -- cleaning takes just the overdue sessions: a session id is found with the session that it was found
  -- with, or with none if that session is overdue.
  pub get-clean_session :
      (quota limit : ℕ) (inputs : List Input) (now : ℤ) (x : String)
      → let s = run inputs (new_standalone quota limit) in
        get x (clean_session sorter now s).0.sessions
        ≡ (if late now (get x s.sessions) then none else get x s.sessions)
  unfolding new_standalone
  get-clean_session quota limit inputs now x =
      get-kept sorter now x (run inputs (new_standalone quota limit))
        (run-IsKept inputs (new_standalone quota limit) (tt, tt))
