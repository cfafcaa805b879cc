-- ===== src/Cluster/Server/Kickoff.antt =====
-- What `kickoff` of cluster/server.go does to the sessions of the store.
use mathlib.Core.List.{append-nil, append_assoc}
use minipush.Base.{
  ℕ, Bool, true, false, ◌&&◌, String, Option, none, some, List, [], ◌∷◌, ◌++◌, if◌then◌else◌, ◌≡◌,
  refl, sym, ap, ◌∙◌, arith, inl, inr, Bool-cases, Option-cases,
}
use minipush.Base.Int.{ℤ}
use minipush.Base.Keys.{◌==◌, string_eq, eq_iff}
use minipush.Base.Dict.{get, put, get-put, has}
use minipush.Proto.{Session, LeaderMsg, no_leader_msg}
use minipush.Cluster.Sessions.{Sids, SessionStore, values, contains}
use minipush.Cluster.Sessions.Lookup.{find}
use minipush.Cluster.Server.{
  PushServer, Sent, copy_streams_by_follower, sids_of, targets_of, hubs_of, mark, mark_all,
  push_to_follower, remove_stream, kickoff_streams, kickoff,
}

abbrev pub kicked_at : ℤ → Option Session → Option Session
kicked_at now none = none
kicked_at now (some sess) = some (record sess { kickoff_time = now })

find-mark :
    (now : ℤ) (hub sid h x : String) (s : SessionStore)
    → find h x (mark now hub sid s) ≡ (
        if hub == h
        then (if sid == x then kicked_at now (find h x s) else find h x s)
        else find h x s)
unfolding mark
find-mark now hub sid h x s = elim (Option-cases (get hub s.kv)) [
  | inl e ↦ rw (e, mark) (ground (arith, eq_iff hub h))
  | inr (v, e) ↦ elim (Option-cases (get sid v)) [
    | inl f ↦ rw (e, mark, f) (ground (arith, eq_iff hub h, eq_iff sid x))
    | inr (sess, f) ↦
        rw (e, mark, f)
          (rw (get-put hub h (put sid (record sess { kickoff_time = now }) v) s.kv) (
            ground (
              arith,
              eq_iff hub h,
              eq_iff sid x,
              get-put sid x (record sess { kickoff_time = now }) v,
            )))
  ]
]

kicked_twice : (now : ℤ) (o : Option Session) → kicked_at now (kicked_at now o) ≡ kicked_at now o
kicked_twice now none = refl
kicked_twice now (some sess) = refl

find-mark_all :
    (now : ℤ) (hub : String) (sids : List String) (h x : String) (s : SessionStore)
    → find h x (mark_all now hub sids s) ≡ (
        if hub == h
        then (if contains x sids then kicked_at now (find h x s) else find h x s)
        else find h x s)
unfolding mark_all contains
find-mark_all now hub [] h x s = ground arith
find-mark_all now hub (sid ∷ sids) h x s = ground (
  arith,
  find-mark_all now hub sids h x (mark now hub sid s),
  find-mark now hub sid h x s,
  kicked_twice now (find h x s),
)

-- The marks that the loop of `kickoff` leaves, with the sending left out.
pub mark_streams : ℤ → List (String × List String) → List (String × ℕ) → SessionStore → SessionStore
mark_streams now targets [] s = s
mark_streams now targets ((hub, stream) ∷ streams) s =
    mark_streams now targets streams (mark_all now hub (sids_of hub targets) s)

abbrev keys : List (String × ℕ) → List String
keys [] = []
keys ((hub, _) ∷ streams) = hub ∷ keys streams

-- A mark under a test, put on twice.
marked_twice :
    (now : ℤ) (there same wanted wanted' : Bool) (o : Option Session)
    → (same ≡ true → wanted' ≡ wanted)
    → (if there
        then (if wanted
            then kicked_at now (if same then (if wanted' then kicked_at now o else o) else o)
            else (if same then (if wanted' then kicked_at now o else o) else o))
        else (if same then (if wanted' then kicked_at now o else o) else o))
      ≡ (if (if same then true else there) then (if wanted then kicked_at now o else o) else o)
marked_twice now there false wanted wanted' o h = refl
marked_twice now there true wanted wanted' o h = ground (arith, h refl, kicked_twice now o)

find-mark_streams :
    (now : ℤ) (targets : List (String × List String)) (streams : List (String × ℕ)) (h x : String)
    (s : SessionStore)
    → find h x (mark_streams now targets streams s) ≡ (
        if contains h (keys streams)
        then (if contains x (sids_of h targets) then kicked_at now (find h x s) else find h x s)
        else find h x s)
unfolding mark_streams contains
find-mark_streams now targets [] h x s = refl
find-mark_streams now targets ((hub, stream) ∷ streams) h x s =
    rw
      (
        find-mark_streams now targets streams h x (mark_all now hub (sids_of hub targets) s),
        find-mark_all now hub (sids_of hub targets) h x s,
      )
      (marked_twice now (contains h (keys streams)) (hub == h) (contains x (sids_of h targets))
        (contains x (sids_of hub targets)) (find h x s)
        (λ e. ap (λ k. contains x (sids_of k targets)) ((eq_iff hub h).0 e)))

store-push :
    (send : ℕ → LeaderMsg → Sent) (hub : String) (stream : ℕ) (msg : LeaderMsg) (s : PushServer)
    → (push_to_follower send hub stream msg s).0.session_store ≡ s.session_store
unfolding push_to_follower remove_stream
store-push send hub stream msg s = ground arith

no_sids :
    (now : ℤ) (hub : String) (targets : List (String × List String)) (s : SessionStore)
    → get hub targets ≡ none
    → mark_all now hub (sids_of hub targets) s ≡ s
unfolding mark_all
no_sids now hub targets s e = rw (sids_of, e)

-- Whatever Send answers, the store gets the same marks.
pub store-kickoff_streams :
    (send : ℕ → LeaderMsg → Sent) (now : ℤ) (targets : List (String × List String))
    (streams : List (String × ℕ)) (s : PushServer)
    → (kickoff_streams send now targets streams s).session_store
      ≡ mark_streams now targets streams s.session_store
unfolding kickoff_streams mark_streams
store-kickoff_streams send now targets [] s = refl
store-kickoff_streams send now targets ((hub, stream) ∷ streams) s =
    elim (Option-cases (get hub targets)) [
      | inl e ↦
          rw (e, kickoff_streams, no_sids now hub targets s.session_store e)
            (store-kickoff_streams send now targets streams s)
      | inr (sids, e) ↦
          rw (e, kickoff_streams, sids_of)
            (store-kickoff_streams send now targets streams _
              ∙ ap (λ st. mark_streams now targets streams (mark_all now hub sids st))
                  (store-push send hub stream (record no_leader_msg { kickoff = sids }) s))
    ]

abbrev is_on : String → Session → Bool
is_on hub sess = sess.hub_id == hub

-- The session ids of the sessions of a hub.
abbrev pub sids_on : String → List Session → List String
sids_on hub [] = []
sids_on hub (sess ∷ l) =
    let rest = sids_on hub l in if is_on hub sess then sess.sid ∷ rest else rest

sids_of-put :
    (hub h : String) (sids : List String) (targets : List (String × List String))
    → sids_of h (put hub sids targets) ≡ (if hub == h then sids else sids_of h targets)
sids_of-put hub h sids targets = elim (Bool-cases (hub == h)) [
  | inl e ↦ rw (sids_of, get-put hub h sids targets, e)
  | inr n ↦ rw (sids_of, get-put hub h sids targets, n)
]

sids_of-targets_of :
    (h : String) (l : List Session) (targets : List (String × List String))
    → sids_of h (targets_of l targets) ≡ sids_of h targets ++ sids_on h l
unfolding targets_of
sids_of-targets_of h [] targets = sym (append-nil _)
sids_of-targets_of h (s ∷ l) targets =
    let more : List String = sids_of s.hub_id targets ++ s.sid ∷ [] in
    sids_of-targets_of h l (put s.hub_id more targets) ∙ elim (Bool-cases (s.hub_id == h)) [
      | inl e ↦
          rw (sids_of-put s.hub_id h more targets, e)
            (append_assoc (sids_of s.hub_id targets) (s.sid ∷ []) (sids_on h l)
              ∙ ap (λ u. sids_of u targets ++ s.sid ∷ sids_on h l) ((eq_iff s.hub_id h).0 e))
      | inr n ↦ rw (sids_of-put s.hub_id h more targets, n)
    ]

contains-hubs_of :
    (h : String) (targets : List (String × List String))
    → contains h (hubs_of targets) ≡ has h targets
unfolding contains has get
contains-hubs_of h [] = refl
contains-hubs_of h ((hub, sids) ∷ targets) = ground (arith, contains-hubs_of h targets)

contains-copy :
    (h : String) (hubs : List String) (streams : List (String × ℕ))
    → contains h (keys (copy_streams_by_follower hubs streams)) ≡ contains h hubs && has h streams
unfolding contains copy_streams_by_follower has
contains-copy h [] streams = refl
contains-copy h (hub ∷ hubs) streams = ground (arith, contains-copy h hubs streams, eq_iff hub h)

no_target :
    (h x : String) (targets : List (String × List String))
    → has h targets ≡ false
    → contains x (sids_of h targets) ≡ false
unfolding contains has
no_target h x targets e = ground arith

same_test :
    (known there wanted : Bool) (a b : Option Session)
    → (known ≡ false → wanted ≡ false)
    → (if known && there then (if wanted then a else b) else b) ≡ (if there && wanted then a else b)
same_test known there wanted a b h = ground arith

-- After `kickoff`, whatever Send answered, a session of the store carries the time of the call as
-- its kickoff time exactly if its hub has a stream and it is one of the given sessions of its hub;
-- every other session is as it was.
pub find-kickoff :
    (send : ℕ → LeaderMsg → Sent) (now : ℤ) (sessions : Sids) (s : PushServer) (h x : String)
    → find h x (kickoff send now sessions s).session_store ≡ (
        if has h s.hub_streams && contains x (sids_on h (values sessions))
        then kicked_at now (find h x s.session_store)
        else find h x s.session_store)
unfolding kickoff get
find-kickoff send now sessions s h x =
    let targets = targets_of (values sessions) [] in
    ap (find h x) (store-kickoff_streams send now targets _ s)
    ∙ find-mark_streams now targets _ h x s.session_store
    ∙ rw (contains-copy h (hubs_of targets) s.hub_streams, contains-hubs_of h targets)
        (same_test (has h targets) (has h s.hub_streams) (contains x (sids_of h targets)) _ _
            (no_target h x targets)
          ∙ ap
              (λ l.
                if has h s.hub_streams && contains x l
                then kicked_at now (find h x s.session_store)
                else find h x s.session_store)
              (sids_of-targets_of h (values sessions) []))
