-- ===== src/Ws/Hub/Heard.antt =====
-- What the messages of a hub (ws/hub.go) do to the leader of cluster/server.go, kickoffs included: the
-- store has the sessions that the messages name, but for the marks of the kickoffs.
use minipush.Base.{
  ℕ, suc, Bool, true, false, ◌&&◌, String, Option, none, some, List, [], ◌∷◌, ltb, length,
  if◌then◌else◌, ◌≡◌, refl, ap, ◌∙◌, arith, inl, inr, Bool-cases, Option-cases,
}
use minipush.Base.Int.{ℤ, pos}
use minipush.Base.Keys.{◌==◌, string_eq}
use minipush.Base.Dict.{has}
use minipush.Proto.{Session, FollowerMsg, LeaderMsg}
use minipush.Cluster.Sorter.{Sorter}
use minipush.Cluster.Messages.{KafkaWriter}
use minipush.Cluster.Sessions.{Sids, SessionStore, values, contains}
use minipush.Cluster.Sessions.Lookup.{find, find-add, find-del}
use minipush.Cluster.Server.{PushServer, Sent, kickoff_some, save_im, receive}
use minipush.Cluster.Server.Kickoff.{kicked_at, sids_on, find-kickoff}
use minipush.Ws.Hub.Sync.{hear, hear_all, noted, find-add_many, string_eq_self}

-- A session without the mark of a kickoff.
abbrev pub unmarked : Option Session → Option Session
unmarked none = none
unmarked (some v) = some (record v { kickoff_time = pos 0 })

unmarked-kicked_at : (now : ℤ) (o : Option Session) → unmarked (kicked_at now o) ≡ unmarked o
unmarked-kicked_at now none = refl
unmarked-kicked_at now (some v) = refl

if_same :
    (b : Bool) (now : ℤ) (o : Option Session)
    → unmarked (if b then kicked_at now o else o) ≡ unmarked o
if_same true now o = unmarked-kicked_at now o
if_same false now o = refl

kickoff_some-unmarked :
    (send : ℕ → LeaderMsg → Sent) (now : ℤ) (late : Sids) (s : PushServer) (h x : String)
    → unmarked (find h x (kickoff_some send now late s).session_store)
      ≡ unmarked (find h x s.session_store)
kickoff_some-unmarked send now late s h x = elim (Bool-cases (ltb 0 (length late))) [
  | inl y ↦ rw y (
      ap unmarked (find-kickoff send now late s h x)
      ∙ if_same (has h s.hub_streams && contains x (sids_on h (values late))) now
          (find h x s.session_store))
  | inr n ↦ rw n refl
]

noted-unmarked :
    (hub_id x : String) (vs : List Session) (a b : Option Session)
    → unmarked a ≡ unmarked b
    → unmarked (noted hub_id x vs a) ≡ unmarked (noted hub_id x vs b)
unfolding noted
noted-unmarked hub_id x [] a b e = e
noted-unmarked hub_id x (v ∷ vs) a b e = elim (Bool-cases (v.sid == x)) [
  | inl y ↦ rw y refl
  | inr n ↦ rw n (noted-unmarked hub_id x vs a b e)
]

-- Two stores that differ in marks only, for a hub.
abbrev pub SameBut : String → SessionStore → SessionStore → Type 0
SameBut hub_id s t = (x : String) → unmarked (find hub_id x s) ≡ unmarked (find hub_id x t)

hear-SameBut :
    (hub_id : String) (msg : FollowerMsg) (s t : SessionStore)
    → SameBut hub_id s t
    → SameBut hub_id (hear hub_id msg s) (hear hub_id msg t)
unfolding hear
hear-SameBut hub_id msg s t same x = elim (Option-cases msg.session_online) [
  | inr (v, e) ↦
      rw (e, hear)
        (rw (find-add hub_id hub_id x v s, find-add hub_id hub_id x v t, string_eq_self hub_id)
          (ground (arith, same x)))
  | inl e ↦ elim (Bool-cases (msg.session_offline == "")) [
    | inl y ↦ elim (Bool-cases (ltb 0 (length msg.sync_sessions))) [
      | inl more ↦
          rw (e, hear, y, more)
            (rw
              (
                find-add_many hub_id x msg.sync_sessions s,
                find-add_many hub_id x msg.sync_sessions t,
              )
              (noted-unmarked hub_id x msg.sync_sessions _ _ (same x)))
      | inr no_more ↦ rw (e, hear, y, no_more) (same x)
    ]
    | inr n ↦
        rw (e, hear, n)
          (rw
            (
              find-del hub_id hub_id msg.session_offline x s,
              find-del hub_id hub_id msg.session_offline x t,
              string_eq_self hub_id,
            )
            (ground (arith, same x)))
  ]
]

module _ (send : ℕ → LeaderMsg → Sent) (sorter : Sorter) (writer : KafkaWriter) where
  -- The rounds of `Route` over the messages of a hub on its sessions, none of which ends the route, each
  -- at its own time.
  unfoldable pub receive_each : String → (ℕ → ℤ) → List FollowerMsg → PushServer → PushServer
  unfolding receive
  receive_each hub_id at [] s = s
  receive_each hub_id at (msg ∷ msgs) s =
      receive_each hub_id (λ n. at (suc n)) msgs (receive send sorter writer hub_id msg (at 0) s).0

  receive-SameBut :
      (hub_id : String) (msg : FollowerMsg) (now : ℤ) (s : PushServer)
      → SameBut hub_id
          (receive send sorter writer hub_id msg now s).0.session_store
          (hear hub_id msg s.session_store)
  unfolding receive hear save_im
  receive-SameBut hub_id msg now s x = elim (Option-cases msg.session_online) [
    | inr (v, e) ↦ rw (e, receive, hear) (kickoff_some-unmarked send now _ _ hub_id x)
    | inl e ↦ elim (Option-cases msg.e2e_msg) [
      | inl n ↦ rw (e, receive, hear, n) (ground arith)
      | inr (im, f) ↦ rw (e, receive, hear, f) (ground arith)
    ]
  ]

  pub receive_each-SameBut :
      (hub_id : String) (at : ℕ → ℤ) (msgs : List FollowerMsg) (s : PushServer) (t : SessionStore)
      → SameBut hub_id s.session_store t
      → SameBut hub_id (receive_each hub_id at msgs s).session_store (hear_all hub_id msgs t)
  unfolding receive_each hear_all
  receive_each-SameBut hub_id at [] s t same = same
  receive_each-SameBut hub_id at (msg ∷ msgs) s t same =
      receive_each-SameBut hub_id (λ n. at (suc n)) msgs _ (hear hub_id msg t)
        (λ x.
          receive-SameBut hub_id msg (at 0) s x ∙ hear-SameBut hub_id msg s.session_store t same x)
