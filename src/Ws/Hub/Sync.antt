-- ===== src/Ws/Hub/Sync.antt =====
-- What the messages of a hub (ws/hub.go) do to the leader's store (cluster/sessionstore.go), and
-- the sessions that `Online` sends in batches.
use minipush.Base.{
  ℕ, ◌≤◌, true, false, String, Option, none, some, List, [], ◌∷◌, ◌++◌, ltb, length, take, drop,
  zero, suc, if◌then◌else◌, ◌≡◌, refl, sym, ◌∙◌, arith, inl, inr, Bool-cases, subst, Option-cases,
  ap, length-take, length-drop, take-append-drop,
}
use minipush.Base.Keys.{◌==◌, int_eq, string_eq, eq_iff}
use minipush.Base.Dict.{get, put, Distinct, get-put}
use minipush.Base.Dict.Each.{Each}
use minipush.Proto.{Session, FollowerMsg, no_follower_msg}
use minipush.Ws.Handler.{Handler}
use minipush.Cluster.Sessions.{SessionStore, add, add_all, add_many, del, hub_sessions}
use minipush.Cluster.Sessions.Lookup.{find}
use minipush.Ws.Hub.{Handlers, Hub, shallow_copy_sessions, batch, sync_batches}

-- The store of the leader when it gets a message of the hub, without the kickoffs that may follow.
unfoldable pub hear : String → FollowerMsg → SessionStore → SessionStore
hear hub_id msg s = elim msg.session_online [
  | some v ↦ add hub_id v s
  | none ↦
      if msg.session_offline == ""
      then (if ltb 0 (length msg.sync_sessions) then add_many hub_id msg.sync_sessions s else s)
      else del hub_id msg.session_offline s
]

unfoldable pub hear_all : String → List FollowerMsg → SessionStore → SessionStore
hear_all hub_id [] s = s
hear_all hub_id (msg ∷ msgs) s = hear_all hub_id msgs (hear hub_id msg s)

pub hear_all-append :
    (hub_id : String) (a b : List FollowerMsg) (s : SessionStore)
    → hear_all hub_id (a ++ b) s ≡ hear_all hub_id b (hear_all hub_id a s)
unfolding hear_all
hear_all-append hub_id [] b s = refl
hear_all-append hub_id (m ∷ a) b s = hear_all-append hub_id a b (hear hub_id m s)

-- What is known under `x` once the sessions are added.
unfoldable pub noted : String → String → List Session → Option Session → Option Session
noted hub_id x [] old = old
noted hub_id x (v ∷ vs) old =
    noted hub_id x vs (if v.sid == x then some (record v { hub_id = hub_id }) else old)

noted-append :
    (hub_id x : String) (a b : List Session) (old : Option Session)
    → noted hub_id x (a ++ b) old ≡ noted hub_id x b (noted hub_id x a old)
unfolding noted
noted-append hub_id x [] b old = refl
noted-append hub_id x (v ∷ a) b old = noted-append hub_id x a b _

get-add_all :
    (hub_id x : String) (vs : List Session) (m : List (String × Session))
    → get x (add_all hub_id vs m) ≡ noted hub_id x vs (get x m)
unfolding add_all noted
get-add_all hub_id x [] m = refl
get-add_all hub_id x (v ∷ vs) m =
    rw (get-add_all hub_id x vs (put v.sid (record v { hub_id = hub_id }) m))
      (ap (noted hub_id x vs) (get-put v.sid x (record v { hub_id = hub_id }) m))

pub string_eq_self : (s : String) → (s == s) ≡ true
string_eq_self s = (eq_iff s s).1 refl

get-hub_sessions :
    (hub_id x : String) (s : SessionStore) → get x (hub_sessions hub_id s) ≡ find hub_id x s
unfolding get
get-hub_sessions hub_id x s = elim (Option-cases (get hub_id s.kv)) [
  | inl e ↦ rw (e, hub_sessions, find) refl
  | inr (v, e) ↦ rw (e, hub_sessions, find) refl
]

pub find-add_many :
    (hub_id x : String) (vs : List Session) (s : SessionStore)
    → find hub_id x (add_many hub_id vs s) ≡ noted hub_id x vs (find hub_id x s)
unfolding add_many
find-add_many hub_id x vs s =
    rw
      (
        get-put hub_id hub_id (add_all hub_id vs (hub_sessions hub_id s)) s.kv,
        string_eq_self hub_id,
      )
      (rw (get-add_all hub_id x vs (hub_sessions hub_id s))
        (ap (noted hub_id x vs) (get-hub_sessions hub_id x s)))

-- The sessions of a batch, then those after it.
find-batch :
    (hub_id x : String) (n : ℕ) (vs : List Session) (s : SessionStore)
    → noted hub_id x (drop n vs) (find hub_id x (add_many hub_id (take n vs) s))
      ≡ noted hub_id x vs (find hub_id x s)
find-batch hub_id x n vs s = rw (find-add_many hub_id x (take n vs) s) (
    sym (noted-append hub_id x (take n vs) (drop n vs) (find hub_id x s))
    ∙ ap (λ ws. noted hub_id x ws (find hub_id x s)) (take-append-drop n vs))

hear-sync :
    (hub_id : String) (vs : List Session) (s : SessionStore)
    → ltb 0 (length vs) ≡ true
    → hear hub_id (record no_follower_msg { sync_sessions = vs }) s ≡ add_many hub_id vs s
unfolding hear
hear-sync hub_id vs s e = rw e refl

sync_batches-suc :
    (fuel : ℕ) (vs : List Session)
    → ltb 0 (length vs) ≡ true
    → sync_batches (suc fuel) vs
      ≡ record no_follower_msg { sync_sessions = take batch vs } ∷ sync_batches fuel (drop batch vs)
unfolding sync_batches
sync_batches-suc fuel vs e = rw e refl

take_some :
    (n : ℕ) (vs : List Session)
    → 1 ≤ n
    → ltb 0 (length vs) ≡ true
    → ltb 0 (length (take n vs)) ≡ true
take_some n vs p e = ground (arith, length-take n vs)

sync_step :
    (hub_id : String) (fuel : ℕ) (vs : List Session) (s : SessionStore)
    → ltb 0 (length vs) ≡ true
    → hear_all hub_id (sync_batches (suc fuel) vs) s
      ≡ hear_all hub_id (sync_batches fuel (drop batch vs)) (add_many hub_id (take batch vs) s)
unfolding hear_all
sync_step hub_id fuel vs s e = rw (sync_batches-suc fuel vs e) (
    ap (hear_all hub_id (sync_batches fuel (drop batch vs)))
      (hear-sync hub_id (take batch vs) s (take_some batch vs (omega arith) e)))

pub find-sync_batches :
    (hub_id x : String) (fuel : ℕ) (vs : List Session) (s : SessionStore)
    → length vs ≤ fuel
    → find hub_id x (hear_all hub_id (sync_batches fuel vs) s) ≡ noted hub_id x vs (find hub_id x s)
unfolding sync_batches hear_all noted
find-sync_batches hub_id x zero [] s h = refl
find-sync_batches hub_id x zero (v ∷ vs) s h = absurd (omega arith)
find-sync_batches hub_id x (suc fuel) [] s h = refl
find-sync_batches hub_id x (suc fuel) (v ∷ vs) s h =
    ap (find hub_id x) (sync_step hub_id fuel (v ∷ vs) s (ground arith))
    ∙ (find-sync_batches hub_id x fuel (drop batch (v ∷ vs))
          (add_many hub_id (take batch (v ∷ vs)) s) (omega (arith, length-drop batch (v ∷ vs)))
        ∙ find-batch hub_id x batch (v ∷ vs) s)

-- A handler is kept under the id of its session, which is not empty, and there is one for an id.
abbrev pub IsNamed : String → Handler → Type 0
IsNamed sid handler = (handler.session.sid ≡ sid) × ((sid == "") ≡ false)

pub record IsKeyed (h : Hub) : Type 0 where
  pub distinct : Distinct h.handlers
  pub named : Each IsNamed h.handlers

-- The session of a handler, as the leader stores it.
unfoldable pub labelled : String → Option Handler → Option Session
labelled hub_id none = none
labelled hub_id (some handler) = some (record handler.session { hub_id = hub_id })

-- The newer of what is known.
abbrev pub over : Option Session → Option Session → Option Session
over none old = old
over (some v) old = some v

pub over-none : (o : Option Session) → over o none ≡ o
over-none none = refl
over-none (some v) = refl

pub noted_absent :
    (hub_id x : String) (hs : Handlers) (old : Option Session)
    → Each IsNamed hs
    → get x hs ≡ none
    → noted hub_id x (shallow_copy_sessions hs) old ≡ old
unfolding noted shallow_copy_sessions get
noted_absent hub_id x [] old n e = refl
noted_absent hub_id x ((k, handler) ∷ hs) old n e = elim (Bool-cases (k == x)) [
  | inl p ↦ cc
  | inr q ↦ rw (n.0.0, q) (noted_absent hub_id x hs old n.1 (rw q at e))
]

pub noted-shallow_copy_sessions :
    (hub_id x : String) (hs : Handlers) (old : Option Session)
    → Distinct hs
    → Each IsNamed hs
    → noted hub_id x (shallow_copy_sessions hs) old ≡ over (labelled hub_id (get x hs)) old
unfolding noted shallow_copy_sessions get labelled
noted-shallow_copy_sessions hub_id x [] old d n = refl
noted-shallow_copy_sessions hub_id x ((k, handler) ∷ hs) old d n = elim (Bool-cases (k == x)) [
  | inl p ↦
      rw (n.0.0, p)
        (noted_absent hub_id x hs _ n.1 (subst (λ i. get i hs ≡ none) ((eq_iff k x).0 p) d.0))
  | inr q ↦ rw (n.0.0, q) (noted-shallow_copy_sessions hub_id x hs old d.1 n.1)
]
