-- ===== src/Cluster/Sessions/Lookup.antt =====
-- What each operation of cluster/sessionstore.go does to the session under a hub id and a session
-- id, and the invariant of the store.
use minipush.Base.{
  ℕ, String, Option, none, some, List, [], ◌∷◌, if◌then◌else◌, ◌≡◌, refl, arith, inl, inr,
  Bool-cases, Option-cases,
}
use minipush.Base.Int.{ℤ}
use minipush.Base.Keys.{◌==◌, int_eq, string_eq, eq_iff}
use minipush.Base.Options.{◌>>=◌}
use minipush.Base.Dict.{
  get, put, delete, prune, Distinct, get-put, get-delete, get-prune, put-Distinct, delete-Distinct,
  prune-Distinct, unless,
}
use minipush.Base.Dict.Each.{Each, get-Each, put-Each, delete-Each, prune-Each}
use minipush.Cluster.Sorter.{Sorter}
use minipush.Cluster.Sessions.{
  Sids, SessionStore, new_session_store, hub_sessions, empty, add, add_all, add_many, del, contains,
  sweep, is_overdue, gc,
}
use minipush.Proto.{Session}

-- s.kv[hubId][sid]
abbrev pub find : String → String → SessionStore → Option Session
find hub_id sid s = do v ← get hub_id s.kv; get sid v

pub find-add :
    (hub_id h x : String) (sess : Session) (s : SessionStore)
    → find h x (add hub_id sess s) ≡ (
        if hub_id == h
        then (if sess.sid == x then some (record sess { hub_id = hub_id }) else find h x s)
        else find h x s)
unfolding add get
find-add hub_id h x sess s =
    rw
      (get-put hub_id h (put sess.sid (record sess { hub_id = hub_id }) (hub_sessions hub_id s))
        s.kv)
      (ground (
        arith,
        eq_iff hub_id h,
        get-put sess.sid x (record sess { hub_id = hub_id }) (hub_sessions hub_id s),
      ))

pub find-del :
    (hub_id h sid x : String) (s : SessionStore)
    → find h x (del hub_id sid s)
      ≡ (if hub_id == h then (if sid == x then none else find h x s) else find h x s)
unfolding del
find-del hub_id h sid x s = elim (Option-cases (get hub_id s.kv)) [
  | inl e ↦ rw (e, del) (ground (arith, eq_iff hub_id h))
  | inr (v, e) ↦
      rw (e, del)
        (rw (get-put hub_id h (delete sid v) s.kv)
          (ground (arith, eq_iff hub_id h, get-delete sid x v)))
]

-- The session under a key is labelled with the key, and there is one for a key.
abbrev pub IsLabelled : String → String → Session → Type 0
IsLabelled hub_id sid sess = (sess.sid ≡ sid) × (sess.hub_id ≡ hub_id)

abbrev pub IsHubMap : String → Sids → Type 0
IsHubMap hub_id v = Distinct v × Each (IsLabelled hub_id) v

pub record IsConsistent (s : SessionStore) : Type 0 where
  pub distinct : Distinct s.kv
  pub hubs : Each IsHubMap s.kv

pub new-IsConsistent : IsConsistent new_session_store
unfolding new_session_store
new-IsConsistent = record { distinct = tt; hubs = tt }

empty-IsConsistent : (s : SessionStore) → IsConsistent (empty s)
unfolding empty
empty-IsConsistent s = record { distinct = tt; hubs = tt }

hub_sessions-IsHubMap :
    (hub_id : String) (s : SessionStore) → IsConsistent s → IsHubMap hub_id (hub_sessions hub_id s)
hub_sessions-IsHubMap hub_id s c = elim (Option-cases (get hub_id s.kv)) [
  | inl e ↦ rw (e, hub_sessions) (tt, tt)
  | inr (v, e) ↦ rw (e, hub_sessions) (get-Each IsHubMap hub_id v s.kv e c.hubs)
]

pub put_hub-IsConsistent :
    (hub_id : String) (v : Sids) (s : SessionStore)
    → IsHubMap hub_id v
    → IsConsistent s
    → IsConsistent (record s { kv = put hub_id v s.kv })
put_hub-IsConsistent hub_id v s h c = record {
  distinct = put-Distinct hub_id v s.kv c.distinct;
  hubs = put-Each IsHubMap hub_id v s.kv h c.hubs;
}

put_session-IsHubMap :
    (hub_id : String) (sess : Session) (v : Sids)
    → IsHubMap hub_id v
    → IsHubMap hub_id (put sess.sid (record sess { hub_id = hub_id }) v)
put_session-IsHubMap hub_id sess v h =
    (put-Distinct sess.sid _ v h.0, put-Each (IsLabelled hub_id) sess.sid _ v (refl, refl) h.1)

add_all-IsHubMap :
    (hub_id : String) (slice : List Session) (v : Sids)
    → IsHubMap hub_id v
    → IsHubMap hub_id (add_all hub_id slice v)
unfolding add_all
add_all-IsHubMap hub_id [] v h = h
add_all-IsHubMap hub_id (sess ∷ slice) v h =
    add_all-IsHubMap hub_id slice _ (put_session-IsHubMap hub_id sess v h)

del-IsConsistent :
    (hub_id sid : String) (s : SessionStore) → IsConsistent s → IsConsistent (del hub_id sid s)
unfolding del
del-IsConsistent hub_id sid s c = elim (Option-cases (get hub_id s.kv)) [
  | inl e ↦ rw (e, del) c
  | inr (v, e) ↦
      let h = get-Each IsHubMap hub_id v s.kv e c.hubs in
      rw (e, del)
        (put_hub-IsConsistent hub_id (delete sid v) s
          (delete-Distinct sid v h.0, delete-Each (IsLabelled hub_id) sid v h.1) c)
]

get-sweep :
    (live : List String) (now : ℤ) (h : String) (kv : List (String × Sids))
    → Distinct kv
    → get h (sweep live now kv) ≡ (
        if contains h live
        then (elim (get h kv) [
          | none ↦ none
          | some v ↦ some (prune (λ _ sess. is_overdue now sess) v)
        ])
        else none)
unfolding sweep get
get-sweep live now h [] d = ground arith
get-sweep live now h ((k, v) ∷ kv) d = ground (arith, get-sweep live now h kv d.1, eq_iff k h)

sweep-Distinct :
    (live : List String) (now : ℤ) (kv : List (String × Sids))
    → Distinct kv
    → Distinct (sweep live now kv)
unfolding sweep
sweep-Distinct live now [] d = tt
sweep-Distinct live now ((k, v) ∷ kv) d = elim (Bool-cases (contains k live)) [
  | inl e ↦ rw e (ground (arith, get-sweep live now k kv d.1, d.0), sweep-Distinct live now kv d.1)
  | inr n ↦ rw n (sweep-Distinct live now kv d.1)
]

sweep-hubs :
    (live : List String) (now : ℤ) (kv : List (String × Sids))
    → Each IsHubMap kv
    → Each IsHubMap (sweep live now kv)
unfolding sweep
sweep-hubs live now [] d = tt
sweep-hubs live now ((k, v) ∷ kv) d = elim (Bool-cases (contains k live)) [
  | inl e ↦
      rw e (
        (prune-Distinct _ v d.0.0, prune-Each (IsLabelled k) _ v d.0.1),
        sweep-hubs live now kv d.1,
      )
  | inr n ↦ rw n (sweep-hubs live now kv d.1)
]

-- After `gc`, a session is found exactly if it was found before, its hub is live, and it is not
-- overdue: not kicked off, or kicked off no more than a minute ago.
pub find-gc :
    (sorter : Sorter) (live : List String) (quota : ℕ) (now : ℤ) (s : SessionStore) (h x : String)
    → IsConsistent s
    → find h x (gc sorter live quota now s).0
      ≡ (if contains h live then unless (λ _ sess. is_overdue now sess) x (find h x s) else none)
unfolding gc
find-gc sorter live quota now s h x c =
    rw (get-sweep live now h s.kv c.distinct) (elim (Option-cases (get h s.kv)) [
      | inl e ↦ rw e (ground arith)
      | inr (v, e) ↦ rw e (
          ground (
            arith,
            get-prune (λ _ sess. is_overdue now sess) x v (get-Each IsHubMap h v s.kv e c.hubs).0,
          ))
    ])

-- The operations of the store, as the server calls them.
pub data Operation : Type 0 where
  adds : String → Session → Operation
  adds_many : String → List Session → Operation
  deletes : String → String → Operation
  collects : List String → ℕ → ℤ → Operation
  empties : Operation

abbrev pub apply : Sorter → Operation → SessionStore → SessionStore
apply sorter (adds hub_id sess) s = add hub_id sess s
apply sorter (adds_many hub_id slice) s = add_many hub_id slice s
apply sorter (deletes hub_id sid) s = del hub_id sid s
apply sorter (collects live quota now) s = (gc sorter live quota now s).0
apply sorter empties s = empty s

abbrev pub apply_all : Sorter → List Operation → SessionStore → SessionStore
apply_all sorter [] s = s
apply_all sorter (o ∷ os) s = apply_all sorter os (apply sorter o s)

pub apply-IsConsistent :
    (sorter : Sorter) (o : Operation) (s : SessionStore)
    → IsConsistent s
    → IsConsistent (apply sorter o s)
unfolding add add_many gc
apply-IsConsistent sorter (adds hub_id sess) s c =
    put_hub-IsConsistent hub_id _ s
      (put_session-IsHubMap hub_id sess _ (hub_sessions-IsHubMap hub_id s c)) c
apply-IsConsistent sorter (adds_many hub_id slice) s c =
    put_hub-IsConsistent hub_id _ s
      (add_all-IsHubMap hub_id slice _ (hub_sessions-IsHubMap hub_id s c)) c
apply-IsConsistent sorter (deletes hub_id sid) s c = del-IsConsistent hub_id sid s c
apply-IsConsistent sorter (collects live quota now) s c = record {
  distinct = sweep-Distinct live now s.kv c.distinct;
  hubs = sweep-hubs live now s.kv c.hubs;
}
apply-IsConsistent sorter empties s c = empty-IsConsistent s

apply_all-IsConsistent :
    (sorter : Sorter) (os : List Operation) (s : SessionStore)
    → IsConsistent s
    → IsConsistent (apply_all sorter os s)
apply_all-IsConsistent sorter [] s c = c
apply_all-IsConsistent sorter (o ∷ os) s c =
    apply_all-IsConsistent sorter os _ (apply-IsConsistent sorter o s c)

-- Whatever the operations on a new store, it has one map for a hub and one session for a session
-- id in it, and each session carries the hub id and the session id under which it stands.
pub run-IsConsistent :
    (sorter : Sorter) (os : List Operation) → IsConsistent (apply_all sorter os new_session_store)
run-IsConsistent sorter os = apply_all-IsConsistent sorter os new_session_store new-IsConsistent
