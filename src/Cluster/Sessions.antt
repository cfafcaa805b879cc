-- ===== src/Cluster/Sessions.antt =====
-- The leader's memory of sessions: cluster/sessionstore.go.
pub mod Lookup
pub mod Choice
pub mod Grouping
pub mod Collect
use minipush.Base.{
  ℕ, ◌-◌, Bool, true, false, ◌&&◌, not, String, Option, none, some, List, [], ◌∷◌, ◌++◌, leb,
  length, take, keep, All, if◌then◌else◌, ◌≡◌, refl,
}
use minipush.Base.Int.{ℤ, pos, ◌+ℤ◌, ◌≤ℤ◌, ltb_ℤ, wrap64, eqb_ℤ}
use minipush.Base.Keys.{◌==◌, int_eq, string_eq}
use minipush.Base.Dict.{get, put, delete, has, prune}
use minipush.Base.Options.{◌>>=◌}
use minipush.Cluster.Sorter.{Sorter}
use minipush.Proto.{Session}

-- seconds
abbrev pub delete_since_kickoff_ttl : ℤ
delete_since_kickoff_ttl = pos 60

-- sid -> session
abbrev pub Sids : Type 0
Sids = List (String × Session)

-- hub id -> sid -> session
pub record SessionStore : Type 0 where
  pub kv : List (String × Sids)

unfoldable pub new_session_store : SessionStore
new_session_store = record { kv = [] }

-- The map of the hub, made when it is missing.
abbrev pub hub_sessions : String → SessionStore → Sids
hub_sessions hub_id s = elim (get hub_id s.kv) [ none ↦ [] | some v ↦ v ]

unfoldable pub empty : SessionStore → SessionStore
empty s = record s { kv = [] }

unfoldable pub add : String → Session → SessionStore → SessionStore
add hub_id sess s = record s {
  kv = put hub_id (put sess.sid (record sess { hub_id = hub_id }) (hub_sessions hub_id s)) s.kv;
}

-- The loop of `addMany`, over the map of the hub.
unfoldable pub add_all : String → List Session → Sids → Sids
add_all hub_id [] v = v
add_all hub_id (sess ∷ slice) v =
    add_all hub_id slice (put sess.sid (record sess { hub_id = hub_id }) v)

unfoldable pub add_many : String → List Session → SessionStore → SessionStore
unfolding add_all
add_many hub_id slice s = record s {
  kv = put hub_id (add_all hub_id slice (hub_sessions hub_id s)) s.kv;
}

unfoldable pub del : String → String → SessionStore → SessionStore
del hub_id sid s = record s {
  kv = elim (get hub_id s.kv) [ none ↦ s.kv | some v ↦ put hub_id (delete sid v) s.kv ];
}

-- The sessions of a map, in the order of a `range` loop over it.
abbrev pub values : Sids → List Session
values [] = []
values ((_, sess) ∷ v) = sess ∷ values v

abbrev pub all_sessions : List (String × Sids) → List Session
all_sessions [] = []
all_sessions ((_, v) ∷ kv) = values v ++ all_sessions kv

abbrev pub is_of : ℤ → Session → Bool
is_of uid sess = sess.uid == uid

-- kickoff[sess.Sid] = sess, for each session of the slice
unfoldable pub by_sid : List Session → Sids → Sids
by_sid [] kickoff = kickoff
by_sid (sess ∷ slice) kickoff = by_sid slice (put sess.sid sess kickoff)

-- sess.KickoffTime > 0 && now > sess.KickoffTime+deleteSinceKickoffTTL
unfoldable pub is_overdue : ℤ → Session → Bool
is_overdue now sess =
    ltb_ℤ (pos 0) sess.kickoff_time
    && ltb_ℤ (wrap64 (sess.kickoff_time +ℤ delete_since_kickoff_ttl)) now

unfoldable pub contains : String → List String → Bool
contains k [] = false
contains k (j ∷ js) = if j == k then true else contains k js

-- The first loop of `gc`.
unfoldable pub sweep : List String → ℤ → List (String × Sids) → List (String × Sids)
unfolding contains
sweep live_hub_ids now [] = []
sweep live_hub_ids now ((k, v) ∷ kv) =
    let rest = sweep live_hub_ids now kv in
    if contains k live_hub_ids then (k, prune (λ _ sess. is_overdue now sess) v) ∷ rest else rest

-- userSessions[uid], which is nil for a user not met yet.
abbrev pub sessions_of : ℤ → List (ℤ × List Session) → List Session
sessions_of uid user_sessions = elim (get uid user_sessions) [ none ↦ [] | some slice ↦ slice ]

-- The second loop of `gc`: the sessions of each user, in the order in which they are met.
unfoldable pub group : List Session → List (ℤ × List Session) → List (ℤ × List Session)
group [] user_sessions = user_sessions
group (sess ∷ slice) user_sessions =
    group slice (put sess.uid (sessions_of sess.uid user_sessions ++ sess ∷ []) user_sessions)

-- `now` is the clock at the call; `quota` is positive (main checks it).
module _ (sorter : Sorter) where
  open sorter use {slice}

  -- n := len(slice) - int(quota); none if n <= 0, and otherwise the first n in order of CreateTime.
  unfoldable pub oldest_beyond : ℕ → List Session → List Session
  oldest_beyond quota sessions =
      if leb (length sessions) quota then [] else take (length sessions - quota) (slice sessions)

  unfoldable pub get_user_sessions_to_kickoff : ℤ → ℕ → SessionStore → Sids
  unfolding oldest_beyond by_sid
  get_user_sessions_to_kickoff uid quota s =
      by_sid (oldest_beyond quota (keep (is_of uid) (all_sessions s.kv))) []

  -- The third loop of `gc`, with the sessions in the order in which they are put in the result.
  unfoldable pub beyond_quota : ℕ → List (ℤ × List Session) → List Session
  unfolding oldest_beyond
  beyond_quota quota [] = []
  beyond_quota quota ((_, sessions) ∷ user_sessions) =
      oldest_beyond quota sessions ++ beyond_quota quota user_sessions

  unfoldable pub gc : List String → ℕ → ℤ → SessionStore → SessionStore × Sids
  unfolding sweep group beyond_quota by_sid
  gc live_hub_ids quota now s =
      let kv = sweep live_hub_ids now s.kv in
      (record s { kv = kv }, by_sid (beyond_quota quota (group (all_sessions kv) [])) [])
