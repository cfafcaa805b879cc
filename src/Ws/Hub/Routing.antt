-- ===== src/Ws/Hub/Routing.antt =====
-- What the messages of a hub (ws/hub.go) let the leader of cluster/server.go know of its sessions.
use minipush.Base.{String, Option, none, ◌≡◌, ◌⊎◌}
use minipush.Base.Keys.{int_eq, string_eq}
use minipush.Proto.{Session}
use minipush.Ws.Handler.{Handler}
use minipush.Cluster.Sorter.{Sorter}
use minipush.Cluster.Sessions.{SessionStore}
use minipush.Cluster.Sessions.Lookup.{find}
use minipush.Ws.Hub.{Hub}
use minipush.Ws.Hub.Led.{shown}
use minipush.Ws.Hub.Sync.{hear_all, IsKeyed}

-- A session that the leader finds is the one that the hub shows; or the hub shows none and something
-- else holds, which is for the session ids that were kicked off.
abbrev Known : Type 0 → Option Session → Option Session → Type 0
Known P found there = (found ≡ there) ⊎ ((there ≡ none) × P)

abbrev Knows : (String → Type 0) → String → SessionStore → Hub → Type 0
Knows P hub_id s h = (x : String) → Known (P x) (find hub_id x s) (shown hub_id x h)

-- What an event keeps.
abbrev Kept : (String → Type 0) → String → SessionStore → Hub → Type 0
Kept P hub_id s h = IsKeyed h × Knows P hub_id (hear_all hub_id h.follower_c s) h
