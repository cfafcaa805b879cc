-- ===== src/Cluster/Storage/Deleting.antt =====
-- The ticker of `deleteLoop` in cluster/eventstore.go over the event store of store/event.go.
use minipush.Store.Events.{Database}
use minipush.Store.Queries.{Queries, Clock, delete_outdated_events}
use minipush.Cluster.Storage.{Storage}

-- The ticker's case of the select: what the call returns is only logged.
unfoldable pub delete_round : {D T : Type 0} → Database D → Queries D → Clock T → Storage → D → D
unfolding delete_outdated_events
delete_round db q clock s d = (delete_outdated_events db q clock s.del_events_ttl_days d).1
