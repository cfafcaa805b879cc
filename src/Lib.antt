-- ===== src/Lib.antt =====
-- A model of minipush, a push server: websocket clients are served by the nodes of a cluster, of
-- which one is the leader; business events come from kafka and are stored in MySQL per user, and
-- the users' clients are told the newest sequence number.
--
-- The parts, and the files that model them:
--   Base and its children: numbers (Go's int32 and int64 with their wrap-around), lists, Go's maps
--     as lists of entries, the option monad.
--   Proto: the messages of proto/api.pb.go.
--   Store: store/util.go. Store/Bits is boolSliceToBytes, Store/ReadStates is
--     MakeGetReadStatesResp, Store/Base64 the standard base64 that it calls. Store/Events: saving
--     an event, store/event.go, over the statements of the database; Store/Events/Sequences says what
--     the statements on sequences do. Store/Queries: the queries of store/event.go and GetDayBefore.
--   Cluster/Sessions: the leader's SessionStore of cluster/sessionstore.go. Cluster/Server: the
--     leader's pushServer of cluster/server.go, which holds that store and the streams to the hubs.
--     Cluster/Messages: saveE2eMsg of cluster/util.go. Cluster/Sorter: what is assumed of sort.Slice.
--   Cluster/Storage: storage and cache of cluster/eventstore.go; Cluster/Storage/Consuming is its
--     consumeLoop, a machine that waits for the answers of FetchMessage, Save and CommitMessages.
--     Cluster/Storage/Growing joins the cache with the event store, Cluster/Storage/Deleting is
--     deleteLoop, Cluster/Storage/Starting is run. Cluster/Server/Routes: the life of a stream in
--     Route of cluster/server.go; Cluster/Server/Loops: its loops from start to end.
--   Cluster/Node: a node, cluster/cluster.go with the client of cluster/client.go: the channel that
--     its loops share. Cluster/Node/Running: the goroutines of Run and its wait
--     group. Cluster/Node/Serving: ServeHTTP and newClient. Cluster/Client: the loops of a
--     follower's client and what they wait for, up to its end, with the stop of its hub.
--   Cluster/Standalone: the server of one node, cluster/standalone.go. Cluster/Standalone/Running:
--     its goroutines and those of its storage and its hub, and what they wait for.
--   Main: validateFlags and validateAddr of main.go. Main/PidFile is savePid, Main/Signals the loop
--     over signals, Main/Starting is run from its start to the exit code, Main/Config what run makes
--     of the flags.
--   Ws/Api: EventApi of ws/eventapi.go. Ws/Handler: a connection, ws/handler.go. Ws/Hub: the hub of
--     a node, ws/hub.go and ws/hstore.go, Ws/Hub/Address its getRemoteIP. Ws/Api/Stored provides the
--     store that the API calls. Ws/Auth: auth/mock.go, the client that main.go gives to the hub.
--     Ws/Hub/Telling: what an append to several handlers leaves. Ws/Hub/Led: what happens to a hub,
--     with the messages of the leader; Ws/Hub/Heard: what a leader makes of a hub's messages.
--   System: the parts together. System/Delivery: from a save to the channel of a connection.
--     System/Arriving: from a client over the hub, the leader and kafka to the storage.
--     System/Quota: from a session that comes online to the handlers that stay.
--   Examples: the theorems at concrete inputs.
-- A hub tells the leader of its sessions by FollowerMsg, the leader tells hubs of kickoffs and head
-- sequences by LeaderMsg; Ws/Hub/Sync and Ws/Hub/Heard apply the hub's
-- messages to the leader's store.
--
-- A function of the source has the same name here in snake case. State is passed explicitly; what
-- runs under one lock is one step; a panic is `none` or a result of its own; a send to a full
-- channel of a handler is `none`. Loops over a map follow the order of its entries, which is left
-- open by stating theorems for every list. Two definitions have fuel: the batches of Online have as
-- many rounds as there are sessions, which is enough since a batch that is sent is not empty, and
-- the digits of a limit have ten rounds, enough for an int32 (Ws/Api/Digits).
--
-- What runs beside a function is given to it where that matters: `recv_loop` is told how many of its
-- tests of `closing` find it false, since another goroutine may close the handler at any time; `run` of
-- main.go is told the fate of the node, which may panic in its own goroutine.
--
-- Given from outside: sort.Slice, JSON, kafka, gRPC's Send, websocket reads and writes, the
-- statements of MySQL, the clocks, the file system and the processes. In Cluster/Standalone/Running the channels of the
-- handlers have room, and all loops of the storage but its sendLoop end once the context is canceled.
-- Not modelled: generated code, profiling (code of another project), the HTTP mux of main.go, the
-- listening and the shutdown of the HTTP and gRPC servers, deadlines, logging, and interleavings of
-- transactions or inside a function that runs under no lock.
pub mod Base
pub mod Proto
pub mod Store
pub mod Cluster
pub mod Ws
pub mod System
pub mod Main
pub mod Examples
