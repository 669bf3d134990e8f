-- ===== src/Lib.antt =====
-- Nekzus: a gateway for the services of a home network. It routes requests to the services that it
-- discovers or is configured with, pairs devices, checks their tokens, and shares its catalog of
-- services with other instances. These files model the parts that decide: where a request goes, who may
-- pair, what a token allows, which subscriptions a message reaches and when it is sent again, which
-- version of a shared service is kept, when a script runs, when a service counts as unhealthy, and
-- which notifications a device still gets.
--
-- The parts, and the files that model them (paths of Go files from the repository's root):
--   Router/Radix        internal/router/radix.go: RadixTree with Insert, InsertWithValidation, Search and
--                       Delete. A node is a prefix, an optional route and a list of nodes.
--   Router/Registry     internal/router/registry.go: Registry, the routes and apps by ID, the radix tree
--                       and the index of subdomains. It calls the radix tree for every change and every
--                       request. Registry/Removal has the removal and the reload, Registry/Loading
--                       the start.
--   Auth/Revocation     internal/auth/revocation.go: RevocationList.
--   Auth/Scopes         internal/auth/scopes.go: HasAllScopes and HasAllScopesFromAny.
--   Auth/Bootstrap      internal/auth/bootstrap.go: BootstrapStore.
--   Auth/Pairing        internal/auth/pairing.go: PairingManager. Its codes carry the bootstrap tokens.
--   Federation/VectorClock   internal/federation/vector_clock.go: VectorClock.
--   Federation/Resolver      internal/federation/resolver.go: ResolveConflict, over the vector clocks.
--   Federation/Syncer   internal/federation/syncer.go: CatalogSyncer, with the rows of the table
--                       federation_services of internal/storage/storage.go. It asks ResolveConflict
--                       about every remote version. Syncer/Remote has what comes from the peers,
--                       Syncer/Catalog the listings.
--   Federation/Gossip   internal/federation/federation.go: the delegate that hands the messages of the
--                       cluster to the syncer and takes the broadcasts from their queue. Gossip/Delivery
--                       follows a local change to another peer.
--   Federation/Peers    internal/federation/peer.go and federation.go: the peers of a PeerManager, the
--                       events of the cluster and the health check.
--   Websocket/Topics    internal/websocket/topics.go: MatchTopic, ValidateTopic and ValidatePattern.
--   Websocket/Qos       internal/websocket/qos.go: QoSTracker, the messages that wait for an
--                       acknowledgement.
--   Websocket/Dedup     internal/websocket/qos.go: QoS2Tracker, the messages that were processed.
--   Scripts/Text        the functions of strings and strconv that the parser of schedules calls.
--   Scripts/Cron        internal/scripts/scheduler.go: ParseCronExpression and the parser of a field.
--   Scripts/Scheduler   internal/scripts/scheduler.go: NextRun and the check of the schedules.
--   Health/Checker      internal/health/service_checker.go: the status of a service behind its probes.
--   Notifications/Store internal/storage/storage.go: the rows of the notifications.
--   Notifications/Queue internal/notifications/queue.go: Queue, its workers and the retries, over the
--                       rows. Queue/Retry has RetryDevice and RetryNotification, Queue/Whole
--                       the steps of the former.
--   Notifications/Tracker    internal/notifications/ack_tracker.go: ACKTracker, and the callback of
--                       cmd/nekzus/main.go that marks a row delivered.
--   Prelude             lists, association lists, byte strings and results that the parts share.
--
-- A structure of Go is a record, a method a function from the record to the new record and the method's
-- results. A Go map is an association list (Prelude/Dict); a loop over a map is a recursion over its
-- entries, and no theorem depends on their order. A path or a scope is a list of bytes, an identifier
-- that is only compared is a string. A time is a number of nanoseconds, or of seconds
-- in the rows of notifications, and the clock, the random source
-- and the answers of the storage are arguments. Locks are not modelled: a method runs as one step, a
-- sequential reading of the code. Where a method does all its work under one mutex, the code grants
-- this; where it does not, it is a simplification. Three of the latter are divided in the runs, so that
-- other calls may come in between: UpsertRoute, which lets its lock go while the storage writes
-- (Router/Registry/Runs); RedeemCode, whose check of the global limit and redemption hold different locks
-- (Auth/Pairing/Guessing); and RetryDevice, which holds none between its read and its rounds
-- (Notifications/Queue/Runs). Single steps in spite of it are the writes of RemoveRoute, RemoveApp and
-- UpsertApp to the storage, the deletion of an expired token by Validate, the callbacks that the trackers
-- make behind their lock, RetryNotification, and a round of a worker of the queue. The theorems on
-- single calls say nothing of what comes in between.
--
-- Every function is structurally recursive. The loop over a step range of a cron field is granted 2^64 + 1
-- rounds, one more than its counter has values; the counter wraps at 64 bits, and a loop that is still in its
-- range then never ends, which the model marks by the value `endless` in the place of a result. NextRun
-- searches the minutes of four years, which is the bound of the code. The counters of vector clocks wrap at
-- 2^64 as in Go; the counters of failures and of the tree's size are numbers, since no run of the program
-- increments them 2^63 times.
--
-- A database that may refuse a call is an answer among the arguments. encoding/json is a parameter of
-- the syncer, with the hypothesis that a clock that is written and read back has the same counters; the
-- calendar of package time is a parameter of the scheduler.
--
-- Not modelled: the database itself, HTTP, containers, certificates and the network, which the code reaches
-- through libraries; the goroutines that call the clean-ups, whose calls are steps of a run; logging.
pub mod Prelude
pub mod Router
pub mod Auth
pub mod Federation
pub mod Websocket
pub mod Scripts
pub mod Health
pub mod Notifications
