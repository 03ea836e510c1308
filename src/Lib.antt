-- ===== src/Lib.antt =====
-- Geo-Spatial Dispatch Service: the dispatch of drivers to ride requests over a shared Redis server.
--
-- The program keeps its rides in Redis. A driver has a position in a GEO index
-- (internal/geospatial), a status key with a time to live whose absence means offline
-- (internal/driver) and, while a request works on it, a lock key (internal/dispatch/lock.go). A ride
-- is an assignment: a hash under the request's id, and two active keys, one of the rider and one of
-- the driver, that name the request (internal/dispatch/lifecycle.go). The dispatcher
-- (internal/dispatch/dispatcher.go) searches for the nearest available driver, locks it, makes it busy
-- and records the assignment; it cancels and ends rides, and takes position updates. A hub
-- (internal/realtime) keeps the WebSocket connections of drivers and riders in memory and sends each
-- position of a driver to the riders that have subscribed to it; messages of a driver's connection go
-- to the dispatcher's handlers. The server (internal/server) puts the services together, answers HTTP
-- requests, opens the connections, and lends the demo to one browser session at a time; it also has a
-- pool of workers. cmd/server gives each path its handler.
--
-- Files:
--   Prelude     shared names, Boolean tests, texts with fmt.Sprintf("%s:%s") as `join_key`, integers
--   Result      the error values of the packages, and results
--   Redis       the Redis commands that the program sends, as a parameter with their documented
--               laws; Redis/Memory is a server in memory that meets them, Redis/Frame says what a
--               command leaves alone
--   Float       float64 with the parts of math and strconv that are used, as a parameter;
--               Float/Degrees is an instance
--   Client      round trips: a call is served atomically, or refused, or its answer is lost, and other
--               clients act before it. Client/Keeps is for what a part keeps under such turns,
--               Client/Reads, Client/Decides and Client/Achieves for parts that run alone
--   Lock        internal/dispatch/lock.go, with its laws in Lock/Laws
--   Driver      internal/driver/driver.go, with its laws in Driver/Laws, Driver/Statuses
--               and Driver/Scans
--   Geo         internal/geospatial/geo.go, over the GEO commands as a parameter: they refuse the
--               positions that Redis documents as invalid; Geo/Memory is an index in memory,
--               Geo/Laws has its laws
--   Lifecycle   internal/dispatch/lifecycle.go: Types (data and keys), Scripts (the Lua scripts),
--               Manager (the methods), Keys (when keys differ), Guards (what holds where a script
--               writes), Creating, Cancelling and Arriving (what each script leaves), Records,
--               Cancellation and Arrival (the methods), Exclusive and the modules that keep it,
--               Resetting (what the reset of a rider leaves alone)
--   Dispatcher  internal/dispatch/dispatcher.go: Types, Assign (tryAssignDriver, ReleaseDriver), Search
--               (FindAndAssign), Rides (the other operations), Wiring (how its services agree),
--               Commands (the round trips that write, and expiry), and the theorems:
--               Runs, Interleaving and Safety on any interleaving, Moves, Transitions and Settled
--               on the life of an assignment, Reaching, Assigned, Returning and Nearest on the
--               search, Endings and Running on cancelling and arriving, Locating on position updates
--   Ratelimiter internal/ratelimiter: the script and its callers; Ratelimiter/Numbers is what Lua and
--               Go make of numbers, as a parameter, and Ratelimiter/Budgets has the theorems
--   Realtime    internal/realtime: Messages (messages.go), Clients and Handling (client.go), Registry,
--               Systems and Hub (hub.go), Running (the goroutines as steps of one state), and the
--               theorems: Tame, Quiet, Reading, Sending, Naming, Sound, Steps and Bounds on any run,
--               Kept and Lasting on connections that stay, Replacing, Broadcast, Publishing, and Book,
--               the abstract view of who is connected
--   Server      the dispatcher and the hub of internal/server/server.go, with their keys in
--               Server/Wiring. Http has requests and responses; Dispatching
--               (dispatch_handlers.go), Positions (geo_handlers.go), Limits (ratelimit_handlers.go),
--               Demo (demo_handler.go) and Sockets (ws_handlers.go) have the handlers, Workers and
--               Calls have worker.go, and Routes has cmd/server/main.go. Safe is on GET requests, Refusals and
--               its children on requests that are refused, Leases on the demo's lease, Conserving on
--               the jobs of the pool, and Collecting, Waiting and Finishing on a call that waits
--               for its results
--   Tests       concrete runs
--
-- Operations are functions on a world: the database, and the turns to come, each with what other
-- clients do before a round trip and how that round trip ends. An interleaving of several clients is a
-- list of operations with such turns, which are lists of the commands of Dispatcher/Commands. A Lua script is one step. Times to
-- live are in nanoseconds; a script or EXPIRE gets whole seconds. Expiry is a command of its own, with
-- no clock; an active key is taken not to expire while the assignment that it names is en route, since
-- one script gives both the same time to live. A duration is not negative. `uuid.New` is an argument.
-- Log lines and contexts are left out.
--
-- In the hub, clients are objects at pointers into a heap. Each step is one case of a goroutine's
-- select, or one critical section, and a run is a list of steps in any order. Where a select may take
-- either of two cases, an argument `pick` decides. The readers that wait to send to the full queue of
-- the broadcast are a list. The buffer of a client is a list with the capacity of the channel, and a
-- flag says whether the client is closed. Counters of type int64 are natural numbers, since they count
-- connections. In the pool, a send hands its value to a receiver that waits, or to the buffer. A
-- request is served in one step on the connections; a body is the value that is encoded, and a
-- request's body is decoded by a parameter. The HTTP library, encoding/json, url.Parse and the upgrade
-- of a connection are parameters.
--
-- The loop over SCAN recurses on fuel and answers `none` when that runs out. Each page that the server
-- gives takes one unit, so as many units as pages are enough. All other loops are structural.
--
-- Not modelled: the sockets with their deadlines and pings, the messages that nothing sends, the demo
-- page, and the start of the process with its signals, its shutdown and its health check. Redis, the
-- GEO index and floating point are parameters, as the program calls them and does not implement them.
-- The reset of a rider is modelled, but is no operation of the runs of the dispatcher.
pub mod Prelude
pub mod Result
pub mod Redis
pub mod Client
pub mod Lock
pub mod Driver
pub mod Float
pub mod Geo
pub mod Lifecycle
pub mod Dispatcher
pub mod Ratelimiter
pub mod Realtime
pub mod Server
pub mod Tests
