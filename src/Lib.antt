-- ===== src/Lib.antt =====
-- Sekkeizu, the core of a game server: a main loop with plugins, input over UDP, and writes to
-- MongoDB in batches.
--
-- How the parts work together. `core_loop` (src/core/coreloop.hpp) receives packets on network
-- threads, with buffers from a memory pool (src/memory/per_thread_pool.hpp), and hands them to its
-- plugins; in its main loop it calls the hooks of the plugins and sleeps. The network plugin
-- (src/core/coreloop_network_plugin.hpp) sorts the buffers by endpoint, per thread first, and
-- delivers them in `tick`. An object of the game keeps a `transaction` (src/database/transaction.hpp)
-- with the operations on its document, in order for each collection; its `update` hands batches of
-- them, as jobs, to the pool of the `database` (src/database/database.hpp). A document is read into
-- a struct by src/database/bson_reflection_struct.hpp.
--
-- Which module models what.
--   Base: tests on numbers, hash maps as association lists (`_collections`, `_pending_inputs`), maps
--     that are only read and written at a key as functions (`transactions`), machine words.
--   Transaction: src/database/transaction.hpp. Types has `transaction_info`, `collection_info` and
--     `transaction`; Push the four pushes; Pending `get_transaction` and `get_pending_operations`;
--     Update `init`, `update` and the deletion flags; Jobs the two lambdas that `update` hands on.
--     System has the steps of one object under every interleaving of pushes, updates, flags and
--     jobs, where the database, the clock and the other objects do what they like. The other
--     modules are proofs: Window, Progress and Scanned on one scan, Batch on its result, Moved, Sends
--     and Runs on what goes out and is done, Invariant and Steps and Initial on all states, Order,
--     Deletion, Waits and Counter on what follows; Carried, Supply, Supplied,
--     Runnable and Executed are on what a job finds when it runs, Handover on when one is handed on.
--   Database: src/database/database.hpp. Defs has the collections, `init` and `execute`; Connected
--     is on what `execute` pushes; Ids has `get_potentially_unique_id`; Creation has
--     `ensure_creation_impl`; Jobs has the overloads of `ensure_creation` and the jobs that they push,
--     Pushed and Ensure are on one call and its job; Session has calls and jobs in any order, and
--     Unique is on their ids.
--   Network: src/core/coreloop_network_plugin.hpp. Defs has the state, the packet job and
--     `disconnect`; Tick has `tick`, section by section; Valid, TickValid, Disconnect, Conserve,
--     Delivery, Ticks and Drain are proofs. Threads has packet jobs and requests for disconnects
--     between the sections of a tick: System has the steps; Vectors, Locals, Given, Invariant, Drops and Packets are
--     on the order of the buffers, Sections on what a section keeps, Order and Progress on all states.
--   Pool: src/memory/per_thread_pool.hpp. Defs has `get` and `release`; Blocks is on who owns a block,
--     Lives on which objects live.
--   Coreloop: src/core/coreloop.hpp. Hooks has the proxies, and the plugins of
--     src/core/coreloop_user_tick_plugin.hpp and src/core/coreloop_palanteer_tick_time.hpp; Loop has
--     the main loop, Once what it does to one plugin; Receive and Received have
--     `handle_connections`, Start the loop of `start` over the network threads; Operations has `execute`
--     and the release functions, Sending has `send_data`; Stop has `start` and `stop` as
--     steps of the threads, Stages what holds in each of their states, Shutdown how they end; Scheduled has src/core/coreloop_scheduled_tick.hpp.
--   Server: the parts together. Hooks has the plugins of `core_loop_impl` (src/main.cpp) as hooks of
--     the loop, and the packet job with its release of the endpoint; System has the receive handlers,
--     the packet jobs, the sections of the tick and the releases of a derived class as steps on one
--     state with both pools. Begin is on `start`; Receives, Packets and Sections are on one step each;
--     Owned, Handed and Ownership on who carries a pointer; Sound and Stored on the packet jobs. Main
--     and Schedule run the main loop over the plugins of src/main.cpp.
--   Bson: src/database/bson_reflection_struct.hpp. Hash has `hash_of_c_string`; Visit the visitor;
--     Members and Visits which member it writes; Fields has `fields`.
--   FixedString: src/core/fixed_string.hpp.
--
-- Parameters. Code of other libraries is an argument of the definitions that use it: the BSON library
-- and the type of callables (`B` and `C` in Transaction, with `BsonApi`), the concurrent queue and the
-- block pools (`QueueApi`, `HeapApi`), the cipher and the server's collection (`CipherApi`,
-- `CollectionApi`), arithmetic on float (`FloatApi`), iterators over documents, nested structs and the
-- conversions between arithmetic types (`VisitApi`), and what a derived class does in its callbacks
-- (`Derived`), the MongoDB server and its client pool, and BSON documents by pointer (`ServerApi`,
-- `ClientPoolApi`, `BsonApi` in Database). Their laws state what these libraries
-- document; the tests have an instance of each.
--
-- Bounds and fuel. Ids are 64-bit words that wrap; the scan has as fuel the distance from `first_id`
-- to `current_id`, after which its loop is over. The states of a transaction are those in which no
-- collection has had 2^64 pushes. The counter of pending callables wraps at 256. The loop of
-- `ensure_creation_impl` has one reading of the clock for each round, as many as one likes. Times in
-- Coreloop are far below the 2^63 units that they hold, and do not wrap.
--
-- Steps. A function, or a section of `tick`, that holds a lock for as long as it works is one step, and so
-- are the jobs of the clients, which `tick` waits for. In Network.Threads and in Server the steps of the
-- threads interleave freely; Network.Tick has the sections of a tick with nothing in between, as in
-- Drain and in the main loop of Server.Main. A handler of the socket, a release, and a job are one step
-- each. In Server.System the sections of a tick come in any order, and a disconnect may come at any
-- time, which are more runs than the code has. The job of a packet runs on the core pool, so jobs may
-- run in another order than their packets came in: the order of buffers in Network.Threads is that of
-- the jobs. In Coreloop.Stop each call behind the main loop is a step, and so is each worker that
-- leaves a pool that was ended and each thread that leaves the stopped context, as their libraries
-- document it: a worker with a job, such as the main loop, stays until the job is over.
--
-- Not modelled: sockets, threads, the I/O context and the fiber pools themselves, which are libraries;
-- the hash of an endpoint; destructors and move operations; `serialize` (it does not compile for a
-- scalar); and the body of `main`, which constructs the objects and calls `start`.
pub mod Base
pub mod Database
pub mod Transaction
pub mod Network
pub mod Pool
pub mod Coreloop
pub mod Bson
pub mod FixedString
pub mod Server
