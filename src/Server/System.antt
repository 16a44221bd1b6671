-- ===== src/Server/System.antt =====
-- The threads of the server, interleaved: receive handlers, packet jobs, the sections of the network
-- plugin's tick, and a derived class that releases what it was given.
use sekkeizu.Base.{ℕ, ◌%◌, ◌^◌, ◌≡◌, false, Option, none, some, List, [], ◌∷◌, ◌++◌, length}
use sekkeizu.Network.Defs as Net
use sekkeizu.Network.Defs.{
  Local, Event, new_client, client_inputs, post_network_tick, on_disconnected, Derived, new_plugin,
  disconnect, get_local,
}
use sekkeizu.Network.Tick.{announce, run_clients, post_tick, drop_endpoint}
use sekkeizu.Network.Threads.System.{accumulate_local, blanks}
use sekkeizu.Pool.Defs.{QueueApi, HeapApi}
use sekkeizu.Coreloop.Receive.{Datagram, Receive, Memory, handle_connections, on_receive}
use sekkeizu.Coreloop.Operations.{release_network_buffer}
use sekkeizu.Server.Hooks.{PacketJob, World, core_loop_impl, run_packet}

-- One section of the network plugin's tick, with the callbacks that it makes; or a request for a
-- disconnect.
pub data Section (d : Derived) (p q : Net.Plugin) (events : List Event) : Type 0 where
  asks : (endpoint : ℕ) → q ≡ disconnect endpoint p → events ≡ [] → Section d p q events
  announces : q ≡ (announce d p).0 → events ≡ (announce d p).1 → Section d p q events
  accumulates :
      (idx : ℕ) (l : Local)
      → get_local idx p.locals ≡ some l
      → q ≡ accumulate_local idx l p
      → events ≡ []
      → Section d p q events
  runs : q ≡ (run_clients d p).0 → events ≡ (run_clients d p).1 → Section d p q events
  posts :
      (diff : ℕ)
      → q ≡ (post_tick d diff p).0
      → events ≡ (post_tick d diff p).1
      → Section d p q events
  drops :
      (endpoint : ℕ)
      → drop_endpoint endpoint p ≡ some q
      → events ≡ on_disconnected endpoint ∷ []
      → Section d p q events
  clears : q ≡ record p { pending_disconnects = [] } → events ≡ [] → Section d p q events

-- The buffers that callbacks hand to the derived class.
abbrev pub handed : List Event → List ℕ
handed [] = []
handed (client_inputs _ buffers ∷ events) = buffers ++ handed events
handed (new_client _ ∷ events) = handed events
handed (post_network_tick _ ∷ events) = handed events
handed (on_disconnected _ ∷ events) = handed events

-- The pools with the plugins, the pending receives in the order of `unique_id`, and the buffers that
-- the derived class was given and did not release yet.
pub record Server (Q H : Type 0) : Type 0 where
  pub memory : Memory Q H World
  pub receives : List Receive
  pub given : List ℕ

-- A server with empty pools, over a queue with nothing in it and heaps that gave nothing out.
abbrev pub fresh : {Q H : Type 0} → Q → H → Q → H → ℕ → Server Q H
fresh free heap free_e heap_e threads = record {
  memory = record {
    data_mempool = record { free_objects = free; heap = heap; objects = λ _. none };
    endpoints_mempool = record { free_objects = free_e; heap = heap_e; objects = λ _. none };
    plugins = record {
      network = new_plugin (blanks threads);
      events = [];
      jobs = [];
      elapsed = 0;
      scheduled = [];
      aborted = false;
    };
  };
  receives = [];
  given = [];
}

module _ {Q H : Type 0} (queue : QueueApi Q) (pools : HeapApi H) where
  abbrev pub IsUnused : Q → H → Type 0
  IsUnused free heap = (x : ℕ) → (queue.copies x free ≡ 0) × (pools.is_allocated x heap ≡ false)

module _ {Q H : Type 0} (queue : QueueApi Q) (pools : HeapApi H) (d : Derived)
    (user_tick : ℕ → World → World) where
  pub data Step (s t : Server Q H) : Type 0 where
    -- `start` begins to receive for one more network thread.
    opens :
        (thread : ℕ) (r : Receive) (m : Memory Q H World)
        → handle_connections queue pools (core_loop_impl d user_tick) thread s.memory ≡ some (r, m)
        → t ≡ record s { memory = m; receives = s.receives ++ r ∷ [] }
        → Step s t
    -- The handler of a pending receive runs, on some thread, with its place as a uint8_t; a failed assertion ends the program.
    receives :
        (before after : List Receive) (thread : ℕ) (r r' : Receive) (outcome : Option Datagram)
        (m : Memory Q H World)
        → s.receives ≡ before ++ r ∷ after
        → on_receive queue pools
            (core_loop_impl d user_tick)
            thread
            (length before % 2 ^ 8)
            r
            outcome
            s.memory
          ≡ some (r', m)
        → m.plugins.aborted ≡ false
        → t ≡ record s { memory = m; receives = before ++ r' ∷ after }
        → Step s t
    -- A packet job runs, in whatever order the core pool takes them.
    runs_packet :
        (before after : List PacketJob) (job : PacketJob) (m : Memory Q H World)
        → s.memory.plugins.jobs ≡ before ++ job ∷ after
        → run_packet queue pools job
            (record (s.memory) { plugins = record (s.memory.plugins) { jobs = before ++ after } })
          ≡ some m
        → t ≡ record s { memory = m }
        → Step s t
    ticks :
        (q : Net.Plugin) (events : List Event)
        → Section d s.memory.plugins.network q events
        → t ≡ record s {
          memory = record (s.memory) {
            plugins = record (s.memory.plugins) {
              network = q;
              events = s.memory.plugins.events ++ events;
            };
          };
          given = s.given ++ handed events;
        }
        → Step s t
    -- `release_network_buffer`, called by the derived class on a buffer that it was given.
    releases :
        (before after : List ℕ) (buffer : ℕ) (m : Memory Q H World)
        → s.given ≡ before ++ buffer ∷ after
        → release_network_buffer queue pools buffer s.memory ≡ some m
        → t ≡ record s { memory = m; given = before ++ after }
        → Step s t

  pub data Reach : Server Q H → Type 0 where
    start :
        (free : Q) (heap : H) (free_e : Q) (heap_e : H) (threads : ℕ)
        → IsUnused queue pools free heap
        → IsUnused queue pools free_e heap_e
        → Reach (fresh free heap free_e heap_e threads)
    next : {s t : Server Q H} → Reach s → Step s t → Reach t
