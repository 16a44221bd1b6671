-- ===== src/Coreloop/Stop.antt =====
-- `start` and `stop` of core/coreloop.hpp as steps of the threads that take part: the one that
-- called `start`, the main loop, the one that calls `stop` afterwards, once, the workers of both
-- pools and the network threads.
use sekkeizu.Base.{ℕ, suc, ◌≡◌, Bool, true, false, not, ◌==◌, if◌then◌else◌}

-- Where the job of the main loop is: in the loop, or before one of the calls behind it, in their
-- order.
pub data Loop : Type 0 where
  ticking : Loop
  ending_core_pool : Loop
  ending_database_pool : Loop
  stopping_context : Loop
  joining_network : Loop
  finished : Loop

-- Where a thread is that waits for the end: it joins the one pool, then the other, or waits at the
-- barrier of two.
pub data Waiter : Type 0 where
  absent : Waiter
  joins_core_pool : Waiter
  joins_database_pool : Waiter
  at_barrier : Waiter
  returned : Waiter

-- `core_pool_ended` and `database_pool_ended` say that `end` was called on the pool, and the workers
-- of a pool are the threads that a `join` waits for. The network threads are those that are in `run`
-- of the context.
pub record Server : Type 0 where
  pub running : Bool
  pub must_join_during_stop : Bool
  pub loop : Loop
  pub core_pool_ended : Bool
  pub core_workers : ℕ
  pub database_pool_ended : Bool
  pub database_workers : ℕ
  pub context_stopped : Bool
  pub network_threads : ℕ
  pub starter : Waiter
  pub stopper : Waiter

-- `start`, up to the join of the pools, which begins where `join_pools` is set. One worker of the
-- core pool has the main loop, and there are `helpers` more; a database pool that is not started has
-- no workers.
abbrev pub started : Bool → ℕ → ℕ → ℕ → Server
started join_pools helpers database_workers network_threads = record {
  running = true;
  must_join_during_stop = not join_pools;
  loop = ticking;
  core_pool_ended = false;
  core_workers = suc helpers;
  database_pool_ended = false;
  database_workers = database_workers;
  context_stopped = false;
  network_threads = network_threads;
  starter = if join_pools then joins_core_pool else returned;
  stopper = absent;
}

-- Behind the loop.
unfoldable pub end_core_pool : Server → Server
end_core_pool s = record s { core_pool_ended = true; loop = ending_database_pool }

unfoldable pub end_database_pool : Server → Server
end_database_pool s = record s { database_pool_ended = true; loop = stopping_context }

unfoldable pub stop_context : Server → Server
stop_context s = record s { context_stopped = true; loop = joining_network }

-- The joins of the network threads return once none of them is in `run` any more.
unfoldable pub network_joined : Server → Bool
network_joined s = s.network_threads == 0

-- `stop`, up to its first wait.
unfoldable pub stop : Server → Server
stop s = record s {
  running = false;
  stopper = if s.must_join_during_stop then joins_core_pool else at_barrier;
}

-- `join` of a pool returns once all of its workers have left.
unfoldable pub core_pool_joined : Server → Bool
core_pool_joined s = s.core_workers == 0

unfoldable pub database_pool_joined : Server → Bool
database_pool_joined s = s.database_workers == 0

pub data Step : Server → Server → Type 0 where
  ticks : {s : Server} → s.loop ≡ ticking → s.running ≡ true → Step s s
  leaves :
      {s : Server}
      → s.loop ≡ ticking
      → s.running ≡ false
      → Step s (record s { loop = ending_core_pool })
  ends_core_pool : {s : Server} → s.loop ≡ ending_core_pool → Step s (end_core_pool s)
  ends_database_pool : {s : Server} → s.loop ≡ ending_database_pool → Step s (end_database_pool s)
  stops_context : {s : Server} → s.loop ≡ stopping_context → Step s (stop_context s)
  joins_network :
      {s : Server}
      → s.loop ≡ joining_network
      → network_joined s ≡ true
      → Step s (record s { loop = finished })
  -- A worker leaves a pool on which `end` was called, when it has no job. The main loop is a job of
  -- the last worker of the core pool.
  core_worker_leaves :
      {s : Server} (workers : ℕ)
      → s.core_pool_ended ≡ true
      → s.core_workers ≡ suc workers
      → (workers ≡ 0 → s.loop ≡ finished)
      → Step s (record s { core_workers = workers })
  database_worker_leaves :
      {s : Server} (workers : ℕ)
      → s.database_pool_ended ≡ true
      → s.database_workers ≡ suc workers
      → Step s (record s { database_workers = workers })
  -- `run` of a context returns once it was stopped.
  network_thread_returns :
      {s : Server} (threads : ℕ)
      → s.context_stopped ≡ true
      → s.network_threads ≡ suc threads
      → Step s (record s { network_threads = threads })
  stops : {s : Server} → s.stopper ≡ absent → Step s (stop s)
  start_joins_core_pool :
      {s : Server}
      → s.starter ≡ joins_core_pool
      → core_pool_joined s ≡ true
      → Step s (record s { starter = joins_database_pool })
  start_joins_database_pool :
      {s : Server}
      → s.starter ≡ joins_database_pool
      → database_pool_joined s ≡ true
      → Step s (record s { starter = at_barrier })
  stop_joins_core_pool :
      {s : Server}
      → s.stopper ≡ joins_core_pool
      → core_pool_joined s ≡ true
      → Step s (record s { stopper = joins_database_pool })
  stop_joins_database_pool :
      {s : Server}
      → s.stopper ≡ joins_database_pool
      → database_pool_joined s ≡ true
      → Step s (record s { stopper = returned })
  meet :
      {s : Server}
      → s.starter ≡ at_barrier
      → s.stopper ≡ at_barrier
      → Step s (record s { starter = returned; stopper = returned })

pub data Reach : Server → Type 0 where
  begin :
      (join_pools : Bool) (helpers database_workers network_threads : ℕ)
      → Reach (started join_pools helpers database_workers network_threads)
  step : {s t : Server} → Reach s → Step s t → Reach t
