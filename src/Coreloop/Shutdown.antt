-- ===== src/Coreloop/Shutdown.antt =====
-- What `stop` of core/coreloop.hpp guarantees.
use sekkeizu.Base.{ℕ, zero, suc, ◌+◌, ◌<◌, ◌≡◌, ◌≢◌, refl, ap, ◌⊎◌, inl, inr, true, false, arith}
use sekkeizu.Coreloop.Stop.{
  Loop, ticking, ending_core_pool, ending_database_pool, stopping_context, joining_network,
  finished, Waiter, absent, joins_core_pool, joins_database_pool, at_barrier, returned, Server,
  end_core_pool, end_database_pool, stop_context, network_joined, stop, core_pool_joined,
  database_pool_joined, Step, ticks, leaves, ends_core_pool, ends_database_pool, stops_context,
  joins_network, core_worker_leaves, database_worker_leaves, network_thread_returns, stops,
  start_joins_core_pool, start_joins_database_pool, stop_joins_core_pool, stop_joins_database_pool,
  meet, Reach,
}
use sekkeizu.Coreloop.Stages.{looping, IsServer, Reach-IsServer}

-- The job of the main loop is over, both pools were ended and all of their workers have left, and no
-- network thread is left in the context.
abbrev pub IsDown : Server → Type 0
IsDown s =
    (s.loop ≡ finished)
    × (s.core_pool_ended ≡ true)
    × (s.core_workers ≡ 0)
    × (s.database_pool_ended ≡ true)
    × (s.database_workers ≡ 0)
    × (s.context_stopped ≡ true)
    × (s.network_threads ≡ 0)

joined-IsDown : {s : Server} → IsServer s → s.core_workers ≡ 0 → s.database_workers ≡ 0 → IsDown s
joined-IsDown {s} v core database =
    let (told, database_told, stopped, gone, over) = v.ending in
    let ended : s.loop ≡ finished = over core in
    let last : looping s.loop ≡ 0 = ap looping ended in
    (
      ended,
      told (omega arith),
      core,
      database_told (omega arith),
      database,
      stopped (omega arith),
      gone (omega arith),
    )

-- Once `stop` has returned, `end` was called on both pools and all of their workers have left, the
-- job of the main loop is over, and no network thread is left in the context, whichever thread
-- joined the pools.
pub stop-IsDown : {s : Server} → Reach s → s.stopper ≡ returned → IsDown s
stop-IsDown r h =
    let v = Reach-IsServer r in let (core, database) = v.joined.3 h in joined-IsDown v core database

-- A `start` that joins the pools returns together with `stop`.
pub start-IsDown :
    {s : Server}
    → Reach s
    → s.must_join_during_stop ≡ false
    → s.starter ≡ returned
    → (s.stopper ≡ returned) × IsDown s
start-IsDown r m h =
    let (starts, core, database, together, back) = (Reach-IsServer r).waits.1 m in
    (together h, stop-IsDown r (together h))

-- The steps that are left at most: those of the loop, of the waiters, of the workers and of the
-- network threads.
abbrev pub waiting : Waiter → ℕ
waiting absent = 0
waiting joins_core_pool = 3
waiting joins_database_pool = 2
waiting at_barrier = 1
waiting returned = 0

abbrev pub remaining : Server → ℕ
remaining s =
    looping s.loop
    + waiting s.starter
    + waiting s.stopper
    + s.core_workers
    + s.database_workers
    + s.network_threads

decreases : {s t : Server} → IsServer s → s.stopper ≢ absent → Step s t → remaining t < remaining s
unfolding end_core_pool end_database_pool stop_context stop
decreases v h (ticks a b) = absurd (ground (arith, v.stopping))
decreases v h (leaves a b) = ground arith
decreases v h (ends_core_pool a) = ground arith
decreases v h (ends_database_pool a) = ground arith
decreases v h (stops_context a) = ground arith
decreases v h (joins_network a b) = ground arith
decreases v h (core_worker_leaves n a b c) = ground arith
decreases v h (database_worker_leaves n a b) = ground arith
decreases v h (network_thread_returns n a b) = ground arith
decreases v h (stops a) = absurd (h a)
decreases v h (start_joins_core_pool a b) = ground arith
decreases v h (start_joins_database_pool a b) = ground arith
decreases v h (stop_joins_core_pool a b) = ground arith
decreases v h (stop_joins_database_pool a b) = ground arith
decreases v h (meet a b) = ground arith

number-cases : (n : ℕ) → (n ≡ 0) ⊎ ((k : ℕ) × (n ≡ suc k))
number-cases zero = inl refl
number-cases (suc n) = inr (n, refl)

loop-cases :
    (l : Loop)
    → (l ≡ ticking)
      ⊎ (l ≡ ending_core_pool)
      ⊎ (l ≡ ending_database_pool)
      ⊎ (l ≡ stopping_context)
      ⊎ (l ≡ joining_network)
      ⊎ (l ≡ finished)
loop-cases ticking = inl refl
loop-cases ending_core_pool = inr (inl refl)
loop-cases ending_database_pool = inr (inr (inl refl))
loop-cases stopping_context = inr (inr (inr (inl refl)))
loop-cases joining_network = inr (inr (inr (inr (inl refl))))
loop-cases finished = inr (inr (inr (inr (inr refl))))

waiter-cases :
    (w : Waiter)
    → (w ≡ absent)
      ⊎ (w ≡ joins_core_pool)
      ⊎ (w ≡ joins_database_pool)
      ⊎ (w ≡ at_barrier)
      ⊎ (w ≡ returned)
waiter-cases absent = inl refl
waiter-cases joins_core_pool = inr (inl refl)
waiter-cases joins_database_pool = inr (inr (inl refl))
waiter-cases at_barrier = inr (inr (inr (inl refl)))
waiter-cases returned = inr (inr (inr (inr refl)))

abbrev Proceeds : Server → Type 0
Proceeds s = ((s.stopper ≡ returned) × (s.starter ≡ returned)) ⊎ ((t : Server) × Step s t)

-- Where all workers have left.
waiters-Proceeds :
    {s : Server}
    → IsServer s
    → s.stopper ≢ absent
    → s.core_workers ≡ 0
    → s.database_workers ≡ 0
    → Proceeds s
unfolding core_pool_joined database_pool_joined
waiters-Proceeds {s} v h core database =
    let waits = v.waits in
    let core_joined : core_pool_joined s ≡ true = ground arith in
    let database_joined : database_pool_joined s ≡ true = ground arith in
    elim (waiter-cases s.stopper) [
      | inl a ↦ absurd (h a)
      | inr (inl a) ↦ inr (_, stop_joins_core_pool a core_joined)
      | inr (inr (inl a)) ↦ inr (_, stop_joins_database_pool a database_joined)
      | inr (inr (inr (inl a))) ↦ elim (waiter-cases s.starter) [
        | inl b ↦ absurd (ground arith)
        | inr (inl b) ↦ inr (_, start_joins_core_pool b core_joined)
        | inr (inr (inl b)) ↦ inr (_, start_joins_database_pool b database_joined)
        | inr (inr (inr (inl b))) ↦ inr (_, meet b a)
        | inr (inr (inr (inr b))) ↦ absurd (ground arith)
      ]
      | inr (inr (inr (inr a))) ↦ inl (a, ground arith)
    ]

-- Where the loop is over.
workers-Proceeds : {s : Server} → IsServer s → s.stopper ≢ absent → s.loop ≡ finished → Proceeds s
workers-Proceeds {s} v h over =
    let last : looping s.loop ≡ 0 = ap looping over in
    elim (number-cases s.core_workers) [
      | inr (workers, more) ↦
          inr (_, core_worker_leaves workers (v.ending.0 (omega arith)) more (λ e. over))
      | inl core ↦ elim (number-cases s.database_workers) [
        | inr (workers, more) ↦
            inr (_, database_worker_leaves workers (v.ending.1 (omega arith)) more)
        | inl database ↦ waiters-Proceeds v h core database
      ]
    ]

proceeds : {s : Server} → IsServer s → s.stopper ≢ absent → Proceeds s
unfolding network_joined
proceeds {s} v h = elim (loop-cases s.loop) [
  | inl a ↦ inr (_, leaves a (v.stopping.1 h))
  | inr (inl a) ↦ inr (_, ends_core_pool a)
  | inr (inr (inl a)) ↦ inr (_, ends_database_pool a)
  | inr (inr (inr (inl a))) ↦ inr (_, stops_context a)
  | inr (inr (inr (inr (inl a)))) ↦ elim (number-cases s.network_threads) [
    | inl gone ↦ inr (_, joins_network a (ground arith))
    | inr (threads, more) ↦
        let last : looping s.loop ≡ 1 = ap looping a in
        inr (_, network_thread_returns threads (v.ending.2 (omega arith)) more)
  ]
  | inr (inr (inr (inr (inr a)))) ↦ workers-Proceeds v h a
]

-- Once `stop` was called the end comes: as long as not both threads have returned some step can be
-- taken, and every step leaves fewer. A worker without a job is taken to leave a pool that was ended,
-- and a network thread to leave a context that was stopped.
pub stop-ends :
    {s : Server}
    → Reach s
    → s.stopper ≢ absent
    → (((s.stopper ≡ returned) × (s.starter ≡ returned)) ⊎ ((t : Server) × Step s t))
      × ((t : Server) → Step s t → remaining t < remaining s)
stop-ends r h = let v = Reach-IsServer r in (proceeds v h, λ t x. decreases v h x)
