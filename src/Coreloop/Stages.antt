-- ===== src/Coreloop/Stages.antt =====
-- What holds in every state of `start` and `stop` of core/coreloop.hpp.
use sekkeizu.Base.{ℕ, ◌<◌, ◌≡◌, ◌≢◌, Bool, true, false, arith}
use sekkeizu.Coreloop.Stop.{
  Loop, ticking, ending_core_pool, ending_database_pool, stopping_context, joining_network,
  finished, absent, joins_core_pool, joins_database_pool, at_barrier, returned, Server, started,
  end_core_pool, end_database_pool, stop_context, network_joined, stop, core_pool_joined,
  database_pool_joined, Step, ticks, leaves, ends_core_pool, ends_database_pool, stops_context,
  joins_network, core_worker_leaves, database_worker_leaves, network_thread_returns, stops,
  start_joins_core_pool, start_joins_database_pool, stop_joins_core_pool, stop_joins_database_pool,
  meet, Reach, begin, step,
}

-- The steps that the main loop has left at most.
abbrev pub looping : Loop → ℕ
looping ticking = 5
looping ending_core_pool = 4
looping ending_database_pool = 3
looping stopping_context = 2
looping joining_network = 1
looping finished = 0

-- The loop is left after `stop`.
abbrev pub IsStopping : Server → Type 0
IsStopping s =
    (s.stopper ≡ absent → s.running ≡ true)
    × (s.stopper ≢ absent → s.running ≡ false)
    × (looping s.loop < 5 → s.stopper ≢ absent)

-- What the calls behind the loop have done so far.
abbrev pub IsEnding : Server → Type 0
IsEnding s =
    (looping s.loop < 4 → s.core_pool_ended ≡ true)
    × (looping s.loop < 3 → s.database_pool_ended ≡ true)
    × (looping s.loop < 2 → s.context_stopped ≡ true)
    × (looping s.loop < 1 → s.network_threads ≡ 0)
    × (s.core_workers ≡ 0 → s.loop ≡ finished)

-- Who waits how: only the thread that does not join in `stop` joins in `start`, and waits at the
-- barrier.
abbrev pub IsWaiting : Server → Type 0
IsWaiting s =
    (s.must_join_during_stop ≡ true → (s.starter ≡ returned) × (s.stopper ≢ at_barrier))
    × (s.must_join_during_stop ≡ false
        → (s.starter ≢ absent)
          × (s.stopper ≢ joins_core_pool)
          × (s.stopper ≢ joins_database_pool)
          × (s.starter ≡ returned → s.stopper ≡ returned)
          × (s.stopper ≡ returned → s.starter ≡ returned))

-- What has been joined where a thread waits.
abbrev pub IsJoined : Server → Type 0
IsJoined s =
    (s.starter ≡ joins_database_pool → s.core_workers ≡ 0)
    × (s.stopper ≡ joins_database_pool → s.core_workers ≡ 0)
    × (s.starter ≡ at_barrier → (s.core_workers ≡ 0) × (s.database_workers ≡ 0))
    × (s.stopper ≡ returned → (s.core_workers ≡ 0) × (s.database_workers ≡ 0))

pub record IsServer (s : Server) : Type 0 where
  pub stopping : IsStopping s
  pub ending : IsEnding s
  pub waits : IsWaiting s
  pub joined : IsJoined s

begin-IsServer :
    (join_pools : Bool) (helpers database_workers network_threads : ℕ)
    → IsServer (started join_pools helpers database_workers network_threads)
begin-IsServer true helpers database_workers network_threads = record {
  stopping = ground arith;
  ending = ground arith;
  waits = ground arith;
  joined = ground arith;
}
begin-IsServer false helpers database_workers network_threads = record {
  stopping = ground arith;
  ending = ground arith;
  waits = ground arith;
  joined = ground arith;
}

Step-IsStopping : {s t : Server} → IsStopping s → Step s t → IsStopping t
unfolding end_core_pool end_database_pool stop_context stop
Step-IsStopping v (ticks a b) = v
Step-IsStopping v (leaves a b) = ground arith
Step-IsStopping v (ends_core_pool a) = ground arith
Step-IsStopping v (ends_database_pool a) = ground arith
Step-IsStopping v (stops_context a) = ground arith
Step-IsStopping v (joins_network a b) = ground arith
Step-IsStopping v (core_worker_leaves n a b c) = v
Step-IsStopping v (database_worker_leaves n a b) = v
Step-IsStopping v (network_thread_returns n a b) = v
Step-IsStopping v (stops a) = ground arith
Step-IsStopping v (start_joins_core_pool a b) = v
Step-IsStopping v (start_joins_database_pool a b) = v
Step-IsStopping v (stop_joins_core_pool a b) = ground arith
Step-IsStopping v (stop_joins_database_pool a b) = ground arith
Step-IsStopping v (meet a b) = ground arith

Step-IsEnding : {s t : Server} → IsEnding s → Step s t → IsEnding t
unfolding end_core_pool end_database_pool stop_context network_joined stop
Step-IsEnding v (ticks a b) = v
Step-IsEnding v (leaves a b) = ground arith
Step-IsEnding v (ends_core_pool a) = ground arith
Step-IsEnding v (ends_database_pool a) = ground arith
Step-IsEnding v (stops_context a) = ground arith
Step-IsEnding v (joins_network a b) = ground arith
Step-IsEnding v (core_worker_leaves n a b c) = ground arith
Step-IsEnding v (database_worker_leaves n a b) = v
Step-IsEnding v (network_thread_returns n a b) = ground arith
Step-IsEnding v (stops a) = v
Step-IsEnding v (start_joins_core_pool a b) = v
Step-IsEnding v (start_joins_database_pool a b) = v
Step-IsEnding v (stop_joins_core_pool a b) = v
Step-IsEnding v (stop_joins_database_pool a b) = v
Step-IsEnding v (meet a b) = v

Step-IsWaiting : {s t : Server} → IsWaiting s → Step s t → IsWaiting t
unfolding end_core_pool end_database_pool stop_context stop
Step-IsWaiting v (ticks a b) = v
Step-IsWaiting v (leaves a b) = v
Step-IsWaiting v (ends_core_pool a) = v
Step-IsWaiting v (ends_database_pool a) = v
Step-IsWaiting v (stops_context a) = v
Step-IsWaiting v (joins_network a b) = v
Step-IsWaiting v (core_worker_leaves n a b c) = v
Step-IsWaiting v (database_worker_leaves n a b) = v
Step-IsWaiting v (network_thread_returns n a b) = v
Step-IsWaiting v (stops a) = ground arith
Step-IsWaiting v (start_joins_core_pool a b) = ground arith
Step-IsWaiting v (start_joins_database_pool a b) = ground arith
Step-IsWaiting v (stop_joins_core_pool a b) = ground arith
Step-IsWaiting v (stop_joins_database_pool a b) = ground arith
Step-IsWaiting v (meet a b) = ground arith

Step-IsJoined : {s t : Server} → IsJoined s → Step s t → IsJoined t
unfolding end_core_pool end_database_pool stop_context stop core_pool_joined database_pool_joined
Step-IsJoined v (ticks a b) = v
Step-IsJoined v (leaves a b) = v
Step-IsJoined v (ends_core_pool a) = v
Step-IsJoined v (ends_database_pool a) = v
Step-IsJoined v (stops_context a) = v
Step-IsJoined v (joins_network a b) = v
Step-IsJoined v (core_worker_leaves n a b c) = ground arith
Step-IsJoined v (database_worker_leaves n a b) = ground arith
Step-IsJoined v (network_thread_returns n a b) = v
Step-IsJoined v (stops a) = ground arith
Step-IsJoined v (start_joins_core_pool a b) = ground arith
Step-IsJoined v (start_joins_database_pool a b) = ground arith
Step-IsJoined v (stop_joins_core_pool a b) = ground arith
Step-IsJoined v (stop_joins_database_pool a b) = ground arith
Step-IsJoined v (meet a b) = ground arith

pub Reach-IsServer : {s : Server} → Reach s → IsServer s
Reach-IsServer (begin join_pools helpers database_workers network_threads) =
    begin-IsServer join_pools helpers database_workers network_threads
Reach-IsServer (step r x) =
    let v = Reach-IsServer r in
    record {
      stopping = Step-IsStopping v.stopping x;
      ending = Step-IsEnding v.ending x;
      waits = Step-IsWaiting v.waits x;
      joined = Step-IsJoined v.joined x;
    }
