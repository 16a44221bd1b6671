-- ===== src/Coreloop/Tests.antt =====
-- core/coreloop.hpp with a world of three counters, and with the pools on lists.
use sekkeizu.Base.{
  ℕ, ◌+◌, ◌*◌, ◌≤◌, ◌<◌, ◌≡◌, ◌≢◌, refl, ◌⊎◌, Bool, true, false, Option, none, some, List, [], ◌∷◌,
  arith, All, write,
}
use sekkeizu.Pool.Defs.{get_block, get, release}
use sekkeizu.Pool.Sample.{queue, heap}
use sekkeizu.Coreloop.Hooks.{
  Plugin, call_pre_tick_proxy_impl, call_tick_proxy_impl, call_post_tick_proxy_impl,
  call_handle_network_packet_proxy_impl, call_handle_network_packet_proxy, user_tick_plugin,
  palanteer_tick_time,
}
use sekkeizu.Coreloop.Loop.{
  FloatApi, Core, Readings, base_time, iterate, sleep_time, update_time, sleep_time-balances,
}
use sekkeizu.Coreloop.Once.{IsApart, iterate-once}
use sekkeizu.Coreloop.Scheduled.{
  sum, IsTimely, scheduled_tick, scheduled_ticks, scheduled_ticks-sum, scheduled_ticks-IsTimely,
}
use sekkeizu.Coreloop.Receive.{
  NetworkBuffer, Datagram, Receive, Memory, handle_connections, release_both, hand_over, on_receive,
}
use sekkeizu.Coreloop.Received.{IsPending, on_receive-error, on_receive-packet}
use sekkeizu.Coreloop.Stop.{
  finished, returned, Server, started, end_core_pool, end_database_pool, stop_context,
  network_joined, stop, core_pool_joined, database_pool_joined, Step, leaves, ends_core_pool,
  ends_database_pool, stops_context, joins_network, core_worker_leaves, database_worker_leaves,
  network_thread_returns, stops, start_joins_core_pool, start_joins_database_pool,
  stop_joins_core_pool, stop_joins_database_pool, meet, Reach, begin, step,
}
use sekkeizu.Coreloop.Shutdown.{IsDown, remaining, stop-IsDown, stop-ends}
use sekkeizu.Coreloop.Sending as Sending
use sekkeizu.Coreloop.Sending.{Socket, send_data, on_sent, sends_with, calls_with, called_once}

program : Unit {0}
unfolding get_block get release user_tick_plugin palanteer_tick_time call_pre_tick_proxy_impl
    call_tick_proxy_impl call_post_tick_proxy_impl call_handle_network_packet_proxy_impl
    call_handle_network_packet_proxy base_time iterate sleep_time update_time scheduled_tick
    scheduled_ticks handle_connections release_both hand_over on_receive send_data on_sent
    end_core_pool end_database_pool stop_context network_joined stop core_pool_joined
    database_pool_joined
program = tt

test_sleep : sleep_time 7 50 ≡ some 43
unfolding program
test_sleep = refl

test_slow : sleep_time 60 50 ≡ none
unfolding program
test_slow = refl

test_scheduled : scheduled_ticks 500 (200 ∷ 300 ∷ 50 ∷ 400 ∷ []) 0 ≡ (400, 550 ∷ [])
unfolding program
test_scheduled = refl

scheduled_ticks-sum_example :
    let r = scheduled_ticks 500 (200 ∷ 300 ∷ 50 ∷ 400 ∷ []) 0 in
    r.0 + sum r.1 ≡ 0 + sum (200 ∷ 300 ∷ 50 ∷ 400 ∷ [])
scheduled_ticks-sum_example = scheduled_ticks-sum 500 (200 ∷ 300 ∷ 50 ∷ 400 ∷ []) 0

scheduled_ticks-IsTimely_example :
    let r = scheduled_ticks 500 (200 ∷ 400 ∷ []) 0 in (r.0 ≤ 500) × All (IsTimely 500 400) r.1
scheduled_ticks-IsTimely_example =
    scheduled_ticks-IsTimely 500 400 (200 ∷ 400 ∷ []) 0 (omega arith, (omega arith, tt))
      (omega arith)

sleep_time-balances_example :
    (((s : ℕ) → sleep_time 7 50 ≡ some s → 7 + 50 + s ≡ 2 * 50)
      × (sleep_time 7 50 ≡ none → 2 * 50 ≤ 7 + 50))
sleep_time-balances_example = sleep_time-balances 7 50

-- The marks of a profiler, and the time that a user tick has seen.
abbrev World : Type 0
World = List Bool × ℕ

abbrev floats : FloatApi ℕ
floats = record { smooth = λ mean diff. diff; ceil = λ mean. mean }

abbrev profiler : Plugin World
profiler = palanteer_tick_time (λ w. (true ∷ w.0, w.1)) (λ w. (false ∷ w.0, w.1))

abbrev user : Plugin World
user = user_tick_plugin (λ diff w. (w.0, w.1 + diff))

abbrev readings : Readings
readings = record { started = 60000000; ticked = 67000000 }

abbrev core : Core ℕ World
core = record { now = 10000000; diff_mean = 50; plugins = ([], 3) }

profiler-IsApart : IsApart (λ w. w.1) profiler
unfolding program
profiler-IsApart = record { pre = λ w. refl; main = λ diff w. refl; post = λ w. refl }

iterate-once_example :
    (iterate floats (profiler ∷ user ∷ profiler ∷ []) readings core).0.plugins.1
    ≡ 3 + base_time 10000000 60000000
unfolding program
iterate-once_example =
    iterate-once (λ w. w.1) floats (profiler ∷ []) user (profiler ∷ []) (λ seen. seen)
      (λ seen. seen) (λ diff seen. seen + diff) readings core (profiler-IsApart, tt)
      (profiler-IsApart, tt) (λ w. refl) (λ diff w. refl) (λ w. refl)

-- One worker for each pool and one network thread, after `stop`, up to the joins.
abbrev ended : Bool → Server
ended join_pools = record (stop (started join_pools 0 1 1)) {
  loop = finished;
  core_pool_ended = true;
  core_workers = 0;
  database_pool_ended = true;
  database_workers = 0;
  context_stopped = true;
  network_threads = 0;
}

ended-Reach : (join_pools : Bool) → Reach (ended join_pools)
unfolding program
ended-Reach join_pools =
    let stopping = step (begin join_pools 0 1 1) (stops refl) in
    let told =
      step (step (step stopping (leaves refl refl)) (ends_core_pool refl))
        (ends_database_pool refl) in
    let over =
      step (step (step told (stops_context refl)) (network_thread_returns 0 refl refl))
        (joins_network refl refl) in
    step (step over (core_worker_leaves 0 refl refl (λ e. refl)))
      (database_worker_leaves 0 refl refl)

abbrev down : Server
down = record (ended false) { stopper = returned }

down-Reach : Reach down
unfolding program
down-Reach =
    step (step (ended-Reach false) (stop_joins_core_pool refl refl))
      (stop_joins_database_pool refl refl)

stop-IsDown_example : IsDown down
stop-IsDown_example = stop-IsDown down-Reach refl

abbrev met : Server
met = record (ended true) { starter = returned; stopper = returned }

met-Reach : Reach met
unfolding program
met-Reach =
    step
      (step (step (ended-Reach true) (start_joins_core_pool refl refl))
        (start_joins_database_pool refl refl))
      (meet refl refl)

abbrev stopping : Server
stopping = stop (started true 0 1 1)

stop-ends_example :
    (((stopping.stopper ≡ returned) × (stopping.starter ≡ returned))
      ⊎ ((t : Server) × Step stopping t))
    × ((t : Server) → Step stopping t → remaining t < remaining stopping)
unfolding program
stop-ends_example = stop-ends (step (begin true 0 1 1) (stops refl)) (λ h. absurd (ground arith))

abbrev blank : NetworkBuffer
blank = record { size = 0; bytes = [] }

-- Buffer 1 and endpoint 0 wait for a packet; buffer 0 is free.
abbrev memory : Memory (List ℕ) ℕ World
memory = record {
  data_mempool = record { free_objects = 0 ∷ []; heap = 2; objects = write (λ _. none) 1 blank };
  endpoints_mempool = record { free_objects = []; heap = 1; objects = write (λ _. none) 0 0 };
  plugins = ([], 3);
}

abbrev receive : Receive
receive = record { buffer = 1; endpoint = 0 }

memory-IsPending : IsPending queue heap (user ∷ []) receive memory
memory-IsPending = record {
  old_buffer = blank;
  old_endpoint = 0;
  data_blocks = λ x. ground arith;
  endpoint_blocks = λ x. ground arith;
  buffer_here = refl;
  endpoint_here = refl;
}

on_receive-error_example :
    (r' : Receive) × (m' : Memory (List ℕ) ℕ World) × (on_receive queue heap
        (user ∷ [])
        0
        0
        receive
        none
        memory
      ≡ some (r', m'))
    × (m'.data_mempool.heap ≡ 2)
    × (m'.endpoints_mempool.heap ≡ 1)
    × (m'.plugins ≡ memory.plugins)
    × IsPending queue heap (user ∷ []) r' m'
on_receive-error_example =
    on_receive-error queue heap (user ∷ []) 0 0 receive memory memory-IsPending

abbrev datagram : Datagram
datagram = record { sender = 77; bytes = 4 ∷ 2 ∷ [] }

abbrev or_before : Option (Receive × Memory (List ℕ) ℕ World) → Receive × Memory (List ℕ) ℕ World
or_before none = (receive, memory)
or_before (some o) = o

abbrev after : Receive × Memory (List ℕ) ℕ World
after = or_before (on_receive queue heap (user ∷ []) 0 0 receive (some datagram) memory)

on_receive-packet_example :
    IsPending queue heap (user ∷ []) after.0 after.1
    × (after.0.buffer ≢ 1)
    × (after.0.endpoint ≢ 0)
    × (after.1.data_mempool.objects 1 ≡ some (record { size = 2; bytes = 4 ∷ 2 ∷ [] }))
    × (after.1.endpoints_mempool.objects 0 ≡ some 77)
    × (after.1.plugins ≡ call_handle_network_packet_proxy 0 0 1 (user ∷ []) memory.plugins)
unfolding program
on_receive-packet_example =
    on_receive-packet queue heap (user ∷ []) 0 0 receive after.0 datagram memory after.1 refl
      (omega arith) memory-IsPending

-- Two sends, of which the second has failed.
abbrev socket : Socket
socket = record {
  sent =
      record { endpoint = 7; buffer = 2; size = 4; callback = 9 }
      ∷ record { endpoint = 7; buffer = 1; size = 3; callback = 8 }
      ∷ [];
  pending = record { endpoint = 7; buffer = 1; size = 3; callback = 8 } ∷ [];
  called = record { callback = 9; buffer = 2; size = 4; bytes = 0 } ∷ [];
}

socket-Reached : Sending.Reach socket
unfolding program
socket-Reached =
    Sending.Reach.next
      (Sending.Reach.next (Sending.Reach.next Sending.Reach.start (Sending.Step.sends 7 1 3 8 refl))
        (Sending.Step.sends 7 2 4 9 refl))
      (Sending.Step.completes (record { endpoint = 7; buffer = 1; size = 3; callback = 8 } ∷ []) []
        (record { endpoint = 7; buffer = 2; size = 4; callback = 9 }) true 0 refl refl)

abbrev any_send : ℕ → ℕ → ℕ → Bool
any_send _ _ _ = true

called_once_example :
    calls_with any_send socket.called + sends_with any_send socket.pending
    ≡ sends_with any_send socket.sent
called_once_example = called_once any_send socket-Reached
