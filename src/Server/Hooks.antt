-- ===== src/Server/Hooks.antt =====
-- The plugins of main.cpp as hooks of core/coreloop.hpp.
use sekkeizu.Base.{
  ℕ, Bool, true, Option, none, some, List, [], ◌∷◌, ◌++◌, if◌then◌else◌, ltb, length,
}
use sekkeizu.Network.Defs as Net
use sekkeizu.Network.Defs.{Event, Derived, handle_network_packet}
use sekkeizu.Network.Tick.{tick}
use sekkeizu.Pool.Defs.{QueueApi, HeapApi}
use sekkeizu.Coreloop.Hooks.{Plugin, user_tick_plugin}
use sekkeizu.Coreloop.Scheduled.{scheduled_tick}
use sekkeizu.Coreloop.Receive.{Memory}
use sekkeizu.Coreloop.Operations.{execute, release_network_endpoint}

-- What the lambda of `handle_network_packet` has captured.
pub record PacketJob : Type 0 where
  pub unique_id : ℕ
  pub endpoint : ℕ
  pub buffer : ℕ

-- What the plugins keep: the state of the network plugin with the callbacks so far, the packet jobs
-- that `execute` pushed to the core pool and that did not run yet, and `_elapsed` of the scheduled
-- tick with the times of its calls. `aborted` is set by a failed assertion.
pub record World : Type 0 where
  pub network : Net.Plugin
  pub events : List Event
  pub jobs : List PacketJob
  pub elapsed : ℕ
  pub scheduled : List ℕ
  pub aborted : Bool

-- `handle_network_packet`: the assertion, and `core_loop->execute` of the packet job.
unfoldable pub push_packet : ℕ → ℕ → ℕ → World → World
unfolding execute
push_packet unique_id endpoint buffer w =
    if ltb unique_id (length w.network.locals)
    then (record w {
      jobs =
          execute (record { unique_id = unique_id; endpoint = endpoint; buffer = buffer }) w.jobs;
    })
    else (record w { aborted = true })

unfoldable pub network_tick : Derived → ℕ → World → World
network_tick d diff w = elim (tick d diff w.network) [
  | none ↦ record w { aborted = true }
  | some (q, events) ↦ record w { network = q; events = w.events ++ events }
]

unfoldable pub network_plugin : Derived → Plugin World
unfolding push_packet network_tick
network_plugin d = record {
  network_thread_start = none;
  pre_tick = none;
  tick = some (λ diff w. network_tick d diff w);
  post_tick = none;
  handle_network_packet =
      some (λ unique_id endpoint buffer w. push_packet unique_id endpoint buffer w);
}

unfoldable pub scheduled_tick_hook : ℕ → ℕ → World → World
unfolding scheduled_tick
scheduled_tick_hook base_time_per_tick diff w =
    let once = scheduled_tick base_time_per_tick diff w.elapsed in
    record w {
      elapsed = once.0;
      scheduled = elim once.1 [ none ↦ w.scheduled | some time ↦ w.scheduled ++ time ∷ [] ];
    }

unfoldable pub scheduled_tick_plugin : ℕ → Plugin World
unfolding scheduled_tick_hook
scheduled_tick_plugin base_time_per_tick = record {
  network_thread_start = none;
  pre_tick = none;
  tick = some (λ diff w. scheduled_tick_hook base_time_per_tick diff w);
  post_tick = none;
  handle_network_packet = none;
}

-- The base classes of `core_loop_impl`, over the callbacks of a derived class.
unfoldable pub core_loop_impl : Derived → (ℕ → World → World) → List (Plugin World)
unfolding network_plugin scheduled_tick_plugin user_tick_plugin
core_loop_impl d user_tick =
    network_plugin d ∷ scheduled_tick_plugin 500 ∷ user_tick_plugin user_tick ∷ []

-- The packet job: the sender is read through the pointer, the buffer is stored, and the endpoint goes
-- back to its pool. `none` is a failed assertion, or the use of an endpoint that does not live.
unfoldable pub run_packet :
    {Q H : Type 0}
    → QueueApi Q
    → HeapApi H
    → PacketJob
    → Memory Q H World
    → Option (Memory Q H World)
unfolding release_network_endpoint
run_packet queue pools job m = elim (m.endpoints_mempool.objects job.endpoint) [
  | none ↦ none
  | some sender ↦ elim (handle_network_packet job.unique_id sender job.buffer m.plugins.network) [
    | none ↦ none
    | some q ↦
        release_network_endpoint queue pools job.endpoint
          (record m { plugins = record (m.plugins) { network = q } })
  ]
]
