-- ===== src/Server/Tests.antt =====
-- A packet on its way through the server, with the pools on lists.
use sekkeizu.Base.{ℕ, ◌≤◌, ◌≡◌, ◌≢◌, refl, Option, none, some, List, [], ◌∷◌, ◌++◌, arith}
use sekkeizu.Network.Defs.{
  Plugin, Event, Local, push_input, add_local, add_shared, handle_network_packet, disconnect_all,
}
use sekkeizu.Network.Tick.{
  create_clients, after_new_clients, announce, accumulate_inputs, clear_inputs, input_events,
  after_inputs, run_clients,
}
use sekkeizu.Network.Threads.System.{accumulate_local}
use sekkeizu.Pool.Defs.{get_block, get, release}
use sekkeizu.Pool.Lives.{lives}
use sekkeizu.Pool.Sample.{queue, heap}
use sekkeizu.Coreloop.Hooks.{
  call_handle_network_packet_proxy, call_handle_network_packet_proxy_impl, user_tick_plugin,
}
use sekkeizu.Coreloop.Loop.{FloatApi, Core, Readings, run}
use sekkeizu.Coreloop.Scheduled.{scheduled_ticks}
use sekkeizu.Coreloop.Receive.{
  Datagram, Receive, Memory, handle_connections, release_both, hand_over, on_receive,
}
use sekkeizu.Coreloop.Operations.{execute, release_network_buffer, release_network_endpoint}
use sekkeizu.Server.Hooks.{
  PacketJob, World, push_packet, network_plugin, scheduled_tick_plugin, core_loop_impl, run_packet,
}
use sekkeizu.Server.System.{Section, handed, Server, Step, Reach, fresh}
use sekkeizu.Server.Owned.{endpoints_of, buffers_of}
use sekkeizu.Server.Ownership.{owned_once, no_dangling}
use sekkeizu.Coreloop.Start.{start_receives}
use sekkeizu.Server.Begin.{start_receives-Reach}
use sekkeizu.Server.Stored.{packets_run}
use sekkeizu.Server.Schedule.{periods, schedule, run-scheduled_ticks}
use sekkeizu.Server.Main.{quiet, user_tick, seen, IsCalm, run_main-IsCalm}

program : Unit {0}
unfolding get_block get release user_tick_plugin call_handle_network_packet_proxy_impl
    call_handle_network_packet_proxy start_receives handle_connections release_both hand_over
    on_receive push_packet network_plugin scheduled_tick_plugin core_loop_impl run_packet push_input
    add_local add_shared handle_network_packet disconnect_all create_clients after_new_clients
    announce accumulate_inputs execute release_network_buffer release_network_endpoint clear_inputs
    input_events after_inputs run_clients accumulate_local
program = tt

abbrev Reached : Server (List ℕ) ℕ → Type 0
Reached = Reach queue heap quiet user_tick

abbrev empty : Server (List ℕ) ℕ
empty = fresh [] 0 [] 0 1

abbrev no_receive : Receive
no_receive = record { buffer = 9; endpoint = 9 }

abbrev Handled : Type 0
Handled = Receive × Memory (List ℕ) ℕ World

abbrev handled_or : Memory (List ℕ) ℕ World → Option Handled → Handled
handled_or m none = (no_receive, m)
handled_or m (some o) = o

abbrev memory_or :
    Memory (List ℕ) ℕ World → Option (Memory (List ℕ) ℕ World) → Memory (List ℕ) ℕ World
memory_or m none = m
memory_or m (some q) = q

-- A thread begins to receive.
abbrev opened : Handled
opened =
    handled_or empty.memory
      (handle_connections queue heap (core_loop_impl quiet user_tick) 0 empty.memory)

test_start :
    start_receives queue heap (core_loop_impl quiet user_tick) 0 1 empty.memory
    ≡ some (opened.0 ∷ [], opened.1)
unfolding program
test_start = refl

abbrev listening : Server (List ℕ) ℕ
listening = record empty { memory = opened.1; receives = opened.0 ∷ [] }

-- A datagram of the endpoint 77 comes.
abbrev datagram : Datagram
datagram = record { sender = 77; bytes = 4 ∷ 2 ∷ [] }

abbrev pushed : Handled
pushed = handled_or listening.memory (
    on_receive queue heap (core_loop_impl quiet user_tick) 0 0 opened.0 (some datagram)
      listening.memory)

abbrev received : Server (List ℕ) ℕ
received = record listening { memory = pushed.1; receives = pushed.0 ∷ [] }

-- Its job runs.
abbrev job : PacketJob
job = record { unique_id = 0; endpoint = 0; buffer = 0 }

abbrev taken : Memory (List ℕ) ℕ World
taken = record (received.memory) { plugins = record (received.memory.plugins) { jobs = [] } }

abbrev ran : Server (List ℕ) ℕ
ran = record received { memory = memory_or taken (run_packet queue heap job taken) }

-- A tick creates the client, moves its inputs, and hands them over.
abbrev ticked : Plugin → List Event → Server (List ℕ) ℕ → Server (List ℕ) ℕ
ticked q events s = record {
  memory = record (s.memory) {
    plugins = record (s.memory.plugins) { network = q; events = s.memory.plugins.events ++ events };
  };
  receives = s.receives;
  given = s.given ++ handed events;
}

abbrev created : Server (List ℕ) ℕ
created = let a = announce quiet ran.memory.plugins.network in ticked a.0 a.1 ran

abbrev waiting : Local
waiting = record { local_endpoints = 77 ∷ []; pending_inputs = (77, 0 ∷ []) ∷ [] }

abbrev moved : Server (List ℕ) ℕ
moved = ticked (accumulate_local 0 waiting created.memory.plugins.network) [] created

abbrev delivered : Server (List ℕ) ℕ
delivered = let c = run_clients quiet moved.memory.plugins.network in ticked c.0 c.1 moved

test_delivered : delivered.given ≡ 0 ∷ []
unfolding program
test_delivered = refl

test_receives : delivered.receives ≡ record { buffer = 1; endpoint = 1 } ∷ []
unfolding program
test_receives = refl

listening-Reached : Reached listening
unfolding program
listening-Reached =
    (start_receives-Reach queue heap quiet user_tick 0 1 empty (opened.0 ∷ []) opened.1
      (Reach.start [] 0 [] 0 1 (λ x. (refl, ground arith)) (λ x. (refl, ground arith)))
      test_start).0

received_jobs : received.memory.plugins.jobs ≡ job ∷ []
unfolding program
received_jobs = refl

received-Reached : Reached received
unfolding program
received-Reached =
    Reach.next listening-Reached
      (Step.receives [] [] 0 opened.0 pushed.0 (some datagram) pushed.1 refl refl refl refl)

ran-Reached : Reached ran
unfolding program
ran-Reached = Reach.next received-Reached (Step.runs_packet [] [] job ran.memory refl refl refl)

packets_run_example : (m : Memory (List ℕ) ℕ World) × (run_packet queue heap job taken ≡ some m)
packets_run_example =
    packets_run queue heap quiet user_tick received-Reached [] [] job received_jobs

delivered-Reached : Reached delivered
unfolding program
delivered-Reached =
    Reach.next
      (Reach.next (Reach.next ran-Reached (Step.ticks _ _ (Section.announces refl refl) refl))
        (Step.ticks _ _ (Section.accumulates 0 waiting refl refl refl) refl))
      (Step.ticks _ _ (Section.runs refl refl) refl)

owned_once_example :
    (endpoints_of 0 delivered ≡ lives 0 delivered.memory.endpoints_mempool)
    × (buffers_of 0 delivered ≤ lives 0 delivered.memory.data_mempool)
owned_once_example = owned_once queue heap quiet user_tick delivered-Reached 0

no_dangling_example :
    ((before after : List Receive) (r : Receive)
      → delivered.receives ≡ before ++ r ∷ after
      → release_both queue heap (core_loop_impl quiet user_tick) r delivered.memory ≢ none)
    × ((before after : List PacketJob) (j : PacketJob)
        → delivered.memory.plugins.jobs ≡ before ++ j ∷ after
        → (delivered.memory.endpoints_mempool.objects j.endpoint ≢ none)
          × (release_network_endpoint queue heap j.endpoint delivered.memory ≢ none))
    × ((before after : List ℕ) (buffer : ℕ)
        → delivered.given ≡ before ++ buffer ∷ after
        → release_network_buffer queue heap buffer delivered.memory ≢ none)
no_dangling_example = no_dangling queue heap quiet user_tick delivered-Reached

abbrev floats : FloatApi ℕ
floats = record { smooth = λ mean diff. diff; ceil = λ mean. mean }

abbrev readings : List Readings
readings =
    record { started = 300000000; ticked = 301000000 }
    ∷ record { started = 700000000; ticked = 700000000 }
    ∷ []

abbrev core : Core ℕ World
core = record { now = 0; diff_mean = 50; plugins = ran.memory.plugins }

run-scheduled_ticks_example :
    let r = scheduled_ticks 500 (periods 0 readings) 0 in
    schedule (run floats (core_loop_impl quiet user_tick) readings core).plugins ≡ (r.0, r.1)
unfolding program
run-scheduled_ticks_example =
    run-scheduled_ticks quiet user_tick floats readings core (λ diff w. refl)

core-IsCalm : IsCalm core.plugins
unfolding program
core-IsCalm = record { runs_on = refl; nobody_leaves = refl }

run_main-IsCalm_example :
    let w = (run floats (core_loop_impl quiet user_tick) readings core).plugins in
    IsCalm w × ((b : ℕ) → seen b w ≡ seen b core.plugins)
run_main-IsCalm_example = run_main-IsCalm floats readings core core-IsCalm
