-- ===== src/Network/Threads/Tests.antt =====
-- core/coreloop_network_plugin.hpp with a packet in the middle of a tick: two threads, and endpoint 5.
use sekkeizu.Base.{
  ℕ, ◌<◌, ◌≡◌, refl, ◌⊎◌, Option, none, some, [], ◌∷◌, ◌++◌, length, ltb, mem, has, true, false,
  if◌then◌else◌,
}
use sekkeizu.Network.Defs.{
  Local, Plugin, Derived, disconnect, disconnect_all, push_input, add_local, add_shared,
  handle_network_packet,
}
use sekkeizu.Network.Tick.{
  create_clients, after_new_clients, announce, accumulate_inputs, clear_inputs, input_events,
  after_inputs, run_clients, post_tick, drop_local, drop_endpoint,
}
use sekkeizu.Network.Threads.System.{
  System, Phase, Step, packet, announces, accumulates, Reach, start, next, fresh, blanks,
  accumulate_local, log,
}
use sekkeizu.Network.Threads.Vectors.{vector}
use sekkeizu.Network.Threads.Given.{given}
use sekkeizu.Network.Threads.Invariant.{of_thread}
use sekkeizu.Network.Threads.Order.{buffers_in_order}
use sekkeizu.Network.Threads.Progress.{Next, IsStuck, assertions_hold}
use sekkeizu.Network.Threads.Again.{Apart, stay, follow, drop_endpoint-again, drop_endpoint-stale}

program : Unit {0}
unfolding disconnect disconnect_all push_input add_local add_shared handle_network_packet
    create_clients after_new_clients announce accumulate_inputs accumulate_local clear_inputs
    input_events after_inputs run_clients post_tick drop_local drop_endpoint
program = tt

abbrev quiet : Derived
quiet = record {
  after_new_client = λ _. [];
  after_client_inputs = λ _ _. [];
  after_network_tick = λ _. [];
}

-- Buffers below 80 come in on thread 0, the others on thread 1.
abbrev from : ℕ → ℕ
from b = if ltb b 80 then 0 else 1

abbrev or_same : Option Plugin → Plugin → Plugin
or_same none p = p
or_same (some q) p = q

abbrev with_packet : ℕ → ℕ → System → System
with_packet endpoint buffer s = record s {
  plugin = or_same (handle_network_packet (from buffer) endpoint buffer s.plugin) s.plugin;
  stored = log (from buffer) endpoint buffer s.stored;
}

abbrev s_0 : System
s_0 = fresh (blanks 2)

abbrev s_1 : System
s_1 = with_packet 5 70 s_0

abbrev s_2 : System
s_2 = with_packet 5 80 s_1

abbrev s_3 : System
s_3 = record s_2 {
  plugin = (announce quiet s_2.plugin).0;
  phase = Phase.accumulating 0;
  events = s_2.events ++ (announce quiet s_2.plugin).1;
}

abbrev thread_0 : Local
thread_0 = record { local_endpoints = 5 ∷ []; pending_inputs = (5, 70 ∷ []) ∷ [] }

abbrev s_4 : System
s_4 = record s_3 { plugin = accumulate_local 0 thread_0 s_3.plugin; phase = Phase.accumulating 1 }

-- The thread whose inputs were moved gets another packet.
abbrev s_5 : System
s_5 = with_packet 5 71 s_4

trace_5 : Reach from quiet s_5
unfolding program
trace_5 =
    next
      (next
        (next
          (next (next (start 2) (packet 0 5 70 s_1.plugin refl refl refl))
            (packet 1 5 80 s_2.plugin refl refl refl))
          (announces refl refl))
        (accumulates 0 thread_0 refl refl refl))
      (packet 0 5 71 s_5.plugin refl refl refl)

abbrev thread_0_later : Local
thread_0_later = record { local_endpoints = 5 ∷ []; pending_inputs = (5, 71 ∷ []) ∷ [] }

buffers_in_order_example :
    of_thread from 0 (given 5 [] s_5.events ++ vector 5 s_5.plugin.endpoint_data) ++ 71 ∷ []
    ≡ 70 ∷ 71 ∷ []
unfolding program
buffers_in_order_example = buffers_in_order from quiet trace_5 0 5 thread_0_later refl

assertions_hold_example :
    ((unique_id endpoint buffer : ℕ)
      → unique_id < length s_5.plugin.locals
      → (q : Plugin) × (handle_network_packet unique_id endpoint buffer s_5.plugin ≡ some q))
    × (((t : System) × Step from quiet s_5 t × Next s_5.phase t.phase) ⊎ IsStuck from quiet s_5)
assertions_hold_example = assertions_hold from quiet trace_5

-- Endpoint 5 is disconnected while it is new, and then a packet of endpoint 6 is stored.
abbrev s_dropped : System
s_dropped = record s_1 {
  plugin = or_same (drop_endpoint 5 s_1.plugin) s_1.plugin;
  phase = Phase.dropping (5 ∷ []);
}

abbrev s_other : System
s_other = with_packet 6 81 s_dropped

other : Apart from quiet 5 s_dropped s_other
unfolding program
other = follow stay (packet 1 6 81 s_other.plugin refl refl refl) refl

drop_endpoint-again_example : drop_endpoint 5 s_other.plugin ≡ none
unfolding program
drop_endpoint-again_example = drop_endpoint-again from quiet 5 s_1.plugin refl other

drop_endpoint-stale_example :
    let r = (announce quiet s_other.plugin).0 in
    (has 5 r.endpoint_data ≡ true) × (mem 5 r.endpoints ≡ false) × (drop_endpoint 5 r ≡ none)
unfolding program
drop_endpoint-stale_example = drop_endpoint-stale from quiet 5 s_1.plugin refl refl other
