-- ===== src/Network/Tests.antt =====
-- core/coreloop_network_plugin.hpp on two network threads and two endpoints.
use sekkeizu.Base.{◌+◌, ◌≡◌, refl, false, Option, none, some, List, [], ◌∷◌, arith, inl, mem, has}
use sekkeizu.Network.Defs.{
  Local, Plugin, Event, Derived, new_plugin, disconnect, disconnect_all, push_input, add_local,
  add_shared, handle_network_packet,
}
use sekkeizu.Network.Tick.{
  create_clients, after_new_clients, announce, accumulate_inputs, accumulate_locals, accumulate,
  clear_inputs, input_events, after_inputs, run_clients, post_tick, drop_local, drop_endpoint,
  drop_all, execute_disconnects, before_disconnects, tick,
}
use sekkeizu.Network.Valid.{IsValid}
use sekkeizu.Network.Conserve.{held, delivered}
use sekkeizu.Network.Delivery.{stored_at, stored_at_locals, held-drop_endpoint}
use sekkeizu.Network.TickValid.{tick-IsValid}
use sekkeizu.Network.Drain.{tick-delivers_all}
use sekkeizu.Network.Disconnect.{AllForget, drop_endpoint-forgets}

program : Unit {0}
unfolding disconnect disconnect_all push_input add_local add_shared handle_network_packet
    create_clients after_new_clients announce accumulate_inputs accumulate_locals accumulate
    clear_inputs input_events after_inputs run_clients post_tick drop_local drop_endpoint drop_all
    execute_disconnects before_disconnects tick
program = tt

abbrev fresh : Local
fresh = record { local_endpoints = []; pending_inputs = [] }

abbrev p_0 : Plugin
p_0 = new_plugin (fresh ∷ fresh ∷ [])

abbrev or_fresh : Option Plugin → Plugin
or_fresh none = p_0
or_fresh (some p) = p

-- Buffer 70 of endpoint 5 comes in on thread 1.
abbrev p_1 : Plugin
p_1 = or_fresh (handle_network_packet 1 5 70 p_0)

abbrev p_2 : Plugin
p_2 = or_fresh (handle_network_packet 0 5 71 p_1)

-- A derived class that disconnects each client that it has inputs from.
abbrev strict : Derived
strict = record {
  after_new_client = λ _. [];
  after_client_inputs = λ e _. e ∷ [];
  after_network_tick = λ _. [];
}

abbrev out_3 : Option (Plugin × List Event)
out_3 = tick strict 50 p_2

abbrev of_out : Option (Plugin × List Event) → Plugin × List Event
of_out none = (p_0, [])
of_out (some o) = o

abbrev p_3 : Plugin
p_3 = (of_out out_3).0

test_events :
    (of_out out_3).1
    ≡ Event.new_client 5
      ∷ Event.client_inputs 5 (71 ∷ 70 ∷ [])
      ∷ Event.post_network_tick 50
      ∷ Event.on_disconnected 5
      ∷ []
unfolding program
test_events = refl

test_forgotten : p_3.endpoints ≡ []
unfolding program
test_forgotten = refl

p_0-IsValid : IsValid p_0
p_0-IsValid = record {
  locals = (
    record { vectors = λ e. refl; shared = λ e h. absurd (cc) },
    (record { vectors = λ e. refl; shared = λ e h. absurd (cc) }, tt),
  );
  clients = λ e h. absurd (cc);
}

p_1-IsValid : IsValid p_1
unfolding program
p_1-IsValid = record {
  locals = (
    record { vectors = λ e. refl; shared = λ e h. absurd (cc) },
    (record { vectors = λ e. ground arith; shared = λ e h. h }, tt),
  );
  clients = λ e h. inl h;
}

p_2-IsValid : IsValid p_2
unfolding program
p_2-IsValid = record {
  locals = (
    record { vectors = λ e. ground arith; shared = λ e h. h },
    (record { vectors = λ e. ground arith; shared = λ e h. h }, tt),
  );
  clients = λ e h. inl h;
}

tick-IsValid_example : IsValid p_3
unfolding program
tick-IsValid_example = tick-IsValid strict 50 p_2 p_3 (of_out out_3).1 refl p_2-IsValid

drop_endpoint-forgets_example :
    (q : Plugin) × (drop_endpoint 5 p_2 ≡ some q)
    × IsValid q
    × (mem 5 q.endpoints ≡ false)
    × (has 5 q.endpoint_data ≡ false)
    × (q.new_endpoints ≡ p_2.new_endpoints)
    × AllForget 5 q.locals
unfolding program
drop_endpoint-forgets_example = drop_endpoint-forgets 5 p_2 refl p_2-IsValid

abbrev p_2_without : Plugin
p_2_without = or_fresh (drop_endpoint 5 p_2)

held-drop_endpoint_example :
    held 71 p_2_without + stored_at 71 5 p_2.endpoint_data + stored_at_locals 71 5 p_2.locals
    ≡ held 71 p_2
unfolding program
held-drop_endpoint_example = held-drop_endpoint 71 5 p_2 p_2_without refl

tick-delivers_all_example : (delivered 71 (of_out out_3).1 ≡ held 71 p_2) × (held 71 p_3 ≡ 0)
unfolding program
tick-delivers_all_example = tick-delivers_all 71 strict 50 p_2 p_3 (of_out out_3).1 refl p_2-IsValid
