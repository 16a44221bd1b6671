-- ===== src/Network/Tick.antt =====
-- `tick` of core/coreloop_network_plugin.hpp, section by section.
use sekkeizu.Base.{
  ℕ, Option, none, some, List, [], ◌∷◌, ◌++◌, if◌then◌else◌, mem, erase_set, find, replace, emplace,
  erase_key, map,
}
use sekkeizu.Network.Defs.{
  Local, Plugin, Event, new_client, client_inputs, post_network_tick, on_disconnected, Derived,
  disconnect_all,
}

-- "Create any new client".
unfoldable pub create_clients : List ℕ → List (ℕ × List ℕ) → List (ℕ × List ℕ)
create_clients [] clients = clients
create_clients (endpoint ∷ endpoints) clients =
    create_clients endpoints (emplace endpoint [] clients)

unfoldable pub after_new_clients : Derived → List ℕ → List ℕ
after_new_clients d [] = []
after_new_clients d (endpoint ∷ endpoints) =
    d.after_new_client endpoint ++ after_new_clients d endpoints

unfoldable pub announce : Derived → Plugin → Plugin × List Event
unfolding create_clients after_new_clients disconnect_all
announce d p = (
  disconnect_all (after_new_clients d p.new_endpoints) (record p {
    endpoint_data = create_clients p.new_endpoints p.endpoint_data;
    new_endpoints = [];
  }),
  map new_client p.new_endpoints,
)

-- "Accumulate any pending inputs" of one thread: the vectors of known clients move over, those of
-- clients that are not created yet stay.
unfoldable pub accumulate_inputs :
    List (ℕ × List ℕ) → List (ℕ × List ℕ) → List (ℕ × List ℕ) × List (ℕ × List ℕ)
accumulate_inputs clients [] = (clients, [])
accumulate_inputs clients ((endpoint, pending_buffers) ∷ inputs) =
    let data_vector = find endpoint clients in
    let clients' : List (ℕ × List ℕ) = elim data_vector [
      | none ↦ clients
      | some buffers ↦ replace endpoint (buffers ++ pending_buffers) clients
    ] in
    let left : List ℕ = elim data_vector [ none ↦ pending_buffers | some _ ↦ [] ] in
    let rest = accumulate_inputs clients' inputs in (rest.0, (endpoint, left) ∷ rest.1)

unfoldable pub accumulate_locals : List (ℕ × List ℕ) → List Local → List (ℕ × List ℕ) × List Local
unfolding accumulate_inputs
accumulate_locals clients [] = (clients, [])
accumulate_locals clients (l ∷ ls) =
    let moved = accumulate_inputs clients l.pending_inputs in
    let rest = accumulate_locals moved.0 ls in
    (rest.0, record l { pending_inputs = moved.1 } ∷ rest.1)

unfoldable pub accumulate : Plugin → Plugin
unfolding accumulate_locals
accumulate p =
    let moved = accumulate_locals p.endpoint_data p.locals in
    record p { endpoint_data = moved.0; locals = moved.1 }

-- The jobs of the clients, which the tick waits for; they touch different vectors, and their order
-- is that of the map here.
unfoldable pub clear_inputs : List (ℕ × List ℕ) → List (ℕ × List ℕ)
clear_inputs [] = []
clear_inputs ((endpoint, buffers) ∷ clients) = (endpoint, []) ∷ clear_inputs clients

unfoldable pub input_events : List (ℕ × List ℕ) → List Event
input_events [] = []
input_events ((endpoint, buffers) ∷ clients) = client_inputs endpoint buffers ∷ input_events clients

unfoldable pub after_inputs : Derived → List (ℕ × List ℕ) → List ℕ
after_inputs d [] = []
after_inputs d ((endpoint, buffers) ∷ clients) =
    d.after_client_inputs endpoint buffers ++ after_inputs d clients

unfoldable pub run_clients : Derived → Plugin → Plugin × List Event
unfolding clear_inputs input_events after_inputs disconnect_all
run_clients d p = (
  disconnect_all (after_inputs d p.endpoint_data)
      (record p { endpoint_data = clear_inputs p.endpoint_data }),
  input_events p.endpoint_data,
)

-- "Now yield to user implementation".
unfoldable pub post_tick : Derived → ℕ → Plugin → Plugin × List Event
unfolding disconnect_all
post_tick d diff p = (disconnect_all (d.after_network_tick diff) p, post_network_tick diff ∷ [])

-- "Clear locals, unlock": a thread that does not know the endpoint keeps its inputs.
unfoldable pub drop_local : ℕ → Local → Local
drop_local endpoint l =
    if mem endpoint l.local_endpoints
    then (record {
      local_endpoints = erase_set endpoint l.local_endpoints;
      pending_inputs = erase_key endpoint l.pending_inputs;
    })
    else l

-- One pending disconnect, under all locks; `none` is the failed assertion that the endpoint is known.
unfoldable pub drop_endpoint : ℕ → Plugin → Option Plugin
unfolding drop_local
drop_endpoint endpoint p =
    if mem endpoint p.endpoints
    then some (record p {
      endpoint_data = erase_key endpoint p.endpoint_data;
      endpoints = erase_set endpoint p.endpoints;
      locals = map (drop_local endpoint) p.locals;
    })
    else none

-- "Execute any pending disconnect now", with no packet in between: the loop lets go of its locks
-- from one endpoint to the next, and Threads has the packets that come in then.
unfoldable pub drop_all : List ℕ → Plugin → Option (Plugin × List Event)
drop_all [] p = some (p, [])
drop_all (endpoint ∷ endpoints) p = elim (drop_endpoint endpoint p) [
  | none ↦ none
  | some p' ↦ elim (drop_all endpoints p') [
    | none ↦ none
    | some (q, events) ↦ some (q, on_disconnected endpoint ∷ events)
  ]
]

unfoldable pub execute_disconnects : Plugin → Option (Plugin × List Event)
execute_disconnects p = elim (drop_all p.pending_disconnects p) [
  | none ↦ none
  | some (q, events) ↦ some (record q { pending_disconnects = [] }, events)
]

-- `tick` up to the pending disconnects, with no packet handled in between.
unfoldable pub before_disconnects : Derived → ℕ → Plugin → Plugin × List Event
before_disconnects d diff p =
    let a = announce d p in
    let c = run_clients d (accumulate a.0) in
    let u = post_tick d diff c.0 in (u.0, a.1 ++ c.1 ++ u.1)

unfoldable pub tick : Derived → ℕ → Plugin → Option (Plugin × List Event)
tick d diff p =
    let u = before_disconnects d diff p in
    elim (execute_disconnects u.0) [ none ↦ none | some (q, events) ↦ some (q, u.1 ++ events) ]
