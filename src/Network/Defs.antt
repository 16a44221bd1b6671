-- ===== src/Network/Defs.antt =====
-- core/coreloop_network_plugin.hpp. An endpoint stands as one number (its address and port), a
-- buffer as the number of its pointer. The locks are held around whole functions of this file, so
-- each of them is one step of an interleaving.
use sekkeizu.Base.{
  ℕ, zero, suc, Option, none, some, List, [], ◌∷◌, ◌++◌, if◌then◌else◌, mem, insert_set, find,
  replace, emplace,
}

-- Per network thread: an element of `_local_endpoints` and of `_pending_inputs`.
pub record Local : Type 0 where
  pub local_endpoints : List ℕ
  pub pending_inputs : List (ℕ × List ℕ)

-- `locals` has `max_concurrent_threads` elements.
pub record Plugin : Type 0 where
  pub locals : List Local
  pub new_endpoints : List ℕ
  pub endpoints : List ℕ
  pub endpoint_data : List (ℕ × List ℕ)
  pub pending_disconnects : List ℕ

-- The callbacks of the derived class, as they are called.
pub data Event : Type 0 where
  new_client : ℕ → Event
  client_inputs : ℕ → List ℕ → Event
  post_network_tick : ℕ → Event
  on_disconnected : ℕ → Event

-- What the derived class is free to do: the endpoints that each callback disconnects.
pub record Derived : Type 0 where
  pub after_new_client : ℕ → List ℕ
  pub after_client_inputs : ℕ → List ℕ → List ℕ
  pub after_network_tick : ℕ → List ℕ

abbrev pub new_plugin : List Local → Plugin
new_plugin locals = record {
  locals = locals;
  new_endpoints = [];
  endpoints = [];
  endpoint_data = [];
  pending_disconnects = [];
}

-- `disconnect`.
unfoldable pub disconnect : ℕ → Plugin → Plugin
disconnect endpoint p = record p { pending_disconnects = p.pending_disconnects ++ endpoint ∷ [] }

unfoldable pub disconnect_all : List ℕ → Plugin → Plugin
unfolding disconnect
disconnect_all [] p = p
disconnect_all (endpoint ∷ endpoints) p = disconnect_all endpoints (disconnect endpoint p)

-- The part of the packet job behind the check of the local endpoints: `none` is the failed
-- assertion that the client has its vector.
unfoldable pub push_input : ℕ → ℕ → Local → Option Local
push_input endpoint buffer l = elim (find endpoint l.pending_inputs) [
  | none ↦ none
  | some buffers ↦
      some
        (record l { pending_inputs = replace endpoint (buffers ++ buffer ∷ []) l.pending_inputs })
]

-- An endpoint that the thread does not know yet.
unfoldable pub add_local : ℕ → Local → Local
add_local endpoint l = if mem endpoint l.local_endpoints then l else (record {
  local_endpoints = insert_set endpoint l.local_endpoints;
  pending_inputs = emplace endpoint [] l.pending_inputs;
})

-- An endpoint that no thread knows yet.
unfoldable pub add_shared : ℕ → Local → Plugin → Plugin
add_shared endpoint l p =
    if mem endpoint l.local_endpoints
    then p
    else (if mem endpoint p.endpoints then p else (record p {
      endpoints = insert_set endpoint p.endpoints;
      new_endpoints = insert_set endpoint p.new_endpoints;
    }))

abbrev pub get_local : ℕ → List Local → Option Local
get_local id [] = none
get_local zero (l ∷ ls) = some l
get_local (suc id) (l ∷ ls) = get_local id ls

abbrev pub set_local : ℕ → Local → List Local → List Local
set_local id v [] = []
set_local zero v (l ∷ ls) = v ∷ ls
set_local (suc id) v (l ∷ ls) = l ∷ set_local id v ls

-- The job of `handle_network_packet`. `none` is a failed assertion: a thread id that is too large,
-- or a client without its vector.
unfoldable pub handle_network_packet : ℕ → ℕ → ℕ → Plugin → Option Plugin
unfolding push_input add_local add_shared
handle_network_packet unique_id endpoint buffer p = elim (get_local unique_id p.locals) [
  | none ↦ none
  | some l ↦ elim (push_input endpoint buffer (add_local endpoint l)) [
    | none ↦ none
    | some l' ↦ some (record (add_shared endpoint l p) { locals = set_local unique_id l' p.locals })
  ]
]
