-- ===== src/Network/Conserve.antt =====
-- Where the buffers of core/coreloop_network_plugin.hpp are: none is lost or doubled on its way.
use sekkeizu.Base.{
  ℕ, zero, suc, ◌+◌, ◌≡◌, ap, inl, inr, some, List, [], ◌∷◌, ◌++◌, arith, count, count-append, find,
  replace, emplace, Option-cases,
}
use sekkeizu.Network.Defs.{
  Local, Plugin, Event, new_client, client_inputs, post_network_tick, on_disconnected, push_input,
  add_local, add_shared, get_local, set_local, handle_network_packet,
}

module _ (b : ℕ) where
  -- How often the buffer is in the vectors of a map.
  abbrev pub stored : List (ℕ × List ℕ) → ℕ
  stored [] = 0
  stored ((_, buffers) ∷ m) = count b buffers + stored m

  abbrev pub stored_locals : List Local → ℕ
  stored_locals [] = 0
  stored_locals (l ∷ ls) = stored l.pending_inputs + stored_locals ls

  -- How often the plugin holds the buffer.
  abbrev pub held : Plugin → ℕ
  held p = stored_locals p.locals + stored p.endpoint_data

  -- How often the derived class has been given it.
  abbrev pub delivered : List Event → ℕ
  delivered [] = 0
  delivered (client_inputs _ buffers ∷ events) = count b buffers + delivered events
  delivered (new_client _ ∷ events) = delivered events
  delivered (post_network_tick _ ∷ events) = delivered events
  delivered (on_disconnected _ ∷ events) = delivered events

  pub stored-replace :
      (k : ℕ) (v w : List ℕ) (m : List (ℕ × List ℕ))
      → find k m ≡ some w
      → stored (replace k v m) + count b w ≡ stored m + count b v
  stored-replace k v w [] e = absurd (cc)
  stored-replace k v w ((j, x) ∷ m) e = ground (arith, stored-replace k v w m)

  pub stored-emplace : (k : ℕ) (m : List (ℕ × List ℕ)) → stored (emplace k [] m) ≡ stored m
  stored-emplace k m = ground arith

  push_input-stored :
      (e buffer : ℕ) (l l' : Local)
      → push_input e buffer l ≡ some l'
      → stored l'.pending_inputs ≡ stored l.pending_inputs + count b (buffer ∷ [])
  unfolding push_input
  push_input-stored e buffer l l' h = elim (Option-cases (find e l.pending_inputs)) [
    | inl gone ↦ absurd (ground arith)
    | inr (w, here) ↦ ground (
      arith,
      stored-replace e (w ++ buffer ∷ []) w l.pending_inputs here,
      count-append b w (buffer ∷ []),
    )
  ]

  add_local-stored :
      (e : ℕ) (l : Local) → stored (add_local e l).pending_inputs ≡ stored l.pending_inputs
  unfolding add_local
  add_local-stored e l = ground (arith, stored-emplace e l.pending_inputs)

  pub set_local-stored :
      (id : ℕ) (l v : Local) (ls : List Local)
      → get_local id ls ≡ some l
      → stored_locals (set_local id v ls) + stored l.pending_inputs
        ≡ stored_locals ls + stored v.pending_inputs
  set_local-stored id l v [] e = absurd (cc)
  set_local-stored zero l v (x ∷ ls) e = ground arith
  set_local-stored (suc id) l v (x ∷ ls) e = omega (arith, set_local-stored id l v ls e)

  pub add_shared-data :
      (e : ℕ) (l : Local) (p : Plugin) → (add_shared e l p).endpoint_data ≡ p.endpoint_data
  unfolding add_shared
  add_shared-data e l p = ground arith

  -- A packet that is handled adds just its buffer.
  pub held-handle_network_packet :
      (unique_id endpoint buffer : ℕ) (p q : Plugin)
      → handle_network_packet unique_id endpoint buffer p ≡ some q
      → held q ≡ held p + count b (buffer ∷ [])
  unfolding handle_network_packet
  held-handle_network_packet unique_id endpoint buffer p q h =
      elim (Option-cases (get_local unique_id p.locals)) [
        | inl gone ↦ absurd (ground arith)
        | inr (l, here) ↦ elim (Option-cases (push_input endpoint buffer (add_local endpoint l))) [
          | inl gone ↦ absurd (ground arith)
          | inr (l', pushed) ↦ ground (
            arith,
            push_input-stored endpoint buffer (add_local endpoint l) l' pushed,
            add_local-stored endpoint l,
            set_local-stored unique_id l l' p.locals here,
            ap stored (add_shared-data endpoint l p),
          )
        ]
      ]
