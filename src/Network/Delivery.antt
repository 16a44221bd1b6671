-- ===== src/Network/Delivery.antt =====
-- What the sections of `tick` in core/coreloop_network_plugin.hpp do with the buffers.
use sekkeizu.Base.{
  ℕ, ◌+◌, ◌≡◌, refl, ap, ◌∙◌, inl, inr, some, List, [], ◌∷◌, ◌++◌, arith, if◌then◌else◌, mem,
  erase_key, map, count, count-append, find, replace, emplace, Option-cases, ◌==◌,
}
use sekkeizu.Network.Defs.{Local, Plugin, new_client, Derived, disconnect, disconnect_all}
use sekkeizu.Network.Tick.{
  create_clients, after_new_clients, announce, accumulate_inputs, accumulate_locals, accumulate,
  clear_inputs, input_events, after_inputs, run_clients, post_tick, drop_local, drop_endpoint,
}
use sekkeizu.Network.Conserve.{
  stored, stored_locals, held, delivered, stored-replace, stored-emplace,
}

module _ (b : ℕ) where
  pub disconnect_all-held : (es : List ℕ) (p : Plugin) → held b (disconnect_all es p) ≡ held b p
  unfolding disconnect_all disconnect
  disconnect_all-held [] p = refl
  disconnect_all-held (e ∷ es) p = disconnect_all-held es (disconnect e p)

  create_clients-stored :
      (es : List ℕ) (m : List (ℕ × List ℕ)) → stored b (create_clients es m) ≡ stored b m
  unfolding create_clients
  create_clients-stored [] m = refl
  create_clients-stored (e ∷ es) m =
      create_clients-stored es (emplace e [] m) ∙ stored-emplace b e m

  pub accumulate_inputs-stored :
      (clients inputs : List (ℕ × List ℕ))
      → let r = accumulate_inputs clients inputs in
        stored b r.0 + stored b r.1 ≡ stored b clients + stored b inputs
  unfolding accumulate_inputs
  accumulate_inputs-stored clients [] = refl
  accumulate_inputs-stored clients ((e, buffers) ∷ inputs) = elim (Option-cases (find e clients)) [
    | inl gone ↦ ground (arith, accumulate_inputs-stored clients inputs)
    | inr (w, here) ↦ ground (
      arith,
      accumulate_inputs-stored (replace e (w ++ buffers) clients) inputs,
      stored-replace b e (w ++ buffers) w clients here,
      count-append b w buffers,
    )
  ]

  accumulate_locals-stored :
      (clients : List (ℕ × List ℕ)) (ls : List Local)
      → let r = accumulate_locals clients ls in
        stored b r.0 + stored_locals b r.1 ≡ stored b clients + stored_locals b ls
  unfolding accumulate_locals
  accumulate_locals-stored clients [] = refl
  accumulate_locals-stored clients (l ∷ ls) =
      let moved = accumulate_inputs clients l.pending_inputs in
      omega (
        arith,
        accumulate_inputs-stored clients l.pending_inputs,
        accumulate_locals-stored moved.0 ls,
      )

  pub clear_inputs-stored : (m : List (ℕ × List ℕ)) → stored b (clear_inputs m) ≡ 0
  unfolding clear_inputs
  clear_inputs-stored [] = refl
  clear_inputs-stored ((e, buffers) ∷ m) = omega (arith, clear_inputs-stored m)

  input_events-delivered : (m : List (ℕ × List ℕ)) → delivered b (input_events m) ≡ stored b m
  unfolding input_events
  input_events-delivered [] = refl
  input_events-delivered ((e, buffers) ∷ m) = omega (arith, input_events-delivered m)

  new_clients-delivered : (es : List ℕ) → delivered b (map new_client es) ≡ 0
  new_clients-delivered [] = refl
  new_clients-delivered (e ∷ es) = new_clients-delivered es

  -- The buffers of one endpoint, in a map and in the maps of the threads that know it.
  abbrev pub stored_at : ℕ → List (ℕ × List ℕ) → ℕ
  stored_at e [] = 0
  stored_at e ((j, buffers) ∷ m) = (if j == e then count b buffers else 0) + stored_at e m

  abbrev pub stored_at_locals : ℕ → List Local → ℕ
  stored_at_locals e [] = 0
  stored_at_locals e (l ∷ ls) =
      (if mem e l.local_endpoints then stored_at e l.pending_inputs else 0) + stored_at_locals e ls

  erase_key-stored :
      (e : ℕ) (m : List (ℕ × List ℕ)) → stored b (erase_key e m) + stored_at e m ≡ stored b m
  erase_key-stored e [] = refl
  erase_key-stored e ((j, buffers) ∷ m) = ground (arith, erase_key-stored e m)

  drop_local-stored :
      (e : ℕ) (ls : List Local)
      → stored_locals b (map (drop_local e) ls) + stored_at_locals e ls ≡ stored_locals b ls
  unfolding drop_local
  drop_local-stored e [] = refl
  drop_local-stored e (l ∷ ls) =
      ground (arith, drop_local-stored e ls, erase_key-stored e l.pending_inputs)

  -- New clients and the user's part of the tick move no buffer.
  pub held-announce :
      (d : Derived) (p : Plugin)
      → (held b (announce d p).0 ≡ held b p) × (delivered b (announce d p).1 ≡ 0)
  unfolding announce
  held-announce d p = (
    disconnect_all-held (after_new_clients d p.new_endpoints) (record p {
      endpoint_data = create_clients p.new_endpoints p.endpoint_data;
      new_endpoints = [];
    })
        ∙ ap (λ n. stored_locals b p.locals + n)
            (create_clients-stored p.new_endpoints p.endpoint_data),
    new_clients-delivered p.new_endpoints,
  )

  pub held-accumulate : (p : Plugin) → held b (accumulate p) ≡ held b p
  unfolding accumulate
  held-accumulate p = omega (arith, accumulate_locals-stored p.endpoint_data p.locals)

  -- The jobs of the clients deliver what the clients hold.
  pub held-run_clients :
      (d : Derived) (p : Plugin)
      → held b (run_clients d p).0 + delivered b (run_clients d p).1 ≡ held b p
  unfolding run_clients
  held-run_clients d p = omega (
    arith,
    disconnect_all-held (after_inputs d p.endpoint_data)
        (record p { endpoint_data = clear_inputs p.endpoint_data }),
    clear_inputs-stored p.endpoint_data,
    input_events-delivered p.endpoint_data,
  )

  pub held-post_tick :
      (d : Derived) (diff : ℕ) (p : Plugin)
      → (held b (post_tick d diff p).0 ≡ held b p) × (delivered b (post_tick d diff p).1 ≡ 0)
  unfolding post_tick
  held-post_tick d diff p = (disconnect_all-held (d.after_network_tick diff) p, refl)

  -- A disconnect throws away the buffers of its endpoint that were not delivered yet, and nothing
  -- else: those of the client, and those of the threads that know the endpoint.
  pub held-drop_endpoint :
      (e : ℕ) (p q : Plugin)
      → drop_endpoint e p ≡ some q
      → held b q + stored_at e p.endpoint_data + stored_at_locals e p.locals ≡ held b p
  unfolding drop_endpoint
  held-drop_endpoint e p q h =
      ground (arith, drop_local-stored e p.locals, erase_key-stored e p.endpoint_data)
