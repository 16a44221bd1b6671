-- ===== src/Network/Threads/Order.antt =====
-- What holds in every state of the threads of core/coreloop_network_plugin.hpp.
use sekkeizu.Base.{
  ℕ, zero, suc, ◌≡◌, refl, sym, subst, subst₂, inl, inr, some, List, [], ◌∷◌, ◌++◌, arith, mem, map,
  erase_key, Bool-cases,
}
use sekkeizu.Network.Defs.{
  Local, Plugin, Event, on_disconnected, Derived, disconnect, disconnect_all, get_local, set_local,
}
use sekkeizu.Network.Tick.{
  announce, after_new_clients, create_clients, run_clients, clear_inputs, after_inputs, post_tick,
  drop_endpoint, drop_local,
}
use sekkeizu.Network.Valid.{IsValid}
use sekkeizu.Network.TickValid.{
  announce-IsValid, run_clients-IsValid, post_tick-IsValid, drop_endpoint-unknown,
}
use sekkeizu.Network.Threads.System.{
  System, Step, packet, asks, announces, accumulates, runs, posts, locks, drops, unlocks, Reach,
  start, next, fresh, blanks, accumulate_local, log, forget,
}
use sekkeizu.Network.Threads.Sections.{
  disconnect_all_lem, handle_network_packet-Handled, packet-IsValid, accumulate_local-IsValid,
  drop_endpoint-IsValid, blanks-All,
}
use sekkeizu.Network.Threads.Vectors.{vector}
use sekkeizu.Network.Threads.Given.{given}
use sekkeizu.Network.Threads.Invariant.{
  IsOwn, of_thread, IsInOrder, announce-IsInOrder, run_clients-IsInOrder, accumulates-IsInOrder,
  posts-IsInOrder,
}
use sekkeizu.Network.Threads.Drops.{drops-IsInOrder}
use sekkeizu.Network.Threads.Packets.{packet-IsInOrder}

module _ (from : ℕ → ℕ) (d : Derived) where
  pub Step-IsValid : {s t : System} → Step from d s t → IsValid s.plugin → IsValid t.plugin
  unfolding disconnect
  Step-IsValid {s} (packet unique_id endpoint buffer q f h e) v =
      subst (λ t. IsValid t.plugin) (sym e)
        (packet-IsValid unique_id endpoint buffer s.plugin q h v)
  Step-IsValid {s} (asks endpoint free e) v =
      subst (λ t. IsValid t.plugin) (sym e) (record { locals = v.locals; clients = v.clients })
  Step-IsValid {s} (announces i e) v =
      subst (λ t. IsValid t.plugin) (sym e) (announce-IsValid d s.plugin v)
  Step-IsValid {s} (accumulates idx l i here e) v =
      subst (λ t. IsValid t.plugin) (sym e) (accumulate_local-IsValid idx l s.plugin here v)
  Step-IsValid {s} (runs idx i n e) v =
      subst (λ t. IsValid t.plugin) (sym e) (run_clients-IsValid d s.plugin v)
  Step-IsValid {s} (posts diff i e) v =
      subst (λ t. IsValid t.plugin) (sym e) (post_tick-IsValid d diff s.plugin v)
  Step-IsValid {s} (locks i e) v = subst (λ t. IsValid t.plugin) (sym e) v
  Step-IsValid {s} (drops endpoint endpoints q i h e) v =
      subst (λ t. IsValid t.plugin) (sym e) (drop_endpoint-IsValid endpoint s.plugin q h v)
  Step-IsValid {s} (unlocks i e) v =
      subst (λ t. IsValid t.plugin) (sym e) (record { locals = v.locals; clients = v.clients })

  abbrev Ordered : System → Type 0
  Ordered s = IsInOrder from s.plugin.endpoint_data s.plugin.locals s.events s.stored

  -- Requests for disconnects, and events without buffers, keep the order.
  silent :
      (p : Plugin) (es : List ℕ) (events : List Event) (stored : ℕ → ℕ → List ℕ)
      → IsInOrder from p.endpoint_data p.locals events stored
      → IsInOrder from
          (disconnect_all es p).endpoint_data
          (disconnect_all es p).locals
          events
          stored
  silent p es events stored v =
      let (locals, clients) = disconnect_all_lem es p in
      subst₂ (λ ls m. IsInOrder from m ls events stored) (sym locals) (sym clients) v

  Step-Ordered : {s t : System} → Step from d s t → IsValid s.plugin → Ordered s → Ordered t
  unfolding disconnect announce run_clients post_tick accumulate_local drop_endpoint
  Step-Ordered {s} (packet unique_id endpoint buffer q f h e) u v =
      let w = handle_network_packet-Handled unique_id endpoint buffer s.plugin q h in
      let p = s.plugin in
      let sent =
        packet-IsInOrder from p.endpoint_data p.locals s.events s.stored v endpoint buffer w.old
          w.new w.pushed (subst (λ i. get_local i p.locals ≡ some w.old) (sym f) w.here) in
      subst Ordered (sym e) (
        subst₂ (λ ls m. IsInOrder from m ls s.events (log unique_id endpoint buffer s.stored))
          (sym w.locals) (sym w.clients)
          (subst
            (λ i.
              IsInOrder from p.endpoint_data (set_local i w.new p.locals) s.events
                (log i endpoint buffer s.stored))
            f sent))
  Step-Ordered {s} (asks endpoint free e) u v =
      subst Ordered (sym e) (record { distinct = v.distinct; own = v.own; in_order = v.in_order })
  Step-Ordered {s} (announces i e) u v =
      let p = s.plugin in
      subst Ordered (sym e) (
        silent
          (record p {
            endpoint_data = create_clients p.new_endpoints p.endpoint_data;
            new_endpoints = [];
          })
          (after_new_clients d p.new_endpoints) _ _
          (announce-IsInOrder from p.endpoint_data p.locals s.events s.stored v p.new_endpoints))
  Step-Ordered {s} (accumulates idx l i here e) u v =
      let p = s.plugin in
      subst Ordered (sym e) (
        let w =
          accumulates-IsInOrder from p.endpoint_data p.locals s.events s.stored v idx l here in
        record { distinct = w.distinct; own = w.own; in_order = w.in_order })
  Step-Ordered {s} (runs idx i n e) u v =
      let p = s.plugin in
      subst Ordered (sym e) (
        silent (record p { endpoint_data = clear_inputs p.endpoint_data })
          (after_inputs d p.endpoint_data) _ _
          (run_clients-IsInOrder from p.endpoint_data p.locals s.events s.stored v))
  Step-Ordered {s} (posts diff i e) u v = subst Ordered (sym e) (
      silent s.plugin (d.after_network_tick diff) _ _
        (posts-IsInOrder from s.plugin.endpoint_data s.plugin.locals s.events s.stored v diff))
  Step-Ordered {s} (locks i e) u v =
      subst Ordered (sym e) (record { distinct = v.distinct; own = v.own; in_order = v.in_order })
  Step-Ordered {s} (drops endpoint endpoints q i h e) u v =
      let p = s.plugin in
      elim (Bool-cases (mem endpoint p.endpoints)) [
        | inl known ↦
            let w =
              drops-IsInOrder from p.endpoint_data p.locals s.events s.stored v endpoint p.endpoints
                u.locals in
            let clients : q.endpoint_data ≡ erase_key endpoint p.endpoint_data = ground arith in
            let locals : q.locals ≡ map (drop_local endpoint) p.locals = ground arith in
            subst Ordered (sym e) (
              subst₂
                (λ ls m.
                  IsInOrder from m ls (s.events ++ on_disconnected endpoint ∷ [])
                    (forget endpoint s.stored))
                (sym locals) (sym clients) w)
        | inr unknown ↦ absurd (ground (arith, drop_endpoint-unknown endpoint p unknown))
      ]
  Step-Ordered {s} (unlocks i e) u v =
      subst Ordered (sym e) (record { distinct = v.distinct; own = v.own; in_order = v.in_order })

  -- A plugin whose threads know nobody is in order.
  blanks-IsOwn :
      (threads i : ℕ) (l : Local)
      → get_local i (blanks threads) ≡ some l
      → l ≡ record { local_endpoints = []; pending_inputs = [] }
  blanks-IsOwn zero i l h = absurd (cc)
  blanks-IsOwn (suc threads) zero l h = ground arith
  blanks-IsOwn (suc threads) (suc i) l h = blanks-IsOwn threads i l h

  start-Ordered : (threads : ℕ) → Ordered (fresh (blanks threads))
  start-Ordered threads = record {
    distinct = tt;
    own = λ i l h. subst (λ m. IsOwn from i m) (sym (blanks-IsOwn threads i l h)) (tt, λ e. tt);
    in_order = λ i e l h.
        subst (λ (m : Local). vector e m.pending_inputs ≡ []) (sym (blanks-IsOwn threads i l h))
          refl;
  }

  pub Reach-IsValid : {s : System} → Reach from d s → IsValid s.plugin
  Reach-IsValid (start threads) = record {
    locals = blanks-All threads;
    clients = λ e h. absurd (cc);
  }
  Reach-IsValid (next r x) = Step-IsValid x (Reach-IsValid r)

  Reach-Ordered : {s : System} → Reach from d s → Ordered s
  Reach-Ordered (start threads) = start-Ordered threads
  Reach-Ordered (next r x) = Step-Ordered x (Reach-IsValid r) (Reach-Ordered r)

  -- Whatever the interleaving of packet jobs, requests for disconnects and ticks: the buffers that the
  -- packet jobs of a thread stored for an endpoint since it was last disconnected are those that the
  -- derived class was given since then, then those in the vector of the client, then those in the
  -- vector of the thread, in the order in which the jobs stored them, which may differ from that in
  -- which the packets came in. None is lost or doubled.
  pub buffers_in_order :
      {s : System} (r : Reach from d s) (i e : ℕ) (l : Local)
      → get_local i s.plugin.locals ≡ some l
      → of_thread from i (given e [] s.events ++ vector e s.plugin.endpoint_data)
          ++ vector e l.pending_inputs
        ≡ s.stored i e
  buffers_in_order r i e l h = let v = Reach-Ordered r in v.in_order i e l h
