-- ===== src/Network/Drain.antt =====
-- A tick of core/coreloop_network_plugin.hpp delivers everything: under the invariant no endpoint
-- with buffers is unknown when the inputs are accumulated.
use sekkeizu.Base.{
  ℕ, ◌+◌, ◌≡◌, refl, ap, ◌∙◌, inl, inr, true, some, List, [], ◌∷◌, ◌++◌, arith, All, mem, has, find,
  replace, find-replace, Option-cases, ==_self,
}
use sekkeizu.Network.Defs.{Local, Plugin, Event, Derived, disconnect, disconnect_all}
use sekkeizu.Network.Tick.{
  announce, accumulate_inputs, accumulate_locals, accumulate, clear_inputs, after_inputs,
  run_clients, drop_all, execute_disconnects, before_disconnects, tick, after_new_clients,
}
use sekkeizu.Network.Valid.{IsLocal, IsValid}
use sekkeizu.Network.Conserve.{stored, stored_locals, held, delivered}
use sekkeizu.Network.Delivery.{disconnect_all-held, clear_inputs-stored, held-post_tick}
use sekkeizu.Network.Ticks.{before_disconnects-delivers, drop_all-held, delivered-append}
use sekkeizu.Network.TickValid.{announce-IsValid, accumulate_inputs-has}

disconnect_all-new_endpoints :
    (es : List ℕ) (p : Plugin) → (disconnect_all es p).new_endpoints ≡ p.new_endpoints
unfolding disconnect_all disconnect
disconnect_all-new_endpoints [] p = refl
disconnect_all-new_endpoints (e ∷ es) p = disconnect_all-new_endpoints es (disconnect e p)

announce-new_endpoints : (d : Derived) (p : Plugin) → (announce d p).0.new_endpoints ≡ []
unfolding announce
announce-new_endpoints d p = disconnect_all-new_endpoints (after_new_clients d p.new_endpoints) _

module _ (b : ℕ) where
  accumulate_inputs-drains :
      (clients inputs : List (ℕ × List ℕ))
      → ((j : ℕ) → has j inputs ≡ true → has j clients ≡ true)
      → stored b (accumulate_inputs clients inputs).1 ≡ 0
  unfolding accumulate_inputs
  accumulate_inputs-drains clients [] h = refl
  accumulate_inputs-drains clients ((e, buffers) ∷ inputs) h =
      elim (Option-cases (find e clients)) [
        | inl gone ↦ absurd (ground (arith, h e, ==_self e))
        | inr (w, here) ↦
            let rest =
              accumulate_inputs-drains (replace e (w ++ buffers) clients) inputs
                (λ j k. ground (arith, h j, find-replace e j (w ++ buffers) w clients here)) in
            ground (arith, rest)
      ]

  accumulate_locals-drains :
      (endpoints : List ℕ) (clients : List (ℕ × List ℕ)) (ls : List Local)
      → ((e : ℕ) → mem e endpoints ≡ true → has e clients ≡ true)
      → All (IsLocal endpoints) ls
      → stored_locals b (accumulate_locals clients ls).1 ≡ 0
  unfolding accumulate_locals
  accumulate_locals-drains endpoints clients [] h v = refl
  accumulate_locals-drains endpoints clients (l ∷ ls) h v =
      let moved = accumulate_inputs clients l.pending_inputs in
      let here =
        accumulate_inputs-drains clients l.pending_inputs
          (λ j k. h j (v.0.shared j (ground (arith, v.0.vectors j)))) in
      let rest =
        accumulate_locals-drains endpoints moved.0 ls
          (λ e k. (accumulate_inputs-has clients l.pending_inputs e).0 ∙ h e k) v.1 in
      omega (arith, here, rest)

  accumulate-drains :
      (p : Plugin) → IsValid p → p.new_endpoints ≡ [] → stored_locals b (accumulate p).locals ≡ 0
  unfolding accumulate
  accumulate-drains p v none_new =
      accumulate_locals-drains p.endpoints p.endpoint_data p.locals
        (λ e k. ground (arith, v.clients e, none_new)) v.locals

  run_clients-drains :
      (d : Derived) (p : Plugin) → stored_locals b p.locals ≡ 0 → held b (run_clients d p).0 ≡ 0
  unfolding run_clients
  run_clients-drains d p h = omega (
    arith,
    disconnect_all-held b (after_inputs d p.endpoint_data)
        (record p { endpoint_data = clear_inputs p.endpoint_data }),
    clear_inputs-stored b p.endpoint_data,
  )

  before_disconnects-drains :
      (d : Derived) (diff : ℕ) (p : Plugin) → IsValid p → held b (before_disconnects d diff p).0 ≡ 0
  unfolding before_disconnects
  before_disconnects-drains d diff p v =
      let a = announce d p in
      let c = run_clients d (accumulate a.0) in
      (held-post_tick b d diff c.0).0
      ∙ run_clients-drains d (accumulate a.0)
          (accumulate-drains a.0 (announce-IsValid d p v) (announce-new_endpoints d p))

  -- In a valid state, a tick that fails no assertion, with no packet handled in between, gives the
  -- derived class every buffer that the plugin holds, just as often as it holds it, and keeps none.
  pub tick-delivers_all :
      (d : Derived) (diff : ℕ) (p q : Plugin) (events : List Event)
      → tick d diff p ≡ some (q, events)
      → IsValid p
      → (delivered b events ≡ held b p) × (held b q ≡ 0)
  unfolding tick execute_disconnects
  tick-delivers_all d diff p q events h v =
      let u = before_disconnects d diff p in
      elim (Option-cases (drop_all u.0.pending_disconnects u.0)) [
        | inl gone ↦ absurd (ground arith)
        | inr ((r, rest), done) ↦
            let kept = drop_all-held b u.0.pending_disconnects u.0 r rest done in
            let same_q : held b q ≡ held b r = ground arith in
            let same_events : events ≡ u.1 ++ rest = ground arith in
            let seen : delivered b events ≡ delivered b u.1 + delivered b rest =
              ap (delivered b) same_events ∙ delivered-append b u.1 rest in
            omega (
              arith,
              kept.0,
              kept.1,
              same_q,
              seen,
              before_disconnects-delivers b d diff p,
              before_disconnects-drains d diff p v,
            )
      ]
