-- ===== src/Server/Sections.antt =====
-- How a section of the tick in core/coreloop_network_plugin.hpp moves the buffers.
use sekkeizu.Base.{ℕ, ◌+◌, ◌≤◌, ◌≡◌, refl, ap, some, List, [], ◌∷◌, arith, count, count-append}
use sekkeizu.Network.Defs.{
  Local, Plugin, Event, new_client, client_inputs, post_network_tick, on_disconnected, Derived,
  get_local, disconnect,
}
use sekkeizu.Network.Tick.{accumulate_inputs}
use sekkeizu.Network.Conserve.{held, delivered, set_local-stored}
use sekkeizu.Network.Delivery.{
  held-announce, accumulate_inputs-stored, held-run_clients, held-post_tick, held-drop_endpoint,
}
use sekkeizu.Network.Threads.System.{accumulate_local}
use sekkeizu.Server.System.{Section, handed}

module _ (x : ℕ) where
  count-handed : (events : List Event) → count x (handed events) ≡ delivered x events
  count-handed [] = refl
  count-handed (client_inputs _ buffers ∷ events) =
      omega (arith, count-append x buffers (handed events), count-handed events)
  count-handed (new_client _ ∷ events) = count-handed events
  count-handed (post_network_tick _ ∷ events) = count-handed events
  count-handed (on_disconnected _ ∷ events) = count-handed events

  pub held-accumulate_local :
      (idx : ℕ) (l : Local) (p : Plugin)
      → get_local idx p.locals ≡ some l
      → held x (accumulate_local idx l p) ≡ held x p
  unfolding accumulate_local
  held-accumulate_local idx l p here =
      let moved = accumulate_inputs p.endpoint_data l.pending_inputs in
      omega (
        arith,
        accumulate_inputs-stored x p.endpoint_data l.pending_inputs,
        set_local-stored x idx l (record l { pending_inputs = moved.1 }) p.locals here,
      )

  -- What a section hands to the derived class leaves the plugin, and nothing comes from nowhere.
  pub held-Section :
      {d : Derived} {p q : Plugin} {events : List Event}
      → Section d p q events
      → held x q + count x (handed events) ≤ held x p
  unfolding disconnect
  held-Section {d} {p} {q} {events} (Section.asks endpoint e none_handed) =
      rw (e, none_handed) (omega arith)
  held-Section {d} {p} {q} {events} (Section.announces e h) =
      omega (arith, ap (held x) e, ap (delivered x) h, count-handed events, held-announce x d p)
  held-Section {d} {p} {q} {events} (Section.accumulates idx l here e none_handed) = omega (
    arith,
    ap (held x) e,
    ap (delivered x) none_handed,
    count-handed events,
    held-accumulate_local idx l p here,
  )
  held-Section {d} {p} {q} {events} (Section.runs e h) =
      omega (arith, ap (held x) e, ap (delivered x) h, count-handed events, held-run_clients x d p)
  held-Section {d} {p} {q} {events} (Section.posts diff e h) =
      omega
        (arith, ap (held x) e, ap (delivered x) h, count-handed events, held-post_tick x d diff p)
  held-Section {d} {p} {q} {events} (Section.drops endpoint dropped h) =
      omega
        (arith, ap (delivered x) h, count-handed events, held-drop_endpoint x endpoint p q dropped)
  held-Section {d} {p} {q} {events} (Section.clears e none_handed) =
      rw (e, none_handed) (omega arith)
