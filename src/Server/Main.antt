-- ===== src/Server/Main.antt =====
-- The program of main.cpp: the loop of core/coreloop.hpp over the plugins of `core_loop_impl`.
use sekkeizu.Base.{ℕ, ◌+◌, ◌≡◌, refl, sym, ap, subst, ◌∙◌, false, some, List, [], ◌∷◌, ◌++◌, arith}
use sekkeizu.Network.Defs.{Plugin, Event, Derived, disconnect_all}
use sekkeizu.Network.Tick.{
  announce, after_new_clients, accumulate, after_inputs, run_clients, post_tick, before_disconnects,
  drop_all, execute_disconnects, tick,
}
use sekkeizu.Network.Conserve.{held, delivered}
use sekkeizu.Network.Ticks.{tick-delivers, delivered-append}
use sekkeizu.Coreloop.Hooks.{
  call_pre_tick_proxy, call_pre_tick_proxy_impl, call_tick_proxy, call_tick_proxy_impl,
  call_post_tick_proxy, call_post_tick_proxy_impl, user_tick_plugin,
}
use sekkeizu.Coreloop.Loop.{FloatApi, Core, Readings, base_time, iterate, run}
use sekkeizu.Server.Hooks.{
  World, network_tick, network_plugin, scheduled_tick_hook, scheduled_tick_plugin, core_loop_impl,
}

-- The callbacks of `core_loop_impl`, with empty bodies.
abbrev pub quiet : Derived
quiet = record {
  after_new_client = λ _. [];
  after_client_inputs = λ _ _. [];
  after_network_tick = λ _. [];
}

abbrev pub user_tick : ℕ → World → World
user_tick diff w = w

-- The program of main.cpp disconnects nobody.
after_new_clients-quiet : (es : List ℕ) → after_new_clients quiet es ≡ []
unfolding after_new_clients
after_new_clients-quiet [] = refl
after_new_clients-quiet (e ∷ es) = after_new_clients-quiet es

after_inputs-quiet : (clients : List (ℕ × List ℕ)) → after_inputs quiet clients ≡ []
unfolding after_inputs
after_inputs-quiet [] = refl
after_inputs-quiet ((e, buffers) ∷ clients) = after_inputs-quiet clients

announce-quiet : (p : Plugin) → (announce quiet p).0.pending_disconnects ≡ p.pending_disconnects
unfolding announce disconnect_all
announce-quiet p = rw (after_new_clients-quiet p.new_endpoints, disconnect_all) refl

run_clients-quiet :
    (p : Plugin) → (run_clients quiet p).0.pending_disconnects ≡ p.pending_disconnects
unfolding run_clients disconnect_all
run_clients-quiet p = rw (after_inputs-quiet p.endpoint_data, disconnect_all) refl

before_disconnects-quiet :
    (diff : ℕ) (p : Plugin)
    → (before_disconnects quiet diff p).0.pending_disconnects ≡ p.pending_disconnects
unfolding before_disconnects post_tick accumulate disconnect_all
before_disconnects-quiet diff p =
    let a = announce quiet p in run_clients-quiet (accumulate a.0) ∙ announce-quiet p

tick-quiet :
    (diff : ℕ) (p : Plugin)
    → p.pending_disconnects ≡ []
    → (q : Plugin) × (events : List Event) × (tick quiet diff p ≡ some (q, events))
      × (q.pending_disconnects ≡ [])
      × ((b : ℕ) → held b q + delivered b events ≡ held b p)
unfolding tick execute_disconnects drop_all
tick-quiet diff p e =
    let u = before_disconnects quiet diff p in
    let none_pending : u.0.pending_disconnects ≡ [] = before_disconnects-quiet diff p ∙ e in
    let q : Plugin = record (u.0) { pending_disconnects = [] } in
    let ran : tick quiet diff p ≡ some (q, u.1 ++ []) =
      rw (none_pending, tick, execute_disconnects, drop_all) refl in
    (q, u.1 ++ [], ran, refl, λ b. (tick-delivers b quiet diff p q (u.1 ++ []) ran).1 none_pending)

-- How often a buffer is in the plugin, or was given to the derived class.
abbrev pub seen : ℕ → World → ℕ
seen b w = held b w.network + delivered b w.events

pub record IsCalm (w : World) : Type 0 where
  pub runs_on : w.aborted ≡ false
  pub nobody_leaves : w.network.pending_disconnects ≡ []

network_tick-IsCalm :
    (diff : ℕ) (w : World)
    → IsCalm w
    → IsCalm (network_tick quiet diff w) × ((b : ℕ) → seen b (network_tick quiet diff w) ≡ seen b w)
unfolding network_tick
network_tick-IsCalm diff w v =
    let (q, events, ran, calm, same) = tick-quiet diff w.network v.nobody_leaves in
    rw (ran, network_tick)
      (
        record { runs_on = v.runs_on; nobody_leaves = calm },
        λ b. omega (arith, same b, delivered-append b w.events events),
      )

iterate-main :
    {F : Type 0} (floats : FloatApi F) (r : Readings) (core : Core F World)
    → (iterate floats (core_loop_impl quiet user_tick) r core).0.plugins
      ≡ scheduled_tick_hook 500
          (base_time core.now r.started)
          (network_tick quiet (base_time core.now r.started) core.plugins)
unfolding iterate core_loop_impl network_plugin scheduled_tick_plugin user_tick_plugin
    call_pre_tick_proxy call_pre_tick_proxy_impl call_tick_proxy call_tick_proxy_impl
    call_post_tick_proxy call_post_tick_proxy_impl
iterate-main floats r core = refl

scheduled_tick_hook-IsCalm :
    (diff : ℕ) (w : World)
    → IsCalm w
    → IsCalm (scheduled_tick_hook 500 diff w)
      × ((b : ℕ) → seen b (scheduled_tick_hook 500 diff w) ≡ seen b w)
unfolding scheduled_tick_hook
scheduled_tick_hook-IsCalm diff w v =
    (record { runs_on = v.runs_on; nobody_leaves = v.nobody_leaves }, λ b. refl)

-- The loop of main.cpp, whose derived class disconnects nobody, never fails an assertion of the
-- network plugin, over any readings of the clock and with no packet in between: when it starts with none
-- failed and no disconnect pending, it ends so, and each buffer is in the plugin or was given to
-- `client_inputs` as often as before: none is lost.
pub run_main-IsCalm :
    {F : Type 0} (floats : FloatApi F) (readings : List Readings) (core : Core F World)
    → IsCalm core.plugins
    → let w = (run floats (core_loop_impl quiet user_tick) readings core).plugins in
      IsCalm w × ((b : ℕ) → seen b w ≡ seen b core.plugins)
unfolding run
run_main-IsCalm floats [] core v = (v, λ b. refl)
run_main-IsCalm floats (r ∷ readings) core v =
    let diff = base_time core.now r.started in
    let next = (iterate floats (core_loop_impl quiet user_tick) r core).0 in
    let n = network_tick-IsCalm diff core.plugins v in
    let s = scheduled_tick_hook-IsCalm diff (network_tick quiet diff core.plugins) n.0 in
    let e = iterate-main floats r core in
    let rest = run_main-IsCalm floats readings next (subst IsCalm (sym e) s.0) in
    (rest.0, λ b. rest.1 b ∙ ap (seen b) e ∙ s.1 b ∙ n.1 b)
