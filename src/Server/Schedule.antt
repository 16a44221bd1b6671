-- ===== src/Server/Schedule.antt =====
-- The scheduled tick of main.cpp, in the loop of core/coreloop.hpp beside the other plugins.
use sekkeizu.Base.{
  ℕ, ◌≡◌, refl, sym, ap, ◌∙◌, none, some, List, [], ◌∷◌, Option-cases, inl, inr, ◌++◌, arith,
  append_assoc, append-nil,
}
use sekkeizu.Network.Defs.{Derived}
use sekkeizu.Coreloop.Hooks.{
  call_pre_tick_proxy_impl, call_tick_proxy_impl, call_post_tick_proxy_impl, user_tick_plugin,
}
use sekkeizu.Coreloop.Loop.{FloatApi, Core, Readings, base_time, iterate, run}
use sekkeizu.Coreloop.Once.{IsApart, iterate-once}
use sekkeizu.Coreloop.Scheduled.{scheduled_tick, scheduled_ticks}
use sekkeizu.Server.Hooks.{
  World, network_tick, network_plugin, scheduled_tick_hook, scheduled_tick_plugin, core_loop_impl,
}

-- The times of the ticks.
abbrev pub periods : ℕ → List Readings → List ℕ
periods now [] = []
periods now (r ∷ readings) = base_time now r.started ∷ periods r.started readings

-- What the scheduled tick keeps.
abbrev pub schedule : World → ℕ × List ℕ
schedule w = (w.elapsed, w.scheduled)

advance : ℕ → ℕ × List ℕ → ℕ × List ℕ
advance diff s =
    let once = scheduled_tick 500 diff s.0 in
    (once.0, elim once.1 [ none ↦ s.1 | some time ↦ s.1 ++ time ∷ [] ])

-- The calls over some times, from what the scheduled tick keeps.
abbrev after_ticks : List ℕ → ℕ × List ℕ → ℕ × List ℕ
after_ticks diffs s = let r = scheduled_ticks 500 diffs s.0 in (r.0, s.1 ++ r.1)

after_ticks-advance :
    (diff : ℕ) (diffs : List ℕ) (s : ℕ × List ℕ)
    → after_ticks diffs (advance diff s) ≡ after_ticks (diff ∷ diffs) s
unfolding scheduled_ticks advance
after_ticks-advance diff diffs s = elim (Option-cases (scheduled_tick 500 diff s.0).1) [
  | inl early ↦ ground (arith)
  | inr (time, late) ↦ ground (
    arith,
    append_assoc s.1 (time ∷ []) (scheduled_ticks 500 diffs (scheduled_tick 500 diff s.0).0).1,
  )
]

module _ (d : Derived) (tick_of_user : ℕ → World → World) where
  network_plugin-IsApart : IsApart schedule (network_plugin d)
  unfolding network_plugin network_tick call_pre_tick_proxy_impl call_tick_proxy_impl
      call_post_tick_proxy_impl
  network_plugin-IsApart = record {
    pre = λ w. refl;
    main = λ diff w. ground (arith);
    post = λ w. refl;
  }

  user_tick_plugin-IsApart :
      ((diff : ℕ) (w : World) → schedule (tick_of_user diff w) ≡ schedule w)
      → IsApart schedule (user_tick_plugin tick_of_user)
  unfolding user_tick_plugin call_pre_tick_proxy_impl call_tick_proxy_impl call_post_tick_proxy_impl
  user_tick_plugin-IsApart h = record { pre = λ w. refl; main = h; post = λ w. refl }

  iterate-scheduled_tick :
      {F : Type 0} (floats : FloatApi F) (r : Readings) (core : Core F World)
      → ((diff : ℕ) (w : World) → schedule (tick_of_user diff w) ≡ schedule w)
      → schedule (iterate floats (core_loop_impl d tick_of_user) r core).0.plugins
        ≡ advance (base_time core.now r.started) (schedule core.plugins)
  unfolding core_loop_impl scheduled_tick_plugin scheduled_tick_hook advance
      call_pre_tick_proxy_impl call_tick_proxy_impl call_post_tick_proxy_impl
  iterate-scheduled_tick floats r core h =
      iterate-once schedule floats (network_plugin d ∷ []) (scheduled_tick_plugin 500)
        (user_tick_plugin tick_of_user ∷ []) (λ s. s) (λ s. s) advance r core
        (network_plugin-IsApart, tt) (user_tick_plugin-IsApart h, tt) (λ w. refl) (λ diff w. refl)
        (λ w. refl)

  iterate-now :
      {F : Type 0} (floats : FloatApi F) (r : Readings) (core : Core F World)
      → (iterate floats (core_loop_impl d tick_of_user) r core).0.now ≡ r.started
  unfolding iterate
  iterate-now floats r core = refl

  -- The loop runs the scheduled tick of `core_loop_impl` as if it stood alone: whatever the network
  -- plugin does, and a user tick that leaves the schedule alone, the calls of `scheduled_tick` and the
  -- time that is left over are those of a period of 500 over the times between the starts of the iterations.
  pub run-scheduled_ticks :
      {F : Type 0} (floats : FloatApi F) (readings : List Readings) (core : Core F World)
      → ((diff : ℕ) (w : World) → schedule (tick_of_user diff w) ≡ schedule w)
      → let r = scheduled_ticks 500 (periods core.now readings) core.plugins.elapsed in
        schedule (run floats (core_loop_impl d tick_of_user) readings core).plugins
        ≡ (r.0, core.plugins.scheduled ++ r.1)
  unfolding run scheduled_ticks
  run-scheduled_ticks floats [] core h =
      ap (λ l. (core.plugins.elapsed, l)) (sym (append-nil core.plugins.scheduled))
  run-scheduled_ticks floats (r ∷ readings) core h =
      let next = (iterate floats (core_loop_impl d tick_of_user) r core).0 in
      run-scheduled_ticks floats readings next h
      ∙ ap (λ now. after_ticks (periods now readings) (schedule next.plugins))
          (iterate-now floats r core)
      ∙ ap (after_ticks (periods r.started readings)) (iterate-scheduled_tick floats r core h)
      ∙ after_ticks-advance (base_time core.now r.started) (periods r.started readings)
          (schedule core.plugins)
