-- ===== src/Coreloop/Hooks.antt =====
-- The hooks of a plugin and the proxies of core/coreloop.hpp that call them. The plugins are base
-- classes of the core loop; what all of them together keep is one value of the type `W`.
use sekkeizu.Base.{ℕ, Option, none, some, List, [], ◌∷◌}

-- The methods that a plugin may have; a concept looks for each of them.
pub record Plugin (W : Type 0) : Type 0 where
  pub network_thread_start : Option (W → W)
  pub pre_tick : Option (W → W)
  pub tick : Option (ℕ → W → W)
  pub post_tick : Option (W → W)
  pub handle_network_packet : Option (ℕ → ℕ → ℕ → W → W)

module _ {W : Type 0} where
  -- `if constexpr (has_method) call it`.
  abbrev pub call : Option (W → W) → W → W
  call none w = w
  call (some method) w = method w

  unfoldable pub call_network_thread_start_proxy_impl : Plugin W → W → W
  call_network_thread_start_proxy_impl p = call p.network_thread_start

  unfoldable pub call_pre_tick_proxy_impl : Plugin W → W → W
  call_pre_tick_proxy_impl p = call p.pre_tick

  unfoldable pub call_tick_proxy_impl : ℕ → Plugin W → W → W
  call_tick_proxy_impl diff p w = elim p.tick [ none ↦ w | some method ↦ method diff w ]

  unfoldable pub call_post_tick_proxy_impl : Plugin W → W → W
  call_post_tick_proxy_impl p = call p.post_tick

  unfoldable pub call_handle_network_packet_proxy_impl : ℕ → ℕ → ℕ → Plugin W → W → W
  call_handle_network_packet_proxy_impl unique_id endpoint buffer p w =
      elim p.handle_network_packet [ none ↦ w | some method ↦ method unique_id endpoint buffer w ]

  -- The fold expression `(..., impl<plugins>())`.
  abbrev pub in_order : (Plugin W → W → W) → List (Plugin W) → W → W
  in_order impl [] w = w
  in_order impl (p ∷ plugins) w = in_order impl plugins (impl p w)

  unfoldable pub call_network_thread_start_proxy : List (Plugin W) → W → W
  call_network_thread_start_proxy = in_order call_network_thread_start_proxy_impl

  unfoldable pub call_pre_tick_proxy : List (Plugin W) → W → W
  call_pre_tick_proxy = in_order call_pre_tick_proxy_impl

  unfoldable pub call_tick_proxy : ℕ → List (Plugin W) → W → W
  call_tick_proxy diff = in_order (call_tick_proxy_impl diff)

  unfoldable pub call_post_tick_proxy : List (Plugin W) → W → W
  call_post_tick_proxy = in_order call_post_tick_proxy_impl

  unfoldable pub call_handle_network_packet_proxy : ℕ → ℕ → ℕ → List (Plugin W) → W → W
  call_handle_network_packet_proxy unique_id endpoint buffer =
      in_order (call_handle_network_packet_proxy_impl unique_id endpoint buffer)

  -- core/coreloop_user_tick_plugin.hpp.
  unfoldable pub user_tick_plugin : (ℕ → W → W) → Plugin W
  user_tick_plugin user_tick = record {
    network_thread_start = none;
    pre_tick = none;
    tick = some (λ diff w. user_tick diff w);
    post_tick = none;
    handle_network_packet = none;
  }

  -- core/coreloop_palanteer_tick_time.hpp, over `plBegin("Tick")` and `plEnd("Tick")`.
  unfoldable pub palanteer_tick_time : (W → W) → (W → W) → Plugin W
  palanteer_tick_time begin end = record {
    network_thread_start = none;
    pre_tick = some (λ w. begin w);
    tick = none;
    post_tick = some (λ w. end w);
    handle_network_packet = none;
  }
