-- ===== src/Coreloop/Once.antt =====
-- What one iteration of the loop of core/coreloop.hpp does to the state of one plugin.
use sekkeizu.Base.{ℕ, ◌≡◌, refl, ap, ◌∙◌, List, [], ◌∷◌, ◌++◌, All}
use sekkeizu.Coreloop.Hooks.{
  Plugin, in_order, call_pre_tick_proxy_impl, call_tick_proxy_impl, call_post_tick_proxy_impl,
  call_pre_tick_proxy, call_tick_proxy, call_post_tick_proxy,
}
use sekkeizu.Coreloop.Loop.{FloatApi, Core, Readings, base_time, iterate}

module _ {W S : Type 0} (part : W → S) where
  -- A call that leaves a part of the state alone.
  abbrev pub Leaves : (W → W) → Type 0
  Leaves f = (w : W) → part (f w) ≡ part w

  -- A call that acts on the part as `f`.
  abbrev pub ActsAs : (S → S) → (W → W) → Type 0
  ActsAs f g = (w : W) → part (g w) ≡ f (part w)

  in_order-Leaves :
      (impl : Plugin W → W → W) (plugins : List (Plugin W))
      → All (λ p. Leaves (impl p)) plugins
      → Leaves (in_order impl plugins)
  in_order-Leaves impl [] a w = refl
  in_order-Leaves impl (p ∷ plugins) a w = in_order-Leaves impl plugins a.1 (impl p w) ∙ a.0 w

  in_order-ActsAs :
      (impl : Plugin W → W → W) (f : S → S) (before : List (Plugin W)) (p : Plugin W)
      (after : List (Plugin W))
      → All (λ q. Leaves (impl q)) before
      → All (λ q. Leaves (impl q)) after
      → ActsAs f (impl p)
      → ActsAs f (in_order impl (before ++ p ∷ after))
  in_order-ActsAs impl f [] p after b a h w = in_order-Leaves impl after a (impl p w) ∙ h w
  in_order-ActsAs impl f (q ∷ before) p after b a h w =
      in_order-ActsAs impl f before p after b.1 a h (impl q w) ∙ ap f (b.0 w)

  -- A plugin whose hooks do not touch the part.
  pub record IsApart (p : Plugin W) : Type 0 where
    pub pre : Leaves (call_pre_tick_proxy_impl p)
    pub main : (diff : ℕ) → Leaves (call_tick_proxy_impl diff p)
    pub post : Leaves (call_post_tick_proxy_impl p)

  pre_hooks :
      (ps : List (Plugin W)) → All IsApart ps → All (λ p. Leaves (call_pre_tick_proxy_impl p)) ps
  pre_hooks [] a = tt
  pre_hooks (p ∷ ps) a = (a.0.pre, pre_hooks ps a.1)

  main_hooks :
      (diff : ℕ) (ps : List (Plugin W))
      → All IsApart ps
      → All (λ p. Leaves (call_tick_proxy_impl diff p)) ps
  main_hooks diff [] a = tt
  main_hooks diff (p ∷ ps) a = (a.0.main diff, main_hooks diff ps a.1)

  post_hooks :
      (ps : List (Plugin W)) → All IsApart ps → All (λ p. Leaves (call_post_tick_proxy_impl p)) ps
  post_hooks [] a = tt
  post_hooks (p ∷ ps) a = (a.0.post, post_hooks ps a.1)

  -- In one iteration the hooks of a plugin act once each on the part of the state that is its own,
  -- `pre_tick` first, then `tick` with the time since the iteration before, then `post_tick`,
  -- whatever plugins stand before and behind it that leave the part alone.
  pub iterate-once :
      {F : Type 0} (floats : FloatApi F) (before : List (Plugin W)) (p : Plugin W)
      (after : List (Plugin W)) (pre post : S → S) (main : ℕ → S → S) (r : Readings)
      (core : Core F W)
      → All IsApart before
      → All IsApart after
      → ActsAs pre (call_pre_tick_proxy_impl p)
      → ((diff : ℕ) → ActsAs (main diff) (call_tick_proxy_impl diff p))
      → ActsAs post (call_post_tick_proxy_impl p)
      → part (iterate floats (before ++ p ∷ after) r core).0.plugins
        ≡ post (main (base_time core.now r.started) (pre (part core.plugins)))
  unfolding iterate call_pre_tick_proxy call_tick_proxy call_post_tick_proxy
  iterate-once floats before p after pre post main r core b a h_pre h_main h_post =
      let diff = base_time core.now r.started in
      let plugins = before ++ p ∷ after in
      let w_1 = in_order call_pre_tick_proxy_impl plugins core.plugins in
      let w_2 = in_order (call_tick_proxy_impl diff) plugins w_1 in
      in_order-ActsAs call_post_tick_proxy_impl post before p after (post_hooks before b)
        (post_hooks after a) h_post w_2
      ∙ ap post (
          in_order-ActsAs (call_tick_proxy_impl diff) (main diff) before p after
            (main_hooks diff before b) (main_hooks diff after a) (h_main diff) w_1
          ∙ ap (main diff) (
              in_order-ActsAs call_pre_tick_proxy_impl pre before p after (pre_hooks before b)
                (pre_hooks after a) h_pre core.plugins))
