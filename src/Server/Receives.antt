-- ===== src/Server/Receives.antt =====
-- How a receive handler of core/coreloop.hpp changes what lives in the two pools.
use sekkeizu.Base.{ℕ, ◌+◌, ◌≤◌, ◌≡◌, refl, ap, ◌∙◌, none, some, arith, ◌==◌, Option-cases, inl, inr}
use sekkeizu.Network.Defs.{Derived}
use sekkeizu.Pool.Defs.{bit, QueueApi, HeapApi, release}
use sekkeizu.Pool.Blocks.{is_some, HasBlocks, release-HasBlocks}
use sekkeizu.Pool.Lives.{lives, lives_here, write-lives, write-lives_new, release-lives}
use sekkeizu.Coreloop.Hooks.{
  call_handle_network_packet_proxy, call_handle_network_packet_proxy_impl, user_tick_plugin,
}
use sekkeizu.Coreloop.Receive.{
  Datagram, Receive, Memory, handle_connections, release_both, hand_over, on_receive,
}
use sekkeizu.Coreloop.Received.{handle_connections-IsArmed, write-HasBlocks}
use sekkeizu.Server.Hooks.{
  World, push_packet, network_plugin, scheduled_tick_plugin, core_loop_impl,
}

module _ {Q H : Type 0} (queue : QueueApi Q) (pools : HeapApi H) where
  pub record HasPools (m : Memory Q H World) : Type 0 where
    pub data_blocks : HasBlocks queue pools m.data_mempool
    pub endpoint_blocks : HasBlocks queue pools m.endpoints_mempool

  -- A new receive takes one buffer and one endpoint.
  pub record Opens (m : Memory Q H World) (r : Receive) (q : Memory Q H World) : Type 0 where
    pub has_pools : HasPools q
    pub buffers : (x : ℕ) → lives x q.data_mempool ≡ lives x m.data_mempool + bit (r.buffer == x)
    pub endpoints :
        (x : ℕ) → lives x q.endpoints_mempool ≡ lives x m.endpoints_mempool + bit (r.endpoint == x)
    pub same : q.plugins ≡ m.plugins

  module _ (d : Derived) (user_tick : ℕ → World → World) where
    pub handle_connections-Opens :
        (thread : ℕ) (r : Receive) (m q : Memory Q H World)
        → handle_connections queue pools (core_loop_impl d user_tick) thread m ≡ some (r, q)
        → HasPools m
        → Opens m r q
    handle_connections-Opens thread r m q h v =
        let a =
          handle_connections-IsArmed queue pools (core_loop_impl d user_tick) thread m v.data_blocks
            v.endpoint_blocks r q h in
        record {
          has_pools = record { data_blocks = a.data_blocks; endpoint_blocks = a.endpoint_blocks };
          buffers = λ x.
              ap (λ o. bit (is_some (o x))) a.buffers
              ∙ write-lives_new x r.buffer _ m.data_mempool a.new_buffer;
          endpoints = λ x.
              ap (λ o. bit (is_some (o x))) a.endpoints
              ∙ write-lives_new x r.endpoint _ m.endpoints_mempool a.new_endpoint;
          same = a.same;
        }

    -- The packet goes to the network plugin, and to no other.
    packet_hook :
        (unique_id endpoint buffer : ℕ) (w : World)
        → call_handle_network_packet_proxy unique_id endpoint buffer (core_loop_impl d user_tick) w
          ≡ push_packet unique_id endpoint buffer w
    unfolding call_handle_network_packet_proxy call_handle_network_packet_proxy_impl core_loop_impl
        network_plugin scheduled_tick_plugin user_tick_plugin
    packet_hook unique_id endpoint buffer w = refl

    -- A packet: the old buffer and endpoint keep living, and go to a packet job.
    pub packet-Opens :
        (thread unique_id : ℕ) (r r' : Receive) (datagram : Datagram) (m q : Memory Q H World)
        → on_receive queue pools (core_loop_impl d user_tick) thread unique_id r (some datagram) m
          ≡ some (r', q)
        → HasPools m
        → 1 ≤ lives r.buffer m.data_mempool
        → 1 ≤ lives r.endpoint m.endpoints_mempool
        → (n : Memory Q H World) × Opens n r' q
          × ((x : ℕ) → lives x n.data_mempool ≡ lives x m.data_mempool)
          × ((x : ℕ) → lives x n.endpoints_mempool ≡ lives x m.endpoints_mempool)
          × (n.plugins ≡ push_packet unique_id r.endpoint r.buffer m.plugins)
    unfolding on_receive hand_over
    packet-Opens thread unique_id r r' datagram m q h v b e =
        let n = hand_over queue pools (core_loop_impl d user_tick) unique_id r datagram m in
        let (old, here) = lives_here r.buffer m.data_mempool b in
        let (old_e, here_e) = lives_here r.endpoint m.endpoints_mempool e in
        (
          n,
          handle_connections-Opens thread r' n q h (record {
            data_blocks =
                write-HasBlocks queue pools r.buffer old _ m.data_mempool v.data_blocks here;
            endpoint_blocks =
                write-HasBlocks queue pools r.endpoint old_e _ m.endpoints_mempool v.endpoint_blocks
                  here_e;
          }),
          λ x. write-lives x r.buffer old _ m.data_mempool here,
          λ x. write-lives x r.endpoint old_e _ m.endpoints_mempool here_e,
          packet_hook unique_id r.endpoint r.buffer m.plugins,
        )

    -- An error: the old buffer and endpoint go back to their pools first.
    pub error-Opens :
        (thread unique_id : ℕ) (r r' : Receive) (m q : Memory Q H World)
        → on_receive queue pools (core_loop_impl d user_tick) thread unique_id r none m
          ≡ some (r', q)
        → HasPools m
        → (n : Memory Q H World) × Opens n r' q
          × ((x : ℕ) → lives x n.data_mempool + bit (r.buffer == x) ≡ lives x m.data_mempool)
          × ((x : ℕ)
              → lives x n.endpoints_mempool + bit (r.endpoint == x) ≡ lives x m.endpoints_mempool)
          × (n.plugins ≡ m.plugins)
    unfolding on_receive release_both
    error-Opens thread unique_id r r' m q h v =
        elim (Option-cases (release queue pools r.buffer m.data_mempool)) [
          | inl gone ↦ absurd (ground arith)
          | inr (freed_buffers, freed) ↦
              elim (Option-cases (release queue pools r.endpoint m.endpoints_mempool)) [
                | inl gone ↦ absurd (ground arith)
                | inr (endpoints, freed_e) ↦
                    let n : Memory Q H World = record m {
                      data_mempool = freed_buffers;
                      endpoints_mempool = endpoints;
                    } in
                    (
                      n,
                      handle_connections-Opens thread r' n q (ground arith) (record {
                        data_blocks =
                            (release-HasBlocks queue pools m.data_mempool v.data_blocks r.buffer
                              freed_buffers freed).0;
                        endpoint_blocks =
                            (release-HasBlocks queue pools m.endpoints_mempool v.endpoint_blocks
                              r.endpoint endpoints freed_e).0;
                      }),
                      λ x. release-lives queue pools x r.buffer m.data_mempool freed_buffers freed,
                      λ x.
                          release-lives queue pools x r.endpoint m.endpoints_mempool endpoints
                            freed_e,
                      refl,
                    )
              ]
        ]
