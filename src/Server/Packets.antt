-- ===== src/Server/Packets.antt =====
-- What a packet job of core/coreloop_network_plugin.hpp does to the pools and to the plugin.
use sekkeizu.Base.{ℕ, ◌+◌, ◌≡◌, refl, some, arith, Option-cases, inl, inr, ◌==◌}
use sekkeizu.Network.Defs.{handle_network_packet}
use sekkeizu.Base.{subst}
use sekkeizu.Network.Conserve.{held, held-handle_network_packet}
use sekkeizu.Pool.Defs.{bit, QueueApi, HeapApi, release}
use sekkeizu.Pool.Blocks.{release-HasBlocks}
use sekkeizu.Pool.Lives.{lives, release-lives}
use sekkeizu.Coreloop.Receive.{Memory}
use sekkeizu.Coreloop.Operations.{release_network_endpoint}
use sekkeizu.Server.Hooks.{PacketJob, World, run_packet}
use sekkeizu.Server.Receives.{HasPools}

module _ {Q H : Type 0} (queue : QueueApi Q) (pools : HeapApi H) where
  -- The buffer goes to the plugin, the endpoint to its pool.
  pub record Ran (job : PacketJob) (m q : Memory Q H World) : Type 0 where
    pub has_pools : HasPools queue pools q
    pub same_buffers : q.data_mempool ≡ m.data_mempool
    pub endpoints :
        (x : ℕ)
        → lives x q.endpoints_mempool + bit (job.endpoint == x) ≡ lives x m.endpoints_mempool
    pub stored_buffer :
        (x : ℕ) → held x q.plugins.network ≡ held x m.plugins.network + bit (job.buffer == x)
    pub same_jobs : q.plugins.jobs ≡ m.plugins.jobs

  pub run_packet-Ran :
      (job : PacketJob) (m q : Memory Q H World)
      → run_packet queue pools job m ≡ some q
      → HasPools queue pools m
      → Ran job m q
  unfolding run_packet release_network_endpoint
  run_packet-Ran job m q h v = elim (Option-cases (m.endpoints_mempool.objects job.endpoint)) [
    | inl gone ↦ absurd (ground arith)
    | inr (sender, here) ↦
        elim (Option-cases
          (handle_network_packet job.unique_id sender job.buffer m.plugins.network)) [
            | inl failed ↦ absurd (ground arith)
            | inr (n, handled) ↦
                elim (Option-cases (release queue pools job.endpoint m.endpoints_mempool)) [
                  | inl failed ↦ absurd (ground arith)
                  | inr (endpoints, freed) ↦
                      let q' : Memory Q H World = record m {
                        endpoints_mempool = endpoints;
                        plugins = record (m.plugins) { network = n };
                      } in
                      let e : q' ≡ q = ground arith in
                      subst (Ran job m) e (record {
                        has_pools = record {
                          data_blocks = v.data_blocks;
                          endpoint_blocks =
                              (release-HasBlocks queue pools m.endpoints_mempool v.endpoint_blocks
                                job.endpoint endpoints freed).0;
                        };
                        same_buffers = refl;
                        endpoints = λ x.
                            release-lives queue pools x job.endpoint m.endpoints_mempool endpoints
                              freed;
                        stored_buffer = λ x. ground (
                          arith,
                          held-handle_network_packet x job.unique_id sender job.buffer
                              m.plugins.network n handled,
                        );
                        same_jobs = refl;
                      })
                ]
          ]
  ]
