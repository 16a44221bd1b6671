-- ===== src/Server/Sound.antt =====
-- What the state of the network plugin and the packet jobs keep, in core/coreloop_network_plugin.hpp.
use sekkeizu.Base.{
  ℕ, ◌<◌, ◌≡◌, refl, subst, some, List, arith, length, ltb, All, All-append, Option-cases,
  Bool-cases, inl, inr,
}
use sekkeizu.Network.Defs as Net
use sekkeizu.Network.Defs.{Event, Derived, disconnect, handle_network_packet}
use sekkeizu.Network.Valid.{IsValid}
use sekkeizu.Network.TickValid.{announce-IsValid, run_clients-IsValid, post_tick-IsValid}
use sekkeizu.Network.Threads.Sections.{
  packet-IsValid, packet-length, accumulate_local-IsValid, accumulate_local-length, announce-length,
  run_clients-length, post_tick-length, drop_endpoint-IsValid, drop_endpoint-length,
}
use sekkeizu.Pool.Defs.{QueueApi, HeapApi, release}
use sekkeizu.Coreloop.Receive.{Memory}
use sekkeizu.Coreloop.Operations.{execute, release_network_endpoint}
use sekkeizu.Server.Hooks.{PacketJob, World, push_packet, run_packet}
use sekkeizu.Server.System.{Section}

-- A section of the tick keeps the plugin valid, and the number of its threads.
pub Section-keeps :
    {d : Derived} {p q : Net.Plugin} {events : List Event}
    → Section d p q events
    → IsValid p
    → IsValid q × (length q.locals ≡ length p.locals)
unfolding disconnect
Section-keeps {d} {p} (Section.asks endpoint e _) v =
    rw e (record { locals = v.locals; clients = v.clients }, refl)
Section-keeps {d} {p} (Section.announces e _) v = rw e (announce-IsValid d p v, announce-length d p)
Section-keeps {d} {p} (Section.accumulates idx l here e _) v =
    rw e (accumulate_local-IsValid idx l p here v, accumulate_local-length idx l p)
Section-keeps {d} {p} (Section.runs e _) v =
    rw e (run_clients-IsValid d p v, run_clients-length d p)
Section-keeps {d} {p} (Section.posts diff e _) v =
    rw e (post_tick-IsValid d diff p v, post_tick-length d diff p)
Section-keeps {d} {p} {q} (Section.drops endpoint dropped _) v =
    (drop_endpoint-IsValid endpoint p q dropped v, drop_endpoint-length endpoint p q dropped)
Section-keeps {d} {p} (Section.clears e _) v =
    rw e (record { locals = v.locals; clients = v.clients }, refl)

-- The plugin is valid, and each packet job is of one of its threads.
pub record Sound (w : World) : Type 0 where
  pub valid : IsValid w.network
  pub known : All (λ (j : PacketJob). j.unique_id < length w.network.locals) w.jobs

pub push_packet-Sound :
    (unique_id endpoint buffer : ℕ) (w : World)
    → Sound w
    → Sound (push_packet unique_id endpoint buffer w)
unfolding push_packet execute
push_packet-Sound unique_id endpoint buffer w v =
    elim (Bool-cases (ltb unique_id (length w.network.locals))) [
      | inl known ↦
          rw (known, push_packet)
            (record { valid = v.valid; known = All-append _ w.jobs _ v.known (ground arith, tt) })
      | inr unknown ↦ rw (unknown, push_packet) (record { valid = v.valid; known = v.known })
    ]

module _ {Q H : Type 0} (queue : QueueApi Q) (pools : HeapApi H) where
  pub run_packet-Sound :
      (job : PacketJob) (m q : Memory Q H World)
      → run_packet queue pools job m ≡ some q
      → Sound m.plugins
      → Sound q.plugins
  unfolding run_packet release_network_endpoint
  run_packet-Sound job m q h v = elim (Option-cases (m.endpoints_mempool.objects job.endpoint)) [
    | inl gone ↦ absurd (ground arith)
    | inr (sender, here) ↦
        elim (Option-cases
          (handle_network_packet job.unique_id sender job.buffer m.plugins.network)) [
            | inl failed ↦ absurd (ground arith)
            | inr (n, stored) ↦
                elim (Option-cases (release queue pools job.endpoint m.endpoints_mempool)) [
                  | inl failed ↦ absurd (ground arith)
                  | inr (endpoints, freed) ↦
                      let same : record (m.plugins) { network = n } ≡ q.plugins = ground arith in
                      let l =
                        packet-length job.unique_id sender job.buffer m.plugins.network n stored in
                      subst Sound same (record {
                        valid =
                            packet-IsValid job.unique_id sender job.buffer m.plugins.network n
                              stored v.valid;
                        known = rw l v.known;
                      })
                ]
          ]
  ]
