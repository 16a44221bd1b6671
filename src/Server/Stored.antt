-- ===== src/Server/Stored.antt =====
-- The packet jobs of core/coreloop_network_plugin.hpp run to their end, on every interleaving of the
-- threads of the server.
use sekkeizu.Base.{
  ℕ, ◌<◌, ◌≡◌, refl, sym, subst, ◌∙◌, Option, none, some, List, ◌∷◌, ◌++◌, arith, length, All,
  All-append, All-split, Option-cases, inl, inr,
}
use sekkeizu.Network.Defs.{Derived}
use sekkeizu.Network.Valid.{handle_network_packet-total}
use sekkeizu.Network.Threads.Sections.{blanks-All}
use sekkeizu.Pool.Defs.{QueueApi, HeapApi, release}
use sekkeizu.Pool.Lives.{lives_here, release_total}
use sekkeizu.Coreloop.Receive.{Datagram, Receive, Memory, on_receive}
use sekkeizu.Coreloop.Operations.{release_network_buffer, release_network_endpoint}
use sekkeizu.Server.Hooks.{PacketJob, World, core_loop_impl, run_packet}
use sekkeizu.Server.Receives.{packet-Opens, error-Opens, handle_connections-Opens}
use sekkeizu.Server.System.{Server, Step, Reach}
use sekkeizu.Server.Owned.{Owns}
use sekkeizu.Server.Handed.{receive-lives, job-lives}
use sekkeizu.Server.Ownership.{Reach-Owns}
use sekkeizu.Server.Sound.{Section-keeps, Sound, push_packet-Sound, run_packet-Sound}

module _ {Q H : Type 0} (queue : QueueApi Q) (pools : HeapApi H) where
  module _ (d : Derived) (user_tick : ℕ → World → World) where
    receives-Sound :
        (thread unique_id : ℕ) (r r' : Receive) (outcome : Option Datagram) (s : Server Q H)
        (m : Memory Q H World) (before after : List Receive)
        → on_receive queue pools (core_loop_impl d user_tick) thread unique_id r outcome s.memory
          ≡ some (r', m)
        → s.receives ≡ before ++ r ∷ after
        → Owns queue pools s
        → Sound s.memory.plugins
        → Sound m.plugins
    receives-Sound thread unique_id r r' none s m before after h e o v =
        let (n, opened, _, _, same) =
          error-Opens queue pools d user_tick thread unique_id r r' s.memory m h o.has_pools in
        subst Sound (sym (opened.same ∙ same)) v
    receives-Sound thread unique_id r r' (some datagram) s m before after h e o v =
        let here = receive-lives queue pools before after r s o e in
        let (n, opened, _, _, pushed) =
          packet-Opens queue pools d user_tick thread unique_id r r' datagram s.memory m h
            o.has_pools here.0 here.1 in
        subst Sound (sym (opened.same ∙ pushed))
          (push_packet-Sound unique_id r.endpoint r.buffer s.memory.plugins v)

    -- A job is taken out of the core pool.
    taken-Sound :
        (before after : List PacketJob) (job : PacketJob) (w : World)
        → w.jobs ≡ before ++ job ∷ after
        → Sound w
        → (job.unique_id < length w.network.locals) × Sound (record w { jobs = before ++ after })
    taken-Sound before after job w e v =
        let Known = λ (j : PacketJob). j.unique_id < length w.network.locals in
        let (first, rest) = All-split Known before (job ∷ after) (subst (All Known) e v.known) in
        (rest.0, record { valid = v.valid; known = All-append Known before after first rest.1 })

    release_network_buffer-plugins :
        (buffer : ℕ) (m q : Memory Q H World)
        → release_network_buffer queue pools buffer m ≡ some q
        → m.plugins ≡ q.plugins
    unfolding release_network_buffer
    release_network_buffer-plugins buffer m q h =
        elim (Option-cases (release queue pools buffer m.data_mempool)) [
          | inl gone ↦ absurd (ground arith)
          | inr (p, freed) ↦ ground arith
        ]

    Step-Sound :
        {s t : Server Q H}
        → Step queue pools d user_tick s t
        → Owns queue pools s
        → Sound s.memory.plugins
        → Sound t.memory.plugins
    Step-Sound {s} {t} (Step.opens thread r m opened e) o v =
        let w =
          handle_connections-Opens queue pools d user_tick thread r s.memory m opened o.has_pools in
        subst (λ (k : Server Q H). Sound k.memory.plugins) (sym e) (subst Sound (sym w.same) v)
    Step-Sound {s} {t} (Step.receives before after thread r r' outcome m there handled _ e) o v =
        subst (λ (k : Server Q H). Sound k.memory.plugins) (sym e)
          (receives-Sound thread _ r r' outcome s m before after handled there o v)
    Step-Sound {s} {t} (Step.runs_packet before after job m there ran e) o v =
        subst (λ (k : Server Q H). Sound k.memory.plugins) (sym e)
          (run_packet-Sound queue pools job _ m ran
            (taken-Sound before after job s.memory.plugins there v).1)
    Step-Sound {s} {t} (Step.ticks q events section e) o v =
        let w = Section-keeps section v.valid in
        subst (λ (k : Server Q H). Sound k.memory.plugins) (sym e)
          (record { valid = w.0; known = rw w.1 v.known })
    Step-Sound {s} {t} (Step.releases before after buffer m there freed e) o v =
        subst (λ (k : Server Q H). Sound k.memory.plugins) (sym e)
          (subst Sound (release_network_buffer-plugins buffer s.memory m freed) v)

    Reach-Sound : {s : Server Q H} → Reach queue pools d user_tick s → Sound s.memory.plugins
    Reach-Sound (Reach.start free heap free_e heap_e threads u u_e) = record {
      valid = record { locals = blanks-All threads; clients = λ e h. absurd (cc) };
      known = tt;
    }
    Reach-Sound (Reach.next r step) =
        Step-Sound step (Reach-Owns queue pools d user_tick r) (Reach-Sound r)

    -- In every state that the threads of the server reach, each packet job in the core pool runs to its end,
    -- whichever is taken: its endpoint lives, no assertion of the network plugin fails, and the endpoint
    -- goes back to its pool.
    pub packets_run :
        {s : Server Q H}
        → Reach queue pools d user_tick s
        → (before after : List PacketJob) (job : PacketJob)
        → s.memory.plugins.jobs ≡ before ++ job ∷ after
        → (m : Memory Q H World) × (run_packet queue pools job
              (record (s.memory) { plugins = record (s.memory.plugins) { jobs = before ++ after } })
            ≡ some m)
    unfolding run_packet release_network_endpoint
    packets_run {s} r before after job e =
        let v = taken-Sound before after job s.memory.plugins e (Reach-Sound r) in
        let here =
          lives_here job.endpoint s.memory.endpoints_mempool
            (job-lives queue pools before after job s (Reach-Owns queue pools d user_tick r) e) in
        let stored =
          handle_network_packet-total job.unique_id here.0 job.buffer s.memory.plugins.network v.0
            v.1.valid in
        let freed =
          release_total queue pools job.endpoint here.0 s.memory.endpoints_mempool here.1 in
        (
          record (s.memory) {
            endpoints_mempool = freed.0;
            plugins = record (s.memory.plugins) { network = stored.0; jobs = before ++ after };
          },
          rw (here.1, run_packet)
              (rw (stored.1, run_packet) (rw (freed.1, run_packet, release_network_endpoint) refl)),
        )
