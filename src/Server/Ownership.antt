-- ===== src/Server/Ownership.antt =====
-- Every buffer and every endpoint of core/coreloop.hpp has one owner, on every interleaving of the
-- network threads, the core pool and the tick.
use sekkeizu.Base.{
  ℕ, zero, suc, ◌≤◌, ◌≡◌, refl, sym, ap, subst, ◌≢◌, none, List, ◌∷◌, ◌++◌, arith, count,
  count-append, ==_iff,
}
use sekkeizu.Network.Defs.{Derived}
use sekkeizu.Network.Conserve.{stored_locals}
use sekkeizu.Network.Threads.System.{blanks}
use sekkeizu.Pool.Defs.{QueueApi, HeapApi}
use sekkeizu.Pool.Lives.{lives, lives_here, release_total}
use sekkeizu.Coreloop.Receive.{Receive, Memory, release_both}
use sekkeizu.Coreloop.Operations.{release_network_buffer, release_network_endpoint}
use sekkeizu.Server.Hooks.{PacketJob, World, core_loop_impl}
use sekkeizu.Server.Receives.{handle_connections-Opens}
use sekkeizu.Server.Packets.{run_packet-Ran}
use sekkeizu.Server.System.{Server, Step, Reach, fresh, IsUnused}
use sekkeizu.Server.Owned.{
  endpoints_of, buffers_of, Owns, Opens-Owns, runs-Owns, ticks-Owns, releases-Owns,
}
use sekkeizu.Server.Handed.{receives-Owns, receive-lives, job-lives}

blanks-stored : (x threads : ℕ) → stored_locals x (blanks threads) ≡ 0
blanks-stored x zero = refl
blanks-stored x (suc threads) = omega (arith, blanks-stored x threads)

module _ {Q H : Type 0} (queue : QueueApi Q) (pools : HeapApi H) (d : Derived)
    (user_tick : ℕ → World → World) where
  fresh-Owns :
      (free : Q) (heap : H) (free_e : Q) (heap_e : H) (threads : ℕ)
      → IsUnused queue pools free heap
      → IsUnused queue pools free_e heap_e
      → Owns queue pools (fresh free heap free_e heap_e threads)
  fresh-Owns free heap free_e heap_e threads u u_e = record {
    has_pools = record {
      data_blocks = λ x. ground (arith, u x);
      endpoint_blocks = λ x. ground (arith, u_e x);
    };
    endpoints = λ x. refl;
    buffers = λ x. omega (arith, blanks-stored x threads);
  }

  Step-Owns :
      {s t : Server Q H}
      → Step queue pools d user_tick s t
      → Owns queue pools s
      → Owns queue pools t
  Step-Owns {s} {t} (Step.opens thread r m opened e) v = subst (Owns queue pools) (sym e) (
      Opens-Owns queue pools r s m v
        (handle_connections-Opens queue pools d user_tick thread r s.memory m opened v.has_pools))
  Step-Owns {s} {t} (Step.receives before after thread r r' outcome m there handled running e) v =
      subst (Owns queue pools) (sym e) (
        receives-Owns queue pools d user_tick before after thread _ r r' outcome s m v there handled
          running)
  Step-Owns {s} {t} (Step.runs_packet before after job m there ran e) v =
      let taken : Memory Q H World = record (s.memory) {
        plugins = record (s.memory.plugins) { jobs = before ++ after };
      } in
      subst (Owns queue pools) (sym e) (
        runs-Owns queue pools before after job s m v there (
          run_packet-Ran queue pools job taken m ran (record {
            data_blocks = v.has_pools.data_blocks;
            endpoint_blocks = v.has_pools.endpoint_blocks;
          })))
  Step-Owns {s} {t} (Step.ticks q events section e) v =
      subst (Owns queue pools) (sym e) (ticks-Owns queue pools s q events v section)
  Step-Owns {s} {t} (Step.releases before after buffer m there freed e) v =
      subst (Owns queue pools) (sym e)
        (releases-Owns queue pools before after buffer s m v there freed)

  pub Reach-Owns : {s : Server Q H} → Reach queue pools d user_tick s → Owns queue pools s
  Reach-Owns (Reach.start free heap free_e heap_e threads u u_e) =
      fresh-Owns free heap free_e heap_e threads u u_e
  Reach-Owns (Reach.next r step) = Step-Owns step (Reach-Owns r)

  -- In every state that the threads of the server reach, an endpoint of the pool lives exactly as often
  -- as a pending receive or a packet job carries it, so that it never leaks and never has two owners;
  -- and a buffer is carried by at most one of a pending receive, a packet job, the vectors of the network
  -- plugin and what the derived class was given, and lives while it is.
  pub owned_once :
      {s : Server Q H}
      → Reach queue pools d user_tick s
      → (x : ℕ)
      → (endpoints_of x s ≡ lives x s.memory.endpoints_mempool)
        × (buffers_of x s ≤ lives x s.memory.data_mempool)
  owned_once r x = ((Reach-Owns r).endpoints x, (Reach-Owns r).buffers x)

  -- In every state that the threads of the server reach no pointer dangles: a handler that is called
  -- with an error can release its buffer and its endpoint, a packet job finds the endpoint that it reads
  -- and releases alive, and a buffer that the derived class was given and did not release yet can be
  -- released.
  pub no_dangling :
      {s : Server Q H}
      → Reach queue pools d user_tick s
      → ((before after : List Receive) (r : Receive)
          → s.receives ≡ before ++ r ∷ after
          → release_both queue pools (core_loop_impl d user_tick) r s.memory ≢ none)
        × ((before after : List PacketJob) (job : PacketJob)
            → s.memory.plugins.jobs ≡ before ++ job ∷ after
            → (s.memory.endpoints_mempool.objects job.endpoint ≢ none)
              × (release_network_endpoint queue pools job.endpoint s.memory ≢ none))
        × ((before after : List ℕ) (buffer : ℕ)
            → s.given ≡ before ++ buffer ∷ after
            → release_network_buffer queue pools buffer s.memory ≢ none)
  unfolding release_both release_network_buffer release_network_endpoint
  no_dangling {s} r =
      let v = Reach-Owns r in
      (
        λ before after a e.
            let here = receive-lives queue pools before after a s v e in
            let b = lives_here a.buffer s.memory.data_mempool here.0 in
            let c = lives_here a.endpoint s.memory.endpoints_mempool here.1 in
            let freed = release_total queue pools a.buffer b.0 s.memory.data_mempool b.1 in
            let freed_e = release_total queue pools a.endpoint c.0 s.memory.endpoints_mempool c.1 in
            λ gone. ground (arith, freed.1, freed_e.1, gone),
        λ before after job e.
            let c =
              lives_here job.endpoint s.memory.endpoints_mempool
                (job-lives queue pools before after job s v e) in
            let freed_e =
              release_total queue pools job.endpoint c.0 s.memory.endpoints_mempool c.1 in
            (λ gone. cc, λ gone. ground (arith, freed_e.1, gone)),
        λ before after buffer e.
            let b = lives_here buffer s.memory.data_mempool (
              ground (
                arith,
                ==_iff buffer buffer,
                v.buffers buffer,
                ap (count buffer) e,
                count-append buffer before (buffer ∷ after),
              )) in
            let freed = release_total queue pools buffer b.0 s.memory.data_mempool b.1 in
            λ gone. ground (arith, freed.1, gone),
      )
