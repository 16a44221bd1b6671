-- ===== src/Server/Owned.antt =====
-- Who owns the buffers and endpoints of core/coreloop.hpp, across each step of the server.
use sekkeizu.Base.{
  ℕ, Option-cases, subst, ◌+◌, ◌≤◌, ◌≡◌, ap, some, List, [], ◌∷◌, ◌++◌, arith, count, count-append,
  ◌==◌, inl, inr,
}
use sekkeizu.Network.Defs as Net
use sekkeizu.Network.Defs.{Event, Derived}
use sekkeizu.Network.Conserve.{held}
use sekkeizu.Pool.Defs.{bit, QueueApi, HeapApi, release}
use sekkeizu.Pool.Blocks.{release-HasBlocks}
use sekkeizu.Pool.Lives.{lives, release-lives}
use sekkeizu.Coreloop.Receive.{Receive, Memory}
use sekkeizu.Coreloop.Operations.{release_network_buffer}
use sekkeizu.Server.Hooks.{PacketJob, World}
use sekkeizu.Server.Receives.{HasPools, Opens}
use sekkeizu.Server.Packets.{Ran}
use sekkeizu.Server.Sections.{held-Section}
use sekkeizu.Server.System.{Server, Section, handed}

-- How many of the elements carry the pointer.
abbrev pub tally : {A : Type 0} → (A → ℕ) → ℕ → List A → ℕ
tally pointer x [] = 0
tally pointer x (a ∷ as_) = bit (pointer a == x) + tally pointer x as_

pub tally-append :
    {A : Type 0} (pointer : A → ℕ) (x : ℕ) (xs ys : List A)
    → tally pointer x (xs ++ ys) ≡ tally pointer x xs + tally pointer x ys
tally-append pointer x [] ys = omega arith
tally-append pointer x (a ∷ xs) ys = omega (arith, tally-append pointer x xs ys)

-- The pointers that the pending receives and the packet jobs carry.
abbrev pub endpoints_of : {Q H : Type 0} → ℕ → Server Q H → ℕ
endpoints_of x s =
    tally (λ (r : Receive). r.endpoint) x s.receives
    + tally (λ (j : PacketJob). j.endpoint) x s.memory.plugins.jobs

abbrev pub buffers_of : {Q H : Type 0} → ℕ → Server Q H → ℕ
buffers_of x s =
    tally (λ (r : Receive). r.buffer) x s.receives
    + tally (λ (j : PacketJob). j.buffer) x s.memory.plugins.jobs
    + held x s.memory.plugins.network
    + count x s.given

module _ {Q H : Type 0} (queue : QueueApi Q) (pools : HeapApi H) where
  pub record Owns (s : Server Q H) : Type 0 where
    pub has_pools : HasPools queue pools s.memory
    pub endpoints : (x : ℕ) → endpoints_of x s ≡ lives x s.memory.endpoints_mempool
    pub buffers : (x : ℕ) → buffers_of x s ≤ lives x s.memory.data_mempool

  pub Opens-Owns :
      (r : Receive) (s : Server Q H) (m : Memory Q H World)
      → Owns s
      → Opens queue pools s.memory r m
      → Owns (record s { memory = m; receives = s.receives ++ r ∷ [] })
  Opens-Owns r s m v o = record {
    has_pools = o.has_pools;
    endpoints = λ x. rw o.same (
        omega (
          arith,
          v.endpoints x,
          o.endpoints x,
          tally-append (λ (a : Receive). a.endpoint) x s.receives (r ∷ []),
        ));
    buffers = λ x. rw o.same (
        omega (
          arith,
          v.buffers x,
          o.buffers x,
          tally-append (λ (a : Receive). a.buffer) x s.receives (r ∷ []),
        ));
  }

  -- A buffer that a section of the tick drops keeps living: nobody owns it any more.
  pub ticks-Owns :
      {d : Derived} (s : Server Q H) (q : Net.Plugin) (events : List Event)
      → Owns s
      → Section d s.memory.plugins.network q events
      → Owns (record s {
        memory = record (s.memory) {
          plugins = record (s.memory.plugins) {
            network = q;
            events = s.memory.plugins.events ++ events;
          };
        };
        given = s.given ++ handed events;
      })
  ticks-Owns s q events v section = record {
    has_pools = record {
      data_blocks = v.has_pools.data_blocks;
      endpoint_blocks = v.has_pools.endpoint_blocks;
    };
    endpoints = v.endpoints;
    buffers = λ x.
        omega (arith, v.buffers x, count-append x s.given (handed events), held-Section x section);
  }

  pub releases-Owns :
      (before after : List ℕ) (buffer : ℕ) (s : Server Q H) (m : Memory Q H World)
      → Owns s
      → s.given ≡ before ++ buffer ∷ after
      → release_network_buffer queue pools buffer s.memory ≡ some m
      → Owns (record s { memory = m; given = before ++ after })
  unfolding release_network_buffer
  releases-Owns before after buffer s m v e h =
      elim (Option-cases (release queue pools buffer s.memory.data_mempool)) [
        | inl gone ↦ absurd (ground arith)
        | inr (p, freed) ↦
            let same : record (s.memory) { data_mempool = p } ≡ m = ground arith in
            subst
              (λ (n : Memory Q H World). Owns (record s { memory = n; given = before ++ after }))
              same
              (record {
                has_pools = record {
                  data_blocks =
                      (release-HasBlocks queue pools s.memory.data_mempool v.has_pools.data_blocks
                        buffer p freed).0;
                  endpoint_blocks = v.has_pools.endpoint_blocks;
                };
                endpoints = v.endpoints;
                buffers = λ x. ground (
                  arith,
                  v.buffers x,
                  release-lives queue pools x buffer s.memory.data_mempool p freed,
                  ap (count x) e,
                  count-append x before (buffer ∷ after),
                  count-append x before after,
                );
              })
      ]

  pub runs-Owns :
      (before after : List PacketJob) (job : PacketJob) (s : Server Q H) (m : Memory Q H World)
      → Owns s
      → s.memory.plugins.jobs ≡ before ++ job ∷ after
      → Ran queue pools job
          (record (s.memory) { plugins = record (s.memory.plugins) { jobs = before ++ after } })
          m
      → Owns (record s { memory = m })
  runs-Owns before after job s m v e r = record {
    has_pools = r.has_pools;
    endpoints = λ x.
        let f = λ (j : PacketJob). j.endpoint in
        omega (
          arith,
          v.endpoints x,
          r.endpoints x,
          ap (tally f x) e,
          ap (tally f x) r.same_jobs,
          tally-append f x before (job ∷ after),
          tally-append f x before after,
        );
    buffers = λ x.
        let f = λ (j : PacketJob). j.buffer in
        omega (
          arith,
          v.buffers x,
          r.stored_buffer x,
          ap (tally f x) e,
          ap (tally f x) r.same_jobs,
          ap (lives x) r.same_buffers,
          tally-append f x before (job ∷ after),
          tally-append f x before after,
        );
  }
