-- ===== src/Server/Handed.antt =====
-- The owners of buffers and endpoints across a receive handler of core/coreloop.hpp.
use sekkeizu.Base.{
  ℕ, ◌≤◌, ◌≡◌, ap, ◌∙◌, false, Option, none, some, List, [], ◌∷◌, ◌++◌, arith, length, ltb,
  Bool-cases, inl, inr, ==_iff,
}
use sekkeizu.Network.Defs.{Derived}
use sekkeizu.Pool.Defs.{QueueApi, HeapApi}
use sekkeizu.Pool.Lives.{lives}
use sekkeizu.Coreloop.Receive.{Datagram, Receive, Memory, on_receive}
use sekkeizu.Coreloop.Operations.{execute}
use sekkeizu.Server.Hooks.{PacketJob, World, push_packet, core_loop_impl}
use sekkeizu.Server.Receives.{packet-Opens, error-Opens}
use sekkeizu.Server.System.{Server}
use sekkeizu.Server.Owned.{tally, tally-append, Owns}

module _ {Q H : Type 0} (queue : QueueApi Q) (pools : HeapApi H) where
  -- The pointers of a pending receive live.
  pub receive-lives :
      (before after : List Receive) (r : Receive) (s : Server Q H)
      → Owns queue pools s
      → s.receives ≡ before ++ r ∷ after
      → (1 ≤ lives r.buffer s.memory.data_mempool)
        × (1 ≤ lives r.endpoint s.memory.endpoints_mempool)
  receive-lives before after r s v e =
      let f = λ (a : Receive). a.buffer in
      let g = λ (a : Receive). a.endpoint in
      (
        ground (
          arith,
          ==_iff r.buffer r.buffer,
          v.buffers r.buffer,
          ap (tally f r.buffer) e,
          tally-append f r.buffer before (r ∷ after),
        ),
        ground (
          arith,
          ==_iff r.endpoint r.endpoint,
          v.endpoints r.endpoint,
          ap (tally g r.endpoint) e,
          tally-append g r.endpoint before (r ∷ after),
        ),
      )

  -- A packet that no assertion stopped becomes a job; nothing else of the plugins changes.
  pushed-jobs :
      (unique_id : ℕ) (r : Receive) (w q : World)
      → q ≡ push_packet unique_id r.endpoint r.buffer w
      → q.aborted ≡ false
      → (q.network ≡ w.network)
        × (q.jobs
            ≡ w.jobs
              ++ record { unique_id = unique_id; endpoint = r.endpoint; buffer = r.buffer } ∷ [])
  unfolding push_packet execute
  pushed-jobs unique_id r w q e running =
      elim (Bool-cases (ltb unique_id (length w.network.locals))) [
        | inl known ↦ (ground (arith), ground (arith))
        | inr unknown ↦ absurd (ground arith)
      ]

  pub receives-Owns :
      (d : Derived) (user_tick : ℕ → World → World) (before after : List Receive)
      (thread unique_id : ℕ) (r r' : Receive) (outcome : Option Datagram) (s : Server Q H)
      (m : Memory Q H World)
      → Owns queue pools s
      → s.receives ≡ before ++ r ∷ after
      → on_receive queue pools (core_loop_impl d user_tick) thread unique_id r outcome s.memory
        ≡ some (r', m)
      → m.plugins.aborted ≡ false
      → Owns queue pools (record s { memory = m; receives = before ++ r' ∷ after })
  receives-Owns d user_tick before after thread unique_id r r' none s m v e h running =
      let (n, o, fewer_buffers, fewer_endpoints, same) =
        error-Opens queue pools d user_tick thread unique_id r r' s.memory m h v.has_pools in
      let f = λ (a : Receive). a.buffer in
      let g = λ (a : Receive). a.endpoint in
      record {
        has_pools = o.has_pools;
        endpoints = λ x. rw (o.same ∙ same) (
            omega (
              arith,
              v.endpoints x,
              o.endpoints x,
              fewer_endpoints x,
              ap (tally g x) e,
              tally-append g x before (r ∷ after),
              tally-append g x before (r' ∷ after),
            ));
        buffers = λ x. rw (o.same ∙ same) (
            omega (
              arith,
              v.buffers x,
              o.buffers x,
              fewer_buffers x,
              ap (tally f x) e,
              tally-append f x before (r ∷ after),
              tally-append f x before (r' ∷ after),
            ));
      }
  receives-Owns d user_tick before after thread unique_id r r' (some datagram) s m v e h running =
      let here = receive-lives before after r s v e in
      let (n, o, same_buffers, same_endpoints, pushed) =
        packet-Opens queue pools d user_tick thread unique_id r r' datagram s.memory m h v.has_pools
          here.0 here.1 in
      let (same, jobs) =
        pushed-jobs unique_id r s.memory.plugins m.plugins (o.same ∙ pushed) running in
      let job : PacketJob = record {
        unique_id = unique_id;
        endpoint = r.endpoint;
        buffer = r.buffer;
      } in
      let f = λ (a : Receive). a.buffer in
      let g = λ (a : Receive). a.endpoint in
      let f' = λ (a : PacketJob). a.buffer in
      let g' = λ (a : PacketJob). a.endpoint in
      record {
        has_pools = o.has_pools;
        endpoints = λ x. rw jobs (
            omega (
              arith,
              v.endpoints x,
              o.endpoints x,
              same_endpoints x,
              ap (tally g x) e,
              tally-append g x before (r ∷ after),
              tally-append g x before (r' ∷ after),
              tally-append g' x s.memory.plugins.jobs (job ∷ []),
            ));
        buffers = λ x.
            rw (jobs, same)
              (omega (
                arith,
                v.buffers x,
                o.buffers x,
                same_buffers x,
                ap (tally f x) e,
                tally-append f x before (r ∷ after),
                tally-append f x before (r' ∷ after),
                tally-append f' x s.memory.plugins.jobs (job ∷ []),
              ));
      }

  -- The endpoint of a packet job lives.
  pub job-lives :
      (before after : List PacketJob) (job : PacketJob) (s : Server Q H)
      → Owns queue pools s
      → s.memory.plugins.jobs ≡ before ++ job ∷ after
      → 1 ≤ lives job.endpoint s.memory.endpoints_mempool
  job-lives before after job s v e =
      let f = λ (j : PacketJob). j.endpoint in
      ground (
        arith,
        ==_iff job.endpoint job.endpoint,
        v.endpoints job.endpoint,
        ap (tally f job.endpoint) e,
        tally-append f job.endpoint before (job ∷ after),
      )
