-- ===== src/Coreloop/Received.antt =====
-- What a packet or an error leaves in the memory pools of core/coreloop.hpp.
use sekkeizu.Base.{
  ℕ, subst, ◌≤◌, ◌≡◌, ◌≢◌, refl, ap, ◌∙◌, Option, none, some, List, [], arith, if◌then◌else◌, write,
  length, ◌==◌, ==_self, ==_ne, ==_iff, inl, inr, Option-cases,
}
use sekkeizu.Pool.Defs.{QueueApi, HeapApi, Pool, get, release}
use sekkeizu.Pool.Blocks.{HasBlocks, get-HasBlocks, release-HasBlocks, get-reuses}
use sekkeizu.Coreloop.Hooks.{Plugin, call_handle_network_packet_proxy}
use sekkeizu.Coreloop.Receive.{
  packet_max_size, NetworkBuffer, Datagram, Receive, Memory, handle_connections, release_both,
  hand_over, on_receive,
}

module _ {Q H T : Type 0} (queue : QueueApi Q) (pools : HeapApi H) where
  -- A block that is released can be handed out again without any memory from the heap.
  release-get :
      (thread ptr : ℕ) (old new : T) (p : Pool Q H T)
      → HasBlocks queue pools p
      → p.objects ptr ≡ some old
      → (p' : Pool Q H T) × (ptr' : ℕ) × (q : Pool Q H T) × (release queue pools ptr p ≡ some p')
        × (get queue pools thread new p' ≡ some (ptr', q))
        × (q.heap ≡ p.heap)
        × HasBlocks queue pools q
        × (q.objects ptr' ≡ some new)
  unfolding release
  release-get thread ptr old new p v here =
      let p' : Pool Q H T = record p {
        free_objects = queue.enqueue ptr p.free_objects;
        objects = λ x. if x == ptr then none else p.objects x;
      } in
      let out : release queue pools ptr p ≡ some p' = rw (here, release) refl in
      let v' = (release-HasBlocks queue pools p v ptr p' out).0 in
      let (ptr', q, got, same) =
        get-reuses queue pools thread ptr new p'
          (ground (arith, queue.copies-enqueue ptr ptr p.free_objects, ==_self ptr)) in
      let (blocks, _, built) = get-HasBlocks queue pools p' v' thread ptr' new q got in
      (p', ptr', q, out, got, same, blocks, ap (λ o. o ptr') built ∙ rw (==_self ptr') refl)

  -- Writing to an object that is there changes no block.
  pub write-HasBlocks :
      (ptr : ℕ) (old new : T) (p : Pool Q H T)
      → HasBlocks queue pools p
      → p.objects ptr ≡ some old
      → HasBlocks queue pools (record p { objects = write p.objects ptr new })
  write-HasBlocks ptr old new p v here x = ground (arith, v x, ==_iff ptr x)

module _ {Q H W : Type 0} (queue : QueueApi Q) (pools : HeapApi H) (plugins : List (Plugin W)) where
  -- Both pools account for their blocks, and the objects of the pending receive are there.
  pub record IsPending (r : Receive) (m : Memory Q H W) : Type 0 where
    pub old_buffer : NetworkBuffer
    pub old_endpoint : ℕ
    pub data_blocks : HasBlocks queue pools m.data_mempool
    pub endpoint_blocks : HasBlocks queue pools m.endpoints_mempool
    pub buffer_here : m.data_mempool.objects r.buffer ≡ some old_buffer
    pub endpoint_here : m.endpoints_mempool.objects r.endpoint ≡ some old_endpoint

  -- What `handle_connections` promises of its result, over a memory with well-kept blocks.
  pub record IsArmed (m : Memory Q H W) (r : Receive) (q : Memory Q H W) : Type 0 where
    pub data_blocks : HasBlocks queue pools q.data_mempool
    pub endpoint_blocks : HasBlocks queue pools q.endpoints_mempool
    pub new_buffer : m.data_mempool.objects r.buffer ≡ none
    pub new_endpoint : m.endpoints_mempool.objects r.endpoint ≡ none
    pub buffers :
        q.data_mempool.objects
        ≡ write m.data_mempool.objects r.buffer (record { size = 0; bytes = [] })
    pub endpoints : q.endpoints_mempool.objects ≡ write m.endpoints_mempool.objects r.endpoint 0
    pub same : q.plugins ≡ m.plugins

  abbrev Armed : Memory Q H W → Option (Receive × Memory Q H W) → Type 0
  Armed m none = Unit
  Armed m (some (r, q)) = IsArmed m r q

  module _ (thread : ℕ) (m : Memory Q H W) (v : HasBlocks queue pools m.data_mempool)
      (k : HasBlocks queue pools m.endpoints_mempool) where
    handle_connections-Armed : Armed m (handle_connections queue pools plugins thread m)
    unfolding handle_connections
    handle_connections-Armed =
        elim (Option-cases
          (get queue pools thread (record { size = 0; bytes = [] }) m.data_mempool)) [
            | inl gone ↦ rw (gone, Armed, handle_connections) tt
            | inr ((x, p), got) ↦
                elim (Option-cases (get queue pools thread 0 m.endpoints_mempool)) [
                  | inl gone ↦ rw (got, Armed, handle_connections) (rw gone tt)
                  | inr ((y, e), got_e) ↦
                      let (blocks, fresh, built) =
                        get-HasBlocks queue pools m.data_mempool v thread x _ p got in
                      let (blocks_e, fresh_e, built_e) =
                        get-HasBlocks queue pools m.endpoints_mempool k thread y _ e got_e in
                      rw (got, Armed, handle_connections)
                        (rw got_e (record {
                          data_blocks = blocks;
                          endpoint_blocks = blocks_e;
                          new_buffer = fresh;
                          new_endpoint = fresh_e;
                          buffers = built;
                          endpoints = built_e;
                          same = refl;
                        }))
                ]
          ]

    pub handle_connections-IsArmed :
        (r : Receive) (q : Memory Q H W)
        → handle_connections queue pools plugins thread m ≡ some (r, q)
        → IsArmed m r q
    handle_connections-IsArmed r q h = subst (Armed m) h handle_connections-Armed

  -- After an error the next receive is pending at once: it takes no memory from the heap, and the
  -- plugins are not called.
  pub on_receive-error :
      (thread unique_id : ℕ) (r : Receive) (m : Memory Q H W)
      → IsPending r m
      → (r' : Receive) × (m' : Memory Q H W) × (on_receive queue pools plugins thread unique_id r
            none m
          ≡ some (r', m'))
        × (m'.data_mempool.heap ≡ m.data_mempool.heap)
        × (m'.endpoints_mempool.heap ≡ m.endpoints_mempool.heap)
        × (m'.plugins ≡ m.plugins)
        × IsPending r' m'
  unfolding on_receive handle_connections release_both
  on_receive-error thread unique_id r m v =
      let (d', ptr, d, freed, got, heap, blocks, here) =
        release-get queue pools thread r.buffer v.old_buffer (record { size = 0; bytes = [] })
          m.data_mempool v.data_blocks v.buffer_here in
      let (e', ptr_e, e, freed_e, got_e, heap_e, blocks_e, here_e) =
        release-get queue pools thread r.endpoint v.old_endpoint 0 m.endpoints_mempool
          v.endpoint_blocks v.endpoint_here in
      (
        record { buffer = ptr; endpoint = ptr_e },
        record m { data_mempool = d; endpoints_mempool = e },
        rw (freed, release_both) (rw freed_e (rw (got, handle_connections) (rw got_e refl))),
        heap,
        heap_e,
        refl,
        record {
          old_buffer = record { size = 0; bytes = [] };
          old_endpoint = 0;
          data_blocks = blocks;
          endpoint_blocks = blocks_e;
          buffer_here = here;
          endpoint_here = here_e;
        },
      )

  -- A packet of at most `packet_max_size` bytes is handed over with its size, and the plugins are
  -- called once with its pointers. Where the next receive is pending then, the buffer and the
  -- endpoint of the packet stay as they are, and the next receive has others.
  pub on_receive-packet :
      (thread unique_id : ℕ) (r r' : Receive) (d : Datagram) (m m' : Memory Q H W)
      → on_receive queue pools plugins thread unique_id r (some d) m ≡ some (r', m')
      → length d.bytes ≤ packet_max_size
      → IsPending r m
      → IsPending r' m'
        × (r'.buffer ≢ r.buffer)
        × (r'.endpoint ≢ r.endpoint)
        × (m'.data_mempool.objects r.buffer
            ≡ some (record { size = length d.bytes; bytes = d.bytes }))
        × (m'.endpoints_mempool.objects r.endpoint ≡ some d.sender)
        × (m'.plugins
            ≡ call_handle_network_packet_proxy unique_id r.endpoint r.buffer plugins m.plugins)
  unfolding on_receive handle_connections hand_over
  on_receive-packet thread unique_id r r' d m m' h small v =
      let n = hand_over queue pools plugins unique_id r d m in
      let a =
        handle_connections-IsArmed thread n
          (write-HasBlocks queue pools r.buffer v.old_buffer _ m.data_mempool v.data_blocks
            v.buffer_here)
          (write-HasBlocks queue pools r.endpoint v.old_endpoint _ m.endpoints_mempool
            v.endpoint_blocks v.endpoint_here)
          r' m' h in
      let other : r'.buffer ≢ r.buffer =
        λ same. absurd (ground (arith, a.new_buffer, ==_iff r.buffer r'.buffer)) in
      let other_e : r'.endpoint ≢ r.endpoint =
        λ same. absurd (ground (arith, a.new_endpoint, ==_iff r.endpoint r'.endpoint)) in
      (
        record {
          old_buffer = record { size = 0; bytes = [] };
          old_endpoint = 0;
          data_blocks = a.data_blocks;
          endpoint_blocks = a.endpoint_blocks;
          buffer_here = ap (λ o. o r'.buffer) a.buffers ∙ rw (==_self r'.buffer) refl;
          endpoint_here = ap (λ o. o r'.endpoint) a.endpoints ∙ rw (==_self r'.endpoint) refl;
        },
        other,
        other_e,
        ap (λ o. o r.buffer) a.buffers
            ∙ rw (==_ne r'.buffer r.buffer other) (
                rw (==_self r.buffer)
                  (ap (λ size. some (record { size = size; bytes = d.bytes })) (omega arith))),
        ap (λ o. o r.endpoint) a.endpoints
            ∙ rw (==_ne r'.endpoint r.endpoint other_e) (rw (==_self r.endpoint) refl),
        a.same,
      )
