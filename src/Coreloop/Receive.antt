-- ===== src/Coreloop/Receive.antt =====
-- `handle_connections` of core/coreloop.hpp, over the two memory pools that it takes from.
use sekkeizu.Base.{ℕ, ◌%◌, ◌^◌, Option, none, some, List, [], write, length, ◌>>=◌}
use sekkeizu.Pool.Defs.{QueueApi, HeapApi, Pool, get, release}
use sekkeizu.Coreloop.Hooks.{Plugin, call_handle_network_packet_proxy}

abbrev pub packet_max_size : ℕ
packet_max_size = 500

-- `core_traits::network_buffer`; `size` is a uint16_t.
pub record NetworkBuffer : Type 0 where
  pub size : ℕ
  pub bytes : List ℕ

-- What the socket wrote into the buffer and the endpoint before it called the handler.
pub record Datagram : Type 0 where
  pub sender : ℕ
  pub bytes : List ℕ

-- The pointers that a pending receive has captured.
pub record Receive : Type 0 where
  pub buffer : ℕ
  pub endpoint : ℕ

pub record Memory (Q H W : Type 0) : Type 0 where
  pub data_mempool : Pool Q H NetworkBuffer
  pub endpoints_mempool : Pool Q H ℕ
  pub plugins : W

module _ {Q H W : Type 0} (queue : QueueApi Q) (pools : HeapApi H) (plugins : List (Plugin W)) where
  -- The first lines: a new buffer and a new endpoint for the next packet, on a thread.
  unfoldable pub handle_connections : ℕ → Memory Q H W → Option (Receive × Memory Q H W)
  handle_connections thread m = do
    (buffer, data_mempool) ← get queue pools thread (record { size = 0; bytes = [] }) m.data_mempool
    (endpoint, endpoints_mempool) ← get queue pools thread 0 m.endpoints_mempool
    some (
      record { buffer = buffer; endpoint = endpoint },
      record m { data_mempool = data_mempool; endpoints_mempool = endpoints_mempool },
    )

  -- The branch of an error.
  unfoldable pub release_both : Receive → Memory Q H W → Option (Memory Q H W)
  release_both r m = do
    data_mempool ← release queue pools r.buffer m.data_mempool
    endpoints_mempool ← release queue pools r.endpoint m.endpoints_mempool
    some (record m { data_mempool = data_mempool; endpoints_mempool = endpoints_mempool })

  -- The other branch: the size is set, and the plugins get the pointers.
  unfoldable pub hand_over : ℕ → Receive → Datagram → Memory Q H W → Memory Q H W
  unfolding call_handle_network_packet_proxy
  hand_over unique_id r d m = record m {
    data_mempool = record (m.data_mempool) {
      objects =
          write (m.data_mempool.objects) r.buffer
            (record { size = length d.bytes % 2 ^ 16; bytes = d.bytes });
    };
    endpoints_mempool = record (m.endpoints_mempool) {
      objects = write (m.endpoints_mempool.objects) r.endpoint d.sender;
    };
    plugins = call_handle_network_packet_proxy unique_id r.endpoint r.buffer plugins m.plugins;
  }

  -- The handler, and the next call of `handle_connections`; `none` as the result is an error.
  unfoldable pub on_receive :
      ℕ → ℕ → Receive → Option Datagram → Memory Q H W → Option (Receive × Memory Q H W)
  unfolding handle_connections release_both hand_over
  on_receive thread unique_id r none m = do
    released ← release_both r m
    handle_connections thread released
  on_receive thread unique_id r (some d) m = handle_connections thread (hand_over unique_id r d m)
