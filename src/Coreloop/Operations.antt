-- ===== src/Coreloop/Operations.antt =====
-- What core/coreloop.hpp offers to plugins and jobs.
use sekkeizu.Base.{ℕ, Option, some, List, [], ◌∷◌, ◌++◌, ◌>>=◌}
use sekkeizu.Pool.Defs.{QueueApi, HeapApi, release}
use sekkeizu.Coreloop.Receive.{Memory}

-- `execute`: the function goes to the core pool, which is the list of the functions that did not run yet.
unfoldable pub execute : {F : Type 0} → F → List F → List F
execute function core_pool = core_pool ++ function ∷ []

module _ {Q H W : Type 0} (queue : QueueApi Q) (pools : HeapApi H) where
  -- `none` is the release of an object that is not there.
  unfoldable pub release_network_buffer : ℕ → Memory Q H W → Option (Memory Q H W)
  release_network_buffer buffer m = do
    data_mempool ← release queue pools buffer m.data_mempool
    some (record m { data_mempool = data_mempool })

  unfoldable pub release_network_endpoint : ℕ → Memory Q H W → Option (Memory Q H W)
  release_network_endpoint endpoint m = do
    endpoints_mempool ← release queue pools endpoint m.endpoints_mempool
    some (record m { endpoints_mempool = endpoints_mempool })
