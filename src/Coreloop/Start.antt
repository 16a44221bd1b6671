-- ===== src/Coreloop/Start.antt =====
-- How `start` of core/coreloop.hpp begins to receive.
use sekkeizu.Base.{ℕ, zero, suc, Option, some, List, [], ◌∷◌, ◌>>=◌}
use sekkeizu.Pool.Defs.{QueueApi, HeapApi}
use sekkeizu.Coreloop.Hooks.{Plugin}
use sekkeizu.Coreloop.Receive.{Receive, Memory, handle_connections}

module _ {Q H W : Type 0} (queue : QueueApi Q) (pools : HeapApi H) (plugins : List (Plugin W)) where
  -- The loop over the network threads, on the thread that calls `start`: the receives in the order of
  -- their `unique_id`.
  unfoldable pub start_receives : ℕ → ℕ → Memory Q H W → Option (List Receive × Memory Q H W)
  unfolding handle_connections
  start_receives thread zero m = some ([], m)
  start_receives thread (suc num_network_threads) m = do
    (r, n) ← handle_connections queue pools plugins thread m
    (receives, q) ← start_receives thread num_network_threads n
    some (r ∷ receives, q)
