-- ===== src/Pool/Tests.antt =====
-- memory/per_thread_pool.hpp with a list as the queue, and a counter as the heap.
use sekkeizu.Base.{ℕ, ◌≡◌, refl, none, List, [], ◌∷◌, arith, write}
use sekkeizu.Pool.Defs.{Pool, get_block, get, release}
use sekkeizu.Pool.Sample.{queue, heap}
use sekkeizu.Pool.Blocks.{HasBlocks, get-HasBlocks}

program : Unit {0}
unfolding get_block get release
program = tt

-- Block 1 has an object, block 0 is free, and the heap gives out block 2 next.
abbrev p_0 : Pool (List ℕ) ℕ ℕ
p_0 = record { free_objects = 0 ∷ []; heap = 2; objects = write (λ _. none) 1 10 }

p_0-HasBlocks : HasBlocks queue heap p_0
p_0-HasBlocks x = ground arith

abbrev p_1 : Pool (List ℕ) ℕ ℕ
p_1 = record p_0 { free_objects = []; objects = write p_0.objects 0 11 }

get-HasBlocks_example :
    HasBlocks queue heap p_1 × (p_0.objects 0 ≡ none) × (p_1.objects ≡ write p_0.objects 0 11)
unfolding program
get-HasBlocks_example = get-HasBlocks queue heap p_0 p_0-HasBlocks 3 0 11 p_1 refl
