-- ===== src/Pool/Sample.antt =====
-- The libraries of memory/per_thread_pool.hpp on concrete data: a list as the queue, and a counter as
-- the heap.
use sekkeizu.Base.{
  ℕ, ◌+◌, ◌≡◌, refl, true, false, Option, none, some, List, [], ◌∷◌, ◌++◌, arith, if◌then◌else◌,
  ◌==◌, ltb, count, count-append,
}
use sekkeizu.Pool.Defs.{bit, QueueApi, HeapApi}

abbrev pub dequeue_front : List ℕ → Option (ℕ × List ℕ)
dequeue_front [] = none
dequeue_front (x ∷ xs) = some (x, xs)

pub copies-enqueue_list : (x y : ℕ) (q : List ℕ) → count x (q ++ y ∷ []) ≡ count x q + bit (y == x)
copies-enqueue_list x y q = ground (arith, count-append x q (y ∷ []))

pub copies-dequeue_list :
    (x y : ℕ) (q q' : List ℕ)
    → dequeue_front q ≡ some (y, q')
    → count x q ≡ count x q' + bit (y == x)
copies-dequeue_list x y [] q' h = absurd (cc)
copies-dequeue_list x y (z ∷ q) q' h = ground arith

pub copies-empty_list : (x : ℕ) (q : List ℕ) → dequeue_front q ≡ none → count x q ≡ 0
copies-empty_list x [] h = refl
copies-empty_list x (z ∷ q) h = absurd (cc)

abbrev pub bump : ℕ → ℕ → Option (ℕ × ℕ)
bump _ next = some (next, next + 1)

pub malloc-fresh_bump : (thread x h h' : ℕ) → bump thread h ≡ some (x, h') → ltb x h ≡ false
malloc-fresh_bump thread x h h' e = ground arith

pub malloc-allocated_bump :
    (thread x y h h' : ℕ)
    → bump thread h ≡ some (x, h')
    → ltb y h' ≡ (if x == y then true else ltb y h)
malloc-allocated_bump thread x y h h' e = ground arith

abbrev pub queue : QueueApi (List ℕ)
queue = record {
  enqueue = λ x q. q ++ x ∷ [];
  try_dequeue = dequeue_front;
  copies = count;
  copies-enqueue = copies-enqueue_list;
  copies-dequeue = copies-dequeue_list;
  copies-empty = copies-empty_list;
}

abbrev pub heap : HeapApi ℕ
heap = record {
  malloc = bump;
  is_allocated = ltb;
  malloc-fresh = malloc-fresh_bump;
  malloc-allocated = malloc-allocated_bump;
}
