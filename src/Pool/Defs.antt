-- ===== src/Pool/Defs.antt =====
-- memory/per_thread_pool.hpp, over the two libraries that it calls: moodycamel::ConcurrentQueue and
-- boost::pool. A pointer is a number.
use sekkeizu.Base.{ℕ, ◌+◌, ◌≡◌, Bool, true, false, Option, none, some, write, ◌==◌, if◌then◌else◌}

abbrev pub bit : Bool → ℕ
bit true = 1
bit false = 0

-- `moodycamel::ConcurrentQueue<void*>`: in which order elements come out is not specified, but an
-- element comes out once for each time that it was put in, and none comes out only of an empty queue.
pub record QueueApi (Q : Type 0) : Type 0 where
  pub enqueue : ℕ → Q → Q
  pub try_dequeue : Q → Option (ℕ × Q)
  pub copies : ℕ → Q → ℕ
  pub copies-enqueue : (x y : ℕ) (q : Q) → copies x (enqueue y q) ≡ copies x q + bit (y == x)
  pub copies-dequeue :
      (x y : ℕ) (q q' : Q) → try_dequeue q ≡ some (y, q') → copies x q ≡ copies x q' + bit (y == x)
  pub copies-empty : (x : ℕ) (q : Q) → try_dequeue q ≡ none → copies x q ≡ 0

-- `boost::pool<>`, one for each thread: `malloc` returns a block that is not in use, or a null
-- pointer when there is no memory.
pub record HeapApi (H : Type 0) : Type 0 where
  pub malloc : ℕ → H → Option (ℕ × H)
  pub is_allocated : ℕ → H → Bool
  pub malloc-fresh :
      (thread x : ℕ) (h h' : H) → malloc thread h ≡ some (x, h') → is_allocated x h ≡ false
  pub malloc-allocated :
      (thread x y : ℕ) (h h' : H)
      → malloc thread h ≡ some (x, h')
      → is_allocated y h' ≡ (if x == y then true else is_allocated y h)

-- The pool, with the heap of the threads and the objects that stand in it.
pub record Pool (Q H T : Type 0) : Type 0 where
  pub free_objects : Q
  pub heap : H
  pub objects : ℕ → Option T

module _ {Q H T : Type 0} (queue : QueueApi Q) (pools : HeapApi H) where
  -- The block of `get`: a free one, or else one from the pool of the thread.
  unfoldable pub get_block : ℕ → Pool Q H T → Option (ℕ × Pool Q H T)
  get_block thread p = elim (queue.try_dequeue p.free_objects) [
    | some (ptr, free) ↦ some (ptr, record p { free_objects = free })
    | none ↦ elim (pools.malloc thread p.heap) [
      | none ↦ none
      | some (ptr, heap) ↦ some (ptr, record p { heap = heap })
    ]
  ]

  -- `get`, on a thread; `none` is the construction at a null pointer.
  unfoldable pub get : ℕ → T → Pool Q H T → Option (ℕ × Pool Q H T)
  unfolding get_block
  get thread object p = elim (get_block thread p) [
    | none ↦ none
    | some (ptr, q) ↦ some (ptr, record q { objects = write q.objects ptr object })
  ]

  -- `release`; `none` is the destruction of an object that is not there.
  unfoldable pub release : ℕ → Pool Q H T → Option (Pool Q H T)
  release ptr p = elim (p.objects ptr) [
    | none ↦ none
    | some _ ↦ some (record p {
      free_objects = queue.enqueue ptr p.free_objects;
      objects = λ x. if x == ptr then none else p.objects x;
    })
  ]
