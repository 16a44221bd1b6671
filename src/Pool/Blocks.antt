-- ===== src/Pool/Blocks.antt =====
-- Which blocks memory/per_thread_pool.hpp has out, and which it keeps.
use sekkeizu.Base.{
  ℕ, ◌+◌, ◌≤◌, ◌≡◌, refl, inl, inr, Bool, true, false, Option, none, some, arith, write, ap, subst,
  ◌==◌, ==_iff, ==_self, ==_ne, ◌≢◌, Option-cases,
}
use sekkeizu.Pool.Defs.{bit, QueueApi, HeapApi, Pool, get_block, get, release}

abbrev pub is_some {ℓ} : {A : Type ℓ} → Option A → Bool
is_some none = false
is_some (some _) = true

module _ {Q H T : Type 0} (queue : QueueApi Q) (pools : HeapApi H) where
  -- Each block that the heap gave out is free, once, or has an object, and no other is either.
  abbrev pub HasBlocks : Pool Q H T → Type 0
  HasBlocks p =
      (x : ℕ)
      → queue.copies x p.free_objects + bit (is_some (p.objects x))
        ≡ bit (pools.is_allocated x p.heap)

  module _ (p : Pool Q H T) (v : HasBlocks p) (ptr : ℕ) where
    -- A block that the queue or the heap hands out has no object, and is accounted for.
    abbrev Takes : Q → H → Type 0
    Takes free heap =
        (p.objects ptr ≡ none)
        × ((x : ℕ)
            → queue.copies x free + bit (is_some (p.objects x)) + bit (ptr == x)
              ≡ bit (pools.is_allocated x heap))

    no_object : is_some (p.objects ptr) ≡ false → p.objects ptr ≡ none
    no_object h = elim (Option-cases (p.objects ptr)) [
      | inl gone ↦ gone
      | inr (object, here) ↦ absurd (ground arith)
    ]

    dequeue-Takes :
        (free : Q) → queue.try_dequeue p.free_objects ≡ some (ptr, free) → Takes free p.heap
    dequeue-Takes free out = (
      no_object (
          ground (arith, queue.copies-dequeue ptr ptr p.free_objects free out, v ptr, ==_self ptr)),
      λ x. omega (arith, queue.copies-dequeue x ptr p.free_objects free out, v x),
    )

    malloc-Takes :
        (thread : ℕ) (heap : H)
        → pools.malloc thread p.heap ≡ some (ptr, heap)
        → Takes p.free_objects heap
    malloc-Takes thread heap out =
        let fresh = pools.malloc-fresh thread ptr p.heap heap out in
        (
          no_object (ground (arith, fresh, v ptr)),
          λ x. ground (
            arith,
            fresh,
            v x,
            pools.malloc-allocated thread ptr x p.heap heap out,
            ==_iff ptr x,
          ),
        )

  module _ (p : Pool Q H T) (v : HasBlocks p) where
    abbrev Taken : Option (ℕ × Pool Q H T) → Type 0
    Taken none = Unit
    Taken (some (ptr, q)) = Takes p v ptr q.free_objects q.heap × (q.objects ≡ p.objects)

    get_block-Taken : (thread : ℕ) → Taken (get_block queue pools thread p)
    unfolding get_block
    get_block-Taken thread = elim (Option-cases (queue.try_dequeue p.free_objects)) [
      | inr ((y, free), out) ↦ rw (out, Taken) (dequeue-Takes p v y free out, refl)
      | inl empty ↦ elim (Option-cases (pools.malloc thread p.heap)) [
        | inl gone ↦ rw (empty, Taken) (rw gone tt)
        | inr ((y, heap), out) ↦
            rw (empty, Taken) (rw out (malloc-Takes p v y thread heap out, refl))
      ]
    ]

    -- What `get` promises of its result.
    abbrev Built : T → Option (ℕ × Pool Q H T) → Type 0
    Built object none = Unit
    Built object (some (ptr, q)) =
        HasBlocks q × (p.objects ptr ≡ none) × (q.objects ≡ write p.objects ptr object)

    builds :
        (object : T) (ptr : ℕ) (r : Pool Q H T)
        → Taken (some (ptr, r))
        → Built object (some (ptr, record r { objects = write r.objects ptr object }))
    builds object ptr r ((none_there, blocks), same) = (
      λ x. ground (arith, blocks x, ap (λ o. o x) same, none_there, ==_iff ptr x),
      none_there,
      ap (λ o. write o ptr object) same,
    )

    get-Built : (thread : ℕ) (object : T) → Built object (get queue pools thread object p)
    unfolding get
    get-Built thread object = elim (Option-cases (get_block queue pools thread p)) [
      | inl gone ↦ rw (gone, Built) tt
      | inr ((y, r), out) ↦
          rw (out, Built) (builds object y r (subst Taken out (get_block-Taken thread)))
    ]

    -- `get` builds its object where there was none, so no object is handed out twice; it leaves the
    -- other objects alone, and each block stays accounted for.
    pub get-HasBlocks :
        (thread ptr : ℕ) (object : T) (q : Pool Q H T)
        → get queue pools thread object p ≡ some (ptr, q)
        → HasBlocks q × (p.objects ptr ≡ none) × (q.objects ≡ write p.objects ptr object)
    get-HasBlocks thread ptr object q h = subst (Built object) h (get-Built thread object)

    -- `release` leaves each block accounted for, takes the object away, and leaves the other objects
    -- alone.
    pub release-HasBlocks :
        (ptr : ℕ) (q : Pool Q H T)
        → release queue pools ptr p ≡ some q
        → HasBlocks q × (q.objects ptr ≡ none) × ((x : ℕ) → x ≢ ptr → q.objects x ≡ p.objects x)
    unfolding release
    release-HasBlocks ptr q h = elim (Option-cases (p.objects ptr)) [
      | inl gone ↦ absurd (ground arith)
      | inr (object, here) ↦ (
        (λ x. ground (arith, v x, queue.copies-enqueue x ptr p.free_objects, ==_iff ptr x)),
        ground (arith, ==_self ptr),
        (λ x ne. ground (arith, ==_ne x ptr ne)),
      )
    ]

  -- While a block is free, `get` succeeds and takes no memory from the heap.
  pub get-reuses :
      (thread x : ℕ) (object : T) (p : Pool Q H T)
      → 1 ≤ queue.copies x p.free_objects
      → (ptr : ℕ) × (q : Pool Q H T) × (get queue pools thread object p ≡ some (ptr, q))
        × (q.heap ≡ p.heap)
  unfolding get get_block
  get-reuses thread x object p free = elim (Option-cases (queue.try_dequeue p.free_objects)) [
    | inl empty ↦ absurd (omega (arith, queue.copies-empty x p.free_objects empty))
    | inr ((y, rest), out) ↦ (
      y,
      record p { free_objects = rest; objects = write p.objects y object },
      rw (out, get, get_block) refl,
      refl,
    )
  ]
