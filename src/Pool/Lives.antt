-- ===== src/Pool/Lives.antt =====
-- How memory/per_thread_pool.hpp changes the set of objects that live in a pool.
use sekkeizu.Base.{
  ℕ, ◌+◌, ◌≤◌, ◌≡◌, refl, none, some, arith, write, if◌then◌else◌, ◌==◌, ==_iff, Option-cases, inl,
  inr,
}
use sekkeizu.Pool.Defs.{bit, QueueApi, HeapApi, Pool, release}
use sekkeizu.Pool.Blocks.{is_some}

module _ {Q H T : Type 0} where
  -- 1 where an object lives at the pointer.
  abbrev pub lives : ℕ → Pool Q H T → ℕ
  lives x p = bit (is_some (p.objects x))

  pub lives_here :
      (x : ℕ) (p : Pool Q H T) → 1 ≤ lives x p → (object : T) × (p.objects x ≡ some object)
  lives_here x p h = elim (Option-cases (p.objects x)) [
    | inl gone ↦ absurd (ground arith)
    | inr there ↦ there
  ]

  pub write-lives :
      (x ptr : ℕ) (old new : T) (p : Pool Q H T)
      → p.objects ptr ≡ some old
      → bit (is_some (write p.objects ptr new x)) ≡ lives x p
  write-lives x ptr old new p here = ground (arith, ==_iff ptr x)

  pub write-lives_new :
      (x ptr : ℕ) (new : T) (p : Pool Q H T)
      → p.objects ptr ≡ none
      → bit (is_some (write p.objects ptr new x)) ≡ lives x p + bit (ptr == x)
  write-lives_new x ptr new p gone = ground (arith, ==_iff ptr x)

  module _ (queue : QueueApi Q) (pools : HeapApi H) where
    pub release-lives :
        (x ptr : ℕ) (p q : Pool Q H T)
        → release queue pools ptr p ≡ some q
        → lives x q + bit (ptr == x) ≡ lives x p
    unfolding release
    release-lives x ptr p q h = elim (Option-cases (p.objects ptr)) [
      | inl gone ↦ absurd (ground arith)
      | inr (object, here) ↦ ground (arith, ==_iff ptr x)
    ]

    pub release_total :
        (ptr : ℕ) (object : T) (p : Pool Q H T)
        → p.objects ptr ≡ some object
        → (q : Pool Q H T) × (release queue pools ptr p ≡ some q)
    unfolding release
    release_total ptr object p here = (
      record p {
        free_objects = queue.enqueue ptr p.free_objects;
        objects = λ x. if x == ptr then none else p.objects x;
      },
      rw (here, release) refl,
    )
