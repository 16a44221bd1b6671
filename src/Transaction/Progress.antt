-- ===== src/Transaction/Progress.antt =====
-- The loop of `get_pending_operations` in database/transaction.hpp: what holds after each round.
use sekkeizu.Base.{
  ℕ, suc, ◌+◌, ◌%◌, ◌^◌, ◌≤◌, ◌<◌, ◌≡◌, ◌≢◌, sym, ap₂, subst, dec_lt, ◌∙◌, ◌⊎◌, inl, inr, Bool,
  true, false, not, Option, none, some, [], ◌∷◌, ◌++◌, arith, All, All-append, append-ne-nil, write,
  inc64, Bool-cases,
}
use sekkeizu.Transaction.Types.{Dependency, Info}
use sekkeizu.Transaction.Pending.{Scan, stop_here, pass_by, take_callable, take_operation, act}
use sekkeizu.Transaction.Window.{
  is_operation, IsKind, payload, operations, callables, callables-suc, operations-suc_of_operation,
  operations-suc_of_dependency,
}

module _ {B C : Type 0} (met : Dependency → Bool) (f : ℕ → Option (Info B C))
    (lo hi counter : ℕ) where
  -- After `k` rounds from the entries `f`.
  pub record Progress (s : Scan B C) : Type 0 where
    pub k : ℕ
    pub visited : s.id ≡ lo + k
    pub in_range : s.id ≤ hi
    pub ahead : (j : ℕ) → s.id ≤ j → s.transactions j ≡ f j
    pub behind : (j : ℕ) → j < lo → s.transactions j ≡ f j
    pub same : (j : ℕ) → payload (s.transactions j) ≡ payload (f j)
    pub taken : s.batch ≡ operations f lo k
    pub passed :
        (j : ℕ) (t : Info B C) (d : Dependency)
        → lo ≤ j
        → j < s.id
        → f j ≡ some t
        → t.dependency ≡ some d
        → met d ≡ true
    pub counted : (s.pending_callables + callables f lo k) % 256 ≡ counter % 256
    pub kinds : All (λ j. IsKind s.has_non_callable (f j)) s.batch
    pub one_kind : s.has_callable ≡ true → s.has_non_callable ≡ false
    pub untaken : s.has_callable ≡ false → s.has_non_callable ≡ false → s.batch ≡ []
    pub some_operation : s.has_non_callable ≡ true → s.batch ≢ []
    pub some_callable : s.has_callable ≡ true → s.batch ≢ []

  -- The entry at which the loop stands blocks it: a dependency that is not met, or an operation of
  -- the other kind behind a batch that is not empty.
  abbrev pub Blocks : Scan B C → Info B C → Type 0
  Blocks s t =
      ((d : Dependency) × (t.dependency ≡ some d) × (met d ≡ false))
      ⊎ ((s.batch ≢ []) × IsKind (not s.has_non_callable) (some t))

  -- The rounds, from what their tests have found at the entry `t`.
  module _ (s : Scan B C) (p : Progress s) (small : s.id < hi) (bound : hi < 2 ^ 64) (t : Info B C)
      (here : f s.id ≡ some t) where
    found : s.transactions s.id ≡ some t
    found = p.ahead s.id (omega arith) ∙ here

    here_at : f (lo + p.k) ≡ some t
    here_at = subst (λ i. f i ≡ some t) p.visited here

    id-inc : inc64 s.id ≡ suc s.id
    id-inc = omega arith

    module _ (u : Info B C) where
      ahead-write : (j : ℕ) → inc64 s.id ≤ j → write s.transactions s.id u j ≡ f j
      ahead-write j h = ground (arith, p.ahead j)

      behind-write : (j : ℕ) → j < lo → write s.transactions s.id u j ≡ f j
      behind-write j h = ground (arith, p.behind j, p.visited)

      same-write :
          payload (some u) ≡ payload (some t)
          → (j : ℕ) → payload (write s.transactions s.id u j) ≡ payload (f j)
      same-write e j = ground (arith, p.same j, here)

    passed-extend :
        ((d : Dependency) → t.dependency ≡ some d → met d ≡ true)
        → (j : ℕ) (v : Info B C) (d : Dependency) → lo ≤ j
        → j < inc64 s.id
        → f j ≡ some v
        → v.dependency ≡ some d
        → met d ≡ true
    passed-extend h j v d a b e q = elim (dec_lt j s.id) [
      | yes old ↦ p.passed j v d a old e q
      | no new ↦
          let here_j : j ≡ s.id = omega arith in
          let same_v : v ≡ t = cc in h d (subst (λ (w : Info B C). w.dependency ≡ some d) same_v q)
    ]

    taken-extend : is_operation (f s.id) ≡ true → s.batch ++ s.id ∷ [] ≡ operations f lo (suc p.k)
    taken-extend h =
        ap₂ (λ xs i. xs ++ i ∷ []) p.taken p.visited
        ∙ sym (
            operations-suc_of_operation f lo p.k
              (subst (λ i. is_operation (f i) ≡ true) p.visited h))

    kinds-operation : s.has_callable ≡ false → All (λ j. IsKind true (f j)) s.batch
    kinds-operation call = elim (Bool-cases s.has_non_callable) [
      | inl non ↦ subst (λ b. All (λ j. IsKind b (f j)) s.batch) non p.kinds
      | inr non ↦ subst (All (λ j. IsKind true (f j))) (sym (p.untaken call non)) tt
    ]

    pub pass_by-Progress :
        (d : Dependency) → t.dependency ≡ some d → met d ≡ true → Progress (act pass_by s)
    unfolding act
    pass_by-Progress d e m = record {
      k = suc p.k;
      visited = omega (arith, p.visited);
      in_range = omega arith;
      ahead = ground (arith, ahead-write t, found);
      behind = ground (arith, behind-write t, found);
      same = ground (arith, same-write t, found);
      taken = p.taken ∙ sym (operations-suc_of_dependency f lo p.k (ground (arith, here_at)));
      passed = passed-extend (λ d' q. ground arith);
      counted = ground (arith, p.counted, here_at, callables-suc f lo p.k);
      kinds = p.kinds;
      one_kind = p.one_kind;
      untaken = p.untaken;
      some_operation = p.some_operation;
      some_callable = p.some_callable;
    }

    pub take_callable-Progress :
        (c : C)
        → t.dependency ≡ none
        → t.callable ≡ some c
        → s.has_non_callable ≡ false
        → Progress (act take_callable s)
    unfolding act
    take_callable-Progress c e q non = record {
      k = suc p.k;
      visited = omega (arith, p.visited);
      in_range = omega arith;
      ahead = ground (arith, ahead-write (record t { pending = true }), found);
      behind = ground (arith, behind-write (record t { pending = true }), found);
      same = ground (arith, same-write (record t { pending = true }), found);
      taken = taken-extend (ground arith);
      passed = passed-extend (λ d' h. ground arith);
      counted = ground (arith, p.counted, here_at, callables-suc f lo p.k);
      kinds = All-append _ s.batch _ p.kinds (ground arith, tt);
      one_kind = λ _. non;
      untaken = λ h. ground arith;
      some_operation = λ _. append-ne-nil s.batch s.id;
      some_callable = λ _. append-ne-nil s.batch s.id;
    }

    pub take_operation-Progress :
        t.dependency ≡ none
        → t.callable ≡ none
        → s.has_callable ≡ false
        → Progress (act take_operation s)
    unfolding act
    take_operation-Progress e q call = record {
      k = suc p.k;
      visited = omega (arith, p.visited);
      in_range = omega arith;
      ahead = ground (arith, ahead-write (record t { pending = true }), found);
      behind = ground (arith, behind-write (record t { pending = true }), found);
      same = ground (arith, same-write (record t { pending = true }), found);
      taken = taken-extend (ground arith);
      passed = passed-extend (λ d' h. ground arith);
      counted = ground (arith, p.counted, here_at, callables-suc f lo p.k);
      kinds = All-append _ s.batch _ (kinds-operation call) (ground arith, tt);
      one_kind = λ h. ground arith;
      untaken = λ h g. ground arith;
      some_operation = λ _. append-ne-nil s.batch s.id;
      some_callable = λ _. append-ne-nil s.batch s.id;
    }

    pub stop_here-Progress : Progress (act stop_here s)
    unfolding act
    stop_here-Progress = record {
      k = p.k;
      visited = p.visited;
      in_range = p.in_range;
      ahead = λ j h. ground (arith, p.ahead j, found);
      behind = ground (arith, behind-write t, found);
      same = ground (arith, same-write t, found);
      taken = p.taken;
      passed = p.passed;
      counted = p.counted;
      kinds = p.kinds;
      one_kind = p.one_kind;
      untaken = p.untaken;
      some_operation = p.some_operation;
      some_callable = p.some_callable;
    }
