-- ===== src/Transaction/Window.antt =====
-- What the proofs say of a range of ids: the operations and callables in it, in order.
use sekkeizu.Base.{
  ℕ, zero, suc, ◌+◌, ◌≤◌, ◌<◌, ◌≡◌, refl, ap, ◌∙◌, Bool, true, false, Option, none, some, List, [],
  ◌∷◌, ◌++◌, ap₂, append-nil, append_assoc, arith,
}
use native.Mathlib.Nat.{add-zero, add-suc, add_assoc}
use sekkeizu.Transaction.Types.{Info}

abbrev pub only : Bool → ℕ → List ℕ
only true id = id ∷ []
only false id = []

abbrev pub bit : Bool → ℕ
bit true = 1
bit false = 0

module _ {B C : Type 0} where
  -- The entry stands for work on the database: it is no dependency.
  abbrev pub is_operation : Option (Info B C) → Bool
  is_operation none = false
  is_operation (some t) = elim t.dependency [ none ↦ true | some _ ↦ false ]

  abbrev pub is_callable : Option (Info B C) → Bool
  is_callable none = false
  is_callable (some t) = elim t.dependency [
    | none ↦ elim t.callable [ none ↦ false | some _ ↦ true ]
    | some _ ↦ false
  ]

  -- An operation of the kind that a job with this `bulk` flag carries.
  abbrev pub IsKind : Bool → Option (Info B C) → Type 0
  IsKind bulk none = ⊥
  IsKind true (some t) = (t.dependency ≡ none) × (t.callable ≡ none)
  IsKind false (some t) = (t.dependency ≡ none) × (c : C) × (t.callable ≡ some c)

  -- An entry that was pushed and that no job has taken.
  abbrev pub IsWaiting : Option (Info B C) → Type 0
  IsWaiting none = ⊥
  IsWaiting (some t) = (t.pending ≡ false) × (t.done ≡ false)

  -- A dependency is not done.
  abbrev pub IsPlain : Option (Info B C) → Type 0
  IsPlain none = Unit
  IsPlain (some t) = is_operation (some t) ≡ false → t.done ≡ false

  -- The entry, but for the flag that `get_pending_operations` sets.
  abbrev pub payload : Option (Info B C) → Option (Info B C)
  payload none = none
  payload (some t) = some (record t { pending = false })

  -- The ids of the operations among `lo`, …, `lo + n - 1`, in increasing order.
  unfoldable pub operations : (ℕ → Option (Info B C)) → ℕ → ℕ → List ℕ
  operations f lo zero = []
  operations f lo (suc n) = operations f lo n ++ only (is_operation (f (lo + n))) (lo + n)

  -- How many of them are callables.
  unfoldable pub callables : (ℕ → Option (Info B C)) → ℕ → ℕ → ℕ
  callables f lo zero = 0
  callables f lo (suc n) = callables f lo n + bit (is_callable (f (lo + n)))

  pub operations-suc_of_operation :
      (f : ℕ → Option (Info B C)) (lo n : ℕ)
      → is_operation (f (lo + n)) ≡ true
      → operations f lo (suc n) ≡ operations f lo n ++ (lo + n) ∷ []
  unfolding operations
  operations-suc_of_operation f lo n h = rw h

  pub operations-suc_of_dependency :
      (f : ℕ → Option (Info B C)) (lo n : ℕ)
      → is_operation (f (lo + n)) ≡ false
      → operations f lo (suc n) ≡ operations f lo n
  unfolding operations
  operations-suc_of_dependency f lo n h = rw (h, append-nil)

  pub callables-suc :
      (f : ℕ → Option (Info B C)) (lo n : ℕ)
      → callables f lo (suc n) ≡ callables f lo n + bit (is_callable (f (lo + n)))
  unfolding callables
  callables-suc f lo n = refl

  -- A range is the range before and the range behind.
  pub operations-add :
      (f : ℕ → Option (Info B C)) (lo m n : ℕ)
      → operations f lo (m + n) ≡ operations f lo m ++ operations f (lo + m) n
  unfolding operations
  operations-add f lo m zero = simp (append-nil, add-zero)
  operations-add f lo m (suc n) = simp (add-suc, operations-add f lo m n, append_assoc, add_assoc)

  pub callables-add :
      (f : ℕ → Option (Info B C)) (lo m n : ℕ)
      → callables f lo (m + n) ≡ callables f lo m + callables f (lo + m) n
  unfolding callables
  callables-add f lo m zero = simp add-zero
  callables-add f lo m (suc n) = simp (add-suc, callables-add f lo m n, add_assoc)

  pub is_operation-cong :
      (a b : Option (Info B C)) → payload a ≡ payload b → is_operation a ≡ is_operation b
  is_operation-cong none none e = refl
  is_operation-cong none (some t) e = absurd (cc)
  is_operation-cong (some t) none e = absurd (cc)
  is_operation-cong (some t) (some u) e = ground arith

  pub is_callable-cong :
      (a b : Option (Info B C)) → payload a ≡ payload b → is_callable a ≡ is_callable b
  is_callable-cong none none e = refl
  is_callable-cong none (some t) e = absurd (cc)
  is_callable-cong (some t) none e = absurd (cc)
  is_callable-cong (some t) (some u) e = ground arith

  pub IsPlain-cong : (a b : Option (Info B C)) → payload a ≡ payload b → IsPlain a → IsPlain b
  IsPlain-cong none none e h = h
  IsPlain-cong none (some t) e h = absurd (cc)
  IsPlain-cong (some t) none e h = absurd (cc)
  IsPlain-cong (some t) (some u) e h = λ q. ground arith

  pub IsPlain-operation : (o : Option (Info B C)) → is_operation o ≡ true → IsPlain o
  IsPlain-operation none e = tt
  IsPlain-operation (some t) e = λ q. absurd (cc)

  -- Only which entries are operations matters.
  pub operations-is_operation :
      (f g : ℕ → Option (Info B C)) (lo n : ℕ)
      → ((j : ℕ) → lo ≤ j → j < lo + n → is_operation (f j) ≡ is_operation (g j))
      → operations f lo n ≡ operations g lo n
  unfolding operations
  operations-is_operation f g lo zero h = refl
  operations-is_operation f g lo (suc n) h =
      ap₂ (λ xs b. xs ++ only b (lo + n))
        (operations-is_operation f g lo n (λ j a b. h j a (omega arith)))
        (h (lo + n) (omega arith) (omega arith))

  -- So the flags of the entries do not.
  pub operations-cong :
      (f g : ℕ → Option (Info B C)) (lo n : ℕ)
      → ((j : ℕ) → lo ≤ j → j < lo + n → payload (f j) ≡ payload (g j))
      → operations f lo n ≡ operations g lo n
  operations-cong f g lo n h =
      operations-is_operation f g lo n (λ j a b. is_operation-cong (f j) (g j) (h j a b))

  pub callables-cong :
      (f g : ℕ → Option (Info B C)) (lo n : ℕ)
      → ((j : ℕ) → lo ≤ j → j < lo + n → payload (f j) ≡ payload (g j))
      → callables f lo n ≡ callables g lo n
  unfolding callables
  callables-cong f g lo zero h = refl
  callables-cong f g lo (suc n) h =
      ap₂ (λ m b. m + bit b) (callables-cong f g lo n (λ j a b. h j a (omega arith)))
        (is_callable-cong (f (lo + n)) (g (lo + n)) (h (lo + n) (omega arith) (omega arith)))

  -- A range from 0 and the range behind it.
  pub operations-extend :
      (f : ℕ → Option (Info B C)) (first count : ℕ)
      → operations f 0 (first + count) ≡ operations f 0 first ++ operations f first count
  operations-extend f first count =
      operations-add f 0 first count
      ∙ ap (λ lo. operations f 0 first ++ operations f lo count) (omega arith)

pub waiting-some :
    {B C : Type 0} (o : Option (Info B C))
    → IsWaiting o
    → (t : Info B C) × (o ≡ some t) × (t.pending ≡ false) × (t.done ≡ false)
waiting-some none w = absurd w
waiting-some (some t) w = (t, refl, w.0, w.1)
