-- ===== src/Transaction/Carried.antt =====
-- The ids that the jobs of database/transaction.hpp carry, and how often.
use sekkeizu.Base.{
  ℕ, zero, suc, ◌+◌, ◌≤◌, ◌<◌, ◌≡◌, refl, ap, inl, inr, Option, List, [], ◌∷◌, ◌++◌, arith, All,
  All-append, count, count-append, Bool-cases, ==_iff, ◌==◌,
}
use sekkeizu.Transaction.Types.{Info, Job}
use sekkeizu.Transaction.Window.{is_operation, operations, only}
use sekkeizu.Transaction.Moved.{ids_for, ids_for-append}

pub ids_for-join :
    (P : ℕ → Type 0) (k : ℕ) (jobs : List Job)
    → All (λ (job : Job). job.collection ≡ k → All P job.ids) jobs
    → All P (ids_for k jobs)
unfolding ids_for
ids_for-join P k [] h = tt
ids_for-join P k (job ∷ jobs) h = elim (Bool-cases (job.collection == k)) [
  | inl hit ↦ rw hit (
      All-append P job.ids (ids_for k jobs) (h.0 ((==_iff job.collection k).0 hit))
        (ids_for-join P k jobs h.1))
  | inr miss ↦ rw miss (ids_for-join P k jobs h.1)
]

pub ids_for-fewer :
    (k : ℕ) (before after : List Job) (job : Job) (j : ℕ)
    → count j (ids_for k (before ++ after)) ≤ count j (ids_for k (before ++ job ∷ after))
unfolding ids_for
ids_for-fewer k before after job j = ground (
  arith,
  ap (count j) (ids_for-append k before after),
  ap (count j) (ids_for-append k before (job ∷ after)),
  count-append j (ids_for k before) (ids_for k after),
  count-append j (ids_for k before) (ids_for k (job ∷ after)),
  count-append j job.ids (ids_for k after),
)

pub ids_for-taken :
    (k : ℕ) (before after : List Job) (job : Job)
    → job.collection ≡ k
    → (j : ℕ)
    → count j (ids_for k (before ++ job ∷ after))
      ≡ count j job.ids + count j (ids_for k (before ++ after))
unfolding ids_for
ids_for-taken k before after job e j = ground (
  arith,
  (==_iff job.collection k).1 e,
  ap (count j) (ids_for-append k before after),
  ap (count j) (ids_for-append k before (job ∷ after)),
  count-append j (ids_for k before) (ids_for k after),
  count-append j (ids_for k before) (ids_for k (job ∷ after)),
  count-append j job.ids (ids_for k after),
)

module _ {B C : Type 0} where
  pub operations-range :
      (f : ℕ → Option (Info B C)) (lo n : ℕ) (Q : ℕ → Type 0)
      → ((j : ℕ) → lo ≤ j → j < lo + n → Q j)
      → All Q (operations f lo n)
  unfolding operations
  operations-range f lo zero Q h = tt
  operations-range f lo (suc n) Q h =
      All-append Q (operations f lo n) _
        (operations-range f lo n Q (λ j a b. h j a (omega (arith, b))))
        (elim (Bool-cases (is_operation (f (lo + n)))) [
          | inl op ↦ rw op (h (lo + n) (omega arith) (omega arith), tt)
          | inr dep ↦ rw dep tt
        ])

  -- No operation of a range is in it twice, and none is outside.
  pub operations-count :
      (f : ℕ → Option (Info B C)) (lo n j : ℕ)
      → (count j (operations f lo n) ≤ 1)
        × (j < lo → count j (operations f lo n) ≡ 0)
        × (lo + n ≤ j → count j (operations f lo n) ≡ 0)
  unfolding operations
  operations-count f lo zero j = (omega arith, λ _. refl, λ _. refl)
  operations-count f lo (suc n) j =
      let (once, below, above) = operations-count f lo n j in
      let sum = count-append j (operations f lo n) (only (is_operation (f (lo + n))) (lo + n)) in
      elim (Bool-cases (is_operation (f (lo + n)))) [
        | inl op ↦ (
          ground (arith, once, below, above, sum, ==_iff (lo + n) j),
          λ h. ground (arith, below h, sum, ==_iff (lo + n) j),
          λ h. ground (arith, above (omega (arith, h)), sum, ==_iff (lo + n) j),
        )
        | inr dep ↦ (
          ground (arith, once, sum),
          λ h. ground (arith, below h, sum),
          λ h. ground (arith, above (omega (arith, h)), sum),
        )
      ]
