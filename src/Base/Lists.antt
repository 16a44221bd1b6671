-- ===== src/Base/Lists.antt =====
-- Lists measured by native numbers, predicates on lists, and runs of consecutive numbers.
use Prim.Native.Nat.{ℕ, suc, ◌+◌, ◌≤◌}
use mathlib.Core.Path.{subst, ◌≡◌, refl}
use mathlib.Core.Logic.{◌≢◌, ◌⊎◌, inl, inr}
use mathlib.Core.Bool.{false, true, Bool}
use mathlib.Core.List.{List, [], ◌∷◌, ◌++◌}
use native.Mathlib.Omega.{arith}
use sekkeizu.Base.Tests.{◌==◌, if◌then◌else◌, ==_iff, Bool-cases}

module _ {ℓ} {A : Type ℓ} where
  abbrev pub length : List A → ℕ
  length [] = 0
  length (x ∷ xs) = suc (length xs)

  pub length-append : (xs ys : List A) → length (xs ++ ys) ≡ length xs + length ys
  length-append [] ys = omega arith
  length-append (x ∷ xs) ys = omega (arith, length-append xs ys)

  pub append-ne-nil : (xs : List A) (x : A) → ¬ (xs ++ x ∷ [] ≡ [])
  append-ne-nil [] x h = cc
  append-ne-nil (y ∷ xs) x h = cc

  pub List-cases : (xs : List A) → (xs ≡ []) ⊎ ((x : A) × (rest : List A) × (xs ≡ x ∷ rest))
  List-cases [] = inl refl
  List-cases (x ∷ xs) = inr (x, xs, refl)

  -- Every element satisfies the predicate.
  abbrev pub All {κ} : (A → Type κ) → List A → Type κ
  All P [] = Unit
  All P (x ∷ xs) = P x × All P xs

  pub All-append {κ} : (P : A → Type κ) (xs ys : List A) → All P xs → All P ys → All P (xs ++ ys)
  All-append P [] ys hx hy = hy
  All-append P (x ∷ xs) ys hx hy = (hx.0, All-append P xs ys hx.1 hy)

  pub All-split {κ} : (P : A → Type κ) (xs ys : List A) → All P (xs ++ ys) → All P xs × All P ys
  All-split P [] ys h = (tt, h)
  All-split P (x ∷ xs) ys h = let r = All-split P xs ys h.1 in ((h.0, r.0), r.1)

  pub All-mono {κ} :
      (P Q : A → Type κ) → ((a : A) → P a → Q a) → (xs : List A) → All P xs → All Q xs
  All-mono P Q f [] h = tt
  All-mono P Q f (x ∷ xs) h = (f x h.0, All-mono P Q f xs h.1)

  -- The elements that pass a Boolean test, in order.
  abbrev pub keep : (A → Bool) → List A → List A
  keep p [] = []
  keep p (x ∷ xs) = if p x then x ∷ keep p xs else keep p xs

-- Sets of numbers as lists without repetition.
abbrev pub mem : ℕ → List ℕ → Bool
mem k [] = false
mem k (x ∷ xs) = if x == k then true else mem k xs

abbrev pub insert_set : ℕ → List ℕ → List ℕ
insert_set k xs = if mem k xs then xs else k ∷ xs

abbrev pub erase_set : ℕ → List ℕ → List ℕ
erase_set k [] = []
erase_set k (x ∷ xs) = if x == k then erase_set k xs else x ∷ erase_set k xs

-- How often a number occurs.
abbrev pub count : ℕ → List ℕ → ℕ
count b [] = 0
count b (x ∷ xs) = if x == b then suc (count b xs) else count b xs

pub count-append : (b : ℕ) (xs ys : List ℕ) → count b (xs ++ ys) ≡ count b xs + count b ys
count-append b [] ys = omega arith
count-append b (x ∷ xs) ys = ground (arith, count-append b xs ys)

pub mem-erase_set :
    (k j : ℕ) (xs : List ℕ) → mem j (erase_set k xs) ≡ (if k == j then false else mem j xs)
mem-erase_set k j [] = ground arith
mem-erase_set k j (x ∷ xs) = ground (arith, mem-erase_set k j xs)

pub mem-insert_set :
    (k j : ℕ) (xs : List ℕ) → mem j (insert_set k xs) ≡ (if k == j then true else mem j xs)
mem-insert_set k j xs = elim (Bool-cases (mem k xs)) [
  | inl old ↦ elim (Bool-cases (k == j)) [
    | inl e ↦
        let same : k ≡ j = (==_iff k j).0 e in rw (old, e) (subst (λ i. mem i xs ≡ true) same old)
    | inr n ↦ rw (old, n)
  ]
  | inr new ↦ rw new
]

module _ {A : Type 0} where
  pub All-both : (P Q : A → Type 0) (xs : List A) → All P xs → All Q xs → All (λ x. P x × Q x) xs
  All-both P Q [] p q = tt
  All-both P Q (x ∷ xs) p q = ((p.0, q.0), All-both P Q xs p.1 q.1)

pub count_self : (xs : List ℕ) → All (λ j. 1 ≤ count j xs) xs
count_self [] = tt
count_self (x ∷ xs) =
    (ground (arith, ==_iff x x), All-mono _ _ (λ j h. ground (arith, h)) xs (count_self xs))

pub count-none : (j : ℕ) (xs : List ℕ) → count j xs ≡ 0 → All (λ id. id ≢ j) xs
count-none j [] h = tt
count-none j (x ∷ xs) h = (ground (arith, ==_iff x j), count-none j xs (ground arith))

pub count-All : (P : ℕ → Type 0) (j : ℕ) (xs : List ℕ) → All P xs → (count j xs ≡ 0) ⊎ P j
count-All P j [] h = inl refl
count-All P j (x ∷ xs) h = elim (Bool-cases (x == j)) [
  | inl hit ↦ inr (subst P ((==_iff x j).0 hit) h.0)
  | inr miss ↦ elim (count-All P j xs h.1) [ inl absent ↦ inl (ground arith) | inr q ↦ inr q ]
]
