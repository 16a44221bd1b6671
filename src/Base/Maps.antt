-- ===== src/Base/Maps.antt =====
-- Association lists keyed by numbers, as the hash maps of the program that are walked, and
-- functions into `Option`, as those that are only read and written at a key.
use Prim.Native.Nat.{ℕ}
use mathlib.Core.Path.{◌≡◌, sym, ◌∙◌, subst, subst₂}
use mathlib.Core.Logic.{◌≢◌, inl, inr}
use mathlib.Core.Bool.{Bool, true, false}
use mathlib.Core.Option.{Option, none, some}
use mathlib.Core.List.{List, [], ◌∷◌}
use native.Mathlib.Omega.{arith}
use sekkeizu.Base.Tests.{◌==◌, if◌then◌else◌, ==_iff, Bool-cases}

-- The next step of a `do` block, after one that may fail.
infixl 5 ◌>>=◌
abbrev pub ◌>>=◌ : {A B : Type 0} → Option A → (A → Option B) → Option B
some a >>= f = f a
none >>= f = none

module _ {ℓ} {V : Type ℓ} where
  -- The map with one entry written.
  abbrev pub write : (ℕ → Option V) → ℕ → V → ℕ → Option V
  write f k v j = if k == j then some v else f j

  abbrev pub find : ℕ → List (ℕ × V) → Option V
  find k [] = none
  find k ((j, v) ∷ m) = if j == k then some v else find k m

  -- Writes at a key that is present, in place; a missing key changes nothing.
  abbrev pub replace : ℕ → V → List (ℕ × V) → List (ℕ × V)
  replace k v [] = []
  replace k v ((j, w) ∷ m) = if j == k then (j, v) ∷ m else (j, w) ∷ replace k v m

  -- `emplace`: the entry of a key that is there is kept.
  abbrev pub emplace : ℕ → V → List (ℕ × V) → List (ℕ × V)
  emplace k v m = elim (find k m) [ none ↦ (k, v) ∷ m | some _ ↦ m ]

  abbrev pub erase_key : ℕ → List (ℕ × V) → List (ℕ × V)
  erase_key k [] = []
  erase_key k ((j, v) ∷ m) = if j == k then erase_key k m else (j, v) ∷ erase_key k m

  abbrev pub has : ℕ → List (ℕ × V) → Bool
  has k m = elim (find k m) [ none ↦ false | some _ ↦ true ]

  pub find-erase_key :
      (k j : ℕ) (m : List (ℕ × V)) → find j (erase_key k m) ≡ (if k == j then none else find j m)
  find-erase_key k j [] = ground arith
  find-erase_key k j ((i, v) ∷ m) = ground (arith, find-erase_key k j m)

  pub find-emplace :
      (k j : ℕ) (v : V) (m : List (ℕ × V))
      → find j (emplace k v m)
        ≡ (elim (find j m) [ none ↦ (if k == j then some v else none) | some w ↦ some w ])
  find-emplace k j v m = elim (Bool-cases (k == j)) [
    | inl e ↦
        subst
          (λ i.
            find i (emplace k v m)
            ≡ (elim (find i m) [ none ↦ (if k == i then some v else none) | some w ↦ some w ]))
          ((==_iff k j).0 e) (ground arith)
    | inr n ↦ ground arith
  ]

  pub find-replace :
      (k j : ℕ) (v w : V) (m : List (ℕ × V))
      → find k m ≡ some w
      → find j (replace k v m) ≡ (if k == j then some v else find j m)
  find-replace k j v w [] h = ground arith
  find-replace k j v w ((i, x) ∷ m) h = ground (arith, find-replace k j v w m)

  -- No entry has the key; all keys are distinct, as in every hash map.
  abbrev pub Avoids : ℕ → List (ℕ × V) → Type 0
  Avoids k [] = Unit
  Avoids k ((j, _) ∷ m) = (j ≢ k) × Avoids k m

  abbrev pub Distinct : List (ℕ × V) → Type 0
  Distinct [] = Unit
  Distinct ((j, _) ∷ m) = Avoids j m × Distinct m

  -- A property of every key with its value.
  abbrev pub Each {κ} : (ℕ → V → Type κ) → List (ℕ × V) → Type κ
  Each P [] = Unit
  Each P ((j, v) ∷ m) = P j v × Each P m

  -- Two maps with the same keys in the same order, and a relation between their values.
  abbrev pub Along : (ℕ → V → V → Type 0) → List (ℕ × V) → List (ℕ × V) → Type 0
  Along R [] [] = Unit
  Along R [] (_ ∷ _) = ⊥
  Along R (_ ∷ _) [] = ⊥
  Along R ((j, v) ∷ m) ((k, w) ∷ n) = ((j ≡ k) × R j v w) × Along R m n

  pub Each-find {κ} :
      (P : ℕ → V → Type κ) (k : ℕ) (v : V) (m : List (ℕ × V)) → find k m ≡ some v → Each P m → P k v
  Each-find P k v [] e h = absurd (cc)
  Each-find P k v ((j, w) ∷ m) e h = elim (Bool-cases (j == k)) [
    | inl hit ↦ let e' : w ≡ v = ground arith in subst₂ P ((==_iff j k).0 hit) e' h.0
    | inr miss ↦ let e' : find k m ≡ some v = rw miss at e in Each-find P k v m e' h.1
  ]

  pub Avoids-find : (k : ℕ) (m : List (ℕ × V)) → find k m ≡ none → Avoids k m
  Avoids-find k [] e = tt
  Avoids-find k ((j, v) ∷ m) e = elim (Bool-cases (j == k)) [
    | inl hit ↦ absurd (ground arith)
    | inr miss ↦ let e' : find k m ≡ none = rw miss at e in (ground arith, Avoids-find k m e')
  ]

  pub Each-replace {κ} :
      (P : ℕ → V → Type κ) (k : ℕ) (v : V) (m : List (ℕ × V))
      → P k v
      → Each P m
      → Each P (replace k v m)
  Each-replace P k v [] p h = tt
  Each-replace P k v ((j, w) ∷ m) p h = elim (Bool-cases (j == k)) [
    | inl hit ↦ rw hit (subst (λ i. P i v) (sym ((==_iff j k).0 hit)) p, h.1)
    | inr miss ↦ rw miss (h.0, Each-replace P k v m p h.1)
  ]

  pub Each-Along {κ} :
      (P Q : ℕ → V → Type κ) (R : ℕ → V → V → Type 0)
      → ((k : ℕ) (v w : V) → R k v w → P k v → Q k w)
      → (m n : List (ℕ × V)) → Along R m n
      → Each P m
      → Each Q n
  Each-Along P Q R f [] [] a h = tt
  Each-Along P Q R f [] (_ ∷ _) a h = absurd a
  Each-Along P Q R f (_ ∷ _) [] a h = absurd a
  Each-Along P Q R f ((j, v) ∷ m) ((k, w) ∷ n) a h =
      (subst (λ i. Q i w) a.0.0 (f j v w a.0.1 h.0), Each-Along P Q R f m n a.1 h.1)

  pub Each-mono {κ} :
      (P Q : ℕ → V → Type κ)
      → ((k : ℕ) (v : V) → P k v → Q k v)
      → (m : List (ℕ × V)) → Each P m
      → Each Q m
  Each-mono P Q f [] h = tt
  Each-mono P Q f ((j, v) ∷ m) h = (f j v h.0, Each-mono P Q f m h.1)

  Avoids-replace : (i k : ℕ) (v : V) (m : List (ℕ × V)) → Avoids i m → Avoids i (replace k v m)
  Avoids-replace i k v [] h = tt
  Avoids-replace i k v ((j, w) ∷ m) h = ground (arith, Avoids-replace i k v m h.1)

  pub Distinct-replace : (k : ℕ) (v : V) (m : List (ℕ × V)) → Distinct m → Distinct (replace k v m)
  Distinct-replace k v [] h = tt
  Distinct-replace k v ((j, w) ∷ m) h =
      ground (arith, Avoids-replace j k v m h.0, Distinct-replace k v m h.1)

  Avoids-Along :
      (R : ℕ → V → V → Type 0) (i : ℕ) (m n : List (ℕ × V)) → Along R m n → Avoids i m → Avoids i n
  Avoids-Along R i [] [] a h = tt
  Avoids-Along R i [] (_ ∷ _) a h = absurd a
  Avoids-Along R i (_ ∷ _) [] a h = absurd a
  Avoids-Along R i ((j, v) ∷ m) ((k, w) ∷ n) a h =
      ((λ e. h.0 (a.0.0 ∙ e)), Avoids-Along R i m n a.1 h.1)

  pub Distinct-Along :
      (R : ℕ → V → V → Type 0) (m n : List (ℕ × V)) → Along R m n → Distinct m → Distinct n
  Distinct-Along R [] [] a h = tt
  Distinct-Along R [] (_ ∷ _) a h = absurd a
  Distinct-Along R (_ ∷ _) [] a h = absurd a
  Distinct-Along R ((j, v) ∷ m) ((k, w) ∷ n) a h =
      (subst (λ i. Avoids i n) a.0.0 (Avoids-Along R j m n a.1 h.0), Distinct-Along R m n a.1 h.1)

  -- What a walk does to the value of one key.
  pub find-Along :
      (R : ℕ → V → V → Type 0) (k : ℕ) (w : V) (m n : List (ℕ × V))
      → Along R m n
      → find k n ≡ some w
      → (v : V) × (find k m ≡ some v) × R k v w
  find-Along R k w [] [] a e = absurd (cc)
  find-Along R k w [] (_ ∷ _) a e = absurd a
  find-Along R k w (_ ∷ _) [] a e = absurd a
  find-Along R k w ((i, v) ∷ m) ((j, x) ∷ n) a e = elim (Bool-cases (j == k)) [
    | inl hit ↦
        let e' : x ≡ w = ground arith in
        let i_k : i ≡ k = a.0.0 ∙ (==_iff j k).0 hit in
        (v, rw ((==_iff i k).1 i_k), subst₂ (λ h y. R h v y) i_k e' a.0.1)
    | inr miss ↦
        let e' : find k n ≡ some w = rw miss at e in
        let (y, found, r) = find-Along R k w m n a.1 e' in (y, rw (a.0.0, miss) found, r)
  ]
