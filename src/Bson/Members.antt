-- ===== src/Bson/Members.antt =====
-- Which member a visit of database/bson_reflection_struct.hpp writes.
use sekkeizu.Base.{
  ℕ, ◌≡◌, ◌≢◌, refl, true, none, some, List, [], ◌∷◌, ◌++◌, ==_ne, find, replace, arith, Each,
}
use sekkeizu.Bson.Visit.{
  Kind, Member, number, text, nested, VisitApi, check_and_store, check_and_store_string,
  check_and_recurse,
}

module _ {N S D : Type 0} (api : VisitApi N S D) where
  -- The loop over the members finds the first member of the name: a number of any type takes the
  -- value, converted, another member fails the assertion, and without one nothing happens.
  pub check_and_store-find :
      (v : Kind) (hash : ℕ) (x : N) (members : List (ℕ × Member N S))
      → check_and_store api v hash x members ≡ (elim (find hash members) [
        | none ↦ some members
        | some m ↦ elim m [
          | number kind _ ↦ some (replace hash (number kind (api.convert v kind x)) members)
          | text _ ↦ none
          | nested _ ↦ none
        ]
      ])
  unfolding check_and_store
  check_and_store-find v hash x [] = refl
  check_and_store-find v hash x ((h, number kind y) ∷ members) =
      ground (arith, check_and_store-find v hash x members)
  check_and_store-find v hash x ((h, text y) ∷ members) =
      ground (arith, check_and_store-find v hash x members)
  check_and_store-find v hash x ((h, nested y) ∷ members) =
      ground (arith, check_and_store-find v hash x members)

  -- For a string the loop over the members finds the first member of the name: a string takes the
  -- value, another member fails the assertion, and without one nothing happens.
  pub check_and_store_string-find :
      (hash : ℕ) (x : List ℕ) (members : List (ℕ × Member N S))
      → check_and_store_string api hash x members ≡ (elim (find hash members) [
        | none ↦ some members
        | some m ↦ elim m [
          | number _ _ ↦ none
          | text _ ↦ some (replace hash (text x) members)
          | nested _ ↦ none
        ]
      ])
  unfolding check_and_store_string
  check_and_store_string-find hash x [] = refl
  check_and_store_string-find hash x ((h, number kind y) ∷ members) =
      ground (arith, check_and_store_string-find hash x members)
  check_and_store_string-find hash x ((h, text y) ∷ members) =
      ground (arith, check_and_store_string-find hash x members)
  check_and_store_string-find hash x ((h, nested y) ∷ members) =
      ground (arith, check_and_store_string-find hash x members)

  -- A member that is no nested struct, and has another name.
  abbrev pub IsPassed : ℕ → ℕ → Member N S → Type 0
  IsPassed hash h (number _ _) = h ≢ hash
  IsPassed hash h (text _) = h ≢ hash
  IsPassed hash h (nested _) = ⊥

  -- The first nested struct of the members takes every document, whatever its key is, unless the
  -- key is that of a member before it.
  pub check_and_recurse-first :
      (hash h : ℕ) (doc : D) (s : S) (before after : List (ℕ × Member N S))
      → api.bson_iter_init doc ≡ true
      → Each (IsPassed hash) before
      → check_and_recurse api hash doc (before ++ (h, nested s) ∷ after)
        ≡ some (before ++ (h, nested (api.visit_all doc s)) ∷ after)
  unfolding check_and_recurse
  check_and_recurse-first hash h doc s [] after i a = rw i refl
  check_and_recurse-first hash h doc s ((j, number kind y) ∷ before) after i a =
      ground (arith, check_and_recurse-first hash h doc s before after i a.1, ==_ne j hash a.0)
  check_and_recurse-first hash h doc s ((j, text y) ∷ before) after i a =
      ground (arith, check_and_recurse-first hash h doc s before after i a.1, ==_ne j hash a.0)
  check_and_recurse-first hash h doc s ((j, nested y) ∷ before) after i a = absurd a.0
