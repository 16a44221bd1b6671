-- ===== src/Bson/Visit.antt =====
-- The visitor of database/bson_reflection_struct.hpp. The members of a struct are a list, with the
-- hashes of their names; `N` stands for the numbers of all types, `S` for a nested struct, and `D`
-- for a document that stands in a document.
use sekkeizu.Base.{ℕ, Bool, Option, none, some, List, [], ◌∷◌, if◌then◌else◌, ◌==◌}
use sekkeizu.Bson.Hash.{hash_of_c_string}

-- The arithmetic types, which convert to each other.
pub data Kind : Type 0 where
  double boolean int32 int64 : Kind

pub data Member (N S : Type 0) : Type 0 where
  number : Kind → N → Member N S
  text : List ℕ → Member N S
  nested : S → Member N S

-- What the visitor is called with.
pub data Element (N D : Type 0) : Type 0 where
  visit_number : Kind → N → Element N D
  visit_utf8 : List ℕ → Element N D
  visit_document : D → Element N D

-- The conversions of the language between arithmetic types, and what the nested struct and the BSON
-- library do: an iterator over a document, where there is one, and `visit_all` over it.
pub record VisitApi (N S D : Type 0) : Type 0 where
  pub convert : Kind → Kind → N → N
  pub bson_iter_init : D → Bool
  pub visit_all : D → S → S

module _ {N S D : Type 0} (api : VisitApi N S D) where
  -- `check_and_store<I, V>`, from the member `I` on; `none` is the failed assertion that a key of
  -- the name has the type.
  unfoldable pub check_and_store :
      Kind → ℕ → N → List (ℕ × Member N S) → Option (List (ℕ × Member N S))
  check_and_store v hash x [] = some []
  check_and_store v hash x ((h, m) ∷ members) =
      let rest : Option (List (ℕ × Member N S)) = elim (check_and_store v hash x members) [
        | none ↦ none
        | some ms ↦ some ((h, m) ∷ ms)
      ] in
      elim m [
        | number kind _ ↦
            if h == hash then some ((h, number kind (api.convert v kind x)) ∷ members) else rest
        | _ ↦ if h == hash then none else rest
      ]

  -- `check_and_store_string<I>`.
  unfoldable pub check_and_store_string :
      ℕ → List ℕ → List (ℕ × Member N S) → Option (List (ℕ × Member N S))
  check_and_store_string hash x [] = some []
  check_and_store_string hash x ((h, m) ∷ members) =
      let rest : Option (List (ℕ × Member N S)) = elim (check_and_store_string hash x members) [
        | none ↦ none
        | some ms ↦ some ((h, m) ∷ ms)
      ] in
      elim m [
        | text _ ↦ if h == hash then some ((h, text x) ∷ members) else rest
        | _ ↦ if h == hash then none else rest
      ]

  -- `check_and_recurse<I>`: a nested struct takes the document, whatever its key.
  unfoldable pub check_and_recurse : ℕ → D → List (ℕ × Member N S) → Option (List (ℕ × Member N S))
  check_and_recurse hash doc [] = some []
  check_and_recurse hash doc ((h, m) ∷ members) =
      let rest : Option (List (ℕ × Member N S)) = elim (check_and_recurse hash doc members) [
        | none ↦ none
        | some ms ↦ some ((h, m) ∷ ms)
      ] in
      elim m [
        | nested s ↦
            some ((h, nested (if api.bson_iter_init doc then api.visit_all doc s else s)) ∷ members)
        | _ ↦ if h == hash then none else rest
      ]

  -- One call of the visitor. It answers that the iteration goes on, since the functions above all
  -- return true.
  unfoldable pub visit :
      List ℕ → Element N D → List (ℕ × Member N S) → Option (List (ℕ × Member N S))
  unfolding check_and_store check_and_store_string check_and_recurse hash_of_c_string
  visit key (visit_number v x) members = check_and_store v (hash_of_c_string key) x members
  visit key (visit_utf8 x) members = check_and_store_string (hash_of_c_string key) x members
  visit key (visit_document doc) members = check_and_recurse (hash_of_c_string key) doc members

  -- The visits of a document, in the order of its elements.
  unfoldable pub visits :
      List (List ℕ × Element N D) → List (ℕ × Member N S) → Option (List (ℕ × Member N S))
  unfolding visit
  visits [] members = some members
  visits ((key, e) ∷ elements) members = elim (visit key e members) [
    | none ↦ none
    | some ms ↦ visits elements ms
  ]
