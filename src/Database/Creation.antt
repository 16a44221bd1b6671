-- ===== src/Database/Creation.antt =====
-- `ensure_creation_impl` of database/database.hpp: the loop that inserts a document under a new id.
use sekkeizu.Base.{
  ℕ, ◌≡◌, refl, ap, ◌⊎◌, inl, inr, Option-cases, Option, none, some, List, [], ◌∷◌, ◌++◌,
}
use sekkeizu.Database.Ids.{CipherApi, Generator, get_potentially_unique_id}

-- The server's collection: a document with an id in front goes in, or the insertion fails and leaves
-- the collection as it was. `has_id` answers the
-- document of an id that it has; it takes no id twice.
pub record CollectionApi (D K : Type 0) : Type 0 where
  pub insert_one : ℕ → D → K → Option K
  pub has_id : ℕ → K → Option D
  pub insert_one-new :
      (id : ℕ) (document : D) (k k' : K) → insert_one id document k ≡ some k' → has_id id k ≡ none
  pub insert_one-there :
      (id : ℕ) (document : D) (k k' : K)
      → insert_one id document k ≡ some k'
      → has_id id k' ≡ some document

module _ {E D K : Type 0} (cipher : CipherApi E) (collection : CollectionApi D K) where
  -- The loop; the list has a reading of the clock for each round, and `none` means that all of them
  -- are used up.
  unfoldable pub ensure_creation_impl : List ℕ → D → Generator E → K → Option (ℕ × Generator E × K)
  unfolding get_potentially_unique_id
  ensure_creation_impl [] document g k = none
  ensure_creation_impl (seconds ∷ readings) document g k =
      let next = get_potentially_unique_id cipher seconds g in
      let again = ensure_creation_impl readings document next.1 k in
      elim (collection.insert_one next.0 document k) [
        | some k' ↦ some (next.0, next.1, k')
        | none ↦ again
      ]

  unfoldable pub ensure_creation_unsafe :
      List ℕ → D → Generator E → K → Option (ℕ × Generator E × K)
  unfolding ensure_creation_impl
  ensure_creation_unsafe readings document g k = ensure_creation_impl readings document g k

  -- The generator after a number of rounds.
  abbrev pub after : List ℕ → Generator E → Generator E
  after [] g = g
  after (seconds ∷ readings) g = after readings (get_potentially_unique_id cipher seconds g).1

  -- The collection takes the document under none of the ids of these rounds.
  abbrev pub Refused : List ℕ → D → Generator E → K → Type 0
  Refused [] document g k = Unit
  Refused (seconds ∷ readings) document g k =
      let next = get_potentially_unique_id cipher seconds g in
      (collection.insert_one next.0 document k ≡ none) × Refused readings document next.1 k

  -- The loop ends in the first round whose id the collection takes, and needs no reading behind it:
  -- the answer is that id, which the collection did not have, and the collection is that after the
  -- one insertion, with the document under the id.
  pub ensure_creation_impl-inserts :
      (refused : List ℕ) (seconds : ℕ) (rest : List ℕ) (document : D) (g : Generator E) (k k' : K)
      → Refused refused document g k
      → let last = get_potentially_unique_id cipher seconds (after refused g) in
        collection.insert_one last.0 document k ≡ some k'
        → (ensure_creation_impl (refused ++ seconds ∷ rest) document g k
            ≡ some (last.0, last.1, k'))
          × (collection.has_id last.0 k ≡ none)
          × (collection.has_id last.0 k' ≡ some document)
  unfolding ensure_creation_impl
  ensure_creation_impl-inserts [] seconds rest document g k k' a ok = (
    rw (ok, ensure_creation_impl) refl,
    collection.insert_one-new _ document k k' ok,
    collection.insert_one-there _ document k k' ok,
  )
  ensure_creation_impl-inserts (s ∷ refused) seconds rest document g k k' a ok =
      let (found, new, there) =
        ensure_creation_impl-inserts refused seconds rest document
          (get_potentially_unique_id cipher s g).1 k k' a.1 ok in
      (rw (a.0, ensure_creation_impl) found, new, there)

  -- Whatever the collection does, there are two cases. Either it refuses the id of every round: then the
  -- loop has used up all of its readings and has no answer, however many they are. Or there is a first
  -- round whose id it takes: then the loop ends there, with that id and the collection after this one
  -- insertion. Nothing else ends the loop.
  pub ensure_creation_impl-cases :
      (readings : List ℕ) (document : D) (g : Generator E) (k : K)
      → (Refused readings document g k × (ensure_creation_impl readings document g k ≡ none))
        ⊎ ((refused : List ℕ) × (seconds : ℕ) × (rest : List ℕ) × (k' : K) × (readings
              ≡ refused ++ seconds ∷ rest)
            × Refused refused document g k
            × (let last = get_potentially_unique_id cipher seconds (after refused g) in
                (collection.insert_one last.0 document k ≡ some k')
                × (ensure_creation_impl readings document g k ≡ some (last.0, last.1, k'))))
  unfolding ensure_creation_impl
  ensure_creation_impl-cases [] document g k = inl (tt, refl)
  ensure_creation_impl-cases (seconds ∷ readings) document g k =
      let next = get_potentially_unique_id cipher seconds g in
      elim (Option-cases (collection.insert_one next.0 document k)) [
        | inr (k', ok) ↦
            inr ([], seconds, readings, k', refl, tt, (ok, rw (ok, ensure_creation_impl) refl))
        | inl refusal ↦ elim (ensure_creation_impl-cases readings document next.1 k) [
          | inl (all, unanswered) ↦
              inl ((refusal, all), rw (refusal, ensure_creation_impl) unanswered)
          | inr (refused, last, rest, k', split, some_refused, (ok, answer)) ↦ inr (
            seconds ∷ refused,
            last,
            rest,
            k',
            ap (λ xs. seconds ∷ xs) split,
            (refusal, some_refused),
            (ok, rw (refusal, ensure_creation_impl) answer),
          )
        ]
      ]
