-- ===== src/Bson/Fields.antt =====
-- `fields` of database/bson_reflection_struct.hpp: a document with each name of the struct.
use sekkeizu.Base.{
  ℕ, zero, suc, ◌≡◌, refl, Bool, true, false, List, [], ◌∷◌, ◌++◌, map, if◌then◌else◌, append-nil,
  append_assoc, ap, ◌∙◌, sym,
}

-- The static members: whether the document is built, and its pairs of a name and an int32.
pub record Fields (K : Type 0) : Type 0 where
  pub fields_init : Bool
  pub document : List (K × ℕ)

module _ {K : Type 0} where
  abbrev pub unset : Fields K
  unset = record { fields_init = false; document = [] }

  -- `fields_impl<0>`: each name in order is appended with the value 1.
  unfoldable pub fields_impl : List K → List (K × ℕ) → List (K × ℕ)
  fields_impl [] doc = doc
  fields_impl (name ∷ names) doc = fields_impl names (doc ++ (name, 1) ∷ [])

  unfoldable pub fields : List K → Fields K → Fields K
  unfolding fields_impl
  fields names s =
      if s.fields_init
      then s
      else (record { fields_init = true; document = fields_impl names s.document })

  -- Any number of calls.
  abbrev pub calls : List K → ℕ → Fields K → Fields K
  calls names zero s = s
  calls names (suc n) s = calls names n (fields names s)

  fields_impl_lem :
      (names : List K) (doc : List (K × ℕ))
      → fields_impl names doc ≡ doc ++ map (λ name. (name, 1)) names
  unfolding fields_impl
  fields_impl_lem [] doc = sym (append-nil doc)
  fields_impl_lem (name ∷ names) doc =
      fields_impl_lem names (doc ++ (name, 1) ∷ [])
      ∙ append_assoc doc ((name, 1) ∷ []) (map (λ name. (name, 1)) names)

  calls-set : (names : List K) (n : ℕ) (s : Fields K) → s.fields_init ≡ true → calls names n s ≡ s
  unfolding fields
  calls-set names zero s h = refl
  calls-set names (suc n) s h = ap (calls names n) (rw (h, fields) refl) ∙ calls-set names n s h

  -- However often it is called, `fields` answers the document with each name once, in order.
  pub calls-unset :
      (names : List K) (n : ℕ)
      → (calls names (suc n) unset).document ≡ map (λ name. (name, 1)) names
  unfolding fields
  calls-unset names n =
      ap (λ s. s.document)
        (calls-set names n (record { fields_init = true; document = fields_impl names [] }) refl)
      ∙ fields_impl_lem names []
