-- ===== src/Bson/Visits.antt =====
-- What a whole document leaves in a struct of database/bson_reflection_struct.hpp.
use sekkeizu.Base.{
  ==_iff, Bool-cases, ◌++◌, ◌==◌, ℕ, ◌≡◌, ◌≢◌, some, List, [], ◌∷◌, ==_ne, find, find-replace,
  arith, inl, inr, Option-cases, All,
}
use sekkeizu.Bson.Hash.{hash_of_c_string}
use sekkeizu.Bson.Visit.{
  Kind, Member, number, text, nested, Element, visit_number, visit_utf8, visit_document, VisitApi,
  check_and_recurse, visit, visits,
}
use sekkeizu.Bson.Members.{check_and_store-find, check_and_store_string-find}

module _ {N S D : Type 0} (api : VisitApi N S D) (h : ℕ) (kind : Kind) where
  check_and_recurse-number :
      (hash : ℕ) (doc : D) (y : N) (members ms : List (ℕ × Member N S))
      → check_and_recurse api hash doc members ≡ some ms
      → find h members ≡ some (number kind y)
      → find h ms ≡ some (number kind y)
  unfolding check_and_recurse
  check_and_recurse-number hash doc y [] ms e f = absurd (cc)
  check_and_recurse-number hash doc y ((j, nested s) ∷ members) ms e f = ground arith
  check_and_recurse-number hash doc y ((j, number k x) ∷ members) ms e f =
      elim (Option-cases (check_and_recurse api hash doc members)) [
        | inl gone ↦ absurd (ground arith)
        | inr (rest, out) ↦ ground (arith, check_and_recurse-number hash doc y members rest out)
      ]
  check_and_recurse-number hash doc y ((j, text x) ∷ members) ms e f =
      elim (Option-cases (check_and_recurse api hash doc members)) [
        | inl gone ↦ absurd (ground arith)
        | inr (rest, out) ↦ ground (arith, check_and_recurse-number hash doc y members rest out)
      ]

  -- A visit with another key leaves a number alone.
  visit-other :
      (key : List ℕ) (e : Element N D) (y : N) (members ms : List (ℕ × Member N S))
      → hash_of_c_string key ≢ h
      → visit api key e members ≡ some ms
      → find h members ≡ some (number kind y)
      → find h ms ≡ some (number kind y)
  unfolding visit
  visit-other key (visit_number v x) y members ms ne e f =
      elim (Option-cases (find (hash_of_c_string key) members)) [
        | inl gone ↦ ground (arith, check_and_store-find api v (hash_of_c_string key) x members)
        | inr (number k z, here) ↦ ground (
          arith,
          check_and_store-find api v (hash_of_c_string key) x members,
          find-replace (hash_of_c_string key) h (number k (api.convert v k x)) (number k z) members
              here,
          ==_ne _ _ ne,
        )
        | inr (text z, here) ↦
            absurd (ground (arith, check_and_store-find api v (hash_of_c_string key) x members))
        | inr (nested z, here) ↦
            absurd (ground (arith, check_and_store-find api v (hash_of_c_string key) x members))
      ]
  visit-other key (visit_utf8 x) y members ms ne e f =
      elim (Option-cases (find (hash_of_c_string key) members)) [
        | inl gone ↦
            ground (arith, check_and_store_string-find api (hash_of_c_string key) x members)
        | inr (text z, here) ↦ ground (
          arith,
          check_and_store_string-find api (hash_of_c_string key) x members,
          find-replace (hash_of_c_string key) h (text x) (text z) members here,
          ==_ne _ _ ne,
        )
        | inr (number k z, here) ↦
            absurd
              (ground (arith, check_and_store_string-find api (hash_of_c_string key) x members))
        | inr (nested z, here) ↦
            absurd
              (ground (arith, check_and_store_string-find api (hash_of_c_string key) x members))
      ]
  visit-other key (visit_document doc) y members ms ne e f =
      check_and_recurse-number (hash_of_c_string key) doc y members ms e f

  visits-other :
      (elements : List (List ℕ × Element N D)) (y : N) (members ms : List (ℕ × Member N S))
      → All (λ e. hash_of_c_string e.0 ≢ h) elements
      → visits api elements members ≡ some ms
      → find h members ≡ some (number kind y)
      → find h ms ≡ some (number kind y)
  unfolding visits
  visits-other [] y members ms a e f = ground arith
  visits-other ((key, x) ∷ elements) y members ms a e f =
      elim (Option-cases (visit api key x members)) [
        | inl gone ↦ absurd (ground arith)
        | inr (m', out) ↦
            visits-other elements y m' ms a.1 (ground arith)
              (visit-other key x y members m' a.0 out f)
      ]

  -- A visit with the key of a number leaves a number of the same type there, converted.
  visit-stores :
      (key : List ℕ) (v : Kind) (x y : N) (members ms : List (ℕ × Member N S))
      → hash_of_c_string key ≡ h
      → visit api key (visit_number v x) members ≡ some ms
      → find h members ≡ some (number kind y)
      → find h ms ≡ some (number kind (api.convert v kind x))
  unfolding visit
  visit-stores key v x y members ms same e f =
      let f' : find (hash_of_c_string key) members ≡ some (number kind y) = rw same f in
      ground (
        arith,
        check_and_store-find api v (hash_of_c_string key) x members,
        find-replace (hash_of_c_string key) h (number kind (api.convert v kind x)) (number kind y)
            members f',
        ==_iff (hash_of_c_string key) h,
      )

  visit-keeps :
      (key : List ℕ) (e : Element N D) (y : N) (members ms : List (ℕ × Member N S))
      → visit api key e members ≡ some ms
      → find h members ≡ some (number kind y)
      → (y' : N) × (find h ms ≡ some (number kind y'))
  unfolding visit
  visit-keeps key e y members ms out f = elim (Bool-cases (hash_of_c_string key == h)) [
    | inr miss ↦ (
      y,
      visit-other key e y members ms
          (λ same. absurd (ground (arith, ==_iff (hash_of_c_string key) h))) out f,
    )
    | inl hit ↦
        let same : hash_of_c_string key ≡ h = (==_iff (hash_of_c_string key) h).0 hit in
        let f' : find (hash_of_c_string key) members ≡ some (number kind y) = rw same f in
        elim e
            as (λ e.
              visit api key e members ≡ some ms → (y' : N) × (find h ms ≡ some (number kind y'))) [
                | visit_number v x ↦
                    λ out. (api.convert v kind x, visit-stores key v x y members ms same out f)
                | visit_utf8 x ↦ λ out. absurd (
                    ground
                      (arith, check_and_store_string-find api (hash_of_c_string key) x members))
                | visit_document doc ↦ λ out.
                    (y, check_and_recurse-number (hash_of_c_string key) doc y members ms out f)
              ]
          out
  ]

  -- When a document was visited as a whole, a number member holds the number that came last under
  -- its name, converted to its type: where the later keys have other hashes.
  pub visits-last :
      (before after : List (List ℕ × Element N D)) (key : List ℕ) (v : Kind) (x y : N)
      (members ms : List (ℕ × Member N S))
      → hash_of_c_string key ≡ h
      → All (λ e. hash_of_c_string e.0 ≢ h) after
      → visits api (before ++ (key, visit_number v x) ∷ after) members ≡ some ms
      → find h members ≡ some (number kind y)
      → find h ms ≡ some (number kind (api.convert v kind x))
  unfolding visits
  visits-last [] after key v x y members ms same a e f =
      elim (Option-cases (visit api key (visit_number v x) members)) [
        | inl gone ↦ absurd (ground arith)
        | inr (m', out) ↦
            visits-other after (api.convert v kind x) m' ms a (ground arith)
              (visit-stores key v x y members m' same out f)
      ]
  visits-last ((j, z) ∷ before) after key v x y members ms same a e f =
      elim (Option-cases (visit api j z members)) [
        | inl gone ↦ absurd (ground arith)
        | inr (m', out) ↦
            let (y', f') = visit-keeps j z y members m' out f in
            visits-last before after key v x y' m' ms same a (ground arith) f'
      ]
