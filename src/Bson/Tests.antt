-- ===== src/Bson/Tests.antt =====
-- database/bson_reflection_struct.hpp on a struct with an int32 "a", a string "b" and a nested struct.
use sekkeizu.Base.{ℕ, ◌≡◌, ◌<◌, ◌^◌, refl, true, none, some, List, [], ◌∷◌, arith, find}
use sekkeizu.Bson.Hash.{hash_from, hash_of_c_string, hash_of_c_string-ends}
use sekkeizu.Bson.Visit.{
  double, int32, Member, number, text, nested, visit_number, visit_document, VisitApi,
  check_and_store, check_and_store_string, check_and_recurse, visit, visits,
}
use sekkeizu.Bson.Members.{check_and_store-find, check_and_recurse-first}
use sekkeizu.Bson.Visits.{visits-last}
use sekkeizu.Bson.Fields.{fields, fields_impl}

program : Unit {0}
unfolding hash_from hash_of_c_string check_and_store check_and_store_string check_and_recurse visit
    visits fields fields_impl
program = tt

-- The published FNV-1a hash of "a".
test_hash : hash_of_c_string (97 ∷ []) ≡ 3826002220
unfolding program
test_hash = refl

hash_of_c_string-ends_example :
    (hash_of_c_string (97 ∷ 0 ∷ 98 ∷ []) ≡ hash_of_c_string (97 ∷ []))
    × (hash_of_c_string (97 ∷ []) < 2 ^ 32)
hash_of_c_string-ends_example = hash_of_c_string-ends (97 ∷ []) (98 ∷ []) (ground arith, tt)

-- A nested struct counts the documents that it was given.
abbrev api : VisitApi ℕ (List ℕ) ℕ
api = record {
  convert = λ from to x. x;
  bson_iter_init = λ doc. true;
  visit_all = λ doc seen. doc ∷ seen;
}

abbrev hash_a : ℕ
hash_a = 3826002220

abbrev members : List (ℕ × Member ℕ (List ℕ))
members = (hash_a, number int32 0) ∷ (2, text []) ∷ (3, nested []) ∷ []

check_and_store-find_example : check_and_store api double 2 5 members ≡ none
unfolding program
check_and_store-find_example = check_and_store-find api double 2 5 members

-- The key 99 is of no member, and still the nested struct takes the document.
check_and_recurse-first_example :
    check_and_recurse api 99 55 members
    ≡ some ((hash_a, number int32 0) ∷ (2, text []) ∷ (3, nested (55 ∷ [])) ∷ [])
check_and_recurse-first_example =
    check_and_recurse-first api 99 3 55 [] ((hash_a, number int32 0) ∷ (2, text []) ∷ []) [] refl
      (ground arith, (ground arith, tt))

abbrev stored : List (ℕ × Member ℕ (List ℕ))
stored = (hash_a, number int32 9) ∷ (2, text []) ∷ (3, nested (55 ∷ [])) ∷ []

visits-last_example : find hash_a stored ≡ some (number int32 9)
unfolding program
visits-last_example =
    visits-last api hash_a int32 ((97 ∷ [], visit_number double 4) ∷ [])
      ((98 ∷ [], visit_document 55) ∷ []) (97 ∷ []) double 9 0 members stored refl
      (ground arith, tt) refl refl

abbrev names : List (List ℕ)
names = (97 ∷ []) ∷ (98 ∷ []) ∷ []
