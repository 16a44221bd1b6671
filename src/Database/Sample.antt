-- ===== src/Database/Sample.antt =====
-- The libraries of database/database.hpp on concrete data: lists of documents and a counter of clients.
use sekkeizu.Base.{
  ℕ, zero, suc, ◌+◌, ◌%◌, ◌^◌, ◌≡◌, ◌≢◌, refl, Option, none, some, List, ◌∷◌, arith, find, ltb,
  if◌then◌else◌, ◌==◌, ==_iff, ==_self,
}
use sekkeizu.Database.Ids.{CipherApi}
use sekkeizu.Database.Creation.{CollectionApi}
use sekkeizu.Database.Jobs.{ServerApi, ClientPoolApi, BsonApi}

abbrev pub cipher : CipherApi ℕ
cipher = record { process_data = λ key x. ((x + key) % 2 ^ 64, key) }

abbrev pub insert_new : ℕ → ℕ → List (ℕ × ℕ) → Option (List (ℕ × ℕ))
insert_new id document k = elim (find id k) [ none ↦ some ((id, document) ∷ k) | some _ ↦ none ]

pub insert_new-none :
    (id document : ℕ) (k k' : List (ℕ × ℕ)) → insert_new id document k ≡ some k' → find id k ≡ none
insert_new-none id document k k' h = ground arith

pub insert_new-find :
    (id document : ℕ) (k k' : List (ℕ × ℕ))
    → insert_new id document k ≡ some k'
    → find id k' ≡ some document
insert_new-find id document k k' h = ground (arith, ==_self id)

pub insert_new-kept :
    (id document : ℕ) (k k' : List (ℕ × ℕ)) (id' old : ℕ)
    → insert_new id document k ≡ some k'
    → find id' k ≡ some old
    → find id' k' ≡ some old
insert_new-kept id document k k' id' old h there = ground (arith, ==_iff id id')

abbrev pub users : CollectionApi ℕ (List (ℕ × ℕ))
users = record {
  insert_one = insert_new;
  has_id = find;
  insert_one-new = insert_new-none;
  insert_one-there = insert_new-find;
}

-- One list for all collections.
abbrev pub server : ServerApi (List (ℕ × ℕ)) ℕ
server = record {
  insert_one = λ _ _. insert_new;
  has_id = λ _ _. find;
  insert_one-new = λ _ _. insert_new-none;
  insert_one-there = λ _ _. insert_new-find;
  insert_one-kept =
      λ _ _ id document k k' _ _ id' old h there. insert_new-kept id document k k' id' old h there;
}

abbrev pub pop : ℕ → Option (ℕ × ℕ)
pop zero = none
pop (suc n) = some (n, n)

pub pop_lem : (p q client : ℕ) → pop p ≡ some (client, q) → p ≡ q + 1
pop_lem zero q client h = absurd (cc)
pop_lem (suc n) q client h = ground arith

abbrev pub client_pool : ClientPoolApi ℕ
client_pool = record {
  pop = pop;
  push = λ _ p. p + 1;
  available = λ p. p;
  pop-available = pop_lem;
  push-available = λ p client. refl;
}

pub record Documents : Type 0 where
  pub next : ℕ
  pub bodies : ℕ → Option ℕ

abbrev pub read : ℕ → Documents → Option ℕ
read ptr m = if ltb ptr m.next then m.bodies ptr else none

abbrev pub copy : ℕ → Documents → ℕ × Documents
copy ptr m = (
  m.next,
  record { next = m.next + 1; bodies = λ x. if x == m.next then read ptr m else m.bodies x },
)

abbrev pub destroy : ℕ → Documents → Documents
destroy ptr m = record m { bodies = λ x. if x == ptr then none else m.bodies x }

pub copy-kept_lem :
    (ptr other : ℕ) (m : Documents) → other ≢ m.next → read other (copy ptr m).1 ≡ read other m
copy-kept_lem ptr other m ne = ground (arith, ==_iff other m.next)

pub destroy-kept_lem :
    (ptr other : ℕ) (m : Documents) → other ≢ ptr → read other (destroy ptr m) ≡ read other m
destroy-kept_lem ptr other m ne = ground (arith, ==_iff other ptr)

pub copy-new_lem : (ptr : ℕ) (m : Documents) → read m.next m ≡ none
copy-new_lem ptr m = ground arith

pub copy-same_lem : (ptr : ℕ) (m : Documents) → read m.next (copy ptr m).1 ≡ read ptr m
copy-same_lem ptr m = ground (arith, ==_self m.next)

pub destroy-gone_lem : (ptr : ℕ) (m : Documents) → read ptr (destroy ptr m) ≡ none
destroy-gone_lem ptr m = ground (arith, ==_self ptr)

abbrev pub bson : BsonApi Documents ℕ
bson = record {
  read = read;
  copy = copy;
  destroy = destroy;
  copy-new = copy-new_lem;
  copy-same = copy-same_lem;
  copy-kept = copy-kept_lem;
  destroy-gone = destroy-gone_lem;
  destroy-kept = destroy-kept_lem;
}
