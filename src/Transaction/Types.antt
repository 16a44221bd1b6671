-- ===== src/Transaction/Types.antt =====
-- The data of database/transaction.hpp: operations and their bookkeeping, and the jobs that go to
-- the database pool. `B` stands for `bson_t` and `C` for the type of stored callables.
use sekkeizu.Base.{ℕ, Bool, true, false, Option, none, some, List}

-- What the code uses of the BSON library: the empty document, and the check of a document.
pub record BsonApi (B : Type 0) : Type 0 where
  pub initializer : B
  pub validate : B → Bool

pub data OpType : Type 0 where
  insert delete_one delete_many update_one update_many upsert_one upsert_many : OpType

pub record Dependency : Type 0 where
  pub owner : ℕ
  pub id : ℕ

-- `transaction_info`. A document is `none` while no live document is stored there: before the
-- field is set, and after `bson_destroy`.
pub record Info (B C : Type 0) : Type 0 where
  pub dependency : Option Dependency
  pub type : OpType
  pub operation_op_1 : Option B
  pub operation_op_2 : Option B
  pub callable : Option C
  pub pending : Bool
  pub done : Bool

-- The value that `transactions[id]` creates at a new key: value initialisation is all zero.
abbrev pub new_info : {B C : Type 0} → Info B C
new_info = record {
  dependency = none;
  type = OpType.insert;
  operation_op_1 = none;
  operation_op_2 = none;
  callable = none;
  pending = false;
  done = false;
}

-- `collection_info`.
pub record Collection (B C : Type 0) : Type 0 where
  pub first_id : ℕ
  pub current_id : ℕ
  pub transactions : ℕ → Option (Info B C)

-- `collection_info::collection_info`.
abbrev pub new_collection : {B C : Type 0} → Collection B C
new_collection = record { first_id = 0; current_id = 0; transactions = λ _. none }

-- The fields of `transaction`; `_collections` in the order in which the map is walked.
pub record Transaction (B C : Type 0) : Type 0 where
  pub collections : List (ℕ × Collection B C)
  pub execute_every : ℕ
  pub since_last_execution : ℕ
  pub pending_callables : ℕ
  pub flagged : Bool
  pub scheduled : Bool

-- A lambda that `update` hands to `database->execute`: its captured collection and transactions,
-- and which of the two lambdas it is.
pub record Job : Type 0 where
  pub collection : ℕ
  pub ids : List ℕ
  pub bulk : Bool

-- What a push does that can go wrong: a null `collection_info*`, or a failed BSON_ASSERT.
pub data Fault : Type 0 where
  null_collection invalid_document : Fault

pub data Result {ℓ} (A : Type ℓ) : Type ℓ where
  ok : A → Result A
  fault : Fault → Result A

infixl 5 ◌>>=◌ ◌>>◌
abbrev pub ◌>>=◌ {ℓ κ} : {A : Type ℓ} {B : Type κ} → Result A → (A → Result B) → Result B
ok a >>= f = f a
fault e >>= f = fault e

abbrev pub ◌>>◌ {ℓ} : {B : Type ℓ} → Result (Unit {0}) → Result B → Result B
m >> k = m >>= λ _. k

-- BSON_ASSERT.
abbrev pub bson_assert : Bool → Result (Unit {0})
bson_assert true = ok tt
bson_assert false = fault Fault.invalid_document

abbrev pub or_fault {ℓ} : {A : Type ℓ} → Option A → Fault → Result A
or_fault none e = fault e
or_fault (some a) e = ok a
