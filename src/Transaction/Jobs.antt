-- ===== src/Transaction/Jobs.antt =====
-- The two lambdas that `update` of database/transaction.hpp hands to `database->execute`.
use Prim.Native.String.{String}
use sekkeizu.Base.{ℕ, Bool, true, false, Option, none, some, List, [], ◌∷◌, write, find, replace}
use sekkeizu.Database.Defs.{Database, get_collection}
use sekkeizu.Transaction.Types.{
  OpType, insert, delete_one, delete_many, update_one, update_many, upsert_one, upsert_many, Info,
  Transaction, Job,
}

-- The calls on a bulk operation, and the call of a stored callable. `update` stands for
-- `mongoc_bulk_operation_update` with `upsert` set, `delete` for `mongoc_bulk_operation_delete`.
pub data Command (B C : Type 0) : Type 0 where
  insert_document : B → Command B C
  update_one_with_opts : B → B → Command B C
  update_many_with_opts : B → B → Command B C
  upsert : B → B → Command B C
  delete : B → Command B C
  call : C → Command B C

-- What a job sends: the name of the collection, and the commands in order.
pub record Sent (B C : Type 0) : Type 0 where
  pub collection : String
  pub commands : List (Command B C)

infixl 5 ◌>>=◌
abbrev pub ◌>>=◌ {ℓ κ} : {A : Type ℓ} {B : Type κ} → Option A → (A → Option B) → Option B
some a >>= f = f a
none >>= f = none

module _ {B C : Type 0} where
  -- The `switch` on `t->type`, over the two documents.
  unfoldable pub command_of : OpType → Option B → Option B → Option (Command B C)
  command_of insert op_1 op_2 = do operation ← op_1; some (insert_document operation)
  command_of update_one op_1 op_2 = do
    selector ← op_1
    document ← op_2
    some (update_one_with_opts selector document)
  command_of update_many op_1 op_2 = do
    selector ← op_1
    document ← op_2
    some (update_many_with_opts selector document)
  command_of upsert_one op_1 op_2 = do
    selector ← op_1
    document ← op_2
    some (upsert selector document)
  command_of upsert_many op_1 op_2 = do
    selector ← op_1
    document ← op_2
    some (upsert selector document)
  command_of delete_one op_1 op_2 = do selector ← op_1; some (delete selector)
  command_of delete_many op_1 op_2 = do selector ← op_1; some (delete selector)

  -- One round of the bulk loop: the command, and both documents destroyed. `none` is the use of a
  -- document that is not live, or of an entry that is not there.
  unfoldable pub queue_bulk :
      (ℕ → Option (Info B C)) → ℕ → Option (Command B C × (ℕ → Option (Info B C)))
  queue_bulk transactions id = do
    t ← transactions id
    command ← command_of t.type t.operation_op_1 t.operation_op_2
    first ← t.operation_op_1
    second ← t.operation_op_2
    some
        (command, write transactions id (record t { operation_op_1 = none; operation_op_2 = none }))

  unfoldable pub queue_all :
      List ℕ → (ℕ → Option (Info B C)) → Option (List (Command B C) × (ℕ → Option (Info B C)))
  queue_all [] transactions = some ([], transactions)
  queue_all (id ∷ ids) transactions = do
    (command, destroyed) ← queue_bulk transactions id
    (commands, rest) ← queue_all ids destroyed
    some (command ∷ commands, rest)

  abbrev pub flag_done : Info B C → Info B C
  flag_done t = record t { done = true; pending = false }

  -- The loop that flags the transactions of the bulk.
  unfoldable pub finish_all : List ℕ → (ℕ → Option (Info B C)) → Option (ℕ → Option (Info B C))
  finish_all [] transactions = some transactions
  finish_all (id ∷ ids) transactions = do
    t ← transactions id
    finish_all ids (write transactions id (flag_done t))

  -- The loop over callables: each is called on the collection and flagged before the next.
  unfoldable pub call_all :
      List ℕ → (ℕ → Option (Info B C)) → Option (List (Command B C) × (ℕ → Option (Info B C)))
  call_all [] transactions = some ([], transactions)
  call_all (id ∷ ids) transactions = do
    t ← transactions id
    callable ← t.callable
    (commands, rest) ← call_all ids (write transactions id (flag_done t))
    some (call callable ∷ commands, rest)

  -- The body of a job on the entries of its collection. The bulk is sent as a whole, and whatever
  -- the server answers the transactions are flagged.
  unfoldable pub run_on :
      Bool
      → List ℕ
      → (ℕ → Option (Info B C))
      → Option (List (Command B C) × (ℕ → Option (Info B C)))
  run_on true ids transactions = do
    (commands, destroyed) ← queue_all ids transactions
    flagged ← finish_all ids destroyed
    some (commands, flagged)
  run_on false ids transactions = call_all ids transactions

  -- A job, run as one step against the object that it points into.
  unfoldable pub run_job {ℓ} :
      {J : Type ℓ} → Database J → Job → Transaction B C → Option (Sent B C × Transaction B C)
  run_job database job self = do
    name ← get_collection database job.collection
    info ← find job.collection self.collections
    (commands, transactions) ← run_on job.bulk job.ids info.transactions
    some (
      record { collection = name; commands = commands },
      record self {
        collections =
            replace job.collection (record info { transactions = transactions }) self.collections;
      },
    )
