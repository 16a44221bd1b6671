-- ===== src/Transaction/Push.antt =====
-- The four pushes of database/transaction.hpp: each takes the next slot of a collection and fills
-- its entry. A push that faults ends the program, so it has no next state.
use sekkeizu.Base.{ℕ, false, Option, none, some, write, find, replace, inc64, inc8}
use sekkeizu.Transaction.Types.{
  BsonApi, OpType, Info, new_info, Collection, Transaction, null_collection, Result, ok, ◌>>=◌,
  ◌>>◌, bson_assert, or_fault,
}

module _ {B C : Type 0} where
  -- `&info->transactions[id]`, which creates the entry of a new key.
  abbrev pub entry : (ℕ → Option (Info B C)) → ℕ → Info B C
  entry transactions id = elim (transactions id) [ none ↦ new_info | some t ↦ t ]

  -- `info->current_id++`, and the write through the entry of the old value.
  abbrev pub fill_slot : Collection B C → (Info B C → Info B C) → Collection B C
  fill_slot info fill = record info {
    current_id = inc64 info.current_id;
    transactions =
        write info.transactions info.current_id (fill (entry info.transactions info.current_id));
  }

  -- `_collections[collection]`, then the push into that slot; the result is the slot.
  abbrev pub push_slot : Transaction B C → ℕ → (Info B C → Info B C) → Result (Transaction B C × ℕ)
  push_slot self collection fill = do
    info ← or_fault (find collection self.collections) null_collection
    ok (
      record self { collections = replace collection (fill_slot info fill) self.collections },
      info.current_id,
    )

  abbrev pub fill_operation : OpType → B → B → Info B C → Info B C
  fill_operation type operation_1 operation_2 transaction = record transaction {
    dependency = none;
    type = type;
    operation_op_1 = some operation_1;
    operation_op_2 = some operation_2;
    callable = none;
    done = false;
    pending = false;
  }

  abbrev pub fill_callable : B → C → Info B C → Info B C
  fill_callable initializer callable transaction = record transaction {
    dependency = none;
    operation_op_1 = some initializer;
    operation_op_2 = some initializer;
    callable = some callable;
    done = false;
    pending = false;
  }

  abbrev pub fill_dependency : ℕ → ℕ → Info B C → Info B C
  fill_dependency owner id transaction = record transaction {
    dependency = some (record { owner = owner; id = id });
    callable = none;
    done = false;
    pending = false;
  }

  module _ (api : BsonApi B) where
    -- `push_operation` with one document.
    unfoldable pub push_operation : Transaction B C → ℕ → OpType → B → Result (Transaction B C × ℕ)
    push_operation self collection type operation = do
      pushed ← push_slot self collection (fill_operation type operation api.initializer)
      bson_assert (api.validate operation)
      ok pushed

    -- `push_operation` with two documents.
    unfoldable pub push_operation_2 :
        Transaction B C → ℕ → OpType → B → B → Result (Transaction B C × ℕ)
    push_operation_2 self collection type operation_1 operation_2 = do
      pushed ← push_slot self collection (fill_operation type operation_1 operation_2)
      bson_assert (api.validate operation_1)
      bson_assert (api.validate operation_2)
      ok pushed

    unfoldable pub push_callable : Transaction B C → ℕ → C → Result (Transaction B C × ℕ)
    push_callable self collection callable = do
      (pushed, slot) ← push_slot self collection (fill_callable api.initializer callable)
      ok (record pushed { pending_callables = inc8 pushed.pending_callables }, slot)

  -- `push_dependency`; the slot is not returned.
  unfoldable pub push_dependency : Transaction B C → ℕ → ℕ → ℕ → Result (Transaction B C)
  push_dependency self collection owner id = do
    (pushed, slot) ← push_slot self collection (fill_dependency owner id)
    ok pushed
