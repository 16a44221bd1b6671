-- ===== src/Transaction/Pending.antt =====
-- `get_transaction` and `get_pending_operations` of database/transaction.hpp.
use sekkeizu.Base.{
  ℕ, zero, suc, Bool, true, false, Option, none, some, List, [], ◌∷◌, ◌++◌, write, find, ◌==◌,
  if◌then◌else◌, inc64, dec8, distance64,
}
use sekkeizu.Transaction.Types.{Dependency, Info, Collection, Transaction}
use sekkeizu.Transaction.Push.{entry}

module _ {B C : Type 0} where
  unfoldable pub get_transaction : Transaction B C → ℕ → ℕ → Option (Info B C)
  get_transaction self collection id = elim (find collection self.collections) [
    | none ↦ none
    | some info ↦ info.transactions id
  ]

  -- The test of a dependency: it stands in the way only while its owner is known, has the entry,
  -- and the entry is not done. The getter is the caller's `id_to_transaction_getter`.
  unfoldable pub is_met : (ℕ → Option (Transaction B C)) → ℕ → Dependency → Bool
  is_met getter collection dependency = elim (getter dependency.owner) [
    | none ↦ true
    | some other ↦ elim (get_transaction other collection dependency.id) [
      | none ↦ true
      | some info ↦ info.done
    ]
  ]

-- The variables of the loop.
pub record Scan (B C : Type 0) : Type 0 where
  pub id : ℕ
  pub transactions : ℕ → Option (Info B C)
  pub pending_callables : ℕ
  pub has_non_callable : Bool
  pub has_callable : Bool
  pub batch : List ℕ

pub data Visit : Type 0 where
  stop_here : Visit  -- `break`
  pass_by : Visit  -- `continue`
  take_callable : Visit
  take_operation : Visit

module _ {B C : Type 0} where
  -- The tests of one round, in the order of the body.
  unfoldable pub visit : (Dependency → Bool) → Bool → Bool → Info B C → Visit
  visit met has_non_callable has_callable t =
      if t.pending
      then stop_here
      else (if t.done then pass_by else elim t.dependency [
        | some dependency ↦ if met dependency then pass_by else stop_here
        | none ↦ elim t.callable [
          | some _ ↦ if has_non_callable then stop_here else take_callable
          | none ↦ if has_callable then stop_here else take_operation
        ]
      ])

  abbrev pub mark_pending : Info B C → Info B C
  mark_pending t = record t { pending = true }

  -- What one round writes; `transactions[id]` has created a missing entry before the tests.
  unfoldable pub act : Visit → Scan B C → Scan B C
  act stop_here s = record s {
    transactions = write s.transactions s.id (entry s.transactions s.id);
  }
  act pass_by s = record s {
    transactions = write s.transactions s.id (entry s.transactions s.id);
    id = inc64 s.id;
  }
  act take_callable s = record s {
    transactions = write s.transactions s.id (mark_pending (entry s.transactions s.id));
    id = inc64 s.id;
    has_callable = true;
    pending_callables = dec8 s.pending_callables;
    batch = s.batch ++ s.id ∷ [];
  }
  act take_operation s = record s {
    transactions = write s.transactions s.id (mark_pending (entry s.transactions s.id));
    id = inc64 s.id;
    has_non_callable = true;
    batch = s.batch ++ s.id ∷ [];
  }

  -- `for (; id != info->current_id; ++id)`, with fuel.
  unfoldable pub scan : (Dependency → Bool) → ℕ → ℕ → Scan B C → Scan B C
  scan met current zero s = s
  scan met current (suc fuel) s =
      let v = visit met s.has_non_callable s.has_callable (entry s.transactions s.id) in
      let next = scan met current fuel (act v s) in
      let round : Scan B C = elim v [ stop_here ↦ act stop_here s | _ ↦ next ] in
      if s.id == current then s else round

  abbrev pub scan_start : ℕ → Collection B C → Scan B C
  scan_start pending_callables info = record {
    id = info.first_id;
    transactions = info.transactions;
    pending_callables = pending_callables;
    has_non_callable = false;
    has_callable = false;
    batch = [];
  }

-- What `get_pending_operations` leaves: the collection, the counter of callables, the vector of
-- transactions (by id) and the flag.
pub record Pending (B C : Type 0) : Type 0 where
  pub info : Collection B C
  pub pending_callables : ℕ
  pub transactions : List ℕ
  pub has_non_callable : Bool

module _ {B C : Type 0} where
  -- `_collections[collection]` is the entry `info` that the caller walks: the keys are distinct.
  -- The fuel is the number of rounds after which `id` has reached `current_id`.
  unfoldable pub get_pending_operations :
      (ℕ → Option (Transaction B C)) → ℕ → ℕ → Collection B C → Pending B C
  get_pending_operations getter pending_callables collection info =
      let s =
        scan (is_met getter collection) info.current_id (distance64 info.first_id info.current_id)
          (scan_start pending_callables info) in
      record {
        info = record info { first_id = s.id; transactions = s.transactions };
        pending_callables = s.pending_callables;
        transactions = s.batch;
        has_non_callable = s.has_non_callable;
      }
