-- ===== src/Transaction/Order.antt =====
-- In which order the pushes of database/transaction.hpp reach the database.
use sekkeizu.Base.{ℕ, ◌-◌, ◌≤◌, ◌<◌, ◌≡◌, false, sym, ap, ◌∙◌, some, ◌++◌, arith, find, Each-find}
use sekkeizu.Transaction.Types.{BsonApi, Info, Collection}
use sekkeizu.Transaction.Window.{operations, operations-extend, waiting-some}
use sekkeizu.Transaction.Moved.{ids_for}
use sekkeizu.Transaction.System.{System, Reach}
use sekkeizu.Transaction.Initial.{Reach-Inv}

module _ {B C : Type 0} where
  -- In every reachable state the operations of a collection that were handed to the database, in
  -- the order of the jobs, followed by those that wait, are exactly the operations that were pushed
  -- to the collection, in the order of their ids: none is lost, repeated or overtaken.
  pub issued_in_order :
      {api : BsonApi B} {s : System B C} (r : Reach api s) (k : ℕ) (info : Collection B C)
      → find k s.self.collections ≡ some info
      → ids_for k s.issued
          ++ operations info.transactions info.first_id (info.current_id - info.first_id)
        ≡ operations info.transactions 0 info.current_id
  issued_in_order {s} r k info known =
      let v = Each-find _ k info s.self.collections known (Reach-Inv r).each in
      ap (λ xs. xs ++ operations info.transactions info.first_id (info.current_id - info.first_id))
        v.served
      ∙ sym (operations-extend info.transactions info.first_id (info.current_id - info.first_id))
      ∙ ap (operations info.transactions 0) (omega (arith, v.opened.ordered))

  -- In every reachable state no entry at or behind `first_id` was handed to the database or is
  -- done. So the two tests of `get_pending_operations` for such entries never succeed.
  pub waiting_untouched :
      {api : BsonApi B} {s : System B C} (r : Reach api s) (k : ℕ) (info : Collection B C)
      → find k s.self.collections ≡ some info
      → (j : ℕ) → info.first_id ≤ j
      → j < info.current_id
      → (t : Info B C) × (info.transactions j ≡ some t) × (t.pending ≡ false) × (t.done ≡ false)
  waiting_untouched {s} r k info known j lo hi =
      waiting-some (info.transactions j)
        ((Each-find _ k info s.self.collections known (Reach-Inv r).each).opened.waits j lo hi)
