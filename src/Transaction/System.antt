-- ===== src/Transaction/System.antt =====
-- One object of database/transaction.hpp with its database, and the steps that they take: pushes,
-- updates and jobs, in any order. A step is one call, or one job of the pool from start to end.
use sekkeizu.Base.{ℕ, ◌+◌, ◌^◌, ◌<◌, ◌≡◌, Bool, true, Option, some, List, [], ◌∷◌, ◌++◌, find}
use sekkeizu.Database.Defs.{Database}
use sekkeizu.Transaction.Types.{BsonApi, OpType, Collection, Transaction, Job, ok}
use sekkeizu.Transaction.Push.{push_operation, push_operation_2, push_callable, push_dependency}
use sekkeizu.Transaction.Update.{init, update, flag_deletion, unflag_deletion}
use sekkeizu.Transaction.Jobs.{Sent, run_job}

-- `database.fiber_pool` holds the jobs that are still to run; `issued` all that were handed over.
pub record System (B C : Type 0) : Type 0 where
  pub self : Transaction B C
  pub database : Database Job
  pub issued : List Job

module _ {B C : Type 0} where
  -- One more push does not wrap the ids of the collection.
  abbrev pub HasRoom : Transaction B C → ℕ → Type 0
  HasRoom t k =
      (info : Collection B C) → find k t.collections ≡ some info → info.current_id + 1 < 2 ^ 64

module _ {B C : Type 0} (api : BsonApi B) where
  pub data Step (s u : System B C) : Type 0 where
    pushes_operation :
        (k : ℕ) (type : OpType) (op : B) (t : Transaction B C) (slot : ℕ)
        → HasRoom s.self k
        → push_operation api s.self k type op ≡ ok (t, slot)
        → u ≡ record s { self = t }
        → Step s u
    pushes_operation_2 :
        (k : ℕ) (type : OpType) (op_1 op_2 : B) (t : Transaction B C) (slot : ℕ)
        → HasRoom s.self k
        → push_operation_2 api s.self k type op_1 op_2 ≡ ok (t, slot)
        → u ≡ record s { self = t }
        → Step s u
    pushes_callable :
        (k : ℕ) (callable : C) (t : Transaction B C) (slot : ℕ)
        → HasRoom s.self k
        → push_callable api s.self k callable ≡ ok (t, slot)
        → u ≡ record s { self = t }
        → Step s u
    pushes_dependency :
        (k owner id : ℕ) (t : Transaction B C)
        → HasRoom s.self k
        → push_dependency s.self k owner id ≡ ok t
        → u ≡ record s { self = t }
        → Step s u
    updates :
        (diff : ℕ) (getter : ℕ → Option (Transaction B C)) (alive : Bool) (t : Transaction B C)
        (database : Database Job) (jobs : List Job)
        → update diff s.database getter s.self ≡ (alive, t, database)
        → database.fiber_pool ≡ s.database.fiber_pool ++ jobs
        → u ≡ record { self = t; database = database; issued = s.issued ++ jobs }
        → Step s u
    runs :
        (before after : List Job) (job : Job) (sent : Sent B C) (t : Transaction B C)
        → s.database.fiber_pool ≡ before ++ job ∷ after
        → run_job s.database job s.self ≡ some (sent, t)
        → u ≡ record s { self = t; database = record (s.database) { fiber_pool = before ++ after } }
        → Step s u
    flags : u ≡ record s { self = flag_deletion s.self } → Step s u
    unflags : u ≡ record s { self = unflag_deletion s.self } → Step s u

  -- A new object after `init`, with a database that is connected and has no job yet.
  pub data Reach : System B C → Type 0 where
    start :
        (database : Database Job) (execute_every : ℕ) (t : Transaction B C)
        → database.is_connected ≡ true
        → database.fiber_pool ≡ []
        → t.collections ≡ []
        → Reach (record { self = init database execute_every t; database = database; issued = [] })
    next : {s u : System B C} → Reach s → Step s u → Reach u
