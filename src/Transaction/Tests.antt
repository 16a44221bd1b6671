-- ===== src/Transaction/Tests.antt =====
-- database/transaction.hpp on concrete inputs: documents and callables are numbers.
use sekkeizu.Base.{
  ℕ, ◌≡◌, refl, Bool, true, false, Option, none, some, [], ◌∷◌, ltb, ◌++◌, ◌-◌, ◌%◌, ◌↔◌, ◌⊎◌, Each,
  find, arith, ℕ_discrete,
}
use sekkeizu.Database.Defs.{Database, add_collection, get_all_collections, get_collection, execute}
use sekkeizu.Transaction.Types.{
  BsonApi, OpType, Info, Collection, new_collection, Transaction, Job, Result, ok, fault,
}
use sekkeizu.Transaction.Push.{push_operation, push_operation_2, push_callable, push_dependency}
use sekkeizu.Transaction.Pending.{get_transaction, is_met, visit, act, scan, get_pending_operations}
use sekkeizu.Transaction.Update.{
  init, emplace_all, clear_all, is_finished, can_delete, send_pending, update_operations, update,
  flag_deletion,
}
use sekkeizu.Transaction.Jobs.{
  command_of, queue_bulk, queue_all, finish_all, call_all, run_on, run_job, Sent,
}
use sekkeizu.Transaction.System.{
  System, pushes_operation, pushes_callable, pushes_dependency, updates, flags, Reach, start, next,
}
use sekkeizu.Transaction.Window.{operations}
use sekkeizu.Transaction.Moved.{ids_for}
use sekkeizu.Transaction.Batch.{
  IsOpen, Takes, Stops, get_pending_operations-Takes, get_pending_operations-Stops,
}
use sekkeizu.Base.{◌+◌, ◌≤◌, count}
use sekkeizu.Transaction.Executed.{jobs_run}
use sekkeizu.Transaction.Handover.{Starts, update-Starts}
use sekkeizu.Transaction.Order.{issued_in_order, waiting_untouched}
use sekkeizu.Transaction.Waits.{waiting_all}
use sekkeizu.Transaction.Counter.{pending_callables-waiting_all}
use sekkeizu.Transaction.Deletion.{IsFinished, update-deletes, dependency_last-kept}

program : Unit {0}
unfolding push_operation push_operation_2 push_callable push_dependency get_transaction is_met visit
    act scan get_pending_operations init emplace_all clear_all is_finished can_delete send_pending
    update_operations update flag_deletion command_of queue_bulk queue_all finish_all call_all
    run_on run_job add_collection get_all_collections get_collection execute
program = tt

abbrev api : BsonApi ℕ
api = record { initializer = 0; validate = λ b. ltb b 1000 }

abbrev database : Database Job
database = record {
  fiber_pool = [];
  is_connected = true;
  collections_map = (1, "users") ∷ (2, "items") ∷ [];
  pool = true;
  database = "game";
}

abbrev blank : Transaction ℕ ℕ
blank = record {
  collections = [];
  execute_every = 0;
  since_last_execution = 0;
  pending_callables = 0;
  flagged = false;
  scheduled = false;
}

abbrev nobody : ℕ → Option (Transaction ℕ ℕ)
nobody _ = none

abbrev of_push : Result (Transaction ℕ ℕ × ℕ) → Transaction ℕ ℕ
of_push (ok (t, _)) = t
of_push (fault _) = blank

abbrev some_or : Collection ℕ ℕ → Option (Collection ℕ ℕ) → Collection ℕ ℕ
some_or info none = info
some_or _ (some info) = info

abbrev s_0 : System ℕ ℕ
s_0 = record { self = init database 100 blank; database = database; issued = [] }

abbrev s_1 : System ℕ ℕ
s_1 = record s_0 { self = of_push (push_operation api s_0.self 1 OpType.insert 10) }

abbrev s_2 : System ℕ ℕ
s_2 = record s_1 { self = of_push (push_callable api s_1.self 1 77) }

trace_2 : Reach api s_2
unfolding program
trace_2 =
    next
      (next (start database 100 blank refl refl refl)
        (pushes_operation 1 OpType.insert 10 s_1.self 0 (λ i e. ground arith) refl refl))
      (pushes_callable 1 77 s_2.self 1 (λ i e. ground arith) refl refl)

abbrev users_2 : Collection ℕ ℕ
users_2 = some_or new_collection (find 1 s_2.self.collections)

abbrev items_2 : Collection ℕ ℕ
items_2 = some_or new_collection (find 2 s_2.self.collections)

update-Starts_example :
    let out = update 200 s_2.database nobody s_2.self in
    (out.0 ≡ true) × Starts 1 0 s_2.database out.2
unfolding program
update-Starts_example =
    update-Starts trace_2 200 nobody ((2, items_2) ∷ []) [] 1 users_2 refl refl refl (refl, tt)
      (omega arith) refl

abbrev out_3 : Bool × Transaction ℕ ℕ × Database Job
out_3 = update 5 s_2.database nobody s_2.self

abbrev job_3 : Job
job_3 = record { collection = 1; ids = 0 ∷ []; bulk = true }

abbrev s_3 : System ℕ ℕ
s_3 = record { self = out_3.1; database = out_3.2; issued = job_3 ∷ [] }

-- The document goes out; the callable behind it waits for the next update.
trace_3 : Reach api s_3
unfolding program
trace_3 = next trace_2 (updates 5 nobody true out_3.1 out_3.2 (job_3 ∷ []) refl refl refl)

jobs_run_example :
    (sent : Sent ℕ ℕ) × (t : Transaction ℕ ℕ) × (run_job s_3.database job_3 s_3.self
      ≡ some (sent, t))
    × (get_collection s_3.database 1 ≡ some sent.collection)
    × ((j : ℕ) → count j (0 ∷ []) + count j (ids_for 1 []) ≤ 1)
unfolding program
jobs_run_example = jobs_run trace_3 [] [] job_3 refl

abbrev of_push_dependency : Result (Transaction ℕ ℕ) → Transaction ℕ ℕ
of_push_dependency (ok t) = t
of_push_dependency (fault _) = blank

abbrev s_4 : System ℕ ℕ
s_4 = record s_3 { self = of_push_dependency (push_dependency s_3.self 2 9 4) }

abbrev s_5 : System ℕ ℕ
s_5 = record s_4 { self = flag_deletion s_4.self }

trace_5 : Reach api s_5
unfolding program
trace_5 =
    next (next trace_3 (pushes_dependency 2 9 4 s_4.self (λ i e. ground arith) refl refl))
      (flags refl)

abbrev users_3 : Collection ℕ ℕ
users_3 = some_or new_collection (find 1 s_3.self.collections)

abbrev items_5 : Collection ℕ ℕ
items_5 = some_or new_collection (find 2 s_5.self.collections)

issued_in_order_example :
    ids_for 1 s_3.issued
      ++ operations users_3.transactions users_3.first_id (users_3.current_id - users_3.first_id)
    ≡ 0 ∷ 1 ∷ []
unfolding program operations
issued_in_order_example = issued_in_order trace_3 1 users_3 refl

users_2-IsOpen : IsOpen users_2
unfolding program
users_2-IsOpen = record {
  ordered = omega arith;
  small = omega arith;
  waits = λ j a b. elim (ℕ_discrete j 0) [
    | yes e ↦ rw e (refl, refl)
    | no e ↦ let e' : j ≡ 1 = omega arith in rw e' (refl, refl)
  ];
}

get_pending_operations-Takes_example : (n : ℕ) × Takes nobody 1 1 users_2 n
get_pending_operations-Takes_example =
    get_pending_operations-Takes nobody 1 1 users_2 users_2-IsOpen

get_pending_operations-Stops_example : Stops nobody 1 1 users_2
get_pending_operations-Stops_example =
    get_pending_operations-Stops nobody 1 1 users_2 users_2-IsOpen

waiting_untouched_example :
    (t : Info ℕ ℕ) × (users_3.transactions 1 ≡ some t) × (t.pending ≡ false) × (t.done ≡ false)
unfolding program
waiting_untouched_example = waiting_untouched trace_3 1 users_3 refl 1 (omega arith) (omega arith)

update-deletes_example :
    let out = update 5 s_5.database nobody s_5.self in
    ((out.0 ≡ false) ↔ (
      (s_5.self.flagged ≡ true)
      × ((s_5.self.scheduled ≡ true) ⊎ Each (λ _ info. IsFinished info) s_5.self.collections)))
    × (out.0 ≡ false → (out.2 ≡ s_5.database) × (out.1 ≡ record (s_5.self) { scheduled = true }))
update-deletes_example = update-deletes 5 s_5.database nobody s_5.self

dependency_last-kept_example : (update 5 s_5.database nobody s_5.self).0 ≡ true
unfolding program
dependency_last-kept_example =
    dependency_last-kept trace_5 2 items_5 _ (record { owner = 9; id = 4 }) 5 s_5.database nobody
      refl refl refl refl

pending_callables-waiting_all_example :
    s_2.self.pending_callables % 256 ≡ waiting_all s_2.self.collections % 256
pending_callables-waiting_all_example = pending_callables-waiting_all trace_2

test_callables : s_2.self.pending_callables ≡ 1
unfolding program
test_callables = refl
