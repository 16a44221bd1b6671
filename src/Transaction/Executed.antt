-- ===== src/Transaction/Executed.antt =====
-- Every job that `update` of database/transaction.hpp handed on can run.
use sekkeizu.Base.{
  ℕ, ◌+◌, replace, ◌≤◌, ◌≡◌, refl, sym, ap, subst, inl, inr, Bool, true, Option, some, List, [],
  ◌∷◌, ◌++◌, arith, All, All-mono, All-split, count, find, has, Each, Each-find, Option-cases,
  ==_self,
}
use Prim.Native.String.{String}
use sekkeizu.Database.Defs.{Database, get_collection, get_all_collections}
use sekkeizu.Transaction.Types.{BsonApi, Info, Collection, Transaction, Job}
use sekkeizu.Transaction.Update.{init, emplace_all, clear_all, flag_deletion, unflag_deletion}
use sekkeizu.Transaction.Jobs.{Sent, Command, run_on, run_job}
use sekkeizu.Transaction.Moved.{ids_for}
use sekkeizu.Transaction.Runs.{run_job-Ran}
use sekkeizu.Transaction.Sends.{Sends}
use sekkeizu.Transaction.System.{
  System, Step, pushes_operation, pushes_operation_2, pushes_callable, pushes_dependency, updates,
  runs, flags, unflags, Reach, start, next,
}
use sekkeizu.Transaction.Invariant.{IsTaken, Inv}
use sekkeizu.Transaction.Steps.{
  push_operation-Pushed, push_operation_2-Pushed, push_callable-Pushed, push_dependency-Pushed,
  update-Sends,
}
use sekkeizu.Transaction.Initial.{Reach-Inv}
use sekkeizu.Transaction.Supply.{IsSupplied}
use sekkeizu.Transaction.Carried.{ids_for-taken}
use sekkeizu.Transaction.Supplied.{Supplied, Pushed-Supplied, Sends-Supplied, runs-Supplied}
use sekkeizu.Transaction.Runnable.{run_on-total}

-- `init` makes the collections that have a name.
has-behind :
    (k j : ℕ) (name : String) (names : List (ℕ × String))
    → has k names ≡ true
    → has k ((j, name) ∷ names) ≡ true
has-behind k j name names h = ground arith

collections_named :
    (names : List (ℕ × String)) → All (λ (n : ℕ × String). has n.0 names ≡ true) names
collections_named [] = tt
collections_named ((j, name) ∷ names) = (
  ground (arith, ==_self j),
  All-mono _ _ (λ (n : ℕ × String) (h : has n.0 names ≡ true). has-behind n.0 j name names h) names
      (collections_named names),
)

has-some : {V : Type 0} (k : ℕ) (m : List (ℕ × V)) → has k m ≡ true → (v : V) × (find k m ≡ some v)
has-some k m h = elim (Option-cases (find k m)) [
  | inl gone ↦ absurd (ground arith)
  | inr there ↦ there
]

module _ {B C : Type 0} where
  Step-Supplied :
      {api : BsonApi B} {s u : System B C} → Step api s u → Inv s → Supplied s → Supplied u
  unfolding flag_deletion unflag_deletion
  Step-Supplied {api} {s} (pushes_operation k type op t slot room e q) w v =
      subst Supplied (sym q) (
        Pushed-Supplied s t k slot _ (push_operation-Pushed api s.self t k slot type op e)
          (λ i _ _. ((λ gone. cc), (λ gone. cc))) room w v)
  Step-Supplied {api} {s} (pushes_operation_2 k type op_1 op_2 t slot room e q) w v =
      subst Supplied (sym q) (
        Pushed-Supplied s t k slot _ (push_operation_2-Pushed api s.self t k slot type op_1 op_2 e)
          (λ i _ _. ((λ gone. cc), (λ gone. cc))) room w v)
  Step-Supplied {api} {s} (pushes_callable k callable t slot room e q) w v =
      subst Supplied (sym q) (
        Pushed-Supplied s t k slot _ (push_callable-Pushed api s.self t k slot callable e)
          (λ i _ gone. absurd (cc)) room w v)
  Step-Supplied {s} (pushes_dependency k owner id t room e q) w v =
      let (slot, p) = push_dependency-Pushed s.self t k owner id e in
      subst Supplied (sym q) (Pushed-Supplied s t k slot _ p (λ i gone _. absurd (cc)) room w v)
  Step-Supplied {s} (updates diff getter alive t database jobs e pool q) w v =
      subst Supplied (sym q) (
        Sends-Supplied s t database jobs
          (subst
            (λ (out : Bool × Transaction B C × Database Job).
              Sends s.self.collections s.database out.1.collections out.2)
            e (update-Sends diff getter s w))
          pool w v)
  Step-Supplied {s} (runs before after job sent t pool e q) w v =
      subst Supplied (sym q)
        (runs-Supplied s before after job t pool (run_job-Ran s.database job s.self t sent e) w v)
  Step-Supplied {s} (flags q) w v =
      subst Supplied (sym q) (record { each = v.each; named = v.named; targets = v.targets })
  Step-Supplied {s} (unflags q) w v =
      subst Supplied (sym q) (record { each = v.each; named = v.named; targets = v.targets })

  emplace_all-Each :
      (P : ℕ → Type 0) (names : List (ℕ × String)) (cs : List (ℕ × Collection B C))
      → All (λ (n : ℕ × String). P n.0) names
      → Each (λ k _. P k) cs
      → Each (λ k _. P k) (emplace_all names cs)
  unfolding emplace_all
  emplace_all-Each P [] cs a h = h
  emplace_all-Each P ((key, name) ∷ names) cs a h = elim (Option-cases (find key cs)) [
    | inl gone ↦ rw (gone, emplace_all) (emplace_all-Each P names _ a.1 (a.0, h))
    | inr (info, known) ↦ rw (known, emplace_all) (emplace_all-Each P names cs a.1 h)
  ]

  clear_all-Each :
      (P : ℕ → Type 0) (cs : List (ℕ × Collection B C))
      → Each (λ k _. P k) cs
      → Each (λ k _. P k) (clear_all cs)
  unfolding clear_all
  clear_all-Each P [] h = tt
  clear_all-Each P ((k, info) ∷ cs) h = (h.0, clear_all-Each P cs h.1)

  clear_all-IsSupplied : (cs : List (ℕ × Collection B C)) → Each (IsSupplied []) (clear_all cs)
  unfolding clear_all ids_for
  clear_all-IsSupplied [] = tt
  clear_all-IsSupplied ((k, info) ∷ cs) = (
    record { stocked = λ j a b. absurd (omega arith); ready = tt; once = λ j. omega arith },
    clear_all-IsSupplied cs,
  )

  init-Supplied :
      (database : Database Job) (execute_every : ℕ) (t : Transaction B C)
      → database.fiber_pool ≡ []
      → t.collections ≡ []
      → Supplied (record { self = init database execute_every t; database = database; issued = [] })
  unfolding init get_all_collections
  init-Supplied database execute_every t idle empty =
      let cs = emplace_all database.collections_map t.collections in
      let P : ℕ → Type 0 = λ k. has k database.collections_map ≡ true in
      record {
        each =
            subst (λ p. Each (IsSupplied {B = B} {C = C} p) (clear_all cs)) (sym idle)
              (clear_all-IsSupplied cs);
        named = clear_all-Each P cs (
            emplace_all-Each P database.collections_map t.collections
              (collections_named database.collections_map)
              (subst (Each (λ k _. P k)) (sym empty) tt));
        targets = subst (All _) (sym idle) tt;
      }

  Reach-Supplied : {api : BsonApi B} {s : System B C} → Reach api s → Supplied s
  Reach-Supplied (start database execute_every t connected idle empty) =
      init-Supplied database execute_every t idle empty
  Reach-Supplied (next r st) = Step-Supplied st (Reach-Inv r) (Reach-Supplied r)

  run_job-some :
      (database : Database Job) (job : Job) (t : Transaction B C) (name : String)
      (info : Collection B C) (commands : List (Command B C)) (g : ℕ → Option (Info B C))
      → find job.collection database.collections_map ≡ some name
      → find job.collection t.collections ≡ some info
      → run_on job.bulk job.ids info.transactions ≡ some (commands, g)
      → (u : Transaction B C) × (run_job database job t
          ≡ some (record { collection = name; commands = commands }, u))
  unfolding run_job get_collection
  run_job-some database job t name info commands g named known ran =
      let u : Transaction B C = record t {
        collections = replace job.collection (record info { transactions = g }) t.collections;
      } in
      (u, rw (named, run_job) (rw (known, run_job) (rw (ran, run_job) refl)))

  -- In every reachable state each job of the pool, whichever is taken, runs to its end on the collection
  -- of its name: the documents that its commands take are alive, each until its own job destroys it, its
  -- callables are there, and no entry is used by two jobs.
  pub jobs_run :
      {api : BsonApi B} {s : System B C}
      → Reach api s
      → (before after : List Job) (job : Job) → s.database.fiber_pool ≡ before ++ job ∷ after
      → (sent : Sent B C) × (t : Transaction B C) × (run_job s.database job s.self ≡ some (sent, t))
        × (get_collection s.database job.collection ≡ some sent.collection)
        × ((j : ℕ) → count j job.ids + count j (ids_for job.collection (before ++ after)) ≤ 1)
  unfolding get_collection
  jobs_run {api} {s} r before after job pool =
      let k = job.collection in
      let v = Reach-Supplied r in
      let target = (All-split _ before (job ∷ after) (subst (All _) pool v.targets)).1.0 in
      let (info, known) = has-some k s.self.collections target in
      let w = Each-find _ k info s.self.collections known (Reach-Inv r).each in
      let u = Each-find _ k info s.self.collections known v.each in
      let (name, named) =
        has-some k s.database.collections_map
          (Each-find _ k info s.self.collections known v.named) in
      let ready = (All-split _ before (job ∷ after) (subst (All _) pool u.ready)).1.0 refl in
      let behind = (All-split _ before (job ∷ after) (subst (All _) pool w.behind)).1.0 refl in
      let once : (j : ℕ) → count j job.ids + count j (ids_for k (before ++ after)) ≤ 1 = λ j.
        omega (
          arith,
          ids_for-taken k before after job refl j,
          ap (λ p. count j (ids_for k p)) pool,
          u.once j,
        ) in
      let (commands, g, ran) =
        run_on-total job.bulk job.ids info.transactions ready
          (All-mono _ _ (λ (j : ℕ) (q : IsTaken info j). q.1) job.ids behind)
          (λ j. omega (arith, once j)) in
      let (t, done) = run_job-some s.database job s.self name info commands g named known ran in
      (record { collection = name; commands = commands }, t, done, named, once)
