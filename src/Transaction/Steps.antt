-- ===== src/Transaction/Steps.antt =====
-- Every step of an object of database/transaction.hpp keeps the invariant.
use mathlib.Core.List.{append_cancel_left}
use sekkeizu.Base.{
  ℕ, ◌≡◌, refl, sym, ap, subst, ◌∙◌, ◌⊎◌, inl, inr, Bool, Option, some, List, ◌∷◌, ◌++◌, arith,
  find, replace, Each, Distinct, Each-find, Each-replace, Each-Along, Each-mono, Distinct-replace,
  Distinct-Along, Option-cases,
}
use sekkeizu.Database.Defs.{Database}
use sekkeizu.Transaction.Types.{BsonApi, Info, Collection, Transaction, Job, ok, OpType}
use sekkeizu.Transaction.Push.{
  fill_slot, fill_operation, fill_callable, fill_dependency, push_operation, push_operation_2,
  push_callable, push_dependency,
}
use sekkeizu.Transaction.Update.{
  update, update_operations, send_pending, flag_deletion, unflag_deletion,
}
use sekkeizu.Transaction.Window.{IsWaiting}
use sekkeizu.Transaction.Sends.{Sends, Sends-kept, send_pending-Sends}
use sekkeizu.Transaction.Runs.{Ran, run_job-Ran}
use sekkeizu.Transaction.System.{
  System, HasRoom, Step, pushes_operation, pushes_operation_2, pushes_callable, pushes_dependency,
  updates, runs, flags, unflags,
}
use sekkeizu.Transaction.Invariant.{
  IsServed, Inv, fill_slot-IsServed, Moved-IsServed, Ran-IsServed, drop-IsServed,
}

module _ {B C : Type 0} where
  -- What a push that succeeds does to the collections.
  pub record Pushed (t u : Transaction B C) (k slot : ℕ) (fill : Info B C → Info B C) : Type 0 where
    pub info : Collection B C
    pub known : find k t.collections ≡ some info
    pub at_end : slot ≡ info.current_id
    pub written : u.collections ≡ replace k (fill_slot info fill) t.collections

  pub push_operation-Pushed :
      (api : BsonApi B) (t u : Transaction B C) (k slot : ℕ) (type : OpType) (op : B)
      → push_operation api t k type op ≡ ok (u, slot)
      → Pushed t u k slot (fill_operation type op api.initializer)
  unfolding push_operation
  push_operation-Pushed api t u k slot type op e = elim (Option-cases (find k t.collections)) [
    | inl gone ↦ absurd (ground arith)
    | inr (info, known) ↦ record {
      info = info;
      known = known;
      at_end = ground arith;
      written = ground arith;
    }
  ]

  pub push_operation_2-Pushed :
      (api : BsonApi B) (t u : Transaction B C) (k slot : ℕ) (type : OpType) (op_1 op_2 : B)
      → push_operation_2 api t k type op_1 op_2 ≡ ok (u, slot)
      → Pushed t u k slot (fill_operation type op_1 op_2)
  unfolding push_operation_2
  push_operation_2-Pushed api t u k slot type op_1 op_2 e =
      elim (Option-cases (find k t.collections)) [
        | inl gone ↦ absurd (ground arith)
        | inr (info, known) ↦ record {
          info = info;
          known = known;
          at_end = ground arith;
          written = ground arith;
        }
      ]

  pub push_callable-Pushed :
      (api : BsonApi B) (t u : Transaction B C) (k slot : ℕ) (callable : C)
      → push_callable api t k callable ≡ ok (u, slot)
      → Pushed t u k slot (fill_callable api.initializer callable)
  unfolding push_callable
  push_callable-Pushed api t u k slot callable e = elim (Option-cases (find k t.collections)) [
    | inl gone ↦ absurd (ground arith)
    | inr (info, known) ↦ record {
      info = info;
      known = known;
      at_end = ground arith;
      written = ground arith;
    }
  ]

  pub push_dependency-Pushed :
      (t u : Transaction B C) (k owner id : ℕ)
      → push_dependency t k owner id ≡ ok u
      → (slot : ℕ) × Pushed t u k slot (fill_dependency owner id)
  unfolding push_dependency
  push_dependency-Pushed t u k owner id e = elim (Option-cases (find k t.collections)) [
    | inl gone ↦ absurd (ground arith)
    | inr (info, known) ↦ (
      info.current_id,
      record { info = info; known = known; at_end = refl; written = ground arith },
    )
  ]

  Pushed-Inv :
      (s : System B C) (t : Transaction B C) (k slot : ℕ) (fill : Info B C → Info B C)
      → Pushed s.self t k slot fill
      → ((i : Info B C) → IsWaiting (some (fill i)))
      → HasRoom s.self k
      → Inv s
      → Inv (record s { self = t })
  Pushed-Inv s t k slot fill p w room v = record {
    connected = v.connected;
    distinct = subst Distinct (sym p.written) (Distinct-replace k _ s.self.collections v.distinct);
    each = subst (Each _) (sym p.written) (
        Each-replace _ k _ s.self.collections
          (fill_slot-IsServed s.issued s.database.fiber_pool k p.info fill (w _)
            (room p.info p.known) (Each-find _ k p.info s.self.collections p.known v.each))
          v.each);
  }

  -- An update keeps the collections and the database, or walks.
  update_cases :
      (diff : ℕ) (database : Database Job) (getter : ℕ → Option (Transaction B C))
      (t : Transaction B C)
      → let out = update diff database getter t in
        ((out.1.collections ≡ t.collections) × (out.2 ≡ database))
        ⊎ (let sent = send_pending getter t.collections t.pending_callables database in
            (out.1.collections ≡ sent.0) × (out.2 ≡ sent.2))
  unfolding update update_operations
  update_cases diff database getter t = ground arith

  Sends-Inv :
      (s : System B C) (t : Transaction B C) (database : Database Job) (jobs : List Job)
      → Sends s.self.collections s.database t.collections database
      → database.fiber_pool ≡ s.database.fiber_pool ++ jobs
      → Inv s
      → Inv (record { self = t; database = database; issued = s.issued ++ jobs })
  Sends-Inv s t database jobs h pool v =
      let sent : database.fiber_pool ≡ s.database.fiber_pool ++ h.jobs =
        ap (λ (d : Database Job). d.fiber_pool) h.pushed in
      let same : h.jobs ≡ jobs =
        append_cancel_left s.database.fiber_pool h.jobs jobs (sym sent ∙ pool) in
      record {
        connected = ap (λ (d : Database Job). d.is_connected) h.pushed ∙ v.connected;
        distinct = Distinct-Along _ s.self.collections t.collections h.along v.distinct;
        each =
            Each-Along _ _ _
              (λ k before after m w. rw pool (
                subst (λ js. IsServed (s.issued ++ js) (s.database.fiber_pool ++ js) k after) same
                  (Moved-IsServed s.issued s.database.fiber_pool h.jobs k before after m w)))
              s.self.collections t.collections h.along v.each;
      }

  pub update-Sends :
      (diff : ℕ) (getter : ℕ → Option (Transaction B C)) (s : System B C)
      → Inv s
      → let out = update diff s.database getter s.self in
        Sends s.self.collections s.database out.1.collections out.2
  update-Sends diff getter s v =
      let opened = Each-mono _ _ (λ k i w. w.opened) s.self.collections v.each in
      elim (update_cases diff s.database getter s.self) [
        | inl (e, d) ↦ rw (e, d) (Sends-kept s.self.collections s.database opened)
        | inr (e, d) ↦
            rw (e, d)
              (send_pending-Sends getter s.self.collections s.self.pending_callables s.database
                opened v.distinct v.connected)
      ]

  runs-Inv :
      (s : System B C) (before after : List Job) (job : Job) (t : Transaction B C)
      → s.database.fiber_pool ≡ before ++ job ∷ after
      → Ran job s.self t
      → Inv s
      → Inv (record s { self = t; database = record (s.database) { fiber_pool = before ++ after } })
  runs-Inv s before after job t pool r v =
      let each = subst (λ p. Each (IsServed s.issued p) s.self.collections) pool v.each in
      let collections = ap (λ (u : Transaction B C). u.collections) r.written in
      record {
        connected = v.connected;
        distinct =
            subst Distinct (sym collections)
              (Distinct-replace job.collection _ s.self.collections v.distinct);
        each = subst (Each _) (sym collections) (
            Each-replace _ job.collection _ s.self.collections
              (Ran-IsServed s.issued before after job job.collection r.before r.entries refl
                r.frames (Each-find _ job.collection r.before s.self.collections r.known each))
              (Each-mono _ _ (λ k info w. drop-IsServed s.issued before after job k info w)
                s.self.collections each));
      }

  flag-Inv :
      (s : System B C) (t : Transaction B C)
      → t.collections ≡ s.self.collections
      → Inv s
      → Inv (record s { self = t })
  flag-Inv s t e v = record {
    connected = v.connected;
    distinct = subst Distinct (sym e) v.distinct;
    each = subst (Each _) (sym e) v.each;
  }

  pub Step-Inv : {api : BsonApi B} {s u : System B C} → Step api s u → Inv s → Inv u
  unfolding flag_deletion unflag_deletion
  Step-Inv {api} {s} (pushes_operation k type op t slot room e q) v = subst Inv (sym q) (
      Pushed-Inv s t k slot _ (push_operation-Pushed api s.self t k slot type op e)
        (λ i. (refl, refl)) room v)
  Step-Inv {api} {s} (pushes_operation_2 k type op_1 op_2 t slot room e q) v = subst Inv (sym q) (
      Pushed-Inv s t k slot _ (push_operation_2-Pushed api s.self t k slot type op_1 op_2 e)
        (λ i. (refl, refl)) room v)
  Step-Inv {api} {s} (pushes_callable k callable t slot room e q) v = subst Inv (sym q) (
      Pushed-Inv s t k slot _ (push_callable-Pushed api s.self t k slot callable e)
        (λ i. (refl, refl)) room v)
  Step-Inv {s} (pushes_dependency k owner id t room e q) v =
      let (slot, p) = push_dependency-Pushed s.self t k owner id e in
      subst Inv (sym q) (Pushed-Inv s t k slot _ p (λ i. (refl, refl)) room v)
  Step-Inv {s} (updates diff getter alive t database jobs e pool q) v = subst Inv (sym q) (
      Sends-Inv s t database jobs
        (subst
          (λ (out : Bool × Transaction B C × Database Job).
            Sends s.self.collections s.database out.1.collections out.2)
          e (update-Sends diff getter s v))
        pool v)
  Step-Inv {s} (runs before after job sent t pool e q) v =
      subst Inv (sym q)
        (runs-Inv s before after job t pool (run_job-Ran s.database job s.self t sent e) v)
  Step-Inv {s} (flags q) v = subst Inv (sym q) (flag-Inv s _ refl v)
  Step-Inv {s} (unflags q) v = subst Inv (sym q) (flag-Inv s _ refl v)
