-- ===== src/Transaction/Counter.antt =====
-- The counter of pending callables of database/transaction.hpp, against the callables that wait.
use sekkeizu.Base.{
  ℕ, ◌+◌, ◌-◌, ◌%◌, ◌≡◌, refl, sym, ap, subst, ◌∙◌, ◌⊎◌, inl, inr, Bool, Option, some, List, ◌∷◌,
  ◌++◌, arith, All, All-mono, All-split, Each-find, Each-mono, find, Option-cases,
}
use sekkeizu.Database.Defs.{Database}
use sekkeizu.Transaction.Types.{BsonApi, Info, Transaction, Job, OpType, ok}
use sekkeizu.Transaction.Push.{
  fill_slot, entry, push_operation, push_operation_2, push_callable, push_dependency,
}
use sekkeizu.Transaction.Update.{
  init, update, update_operations, send_pending, flag_deletion, unflag_deletion,
}
use sekkeizu.Transaction.Window.{bit, is_callable, callables, callables-cong, payload}
use sekkeizu.Transaction.Runs.{Ran, run_job-Ran}
use sekkeizu.Transaction.System.{
  System, HasRoom, Step, pushes_operation, pushes_operation_2, pushes_callable, pushes_dependency,
  updates, runs, flags, unflags, Reach, start, next,
}
use sekkeizu.Transaction.Invariant.{Inv}
use sekkeizu.Transaction.Steps.{
  Pushed, push_operation-Pushed, push_operation_2-Pushed, push_callable-Pushed,
  push_dependency-Pushed,
}
use sekkeizu.Transaction.Initial.{Reach-Inv}
use sekkeizu.Transaction.Waits.{
  waiting_all, waiting_all-replace, send_pending-waiting, fill_slot-waiting, clear_all-waiting,
}

module _ {B C : Type 0} where
  -- The counter, modulo 256, is the number of the callables that wait.
  pub Counts : Transaction B C → Type 0
  Counts t = t.pending_callables % 256 ≡ waiting_all t.collections % 256

  Pushed-Counts :
      (s : System B C) (t : Transaction B C) (k slot m : ℕ) (fill : Info B C → Info B C)
      → Pushed s.self t k slot fill
      → ((i : Info B C) → bit (is_callable (some (fill i))) ≡ m)
      → t.pending_callables % 256 ≡ (s.self.pending_callables + m) % 256
      → HasRoom s.self k
      → Inv s
      → Counts s.self
      → Counts t
  unfolding Counts
  Pushed-Counts s t k slot m fill p adds counted room v c =
      let w = Each-find _ k p.info s.self.collections p.known v.each in
      let here = fill_slot-waiting p.info fill w.opened.ordered (room p.info p.known) in
      let all = waiting_all-replace k (fill_slot p.info fill) p.info s.self.collections p.known in
      let now = ap waiting_all p.written in
      omega (arith, here, adds (entry p.info.transactions p.info.current_id), all, now, counted, c)

  push_operation-counter :
      (api : BsonApi B) (t u : Transaction B C) (k slot : ℕ) (type : OpType) (op : B)
      → push_operation api t k type op ≡ ok (u, slot)
      → u.pending_callables ≡ t.pending_callables
  unfolding push_operation
  push_operation-counter api t u k slot type op e = elim (Option-cases (find k t.collections)) [
    | inl gone ↦ absurd (ground arith)
    | inr (info, known) ↦ ground arith
  ]

  push_operation_2-counter :
      (api : BsonApi B) (t u : Transaction B C) (k slot : ℕ) (type : OpType) (op_1 op_2 : B)
      → push_operation_2 api t k type op_1 op_2 ≡ ok (u, slot)
      → u.pending_callables ≡ t.pending_callables
  unfolding push_operation_2
  push_operation_2-counter api t u k slot type op_1 op_2 e =
      elim (Option-cases (find k t.collections)) [
        | inl gone ↦ absurd (ground arith)
        | inr (info, known) ↦ ground arith
      ]

  push_callable-counter :
      (api : BsonApi B) (t u : Transaction B C) (k slot : ℕ) (callable : C)
      → push_callable api t k callable ≡ ok (u, slot)
      → u.pending_callables % 256 ≡ (t.pending_callables + 1) % 256
  unfolding push_callable
  push_callable-counter api t u k slot callable e = elim (Option-cases (find k t.collections)) [
    | inl gone ↦ absurd (ground arith)
    | inr (info, known) ↦ ground arith
  ]

  push_dependency-counter :
      (t u : Transaction B C) (k owner id : ℕ)
      → push_dependency t k owner id ≡ ok u
      → u.pending_callables ≡ t.pending_callables
  unfolding push_dependency
  push_dependency-counter t u k owner id e = elim (Option-cases (find k t.collections)) [
    | inl gone ↦ absurd (ground arith)
    | inr (info, known) ↦ ground arith
  ]

  update_walks :
      (diff : ℕ) (database : Database Job) (getter : ℕ → Option (Transaction B C))
      (t : Transaction B C)
      → let out = update diff database getter t in
        ((out.1.collections ≡ t.collections) × (out.1.pending_callables ≡ t.pending_callables))
        ⊎ (let sent = send_pending getter t.collections t.pending_callables database in
            (out.1.collections ≡ sent.0) × (out.1.pending_callables ≡ sent.1))
  unfolding update update_operations
  update_walks diff database getter t = ground arith

  update-Counts :
      (diff : ℕ) (getter : ℕ → Option (Transaction B C)) (s : System B C)
      → Inv s
      → Counts s.self
      → Counts (update diff s.database getter s.self).1
  unfolding Counts
  update-Counts diff getter s v c =
      let opened = Each-mono _ _ (λ k i w. w.opened) s.self.collections v.each in
      let sent =
        send_pending-waiting getter s.self.collections s.self.pending_callables s.database opened in
      elim (update_walks diff s.database getter s.self) [
        | inl (e, d) ↦ ap (λ n. n % 256) d ∙ c ∙ ap (λ cs. waiting_all cs % 256) (sym e)
        | inr (e, d) ↦ omega (arith, sent, c, d, ap waiting_all e)
      ]

  Ran-Counts :
      (s : System B C) (before after : List Job) (job : Job) (t : Transaction B C)
      → s.database.fiber_pool ≡ before ++ job ∷ after
      → Ran job s.self t
      → Inv s
      → Counts s.self
      → Counts t
  unfolding Counts
  Ran-Counts s before after job t pool r v c =
      let w = Each-find _ job.collection r.before s.self.collections r.known v.each in
      let rest = All-split _ before (job ∷ after) (subst (All _) pool w.behind) in
      let n = r.before.current_id - r.before.first_id in
      let same : callables r.entries r.before.first_id n
          ≡ callables r.before.transactions r.before.first_id n =
        callables-cong r.entries r.before.transactions r.before.first_id n (λ j a b. ap payload (
          r.frames.outside j
            (All-mono _ _ (λ id h. omega (arith, h.0)) job.ids (rest.1.0 refl)))) in
      let all =
        waiting_all-replace job.collection (record (r.before) { transactions = r.entries }) r.before
          s.self.collections r.known in
      let now = ap (λ (u : Transaction B C). waiting_all u.collections) r.written in
      let counter = ap (λ (u : Transaction B C). u.pending_callables) r.written in
      omega (arith, same, all, now, counter, c)

  Step-Counts :
      {api : BsonApi B} {s u : System B C} → Step api s u → Inv s → Counts s.self → Counts u.self
  unfolding Counts flag_deletion unflag_deletion
  Step-Counts {api} {s} (pushes_operation k type op t slot room e q) v c =
      subst (λ u. Counts u.self) (sym q)
        (Pushed-Counts s t k slot 0 _ (push_operation-Pushed api s.self t k slot type op e)
          (λ i. refl) (omega (arith, push_operation-counter api s.self t k slot type op e)) room v
          c)
  Step-Counts {api} {s} (pushes_operation_2 k type op_1 op_2 t slot room e q) v c =
      subst (λ u. Counts u.self) (sym q)
        (Pushed-Counts s t k slot 0 _ (push_operation_2-Pushed api s.self t k slot type op_1 op_2 e)
          (λ i. refl) (omega (arith, push_operation_2-counter api s.self t k slot type op_1 op_2 e))
          room v c)
  Step-Counts {api} {s} (pushes_callable k callable t slot room e q) v c =
      subst (λ u. Counts u.self) (sym q)
        (Pushed-Counts s t k slot 1 _ (push_callable-Pushed api s.self t k slot callable e)
          (λ i. refl) (push_callable-counter api s.self t k slot callable e) room v c)
  Step-Counts {s} (pushes_dependency k owner id t room e q) v c =
      let (slot, p) = push_dependency-Pushed s.self t k owner id e in
      subst (λ u. Counts u.self) (sym q)
        (Pushed-Counts s t k slot 0 _ p (λ i. refl)
          (omega (arith, push_dependency-counter s.self t k owner id e)) room v c)
  Step-Counts {s} (updates diff getter alive t database jobs e pool q) v c =
      subst (λ u. Counts u.self) (sym q)
        (subst (λ (out : Bool × Transaction B C × Database Job). Counts out.1) e
          (update-Counts diff getter s v c))
  Step-Counts {s} (runs before after job sent t pool e q) v c =
      subst (λ u. Counts u.self) (sym q)
        (Ran-Counts s before after job t pool (run_job-Ran s.database job s.self t sent e) v c)
  Step-Counts {s} (flags q) v c = subst (λ u. Counts u.self) (sym q) c
  Step-Counts {s} (unflags q) v c = subst (λ u. Counts u.self) (sym q) c

  -- In every reachable state the counter of pending callables is the number of the callables that
  -- wait in all collections, modulo 256: its eight bits wrap.
  pub pending_callables-waiting_all :
      {api : BsonApi B} {s : System B C}
      → Reach api s
      → s.self.pending_callables % 256 ≡ waiting_all s.self.collections % 256
  unfolding init Counts
  pending_callables-waiting_all (start database execute_every t connected idle empty) =
      ap (λ n. n % 256) (sym (clear_all-waiting _))
  pending_callables-waiting_all (next r st) =
      Step-Counts st (Reach-Inv r) (pending_callables-waiting_all r)
