-- ===== src/Transaction/Supply.antt =====
-- What the jobs of database/transaction.hpp find when they run: live documents, or a callable, and no
-- entry that another job has used.
use sekkeizu.Base.{
  All-both, count_self, count-none, count-All, ℕ, ◌+◌, ◌^◌, ◌≤◌, ◌<◌, ◌≡◌, ◌≢◌, sym, ap, subst, inl,
  inr, Bool, true, false, Option, none, some, List, ◌∷◌, ◌++◌, arith, All, All-append, All-mono,
  All-split, count, count-append, Bool-cases, ==_ne, ◌==◌,
}
use sekkeizu.Transaction.Types.{Info, Collection, Job}
use sekkeizu.Transaction.Push.{fill_slot, entry}
use sekkeizu.Transaction.Window.{IsKind, payload}
use sekkeizu.Transaction.Moved.{ids_for, ids_for-append, ids_for-All, Moved}
use sekkeizu.Transaction.Runs.{Frames}
use sekkeizu.Transaction.Invariant.{IsServed, IsTaken}
use sekkeizu.Transaction.Carried.{
  ids_for-join, ids_for-fewer, ids_for-taken, operations-range, operations-count,
}

module _ {B C : Type 0} where
  abbrev pub HasDocuments : Option (Info B C) → Type 0
  HasDocuments none = ⊥
  HasDocuments (some t) = (t.operation_op_1 ≢ none) × (t.operation_op_2 ≢ none)

  abbrev pub HasCallable : Option (Info B C) → Type 0
  HasCallable none = ⊥
  HasCallable (some t) = t.callable ≢ none

  -- What a job with this `bulk` flag needs of an entry.
  abbrev pub CanRun : Bool → Option (Info B C) → Type 0
  CanRun true = HasDocuments
  CanRun false = HasCallable

  -- An operation that waits has its documents.
  abbrev pub IsStocked : Option (Info B C) → Type 0
  IsStocked none = ⊥
  IsStocked (some t) = t.dependency ≡ none → t.callable ≡ none → HasDocuments (some t)

  -- None of these looks at the flag that `get_pending_operations` sets.
  IsStocked-cong : (o p : Option (Info B C)) → payload o ≡ payload p → IsStocked p → IsStocked o
  IsStocked-cong none p e h = absurd (ground arith)
  IsStocked-cong (some t) none e h = absurd h
  IsStocked-cong (some t) (some u) e h = subst IsStocked (sym e) h

  CanRun-cong :
      (bulk : Bool) (o p : Option (Info B C))
      → payload o ≡ payload p
      → CanRun bulk p
      → CanRun bulk o
  CanRun-cong true none p e h = absurd (ground arith)
  CanRun-cong true (some t) none e h = absurd h
  CanRun-cong true (some t) (some u) e h = subst HasDocuments (sym e) h
  CanRun-cong false none p e h = absurd (ground arith)
  CanRun-cong false (some t) none e h = absurd h
  CanRun-cong false (some t) (some u) e h = subst HasCallable (sym e) h

  IsStocked-CanRun :
      (bulk : Bool) (o : Option (Info B C)) → IsKind bulk o → IsStocked o → CanRun bulk o
  IsStocked-CanRun true none k h = absurd k
  IsStocked-CanRun true (some t) k h = h k.0 k.1
  IsStocked-CanRun false none k h = absurd k
  IsStocked-CanRun false (some t) k h = let (_, c, e) = k in λ gone. cc

  abbrev pub IsReady : ℕ → Collection B C → Job → Type 0
  IsReady k info job = job.collection ≡ k → All (λ j. CanRun job.bulk (info.transactions j)) job.ids

  pub record IsSupplied (pool : List Job) (k : ℕ) (info : Collection B C) : Type 0 where
    pub stocked :
        (j : ℕ) → info.first_id ≤ j → j < info.current_id → IsStocked (info.transactions j)
    pub ready : All (IsReady k info) pool
    pub once : (j : ℕ) → count j (ids_for k pool) ≤ 1

  -- A push fills the entry at the end, which no job has.
  pub fill_slot-IsSupplied :
      (issued pool : List Job) (k : ℕ) (info : Collection B C) (fill : Info B C → Info B C)
      → IsStocked (some (fill (entry info.transactions info.current_id)))
      → info.current_id + 1 < 2 ^ 64
      → IsServed issued pool k info
      → IsSupplied pool k info
      → IsSupplied pool k (fill_slot info fill)
  fill_slot-IsSupplied issued pool k info fill stock room w v = record {
    stocked = λ j a b. elim (Bool-cases (info.current_id == j)) [
      | inl here ↦ rw here stock
      | inr other ↦ rw other (v.stocked j a (ground arith))
    ];
    ready =
        All-mono _ _
          (λ job r same.
            All-mono _ _
              (λ (j : ℕ) (q : CanRun job.bulk (info.transactions j) × IsTaken info j).
                let ne : info.current_id ≢ j = omega (arith, q.1.0, w.opened.ordered) in
                rw (==_ne info.current_id j ne) q.0)
              job.ids (All-both _ _ job.ids (r.0 same) (r.1 same)))
          pool (All-both _ _ pool v.ready w.behind);
    once = v.once;
  }

  -- A walk of `update` hands the operations that it passes to jobs of their kind.
  pub Moved-IsSupplied :
      (issued pool jobs : List Job) (k : ℕ) (before after : Collection B C)
      → Moved jobs k before after
      → IsServed issued pool k before
      → IsSupplied pool k before
      → IsSupplied (pool ++ jobs) k after
  Moved-IsSupplied issued pool jobs k before after m w v =
      let taken = operations-count before.transactions before.first_id m.count in
      let P : ℕ → Type 0 = λ j. IsStocked (before.transactions j) in
      let old : All (IsReady k after) pool =
        All-mono _ _
          (λ job r same.
            All-mono _ _ (λ j q. CanRun-cong job.bulk _ _ (m.payloads j) q) job.ids (r same))
          pool v.ready in
      let stocks : All P (ids_for k jobs) = subst (All P) (sym m.carried) (
        operations-range before.transactions before.first_id m.count P
          (λ j a b. v.stocked j a (omega (arith, b, m.still_open.ordered, m.moved, m.current)))) in
      let new : All (IsReady k after) jobs =
        All-mono _ _
          (λ job r same.
            All-mono _ _
              (λ j q. CanRun-cong job.bulk _ _ (m.payloads j) (IsStocked-CanRun job.bulk _ q.0 q.1))
              job.ids (All-both _ _ job.ids (r.0 same) (r.1 same)))
          jobs (All-both _ _ jobs m.kinds (ids_for-All P k jobs stocks)) in
      record {
        stocked = λ j a b.
            IsStocked-cong _ _ (m.payloads j)
              (v.stocked j (omega (arith, m.moved)) (omega (arith, m.current)));
        ready = All-append _ pool jobs old new;
        once = λ j.
            let sum = ap (count j) (ids_for-append k pool jobs) in
            let split = count-append j (ids_for k pool) (ids_for k jobs) in
            let carried = ap (count j) m.carried in
            elim (count-All (λ i. i < before.first_id) j (ids_for k pool)
              (ids_for-join (λ i. i < before.first_id) k pool
                (All-mono _ _ (λ job r same. All-mono _ _ (λ i q. q.0) job.ids (r same)) pool
                  w.behind))) [
                    | inl absent ↦ omega (arith, sum, split, carried, absent, (taken j).0)
                    | inr behind ↦ omega (arith, sum, split, carried, v.once j, (taken j).1 behind)
                  ];
      }

  -- A job that ran has used the entries of no other job.
  pub Ran-IsSupplied :
      (issued before after : List Job) (job : Job) (k : ℕ) (info : Collection B C)
      (entries : ℕ → Option (Info B C))
      → job.collection ≡ k
      → Frames job.ids info.transactions entries
      → IsServed issued (before ++ job ∷ after) k info
      → IsSupplied (before ++ job ∷ after) k info
      → IsSupplied (before ++ after) k (record info { transactions = entries })
  Ran-IsSupplied issued before after job k info entries e r w v =
      let rest = before ++ after in
      let ready = All-split _ before (job ∷ after) v.ready in
      let used = (All-split _ before (job ∷ after) w.behind).1.0 e in
      let sums = λ (j : ℕ). ids_for-taken k before after job e j in
      let others =
        ids_for-All (λ j. 1 ≤ count j (ids_for k rest)) k rest (count_self (ids_for k rest)) in
      record {
        stocked = λ j a b.
            subst IsStocked
              (sym (
                r.outside j (
                  All-mono _ _ (λ (id : ℕ) (h : IsTaken info id). omega (arith, h.0)) job.ids
                    used)))
              (v.stocked j a b);
        ready =
            All-mono _ (IsReady k (record info { transactions = entries }))
              (λ (other : Job)
                  (q : IsReady k info other
                    × (other.collection ≡ k → All (λ j. 1 ≤ count j (ids_for k rest)) other.ids))
                  same.
                All-mono _ (λ j. CanRun other.bulk (entries j))
                  (λ (j : ℕ)
                      (c : CanRun other.bulk (info.transactions j)
                        × (1 ≤ count j (ids_for k rest))).
                    subst (CanRun other.bulk)
                      (sym
                        (r.outside j (count-none j job.ids (omega (arith, c.1, sums j, v.once j)))))
                      c.0)
                  other.ids (All-both _ _ other.ids (q.0 same) (q.1 same)))
              rest (All-both _ _ rest (All-append _ before after ready.0 ready.1.1) others);
        once = λ j. omega (arith, sums j, v.once j);
      }

  pub drop-IsSupplied :
      (before after : List Job) (job : Job) (k : ℕ) (info : Collection B C)
      → IsSupplied (before ++ job ∷ after) k info
      → IsSupplied (before ++ after) k info
  drop-IsSupplied before after job k info v =
      let ready = All-split _ before (job ∷ after) v.ready in
      record {
        stocked = v.stocked;
        ready = All-append _ before after ready.0 ready.1.1;
        once = λ j. omega (arith, v.once j, ids_for-fewer k before after job j);
      }
