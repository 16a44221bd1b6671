-- ===== src/Transaction/Moved.antt =====
-- How a walk of `update` in database/transaction.hpp changes one collection.
use sekkeizu.Base.{
  ℕ, ◌+◌, ◌≡◌, ◌≢◌, refl, sym, ◌∙◌, inl, inr, Option, List, [], ◌∷◌, ◌++◌, arith, subst, ◌==◌, Bool,
  All, All-split, All-mono, if◌then◌else◌, append-nil, append_assoc, Bool-cases, ==_ne, ==_iff,
  Avoids, Along, Each,
}
use sekkeizu.Transaction.Types.{Collection, Transaction, Job}
use sekkeizu.Transaction.Pending.{Pending, get_pending_operations}
use sekkeizu.Transaction.Window.{IsKind, IsWaiting, payload, operations}
use sekkeizu.Transaction.Batch.{IsOpen, get_pending_operations-Takes}

-- The ids that the jobs carry for a collection, in order.
unfoldable pub ids_for : ℕ → List Job → List ℕ
ids_for k [] = []
ids_for k (job ∷ jobs) = if job.collection == k then job.ids ++ ids_for k jobs else ids_for k jobs

pub ids_for-append :
    (k : ℕ) (xs ys : List Job) → ids_for k (xs ++ ys) ≡ ids_for k xs ++ ids_for k ys
unfolding ids_for
ids_for-append k [] ys = refl
ids_for-append k (job ∷ xs) ys = elim (Bool-cases (job.collection == k)) [
  | inl e ↦ rw (e, ids_for-append k xs ys, append_assoc)
  | inr e ↦ rw (e, ids_for-append k xs ys)
]

pub ids_for_self :
    (k : ℕ) (job : Job) (jobs : List Job)
    → job.collection ≡ k
    → ids_for k jobs ≡ []
    → ids_for k (job ∷ jobs) ≡ job.ids
unfolding ids_for
ids_for_self k job jobs e h = rw ((==_iff job.collection k).1 e, h, append-nil)

pub ids_for_other :
    (k : ℕ) (job : Job) (jobs : List Job)
    → job.collection ≢ k
    → ids_for k (job ∷ jobs) ≡ ids_for k jobs
unfolding ids_for
ids_for_other k job jobs e = rw (==_ne job.collection k e)

-- What holds of the ids that the jobs carry for a collection holds of each job for it.
pub ids_for-All :
    (P : ℕ → Type 0) (k : ℕ) (jobs : List Job)
    → All P (ids_for k jobs)
    → All (λ (job : Job). job.collection ≡ k → All P job.ids) jobs
unfolding ids_for
ids_for-All P k [] h = tt
ids_for-All P k (job ∷ jobs) h = elim (Bool-cases (job.collection == k)) [
  | inl hit ↦
      let parts = All-split P job.ids (ids_for k jobs) (subst (λ b. All P (pick b)) hit h) in
      ((λ _. parts.0), ids_for-All P k jobs parts.1)
  | inr miss ↦
      ((λ e. absurd (ground arith)), ids_for-All P k jobs (subst (λ b. All P (pick b)) miss h))
]
  where
    pick : Bool → List ℕ
    pick b = if b then job.ids ++ ids_for k jobs else ids_for k jobs

module _ {B C : Type 0} where
  -- A job for the collection is of one kind.
  abbrev pub AreKind : ℕ → Collection B C → Job → Type 0
  AreKind k info job = job.collection ≡ k → All (λ j. IsKind job.bulk (info.transactions j)) job.ids

  pub AreKind-none :
      (k : ℕ) (info : Collection B C) (jobs : List Job)
      → ids_for k jobs ≡ []
      → All (AreKind k info) jobs
  AreKind-none k info jobs e =
      All-mono _ _ (λ job f same. All-mono _ _ (λ j no_such. absurd no_such) job.ids (f same)) jobs
        (ids_for-All (λ _. ⊥) k jobs (subst (All (λ _. ⊥)) (sym e) tt))

  abbrev pub AllOpen : List (ℕ × Collection B C) → Type 0
  AllOpen = Each (λ _ info. IsOpen info)

  -- How a collection changes while the jobs are handed over: `first_id` goes past the operations
  -- that the jobs carry for it, in order, and the entries keep all but their `pending` flag.
  pub record Moved (jobs : List Job) (k : ℕ) (before after : Collection B C) : Type 0 where
    pub count : ℕ
    pub moved : after.first_id ≡ before.first_id + count
    pub current : after.current_id ≡ before.current_id
    pub carried : ids_for k jobs ≡ operations before.transactions before.first_id count
    pub payloads : (j : ℕ) → payload (after.transactions j) ≡ payload (before.transactions j)
    pub kinds : All (AreKind k before) jobs
    pub still_open : IsOpen after

  pub Moved-idle :
      (jobs : List Job) (k : ℕ) (info : Collection B C)
      → IsOpen info
      → ids_for k jobs ≡ []
      → Moved jobs k info info
  unfolding operations
  Moved-idle jobs k info o e = record {
    count = 0;
    moved = omega arith;
    current = refl;
    carried = e;
    payloads = λ j. refl;
    kinds = AreKind-none k info jobs e;
    still_open = o;
  }

  pub Along-idle :
      (jobs : List Job) (cs : List (ℕ × Collection B C))
      → AllOpen cs
      → ((k : ℕ) → ids_for k jobs ≡ [])
      → Along (Moved jobs) cs cs
  Along-idle jobs [] o e = tt
  Along-idle jobs ((k, info) ∷ cs) o e =
      ((refl, Moved-idle jobs k info o.0 (e k)), Along-idle jobs cs o.1 e)

  pub Moved-other :
      (job : Job) (jobs : List Job) (k : ℕ) (before after : Collection B C)
      → job.collection ≢ k
      → Moved jobs k before after
      → Moved (job ∷ jobs) k before after
  Moved-other job jobs k before after n m = record {
    count = m.count;
    moved = m.moved;
    current = m.current;
    carried = ids_for_other k job jobs n ∙ m.carried;
    payloads = m.payloads;
    kinds = ((λ e. absurd (n e)), m.kinds);
    still_open = m.still_open;
  }

  pub Along-other :
      (job : Job) (jobs : List Job) (cs ds : List (ℕ × Collection B C))
      → Avoids job.collection cs
      → Along (Moved jobs) cs ds
      → Along (Moved (job ∷ jobs)) cs ds
  Along-other job jobs [] [] a h = tt
  Along-other job jobs [] (d ∷ ds) a h = absurd h
  Along-other job jobs (c ∷ cs) [] a h = absurd h
  Along-other job jobs ((j, v) ∷ cs) ((k, w) ∷ ds) a h = (
    (h.0.0, Moved-other job jobs j v w (λ e. a.0 (sym e)) h.0.1),
    Along-other job jobs cs ds a.1 h.1,
  )

  module _ (getter : ℕ → Option (Transaction B C)) (k counter : ℕ) (info : Collection B C)
      (o : IsOpen info) where
    abbrev batch : Pending B C
    batch = get_pending_operations getter counter k info

    -- What one call leaves of the collection, under any jobs that carry just its batch.
    pub Moved-batch :
        (jobs : List Job)
        → ids_for k jobs ≡ batch.transactions
        → All (AreKind k info) jobs
        → Moved jobs k info batch.info
    Moved-batch jobs e kinds =
        let (n, t) = get_pending_operations-Takes getter counter k info o in
        record {
          count = n;
          moved = t.moved;
          current = t.current;
          carried = e ∙ t.taken;
          payloads = t.payloads;
          kinds = kinds;
          still_open = record {
            ordered = omega (arith, t.moved, t.current, t.within);
            small = omega (arith, t.current, o.small);
            waits = λ j a b.
                subst IsWaiting (sym (t.ahead j (omega (arith, t.moved))))
                  (o.waits j (omega (arith, t.moved)) (omega (arith, t.current)));
          };
        }
