-- ===== src/Transaction/Invariant.antt =====
-- What holds of an object of database/transaction.hpp and its database after any steps.
use mathlib.Core.Bool.{false≢true}
use sekkeizu.Base.{
  ℕ, zero, suc, ◌+◌, ◌^◌, ◌≤◌, ◌<◌, ◌≡◌, ◌≢◌, refl, sym, ap, subst, ◌∙◌, inl, inr, Bool, true,
  false, Option, some, List, ◌∷◌, ◌++◌, arith, All, All-append, All-mono, All-split, ap₂, Each,
  Distinct, Bool-cases, ==_ne, ◌==◌,
}
use sekkeizu.Transaction.Types.{Info, Collection, Job}
use sekkeizu.Transaction.Push.{fill_slot, entry}
use sekkeizu.Transaction.Window.{
  IsWaiting, IsPlain, IsPlain-cong, IsPlain-operation, is_operation, is_operation-cong, only,
  operations, operations-is_operation, operations-cong, operations-extend,
}
use sekkeizu.Transaction.Batch.{IsOpen}
use sekkeizu.Transaction.Moved.{ids_for, ids_for-append, ids_for-All, Moved}
use sekkeizu.Transaction.Runs.{Frames}
use sekkeizu.Transaction.System.{System}

-- The ids that a job carries for a collection lie behind its `first_id`, and are operations.
abbrev pub IsTaken : {B C : Type 0} → Collection B C → ℕ → Type 0
IsTaken info id = (id < info.first_id) × (is_operation (info.transactions id) ≡ true)

abbrev pub IsBehind : {B C : Type 0} → ℕ → Collection B C → Job → Type 0
IsBehind k info job = job.collection ≡ k → All (IsTaken info) job.ids

-- What holds of a collection, given all the jobs so far and those still to run.
pub record IsServed {B C : Type 0} (issued pool : List Job) (k : ℕ) (info : Collection B C)
    : Type 0 where
  pub opened : IsOpen info
  pub served : ids_for k issued ≡ operations info.transactions 0 info.first_id
  pub behind : All (IsBehind k info) pool
  pub plain : (j : ℕ) → IsPlain (info.transactions j)

pub record Inv {B C : Type 0} (s : System B C) : Type 0 where
  pub connected : s.database.is_connected ≡ true
  pub distinct : Distinct s.self.collections
  pub each : Each (IsServed s.issued s.database.fiber_pool) s.self.collections

module _ {B C : Type 0} where
  IsBehind-ids_for :
      (k : ℕ) (info : Collection B C) (jobs : List Job)
      → All (IsTaken info) (ids_for k jobs)
      → All (IsBehind k info) jobs
  IsBehind-ids_for k info = ids_for-All (IsTaken info) k

  -- The ids of the operations of a range are in the range, and are operations.
  pub operations-All :
      (f : ℕ → Option (Info B C)) (lo n : ℕ)
      → All (λ id. (id < lo + n) × (is_operation (f id) ≡ true)) (operations f lo n)
  unfolding operations
  operations-All f lo zero = tt
  operations-All f lo (suc n) =
      All-append _ (operations f lo n) _
        (All-mono _ _ (λ id h. (omega arith, h.1)) (operations f lo n) (operations-All f lo n))
        (last (is_operation (f (lo + n))) refl)
    where
      last :
          (b : Bool)
          → is_operation (f (lo + n)) ≡ b
          → All (λ id. (id < lo + suc n) × (is_operation (f id) ≡ true)) (only b (lo + n))
      last true e = ((omega arith, e), tt)
      last false e = tt

  -- Jobs stay behind a collection that has moved on and kept its operations.
  IsBehind-mono :
      (k : ℕ) (before after : Collection B C) (pool : List Job)
      → before.first_id ≤ after.first_id
      → ((j : ℕ)
          → j < before.first_id
          → is_operation (after.transactions j) ≡ is_operation (before.transactions j))
      → All (IsBehind k before) pool
      → All (IsBehind k after) pool
  IsBehind-mono k before after pool h e =
      All-mono _ _ (λ job b q. All-mono _ _ (λ id t. (omega arith, e id t.0 ∙ t.1)) job.ids (b q))
        pool

  -- A push into a known collection.
  pub fill_slot-IsServed :
      (issued pool : List Job) (k : ℕ) (info : Collection B C) (fill : Info B C → Info B C)
      → IsWaiting (some (fill (entry info.transactions info.current_id)))
      → info.current_id + 1 < 2 ^ 64
      → IsServed issued pool k info
      → IsServed issued pool k (fill_slot info fill)
  fill_slot-IsServed issued pool k info fill w room v = record {
    opened = record {
      ordered = omega (arith, v.opened.ordered);
      small = omega arith;
      waits = λ j a b. elim (Bool-cases (info.current_id == j)) [
        | inl here ↦ rw here w
        | inr other ↦ rw other (v.opened.waits j a (ground arith))
      ];
    };
    served =
        v.served
        ∙ operations-is_operation _ _ 0 info.first_id (λ j a b.
          ap is_operation (rw (==_ne info.current_id j (omega (arith, v.opened.ordered)))));
    behind =
        IsBehind-mono k info (fill_slot info fill) pool (omega arith)
          (λ j h. ap is_operation (rw (==_ne info.current_id j (omega (arith, v.opened.ordered)))))
          v.behind;
    plain = λ j. elim (Bool-cases (info.current_id == j)) [
      | inl here ↦ rw here (λ _. w.1)
      | inr other ↦ rw other (v.plain j)
    ];
  }

  -- The walk of `update` over a collection.
  pub Moved-IsServed :
      (issued pool jobs : List Job) (k : ℕ) (before after : Collection B C)
      → Moved jobs k before after
      → IsServed issued pool k before
      → IsServed (issued ++ jobs) (pool ++ jobs) k after
  Moved-IsServed issued pool jobs k before after m v = record {
    opened = m.still_open;
    served =
        ids_for-append k issued jobs
        ∙ ap₂ ◌++◌ v.served m.carried
        ∙ sym (operations-extend before.transactions before.first_id m.count)
        ∙ operations-cong _ _ 0 _ (λ j a b. sym (m.payloads j))
        ∙ ap (operations after.transactions 0) (sym m.moved);
    behind =
        All-append _ pool jobs
          (IsBehind-mono k before after pool (omega (arith, m.moved))
            (λ j _. is_operation-cong _ _ (m.payloads j)) v.behind)
          (IsBehind-ids_for k after jobs (
            subst (All (IsTaken after)) (sym m.carried) (
              All-mono _ _
                (λ id h. (omega (arith, m.moved), is_operation-cong _ _ (m.payloads id) ∙ h.1))
                (operations before.transactions before.first_id m.count)
                (operations-All before.transactions before.first_id m.count))));
    plain = λ j. IsPlain-cong _ _ (sym (m.payloads j)) (v.plain j);
  }

  -- A run of a job of the pool, which leaves the pool shorter.
  pub Ran-IsServed :
      (issued before after : List Job) (job : Job) (k : ℕ) (info : Collection B C)
      (entries : ℕ → Option (Info B C))
      → job.collection ≡ k
      → Frames job.ids info.transactions entries
      → IsServed issued (before ++ job ∷ after) k info
      → IsServed issued (before ++ after) k (record info { transactions = entries })
  Ran-IsServed issued before after job k info entries e r v =
      let rest = All-split _ before (job ∷ after) v.behind in
      record {
        opened = record {
          ordered = v.opened.ordered;
          small = v.opened.small;
          waits = λ j a b.
              subst IsWaiting
                (sym (r.outside j (All-mono _ _ (λ id h. omega (arith, h.0)) job.ids (rest.1.0 e))))
                (v.opened.waits j a b);
        };
        served =
            v.served ∙ operations-is_operation _ _ 0 info.first_id (λ j a b. sym (r.operation j));
        behind =
            IsBehind-mono k info (record info { transactions = entries }) (before ++ after)
              (omega arith) (λ j _. r.operation j) (All-append _ before after rest.0 rest.1.1);
        plain = λ j. elim (Bool-cases (is_operation (info.transactions j))) [
          | inl op ↦ IsPlain-operation (entries j) (r.operation j ∙ op)
          | inr dep ↦
              subst IsPlain (sym (r.outside j (All-mono _ _ (apart j dep) job.ids (rest.1.0 e))))
                (v.plain j)
        ];
      }
    where
      apart :
          (j : ℕ) → is_operation (info.transactions j) ≡ false → (id : ℕ) → IsTaken info id → id ≢ j
      apart j dep id h q =
          false≢true (sym dep ∙ sym (ap (λ i. is_operation (info.transactions i)) q) ∙ h.1)

  pub drop-IsServed :
      (issued before after : List Job) (job : Job) (k : ℕ) (info : Collection B C)
      → IsServed issued (before ++ job ∷ after) k info
      → IsServed issued (before ++ after) k info
  drop-IsServed issued before after job k info v =
      let rest = All-split _ before (job ∷ after) v.behind in
      record {
        opened = v.opened;
        served = v.served;
        behind = All-append _ before after rest.0 rest.1.1;
        plain = v.plain;
      }
