-- ===== src/Transaction/Sends.antt =====
-- The walk of `update` in database/transaction.hpp over the collections: what reaches the database.
use sekkeizu.Base.{
  ℕ, ◌≡◌, refl, sym, ◌∙◌, inl, inr, true, Option, List, [], ◌∷◌, ◌++◌, arith, ◌==◌, append-nil,
  append_assoc, Bool-cases, List-cases, Avoids, Distinct, Along, All, All-mono, has, ==_self,
}
use sekkeizu.Database.Defs.{Database, execute}
use sekkeizu.Transaction.Types.{Collection, Transaction, Job}
use sekkeizu.Transaction.Pending.{Pending, get_pending_operations}
use sekkeizu.Transaction.Batch.{IsOpen, get_pending_operations-Takes}
use sekkeizu.Transaction.Update.{send_pending}
use sekkeizu.Transaction.Moved.{
  ids_for, ids_for_self, ids_for_other, AllOpen, Moved, Moved-idle, Along-idle, Along-other,
  Moved-batch, AreKind-none,
}

module _ {B C : Type 0} where
  -- The outcome of a walk: the jobs that it pushes, and what it leaves of the collections.
  pub record Sends (cs : List (ℕ × Collection B C)) (database : Database Job)
      (left : List (ℕ × Collection B C)) (after : Database Job) : Type 0 where
    pub jobs : List Job
    pub pushed : after ≡ record database { fiber_pool = database.fiber_pool ++ jobs }
    pub along : Along (Moved jobs) cs left
    pub none_else : (k : ℕ) → Avoids k cs → ids_for k jobs ≡ []
    pub targets : All (λ (job : Job). has job.collection cs ≡ true) jobs

  has-behind :
      (j k : ℕ) (info : Collection B C) (cs : List (ℕ × Collection B C))
      → has j cs ≡ true
      → has j ((k, info) ∷ cs) ≡ true
  has-behind j k info cs h = ground arith

  pub Sends-kept :
      (cs : List (ℕ × Collection B C)) (database : Database Job)
      → AllOpen cs
      → Sends cs database cs database
  unfolding ids_for
  Sends-kept cs database o = record {
    jobs = [];
    pushed = simp append-nil;
    along = Along-idle [] cs o (λ _. refl);
    none_else = λ k a. refl;
    targets = tt;
  }

  module _ (getter : ℕ → Option (Transaction B C)) where
    -- One collection, and the walk over the others.
    module _ (k counter : ℕ) (info : Collection B C) (cs : List (ℕ × Collection B C))
        (database : Database Job) (o : IsOpen info) where
      abbrev got : Pending B C
      got = get_pending_operations getter counter k info

      abbrev job : Job
      job = record { collection = k; ids = got.transactions; bulk = got.has_non_callable }

      Sends-idle :
          (rest : List (ℕ × Collection B C)) (after : Database Job)
          → Avoids k cs
          → Sends cs database rest after
          → Sends ((k, info) ∷ cs) database ((k, info) ∷ rest) after
      Sends-idle rest after a h = record {
        jobs = h.jobs;
        pushed = h.pushed;
        along = ((refl, Moved-idle h.jobs k info o (h.none_else k a)), h.along);
        none_else = λ j b. h.none_else j b.1;
        targets = All-mono _ _ (λ j t. has-behind j.collection k info cs t) h.jobs h.targets;
      }

      Sends-stopped :
          AllOpen cs
          → got.transactions ≡ []
          → Sends ((k, info) ∷ cs) database ((k, got.info) ∷ cs) database
      unfolding ids_for
      Sends-stopped os e = record {
        jobs = [];
        pushed = simp append-nil;
        along = (
          (refl, Moved-batch getter k counter info o [] (sym e) tt),
          Along-idle [] cs os (λ _. refl),
        );
        none_else = λ j b. refl;
        targets = tt;
      }

      Sends-sent :
          (rest : List (ℕ × Collection B C)) (after : Database Job)
          → Avoids k cs
          → database.is_connected ≡ true
          → Sends cs (execute database job) rest after
          → Sends ((k, info) ∷ cs) database ((k, got.info) ∷ rest) after
      unfolding execute
      Sends-sent rest after a c h = record {
        jobs = job ∷ h.jobs;
        pushed = h.pushed ∙ rw c (rw append_assoc);
        along = (
          (
            refl,
            Moved-batch getter k counter info o (job ∷ h.jobs)
                (ids_for_self k job h.jobs refl (h.none_else k a))
                (
                  (λ _. (get_pending_operations-Takes getter counter k info o).1.one_kind),
                  AreKind-none k info h.jobs (h.none_else k a),
                ),
          ),
          Along-other job h.jobs cs rest a h.along,
        );
        none_else = λ j b. ids_for_other j job h.jobs b.0 ∙ h.none_else j b.1;
        targets = (
          ground (arith, ==_self k),
          All-mono _ _ (λ j t. has-behind j.collection k info cs t) h.jobs h.targets,
        );
      }

    connected-execute :
        (database : Database Job) (job : Job)
        → database.is_connected ≡ true
        → (execute database job).is_connected ≡ true
    unfolding execute
    connected-execute database job c = ground arith

    pub send_pending-Sends :
        (cs : List (ℕ × Collection B C)) (counter : ℕ) (database : Database Job)
        → AllOpen cs
        → Distinct cs
        → database.is_connected ≡ true
        → let sent = send_pending getter cs counter database in Sends cs database sent.0 sent.2
    unfolding send_pending ids_for
    send_pending-Sends [] counter database o d c = record {
      jobs = [];
      pushed = simp append-nil;
      along = tt;
      none_else = λ k a. refl;
      targets = tt;
    }
    send_pending-Sends ((k, info) ∷ cs) counter database o d c =
        elim (Bool-cases (info.first_id == info.current_id)) [
          | inl idle ↦
              rw (idle, send_pending)
                (Sends-idle k counter info cs database o.0 _ _ d.0
                  (send_pending-Sends cs counter database o.1 d.1 c))
          | inr busy ↦ elim (List-cases (got k counter info cs database o.0).transactions) [
            | inl empty ↦
                rw (busy, empty, send_pending)
                  (Sends-stopped k counter info cs database o.0 o.1 empty)
            | inr (x, xs, some_taken) ↦
                rw (busy, some_taken, send_pending)
                  (Sends-sent k counter info cs database o.0 _ _ d.0 c
                    (send_pending-Sends cs _ _ o.1 d.1 (connected-execute database _ c)))
          ]
        ]
