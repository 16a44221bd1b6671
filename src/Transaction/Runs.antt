-- ===== src/Transaction/Runs.antt =====
-- What running a job of database/transaction.hpp leaves of the entries.
use sekkeizu.Base.{
  ℕ, ◌≡◌, ◌≢◌, refl, sym, ap, ◌∙◌, Bool, true, false, Option, none, some, List, [], ◌∷◌, arith, All,
  write, find, replace, ==_ne, subst,
}
use sekkeizu.Database.Defs.{Database, get_collection}
use sekkeizu.Transaction.Types.{Info, Collection, Transaction, Job}
use sekkeizu.Transaction.Jobs.{
  Command, Sent, ◌>>=◌, command_of, queue_bulk, queue_all, finish_all, call_all, run_on, run_job,
  flag_done,
}
use sekkeizu.Transaction.Window.{is_operation}

pub >>=-eq-some {ℓ κ} :
    {A : Type ℓ} {B : Type κ} (m : Option A) (f : A → Option B) {b : B}
    → (m >>= f) ≡ some b
    → (a : A) × (m ≡ some a) × (f a ≡ some b)
>>=-eq-some (some a) f h = (a, refl, h)
>>=-eq-some none f h = cc

some-injective {ℓ} : {A : Type ℓ} {a b : A} → some a ≡ some b → a ≡ b
some-injective e = cc

module _ {B C : Type 0} where
  -- Entries outside `ids` are untouched, and no entry changes whether it is an operation.
  pub record Frames (ids : List ℕ) (f g : ℕ → Option (Info B C)) : Type 0 where
    pub outside : (j : ℕ) → All (λ id. id ≢ j) ids → g j ≡ f j
    pub operation : (j : ℕ) → is_operation (g j) ≡ is_operation (f j)

  Frames-refl : (f : ℕ → Option (Info B C)) → Frames [] f f
  Frames-refl f = record { outside = λ j h. refl; operation = λ j. refl }

  -- Several loops over the same ids.
  Frames-trans :
      (ids : List ℕ) (f g h : ℕ → Option (Info B C))
      → Frames ids f g
      → Frames ids g h
      → Frames ids f h
  Frames-trans ids f g h a b = record {
    outside = λ j n. b.outside j n ∙ a.outside j n;
    operation = λ j. b.operation j ∙ a.operation j;
  }

  -- One round that writes an entry with the same dependency, then the rounds behind it.
  Frames-write :
      (id : ℕ) (ids : List ℕ) (t u : Info B C) (f g : ℕ → Option (Info B C))
      → f id ≡ some t
      → u.dependency ≡ t.dependency
      → Frames ids (write f id u) g
      → Frames (id ∷ ids) f g
  Frames-write id ids t u f g e d r = record {
    outside = λ j n. r.outside j n.1 ∙ rw (==_ne id j n.0);
    operation = λ j. r.operation j ∙ ground arith;
  }

  queue_bulk_lem :
      (id : ℕ) (f g : ℕ → Option (Info B C)) (command : Command B C)
      → queue_bulk f id ≡ some (command, g)
      → (t : Info B C) × (f id ≡ some t)
        × (g ≡ write f id (record t { operation_op_1 = none; operation_op_2 = none }))
  unfolding queue_bulk
  queue_bulk_lem id f g command e =
      let (t, here, e₁) = >>=-eq-some (f id) _ e in
      let (c, _, e₂) = >>=-eq-some (command_of t.type t.operation_op_1 t.operation_op_2) _ e₁ in
      let (_, _, e₃) = >>=-eq-some t.operation_op_1 _ e₂ in
      let (_, _, e₄) = >>=-eq-some t.operation_op_2 _ e₃ in
      (t, here, ap (λ (p : Command B C × (ℕ → Option (Info B C))). p.1) (some-injective (sym e₄)))

  pub queue_all-Frames :
      (ids : List ℕ) (f g : ℕ → Option (Info B C)) (commands : List (Command B C))
      → queue_all ids f ≡ some (commands, g)
      → Frames ids f g
  unfolding queue_all
  queue_all-Frames [] f g commands e = subst (Frames [] f) (cc) (Frames-refl f)
  queue_all-Frames (id ∷ ids) f g commands e =
      let (p, e₁, e₂) = >>=-eq-some (queue_bulk f id) _ e in
      let (q, e₃, e₄) = >>=-eq-some (queue_all ids p.1) _ e₂ in
      let (t, here, wrote) = queue_bulk_lem id f p.1 p.0 e₁ in
      let behind : Frames ids p.1 g = queue_all-Frames ids p.1 g q.0 (e₃ ∙ ground arith) in
      Frames-write id ids t _ f g here refl (subst (λ h. Frames ids h g) wrote behind)

  finish_all-Frames :
      (ids : List ℕ) (f g : ℕ → Option (Info B C)) → finish_all ids f ≡ some g → Frames ids f g
  unfolding finish_all
  finish_all-Frames [] f g e = subst (Frames [] f) (cc) (Frames-refl f)
  finish_all-Frames (id ∷ ids) f g e =
      let (t, here, e₁) = >>=-eq-some (f id) _ e in
      Frames-write id ids t (flag_done t) f g here refl (finish_all-Frames ids _ g e₁)

  call_all-Frames :
      (ids : List ℕ) (f g : ℕ → Option (Info B C)) (commands : List (Command B C))
      → call_all ids f ≡ some (commands, g)
      → Frames ids f g
  unfolding call_all
  call_all-Frames [] f g commands e = subst (Frames [] f) (cc) (Frames-refl f)
  call_all-Frames (id ∷ ids) f g commands e =
      let (t, here, e₁) = >>=-eq-some (f id) _ e in
      let (_, _, e₂) = >>=-eq-some t.callable _ e₁ in
      let (q, e₃, e₄) = >>=-eq-some (call_all ids (write f id (flag_done t))) _ e₂ in
      Frames-write id ids t (flag_done t) f g here refl
        (call_all-Frames ids _ g q.0 (e₃ ∙ ground arith))

  run_on-Frames :
      (bulk : Bool) (ids : List ℕ) (f g : ℕ → Option (Info B C)) (commands : List (Command B C))
      → run_on bulk ids f ≡ some (commands, g)
      → Frames ids f g
  unfolding run_on
  run_on-Frames true ids f g commands e =
      let (p, e₁, e₂) = >>=-eq-some (queue_all ids f) _ e in
      let (h, e₃, e₄) = >>=-eq-some (finish_all ids p.1) _ e₂ in
      Frames-trans ids f p.1 g (queue_all-Frames ids f p.1 p.0 e₁)
        (finish_all-Frames ids p.1 g (e₃ ∙ ground arith))
  run_on-Frames false ids f g commands e = call_all-Frames ids f g commands e

  -- What a run does to the object.
  pub record Ran (job : Job) (t u : Transaction B C) : Type 0 where
    pub before : Collection B C
    pub entries : ℕ → Option (Info B C)
    pub known : find job.collection t.collections ≡ some before
    pub written : u ≡ record t {
      collections = replace job.collection (record before { transactions = entries }) t.collections;
    }
    pub frames : Frames job.ids before.transactions entries

  pub run_job-Ran {ℓ} :
      {J : Type ℓ} (database : Database J) (job : Job) (t u : Transaction B C) (sent : Sent B C)
      → run_job database job t ≡ some (sent, u)
      → Ran job t u
  unfolding run_job
  run_job-Ran database job t u sent e =
      let (name, e₁, e₂) = >>=-eq-some (get_collection database job.collection) _ e in
      let (info, e₃, e₄) = >>=-eq-some (find job.collection t.collections) _ e₂ in
      let (p, e₅, e₆) = >>=-eq-some (run_on job.bulk job.ids info.transactions) _ e₄ in
      record {
        before = info;
        entries = p.1;
        known = e₃;
        written = ap (λ (q : Sent B C × Transaction B C). q.1) (some-injective (sym e₆));
        frames = run_on-Frames job.bulk job.ids info.transactions p.1 p.0 e₅;
      }
