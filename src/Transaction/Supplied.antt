-- ===== src/Transaction/Supplied.antt =====
-- The jobs of database/transaction.hpp run to their end in every state.
use sekkeizu.Base.{
  ℕ, ◌≡◌, refl, sym, ap, subst, ◌∙◌, true, some, List, [], ◌∷◌, ◌++◌, arith, All, All-append,
  All-mono, All-split, replace, has, Each, Each-find, Each-replace, Each-Along, Each-mono, Along,
}
use sekkeizu.Database.Defs.{Database}
use sekkeizu.Transaction.Types.{Info, Transaction, Job}
use sekkeizu.Transaction.Moved.{Moved}
use sekkeizu.Transaction.Runs.{Ran}
use sekkeizu.Transaction.Sends.{Sends}
use sekkeizu.Transaction.System.{System, HasRoom}
use sekkeizu.Transaction.Invariant.{IsServed, Inv}
use sekkeizu.Transaction.Steps.{Pushed}
use sekkeizu.Transaction.Supply.{
  IsStocked, IsSupplied, fill_slot-IsSupplied, Moved-IsSupplied, Ran-IsSupplied, drop-IsSupplied,
}

module _ {V : Type 0} where
  has-replace : (j k : ℕ) (v : V) (m : List (ℕ × V)) → has j (replace k v m) ≡ has j m
  has-replace j k v [] = refl
  has-replace j k v ((i, w) ∷ m) = ground (arith, has-replace j k v m)

  Each-both :
      (P Q : ℕ → V → Type 0) (m : List (ℕ × V))
      → Each P m
      → Each Q m
      → Each (λ k v. P k v × Q k v) m
  Each-both P Q [] p q = tt
  Each-both P Q ((k, v) ∷ m) p q = ((p.0, q.0), Each-both P Q m p.1 q.1)

  has-Along :
      (R : ℕ → V → V → Type 0) (j : ℕ) (m n : List (ℕ × V)) → Along R m n → has j n ≡ has j m
  has-Along R j [] [] a = refl
  has-Along R j [] (_ ∷ _) a = absurd a
  has-Along R j (_ ∷ _) [] a = absurd a
  has-Along R j ((i, v) ∷ m) ((k, w) ∷ n) a = ground (arith, a.0.0, has-Along R j m n a.1)

module _ {B C : Type 0} where
  -- Each collection is supplied and has a name, and each job is for one of them.
  pub record Supplied (s : System B C) : Type 0 where
    pub each : Each (IsSupplied s.database.fiber_pool) s.self.collections
    pub named : Each (λ k _. has k s.database.collections_map ≡ true) s.self.collections
    pub targets :
        All (λ (job : Job). has job.collection s.self.collections ≡ true) s.database.fiber_pool

  pub Pushed-Supplied :
      (s : System B C) (t : Transaction B C) (k slot : ℕ) (fill : Info B C → Info B C)
      → Pushed s.self t k slot fill
      → ((i : Info B C) → IsStocked (some (fill i)))
      → HasRoom s.self k
      → Inv s
      → Supplied s
      → Supplied (record s { self = t })
  Pushed-Supplied s t k slot fill p stock room w v =
      let served = Each-find _ k p.info s.self.collections p.known w.each in
      record {
        each = subst (Each _) (sym p.written) (
            Each-replace _ k _ s.self.collections
              (fill_slot-IsSupplied s.issued s.database.fiber_pool k p.info fill (stock _)
                (room p.info p.known) served
                (Each-find _ k p.info s.self.collections p.known v.each))
              v.each);
        named = subst (Each _) (sym p.written) (
            Each-replace _ k _ s.self.collections
              (Each-find _ k p.info s.self.collections p.known v.named) v.named);
        targets =
            All-mono _ _
              (λ (job : Job) (h : has job.collection s.self.collections ≡ true).
                ap (has job.collection) p.written
                ∙ has-replace job.collection k _ s.self.collections
                ∙ h)
              s.database.fiber_pool v.targets;
      }

  pub Sends-Supplied :
      (s : System B C) (t : Transaction B C) (database : Database Job) (jobs : List Job)
      → Sends s.self.collections s.database t.collections database
      → database.fiber_pool ≡ s.database.fiber_pool ++ jobs
      → Inv s
      → Supplied s
      → Supplied (record { self = t; database = database; issued = s.issued ++ jobs })
  Sends-Supplied s t database jobs h pool w v =
      let cs = s.self.collections in
      let sent = ap (λ (d : Database Job). d.fiber_pool) h.pushed in
      let names = ap (λ (d : Database Job). d.collections_map) h.pushed in
      record {
        each =
            subst (λ p. Each (IsSupplied p) t.collections) (sym sent)
              (Each-Along _ _ _
                (λ k before after m both.
                  Moved-IsSupplied s.issued s.database.fiber_pool h.jobs k before after m both.0
                    both.1)
                cs t.collections h.along (Each-both _ _ cs w.each v.each));
        named =
            subst (λ m. Each (λ k _. has k m ≡ true) t.collections) (sym names)
              (Each-Along (λ k _. has k s.database.collections_map ≡ true) _ _
                (λ k before after m q. q) cs t.collections h.along v.named);
        targets = subst (All (λ (job : Job). has job.collection t.collections ≡ true)) (sym sent) (
            All-mono _ _
              (λ (job : Job) (q : has job.collection cs ≡ true).
                has-Along (Moved h.jobs) job.collection cs t.collections h.along ∙ q)
              (s.database.fiber_pool ++ h.jobs)
              (All-append _ s.database.fiber_pool h.jobs v.targets h.targets));
      }

  pub runs-Supplied :
      (s : System B C) (before after : List Job) (job : Job) (t : Transaction B C)
      → s.database.fiber_pool ≡ before ++ job ∷ after
      → Ran job s.self t
      → Inv s
      → Supplied s
      → Supplied
          (record s { self = t; database = record (s.database) { fiber_pool = before ++ after } })
  runs-Supplied s before after job t pool r w v =
      let cs = s.self.collections in
      let served = subst (λ p. Each (IsServed s.issued p) cs) pool w.each in
      let each = subst (λ p. Each (IsSupplied p) cs) pool v.each in
      let targets = All-split _ before (job ∷ after) (subst (All _) pool v.targets) in
      let collections = ap (λ (u : Transaction B C). u.collections) r.written in
      let k = job.collection in
      record {
        each = subst (Each _) (sym collections) (
            Each-replace _ k _ cs
              (Ran-IsSupplied s.issued before after job k r.before r.entries refl r.frames
                (Each-find _ k r.before cs r.known served) (Each-find _ k r.before cs r.known each))
              (Each-mono _ _ (λ j info q. drop-IsSupplied before after job j info q) cs each));
        named =
            subst (Each _) (sym collections)
              (Each-replace _ k _ cs (Each-find _ k r.before cs r.known v.named) v.named);
        targets =
            All-mono _ _
              (λ (other : Job) (h : has other.collection cs ≡ true).
                ap (has other.collection) collections ∙ has-replace other.collection k _ cs ∙ h)
              (before ++ after) (All-append _ before after targets.0 targets.1.1);
      }
