-- ===== src/Transaction/Handover.antt =====
-- An `update` of database/transaction.hpp that is due hands on work.
use sekkeizu.Base.{
  ℕ, zero, suc, ◌+◌, ◌<◌, ◌≡◌, ◌≢◌, refl, sym, ap, subst, ◌∙◌, true, false, ◌&&◌, Option, some,
  List, [], ◌∷◌, ◌++◌, arith, All, ◌==◌, ==_iff, ltb, add64, append_assoc, Distinct, Each-mono,
}
use sekkeizu.Database.Defs.{Database, execute}
use sekkeizu.Transaction.Types.{BsonApi, Info, Collection, Transaction, Job}
use sekkeizu.Transaction.Pending.{get_pending_operations}
use sekkeizu.Transaction.Update.{send_pending, update_operations, update}
use sekkeizu.Transaction.Window.{is_operation, operations, only}
use sekkeizu.Transaction.Batch.{
  IsOpen, Takes, Stops, get_pending_operations-Takes, get_pending_operations-Stops,
}
use sekkeizu.Transaction.Moved.{AllOpen}
use sekkeizu.Transaction.Sends.{send_pending-Sends}
use sekkeizu.Transaction.System.{System, Reach}
use sekkeizu.Transaction.Initial.{Reach-Inv}

-- What the walk pushes first.
pub record Starts (k first : ℕ) (before after : Database Job) : Type 0 where
  pub job : Job
  pub more : List Job
  pub ids : List ℕ
  pub pushed : after.fiber_pool ≡ before.fiber_pool ++ job ∷ more
  pub target : job.collection ≡ k
  pub carries : job.ids ≡ first ∷ ids

execute-connected :
    (database : Database Job) (job : Job)
    → database.is_connected ≡ true
    → execute database job ≡ record database { fiber_pool = database.fiber_pool ++ job ∷ [] }
unfolding execute
execute-connected database job c = ground arith

module _ {B C : Type 0} where
  operations-first :
      (f : ℕ → Option (Info B C)) (lo n : ℕ)
      → is_operation (f lo) ≡ true
      → (ids : List ℕ) × (operations f lo (suc n) ≡ lo ∷ ids)
  unfolding operations
  operations-first f lo zero op = let e : lo + 0 ≡ lo = omega arith in ([], rw (e, op) refl)
  operations-first f lo (suc n) op =
      let (ids, e) = operations-first f lo n op in
      (
        ids ++ only (is_operation (f (lo + suc n))) (lo + suc n),
        ap (λ l. l ++ only (is_operation (f (lo + suc n))) (lo + suc n)) e,
      )

  no_operations : (f : ℕ → Option (Info B C)) (lo : ℕ) → operations f lo 0 ≡ []
  unfolding operations
  no_operations f lo = refl

  module _ (getter : ℕ → Option (Transaction B C)) where
    passes :
        (counter k n : ℕ) (info : Collection B C)
        → Takes getter counter k info n
        → info.first_id < info.current_id
        → is_operation (info.transactions info.first_id) ≡ true
        → Stops getter counter k info
        → n ≢ 0
    passes counter k n info t busy op (Stops.at_end e) none_passed =
        absurd (omega (arith, t.moved, e))
    passes counter k n info t busy op (Stops.at_dependency u d here dependent _) none_passed =
        let same : (get_pending_operations getter counter k info).info.first_id ≡ info.first_id =
          omega (arith, t.moved) in
        let there : info.transactions info.first_id ≡ some u =
          ap info.transactions (sym same) ∙ here in
        absurd (ground arith)
    passes counter k n info t busy op (Stops.at_other_kind taken _) none_passed = taken (
        t.taken
        ∙ ap (operations info.transactions info.first_id) none_passed
        ∙ no_operations info.transactions info.first_id)

    -- A scan whose first entry is an operation takes it.
    batch-first :
        (counter k : ℕ) (info : Collection B C)
        → IsOpen info
        → info.first_id < info.current_id
        → is_operation (info.transactions info.first_id) ≡ true
        → (ids : List ℕ) × ((get_pending_operations getter counter k info).transactions
            ≡ info.first_id ∷ ids)
    batch-first counter k info o busy op =
        let (n, t) = get_pending_operations-Takes getter counter k info o in
        elim n
            as (λ m.
              m ≡ n
              → (ids : List ℕ) × ((get_pending_operations getter counter k info).transactions
                  ≡ info.first_id ∷ ids)) [
                    | zero ↦ λ e. absurd (
                        passes counter k n info t busy op
                          (get_pending_operations-Stops getter counter k info o) (sym e))
                    | suc m ↦ λ e.
                        let (ids, first) = operations-first info.transactions info.first_id m op in
                        (
                          ids,
                          t.taken ∙ ap (operations info.transactions info.first_id) (sym e) ∙ first,
                        )
                  ]
          refl

    send_pending-Starts :
        (idle rest : List (ℕ × Collection B C)) (k counter : ℕ) (info : Collection B C)
        (database : Database Job)
        → All (λ (c : ℕ × Collection B C). c.1.first_id ≡ c.1.current_id) idle
        → info.first_id < info.current_id
        → is_operation (info.transactions info.first_id) ≡ true
        → AllOpen (idle ++ (k, info) ∷ rest)
        → Distinct (idle ++ (k, info) ∷ rest)
        → database.is_connected ≡ true
        → Starts k info.first_id database
            (send_pending getter (idle ++ (k, info) ∷ rest) counter database).2
    unfolding send_pending
    send_pending-Starts ((j, quiet) ∷ idle) rest k counter info database q busy op o d c =
        let skip : (quiet.first_id == quiet.current_id) ≡ true =
          (==_iff quiet.first_id quiet.current_id).1 q.0 in
        rw (skip, send_pending)
          (send_pending-Starts idle rest k counter info database q.1 busy op o.1 d.1 c)
    send_pending-Starts [] rest k counter info database q busy op o d c =
        let got = get_pending_operations getter counter k info in
        let job : Job = record {
          collection = k;
          ids = got.transactions;
          bulk = got.has_non_callable;
        } in
        let (ids, first) = batch-first counter k info o.0 busy op in
        let walk : (info.first_id == info.current_id) ≡ false =
          ground (arith, ==_iff info.first_id info.current_id, busy) in
        let next : Database Job = record database {
          fiber_pool = database.fiber_pool ++ job ∷ [];
        } in
        let same : execute database job ≡ next = execute-connected database job c in
        let h = send_pending-Sends getter rest got.pending_callables next o.1 d.1 c in
        let later : (send_pending getter rest got.pending_callables
              (execute database job)).2.fiber_pool
            ≡ database.fiber_pool ++ job ∷ h.jobs =
          ap (λ b. (send_pending getter rest got.pending_callables b).2.fiber_pool) same
          ∙ ap (λ (b : Database Job). b.fiber_pool) h.pushed
          ∙ append_assoc database.fiber_pool (job ∷ []) h.jobs in
        rw (walk, first, send_pending)
          (record {
            job = job;
            more = h.jobs;
            ids = ids;
            pushed = later;
            target = refl;
            carries = first;
          })

  -- In every reachable state an update that is due, of an object that is not flagged, hands on work: when the
  -- walk first meets waiting entries in a collection whose first one is an operation, the first new job of
  -- the pool is one for that collection, and begins with that operation.
  pub update-Starts :
      {api : BsonApi B} {s : System B C}
      → Reach api s
      → (diff : ℕ) (getter : ℕ → Option (Transaction B C)) (idle rest : List (ℕ × Collection B C))
        (k : ℕ) (info : Collection B C)
      → s.self.flagged ≡ false
      → (s.self.pending_callables == 0
          && ltb (add64 s.self.since_last_execution diff) s.self.execute_every)
        ≡ false
      → s.self.collections ≡ idle ++ (k, info) ∷ rest
      → All (λ (c : ℕ × Collection B C). c.1.first_id ≡ c.1.current_id) idle
      → info.first_id < info.current_id
      → is_operation (info.transactions info.first_id) ≡ true
      → let out = update diff s.database getter s.self in
        (out.0 ≡ true) × Starts k info.first_id s.database out.2
  unfolding update update_operations
  update-Starts {api} {s} r diff getter idle rest k info unflagged due split quiet busy op =
      let v = Reach-Inv r in
      let opened = Each-mono _ _ (λ j i w. w.opened) s.self.collections v.each in
      let walked =
        send_pending-Starts getter idle rest k s.self.pending_callables info s.database quiet busy
          op (subst AllOpen split opened) (subst Distinct split v.distinct) v.connected in
      rw (unflagged, due)
        (
          refl,
          subst
              (λ cs.
                Starts k info.first_id s.database
                  (send_pending getter cs s.self.pending_callables s.database).2)
              (sym split) walked,
        )
