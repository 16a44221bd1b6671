-- ===== src/Transaction/Update.antt =====
-- `init`, `update`, `flag_deletion` and `unflag_deletion` of database/transaction.hpp.
use sekkeizu.Base.{
  ℕ, Bool, true, false, ◌&&◌, Option, none, some, List, [], ◌∷◌, find, ◌==◌, ltb, if◌then◌else◌,
  dec64, add64,
}
use sekkeizu.Database.Defs.{Database, execute, get_all_collections}
use sekkeizu.Transaction.Types.{Collection, new_collection, Transaction, Job}
use sekkeizu.Transaction.Pending.{get_pending_operations}

module _ {B C : Type 0} where
  -- `emplace` of a new collection at each registered key that is not there yet; the place of a new
  -- key in the walk of the hash map is not specified, and the front stands for it.
  unfoldable pub emplace_all {κ} :
      {N : Type κ} → List (ℕ × N) → List (ℕ × Collection B C) → List (ℕ × Collection B C)
  emplace_all [] collections = collections
  emplace_all ((key, name) ∷ names) collections = emplace_all names (elim (find key collections) [
    | none ↦ (key, new_collection) ∷ collections
    | some _ ↦ collections
  ])

  -- The loop that clears the collections that are kept.
  unfoldable pub clear_all : List (ℕ × Collection B C) → List (ℕ × Collection B C)
  clear_all [] = []
  clear_all ((key, _) ∷ cs) = (key, new_collection) ∷ clear_all cs

  unfoldable pub init {κ} : {J : Type κ} → Database J → ℕ → Transaction B C → Transaction B C
  init database execute_every self = record {
    collections = clear_all (emplace_all (get_all_collections database) self.collections);
    execute_every = execute_every;
    since_last_execution = 0;
    pending_callables = 0;
    flagged = false;
    scheduled = false;
  }

  -- One round of the loop over `can_delete`: no id is left, and the last transaction is done if
  -- there is one. The entry is looked up at `current_id - 1`, which wraps at 0.
  unfoldable pub is_finished : Collection B C → Bool
  is_finished info =
      if info.first_id == info.current_id
      then elim (info.transactions (dec64 info.current_id)) [ none ↦ true | some t ↦ t.done ]
      else false

  -- The loop, with its `break`s.
  unfoldable pub can_delete : List (ℕ × Collection B C) → Bool
  can_delete [] = true
  can_delete ((_, info) ∷ cs) = if is_finished info then can_delete cs else false

  -- The loop of `update` over the collections: what is left of the walk after each of them, with
  -- the counter of callables and the database. An empty batch ends the walk by `break`.
  unfoldable pub send_pending :
      (ℕ → Option (Transaction B C))
      → List (ℕ × Collection B C)
      → ℕ
      → Database Job
      → List (ℕ × Collection B C) × ℕ × Database Job
  send_pending getter [] pending_callables database = ([], pending_callables, database)
  send_pending getter ((collection, info) ∷ cs) pending_callables database =
      let p = get_pending_operations getter pending_callables collection info in
      let job : Job = record {
        collection = collection;
        ids = p.transactions;
        bulk = p.has_non_callable;
      } in
      let idle = send_pending getter cs pending_callables database in
      let sent = send_pending getter cs p.pending_callables (execute database job) in
      let stopped : List (ℕ × Collection B C) × ℕ × Database Job =
        ((collection, p.info) ∷ cs, p.pending_callables, database) in
      let skipped : List (ℕ × Collection B C) × ℕ × Database Job =
        ((collection, info) ∷ idle.0, idle.1, idle.2) in
      let passed : List (ℕ × Collection B C) × ℕ × Database Job =
        ((collection, p.info) ∷ sent.0, sent.1, sent.2) in
      elim (info.first_id == info.current_id) [
        | true ↦ skipped
        | false ↦ elim p.transactions [ [] ↦ stopped | _ ∷ _ ↦ passed ]
      ]

  -- The part of `update` behind the deletion check.
  unfoldable pub update_operations :
      ℕ
      → Database Job
      → (ℕ → Option (Transaction B C))
      → Transaction B C
      → Transaction B C × Database Job
  update_operations diff database getter self =
      let elapsed = add64 self.since_last_execution diff in
      let sent = send_pending getter self.collections self.pending_callables database in
      let executed : Transaction B C × Database Job = (
        record self { collections = sent.0; since_last_execution = 0; pending_callables = sent.1 },
        sent.2,
      ) in
      if self.pending_callables == 0 && ltb elapsed self.execute_every
      then (record self { since_last_execution = elapsed }, database)
      else executed

  -- `update`; the result `false` asks the caller to delete the object.
  unfoldable pub update :
      ℕ
      → Database Job
      → (ℕ → Option (Transaction B C))
      → Transaction B C
      → Bool × Transaction B C × Database Job
  update diff database getter self =
      let went = update_operations diff database getter self in
      let carry_on : Bool × Transaction B C × Database Job = (true, went.0, went.1) in
      if self.flagged
      then (if self.scheduled
          then (false, self, database)
          else (if can_delete self.collections
              then (false, record self { scheduled = true }, database)
              else carry_on))
      else carry_on

  unfoldable pub flag_deletion : Transaction B C → Transaction B C
  flag_deletion self = record self { flagged = true }

  unfoldable pub unflag_deletion : Transaction B C → Transaction B C
  unflag_deletion self = record self { flagged = false; scheduled = false }
