-- ===== src/Database/Session.antt =====
-- A session of database/database.hpp: calls of `ensure_creation`, and their jobs in whatever order the
-- pool takes them.
use Prim.Native.String.{String}
use sekkeizu.Base.{ℕ, ◌≡◌, ◌≢◌, Option, some, List, [], ◌∷◌, ◌++◌, map, All}
use sekkeizu.Database.Defs.{Database, add_collection}
use sekkeizu.Database.Ids.{CipherApi}
use sekkeizu.Database.Jobs.{
  ServerApi, ClientPoolApi, BsonApi, CreateJob, Store, run_executed, create, Call, ensure_creation,
}

-- A document that a job put on the server, for a callback.
pub record Created (D : Type 0) : Type 0 where
  pub database : String
  pub collection : String
  pub id : ℕ
  pub body : D
  pub callback : Option ℕ

abbrev pub call_of : {D : Type 0} → Created D → Option ℕ × ℕ
call_of c = (c.callback, c.id)

-- Two documents of one collection have different ids.
abbrev pub Differ : {D : Type 0} → Created D → Created D → Type 0
Differ c e = c.database ≡ e.database → c.collection ≡ e.collection → c.id ≢ e.id

abbrev pub AllDiffer : {D : Type 0} → List (Created D) → Type 0
AllDiffer [] = Unit
AllDiffer (c ∷ cs) = All (Differ c) cs × AllDiffer cs

module _ {S D : Type 0} (server : ServerApi S D) where
  abbrev pub IsKept : S → S → Type 0
  IsKept s s' =
      (database name : String) (id : ℕ) (old : D)
      → server.has_id database name id s ≡ some old
      → server.has_id database name id s' ≡ some old

  abbrev pub IsThere : S → Created D → Type 0
  IsThere s c = server.has_id c.database c.collection c.id s ≡ some c.body

module _ {S P E M D : Type 0} (cipher : CipherApi E) (server : ServerApi S D) (bson : BsonApi M D)
    (pool : ClientPoolApi P) where
  -- A call, a job of the pool that runs to its end, a collection that is added, or documents that others
  -- insert.
  pub data Step (db : Database CreateJob) (s : Store S P E M) (db' : Database CreateJob)
      (s' : Store S P E M) : Type 0 where
    calls :
        (call : Call)
        → db' ≡ (ensure_creation bson call db s).0
        → s' ≡ (ensure_creation bson call db s).1
        → Step db s db' s'
    runs :
        (readings : List ℕ) (before after : List CreateJob) (job : CreateJob)
        → db.fiber_pool ≡ before ++ job ∷ after
        → db' ≡ record db { fiber_pool = before ++ after }
        → run_executed pool (create cipher server bson readings db' job) s ≡ some s'
        → Step db s db' s'
    adds : (key : ℕ) (name : String) → db' ≡ add_collection db key name → s' ≡ s → Step db s db' s'
    others :
        (inserted : S)
        → IsKept server s.server inserted
        → db' ≡ db
        → s' ≡ record s { server = inserted }
        → Step db s db' s'

  pub data Reach : Database CreateJob → Store S P E M → Type 0 where
    start : (db : Database CreateJob) (s : Store S P E M) → s.called ≡ [] → Reach db s
    next :
        {db db' : Database CreateJob} {s s' : Store S P E M}
        → Reach db s
        → Step db s db' s'
        → Reach db' s'

  -- The documents behind the calls of callbacks.
  pub record Recorded (s : Store S P E M) : Type 0 where
    pub created : List (Created D)
    pub in_order : map call_of created ≡ s.called
    pub there : All (IsThere server s.server) created
    pub differ : AllDiffer created
