-- ===== src/Database/Ensure.antt =====
-- What a call of `ensure_creation` in database/database.hpp comes to, from the call to the end of its
-- job.
use Prim.Native.String.{String}
use sekkeizu.Base.{ℕ, ◌≡◌, refl, sym, ap, subst₂, ◌∙◌, true, none, some, List, [], ◌∷◌, ◌++◌}
use sekkeizu.Database.Defs.{Database, get_collection}
use sekkeizu.Database.Ids.{CipherApi, get_potentially_unique_id}
use sekkeizu.Database.Creation.{after, Refused, ensure_creation_impl-inserts}
use sekkeizu.Database.Jobs.{
  ServerApi, ClientPoolApi, BsonApi, Target, fixed, keyed, CreateJob, Store, collection_at, name_of,
  run_executed, create, Call, ensure_creation,
}
use sekkeizu.Database.Pushed.{target_of, document_of, callback_of, Lacks, ensure_creation-Pushed}

name_of_pushed :
    (db : Database CreateJob) (jobs : List CreateJob) (target : Target)
    → name_of (record db { fiber_pool = jobs }) target ≡ name_of db target
unfolding name_of get_collection
name_of_pushed db jobs (fixed name) = refl
name_of_pushed db jobs (keyed key) = refl

module _ {S P E M D : Type 0} (cipher : CipherApi E) (server : ServerApi S D) (bson : BsonApi M D)
    (pool : ClientPoolApi P) where
  -- The job of a call runs to its end: the document is on the server, under the id that the callback gets.
  pub create-inserts :
      (refused : List ℕ) (seconds : ℕ) (rest : List ℕ) (job : CreateJob) (name : String) (body : D)
      (db : Database CreateJob) (s : Store S P E M) (client : ℕ) (clients : P) (inserted : S)
      → name_of db job.target ≡ some name
      → bson.read job.document s.documents ≡ some body
      → pool.pop s.clients ≡ some (client, clients)
      → let collection = collection_at server db.database name in
        let last =
          get_potentially_unique_id cipher seconds (after cipher collection refused s.generator) in
        Refused cipher collection refused body s.generator s.server
        → server.insert_one db.database name last.0 body s.server ≡ some inserted
        → run_executed pool (create cipher server bson (refused ++ seconds ∷ rest) db job) s
          ≡ some (record {
            generator = last.1;
            server = inserted;
            clients = pool.push client clients;
            documents = bson.destroy job.document s.documents;
            called = (job.callback, last.0) ∷ s.called;
          })
  unfolding run_executed create
  create-inserts refused seconds rest job name body db s client clients inserted named here popped
        refusals ok =
      let found =
        ensure_creation_impl-inserts cipher (collection_at server db.database name) refused seconds
          rest body s.generator s.server inserted refusals ok in
      rw (popped, run_executed, create, named, here, found.0) refl

  -- Each overload of `ensure_creation`, on a database that is connected, with a document that is there and
  -- a collection that is known, pushes one job, and this job, run on what the call left with a client
  -- available, ends in the first round whose id the collection takes: the callback gets that id once,
  -- the collection, which did not have the id, has the document of the caller under it, the document is
  -- destroyed, no other document changes, with a copy that was made destroyed too, and the client is back.
  pub ensure_creation-creates :
      (call : Call) (refused : List ℕ) (seconds : ℕ) (rest : List ℕ) (name : String) (body : D)
      (db : Database CreateJob) (s : Store S P E M) (client : ℕ) (clients : P) (inserted : S)
      → db.is_connected ≡ true
      → name_of db (target_of call) ≡ some name
      → bson.read (document_of call) s.documents ≡ some body
      → pool.pop s.clients ≡ some (client, clients)
      → let collection = collection_at server db.database name in
        let last =
          get_potentially_unique_id cipher seconds (after cipher collection refused s.generator) in
        Refused cipher collection refused body s.generator s.server
        → server.insert_one db.database name last.0 body s.server ≡ some inserted
        → let r = ensure_creation bson call db s in
          (job : CreateJob) × (t : Store S P E M) × (r.0
            ≡ record db { fiber_pool = db.fiber_pool ++ job ∷ [] })
          × (run_executed pool (create cipher server bson (refused ++ seconds ∷ rest) r.0 job) r.1
              ≡ some t)
          × (t.called ≡ (callback_of call, last.0) ∷ s.called)
          × (t.server ≡ inserted)
          × (server.has_id db.database name last.0 s.server ≡ none)
          × (server.has_id db.database name last.0 t.server ≡ some body)
          × Lacks bson (document_of call) s.documents t.documents
          × (pool.available t.clients ≡ pool.available s.clients)
  ensure_creation-creates call refused seconds rest name body db s client clients inserted on named
        here popped refusals ok =
      let r = ensure_creation bson call db s in
      let collection = collection_at server db.database name in
      let last =
        get_potentially_unique_id cipher seconds (after cipher collection refused s.generator) in
      let p = ensure_creation-Pushed bson call body db s on here in
      let left : Store S P E M = record s { documents = r.1.documents } in
      let pushed : Database CreateJob = record db { fiber_pool = db.fiber_pool ++ p.job ∷ [] } in
      let t : Store S P E M = record {
        generator = last.1;
        server = inserted;
        clients = pool.push client clients;
        documents = bson.destroy p.job.document r.1.documents;
        called = (p.job.callback, last.0) ∷ s.called;
      } in
      let ran : run_executed pool
            (create cipher server bson (refused ++ seconds ∷ rest) pushed p.job) left
          ≡ some t =
        create-inserts refused seconds rest p.job name body pushed left client clients inserted
          (name_of_pushed db _ p.job.target ∙ ap (name_of db) p.same_target ∙ named) p.body_here
          popped refusals ok in
      (
        p.job,
        t,
        p.pushes,
        subst₂
            (λ d q.
              run_executed pool (create cipher server bson (refused ++ seconds ∷ rest) d p.job) q
              ≡ some t)
            (sym p.pushes) (sym p.same_store) ran,
        ap (λ c. (c, last.0) ∷ s.called) p.same_callback,
        refl,
        server.insert_one-new db.database name last.0 body s.server inserted ok,
        server.insert_one-there db.database name last.0 body s.server inserted ok,
        p.lacks,
        pool.push-available clients client
            ∙ sym (pool.pop-available s.clients clients client popped),
      )
