-- ===== src/Database/Jobs.antt =====
-- The overloads of `ensure_creation` in database/database.hpp, and the jobs that they push: a
-- document stands as the number of its pointer, a callback as a number.
use Prim.Native.String.{String}
use sekkeizu.Base.{ℕ, ◌+◌, ◌≡◌, ◌≢◌, Option, none, some, List, ◌∷◌, ◌>>=◌}
use sekkeizu.Database.Defs.{Database, execute, get_collection}
use sekkeizu.Database.Ids.{CipherApi, Generator}
use sekkeizu.Database.Creation.{CollectionApi, ensure_creation_impl}

-- The server, by the names of a database and of a collection. An insertion keeps the documents that
-- are there.
pub record ServerApi (S D : Type 0) : Type 0 where
  pub insert_one : String → String → ℕ → D → S → Option S
  pub has_id : String → String → ℕ → S → Option D
  pub insert_one-new :
      (database name : String) (id : ℕ) (document : D) (s s' : S)
      → insert_one database name id document s ≡ some s'
      → has_id database name id s ≡ none
  pub insert_one-there :
      (database name : String) (id : ℕ) (document : D) (s s' : S)
      → insert_one database name id document s ≡ some s'
      → has_id database name id s' ≡ some document
  pub insert_one-kept :
      (database name : String) (id : ℕ) (document : D) (s s' : S) (database' name' : String)
      (id' : ℕ) (old : D)
      → insert_one database name id document s ≡ some s'
      → has_id database' name' id' s ≡ some old
      → has_id database' name' id' s' ≡ some old

-- `mongoc_client_pool_pop` waits when no client is available.
pub record ClientPoolApi (P : Type 0) : Type 0 where
  pub pop : P → Option (ℕ × P)
  pub push : ℕ → P → P
  pub available : P → ℕ
  pub pop-available :
      (p q : P) (client : ℕ) → pop p ≡ some (client, q) → available p ≡ available q + 1
  pub push-available : (p : P) (client : ℕ) → available (push client p) ≡ available p + 1

-- `bson_copy` returns a new document; `bson_destroy` ends one.
pub record BsonApi (M D : Type 0) : Type 0 where
  pub read : ℕ → M → Option D
  pub copy : ℕ → M → ℕ × M
  pub destroy : ℕ → M → M
  pub copy-new : (ptr : ℕ) (m : M) → read (copy ptr m).0 m ≡ none
  pub copy-same : (ptr : ℕ) (m : M) → read (copy ptr m).0 (copy ptr m).1 ≡ read ptr m
  pub copy-kept :
      (ptr other : ℕ) (m : M) → other ≢ (copy ptr m).0 → read other (copy ptr m).1 ≡ read other m
  pub destroy-gone : (ptr : ℕ) (m : M) → read ptr (destroy ptr m) ≡ none
  pub destroy-kept :
      (ptr other : ℕ) (m : M) → other ≢ ptr → read other (destroy ptr m) ≡ read other m

-- The collection of a job: the template argument, or the key that is looked up when the job runs.
pub data Target : Type 0 where
  fixed : String → Target
  keyed : ℕ → Target

-- What the lambdas have captured; `none` is the callback that does nothing.
pub record CreateJob : Type 0 where
  pub target : Target
  pub document : ℕ
  pub callback : Option ℕ

-- The foreign state that the jobs work on, and the calls of callbacks, the newest first.
pub record Store (S P E M : Type 0) : Type 0 where
  pub generator : Generator E
  pub server : S
  pub clients : P
  pub documents : M
  pub called : List (Option ℕ × ℕ)

abbrev pub collection_at : {S D : Type 0} → ServerApi S D → String → String → CollectionApi D S
collection_at server database name = record {
  insert_one = server.insert_one database name;
  has_id = server.has_id database name;
  insert_one-new = server.insert_one-new database name;
  insert_one-there = server.insert_one-there database name;
}

-- The name of the collection; `none` is the failed assertion of `get_collection`.
unfoldable pub name_of : Database CreateJob → Target → Option String
unfolding get_collection
name_of db (fixed name) = some name
name_of db (keyed key) = get_collection db key

module _ {S P E M : Type 0} where
  -- The lambda of `execute`: a client for the function, and back.
  unfoldable pub run_executed :
      ClientPoolApi P
      → (Store S P E M → Option (Store S P E M))
      → Store S P E M
      → Option (Store S P E M)
  run_executed pool function s = do
    (client, clients) ← pool.pop s.clients
    done ← function (record s { clients = clients })
    some (record done { clients = pool.push client done.clients })

  module _ {D : Type 0} (cipher : CipherApi E) (server : ServerApi S D) (bson : BsonApi M D) where
    -- The lambda of `ensure_creation`, and the `ensure_creation_impl` that it calls.
    unfoldable pub create :
        List ℕ → Database CreateJob → CreateJob → Store S P E M → Option (Store S P E M)
    unfolding name_of ensure_creation_impl
    create readings db job s = do
      name ← name_of db job.target
      document ← bson.read job.document s.documents
      (id, generator, inserted) ←
          ensure_creation_impl cipher (collection_at server db.database name) readings document
            s.generator s.server
      some (record s {
        generator = generator;
        server = inserted;
        documents = bson.destroy job.document s.documents;
        called = (job.callback, id) ∷ s.called;
      })

-- `ensure_creation` of a document that the caller gives away: the job is pushed with its pointer.
unfoldable pub give : Target → ℕ → Option ℕ → Database CreateJob → Database CreateJob
unfolding execute
give target document callback db =
    execute db (record { target = target; document = document; callback = callback })

-- The six overloads, in the order of the source.
pub data Call : Type 0 where
  fixed_pointer : String → ℕ → Call
  fixed_reference : String → ℕ → Call
  fixed_pointer_then : String → ℕ → ℕ → Call
  fixed_reference_then : String → ℕ → ℕ → Call
  keyed_pointer : ℕ → ℕ → ℕ → Call
  keyed_reference : ℕ → ℕ → ℕ → Call

module _ {S P E M D : Type 0} (bson : BsonApi M D) where
  -- `ensure_creation` of a document by reference: the job is pushed with a copy, and the document ends.
  unfoldable pub copy_and_destroy :
      Target
      → ℕ
      → Option ℕ
      → Database CreateJob
      → Store S P E M
      → Database CreateJob × Store S P E M
  unfolding execute
  copy_and_destroy target document callback db s =
      let copied = bson.copy document s.documents in
      (
        execute db (record { target = target; document = copied.0; callback = callback }),
        record s { documents = bson.destroy document copied.1 },
      )

  unfoldable pub ensure_creation :
      Call → Database CreateJob → Store S P E M → Database CreateJob × Store S P E M
  unfolding give copy_and_destroy
  ensure_creation (fixed_pointer name document) db s = (give (fixed name) document none db, s)
  ensure_creation (fixed_reference name document) db s =
      copy_and_destroy (fixed name) document none db s
  ensure_creation (fixed_pointer_then name document callback) db s =
      (give (fixed name) document (some callback) db, s)
  ensure_creation (fixed_reference_then name document callback) db s =
      copy_and_destroy (fixed name) document (some callback) db s
  ensure_creation (keyed_pointer key document callback) db s =
      (give (keyed key) document (some callback) db, s)
  ensure_creation (keyed_reference key document callback) db s =
      copy_and_destroy (keyed key) document (some callback) db s
