-- ===== src/Database/Unique.antt =====
-- The ids of database/database.hpp over a whole session.
use sekkeizu.Base.{
  ℕ, ◌≡◌, sym, ap, subst, ◌∙◌, none, some, List, [], ◌∷◌, arith, All, Option-cases, inl, inr,
}
use sekkeizu.Database.Defs.{Database}
use sekkeizu.Database.Ids.{CipherApi, Generator, get_potentially_unique_id}
use sekkeizu.Database.Creation.{CollectionApi, ensure_creation_impl}
use sekkeizu.Database.Jobs.{
  ServerApi, ClientPoolApi, BsonApi, CreateJob, Store, collection_at, name_of, run_executed, create,
  copy_and_destroy, Call, fixed_pointer, fixed_reference, fixed_pointer_then, fixed_reference_then,
  keyed_pointer, keyed_reference, ensure_creation,
}
use sekkeizu.Database.Session.{Created, call_of, Differ, IsKept, IsThere, Step, Reach, Recorded}

-- A loop that ends has inserted the document under the id that it returns.
ensure_creation_impl-inserted :
    {E D K : Type 0} (cipher : CipherApi E) (collection : CollectionApi D K) (readings : List ℕ)
    (document : D) (g g' : Generator E) (k k' : K) (id : ℕ)
    → ensure_creation_impl cipher collection readings document g k ≡ some (id, g', k')
    → collection.insert_one id document k ≡ some k'
unfolding ensure_creation_impl
ensure_creation_impl-inserted cipher collection [] document g g' k k' id h = absurd (cc)
ensure_creation_impl-inserted cipher collection (seconds ∷ readings) document g g' k k' id h =
    let next = get_potentially_unique_id cipher seconds g in
    elim (Option-cases (collection.insert_one next.0 document k)) [
      | inl refused ↦
          ensure_creation_impl-inserted cipher collection readings document next.1 g' k k' id
            (ground arith)
      | inr (inserted, done) ↦ ground arith
    ]

module _ {S P E M D : Type 0} (cipher : CipherApi E) (server : ServerApi S D) (bson : BsonApi M D)
    (pool : ClientPoolApi P) where
  kept-IsThere :
      (s s' : S) (cs : List (Created D))
      → IsKept server s s'
      → All (IsThere server s) cs
      → All (IsThere server s') cs
  kept-IsThere s s' [] kept a = tt
  kept-IsThere s s' (c ∷ cs) kept a =
      (kept c.database c.collection c.id c.body a.0, kept-IsThere s s' cs kept a.1)

  new-Differ :
      (s : S) (c : Created D) (cs : List (Created D))
      → server.has_id c.database c.collection c.id s ≡ none
      → All (IsThere server s) cs
      → All (Differ c) cs
  new-Differ s c [] new a = tt
  new-Differ s c (e ∷ cs) new a = (λ d k i. cc (d, k, i, new, a.0), new-Differ s c cs new a.1)

  -- What a job that ran to its end did.
  create-Created :
      (readings : List ℕ) (db : Database CreateJob) (job : CreateJob) (s s' : Store S P E M)
      → run_executed pool (create cipher server bson readings db job) s ≡ some s'
      → (c : Created D) × (server.insert_one c.database c.collection c.id c.body s.server
          ≡ some s'.server)
        × (s'.called ≡ call_of c ∷ s.called)
  unfolding run_executed create
  create-Created readings db job s s' h = elim (Option-cases (pool.pop s.clients)) [
    | inl gone ↦ absurd (ground arith)
    | inr ((client, clients), popped) ↦ elim (Option-cases (name_of db job.target)) [
      | inl gone ↦ absurd (ground arith)
      | inr (name, named) ↦ elim (Option-cases (bson.read job.document s.documents)) [
        | inl gone ↦ absurd (ground arith)
        | inr (body, here) ↦
            elim (Option-cases (
              ensure_creation_impl cipher (collection_at server db.database name) readings body
                s.generator s.server)) [
                  | inl gone ↦ absurd (ground arith)
                  | inr ((id, generator, inserted), ended) ↦
                      let done =
                        ensure_creation_impl-inserted cipher (collection_at server db.database name)
                          readings body s.generator generator s.server inserted id ended in
                      (
                        record {
                          database = db.database;
                          collection = name;
                          id = id;
                          body = body;
                          callback = job.callback;
                        },
                        ground (arith, done),
                        ground arith,
                      )
                ]
      ]
    ]
  ]

  calls-Recorded :
      (call : Call) (db : Database CreateJob) (s : Store S P E M)
      → Recorded cipher server bson pool s
      → Recorded cipher server bson pool (ensure_creation bson call db s).1
  unfolding ensure_creation copy_and_destroy
  calls-Recorded (fixed_pointer _ _) db s v = v
  calls-Recorded (fixed_reference _ _) db s v = record {
    created = v.created;
    in_order = v.in_order;
    there = v.there;
    differ = v.differ;
  }
  calls-Recorded (fixed_pointer_then _ _ _) db s v = v
  calls-Recorded (fixed_reference_then _ _ _) db s v = record {
    created = v.created;
    in_order = v.in_order;
    there = v.there;
    differ = v.differ;
  }
  calls-Recorded (keyed_pointer _ _ _) db s v = v
  calls-Recorded (keyed_reference _ _ _) db s v = record {
    created = v.created;
    in_order = v.in_order;
    there = v.there;
    differ = v.differ;
  }

  Step-Recorded :
      {db db' : Database CreateJob} {s s' : Store S P E M}
      → Step cipher server bson pool db s db' s'
      → Recorded cipher server bson pool s
      → Recorded cipher server bson pool s'
  Step-Recorded {db} {db'} {s} {s'} (Step.calls call _ e) v =
      subst (Recorded cipher server bson pool) (sym e) (calls-Recorded call db s v)
  Step-Recorded {db} {db'} {s} {s'} (Step.runs readings before after job _ _ ran) v =
      let (c, inserted, called) = create-Created readings db' job s s' ran in
      let new =
        server.insert_one-new c.database c.collection c.id c.body s.server s'.server inserted in
      record {
        created = c ∷ v.created;
        in_order = ap (λ l. call_of c ∷ l) v.in_order ∙ sym called;
        there = (
          server.insert_one-there c.database c.collection c.id c.body s.server s'.server inserted,
          kept-IsThere s.server s'.server v.created
              (λ d k i old there.
                server.insert_one-kept c.database c.collection c.id c.body s.server s'.server d k i
                  old inserted there)
              v.there,
        );
        differ = (new-Differ s.server c v.created new v.there, v.differ);
      }
  Step-Recorded {db} {db'} {s} {s'} (Step.adds key name _ e) v =
      subst (Recorded cipher server bson pool) (sym e) v
  Step-Recorded {db} {db'} {s} {s'} (Step.others inserted kept _ e) v =
      subst (Recorded cipher server bson pool) (sym e) (record {
        created = v.created;
        in_order = v.in_order;
        there = kept-IsThere s.server inserted v.created kept v.there;
        differ = v.differ;
      })

  -- In every session, with the jobs in any order and others that insert documents too, but with nobody
  -- who removes one: for each call of a callback there is a document on the server under the id that the
  -- callback got, and two of these in one collection have different ids.
  pub ids_differ :
      {db : Database CreateJob} {s : Store S P E M}
      → Reach cipher server bson pool db s
      → Recorded cipher server bson pool s
  ids_differ (Reach.start db s e) = record {
    created = [];
    in_order = sym e;
    there = tt;
    differ = tt;
  }
  ids_differ (Reach.next r step) = Step-Recorded step (ids_differ r)
