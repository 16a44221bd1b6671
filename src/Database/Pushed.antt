-- ===== src/Database/Pushed.antt =====
-- What a call of `ensure_creation` in database/database.hpp leaves for its job.
use sekkeizu.Base.{
  ℕ, ◌≡◌, ◌≢◌, refl, sym, ◌∙◌, true, Option, none, some, [], ◌∷◌, ◌++◌, arith, ==_iff, ◌==◌,
  Bool-cases, inl, inr,
}
use sekkeizu.Database.Defs.{Database, execute}
use sekkeizu.Database.Jobs.{
  BsonApi, Target, fixed, keyed, CreateJob, Store, give, copy_and_destroy, Call, fixed_pointer,
  fixed_reference, fixed_pointer_then, fixed_reference_then, keyed_pointer, keyed_reference,
  ensure_creation,
}

abbrev pub target_of : Call → Target
target_of (fixed_pointer name _) = fixed name
target_of (fixed_reference name _) = fixed name
target_of (fixed_pointer_then name _ _) = fixed name
target_of (fixed_reference_then name _ _) = fixed name
target_of (keyed_pointer key _ _) = keyed key
target_of (keyed_reference key _ _) = keyed key

abbrev pub document_of : Call → ℕ
document_of (fixed_pointer _ document) = document
document_of (fixed_reference _ document) = document
document_of (fixed_pointer_then _ document _) = document
document_of (fixed_reference_then _ document _) = document
document_of (keyed_pointer _ document _) = document
document_of (keyed_reference _ document _) = document

abbrev pub callback_of : Call → Option ℕ
callback_of (fixed_pointer _ _) = none
callback_of (fixed_reference _ _) = none
callback_of (fixed_pointer_then _ _ callback) = some callback
callback_of (fixed_reference_then _ _ callback) = some callback
callback_of (keyed_pointer _ _ callback) = some callback
callback_of (keyed_reference _ _ callback) = some callback

-- The documents, less one.
abbrev pub Lacks : {M D : Type 0} → BsonApi M D → ℕ → M → M → Type 0
Lacks bson document m m' =
    (bson.read document m' ≡ none) × ((x : ℕ) → x ≢ document → bson.read x m' ≡ bson.read x m)

module _ {S P E M D : Type 0} (bson : BsonApi M D) where
  -- What a call leaves for its job.
  pub record Pushed (target : Target) (callback : Option ℕ) (document : ℕ) (body : D)
      (db : Database CreateJob) (s : Store S P E M) (db' : Database CreateJob) (s' : Store S P E M)
      : Type 0 where
    pub job : CreateJob
    pub pushes : db' ≡ record db { fiber_pool = db.fiber_pool ++ job ∷ [] }
    pub same_target : job.target ≡ target
    pub same_callback : job.callback ≡ callback
    pub body_here : bson.read job.document s'.documents ≡ some body
    pub same_store : s' ≡ record s { documents = s'.documents }
    pub lacks : Lacks bson document s.documents (bson.destroy job.document s'.documents)

  give-Pushed :
      (target : Target) (callback : Option ℕ) (document : ℕ) (body : D) (db : Database CreateJob)
      (s : Store S P E M)
      → db.is_connected ≡ true
      → bson.read document s.documents ≡ some body
      → Pushed target callback document body db s (give target document callback db) s
  unfolding give execute
  give-Pushed target callback document body db s on here = record {
    job = record { target = target; document = document; callback = callback };
    pushes = rw (on, give, execute) refl;
    same_target = refl;
    same_callback = refl;
    body_here = here;
    same_store = refl;
    lacks = (
      bson.destroy-gone document s.documents,
      λ x other. bson.destroy-kept document x s.documents other,
    );
  }

  copy_and_destroy-Pushed :
      (target : Target) (callback : Option ℕ) (document : ℕ) (body : D) (db : Database CreateJob)
      (s : Store S P E M)
      → db.is_connected ≡ true
      → bson.read document s.documents ≡ some body
      → let r = copy_and_destroy bson target document callback db s in
        Pushed target callback document body db s r.0 r.1
  unfolding copy_and_destroy execute
  copy_and_destroy-Pushed target callback document body db s on here =
      let m = s.documents in
      let copied = bson.copy document m in
      let m' = bson.destroy document copied.1 in
      let apart : copied.0 ≢ document = λ e. cc (e, bson.copy-new document m, here) in
      record {
        job = record { target = target; document = copied.0; callback = callback };
        pushes = rw (on, copy_and_destroy, execute) refl;
        same_target = refl;
        same_callback = refl;
        body_here =
            bson.destroy-kept document copied.0 copied.1 apart ∙ bson.copy-same document m ∙ here;
        same_store = refl;
        lacks = (
          bson.destroy-kept copied.0 document m' (λ e. apart (sym e))
              ∙ bson.destroy-gone document copied.1,
          λ x other. elim (Bool-cases (x == copied.0)) [
            | inl hit ↦
                let e = (==_iff x copied.0).0 hit in
                cc (e, bson.destroy-gone copied.0 m', bson.copy-new document m)
            | inr miss ↦
                let ne : x ≢ copied.0 = ground (arith, ==_iff x copied.0) in
                bson.destroy-kept copied.0 x m' ne
                ∙ bson.destroy-kept document x copied.1 other
                ∙ bson.copy-kept document x m ne
          ],
        );
      }

  pub ensure_creation-Pushed :
      (call : Call) (body : D) (db : Database CreateJob) (s : Store S P E M)
      → db.is_connected ≡ true
      → bson.read (document_of call) s.documents ≡ some body
      → let r = ensure_creation bson call db s in
        Pushed (target_of call) (callback_of call) (document_of call) body db s r.0 r.1
  unfolding ensure_creation
  ensure_creation-Pushed (fixed_pointer name doc) body db s on here =
      give-Pushed (fixed name) none doc body db s on here
  ensure_creation-Pushed (fixed_reference name doc) body db s on here =
      copy_and_destroy-Pushed (fixed name) none doc body db s on here
  ensure_creation-Pushed (fixed_pointer_then name doc callback) body db s on here =
      give-Pushed (fixed name) (some callback) doc body db s on here
  ensure_creation-Pushed (fixed_reference_then name doc callback) body db s on here =
      copy_and_destroy-Pushed (fixed name) (some callback) doc body db s on here
  ensure_creation-Pushed (keyed_pointer key doc callback) body db s on here =
      give-Pushed (keyed key) (some callback) doc body db s on here
  ensure_creation-Pushed (keyed_reference key doc callback) body db s on here =
      copy_and_destroy-Pushed (keyed key) (some callback) doc body db s on here
