-- ===== src/Database/Tests.antt =====
-- database/database.hpp with a cipher that adds its key, a collection that is a list, and documents that
-- are numbers.
use sekkeizu.Base.{ℕ, ◌≡◌, refl, ◌⊎◌, ◌++◌, true, Option, none, some, List, [], ◌∷◌, find}
use sekkeizu.Database.Defs.{new_database, init, execute, add_collection, get_collection}
use sekkeizu.Database.Ids.{Generator, get_potentially_unique_id}
use sekkeizu.Database.Sample.{cipher, users, server, client_pool, bson, Documents}
use sekkeizu.Database.Defs.{Database}
use sekkeizu.Database.Jobs.{
  CreateJob, Store, keyed, Call, keyed_reference, name_of, run_executed, create, give,
  copy_and_destroy, ensure_creation,
}
use sekkeizu.Database.Pushed.{Lacks}
use sekkeizu.Database.Ensure.{ensure_creation-creates}
use sekkeizu.Database.Session.{Step, Reach, Recorded}
use sekkeizu.Database.Unique.{ids_differ}
use sekkeizu.Database.Creation.{after, Refused, ensure_creation_impl, ensure_creation_impl-cases}

program : Unit {0}
unfolding new_database init execute add_collection get_collection get_potentially_unique_id
    ensure_creation_impl name_of run_executed create give copy_and_destroy ensure_creation
program = tt

abbrev generator : Generator ℕ
generator = record { counter = 0; enc = 7 }

-- The first id is taken already.
abbrev taken : List (ℕ × ℕ)
taken = (107, 1) ∷ []

abbrev readings : List ℕ
readings = 100 ∷ 99 ∷ 100 ∷ []

ensure_creation_impl-cases_example :
    (Refused cipher users readings 5 generator taken
      × (ensure_creation_impl cipher users readings 5 generator taken ≡ none))
    ⊎ ((refused : List ℕ) × (seconds : ℕ) × (rest : List ℕ) × (k : List (ℕ × ℕ)) × (readings
          ≡ refused ++ seconds ∷ rest)
        × Refused cipher users refused 5 generator taken
        × (let last =
              get_potentially_unique_id cipher seconds (after cipher users refused generator) in
            (users.insert_one last.0 5 taken ≡ some k)
            × (ensure_creation_impl cipher users readings 5 generator taken
                ≡ some (last.0, last.1, k))))
ensure_creation_impl-cases_example =
    ensure_creation_impl-cases cipher users readings 5 generator taken

abbrev connected : Database CreateJob
connected = record {
  fiber_pool = [];
  is_connected = true;
  collections_map = (3, "users") ∷ [];
  pool = true;
  database = "game";
}

-- The document 0 has the body 5, and two clients are free.
abbrev store : Store (List (ℕ × ℕ)) ℕ ℕ Documents
store = record {
  generator = generator;
  server = taken;
  clients = 2;
  documents = record { next = 1; bodies = λ _. some 5 };
  called = [];
}

abbrev call : Call
call = keyed_reference 3 0 9

abbrev Creates : Type 0
Creates =
    let r = ensure_creation bson call connected store in
    (job : CreateJob) × (t : Store (List (ℕ × ℕ)) ℕ ℕ Documents) × (r.0
      ≡ record connected { fiber_pool = job ∷ [] })
    × (run_executed client_pool (create cipher server bson (100 ∷ 100 ∷ []) r.0 job) r.1 ≡ some t)
    × (t.called ≡ (some 9, 108) ∷ [])
    × (t.server ≡ (108, 5) ∷ taken)
    × (find 108 taken ≡ none)
    × (find 108 t.server ≡ some 5)
    × Lacks bson 0 store.documents t.documents
    × (t.clients ≡ 2)

ensure_creation-creates_example : Creates
unfolding program
ensure_creation-creates_example =
    ensure_creation-creates cipher server bson client_pool call (100 ∷ []) 100 [] "users" 5
      connected store 1 1 ((108, 5) ∷ taken) refl refl refl refl (refl, tt) refl

-- The call, and its job.
abbrev called : Database CreateJob × Store (List (ℕ × ℕ)) ℕ ℕ Documents
called = ensure_creation bson call connected store

abbrev store_or : Option (Store (List (ℕ × ℕ)) ℕ ℕ Documents) → Store (List (ℕ × ℕ)) ℕ ℕ Documents
store_or none = store
store_or (some s) = s

abbrev ended : Store (List (ℕ × ℕ)) ℕ ℕ Documents
ended = store_or (
    run_executed client_pool
      (create cipher server bson (100 ∷ 100 ∷ []) connected
        (record { target = keyed 3; document = 1; callback = some 9 }))
      called.1)

test_ended : ended.called ≡ (some 9, 108) ∷ []
unfolding program
test_ended = refl

ended-reached : Reach cipher server bson client_pool connected ended
unfolding program
ended-reached =
    Reach.next (Reach.next (Reach.start connected store refl) (Step.calls call refl refl)) (
      Step.runs (100 ∷ 100 ∷ []) [] []
        (record { target = keyed 3; document = 1; callback = some 9 }) refl refl refl)

ids_differ_example : Recorded cipher server bson client_pool ended
ids_differ_example = ids_differ cipher server bson client_pool ended-reached
