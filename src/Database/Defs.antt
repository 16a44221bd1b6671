-- ===== src/Database/Defs.antt =====
-- The state of database/database.hpp, and its operations on collections and jobs. `J` is the type
-- of the functions that are handed to `execute`.
use Prim.Native.String.{String}
use sekkeizu.Base.{
  ℕ, Bool, true, false, Option, none, some, List, [], ◌∷◌, ◌++◌, find, if◌then◌else◌,
}

-- The fields that the program itself works with. `fiber_pool` is the list of the functions pushed
-- to the pool, in order, and `pool` says whether the client pool is set; the URI, the client pool and
-- the cipher are foreign objects.
pub record Database {ℓ} (J : Type ℓ) : Type ℓ where
  pub fiber_pool : List J
  pub is_connected : Bool
  pub collections_map : List (ℕ × String)
  pub pool : Bool
  pub database : String

module _ {ℓ} {J : Type ℓ} where
  unfoldable pub new_database : Database J
  new_database = record {
    fiber_pool = [];
    is_connected = false;
    collections_map = [];
    pool = false;
    database = "";
  }

  unfoldable pub set_fiber_pool : List J → Database J → Database J
  set_fiber_pool fiber_pool db = record db { fiber_pool = fiber_pool }

  -- `init`, given whether the library accepts the URI, and whether the server answers the ping.
  unfoldable pub init : Bool → Bool → String → Database J → Database J
  init uri ping database db =
      if uri
      then record db { pool = true; is_connected = ping; database = database }
      else record db { is_connected = false }

  -- `_collections_map.emplace`, which keeps the entry of a key that is there.
  unfoldable pub add_collection : Database J → ℕ → String → Database J
  add_collection db key collection = elim (find key db.collections_map) [
    | none ↦ record db { collections_map = (key, collection) ∷ db.collections_map }
    | some _ ↦ db
  ]

  unfoldable pub get_all_collections : Database J → List (ℕ × String)
  get_all_collections db = db.collections_map

  -- The name that `get_collection` hands on; `none` is the failed assertion.
  unfoldable pub get_collection : Database J → ℕ → Option String
  get_collection db collection = find collection db.collections_map

  -- `execute`, as it is built without NDEBUG: no connection, no push.
  unfoldable pub execute : Database J → J → Database J
  execute db function =
      if db.is_connected then record db { fiber_pool = db.fiber_pool ++ function ∷ [] } else db
