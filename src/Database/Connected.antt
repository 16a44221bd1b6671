-- ===== src/Database/Connected.antt =====
-- Which functions of database/database.hpp reach the pool.
use sekkeizu.Base.{
  ◌≡◌, refl, ap, sym, ◌∙◌, Bool, true, false, ◌&&◌, List, [], ◌∷◌, ◌++◌, if◌then◌else◌, append-nil,
  append_assoc,
}
use Prim.Native.String.{String}
use sekkeizu.Database.Defs.{Database, init, execute}

module _ {ℓ} {J : Type ℓ} where
  -- Several calls of `execute`.
  abbrev pub execute_all : List J → Database J → Database J
  execute_all [] db = db
  execute_all (function ∷ functions) db = execute_all functions (execute db function)

  execute_all-connected :
      (functions : List J) (db : Database J)
      → db.is_connected ≡ true
      → (execute_all functions db).fiber_pool ≡ db.fiber_pool ++ functions
  unfolding execute
  execute_all-connected [] db h = sym (append-nil db.fiber_pool)
  execute_all-connected (f ∷ functions) db h =
      ap (λ d. (execute_all functions d).fiber_pool) (rw (h, execute) refl)
      ∙ execute_all-connected functions (record db { fiber_pool = db.fiber_pool ++ f ∷ [] }) h
      ∙ append_assoc db.fiber_pool (f ∷ []) functions

  execute_all-offline :
      (functions : List J) (db : Database J)
      → db.is_connected ≡ false
      → execute_all functions db ≡ db
  unfolding execute
  execute_all-offline [] db h = refl
  execute_all-offline (f ∷ functions) db h =
      ap (execute_all functions) (rw (h, execute) refl) ∙ execute_all-offline functions db h

  -- After `init` the functions that are executed reach the pool in their order when the URI is valid
  -- and the server answers, and none of them does otherwise.
  pub execute_all-init :
      (uri ping : Bool) (name : String) (functions : List J) (db : Database J)
      → (execute_all functions (init uri ping name db)).fiber_pool
        ≡ (if uri && ping then db.fiber_pool ++ functions else db.fiber_pool)
  unfolding init
  execute_all-init true true name functions db =
      execute_all-connected functions (init true true name db) refl
  execute_all-init true false name functions db =
      ap (λ d. d.fiber_pool) (execute_all-offline functions (init true false name db) refl)
  execute_all-init false ping name functions db =
      ap (λ d. d.fiber_pool) (execute_all-offline functions (init false ping name db) refl)
