-- ===== src/Transaction/Initial.antt =====
-- The state that `init` of database/transaction.hpp sets up, and the states that follow it.
use sekkeizu.Base.{
  ℕ, ◌≡◌, refl, sym, subst, inl, inr, List, [], ◌∷◌, arith, find, Each, Distinct, Distinct-Along,
  Along, Avoids-find, Option-cases,
}
use sekkeizu.Database.Defs.{Database, get_all_collections}
use sekkeizu.Transaction.Types.{BsonApi, Collection, new_collection, Transaction, Job}
use sekkeizu.Transaction.Update.{init, emplace_all, clear_all}
use sekkeizu.Transaction.Window.{operations}
use sekkeizu.Transaction.Moved.{ids_for}
use sekkeizu.Transaction.System.{System, Reach, start, next}
use sekkeizu.Transaction.Invariant.{IsServed, Inv}
use sekkeizu.Transaction.Steps.{Step-Inv}

module _ {B C : Type 0} where
  emplace_all-Distinct {κ} :
      {N : Type κ} (names : List (ℕ × N)) (cs : List (ℕ × Collection B C))
      → Distinct cs
      → Distinct (emplace_all names cs)
  unfolding emplace_all
  emplace_all-Distinct [] cs d = d
  emplace_all-Distinct ((key, name) ∷ names) cs d = elim (Option-cases (find key cs)) [
    | inl gone ↦ rw (gone, emplace_all) (emplace_all-Distinct names _ (Avoids-find key cs gone, d))
    | inr (info, known) ↦ rw (known, emplace_all) (emplace_all-Distinct names cs d)
  ]

  clear_all-Along : (cs : List (ℕ × Collection B C)) → Along (λ _ _ _. Unit) cs (clear_all cs)
  unfolding clear_all
  clear_all-Along [] = tt
  clear_all-Along ((k, info) ∷ cs) = ((refl, tt), clear_all-Along cs)

  new_collection-IsServed : (k : ℕ) → IsServed {B = B} {C = C} [] [] k new_collection
  unfolding operations ids_for
  new_collection-IsServed k = record {
    opened = record {
      ordered = omega arith;
      small = omega arith;
      waits = λ j a b. absurd (omega arith);
    };
    served = refl;
    behind = tt;
    plain = λ j. tt;
  }

  clear_all-IsServed : (cs : List (ℕ × Collection B C)) → Each (IsServed [] []) (clear_all cs)
  unfolding clear_all
  clear_all-IsServed [] = tt
  clear_all-IsServed ((k, info) ∷ cs) = (new_collection-IsServed k, clear_all-IsServed cs)

  init-IsServed :
      (database : Database Job) (execute_every : ℕ) (t : Transaction B C) (pool : List Job)
      → pool ≡ []
      → Each (IsServed [] pool) (init database execute_every t).collections
  unfolding init
  init-IsServed database execute_every t pool idle =
      let cs = emplace_all (get_all_collections database) t.collections in
      subst (λ p. Each (IsServed {B = B} {C = C} [] p) (clear_all cs)) (sym idle)
        (clear_all-IsServed cs)

  init-Distinct :
      (database : Database Job) (execute_every : ℕ) (t : Transaction B C)
      → Distinct t.collections
      → Distinct (init database execute_every t).collections
  unfolding init
  init-Distinct database execute_every t d =
      let cs = emplace_all (get_all_collections database) t.collections in
      Distinct-Along _ cs (clear_all cs) (clear_all-Along cs)
        (emplace_all-Distinct (get_all_collections database) t.collections d)

  -- The invariant holds in every reachable state.
  pub Reach-Inv : {api : BsonApi B} {s : System B C} → Reach api s → Inv s
  Reach-Inv (start database execute_every t connected idle empty) = record {
    connected = connected;
    distinct = init-Distinct database execute_every t (subst Distinct (sym empty) tt);
    each = init-IsServed database execute_every t database.fiber_pool idle;
  }
  Reach-Inv (next r st) = Step-Inv st (Reach-Inv r)
