-- ===== src/Network/Threads/Drops.antt =====
-- A disconnect of core/coreloop_network_plugin.hpp keeps the buffers in order.
use sekkeizu.Base.{
  ℕ, ◌≡◌, refl, sym, ap₂, subst, ◌∙◌, inl, inr, List, [], ◌∷◌, ◌++◌, arith, if◌then◌else◌, ◌==◌,
  ==_iff, map, All, erase_key, Distinct, Bool-cases,
}
use sekkeizu.Network.Defs.{Local, Event, on_disconnected}
use sekkeizu.Network.Tick.{drop_local}
use sekkeizu.Network.Valid.{IsLocal}
use sekkeizu.Network.Threads.System.{forget}
use sekkeizu.Network.Threads.Vectors.{vector, vector-erase_key, Distinct-erase_key}
use sekkeizu.Network.Threads.Locals.{get_local-map, All-get_local}
use sekkeizu.Network.Threads.Given.{given, given-append}
use sekkeizu.Network.Threads.Invariant.{of_thread, IsOwn, line, IsInOrder}

module _ (from : ℕ → ℕ) (clients : List (ℕ × List ℕ)) (locals : List Local) (events : List Event)
    (stored : ℕ → ℕ → List ℕ) (v : IsInOrder from clients locals events stored) where
  -- A disconnect leaves nothing of its endpoint.
  module _ (k : ℕ) (endpoints : List ℕ) (known : All (IsLocal endpoints) locals) where
    drop_local-vector :
        (l : Local) (e : ℕ)
        → IsLocal endpoints l
        → vector e (drop_local k l).pending_inputs
          ≡ (if k == e then [] else vector e l.pending_inputs)
    unfolding drop_local
    drop_local-vector l e u =
        ground (arith, vector-erase_key k e l.pending_inputs, u.vectors e, ==_iff k e)

    drop_local-Distinct :
        (l : Local) → Distinct l.pending_inputs → Distinct (drop_local k l).pending_inputs
    unfolding drop_local
    drop_local-Distinct l h = ground (arith, Distinct-erase_key k l.pending_inputs h)

    given-drop :
        (e : ℕ)
        → given e [] (events ++ on_disconnected k ∷ []) ≡ (if k == e then [] else given e [] events)
    given-drop e = given-append e events (on_disconnected k ∷ []) []

    pub drops-IsInOrder :
        IsInOrder from
          (erase_key k clients)
          (map (drop_local k) locals)
          (events ++ on_disconnected k ∷ [])
          (forget k stored)
    drops-IsInOrder = record {
      distinct = Distinct-erase_key k clients v.distinct;
      own = λ i l h.
          let (l', here, is) = get_local-map (drop_local k) i l locals h in
          let (distinct, all) = v.own i l' here in
          let u = All-get_local _ i l' locals known here in
          subst (IsOwn from i) (sym is) (
            drop_local-Distinct l' distinct,
            λ e. elim (Bool-cases (k == e)) [
              | inl hit ↦ subst (All _) (sym (rw hit at (drop_local-vector l' e u))) tt
              | inr miss ↦ subst (All _) (sym (rw miss at (drop_local-vector l' e u))) (all e)
            ],
          );
      in_order = λ i e l h.
          let (l', here, is) = get_local-map (drop_local k) i l locals h in
          let u = All-get_local _ i l' locals known here in
          subst
            (λ m.
              line from (erase_key k clients) (events ++ on_disconnected k ∷ []) i e m
              ≡ forget k stored i e)
            (sym is)
            (elim (Bool-cases (k == e)) [
              | inl hit ↦
                  ap₂ (λ g w. of_thread from i g ++ w)
                    (ap₂ (λ g w. g ++ w) (rw hit at (given-drop e))
                      (rw hit at (vector-erase_key k e clients)))
                    (rw hit at (drop_local-vector l' e u))
                  ∙ rw hit refl
              | inr miss ↦
                  ap₂ (λ g w. of_thread from i g ++ w)
                    (ap₂ (λ g w. g ++ w) (rw miss at (given-drop e))
                      (rw miss at (vector-erase_key k e clients)))
                    (rw miss at (drop_local-vector l' e u))
                  ∙ v.in_order i e l' here
                  ∙ rw miss refl
            ]);
    }
