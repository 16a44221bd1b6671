-- ===== src/Network/Threads/Packets.antt =====
-- A packet of core/coreloop_network_plugin.hpp keeps the buffers in order.
use sekkeizu.Base.{
  ℕ, ◌≡◌, refl, sym, ap, subst, subst₂, ◌∙◌, inl, inr, some, List, [], ◌∷◌, ◌++◌, arith,
  if◌then◌else◌, ◌==◌, ==_iff, ==_self, All, All-append, find, Distinct, Distinct-replace,
  append_assoc, Bool-cases, Option-cases,
}
use sekkeizu.Network.Defs.{Local, Event, get_local, set_local, push_input, add_local}
use sekkeizu.Network.Threads.System.{log}
use sekkeizu.Network.Threads.Vectors.{vector, vector-replace, vector-emplace, Distinct-emplace}
use sekkeizu.Network.Threads.Locals.{get_local-set_local}
use sekkeizu.Network.Threads.Given.{given}
use sekkeizu.Network.Threads.Invariant.{of_thread, IsOwn, line, IsInOrder}

module _ (from : ℕ → ℕ) (clients : List (ℕ × List ℕ)) (locals : List Local) (events : List Event)
    (stored : ℕ → ℕ → List ℕ) (v : IsInOrder from clients locals events stored) where
  -- A packet stands last.
  module _ (k b : ℕ) (l l' : Local) (pushed : push_input k b (add_local k l) ≡ some l') where
    add_local-vector : (e : ℕ) → vector e (add_local k l).pending_inputs ≡ vector e l.pending_inputs
    unfolding add_local
    add_local-vector e = ground (arith, vector-emplace k e l.pending_inputs)

    add_local-Distinct : Distinct l.pending_inputs → Distinct (add_local k l).pending_inputs
    unfolding add_local
    add_local-Distinct h = ground (arith, Distinct-emplace k l.pending_inputs h)

    push_input-vector :
        (e : ℕ)
        → vector e l'.pending_inputs
          ≡ (if k == e then vector e l.pending_inputs ++ b ∷ [] else vector e l.pending_inputs)
    unfolding push_input
    push_input-vector e = elim (Option-cases (find k (add_local k l).pending_inputs)) [
      | inl gone ↦ absurd (ground arith)
      | inr (w, there) ↦ ground (
        arith,
        vector-replace k e (w ++ b ∷ []) w (add_local k l).pending_inputs there,
        add_local-vector e,
        ==_iff k e,
      )
    ]

    push_input-Distinct : Distinct l.pending_inputs → Distinct l'.pending_inputs
    unfolding push_input
    push_input-Distinct h = elim (Option-cases (find k (add_local k l).pending_inputs)) [
      | inl gone ↦ absurd (ground arith)
      | inr (w, there) ↦
          subst Distinct (ground arith)
            (Distinct-replace k (w ++ b ∷ []) (add_local k l).pending_inputs (add_local-Distinct h))
    ]

    pub packet-IsInOrder :
        get_local (from b) locals ≡ some l
        → IsInOrder from clients (set_local (from b) l' locals) events (log (from b) k b stored)
    packet-IsInOrder here =
        let (distinct, all) = v.own (from b) l here in
        let found = λ (i : ℕ). get_local-set_local (from b) i l l' locals here in
        record {
          distinct = v.distinct;
          own = λ i m h. elim (Bool-cases (from b == i)) [
            | inl hit ↦
                let is : l' ≡ m = ground (arith, found i) in
                subst₂ (IsOwn from) ((==_iff (from b) i).0 hit) is (
                  push_input-Distinct distinct,
                  λ e. elim (Bool-cases (k == e)) [
                    | inl same ↦
                        subst (All _) (sym (rw same at (push_input-vector e)))
                          (All-append _ _ (b ∷ []) (all e) (refl, tt))
                    | inr other ↦ subst (All _) (sym (rw other at (push_input-vector e))) (all e)
                  ],
                )
            | inr miss ↦ v.own i m (ground (arith, found i))
          ];
          in_order = λ i e m h. elim (Bool-cases (from b == i)) [
            | inl hit ↦
                let is : l' ≡ m = ground (arith, found i) in
                subst₂ (λ j n. line from clients events j e n ≡ log (from b) k b stored j e)
                  ((==_iff (from b) i).0 hit) is
                  (elim (Bool-cases (k == e)) [
                    | inl same ↦
                        ap
                          (λ w.
                            of_thread from (from b) (given e [] events ++ vector e clients) ++ w)
                          (rw same at (push_input-vector e))
                        ∙ sym (append_assoc _ (vector e l.pending_inputs) (b ∷ []))
                        ∙ ap (λ r. r ++ b ∷ []) (v.in_order (from b) e l here)
                        ∙ rw (==_self (from b), same) refl
                    | inr other ↦
                        ap
                          (λ w.
                            of_thread from (from b) (given e [] events ++ vector e clients) ++ w)
                          (rw other at (push_input-vector e))
                        ∙ v.in_order (from b) e l here
                        ∙ rw (==_self (from b), other) refl
                  ])
            | inr miss ↦ v.in_order i e m (ground (arith, found i)) ∙ rw miss refl
          ];
        }
