-- ===== src/Server/Begin.antt =====
-- The loop over the network threads in `start` of core/coreloop.hpp, as steps of the server.
use sekkeizu.Base.{
  ℕ, zero, suc, ◌≡◌, refl, sym, ap, subst, ◌∙◌, some, List, [], ◌∷◌, ◌++◌, arith, append-nil,
  append_assoc, length, Option-cases, inl, inr,
}
use sekkeizu.Network.Defs.{Derived}
use sekkeizu.Pool.Defs.{QueueApi, HeapApi}
use sekkeizu.Coreloop.Receive.{Receive, Memory, handle_connections}
use sekkeizu.Coreloop.Start.{start_receives}
use sekkeizu.Server.Hooks.{World, core_loop_impl}
use sekkeizu.Server.System.{Server, Step, Reach}

module _ {Q H : Type 0} (queue : QueueApi Q) (pools : HeapApi H) (d : Derived)
    (user_tick : ℕ → World → World) where
  -- `start` leaves one pending receive for each network thread.
  pub start_receives-Reach :
      (thread num_network_threads : ℕ) (s : Server Q H) (receives : List Receive)
      (m : Memory Q H World)
      → Reach queue pools d user_tick s
      → start_receives queue pools (core_loop_impl d user_tick) thread num_network_threads s.memory
        ≡ some (receives, m)
      → Reach queue pools d user_tick (record s { memory = m; receives = s.receives ++ receives })
        × (length receives ≡ num_network_threads)
  unfolding start_receives
  start_receives-Reach thread zero s receives m r h =
      let none_new : [] ≡ receives = ground arith in
      let same : s.memory ≡ m = ground arith in
      (
        subst
            (λ (n : Memory Q H World).
              Reach queue pools d user_tick
                (record s { memory = n; receives = s.receives ++ receives }))
            same
            (subst (λ (l : List Receive). Reach queue pools d user_tick (record s { receives = l }))
              (sym (append-nil s.receives) ∙ ap (λ l. s.receives ++ l) none_new) r),
        sym (ap (length) none_new),
      )
  start_receives-Reach thread (suc num_network_threads) s receives m r h =
      elim (Option-cases
        (handle_connections queue pools (core_loop_impl d user_tick) thread s.memory)) [
          | inl gone ↦ absurd (ground arith)
          | inr ((first, n), opened) ↦
              elim (Option-cases (
                start_receives queue pools (core_loop_impl d user_tick) thread num_network_threads
                  n)) [
                    | inl gone ↦ absurd (ground arith)
                    | inr ((rest, q), others) ↦
                        let all : first ∷ rest ≡ receives = ground arith in
                        let same : q ≡ m = ground arith in
                        let s' : Server Q H = record s {
                          memory = n;
                          receives = s.receives ++ first ∷ [];
                        } in
                        let ih =
                          start_receives-Reach thread num_network_threads s' rest q
                            (Reach.next r (Step.opens thread first n opened refl)) others in
                        (
                          subst
                              (λ (k : Memory Q H World).
                                Reach queue pools d user_tick
                                  (record s { memory = k; receives = s.receives ++ receives }))
                              same
                              (subst
                                (λ (l : List Receive).
                                  Reach queue pools d user_tick
                                    (record s { memory = q; receives = l }))
                                (append_assoc s.receives (first ∷ []) rest
                                  ∙ ap (λ l. s.receives ++ l) all)
                                ih.0),
                          sym (ap length all) ∙ omega (arith, ih.1),
                        )
                  ]
        ]
