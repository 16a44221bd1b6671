-- ===== src/Network/Threads/Invariant.antt =====
-- Each section of core/coreloop_network_plugin.hpp keeps the buffers of an endpoint in the order in
-- which a thread stored them.
use sekkeizu.Base.{
  ℕ, ◌≡◌, ◌≢◌, sym, ap, ap₂, subst, ◌∙◌, inl, inr, some, List, [], ◌∷◌, ◌++◌, arith, ◌==◌, ==_iff,
  ==_ne, ==_self, map, keep, All, All-mono, Distinct, append-nil, Bool-cases,
}
use sekkeizu.Network.Defs.{Local, Event, new_client, post_network_tick, get_local, set_local}
use sekkeizu.Network.Tick.{create_clients, accumulate_inputs, clear_inputs, input_events}
use sekkeizu.Network.Threads.Vectors.{
  vector, create_clients-vector, clear_inputs-vector, Distinct-clear_inputs,
  accumulate_inputs-Moves, accumulate_inputs-Distinct,
}
use sekkeizu.Network.Threads.Locals.{get_local-set_local}
use sekkeizu.Network.Threads.Given.{
  given, given-append, given-new_clients, given-input_events, keep_behind, keep-All, keep_none,
}

module _ (from : ℕ → ℕ) where
  -- The buffers of a list that came in on the thread.
  abbrev pub of_thread : ℕ → List ℕ → List ℕ
  of_thread i = keep (λ b. from b == i)

  -- What thread `i` holds came in on it.
  abbrev pub IsOwn : ℕ → Local → Type 0
  IsOwn i l =
      Distinct l.pending_inputs × ((e : ℕ) → All (λ b. from b ≡ i) (vector e l.pending_inputs))

  -- The buffers of an endpoint from a thread: given to the derived class, then in the vector of the
  -- client, then in the vector of the thread.
  abbrev pub line : List (ℕ × List ℕ) → List Event → ℕ → ℕ → Local → List ℕ
  line clients events i e l =
      of_thread i (given e [] events ++ vector e clients) ++ vector e l.pending_inputs

  pub record IsInOrder (clients : List (ℕ × List ℕ)) (locals : List Local) (events : List Event)
      (stored : ℕ → ℕ → List ℕ) : Type 0 where
    pub distinct : Distinct clients
    pub own : (i : ℕ) (l : Local) → get_local i locals ≡ some l → IsOwn i l
    pub in_order :
        (i e : ℕ) (l : Local) → get_local i locals ≡ some l → line clients events i e l ≡ stored i e

  module _ (clients : List (ℕ × List ℕ)) (locals : List Local) (events : List Event)
      (stored : ℕ → ℕ → List ℕ) (v : IsInOrder clients locals events stored) where
    -- Callbacks that hand out no buffer change nothing.
    pub announce-IsInOrder :
        (es : List ℕ)
        → IsInOrder (create_clients es clients) locals (events ++ map new_client es) stored
    announce-IsInOrder es = record {
      distinct = (create_clients-vector es clients 0 v.distinct).1;
      own = v.own;
      in_order = λ i e l h.
          ap₂ (λ g w. of_thread i (g ++ w) ++ vector e l.pending_inputs)
            (given-append e events (map new_client es) [] ∙ given-new_clients e _ es)
            (create_clients-vector es clients e v.distinct).0
          ∙ v.in_order i e l h;
    }

    pub run_clients-IsInOrder :
        IsInOrder (clear_inputs clients) locals (events ++ input_events clients) stored
    run_clients-IsInOrder = record {
      distinct = Distinct-clear_inputs clients v.distinct;
      own = v.own;
      in_order = λ i e l h.
          ap₂ (λ g w. of_thread i (g ++ w) ++ vector e l.pending_inputs)
            (given-append e events (input_events clients) []
              ∙ given-input_events e _ clients v.distinct)
            (clear_inputs-vector clients e)
          ∙ ap (λ g. of_thread i g ++ vector e l.pending_inputs) (append-nil _)
          ∙ v.in_order i e l h;
    }

    pub posts-IsInOrder :
        (diff : ℕ) → IsInOrder clients locals (events ++ post_network_tick diff ∷ []) stored
    posts-IsInOrder diff = record {
      distinct = v.distinct;
      own = v.own;
      in_order = λ i e l h.
          ap (λ g. of_thread i (g ++ vector e clients) ++ vector e l.pending_inputs)
            (given-append e events (post_network_tick diff ∷ []) [])
          ∙ v.in_order i e l h;
    }

    -- The inputs of thread `idx` move to the clients.
    module _ (idx : ℕ) (l : Local) (here : get_local idx locals ≡ some l) where
      abbrev moved : List (ℕ × List ℕ) × List (ℕ × List ℕ)
      moved = accumulate_inputs clients l.pending_inputs

      abbrev after : List Local
      after = set_local idx (record l { pending_inputs = moved.1 }) locals

      moved-IsOwn : IsOwn idx (record l { pending_inputs = moved.1 })
      moved-IsOwn =
          let (distinct, all) = v.own idx l here in
          (
            (accumulate_inputs-Distinct clients l.pending_inputs v.distinct distinct).1,
            λ e. elim (accumulate_inputs-Moves e clients l.pending_inputs distinct) [
              | inl (_, gone) ↦ subst (All _) (sym gone) tt
              | inr (_, same) ↦ subst (All _) (sym same) (all e)
            ],
          )

      -- The buffers of the thread that moves keep their place, and those of another thread too.
      moved-same :
          (e : ℕ)
          → line moved.0 events idx e (record l { pending_inputs = moved.1 })
            ≡ line clients events idx e l
      moved-same e =
          let (distinct, all) = v.own idx l here in
          let g = given e [] events in
          let w = vector e clients in
          let x = vector e l.pending_inputs in
          let kept : of_thread idx x ≡ x =
            keep-All (λ b. from b == idx) x
              (All-mono _ _ (λ b q. (==_iff (from b) idx).1 q) x (all e)) in
          elim (accumulate_inputs-Moves e clients l.pending_inputs distinct) [
            | inl (grown, gone) ↦
                ap₂ (λ c q. of_thread idx (g ++ c) ++ q) grown gone
                ∙ append-nil _
                ∙ keep_behind (λ b. from b == idx) g w x x kept
            | inr (same, left) ↦ ap₂ (λ c q. of_thread idx (g ++ c) ++ q) same left
          ]

      moved-other :
          (i e : ℕ)
          → i ≢ idx
          → of_thread i (given e [] events ++ vector e moved.0)
            ≡ of_thread i (given e [] events ++ vector e clients)
      moved-other i e ne =
          let (distinct, all) = v.own idx l here in
          let g = given e [] events in
          let w = vector e clients in
          let x = vector e l.pending_inputs in
          let kept : of_thread i x ≡ [] =
            keep_none (λ b. from b == i) x
              (All-mono _ _ (λ b q. ==_ne (from b) i (λ r. ne (sym r ∙ q))) x (all e)) in
          elim (accumulate_inputs-Moves e clients l.pending_inputs distinct) [
            | inl (grown, _) ↦
                ap (λ c. of_thread i (g ++ c)) grown
                ∙ keep_behind (λ b. from b == i) g w x [] kept
                ∙ append-nil _
            | inr (same, _) ↦ ap (λ c. of_thread i (g ++ c)) same
          ]

      pub accumulates-IsInOrder : IsInOrder moved.0 after events stored
      accumulates-IsInOrder =
          let (own_distinct, all) = v.own idx l here in
          let l' : Local = record l { pending_inputs = moved.1 } in
          let found = λ (i : ℕ). get_local-set_local idx i l l' locals here in
          record {
            distinct =
                (accumulate_inputs-Distinct clients l.pending_inputs v.distinct own_distinct).0;
            own = λ i k h. elim (Bool-cases (idx == i)) [
              | inl hit ↦
                  let same : idx ≡ i = (==_iff idx i).0 hit in
                  let is : l' ≡ k = ground (arith, found i) in
                  subst (λ j. IsOwn j k) same (subst (IsOwn idx) is moved-IsOwn)
              | inr miss ↦ v.own i k (ground (arith, found i))
            ];
            in_order = λ i e k h. elim (Bool-cases (idx == i)) [
              | inl hit ↦
                  let same : idx ≡ i = (==_iff idx i).0 hit in
                  let is : l' ≡ k = ground (arith, found i) in
                  subst (λ j. line moved.0 events j e k ≡ stored j e) same
                    (subst (λ m. line moved.0 events idx e m ≡ stored idx e) is
                      (moved-same e ∙ v.in_order idx e l here))
              | inr miss ↦
                  let ne : i ≢ idx = λ r. absurd (ground (arith, ==_self i)) in
                  ap (λ g. g ++ vector e k.pending_inputs) (moved-other i e ne)
                  ∙ v.in_order i e k (ground (arith, found i))
            ];
          }
