-- ===== src/Network/Ticks.antt =====
-- `tick` of core/coreloop_network_plugin.hpp as a whole.
use sekkeizu.Base.{
  ℕ, ◌+◌, ◌≤◌, ◌≡◌, refl, ap, ◌∙◌, subst, inl, inr, some, List, [], ◌∷◌, ◌++◌, arith, find, replace,
  find-replace, Avoids, Distinct, Option-cases, Bool-cases, ==_iff, ==_ne, ◌==◌,
}
use sekkeizu.Network.Defs.{Plugin, Event, on_disconnected, Derived}
use sekkeizu.Network.Tick.{
  announce, accumulate_inputs, accumulate, run_clients, post_tick, drop_endpoint, drop_all,
  execute_disconnects, before_disconnects, tick,
}
use sekkeizu.Network.Conserve.{held, delivered}
use sekkeizu.Network.Delivery.{
  held-announce, held-accumulate, held-run_clients, held-post_tick, held-drop_endpoint,
}

module _ (b : ℕ) where
  pub delivered-append :
      (xs ys : List Event) → delivered b (xs ++ ys) ≡ delivered b xs + delivered b ys
  delivered-append [] ys = omega arith
  delivered-append (Event.new_client e ∷ xs) ys = delivered-append xs ys
  delivered-append (Event.client_inputs e buffers ∷ xs) ys = omega (arith, delivered-append xs ys)
  delivered-append (Event.post_network_tick diff ∷ xs) ys = delivered-append xs ys
  delivered-append (on_disconnected e ∷ xs) ys = delivered-append xs ys

  pub before_disconnects-delivers :
      (d : Derived) (diff : ℕ) (p : Plugin)
      → let u = before_disconnects d diff p in held b u.0 + delivered b u.1 ≡ held b p
  unfolding before_disconnects
  before_disconnects-delivers d diff p =
      let a = announce d p in
      let c = run_clients d (accumulate a.0) in
      let u = post_tick d diff c.0 in
      omega (
        arith,
        (held-announce b d p).0,
        (held-announce b d p).1,
        held-accumulate b a.0,
        held-run_clients b d (accumulate a.0),
        (held-post_tick b d diff c.0).0,
        (held-post_tick b d diff c.0).1,
        delivered-append (a.1 ++ c.1) u.1,
        delivered-append a.1 c.1,
      )

  pub drop_all-held :
      (es : List ℕ) (p q : Plugin) (events : List Event)
      → drop_all es p ≡ some (q, events)
      → (held b q ≤ held b p) × (delivered b events ≡ 0)
  unfolding drop_all
  drop_all-held [] p q events h = ground arith
  drop_all-held (e ∷ es) p q events h = elim (Option-cases (drop_endpoint e p)) [
    | inl gone ↦ absurd (ground arith)
    | inr (p', dropped) ↦ elim (Option-cases (drop_all es p')) [
      | inl gone ↦ absurd (ground arith)
      | inr ((r, rest), done) ↦
          ground (arith, held-drop_endpoint b e p p' dropped, drop_all-held es p' r rest done)
    ]
  ]

  drop_all-nil :
      (p r : Plugin) (rest : List Event) → drop_all [] p ≡ some (r, rest) → held b r ≡ held b p
  unfolding drop_all
  drop_all-nil p r rest e = ground arith

  -- A tick that fails no assertion, with no packet handled in between, doubles no buffer: what the
  -- plugin still holds and what the derived class was given is at most what it held before. With no
  -- disconnect pending at its end, the two are equal.
  pub tick-delivers :
      (d : Derived) (diff : ℕ) (p q : Plugin) (events : List Event)
      → tick d diff p ≡ some (q, events)
      → (held b q + delivered b events ≤ held b p)
        × ((before_disconnects d diff p).0.pending_disconnects ≡ []
            → held b q + delivered b events ≡ held b p)
  unfolding tick execute_disconnects
  tick-delivers d diff p q events h =
      let u = before_disconnects d diff p in
      elim (Option-cases (drop_all u.0.pending_disconnects u.0)) [
        | inl gone ↦ absurd (ground arith)
        | inr ((r, rest), done) ↦
            let kept = drop_all-held u.0.pending_disconnects u.0 r rest done in
            let sum = before_disconnects-delivers d diff p in
            let joined = delivered-append u.1 rest in
            let same_q : held b q ≡ held b r = ground arith in
            let same_events : events ≡ u.1 ++ rest = ground arith in
            let seen : delivered b events ≡ delivered b u.1 + delivered b rest =
              ap (delivered b) same_events ∙ joined in
            (
              omega (arith, kept.0, kept.1),
              λ empty.
                  let e = subst (λ es. drop_all es u.0 ≡ some (r, rest)) empty done in
                  let same_r = drop_all-nil u.0 r rest e in omega (arith, kept.1, same_r),
            )
      ]

-- The other section of the tick, in detail.

-- The vectors of one thread: those of a client that is created go behind what the client has, in
-- the order of arrival, and leave an empty vector; those of another endpoint stay as they are.
pub accumulate_inputs-other :
    (e : ℕ) (clients inputs : List (ℕ × List ℕ))
    → Avoids e inputs
    → find e (accumulate_inputs clients inputs).0 ≡ find e clients
unfolding accumulate_inputs
accumulate_inputs-other e clients [] a = refl
accumulate_inputs-other e clients ((j, buffers) ∷ inputs) a = elim (Option-cases (find j clients)) [
  | inl gone ↦ rw (gone, accumulate_inputs) (accumulate_inputs-other e clients inputs a.1)
  | inr (w, here) ↦
      rw (here, accumulate_inputs)
        (accumulate_inputs-other e (replace j (w ++ buffers) clients) inputs a.1
          ∙ find-replace j e (w ++ buffers) w clients here
          ∙ rw (==_ne j e a.0))
]

-- The pending inputs of a known client are appended to its vector in their order, and its pending
-- vector is left empty, where the pending inputs have one vector for each endpoint.
pub accumulate_inputs-known :
    (e : ℕ) (clients inputs : List (ℕ × List ℕ)) (w v : List ℕ)
    → Distinct inputs
    → find e clients ≡ some w
    → find e inputs ≡ some v
    → let r = accumulate_inputs clients inputs in
      (find e r.0 ≡ some (w ++ v)) × (find e r.1 ≡ some [])
unfolding accumulate_inputs
accumulate_inputs-known e clients [] w v d h k = absurd (cc)
accumulate_inputs-known e clients ((j, buffers) ∷ inputs) w v d h k = elim (Bool-cases (j == e)) [
  | inl hit ↦
      let same : j ≡ e = (==_iff j e).0 hit in
      let here : find j clients ≡ some w = rw same h in
      let all : buffers ≡ v = ground arith in
      let clear : Avoids e inputs = subst (λ i. Avoids i inputs) same d.0 in
      ground (
        arith,
        accumulate_inputs-other e (replace j (w ++ buffers) clients) inputs clear,
        find-replace j e (w ++ buffers) w clients here,
      )
  | inr miss ↦ elim (Option-cases (find j clients)) [
    | inl gone ↦
        let k' : find e inputs ≡ some v = ground arith in
        ground (arith, accumulate_inputs-known e clients inputs w v d.1 h k')
    | inr (x, here) ↦
        let k' : find e inputs ≡ some v = ground arith in
        let h' : find e (replace j (x ++ buffers) clients) ≡ some w =
          ground (arith, find-replace j e (x ++ buffers) x clients here) in
        ground
          (arith, accumulate_inputs-known e (replace j (x ++ buffers) clients) inputs w v d.1 h' k')
  ]
]
