-- ===== src/Network/Threads/Progress.antt =====
-- The assertions of core/coreloop_network_plugin.hpp under every interleaving, and the thread that
-- ticks.
use sekkeizu.Base.{
  ℕ, suc, ◌<◌, ◌≡◌, refl, ◌⊎◌, false, inl, inr, some, List, [], ◌∷◌, length, mem, Option-cases,
  Bool-cases,
}
use sekkeizu.Network.Defs.{Plugin, Derived, get_local, handle_network_packet}
use sekkeizu.Network.Valid.{handle_network_packet-total}
use sekkeizu.Network.Disconnect.{drop_endpoint-forgets}
use sekkeizu.Network.Threads.System.{
  System, Phase, idle, accumulating, ran, posted, dropping, Step, announces, accumulates, runs,
  posts, locks, drops, unlocks, Reach,
}
use sekkeizu.Network.Threads.Order.{Reach-IsValid}

-- How far a tick is.
abbrev pub Next : Phase → Phase → Type 0
Next idle p = p ≡ accumulating 0
Next (accumulating idx) p = (p ≡ accumulating (suc idx)) ⊎ (p ≡ ran)
Next ran p = p ≡ posted
Next posted p = (endpoints : List ℕ) × (p ≡ dropping endpoints)
Next (dropping []) p = p ≡ idle
Next (dropping (endpoint ∷ endpoints)) p = p ≡ dropping endpoints

Phase-cases :
    (p : Phase)
    → (p ≡ idle)
      ⊎ ((idx : ℕ) × (p ≡ accumulating idx))
      ⊎ (p ≡ ran)
      ⊎ (p ≡ posted)
      ⊎ (p ≡ dropping [])
      ⊎ ((endpoint : ℕ) × (endpoints : List ℕ) × (p ≡ dropping (endpoint ∷ endpoints)))
Phase-cases idle = inl refl
Phase-cases (accumulating idx) = inr (inl (idx, refl))
Phase-cases ran = inr (inr (inl refl))
Phase-cases posted = inr (inr (inr (inl refl)))
Phase-cases (dropping []) = inr (inr (inr (inr (inl refl))))
Phase-cases (dropping (e ∷ es)) = inr (inr (inr (inr (inr (e, es, refl)))))

module _ (from : ℕ → ℕ) (d : Derived) where
  -- The one thing that stops a tick: a disconnect of an endpoint that is not known.
  abbrev pub IsStuck : System → Type 0
  IsStuck s =
      (endpoint : ℕ) × (endpoints : List ℕ) × (s.phase ≡ dropping (endpoint ∷ endpoints))
      × (mem endpoint s.plugin.endpoints ≡ false)

  -- Whatever the interleaving: a packet on any thread is stored without a failed assertion, and the
  -- tick goes on to its next section, unless it is at a disconnect of an endpoint that is not known.
  pub assertions_hold :
      {s : System}
      → Reach from d s
      → ((unique_id endpoint buffer : ℕ)
          → unique_id < length s.plugin.locals
          → (q : Plugin) × (handle_network_packet unique_id endpoint buffer s.plugin ≡ some q))
        × (((t : System) × Step from d s t × Next s.phase t.phase) ⊎ IsStuck s)
  assertions_hold {s} r = (
    λ unique_id endpoint buffer h.
        let (q, stored, _) =
          handle_network_packet-total unique_id endpoint buffer s.plugin h
            (Reach-IsValid from d r) in
        (q, stored),
    elim (Phase-cases s.phase) [
      | inl i ↦ inl (_, announces i refl, rw (i, Next) refl)
      | inr (inl (idx, i)) ↦ elim (Option-cases (get_local idx s.plugin.locals)) [
        | inl gone ↦ inl (_, runs idx i gone refl, rw (i, Next) (inr refl))
        | inr (l, here) ↦ inl (_, accumulates idx l i here refl, rw (i, Next) (inl refl))
      ]
      | inr (inr (inl i)) ↦ inl (_, posts 0 i refl, rw (i, Next) refl)
      | inr (inr (inr (inl i))) ↦
          inl (_, locks i refl, rw (i, Next) (s.plugin.pending_disconnects, refl))
      | inr (inr (inr (inr (inl i)))) ↦ inl (_, unlocks i refl, rw (i, Next) refl)
      | inr (inr (inr (inr (inr (e, es, i))))) ↦ elim (Bool-cases (mem e s.plugin.endpoints)) [
        | inl known ↦
            let (q, dropped, _, _, _, _, _) =
              drop_endpoint-forgets e s.plugin known (Reach-IsValid from d r) in
            inl (_, drops e es q i dropped refl, rw (i, Next) refl)
        | inr unknown ↦ inr (e, es, i, unknown)
      ]
    ],
  )
