-- ===== src/Network/Threads/Again.antt =====
-- Disconnects of endpoints that core/coreloop_network_plugin.hpp does not know, or not yet knew as
-- clients, when they are carried out.
use sekkeizu.Base.{
  ℕ, ◌≡◌, refl, subst, sym, ◌∙◌, ◌⊎◌, inl, inr, true, false, none, some, List, [], ◌∷◌, ◌==◌, arith,
  mem, has, mem-erase_set, mem-insert_set, find-erase_key, ==_self, ==_iff, Bool-cases,
  Option-cases,
}
use sekkeizu.Network.Defs.{
  Plugin, Derived, disconnect, disconnect_all, get_local, push_input, add_local, add_shared,
  handle_network_packet,
}
use sekkeizu.Network.Tick.{
  announce, create_clients, after_new_clients, run_clients, clear_inputs, after_inputs, post_tick,
  drop_endpoint,
}
use sekkeizu.Network.TickValid.{
  drop_endpoint-unknown, create_clients-has, accumulate_inputs-has, clear_inputs-has,
}
use sekkeizu.Network.Threads.System.{
  System, Step, packet, asks, announces, accumulates, runs, posts, locks, drops, unlocks,
  accumulate_local,
}

-- What the shared sets and the clients have of an endpoint.
record IsAlike (e : ℕ) (p q : Plugin) : Type 0 where
  known : mem e q.endpoints ≡ mem e p.endpoints
  new : mem e q.new_endpoints ≡ mem e p.new_endpoints
  client : has e q.endpoint_data ≡ has e p.endpoint_data

disconnect_all-IsAlike : (e : ℕ) (es : List ℕ) (p : Plugin) → IsAlike e p (disconnect_all es p)
unfolding disconnect_all disconnect
disconnect_all-IsAlike e [] p = record { known = refl; new = refl; client = refl }
disconnect_all-IsAlike e (x ∷ es) p =
    let rest = disconnect_all-IsAlike e es (disconnect x p) in
    record { known = rest.known; new = rest.new; client = rest.client }

-- A packet of another endpoint.
packet-IsAlike :
    (e unique_id endpoint buffer : ℕ) (p q : Plugin)
    → (endpoint == e) ≡ false
    → handle_network_packet unique_id endpoint buffer p ≡ some q
    → IsAlike e p q
unfolding handle_network_packet add_shared
packet-IsAlike e unique_id endpoint buffer p q other h =
    elim (Option-cases (get_local unique_id p.locals)) [
      | inl gone ↦ absurd (ground arith)
      | inr (l, here) ↦ elim (Option-cases (push_input endpoint buffer (add_local endpoint l))) [
        | inl gone ↦ absurd (ground arith)
        | inr (l', pushed) ↦ record {
          known = ground (arith, mem-insert_set endpoint e p.endpoints);
          new = ground (arith, mem-insert_set endpoint e p.new_endpoints);
          client = ground arith;
        }
      ]
    ]

-- The plugin does not know the endpoint.
abbrev IsGone : ℕ → Plugin → Type 0
IsGone e p = mem e p.endpoints ≡ false

-- It is new all the same, or a client.
abbrev IsStale : ℕ → Plugin → Type 0
IsStale e p = (mem e p.new_endpoints ≡ true) ⊎ (has e p.endpoint_data ≡ true)

alike-IsStale : (e : ℕ) (p q : Plugin) → IsAlike e p q → IsStale e p → IsStale e q
alike-IsStale e p q v (inl h) = inl (v.new ∙ h)
alike-IsStale e p q v (inr h) = inr (v.client ∙ h)

module _ (from : ℕ → ℕ) (d : Derived) where
  -- A step that is not a packet of the endpoint.
  abbrev pub IsApart : (e : ℕ) {s t : System} → Step from d s t → Type 0
  IsApart e (packet unique_id endpoint buffer q f h w) = (endpoint == e) ≡ false
  IsApart e (asks endpoint free w) = Unit
  IsApart e (announces i w) = Unit
  IsApart e (accumulates idx l i h w) = Unit
  IsApart e (runs idx i n w) = Unit
  IsApart e (posts diff i w) = Unit
  IsApart e (locks i w) = Unit
  IsApart e (drops endpoint endpoints q i h w) = Unit
  IsApart e (unlocks i w) = Unit

  -- Steps of all threads, without a packet of the endpoint.
  pub data Apart (e : ℕ) (s : System) : System → Type 0 where
    stay : Apart e s s
    follow : {t u : System} → Apart e s t → (x : Step from d t u) → IsApart e x → Apart e s u

  abbrev Keeps : ℕ → Plugin → Plugin → Type 0
  Keeps e p q = IsGone e q × (IsStale e p → IsStale e q)

  alike-Keeps : (e : ℕ) (p q : Plugin) → IsAlike e p q → IsGone e p → Keeps e p q
  alike-Keeps e p q v gone = (v.known ∙ gone, alike-IsStale e p q v)

  announce-Keeps :
      (e : ℕ) (p : Plugin)
      → IsGone e p
      → IsGone e (announce d p).0 × (IsStale e p → has e (announce d p).0.endpoint_data ≡ true)
  unfolding announce
  announce-Keeps e p gone =
      let made : Plugin = record p {
        endpoint_data = create_clients p.new_endpoints p.endpoint_data;
        new_endpoints = [];
      } in
      let v = disconnect_all-IsAlike e (after_new_clients d p.new_endpoints) made in
      (v.known ∙ gone, λ h. v.client ∙ create_clients-has p.new_endpoints p.endpoint_data e h)

  -- A disconnect, which can only be of another endpoint.
  drop-Keeps :
      (e endpoint : ℕ) (p q : Plugin) → drop_endpoint endpoint p ≡ some q → IsGone e p → Keeps e p q
  unfolding drop_endpoint
  drop-Keeps e endpoint p q h gone = elim (Bool-cases (endpoint == e)) [
    | inl same ↦
        let known : endpoint ≡ e = (==_iff endpoint e).0 same in
        absurd (ground (arith, known, drop_endpoint-unknown e p gone))
    | inr other ↦ elim (Bool-cases (mem endpoint p.endpoints)) [
      | inl known ↦
          alike-Keeps e p q
            (record {
              known = ground (arith, mem-erase_set endpoint e p.endpoints);
              new = ground arith;
              client = ground (arith, find-erase_key endpoint e p.endpoint_data);
            })
            gone
      | inr unknown ↦ absurd (ground (arith, drop_endpoint-unknown endpoint p unknown))
    ]
  ]

  Step-Keeps :
      (e : ℕ) {s t : System} (x : Step from d s t)
      → IsApart e x
      → IsGone e s.plugin
      → Keeps e s.plugin t.plugin
  unfolding disconnect accumulate_local run_clients post_tick drop_endpoint
  Step-Keeps e {s} (packet unique_id endpoint buffer q f h w) apart gone =
      let kept =
        alike-Keeps e s.plugin q (packet-IsAlike e unique_id endpoint buffer s.plugin q apart h)
          gone in
      subst (λ t. Keeps e s.plugin t.plugin) (sym w) kept
  Step-Keeps e {s} (asks endpoint free w) apart gone =
      subst (λ t. Keeps e s.plugin t.plugin) (sym w) (gone, λ h. h)
  Step-Keeps e {s} (announces i w) apart gone =
      let kept = announce-Keeps e s.plugin gone in
      subst (λ t. Keeps e s.plugin t.plugin) (sym w) (kept.0, λ h. inr (kept.1 h))
  Step-Keeps e {s} (accumulates idx l i h w) apart gone =
      let p = s.plugin in
      let same = accumulate_inputs-has p.endpoint_data l.pending_inputs e in
      subst (λ t. Keeps e s.plugin t.plugin) (sym w)
        (alike-Keeps e p (accumulate_local idx l p)
          (record { known = refl; new = refl; client = same.0 }) gone)
  Step-Keeps e {s} (runs idx i n w) apart gone =
      let p = s.plugin in
      let v =
        disconnect_all-IsAlike e (after_inputs d p.endpoint_data)
          (record p { endpoint_data = clear_inputs p.endpoint_data }) in
      subst (λ t. Keeps e s.plugin t.plugin) (sym w)
        (alike-Keeps e p (run_clients d p).0
          (record {
            known = v.known;
            new = v.new;
            client = v.client ∙ clear_inputs-has p.endpoint_data e;
          })
          gone)
  Step-Keeps e {s} (posts diff i w) apart gone =
      subst (λ t. Keeps e s.plugin t.plugin) (sym w)
        (alike-Keeps e s.plugin _ (disconnect_all-IsAlike e (d.after_network_tick diff) s.plugin)
          gone)
  Step-Keeps e {s} (locks i w) apart gone =
      subst (λ t. Keeps e s.plugin t.plugin) (sym w) (gone, λ h. h)
  Step-Keeps e {s} (drops endpoint endpoints q i h w) apart gone =
      subst (λ t. Keeps e s.plugin t.plugin) (sym w) (drop-Keeps e endpoint s.plugin q h gone)
  Step-Keeps e {s} (unlocks i w) apart gone =
      subst (λ t. Keeps e s.plugin t.plugin) (sym w) (gone, λ h. h)

  Apart-Keeps : (e : ℕ) {s t : System} → Apart e s t → IsGone e s.plugin → Keeps e s.plugin t.plugin
  Apart-Keeps e stay gone = (gone, λ h. h)
  Apart-Keeps e (follow r x apart) gone =
      let (still_gone, stale) = Apart-Keeps e r gone in
      let (gone_now, stale_now) = Step-Keeps e x apart still_gone in
      (gone_now, λ h. stale_now (stale h))

  drop_endpoint-IsGone :
      (e : ℕ) (p q : Plugin)
      → drop_endpoint e p ≡ some q
      → IsGone e q × (mem e p.new_endpoints ≡ true → mem e q.new_endpoints ≡ true)
  unfolding drop_endpoint
  drop_endpoint-IsGone e p q h =
      (ground (arith, mem-erase_set e e p.endpoints, ==_self e), λ new. ground arith)

  -- After a disconnect the next one of the same endpoint fails the assertion, whatever packets of
  -- other endpoints, requests and sections of ticks come in between, as long as no packet of the
  -- endpoint itself is stored in between.
  pub drop_endpoint-again :
      (e : ℕ) (p : Plugin) {s t : System}
      → drop_endpoint e p ≡ some s.plugin
      → Apart e s t
      → drop_endpoint e t.plugin ≡ none
  drop_endpoint-again e p {s} {t} dropped r =
      let gone = (drop_endpoint-IsGone e p s.plugin dropped).0 in
      drop_endpoint-unknown e t.plugin (Apart-Keeps e r gone).0

  -- An endpoint that is disconnected while it is new stays new: the next start of a tick leaves it a
  -- client that the plugin does not know, whose next disconnect fails the assertion. Packets of other
  -- endpoints, requests and sections of ticks may come before, but no packet of the endpoint itself.
  pub drop_endpoint-stale :
      (e : ℕ) (p : Plugin) {s t : System}
      → mem e p.new_endpoints ≡ true
      → drop_endpoint e p ≡ some s.plugin
      → Apart e s t
      → let r = (announce d t.plugin).0 in
        (has e r.endpoint_data ≡ true) × (mem e r.endpoints ≡ false) × (drop_endpoint e r ≡ none)
  drop_endpoint-stale e p {s} {t} new dropped r =
      let (gone, still_new) = drop_endpoint-IsGone e p s.plugin dropped in
      let (still_gone, stale) = Apart-Keeps e r gone in
      let (unknown, client) = announce-Keeps e t.plugin still_gone in
      (
        client (stale (inl (still_new new))),
        unknown,
        drop_endpoint-unknown e (announce d t.plugin).0 unknown,
      )
