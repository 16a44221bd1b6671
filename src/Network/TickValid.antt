-- ===== src/Network/TickValid.antt =====
-- A tick of core/coreloop_network_plugin.hpp keeps the state valid.
use sekkeizu.Base.{
  ℕ, ◌≡◌, refl, ◌∙◌, subst, ◌⊎◌, inl, inr, true, false, none, some, List, [], ◌∷◌, ◌++◌, arith, mem,
  find, replace, emplace, has, find-replace, find-emplace, All, Option-cases, Bool-cases, ==_iff,
}
use sekkeizu.Network.Defs.{Local, Plugin, Event, Derived, disconnect, disconnect_all}
use sekkeizu.Network.Tick.{
  create_clients, after_new_clients, after_inputs, announce, accumulate_inputs, accumulate_locals,
  accumulate, clear_inputs, run_clients, post_tick, drop_endpoint, drop_all, execute_disconnects,
  before_disconnects, tick,
}
use sekkeizu.Network.Valid.{IsLocal, IsValid}
use sekkeizu.Network.Disconnect.{drop_endpoint-forgets}

pub drop_endpoint-unknown :
    (e : ℕ) (p : Plugin) → mem e p.endpoints ≡ false → drop_endpoint e p ≡ none
unfolding drop_endpoint
drop_endpoint-unknown e p h = rw h

pub disconnect_all-IsValid : (es : List ℕ) (p : Plugin) → IsValid p → IsValid (disconnect_all es p)
unfolding disconnect_all disconnect
disconnect_all-IsValid [] p v = v
disconnect_all-IsValid (e ∷ es) p v =
    disconnect_all-IsValid es (disconnect e p) (record { locals = v.locals; clients = v.clients })

pub create_clients-has :
    (es : List ℕ) (m : List (ℕ × List ℕ)) (j : ℕ)
    → (mem j es ≡ true) ⊎ (has j m ≡ true)
    → has j (create_clients es m) ≡ true
unfolding create_clients
create_clients-has [] m j (inl h) = absurd (ground arith)
create_clients-has [] m j (inr h) = h
create_clients-has (e ∷ es) m j h =
    create_clients-has es (emplace e [] m) j (ground (arith, find-emplace e j [] m))

pub accumulate_inputs-has :
    (clients inputs : List (ℕ × List ℕ)) (j : ℕ)
    → let r = accumulate_inputs clients inputs in
      (has j r.0 ≡ has j clients) × (has j r.1 ≡ has j inputs)
unfolding accumulate_inputs
accumulate_inputs-has clients [] j = (refl, refl)
accumulate_inputs-has clients ((e, buffers) ∷ inputs) j = elim (Option-cases (find e clients)) [
  | inl gone ↦ ground (arith, accumulate_inputs-has clients inputs j)
  | inr (w, here) ↦ ground (
    arith,
    accumulate_inputs-has (replace e (w ++ buffers) clients) inputs j,
    find-replace e j (w ++ buffers) w clients here,
    ==_iff e j,
  )
]

accumulate_locals-IsLocal :
    (endpoints : List ℕ) (clients : List (ℕ × List ℕ)) (ls : List Local)
    → All (IsLocal endpoints) ls
    → let r = accumulate_locals clients ls in
      All (IsLocal endpoints) r.1 × ((j : ℕ) → has j r.0 ≡ has j clients)
unfolding accumulate_locals
accumulate_locals-IsLocal endpoints clients [] v = (tt, λ j. refl)
accumulate_locals-IsLocal endpoints clients (l ∷ ls) v =
    let moved = accumulate_inputs clients l.pending_inputs in
    let rest = accumulate_locals-IsLocal endpoints moved.0 ls v.1 in
    (
      (
        record {
          vectors = λ e. (accumulate_inputs-has clients l.pending_inputs e).1 ∙ v.0.vectors e;
          shared = v.0.shared;
        },
        rest.0,
      ),
      λ j. rest.1 j ∙ (accumulate_inputs-has clients l.pending_inputs j).0,
    )

pub clear_inputs-has : (m : List (ℕ × List ℕ)) (j : ℕ) → has j (clear_inputs m) ≡ has j m
unfolding clear_inputs
clear_inputs-has [] j = refl
clear_inputs-has ((e, buffers) ∷ m) j = ground (arith, clear_inputs-has m j)

pub announce-IsValid : (d : Derived) (p : Plugin) → IsValid p → IsValid (announce d p).0
unfolding announce
announce-IsValid d p v =
    disconnect_all-IsValid (after_new_clients d p.new_endpoints)
      (record p {
        endpoint_data = create_clients p.new_endpoints p.endpoint_data;
        new_endpoints = [];
      })
      (record {
        locals = v.locals;
        clients = λ e h. inr (create_clients-has p.new_endpoints p.endpoint_data e (v.clients e h));
      })

accumulate-IsValid : (p : Plugin) → IsValid p → IsValid (accumulate p)
unfolding accumulate
accumulate-IsValid p v =
    let moved = accumulate_locals-IsLocal p.endpoints p.endpoint_data p.locals v.locals in
    record { locals = moved.0; clients = λ e h. ground (arith, v.clients e, moved.1 e) }

pub run_clients-IsValid : (d : Derived) (p : Plugin) → IsValid p → IsValid (run_clients d p).0
unfolding run_clients
run_clients-IsValid d p v =
    disconnect_all-IsValid (after_inputs d p.endpoint_data)
      (record p { endpoint_data = clear_inputs p.endpoint_data })
      (record {
        locals = v.locals;
        clients = λ e h. ground (arith, v.clients e, clear_inputs-has p.endpoint_data e);
      })

pub post_tick-IsValid :
    (d : Derived) (diff : ℕ) (p : Plugin) → IsValid p → IsValid (post_tick d diff p).0
unfolding post_tick
post_tick-IsValid d diff p v = disconnect_all-IsValid (d.after_network_tick diff) p v

drop_all-IsValid :
    (es : List ℕ) (p q : Plugin) (events : List Event)
    → drop_all es p ≡ some (q, events)
    → IsValid p
    → IsValid q
unfolding drop_all
drop_all-IsValid [] p q events h v = subst IsValid (ground arith) v
drop_all-IsValid (e ∷ es) p q events h v = elim (Bool-cases (mem e p.endpoints)) [
  | inl known ↦
      let (p', dropped, v', _, _, _, _) = drop_endpoint-forgets e p known v in
      elim (Option-cases (drop_all es p')) [
        | inl gone ↦ absurd (ground arith)
        | inr ((r, rest), done) ↦
            subst IsValid (ground arith) (drop_all-IsValid es p' r rest done v')
      ]
  | inr unknown ↦ absurd (ground (arith, drop_endpoint-unknown e p unknown))
]

-- A tick that passes its assertions leaves a valid state.
pub tick-IsValid :
    (d : Derived) (diff : ℕ) (p q : Plugin) (events : List Event)
    → tick d diff p ≡ some (q, events)
    → IsValid p
    → IsValid q
unfolding tick execute_disconnects before_disconnects
tick-IsValid d diff p q events h v =
    let a = announce d p in
    let c = run_clients d (accumulate a.0) in
    let u = (post_tick d diff c.0).0 in
    let valid : IsValid u =
      post_tick-IsValid d diff c.0 (
        run_clients-IsValid d (accumulate a.0) (accumulate-IsValid a.0 (announce-IsValid d p v))) in
    elim (Option-cases (drop_all u.pending_disconnects u)) [
      | inl gone ↦ absurd (ground arith)
      | inr ((r, rest), done) ↦
          let w = drop_all-IsValid u.pending_disconnects u r rest done valid in
          let same : record r { pending_disconnects = [] } ≡ q = ground arith in
          subst IsValid same (record { locals = w.locals; clients = w.clients })
    ]
