-- ===== src/Network/Valid.antt =====
-- The invariant of core/coreloop_network_plugin.hpp, and packets under it.
use sekkeizu.Base.{
  ℕ, zero, suc, ◌<◌, ◌≡◌, refl, ◌⊎◌, inl, inr, true, some, List, [], ◌∷◌, ◌++◌, arith, All,
  All-mono, length, mem, mem-insert_set, find, replace, has, find-emplace, find-replace,
  Option-cases, ==_iff,
}
use sekkeizu.Network.Defs.{
  Local, Plugin, push_input, add_local, add_shared, get_local, set_local, handle_network_packet,
}

-- A thread has a vector for exactly the endpoints that it knows, and all threads share what they know.
pub record IsLocal (endpoints : List ℕ) (l : Local) : Type 0 where
  pub vectors : (e : ℕ) → has e l.pending_inputs ≡ mem e l.local_endpoints
  pub shared : (e : ℕ) → mem e l.local_endpoints ≡ true → mem e endpoints ≡ true

-- Every known endpoint is announced to the derived class, or will be by the next tick.
pub record IsValid (p : Plugin) : Type 0 where
  pub locals : All (IsLocal p.endpoints) p.locals
  pub clients :
      (e : ℕ)
      → mem e p.endpoints ≡ true
      → (mem e p.new_endpoints ≡ true) ⊎ (has e p.endpoint_data ≡ true)

add_local-IsLocal :
    (endpoints : List ℕ) (e : ℕ) (l : Local)
    → mem e endpoints ≡ true
    → IsLocal endpoints l
    → IsLocal endpoints (add_local e l)
unfolding add_local
add_local-IsLocal endpoints e l m v = record {
  vectors = λ j. ground (
    arith,
    v.vectors j,
    v.vectors e,
    mem-insert_set e j l.local_endpoints,
    find-emplace e j [] l.pending_inputs,
  );
  shared = λ j h. ground (arith, v.shared j, mem-insert_set e j l.local_endpoints, ==_iff e j);
}

add_local-mem : (e : ℕ) (l : Local) → mem e (add_local e l).local_endpoints ≡ true
unfolding add_local
add_local-mem e l = ground (arith, mem-insert_set e e l.local_endpoints)

-- The assertion of the packet job holds: a client that the thread knows has its vector.
push_input-total :
    (endpoints : List ℕ) (e buffer : ℕ) (l : Local)
    → mem e l.local_endpoints ≡ true
    → IsLocal endpoints l
    → (l' : Local) × (push_input e buffer l ≡ some l') × IsLocal endpoints l'
unfolding push_input
push_input-total endpoints e buffer l m v = elim (Option-cases (find e l.pending_inputs)) [
  | inl gone ↦ absurd (ground (arith, v.vectors e))
  | inr (buffers, here) ↦ (
    record l { pending_inputs = replace e (buffers ++ buffer ∷ []) l.pending_inputs },
    rw (here, push_input),
    record {
      vectors = λ j. ground (
        arith,
        v.vectors j,
        v.vectors e,
        find-replace e j (buffers ++ buffer ∷ []) buffers l.pending_inputs here,
        ==_iff e j,
      );
      shared = v.shared;
    },
  )
]

get_local-All {κ} :
    (P : Local → Type κ) (id : ℕ) (ls : List Local)
    → id < length ls
    → All P ls
    → (l : Local) × (get_local id ls ≡ some l) × P l
get_local-All P id [] h a = absurd (omega arith)
get_local-All P zero (l ∷ ls) h a = (l, refl, a.0)
get_local-All P (suc id) (l ∷ ls) h a = get_local-All P id ls (omega arith) a.1

pub set_local-All {κ} :
    (P : Local → Type κ) (id : ℕ) (v : Local) (ls : List Local)
    → P v
    → All P ls
    → All P (set_local id v ls)
set_local-All P id v [] h a = tt
set_local-All P zero v (l ∷ ls) h a = (h, a.1)
set_local-All P (suc id) v (l ∷ ls) h a = (a.0, set_local-All P id v ls h a.1)

IsLocal-mono :
    (xs ys : List ℕ)
    → ((e : ℕ) → mem e xs ≡ true → mem e ys ≡ true)
    → (ls : List Local) → All (IsLocal xs) ls
    → All (IsLocal ys) ls
IsLocal-mono xs ys f =
    All-mono _ _ (λ l v. record { vectors = v.vectors; shared = λ e h. f e (v.shared e h) })

module _ (e : ℕ) (l : Local) (p : Plugin) (v : IsValid p) (k : IsLocal p.endpoints l) where
  add_shared-grows : (j : ℕ) → mem j p.endpoints ≡ true → mem j (add_shared e l p).endpoints ≡ true
  unfolding add_shared
  add_shared-grows j h = ground (arith, mem-insert_set e j p.endpoints)

  add_shared-mem : mem e (add_shared e l p).endpoints ≡ true
  unfolding add_shared
  add_shared-mem = ground (arith, k.shared e, mem-insert_set e e p.endpoints)

  add_shared-clients :
      (j : ℕ)
      → mem j (add_shared e l p).endpoints ≡ true
      → (mem j (add_shared e l p).new_endpoints ≡ true)
        ⊎ (has j (add_shared e l p).endpoint_data ≡ true)
  unfolding add_shared
  add_shared-clients j h =
      ground
        (arith, v.clients j, mem-insert_set e j p.endpoints, mem-insert_set e j p.new_endpoints)

-- In a valid state a packet of any network thread is stored: no assertion fails, and the state
-- stays valid.
pub handle_network_packet-total :
    (unique_id endpoint buffer : ℕ) (p : Plugin)
    → unique_id < length p.locals
    → IsValid p
    → (q : Plugin) × (handle_network_packet unique_id endpoint buffer p ≡ some q) × IsValid q
unfolding handle_network_packet
handle_network_packet-total unique_id endpoint buffer p h v =
    let (l, here, k) = get_local-All _ unique_id p.locals h v.locals in
    let shared = add_shared endpoint l p in
    let k' : IsLocal shared.endpoints l = record {
      vectors = k.vectors;
      shared = λ e m. add_shared-grows endpoint l p v k e (k.shared e m);
    } in
    let (l', pushed, k'') =
      push_input-total shared.endpoints endpoint buffer (add_local endpoint l)
        (add_local-mem endpoint l)
        (add_local-IsLocal shared.endpoints endpoint l (add_shared-mem endpoint l p v k) k') in
    (
      record shared { locals = set_local unique_id l' p.locals },
      rw (here, handle_network_packet) (rw (pushed, handle_network_packet)),
      record {
        locals = set_local-All _ unique_id l' p.locals k'' (
            IsLocal-mono p.endpoints shared.endpoints (add_shared-grows endpoint l p v k) p.locals
              v.locals);
        clients = add_shared-clients endpoint l p v k;
      },
    )
