-- ===== src/Network/Disconnect.antt =====
-- Disconnects, and the validity of the state after a tick, in core/coreloop_network_plugin.hpp.
use sekkeizu.Base.{
  ℕ, ◌≡◌, refl, true, false, some, List, [], ◌∷◌, arith, mem, erase_set, mem-erase_set, map, has,
  erase_key, find-erase_key, All, ==_iff,
}
use sekkeizu.Network.Defs.{Local, Plugin}
use sekkeizu.Network.Tick.{drop_local, drop_endpoint}
use sekkeizu.Network.Valid.{IsLocal, IsValid}

-- No thread knows the endpoint or has a vector for it.
abbrev pub AllForget : ℕ → List Local → Type 0
AllForget e [] = Unit
AllForget e (l ∷ ls) =
    ((mem e l.local_endpoints ≡ false) × (has e l.pending_inputs ≡ false)) × AllForget e ls

drop_local-IsLocal :
    (endpoints : List ℕ) (e : ℕ) (l : Local)
    → IsLocal endpoints l
    → IsLocal (erase_set e endpoints) (drop_local e l)
unfolding drop_local
drop_local-IsLocal endpoints e l v = record {
  vectors = λ j. ground (
    arith,
    v.vectors j,
    find-erase_key e j l.pending_inputs,
    mem-erase_set e j l.local_endpoints,
  );
  shared = λ j h. ground (
    arith,
    v.shared j,
    mem-erase_set e j l.local_endpoints,
    mem-erase_set e j endpoints,
    ==_iff e j,
  );
}

drop_locals-IsLocal :
    (endpoints : List ℕ) (e : ℕ) (ls : List Local)
    → All (IsLocal endpoints) ls
    → All (IsLocal (erase_set e endpoints)) (map (drop_local e) ls)
drop_locals-IsLocal endpoints e [] v = tt
drop_locals-IsLocal endpoints e (l ∷ ls) v =
    (drop_local-IsLocal endpoints e l v.0, drop_locals-IsLocal endpoints e ls v.1)

drop_locals-AllForget :
    (endpoints : List ℕ) (e : ℕ) (ls : List Local)
    → All (IsLocal endpoints) ls
    → AllForget e (map (drop_local e) ls)
unfolding drop_local
drop_locals-AllForget endpoints e [] v = tt
drop_locals-AllForget endpoints e (l ∷ ls) v = (
  ground (
    arith,
    v.0.vectors e,
    find-erase_key e e l.pending_inputs,
    mem-erase_set e e l.local_endpoints,
  ),
  drop_locals-AllForget endpoints e ls v.1,
)

-- In a valid state the disconnect of a known endpoint passes its assertion and keeps the state valid.
-- Afterwards no thread knows the endpoint or has a vector for it, the shared set of endpoints does not
-- have it, and it is no client. The new endpoints are left as they were, so there it may still be.
pub drop_endpoint-forgets :
    (e : ℕ) (p : Plugin)
    → mem e p.endpoints ≡ true
    → IsValid p
    → (q : Plugin) × (drop_endpoint e p ≡ some q)
      × IsValid q
      × (mem e q.endpoints ≡ false)
      × (has e q.endpoint_data ≡ false)
      × (q.new_endpoints ≡ p.new_endpoints)
      × AllForget e q.locals
unfolding drop_endpoint
drop_endpoint-forgets e p m v = (
  record p {
    endpoint_data = erase_key e p.endpoint_data;
    endpoints = erase_set e p.endpoints;
    locals = map (drop_local e) p.locals;
  },
  rw m,
  record {
    locals = drop_locals-IsLocal p.endpoints e p.locals v.locals;
    clients = λ j h.
        ground
          (arith, v.clients j, mem-erase_set e j p.endpoints, find-erase_key e j p.endpoint_data);
  },
  ground (arith, mem-erase_set e e p.endpoints),
  ground (arith, find-erase_key e e p.endpoint_data),
  refl,
  drop_locals-AllForget p.endpoints e p.locals v.locals,
)
