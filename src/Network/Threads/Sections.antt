-- ===== src/Network/Threads/Sections.antt =====
-- What a packet and the sections of a tick keep, in core/coreloop_network_plugin.hpp.
use sekkeizu.Base.{
  ℕ, zero, suc, ◌<◌, ◌≡◌, refl, ap, subst, ◌∙◌, inl, inr, some, List, [], ◌∷◌, arith, length, mem,
  map, All, Option-cases, Bool-cases,
}
use sekkeizu.Network.Defs.{
  Local, Plugin, Derived, disconnect, disconnect_all, get_local, set_local, push_input, add_local,
  handle_network_packet,
}
use sekkeizu.Network.Tick.{
  announce, after_new_clients, run_clients, after_inputs, post_tick, drop_endpoint, drop_local,
}
use sekkeizu.Network.Valid.{IsLocal, IsValid, handle_network_packet-total, set_local-All}
use sekkeizu.Network.Conserve.{add_shared-data}
use sekkeizu.Network.Disconnect.{drop_endpoint-forgets}
use sekkeizu.Network.TickValid.{accumulate_inputs-has, drop_endpoint-unknown}
use sekkeizu.Network.Threads.System.{blanks, accumulate_local}
use sekkeizu.Network.Threads.Locals.{All-get_local}

-- Requests for disconnects leave the maps alone.
pub disconnect_all_lem :
    (es : List ℕ) (p : Plugin)
    → ((disconnect_all es p).locals ≡ p.locals)
      × ((disconnect_all es p).endpoint_data ≡ p.endpoint_data)
unfolding disconnect_all disconnect
disconnect_all_lem [] p = (refl, refl)
disconnect_all_lem (e ∷ es) p = disconnect_all_lem es (disconnect e p)

get_local-lt : (i : ℕ) (l : Local) (ls : List Local) → get_local i ls ≡ some l → i < length ls
get_local-lt i l [] h = absurd (cc)
get_local-lt zero l (x ∷ ls) h = omega arith
get_local-lt (suc i) l (x ∷ ls) h = omega (arith, get_local-lt i l ls h)

-- What a packet that is handled writes.
pub record Handled (unique_id endpoint buffer : ℕ) (p q : Plugin) : Type 0 where
  pub old : Local
  pub new : Local
  pub here : get_local unique_id p.locals ≡ some old
  pub pushed : push_input endpoint buffer (add_local endpoint old) ≡ some new
  pub locals : q.locals ≡ set_local unique_id new p.locals
  pub clients : q.endpoint_data ≡ p.endpoint_data

pub handle_network_packet-Handled :
    (unique_id endpoint buffer : ℕ) (p q : Plugin)
    → handle_network_packet unique_id endpoint buffer p ≡ some q
    → Handled unique_id endpoint buffer p q
unfolding handle_network_packet
handle_network_packet-Handled unique_id endpoint buffer p q h =
    elim (Option-cases (get_local unique_id p.locals)) [
      | inl gone ↦ absurd (ground arith)
      | inr (l, here) ↦ elim (Option-cases (push_input endpoint buffer (add_local endpoint l))) [
        | inl gone ↦ absurd (ground arith)
        | inr (l', pushed) ↦ record {
          old = l;
          new = l';
          here = here;
          pushed = pushed;
          locals = ground arith;
          clients = ground (arith, add_shared-data 0 endpoint l p);
        }
      ]
    ]

pub accumulate_local-IsValid :
    (idx : ℕ) (l : Local) (p : Plugin)
    → get_local idx p.locals ≡ some l
    → IsValid p
    → IsValid (accumulate_local idx l p)
unfolding accumulate_local
accumulate_local-IsValid idx l p here v =
    let moved = λ (e : ℕ). accumulate_inputs-has p.endpoint_data l.pending_inputs e in
    let old = All-get_local _ idx l p.locals v.locals here in
    record {
      locals =
          set_local-All _ idx _ p.locals
            (record { vectors = λ e. (moved e).1 ∙ old.vectors e; shared = old.shared }) v.locals;
      clients = λ e h. ground (arith, v.clients e, moved e);
    }

pub packet-IsValid :
    (unique_id endpoint buffer : ℕ) (p q : Plugin)
    → handle_network_packet unique_id endpoint buffer p ≡ some q
    → IsValid p
    → IsValid q
packet-IsValid unique_id endpoint buffer p q h v =
    let w = handle_network_packet-Handled unique_id endpoint buffer p q h in
    let (q', h', valid) =
      handle_network_packet-total unique_id endpoint buffer p
        (get_local-lt unique_id w.old p.locals w.here) v in
    subst IsValid (ground arith) valid

pub drop_endpoint-IsValid :
    (endpoint : ℕ) (p q : Plugin) → drop_endpoint endpoint p ≡ some q → IsValid p → IsValid q
drop_endpoint-IsValid endpoint p q h v = elim (Bool-cases (mem endpoint p.endpoints)) [
  | inl known ↦
      let (q', h', valid, _, _, _, _) = drop_endpoint-forgets endpoint p known v in
      subst IsValid (ground arith) valid
  | inr unknown ↦ absurd (ground (arith, drop_endpoint-unknown endpoint p unknown))
]

pub blanks-All : (threads : ℕ) → All (IsLocal []) (blanks threads)
blanks-All zero = tt
blanks-All (suc threads) =
    (record { vectors = λ e. refl; shared = λ e h. absurd (cc) }, blanks-All threads)

-- The number of threads stays.
length-set_local : (id : ℕ) (v : Local) (ls : List Local) → length (set_local id v ls) ≡ length ls
length-set_local id v [] = refl
length-set_local zero v (l ∷ ls) = refl
length-set_local (suc id) v (l ∷ ls) = ap (λ n. suc n) (length-set_local id v ls)

length-map : (f : Local → Local) (ls : List Local) → length (map f ls) ≡ length ls
length-map f [] = refl
length-map f (l ∷ ls) = ap (λ n. suc n) (length-map f ls)

pub packet-length :
    (unique_id endpoint buffer : ℕ) (p q : Plugin)
    → handle_network_packet unique_id endpoint buffer p ≡ some q
    → length q.locals ≡ length p.locals
packet-length unique_id endpoint buffer p q h =
    let w = handle_network_packet-Handled unique_id endpoint buffer p q h in
    ap (length) w.locals ∙ length-set_local unique_id w.new p.locals

pub accumulate_local-length :
    (idx : ℕ) (l : Local) (p : Plugin) → length (accumulate_local idx l p).locals ≡ length p.locals
unfolding accumulate_local
accumulate_local-length idx l p = length-set_local idx _ p.locals

pub announce-length : (d : Derived) (p : Plugin) → length (announce d p).0.locals ≡ length p.locals
unfolding announce
announce-length d p = ap (length) (disconnect_all_lem (after_new_clients d p.new_endpoints) _).0

pub run_clients-length :
    (d : Derived) (p : Plugin) → length (run_clients d p).0.locals ≡ length p.locals
unfolding run_clients
run_clients-length d p = ap (length) (disconnect_all_lem (after_inputs d p.endpoint_data) _).0

pub post_tick-length :
    (d : Derived) (diff : ℕ) (p : Plugin) → length (post_tick d diff p).0.locals ≡ length p.locals
unfolding post_tick
post_tick-length d diff p = ap (length) (disconnect_all_lem (d.after_network_tick diff) p).0

pub drop_endpoint-length :
    (endpoint : ℕ) (p q : Plugin)
    → drop_endpoint endpoint p ≡ some q
    → length q.locals ≡ length p.locals
unfolding drop_endpoint
drop_endpoint-length endpoint p q h = ground (arith, length-map (drop_local endpoint) p.locals)
