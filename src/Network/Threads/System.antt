-- ===== src/Network/Threads/System.antt =====
-- The threads of core/coreloop_network_plugin.hpp, interleaved: the jobs of packets run,
-- anyone asks for disconnects, and one thread ticks. A section that holds its lock is one step. The job
-- of a packet runs on a pool of workers, so the jobs of one network thread run in any order.
use sekkeizu.Base.{ℕ, zero, suc, ◌≡◌, ◌≢◌, none, some, List, [], ◌∷◌, ◌++◌, ◌==◌, if◌then◌else◌}
use sekkeizu.Network.Defs.{
  Local, Plugin, Event, on_disconnected, Derived, new_plugin, disconnect, get_local, set_local,
  handle_network_packet,
}
use sekkeizu.Network.Tick.{announce, accumulate_inputs, run_clients, post_tick, drop_endpoint}

-- Where the thread that ticks is: between two ticks, before the inputs of a thread, behind the jobs
-- of the clients, before the lock of the pending disconnects, or in the loop over them.
pub data Phase : Type 0 where
  idle : Phase
  accumulating : ℕ → Phase
  ran : Phase
  posted : Phase
  dropping : List ℕ → Phase

-- The plugin, the callbacks so far, and what the jobs of each thread stored for each endpoint since it
-- was last disconnected, in the order in which they stored it.
pub record System : Type 0 where
  pub plugin : Plugin
  pub phase : Phase
  pub events : List Event
  pub stored : ℕ → ℕ → List ℕ

-- The inputs of one thread move to the clients.
unfoldable pub accumulate_local : ℕ → Local → Plugin → Plugin
accumulate_local idx l p =
    let moved = accumulate_inputs p.endpoint_data l.pending_inputs in
    record p {
      endpoint_data = moved.0;
      locals = set_local idx (record l { pending_inputs = moved.1 }) p.locals;
    }

-- One more buffer from the endpoint on the thread.
abbrev pub log : ℕ → ℕ → ℕ → (ℕ → ℕ → List ℕ) → ℕ → ℕ → List ℕ
log unique_id endpoint buffer stored i e =
    if unique_id == i
    then (if endpoint == e then stored i e ++ buffer ∷ [] else stored i e)
    else stored i e

-- Nothing from the endpoint.
abbrev pub forget : ℕ → (ℕ → ℕ → List ℕ) → ℕ → ℕ → List ℕ
forget endpoint stored i e = if endpoint == e then [] else stored i e

-- `max_concurrent_threads` threads that know nobody.
abbrev pub blanks : ℕ → List Local
blanks zero = []
blanks (suc threads) = record { local_endpoints = []; pending_inputs = [] } ∷ blanks threads

-- A plugin whose threads know nobody yet.
abbrev pub fresh : List Local → System
fresh locals = record { plugin = new_plugin locals; phase = idle; events = []; stored = λ _ _. [] }

-- A buffer number stands for one packet here, and `from` is the thread that it came in on.
module _ (from : ℕ → ℕ) (d : Derived) where
  pub data Step (s t : System) : Type 0 where
    packet :
        (unique_id endpoint buffer : ℕ) (q : Plugin)
        → from buffer ≡ unique_id
        → handle_network_packet unique_id endpoint buffer s.plugin ≡ some q
        → t ≡ record s { plugin = q; stored = log unique_id endpoint buffer s.stored }
        → Step s t
    -- `disconnect` waits while the loop over the pending disconnects holds their lock.
    asks :
        (endpoint : ℕ)
        → ((endpoints : List ℕ) → s.phase ≢ dropping endpoints)
        → t ≡ record s { plugin = disconnect endpoint s.plugin }
        → Step s t
    announces :
        s.phase ≡ idle
        → t ≡ record s {
          plugin = (announce d s.plugin).0;
          phase = accumulating 0;
          events = s.events ++ (announce d s.plugin).1;
        }
        → Step s t
    accumulates :
        (idx : ℕ) (l : Local)
        → s.phase ≡ accumulating idx
        → get_local idx s.plugin.locals ≡ some l
        → t ≡ record s { plugin = accumulate_local idx l s.plugin; phase = accumulating (suc idx) }
        → Step s t
    runs :
        (idx : ℕ)
        → s.phase ≡ accumulating idx
        → get_local idx s.plugin.locals ≡ none
        → t ≡ record s {
          plugin = (run_clients d s.plugin).0;
          phase = ran;
          events = s.events ++ (run_clients d s.plugin).1;
        }
        → Step s t
    posts :
        (diff : ℕ)
        → s.phase ≡ ran
        → t ≡ record s {
          plugin = (post_tick d diff s.plugin).0;
          phase = posted;
          events = s.events ++ (post_tick d diff s.plugin).1;
        }
        → Step s t
    locks :
        s.phase ≡ posted → t ≡ record s { phase = dropping s.plugin.pending_disconnects } → Step s t
    drops :
        (endpoint : ℕ) (endpoints : List ℕ) (q : Plugin)
        → s.phase ≡ dropping (endpoint ∷ endpoints)
        → drop_endpoint endpoint s.plugin ≡ some q
        → t ≡ record {
          plugin = q;
          phase = dropping endpoints;
          events = s.events ++ on_disconnected endpoint ∷ [];
          stored = forget endpoint s.stored;
        }
        → Step s t
    unlocks :
        s.phase ≡ dropping []
        → t ≡ record s { plugin = record (s.plugin) { pending_disconnects = [] }; phase = idle }
        → Step s t

  pub data Reach : System → Type 0 where
    start : (threads : ℕ) → Reach (fresh (blanks threads))
    next : {s t : System} → Reach s → Step s t → Reach t
